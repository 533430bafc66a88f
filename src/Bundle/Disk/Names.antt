-- ===== src/Bundle/Disk/Names.antt =====
-- The names that a directory holds an entry for are those of the files in it.
use detc.Base.{
  ◌≡◌, refl, sym, ap, subst, ℕ, Bool, true, false, inl, inr, Option, none, some, List, [], ◌∷◌,
  ◌++◌, ok, Text, text_eq, text_eq_iff, text_lt, if_both, contains, length, length-append, all, All,
  Has, Bool-cases, Option-cases, split_single, if◌then◌else◌, ◌==◌, arith,
}
use detc.Base.Dict.{Dict, find_in, put_in, find_in-put_in}
use detc.Bundle.Place.{installed_path, kept_path, data_path, named_well, name_byte}
use detc.Bundle.Disk.{
  File, Disk, Host, files_suffix, installed_dir, kept_dir, names, names_in, entry_names, entry_of,
  name_of_entry, strip_suffix, add_name,
}

-- A suffix is stripped from what it ends.
strip_suffix_self : (s : Text) → strip_suffix s s ≡ some []
unfolding strip_suffix
strip_suffix_self [] = refl
strip_suffix_self (c ∷ s) = rw ((text_eq_iff (c ∷ s) (c ∷ s)).1 refl) refl

longer : (c : ℕ) (a s : Text) → text_eq (c ∷ (a ++ s)) s ≡ false
longer c a s = elim (Bool-cases (text_eq (c ∷ (a ++ s)) s)) [
  | inl e ↦
      absurd (omega (arith, length-append a s, ap length ((text_eq_iff (c ∷ (a ++ s)) s).0 e)))
  | inr e ↦ e
]

pub strip_suffix-append : (a s : Text) → strip_suffix s (a ++ s) ≡ some a
unfolding strip_suffix
strip_suffix-append [] s = strip_suffix_self s
strip_suffix-append (c ∷ a) s = rw (longer c a s, strip_suffix-append a s) refl

-- A name that is written well has no slash.
pub name_bytes_plain : (n : Text) → all name_byte n ≡ true → contains b'/' n ≡ false
name_bytes_plain [] h = refl
name_bytes_plain (c ∷ n) h = elim (Bool-cases (c == b'/')) [
  | inl e ↦ absurd (ground (arith, e, h))
  | inr e ↦ ground (arith, e, name_bytes_plain n (ground (arith, h)))
]

pub contains-append :
    (b : ℕ) (x y : Text) → contains b x ≡ false → contains b y ≡ false → contains b (x ++ y) ≡ false
contains-append b [] y h k = k
contains-append b (c ∷ x) y h k = ground (arith, contains-append b x y)

well_named_file : (n : Text) → named_well n ≡ true → contains b'/' (n ++ files_suffix) ≡ false
unfolding named_well
well_named_file n h =
    contains-append b'/' n files_suffix (name_bytes_plain n (ground (arith, h))) refl

installed_entry :
    (n : Text)
    → named_well n ≡ true
    → name_of_entry files_suffix (entry_of installed_dir (installed_path n files_suffix)) ≡ some n
unfolding entry_of name_of_entry installed_dir installed_path data_path
installed_entry n h =
    rw
      (
        split_single b'/' (n ++ files_suffix) (well_named_file n h),
        name_of_entry,
        strip_suffix-append n files_suffix,
        h,
      )
      refl

kept_entry :
    (n : Text)
    → named_well n ≡ true
    → name_of_entry files_suffix (entry_of kept_dir (kept_path n files_suffix)) ≡ some n
unfolding entry_of name_of_entry kept_dir kept_path
kept_entry n h =
    rw
      (
        split_single b'/' (n ++ files_suffix) (well_named_file n h),
        name_of_entry,
        strip_suffix-append n files_suffix,
        h,
      )
      refl

abbrev is_there : {A : Type 0} → Option A → Bool
is_there none = false
is_there (some a) = true

there-add_name :
    (o : Option Text) (a : Text) (m : Dict (Unit {0}))
    → is_there (find_in a m) ≡ true
    → is_there (find_in a (add_name o m)) ≡ true
unfolding add_name
there-add_name none a m h = h
there-add_name (some b) a m h = rw (find_in-put_in b a tt m) (ground (arith, h))

none-some : {A : Type 0} {a : A} → ¬ (none ≡ some a)
none-some h = cc

names_in-there :
    (dir suffix path a : Text) (f : File) (d : Disk)
    → find_in path d ≡ some f
    → name_of_entry suffix (entry_of dir path) ≡ some a
    → is_there (find_in a (names_in dir suffix d)) ≡ true
unfolding names_in add_name find_in
names_in-there dir suffix path a f [] h k = absurd (none-some h)
names_in-there dir suffix path a f ((j, w) ∷ d) h k = elim (Bool-cases (text_eq j path)) [
  | inl e ↦
      subst
        (λ p.
          is_there
            (find_in a (add_name (name_of_entry suffix (entry_of dir p)) (names_in dir suffix d)))
          ≡ true)
        (sym ((text_eq_iff j path).0 e))
        (rw k (rw (find_in-put_in a a tt (names_in dir suffix d), (text_eq_iff a a).1 refl) refl))
  | inr e ↦
      there-add_name (name_of_entry suffix (entry_of dir j)) a (names_in dir suffix d)
        (names_in-there dir suffix path a f d (rw e at h) k)
]

there-Has : (a : Text) (m : Dict (Unit {0})) → is_there (find_in a m) ≡ true → Has a (entry_names m)
unfolding find_in
there-Has a [] h = absurd (ground (arith, h))
there-Has a ((j, u) ∷ m) h = elim (Bool-cases (text_eq j a)) [
  | inl e ↦ inl (sym ((text_eq_iff j a).0 e))
  | inr e ↦ inr (there-Has a m (rw e at h))
]

abbrev WellNamed : Text → Type 0
WellNamed n = named_well n ≡ true

put_in-All :
    (a : Text) (m : Dict (Unit {0}))
    → WellNamed a
    → All WellNamed (entry_names m)
    → All WellNamed (entry_names (put_in a tt m))
unfolding put_in
put_in-All a [] h k = (h, tt)
put_in-All a ((j, u) ∷ m) h k =
    let keeps = λ (t : Dict (Unit {0})). All WellNamed (entry_names t) in
    if_both keeps (text_eq j a) ((a, tt) ∷ m)
      (if text_lt a j then (a, tt) ∷ (j, u) ∷ m else (j, u) ∷ put_in a tt m) (λ _. (h, k.1))
      (λ _.
        if_both keeps (text_lt a j) ((a, tt) ∷ (j, u) ∷ m) ((j, u) ∷ put_in a tt m) (λ _. (h, k))
          (λ _. (k.0, put_in-All a m h k.1)))

entry-WellNamed :
    (suffix a : Text) (o : Option Text) → name_of_entry suffix o ≡ some a → WellNamed a
unfolding name_of_entry
entry-WellNamed suffix a none h = absurd (ground (arith, h))
entry-WellNamed suffix a (some t) h = elim (Option-cases (strip_suffix suffix t)) [
  | inl e ↦ absurd (ground (arith, rw (name_of_entry, e) at h))
  | inr (n, e) ↦ elim (Bool-cases (named_well n)) [
    | inl w ↦ subst WellNamed {x = n} {y = a} (ground (arith, rw (name_of_entry, e, w) at h)) w
    | inr w ↦ absurd (ground (arith, rw (name_of_entry, e, w) at h))
  ]
]

names_in-WellNamed :
    (dir suffix : Text) (d : Disk) → All WellNamed (entry_names (names_in dir suffix d))
unfolding names_in add_name
names_in-WellNamed dir suffix [] = tt
names_in-WellNamed dir suffix ((path, f) ∷ d) =
    elim (Option-cases (name_of_entry suffix (entry_of dir path))) [
      | inl e ↦ rw e (names_in-WellNamed dir suffix d)
      | inr (a, e) ↦ rw e (
          put_in-All a (names_in dir suffix d) (entry-WellNamed suffix a (entry_of dir path) e)
            (names_in-WellNamed dir suffix d))
    ]

pub names-WellNamed :
    (host : Host) (dir suffix : Text) (d : Disk) (ns : List Text)
    → names host dir suffix d ≡ ok ns
    → All WellNamed ns
unfolding names
names-WellNamed host dir suffix d ns h = elim (Bool-cases (host.no_list d dir)) [
  | inl e ↦ absurd (ground (arith, rw e at h))
  | inr e ↦ subst (All WellNamed) (ground (arith, rw e at h)) (names_in-WellNamed dir suffix d)
]

names-Has :
    (host : Host) (dir suffix path a : Text) (f : File) (d : Disk) (ns : List Text)
    → names host dir suffix d ≡ ok ns
    → find_in path d ≡ some f
    → name_of_entry suffix (entry_of dir path) ≡ some a
    → Has a ns
unfolding names
names-Has host dir suffix path a f d ns h k e = elim (Bool-cases (host.no_list d dir)) [
  | inl l ↦ absurd (ground (arith, rw l at h))
  | inr l ↦
      subst (Has a) (ground (arith, rw l at h))
        (there-Has a (names_in dir suffix d) (names_in-there dir suffix path a f d k e))
]

-- A bundle whose list is there is one of the names.
pub installed_names :
    (host : Host) (a : Text) (f : File) (d : Disk) (ns : List Text)
    → named_well a ≡ true
    → names host installed_dir files_suffix d ≡ ok ns
    → find_in (installed_path a files_suffix) d ≡ some f
    → Has a ns
installed_names host a f d ns w h k =
    names-Has host installed_dir files_suffix (installed_path a files_suffix) a f d ns h k
      (installed_entry a w)

pub kept_names :
    (host : Host) (a : Text) (f : File) (d : Disk) (ns : List Text)
    → named_well a ≡ true
    → names host kept_dir files_suffix d ≡ ok ns
    → find_in (kept_path a files_suffix) d ≡ some f
    → Has a ns
kept_names host a f d ns w h k =
    names-Has host kept_dir files_suffix (kept_path a files_suffix) a f d ns h k (kept_entry a w)
