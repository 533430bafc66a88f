-- ===== src/Bundle/Disk/Leaves.antt =====
-- What the changes of the disk leave alone.
use detc.Base.{
  ◌≡◌, ◌∙◌, refl, sym, ap, ◌++◌, append-nil, append_assoc, split, join-split, subst, ℕ, Bool, true,
  false, inl, inr, Option, none, some, List, [], ◌∷◌, Result, ok, err, Text, text_eq, text_eq_iff,
  is_empty, filter, All, Bool-cases, Result-cases, if_both, arith,
}
use detc.Base.Trim.{trim}
use detc.Base.Lines.{lines}
use detc.Base.Dict.{find_in, find_in-put_in, find_in-drop_in}
use detc.Bundle.Place.{Fault, begins, ours, installed_path, kept_path, data_path, kept_prefix}
use detc.Bundle.Place.Safe.{place-IsPlace}
use detc.Bundle.Led.{up, led_from, led_to, entered}
use detc.Bundle.Disk.{
  File, Disk, Host, Io, followed, ◌>>>=◌, ◌>>>◌, state_suffix, files_suffix, kept_suffix, path_of,
  recorded, recorded_lines, recorded_text, read_text, write_file, write_files, remove_at,
  remove_file, unlink, unlink_all, discard,
}
use detc.Bundle.Disk.Listed.{All-add_path}
use detc.Bundle.Open.Contents.{IsMember}

-- A path that is in neither tree of the bundles, nor in the directory of what was kept.
pub record IsOutside (path : Text) : Type 0 where
  pub not_ours : ours path ≡ false
  pub not_kept : begins kept_prefix path ≡ false

-- What another path holds is left as it is.
abbrev pub Leaves : {A : Type 0} → Text → Io A → Type 0
Leaves path m = (d : Disk) → find_in path (m d).1 ≡ find_in path d

pub followed-Leaves :
    {A B : Type 0} (path : Text) (f : A → Io B) (d : Disk) (r : Result Fault A × Disk)
    → find_in path r.1 ≡ find_in path d
    → ((a : A) → Leaves path (f a))
    → find_in path (followed f r.0 r.1).1 ≡ find_in path d
followed-Leaves path f d (ok a, e) g h = h a e ∙ g
followed-Leaves path f d (err x, e) g h = g

pub >>>=-Leaves :
    {A B : Type 0} (path : Text) (m : Io A) (f : A → Io B)
    → Leaves path m
    → ((a : A) → Leaves path (f a))
    → Leaves path (m >>>= f)
>>>=-Leaves path m f g h d = followed-Leaves path f d (m d) (g d) h

pub write_file-Leaves :
    (host : Host) (path at content : Text) (mode : ℕ)
    → text_eq at path ≡ false
    → Leaves path (write_file host at content mode)
unfolding write_file
write_file-Leaves host path at content mode h d = elim (Bool-cases (host.no_write d at)) [
  | inl e ↦ rw e refl
  | inr e ↦ rw (e, find_in-put_in at path (record { mode = mode; content = content }) d, h) refl
]

remove_at-Leaves :
    (host : Host) (path asked at : Text)
    → text_eq at path ≡ false
    → Leaves path (remove_at host asked at)
unfolding remove_at
remove_at-Leaves host path asked at h d = elim (Bool-cases (host.no_remove d at)) [
  | inl e ↦ rw e refl
  | inr e ↦ rw (e, find_in-drop_in at path d, h) refl
]

pub remove_file-Leaves :
    (host : Host) (path at : Text) → text_eq at path ≡ false → Leaves path (remove_file host at)
unfolding remove_file
remove_file-Leaves host path at h = remove_at-Leaves host path at at h

-- A path that has no component `..`.
abbrev pub StaysBelow : Text → Type 0
StaysBelow p = All (λ c. text_eq c up ≡ false) (split b'/' p)

led_from-below :
    (d : Disk) (here cs : List Text)
    → All (λ c. text_eq c up ≡ false) cs
    → led_from d (some here) cs ≡ some (here ++ cs)
unfolding led_from entered
led_from-below d here [] h = ap some (sym (append-nil here))
led_from-below d here (c ∷ cs) h =
    rw h.0 (led_from-below d (here ++ (c ∷ [])) cs h.1 ∙ ap some (append_assoc here (c ∷ []) cs))

-- Such a path leads to itself.
led_to-below : (d : Disk) (p : Text) → StaysBelow p → led_to d p ≡ some p
unfolding led_to
led_to-below d p h = rw (led_to, led_from-below d [] (split b'/' p) h) (ap some (join-split b'/' p))

-- What the removal of a bundle is handed: a path of the two trees that has no component `..`.
abbrev pub IsBelow : Text → Type 0
IsBelow p = (ours p ≡ true) × StaysBelow p

-- A path of the two trees, or a kept one, is not outside.
pub ours_apart : (path at : Text) → IsOutside path → ours at ≡ true → text_eq at path ≡ false
ours_apart path at h k = elim (Bool-cases (text_eq at path)) [
  | inl e ↦ absurd (ground (arith, k, h.not_ours, ap ours ((text_eq_iff at path).0 e)))
  | inr e ↦ e
]

pub kept_apart :
    (path at : Text) → IsOutside path → begins kept_prefix at ≡ true → text_eq at path ≡ false
kept_apart path at h k = elim (Bool-cases (text_eq at path)) [
  | inl e ↦
      absurd (ground (arith, k, h.not_kept, ap (begins kept_prefix) ((text_eq_iff at path).0 e)))
  | inr e ↦ e
]

pub installed_path-ours : (n s : Text) → ours (installed_path n s) ≡ true
unfolding ours installed_path data_path text_eq
installed_path-ours n s = refl

pub kept_path-kept : (n s : Text) → begins kept_prefix (kept_path n s) ≡ true
unfolding kept_path
kept_path-kept n s = refl

unlink-Leaves :
    (host : Host) (path p : Text) → IsOutside path → IsBelow p → Leaves path (unlink host p)
unfolding unlink
unlink-Leaves host path p h k d =
    rw (unlink, led_to-below d p k.1) (remove_at-Leaves host path p p (ours_apart path p h k.0) d)

pub unlink_all-Leaves :
    (host : Host) (path : Text) (paths : List Text)
    → IsOutside path
    → All IsBelow paths
    → Leaves path (unlink_all host paths)
unfolding unlink_all
unlink_all-Leaves host path [] h k = λ d. refl
unlink_all-Leaves host path (p ∷ paths) h k =
    >>>=-Leaves path (unlink host p) (λ _. unlink_all host paths) (unlink-Leaves host path p h k.0)
      (λ _. unlink_all-Leaves host path paths h k.1)

pub write_files-Leaves :
    (host : Host) (path : Text) (files : List (Text × ℕ × Text))
    → IsOutside path
    → All IsMember files
    → Leaves path (write_files host files)
unfolding write_files
write_files-Leaves host path [] h k = λ d. refl
write_files-Leaves host path ((at, mode, content) ∷ rest) h k =
    >>>=-Leaves path (write_file host at content mode) (λ _. write_files host rest)
      (write_file-Leaves host path at content mode
        (ours_apart path at h (place-IsPlace k.0.name at mode k.0.placed).is_ours))
      (λ _. write_files-Leaves host path rest h k.1)

pub discard-Leaves :
    (host : Host) (path name : Text) → IsOutside path → Leaves path (discard host name)
unfolding discard
discard-Leaves host path name h =
    let gone = λ (s : Text).
      remove_file-Leaves host path (kept_path name s)
        (kept_apart path (kept_path name s) h (kept_path-kept name s)) in
    >>>=-Leaves path (remove_file host (kept_path name kept_suffix))
      (λ _.
        remove_file host (kept_path name state_suffix)
        >>> remove_file host (kept_path name files_suffix))
      (gone kept_suffix)
      (λ _.
        >>>=-Leaves path (remove_file host (kept_path name state_suffix))
          (λ _. remove_file host (kept_path name files_suffix)) (gone state_suffix)
          (λ _. gone files_suffix))

abbrev IsOurs : Text → Type 0
IsOurs p = ours p ≡ true

recorded_lines-IsOurs : (ls : List Text) → All IsOurs (recorded_lines ls)
unfolding recorded_lines
recorded_lines-IsOurs [] = tt
recorded_lines-IsOurs (l ∷ ls) = elim (Bool-cases (is_empty (trim l))) [
  | inl e ↦ rw (recorded_lines, e) (recorded_lines-IsOurs ls)
  | inr e ↦ elim (Bool-cases (ours (path_of l))) [
    | inl f ↦
        rw (recorded_lines, e, f)
          (All-add_path IsOurs (path_of l) (recorded_lines ls) f (recorded_lines-IsOurs ls))
    | inr f ↦ rw (recorded_lines, e, f) (recorded_lines-IsOurs ls)
  ]
]

recorded_text-IsOurs : (f : Option File) → All IsOurs (recorded_text f)
unfolding recorded_text
recorded_text-IsOurs none = tt
recorded_text-IsOurs (some f) = recorded_lines-IsOurs (lines f.content)

pub filter-All :
    (P : Text → Type 0) (keep : Text → Bool) (ps : List Text) → All P ps → All P (filter keep ps)
filter-All P keep [] h = tt
filter-All P keep (p ∷ ps) h =
    if_both (All P) (keep p) (p ∷ filter keep ps) (filter keep ps)
      (λ _. (h.0, filter-All P keep ps h.1)) (λ _. filter-All P keep ps h.1)

-- No list of a bundle that is installed has a path with a component `..` in it.
unfoldable pub NoneClimbs : Disk → Type 0
unfolding recorded_text find_in
NoneClimbs d =
    (name : Text) → All StaysBelow (recorded_text (find_in (installed_path name files_suffix) d))

both_All : (P Q : Text → Type 0) (ps : List Text) → All P ps → All Q ps → All (λ p. P p × Q p) ps
both_All P Q [] h k = tt
both_All P Q (p ∷ ps) h k = ((h.0, k.0), both_All P Q ps h.1 k.1)

read_text-ok :
    (host : Host) (at : Text) (d : Disk) (f : Option File)
    → read_text host at d ≡ ok f
    → find_in at d ≡ f
unfolding read_text
read_text-ok host at d f h = ground (arith, h)

pub recorded-IsBelow :
    (host : Host) (name : Text) (d : Disk) (ps : List Text)
    → NoneClimbs d
    → recorded host (installed_path name files_suffix) d ≡ ok ps
    → All IsBelow ps
unfolding recorded NoneClimbs
recorded-IsBelow host name d ps below h =
    elim (Result-cases (read_text host (installed_path name files_suffix) d)) [
      | inl (f, e) ↦
          subst (All IsBelow) {x = recorded_text f} (ground (arith, rw (recorded, e) at h)) (
            both_All IsOurs StaysBelow (recorded_text f) (recorded_text-IsOurs f) (
              subst (λ g. All StaysBelow (recorded_text g))
                (read_text-ok host (installed_path name files_suffix) d f e) (below name)))
      | inr (x, e) ↦ absurd (ground (arith, rw (recorded, e) at h))
    ]
