-- ===== src/Bundle/Disk/Listed.antt =====
-- The list of what a bundle wrote is read back as the paths that are in it.
use detc.Base.{
  ◌≡◌, ◌∙◌, refl, sym, ap, subst, ℕ, true, false, ◌⊎◌, inl, inr, List, [], ◌∷◌, ◌++◌, append-nil,
  Text, codes, text_eq, split, join, join-split, split-cons, split_single, contains, all, filter,
  is_empty, All, All-Has, All-imp, Has, Bool-cases, if_both, if◌then◌else◌, arith,
}
use detc.Base.Lines.{IsLine, IsLine-append, breaks, lines, unlines, lines-unlines}
use detc.Base.Trim.{trim}
use detc.Ladder.{path_lt}
use detc.Archive.Name.Plain.{IsPlain, check-IsPlain}
use detc.Bundle.Place.Safe.{place-IsPlace}
use detc.Bundle.Disk.Names.{name_bytes_plain, contains-append}
use detc.Bundle.Open.Contents.{IsMember}
use detc.Bundle.Place.{
  data_prefix, exec_prefix, installed_path, data_path, ours, named_well, name_byte,
}
use detc.Bundle.Disk.{
  state_suffix, files_suffix, add_path, path_of, plain_component, recorded_lines, listing,
}

Has-add_path : (p q : Text) (qs : List Text) → Has p (add_path q qs) → (p ≡ q) ⊎ Has p qs
unfolding add_path
Has-add_path p q [] h = h
Has-add_path p q (x ∷ qs) h = elim (Bool-cases (text_eq q x)) [
  | inl e ↦ inr (rw (add_path, e) at h)
  | inr e ↦ elim (Bool-cases (path_lt (split b'/' q) (split b'/' x))) [
    | inl f ↦ rw (add_path, e, f) at h
    | inr f ↦ elim (rw (add_path, e, f) at h) [
      | inl k ↦ inr (inl k)
      | inr k ↦ elim (Has-add_path p q qs k) [ inl m ↦ inl m | inr m ↦ inr (inr m) ]
    ]
  ]
]

further :
    (p l : Text) (ls : List Text)
    → (m : Text) × Has m ls × (p ≡ path_of m)
    → (m : Text) × Has m (l ∷ ls) × (p ≡ path_of m)
further p l ls (m, x, y) = (m, inr x, y)

-- What is recorded is a line of the list.
recorded_lines-from :
    (p : Text) (ls : List Text)
    → Has p (recorded_lines ls)
    → (l : Text) × Has l ls × (p ≡ path_of l)
unfolding recorded_lines
recorded_lines-from p [] h = absurd h
recorded_lines-from p (l ∷ ls) h = elim (Bool-cases (is_empty (trim l))) [
  | inl e ↦ further p l ls (recorded_lines-from p ls (rw (recorded_lines, e) at h))
  | inr e ↦ elim (Bool-cases (ours (path_of l))) [
    | inr f ↦ further p l ls (recorded_lines-from p ls (rw (recorded_lines, e, f) at h))
    | inl f ↦
        elim (Has-add_path p (path_of l) (recorded_lines ls) (rw (recorded_lines, e, f) at h)) [
          | inl k ↦ (l, inl refl, k)
          | inr k ↦ further p l ls (recorded_lines-from p ls k)
        ]
  ]
]

-- A path that a line holds as it is.
abbrev pub IsListed : Text → Type 0
IsListed p = IsLine p × (path_of p ≡ p)

-- Nothing is read back that was not listed.
pub listing-Has :
    (p : Text) (w : List Text)
    → All IsListed w
    → Has p (recorded_lines (lines (listing w)))
    → Has p w
unfolding listing lines
listing-Has p w h k =
    let same =
      ap lines (sym (append-nil (unlines w)))
      ∙ lines-unlines w [] (All-imp IsListed IsLine w (λ l x. x.0) h)
      ∙ append-nil w in
    let (l, there, e) = recorded_lines-from p w (subst (λ ls. Has p (recorded_lines ls)) same k) in
    subst (λ t. Has t w) (sym (e ∙ (All-Has IsListed l w h there).1)) there

pub All-add_path :
    (P : Text → Type 0) (p : Text) (qs : List Text) → P p → All P qs → All P (add_path p qs)
unfolding add_path
All-add_path P p [] h k = (h, tt)
All-add_path P p (q ∷ qs) h k =
    if_both (All P) (text_eq p q) (q ∷ qs)
      (if path_lt (split b'/' p) (split b'/' q) then p ∷ q ∷ qs else q ∷ add_path p qs) (λ _. k)
      (λ _.
        if_both (All P) (path_lt (split b'/' p) (split b'/' q)) (p ∷ q ∷ qs) (q ∷ add_path p qs)
          (λ _. (h, k)) (λ _. (k.0, All-add_path P p qs h k.1)))

abbrev pub KeepsComponent : Text → Type 0
KeepsComponent c = plain_component c ≡ true

filter-KeepsComponent : (ps : List Text) → All KeepsComponent ps → filter plain_component ps ≡ ps
filter-KeepsComponent [] h = refl
filter-KeepsComponent (p ∷ ps) h = rw (h.0, filter-KeepsComponent ps h.1) refl

IsPlain-KeepsComponent : (c : Text) → IsPlain c → KeepsComponent c
IsPlain-KeepsComponent c h = ground (arith, h.filled, h.not_dot)

join-cons :
    (sep : ℕ) (c t : Text) (r : List Text)
    → (p : Text) × (ps : List Text) × (r ≡ p ∷ ps)
    → join sep r ≡ t
    → join sep (c ∷ r) ≡ c ++ (sep ∷ t)
unfolding join
join-cons sep c t [] (p, ps, e) h = cc
join-cons sep c t (q ∷ r) _ h = ap (λ x. c ++ (sep ∷ x)) h

-- What stands in one of the two trees under plain components is a path as it is written.
pub tree-path_of :
    (t : Text)
    → All KeepsComponent (split b'/' t)
    → (path_of (data_prefix ++ t) ≡ data_prefix ++ t)
      × (path_of (exec_prefix ++ t) ≡ exec_prefix ++ t)
unfolding path_of split join text_eq
tree-path_of t h =
    let joined =
      join-cons b'/' (codes "detc") t (split b'/' t) (split-cons b'/' t) (join-split b'/' t) in
    rw (filter-KeepsComponent (split b'/' t) h, joined) (refl, refl)

name_bytes-IsLine : (n : Text) → all name_byte n ≡ true → IsLine n
name_bytes-IsLine [] h = refl
name_bytes-IsLine (c ∷ n) h = elim (Bool-cases (breaks c)) [
  | inl e ↦ absurd (ground (arith, e, h))
  | inr e ↦ ground (arith, e, name_bytes-IsLine n (ground (arith, h)))
]

-- The suffix of a record, which is behind a name.
record IsSuffix (suffix : Text) : Type 0 where
  no_slash : contains b'/' suffix ≡ false
  line : IsLine suffix
  filled : (n : Text) → KeepsComponent (n ++ suffix)

record-IsListed :
    (n suffix : Text) → named_well n ≡ true → IsSuffix suffix → IsListed (installed_path n suffix)
unfolding named_well installed_path data_path split text_eq
record-IsListed n suffix w s =
    let bytes : all name_byte n ≡ true = ground (arith, w) in
    let line = IsLine-append n suffix (name_bytes-IsLine n bytes) s.line in
    let one =
      split_single b'/' (n ++ suffix)
        (contains-append b'/' n suffix (name_bytes_plain n bytes) s.no_slash) in
    (line, (tree-path_of (codes "bundles.d/" ++ (n ++ suffix)) (components one (s.filled n))).0)
  where
    components :
        split b'/' (n ++ suffix) ≡ (n ++ suffix) ∷ []
        → KeepsComponent (n ++ suffix)
        → All KeepsComponent (split b'/' (codes "bundles.d/" ++ (n ++ suffix)))
    components e k = rw e (refl, (k, tt))

longer_than_one : (n : Text) (x : ℕ) (s : Text) → text_eq (n ++ (x ∷ s)) [] ≡ false
unfolding text_eq
longer_than_one [] x s = refl
longer_than_one (c ∷ n) x s = refl

behind_name : (n : Text) (x : ℕ) (s : Text) → KeepsComponent (x ∷ s) → KeepsComponent (n ++ (x ∷ s))
unfolding text_eq
behind_name [] x s h = h
behind_name (c ∷ n) x s h = ground (arith, longer_than_one n x s)

state_suffix-IsSuffix : IsSuffix state_suffix
unfolding text_eq
state_suffix-IsSuffix = record {
  no_slash = refl;
  line = refl;
  filled = λ n. behind_name n b'.' (codes "yaml") refl;
}

files_suffix-IsSuffix : IsSuffix files_suffix
unfolding text_eq
files_suffix-IsSuffix = record {
  no_slash = refl;
  line = refl;
  filled = λ n. behind_name n b'.' (codes "files") refl;
}

pub installed_path-IsListed :
    (n : Text)
    → named_well n ≡ true
    → IsListed (installed_path n state_suffix) × IsListed (installed_path n files_suffix)
installed_path-IsListed n w = (
  record-IsListed n state_suffix w state_suffix-IsSuffix,
  record-IsListed n files_suffix w files_suffix-IsSuffix,
)

-- A member whose path is one line.
pub IsMember-IsListed : (file : Text × ℕ × Text) → IsMember file → IsLine file.0 → IsListed file.0
IsMember-IsListed file m line =
    let paths = tree-path_of m.name (
      All-imp IsPlain KeepsComponent (split b'/' m.name) IsPlain-KeepsComponent
        (check-IsPlain m.name m.accepted).0) in
    elim (place-IsPlace m.name file.0 file.1 m.placed).kind [
      | inl (e, _) ↦ (line, rw e paths.0)
      | inr (e, _) ↦ (line, rw e paths.1)
    ]
