-- ===== src/Archive/Name/Plain.antt =====
-- A name is accepted exactly when it is written plainly: components that are not empty, `.` or `..`
-- and hold no NUL, with one slash between them.
use detc.Base.{
  ◌≡◌, refl, sym, subst, ℕ, Bool, true, false, List, [], ◌∷◌, ok, Text, codes, text_eq, split, join,
  contains, ends_with, is_empty, ◌==◌, if◌then◌else◌, All, Has, All-imp, split-join, join-split,
  Bool-cases, inl, inr, arith, push_first,
}
use detc.Archive.Name.{slash, starts_with, check_components, check}

pub record IsPlain (c : Text) : Type 0 where
  pub filled : is_empty c ≡ false
  pub not_dot : text_eq c (codes ".") ≡ false
  pub not_dots : text_eq c (codes "..") ≡ false
  pub no_nul : contains 0 c ≡ false

NoNul_push :
    (c : ℕ) (r : List Text)
    → c == 0 ≡ false
    → All (λ p. contains 0 p ≡ false) r
    → All (λ p. contains 0 p ≡ false) (if c == slash then [] ∷ r else push_first c r)
NoNul_push c [] z h = elim (Bool-cases (c == slash)) [
  | inl e ↦ rw e (refl, tt)
  | inr e ↦ rw e (ground arith, tt)
]
NoNul_push c (p ∷ ps) z h = elim (Bool-cases (c == slash)) [
  | inl e ↦ rw e (refl, h)
  | inr e ↦ rw e (ground arith, h.1)
]

-- A name without NUL has pieces without it.
pieces_no_nul :
    (name : Text) → contains 0 name ≡ false → All (λ p. contains 0 p ≡ false) (split slash name)
unfolding split
pieces_no_nul [] h = (refl, tt)
pieces_no_nul (c ∷ cs) h =
    NoNul_push c (split slash cs) (ground arith) (pieces_no_nul cs (ground arith))

components-IsPlain :
    (ps : List Text)
    → All (λ p. contains 0 p ≡ false) ps
    → check_components ps ≡ ok tt
    → All IsPlain ps
unfolding check_components
components-IsPlain [] n h = tt
components-IsPlain (p ∷ ps) n h = (
  record { filled = ground arith; not_dot = ground arith; not_dots = ground arith; no_nul = n.0 },
  components-IsPlain ps n.1 (ground arith),
)

-- The tests before the loop.
check_parts :
    (name : Text)
    → check name ≡ ok tt
    → (contains 0 name ≡ false) × (check_components (split slash name) ≡ ok tt)
unfolding check
check_parts name h = (ground arith, ground arith)

-- A name that `check` accepts is components that are filled, neither `.` nor `..` and free of
-- NUL, joined by slashes.
pub check-IsPlain :
    (name : Text)
    → check name ≡ ok tt
    → All IsPlain (split slash name) × (join slash (split slash name) ≡ name)
check-IsPlain name h =
    let (n, rest) = check_parts name h in
    (components-IsPlain (split slash name) (pieces_no_nul name n) rest, join-split slash name)

plain_components : (ps : List Text) → All IsPlain ps → check_components ps ≡ ok tt
unfolding check_components
plain_components [] h = refl
plain_components (p ∷ ps) h =
    ground (arith, plain_components ps h.1, h.0.filled, h.0.not_dot, h.0.not_dots)

filled_pieces : (ps : List Text) → All IsPlain ps → ¬ (Has [] ps)
filled_pieces [] h m = m
filled_pieces (p ∷ ps) h (inl e) = empty_false (subst (λ t. is_empty t ≡ false) (sym e) h.0.filled)
  where
    empty_false : ¬ (is_empty {A = ℕ} [] ≡ false)
    empty_false x = cc
filled_pieces (p ∷ ps) h (inr m) = filled_pieces ps h.1 m

-- A name that ends in a slash has an empty piece behind its first.
ends_step :
    (c : ℕ) (r : List Text)
    → (p : Text) × (ps : List Text) × (r ≡ p ∷ ps) × Has [] ps
    → (p : Text) × (ps : List Text) × ((if c == slash then [] ∷ r else push_first c r) ≡ p ∷ ps)
      × Has [] ps
ends_step c r (p, ps, e, h) = elim (Bool-cases (c == slash)) [
  | inl s ↦ ([], p ∷ ps, rw (s, e) refl, inr h)
  | inr s ↦ (c ∷ p, ps, rw (s, e) refl, h)
]

ends_pieces :
    (name : Text)
    → ends_with slash name ≡ true
    → (p : Text) × (ps : List Text) × (split slash name ≡ p ∷ ps) × Has [] ps
unfolding split
ends_pieces [] h = absurd (false_ne_true h)
  where
    false_ne_true : ¬ (◌≡◌ {A = Bool} false true)
    false_ne_true x = cc
ends_pieces (c ∷ []) h = ([], [] ∷ [], ground arith, inl refl)
ends_pieces (c ∷ d ∷ cs) h = ends_step c (split slash (d ∷ cs)) (ends_pieces (d ∷ cs) h)

empty_piece_end : (name : Text) → ends_with slash name ≡ true → Has [] (split slash name)
empty_piece_end name h = let (p, ps, e, m) = ends_pieces name h in subst (Has []) (sym e) (inr m)

empty_piece_start : (name : Text) → starts_with slash name ≡ true → Has [] (split slash name)
unfolding split
empty_piece_start [] h = inl refl
empty_piece_start (c ∷ cs) h = rw h (inl refl)

empty_piece : (name : Text) → is_empty name ≡ true → Has [] (split slash name)
unfolding split
empty_piece [] h = inl refl
empty_piece (c ∷ cs) h = absurd (false_ne_true h)
  where
    false_ne_true : ¬ (◌≡◌ {A = Bool} false true)
    false_ne_true x = cc

nul_step :
    (c : ℕ) (r : List Text)
    → All (λ p. contains 0 p ≡ false) (if c == slash then [] ∷ r else push_first c r)
    → (c == 0 ≡ false) × All (λ p. contains 0 p ≡ false) r
nul_step c [] h = (
  elim (Bool-cases (c == slash)) [ inl e ↦ ground arith | inr e ↦ ground (arith, (rw e at h).0) ],
  tt,
)
nul_step c (p ∷ ps) h = elim (Bool-cases (c == slash)) [
  | inl e ↦ let h' = rw e at h in (ground arith, h'.1)
  | inr e ↦ let h' = rw e at h in (ground (arith, h'.0), (ground (arith, h'.0), h'.1))
]

no_nul_joined :
    (name : Text) → All (λ p. contains 0 p ≡ false) (split slash name) → contains 0 name ≡ false
unfolding split
no_nul_joined [] h = refl
no_nul_joined (c ∷ cs) h =
    let (z, later) = nul_step c (split slash cs) h in ground (arith, no_nul_joined cs later)

false_of : (b : Bool) → ¬ (b ≡ true) → b ≡ false
false_of true h = absurd (h refl)
false_of false h = refl

check_passes :
    (name : Text)
    → is_empty name ≡ false
    → contains 0 name ≡ false
    → starts_with slash name ≡ false
    → ends_with slash name ≡ false
    → check_components (split slash name) ≡ ok tt
    → check name ≡ ok tt
unfolding check
check_passes name e n s d c = ground (arith, e, n, s, d, c)

plain_split : (name : Text) → All IsPlain (split slash name) → check name ≡ ok tt
plain_split name h =
    let no_empty = filled_pieces (split slash name) h in
    check_passes name (false_of (is_empty name) (λ e. no_empty (empty_piece name e)))
      (no_nul_joined name
        (All-imp IsPlain (λ p. contains 0 p ≡ false) (split slash name) (λ p t. t.no_nul) h))
      (false_of (starts_with slash name) (λ e. no_empty (empty_piece_start name e)))
      (false_of (ends_with slash name) (λ e. no_empty (empty_piece_end name e)))
      (plain_components (split slash name) h)

-- Any such components without a slash in them, at least one, joined by slashes make a name that
-- `check` accepts.
pub join-check :
    (p : Text) (ps : List Text)
    → All IsPlain (p ∷ ps)
    → All (λ q. contains slash q ≡ false) (p ∷ ps)
    → check (join slash (p ∷ ps)) ≡ ok tt
join-check p ps plain free =
    plain_split (join slash (p ∷ ps)) (subst (All IsPlain) (sym (split-join slash p ps free)) plain)
