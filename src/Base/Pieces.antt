-- ===== src/Base/Pieces.antt =====
-- Splitting a text at a separator and joining its pieces.
use Prim.Native.Nat.{ℕ}
use mathlib.Core.Bool.{true, false}
use mathlib.Core.List.{List, [], ◌∷◌, ◌++◌}
use mathlib.Core.Logic.{◌⊎◌, inl, inr}
use mathlib.Core.Path.{◌≡◌, refl, ap, ◌∙◌}
use native.Mathlib.Omega.{arith}
use detc.Base.Tests.{◌==◌, if◌then◌else◌, Bool-cases}
use detc.Base.Lists.{All}
use detc.Base.Str.{Text, push_first, split, join, contains}

-- A text always has a first piece.
pub split-cons : (sep : ℕ) (cs : Text) → (p : Text) × (ps : List Text) × (split sep cs ≡ p ∷ ps)
unfolding split
split-cons sep [] = ([], [], refl)
split-cons sep (c ∷ cs) = step (Bool-cases (c == sep)) (split-cons sep cs)
  where
    step :
        (c == sep ≡ true) ⊎ (c == sep ≡ false)
        → (p : Text) × (ps : List Text) × (split sep cs ≡ p ∷ ps)
        → (p : Text) × (ps : List Text) × (split sep (c ∷ cs) ≡ p ∷ ps)
    step (inl e) (p, ps, h) = ([], split sep cs, rw e refl)
    step (inr e) (p, ps, h) = (c ∷ p, ps, rw e (rw h refl))

join-push_first :
    (sep c : ℕ) (p : Text) (ps : List Text) → join sep ((c ∷ p) ∷ ps) ≡ c ∷ join sep (p ∷ ps)
unfolding join
join-push_first sep c p [] = refl
join-push_first sep c p (q ∷ ps) = refl

join_step :
    (sep c : ℕ) (r : List Text) {cs : Text}
    → (p : Text) × (ps : List Text) × (r ≡ p ∷ ps)
    → join sep r ≡ cs
    → join sep (if c == sep then [] ∷ r else push_first c r) ≡ c ∷ cs
unfolding join
join_step sep c [] (p, ps, h) ih = cc
join_step sep c (p ∷ ps) _ ih = ground (arith, join-push_first sep c p ps)

-- Joining the pieces of a text gives the text back.
pub join-split : (sep : ℕ) (cs : Text) → join sep (split sep cs) ≡ cs
unfolding split join
join-split sep [] = refl
join-split sep (c ∷ cs) = join_step sep c (split sep cs) (split-cons sep cs) (join-split sep cs)

-- A piece without the separator, and what follows the separator.
pub split-append :
    (sep : ℕ) (p rest : Text)
    → contains sep p ≡ false
    → split sep (p ++ (sep ∷ rest)) ≡ p ∷ split sep rest
unfolding split
split-append sep [] rest h = ground arith
split-append sep (c ∷ p) rest h = ground (arith, split-append sep p rest)

pub split_single : (sep : ℕ) (p : Text) → contains sep p ≡ false → split sep p ≡ p ∷ []
unfolding split
split_single sep [] h = refl
split_single sep (c ∷ p) h = ground (arith, split_single sep p)

-- Splitting what was joined gives the pieces back, if no piece holds the separator.
pub split-join :
    (sep : ℕ) (p : Text) (ps : List Text)
    → All (λ q. contains sep q ≡ false) (p ∷ ps)
    → split sep (join sep (p ∷ ps)) ≡ p ∷ ps
unfolding join
split-join sep p [] h = split_single sep p h.0
split-join sep p (q ∷ ps) h =
    split-append sep p (join sep (q ∷ ps)) h.0 ∙ ap (◌∷◌ p) (split-join sep q ps h.1)

abbrev Free : ℕ → List Text → Type 0
Free sep ps = All (λ q. contains sep q ≡ false) ps

Free-step :
    (sep c : ℕ) (r : List Text)
    → Free sep r
    → Free sep (if c == sep then [] ∷ r else push_first c r)
Free-step sep c [] h = ground arith
Free-step sep c (p ∷ ps) h = elim (Bool-cases (c == sep)) [
  | inl e ↦ rw e (refl, h)
  | inr e ↦ rw e (ground arith, h.1)
]

-- No piece of a text holds the separator.
pub split_pieces : (sep : ℕ) (cs : Text) → All (λ q. contains sep q ≡ false) (split sep cs)
unfolding split
split_pieces sep [] = (refl, tt)
split_pieces sep (c ∷ cs) = Free-step sep c (split sep cs) (split_pieces sep cs)
