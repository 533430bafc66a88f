-- ===== src/Apply/Run/Requirements/Sorted.antt =====
-- The order of a plan: `sort` keeps its objects and puts an earlier order first.
use detc.Base.{
  ◌≡◌, refl, sym, ap, subst, true, false, List, [], ◌∷◌, map, Has, All, All-Has, All-imp, ◌∙◌,
  if_both, inl, inr, ℤ, ◌<ℤ◌, <ℤ_irrefl, arith,
}
use detc.Apply.Requirement.{Requirement}
use detc.Apply.Change.{Change, requirement}
use detc.Apply.Run.{before, place, sort}
use detc.Apply.Run.Skips.{Precedes}

-- No later object has a smaller order.
abbrev pub IsOrdered : List Requirement → Type 0
IsOrdered [] = Unit
IsOrdered (r ∷ rs) = All (λ s. ¬ (s.order <ℤ r.order)) rs × IsOrdered rs

pub Has-map : {A B : Type 0} (f : A → B) (x : A) (xs : List A) → Has x xs → Has (f x) (map f xs)
Has-map f x [] h = absurd h
Has-map f x (y ∷ ys) (inl e) = inl (ap f e)
Has-map f x (y ∷ ys) (inr h) = inr (Has-map f x ys h)

pub map-Has :
    {A B : Type 0} (f : A → B) (y : B) (xs : List A)
    → Has y (map f xs)
    → (x : A) × Has x xs × (y ≡ f x)
map-Has f y [] h = absurd h
map-Has f y (x ∷ xs) (inl e) = (x, inl refl, e)
map-Has f y (x ∷ xs) (inr h) = let (z, i, e) = map-Has f y xs h in (z, inr i, e)

abbrev key : List Change → List Requirement
key = map requirement

module _ (r : Requirement) where
  place-Has : (c : Change) (cs : List Change) → Has r (key (c ∷ cs)) → Has r (key (place c cs))
  unfolding place
  place-Has c [] h = h
  place-Has c (d ∷ ds) (inl e) =
      if_both (λ t. Has r (key t)) (before d c) _ _ (λ _. inr (place-Has c ds (inl e))) (λ _. inl e)
  place-Has c (d ∷ ds) (inr (inl e)) =
      if_both (λ t. Has r (key t)) (before d c) _ _ (λ _. inl e) (λ _. inr (inl e))
  place-Has c (d ∷ ds) (inr (inr h)) =
      if_both (λ t. Has r (key t)) (before d c) _ _ (λ _. inr (place-Has c ds (inr h)))
        (λ _. inr (inr h))

  Has-place : (c : Change) (cs : List Change) → Has r (key (place c cs)) → Has r (key (c ∷ cs))
  unfolding place
  Has-place c [] h = h
  Has-place c (d ∷ ds) h =
      if_both (λ t. Has r (key t) → Has r (key (c ∷ d ∷ ds))) (before d c) (d ∷ place c ds)
        (c ∷ d ∷ ds) (λ _. swapped (λ k. Has-place c ds k)) (λ _ k. k) h
    where
      swapped :
          (Has r (key (place c ds)) → Has r (key (c ∷ ds)))
          → Has r (key (d ∷ place c ds))
          → Has r (key (c ∷ d ∷ ds))
      swapped later (inl e) = inr (inl e)
      swapped later (inr k) = first (later k)
        where
          first : Has r (key (c ∷ ds)) → Has r (key (c ∷ d ∷ ds))
          first (inl e) = inl e
          first (inr k) = inr (inr k)

  pub sort-Has : (cs : List Change) → Has r (key cs) → Has r (key (sort cs))
  unfolding sort
  sort-Has [] h = h
  sort-Has (c ∷ cs) (inl e) = place-Has c (sort cs) (inl e)
  sort-Has (c ∷ cs) (inr h) = place-Has c (sort cs) (inr (sort-Has cs h))

  pub Has-sort : (cs : List Change) → Has r (key (sort cs)) → Has r (key cs)
  unfolding sort
  Has-sort [] h = h
  Has-sort (c ∷ cs) h = elim (Has-place c (sort cs) h) [
    | inl e ↦ inl e
    | inr h' ↦ inr (Has-sort cs h')
  ]

before_le : (d c : Change) → before d c ≡ true → ¬ (c.order <ℤ d.order)
unfolding before
before_le d c h lt = ground arith

before_ge : (d c : Change) → before d c ≡ false → ¬ (d.order <ℤ c.order)
unfolding before
before_ge d c h lt = ground arith

abbrev NotBelow : ℤ → Requirement → Type 0
NotBelow bound s = ¬ (s.order <ℤ bound)

NotBelow-place :
    (bound : ℤ) (c : Change) (cs : List Change)
    → ¬ (c.order <ℤ bound)
    → All (NotBelow bound) (key cs)
    → All (NotBelow bound) (key (place c cs))
unfolding place requirement
NotBelow-place bound c [] n h = (n, tt)
NotBelow-place bound c (d ∷ ds) n h =
    if_both (λ t. All (NotBelow bound) (key t)) (before d c) _ _
      (λ _. (h.0, NotBelow-place bound c ds n h.1)) (λ _. (n, h))

NotBelow_trans : (a b c : ℤ) → ¬ (b <ℤ a) → ¬ (c <ℤ b) → ¬ (c <ℤ a)
NotBelow_trans a b c h k lt = omega arith

place-IsOrdered :
    (c : Change) (cs : List Change) → IsOrdered (key cs) → IsOrdered (key (place c cs))
unfolding place requirement
place-IsOrdered c [] h = (tt, tt)
place-IsOrdered c (d ∷ ds) h =
    if_both (λ t. IsOrdered (key t)) (before d c) _ _
      (λ e. (NotBelow-place d.order c ds (before_le d c e) h.0, place-IsOrdered c ds h.1))
      (λ e.
        let ge = before_ge d c e in
        (
          (
            ge,
            All-imp (NotBelow d.order) (NotBelow c.order) (key ds)
                (λ s k. NotBelow_trans c.order d.order s.order ge k) h.0,
          ),
          h,
        ))

pub sort-IsOrdered : (cs : List Change) → IsOrdered (key (sort cs))
unfolding sort
sort-IsOrdered [] = tt
sort-IsOrdered (c ∷ cs) = place-IsOrdered c (sort cs) (sort-IsOrdered cs)

-- In an ordered list a strictly smaller order stands before.
pub ordered-Precedes :
    {A : Type 0} (f : A → Requirement) (p q : A) (xs : List A)
    → IsOrdered (map f xs)
    → Has p xs
    → Has q xs
    → (f p).order <ℤ (f q).order
    → Precedes p q xs
ordered-Precedes f p q [] o hp hq lt = absurd hp
ordered-Precedes f p q (x ∷ xs) o (inl e) (inl d) lt =
    let same : (f p).order ≡ (f q).order = ap (λ t. (f t).order) (e ∙ sym d) in
    absurd (<ℤ_irrefl (f q).order (subst (λ t. t <ℤ (f q).order) same lt))
ordered-Precedes f p q (x ∷ xs) o (inl e) (inr hq) lt = inl (e, hq)
ordered-Precedes f p q (x ∷ xs) o (inr hp) (inl d) lt = absurd (
    All-Has (NotBelow (f x).order) (f p) (map f xs) o.0 (Has-map f p xs hp)
      (subst (λ t. (f p).order <ℤ (f t).order) d lt))
ordered-Precedes f p q (x ∷ xs) o (inr hp) (inr hq) lt =
    inr (ordered-Precedes f p q xs o.1 hp hq lt)
