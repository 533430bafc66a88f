-- ===== src/Apply/Run/Requirements.antt =====
-- What is tried comes after everything that it requires: the order of the plan, the requirements that
-- `unmet` accepts and the loop together.
pub mod Sorted
use detc.Base.{
  ◌≡◌, refl, sym, ap, ◌∙◌, subst, ℕ, suc, ◌+◌, Bool, true, false, Option, none, some, List, [], ◌∷◌,
  map, Text, text_eq, text_eq_iff, find, Has, All, All-Has, Bool-cases, inl, inr, ◌<ℤ◌, <ℤ_irrefl,
  arith, if◌then◌else◌,
}
use detc.Apply.Requirement.{Requirement, find_object, unmet}
use detc.Apply.Requirement.Order.{IsMet, AreMet, unmet-AreMet}
use detc.Apply.Change.{Change, Answers, requirement, apply, is_broken}
use detc.Apply.Run.{Event, sort, attempt, blocked, noted, failure, run_from, run}
use detc.Apply.Run.Skips.{Precedes, is_skipped, went_wrong, run_skips}
use detc.Apply.Run.Requirements.Sorted.{
  IsOrdered, Has-map, map-Has, sort-IsOrdered, Has-sort, sort-Has, ordered-Precedes,
}

attempt-requirement :
    (a : Answers) (c : Change) (o : Option Text) → requirement (attempt a c o).1 ≡ requirement c
unfolding attempt apply requirement
attempt-requirement a c (some r) = refl
attempt-requirement a c none = ground arith

abbrev of_event : Event × Change → Requirement
of_event p = requirement p.1

-- The run reports the objects of the plan one by one.
run_from-requirement :
    (outside : ℕ → Answers) (cs : List Change) (i : ℕ) (unsatisfied : List Text) (failed : ℕ)
    → map of_event (run_from outside i unsatisfied failed cs).0 ≡ map requirement cs
unfolding run_from
run_from-requirement outside [] i unsatisfied failed = refl
run_from-requirement outside (c ∷ cs) i unsatisfied failed =
    let step = attempt (outside i) c (blocked unsatisfied c) in
    λ t.
      attempt-requirement (outside i) c (blocked unsatisfied c) t
      ∷ run_from-requirement outside cs (suc i) (noted unsatisfied step.1) (failed + failure step.0)
          t

find_object-Has :
    (id : Text) (objects : List Requirement) (r : Requirement)
    → find_object id objects ≡ some r
    → Has r objects × (r.id ≡ id)
unfolding find_object
find_object-Has id [] r h = cc
find_object-Has id (o ∷ os) r h = elim (Bool-cases (text_eq o.id id)) [
  | inl e ↦
      let same : o ≡ r = ground (arith, e) in
      (inl (sym same), subst (λ t. t.id ≡ id) same ((text_eq_iff o.id id).0 e))
  | inr e ↦ let (h', i) = find_object-Has id os r (ground (arith, e)) in (inr h', i)
]

module _ (outside : ℕ → Answers) (built : List Change)
    (accepted : unmet (map requirement built) true ≡ [])
    (sound : All (λ r. r.broken ≡ false) (map requirement built)) where
  reported : List (Event × Change)
  reported = (run outside (sort built)).0

  reported-requirement : map of_event reported ≡ map requirement (sort built)
  unfolding reported run
  reported-requirement = run_from-requirement outside (sort built) 0 [] 0

  -- What is in the plan is reported.
  is_reported :
      (r : Requirement)
      → Has r (map requirement built)
      → (p : Event × Change) × Has p reported × (r ≡ of_event p)
  is_reported r h =
      map-Has of_event r reported (subst (Has r) (sym reported-requirement) (sort-Has r built h))

  -- What is reported is in the plan.
  is_built : (q : Event × Change) → Has q reported → Has (of_event q) (map requirement built)
  is_built q h =
      Has-sort (of_event q) built
        (subst (Has (of_event q)) reported-requirement (Has-map of_event q reported h))

  not_broken : (r : Requirement) → Has r (map requirement built) → r.broken ≡ false
  not_broken r h = All-Has (λ t. t.broken ≡ false) r (map requirement built) sound h

  is_met :
      (q : Event × Change) (id : Text)
      → Has q reported
      → Has id q.1.requires
      → IsMet (map requirement built) (of_event q) id
  unfolding requirement
  is_met q id h needs =
      All-Has (IsMet (map requirement built) (of_event q)) id q.1.requires
        (All-Has (AreMet (map requirement built)) (of_event q) (map requirement built)
          (unmet-AreMet (map requirement built) accepted) (is_built q h)
          (not_broken (of_event q) (is_built q h)))
        needs

  earlier_target :
      (q : Event × Change) (id : Text) (met : IsMet (map requirement built) (of_event q) id)
      → met.target.order <ℤ (of_event q).order
  earlier_target q id met = elim met.earlier [
    | inl broken ↦
        let whole =
          not_broken met.target
            (find_object-Has id (map requirement built) met.target met.found).0 in
        absurd (true_ne_false (sym broken ∙ whole))
    | inr lt ↦ lt
  ]
    where
      true_ne_false : ¬ (◌≡◌ {A = Bool} true false)
      true_ne_false x = cc

  required_before :
      (q : Event × Change) (id : Text)
      → Has q reported
      → Has id q.1.requires
      → (p : Event × Change) × Precedes p q reported × (p.1.id ≡ id)
  unfolding requirement
  required_before q id h needs =
      let met = is_met q id h needs in
      let (there, named) = find_object-Has id (map requirement built) met.target met.found in
      let (p, hp, same) = is_reported met.target there in
      (
        p,
        ordered-Precedes of_event p q reported
            (subst IsOrdered (sym reported-requirement) (sort-IsOrdered built)) hp h
            (subst (λ t. t.order <ℤ (of_event q).order) same (earlier_target q id met)),
        ap (λ t. t.id) (sym same) ∙ named,
      )

  -- In a run over the sorted plan that `unmet` accepts, no object of which is broken, that is could not
  -- be worked out, an object that is not skipped has, for every requirement, an object of that name which the run
  -- reported before it and which neither failed nor was skipped.
  pub tried_requirement :
      (q : Event × Change) (id : Text)
      → Has q (run outside (sort built)).0
      → is_skipped q.0 ≡ false
      → Has id q.1.requires
      → (p : Event × Change) × Precedes p q (run outside (sort built)).0
        × (p.1.id ≡ id)
        × (went_wrong p.0 ≡ false)
  unfolding reported
  tried_requirement q id here tried needs =
      let (p, first, named) = required_before q id here needs in
      (
        p,
        first,
        named,
        elim (Bool-cases (went_wrong p.0)) [
          | inl w ↦
              let needed = subst (λ t. Has t q.1.requires) (sym named) needs in
              absurd
                (true_ne_false (sym (run_skips outside (sort built) p q first w needed) ∙ tried))
          | inr e ↦ e
        ],
      )
    where
      true_ne_false : ¬ (◌≡◌ {A = Bool} true false)
      true_ne_false x = cc
