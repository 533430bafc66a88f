-- ===== src/Apply/Run/Broken.antt =====
-- A requirement that could not be worked out, src/apply.rs and `apply_system` of src/detc.rs: it
-- takes the default order in the plan, and an object of a smaller order that requires it comes first.
use detc.Base.{
  ◌≡◌, refl, sym, ap, ◌∙◌, ℕ, ◌+◌, true, false, some, none, List, [], ◌∷◌, map, Text, text_eq,
  text_eq_iff, ◌<ℤ◌, arith, find, subst,
}
use detc.Apply.Requirement.{Requirement, unmet, first_reason, reason, find_object}
use detc.Apply.Change.{Change, Answers, requirement, is_broken}
use detc.Apply.Run.{Event, before, sort, attempt, blocked, noted, failure, run_from, run}

before-lt : (a b : Change) → a.order <ℤ b.order → before b a ≡ false
unfolding before
before-lt a b h = ground arith

sort_pair : (a b : Change) → a.order <ℤ b.order → sort (a ∷ b ∷ []) ≡ a ∷ b ∷ []
unfolding sort
sort_pair a b lt = rw (before-lt a b lt) refl

find_nothing : (ids : List Text) → find (λ (id : Text). false) ids ≡ none
find_nothing [] = refl
find_nothing (id ∷ ids) = find_nothing ids

run_first :
    (outside : ℕ → Answers) (c : Change) (cs : List Change)
    → (rest : List (Event × Change)) × ((run outside (c ∷ cs)).0
        ≡ attempt (outside 0) c none ∷ rest)
unfolding run run_from blocked
run_first outside c cs =
    let step = attempt (outside 0) c (find (λ (id : Text). false) c.requires) in
    (
      (run_from outside 1 (noted [] step.1) (0 + failure step.0) cs).0,
      ap
          (λ o.
            attempt (outside 0) c o
            ∷ (run_from outside 1 (noted [] step.1) (0 + failure step.0) cs).0)
          (find_nothing c.requires),
    )

module _ (objects : List Requirement) (a b : Requirement) where
  broken_reason :
      find_object b.id objects ≡ some b
      → b.broken ≡ true
      → first_reason objects true a (b.id ∷ []) ≡ none
  unfolding first_reason reason
  broken_reason found wb = ground (arith, found)

unmet_pair :
    (a b : Requirement)
    → a.requires ≡ b.id ∷ []
    → b.broken ≡ true
    → text_eq a.id b.id ≡ false
    → unmet (a ∷ b ∷ []) true ≡ []
unfolding unmet find_object
unmet_pair a b needs wb ne =
    let objects = a ∷ b ∷ [] in
    let found : find_object b.id objects ≡ some b = ground (arith, ne, text_eq_iff b.id b.id) in
    let none_for : first_reason objects true a a.requires ≡ none =
      ap (first_reason objects true a) needs ∙ broken_reason objects a b found wb in
    ground (arith, none_for)

-- An object that requires one which could not be worked out, and whose order is smaller than the
-- place that the broken one has in the plan, is accepted by `unmet` and tried.
pub broken_requirement_tried :
    (outside : ℕ → Answers) (a b : Change)
    → a.requires ≡ b.id ∷ []
    → is_broken b.action ≡ true
    → text_eq a.id b.id ≡ false
    → a.order <ℤ b.order
    → (unmet (map requirement (a ∷ b ∷ [])) true ≡ [])
      × ((rest : List (Event × Change)) × ((run outside (sort (a ∷ b ∷ []))).0
            ≡ attempt (outside 0) a none ∷ rest))
broken_requirement_tried outside a b needs wb ne lt = (
  unfold requirement in unmet_pair (requirement a) (requirement b) needs wb ne,
  subst
      (λ t.
        (rest : List (Event × Change)) × ((run outside t).0 ≡ attempt (outside 0) a none ∷ rest))
      (sym (sort_pair a b lt)) (run_first outside a (b ∷ [])),
)
