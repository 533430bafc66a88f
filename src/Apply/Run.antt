-- ===== src/Apply/Run.antt =====
-- The order of a plan, the end of `Plan::build` of src/apply.rs, and the loop that applies it,
-- `apply_system` of src/detc.rs.
pub mod Skips
pub mod Requirements
pub mod Broken
use detc.Base.{
  ℕ, suc, ◌+◌, Bool, true, false, not, ◌&&◌, ◌||◌, Option, none, some, List, [], ◌∷◌, map, Result,
  ok, err, Text, text_eq, text_lt, any, find, ltb_ℤ, if◌then◌else◌,
}
use detc.Apply.Change.{Change, Fault, Answers, Action, taken, changes, apply, skip}

-- `(order, kind, name)`, compared lexicographically.
unfoldable pub before : Change → Change → Bool
before a b =
    if ltb_ℤ a.order b.order
    then true
    else if ltb_ℤ b.order a.order
    then false
    else if text_lt a.kind b.kind
    then true
    else if text_lt b.kind a.kind
    then false
    else text_lt a.name b.name

-- `sort_by`, which is stable: an object goes in front of the first that is not before it.
unfoldable pub place : Change → List Change → List Change
unfolding before
place c [] = c ∷ []
place c (d ∷ ds) = if before d c then d ∷ place c ds else c ∷ d ∷ ds

unfoldable pub sort : List Change → List Change
unfolding place
sort [] = []
sort (c ∷ cs) = place c (sort cs)

-- What the run reports of one object.
pub data Event : Type 0 where
  skipped : Text → Event
  errored : Fault → Event
  done : Text → Event

abbrev event_of : Result Fault (Unit {0}) → Change → Event
event_of (ok _) c = done (taken c.action)
event_of (err e) c = errored e

-- `requires().iter().find(|id| unsatisfied.contains(*id))`
unfoldable pub blocked : List Text → Change → Option Text
blocked unsatisfied c = find (λ id. any (λ u. text_eq u id) unsatisfied) c.requires

-- The match on `blocked`.
unfoldable pub attempt : Answers → Change → Option Text → Event × Change
unfolding apply skip
attempt a c (some requirement) = (skipped requirement, skip requirement c)
attempt a c none = let (r, c') = apply a c in (event_of r c', c')

abbrev pub is_some {ℓ} : {A : Type ℓ} → Option A → Bool
is_some none = false
is_some (some a) = true

-- `change.error().is_some() || change.skipped().is_some()`
abbrev pub is_unsatisfied : Change → Bool
is_unsatisfied c = is_some c.error || is_some c.skipped

abbrev pub noted : List Text → Change → List Text
noted unsatisfied c = if is_unsatisfied c then c.id ∷ unsatisfied else unsatisfied

abbrev pub failure : Event → ℕ
failure (errored e) = 1
failure _ = 0

-- The loop: what it reports, each object as it is left, and how many could not be applied. The
-- outside answers the object at each position.
unfoldable pub run_from :
    (ℕ → Answers) → ℕ → List Text → ℕ → List Change → List (Event × Change) × ℕ
unfolding attempt blocked
run_from outside i unsatisfied failed [] = ([], failed)
run_from outside i unsatisfied failed (c ∷ cs) =
    let (event, c') = attempt (outside i) c (blocked unsatisfied c) in
    let (events, total) =
      run_from outside (suc i) (noted unsatisfied c') (failed + failure event) cs in
    ((event, c') ∷ events, total)

unfoldable pub run : (ℕ → Answers) → List Change → List (Event × Change) × ℕ
unfolding run_from
run outside plan = run_from outside 0 [] 0 plan

-- `lines`: what the journal keeps of it.
unfoldable pub kept_lines : List (Event × Change) → List (Event × Change)
kept_lines [] = []
kept_lines ((event, c) ∷ rest) =
    let later = kept_lines rest in if changes c.action then (event, c) ∷ later else later
