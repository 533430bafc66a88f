-- ===== src/Apply/Requirement.antt =====
-- The requirements that no run could meet, `unmet` of src/apply.rs.
pub mod Order
use detc.Base.{
  ℕ, suc, Bool, true, false, Option, none, some, List, [], ◌∷◌, Text, text_eq, find, ℤ, ltb_ℤ,
  if◌then◌else◌,
}

-- One object, reduced to what deciding a requirement needs.
pub record Requirement : Type 0 where
  pub id : Text
  pub order : ℤ
  pub requires : List Text
  pub broken : Bool

pub data Reason : Type 0 where
  not_declared : Text → Reason
  not_applied_earlier : Text → ℤ → ℤ → Reason

-- `objects.iter().find(|other| other.id == id)`
unfoldable pub find_object : Text → List Requirement → Option Requirement
find_object id objects = find (λ other. text_eq other.id id) objects

-- The match on `target`.
unfoldable pub reason : Bool → Requirement → Text → Option Requirement → Option Reason
reason complete object id none = if complete then some (not_declared id) else none
reason complete object id (some target) =
    if target.broken
    then none
    else if ltb_ℤ target.order object.order
    then none
    else some (not_applied_earlier id object.order target.order)

-- The loop over what one object requires: the first reason ends it.
unfoldable pub first_reason : List Requirement → Bool → Requirement → List Text → Option Reason
unfolding reason find_object
first_reason objects complete object [] = none
first_reason objects complete object (id ∷ ids) =
    elim (reason complete object id (find_object id objects)) [
      | some why ↦ some why
      | none ↦ first_reason objects complete object ids
    ]

-- What one round of the outer loop finds.
unfoldable pub offence : List Requirement → Bool → Requirement → Option Reason
unfolding first_reason
offence objects complete object =
    if object.broken then none else first_reason objects complete object object.requires

unfoldable pub unmet_from : List Requirement → Bool → ℕ → List Requirement → List (ℕ × Reason)
unfolding offence
unmet_from objects complete index [] = []
unmet_from objects complete index (object ∷ rest) = elim (offence objects complete object) [
  | some why ↦ (index, why) ∷ unmet_from objects complete (suc index) rest
  | none ↦ unmet_from objects complete (suc index) rest
]

unfoldable pub unmet : List Requirement → Bool → List (ℕ × Reason)
unfolding unmet_from
unmet objects complete = unmet_from objects complete 0 objects
