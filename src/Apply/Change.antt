-- ===== src/Apply/Change.antt =====
-- The objects of a plan and what applying one does, src/apply.rs.
pub mod Converges
use detc.Base.{
  Bool, true, false, not, Option, none, some, List, [], ◌∷◌, Result, ok, err, ◌>>=◌, ◌>>◌, Text,
  codes, join, is_empty, ℤ, pos, if◌then◌else◌,
}
use detc.Value.{Value, Fields, null, object, end, field, lookup, or_null, insert}
use detc.Value.Equality.{value_eq}
use detc.Apply.Requirement.{Requirement}

pub data Action : Type 0 where
  in_sync create update remove broken : Action

unfoldable pub planned : Action → Text
planned in_sync = codes "ok"
planned create = codes "create"
planned update = codes "update"
planned remove = codes "remove"
planned broken = codes "error"

unfoldable pub taken : Action → Text
taken in_sync = codes "ok"
taken create = codes "created"
taken update = codes "updated"
taken remove = codes "removed"
taken broken = codes "error"

abbrev pub changes : Action → Bool
changes in_sync = false
changes _ = true

-- What `fs::remove_file` answers.
pub data Removal : Type 0 where
  removed not_found : Removal
  failed : Removal

-- Why applying an object did not work.
pub data Fault : Type 0 where
  worked_out : Text → Fault
  cannot_write cannot_remove provider_failed : Fault
  still_not_there : Fault
  still_differs : Fields → Fault

-- The object itself, with what was worked out about it. A resource keeps the state that its
-- provider reported last, and what separates it from the desired one.
pub data Target : Type 0 where
  template : Text → Option Text → Option Text → Target
  resource : Fields → Option Value → Fields → Target
  unusable : Text → Target
  nothing : Target

pub record Change : Type 0 where
  pub kind : Text
  pub name : Text
  pub id : Text
  -- the template or the declaration, for an object that was worked out
  pub source : Text
  pub order : ℤ
  pub action : Action
  pub requires : List Text
  pub error : Option Fault
  pub skipped : Option Text
  pub target : Target

abbrev pub is_broken : Action → Bool
is_broken broken = true
is_broken _ = false

-- `Change::requirement`
unfoldable pub requirement : Change → Requirement
requirement c = record {
  id = c.id;
  order = c.order;
  requires = c.requires;
  broken = is_broken c.action;
}

-- What is outside the program answers while one object is applied: the file system, the provider
-- and its schema, by which a reported state is read.
pub record Answers : Type 0 where
  pub written : Result Fault (Unit {0})
  pub removal : Removal
  pub provider_applied : Result Fault (Unit {0})
  pub schema : Result Fault (Fields → Fields)
  pub inspected : Result Fault (Option Value)

-- The state that a provider reported, through the schema; what is no object has no keys.
unfoldable pub reported : (Fields → Fields) → Option Value → Fields
reported read (some (object m)) = read m
reported read _ = end

-- `current.get(*key) != Some(value)`
abbrev pub agrees : Option Value → Value → Bool
agrees none v = false
agrees (some w) v = value_eq w v

abbrev both : Option Value → Value → Value
both old v = object (field (codes "current") (or_null old) (field (codes "desired") v end))

-- The `filter` and `map` of `difference` over the desired state.
unfoldable pub differing : Fields → Fields → Fields
unfolding lookup
differing current end = end
differing current (field k v desired) =
    let rest = differing current desired in
    if agrees (lookup k current) v then rest else field k (both (lookup k current) v) rest

unfoldable pub difference : (Fields → Fields) → Fields → Option Value → Fields
unfolding differing reported
difference read desired current = differing (reported read current) desired

abbrev pub no_fields : Fields → Bool
no_fields end = true
no_fields (field k v m) = false

-- Whether the state that was reached is the one that was asked for.
unfoldable pub verdict : Option Value → Fields → Result Fault (Unit {0})
verdict none remaining = err still_not_there
verdict (some state) remaining =
    if no_fields remaining then ok tt else err (still_differs remaining)

-- A resource after its provider applied it, was asked for its schema and inspected it again.
reached :
    Fields
    → Option Value
    → Fields
    → Result Fault (Fields → Fields)
    → Result Fault (Option Value)
    → Result Fault (Unit {0}) × Target
unfolding verdict difference
reached desired current diff (err e) inspected = (err e, resource desired current diff)
reached desired current diff (ok read) (err e) = (err e, resource desired current diff)
reached desired current diff (ok read) (ok state) =
    (verdict state (difference read desired state), resource desired state diff)

-- The `?` on the provider's `apply`.
reached_if :
    Result Fault (Unit {0})
    → Answers
    → Fields
    → Option Value
    → Fields
    → Result Fault (Unit {0}) × Target
unfolding reached
reached_if (err e) a desired current diff = (err e, resource desired current diff)
reached_if (ok _) a desired current diff = reached desired current diff a.schema a.inspected

abbrev removed_file : Removal → Result Fault (Unit {0})
removed_file failed = err cannot_remove
removed_file _ = ok tt

unfoldable pub apply_target : Answers → Target → Result Fault (Unit {0}) × Target
unfolding reached_if
apply_target a (unusable why) = (err (worked_out why), unusable why)
apply_target a nothing = (ok tt, nothing)
apply_target a (template path found (some content)) =
    (a.written, template path found (some content))
apply_target a (template path found none) = (removed_file a.removal, template path found none)
apply_target a (resource desired current diff) =
    reached_if a.provider_applied a desired current diff

-- `if let Err(e) = &result`: what went wrong is kept in the change.
abbrev kept_error : Option Fault → Result Fault (Unit {0}) → Option Fault
kept_error old (ok _) = old
kept_error old (err e) = some e

unfoldable pub apply : Answers → Change → Result Fault (Unit {0}) × Change
unfolding apply_target
apply a c =
    if changes c.action
    then (let (r, target) = apply_target a c.target in
        (r, record c { error = kept_error c.error r; target = target }))
    else (ok tt, c)

-- `Change::skip`
unfoldable pub skip : Text → Change → Change
skip requirement c = record c { skipped = some requirement }
