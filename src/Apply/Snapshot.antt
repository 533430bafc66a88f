-- ===== src/Apply/Snapshot.antt =====
-- The object of a plan as it is before or after a run, `Phase`, `Snapshot` and `snapshot` of
-- src/apply.rs.
use detc.Base.{
  [], codes, ◌++◌, Bool, true, false, Option, none, some, Result, ok, ◌>>=◌, Text, ℤ, if◌then◌else◌,
}
use detc.Value.{Value, Fields, end, field, member, or_null}
use detc.Apply.Change.{Change, Target, template, resource, unusable, nothing, Fault}

pub data Phase : Type 0 where
  found applied : Phase

pub data Snapshot : Type 0 where
  of_template : Text → Text → Option Text → Snapshot
  of_resource : Text → Text → ℤ → Text → Fields → Option Value → Snapshot

-- `phase == Phase::Applied && self.error.is_none()`
unfoldable pub was_written : Phase → Option Fault → Bool
was_written applied none = true
was_written _ _ = false

-- `read` is what reading the source of an object answers.
module _ (read : Text → Result Text Text) where
  -- `Change::snapshot`, by the target
  unfoldable pub snapshot_of : Phase → Change → Target → Result Text (Option Snapshot)
  unfolding was_written
  snapshot_of phase c (unusable why) = ok none
  snapshot_of phase c nothing = ok none
  snapshot_of phase c (template path current content) = read c.source >>= λ text.
      ok (some (of_template path text (if was_written phase c.error then content else current)))
  snapshot_of phase c (resource desired current diff) = read c.source >>= λ declared.
      ok (some (of_resource c.kind c.name c.order declared desired current))

  unfoldable pub snapshot : Phase → Change → Result Text (Option Snapshot)
  unfolding snapshot_of
  snapshot phase c = snapshot_of phase c c.target

-- What is going to change; `show` is how serde_json writes a value on one line.
module _ (show : Value → Text) where
  -- `{key}: {current} -> {desired}`
  abbrev shown : Text → Value → Text
  shown key change =
      key
      ++ (codes ": "
          ++ (show (or_null (member (codes "current") change))
              ++ (codes " -> " ++ show (or_null (member (codes "desired") change)))))

  -- `map(...)` and `join(", ")`
  unfoldable pub shown_fields : Fields → Text
  unfolding member
  shown_fields end = []
  shown_fields (field k v end) = shown k v
  shown_fields (field k v (field j w m)) = shown k v ++ (codes ", " ++ shown_fields (field j w m))

  abbrev summary_of : Target → Text
  unfolding shown_fields
  summary_of (resource desired current diff) = shown_fields diff
  summary_of (unusable why) = why
  summary_of _ = []

  -- `Change::summary`
  unfoldable pub summary : Change → Text
  unfolding summary_of
  summary c = summary_of c.target
