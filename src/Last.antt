-- ===== src/Last.antt =====
-- What the last run did to the system, src/last.rs. The document is a record here; writing it down
-- is I/O, and how a fault is worded is an argument.
pub mod Told
pub mod Reports
mod Tests
use detc.Base.{
  ◌≡◌, ℕ, suc, ◌+◌, Bool, true, false, not, Option, none, some, List, [], ◌∷◌, ◌++◌, map, Result,
  ok, err, Text, codes, length, ◌==◌, if◌then◌else◌,
}
use detc.Value.{Value, Fields}
use detc.Apply.Change.{Change, Action, Fault, planned, taken, changes}
use detc.Apply.Snapshot.{Phase, found, applied, Snapshot, of_template, of_resource, snapshot}

pub record Object : Type 0 where
  pub kind : Text
  pub name : Text
  pub planned : Text
  pub taken : Text
  pub error : Option Text
  pub before : Option Text
  pub after : Option Text
  pub desired : Option Fields
  pub found : Option Value
  pub reached : Option Value

-- `Run`, as the document holds it.
pub record Document : Type 0 where
  pub command : Text
  pub complete : Bool
  pub failed : ℕ
  pub objects : List Object

-- The part of `before` that is IsSaid of every object.
abbrev pub listed : Change → Object
listed c = record {
  kind = c.kind;
  name = c.name;
  planned = planned c.action;
  taken = [];
  error = none;
  before = none;
  after = none;
  desired = none;
  found = none;
  reached = none;
}

-- The match on the snapshot before the run.
abbrev pub with_found : Object → Result Text (Option Snapshot) → Object
with_found o (ok none) = o
with_found o (ok (some (of_template path text content))) = record o { before = content }
with_found o (ok (some (of_resource kind name order declared desired state))) = record o {
  desired = some desired;
  found = state;
}
with_found o (err e) = record o { error = some e }

abbrev kept_or : Text → Option Text → Option Text
kept_or e none = some e
kept_or e (some first) = some first

-- The match on the snapshot behind it.
abbrev pub with_reached : Object → Result Text (Option Snapshot) → Object
with_reached o (ok none) = o
with_reached o (ok (some (of_template path text content))) = record o { after = content }
with_reached o (ok (some (of_resource kind name order declared desired state))) = record o {
  reached = state;
}
with_reached o (err e) = record o { error = kept_or e o.error }

abbrev pub requires_text : Text → Text
requires_text requirement = codes "requires " ++ (requirement ++ codes ", which was not applied")

module _ (read : Text → Result Text Text) (word : Fault → Text) where
  unfoldable pub before : Change → Object
  unfolding planned snapshot
  before c = if changes c.action then with_found (listed c) (snapshot read found c) else listed c

  -- The match on what became of the object.
  unfoldable pub with_taken : Object → Action → Option Text → Option Fault → Object
  unfolding taken
  with_taken o a (some requirement) error = record o {
    taken = codes "skipped";
    error = some (requires_text requirement);
  }
  with_taken o a none (some e) = record o { taken = codes "error"; error = some (word e) }
  with_taken o a none none = record o { taken = taken a }

  unfoldable pub after : Object → Change → Object
  unfolding with_taken snapshot
  after o c =
      let told = with_taken o c.action c.skipped c.error in
      if changes c.action then with_reached told (snapshot read applied c) else told

  -- `Last::found`
  unfoldable pub found_objects : List Change → List Object
  unfolding before
  found_objects cs = map before cs

  abbrev pub one_if_some : Option Fault → ℕ
  one_if_some none = 0
  one_if_some (some e) = 1

  -- The loop of `write`.
  unfoldable pub after_all : List Object → List Change → ℕ → List Object × ℕ
  unfolding after
  after_all (o ∷ os) (c ∷ cs) failed =
      let (rest, total) = after_all os cs (failed + one_if_some c.error) in
      (after o c ∷ rest, total)
  after_all os cs failed = (os, failed)

  -- `Last::write`, up to writing the file.
  unfoldable pub write : List Object → Text → Bool → List Change → Result Text Document
  unfolding after_all
  write os command full cs =
      if length os == length cs
      then (let (objects, failed) = after_all os cs 0 in
          ok (record { command = command; complete = full; failed = failed; objects = objects }))
      else err (codes "The plan is not the one the run started with")
