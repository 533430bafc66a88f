-- ===== src/Var/Subtree.antt =====
-- Merging documents into the namespace, src/var.rs. `&mut self` is the namespace that goes in and
-- the one that comes out, beside the result: what was written before an error stays written.
-- The `Variables` of the source has the value as its one field.
pub mod Frame
pub mod Invariant
use detc.Base.{
  Bool, true, false, not, ◌&&◌, Option, none, some, List, [], ◌∷◌, Result, ok, err, Text, is_empty,
  is_ok, if◌then◌else◌,
}
use detc.Value.{Value, Fields, object, end, lookup, insert, or_empty, is_null}
use detc.Var.Strategy.{partial, Merge, Error, not_an_object, default_merge}
use detc.Var.Merging.{
  JsonPatch, full_merge_value, take_merge, refuse_unless_mergeable_at_root, merge_value,
}

-- What is done to the value that a list of keys addresses.
abbrev pub Action : Type 0
Action = Value → Result Error (Unit {0}) × Value

-- `subtree`, with what its caller does to the value that it returns: the missing objects are
-- created on the way down.
unfoldable pub at_subtree : Action → List Text → Value → Result Error (Unit {0}) × Value
unfolding lookup insert
at_subtree act [] v = act v
at_subtree act (k ∷ ks) (object m) =
    let (r, child) = at_subtree act ks (or_empty (lookup k m)) in (r, object (insert k child m))
at_subtree act (k ∷ ks) v = (err (not_an_object k), v)

module _ (jp : JsonPatch) where
  merge_in : Value → Merge → Action
  unfolding merge_value
  merge_in b how a = (ok tt, merge_value jp a b how)

  -- `merge_at`
  unfoldable pub merge_at : List Text → Value → Action
  unfolding merge_in at_subtree
  merge_at keys doc ns = at_subtree (merge_in doc partial) keys ns

  -- The strategy that the document declares, or the default.
  merge_directed : List Text → Merge → Result Error (Option Merge) × Value → Action
  unfolding merge_in
  merge_directed keys default (ok none, doc) ns = at_subtree (merge_in doc default) keys ns
  merge_directed keys default (ok (some how), doc) ns = at_subtree (merge_in doc how) keys ns
  merge_directed keys default (err e, doc) ns = (err e, ns)

  -- The `?` on the check of a document at the root.
  merge_checked : Result Error (Unit {0}) → List Text → Value → Merge → Action
  unfolding merge_directed take_merge at_subtree
  merge_checked (ok _) keys doc default ns = merge_directed keys default (take_merge doc) ns
  merge_checked (err e) keys doc default ns = (err e, ns)

  unfoldable pub merge_document : List Text → Value → Merge → Action
  unfolding merge_checked refuse_unless_mergeable_at_root
  merge_document keys doc default ns =
      if is_null doc
      then (ok tt, ns)
      else merge_checked (if is_empty keys then refuse_unless_mergeable_at_root doc else ok tt) keys
          doc default ns

  -- One round of `merge_documents`: `read` is what `from_file` answers.
  merge_file : Result Error Value → Merge → Action
  unfolding merge_document
  merge_file (ok doc) default ns = merge_document [] doc default ns
  merge_file (err e) default ns = (err e, ns)

  -- `merge_documents`, over the files that the resolver yields: the first error ends it.
  unfoldable pub merge_documents : List (Result Error Value) → Merge → Action
  unfolding merge_file
  merge_documents [] default ns = (ok tt, ns)
  merge_documents (read ∷ rest) default ns =
      let (r, ns') = merge_file read default ns in
      elim r [ ok _ ↦ merge_documents rest default ns' | err e ↦ (err e, ns') ]

  -- One round of `merge_probes`: what the probe failed at is left out.
  merge_probe : List Text → Result Error Value → Merge → Value → Value
  unfolding merge_document
  merge_probe mount (ok doc) default ns = (merge_document mount doc default ns).1
  merge_probe mount (err e) default ns = ns

  -- The loop of `merge_probes`, over what `from_probe` answers for each entry.
  unfoldable pub merge_listed : List (List Text × Result Error Value) → Merge → Value → Value
  unfolding merge_probe
  merge_listed [] default ns = ns
  merge_listed ((mount, read) ∷ rest) default ns =
      merge_listed rest default (merge_probe mount read default ns)

  -- `merge_probes`, with what `probe_entries` lists, or why it could not.
  unfoldable pub merge_probes :
      Result Error (List (List Text × Result Error Value))
      → Merge
      → Value
      → Result Error (Unit {0}) × Value
  unfolding merge_listed
  merge_probes (err e) default ns = (err e, ns)
  merge_probes (ok entries) default ns = (ok tt, merge_listed entries default ns)

  -- `from_system_with`
  unfoldable pub from_system_with :
      Result Error (List (List Text × Result Error Value))
      → List (Result Error Value)
      → Merge
      → Result Error (Unit {0}) × Value
  unfolding merge_probes merge_documents
  from_system_with probes documents default =
      let (r, ns) = merge_probes probes default (object end) in
      elim r [ ok _ ↦ merge_documents documents default ns | err e ↦ (err e, ns) ]

  -- `from_documents`
  unfoldable pub from_documents : List (Result Error Value) → Result Error (Unit {0}) × Value
  unfolding merge_documents
  from_documents documents = merge_documents documents default_merge (object end)
