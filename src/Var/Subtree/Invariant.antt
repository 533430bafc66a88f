-- ===== src/Var/Subtree/Invariant.antt =====
-- The namespace is always a mapping whose keys are in order, whatever the probes report and
-- whatever the documents say, src/var.rs.
use detc.Base.{
  ◌≡◌, refl, true, false, none, some, List, [], ◌∷◌, Result, ok, err, Text, arith, Option, is_empty,
  if◌then◌else◌, Bool-cases, inl, inr, All, Result-cases,
}
use detc.Value.{Value, null, object, end, is_object, is_null}
use detc.Value.Order.{IsSorted, remove-IsSorted}
use detc.Var.Strategy.{Merge, Error, merge_key}
use detc.Var.Merging.{JsonPatch, take_merge, refuse_unless_mergeable_at_root, merge_value}
use detc.Var.Merging.Laws.{merge_value-is_object, merge_value-IsSorted}
use detc.Var.Subtree.{
  Action, at_subtree, merge_in, merge_directed, merge_checked, merge_document, merge_file,
  merge_documents, merge_probe, merge_listed, merge_probes, from_system_with,
}
use detc.Var.Subtree.Frame.{at_subtree-IsSorted}

-- A mapping, with the keys of every object in order.
pub record IsNamespace (v : Value) : Type 0 where
  pub mapping : is_object v ≡ true
  pub sorted : IsSorted v

-- What a file or a probe was read as has its keys in order.
abbrev pub ReadSorted : Result Error Value → Type 0
ReadSorted (ok v) = IsSorted v
ReadSorted (err e) = Unit

take_merge-IsSorted : (v : Value) → IsSorted v → IsSorted (take_merge v).1
unfolding take_merge
take_merge-IsSorted (object m) s = remove-IsSorted merge_key m s
take_merge-IsSorted null s = s
take_merge-IsSorted _ s = s

take_merge-is_object : (v : Value) → is_object v ≡ true → is_object (take_merge v).1 ≡ true
unfolding take_merge
take_merge-is_object (object m) h = refl
take_merge-is_object null h = h
take_merge-is_object _ h = h

at_subtree-is_object :
    (act : Action) (k : Text) (ks : List Text) (v : Value)
    → is_object v ≡ true
    → is_object (at_subtree act (k ∷ ks) v).1 ≡ true
unfolding at_subtree
at_subtree-is_object act k ks (object m) h = refl
at_subtree-is_object act k ks null h = h
at_subtree-is_object act k ks _ h = h

module _ (jp : JsonPatch) where
  merge_value_mapping :
      (a b : Value) (how : Merge)
      → is_object a ≡ true
      → is_object b ≡ true
      → is_object (merge_value jp a b how) ≡ true
  merge_value_mapping (object a) (object b) how ha hb = merge_value-is_object jp a b how
  merge_value_mapping null b how ha hb = cc
  merge_value_mapping _ _ how ha hb = cc

  merge_in-IsNamespace :
      (b : Value) (how : Merge) (keys : List Text) (ns : Value)
      → IsSorted b
      → (is_empty keys ≡ true → is_object b ≡ true)
      → IsNamespace ns
      → IsNamespace (at_subtree (merge_in jp b how) keys ns).1
  unfolding merge_in
  merge_in-IsNamespace b how [] ns s root n =
      unfold at_subtree in
      record {
        mapping = merge_value_mapping ns b how n.mapping (root refl);
        sorted = merge_value-IsSorted jp ns b how n.sorted s;
      }
  merge_in-IsNamespace b how (k ∷ ks) ns s root n = record {
    mapping = at_subtree-is_object (merge_in jp b how) k ks ns n.mapping;
    sorted =
        at_subtree-IsSorted (merge_in jp b how) (λ v t. merge_value-IsSorted jp v b how t s)
          (k ∷ ks) ns n.sorted;
  }

  merge_directed-IsNamespace :
      (keys : List Text) (default : Merge) (t : Result Error (Option Merge) × Value) (ns : Value)
      → IsSorted t.1
      → (is_empty keys ≡ true → is_object t.1 ≡ true)
      → IsNamespace ns
      → IsNamespace (merge_directed jp keys default t ns).1
  unfolding merge_directed
  merge_directed-IsNamespace keys default (ok none, doc) ns s root n =
      merge_in-IsNamespace doc default keys ns s root n
  merge_directed-IsNamespace keys default (ok (some how), doc) ns s root n =
      merge_in-IsNamespace doc how keys ns s root n
  merge_directed-IsNamespace keys default (err e, doc) ns s root n = n

  merge_checked-IsNamespace :
      (r : Result Error (Unit {0})) (keys : List Text) (doc : Value) (default : Merge) (ns : Value)
      → IsSorted doc
      → (is_empty keys ≡ true → r ≡ ok tt → is_object doc ≡ true)
      → IsNamespace ns
      → IsNamespace (merge_checked jp r keys doc default ns).1
  unfolding merge_checked
  merge_checked-IsNamespace (ok _) keys doc default ns s root n =
      merge_directed-IsNamespace keys default (take_merge doc) ns (take_merge-IsSorted doc s)
        (λ e. take_merge-is_object doc (root e refl)) n
  merge_checked-IsNamespace (err e) keys doc default ns s root n = n

  -- What passes the check at the root, and is not null, is a mapping.
  checked_root :
      (keys : List Text) (doc : Value)
      → is_null doc ≡ false
      → is_empty keys ≡ true
      → (if is_empty keys then refuse_unless_mergeable_at_root doc else ok tt) ≡ ok tt
      → is_object doc ≡ true
  unfolding refuse_unless_mergeable_at_root
  checked_root [] doc h e r = ground arith
  checked_root (k ∷ ks) doc h e r = cc

  merge_document-null :
      (keys : List Text) (doc : Value) (default : Merge) (ns : Value)
      → is_null doc ≡ true
      → merge_document jp keys doc default ns ≡ (ok tt, ns)
  unfolding merge_document
  merge_document-null keys doc default ns e = rw e refl

  merge_document-checked :
      (keys : List Text) (doc : Value) (default : Merge) (ns : Value)
      → is_null doc ≡ false
      → merge_document jp keys doc default ns
        ≡ merge_checked jp
            (if is_empty keys then refuse_unless_mergeable_at_root doc else ok tt)
            keys
            doc
            default
            ns
  unfolding merge_document
  merge_document-checked keys doc default ns e = rw e refl

  -- Merging a document anywhere keeps the namespace one, whether it is refused or not.
  pub merge_document-IsNamespace :
      (keys : List Text) (doc : Value) (default : Merge) (ns : Value)
      → IsSorted doc
      → IsNamespace ns
      → IsNamespace (merge_document jp keys doc default ns).1
  merge_document-IsNamespace keys doc default ns s n = elim (Bool-cases (is_null doc)) [
    | inl e ↦ rw (merge_document-null keys doc default ns e) n
    | inr e ↦ rw (merge_document-checked keys doc default ns e) (
        merge_checked-IsNamespace
          (if is_empty keys then refuse_unless_mergeable_at_root doc else ok tt) keys doc default ns
          s (checked_root keys doc e) n)
  ]

  merge_file-IsNamespace :
      (read : Result Error Value) (default : Merge) (ns : Value)
      → ReadSorted read
      → IsNamespace ns
      → IsNamespace (merge_file jp read default ns).1
  unfolding merge_file
  merge_file-IsNamespace (ok doc) default ns s n = merge_document-IsNamespace [] doc default ns s n
  merge_file-IsNamespace (err e) default ns s n = n

  merge_documents-IsNamespace :
      (reads : List (Result Error Value)) (default : Merge) (ns : Value)
      → All ReadSorted reads
      → IsNamespace ns
      → IsNamespace (merge_documents jp reads default ns).1
  unfolding merge_documents
  merge_documents-IsNamespace [] default ns s n = n
  merge_documents-IsNamespace (read ∷ reads) default ns s n =
      let next = merge_file jp read default ns in
      let kept = merge_file-IsNamespace read default ns s.0 n in
      elim (Result-cases next.0) [
        | inl (_, e) ↦
            rw (e, merge_documents) (merge_documents-IsNamespace reads default next.1 s.1 kept)
        | inr (_, e) ↦ rw (e, merge_documents) kept
      ]

  merge_probe-IsNamespace :
      (mount : List Text) (read : Result Error Value) (default : Merge) (ns : Value)
      → ReadSorted read
      → IsNamespace ns
      → IsNamespace (merge_probe jp mount read default ns)
  unfolding merge_probe
  merge_probe-IsNamespace mount (ok doc) default ns s n =
      merge_document-IsNamespace mount doc default ns s n
  merge_probe-IsNamespace mount (err e) default ns s n = n

  merge_listed-IsNamespace :
      (probes : List (List Text × Result Error Value)) (default : Merge) (ns : Value)
      → All (λ p. ReadSorted p.1) probes
      → IsNamespace ns
      → IsNamespace (merge_listed jp probes default ns)
  unfolding merge_listed
  merge_listed-IsNamespace [] default ns s n = n
  merge_listed-IsNamespace ((mount, read) ∷ probes) default ns s n =
      merge_listed-IsNamespace probes default (merge_probe jp mount read default ns) s.1
        (merge_probe-IsNamespace mount read default ns s.0 n)

  -- The documents of the probes, where they could be listed.
  abbrev pub ProbesSorted : Result Error (List (List Text × Result Error Value)) → Type 0
  ProbesSorted (ok probes) = All (λ p. ReadSorted p.1) probes
  ProbesSorted (err e) = Unit {0}

  -- Whatever the probes report and whatever the documents hold, at whatever mount points and with
  -- whatever strategies, the collected namespace is a mapping whose keys are in order, also where
  -- collecting it ends in an error.
  pub from_system_with-IsNamespace :
      (probes : Result Error (List (List Text × Result Error Value)))
      (reads : List (Result Error Value)) (default : Merge)
      → ProbesSorted probes
      → All ReadSorted reads
      → IsNamespace (from_system_with jp probes reads default).1
  unfolding from_system_with merge_probes
  from_system_with-IsNamespace (err e) reads default ps rs = record { mapping = refl; sorted = tt }
  from_system_with-IsNamespace (ok probes) reads default ps rs =
      merge_documents-IsNamespace reads default (merge_listed jp probes default (object end)) rs (
        merge_listed-IsNamespace probes default (object end) ps
          (record { mapping = refl; sorted = tt }))
