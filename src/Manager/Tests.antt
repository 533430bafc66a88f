-- ===== src/Manager/Tests.antt =====
-- Runs of src/manager.rs, on a wire that carries the structures themselves.
use detc.Base.{◌≡◌, refl, true, false, ◌||◌, Option, none, some, [], ◌∷◌, ok, ◌>>=◌, codes, text_eq}
use detc.Manager.Commands.{VarArgs, Commands, bytes, apply, var}
use detc.Manager.Params.{
  Method, Wire, IsFaithful, Shape, Params, list_shape, doc_shape, cat_shape, orphans_shape,
  remove_object_shape, unmask_shape, check_shape, apply_shape, set_shape, unset_shape, merge_shape,
  verify_shape, install_shape, remove_shape, key_shape, schema_shape, probe_shape, runs_shape,
  run_shape, ListParams, DocParams, CatParams, OrphansParams, RemoveObjectParams, UnmaskParams,
  CheckParams, ApplyParams, SetParams, UnsetParams, MergeParams, VerifyParams, InstallParams,
  RemoveParams, KeyParams, SchemaParams, ProbeParams, RunsParams, RunParams,
}
use detc.Manager.Call.{Reader, call}
use detc.Manager.Answer.{command}
use detc.Manager.Carried.{may_change}
use detc.Manager.Whole.{IsWhole, command-call}
use detc.Manager.ReadOnly.{changes, only_reports, call-writes}

data Carried : Type 0 where
  nothing : Carried
  list_carried : ListParams → Carried
  doc_carried : DocParams → Carried
  cat_carried : CatParams → Carried
  orphans_carried : OrphansParams → Carried
  remove_object_carried : RemoveObjectParams → Carried
  unmask_carried : UnmaskParams → Carried
  check_carried : CheckParams → Carried
  apply_carried : ApplyParams → Carried
  set_carried : SetParams → Carried
  unset_carried : UnsetParams → Carried
  merge_carried : MergeParams → Carried
  verify_carried : VerifyParams → Carried
  install_carried : InstallParams → Carried
  remove_carried : RemoveParams → Carried
  key_carried : KeyParams → Carried
  schema_carried : SchemaParams → Carried
  probe_carried : ProbeParams → Carried
  runs_carried : RunsParams → Carried
  run_carried : RunParams → Carried

carry : (s : Shape) → Params s → Carried
carry list_shape p = list_carried p
carry doc_shape p = doc_carried p
carry cat_shape p = cat_carried p
carry orphans_shape p = orphans_carried p
carry remove_object_shape p = remove_object_carried p
carry unmask_shape p = unmask_carried p
carry check_shape p = check_carried p
carry apply_shape p = apply_carried p
carry set_shape p = set_carried p
carry unset_shape p = unset_carried p
carry merge_shape p = merge_carried p
carry verify_shape p = verify_carried p
carry install_shape p = install_carried p
carry remove_shape p = remove_carried p
carry key_shape p = key_carried p
carry schema_shape p = schema_carried p
carry probe_shape p = probe_carried p
carry runs_shape p = runs_carried p
carry run_shape p = run_carried p

deliver : (s : Shape) → Carried → Option (Params s)
deliver list_shape (list_carried p) = some p
deliver doc_shape (doc_carried p) = some p
deliver cat_shape (cat_carried p) = some p
deliver orphans_shape (orphans_carried p) = some p
deliver remove_object_shape (remove_object_carried p) = some p
deliver unmask_shape (unmask_carried p) = some p
deliver check_shape (check_carried p) = some p
deliver apply_shape (apply_carried p) = some p
deliver set_shape (set_carried p) = some p
deliver unset_shape (unset_carried p) = some p
deliver merge_shape (merge_carried p) = some p
deliver verify_shape (verify_carried p) = some p
deliver install_shape (install_carried p) = some p
deliver remove_shape (remove_carried p) = some p
deliver key_shape (key_carried p) = some p
deliver schema_shape (schema_carried p) = some p
deliver probe_shape (probe_carried p) = some p
deliver runs_shape (runs_carried p) = some p
deliver run_shape (run_carried p) = some p
deliver _ _ = none

abbrev wire : Wire
wire = record {
  Json = Carried;
  json = carry;
  empty = nothing;
  from = deliver;
  encode = λ t. t;
  decode = λ t. some t;
}

delivered : (s : Shape) (p : Params s) → deliver s (carry s p) ≡ some p
unfolding carry deliver
delivered list_shape p = refl
delivered doc_shape p = refl
delivered cat_shape p = refl
delivered orphans_shape p = refl
delivered remove_object_shape p = refl
delivered unmask_shape p = refl
delivered check_shape p = refl
delivered apply_shape p = refl
delivered set_shape p = refl
delivered unset_shape p = refl
delivered merge_shape p = refl
delivered verify_shape p = refl
delivered install_shape p = refl
delivered remove_shape p = refl
delivered key_shape p = refl
delivered schema_shape p = refl
delivered probe_shape p = refl
delivered runs_shape p = refl
delivered run_shape p = refl

wire-IsFaithful : IsFaithful wire
wire-IsFaithful = record { from-json = delivered; decode-encode = λ t. refl }

abbrev reader : Reader
reader (bytes b) = some b
reader _ = some (codes "bytes")

abbrev pairs_given : VarArgs
pairs_given = record { key = codes "a.b" ∷ []; value = codes "1" ∷ []; kv = [] }

abbrev apply_given : Commands
apply_given = apply none none pairs_given

command-call_example :
    (call wire reader apply_given true >>= λ s. command wire s.0 (some s.1))
    ≡ ok (apply_given, true)
unfolding may_change
command-call_example =
    command-call wire wire-IsFaithful reader (λ b. refl) apply_given true (unfold IsWhole in refl)

abbrev unset_method : Method
unset_method = record {
  name = codes "UnsetVariables";
  field = codes "change";
  stream = true;
  writes = true;
}

unset_called :
    call wire reader (var none pairs_given false true false none) false
    ≡ ok (unset_method, unset_carried (record { key = codes "a.b" ∷ []; dry_run = false }))
unfolding call text_eq carry
unset_called = refl

call-writes_example : true ≡ (
    changes (var none pairs_given false true false none)
    || only_reports (var none pairs_given false true false none))
call-writes_example =
    call-writes wire wire-IsFaithful reader (var none pairs_given false true false none) false
      unset_method (unset_carried (record { key = codes "a.b" ∷ []; dry_run = false })) unset_called
