-- ===== src/Manager/Answer.antt =====
-- The subcommand that a call is, `command` and `source` of src/manager.rs: an answer for each method,
-- which is the subcommand and whether it is a dry run.
use detc.Base.{
  ℕ, Bool, true, false, Option, none, some, List, [], ◌∷◌, Result, ok, err, ◌>>=◌, Text, codes,
  text_eq, find,
}
use detc.Base.Decimal.{decimal}
use detc.Manager.Commands.{
  VarArgs, Source, BundleCommands, Commands, Fault, no_args, path, stdin, url, bytes, stored,
  verify, install, restore, status, remove_bundle, apply, list, doc, cat, remove, orphans, unmask,
  check, schema, var, bundle, report, not_base64, both_carried, unknown_method,
}
use detc.Manager.Params.{
  Method, Wire, InstallParams, args_of, take, list_shape, doc_shape, cat_shape, orphans_shape,
  remove_object_shape, unmask_shape, check_shape, apply_shape, set_shape, unset_shape, merge_shape,
  verify_shape, install_shape, remove_shape, key_shape, schema_shape, probe_shape, runs_shape,
  run_shape,
}

abbrev pub keys_only : List Text → VarArgs
keys_only keys = record { key = keys; value = []; kv = [] }

module _ (wire : Wire) where
  abbrev pub Given : Type 0
  Given = Option wire.Json

  abbrev pub Answered : Type 0
  Answered = Result Fault (Commands × Bool)

  abbrev decoded : Option Text → Result Fault Source
  decoded none = err not_base64
  decoded (some b) = ok (bytes b)

  -- The bundle that a call carries; neither is the copy that the system kept.
  unfoldable pub source_of : Option Text → Option Text → Result Fault Source
  source_of (some b) (some u) = err both_carried
  source_of (some b) none = decoded (wire.decode b)
  source_of none (some u) = ok (url u)
  source_of none none = ok stored

  unfoldable pub answer_list : Given → Answered
  unfolding take
  answer_list given = take wire list_shape given >>= λ p. ok (list false p.masked p.of_type, false)

  unfoldable pub answer_cat : Given → Answered
  unfolding take args_of
  answer_cat given =
      take wire cat_shape given >>= λ p. ok (cat p.name p.of_type p.raw (args_of p.var), false)

  unfoldable pub answer_remove : Given → Answered
  unfolding take
  answer_remove given = take wire remove_object_shape given >>= λ p.
      ok (remove p.names p.of_type p.mask p.purge, p.dry_run)

  unfoldable pub answer_orphans : Given → Answered
  unfolding take
  answer_orphans given =
      take wire orphans_shape given >>= λ p. ok (orphans p.purge p.forget, p.dry_run)

  unfoldable pub answer_unmask : Given → Answered
  unfolding take
  answer_unmask given =
      take wire unmask_shape given >>= λ p. ok (unmask p.names p.of_type, p.dry_run)

  unfoldable pub answer_check : Given → Answered
  unfolding take args_of
  answer_check given =
      take wire check_shape given >>= λ p. ok (check p.name p.of_type (args_of p.var), false)

  unfoldable pub answer_doc : Given → Answered
  unfolding take
  answer_doc given = take wire doc_shape given >>= λ p. ok (doc p.name p.of_type, false)

  unfoldable pub answer_schema : Given → Answered
  unfolding take
  answer_schema given = take wire schema_shape given >>= λ p. ok (schema p.name, false)

  unfoldable pub answer_apply : Given → Answered
  unfolding take args_of
  answer_apply given =
      take wire apply_shape given >>= λ p. ok (apply p.name p.of_type (args_of p.var), p.dry_run)

  unfoldable pub answer_probe : Given → Answered
  unfolding take
  answer_probe given = take wire probe_shape given >>= λ p.
      ok (var none no_args false false false (some p.probe), false)

  unfoldable pub answer_get : Given → Answered
  unfolding take
  answer_get given = take wire key_shape given >>= λ p.
      ok (var none (keys_only p.key) false false false none, false)

  unfoldable pub answer_set : Given → Answered
  unfolding take args_of
  answer_set given = take wire set_shape given >>= λ p.
      ok (var none (args_of p.var) p.persist false false none, p.dry_run)

  unfoldable pub answer_unset : Given → Answered
  unfolding take
  answer_unset given = take wire unset_shape given >>= λ p.
      ok (var none (keys_only p.key) false true false none, p.dry_run)

  unfoldable pub answer_merge : Given → Answered
  unfolding take
  answer_merge given = take wire merge_shape given >>= λ p.
      ok (var (some p.file) no_args p.persist false false none, p.dry_run)

  unfoldable pub answer_verify : Given → Answered
  unfolding take source_of
  answer_verify given = take wire verify_shape given >>= λ p.
      source_of p.bundle p.url >>= λ s. ok (bundle (verify s), false)

  -- A call that carries no bundle is a restore.
  unfoldable pub install_command : InstallParams → Source → BundleCommands
  install_command p stored = restore p.apply
  install_command p (path t) = install (path t) p.persist p.apply p.allow_unsigned
  install_command p stdin = install stdin p.persist p.apply p.allow_unsigned
  install_command p (url t) = install (url t) p.persist p.apply p.allow_unsigned
  install_command p (bytes t) = install (bytes t) p.persist p.apply p.allow_unsigned

  unfoldable pub answer_install : Given → Answered
  unfolding take source_of install_command
  answer_install given = take wire install_shape given >>= λ p.
      source_of p.bundle p.url >>= λ s. ok (bundle (install_command p s), p.dry_run)

  unfoldable pub answer_remove_bundle : Given → Answered
  unfolding take
  answer_remove_bundle given =
      take wire remove_shape given >>= λ p. ok (bundle (remove_bundle p.names p.all), p.dry_run)

  unfoldable pub answer_runs : Given → Answered
  unfolding take
  answer_runs given =
      take wire runs_shape given >>= λ p. ok (report none true false p.only_fails, false)

  unfoldable pub shown_id : Option ℕ → Option Text
  unfolding decimal
  shown_id none = none
  shown_id (some n) = some (decimal n)

  unfoldable pub answer_run : Bool → Given → Answered
  unfolding take shown_id
  answer_run only_fails given =
      take wire run_shape given >>= λ p. ok (report (shown_id p.id) false false only_fails, false)

  -- The match on the name of the method.
  unfoldable pub answers : List (Text × (Given → Answered))
  unfolding answer_list answer_cat answer_remove answer_orphans answer_unmask answer_check
      answer_doc answer_schema answer_apply answer_probe answer_get answer_set answer_unset
      answer_merge answer_verify answer_install answer_remove_bundle answer_runs answer_run
  answers =
      (codes "ListTypes", λ given. ok (list true false none, false))
      ∷ (codes "List", answer_list)
      ∷ (codes "Cat", answer_cat)
      ∷ (codes "Remove", answer_remove)
      ∷ (codes "Orphans", answer_orphans)
      ∷ (codes "Unmask", answer_unmask)
      ∷ (codes "Check", answer_check)
      ∷ (codes "Doc", answer_doc)
      ∷ (codes "Schema", answer_schema)
      ∷ (codes "Apply", answer_apply)
      ∷ (codes "ListProbes", λ given. ok (var none no_args false false true none, false))
      ∷ (codes "RunProbe", answer_probe)
      ∷ (codes "GetVariables", answer_get)
      ∷ (codes "SetVariables", answer_set)
      ∷ (codes "UnsetVariables", answer_unset)
      ∷ (codes "MergeDocument", answer_merge)
      ∷ (codes "VerifyBundle", answer_verify)
      ∷ (codes "GetBundle", λ given. ok (bundle status, false))
      ∷ (codes "InstallBundle", answer_install)
      ∷ (codes "RemoveBundle", answer_remove_bundle)
      ∷ (codes "ListRuns", answer_runs)
      ∷ (codes "GetRun", answer_run false)
      ∷ (codes "GetFailures", answer_run true)
      ∷ []

  abbrev answered_by : Text → Option (Text × (Given → Answered)) → Given → Answered
  answered_by name none given = err (unknown_method name)
  answered_by name (some handler) given = handler.1 given

  unfoldable pub command : Method → Given → Answered
  unfolding answers text_eq
  command m given =
      answered_by m.name
        (find (λ (handler : Text × (Given → Answered)). text_eq handler.0 m.name) answers) given
