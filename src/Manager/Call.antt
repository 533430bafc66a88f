-- ===== src/Manager/Call.antt =====
-- The call that a subcommand becomes, `call`, `bundle_call` and `locator` of src/manager.rs.
use detc.Base.{
  ℕ, Bool, true, false, Option, none, some, Result, ok, err, ◌>>=◌, Text, codes, parse_usize,
  if◌then◌else◌,
}
use detc.Manager.Commands.{
  VarArgs, Source, BundleCommands, Commands, Fault, path, stdin, url, bytes, stored, create, verify,
  install, restore, status, remove_bundle, apply, list, doc, cat, remove, orphans, unmask, check,
  schema, var, bundle, report, writes, create_is_local, unreadable_source, not_a_run,
  unknown_method,
}
use detc.Manager.Params.{
  Method, Wire, Params, Shape, method_named, var_of, list_shape, doc_shape, cat_shape,
  orphans_shape, remove_object_shape, unmask_shape, check_shape, apply_shape, set_shape,
  unset_shape, merge_shape, verify_shape, install_shape, remove_shape, key_shape, schema_shape,
  probe_shape, runs_shape, run_shape,
}

-- What is read of a source, none where it cannot be read or fetched.
abbrev pub Reader : Type 0
Reader = Source → Option Text

abbrev pub or_unreadable : Option Text → Result Fault Text
or_unreadable none = err unreadable_source
or_unreadable (some t) = ok t

module _ (wire : Wire) (reader : Reader) where
  -- What is sent: the name of the method, and the parameters.
  abbrev pub Sent : Type 0
  Sent = Result Fault (Text × wire.Json)

  abbrev pub sends : Text → (s : Shape) → Params s → Sent
  sends name s p = ok (name, wire.json s p)

  -- `locator`
  unfoldable pub locator : Source → Result Fault (Option Text × Option Text)
  locator (url u) = ok (none, some u)
  locator stored = ok (none, none)
  locator (path p) =
      or_unreadable (reader (path p)) >>= λ content. ok (some (wire.encode content), none)
  locator stdin = or_unreadable (reader stdin) >>= λ content. ok (some (wire.encode content), none)
  locator (bytes b) =
      or_unreadable (reader (bytes b)) >>= λ content. ok (some (wire.encode content), none)

  unfoldable pub bundle_call : BundleCommands → Bool → Sent
  unfolding locator
  bundle_call (create dir output key) dry_run = err create_is_local
  bundle_call (verify source) dry_run = locator source >>= λ at.
      sends (codes "VerifyBundle") verify_shape (record { bundle = at.0; url = at.1 })
  bundle_call status dry_run = ok (codes "GetBundle", wire.empty)
  bundle_call (install source persist applied allow_unsigned) dry_run = locator source >>= λ at.
      sends (codes "InstallBundle") install_shape (record {
        bundle = at.0;
        url = at.1;
        persist = persist;
        apply = applied;
        allow_unsigned = allow_unsigned;
        dry_run = dry_run;
      })
  bundle_call (restore applied) dry_run = sends (codes "InstallBundle") install_shape (record {
    bundle = none;
    url = none;
    persist = true;
    apply = applied;
    allow_unsigned = false;
    dry_run = dry_run;
  })
  bundle_call (remove_bundle names all) dry_run =
      sends (codes "RemoveBundle") remove_shape
        (record { names = names; all = all; dry_run = dry_run })

  -- The arms of `var` that write, or only ask, behind the others.
  unfoldable pub values_call : VarArgs → Bool → Bool → Sent
  unfolding writes var_of
  values_call args persist dry_run = elim (writes args none false none) [
    | true ↦ var_of args >>= λ v.
        sends (codes "SetVariables") set_shape
          (record { var = v; persist = persist; dry_run = dry_run })
    | false ↦ sends (codes "GetVariables") key_shape (record { key = args.key })
  ]

  -- The arms of `var`: the probes, one probe, taking keys away, merging a document.
  unfoldable pub var_call : Option Text → VarArgs → Bool → Bool → Bool → Option Text → Bool → Sent
  unfolding values_call
  var_call file args persist unset true one dry_run = ok (codes "ListProbes", wire.empty)
  var_call file args persist unset false (some p) dry_run =
      sends (codes "RunProbe") probe_shape (record { probe = p })
  var_call file args persist true false none dry_run =
      sends (codes "UnsetVariables") unset_shape (record { key = args.key; dry_run = dry_run })
  var_call (some f) args persist false false none dry_run =
      sends (codes "MergeDocument") merge_shape
        (record { file = f; persist = persist; dry_run = dry_run })
  var_call none args persist false false none dry_run = values_call args persist dry_run

  abbrev pub read_id : Text → Option ℕ → Result Fault (Option ℕ)
  read_id text none = err (not_a_run text)
  read_id text (some n) = ok (some n)

  -- The id of a report; `--last` and no id mean the most recent run.
  unfoldable pub id_of : Option Text → Bool → Result Fault (Option ℕ)
  unfolding parse_usize
  id_of none last = ok none
  id_of (some text) true = ok none
  id_of (some text) false = read_id text (parse_usize text)

  unfoldable pub report_call : Option Text → Bool → Bool → Bool → Sent
  unfolding id_of
  report_call id true last only_fails =
      sends (codes "ListRuns") runs_shape (record { only_fails = only_fails })
  report_call id false last only_fails = id_of id last >>= λ n.
      sends (if only_fails then codes "GetFailures" else codes "GetRun") run_shape
        (record { id = n })

  unfoldable pub sent : Commands → Bool → Sent
  unfolding bundle_call var_call report_call var_of
  sent (list true masked kind) dry_run = ok (codes "ListTypes", wire.empty)
  sent (list false masked kind) dry_run =
      sends (codes "List") list_shape (record { masked = masked; of_type = kind })
  sent (cat object kind raw args) dry_run = var_of args >>= λ v.
      sends (codes "Cat") cat_shape (record { name = object; of_type = kind; raw = raw; var = v })
  sent (remove objects kind mask purge) dry_run =
      sends (codes "Remove") remove_object_shape
        (record { names = objects; of_type = kind; mask = mask; purge = purge; dry_run = dry_run })
  sent (orphans purge forget) dry_run =
      sends (codes "Orphans") orphans_shape
        (record { purge = purge; forget = forget; dry_run = dry_run })
  sent (unmask objects kind) dry_run =
      sends (codes "Unmask") unmask_shape
        (record { names = objects; of_type = kind; dry_run = dry_run })
  sent (check file kind args) dry_run = var_of args >>= λ v.
      sends (codes "Check") check_shape (record { name = file; of_type = kind; var = v })
  sent (doc object kind) dry_run =
      sends (codes "Doc") doc_shape (record { name = object; of_type = kind })
  sent (schema provider) dry_run = sends (codes "Schema") schema_shape (record { name = provider })
  sent (apply file kind args) dry_run = var_of args >>= λ v.
      sends (codes "Apply") apply_shape
        (record { name = file; of_type = kind; dry_run = dry_run; var = v })
  sent (var file args persist unset probes one) dry_run =
      var_call file args persist unset probes one dry_run
  sent (bundle command) dry_run = bundle_call command dry_run
  sent (report id listed last only_fails) dry_run = report_call id listed last only_fails

  abbrev pub found_method : Text → wire.Json → Option Method → Result Fault (Method × wire.Json)
  found_method name parameters none = err (unknown_method name)
  found_method name parameters (some m) = ok (m, parameters)

  unfoldable pub call : Commands → Bool → Result Fault (Method × wire.Json)
  unfolding sent method_named
  call command dry_run = sent command dry_run >>= λ s. found_method s.0 s.1 (method_named s.0)
