-- ===== src/Manager/RoundTrip.antt =====
-- What a subcommand is after it was sent as a call and answered.
use detc.Base.{
  ◌≡◌, refl, Bool, true, false, ◌&&◌, Option, none, some, Result, ok, ◌>>=◌, Text, text_eq, inl,
  inr, Bool-cases, Result-cases,
}
use detc.Manager.Commands.{
  ObjectType, VarArgs, Source, BundleCommands, Commands, Fault, create, verify, install, restore,
  status, remove_bundle, apply, list, doc, cat, remove, orphans, unmask, check, schema, var, bundle,
  report, writes,
}
use detc.Manager.Params.{
  Wire, IsFaithful, InstallParams, list_shape, doc_shape, cat_shape, orphans_shape,
  remove_object_shape, unmask_shape, check_shape, apply_shape, set_shape, unset_shape, merge_shape,
  verify_shape, install_shape, remove_shape, key_shape, schema_shape, probe_shape, runs_shape,
  run_shape,
}
use detc.Manager.Call.{Reader, values_call, id_of, call}
use detc.Manager.Answer.{command}
use detc.Manager.Carried.{args-cases, may_change, carried, source-cases}

module _ (wire : Wire) (faithful : IsFaithful wire) (reader : Reader) where
  -- What arrives of a subcommand, and whether as a dry run.
  unfoldable pub arrives : Commands → Bool → Result Fault (Commands × Bool)
  unfolding call command
  arrives c dry = call wire reader c dry >>= λ s. command wire s.0 (some s.1)

  unfoldable pub expected : Commands → Bool → Result Fault (Commands × Bool)
  unfolding carried may_change
  expected c dry = carried wire faithful reader c >>= λ d. ok (d, may_change c && dry)

  -- The pairs of the variables, where they can be sent.
  cat-arrives :
      (object : Text) (kind : Option ObjectType) (raw : Bool) (args : VarArgs) (dry : Bool)
      → arrives (cat object kind raw args) dry ≡ expected (cat object kind raw args) dry
  unfolding arrives expected text_eq
  cat-arrives object kind raw args dry = elim (args-cases args) [
    | inl (v, e, back, there) ↦
        rw (e, there)
          (rw
            (
              faithful.from-json cat_shape
                  (record { name = object; of_type = kind; raw = raw; var = v }),
              back,
            )
            refl)
    | inr (x, e, there) ↦ rw (e, there) refl
  ]

  check-arrives :
      (file : Option Text) (kind : Option ObjectType) (args : VarArgs) (dry : Bool)
      → arrives (check file kind args) dry ≡ expected (check file kind args) dry
  unfolding arrives expected text_eq
  check-arrives file kind args dry = elim (args-cases args) [
    | inl (v, e, back, there) ↦
        rw (e, there)
          (rw
            (faithful.from-json check_shape (record { name = file; of_type = kind; var = v }), back)
            refl)
    | inr (x, e, there) ↦ rw (e, there) refl
  ]

  apply-arrives :
      (file : Option Text) (kind : Option ObjectType) (args : VarArgs) (dry : Bool)
      → arrives (apply file kind args) dry ≡ expected (apply file kind args) dry
  unfolding arrives expected text_eq
  apply-arrives file kind args dry = elim (args-cases args) [
    | inl (v, e, back, there) ↦
        rw (e, there)
          (rw
            (
              faithful.from-json apply_shape
                  (record { name = file; of_type = kind; dry_run = dry; var = v }),
              back,
            )
            refl)
    | inr (x, e, there) ↦ rw (e, there) refl
  ]

  values-arrive :
      (args : VarArgs) (persist dry : Bool)
      → arrives (var none args persist false false none) dry
        ≡ expected (var none args persist false false none) dry
  unfolding arrives expected text_eq
  values-arrive args persist dry = elim (Bool-cases (writes args none false none)) [
    | inl w ↦ elim (args-cases args) [
      | inl (v, e, back, there) ↦
          rw (values_call, w, e, there)
            (rw
              (
                faithful.from-json set_shape (record { var = v; persist = persist; dry_run = dry }),
                back,
              )
              refl)
      | inr (x, e, there) ↦ rw (values_call, w, e, there) refl
    ]
    | inr w ↦
        rw (values_call, w) (rw (faithful.from-json key_shape (record { key = args.key })) refl)
  ]

  verify-arrives :
      (s : Source) (dry : Bool) → arrives (bundle (verify s)) dry ≡ expected (bundle (verify s)) dry
  unfolding arrives expected text_eq
  verify-arrives s dry = elim (source-cases wire faithful reader s) [
    | inl (b, e, f) ↦
        rw (e, f)
          (rw
            (
              faithful.from-json verify_shape
                  (record { bundle = some (wire.encode b); url = none }),
              faithful.decode-encode b,
            )
            refl)
    | inr (inl (x, e, f)) ↦ rw (e, f) refl
    | inr (inr (inl (u, e))) ↦
        rw e (rw (faithful.from-json verify_shape (record { bundle = none; url = some u })) refl)
    | inr (inr (inr e)) ↦
        rw e (rw (faithful.from-json verify_shape (record { bundle = none; url = none })) refl)
  ]

  abbrev install_params : Option Text → Option Text → Bool → Bool → Bool → Bool → InstallParams
  install_params b u persist applied unsigned dry = record {
    bundle = b;
    url = u;
    persist = persist;
    apply = applied;
    allow_unsigned = unsigned;
    dry_run = dry;
  }

  install-arrives :
      (s : Source) (persist applied unsigned dry : Bool)
      → arrives (bundle (install s persist applied unsigned)) dry
        ≡ expected (bundle (install s persist applied unsigned)) dry
  unfolding arrives expected text_eq
  install-arrives s persist applied unsigned dry = elim (source-cases wire faithful reader s) [
    | inl (b, e, f) ↦
        rw (e, f)
          (rw
            (
              faithful.from-json install_shape
                  (install_params (some (wire.encode b)) none persist applied unsigned dry),
              faithful.decode-encode b,
            )
            refl)
    | inr (inl (x, e, f)) ↦ rw (e, f) refl
    | inr (inr (inl (u, e))) ↦ rw e (
        rw
          (faithful.from-json install_shape
            (install_params none (some u) persist applied unsigned dry))
          refl)
    | inr (inr (inr e)) ↦ rw e (
        rw
          (faithful.from-json install_shape (install_params none none persist applied unsigned dry))
          refl)
  ]

  report-arrives :
      (id : Option Text) (listed last only_fails dry : Bool)
      → arrives (report id listed last only_fails) dry
        ≡ expected (report id listed last only_fails) dry
  unfolding arrives expected text_eq
  report-arrives id true last only_fails dry =
      rw (faithful.from-json runs_shape (record { only_fails = only_fails })) refl
  report-arrives id false last true dry = elim (Result-cases (id_of wire reader id last)) [
    | inl (n, e) ↦ rw e (rw (faithful.from-json run_shape (record { id = n })) refl)
    | inr (x, e) ↦ rw e refl
  ]
  report-arrives id false last false dry = elim (Result-cases (id_of wire reader id last)) [
    | inl (n, e) ↦ rw e (rw (faithful.from-json run_shape (record { id = n })) refl)
    | inr (x, e) ↦ rw e refl
  ]

  bundle-arrives :
      (c : BundleCommands) (dry : Bool) → arrives (bundle c) dry ≡ expected (bundle c) dry
  unfolding arrives expected text_eq
  bundle-arrives (create dir output key) dry = refl
  bundle-arrives (verify s) dry = verify-arrives s dry
  bundle-arrives (install s persist applied unsigned) dry =
      install-arrives s persist applied unsigned dry
  bundle-arrives (restore applied) dry =
      rw (faithful.from-json install_shape (install_params none none true applied false dry)) refl
  bundle-arrives status dry = refl
  bundle-arrives (remove_bundle names all) dry =
      rw (faithful.from-json remove_shape (record { names = names; all = all; dry_run = dry })) refl

  var-arrives :
      (file : Option Text) (args : VarArgs) (persist unset probes : Bool) (one : Option Text)
      (dry : Bool)
      → arrives (var file args persist unset probes one) dry
        ≡ expected (var file args persist unset probes one) dry
  unfolding arrives expected text_eq
  var-arrives file args persist unset true one dry = refl
  var-arrives file args persist unset false (some p) dry =
      rw (faithful.from-json probe_shape (record { probe = p })) refl
  var-arrives file args persist true false none dry =
      rw (faithful.from-json unset_shape (record { key = args.key; dry_run = dry })) refl
  var-arrives (some f) args persist false false none dry =
      rw (faithful.from-json merge_shape (record { file = f; persist = persist; dry_run = dry }))
        refl
  var-arrives none args persist false false none dry = values-arrive args persist dry

  -- A subcommand that is sent as a call is answered as what crosses of it, and as a dry run where it
  -- was one and has a dry run; a subcommand that cannot be sent is refused.
  pub command-call-carried :
      (c : Commands) (dry_run : Bool)
      → (call wire reader c dry_run >>= λ s. command wire s.0 (some s.1))
        ≡ (carried wire faithful reader c >>= λ d. ok (d, may_change c && dry_run))
  unfolding arrives expected text_eq
  command-call-carried (list true masked kind) dry = refl
  command-call-carried (list false masked kind) dry =
      rw (faithful.from-json list_shape (record { masked = masked; of_type = kind })) refl
  command-call-carried (cat object kind raw args) dry = cat-arrives object kind raw args dry
  command-call-carried (check file kind args) dry = check-arrives file kind args dry
  command-call-carried (apply file kind args) dry = apply-arrives file kind args dry
  command-call-carried (var file args persist unset probes one) dry =
      var-arrives file args persist unset probes one dry
  command-call-carried (bundle c) dry = bundle-arrives c dry
  command-call-carried (report id listed last only_fails) dry =
      report-arrives id listed last only_fails dry
  command-call-carried (remove objects kind mask purge) dry =
      rw
        (faithful.from-json remove_object_shape
          (record { names = objects; of_type = kind; mask = mask; purge = purge; dry_run = dry }))
        refl
  command-call-carried (orphans purge forget) dry =
      rw
        (faithful.from-json orphans_shape
          (record { purge = purge; forget = forget; dry_run = dry }))
        refl
  command-call-carried (unmask objects kind) dry =
      rw
        (faithful.from-json unmask_shape
          (record { names = objects; of_type = kind; dry_run = dry }))
        refl
  command-call-carried (doc object kind) dry =
      rw (faithful.from-json doc_shape (record { name = object; of_type = kind })) refl
  command-call-carried (schema provider) dry =
      rw (faithful.from-json schema_shape (record { name = provider })) refl
