-- ===== src/Manager/Whole.antt =====
-- The subcommands that a call has room for as they are.
use detc.Base.{
  ◌≡◌, ◌∙◌, refl, sym, ap, Bool, true, false, ◌⊎◌, ◌&&◌, Option, none, some, ok, ◌>>=◌, Text,
  length, inl, inr, parse_usize, ◌==◌, arith, ℕ,
}
use detc.Base.Decimal.{decimal}
use detc.Manager.Commands.{
  VarArgs, Source, BundleCommands, Commands, no_args, path, stdin, url, bytes, stored, create,
  verify, install, restore, status, remove_bundle, apply, list, doc, cat, remove, orphans, unmask,
  check, schema, var, bundle, report, writes, pairs,
}
use detc.Manager.Params.{Wire, IsFaithful}
use detc.Manager.Call.{Reader, call}
use detc.Manager.Answer.{command, keys_only, shown_id}
use detc.Manager.Carried.{may_change, carried, carried_source}
use detc.Manager.RoundTrip.{command-call-carried}

-- A value for each key.
abbrev pub IsPaired : VarArgs → Type 0
IsPaired args = length args.key == length args.value ≡ true

-- No id, or one that is written as the number of a run is displayed.
unfoldable pub IsShown : Option Text → Type 0
IsShown none = Unit
IsShown (some t) = (n : ℕ) × (parse_usize t ≡ some n) × (decimal n ≡ t)

-- A source that is the same for another machine: neither a path nor the standard input.
unfoldable pub IsFetched : Source → Type 0
IsFetched (url u) = Unit
IsFetched (bytes b) = Unit
IsFetched _ = true ≡ false

unfoldable pub IsWhole : Commands → Type 0
unfolding IsShown IsFetched
IsWhole (list true masked kind) = (masked ≡ false) × (kind ≡ none)
IsWhole (cat object kind raw args) = IsPaired args
IsWhole (check file kind args) = IsPaired args
IsWhole (apply file kind args) = IsPaired args
IsWhole (bundle (create dir output key)) = true ≡ false
IsWhole (bundle (verify s)) = IsFetched s
IsWhole (bundle (install s persist applied unsigned)) = IsFetched s
IsWhole (var none args false false true none) = args ≡ no_args
IsWhole (var none args false false false (some p)) = args ≡ no_args
IsWhole (var none args false true false none) = args ≡ keys_only args.key
IsWhole (var (some f) args persist false false none) = args ≡ no_args
IsWhole (var none args persist false false none) =
    ((writes args none false none ≡ true) × IsPaired args)
    ⊎ ((writes args none false none ≡ false) × (persist ≡ false) × (args ≡ keys_only args.key))
IsWhole (var _ _ _ _ _ _) = true ≡ false
IsWhole (report none true false only_fails) = Unit
IsWhole (report id false false only_fails) = IsShown id
IsWhole (report _ _ _ _) = true ≡ false
IsWhole _ = Unit

module _ (wire : Wire) (faithful : IsFaithful wire) (reader : Reader)
    (here : (b : Text) → reader (bytes b) ≡ some b) where
  source_carried : (s : Source) → IsFetched s → carried_source wire faithful reader s ≡ ok s
  unfolding IsFetched carried_source
  source_carried (url u) h = refl
  source_carried (bytes b) h = rw (here b) refl
  source_carried (path p) h = absurd (ground (arith, h))
  source_carried stdin h = absurd (ground (arith, h))
  source_carried stored h = absurd (ground (arith, h))

  var_carried :
      (file : Option Text) (args : VarArgs) (persist unset probes : Bool) (one : Option Text)
      → IsWhole (var file args persist unset probes one)
      → carried wire faithful reader (var file args persist unset probes one)
        ≡ ok (var file args persist unset probes one)
  unfolding IsWhole carried
  var_carried none args false false true none h = rw h refl
  var_carried none args false false false (some p) h = rw h refl
  var_carried none args false true false none h =
      ap (λ a. ok (var none a false true false none)) (sym h)
  var_carried (some f) args persist false false none h =
      ap (λ a. ok (var (some f) a persist false false none)) (sym h)
  var_carried none args true false false none h = elim h [
    | inl (w, p) ↦ rw (w, pairs, p) refl
    | inr (w, e, k) ↦ absurd (ground (arith, e))
  ]
  var_carried none args false false false none h = elim h [
    | inl (w, p) ↦ rw (w, pairs, p) refl
    | inr (w, e, k) ↦ rw w (ap (λ a. ok (var none a false false false none)) (sym k))
  ]
  var_carried _ args _ _ _ _ h = absurd (ground (arith, h))

  report_carried :
      (id : Option Text) (listed last only_fails : Bool)
      → IsWhole (report id listed last only_fails)
      → carried wire faithful reader (report id listed last only_fails)
        ≡ ok (report id listed last only_fails)
  unfolding IsWhole carried IsShown shown_id
  report_carried none true false only_fails h = refl
  report_carried none false false only_fails h = refl
  report_carried (some t) false false only_fails (n, e, f) = rw e (rw f refl)
  report_carried _ _ _ _ h = absurd (ground (arith, h))

  bundle_carried :
      (c : BundleCommands)
      → IsWhole (bundle c)
      → carried wire faithful reader (bundle c) ≡ ok (bundle c)
  unfolding IsWhole carried IsFetched
  bundle_carried (create dir output key) h = absurd (ground (arith, h))
  bundle_carried (verify s) h = rw (source_carried s h) refl
  bundle_carried (install (url u) persist applied unsigned) h = refl
  bundle_carried (install (bytes b) persist applied unsigned) h = rw (here b) refl
  bundle_carried (install _ persist applied unsigned) h = absurd (ground (arith, h))
  bundle_carried (restore applied) h = refl
  bundle_carried status h = refl
  bundle_carried (remove_bundle names all) h = refl

  whole_carried : (c : Commands) → IsWhole c → carried wire faithful reader c ≡ ok c
  unfolding IsWhole carried
  whole_carried (list true masked kind) h = rw (h.0, h.1) refl
  whole_carried (list false masked kind) h = refl
  whole_carried (cat object kind raw args) h = rw (pairs, h) refl
  whole_carried (check file kind args) h = rw (pairs, h) refl
  whole_carried (apply file kind args) h = rw (pairs, h) refl
  whole_carried (var file args persist unset probes one) h =
      var_carried file args persist unset probes one h
  whole_carried (bundle c) h = bundle_carried c h
  whole_carried (report id listed last only_fails) h = report_carried id listed last only_fails h
  whole_carried (remove objects kind mask purge) h = refl
  whole_carried (orphans purge forget) h = refl
  whole_carried (unmask objects kind) h = refl
  whole_carried (doc object kind) h = refl
  whole_carried (schema provider) h = refl

  -- A subcommand that a call has room for is answered as that very subcommand, and as a dry run where
  -- it was one and is among those that have a dry run, where the parameters and base64 are read back as
  -- they were written and the bytes of a source as themselves. A call has room for a subcommand other
  -- than `bundle create` whose keys and values pair up, whose bundle is a URL or
  -- bytes, that lists the types without asking for masked objects or for one type, that asks for a
  -- run without `--last` and by its number as it is displayed, and whose variables are of one of the
  -- forms that `var` tells apart, with nothing that the form leaves aside.
  pub command-call :
      (c : Commands) (dry_run : Bool)
      → IsWhole c
      → (call wire reader c dry_run >>= λ s. command wire s.0 (some s.1))
        ≡ ok (c, may_change c && dry_run)
  command-call c dry h =
      command-call-carried wire faithful reader c dry
      ∙ ap (λ r. r >>= λ d. ok (d, may_change c && dry)) (whole_carried c h)
