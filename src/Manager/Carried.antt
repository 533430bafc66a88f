-- ===== src/Manager/Carried.antt =====
-- What a subcommand is for the machine that answers, said without the calls.
use detc.Base.{
  ◌≡◌, refl, ap, Bool, true, false, ◌⊎◌, Option, none, some, List, [], ◌∷◌, Result, ok, err, ◌>>=◌,
  ◌>>◌, Text, length, inl, inr, Bool-cases, Option-cases, if◌then◌else◌, ◌==◌, arith,
}
use detc.Manager.Commands.{
  VarArgs, Source, BundleCommands, Commands, Fault, no_args, path, stdin, url, bytes, stored,
  create, verify, install, restore, remove_bundle, apply, list, doc, cat, remove, orphans, unmask,
  check, schema, var, bundle, report, writes, pairs, zip, keys_and_values, unreadable_source,
  create_is_local,
}
use detc.Manager.Params.{Var, Wire, IsFaithful, assignments, keys_of, values_of, args_of, var_of}
use detc.Manager.Call.{Reader, or_unreadable, locator, id_of}
use detc.Manager.Answer.{keys_only, shown_id, command}

-- Keys and values that were paired come apart again.
paired :
    (ks vs : List Text)
    → length ks == length vs ≡ true
    → (keys_of (assignments (zip ks vs)) ≡ ks) × (values_of (assignments (zip ks vs)) ≡ vs)
paired [] [] h = (refl, refl)
paired [] (v ∷ vs) h = absurd (ground (arith, h))
paired (k ∷ ks) [] h = absurd (ground (arith, h))
paired (k ∷ ks) (v ∷ vs) h =
    let (e, f) = paired ks vs (ground (arith, h)) in (ap (◌∷◌ k) e, ap (◌∷◌ v) f)

pub args-cases :
    (args : VarArgs)
    → ((v : Var) × (var_of args ≡ ok v)
        × (args_of v ≡ args)
        × (pairs args ≡ ok (zip args.key args.value)))
      ⊎ ((e : Fault) × (var_of args ≡ err e) × (pairs args ≡ err e))
unfolding var_of pairs args_of
args-cases args = elim (Bool-cases (length args.key == length args.value)) [
  | inl e ↦
      let (k, v) = paired args.key args.value e in
      inl (
        record { assignment = assignments (zip args.key args.value); kv = args.kv },
        rw e refl,
        rw (k, v) refl,
        rw e refl,
      )
  | inr e ↦ inr (keys_and_values, rw e refl, rw e refl)
]

-- Whether the subcommand is one of those that have a dry run: they change the system, or they may, like
-- `orphans`, which does where it purges or forgets.
abbrev pub may_change_bundle : BundleCommands → Bool
may_change_bundle (install s p a u) = true
may_change_bundle (restore a) = true
may_change_bundle (remove_bundle names all) = true
may_change_bundle _ = false

unfoldable pub may_change_var : Option Text → VarArgs → Bool → Bool → Option Text → Bool
may_change_var file args unset true one = false
may_change_var file args unset false (some p) = false
may_change_var file args true false none = true
may_change_var (some f) args false false none = true
may_change_var none args false false none = writes args none false none

unfoldable pub may_change : Commands → Bool
unfolding may_change_var
may_change (apply file kind args) = true
may_change (remove objects kind mask purge) = true
may_change (orphans purge forget) = true
may_change (unmask objects kind) = true
may_change (var file args persist unset probes one) = may_change_var file args unset probes one
may_change (bundle command) = may_change_bundle command
may_change _ = false

module _ (wire : Wire) (faithful : IsFaithful wire) (reader : Reader) where
  -- The same source for the machine that answers: what is read here crosses as its bytes.
  unfoldable pub carried_source : Source → Result Fault Source
  carried_source (url u) = ok (url u)
  carried_source stored = ok stored
  carried_source (path p) = or_unreadable (reader (path p)) >>= λ t. ok (bytes t)
  carried_source stdin = or_unreadable (reader stdin) >>= λ t. ok (bytes t)
  carried_source (bytes b) = or_unreadable (reader (bytes b)) >>= λ t. ok (bytes t)

  -- The copy that was kept is not installed but restored.
  abbrev installs : Source → Bool → Bool → Bool → BundleCommands
  installs stored persist applied unsigned = restore applied
  installs s persist applied unsigned = install s persist applied unsigned

  unfoldable pub carried_bundle : BundleCommands → Result Fault BundleCommands
  unfolding carried_source
  carried_bundle (create dir output key) = err create_is_local
  carried_bundle (verify s) = carried_source s >>= λ t. ok (verify t)
  carried_bundle (install s persist applied unsigned) =
      carried_source s >>= λ t. ok (installs t persist applied unsigned)
  carried_bundle other = ok other

  -- What only asks for variables names the keys alone; what writes needs a value for each key.
  unfoldable pub carried_var :
      Option Text → VarArgs → Bool → Bool → Bool → Option Text → Result Fault Commands
  unfolding writes pairs
  carried_var file args persist unset true one = ok (var none no_args false false true none)
  carried_var file args persist unset false (some p) =
      ok (var none no_args false false false (some p))
  carried_var file args persist true false none =
      ok (var none (keys_only args.key) false true false none)
  carried_var (some f) args persist false false none =
      ok (var (some f) no_args persist false false none)
  carried_var none args persist false false none =
      if writes args none false none
      then pairs args >> ok (var none args persist false false none)
      else ok (var none (keys_only args.key) false false false none)

  unfoldable pub carried_report : Option Text → Bool → Bool → Bool → Result Fault Commands
  unfolding id_of
  carried_report id true last only_fails = ok (report none true false only_fails)
  carried_report id false last only_fails =
      id_of wire reader id last >>= λ n. ok (report (shown_id wire n) false false only_fails)

  -- The subcommand as the machine that answers runs it.
  unfoldable pub carried : Commands → Result Fault Commands
  unfolding carried_bundle carried_var carried_report pairs
  carried (list true masked kind) = ok (list true false none)
  carried (list false masked kind) = ok (list false masked kind)
  carried (cat object kind raw args) = pairs args >> ok (cat object kind raw args)
  carried (check file kind args) = pairs args >> ok (check file kind args)
  carried (apply file kind args) = pairs args >> ok (apply file kind args)
  carried (var file args persist unset probes one) = carried_var file args persist unset probes one
  carried (bundle command) = carried_bundle command >>= λ c. ok (bundle c)
  carried (report id listed last only_fails) = carried_report id listed last only_fails
  carried (remove objects kind mask purge) = ok (remove objects kind mask purge)
  carried (orphans purge forget) = ok (orphans purge forget)
  carried (unmask objects kind) = ok (unmask objects kind)
  carried (doc object kind) = ok (doc object kind)
  carried (schema provider) = ok (schema provider)

  pub source-cases :
      (s : Source)
      → ((b : Text) × (locator wire reader s ≡ ok (some (wire.encode b), none))
          × (carried_source s ≡ ok (bytes b)))
        ⊎ ((e : Fault) × (locator wire reader s ≡ err e) × (carried_source s ≡ err e))
        ⊎ ((u : Text) × (s ≡ url u))
        ⊎ (s ≡ stored)
  unfolding locator carried_source
  source-cases (url u) = inr (inr (inl (u, refl)))
  source-cases stored = inr (inr (inr refl))
  source-cases (path p) = elim (Option-cases (reader (path p))) [
    | inl e ↦ inr (inl (unreadable_source, rw e refl, rw e refl))
    | inr (t, e) ↦ inl (t, rw e refl, rw e refl)
  ]
  source-cases stdin = elim (Option-cases (reader stdin)) [
    | inl e ↦ inr (inl (unreadable_source, rw e refl, rw e refl))
    | inr (t, e) ↦ inl (t, rw e refl, rw e refl)
  ]
  source-cases (bytes b) = elim (Option-cases (reader (bytes b))) [
    | inl e ↦ inr (inl (unreadable_source, rw e refl, rw e refl))
    | inr (t, e) ↦ inl (t, rw e refl, rw e refl)
  ]
