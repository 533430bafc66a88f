-- ===== src/Manager/ReadOnly.antt =====
-- Which methods change the system, which is what a service that is read only refuses.
use detc.Base.{
  ◌≡◌, ◌∙◌, refl, sym, ap, Bool, true, false, ◌||◌, ◌&&◌, not, is_empty, [], ◌∷◌, Option, none,
  some, Result, ok, ◌>>=◌, Text, text_eq, inl, inr, Bool-cases, Result-cases, arith,
}
use detc.Manager.Commands.{
  Source, Commands, VarArgs, Fault, create, verify, install, restore, status, remove_bundle, apply,
  list, doc, cat, remove, orphans, unmask, check, schema, var, bundle, report, writes,
}
use detc.Manager.Params.{Method, Wire, IsFaithful}
use detc.Manager.Call.{Reader, call, values_call, id_of}
use detc.Manager.Carried.{args-cases, source-cases, may_change, carried}

-- Whether the subcommand changes the system, where it is not a dry run.
unfoldable pub changes : Commands → Bool
unfolding may_change
changes (orphans purge forget) = purge || not (is_empty forget)
changes c = may_change c

-- `orphans` with nothing to purge or to forget, which shows what there is.
unfoldable pub only_reports : Commands → Bool
only_reports (orphans purge forget) = not purge && is_empty forget
only_reports _ = false

may_change-changes : (c : Commands) → may_change c ≡ (changes c || only_reports c)
unfolding may_change changes only_reports
may_change-changes (orphans true forget) = refl
may_change-changes (orphans false []) = refl
may_change-changes (orphans false (f ∷ fs)) = refl
may_change-changes (apply file kind args) = refl
may_change-changes (remove objects kind mask purge) = refl
may_change-changes (unmask objects kind) = refl
may_change-changes (var file args persist unset probes one) = ground arith
may_change-changes (bundle command) = ground arith
may_change-changes (list types masked kind) = refl
may_change-changes (cat object kind raw args) = refl
may_change-changes (check file kind args) = refl
may_change-changes (doc object kind) = refl
may_change-changes (schema provider) = refl
may_change-changes (report id listed last only_fails) = refl

module _ (wire : Wire) (faithful : IsFaithful wire) (reader : Reader) where
  -- Whether the method of a call is one that writes.
  unfoldable called : Commands → Bool → Result Fault Bool
  unfolding call
  called c dry = call wire reader c dry >>= λ s. ok s.0.writes

  unfoldable declared : Commands → Result Fault Bool
  unfolding carried may_change
  declared c = carried wire faithful reader c >>= λ _. ok (may_change c)

  values-called :
      (args : VarArgs) (persist dry : Bool)
      → called (var none args persist false false none) dry
        ≡ declared (var none args persist false false none)
  unfolding called declared text_eq
  values-called args persist dry = elim (Bool-cases (writes args none false none)) [
    | inl w ↦ elim (args-cases args) [
      | inl (v, e, back, there) ↦ rw (values_call, w, e, there) refl
      | inr (x, e, there) ↦ rw (values_call, w, e, there) refl
    ]
    | inr w ↦ rw (values_call, w) refl
  ]

  source-called :
      (s : Source) (persist applied unsigned dry : Bool)
      → (called (bundle (verify s)) dry ≡ declared (bundle (verify s)))
        × (called (bundle (install s persist applied unsigned)) dry
            ≡ declared (bundle (install s persist applied unsigned)))
  unfolding called declared text_eq
  source-called s persist applied unsigned dry = elim (source-cases wire faithful reader s) [
    | inl (b, e, f) ↦ (rw (e, f) refl, rw (e, f) refl)
    | inr (inl (x, e, f)) ↦ (rw (e, f) refl, rw (e, f) refl)
    | inr (inr (inl (u, e))) ↦ (rw e refl, rw e refl)
    | inr (inr (inr e)) ↦ (rw e refl, rw e refl)
  ]

  report-called :
      (id : Option Text) (listed last only_fails dry : Bool)
      → called (report id listed last only_fails) dry ≡ declared (report id listed last only_fails)
  unfolding called declared text_eq
  report-called id true last only_fails dry = refl
  report-called id false last true dry = elim (Result-cases (id_of wire reader id last)) [
    | inl (n, e) ↦ rw e refl
    | inr (x, e) ↦ rw e refl
  ]
  report-called id false last false dry = elim (Result-cases (id_of wire reader id last)) [
    | inl (n, e) ↦ rw e refl
    | inr (x, e) ↦ rw e refl
  ]

  called-declared : (c : Commands) (dry : Bool) → called c dry ≡ declared c
  unfolding called declared text_eq
  called-declared (list true masked kind) dry = refl
  called-declared (list false masked kind) dry = refl
  called-declared (cat object kind raw args) dry = elim (args-cases args) [
    | inl (v, e, back, there) ↦ rw (e, there) refl
    | inr (x, e, there) ↦ rw (e, there) refl
  ]
  called-declared (check file kind args) dry = elim (args-cases args) [
    | inl (v, e, back, there) ↦ rw (e, there) refl
    | inr (x, e, there) ↦ rw (e, there) refl
  ]
  called-declared (apply file kind args) dry = elim (args-cases args) [
    | inl (v, e, back, there) ↦ rw (e, there) refl
    | inr (x, e, there) ↦ rw (e, there) refl
  ]
  called-declared (var file args persist unset true one) dry = refl
  called-declared (var file args persist unset false (some p)) dry = refl
  called-declared (var file args persist true false none) dry = refl
  called-declared (var (some f) args persist false false none) dry = refl
  called-declared (var none args persist false false none) dry = values-called args persist dry
  called-declared (bundle (create dir output key)) dry = refl
  called-declared (bundle (verify s)) dry = (source-called s false false false dry).0
  called-declared (bundle (install s persist applied unsigned)) dry =
      (source-called s persist applied unsigned dry).1
  called-declared (bundle (restore applied)) dry = refl
  called-declared (bundle status) dry = refl
  called-declared (bundle (remove_bundle names all)) dry = refl
  called-declared (report id listed last only_fails) dry =
      report-called id listed last only_fails dry
  called-declared (remove objects kind mask purge) dry = refl
  called-declared (orphans purge forget) dry = refl
  called-declared (unmask objects kind) dry = refl
  called-declared (doc object kind) dry = refl
  called-declared (schema provider) dry = refl

  declared-may_change : (c : Commands) (b : Bool) → declared c ≡ ok b → b ≡ may_change c
  unfolding declared
  declared-may_change c b h = elim (Result-cases (carried wire faithful reader c)) [
    | inl (d, e) ↦ sym (ground (arith, rw (declared, e) at h))
    | inr (x, e) ↦ absurd (ground (arith, rw (declared, e) at h))
  ]

  -- The method that a subcommand is sent to is one of those that write exactly where the subcommand
  -- changes the system, in a run that is not a dry run, or is `orphans` without anything to purge or to
  -- forget, which only reports.
  pub call-writes :
      (c : Commands) (dry_run : Bool) (m : Method) (parameters : wire.Json)
      → call wire reader c dry_run ≡ ok (m, parameters)
      → m.writes ≡ (changes c || only_reports c)
  unfolding called
  call-writes c dry m parameters h =
      declared-may_change c m.writes
        (sym (called-declared c dry) ∙ ap (λ r. r >>= λ (s : Method × wire.Json). ok s.0.writes) h)
      ∙ may_change-changes c
