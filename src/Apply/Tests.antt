-- ===== src/Apply/Tests.antt =====
-- Small plans, and the theorems about src/apply.rs at concrete inputs.
use detc.Base.{
  ◌≡◌, refl, ℕ, zero, suc, true, false, none, some, List, [], ◌∷◌, map, ok, err, codes, text_eq,
  text_lt, pos, inl, inr, arith,
}
use detc.Value.{Fields, bool, object, end, field}
use detc.Value.Equality.{value_eq}
use detc.Apply.Requirement.{unmet, find_object}
use detc.Apply.Requirement.Order.{Chain, unmet_no_cycle}
use detc.Apply.Change.{
  Change, Answers, removed, create, broken, resource, unusable, provider_failed, requirement, apply,
  taken,
}
use detc.Apply.Change.Converges.{IsReached, apply-IsReached}
use detc.Apply.Run.{Event, errored, skipped, done, sort, run, attempt}
use detc.Apply.Run.Skips.{Precedes, is_skipped, went_wrong, run_skips}
use detc.Apply.Run.Requirements.{tried_requirement}
use detc.Apply.Run.Broken.{broken_requirement_tried}

-- {"installed": true}
abbrev installed : Fields
installed = field (codes "installed") (bool true) end

abbrev pkg : Change
pkg = record {
  kind = codes "pkg";
  name = codes "nginx";
  id = codes "pkg/nginx";
  source = codes "/etc/detc/resources/pkg/nginx";
  order = pos 10;
  action = create;
  requires = [];
  error = none;
  skipped = none;
  target = resource installed none end;
}

abbrev unit : Change
unit = record pkg {
  kind = codes "unit";
  id = codes "unit/nginx";
  order = pos 40;
  requires = codes "pkg/nginx" ∷ [];
}

abbrev willing : Answers
willing = record {
  written = ok tt;
  removal = removed;
  provider_applied = ok tt;
  schema = ok (λ m. m);
  inspected = ok (some (object installed));
}

abbrev refusing : Answers
refusing = record willing { provider_applied = err provider_failed }

-- The package cannot be applied.
abbrev first_fails : ℕ → Answers
first_fails zero = refusing
first_fails (suc i) = willing

abbrev failed_pkg : Event × Change
failed_pkg = (errored provider_failed, record pkg { error = some provider_failed })

abbrev skipped_unit : Event × Change
skipped_unit = (skipped (codes "pkg/nginx"), record unit { skipped = some (codes "pkg/nginx") })

run-first_fails : run first_fails (pkg ∷ unit ∷ []) ≡ (failed_pkg ∷ skipped_unit ∷ [], 1)
unfolding run text_eq
run-first_fails = refl

run_skips_example : is_skipped skipped_unit.0 ≡ true
unfolding run text_eq
run_skips_example =
    run_skips first_fails (pkg ∷ unit ∷ []) failed_pkg skipped_unit (inl (refl, inl refl)) refl
      (inl refl)

abbrev done_unit : Event × Change
done_unit = (
  done (codes "created"),
  record unit { target = resource installed (some (object installed)) end },
)

tried_requirement_example :
    (p : Event × Change) × Precedes p done_unit (run (λ i. willing) (sort (unit ∷ pkg ∷ []))).0
    × (p.1.id ≡ codes "pkg/nginx")
    × (went_wrong p.0 ≡ false)
unfolding run sort taken unmet requirement text_eq text_lt value_eq find_object
tried_requirement_example =
    tried_requirement (λ i. willing) (unit ∷ pkg ∷ []) refl (refl, (refl, tt)) done_unit
      (codes "pkg/nginx") (inr (inl refl)) refl (inl refl)

unmet_no_cycle_example :
    ¬ (Chain (map requirement (unit ∷ pkg ∷ [])) (requirement unit) (requirement unit))
unfolding unmet requirement text_eq
unmet_no_cycle_example = unmet_no_cycle (map requirement (unit ∷ pkg ∷ [])) (requirement unit) refl

apply-IsReached_example : IsReached willing installed end (apply willing pkg).1.target
unfolding apply value_eq text_eq
apply-IsReached_example = apply-IsReached willing pkg installed none end refl refl refl

abbrev broken_pkg : Change
broken_pkg = record pkg {
  order = pos 50;
  action = broken;
  target = unusable (codes "Property instaled is unknown");
}

broken_requirement_tried_example :
    (unmet (map requirement (unit ∷ broken_pkg ∷ [])) true ≡ [])
    × ((rest : List (Event × Change)) × ((run (λ i. willing) (sort (unit ∷ broken_pkg ∷ []))).0
          ≡ attempt willing unit none ∷ rest))
unfolding text_eq
broken_requirement_tried_example =
    broken_requirement_tried (λ i. willing) unit broken_pkg refl refl refl (omega arith)
