-- ===== src/Last/Tests.antt =====
-- A run in which a package fails, and the theorem about src/last.rs at it.
use detc.Base.{◌≡◌, refl, ℕ, true, none, [], ◌∷◌, map, Result, ok, err, Text, codes, pos}
use detc.Value.{end}
use detc.Apply.Change.{Change, Answers, Fault, removed, create, resource, provider_failed}
use detc.Apply.Run.{run}
use detc.Last.{Document, found_objects, write}
use detc.Last.Told.{AreTold}
use detc.Last.Reports.{write-run}

abbrev pkg : Change
pkg = record {
  kind = codes "pkg";
  name = codes "nginx";
  id = codes "pkg/nginx";
  source = codes "pkg/nginx";
  order = pos 10;
  action = create;
  requires = [];
  error = none;
  skipped = none;
  target = resource end none end;
}

abbrev unit : Change
unit = record pkg {
  kind = codes "unit";
  id = codes "unit/nginx";
  requires = codes "pkg/nginx" ∷ [];
}

abbrev refusing : ℕ → Answers
refusing i = record {
  written = ok tt;
  removal = removed;
  provider_applied = err provider_failed;
  schema = ok (λ m. m);
  inspected = ok none;
}

abbrev word : Fault → Text
word e = codes "failed"

abbrev read : Text → Result Text Text
read source = ok source

write-run_example :
    (d : Document) × (write read word
        (found_objects read word (pkg ∷ unit ∷ []))
        (codes "apply")
        true
        (map (λ e. e.1) (run refusing (pkg ∷ unit ∷ [])).0)
      ≡ ok d)
    × (d.command ≡ codes "apply")
    × (d.complete ≡ true)
    × (d.failed ≡ (run refusing (pkg ∷ unit ∷ [])).1)
    × AreTold read word (pkg ∷ unit ∷ []) (run refusing (pkg ∷ unit ∷ [])).0 d.objects
write-run_example =
    write-run read word refusing (codes "apply") true (pkg ∷ unit ∷ [])
      ((refl, refl), ((refl, refl), tt))
