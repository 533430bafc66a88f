-- ===== src/Resource/Tests.antt =====
-- A declaration of src/resource.rs, taken apart.
use detc.Base.{◌≢◌, arith, ◌≡◌, refl, true, false, none, some, [], ◌∷◌, ok, codes, text_eq, pos}
use detc.Value.{Fields, bool, number, string, array, nil, cons, end, field}
use detc.Provider.Number.{Numbers}
use detc.Resource.Listing.{strip_extension, from_entries, find_resource}
use detc.Resource.Listing.Found.{find_own_id}
use detc.Resource.{Resource, resource_id, Declaration, order_key, requires_key, taken_apart}

-- Every number is a seven.
abbrev pub sevens : Numbers
sevens = record {
  is_whole = λ t. true;
  as_i64 = λ t. some (pos 7);
  from_i64 = λ n. codes "7";
  from_decimal = λ t. none;
  from_i64-is_whole = λ n. refl;
}

-- {"_order": 7, "_requires": [" pkg/nginx"], "enabled": true}
abbrev written : Fields
written = field order_key (number (codes "7")) (
    field requires_key (array (cons (string (codes " pkg/nginx")) nil))
      (field (codes "enabled") (bool true) end))

abbrev unit : Declaration
unit = record {
  state = field (codes "enabled") (bool true) end;
  order = some (pos 7);
  requires = codes "pkg/nginx" ∷ [];
  empty = false;
}

taken_apart-written : taken_apart sevens (codes "unit/nginx") false written ≡ ok unit
unfolding taken_apart text_eq
taken_apart-written = refl

-- The declaration resources/path/etc/app.json.yaml.
abbrev app : Resource
app = record { kind = codes "path"; name = codes "etc/app.json"; source = codes "app.json.yaml" }

from_entries-app :
    from_entries
      (ok (((codes "path" ∷ codes "etc" ∷ codes "app.json.yaml" ∷ []), codes "app.json.yaml") ∷ []))
    ≡ ok (app ∷ [])
unfolding from_entries text_eq
from_entries-app = refl

find_own_id_example : find_resource (resource_id app) (app ∷ []) ≢ ok app
unfolding strip_extension text_eq
find_own_id_example = find_own_id app (app ∷ []) (λ e. absurd (ground (arith, e)))
