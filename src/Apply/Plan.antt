-- ===== src/Apply/Plan.antt =====
-- Working out what the system needs, `Plan` of src/apply.rs.
pub mod Build
pub mod Converges
pub mod Accepted
mod Tests
use detc.Base.{
  ◌≡◌, refl, ℕ, zero, suc, Bool, true, false, not, ◌&&◌, Option, none, some, List, [], ◌∷◌, ◌++◌,
  map, Result, ok, err, ◌>>=◌, Text, codes, text_eq, is_empty, any, ℤ, if◌then◌else◌,
}
use detc.Base.Trim.{trim}
use detc.Base.Dict.{Dict, find_in, put_in}
use detc.Value.{Value, Fields}
use detc.Provider.Number.{Numbers}
use detc.Provider.Schema.{Schema, Error, default_order, validate, read, order_of}
use detc.Resource.{Resource, resource_id, Declaration, order_or}
use detc.Written.{Written, wrote}
use detc.Apply.Naming.{files_key, template_id, digest}
use detc.Apply.Change.{
  Change, Action, in_sync, create, update, remove, broken, Target, template, resource, unusable,
  nothing, difference, no_fields, requirement, changes,
}

-- `Change::broken`
unfoldable pub broken_change : Text → Text → Text → Text → Change
broken_change kind name id why = record {
  kind = kind;
  name = name;
  id = id;
  source = [];
  order = default_order;
  action = broken;
  requires = [];
  error = none;
  skipped = none;
  target = unusable why;
}

-- `(!rendered.trim().is_empty()).then_some(rendered)`
unfoldable pub content_of : Text → Option Text
unfolding trim
content_of rendered = if is_empty (trim rendered) then none else some rendered

-- What the file system answers about the file of a template: its text, none where it cannot be read
-- or is no text, and whether it is there.
pub record TargetFile : Type 0 where
  pub text : Option Text
  pub exists : Bool

module _ (root : Text) (sha256 : Text → Text) where
  -- The match on the content and the file.
  unfoldable pub template_action : Written → Text → Option Text → TargetFile → Action
  unfolding wrote files_key
  template_action written path (some content) f = elim f.text [
    | some current ↦ if text_eq current content then in_sync else update
    | none ↦ if f.exists then update else create
  ]
  template_action written path none f = elim f.text [
    | some current ↦
        if wrote root sha256 (files_key root path) current written then remove else in_sync
    | none ↦ in_sync
  ]

  -- `Plan::template_change`, behind the rendering.
  unfoldable pub template_change : Written → Text → Text → TargetFile → Text → Change
  unfolding content_of template_action template_id
  template_change written source path f rendered = record {
    kind = codes "template";
    name = path;
    id = template_id root path;
    source = source;
    order = default_order;
    action = template_action written path (content_of rendered) f;
    requires = [];
    error = none;
    skipped = none;
    target = template path f.text (content_of rendered);
  }

-- What the providers answer while the plan is built.
pub record Providers : Type 0 where
  pub find : Text → Result Text (Unit {0})
  pub schema : Text → Result Text Schema
  pub inspect : Text → Text → Fields → Result Text (Option Value)

abbrev pub Schemas : Type 0
Schemas = Dict Schema

-- A resource whose declaration rendered nothing.
unfoldable pub idle_change : Resource → Declaration → Change
idle_change r d = record {
  kind = r.kind;
  name = r.name;
  id = resource_id r;
  source = r.source;
  order = elim d.order [ some n ↦ n | none ↦ default_order ];
  action = in_sync;
  requires = d.requires;
  error = none;
  skipped = none;
  target = nothing;
}

-- The match on the state that the provider reported and what separates it.
unfoldable pub resource_action : Option Value → Bool → Action
resource_action none same = create
resource_action (some v) true = in_sync
resource_action (some v) false = update

module _ (numbers : Numbers) (message : Text → Error → Text) where
  abbrev invalid : Text → Result Error Fields → Result Text Fields
  invalid id (ok m) = ok m
  invalid id (err e) = err (message id e)

  -- What the schema and the provider make of a declaration.
  unfoldable pub inspected_change : Providers → Resource → Declaration → Schema → Result Text Change
  unfolding validate read difference resource_action
  inspected_change out r d schema = do
    desired ← invalid (resource_id r) (validate numbers schema d.state)
    current ← out.inspect r.kind r.name desired
    let diff = difference (read numbers schema) desired current
    ok (record {
      kind = r.kind;
      name = r.name;
      id = resource_id r;
      source = r.source;
      order = order_or d schema;
      action = resource_action current (no_fields diff);
      requires = d.requires;
      error = none;
      skipped = none;
      target = resource desired current diff;
    })

  -- The schema of a type, asked for once.
  unfoldable pub known_schema : Providers → Text → Schemas → Result Text Schema × Schemas
  unfolding find_in put_in
  known_schema out kind schemas = elim (find_in kind schemas) [
    | some s ↦ (ok s, schemas)
    | none ↦ elim (out.schema kind) [
      | ok s ↦ (ok s, put_in kind s schemas)
      | err e ↦ (err e, schemas)
    ]
  ]

  -- A declaration that asks for something.
  asking_change : Providers → Resource → Declaration → Schemas → Result Text Change × Schemas
  unfolding known_schema inspected_change
  asking_change out r d schemas = elim (out.find r.kind) [
    | err e ↦ (err e, schemas)
    | ok _ ↦
        let (s, next) = known_schema out r.kind schemas in
        (s >>= λ schema. inspected_change out r d schema, next)
  ]

  -- `Plan::resource_change`, behind the rendering.
  unfoldable pub resource_change :
      Providers → Resource → Result Text Declaration → Schemas → Result Text Change × Schemas
  unfolding asking_change idle_change
  resource_change out r (err e) schemas = (err e, schemas)
  resource_change out r (ok d) schemas =
      if d.empty then (ok (idle_change r d), schemas) else asking_change out r d schemas

-- `Plan::is_in_sync`
unfoldable pub is_in_sync : List Change → Bool
is_in_sync changes_of = not (any (λ c. changes c.action) changes_of)
