-- ===== src/Apply/Plan/Build.antt =====
-- The whole plan, `Plan::build`, and what of it is published in the namespace, `publish` and
-- `published` of src/apply.rs.
use detc.Base.{
  ℕ, zero, suc, Bool, true, false, ◌&&◌, Option, none, some, List, [], ◌∷◌, ◌++◌, map, Result, ok,
  err, ◌>>=◌, Text, codes,
}
use detc.Value.{Value, Fields, null, string, object, end, field, insert}
use detc.Var.Strategy
use detc.Var.Merging.{JsonPatch}
use detc.Var.Subtree.{merge_at}
use detc.Provider.Number.{Numbers}
use detc.Provider.Schema
use detc.Resource.{Resource, resource_id, Declaration, Error, declaration}
use detc.Written.{Written}
use detc.Apply.Naming.{files_key, template_id, digest}
use detc.Apply.Requirement.{Reason, unmet}
use detc.Apply.Change.{Change, Target, template, requirement}
use detc.Apply.Run.{sort}
use detc.Apply.Plan.{
  broken_change, TargetFile, template_change, Providers, Schemas, resource_change,
}

-- What the plan is built with: the root, the hash of the crate sha2, the numbers of serde_json, the
-- crate json-patch, how errors are worded, and how the text of a declaration is parsed.
pub record Tools : Type 0 where
  pub root : Text
  pub sha256 : Text → Text
  pub numbers : Numbers
  pub patch : JsonPatch
  pub invalid : Text → Schema.Error → Text
  pub cannot_merge : Strategy.Error → Text
  pub because : Reason → Text
  pub parse : Text → Result Error Value
  pub refused : Error → Text

-- A template of the ladder, what it renders to in a namespace, and the file it writes.
pub record Template : Type 0 where
  pub path : Text
  pub source : Text
  pub file : TargetFile
  pub rendered : Value → Result Text Text

-- A resource of the ladder, and what its declaration renders to in a namespace.
pub record Declared : Type 0 where
  pub resource : Resource
  pub rendered : Value → Result Error Text

abbrev pub namespace : Text
namespace = codes "detc"

abbrev pub files_name : Text
files_name = codes "files"

unfoldable pub set_at : ℕ → (Change → Change) → List Change → List Change
set_at i f [] = []
set_at zero f (c ∷ cs) = f c ∷ cs
set_at (suc i) f (c ∷ cs) = c ∷ set_at i f cs

module _ (tools : Tools) where
  -- `published`: the files that were there are taken away, and these are put.
  unfoldable pub published : Value → Fields → Result Strategy.Error Value
  unfolding merge_at
  published var files =
      let (cleared, without) =
        merge_at tools.patch (namespace ∷ []) (object (field files_name null end)) var in
      cleared >>= λ _.
      let (put, with_files) =
        merge_at tools.patch (namespace ∷ []) (object (field files_name (object files) end))
          without in
      put >>= λ _. ok with_files

  abbrev digest_in : Target → Fields → Fields
  unfolding files_key digest insert
  digest_in (template path found (some content)) files =
      insert (files_key tools.root path) (string (digest tools.sha256 content)) files
  digest_in _ files = files

  -- The loop of `publish`.
  unfoldable pub digests : List Change → Fields → Fields
  unfolding digest_in
  digests [] files = files
  digests (c ∷ cs) files = digests cs (digest_in c.target files)

  abbrev worded : Result Strategy.Error Value → Result Text Value
  worded (ok v) = ok v
  worded (err e) = err (tools.cannot_merge e)

  unfoldable pub template_entry : Written → Value → Template → Change
  unfolding template_change broken_change template_id
  template_entry written context t = elim (t.rendered context) [
    | ok rendered ↦ template_change tools.root tools.sha256 written t.source t.path t.file rendered
    | err e ↦ broken_change (codes "template") t.path (template_id tools.root t.path) e
  ]

  -- The part of the templates.
  unfoldable pub template_part :
      Written → Value → Option (List Template) → Result Text (List Change)
  unfolding template_entry published
  template_part written var none = ok []
  template_part written var (some ts) =
      worded (published var end) >>= λ context. ok (map (template_entry written context) ts)

  abbrev entry_or_broken : Resource → Result Text Change → Change
  unfolding broken_change
  entry_or_broken r (ok c) = c
  entry_or_broken r (err e) = broken_change r.kind r.name (resource_id r) e

  abbrev reworded : Result Error Declaration → Result Text Declaration
  reworded (ok d) = ok d
  reworded (err e) = err (tools.refused e)

  -- `resource.declaration(context)`
  unfoldable pub declared_in : Value → Declared → Result Text Declaration
  unfolding declaration
  declared_in context d =
      reworded (declaration tools.numbers tools.parse (resource_id d.resource) (d.rendered context))

  -- The loop over the resources.
  unfoldable pub resource_entries : Providers → Value → List Declared → Schemas → List Change
  unfolding resource_change entry_or_broken declared_in
  resource_entries out context [] schemas = []
  resource_entries out context (d ∷ ds) schemas =
      let (result, next) =
        resource_change tools.numbers tools.invalid out d.resource (declared_in context d)
          schemas in
      entry_or_broken d.resource result ∷ resource_entries out context ds next

  -- The part of the resources, behind the templates.
  unfoldable pub resource_part :
      Result Text Providers
      → Value
      → List Change
      → Option (List Declared)
      → Result Text (List Change)
  unfolding published digests resource_entries
  resource_part providers var before none = ok before
  resource_part providers var before (some ds) = do
    out ← providers
    context ← worded (published var (digests before end))
    ok (before ++ resource_entries out context ds [])

  -- What stands in the place of an object whose requirement cannot be met.
  unfoldable pub offender : Reason → Change → Change
  unfolding broken_change
  offender why c = broken_change c.kind c.name c.id (tools.because why)

  -- The loop over the offenders.
  unfoldable pub mark : List (ℕ × Reason) → List Change → List Change
  unfolding set_at offender
  mark [] cs = cs
  mark ((i, why) ∷ rest) cs = mark rest (set_at i (offender why) cs)

  abbrev is_given : {A : Type 0} → Option A → Bool
  is_given none = false
  is_given (some a) = true

  -- The objects with their offenders marked, before they are sorted.
  unfoldable pub checked : Bool → List Change → List Change
  unfolding mark unmet
  checked complete cs = mark (unmet (map requirement cs) complete) cs

  -- `Plan::build`
  unfoldable pub build :
      Written
      → Result Text Providers
      → Value
      → Option (List Template)
      → Option (List Declared)
      → Result Text (List Change)
  unfolding template_part resource_part checked sort
  build written providers var templates resources = do
    before ← template_part written var templates
    cs ← resource_part providers var before resources
    ok (sort (checked (is_given templates && is_given resources) cs))
