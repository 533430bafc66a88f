-- ===== src/Written.antt =====
-- What detc did to the system, src/written.rs: the record, and what it says of what nothing declares
-- any more.
pub mod Orphans
pub mod Recorded
mod Tests
use detc.Base.{
  ◌≡◌, refl, ℕ, Bool, true, false, not, ◌&&◌, ◌||◌, Option, none, some, List, [], ◌∷◌, ◌++◌, Text,
  codes, text_eq, any, split, is_empty, ◌==◌, if◌then◌else◌,
}
use detc.Base.Dict.{Dict, find_in, put_in, drop_in}
use detc.Value.{Value, Fields}
use detc.Hosts.Range.{split_once}
use detc.Apply.Naming.{files_key, digest}
use detc.Apply.Change.{Change, Target, template, resource, unusable, nothing, difference, no_fields}

pub record File : Type 0 where
  pub digest : Text
  pub template : Text

pub record Resource : Type 0 where
  pub desired : Fields
  pub source : Text

pub record Written : Type 0 where
  pub files : Dict File
  pub resources : Dict Resource

abbrev pub empty : Written
empty = record { files = []; resources = [] }

-- What the ladder declares now, each a `BTreeSet`.
pub record Declared : Type 0 where
  pub files : List Text
  pub resources : List Text

pub data State : Type 0 where
  as_written changed gone unknown : State

pub data Orphan : Type 0 where
  orphan_file : Text → Text → Text → State → Orphan
  orphan_resource : Text → Text → State → Orphan

-- What the system answers: the bytes of a file, none where it cannot be read, and whether a path is
-- there; whether the ladder has a provider of a type, its schema, by which a state is read, and what
-- the provider says of a resource, none where it fails.
pub record System : Type 0 where
  pub read : Text → Option Text
  pub exists : Text → Bool
  pub find : Text → Bool
  pub schema : Text → Option (Fields → Fields)
  pub inspect : Text → Text → Fields → Option (Option Value)

-- `Change::instantiated`
pub record Instantiated : Type 0 where
  pub path : Text
  pub template : Text
  pub content : Option Text

abbrev instantiated_of : Text → Target → Option Instantiated
instantiated_of source (template path found content) =
    some (record { path = path; template = source; content = content })
instantiated_of source _ = none

unfoldable pub instantiated : Change → Option Instantiated
instantiated c = instantiated_of c.source c.target

-- `Change::applied`
pub record Applied : Type 0 where
  pub id : Text
  pub source : Text
  pub desired : Fields

abbrev applied_of : Text → Text → Target → Option Applied
applied_of id source (Target.resource desired current diff) =
    some (record { id = id; source = source; desired = desired })
applied_of id source _ = none

unfoldable pub applied : Change → Option Applied
applied c = applied_of c.id c.source c.target

abbrev pub is_some {ℓ} : {A : Type ℓ} → Option A → Bool
is_some none = false
is_some (some a) = true

abbrev pub listed : Text → List Text → Bool
listed t ts = any (text_eq t) ts

-- `Orphan::key`
unfoldable pub key : Orphan → Text
key (orphan_file path k source state) = k
key (orphan_resource k source state) = k

-- `Orphan::purgeable`
unfoldable pub purgeable : Orphan → Option Text
purgeable (orphan_file path k source as_written) = some path
purgeable _ = none

-- `Orphan::object`
unfoldable pub object_of : Orphan → Text
object_of (orphan_file path k source state) = path
object_of (orphan_resource k source state) = k

-- `Written::forget`
unfoldable pub forget : Text → Written → Written × Bool
unfolding find_in drop_in
forget k w = (
  record { files = drop_in k w.files; resources = drop_in k w.resources },
  is_some (find_in k w.files) || is_some (find_in k w.resources),
)

unfoldable pub holds_resource : Text → Written → Bool
unfolding find_in
holds_resource k w = is_some (find_in k w.resources)

unfoldable pub template_of : Text → Written → Option Text
unfolding find_in
template_of k w = elim (find_in k w.files) [ none ↦ none | some f ↦ some f.template ]

module _ (root : Text) (sha256 : Text → Text) where
  -- The match on the content of one template.
  unfoldable pub record_file : System → Instantiated → Option Text → Written → Written
  unfolding put_in drop_in files_key digest
  record_file sys i (some content) w = record w {
    files =
        put_in (files_key root i.path)
          (record { digest = digest sha256 content; template = files_key root i.template }) w.files;
  }
  record_file sys i none w =
      if sys.exists i.path then w else record w { files = drop_in (files_key root i.path) w.files }

  record_instantiated : System → Option Instantiated → Written → Written
  unfolding record_file
  record_instantiated sys none w = w
  record_instantiated sys (some i) w = record_file sys i i.content w

  record_applied : Option Applied → Written → Written
  unfolding put_in files_key
  record_applied none w = w
  record_applied (some a) w = record w {
    resources =
        put_in a.id (record { desired = a.desired; source = files_key root a.source }) w.resources;
  }

  -- One round of `Written::record`.
  unfoldable pub record_change : System → Change → Written → Written
  unfolding record_instantiated record_applied instantiated applied
  record_change sys c w =
      if is_some c.error || is_some c.skipped
      then w
      else record_applied (applied c) (record_instantiated sys (instantiated c) w)

  unfoldable pub record_plan : System → List Change → Written → Written
  unfolding record_change
  record_plan sys [] w = w
  record_plan sys (c ∷ cs) w = record_plan sys cs (record_change sys c w)

  -- `Written::wrote`
  unfoldable pub wrote : Text → Text → Written → Bool
  unfolding find_in digest
  wrote k content w = elim (find_in k w.files) [
    | none ↦ false
    | some f ↦ text_eq f.digest (digest sha256 content)
  ]

  -- The match on `fs::read` of `orphans`.
  unfoldable pub file_state : System → Text → File → State
  unfolding digest
  file_state sys path f = elim (sys.read path) [
    | some content ↦ if text_eq (digest sha256 content) f.digest then as_written else changed
    | none ↦ if sys.exists path then unknown else gone
  ]

-- `Path::join` of a key that is relative, onto a root that may end in a slash.
unfoldable pub join_path : Text → Text → Text
join_path [] k = k
join_path (c ∷ []) k = if c == b'/' then c ∷ k else c ∷ b'/' ∷ k
join_path (c ∷ d ∷ cs) k = c ∷ join_path (d ∷ cs) k

-- The schemas that were asked for, with the types that have none.
abbrev pub Schemas : Type 0
Schemas = Dict (Option (Fields → Fields))

-- `schemas.entry(kind).or_insert_with(...)`
unfoldable pub schema_of : System → Text → Schemas → Option (Fields → Fields) × Schemas
unfolding find_in put_in
schema_of sys kind schemas = elim (find_in kind schemas) [
  | some s ↦ (s, schemas)
  | none ↦ (sys.schema kind, put_in kind (sys.schema kind) schemas)
]

-- The match on what the provider says.
unfoldable pub inspected_state : System → (Fields → Fields) → Text → Text → Fields → State
unfolding difference
inspected_state sys read kind name desired = elim (sys.inspect kind name desired) [
  | none ↦ unknown
  | some none ↦ gone
  | some (some current) ↦
      if no_fields (difference read desired (some current)) then as_written else changed
]

abbrev read_state : System → Text → Text → Fields → Option (Fields → Fields) → State
unfolding inspected_state
read_state sys kind name desired none = unknown
read_state sys kind name desired (some read) = inspected_state sys read kind name desired

unfoldable pub state_of : System → Text → Resource → Schemas → State × Schemas
unfolding split_once schema_of read_state
state_of sys k r schemas = elim (split_once b'/' k) [
  | none ↦ (unknown, schemas)
  | some (kind, name) ↦
      if sys.find kind
      then (let (s, next) = schema_of sys kind schemas in
          (read_state sys kind name r.desired s, next))
      else (unknown, schemas)
]

-- The loop over the resources.
unfoldable pub orphan_resources : System → List Text → Schemas → Dict Resource → List Orphan
unfolding state_of
orphan_resources sys declared schemas [] = []
orphan_resources sys declared schemas ((k, r) ∷ rest) = elim (listed k declared) [
  | true ↦ orphan_resources sys declared schemas rest
  | false ↦
      let (state, next) = state_of sys k r schemas in
      orphan_resource k r.source state ∷ orphan_resources sys declared next rest
]

module _ (root : Text) (sha256 : Text → Text) where
  -- The loop over the files.
  unfoldable pub orphan_files : System → List Text → Dict File → List Orphan
  unfolding file_state join_path
  orphan_files sys declared [] = []
  orphan_files sys declared ((k, f) ∷ rest) =
      let later = orphan_files sys declared rest in
      let path = join_path root k in
      if listed k declared
      then later
      else orphan_file path k f.template (file_state root sha256 sys path f) ∷ later

  -- `Written::orphans`
  unfoldable pub orphans : System → Declared → Written → List Orphan
  unfolding orphan_files orphan_resources
  orphans sys declared w =
      orphan_files sys declared.files w.files
      ++ orphan_resources sys declared.resources [] w.resources
