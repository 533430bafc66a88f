-- ===== src/Manager/Params.antt =====
-- The methods of the interface and the parameters they take, of src/manager.rs.
use detc.Base.{
  ◌≡◌, ℕ, Bool, true, false, Option, none, some, List, [], ◌∷◌, Result, ok, err, ◌>>=◌, Text, codes,
  text_eq, find, strip_prefix,
}
use detc.Manager.Commands.{ObjectType, VarArgs, Fault, not_parameters, pairs}

pub record Method : Type 0 where
  pub name : Text
  pub field : Text
  pub stream : Bool
  pub writes : Bool

abbrev method : Text → Text → Bool → Bool → Method
method name field stream writes = record {
  name = name;
  field = field;
  stream = stream;
  writes = writes;
}

abbrev pub methods : List Method
methods =
    method (codes "ListTypes") (codes "type") true false
    ∷ method (codes "List") (codes "object") true false
    ∷ method (codes "Cat") (codes "text") false false
    ∷ method (codes "Check") (codes "check") true false
    ∷ method (codes "Doc") (codes "text") false false
    ∷ method (codes "Schema") (codes "text") false false
    ∷ method (codes "GetVariables") (codes "text") false false
    ∷ method (codes "ListProbes") (codes "probe") true false
    ∷ method (codes "RunProbe") (codes "text") false false
    ∷ method (codes "ListRuns") (codes "run") true false
    ∷ method (codes "GetRun") (codes "detail") false false
    ∷ method (codes "GetFailures") (codes "line") true false
    ∷ method (codes "VerifyBundle") (codes "check") true false
    ∷ method (codes "GetBundle") (codes "bundle") true false
    ∷ method (codes "Apply") (codes "change") true true
    ∷ method (codes "Remove") (codes "change") true true
    ∷ method (codes "Orphans") (codes "change") true true
    ∷ method (codes "Unmask") (codes "change") true true
    ∷ method (codes "SetVariables") (codes "change") true true
    ∷ method (codes "UnsetVariables") (codes "change") true true
    ∷ method (codes "MergeDocument") (codes "change") true true
    ∷ method (codes "InstallBundle") (codes "change") true true
    ∷ method (codes "RemoveBundle") (codes "change") true true
    ∷ []

-- The search for a method by its name.
unfoldable pub method_named : Text → Option Method
unfolding text_eq
method_named name = find (λ m. text_eq m.name name) methods

-- `find`: the name behind the interface and a dot.
unfoldable pub find_method : Text → Option Method
unfolding method_named
find_method full = elim (strip_prefix (codes "org.detc.Manager.") full) [
  | none ↦ none
  | some name ↦ method_named name
]

pub record Assignment : Type 0 where
  pub key : Text
  pub value : Text

pub record Var : Type 0 where
  pub assignment : List Assignment
  pub kv : List Text

abbrev pub assignments : List (Text × Text) → List Assignment
assignments [] = []
assignments ((k, v) ∷ rest) = record { key = k; value = v } ∷ assignments rest

-- `Var::of`
unfoldable pub var_of : VarArgs → Result Fault Var
unfolding pairs
var_of args = pairs args >>= λ ps. ok (record { assignment = assignments ps; kv = args.kv })

abbrev pub keys_of : List Assignment → List Text
keys_of [] = []
keys_of (a ∷ rest) = a.key ∷ keys_of rest

abbrev pub values_of : List Assignment → List Text
values_of [] = []
values_of (a ∷ rest) = a.value ∷ values_of rest

-- `VarArgs::from`
unfoldable pub args_of : Var → VarArgs
args_of v = record { key = keys_of v.assignment; value = values_of v.assignment; kv = v.kv }

pub record ListParams : Type 0 where
  pub masked : Bool
  pub of_type : Option ObjectType

pub record DocParams : Type 0 where
  pub name : Text
  pub of_type : Option ObjectType

pub record CatParams : Type 0 where
  pub name : Text
  pub of_type : Option ObjectType
  pub raw : Bool
  pub var : Var

pub record OrphansParams : Type 0 where
  pub purge : Bool
  pub forget : List Text
  pub dry_run : Bool

pub record RemoveObjectParams : Type 0 where
  pub names : List Text
  pub of_type : Option ObjectType
  pub mask : Bool
  pub purge : Bool
  pub dry_run : Bool

pub record UnmaskParams : Type 0 where
  pub names : List Text
  pub of_type : Option ObjectType
  pub dry_run : Bool

pub record CheckParams : Type 0 where
  pub name : Option Text
  pub of_type : Option ObjectType
  pub var : Var

pub record ApplyParams : Type 0 where
  pub name : Option Text
  pub of_type : Option ObjectType
  pub dry_run : Bool
  pub var : Var

pub record SetParams : Type 0 where
  pub var : Var
  pub persist : Bool
  pub dry_run : Bool

pub record UnsetParams : Type 0 where
  pub key : List Text
  pub dry_run : Bool

pub record MergeParams : Type 0 where
  pub file : Text
  pub persist : Bool
  pub dry_run : Bool

pub record VerifyParams : Type 0 where
  pub bundle : Option Text
  pub url : Option Text

pub record InstallParams : Type 0 where
  pub bundle : Option Text
  pub url : Option Text
  pub persist : Bool
  pub apply : Bool
  pub allow_unsigned : Bool
  pub dry_run : Bool

pub record RemoveParams : Type 0 where
  pub names : List Text
  pub all : Bool
  pub dry_run : Bool

pub record KeyParams : Type 0 where
  pub key : List Text

pub record SchemaParams : Type 0 where
  pub name : Text

pub record ProbeParams : Type 0 where
  pub probe : Text

pub record RunsParams : Type 0 where
  pub only_fails : Bool

pub record RunParams : Type 0 where
  pub id : Option ℕ

-- Which structure a method takes.
pub data Shape : Type 0 where
  list_shape : Shape
  doc_shape : Shape
  cat_shape : Shape
  orphans_shape : Shape
  remove_object_shape : Shape
  unmask_shape : Shape
  check_shape : Shape
  apply_shape : Shape
  set_shape : Shape
  unset_shape : Shape
  merge_shape : Shape
  verify_shape : Shape
  install_shape : Shape
  remove_shape : Shape
  key_shape : Shape
  schema_shape : Shape
  probe_shape : Shape
  runs_shape : Shape
  run_shape : Shape

abbrev pub Params : Shape → Type 0
Params list_shape = ListParams
Params doc_shape = DocParams
Params cat_shape = CatParams
Params orphans_shape = OrphansParams
Params remove_object_shape = RemoveObjectParams
Params unmask_shape = UnmaskParams
Params check_shape = CheckParams
Params apply_shape = ApplyParams
Params set_shape = SetParams
Params unset_shape = UnsetParams
Params merge_shape = MergeParams
Params verify_shape = VerifyParams
Params install_shape = InstallParams
Params remove_shape = RemoveParams
Params key_shape = KeyParams
Params schema_shape = SchemaParams
Params probe_shape = ProbeParams
Params runs_shape = RunsParams
Params run_shape = RunParams

-- What serde_json makes of a structure of parameters, and reads back of what it made; `base64` of
-- the bytes of a bundle.
pub record Wire : Type 1 where
  pub Json : Type 0
  pub json : (s : Shape) → Params s → Json
  pub empty : Json
  pub from : (s : Shape) → Json → Option (Params s)
  pub encode : Text → Text
  pub decode : Text → Option Text

-- What the program relies on: what was written is read back as the structure it was written from.
pub record IsFaithful (wire : Wire) : Type 0 where
  pub from-json : (s : Shape) (p : Params s) → wire.from s (wire.json s p) ≡ some p
  pub decode-encode : (t : Text) → wire.decode (wire.encode t) ≡ some t

abbrev read_as : {P : Type 0} → Option P → Result Fault P
read_as none = err not_parameters
read_as (some p) = ok p

abbrev or_empty : {J : Type 0} → J → Option J → J
or_empty e none = e
or_empty e (some j) = j

-- `varlink::take`
unfoldable pub take : (wire : Wire) (s : Shape) → Option wire.Json → Result Fault (Params s)
take wire s parameters = read_as (wire.from s (or_empty wire.empty parameters))
