-- ===== src/Manager/Commands.antt =====
-- The subcommands of detc, `Commands`, `BundleCommands`, `Source` and `VarArgs` of src/detc.rs. A
-- path is its text.
use detc.Base.{
  Bool, true, false, not, ◌&&◌, ◌||◌, Option, none, some, List, [], ◌∷◌, Result, ok, err, Text,
  codes, is_empty, length, strip_prefix, text_eq, ◌==◌, if◌then◌else◌,
}
pub use detc.Report.{ObjectType}

pub record VarArgs : Type 0 where
  pub key : List Text
  pub value : List Text
  pub kv : List Text

pub data Source : Type 0 where
  path : Text → Source
  stdin : Source
  url : Text → Source
  bytes : Text → Source
  stored : Source

pub data BundleCommands : Type 0 where
  -- the directory, the output, and the key
  create : Option Text → Text → Option Text → BundleCommands
  verify : Source → BundleCommands
  -- persist, apply and allow_unsigned
  install : Source → Bool → Bool → Bool → BundleCommands
  restore : Bool → BundleCommands
  status : BundleCommands
  remove_bundle : List Text → Bool → BundleCommands

pub data Commands : Type 0 where
  apply : Option Text → Option ObjectType → VarArgs → Commands
  -- types and masked
  list : Bool → Bool → Option ObjectType → Commands
  doc : Text → Option ObjectType → Commands
  -- raw
  cat : Text → Option ObjectType → Bool → VarArgs → Commands
  -- mask and purge
  remove : List Text → Option ObjectType → Bool → Bool → Commands
  -- purge and forget
  orphans : Bool → List Text → Commands
  unmask : List Text → Option ObjectType → Commands
  check : Option Text → Option ObjectType → VarArgs → Commands
  schema : Text → Commands
  -- file, the variables, persist, unset, probes and probe
  var : Option Text → VarArgs → Bool → Bool → Bool → Option Text → Commands
  bundle : BundleCommands → Commands
  -- id, list, last and only_fails
  report : Option Text → Bool → Bool → Bool → Commands

pub data Fault : Type 0 where
  keys_and_values not_base64 both_carried create_is_local unreadable_source not_parameters : Fault
  kept_is_read_there empty_locator : Fault
  not_a_run unknown_method unknown_scheme not_local : Text → Fault

abbrev pub no_args : VarArgs
no_args = record { key = []; value = []; kv = [] }

abbrev is_given : {A : Type 0} → Option A → Bool
is_given none = false
is_given (some a) = true

-- `VarArgs::writes`
unfoldable pub writes : VarArgs → Option Text → Bool → Option Text → Bool
writes args file probes one =
    not probes
    && (not (is_given one)
        && (is_given file
            || (not (is_empty args.kv) || (not (is_empty args.key) && not (is_empty args.value)))))

-- `Iterator::zip`
abbrev pub zip : List Text → List Text → List (Text × Text)
zip [] vs = []
zip (k ∷ ks) [] = []
zip (k ∷ ks) (v ∷ vs) = (k, v) ∷ zip ks vs

-- `VarArgs::pairs`
unfoldable pub pairs : VarArgs → Result Fault (List (Text × Text))
pairs args =
    if length args.key == length args.value
    then ok (zip args.key args.value)
    else err keys_and_values

abbrev begins_with : Text → Text → Bool
begins_with p t = is_given (strip_prefix p t)

-- `str::contains` of a text
abbrev holds_text : Text → Text → Bool
holds_text p [] = is_empty p
holds_text p (c ∷ cs) = begins_with p (c ∷ cs) || holds_text p cs

-- `Source::from_str`; what `local` makes of a `file://` is an argument.
unfoldable pub source_from : (Text → Option Text) → Text → Result Fault Source
unfolding text_eq
source_from local locator =
    if is_empty locator
    then err empty_locator
    else if text_eq locator (codes "-")
    then ok stdin
    else if begins_with (codes "http://") locator || begins_with (codes "https://") locator
    then ok (url locator)
    else if begins_with (codes "file://") locator
    then elim (local locator) [ none ↦ err (not_local locator) | some p ↦ ok (path p) ]
    else if holds_text (codes "://") locator
    then err (unknown_scheme locator)
    else ok (path locator)

-- `Source::fmt`, which is the origin that is recorded.
unfoldable pub origin_of : Source → Text
origin_of (url u) = u
origin_of _ = codes "local"
