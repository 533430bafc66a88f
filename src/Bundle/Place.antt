-- ===== src/Bundle/Place.antt =====
-- Where a bundle may write, `place`, `refused`, `reachable`, `named_well` and `ours` of src/bundle.rs.
-- A path is the text of it, its components joined by slashes.
pub mod Safe
use detc.Base.{
  ℕ, Bool, true, false, not, ◌&&◌, ◌||◌, Option, none, some, List, [], ◌∷◌, ◌++◌, map, Result, ok,
  err, Text, codes, text_eq, strip_prefix, any, all, filter, is_empty, is_digit, leb, ◌==◌,
  if◌then◌else◌,
}
use detc.Archive.Format.{Error}

pub data Fault : Type 0 where
  archive : Error → Fault
  cannot_read cannot_list cannot_write cannot_remove : Text → Fault
  state_here administrators not_a_tree member_twice other_member named_badly : Text → Fault
  no_manifest no_payload not_utf8 not_yaml nameless no_yaml : Fault
  not_signed no_signature no_such_key not_valid no_signers no_listing : Fault
  no_key key_unreadable : ℕ → Text → Fault
  private_unreadable encrypted cannot_sign no_pem : Fault
  -- the bundle, the path, and the bundle that has it
  installed_wrote kept_writes other_wrote : Text → Text → Text → Fault

abbrev pub bundles : Text
bundles = codes "bundles.d"

abbrev pub data_mode : ℕ
data_mode = 420

abbrev pub exec_mode : ℕ
exec_mode = 493

abbrev pub data_prefix : Text
data_prefix = codes "run/detc/"

abbrev pub exec_prefix : Text
exec_prefix = codes "run/lib/detc/"

abbrev pub kept_prefix : Text
kept_prefix = codes "var/lib/detc/"

abbrev user_variables : Text
user_variables = codes "detc/variables/user"

abbrev variable_names : List Text
variable_names = codes "detc/variables/system" ∷ user_variables ∷ []

abbrev pub holds : {A : Type 0} → Option A → Bool
holds none = false
holds (some a) = true

-- `str::starts_with`
abbrev pub begins : Text → Text → Bool
begins p t = holds (strip_prefix p t)

abbrev stripped_or : Text → Option Text → Text
stripped_or name none = name
stripped_or name (some t) = t

unfoldable pub tree : Text → Text
tree name = stripped_or name (strip_prefix (codes "detc/") name)

abbrev data_tree : Text → Text × Bool
unfolding tree
data_tree name = (tree name, false)

unfoldable pub trees : List (Text × Bool)
unfolding tree text_eq
trees =
    map data_tree (
      filter (λ n. not (text_eq n user_variables)) variable_names
      ++ (codes "detc/templates" ∷ codes "detc/resources" ∷ []))
    ++ ((tree (codes "detc/probes"), true) ∷ (tree (codes "detc/providers"), true) ∷ [])

-- A name is the tree, or inside the directory of its drop-ins.
unfoldable pub in_tree : Text → Text → Bool
in_tree t name = text_eq name t || begins (t ++ codes ".d/") name

unfoldable pub data_path : Text → Text
data_path name = data_prefix ++ name

unfoldable pub exec_path : Text → Text
exec_path name = exec_prefix ++ name

unfoldable pub refused : Text → Option Fault
unfolding tree in_tree
refused name = if in_tree (tree user_variables) name then some (administrators name) else none

-- The loop over the trees.
unfoldable pub place_in : List (Text × Bool) → Text → Option (Text × ℕ)
unfolding in_tree data_path exec_path
place_in [] name = none
place_in ((t, code) ∷ rest) name =
    if in_tree t name
    then some (if code then (exec_path name, exec_mode) else (data_path name, data_mode))
    else place_in rest name

abbrev pub in_state : Text → Bool
in_state name = text_eq name bundles || begins (bundles ++ codes "/") name

unfoldable pub place : Text → Result Fault (Text × ℕ)
unfolding place_in refused trees
place name = if in_state name then err (state_here name) else elim (place_in trees name) [
  | some at ↦ ok at
  | none ↦ elim (refused name) [ some e ↦ err e | none ↦ err (not_a_tree name) ]
]

-- `reachable`: the trees, and the one that is refused by name.
unfoldable pub reachable : Text → Bool
unfolding trees tree
reachable dir =
    any (λ t. begins dir t || begins (t ++ codes ".") dir)
      (map (λ t. t.0) trees ++ (tree user_variables ∷ []))

abbrev pub is_alphanumeric : ℕ → Bool
is_alphanumeric c = is_digit c || (leb b'A' c && leb c b'Z') || (leb b'a' c && leb c b'z')

abbrev pub name_byte : ℕ → Bool
name_byte c = is_alphanumeric c || c == b'-' || c == b'_' || c == b'.'

unfoldable pub named_well : Text → Bool
named_well name = not (is_empty name) && not (begins (codes ".") name) && all name_byte name

-- `Path::starts_with` of the directory that is written with its slash.
abbrev pub inside : Text → Text → Bool
inside dir path = text_eq (path ++ codes "/") dir || begins dir path

unfoldable pub ours : Text → Bool
ours path = inside data_prefix path || inside exec_prefix path

unfoldable pub installed_path : Text → Text → Text
unfolding data_path
installed_path name suffix = data_path (bundles ++ (b'/' ∷ (name ++ suffix)))

unfoldable pub kept_path : Text → Text → Text
kept_path name suffix = kept_prefix ++ (bundles ++ (b'/' ∷ (name ++ suffix)))
