-- ===== src/Apply/Naming.antt =====
-- How a configuration file is named and fingerprinted, `files_key`, `template_id` and `digest` of
-- src/apply.rs. The hash itself is that of the crate sha2, an argument.
use detc.Base.{
  ◌≡◌, refl, Bool, true, false, ◌||◌, ◌&&◌, Option, none, some, List, [], ◌∷◌, ◌++◌, Text, codes,
  text_eq, split, join, is_empty, ◌==◌, if◌then◌else◌,
}
use detc.Ladder.{FilePath}

-- The components that are names.
plain : List Text → FilePath
plain [] = []
plain (c ∷ cs) =
    let rest = plain cs in if is_empty c || text_eq c (codes ".") then rest else c ∷ rest

-- `Path::components` of a path without a dot at its start: the root is a component of its own.
unfoldable pub components : Text → FilePath
unfolding plain split
components [] = []
components (c ∷ cs) =
    if c == b'/' then codes "/" ∷ plain (split b'/' cs) else plain (split b'/' (c ∷ cs))

-- A piece between slashes that is no component.
abbrev no_component : Text → Bool
no_component c = is_empty c || text_eq c (codes ".")

-- The pieces of a text behind the components of a prefix.
unfoldable pub rest_of : FilePath → List Text → Option (List Text)
unfolding text_eq
rest_of [] ps = some ps
rest_of (c ∷ cs) [] = none
rest_of (c ∷ cs) (p ∷ ps) = elim (no_component p) [
  | true ↦ rest_of (c ∷ cs) ps
  | false ↦ elim (text_eq c p) [ true ↦ rest_of cs ps | false ↦ none ]
]

-- The pieces behind the components of the root, of which there is one at least.
abbrev after_root : FilePath → Text → Option (List Text)
after_root [] path = none
after_root (c ∷ cs) [] = none
after_root (c ∷ cs) (b ∷ bs) =
    if b == b'/'
    then if text_eq c (codes "/") then rest_of cs (split b'/' bs) else none
    else rest_of (c ∷ cs) (split b'/' (b ∷ bs))

leading_dropped : List Text → List Text
leading_dropped [] = []
leading_dropped (p ∷ ps) = if no_component p then leading_dropped ps else p ∷ ps

trailing_dropped : List Text → List Text
trailing_dropped [] = []
trailing_dropped (p ∷ ps) =
    let rest = trailing_dropped ps in if is_empty rest && no_component p then [] else p ∷ rest

-- What is left of the path, as it is written: only what is no component at its ends is left out.
unfoldable pub files_key : Text → Text → Text
unfolding components rest_of leading_dropped trailing_dropped join
files_key root path = elim (after_root (components root) path) [
  | none ↦ path
  | some rest ↦ join b'/' (leading_dropped (trailing_dropped rest))
]

unfoldable pub template_id : Text → Text → Text
unfolding files_key
template_id root path = codes "template/" ++ files_key root path

-- `sha256` is the digest of the crate, in hexadecimal.
unfoldable pub digest : (Text → Text) → Text → Text
digest sha256 content = codes "sha256:" ++ sha256 content

key-motd : files_key (codes "/") (codes "/etc/motd") ≡ codes "etc/motd"
unfolding files_key text_eq
key-motd = refl

key-doubled : files_key (codes "/srv/") (codes "/srv//etc//motd/") ≡ codes "etc//motd"
unfolding files_key text_eq
key-doubled = refl

key-outside : files_key (codes "/srv") (codes "/etc/motd") ≡ codes "/etc/motd"
unfolding files_key text_eq
key-outside = refl
