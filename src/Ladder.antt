-- ===== src/Ladder.antt =====
-- The files that a ladder of directories holds, src/cfs.rs. What the file system answers is an
-- argument.
pub mod Order
pub mod Winner
mod Tests
use detc.Base.{
  ℕ, suc, Bool, true, false, not, ◌&&◌, ◌||◌, Option, none, some, List, [], ◌∷◌, ◌++◌, map, Text,
  codes, text_eq, text_lt, ◌==◌, if◌then◌else◌,
}

-- A path is its components, which is how one path is compared with another.
abbrev pub FilePath : Type 0
FilePath = List Text

unfoldable pub path_eq : FilePath → FilePath → Bool
path_eq [] [] = true
path_eq (x ∷ xs) (y ∷ ys) = text_eq x y && path_eq xs ys
path_eq _ _ = false

unfoldable pub path_lt : FilePath → FilePath → Bool
path_lt [] [] = false
path_lt [] (y ∷ ys) = true
path_lt (x ∷ xs) [] = false
path_lt (x ∷ xs) (y ∷ ys) = text_lt x y || (text_eq x y && path_lt xs ys)

-- `Path::strip_prefix`
unfoldable pub strip_prefix : FilePath → FilePath → Option FilePath
strip_prefix [] path = some path
strip_prefix (x ∷ xs) [] = none
strip_prefix (x ∷ xs) (y ∷ ys) = let rest = strip_prefix xs ys in if text_eq x y then rest else none

-- `Path::with_added_extension`, of the last component
unfoldable pub with_added_extension : Text → FilePath → FilePath
with_added_extension e [] = []
with_added_extension e (x ∷ []) = (x ++ (b'.' ∷ e)) ∷ []
with_added_extension e (x ∷ y ∷ ys) = x ∷ with_added_extension e (y ∷ ys)

pub record Found : Type 0 where
  pub path : FilePath
  pub masked : Bool

-- One entry of a walk, without those that are an error.
pub record Walked : Type 0 where
  pub path : FilePath
  pub is_file : Bool
  -- none where the metadata cannot be read
  pub size : Option ℕ

pub record Files : Type 0 where
  -- `fs::metadata`: the size of a regular file, none for anything else
  pub size_of : FilePath → Option ℕ
  -- what `WalkDir` yields of a directory, to a depth, and following links
  pub walk : FilePath → ℕ → List Walked

pub record Cfs : Type 0 where
  pub name : FilePath
  pub root : FilePath
  pub prefixes : List FilePath
  pub recursive : Bool

abbrev pub max_depth : ℕ
max_depth = 64

-- A `BTreeMap` of what was found, by its key.
abbrev pub Ladder : Type 0
Ladder = List (FilePath × Found)

unfoldable pub find_key : FilePath → Ladder → Option Found
find_key k [] = none
find_key k ((j, f) ∷ m) = if path_eq j k then some f else find_key k m

-- `BTreeMap::insert`
unfoldable pub put : FilePath → Found → Ladder → Ladder
unfolding path_eq path_lt
put k f [] = (k, f) ∷ []
put k f ((j, g) ∷ m) =
    if path_eq j k
    then (k, f) ∷ m
    else if path_lt k j
    then (k, f) ∷ (j, g) ∷ m
    else (j, g) ∷ put k f m

-- `BTreeMap::extend`
unfoldable pub extend_ladder : Ladder → Ladder → Ladder
unfolding put
extend_ladder m [] = m
extend_ladder m ((k, f) ∷ rest) = extend_ladder (put k f m) rest

-- The two closures of `collect` on one entry.
found_in : FilePath → Walked → Option (FilePath × Found)
unfolding strip_prefix
found_in dir w =
    if w.is_file
    then elim (strip_prefix dir w.path) [
      | none ↦ none
      | some key ↦ elim w.size [
        | none ↦ none
        | some n ↦ some (key, record { path = w.path; masked = n == 0 })
      ]
    ]
    else none

collect_from : FilePath → List Walked → Ladder → Ladder
unfolding found_in put
collect_from dir [] m = m
collect_from dir (w ∷ ws) m = elim (found_in dir w) [
  | none ↦ collect_from dir ws m
  | some e ↦ collect_from dir ws (put e.0 e.1 m)
]

abbrev pub same_flag : Bool → Bool → Bool
same_flag true b = b
same_flag false b = not b

-- The filters at the end of `resolve`.
unfoldable pub kept_dropins : Bool → Ladder → List (FilePath × FilePath)
kept_dropins masked [] = []
kept_dropins masked ((key, found) ∷ rest) =
    let later = kept_dropins masked rest in
    if same_flag found.masked masked then (key, found.path) ∷ later else later

unfoldable pub kept_main : Bool → Option Found → List (FilePath × FilePath)
kept_main masked none = []
kept_main masked (some found) = if same_flag found.masked masked then ([], found.path) ∷ [] else []

module _ (files : Files) where
  unfoldable pub collect : Cfs → FilePath → Ladder
  unfolding collect_from
  collect cfs dir = collect_from dir (files.walk dir (if cfs.recursive then max_depth else 1)) []

  -- The path of the main file under one prefix.
  abbrev pub main_path : Cfs → FilePath → FilePath
  main_path cfs prefix = cfs.root ++ (prefix ++ cfs.name)

  -- The main file under one prefix, or the one before.
  abbrev main_or : Cfs → FilePath → Option Found → Option Found
  main_or cfs prefix before = elim (files.size_of (main_path cfs prefix)) [
    | none ↦ before
    | some n ↦ some (record { path = main_path cfs prefix; masked = n == 0 })
  ]

  -- The loop over the prefixes.
  unfoldable pub gather : Cfs → List FilePath → Option Found → Ladder → Option Found × Ladder
  unfolding extend_ladder collect with_added_extension
  gather cfs [] main dropins = (main, dropins)
  gather cfs (prefix ∷ rest) main dropins = gather cfs rest (main_or cfs prefix main) (
      extend_ladder dropins (collect cfs (with_added_extension (codes "d") (main_path cfs prefix))))

  unfoldable pub resolve : Cfs → Bool → List (FilePath × FilePath)
  unfolding gather kept_dropins kept_main
  resolve cfs masked =
      let (main, dropins) = gather cfs cfs.prefixes none [] in
      kept_main masked main ++ kept_dropins masked dropins

-- `rung`: from the highest prefix down.
rung_from : FilePath → ℕ → List FilePath → Option (ℕ × FilePath)
unfolding strip_prefix
rung_from relative i [] = none
rung_from relative i (prefix ∷ rest) = elim (rung_from relative (suc i) rest) [
  | some r ↦ some r
  | none ↦ elim (strip_prefix prefix relative) [ none ↦ none | some p ↦ some (i, p) ]
]

unfoldable pub rung : FilePath → FilePath → List FilePath → Option (ℕ × FilePath)
unfolding rung_from strip_prefix
rung root path prefixes = elim (strip_prefix root path) [
  | none ↦ none
  | some relative ↦ rung_from relative 0 prefixes
]
