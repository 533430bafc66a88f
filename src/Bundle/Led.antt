-- ===== src/Bundle/Led.antt =====
-- Where a path with components `..` leads, on a disk of files by their paths: what the file system does
-- with a path that `unlink` of src/bundle.rs is handed.
use detc.Base.{
  Bool, true, false, Option, none, some, List, [], ◌∷◌, ◌++◌, Text, codes, text_eq, strip_prefix,
  split, join, any, if◌then◌else◌,
}
use detc.Base.Dict.{Dict}

abbrev pub up : Text
up = codes ".."

abbrev all_but_last : List Text → List Text
all_but_last [] = []
all_but_last (c ∷ []) = []
all_but_last (c ∷ d ∷ cs) = c ∷ all_but_last (d ∷ cs)

-- Whether a path stands under a directory that is written with its slash.
abbrev pub stands_under : Text → Text → Bool
stands_under dir path = elim (strip_prefix dir path) [ none ↦ false | some rest ↦ true ]

-- A directory is there where a file is under it; the root is.
unfoldable pub is_dir : {V : Type 0} → Dict V → List Text → Bool
unfolding join
is_dir d [] = true
is_dir d (c ∷ cs) = any (λ f. stands_under (join b'/' (c ∷ cs) ++ (b'/' ∷ [])) f.0) d

-- One component of a path, from a directory: `..` leads to the one above a directory that is there.
unfoldable pub entered : {V : Type 0} → Dict V → Text → Option (List Text) → Option (List Text)
unfolding is_dir text_eq
entered d c none = none
entered d c (some here) =
    if text_eq c up
    then if is_dir d here then some (all_but_last here) else none
    else some (here ++ (c ∷ []))

unfoldable pub led_from :
    {V : Type 0} → Dict V → Option (List Text) → List Text → Option (List Text)
unfolding entered
led_from d at [] = at
led_from d at (c ∷ cs) = led_from d (entered d c at) cs

-- What the system finds under a path, from the root, with its `..` followed.
unfoldable pub led_to : {V : Type 0} → Dict V → Text → Option Text
unfolding led_from split join
led_to d path = elim (led_from d (some []) (split b'/' path)) [
  | none ↦ none
  | some at ↦ some (join b'/' at)
]
