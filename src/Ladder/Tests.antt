-- ===== src/Ladder/Tests.antt =====
-- A ladder of two prefixes, and the theorems about src/cfs.rs at concrete inputs.
use detc.Base.{
  ◌≡◌, refl, ℕ, true, false, none, some, [], ◌∷◌, ◌++◌, codes, text_eq, text_lt, if◌then◌else◌,
}
use detc.Ladder.{
  FilePath, path_eq, Walked, Files, Cfs, find_key, gather, collect, resolve, rung, kept_dropins,
}
use detc.Ladder.Winner.{
  or_before, kept_path, find_path, dropin_dir, gather_highest, find_path-gather, winner,
}

abbrev usr_dir : FilePath
usr_dir = codes "r" ∷ codes "usr" ∷ codes "app.d" ∷ []

abbrev etc_dir : FilePath
etc_dir = codes "r" ∷ codes "etc" ∷ codes "app.d" ∷ []

abbrev walked : FilePath → ℕ → Walked
walked p n = record { path = p; is_file = true; size = some n }

-- `link` in `usr` is masked by an empty one in `etc`, and `first` is in `etc` only.
abbrev two_files : Files
two_files = record {
  size_of = λ p. none;
  walk = λ p depth.
      if path_eq p usr_dir
      then walked (usr_dir ++ (codes "link" ∷ [])) 6 ∷ []
      else if path_eq p etc_dir
      then walked (etc_dir ++ (codes "link" ∷ [])) 0
        ∷ walked (etc_dir ++ (codes "first" ∷ [])) 5
        ∷ []
      else [];
}

abbrev app : Cfs
app = record {
  name = codes "app" ∷ [];
  root = codes "r" ∷ [];
  prefixes = (codes "usr" ∷ []) ∷ (codes "etc" ∷ []) ∷ [];
  recursive = false;
}

resolve-app :
    resolve two_files app false ≡ (codes "first" ∷ [], etc_dir ++ (codes "first" ∷ [])) ∷ []
unfolding resolve path_eq text_eq text_lt
resolve-app = refl

resolve-app_masked :
    resolve two_files app true ≡ (codes "link" ∷ [], etc_dir ++ (codes "link" ∷ [])) ∷ []
unfolding resolve path_eq text_eq text_lt
resolve-app_masked = refl

rung-etc : rung (codes "r" ∷ []) etc_dir app.prefixes ≡ some (1, codes "app.d" ∷ [])
unfolding rung text_eq
rung-etc = refl

gather_highest_example :
    find_key
      (codes "link" ∷ [])
      (gather two_files app ((codes "usr" ∷ []) ∷ (codes "etc" ∷ []) ∷ []) none []).1
    ≡ or_before
        (find_key
          (codes "link" ∷ [])
          (collect two_files app (dropin_dir two_files app (codes "etc" ∷ []))))
        (find_key (codes "link" ∷ []) (gather two_files app ((codes "usr" ∷ []) ∷ []) none []).1)
gather_highest_example =
    gather_highest two_files app ((codes "usr" ∷ []) ∷ []) (codes "etc" ∷ []) (codes "link" ∷ [])
      none []

find_path-gather_example :
    find_path (codes "link" ∷ []) (kept_dropins true (gather two_files app app.prefixes none []).1)
    ≡ kept_path true (winner two_files app (codes "link" ∷ []) app.prefixes none)
find_path-gather_example = find_path-gather two_files app true (codes "link" ∷ [])
