-- ===== src/Ladder/Winner.antt =====
-- Which file of a ladder wins its key, in src/cfs.rs.
use detc.Base.{
  ◌≡◌, refl, ap, ◌∙◌, subst, Bool, Option, none, some, List, [], ◌∷◌, ◌++◌, codes, if◌then◌else◌,
  arith, Bool-cases, Option-cases, inl, inr,
}
use detc.Ladder.{
  FilePath, path_eq, with_added_extension, Found, Files, Cfs, Ladder, find_key, put, extend_ladder,
  collect, main_path, gather, kept_dropins, max_depth, same_flag, Walked, collect_from, found_in,
}
use detc.Ladder.Order.{path_eq_iff, find_key-put, find_key-Above, put-IsOrdered, IsOrdered, Above}

-- What was found last for a key, or what was there before.
abbrev pub or_before : Option Found → Option Found → Option Found
or_before none before = before
or_before (some f) before = some f

find_key-extend_ladder :
    (j : FilePath) (m new : Ladder)
    → IsOrdered new
    → find_key j (extend_ladder m new) ≡ or_before (find_key j new) (find_key j m)
unfolding extend_ladder find_key IsOrdered
find_key-extend_ladder j m [] o = refl
find_key-extend_ladder j m ((k, f) ∷ rest) o = elim (Bool-cases (path_eq k j)) [
  | inl e ↦
      let nothing : find_key j rest ≡ none =
        find_key-Above j rest (subst (λ t. Above t rest) ((path_eq_iff k j).0 e) o.0) in
      rw e (
        find_key-extend_ladder j (put k f m) rest o.1
        ∙ rw nothing (find_key-put k j f m ∙ rw e refl))
  | inr e ↦ rw e (
      find_key-extend_ladder j (put k f m) rest o.1
      ∙ ap (or_before (find_key j rest)) (find_key-put k j f m ∙ rw e refl))
]

collect_from-IsOrdered :
    (dir : FilePath) (ws : List Walked) (m : Ladder)
    → IsOrdered m
    → IsOrdered (collect_from dir ws m)
unfolding collect_from
collect_from-IsOrdered dir [] m o = o
collect_from-IsOrdered dir (w ∷ ws) m o = elim (Option-cases (found_in dir w)) [
  | inl e ↦ rw (e, collect_from) (collect_from-IsOrdered dir ws m o)
  | inr (f, e) ↦
      rw (e, collect_from)
        (collect_from-IsOrdered dir ws (put f.0 f.1 m) (put-IsOrdered f.0 f.1 m o))
]

extend_ladder-IsOrdered : (m new : Ladder) → IsOrdered m → IsOrdered (extend_ladder m new)
unfolding extend_ladder
extend_ladder-IsOrdered m [] o = o
extend_ladder-IsOrdered m ((k, f) ∷ rest) o =
    extend_ladder-IsOrdered (put k f m) rest (put-IsOrdered k f m o)

-- The path that a list of keys and paths has for a key.
unfoldable pub find_path : FilePath → List (FilePath × FilePath) → Option FilePath
find_path j [] = none
find_path j ((k, p) ∷ rest) = if path_eq k j then some p else find_path j rest

-- What is kept of what was found for a key.
abbrev pub kept_path : Bool → Option Found → Option FilePath
kept_path masked none = none
kept_path masked (some f) = if same_flag f.masked masked then some f.path else none

find_path-kept_dropins :
    (masked : Bool) (j : FilePath) (m : Ladder)
    → IsOrdered m
    → find_path j (kept_dropins masked m) ≡ kept_path masked (find_key j m)
unfolding find_path kept_dropins IsOrdered find_key
find_path-kept_dropins masked j [] o = refl
find_path-kept_dropins masked j ((k, f) ∷ m) o = elim (Bool-cases (path_eq k j)) [
  | inl e ↦
      let nothing : find_key j m ≡ none =
        find_key-Above j m (subst (λ t. Above t m) ((path_eq_iff k j).0 e) o.0) in
      let later : find_path j (kept_dropins masked m) ≡ none =
        find_path-kept_dropins masked j m o.1 ∙ ap (kept_path masked) nothing in
      ground (arith, later, e)
  | inr e ↦ ground (arith, find_path-kept_dropins masked j m o.1, e)
]

module _ (files : Files) where
  -- The directory of the drop-ins under one prefix.
  abbrev pub dropin_dir : Cfs → FilePath → FilePath
  dropin_dir cfs prefix = with_added_extension (codes "d") (main_path files cfs prefix)

  collect-IsOrdered : (cfs : Cfs) (dir : FilePath) → IsOrdered (collect files cfs dir)
  unfolding collect
  collect-IsOrdered cfs dir =
      collect_from-IsOrdered dir (files.walk dir (if cfs.recursive then max_depth else 1)) []
        (unfold IsOrdered in tt)

  -- With one more prefix above the others, a drop-in that it holds wins its key, and every other
  -- key keeps the file that won it below.
  pub gather_highest :
      (cfs : Cfs) (ps : List FilePath) (p j : FilePath) (main : Option Found) (m : Ladder)
      → find_key j (gather files cfs (ps ++ (p ∷ [])) main m).1
        ≡ or_before
            (find_key j (collect files cfs (dropin_dir cfs p)))
            (find_key j (gather files cfs ps main m).1)
  unfolding gather
  gather_highest cfs [] p j main m =
      find_key-extend_ladder j m _ (collect-IsOrdered cfs (dropin_dir cfs p))
  gather_highest cfs (q ∷ ps) p j main m = gather_highest cfs ps p j _ _

  gather-IsOrdered :
      (cfs : Cfs) (ps : List FilePath) (main : Option Found) (m : Ladder)
      → IsOrdered m
      → IsOrdered (gather files cfs ps main m).1
  unfolding gather
  gather-IsOrdered cfs [] main m o = o
  gather-IsOrdered cfs (p ∷ ps) main m o =
      gather-IsOrdered cfs ps _ _
        (extend_ladder-IsOrdered m (collect files cfs (dropin_dir cfs p)) o)

  -- The drop-in of a key that the last of the prefixes holds, or what was there before.
  unfoldable pub winner : Cfs → FilePath → List FilePath → Option Found → Option Found
  winner cfs j [] before = before
  winner cfs j (p ∷ ps) before =
      winner cfs j ps (or_before (find_key j (collect files cfs (dropin_dir cfs p))) before)

  find_key-gather :
      (cfs : Cfs) (ps : List FilePath) (j : FilePath) (main : Option Found) (m : Ladder)
      → find_key j (gather files cfs ps main m).1 ≡ winner cfs j ps (find_key j m)
  unfolding gather winner
  find_key-gather cfs [] j main m = refl
  find_key-gather cfs (p ∷ ps) j main m =
      find_key-gather cfs ps j _ _
      ∙ ap (winner cfs j ps)
          (find_key-extend_ladder j m _ (collect-IsOrdered cfs (dropin_dir cfs p)))

  -- Of the drop-ins of all prefixes, those that `resolve` keeps have for each key the path of the
  -- file that the last prefix with that key in its directory of drop-ins holds there, where that
  -- file is empty or not as asked for, and nothing for the other keys.
  pub find_path-gather :
      (cfs : Cfs) (masked : Bool) (j : FilePath)
      → find_path j (kept_dropins masked (gather files cfs cfs.prefixes none []).1)
        ≡ kept_path masked (winner cfs j cfs.prefixes none)
  unfolding find_key
  find_path-gather cfs masked j =
      find_path-kept_dropins masked j (gather files cfs cfs.prefixes none []).1
        (gather-IsOrdered cfs cfs.prefixes none [] (unfold IsOrdered in tt))
      ∙ ap (kept_path masked) (find_key-gather cfs cfs.prefixes j none [])
