-- ===== src/Base/Dict.antt =====
-- A `BTreeMap` from texts: its entries, in the order of their keys.
use mathlib.Core.List.{List, [], ◌∷◌}
use mathlib.Core.Option.{Option, none, some}
use mathlib.Core.Logic.{inl, inr}
use mathlib.Core.Path.{◌≡◌, refl}
use native.Mathlib.Omega.{arith}
use detc.Base.Tests.{if◌then◌else◌, Bool-cases}
use detc.Base.Lists.{Has}
use detc.Base.Str.{Text, text_eq, text_lt, text_eq_iff}

abbrev pub Dict : Type 0 → Type 0
Dict V = List (Text × V)

module _ {V : Type 0} where
  -- `BTreeMap::get`
  unfoldable pub find_in : Text → Dict V → Option V
  find_in k [] = none
  find_in k ((j, v) ∷ m) = if text_eq j k then some v else find_in k m

  -- `BTreeMap::insert`
  unfoldable pub put_in : Text → V → Dict V → Dict V
  put_in k v [] = (k, v) ∷ []
  put_in k v ((j, w) ∷ m) =
      if text_eq j k
      then (k, v) ∷ m
      else if text_lt k j
      then (k, v) ∷ (j, w) ∷ m
      else (j, w) ∷ put_in k v m

  -- `BTreeMap::remove`
  unfoldable pub drop_in : Text → Dict V → Dict V
  drop_in k [] = []
  drop_in k ((j, v) ∷ m) = let rest = drop_in k m in if text_eq j k then rest else (j, v) ∷ rest

  pub find_in-put_in :
      (k j : Text) (v : V) (m : Dict V)
      → find_in j (put_in k v m) ≡ (if text_eq k j then some v else find_in j m)
  unfolding find_in put_in
  find_in-put_in k j v [] = refl
  find_in-put_in k j v ((i, w) ∷ m) =
      ground (arith, text_eq_iff i k, text_eq_iff i j, text_eq_iff k j, find_in-put_in k j v m)

  pub find_in-drop_in :
      (k j : Text) (m : Dict V)
      → find_in j (drop_in k m) ≡ (if text_eq k j then none else find_in j m)
  unfolding find_in drop_in
  find_in-drop_in k j [] = ground arith
  find_in-drop_in k j ((i, w) ∷ m) =
      ground (arith, text_eq_iff i k, text_eq_iff i j, text_eq_iff k j, find_in-drop_in k j m)

  -- What is found is an entry.
  pub find_in-Has : (k : Text) (v : V) (m : Dict V) → find_in k m ≡ some v → Has (k, v) m
  unfolding find_in
  find_in-Has k v [] h = absurd (ground (arith, h))
  find_in-Has k v ((j, w) ∷ m) h = elim (Bool-cases (text_eq j k)) [
    | inl e ↦ inl (ground (arith, (text_eq_iff j k).0 e, rw e at h))
    | inr e ↦ inr (find_in-Has k v m (rw e at h))
  ]
