-- ===== src/Bundle/Place/Safe.antt =====
-- What a bundle may write is in the two trees, and never the system's own records of the bundles.
use detc.Base.{
  ◌≡◌, ◌∙◌, refl, sym, ℕ, Bool, true, false, ◌||◌, ◌⊎◌, inl, inr, some, List, [], ◌∷◌, ◌++◌, ok,
  Text, codes, text_eq, text_eq_iff, All, Bool-cases, Option-cases, ap, subst, if◌then◌else◌, arith,
}
use detc.Bundle.Place.{
  trees, in_tree, place, place_in, refused, in_state, begins, data_mode, exec_mode, data_prefix,
  exec_prefix, data_path, exec_path, ours, tree, kept_prefix,
}

-- The system's records of the bundles.
abbrev pub in_records : Text → Bool
in_records path =
    begins (data_prefix ++ codes "bundles.d/") path
    || begins (kept_prefix ++ codes "bundles.d/") path

-- Two texts that the same text begins with: one begins with the other.
begins_both :
    (p q t : Text) → begins p t ≡ true → begins q t ≡ true → begins p q || begins q p ≡ true
begins_both [] q t h k = refl
begins_both (c ∷ p) [] t h k = refl
begins_both (c ∷ p) (d ∷ q) [] h k = absurd (ground (arith, h))
begins_both (c ∷ p) (d ∷ q) (x ∷ t) h k = ground (arith, begins_both p q t, h, k)

begins_self : (t : Text) → begins t t ≡ true
begins_self [] = refl
begins_self (c ∷ t) = ground (arith, begins_self t)

begins-append : (p q t : Text) → begins (p ++ q) t ≡ true → begins p t ≡ true
begins-append [] q t h = refl
begins-append (c ∷ p) q [] h = absurd (ground (arith, h))
begins-append (c ∷ p) q (x ∷ t) h = ground (arith, begins-append p q t, h)

-- A name in a tree begins with the tree.
in_tree-begins : (t name : Text) → in_tree t name ≡ true → begins t name ≡ true
unfolding in_tree
in_tree-begins t name h = elim (Bool-cases (text_eq name t)) [
  | inl e ↦ subst (λ n. begins t n ≡ true) (sym ((text_eq_iff name t).0 e)) (begins_self t)
  | inr e ↦ begins-append t (codes ".d/") name (rw e at h)
]

-- Trees of which neither begins with the other have no name in common.
in_tree_apart :
    (t u name : Text)
    → begins t u || begins u t ≡ false
    → in_tree t name ≡ true
    → in_tree u name ≡ false
in_tree_apart t u name apart h = elim (Bool-cases (in_tree u name)) [
  | inl k ↦ absurd (
      ground
        (arith, apart, begins_both t u name (in_tree-begins t name h) (in_tree-begins u name k)))
  | inr k ↦ k
]

abbrev pub administrators_tree : Text
administrators_tree = codes "variables/user"

-- What a path and its mode are.
pub record IsPlace (name path : Text) (mode : ℕ) : Type 0 where
  pub is_ours : ours path ≡ true
  pub not_records : in_records path ≡ false
  pub not_administrators : in_tree administrators_tree name ≡ false
  pub kind :
      ((path ≡ data_prefix ++ name) × (mode ≡ data_mode))
      ⊎ ((path ≡ exec_prefix ++ name) × (mode ≡ exec_mode))

data-IsPlace :
    (t name : Text)
    → in_state name ≡ false
    → begins t administrators_tree || begins administrators_tree t ≡ false
    → in_tree t name ≡ true
    → IsPlace name (data_path name) data_mode
unfolding data_path ours
data-IsPlace t name s apart h = record {
  is_ours = ground arith;
  not_records = ground (arith, s);
  not_administrators = in_tree_apart t administrators_tree name apart h;
  kind = inl (refl, refl);
}

exec-IsPlace :
    (t name : Text)
    → begins t administrators_tree || begins administrators_tree t ≡ false
    → in_tree t name ≡ true
    → IsPlace name (exec_path name) exec_mode
unfolding exec_path ours
exec-IsPlace t name apart h = record {
  is_ours = ground arith;
  not_records = refl;
  not_administrators = in_tree_apart t administrators_tree name apart h;
  kind = inr (refl, refl);
}

abbrev Apart : Text × Bool → Type 0
Apart e = begins e.0 administrators_tree || begins administrators_tree e.0 ≡ false

tree-IsPlace :
    (t name : Text) (code : Bool)
    → in_state name ≡ false
    → Apart (t, code)
    → in_tree t name ≡ true
    → let at : Text × ℕ =
        if code then (exec_path name, exec_mode) else (data_path name, data_mode) in
      IsPlace name at.0 at.1
tree-IsPlace t name true s apart h = exec-IsPlace t name apart h
tree-IsPlace t name false s apart h = data-IsPlace t name s apart h

place_in-IsPlace :
    (ts : List (Text × Bool)) (name path : Text) (mode : ℕ)
    → All Apart ts
    → in_state name ≡ false
    → place_in ts name ≡ some (path, mode)
    → IsPlace name path mode
unfolding place_in
place_in-IsPlace [] name path mode apart s h = absurd (ground (arith, h))
place_in-IsPlace ((t, code) ∷ ts) name path mode apart s h = elim (Bool-cases (in_tree t name)) [
  | inl e ↦
      subst (λ (at : Text × ℕ). IsPlace name at.0 at.1) (ground (arith, rw e at h))
        (tree-IsPlace t name code s apart.0 e)
  | inr e ↦ place_in-IsPlace ts name path mode apart.1 s (rw e at h)
]

trees-Apart : All Apart trees
unfolding trees tree text_eq
trees-Apart = (refl, (refl, (refl, (refl, (refl, tt)))))

-- Where a member of a bundle is written is in one of the two trees, and with the mode of the tree;
-- it is not one of the system's records of the bundles, and its name is not in the variables of the
-- administrator.
pub place-IsPlace :
    (name path : Text) (mode : ℕ) → place name ≡ ok (path, mode) → IsPlace name path mode
unfolding place
place-IsPlace name path mode h = elim (Bool-cases (in_state name)) [
  | inl e ↦ absurd (ground (arith, rw e at h))
  | inr s ↦ elim (Option-cases (place_in trees name)) [
    | inl e ↦ elim (Option-cases (refused name)) [
      | inl r ↦ absurd (ground (arith, rw (s, e, r) at h))
      | inr (f, r) ↦ absurd (ground (arith, rw (s, e, r) at h))
    ]
    | inr (at, e) ↦
        place_in-IsPlace trees name path mode trees-Apart s
          (e ∙ ap some (ground (arith, rw (s, e) at h)))
  ]
]
