-- ===== src/Resource/Listing/Found.antt =====
-- Which resources an id finds, in src/resource.rs.
use detc.Base.{
  ◌≡◌, ◌≢◌, sym, ap, ◌∙◌, subst, Bool, true, some, List, [], ◌∷◌, ok, Text, text_eq, text_eq_iff,
  find, arith, Bool-cases, Option-cases, inl, inr,
}
use detc.Resource.{Resource, resource_id}
use detc.Resource.Listing.{strip_extension, get_resource, find_resource}

find_meets : {A : Type 0} (p : A → Bool) (xs : List A) (x : A) → find p xs ≡ some x → p x ≡ true
find_meets p [] x h = absurd (ground (arith, h))
find_meets p (y ∷ ys) x h = elim (Bool-cases (p y)) [
  | inl e ↦ subst (λ z. p z ≡ true) {x = y} (ground (arith, rw e at h)) e
  | inr e ↦ find_meets p ys x (rw e at h)
]

e_get :
    (id : Text) (rs : List Resource) (s : Resource)
    → get_resource id rs ≡ some s
    → find (λ t. text_eq (resource_id t) (strip_extension id)) rs ≡ some s
unfolding get_resource
e_get id rs s e = e

find_resource_id :
    (id : Text) (rs : List Resource) (r : Resource)
    → find_resource id rs ≡ ok r
    → resource_id r ≡ strip_extension id
unfolding find_resource get_resource
find_resource_id id rs r h = elim (Option-cases (get_resource id rs)) [
  | inl e ↦ absurd (ground (arith, rw (e, find_resource) at h))
  | inr (s, e) ↦
      let same : s ≡ r = ground (arith, rw (e, find_resource) at h) in
      ap resource_id (sym same)
      ∙ (text_eq_iff (resource_id s) (strip_extension id)).0
          (find_meets (λ t. text_eq (resource_id t) (strip_extension id)) rs s (e_get id rs s e))
]

-- A resource whose id is not the same without the extension of a document is not what `find`
-- answers for its own id, whatever the resources are.
pub find_own_id :
    (r : Resource) (rs : List Resource)
    → strip_extension (resource_id r) ≢ resource_id r
    → find_resource (resource_id r) rs ≢ ok r
find_own_id r rs n h = n (sym (find_resource_id (resource_id r) rs r h))
