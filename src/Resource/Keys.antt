-- ===== src/Resource/Keys.antt =====
-- What a declaration is, taken apart, in src/resource.rs.
use detc.Base.{
  ◌≡◌, ap, ◌∙◌, subst, Bool, false, none, List, [], ◌∷◌, ok, Text, text_eq, is_empty, arith, All,
  Bool-cases, Result-cases, inl, inr, if◌then◌else◌,
}
use detc.Base.Trim.{trim}
use detc.Value.{Items, Fields, string, nil, cons, lookup, remove}
use detc.Value.Laws.{lookup-remove}
use detc.Provider.Number.{Numbers}
use detc.Resource.{
  Declaration, order_key, requires_key, required_id, required_ids, requires_in, taken_apart,
}

required_ids-filled :
    (id : Text) (vs : Items) (ts : List Text)
    → required_ids id vs ≡ ok ts
    → All (λ t. is_empty t ≡ false) ts
unfolding required_ids required_id
required_ids-filled id nil ts h =
    subst (All (λ t. is_empty t ≡ false)) {x = []} (ground (arith, h)) tt
required_ids-filled id (cons (string t) vs) ts h = elim (Bool-cases (is_empty (trim t))) [
  | inl e ↦ absurd (ground (arith, rw e at h))
  | inr e ↦ elim (Result-cases (required_ids id vs)) [
    | inr (x, q) ↦ absurd (ground (arith, rw (e, q) at h))
    | inl (us, q) ↦
        subst (All (λ t. is_empty t ≡ false)) {x = trim t ∷ us} (ground (arith, rw (e, q) at h))
          (e, required_ids-filled id vs us q)
  ]
]
required_ids-filled id (cons _ vs) ts h = absurd (ground (arith, h))

module _ (numbers : Numbers) where
  taken_apart_parts :
      (id : Text) (empty : Bool) (m : Fields) (d : Declaration)
      → taken_apart numbers id empty m ≡ ok d
      → (d.state ≡ remove requires_key (remove order_key m))
        × (requires_in id (lookup requires_key (remove order_key m)) ≡ ok d.requires)
  unfolding taken_apart
  taken_apart_parts id empty m d h = (ground (arith, h), ground (arith, h))

  -- Where a declaration is accepted, its state has under each key what the document has, and
  -- nothing under the keys of the order and of the requirements.
  pub lookup-taken_apart :
      (id : Text) (empty : Bool) (m : Fields) (d : Declaration) (k : Text)
      → taken_apart numbers id empty m ≡ ok d
      → lookup k d.state ≡ (
          if text_eq requires_key k then none else if text_eq order_key k then none else lookup k m)
  lookup-taken_apart id empty m d k h =
      ap (lookup k) (taken_apart_parts id empty m d h).0
      ∙ ground
          (arith, lookup-remove requires_key k (remove order_key m), lookup-remove order_key k m)
