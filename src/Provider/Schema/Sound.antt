-- ===== src/Provider/Schema/Sound.antt =====
-- The schemas that src/provider.rs parses.
use detc.Base.{
  ◌≡◌, refl, subst, ap, ◌∙◌, true, false, Option, none, some, [], ◌∷◌, Result, ok, Text, codes,
  text_eq, text_eq_iff, text_eq_refl, text_lt, text_lt_irrefl, arith, Result-cases, inl, inr, All,
}
use detc.Value.{Value, Fields, end, field, lookup, object}
use detc.Value.Order.{Above, IsSorted, IsSortedFields, lookup-IsSorted}
use detc.Provider.Number.{Numbers}
use detc.Provider.Kind.{Kind, coerce}
use detc.Provider.Kind.Coercion.{coerce_twice}
use detc.Provider.Schema.{
  Error, Property, Properties, Schema, find_property, property_of, properties_of, default_in,
  properties_in, schema_of,
}
use detc.Provider.Schema.Reading.{err_ne_ok, IsSound, DefaultIsRead}

lt_ne : (n t : Text) → text_lt n t ≡ true → text_eq n t ≡ false
lt_ne n t h = ground (arith, h, text_eq_iff n t, text_lt_irrefl n)

find_behind :
    (n t : Text) (p q : Property) (ps : Properties)
    → text_lt n t ≡ true
    → find_property t ps ≡ some q
    → find_property t ((n, p) ∷ ps) ≡ some q
unfolding find_property
find_behind n t p q ps l h = rw (lt_ne n t l) h

find_first : (n : Text) (p : Property) (ps : Properties) → find_property n ((n, p) ∷ ps) ≡ some p
unfolding find_property
find_first n p ps = rw (text_eq_refl n) refl

behind :
    (D : Property → Type 0) (n : Text) (p : Property) (ps qs : Properties)
    → All (λ t. text_lt n t.0 ≡ true) qs
    → All (λ t. (find_property t.0 ps ≡ some t.1) × D t.1) qs
    → All (λ t. (find_property t.0 ((n, p) ∷ ps) ≡ some t.1) × D t.1) qs
behind D n p ps [] l h = tt
behind D n p ps (t ∷ qs) l h =
    ((find_behind n t.0 p t.1 ps l.0 h.0.0, h.0.1), behind D n p ps qs l.1 h.1)

module _ (numbers : Numbers) where
  default_in-IsRead :
      (name : Text) (k : Kind) (o : Option Value) (d : Value)
      → default_in numbers name k o ≡ ok (some d)
      → coerce numbers k d ≡ ok d
  unfolding default_in
  default_in-IsRead name k none d h = absurd (none_ne_some h)
    where
      none_ne_some : ¬ (◌≡◌ {A = Result Error (Option Value)} (ok none) (ok (some d)))
      none_ne_some q = cc
  default_in-IsRead name k (some v) d h = elim (Result-cases (coerce numbers k v)) [
    | inl (w, e) ↦
        subst (λ t. coerce numbers k t ≡ ok t) (ground (arith, rw (e, default_in) at h))
          (coerce_twice numbers k v w e)
    | inr (x, e) ↦ absurd (err_ne_ok (rw (e, default_in) at h))
  ]

  property_of_default :
      (name : Text) (m : Fields) (p : Property)
      → property_of numbers name (object m) ≡ ok p
      → default_in numbers name p.kind (lookup (codes "default") m) ≡ ok p.default
  unfolding property_of
  property_of_default name m p h = ground (arith, h)

  property_of-DefaultIsRead :
      (name : Text) (v : Value) (p : Property)
      → property_of numbers name v ≡ ok p
      → DefaultIsRead numbers p
  unfolding DefaultIsRead property_of
  property_of-DefaultIsRead name (object m) p h d e =
      default_in-IsRead name p.kind (lookup (codes "default") m) d
        (property_of_default name m p h ∙ ap ok e)
  property_of-DefaultIsRead name _ p h d e = absurd (err_ne_ok h)

  properties_of_step :
      (name : Text) (v : Value) (m : Fields) (ps : Properties)
      → properties_of numbers (field name v m) ≡ ok ps
      → (p : Property) × (qs : Properties) × (property_of numbers name v ≡ ok p)
        × (properties_of numbers m ≡ ok qs)
        × ((name, p) ∷ qs ≡ ps)
  unfolding properties_of
  properties_of_step name v m ps h = elim (Result-cases (property_of numbers name v)) [
    | inr (x, e) ↦ absurd (err_ne_ok (rw e at h))
    | inl (p, e) ↦ elim (Result-cases (properties_of numbers m)) [
      | inr (x, f) ↦ absurd (err_ne_ok (rw (e, f) at h))
      | inl (qs, f) ↦ (p, qs, e, f, ground (arith, rw (e, f) at h))
    ]
  ]

  properties_of-Above :
      (k : Text) (m : Fields) (ps : Properties)
      → Above k m
      → properties_of numbers m ≡ ok ps
      → All (λ t. text_lt k t.0 ≡ true) ps
  unfolding properties_of
  properties_of-Above k end ps a h =
      subst (All (λ t. text_lt k t.0 ≡ true)) {x = []} (ground (arith, h)) tt
  properties_of-Above k (field name v m) ps a h =
      let (p, qs, e, f, same) = properties_of_step name v m ps h in
      subst (All (λ t. text_lt k t.0 ≡ true)) {x = (name, p) ∷ qs} same
        (a.0, properties_of-Above k m qs a.1 f)

  properties_of-IsSound :
      (m : Fields) (ps : Properties)
      → IsSortedFields m
      → properties_of numbers m ≡ ok ps
      → IsSound numbers ps
  unfolding properties_of IsSound
  properties_of-IsSound end ps s h = subst (IsSound numbers) {x = []} (ground (arith, h)) tt
  properties_of-IsSound (field name v m) ps s h =
      let (p, qs, e, f, same) = properties_of_step name v m ps h in
      subst (IsSound numbers) {x = (name, p) ∷ qs} same (
        (find_first name p qs, property_of-DefaultIsRead name v p e),
        behind (DefaultIsRead numbers) name p qs qs (properties_of-Above name m qs s.2 f)
            (properties_of-IsSound m qs s.1 f),
      )

  properties_in-IsSound :
      (o : Option Value) (ps : Properties)
      → ((v : Value) → o ≡ some v → IsSorted v)
      → properties_in numbers o ≡ ok ps
      → IsSound numbers ps
  unfolding properties_in
  properties_in-IsSound none ps s h =
      subst (IsSound numbers) {x = []} (ground (arith, h)) (unfold IsSound in tt)
  properties_in-IsSound (some (object m)) ps s h = properties_of-IsSound m ps (s (object m) refl) h
  properties_in-IsSound (some _) ps s h = absurd (err_ne_ok h)

  schema_properties :
      (m : Fields) (s : Schema)
      → schema_of numbers (object m) ≡ ok s
      → properties_in numbers (lookup (codes "properties") m) ≡ ok s.properties
  unfolding schema_of
  schema_properties m s h = ground (arith, h)

  -- A schema that is parsed out of a document with ordered keys has each property under one
  -- name, and every default is of the type of its property.
  pub schema_of-IsSound :
      (v : Value) (s : Schema)
      → IsSorted v
      → schema_of numbers v ≡ ok s
      → IsSound numbers s.properties
  unfolding schema_of
  schema_of-IsSound (object m) s o h =
      properties_in-IsSound (lookup (codes "properties") m) s.properties
        (λ v e. lookup-IsSorted (codes "properties") m o e) (schema_properties m s h)
  schema_of-IsSound _ s o h = absurd (err_ne_ok h)
