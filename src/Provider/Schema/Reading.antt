-- ===== src/Provider/Schema/Reading.antt =====
-- What `validate` and `read` of src/provider.rs make of a state.
use detc.Base.{
  ◌≡◌, refl, subst, some, [], ◌∷◌, Result, ok, err, Text, text_eq, text_lt, arith, Option-cases,
  Result-cases, inl, inr, Bool-cases, All,
}
use detc.Value.{Value, Fields, end, field, lookup, insert}
use detc.Provider.Number.{Numbers}
use detc.Provider.Kind.{coerce}
use detc.Provider.Kind.Coercion.{coerce_twice}
use detc.Provider.Schema.{
  Error, Property, Properties, Schema, find_property, coerced, declared, filled, with_defaults,
  validate, read_value, read_fields, read,
}

pub err_ne_ok : {A : Type 0} {x : Error} {a : A} → ¬ (◌≡◌ {A = Result Error A} (err x) (ok a))
err_ne_ok q = cc

module _ (numbers : Numbers) where
  -- A default that its own property reads as itself.
  unfoldable pub DefaultIsRead : Property → Type 0
  DefaultIsRead p = (d : Value) → p.default ≡ some d → coerce numbers p.kind d ≡ ok d

  -- Every property stands under one name, and its default is of its type.
  unfoldable pub IsSound : Properties → Type 0
  IsSound ps = All (λ t. (find_property t.0 ps ≡ some t.1) × DefaultIsRead t.1) ps

  -- Every member is of a property that reads it as it is.
  pub IsRead : Properties → Fields → Type 0
  IsRead ps end = Unit {0}
  IsRead ps (field name v m) =
      ((p : Property) × (find_property name ps ≡ some p) × (coerce numbers p.kind v ≡ ok v))
      × IsRead ps m

  insert-IsRead :
      (ps : Properties) (name : Text) (v : Value) (p : Property) (m : Fields)
      → find_property name ps ≡ some p
      → coerce numbers p.kind v ≡ ok v
      → IsRead ps m
      → IsRead ps (insert name v m)
  unfolding insert IsRead
  insert-IsRead ps name v p end f c h = ((p, f, c), tt)
  insert-IsRead ps name v p (field j w m) f c h = elim (Bool-cases (text_eq j name)) [
    | inl e ↦ rw e ((p, f, c), h.1)
    | inr e ↦ elim (Bool-cases (text_lt name j)) [
      | inl l ↦ rw (e, l) ((p, f, c), h)
      | inr l ↦ rw (e, l) (h.0, insert-IsRead ps name v p m f c h.1)
    ]
  ]

  coerced-IsRead :
      (ps : Properties) (name : Text) (v w : Value)
      → coerced numbers ps name v ≡ ok w
      → (p : Property) × (find_property name ps ≡ some p) × (coerce numbers p.kind w ≡ ok w)
  unfolding coerced
  coerced-IsRead ps name v w h = elim (Option-cases (find_property name ps)) [
    | inl e ↦ absurd (err_ne_ok (rw (e, coerced) at h))
    | inr (p, e) ↦ elim (Result-cases (coerce numbers p.kind v)) [
      | inl (u, c) ↦ (
        p,
        e,
        subst (λ t. coerce numbers p.kind t ≡ ok t) (ground (arith, rw (e, c, coerced) at h))
            (coerce_twice numbers p.kind v u c),
      )
      | inr (x, c) ↦ absurd (err_ne_ok (rw (e, c, coerced) at h))
    ]
  ]

  declared-IsRead :
      (ps : Properties) (state done out : Fields)
      → IsRead ps done
      → declared numbers ps state done ≡ ok out
      → IsRead ps out
  unfolding declared
  declared-IsRead ps end done out h d = subst (IsRead ps) (ground (arith, d)) h
  declared-IsRead ps (field name v rest) done out h d =
      elim (Result-cases (coerced numbers ps name v)) [
        | inl (w, e) ↦
            let (p, f, c) = coerced-IsRead ps name v w e in
            declared-IsRead ps rest (insert name w done) out (insert-IsRead ps name w p done f c h)
              (rw e at d)
        | inr (x, e) ↦ absurd (err_ne_ok (rw e at d))
      ]

  filled-IsRead :
      (all : Properties) (name : Text) (p : Property) (done out : Fields)
      → find_property name all ≡ some p
      → DefaultIsRead p
      → IsRead all done
      → filled numbers name p done ≡ ok out
      → IsRead all out
  unfolding filled DefaultIsRead
  filled-IsRead all name p done out f d h e = elim (Option-cases (lookup name done)) [
    | inr (v, l) ↦ subst (IsRead all) (ground (arith, rw (l, filled) at e)) h
    | inl l ↦ elim (Option-cases p.default) [
      | inr (v, q) ↦
          subst (IsRead all) (ground (arith, rw (l, q, filled) at e))
            (insert-IsRead all name v p done f (d v q) h)
      | inl q ↦ subst (IsRead all) (ground (arith, rw (l, q, filled) at e)) h
    ]
  ]

  with_defaults-IsRead :
      (all ps : Properties) (done out : Fields)
      → All (λ t. (find_property t.0 all ≡ some t.1) × DefaultIsRead t.1) ps
      → IsRead all done
      → with_defaults numbers ps done ≡ ok out
      → IsRead all out
  unfolding with_defaults
  with_defaults-IsRead all [] done out s h w = subst (IsRead all) (ground (arith, w)) h
  with_defaults-IsRead all ((name, p) ∷ ps) done out s h w =
      elim (Result-cases (filled numbers name p done)) [
        | inl (next, e) ↦
            with_defaults-IsRead all ps next out s.1
              (filled-IsRead all name p done next s.0.0 s.0.1 h e) (rw e at w)
        | inr (x, e) ↦ absurd (err_ne_ok (rw e at w))
      ]

  read_value-coerced :
      (p : Property) (v : Value)
      → coerce numbers p.kind v ≡ ok v
      → read_value numbers (some p) v ≡ v
  unfolding read_value
  read_value-coerced p v c = ground (arith, c)

  read-IsRead : (ps : Properties) (m : Fields) → IsRead ps m → read_fields numbers ps m ≡ m
  unfolding read_fields IsRead
  read-IsRead ps end h = refl
  read-IsRead ps (field name v m) h =
      let (p, f, c) = h.0 in rw (f, read_value-coerced p v c, read-IsRead ps m h.1) refl

  -- A state that `validate` returned is what `read` makes of it, for a schema whose properties
  -- stand under one name each and whose defaults are of their own types.
  pub read-validate :
      (s : Schema) (state out : Fields)
      → IsSound s.properties
      → validate numbers s state ≡ ok out
      → read numbers s out ≡ out
  unfolding validate IsSound read
  read-validate s state out sound h =
      elim (Result-cases (declared numbers s.properties state end)) [
        | inl (done, e) ↦ read-IsRead s.properties out (
            with_defaults-IsRead s.properties s.properties done out sound
              (declared-IsRead s.properties state end done (unfold IsRead in tt) e) (rw e at h))
        | inr (x, e) ↦ absurd (err_ne_ok (rw e at h))
      ]
