-- ===== src/Provider/Schema/Required.antt =====
-- What a state has that `validate` of src/provider.rs accepts, and the schemas that it is read by.
use detc.Base.{
  ◌≡◌, sym, subst, ap, Bool, true, false, some, [], ◌∷◌, ok, Text, text_eq, arith, Option-cases,
  Result-cases, inl, inr, Bool-cases, Has,
}
use detc.Value.{Value, Fields, end, lookup, insert}
use detc.Value.Laws.{lookup-insert}
use detc.Provider.Number.{Numbers}
use detc.Provider.Schema.{
  Property, Properties, Schema, is_required, declared, filled, with_defaults, validate,
}
use detc.Provider.Schema.Reading.{err_ne_ok}

-- Keys, once there, stay.
Keeps : Fields → Fields → Type 0
Keeps m n =
    (name : Text) (v : Value) → lookup name m ≡ some v → (w : Value) × (lookup name n ≡ some w)

Keeps-refl : (m : Fields) → Keeps m m
unfolding Keeps
Keeps-refl m j w h = (w, h)

false_ne_true : ¬ (◌≡◌ {A = Bool} false true)
false_ne_true q = cc

Keeps-trans : (m n o : Fields) → Keeps m n → Keeps n o → Keeps m o
unfolding Keeps
Keeps-trans m n o f g j v h = let (u, k) = f j v h in g j u k

kept :
    (m n : Fields)
    → Keeps m n
    → (name : Text) (v : Value) → lookup name m ≡ some v
    → (w : Value) × (lookup name n ≡ some w)
unfolding Keeps
kept m n f = f

insert-Keeps : (name : Text) (v : Value) (m : Fields) → Keeps m (insert name v m)
unfolding Keeps
insert-Keeps name v m j w h = elim (Bool-cases (text_eq name j)) [
  | inl e ↦ (v, ground (arith, lookup-insert name j v m, e))
  | inr e ↦ (w, ground (arith, lookup-insert name j v m, e, h))
]

module _ (numbers : Numbers) where
  filled-Keeps :
      (name : Text) (p : Property) (done out : Fields)
      → filled numbers name p done ≡ ok out
      → Keeps done out
  unfolding filled
  filled-Keeps name p done out e = elim (Option-cases (lookup name done)) [
    | inr (v, l) ↦ subst (Keeps done) (ground (arith, rw (l, filled) at e)) (Keeps-refl done)
    | inl l ↦ elim (Option-cases p.default) [
      | inr (v, q) ↦
          subst (Keeps done) (ground (arith, rw (l, q, filled) at e)) (insert-Keeps name v done)
      | inl q ↦ subst (Keeps done) (ground (arith, rw (l, q, filled) at e)) (Keeps-refl done)
    ]
  ]

  filled_required :
      (name : Text) (p : Property) (done out : Fields)
      → is_required p ≡ true
      → filled numbers name p done ≡ ok out
      → (v : Value) × (lookup name out ≡ some v)
  unfolding filled
  filled_required name p done out r e = elim (Option-cases (lookup name done)) [
    | inr (v, l) ↦ (v, subst (λ t. lookup name t ≡ some v) (ground (arith, rw (l, filled) at e)) l)
    | inl l ↦ elim (Option-cases p.default) [
      | inr (v, q) ↦ absurd (false_ne_true (rw q at r))
      | inl q ↦ absurd (err_ne_ok (rw (rw q at r) at (rw (l, q, filled) at e)))
    ]
  ]

  with_defaults-Keeps :
      (ps : Properties) (done out : Fields)
      → with_defaults numbers ps done ≡ ok out
      → Keeps done out
  unfolding with_defaults
  with_defaults-Keeps [] done out w = subst (Keeps done) (ground (arith, w)) (Keeps-refl done)
  with_defaults-Keeps ((name, p) ∷ ps) done out w =
      elim (Result-cases (filled numbers name p done)) [
        | inr (x, e) ↦ absurd (err_ne_ok (rw e at w))
        | inl (next, e) ↦
            Keeps-trans done next out (filled-Keeps name p done next e)
              (with_defaults-Keeps ps next out (rw e at w))
      ]

  with_defaults_required :
      (ps : Properties) (done out : Fields) (name : Text) (p : Property)
      → with_defaults numbers ps done ≡ ok out
      → Has (name, p) ps
      → is_required p ≡ true
      → (v : Value) × (lookup name out ≡ some v)
  unfolding with_defaults
  with_defaults_required [] done out name p w h r = absurd h
  with_defaults_required ((n, q) ∷ ps) done out name p w h r =
      elim (Result-cases (filled numbers n q done)) [
        | inr (x, e) ↦ absurd (err_ne_ok (rw e at w))
        | inl (next, e) ↦ elim h [
          | inr m ↦ with_defaults_required ps next out name p (rw e at w) m r
          | inl same ↦
              let (v, k) =
                filled_required n q done next (subst (λ t. is_required t.1 ≡ true) same r) e in
              let (u, z) = kept next out (with_defaults-Keeps ps next out (rw e at w)) n v k in
              (u, subst (λ t. lookup t out ≡ some u) (ap (λ t. t.0) (sym same)) z)
        ]
      ]

  -- A state that `validate` returned has a value for every required property of the schema.
  pub validate_required :
      (s : Schema) (state out : Fields) (name : Text) (p : Property)
      → validate numbers s state ≡ ok out
      → Has (name, p) s.properties
      → is_required p ≡ true
      → (v : Value) × (lookup name out ≡ some v)
  unfolding validate
  validate_required s state out name p h there r =
      elim (Result-cases (declared numbers s.properties state end)) [
        | inl (done, e) ↦ with_defaults_required s.properties done out name p (rw e at h) there r
        | inr (x, e) ↦ absurd (err_ne_ok (rw e at h))
      ]
