-- ===== src/Base/Outcome.antt =====
-- What a fallible function of the program returns, `crate::Result` of src/lib.rs. The message that
-- the source formats is a constructor of the component's error type, with what it mentions.
use mathlib.Core.Path.{◌≡◌, refl}
use mathlib.Core.Bool.{Bool, true, false}
use mathlib.Core.Option.{Option, none, some}
use mathlib.Core.Logic.{◌⊎◌, inl, inr}

pub data Result {ℓ κ} (E : Type ℓ) (A : Type κ) : Type (ℓ ⊔ κ) where
  ok : A → Result E A
  err : E → Result E A

-- `?`: what follows is done with the value, or the error is returned.
infixl 10 ◌>>=◌ ◌>>◌
abbrev pub ◌>>=◌ {ℓ κ μ} :
    {F : Type ℓ} {A : Type κ} {B : Type μ} → Result F A → (A → Result F B) → Result F B
r >>= next = elim r [ ok a ↦ next a | err e ↦ err e ]

abbrev pub ◌>>◌ {ℓ κ μ} :
    {F : Type ℓ} {A : Type κ} {B : Type μ} → Result F A → Result F B → Result F B
r >> next = elim r [ ok _ ↦ next | err e ↦ err e ]

-- `if bad { return err!(...) }`
abbrev pub refuse_if {ℓ} : {E : Type ℓ} → Bool → E → Result E (Unit {0})
refuse_if true e = err e
refuse_if false e = ok tt

abbrev pub is_ok {ℓ κ} : {E : Type ℓ} {A : Type κ} → Result E A → Bool
is_ok (ok a) = true
is_ok (err e) = false

-- To split on a result and keep the equation.
pub Result-cases {ℓ κ} :
    {E : Type ℓ} {A : Type κ} (r : Result E A) → ((a : A) × (r ≡ ok a)) ⊎ ((e : E) × (r ≡ err e))
Result-cases (ok a) = inl (a, refl)
Result-cases (err e) = inr (e, refl)

-- To split on an option and keep the equation.
pub Option-cases {ℓ} : {A : Type ℓ} (o : Option A) → (o ≡ none) ⊎ ((a : A) × (o ≡ some a))
Option-cases none = inl refl
Option-cases (some a) = inr (a, refl)

-- What a chain that succeeds went through.
pub >>=-eq-ok {ℓ κ μ} :
    {F : Type ℓ} {A : Type κ} {B : Type μ} (m : Result F A) (next : A → Result F B) {b : B}
    → (m >>= next) ≡ ok b
    → (a : A) × (m ≡ ok a) × (next a ≡ ok b)
>>=-eq-ok (ok a) next h = (a, refl, h)
>>=-eq-ok (err e) next h = cc
