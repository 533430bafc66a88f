-- ===== src/Base/Trim/Parts.antt =====
-- What is trimmed off leaves bytes of the text only.
use Prim.Native.Nat.{ℕ}
use mathlib.Core.Bool.{Bool, false, ◌||◌}
use mathlib.Core.List.{[], ◌∷◌}
use mathlib.Core.Logic.{inl, inr}
use mathlib.Core.Path.{◌≡◌, refl}
use native.Mathlib.Omega.{arith}
use detc.Base.Tests.{Bool-cases}
use detc.Base.Lists.{any}
use detc.Base.Str.{Text}
use detc.Base.Trim.{trim, drop_spaces, reversed, space1, space2, space3, space2_back, space3_back}

module _ (p : ℕ → Bool) where
  none_of : (b c : Bool) → b || c ≡ false → (b ≡ false) × (c ≡ false)
  none_of b c h = ground arith

  any-drop_spaces :
      (two : ℕ → ℕ → Bool) (three : ℕ → ℕ → ℕ → Bool) (t : Text)
      → any p t ≡ false
      → any p (drop_spaces two three t) ≡ false
  unfolding drop_spaces
  any-drop_spaces two three [] h = refl
  any-drop_spaces two three (a ∷ []) h = elim (Bool-cases (space1 a)) [
    | inl e ↦ rw (e, any) refl
    | inr e ↦ rw (e, any) h
  ]
  any-drop_spaces two three (a ∷ b ∷ []) h = elim (Bool-cases (space1 a)) [
    | inl e ↦
        rw (e, any)
          (elim (Bool-cases (space1 b)) [
            | inl f ↦ rw (f, any) refl
            | inr f ↦ rw (f, any) (none_of (p a) (any p (b ∷ [])) h).1
          ])
    | inr e ↦
        rw (e, any)
          (elim (Bool-cases (two a b)) [ inl f ↦ rw (f, any) refl | inr f ↦ rw (f, any) h ])
  ]
  any-drop_spaces two three (a ∷ b ∷ c ∷ rest) h =
      let later = none_of (p a) (any p (b ∷ c ∷ rest)) h in
      let last = none_of (p b) (any p (c ∷ rest)) later.1 in
      elim (Bool-cases (space1 a)) [
        | inl e ↦ rw (e, any) (any-drop_spaces two three (b ∷ c ∷ rest) later.1)
        | inr e ↦
            rw (e, any)
              (elim (Bool-cases (two a b)) [
                | inl f ↦ rw (f, any) (any-drop_spaces two three (c ∷ rest) last.1)
                | inr f ↦
                    rw (f, any)
                      (elim (Bool-cases (three a b c)) [
                        | inl g ↦
                            rw (g, any)
                              (any-drop_spaces two three rest (none_of (p c) (any p rest) last.1).1)
                        | inr g ↦ rw (g, any) h
                      ])
              ])
      ]

  any-reversed :
      (done t : Text) → any p done ≡ false → any p t ≡ false → any p (reversed done t) ≡ false
  unfolding reversed
  any-reversed done [] d h = d
  any-reversed done (c ∷ cs) d h =
      let parts = none_of (p c) (any p cs) h in any-reversed (c ∷ done) cs (rw parts.0 d) parts.1

  pub any-trim : (t : Text) → any p t ≡ false → any p (trim t) ≡ false
  unfolding trim
  any-trim t h = any-reversed [] _ refl (
      any-drop_spaces space2_back space3_back _
        (any-reversed [] _ refl (any-drop_spaces space2 space3 t h)))
