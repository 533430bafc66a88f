-- ===== src/Base/Decimal/Reading.antt =====
-- Digits that were written are read back.
use Prim.Native.Nat.{ℕ, zero, suc, ◌+◌, ◌-◌, ◌/◌, ◌%◌, ◌<◌, ◌≤◌}
use mathlib.Core.Bool.{Bool, true, false}
use mathlib.Core.List.{[], ◌∷◌}
use mathlib.Core.Logic.{inl, inr}
use mathlib.Core.Option.{some}
use mathlib.Core.Path.{◌≡◌, refl, ap, ◌∙◌}
use native.Mathlib.Omega.{arith}
use detc.Base.Tests.{ltb, Bool-cases}
use detc.Base.Str.{Text, parse_digits, parse_usize, is_digit, usize_max}
use detc.Base.Lines.{IsLine}
use detc.Base.Decimal.{digits, decimal}

cancel : (n : ℕ) → 0 + (48 + n - 48) ≡ n
cancel n = omega arith

smaller : (n fuel : ℕ) → ltb n 10 ≡ false → n < suc fuel → n / 10 < fuel
smaller n fuel e h = let ten : 10 ≤ n = ground (arith, e) in omega (arith, ten, h)

last_digit :
    (n : ℕ) (done : Text) → parse_digits (n / 10) ((b'0' + n % 10) ∷ done) ≡ parse_digits n done
unfolding parse_digits
last_digit n done =
    let within : is_digit (b'0' + n % 10) ≡ true = ground arith in
    rw within (ap (λ k. parse_digits k done) (omega arith))

parse_digits-digits :
    (fuel n : ℕ) (done : Text)
    → n < fuel
    → parse_digits 0 (digits fuel n done) ≡ parse_digits n done
unfolding digits parse_digits
parse_digits-digits zero n done h = absurd (omega arith)
parse_digits-digits (suc fuel) n done h = elim (Bool-cases (ltb n 10)) [
  | inl e ↦ rw (e, digits) (ground (arith, e, ap (λ k. parse_digits k done) (cancel n)))
  | inr e ↦
      rw (e, digits)
        (parse_digits-digits fuel (n / 10) ((b'0' + n % 10) ∷ done) (smaller n fuel e h)
          ∙ last_digit n done)
]

abbrev starts_digit : Text → Bool
starts_digit [] = false
starts_digit (c ∷ cs) = is_digit c

digits-starts_digit :
    (fuel n : ℕ) (done : Text) → n < fuel → starts_digit (digits fuel n done) ≡ true
unfolding digits
digits-starts_digit zero n done h = absurd (omega arith)
digits-starts_digit (suc fuel) n done h = elim (Bool-cases (ltb n 10)) [
  | inl e ↦ rw (e, digits) (ground arith)
  | inr e ↦
      rw (e, digits)
        (digits-starts_digit fuel (n / 10) ((b'0' + n % 10) ∷ done) (smaller n fuel e h))
]

parse_usize_digit : (t : Text) → starts_digit t ≡ true → parse_usize t ≡ parse_digits 0 t
unfolding parse_usize
parse_usize_digit [] h = absurd (ground (arith, h))
parse_usize_digit (c ∷ []) h = refl
parse_usize_digit (c ∷ d ∷ cs) h = ground arith

pub parse_usize-decimal : (n : ℕ) → n ≤ usize_max → parse_usize (decimal n) ≡ some n
unfolding decimal parse_digits
parse_usize-decimal n h =
    parse_usize_digit (digits (suc n) n []) (digits-starts_digit (suc n) n [] (omega arith))
    ∙ parse_digits-digits (suc n) n [] (omega arith)
    ∙ ground arith

digits-IsLine : (fuel n : ℕ) (done : Text) → IsLine done → IsLine (digits fuel n done)
unfolding digits
digits-IsLine zero n done h = h
digits-IsLine (suc fuel) n done h = elim (Bool-cases (ltb n 10)) [
  | inl e ↦ rw (e, digits) (ground arith)
  | inr e ↦ rw (e, digits) (digits-IsLine fuel (n / 10) ((b'0' + n % 10) ∷ done) (ground arith))
]

pub decimal-IsLine : (n : ℕ) → IsLine (decimal n)
unfolding decimal
decimal-IsLine n = digits-IsLine (suc n) n [] refl
