-- ===== src/Base/Decimal.antt =====
-- Numbers in decimal digits, as `format!` writes them and `str::parse` reads them.
pub mod Reading
use Prim.Native.Nat.{ℕ, zero, suc, ◌+◌, ◌-◌, ◌*◌, ◌/◌, ◌%◌}
use mathlib.Core.Bool.{Bool, true, false, ◌&&◌}
use mathlib.Core.List.{[], ◌∷◌, ◌++◌}
use mathlib.Core.Option.{Option, none, some}
use detc.Base.Tests.{ltb, leb, if◌then◌else◌}
use detc.Base.Lists.{length}
use detc.Base.Str.{Text}

unfoldable pub digits : ℕ → ℕ → Text → Text
digits zero n done = done
digits (suc fuel) n done = elim (ltb n 10) [
  | true ↦ (b'0' + n) ∷ done
  | false ↦ digits fuel (n / 10) ((b'0' + n % 10) ∷ done)
]

-- `n + 1` rounds are more than the digits of `n`.
unfoldable pub decimal : ℕ → Text
unfolding digits
decimal n = digits (suc n) n []

abbrev pub zeros : ℕ → Text
zeros zero = []
zeros (suc n) = b'0' ∷ zeros n

-- `{n:0width$}`
unfoldable pub padded : ℕ → ℕ → Text
unfolding decimal
padded width n = zeros (width - length (decimal n)) ++ decimal n

abbrev pub digit : ℕ → Bool
digit c = leb b'0' c && leb c b'9'

-- The number that digits are, read behind those that make `n`.
unfoldable pub value_from : ℕ → Text → Option ℕ
value_from n [] = some n
value_from n (c ∷ cs) = if digit c then value_from (n * 10 + (c - b'0')) cs else none
