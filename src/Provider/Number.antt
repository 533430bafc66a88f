-- ===== src/Provider/Number.antt =====
-- The numbers that src/provider.rs reads out of a text: Rust's `str::parse::<i64>`, and the numbers of serde_json, which are an argument.
use detc.Base.{
  ◌≡◌, ℕ, zero, suc, Bool, true, Option, none, some, [], ◌∷◌, Text, ltb, ◌==◌, if◌then◌else◌, ℤ,
  pos, negsuc,
}
use Prim.Native.Nat.{◌^◌}
use detc.Base.Decimal.{value_from}

abbrev positive : Option ℕ → Option ℤ
positive none = none
positive (some n) = if ltb n (2 ^ 63) then some (pos n) else none

abbrev negative : Option ℕ → Option ℤ
negative none = none
negative (some zero) = some (pos 0)
negative (some (suc n)) = if ltb n (2 ^ 63) then some (negsuc n) else none

-- `str::parse::<i64>`: one sign may stand before the digits.
unfoldable pub parse_i64 : Text → Option ℤ
unfolding value_from
parse_i64 [] = none
parse_i64 (c ∷ []) = positive (value_from 0 (c ∷ []))
parse_i64 (c ∷ d ∷ cs) =
    if c == b'-'
    then negative (value_from 0 (d ∷ cs))
    else if c == b'+'
    then positive (value_from 0 (d ∷ cs))
    else positive (value_from 0 (c ∷ d ∷ cs))

-- What the program relies on of the numbers of serde_json, each by the text that it is written as.
pub record Numbers : Type 0 where
  -- `is_i64() || is_u64()`
  pub is_whole : Text → Bool
  -- `is_i64()`, and `as_i64()`
  pub as_i64 : Text → Option ℤ
  -- `Number::from`
  pub from_i64 : ℤ → Text
  -- `parse::<f64>()` and `Number::from_f64`: none where the text is no number, and none inside where
  -- the number is not finite
  pub from_decimal : Text → Option (Option Text)
  pub from_i64-is_whole : (n : ℤ) → is_whole (from_i64 n) ≡ true
