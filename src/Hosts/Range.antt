-- ===== src/Hosts/Range.antt =====
-- A run of machines counted out between two ends, `Count`, `Range`, `count` and `range` of
-- src/hosts.rs.
pub mod Brackets
use detc.Base.{
  ℕ, zero, suc, ◌+◌, ◌-◌, ◌*◌, Bool, true, false, ◌&&◌, ◌||◌, Option, none, some, List, [], ◌∷◌,
  ◌++◌, map, Text, length, all, is_empty, ltb, leb, ◌==◌, if◌then◌else◌,
}
use Prim.Native.Nat.{◌^◌}
use detc.Base.Decimal.{padded, digit, value_from}

pub data Count : Type 0 where
  numbers : ℕ → ℕ → ℕ → Count
  letters : ℕ → ℕ → Count

unfoldable pub ascends : Count → Bool
ascends (numbers low high width) = leb low high
ascends (letters low high) = leb low high

-- `n` numbers from `low`.
unfoldable pub count_from : ℕ → ℕ → List ℕ
count_from zero low = []
count_from (suc n) low = low ∷ count_from n (low + 1)

-- `low..=high`
abbrev pub inclusive : ℕ → ℕ → List ℕ
unfolding count_from
inclusive low high = count_from (high + 1 - low) low

unfoldable pub steps : Count → List Text
unfolding count_from padded
steps (numbers low high width) = map (padded width) (count_from (high + 1 - low) low)
steps (letters low high) = map (λ c. c ∷ []) (count_from (high + 1 - low) low)

pub record Range : Type 0 where
  pub before : Text
  pub after : Text
  pub count : Count

unfoldable pub names : Range → List Text
unfolding steps
names r = map (λ step. r.before ++ (step ++ r.after)) (steps r.count)

-- `str::parse::<u64>` of digits
unfoldable pub parse_u64 : Text → Option ℕ
unfolding value_from
parse_u64 t = elim (value_from 0 t) [
  | none ↦ none
  | some n ↦ if ltb n (2 ^ 64) then some n else none
]

abbrev lower : ℕ → Bool
lower c = leb b'a' c && leb c b'z'

abbrev upper : ℕ → Bool
upper c = leb b'A' c && leb c b'Z'

abbrev width_of : Text → ℕ
width_of [] = 1
width_of (c ∷ cs) = if c == b'0' then length (c ∷ cs) else 1

-- The two `parse().ok()?` of numbers.
numbers_between : Text → Text → Option Count
unfolding parse_u64
numbers_between low high = elim (parse_u64 low) [
  | none ↦ none
  | some l ↦ elim (parse_u64 high) [ none ↦ none | some h ↦ some (numbers l h (width_of low)) ]
]

unfoldable pub letters_between : Text → Text → Option Count
letters_between (l ∷ []) (h ∷ []) =
    if (lower l && lower h) || (upper l && upper h) then some (letters l h) else none
letters_between _ _ = none

unfoldable pub count : Text → Text → Option Count
unfolding numbers_between letters_between
count low high =
    if is_empty low || is_empty high
    then none
    else if all digit low && all digit high
    then numbers_between low high
    else letters_between low high

-- `str::split_once` at one byte
unfoldable pub split_once : ℕ → Text → Option (Text × Text)
split_once sep [] = none
split_once sep (c ∷ cs) =
    if c == sep
    then some ([], cs)
    else elim (split_once sep cs) [ none ↦ none | some (p, rest) ↦ some (c ∷ p, rest) ]

-- What is between two brackets, if it is a count.
unfoldable pub counted : Text → Option Count
unfolding split_once count
counted inner = elim (split_once b':' inner) [ none ↦ none | some (low, high) ↦ count low high ]

-- The body of the loop at a bracket: the range that it opens, nothing where no bracket closes it, or
-- what the loop goes on to find.
unfoldable pub at_bracket : Text → Option (Text × Text) → Option Range → Option Range
unfolding counted
at_bracket before none later = none
at_bracket before (some (inner, after)) later = elim (counted inner) [
  | none ↦ later
  | some n ↦ some (record { before = before; after = after; count = n })
]

-- The loop, behind what it has passed.
unfoldable pub range_from : Text → Text → Option Range
unfolding at_bracket split_once
range_from before [] = none
range_from before (c ∷ rest) =
    let later = range_from (before ++ (c ∷ [])) rest in
    if c == b'[' then at_bracket before (split_once b']' rest) later else later

unfoldable pub range : Text → Option Range
unfolding range_from
range term = range_from [] term
