-- ===== src/Base/Trim.antt =====
-- `str::trim`, on the bytes of a text.
pub mod Parts
use Prim.Native.Nat.{ℕ}
use mathlib.Core.Bool.{Bool, true, false, ◌&&◌, ◌||◌}
use mathlib.Core.List.{[], ◌∷◌}
use detc.Base.Tests.{leb, ◌==◌, if◌then◌else◌}
use detc.Base.Str.{Text}

-- The white space of Unicode, by the bytes of one character: U+0009 to U+000D and U+0020,
abbrev pub space1 : ℕ → Bool
space1 a = (leb 9 a && leb a 13) || a == 32

-- U+0085 and U+00A0,
abbrev pub space2 : ℕ → ℕ → Bool
space2 a b = a == 194 && (b == 133 || b == 160)

-- U+1680, U+2000 to U+200A, U+2028, U+2029, U+202F, U+205F and U+3000.
abbrev pub space3 : ℕ → ℕ → ℕ → Bool
space3 a b c =
    (a == 225 && b == 154 && c == 128)
    || (a == 226 && b == 128 && ((leb 128 c && leb c 138) || c == 168 || c == 169 || c == 175))
    || (a == 226 && b == 129 && c == 159)
    || (a == 227 && b == 128 && c == 128)

abbrev space3_back : ℕ → ℕ → ℕ → Bool
space3_back c b a = space3 a b c

abbrev space2_back : ℕ → ℕ → Bool
space2_back b a = space2 a b

-- Drops the characters in front, whose bytes the tests know.
drop_spaces : (ℕ → ℕ → Bool) → (ℕ → ℕ → ℕ → Bool) → Text → Text
drop_spaces two three [] = []
drop_spaces two three (a ∷ []) = if space1 a then [] else a ∷ []
drop_spaces two three (a ∷ b ∷ []) = elim (space1 a) [
  | true ↦ if space1 b then [] else b ∷ []
  | false ↦ if two a b then [] else a ∷ b ∷ []
]
drop_spaces two three (a ∷ b ∷ c ∷ rest) = elim (space1 a) [
  | true ↦ drop_spaces two three (b ∷ c ∷ rest)
  | false ↦ elim (two a b) [
    | true ↦ drop_spaces two three (c ∷ rest)
    | false ↦ elim (three a b c) [ true ↦ drop_spaces two three rest | false ↦ a ∷ b ∷ c ∷ rest ]
  ]
]

reversed : Text → Text → Text
reversed done [] = done
reversed done (c ∷ cs) = reversed (c ∷ done) cs

-- `str::trim`
unfoldable pub trim : Text → Text
unfolding drop_spaces reversed
trim t =
    let tail = reversed [] (drop_spaces space2 space3 t) in
    reversed [] (drop_spaces space2_back space3_back tail)
