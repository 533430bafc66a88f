-- ===== src/Base/Lines.antt =====
-- The lines of a text, `str::lines`.
use Prim.Native.Nat.{ℕ}
use mathlib.Core.Bool.{Bool, false, ◌&&◌, ◌||◌}
use mathlib.Core.List.{List, [], ◌∷◌, ◌++◌, append_assoc}
use mathlib.Core.Option.{some}
use mathlib.Core.Path.{◌≡◌, refl, ap, ◌∙◌}
use native.Mathlib.Omega.{arith}
use detc.Base.Tests.{◌==◌, if◌then◌else◌}
use detc.Base.Lists.{any, All}
use detc.Base.Str.{Text, push_first, strip_prefix}

abbrev pub newline : ℕ
newline = 10

abbrev at_newline : Text → Bool
at_newline [] = false
at_newline (c ∷ cs) = c == 10

-- A line ends at a newline, and at a carriage return before one.
unfoldable pub lines : Text → List Text
lines [] = []
lines (c ∷ cs) =
    let rest = lines cs in
    if c == 10 then [] ∷ rest else if c == 13 && at_newline cs then rest else push_first c rest

abbrev pub breaks : ℕ → Bool
breaks c = c == 10 || c == 13

-- A text of one line.
abbrev pub IsLine : Text → Type 0
IsLine t = any breaks t ≡ false

pub IsLine-append : (a b : Text) → IsLine a → IsLine b → IsLine (a ++ b)
IsLine-append [] b h k = k
IsLine-append (c ∷ a) b h k = ground (arith, IsLine-append a b)

pub lines-append : (t rest : Text) → IsLine t → lines (t ++ (newline ∷ rest)) ≡ t ∷ lines rest
unfolding lines
lines-append [] rest h = refl
lines-append (c ∷ t) rest h = ground (arith, lines-append t rest)

-- Each line, and the newline that ends it.
unfoldable pub unlines : List Text → Text
unlines [] = []
unlines (l ∷ ls) = l ++ (newline ∷ unlines ls)

pub lines-unlines :
    (ls : List Text) (rest : Text) → All IsLine ls → lines (unlines ls ++ rest) ≡ ls ++ lines rest
unfolding unlines
lines-unlines [] rest h = refl
lines-unlines (l ∷ ls) rest h =
    ap lines (append_assoc l (newline ∷ unlines ls) rest)
    ∙ lines-append l (unlines ls ++ rest) h.0
    ∙ ap (◌∷◌ l) (lines-unlines ls rest h.1)

pub strip_prefix-append : (p t : Text) → strip_prefix p (p ++ t) ≡ some t
strip_prefix-append [] t = refl
strip_prefix-append (c ∷ p) t = ground (arith, strip_prefix-append p t)
