-- ===== src/Hosts/Range/Brackets.antt =====
-- Counting a range out takes a bracket away: every name of it has fewer than the term had.
use detc.Base.{
  is_empty, all, ◌≡◌, refl, sym, ap, subst, ◌∙◌, ℕ, zero, suc, ◌+◌, ◌-◌, ◌≤◌, ◌<◌, true, ◌&&◌, ◌||◌,
  Option, none, some, List, [], ◌∷◌, ◌++◌, map, Text, length, ltb, leb, ◌==◌, if◌then◌else◌, arith,
  All, All-imp, Bool-cases, Option-cases, inl, inr, ◌⊎◌,
}
use Prim.Native.Nat.{◌/◌, ◌%◌}
use detc.Base.Decimal.{digit, digits, decimal, padded, zeros}
use detc.Hosts.Range.{
  Count, numbers, letters, steps, count_from, Range, names, count, letters_between, numbers_between,
  split_once, counted, at_bracket, range_from, range,
}

-- The opening brackets of a text.
unfoldable pub brackets : Text → ℕ
brackets [] = 0
brackets (c ∷ cs) = (if c == b'[' then 1 else 0) + brackets cs

pub brackets-append : (s t : Text) → brackets (s ++ t) ≡ brackets s + brackets t
unfolding brackets
brackets-append [] t = omega arith
brackets-append (c ∷ s) t = omega (arith, brackets-append s t)

brackets-digits : (f n : ℕ) (done : Text) → brackets done ≡ 0 → brackets (digits f n done) ≡ 0
unfolding digits brackets
brackets-digits zero n done h = h
brackets-digits (suc f) n done h = elim (Bool-cases (ltb n 10)) [
  | inl e ↦ rw (e, digits) (ground (arith, h))
  | inr e ↦ rw (e, digits) (brackets-digits f (n / 10) ((b'0' + n % 10) ∷ done) (ground (arith, h)))
]

brackets-zeros : (n : ℕ) → brackets (zeros n) ≡ 0
unfolding brackets
brackets-zeros zero = refl
brackets-zeros (suc n) = ground (arith, brackets-zeros n)

brackets-decimal : (n : ℕ) → brackets (decimal n) ≡ 0
unfolding decimal
brackets-decimal n = brackets-digits (suc n) n [] (unfold brackets in refl)

brackets-padded : (w n : ℕ) → brackets (padded w n) ≡ 0
unfolding padded
brackets-padded w n =
    brackets-append (zeros (w - length (decimal n))) (decimal n)
    ∙ omega (arith, brackets-zeros (w - length (decimal n)), brackets-decimal n)

-- A count of letters goes from one to another of its own case.
abbrev IsCount : Count → Type 0
IsCount (numbers l h w) = Unit {0}
IsCount (letters l h) = (b'a' ≤ l) ⊎ (h ≤ b'Z')

numbers_between-IsCount :
    (low high : Text) (c : Count) → numbers_between low high ≡ some c → IsCount c
unfolding numbers_between
numbers_between-IsCount low high (numbers l h w) e = tt
numbers_between-IsCount low high (letters l h) e = absurd (ground (arith, e))

letter_cases : (l h : ℕ) (c : Count) → letters_between (l ∷ []) (h ∷ []) ≡ some c → IsCount c
unfolding letters_between
letter_cases l h c e = elim (Bool-cases (leb b'a' l)) [
  | inl q ↦ subst IsCount {x = letters l h} (ground (arith, e)) (inl (ground (arith, q)))
  | inr q ↦ subst IsCount {x = letters l h} (ground (arith, e)) (inr (ground (arith, q, e)))
]

letters_between-IsCount :
    (low high : Text) (c : Count) → letters_between low high ≡ some c → IsCount c
unfolding letters_between
letters_between-IsCount (l ∷ []) (h ∷ []) c e = letter_cases l h c e
letters_between-IsCount _ _ c e = absurd (ground (arith, e))

count-IsCount : (low high : Text) (c : Count) → count low high ≡ some c → IsCount c
unfolding count
count-IsCount low high c e = elim (Bool-cases (is_empty low || is_empty high)) [
  | inl q ↦ absurd (ground (arith, rw q at e))
  | inr q ↦ elim (Bool-cases (all digit low && all digit high)) [
    | inl d ↦ numbers_between-IsCount low high c (rw (q, d) at e)
    | inr d ↦ letters_between-IsCount low high c (rw (q, d) at e)
  ]
]

counted-IsCount : (inner : Text) (c : Count) → counted inner ≡ some c → IsCount c
unfolding counted
counted-IsCount inner c e = elim (Option-cases (split_once b':' inner)) [
  | inl q ↦ absurd (ground (arith, rw (q, counted) at e))
  | inr (p, q) ↦ count-IsCount p.0 p.1 c (rw (q, counted) at e)
]

All-numbers : (w n low : ℕ) → All (λ t. brackets t ≡ 0) (map (padded w) (count_from n low))
unfolding count_from
All-numbers w zero low = tt
All-numbers w (suc n) low = (brackets-padded w low, All-numbers w n (low + 1))

All-letters :
    (n low : ℕ)
    → (b'a' ≤ low) ⊎ (low + n ≤ b'Z' + 1)
    → All (λ t. brackets t ≡ 0) (map (λ c. c ∷ []) (count_from n low))
unfolding count_from brackets
All-letters zero low h = tt
All-letters (suc n) low h = (ground (arith, h), All-letters n (low + 1) (ground (arith, h)))

steps-brackets : (c : Count) → IsCount c → All (λ t. brackets t ≡ 0) (steps c)
unfolding steps
steps-brackets (numbers l h w) i = All-numbers w (h + 1 - l) l
steps-brackets (letters l h) i = elim (Bool-cases (ltb h l)) [
  | inl q ↦
      let none_of : h + 1 - l ≡ 0 = ground (arith, q) in
      subst (λ n. All (λ t. brackets t ≡ 0) (map (λ c. c ∷ []) (count_from n l))) (sym none_of)
        (unfold count_from in tt)
  | inr q ↦
      All-letters (h + 1 - l) l (elim i [ inl a ↦ inl a | inr z ↦ inr (ground (arith, q, z)) ])
]

names_from :
    (before after : Text) (ts : List Text)
    → All (λ t. brackets t ≡ 0) ts
    → All
        (λ t. brackets t ≡ brackets before + brackets after)
        (map (λ t. before ++ (t ++ after)) ts)
names_from before after [] h = tt
names_from before after (t ∷ ts) h = (
  omega (arith, brackets-append before (t ++ after), brackets-append t after, h.0),
  names_from before after ts h.1,
)

split_once-brackets :
    (sep : ℕ) (t p rest : Text) → split_once sep t ≡ some (p, rest) → brackets rest ≤ brackets t
unfolding split_once brackets
split_once-brackets sep [] p rest e = absurd (ground (arith, e))
split_once-brackets sep (c ∷ cs) p rest e = elim (Bool-cases (c == sep)) [
  | inl q ↦ ground (arith, rw q at e)
  | inr q ↦ elim (Option-cases (split_once sep cs)) [
    | inl n ↦ absurd (ground (arith, rw (q, n, split_once) at e))
    | inr (w, n) ↦
        let same : w.1 ≡ rest = ground (arith, rw (q, n, split_once) at e) in
        ground (arith, same, split_once-brackets sep cs w.0 w.1 n)
  ]
]

brackets_cons : (c : ℕ) (t : Text) → brackets (c ∷ t) ≡ brackets (c ∷ []) + brackets t
unfolding brackets
brackets_cons c t = omega arith

brackets_at : (c : ℕ) (t : Text) → c == b'[' ≡ true → brackets (c ∷ t) ≡ brackets t + 1
unfolding brackets
brackets_at c t q = rw q (omega arith)

at_bracket_cases :
    (before : Text) (o : Option (Text × Text)) (later : Option Range) (r : Range)
    → at_bracket before o later ≡ some r
    → (later ≡ some r)
      ⊎ ((inner : Text) × (after : Text) × (o ≡ some (inner, after))
          × (counted inner ≡ some r.count)
          × (before ≡ r.before)
          × (after ≡ r.after))
unfolding at_bracket
at_bracket_cases before none later r e = absurd (ground (arith, e))
at_bracket_cases before (some (inner, after)) later r e = elim (Option-cases (counted inner)) [
  | inl q ↦ inl (rw (q, at_bracket) at e)
  | inr (n, q) ↦
      let f = rw (q, at_bracket) at e in
      inr (inner, after, refl, ground (arith, q, f), ground (arith, f), ground (arith, f))
]

-- A range that was found is counted out between bounds, and one bracket opened it.
range_from-brackets :
    (before t : Text) (r : Range)
    → range_from before t ≡ some r
    → IsCount r.count × (brackets r.before + brackets r.after < brackets before + brackets t)
unfolding range_from
range_from-brackets before [] r e = absurd (ground (arith, e))
range_from-brackets before (c ∷ rest) r e = elim (Bool-cases (c == b'[')) [
  | inr q ↦
      let (i, l) = range_from-brackets (before ++ (c ∷ [])) rest r (rw q at e) in
      (
        i,
        omega (arith, l, brackets-append before (c ∷ []), brackets_cons c rest, brackets_cons c []),
      )
  | inl q ↦
      elim (at_bracket_cases before (split_once b']' rest) (range_from (before ++ (c ∷ [])) rest) r
        (rw q at e)) [
          | inl f ↦
              let (i, l) = range_from-brackets (before ++ (c ∷ [])) rest r f in
              (
                i,
                omega (
                  arith,
                  l,
                  brackets-append before (c ∷ []),
                  brackets_cons c rest,
                  brackets_cons c [],
                ),
              )
          | inr (inner, after, o, n, b, a) ↦ (
            counted-IsCount inner r.count n,
            omega (
              arith,
              ap brackets b,
              ap brackets a,
              split_once-brackets b']' rest inner after o,
              brackets_at c rest q,
            ),
          )
        ]
]

-- Every name that a range stands for has fewer brackets than the term.
pub names-brackets :
    (term : Text) (r : Range)
    → range term ≡ some r
    → All (λ t. brackets t < brackets term) (names r)
unfolding range names
names-brackets term r e =
    let (i, l) = range_from-brackets [] term r e in
    All-imp (λ t. brackets t ≡ brackets r.before + brackets r.after)
      (λ t. brackets t < brackets term) (names r) (λ t q. omega (arith, q, l, none_yet))
      (names_from r.before r.after (steps r.count) (steps-brackets r.count i))
  where
    none_yet : brackets [] ≡ 0
    none_yet = unfold brackets in refl
