-- ===== src/Value/Order.antt =====
-- Objects keep their keys in strictly increasing order, at every depth.
use detc.Base.{
  subst, inl, inr, Bool-cases, ◌≡◌, refl, true, false, none, some, Text, text_eq, text_lt,
  text_eq_iff, text_lt_irrefl, text_lt_trans, text_lt_total, if_both, arith,
}
use detc.Value.{
  Value, Items, Fields, array, object, nil, cons, end, field, lookup, insert, remove, append,
}

-- Every key of `m` comes after `k`.
abbrev pub Above : Text → Fields → Type 0
Above k end = Unit
Above k (field j v m) = (text_lt k j ≡ true) × Above k m

abbrev mutual
  pub IsSorted : Value → Type 0
  IsSorted (array xs) = IsSortedItems xs
  IsSorted (object m) = IsSortedFields m
  IsSorted _ = Unit

  pub IsSortedItems : Items → Type 0
  IsSortedItems nil = Unit
  IsSortedItems (cons x xs) = IsSorted x × IsSortedItems xs

  pub IsSortedFields : Fields → Type 0
  IsSortedFields end = Unit
  IsSortedFields (field k v m) = IsSorted v × IsSortedFields m × Above k m

pub Above-trans : (k j : Text) (m : Fields) → text_lt k j ≡ true → Above j m → Above k m
Above-trans k j end h a = tt
Above-trans k j (field i v m) h a = (text_lt_trans k j i h a.0, Above-trans k j m h a.1)

pub lookup-Above : (k : Text) (m : Fields) → Above k m → lookup k m ≡ none
unfolding lookup
lookup-Above k end a = refl
lookup-Above k (field j v m) a =
    ground (arith, lookup-Above k m a.1, text_eq_iff j k, text_lt_irrefl k, a.0)

Above-insert :
    (i k : Text) (v : Value) (m : Fields) → text_lt i k ≡ true → Above i m → Above i (insert k v m)
unfolding insert
Above-insert i k v end h a = (h, tt)
Above-insert i k v (field j w m) h a =
    if_both (Above i) (text_eq j k) _ _ (λ _. (h, a.1))
      λ _. if_both (Above i) (text_lt k j) _ _ (λ _. (h, a)) λ _. (a.0, Above-insert i k v m h a.1)

text_eq_ne : (a b : Text) → text_eq a b ≡ false → text_eq b a ≡ false
text_eq_ne a b h = ground (arith, text_eq_iff a b, text_eq_iff b a)

pub insert-IsSorted :
    (k : Text) (v : Value) (m : Fields)
    → IsSorted v
    → IsSortedFields m
    → IsSortedFields (insert k v m)
unfolding insert
insert-IsSorted k v end hv hm = (hv, tt, tt)
insert-IsSorted k v (field j w m) hv hm =
    if_both IsSortedFields (text_eq j k) _ _
      (λ e. (hv, hm.1, subst (λ t. Above t m) ((text_eq_iff j k).0 e) hm.2))
      λ ne.
        if_both IsSortedFields (text_lt k j) _ _ (λ lt. (hv, hm, (lt, Above-trans k j m lt hm.2)))
          λ ge. (
            hm.0,
            insert-IsSorted k v m hv hm.1,
            Above-insert j k v m (text_lt_total k j (text_eq_ne j k ne) ge) hm.2,
          )

-- Writing back the value that is there changes nothing.
pub insert_same :
    (k : Text) (v : Value) (m : Fields) → IsSortedFields m → lookup k m ≡ some v → insert k v m ≡ m
unfolding lookup insert
insert_same k v end s h = cc
insert_same k v (field j w m) s h =
    ground (arith, text_eq_iff j k, insert_same k v m s.1, lookup-Above k m, Above-trans k j m, s.2)

-- A value found in a sorted object is sorted.
pub lookup-IsSorted :
    (k : Text) (m : Fields) {v : Value} → IsSortedFields m → lookup k m ≡ some v → IsSorted v
unfolding lookup
lookup-IsSorted k end s h = cc
lookup-IsSorted k (field j w m) {v} s h = elim (Bool-cases (text_eq j k)) [
  | inl e ↦ let same : w ≡ v = ground arith in subst IsSorted same s.0
  | inr e ↦ lookup-IsSorted k m s.1 (ground arith)
]

pub append-IsSorted :
    (xs ys : Items) → IsSortedItems xs → IsSortedItems ys → IsSortedItems (append xs ys)
unfolding append
append-IsSorted nil ys hx hy = hy
append-IsSorted (cons x xs) ys hx hy = (hx.0, append-IsSorted xs ys hx.1 hy)

pub remove-Above : (i k : Text) (m : Fields) → Above i m → Above i (remove k m)
unfolding remove
remove-Above i k end a = tt
remove-Above i k (field j w m) a =
    if_both (Above i) (text_eq j k) _ _ (λ _. remove-Above i k m a.1)
      λ _. (a.0, remove-Above i k m a.1)

pub remove-IsSorted : (k : Text) (m : Fields) → IsSortedFields m → IsSortedFields (remove k m)
unfolding remove
remove-IsSorted k end s = tt
remove-IsSorted k (field j w m) s =
    if_both IsSortedFields (text_eq j k) _ _ (λ _. remove-IsSorted k m s.1)
      λ _. (s.0, remove-IsSorted k m s.1, remove-Above j k m s.2)
