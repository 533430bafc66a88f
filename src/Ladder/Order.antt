-- ===== src/Ladder/Order.antt =====
-- The keys of a ladder of src/cfs.rs are in strictly increasing order.
use detc.Base.{
  ◌≡◌, refl, subst, true, false, none, some, [], ◌∷◌, text_eq_iff, text_lt_irrefl, text_lt_trans,
  text_lt_total, if◌then◌else◌, arith, Bool-cases, inl, inr, ◌↔◌,
}
use detc.Ladder.{FilePath, path_eq, path_lt, Found, Ladder, find_key, put}

pub path_eq_iff : (a b : FilePath) → (path_eq a b ≡ true) ↔ (a ≡ b)
unfolding path_eq
path_eq_iff (x ∷ a) (y ∷ b) = ground (arith, path_eq_iff a b, text_eq_iff x y)
path_eq_iff _ _ = ground arith

pub find_key-put :
    (k j : FilePath) (f : Found) (m : Ladder)
    → find_key j (put k f m) ≡ (if path_eq k j then some f else find_key j m)
unfolding find_key put
find_key-put k j f [] = refl
find_key-put k j f ((i, g) ∷ m) =
    ground (arith, path_eq_iff i k, path_eq_iff i j, path_eq_iff k j, find_key-put k j f m)

path_lt_irrefl : (a : FilePath) → path_lt a a ≡ false
unfolding path_lt
path_lt_irrefl [] = refl
path_lt_irrefl (x ∷ a) = ground (arith, path_lt_irrefl a, text_lt_irrefl x)

path_lt_trans : (a b c : FilePath) → path_lt a b ≡ true → path_lt b c ≡ true → path_lt a c ≡ true
unfolding path_lt
path_lt_trans [] (y ∷ b) (z ∷ c) h k = refl
path_lt_trans (x ∷ a) (y ∷ b) (z ∷ c) h k = ground (
  arith,
  path_lt_trans a b c,
  text_lt_trans x y z,
  text_eq_iff x y,
  text_eq_iff y z,
  text_eq_iff x z,
)
path_lt_trans _ _ _ h k = ground arith

path_lt_total : (a b : FilePath) → path_eq a b ≡ false → path_lt a b ≡ false → path_lt b a ≡ true
unfolding path_lt path_eq
path_lt_total (x ∷ a) (y ∷ b) h k =
    ground (arith, path_lt_total a b, text_lt_total x y, text_eq_iff x y, text_eq_iff y x)
path_lt_total _ _ h k = ground arith

-- The keys are in strictly increasing order.
unfoldable pub Above : FilePath → Ladder → Type 0
Above k [] = Unit {0}
Above k ((j, f) ∷ m) = (path_lt k j ≡ true) × Above k m

unfoldable pub IsOrdered : Ladder → Type 0
unfolding Above
IsOrdered [] = Unit {0}
IsOrdered ((k, f) ∷ m) = Above k m × IsOrdered m

Above-trans : (k j : FilePath) (m : Ladder) → path_lt k j ≡ true → Above j m → Above k m
unfolding Above
Above-trans k j [] h a = tt
Above-trans k j ((i, f) ∷ m) h a = (path_lt_trans k j i h a.0, Above-trans k j m h a.1)

pub find_key-Above : (k : FilePath) (m : Ladder) → Above k m → find_key k m ≡ none
unfolding find_key Above
find_key-Above k [] a = refl
find_key-Above k ((j, f) ∷ m) a =
    ground (arith, find_key-Above k m a.1, path_eq_iff j k, path_lt_irrefl k, a.0)

Above-put :
    (i k : FilePath) (f : Found) (m : Ladder) → path_lt i k ≡ true → Above i m → Above i (put k f m)
unfolding put Above
Above-put i k f [] h a = (h, tt)
Above-put i k f ((j, g) ∷ m) h a = elim (Bool-cases (path_eq j k)) [
  | inl e ↦ rw e (h, a.1)
  | inr e ↦ elim (Bool-cases (path_lt k j)) [
    | inl l ↦ rw (e, l) (h, a)
    | inr l ↦ rw (e, l) (a.0, Above-put i k f m h a.1)
  ]
]

pub put-IsOrdered : (k : FilePath) (f : Found) (m : Ladder) → IsOrdered m → IsOrdered (put k f m)
unfolding put IsOrdered
put-IsOrdered k f [] o = (tt, tt)
put-IsOrdered k f ((j, g) ∷ m) o = elim (Bool-cases (path_eq j k)) [
  | inl e ↦ rw e (subst (λ t. Above t m) ((path_eq_iff j k).0 e) o.0, o.1)
  | inr e ↦ elim (Bool-cases (path_lt k j)) [
    | inl l ↦ rw (e, l) ((l, Above-trans k j m l o.0), o)
    | inr l ↦
        rw (e, l)
          (
            Above-put j k f m
                (path_lt_total k j (ground (arith, e, path_eq_iff j k, path_eq_iff k j)) l) o.0,
            put-IsOrdered k f m o.1,
          )
  ]
]
