-- ===== src/Var/Subtree/Frame.antt =====
-- What a write under a list of keys keeps.
use detc.Base.{◌≡◌, refl, ap, none, some, List, [], ◌∷◌, ok, err, Text, Option}
use detc.Value.{
  Value, null, bool, number, string, array, Fields, object, end, lookup, insert, or_empty,
}
use detc.Value.Order.{IsSorted, IsSortedFields, insert-IsSorted, lookup-IsSorted, insert_same}
use detc.Var.Strategy.{Error}
use detc.Var.Subtree.{Action, at_subtree}

or_empty-IsSorted : (k : Text) (m : Fields) → IsSortedFields m → IsSorted (or_empty (lookup k m))
or_empty-IsSorted k m s = step (lookup k m) (λ v e. lookup-IsSorted k m s e)
  where
    step : (o : Option Value) → ((v : Value) → o ≡ some v → IsSorted v) → IsSorted (or_empty o)
    step none f = tt
    step (some v) f = f v refl

module _ (act : Action) (keeps : (v : Value) → IsSorted v → IsSorted (act v).1) where
  -- Objects stay in order.
  pub at_subtree-IsSorted :
      (ks : List Text) (v : Value) → IsSorted v → IsSorted (at_subtree act ks v).1
  unfolding at_subtree
  at_subtree-IsSorted [] v s = keeps v s
  at_subtree-IsSorted (k ∷ ks) (object m) s =
      insert-IsSorted k _ m
        (at_subtree-IsSorted ks (or_empty (lookup k m)) (or_empty-IsSorted k m s)) s
  at_subtree-IsSorted (k ∷ ks) null s = s
  at_subtree-IsSorted (k ∷ ks) (bool b) s = s
  at_subtree-IsSorted (k ∷ ks) (number b) s = s
  at_subtree-IsSorted (k ∷ ks) (string b) s = s
  at_subtree-IsSorted (k ∷ ks) (array b) s = s

module _ (act : Action) (objects : (m : Fields) → (act (object m)).0 ≡ ok tt)
    (failed : (v : Value) (e : Error) → (act v).0 ≡ err e → (act v).1 ≡ v) where
  -- Below an object that was just created nothing fails.
  at_subtree_empty : (ks : List Text) → (at_subtree act ks (object end)).0 ≡ ok tt
  unfolding at_subtree lookup
  at_subtree_empty [] = objects end
  at_subtree_empty (k ∷ ks) = at_subtree_empty ks

  -- The member on the way down, put back as it was.
  put_back :
      (k : Text) (ks : List Text) (m : Fields) (e : Error)
      → IsSortedFields m
      → ((v : Value) → IsSorted v → (at_subtree act ks v).0 ≡ err e → (at_subtree act ks v).1 ≡ v)
      → (o : Option Value) → lookup k m ≡ o
      → (at_subtree act ks (or_empty o)).0 ≡ err e
      → insert k (at_subtree act ks (or_empty o)).1 m ≡ m
  put_back k ks m e s ih none found h = cc (at_subtree_empty ks)
  put_back k ks m e s ih (some v) found h =
      rw (ih v (lookup-IsSorted k m s found) h) (insert_same k v m s found)

  -- What failed changed nothing.
  pub at_subtree_failed :
      (ks : List Text) (v : Value) (e : Error)
      → IsSorted v
      → (at_subtree act ks v).0 ≡ err e
      → (at_subtree act ks v).1 ≡ v
  unfolding at_subtree
  at_subtree_failed [] v e s h = failed v e h
  at_subtree_failed (k ∷ ks) (object m) e s h =
      ap object (put_back k ks m e s (λ v t x. at_subtree_failed ks v e t x) (lookup k m) refl h)
  at_subtree_failed (k ∷ ks) null e s h = refl
  at_subtree_failed (k ∷ ks) _ e s h = refl
