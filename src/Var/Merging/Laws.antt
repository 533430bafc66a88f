-- ===== src/Var/Merging/Laws.antt =====
-- What each strategy makes of every member of an object, and that it keeps objects in order.
use detc.Base.{◌≡◌, refl, true, Option, none, some, Text, text_eq_iff, arith}
use detc.Value.{
  Value, Fields, object, array, end, field, lookup, insert, member, or_null, is_object,
}
use detc.Value.Laws.{lookup-insert}
use detc.Value.Order.{
  IsSorted, IsSortedFields, lookup-Above, insert-IsSorted, lookup-IsSorted, append-IsSorted,
}
use detc.Var.Strategy.{Merge, replace, partial, full}
use detc.Var.Merging.{
  JsonPatch, patched, extend, replace_value, full_merge_value, full_merge_fields, merge_value,
}

-- The value that the second option says, or else the first.
abbrev pub override : Option Value → Option Value → Option Value
override old none = old
override old (some v) = some v

-- A member that both hold is merged; another is the one that is there.
abbrev pub merged : Option Value → Option Value → Option Value
merged old none = old
merged old (some v) = some (full_merge_value (or_null old) v)

lookup-extend :
    (k : Text) (a b : Fields)
    → IsSortedFields b
    → lookup k (extend a b) ≡ override (lookup k a) (lookup k b)
unfolding extend lookup
lookup-extend k a end s = refl
lookup-extend k a (field j v b) s = ground (
  arith,
  lookup-extend k (insert j v a) b s.1,
  lookup-insert j k v a,
  text_eq_iff j k,
  lookup-Above j b s.2,
)

lookup-full_merge_fields :
    (k : Text) (a b : Fields)
    → IsSortedFields b
    → lookup k (full_merge_fields a b) ≡ merged (lookup k a) (lookup k b)
unfolding full_merge_value lookup
lookup-full_merge_fields k a end s = refl
lookup-full_merge_fields k a (field j v b) s =
    let w = full_merge_value (or_null (lookup j a)) v in
    ground (
      arith,
      lookup-full_merge_fields k (insert j w a) b s.1,
      lookup-insert j k w a,
      text_eq_iff j k,
      lookup-Above j b s.2,
    )

-- What a strategy makes of one member of an object, from what it was and what the document says.
abbrev pub combined : JsonPatch → Merge → Option Value → Option Value → Option Value
combined jp replace = override
combined jp partial = patched jp.merge
combined jp full = merged

module _ (jp : JsonPatch) where
  pub member-merge_value :
      (a : Fields) (b : Fields) (how : Merge) (k : Text)
      → IsSortedFields b
      → member k (merge_value jp (object a) (object b) how)
        ≡ combined jp how (lookup k a) (lookup k b)
  unfolding merge_value member
  member-merge_value a b replace k s = lookup-extend k a b s
  member-merge_value a b partial k s = jp.member-merge (object a) (object b) k refl s
  member-merge_value a b full k s = lookup-full_merge_fields k a b s

  -- An object that is merged into an object leaves an object.
  pub merge_value-is_object :
      (a b : Fields) (how : Merge) → is_object (merge_value jp (object a) (object b) how) ≡ true
  unfolding merge_value
  merge_value-is_object a b replace = refl
  merge_value-is_object a b partial = jp.merge_is_object (object a) (object b) refl
  merge_value-is_object a b full = refl

extend-IsSorted : (a b : Fields) → IsSortedFields a → IsSortedFields b → IsSortedFields (extend a b)
unfolding extend
extend-IsSorted a end ha hb = ha
extend-IsSorted a (field k v b) ha hb =
    extend-IsSorted (insert k v a) b (insert-IsSorted k v a hb.0 ha) hb.1

pub or_null-IsSorted : (k : Text) (a : Fields) → IsSortedFields a → IsSorted (or_null (lookup k a))
or_null-IsSorted k a h = step (lookup k a) (λ v e. lookup-IsSorted k a h e)
  where
    step : (o : Option Value) → ((v : Value) → o ≡ some v → IsSorted v) → IsSorted (or_null o)
    step none f = tt
    step (some v) f = f v refl

mutual
  unfolding full_merge_value

  full-IsSorted : (a b : Value) → IsSorted a → IsSorted b → IsSorted (full_merge_value a b)
  full-IsSorted (object a) (object b) ha hb = full_fields-IsSorted a b ha hb
  full-IsSorted (array a) (array b) ha hb = append-IsSorted a b ha hb
  full-IsSorted _ b ha hb = hb

  full_fields-IsSorted :
      (a b : Fields) → IsSortedFields a → IsSortedFields b → IsSortedFields (full_merge_fields a b)
  full_fields-IsSorted a end ha hb = ha
  full_fields-IsSorted a (field k v b) ha hb =
      full_fields-IsSorted (insert k (full_merge_value (or_null (lookup k a)) v) a) b
        (insert-IsSorted k _ a
          (full-IsSorted (or_null (lookup k a)) v (or_null-IsSorted k a ha) hb.0) ha)
        hb.1

replace-IsSorted : (a b : Value) → IsSorted a → IsSorted b → IsSorted (replace_value a b)
unfolding replace_value
replace-IsSorted (object a) (object b) ha hb = extend-IsSorted a b ha hb
replace-IsSorted _ _ ha hb = hb

-- Every strategy keeps the keys of objects in order.
pub merge_value-IsSorted :
    (jp : JsonPatch) (a b : Value) (how : Merge)
    → IsSorted a
    → IsSorted b
    → IsSorted (merge_value jp a b how)
unfolding merge_value
merge_value-IsSorted jp a b replace ha hb = replace-IsSorted a b ha hb
merge_value-IsSorted jp a b partial ha hb = jp.merge-IsSorted a b ha hb
merge_value-IsSorted jp a b full ha hb = full-IsSorted a b ha hb
