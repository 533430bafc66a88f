-- ===== src/Var/Merging.antt =====
-- How a document is combined with a value, src/var.rs. The partial strategy is the `merge` of the
-- crate json-patch, an argument here, with RFC 7396 as what the program relies on.
pub mod Laws
use detc.Base.{
  ◌≡◌, Bool, true, false, not, Option, none, some, Result, ok, err, ◌>>=◌, Text, if◌then◌else◌,
}
use detc.Value.{
  Value, Items, Fields, null, bool, number, string, array, object, nil, cons, end, field, lookup,
  insert, remove, append, member, or_null, is_object, is_null,
}
use detc.Value.Order.{IsSorted}
use detc.Var.Strategy.{
  Merge, replace, partial, full, Error, not_a_strategy_name, not_a_mapping, merge_key, strategy_of,
}

-- What RFC 7396 makes of one member: `old` is the value there, and `new` is what the patch says.
abbrev pub patched : (Value → Value → Value) → Option Value → Option Value → Option Value
patched merge old none = old
patched merge old (some null) = none
patched merge old (some v) = some (merge (or_null old) v)

-- `json_patch::merge`. A patch that is no object is the result; one that is an object makes the
-- target an object and says of every member what becomes of it.
pub record JsonPatch : Type 0 where
  pub merge : Value → Value → Value
  pub merge_not_object : (a b : Value) → is_object b ≡ false → merge a b ≡ b
  pub merge_is_object : (a b : Value) → is_object b ≡ true → is_object (merge a b) ≡ true
  pub member-merge :
      (a b : Value) (k : Text)
      → is_object b ≡ true
      → IsSorted b
      → member k (merge a b) ≡ patched merge (member k a) (member k b)
  -- the keys of the `BTreeMap` that it writes are in order
  pub merge-IsSorted : (a b : Value) → IsSorted a → IsSorted b → IsSorted (merge a b)

-- `Map::extend`
unfoldable pub extend : Fields → Fields → Fields
unfolding insert
extend m end = m
extend m (field k v rest) = extend (insert k v m) rest

unfoldable pub replace_value : Value → Value → Value
unfolding extend
replace_value (object a) (object b) = object (extend a b)
replace_value a b = b

unfoldable mutual
  pub full_merge_value : Value → Value → Value
  full_merge_value (object a) (object b) = object (full_merge_fields a b)
  full_merge_value (array a) (array b) = array (append a b)
  full_merge_value a b = b

  -- the loop over the members of `b`
  pub full_merge_fields : Fields → Fields → Fields
  full_merge_fields a end = a
  full_merge_fields a (field k v b) =
      full_merge_fields (insert k (full_merge_value (or_null (lookup k a)) v) a) b

-- What `take_merge` makes of the value under the reserved key.
directive : Option Value → Result Error (Option Merge)
directive none = ok none
directive (some (string s)) = do m ← strategy_of s; ok (some m)
directive (some v) = err (not_a_strategy_name v)

-- `take_merge`: the strategy that the document declares, and the document without the directive.
unfoldable pub take_merge : Value → Result Error (Option Merge) × Value
unfolding lookup remove strategy_of directive
take_merge (object m) = (directive (lookup merge_key m), object (remove merge_key m))
take_merge v = (ok none, v)

unfoldable pub refuse_unless_mergeable_at_root : Value → Result Error (Unit {0})
refuse_unless_mergeable_at_root v =
    if is_null v then ok tt else if is_object v then ok tt else err (not_a_mapping v)

module _ (jp : JsonPatch) where
  unfoldable pub merge_value : Value → Value → Merge → Value
  unfolding replace_value full_merge_value
  merge_value a b replace = replace_value a b
  merge_value a b partial = jp.merge a b
  merge_value a b full = full_merge_value a b
