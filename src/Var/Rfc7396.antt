-- ===== src/Var/Rfc7396.antt =====
-- RFC 7396 as a function, to show that what src/var.rs relies on of the crate json-patch can hold.
use detc.Base.{
  ◌≡◌, refl, true, false, Option, none, some, Text, text_eq, text_eq_iff, if◌then◌else◌, arith,
}
use detc.Value.{
  Value, null, Fields, object, end, field, lookup, insert, remove, member, or_null, is_object,
  is_null,
}
use detc.Value.Laws.{lookup-insert, lookup-remove}
use detc.Value.Order.{IsSorted, IsSortedFields, lookup-Above, insert-IsSorted, remove-IsSorted}
use detc.Var.Merging.{JsonPatch, patched}
use detc.Var.Merging.Laws.{or_null-IsSorted}

fields_of : Value → Fields
fields_of (object m) = m
fields_of _ = end

write_member : Text → Value → Value → Fields → Fields
unfolding insert remove
write_member k null w m = remove k m
write_member k _ w m = insert k w m

mutual
  pub merge_patch : Value → Value → Value
  merge_patch a (object b) = object (merge_members (fields_of a) b)
  merge_patch a b = b

  merge_members : Fields → Fields → Fields
  merge_members a end = a
  merge_members a (field k v b) =
      merge_members (write_member k v (merge_patch (or_null (lookup k a)) v) a) b

lookup-write_member :
    (k j : Text) (v w : Value) (m : Fields)
    → lookup j (write_member k v w m)
      ≡ (if text_eq k j then (if is_null v then none else some w) else lookup j m)
unfolding write_member
lookup-write_member k j null w m = unfold lookup in lookup-remove k j m
lookup-write_member k j (object n) w m = unfold lookup in lookup-insert k j w m
lookup-write_member k j _ w m = unfold lookup in lookup-insert k j w m

patched-some :
    (f : Value → Value → Value) (old : Option Value) (v : Value)
    → patched f old (some v) ≡ (if is_null v then none else some (f (or_null old) v))
patched-some f old null = refl
patched-some f old (object m) = refl
patched-some f old _ = refl

lookup-merge_members :
    (k : Text) (a b : Fields)
    → IsSortedFields b
    → lookup k (merge_members a b) ≡ patched merge_patch (lookup k a) (lookup k b)
unfolding merge_patch lookup
lookup-merge_members k a end s = refl
lookup-merge_members k a (field j v b) s =
    let w = merge_patch (or_null (lookup j a)) v in
    ground (
      arith,
      lookup-merge_members k (write_member j v w a) b s.1,
      lookup-write_member j k v w a,
      text_eq_iff j k,
      lookup-Above j b s.2,
      patched-some merge_patch (lookup j a) v,
    )

fields_of-IsSorted : (a : Value) → IsSorted a → IsSortedFields (fields_of a)
unfolding fields_of
fields_of-IsSorted (object m) s = s
fields_of-IsSorted null s = tt
fields_of-IsSorted _ s = tt

write_member-IsSorted :
    (k : Text) (v w : Value) (m : Fields)
    → IsSorted w
    → IsSortedFields m
    → IsSortedFields (write_member k v w m)
unfolding write_member
write_member-IsSorted k null w m sw s = remove-IsSorted k m s
write_member-IsSorted k (object n) w m sw s = insert-IsSorted k w m sw s
write_member-IsSorted k _ w m sw s = insert-IsSorted k w m sw s

mutual
  unfolding merge_patch

  pub merge_patch-IsSorted : (a b : Value) → IsSorted a → IsSorted b → IsSorted (merge_patch a b)
  merge_patch-IsSorted a (object b) ha hb =
      merge_members-IsSorted (fields_of a) b (fields_of-IsSorted a ha) hb
  merge_patch-IsSorted a null ha hb = hb
  merge_patch-IsSorted a _ ha hb = hb

  merge_members-IsSorted :
      (a b : Fields) → IsSortedFields a → IsSortedFields b → IsSortedFields (merge_members a b)
  merge_members-IsSorted a end ha hb = ha
  merge_members-IsSorted a (field k v b) ha hb =
      merge_members-IsSorted (write_member k v (merge_patch (or_null (lookup k a)) v) a) b
        (write_member-IsSorted k v (merge_patch (or_null (lookup k a)) v) a
          (merge_patch-IsSorted (or_null (lookup k a)) v (or_null-IsSorted k a ha) hb.0) ha)
        hb.1

member-fields_of : (k : Text) (a : Value) → member k a ≡ lookup k (fields_of a)
unfolding member fields_of
member-fields_of k (object m) = refl
member-fields_of k null = refl
member-fields_of k _ = refl

pub merge_patch_other : (a b : Value) → is_object b ≡ false → merge_patch a b ≡ b
unfolding merge_patch
merge_patch_other a (object m) h = cc
merge_patch_other a null h = refl
merge_patch_other a _ h = refl

pub merge_patch_object : (a b : Value) → is_object b ≡ true → is_object (merge_patch a b) ≡ true
unfolding merge_patch
merge_patch_object a (object m) h = refl
merge_patch_object a null h = h
merge_patch_object a _ h = h

pub member-merge_patch :
    (a b : Value) (k : Text)
    → is_object b ≡ true
    → IsSorted b
    → member k (merge_patch a b) ≡ patched merge_patch (member k a) (member k b)
unfolding merge_patch
member-merge_patch a (object b) k h s =
    rw (member-fields_of k a) (unfold member in lookup-merge_members k (fields_of a) b s)
member-merge_patch a null k h s = cc
member-merge_patch a _ k h s = cc

unfoldable pub rfc7396 : JsonPatch
unfolding merge_patch write_member fields_of lookup insert remove
rfc7396 = record {
  merge = merge_patch;
  merge_not_object = merge_patch_other;
  merge_is_object = merge_patch_object;
  member-merge = member-merge_patch;
  merge-IsSorted = merge_patch-IsSorted;
}
