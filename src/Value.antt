-- ===== src/Value.antt =====
-- The documents that src/var.rs works on: serde_json's `Value`, whose objects are a `BTreeMap` from
-- texts (the crate's `preserve_order` is off), so their keys are kept in order. A number is the text
-- that it is written with, since the program never computes with one.
pub mod Laws
pub mod Order
pub mod Equality
use detc.Base.{
  ℕ, zero, suc, Bool, true, false, Option, none, some, Text, text_eq, text_lt, if◌then◌else◌,
}

mutual
  pub data Value : Type 0 where
    null : Value
    bool : Bool → Value
    number : Text → Value
    string : Text → Value
    array : Items → Value
    object : Fields → Value

  pub data Items : Type 0 where
    nil : Items
    cons : Value → Items → Items

  pub data Fields : Type 0 where
    end : Fields
    field : Text → Value → Fields → Fields

abbrev pub is_object : Value → Bool
is_object (object m) = true
is_object _ = false

abbrev pub is_null : Value → Bool
is_null null = true
is_null _ = false

-- `Vec::extend`
unfoldable pub append : Items → Items → Items
append nil ys = ys
append (cons x xs) ys = cons x (append xs ys)

-- `Vec::get`
unfoldable pub nth : Items → ℕ → Option Value
nth nil i = none
nth (cons x xs) zero = some x
nth (cons x xs) (suc i) = nth xs i

-- `BTreeMap::get`
unfoldable pub lookup : Text → Fields → Option Value
lookup k end = none
lookup k (field j v m) = if text_eq j k then some v else lookup k m

-- `BTreeMap::insert`: a key that is there keeps its place, and another goes before the first
-- greater one.
unfoldable pub insert : Text → Value → Fields → Fields
insert k v end = field k v end
insert k v (field j w m) =
    if text_eq j k
    then field k v m
    else if text_lt k j
    then field k v (field j w m)
    else field j w (insert k v m)

-- `BTreeMap::remove`
unfoldable pub remove : Text → Fields → Fields
remove k end = end
remove k (field j w m) = let rest = remove k m in if text_eq j k then rest else field j w rest

-- `Value::get` with a text: what is no object has no members.
unfoldable pub member : Text → Value → Option Value
unfolding lookup
member k (object m) = lookup k m
member k _ = none

-- `.or_insert(Value::Null)`
abbrev pub or_null : Option Value → Value
or_null none = null
or_null (some v) = v

-- `.or_insert_with(|| Value::Object(Default::default()))`
abbrev pub or_empty : Option Value → Value
or_empty none = object end
or_empty (some v) = v
