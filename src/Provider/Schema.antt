-- ===== src/Provider/Schema.antt =====
-- What a provider accepts, `Property` and `Schema` of src/provider.rs.
pub mod Reading
pub mod Required
pub mod Sound
use detc.Base.{
  ℕ, Bool, true, false, not, ◌&&◌, Option, none, some, List, [], ◌∷◌, Result, ok, err, ◌>>=◌, ◌>>◌,
  refuse_if, Text, codes, text_eq, text_lt, ℤ, pos, if◌then◌else◌,
}
use detc.Value.{
  Value, Fields, null, bool, number, string, array, object, end, field, lookup, insert,
}
use detc.Provider.Number.{Numbers}
use detc.Provider.Kind.{Kind, Misread, kind_of, coerce}

pub data Error : Type 0 where
  property_not_an_object property_without_type : Text → Error
  type_not_a_name : Text → Value → Error
  unknown_type invalid_default : Text → Misread → Error
  schema_not_an_object : Error
  order_not_whole properties_not_an_object : Value → Error
  unknown_property required : Text → Error
  invalid_property : Text → Misread → Error

pub record Property : Type 0 where
  pub kind : Kind
  pub description : Option Text
  pub default : Option Value
  pub required : Bool

-- A `BTreeMap` of the properties, by name.
abbrev pub Properties : Type 0
Properties = List (Text × Property)

pub record Schema : Type 0 where
  pub description : Option Text
  pub order : Option ℤ
  pub properties : Properties

abbrev pub default_order : ℤ
default_order = pos 50

-- `Schema::order`
abbrev pub order_of : Schema → ℤ
order_of s = elim s.order [ none ↦ default_order | some n ↦ n ]

-- `Property::required`: a default answers for a property that has one.
abbrev pub is_required : Property → Bool
is_required p = elim p.default [ none ↦ p.required | some d ↦ false ]

-- `BTreeMap::get`
unfoldable pub find_property : Text → Properties → Option Property
find_property name [] = none
find_property name ((n, p) ∷ ps) = if text_eq n name then some p else find_property name ps

-- The error of one call as the error of another, `map_err`.
abbrev pub wrapped : {A : Type 0} {F : Type 0} → (F → Error) → Result F A → Result Error A
wrapped f (ok a) = ok a
wrapped f (err e) = err (f e)

abbrev text_of : Option Value → Option Text
text_of (some (string t)) = some t
text_of _ = none

abbrev is_true : Option Value → Bool
is_true (some (bool true)) = true
is_true _ = false

-- The match on the type of a property.
abbrev kind_in : Text → Option Value → Result Error Kind
kind_in name (some (string t)) = wrapped (unknown_type name) (kind_of t)
kind_in name none = err (property_without_type name)
kind_in name (some other) = err (type_not_a_name name other)

module _ (numbers : Numbers) where
  -- The match on the default of a property.
  default_in : Text → Kind → Option Value → Result Error (Option Value)
  unfolding coerce
  default_in name kind none = ok none
  default_in name kind (some v) =
      wrapped (invalid_default name) (coerce numbers kind v) >>= λ d. ok (some d)

  -- `Property::from_value`
  unfoldable pub property_of : Text → Value → Result Error Property
  unfolding default_in lookup kind_of
  property_of name (object m) = do
    kind ← kind_in name (lookup (codes "type") m)
    default ← default_in name kind (lookup (codes "default") m)
    ok (record {
      kind = kind;
      description = text_of (lookup (codes "description") m);
      default = default;
      required = is_true (lookup (codes "required") m);
    })
  property_of name _ = err (property_not_an_object name)

  unfoldable pub properties_of : Fields → Result Error Properties
  unfolding property_of
  properties_of end = ok []
  properties_of (field name v m) =
      property_of name v >>= λ p. properties_of m >>= λ ps. ok ((name, p) ∷ ps)

  -- The match on the order of a schema.
  abbrev order_in : Option Value → Result Error (Option ℤ)
  order_in (some (number n)) = elim (numbers.as_i64 n) [
    | none ↦ err (order_not_whole (number n))
    | some i ↦ ok (some i)
  ]
  order_in none = ok none
  order_in (some null) = ok none
  order_in (some other) = err (order_not_whole other)

  properties_in : Option Value → Result Error Properties
  unfolding properties_of
  properties_in (some (object m)) = properties_of m
  properties_in none = ok []
  properties_in (some other) = err (properties_not_an_object other)

  -- `Schema::from_value`
  unfoldable pub schema_of : Value → Result Error Schema
  unfolding properties_in lookup
  schema_of (object m) = do
    order ← order_in (lookup (codes "order") m)
    properties ← properties_in (lookup (codes "properties") m)
    ok (record {
      description = text_of (lookup (codes "description") m);
      order = order;
      properties = properties;
    })
  schema_of _ = err schema_not_an_object

  -- One round of the first loop of `validate`.
  coerced : Properties → Text → Value → Result Error Value
  unfolding find_property coerce
  coerced ps name v = elim (find_property name ps) [
    | none ↦ err (unknown_property name)
    | some p ↦ wrapped (invalid_property name) (coerce numbers p.kind v)
  ]

  unfoldable pub declared : Properties → Fields → Fields → Result Error Fields
  unfolding coerced insert
  declared ps end done = ok done
  declared ps (field name v rest) done =
      coerced ps name v >>= λ w. declared ps rest (insert name w done)

  -- What the second loop of `validate` does with a property that was not declared.
  abbrev completed : Text → Property → Fields → Result Error Fields
  completed name p done = elim p.default [
    | some d ↦ ok (insert name d done)
    | none ↦ if is_required p then err (required name) else ok done
  ]

  -- One round of it.
  filled : Text → Property → Fields → Result Error Fields
  unfolding lookup insert
  filled name p done = elim (lookup name done) [ some v ↦ ok done | none ↦ completed name p done ]

  unfoldable pub with_defaults : Properties → Fields → Result Error Fields
  unfolding filled
  with_defaults [] done = ok done
  with_defaults ((name, p) ∷ ps) done = filled name p done >>= λ next. with_defaults ps next

  unfoldable pub validate : Schema → Fields → Result Error Fields
  unfolding declared with_defaults
  validate s state = declared s.properties state end >>= λ done. with_defaults s.properties done

  -- The match in `read`.
  unfoldable pub read_value : Option Property → Value → Value
  unfolding coerce
  read_value none v = v
  read_value (some p) v = elim (coerce numbers p.kind v) [ ok w ↦ w | err e ↦ v ]

  unfoldable pub read_fields : Properties → Fields → Fields
  unfolding read_value find_property
  read_fields ps end = end
  read_fields ps (field name v m) =
      field name (read_value (find_property name ps) v) (read_fields ps m)

  -- `Schema::read`
  unfoldable pub read : Schema → Fields → Fields
  unfolding read_fields
  read s state = read_fields s.properties state
