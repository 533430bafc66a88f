-- ===== src/Provider/Kind.antt =====
-- The types of the properties of a resource, `Type` of src/provider.rs.
pub mod Coercion
use detc.Base.{
  ℕ, Bool, true, false, ◌||◌, Option, none, some, Result, ok, err, Text, codes, text_eq,
  if◌then◌else◌,
}
use detc.Value.{Value, null, bool, number, string, array, object}
use detc.Provider.Number.{Numbers, parse_i64}
use detc.Base.Trim.{trim}

pub data Kind : Type 0 where
  a_string a_boolean an_integer a_number an_array an_object : Kind

pub data Misread : Type 0 where
  unknown_type : Text → Misread
  not_a_boolean not_an_integer not_a_number not_a_finite_number : Value → Misread
  not_of_kind : Value → Kind → Misread

-- `fmt::Display`
unfoldable pub kind_name : Kind → Text
kind_name a_string = codes "string"
kind_name a_boolean = codes "boolean"
kind_name an_integer = codes "integer"
kind_name a_number = codes "number"
kind_name an_array = codes "array"
kind_name an_object = codes "object"

-- `FromStr`
unfoldable pub kind_of : Text → Result Misread Kind
kind_of name =
    if text_eq name (codes "string")
    then ok a_string
    else if text_eq name (codes "boolean")
    then ok a_boolean
    else if text_eq name (codes "integer")
    then ok an_integer
    else if text_eq name (codes "number")
    then ok a_number
    else if text_eq name (codes "array")
    then ok an_array
    else if text_eq name (codes "object")
    then ok an_object
    else err (unknown_type name)

-- The words of a shell for a Boolean.
unfoldable pub boolean_of : Text → Option Bool
boolean_of t =
    if text_eq t (codes "true")
      || text_eq t (codes "yes")
      || text_eq t (codes "on")
      || text_eq t (codes "1")
    then some true
    else if text_eq t (codes "false")
        || text_eq t (codes "no")
        || text_eq t (codes "off")
        || text_eq t (codes "0")
    then some false
    else none

-- `Value::to_string` of a Boolean
abbrev pub bool_text : Bool → Text
bool_text true = codes "true"
bool_text false = codes "false"

coerce_boolean : Text → Result Misread Value
unfolding boolean_of
coerce_boolean t = elim (boolean_of t) [
  | none ↦ err (not_a_boolean (string t))
  | some b ↦ ok (bool b)
]

module _ (numbers : Numbers) where
  coerce_integer : Text → Result Misread Value
  unfolding trim parse_i64
  coerce_integer t = elim (parse_i64 (trim t)) [
    | none ↦ err (not_an_integer (string t))
    | some n ↦ ok (number (numbers.from_i64 n))
  ]

  coerce_number : Text → Result Misread Value
  unfolding trim
  coerce_number t = elim (numbers.from_decimal (trim t)) [
    | none ↦ err (not_a_number (string t))
    | some none ↦ err (not_a_finite_number (string t))
    | some (some n) ↦ ok (number n)
  ]

  unfoldable pub coerce : Kind → Value → Result Misread Value
  unfolding coerce_boolean coerce_integer coerce_number
  coerce a_string (string t) = ok (string t)
  coerce a_string (bool b) = ok (string (bool_text b))
  coerce a_string (number n) = ok (string n)
  coerce a_string v = err (not_of_kind v a_string)
  coerce a_boolean (bool b) = ok (bool b)
  coerce a_boolean (string t) = coerce_boolean t
  coerce a_boolean v = err (not_a_boolean v)
  coerce an_integer (number n) =
      if numbers.is_whole n then ok (number n) else err (not_an_integer (number n))
  coerce an_integer (string t) = coerce_integer t
  coerce an_integer v = err (not_an_integer v)
  coerce a_number (number n) = ok (number n)
  coerce a_number (string t) = coerce_number t
  coerce a_number v = err (not_a_number v)
  coerce an_array (array xs) = ok (array xs)
  coerce an_array v = err (not_of_kind v an_array)
  coerce an_object (object m) = ok (object m)
  coerce an_object v = err (not_of_kind v an_object)
