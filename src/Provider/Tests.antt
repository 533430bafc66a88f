-- ===== src/Provider/Tests.antt =====
-- A schema, and the theorems about src/provider.rs at concrete inputs. The numbers are texts of digits.
use detc.Base.{
  ◌≡◌, refl, true, false, some, none, [], ◌∷◌, ◌++◌, ok, err, codes, text_eq, text_lt, pos,
}
use detc.Value.{Value, Fields, bool, number, string, object, end, field}
use detc.Value.Order.{IsSorted}
use detc.Provider.Number.{Numbers, parse_i64}
use detc.Base.Trim.{trim}
use detc.Provider.Kind.{a_boolean, an_integer, a_string, kind_of, coerce}
use detc.Provider.Schema.{unknown_property, Property, Schema, schema_of, validate, read}
use detc.Provider.Schema.Reading.{IsSound, read-validate}
use detc.Provider.Schema.Sound.{schema_of-IsSound}

-- Every number is written as one digit, for the tests.
abbrev digit_numbers : Numbers
digit_numbers = record {
  is_whole = λ t. true;
  as_i64 = λ t. some (pos 7);
  from_i64 = λ n. codes "7";
  from_decimal = λ t. none;
  from_i64-is_whole = λ n. refl;
}

trim_spaces : trim (9 ∷ 32 ∷ 226 ∷ 128 ∷ 137 ∷ (codes "a b" ++ (194 ∷ 160 ∷ 10 ∷ []))) ≡ codes "a b"
unfolding trim
trim_spaces = refl

parse-i64_max : parse_i64 (codes "9223372036854775807") ≡ some (pos 9223372036854775807)
unfolding parse_i64
parse-i64_max = refl

parse-i64_above : parse_i64 (codes "9223372036854775808") ≡ none
unfolding parse_i64
parse-i64_above = refl

coerce-seven : coerce digit_numbers an_integer (string (codes " 7\n")) ≡ ok (number (codes "7"))
unfolding coerce
coerce-seven = refl

kind_of-boolean : kind_of (codes "boolean") ≡ ok a_boolean
unfolding kind_of text_eq
kind_of-boolean = refl

-- {"properties": {"enabled": {"type": "boolean", "default": "yes"}, "name": {"type": "string", "required": true}}}
abbrev document : Value
document = object (
    field (codes "properties")
      (object (
        field (codes "enabled")
          (object (
            field (codes "default") (string (codes "yes"))
              (field (codes "type") (string (codes "boolean")) end)))
          (field (codes "name")
            (object (
              field (codes "required") (bool true)
                (field (codes "type") (string (codes "string")) end)))
            end)))
      end)

abbrev name_property : Property
name_property = record { kind = a_string; description = none; default = none; required = true }

abbrev unit_schema : Schema
unit_schema = record {
  description = none;
  order = none;
  properties =
      (
        codes "enabled",
        record {
          kind = a_boolean;
          description = none;
          default = some (bool true);
          required = false;
        },
      )
      ∷ (codes "name", name_property)
      ∷ [];
}

schema_of-document : schema_of digit_numbers document ≡ ok unit_schema
unfolding schema_of text_eq
schema_of-document = refl

document-IsSorted : IsSorted document
unfolding text_lt
document-IsSorted =
    (((tt, (tt, tt, tt), (refl, tt)), ((tt, (tt, tt, tt), (refl, tt)), tt, tt), (refl, tt)), tt, tt)

schema_of-IsSound_example : IsSound digit_numbers unit_schema.properties
schema_of-IsSound_example =
    schema_of-IsSound digit_numbers document unit_schema document-IsSorted schema_of-document

abbrev accepted : Fields
accepted = field (codes "enabled") (bool true) (field (codes "name") (string (codes "7")) end)

validate-accepted :
    validate digit_numbers unit_schema (field (codes "name") (number (codes "7")) end) ≡ ok accepted
unfolding validate text_eq text_lt
validate-accepted = refl

validate-unknown :
    validate digit_numbers unit_schema (field (codes "size") (number (codes "7")) end)
    ≡ err (unknown_property (codes "size"))
unfolding validate text_eq text_lt
validate-unknown = refl

read-validate_example : read digit_numbers unit_schema accepted ≡ accepted
read-validate_example =
    read-validate digit_numbers unit_schema (field (codes "name") (number (codes "7")) end) accepted
      schema_of-IsSound_example validate-accepted
