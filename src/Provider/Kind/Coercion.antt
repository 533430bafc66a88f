-- ===== src/Provider/Kind/Coercion.antt =====
-- What `coerce` of src/provider.rs makes of a value.
use detc.Base.{
  ◌≡◌, refl, sym, Bool, true, false, ok, Text, codes, text_eq, text_eq_iff, arith, Option-cases,
  inl, inr,
}
use detc.Value.{Value, bool, number, string, array, object}
use detc.Provider.Number.{Numbers, parse_i64}
use detc.Base.Trim.{trim}
use detc.Provider.Kind.{
  Kind, a_string, a_boolean, an_integer, a_number, an_array, an_object, kind_name, kind_of, coerce,
  coerce_boolean, coerce_integer, coerce_number,
}

module _ (numbers : Numbers) where
  -- A value that is of a type already.
  abbrev pub has_kind : Kind → Value → Bool
  has_kind a_string (string t) = true
  has_kind a_boolean (bool b) = true
  has_kind an_integer (number n) = numbers.is_whole n
  has_kind a_number (number n) = true
  has_kind an_array (array xs) = true
  has_kind an_object (object m) = true
  has_kind _ _ = false

  -- A value that is of the type already is returned as it is.
  pub has_kind-coerce : (k : Kind) (v : Value) → has_kind k v ≡ true → coerce numbers k v ≡ ok v
  unfolding coerce
  has_kind-coerce a_string (string t) h = refl
  has_kind-coerce a_boolean (bool b) h = refl
  has_kind-coerce an_integer (number n) h = rw h refl
  has_kind-coerce a_number (number n) h = refl
  has_kind-coerce an_array (array xs) h = refl
  has_kind-coerce an_object (object m) h = refl
  has_kind-coerce _ _ h = ground (arith, h)

  coerce_boolean-has_kind :
      (t : Text) (w : Value) → coerce_boolean t ≡ ok w → has_kind a_boolean w ≡ true
  unfolding coerce_boolean
  coerce_boolean-has_kind t w h = ground (arith, h)

  coerce_integer-has_kind :
      (t : Text) (w : Value) → coerce_integer numbers t ≡ ok w → has_kind an_integer w ≡ true
  unfolding coerce_integer
  coerce_integer-has_kind t w h = elim (Option-cases (parse_i64 (trim t))) [
    | inl e ↦ ground (arith, rw (e, coerce_integer) at h)
    | inr (n, e) ↦ ground (arith, rw (e, coerce_integer) at h, numbers.from_i64-is_whole n)
  ]

  coerce_number-has_kind :
      (t : Text) (w : Value) → coerce_number numbers t ≡ ok w → has_kind a_number w ≡ true
  unfolding coerce_number
  coerce_number-has_kind t w h = ground (arith, h)

  -- What `coerce` returns for a type is of that type.
  pub coerce-has_kind : (k : Kind) (v w : Value) → coerce numbers k v ≡ ok w → has_kind k w ≡ true
  unfolding coerce
  coerce-has_kind a_boolean (string t) w h = coerce_boolean-has_kind t w h
  coerce-has_kind an_integer (string t) w h = coerce_integer-has_kind t w h
  coerce-has_kind a_number (string t) w h = coerce_number-has_kind t w h
  coerce-has_kind _ _ w h = ground (arith, h)

  -- What `coerce` returned is returned as it is when it is coerced to the same type again.
  pub coerce_twice :
      (k : Kind) (v w : Value) → coerce numbers k v ≡ ok w → coerce numbers k w ≡ ok w
  coerce_twice k v w h = has_kind-coerce k w (coerce-has_kind k v w h)

pub kind_of-kind_name : (k : Kind) → kind_of (kind_name k) ≡ ok k
unfolding kind_of kind_name text_eq
kind_of-kind_name a_string = refl
kind_of-kind_name a_boolean = refl
kind_of-kind_name an_integer = refl
kind_of-kind_name a_number = refl
kind_of-kind_name an_array = refl
kind_of-kind_name an_object = refl

-- A name that is read as a type is the name that the type is displayed as.
pub kind_name-kind_of : (t : Text) (k : Kind) → kind_of t ≡ ok k → kind_name k ≡ t
unfolding kind_of kind_name
kind_name-kind_of t a_string h = sym ((text_eq_iff t (codes "string")).0 (ground (arith, h)))
kind_name-kind_of t a_boolean h = sym ((text_eq_iff t (codes "boolean")).0 (ground (arith, h)))
kind_name-kind_of t an_integer h = sym ((text_eq_iff t (codes "integer")).0 (ground (arith, h)))
kind_name-kind_of t a_number h = sym ((text_eq_iff t (codes "number")).0 (ground (arith, h)))
kind_name-kind_of t an_array h = sym ((text_eq_iff t (codes "array")).0 (ground (arith, h)))
kind_name-kind_of t an_object h = sym ((text_eq_iff t (codes "object")).0 (ground (arith, h)))
