-- ===== src/Value/Equality.antt =====
-- `PartialEq` of serde_json's `Value`: equality of documents, member by member.
use detc.Base.{◌≡◌, refl, Bool, true, false, ◌&&◌, text_eq, text_eq_iff, arith, &&-eq-true}
use detc.Value.{
  Value, Items, Fields, null, bool, number, string, array, object, nil, cons, end, field,
}

abbrev bool_eq : Bool → Bool → Bool
bool_eq true b = b
bool_eq false true = false
bool_eq false false = true

unfoldable mutual
  pub value_eq : Value → Value → Bool
  value_eq null null = true
  value_eq (bool a) (bool b) = bool_eq a b
  value_eq (number a) (number b) = text_eq a b
  value_eq (string a) (string b) = text_eq a b
  value_eq (array a) (array b) = items_eq a b
  value_eq (object a) (object b) = fields_eq a b
  value_eq _ _ = false

  pub items_eq : Items → Items → Bool
  items_eq nil nil = true
  items_eq (cons a as') (cons b bs) = value_eq a b && items_eq as' bs
  items_eq _ _ = false

  pub fields_eq : Fields → Fields → Bool
  fields_eq end end = true
  fields_eq (field k a as') (field j b bs) = text_eq k j && value_eq a b && fields_eq as' bs
  fields_eq _ _ = false

mutual
  unfolding value_eq

  value_eq_sound : (a b : Value) → value_eq a b ≡ true → a ≡ b
  value_eq_sound null null h = refl
  value_eq_sound (bool a) (bool b) h = ground arith
  value_eq_sound (number a) (number b) h = ground (arith, text_eq_iff a b)
  value_eq_sound (string a) (string b) h = ground (arith, text_eq_iff a b)
  value_eq_sound (array a) (array b) h = ground (arith, items_eq_sound a b)
  value_eq_sound (object a) (object b) h = ground (arith, fields_eq_sound a b)
  value_eq_sound _ _ h = cc

  items_eq_sound : (a b : Items) → items_eq a b ≡ true → a ≡ b
  items_eq_sound nil nil h = refl
  items_eq_sound (cons a as') (cons b bs) h =
      ground (arith, value_eq_sound a b, items_eq_sound as' bs)
  items_eq_sound _ _ h = cc

  fields_eq_sound : (a b : Fields) → fields_eq a b ≡ true → a ≡ b
  fields_eq_sound end end h = refl
  fields_eq_sound (field k a as') (field j b bs) h =
      let (first, rest) = &&-eq-true (text_eq k j && value_eq a b) (fields_eq as' bs) h in
      let (keys, values) = &&-eq-true (text_eq k j) (value_eq a b) first in
      cc ((text_eq_iff k j).0 keys, value_eq_sound a b values, fields_eq_sound as' bs rest)
  fields_eq_sound _ _ h = cc

pub value_eq-eq : (a b : Value) → value_eq a b ≡ true → a ≡ b
value_eq-eq = value_eq_sound
