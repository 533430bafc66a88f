-- ===== src/Resource.antt =====
-- The declaration of one piece of state, `Resource` of src/resource.rs.
pub mod Keys
pub mod Listing
pub mod Tests
use detc.Base.{
  ◌≡◌, refl, Bool, true, false, not, Option, none, some, List, [], ◌∷◌, ◌++◌, Result, ok, err,
  ◌>>=◌, Text, codes, is_empty, ℤ, if◌then◌else◌,
}
use detc.Base.Trim.{trim}
use detc.Value.{
  Value, Items, Fields, null, bool, number, string, array, object, nil, cons, end, lookup, remove,
  is_null,
}
use detc.Provider.Number.{Numbers}
use detc.Provider.Schema.{Schema, order_of}

pub record Resource : Type 0 where
  pub kind : Text
  pub name : Text
  pub source : Text

-- `Resource::id`
abbrev pub resource_id : Resource → Text
resource_id r = r.kind ++ (codes "/" ++ r.name)

abbrev pub order_key : Text
order_key = codes "_order"

abbrev pub requires_key : Text
requires_key = codes "_requires"

pub record Declaration : Type 0 where
  pub state : Fields
  pub order : Option ℤ
  pub requires : List Text
  pub empty : Bool

pub data Error : Type 0 where
  cannot_render cannot_parse : Text → Error
  not_an_object : Text → Error
  order_not_whole names_no_object requires_not_a_list : Text → Value → Error

-- One entry of the requirements.
unfoldable pub required_id : Text → Value → Result Error Text
unfolding trim
required_id id (string t) =
    if is_empty (trim t) then err (names_no_object id (string t)) else ok (trim t)
required_id id other = err (names_no_object id other)

unfoldable pub required_ids : Text → Items → Result Error (List Text)
unfolding required_id
required_ids id nil = ok []
required_ids id (cons v vs) = required_id id v >>= λ t. required_ids id vs >>= λ ts. ok (t ∷ ts)

-- The match on the requirements.
unfoldable pub requires_in : Text → Option Value → Result Error (List Text)
unfolding required_ids
requires_in id none = ok []
requires_in id (some null) = ok []
requires_in id (some (array entries)) = required_ids id entries
requires_in id (some other) = err (requires_not_a_list id other)

module _ (numbers : Numbers) where
  -- The match on the order.
  unfoldable pub order_in : Text → Option Value → Result Error (Option ℤ)
  order_in id (some (number n)) = elim (numbers.as_i64 n) [
    | some i ↦ ok (some i)
    | none ↦ err (order_not_whole id (number n))
  ]
  order_in id none = ok none
  order_in id (some null) = ok none
  order_in id (some other) = err (order_not_whole id other)

  -- A document that is an object, taken apart.
  unfoldable pub taken_apart : Text → Bool → Fields → Result Error Declaration
  unfolding order_in requires_in lookup remove
  taken_apart id empty m = do
    order ← order_in id (lookup order_key m)
    requires ← requires_in id (lookup requires_key (remove order_key m))
    ok (record {
      state = remove requires_key (remove order_key m);
      order = order;
      requires = requires;
      empty = empty;
    })

  unfoldable pub declared_value : Text → Value → Result Error Declaration
  unfolding taken_apart
  declared_value id null = taken_apart id true Fields.end
  declared_value id (object m) = taken_apart id false m
  declared_value id other = err (not_an_object id)

  -- `Resource::declaration`: `rendered` is the expanded document, and `parse` reads one.
  unfoldable pub declaration :
      (Text → Result Error Value) → Text → Result Error Text → Result Error Declaration
  unfolding declared_value trim
  declaration parse id rendered = rendered >>= λ document.
      (if is_empty (trim document) then ok null else parse document) >>= λ value.
      declared_value id value

-- `Resource::order`
abbrev pub order_or : Declaration → Schema → ℤ
order_or d schema = elim d.order [ some n ↦ n | none ↦ order_of schema ]
