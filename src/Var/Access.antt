-- ===== src/Var/Access.antt =====
-- Reading and writing a value by its dotted key, src/var.rs.
pub mod RoundTrip
pub mod Failure
pub mod Apart
pub mod DropIn
use detc.Base.{
  ℕ, Bool, true, false, Option, none, some, List, [], ◌∷◌, ◌++◌, Result, ok, err, Text, split, any,
  find, is_empty, parse_usize, if◌then◌else◌,
}
use detc.Value.{
  Value, Fields, null, bool, number, string, array, object, end, field, nth, insert, member,
}
use detc.Var.Strategy.{
  Error, not_present, empty_component, index_component, only_a_whole_list, parent_not_an_object,
}
use detc.Var.Subtree.{Action, at_subtree}

-- The match in the loop of `get_value`.
unfoldable pub component : Text → Value → Option Value
unfolding nth member parse_usize
component c (array xs) = elim (parse_usize c) [ none ↦ none | some i ↦ nth xs i ]
component c v = member c v

unfoldable pub get_at : List Text → Value → Option Value
unfolding component
get_at [] v = some v
get_at (c ∷ cs) v = elim (component c v) [ none ↦ none | some w ↦ get_at cs w ]

unfoldable pub get_value : Text → Value → Result Error Value
unfolding get_at split
get_value key v = elim (get_at (split b'.' key) v) [ none ↦ err (not_present key) | some w ↦ ok w ]

abbrev pub is_index : Text → Bool
is_index c = elim (parse_usize c) [ none ↦ false | some i ↦ true ]

abbrev prepend : Text → Option (List Text × Text) → Option (List Text × Text)
prepend c none = none
prepend c (some (parents, name)) = some (c ∷ parents, name)

-- `[T]::split_last`
unfoldable pub split_last : List Text → Option (List Text × Text)
split_last [] = none
split_last (c ∷ []) = some ([], c)
split_last (c ∷ d ∷ cs) = prepend c (split_last (d ∷ cs))

-- The match at the end of `set_value`.
put_member : Text → Text → Value → Action
unfolding insert
put_member key name v (object m) = (ok tt, object (insert name v m))
put_member key name v (array xs) = (err (only_a_whole_list key), array xs)
put_member key name v other = (err (parent_not_an_object key), other)

-- `split` always yields a component, which is the `expect` of the source.
set_components : Text → Option (List Text × Text) → Value → Action
unfolding put_member at_subtree
set_components key none v ns = (err (empty_component key), ns)
set_components key (some (parents, name)) v ns = at_subtree (put_member key name v) parents ns

set_checked : Text → List Text → Option Text → Value → Action
unfolding set_components split_last
set_checked key components (some index) v ns = (err (index_component key index), ns)
set_checked key components none v ns = set_components key (split_last components) v ns

unfoldable pub set_value : Text → Value → Action
unfolding set_checked split parse_usize
set_value key v ns =
    let components = split b'.' key in
    if any is_empty components
    then (err (empty_component key), ns)
    else set_checked key components (find is_index components) v ns

-- `nest`
unfoldable pub nest : List Text → Value → Value
nest [] v = v
nest (k ∷ ks) v = object (field k (nest ks v) end)
