-- ===== src/Var/Strategy.antt =====
-- The merge strategies and the errors of src/var.rs.
use detc.Base.{Result, ok, err, Text, codes, text_eq, if◌then◌else◌}
use detc.Value.{Value}

pub data Merge : Type 0 where
  replace partial full : Merge

-- What the functions of the file refuse, with what the message names.
pub data Error : Type 0 where
  unknown_strategy : Text → Error
  not_a_strategy_name : Value → Error
  not_a_mapping : Value → Error
  not_an_object : Text → Error
  not_present : Text → Error
  empty_component : Text → Error
  index_component : Text → Text → Error
  only_a_whole_list : Text → Error
  parent_not_an_object : Text → Error
  -- a document that could not be read or parsed, or a probe that failed
  unreadable : Error

abbrev pub default_merge : Merge
default_merge = partial

abbrev pub merge_key : Text
merge_key = codes "_merge"

unfoldable pub strategy_of : Text → Result Error Merge
strategy_of s =
    if text_eq s (codes "replace")
    then ok replace
    else if text_eq s (codes "partial")
    then ok partial
    else if text_eq s (codes "full")
    then ok full
    else err (unknown_strategy s)

unfoldable pub strategy_name : Merge → Text
strategy_name replace = codes "replace"
strategy_name partial = codes "partial"
strategy_name full = codes "full"
