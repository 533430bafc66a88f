-- ===== src/Archive/Name.antt =====
-- The names that an archive may hold, `check` of src/tar.rs.
pub mod Plain
use detc.Base.{
  ℕ, Bool, true, false, ◌||◌, List, [], ◌∷◌, Result, ok, err, ◌>>◌, refuse_if, Text, codes, text_eq,
  split, contains, ends_with, is_empty, ◌==◌, if◌then◌else◌,
}

pub data Refusal : Type 0 where
  no_name nul_in_name absolute_path names_a_directory climbs_out not_plain : Refusal

abbrev pub slash : ℕ
slash = b'/'

abbrev pub starts_with : ℕ → Text → Bool
starts_with b [] = false
starts_with b (c ∷ cs) = c == b

-- The loop over the components.
unfoldable pub check_components : List Text → Result Refusal (Unit {0})
check_components [] = ok tt
check_components (c ∷ cs) =
    if text_eq c (codes "..")
    then err climbs_out
    else if is_empty c || text_eq c (codes ".")
    then err not_plain
    else check_components cs

unfoldable pub check : Text → Result Refusal (Unit {0})
unfolding check_components split
check name = do
  refuse_if (is_empty name) no_name
  refuse_if (contains 0 name) nul_in_name
  refuse_if (starts_with slash name) absolute_path
  refuse_if (ends_with slash name) names_a_directory
  check_components (split slash name)
