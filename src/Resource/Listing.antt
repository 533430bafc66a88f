-- ===== src/Resource/Listing.antt =====
-- The resources that the ladder declares, `Resources` and `split_id` of src/resource.rs, and
-- `strip_extension` of src/var.rs.
pub mod Found
use detc.Base.{
  Bool, true, false, not, ◌||◌, Option, none, some, List, [], ◌∷◌, Result, ok, err, ◌>>=◌, Text,
  codes, text_eq, text_lt, join, is_empty, find, any, ◌==◌, ℕ, if◌then◌else◌,
}
use detc.Ladder.{FilePath}
use detc.Resource.{Resource, resource_id}

-- `str::rsplit_once` at one byte
unfoldable pub rsplit_once : ℕ → Text → Option (Text × Text)
rsplit_once sep [] = none
rsplit_once sep (c ∷ cs) = elim (rsplit_once sep cs) [
  | some (stem, rest) ↦ some (c ∷ stem, rest)
  | none ↦ if c == sep then some ([], cs) else none
]

abbrev pub name_extensions : List Text
name_extensions = codes "yaml" ∷ codes "yml" ∷ codes "json" ∷ codes "toml" ∷ []

unfoldable pub strip_extension : Text → Text
unfolding rsplit_once
strip_extension name = elim (rsplit_once b'.' name) [
  | none ↦ name
  | some (stem, extension) ↦ if any (text_eq extension) name_extensions then stem else name
]

-- A key is its components.
unfoldable pub split_id : FilePath → Option (Text × Text)
unfolding strip_extension join
split_id [] = none
split_id (kind ∷ []) = none
split_id (kind ∷ c ∷ cs) = some (kind, strip_extension (join b'/' (c ∷ cs)))

pub data ListingError : Type 0 where
  cannot_list : Text → ListingError
  no_type : Text → ListingError
  declared_twice : Text → Text → Text → ListingError
  no_resource : Text → ListingError

-- The loop of `from_system`, over what `entries` answers.
unfoldable pub declared_at : List (FilePath × Text) → Result ListingError (List Resource)
unfolding split_id
declared_at [] = ok []
declared_at (([], source) ∷ rest) = declared_at rest
declared_at ((c ∷ cs, source) ∷ rest) = elim (split_id (c ∷ cs)) [
  | none ↦ err (no_type source)
  | some (kind, name) ↦
      declared_at rest >>= λ rs. ok (record { kind = kind; name = name; source = source } ∷ rs)
]

-- `(&a.kind, &a.name).cmp(...)`
abbrev pub listed_before : Resource → Resource → Bool
listed_before a b =
    if text_lt a.kind b.kind
    then true
    else if text_lt b.kind a.kind
    then false
    else text_lt a.name b.name

-- `sort_by`, which is stable.
unfoldable pub place_resource : Resource → List Resource → List Resource
place_resource r [] = r ∷ []
place_resource r (s ∷ ss) = if listed_before s r then s ∷ place_resource r ss else r ∷ s ∷ ss

unfoldable pub sort_resources : List Resource → List Resource
unfolding place_resource
sort_resources [] = []
sort_resources (r ∷ rs) = place_resource r (sort_resources rs)

-- `windows(2).find(...)`
unfoldable pub duplicate : List Resource → Option (Resource × Resource)
duplicate [] = none
duplicate (r ∷ []) = none
duplicate (r ∷ s ∷ ss) =
    let later = duplicate (s ∷ ss) in
    if text_eq (resource_id r) (resource_id s) then some (r, s) else later

abbrev unique : List Resource → Result ListingError (List Resource)
unfolding duplicate
unique rs = elim (duplicate rs) [
  | none ↦ ok rs
  | some (a, b) ↦ err (declared_twice (resource_id a) a.source b.source)
]

-- `Resources::from_system`
unfoldable pub from_entries :
    Result Text (List (FilePath × Text)) → Result ListingError (List Resource)
unfolding declared_at sort_resources unique
from_entries (err e) = err (cannot_list e)
from_entries (ok entries) = declared_at entries >>= λ rs. unique (sort_resources rs)

-- `Resources::masked`
unfoldable pub masked_ids : List (FilePath × Text) → List (Text × Text)
unfolding split_id
masked_ids [] = []
masked_ids ((key, mask) ∷ rest) = elim (split_id key) [
  | none ↦ masked_ids rest
  | some (kind, name) ↦
      (resource_id (record { kind = kind; name = name; source = mask }), mask) ∷ masked_ids rest
]

-- `Resources::get`
unfoldable pub get_resource : Text → List Resource → Option Resource
unfolding strip_extension
get_resource id rs = find (λ r. text_eq (resource_id r) (strip_extension id)) rs

-- `Resources::find`
unfoldable pub find_resource : Text → List Resource → Result ListingError Resource
unfolding get_resource strip_extension
find_resource id rs = elim (get_resource id rs) [
  | some r ↦ ok r
  | none ↦ err (no_resource (strip_extension id))
]
