-- ===== src/Var/Dropins.antt =====
-- Where a variable that is set from the command line is kept, `Store` and the names of its drop-ins
-- in src/var.rs. A path is its text below the root.
use detc.Base.{
  ◌≡◌, refl, ap, Bool, true, false, ◌&&◌, Option, none, some, [], ◌∷◌, ◌++◌, Text, codes, text_eq,
  text_lt, is_digit, ◌==◌, if◌then◌else◌,
}

pub data Store : Type 0 where
  runtime persisted : Store

-- `Store::of`
unfoldable pub store_of : Bool → Store
store_of true = persisted
store_of false = runtime

-- `Store::dir`
unfoldable pub store_dir : Store → Text
store_dir runtime = codes "run/detc/variables/user.d"
store_dir persisted = codes "etc/detc/variables/user.d"

-- `Store::order`
unfoldable pub store_order : Store → Text
store_order runtime = codes "95"
store_order persisted = codes "90"

-- `str::replace` of the dots by dashes.
unfoldable pub dashed : Text → Text
dashed [] = []
dashed (c ∷ cs) = (if c == b'.' then b'-' else c) ∷ dashed cs

unfoldable pub dropin_name : Text → Store → Text
unfolding store_order dashed
dropin_name key store = store_order store ++ (b'-' ∷ (dashed key ++ codes ".json"))

-- Two digits and a dash, by which a name is already ordered.
abbrev ordered : Text → Bool
ordered (a ∷ b ∷ c ∷ rest) = is_digit a && (is_digit b && c == b'-')
ordered _ = false

-- `dropin_file_name`, of the name of the file, none where the path has none that is valid UTF-8.
unfoldable pub dropin_file_name : Option Text → Store → Option Text
unfolding store_order
dropin_file_name none store = none
dropin_file_name (some name) store =
    some (if ordered name then name else store_order store ++ (b'-' ∷ name))

unfoldable pub dropin_path : Text → Store → Text
unfolding store_dir dropin_name
dropin_path key store = store_dir store ++ (b'/' ∷ dropin_name key store)

unfoldable pub dropin_document_path : Option Text → Store → Option Text
unfolding store_dir dropin_file_name
dropin_document_path name store = elim (dropin_file_name name store) [
  | none ↦ none
  | some file ↦ some (store_dir store ++ (b'/' ∷ file))
]

dashed-dot : (a b : Text) → dashed (a ++ (b'.' ∷ b)) ≡ dashed (a ++ (b'-' ∷ b))
unfolding dashed
dashed-dot [] b = refl
dashed-dot (c ∷ a) b = ap (◌∷◌ (if c == b'.' then b'-' else c)) (dashed-dot a b)

-- A key with a dash in place of a dot is kept in the same drop-in, so that setting one of the two
-- replaces the other.
pub dropin_path-dot :
    (a b : Text) (store : Store)
    → dropin_path (a ++ (b'.' ∷ b)) store ≡ dropin_path (a ++ (b'-' ∷ b)) store
unfolding dropin_path dropin_name
dropin_path-dot a b store =
    ap (λ k. store_dir store ++ (b'/' ∷ (store_order store ++ (b'-' ∷ (k ++ codes ".json")))))
      (dashed-dot a b)

-- What is set for this boot is ordered behind what persists, whatever the keys.
pub persisted-lt-runtime :
    (k j : Text) → text_lt (dropin_name k persisted) (dropin_name j runtime) ≡ true
unfolding dropin_name text_lt text_eq
persisted-lt-runtime k j = refl
