-- ===== src/Bundle/Create.antt =====
-- Building a bundle out of a source tree, `create`, `collect` and `carries` of src/bundle.rs. A tree
-- is what the crate walkdir finds under the directory, with links followed.
use detc.Base.{
  ℕ, suc, true, false, Option, none, some, List, [], ◌∷◌, ◌++◌, Result, ok, err, ◌>>=◌, Text,
  text_eq, text_lt, ◌==◌, if◌then◌else◌,
}
use detc.Archive.Format.{Entry, Error, Tar, write}
use detc.Bundle.Place.{
  Fault, archive, cannot_read, cannot_list, refused, place, reachable, data_mode,
}
use detc.Bundle.Disk.{Bundle, Host}
use detc.Bundle.Open.{
  Crates, payload_member, signature_member, manifest_name, or_fault, parse_bundle, sign,
}

mutual
  pub data Node : Type 0 where
    -- none where the file cannot be read
    regular : Option Text → Node
    other_kind : Node
    -- an error of the walk, which a link to one of its own parents is too
    broken : Node
    directory : Children → Node

  -- The entries of a directory; none for a name that is not valid UTF-8.
  pub data Children : Type 0 where
    nothing_more : Children
    child : Option Text → Node → Children → Children

abbrev pub deepest : ℕ
deepest = 32

abbrev one_entry : Text → ℕ → Option Text → Result Fault (List Entry)
one_entry name mode none = err (cannot_read name)
one_entry name mode (some content) =
    ok (record { name = name; mode = mode; content = content } ∷ [])

-- A regular file of the tree: what refuses it by name stops the build, what has no place is left
-- out.
unfoldable pub collect_file : Text → Option Text → Result Fault (List Entry)
unfolding refused place text_eq
collect_file name content = elim (refused name) [
  | some e ↦ err e
  | none ↦ elim (text_eq name manifest_name) [
    | true ↦ one_entry name data_mode content
    | false ↦ elim (place name) [ ok at ↦ one_entry name at.1 content | err e ↦ ok [] ]
  ]
]

-- The name in the tree, behind that of its directory.
abbrev pub under : Text → Option Text → Option Text
under dir none = none
under dir (some name) = some (dir ++ name)

-- The loop of `collect` on the entries at a depth.
unfoldable mutual
  unfolding collect_file reachable

  pub collect_node : ℕ → Option Text → Node → Result Fault (List Entry)
  collect_node depth name broken = err (cannot_list [])
  collect_node depth none (regular content) = ok []
  collect_node depth none other_kind = ok []
  collect_node depth none (directory inner) = ok []
  collect_node depth (some name) (regular content) = collect_file name content
  collect_node depth (some name) other_kind = ok []
  collect_node depth (some name) (directory inner) =
      let entries = collect_tree (suc depth) (name ++ (b'/' ∷ [])) inner in
      if reachable name then (if depth == deepest then ok [] else entries) else ok []

  pub collect_tree : ℕ → Text → Children → Result Fault (List Entry)
  collect_tree depth dir nothing_more = ok []
  collect_tree depth dir (child name node rest) =
      collect_node depth (under dir name) node >>= λ here.
      collect_tree depth dir rest >>= λ later. ok (here ++ later)

-- `sort_by` of the names, which keeps the order of equal ones.
unfoldable pub insert_entry : Entry → List Entry → List Entry
unfolding text_lt
insert_entry e [] = e ∷ []
insert_entry e (x ∷ xs) = if text_lt x.name e.name then x ∷ insert_entry e xs else e ∷ x ∷ xs

unfoldable pub sort_entries : List Entry → List Entry
unfolding insert_entry
sort_entries [] = []
sort_entries (e ∷ es) = insert_entry e (sort_entries es)

abbrev written : {A : Type 0} → Result Error A → Result Fault A
written (ok a) = ok a
written (err e) = err (archive e)

module _ (tar : Tar) (host : Host) (crates : Crates tar) where
  -- The signature as a member, where there is a key.
  unfoldable pub signature_of : Text → Option Text → Result Fault (List Entry)
  unfolding sign
  signature_of payload none = ok []
  signature_of payload (some key) = sign tar host crates payload key >>= λ s.
      ok (record { name = signature_member; mode = data_mode; content = s } ∷ [])

  -- `create`, of the text of the manifest, the tree and the path of the key.
  unfoldable pub create_bundle :
      Option Text → Children → Option Text → Result Fault (Bundle × tar.Archive)
  unfolding collect_tree sort_entries parse_bundle signature_of write
  create_bundle manifest source key = or_fault manifest (cannot_read manifest_name) >>= λ text.
      parse_bundle tar host crates text >>= λ bundle. collect_tree 1 [] source >>= λ entries.
      written (write tar (sort_entries entries)) >>= λ payload.
      let bytes = crates.bytes_of payload in
      signature_of bytes key >>= λ signature.
      written (
        write tar (record { name = payload_member; mode = data_mode; content = bytes } ∷ signature))
      >>= λ file. ok (bundle, file)
