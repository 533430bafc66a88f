-- ===== src/Bundle/Disk.antt =====
-- The files of the system as the bundles read and change them, `names` to `discard` of
-- src/bundle.rs. A disk is the files by their paths, without the directories, which are there where a
-- file is under them; what the file system refuses is the record Host, an argument.
pub mod Steps
pub mod Names
pub mod Records
pub mod Listed
pub mod Corrupt
pub mod Leaves
use detc.Base.{
  ℕ, Bool, true, false, not, ◌&&◌, ◌||◌, Option, none, some, List, [], ◌∷◌, ◌++◌, map, Result, ok,
  err, Text, codes, text_eq, text_lt, strip_prefix, split, join, any, filter, is_empty, ◌==◌,
  if◌then◌else◌,
}
use detc.Base.Dict.{Dict, find_in, put_in, drop_in}
use detc.Base.Lines.{lines, unlines}
use detc.Base.Trim.{trim}
use detc.Ladder.{path_lt}
use detc.Bundle.Led.{led_to}
use detc.Bundle.Place.{
  Fault, cannot_read, cannot_list, cannot_write, cannot_remove, not_yaml, nameless, named_badly,
  bundles, data_prefix, data_path, kept_prefix, holds, named_well, ours, installed_path, kept_path,
}

pub record File : Type 0 where
  pub mode : ℕ
  pub content : Text

abbrev pub Disk : Type 0
Disk = Dict File

-- Which operation the file system refuses on a path, other than for a file that is not there.
pub record Host : Type 0 where
  pub no_read : Disk → Text → Bool
  pub no_list : Disk → Text → Bool
  pub no_write : Disk → Text → Bool
  pub no_remove : Disk → Text → Bool

pub record Bundle : Type 0 where
  pub name : Text
  pub version : Text
  pub signer : Text
  pub origin : Text
  pub persist : Bool

abbrev pub no_bundle : Bundle
no_bundle = record { name = []; version = []; signer = []; origin = []; persist = false }

-- A change of the disk that may fail part way: what was written stays written.
abbrev pub Io : Type 0 → Type 0
Io A = Disk → Result Fault A × Disk

abbrev pub return : {A : Type 0} → A → Io A
return a d = (ok a, d)

abbrev pub raise : {A : Type 0} → Fault → Io A
raise e d = (err e, d)

-- What follows a change, with its result.
abbrev pub followed : {A B : Type 0} → (A → Io B) → Result Fault A → Disk → Result Fault B × Disk
followed f (ok a) e = f a e
followed f (err x) e = (err x, e)

infixl 10 ◌>>>=◌ ◌>>>◌
abbrev pub ◌>>>=◌ : {A B : Type 0} → Io A → (A → Io B) → Io B
◌>>>=◌ m f d = let (r, e) = m d in followed f r e

abbrev pub ◌>>>◌ : {A B : Type 0} → Io A → Io B → Io B
m >>> k = m >>>= λ _. k

-- What only reads the disk.
abbrev pub asks : {A : Type 0} → (Disk → Result Fault A) → Io A
asks f d = (f d, d)

abbrev pub state_suffix : Text
state_suffix = codes ".yaml"

abbrev pub files_suffix : Text
files_suffix = codes ".files"

abbrev pub kept_suffix : Text
kept_suffix = codes ".detc"

unfoldable pub installed_dir : Text
unfolding data_path
installed_dir = data_path bundles

unfoldable pub kept_dir : Text
kept_dir = kept_prefix ++ bundles

-- `str::strip_suffix`
unfoldable pub strip_suffix : Text → Text → Option Text
strip_suffix suffix [] = if is_empty suffix then some [] else none
strip_suffix suffix (c ∷ cs) =
    let rest = strip_suffix suffix cs in
    if text_eq (c ∷ cs) suffix then some [] else elim rest [ none ↦ none | some p ↦ some (c ∷ p) ]

abbrev pub first_piece : List Text → Text
first_piece [] = []
first_piece (p ∷ ps) = p

-- The entry of a directory that a path is, or is under.
unfoldable pub entry_of : Text → Text → Option Text
unfolding split
entry_of dir path = elim (strip_prefix (dir ++ (b'/' ∷ [])) path) [
  | none ↦ none
  | some rest ↦ some (first_piece (split b'/' rest))
]

-- One round of the loop of `names`, into the sorted list of the names.
unfoldable pub name_of_entry : Text → Option Text → Option Text
unfolding named_well strip_suffix
name_of_entry suffix none = none
name_of_entry suffix (some entry) = elim (strip_suffix suffix entry) [
  | none ↦ none
  | some name ↦ if named_well name then some name else none
]

unfoldable pub add_name : Option Text → Dict (Unit {0}) → Dict (Unit {0})
unfolding put_in
add_name none later = later
add_name (some name) later = put_in name tt later

unfoldable pub names_in : Text → Text → Disk → Dict (Unit {0})
unfolding entry_of name_of_entry add_name
names_in dir suffix [] = []
names_in dir suffix ((path, f) ∷ rest) =
    add_name (name_of_entry suffix (entry_of dir path)) (names_in dir suffix rest)

abbrev pub entry_names : Dict (Unit {0}) → List Text
entry_names [] = []
entry_names ((n, _) ∷ rest) = n ∷ entry_names rest

-- A `BTreeSet` of paths, in the order of their components.
unfoldable pub add_path : Text → List Text → List Text
unfolding path_lt split
add_path p [] = p ∷ []
add_path p (q ∷ qs) =
    if text_eq p q
    then q ∷ qs
    else if path_lt (split b'/' p) (split b'/' q)
    then p ∷ q ∷ qs
    else q ∷ add_path p qs

abbrev plain_component : Text → Bool
plain_component c = not (is_empty c || text_eq c (codes "."))

abbrev pub rooted : Text → Bool
rooted [] = false
rooted (c ∷ cs) = c == b'/'

-- `PathBuf::from`, and what is compared of it: the components. A path that begins with a slash, or
-- with a component `.`, keeps that.
unfoldable pub path_of : Text → Text
unfolding join split text_eq
path_of line =
    if rooted line || any (λ c. text_eq c (codes ".")) (first_piece (split b'/' line) ∷ [])
    then line
    else join b'/' (filter plain_component (split b'/' line))

-- The lines of a list, into a set.
unfoldable pub recorded_lines : List Text → List Text
unfolding ours add_path path_of
recorded_lines [] = []
recorded_lines (line ∷ rest) =
    let later = recorded_lines rest in
    if is_empty (trim line)
    then later
    else if ours (path_of line)
    then add_path (path_of line) later
    else later

unfoldable pub recorded_text : Option File → List Text
unfolding recorded_lines lines
recorded_text none = []
recorded_text (some f) = recorded_lines (lines f.content)

-- `listing`
unfoldable pub listing : List Text → Text
unfolding unlines
listing paths = unlines paths

module _ (host : Host) where
  unfoldable pub names : Text → Text → Disk → Result Fault (List Text)
  unfolding names_in
  names dir suffix d =
      if host.no_list d dir then err (cannot_list dir) else ok (entry_names (names_in dir suffix d))

  -- `fs::read_to_string`, or none where the file is not there.
  unfoldable pub read_text : Text → Disk → Result Fault (Option File)
  unfolding find_in
  read_text path d = if host.no_read d path then err (cannot_read path) else ok (find_in path d)

  unfoldable pub recorded : Text → Disk → Result Fault (List Text)
  unfolding recorded_text read_text
  recorded path d = elim (read_text path d) [ err e ↦ err e | ok f ↦ ok (recorded_text f) ]

  -- `write_atomically` of src/apply.rs, with a mode: the whole file is there, or it is as it was.
  unfoldable pub write_file : Text → Text → ℕ → Io (Unit {0})
  unfolding put_in
  write_file path content mode d =
      if host.no_write d path
      then (err (cannot_write path), d)
      else (ok tt, put_in path (record { mode = mode; content = content }) d)

  -- `fs::remove_file`, where a file that is not there is nothing to do.
  -- A fault names the path that was asked for.
  unfoldable pub remove_at : Text → Text → Io (Unit {0})
  unfolding drop_in
  remove_at asked path d =
      if host.no_remove d path then (err (cannot_remove asked), d) else (ok tt, drop_in path d)

  unfoldable pub remove_file : Text → Io (Unit {0})
  unfolding remove_at
  remove_file path = remove_at path path

  -- `unlink`, which also takes away the directories that are left empty. What the path leads to is
  -- removed, and a path that leads nowhere is of a file that is gone.
  unfoldable pub unlink : Text → Io (Unit {0})
  unfolding remove_at led_to
  unlink path d = elim (led_to d path) [ none ↦ (ok tt, d) | some at ↦ remove_at path at d ]

  unfoldable pub discard : Text → Io (Unit {0})
  unfolding remove_file kept_path
  discard name =
      remove_file (kept_path name kept_suffix)
      >>> (remove_file (kept_path name state_suffix) >>> remove_file (kept_path name files_suffix))

  -- The loop over the files of the payload.
  unfoldable pub write_files : List (Text × ℕ × Text) → Io (Unit {0})
  unfolding write_file
  write_files [] = return tt
  write_files ((path, mode, content) ∷ rest) = write_file path content mode >>> write_files rest

  unfoldable pub unlink_all : List Text → Io (Unit {0})
  unfolding unlink
  unlink_all [] = return tt
  unlink_all (path ∷ rest) = unlink path >>> unlink_all rest
