-- ===== src/Archive/Format.antt =====
-- Writing and reading an archive, src/tar.rs. The blocks are those of the crate tar, which is an
-- argument: how long an archive is after each call, and the members that it yields.
pub mod Limits
pub mod Reading
use detc.Base.{
  ℕ, suc, ◌+◌, ◌*◌, ◌-◌, ◌≡◌, ◌≤◌, Bool, true, false, not, ◌&&◌, ◌||◌, Option, none, some, List, [],
  ◌∷◌, ◌++◌, Result, ok, err, ◌>>=◌, ◌>>◌, refuse_if, Text, length, ltb, leb, ◌==◌, if◌then◌else◌,
}
use Prim.Native.Nat.{◌/◌, ◌%◌, ◌<◌}
use detc.Archive.Name.{Refusal, check}

abbrev pub block : ℕ
block = 512

abbrev pub record_size : ℕ
record_size = 20 * block

abbrev pub max_size : ℕ
max_size = 32 * 1024 * 1024

abbrev pub max_name : ℕ
max_name = 100

pub record Entry : Type 0 where
  pub name : Text
  pub mode : ℕ
  pub content : Text

pub data Error : Type 0 where
  refused : Refusal → Error
  name_too_long more_than_a_permission too_large middle_of_a_block unreadable : Error
  not_ustar not_utf8 not_a_file no_mode no_size cut_short : Error

-- `usize::next_multiple_of`
abbrev pub next_multiple : ℕ → ℕ → ℕ
next_multiple n k = (n + (k - 1)) / k * k

-- One member as the crate yields it, raw.
pub record Member : Type 0 where
  pub is_ustar : Bool
  pub is_gnu : Bool
  -- none where the bytes of the path are not valid UTF-8
  pub path : Option Text
  pub is_file : Bool
  pub mode : Option ℕ
  pub size : Option ℕ
  pub content : Text

-- What the program relies on of the crate tar.
pub record Tar : Type 1 where
  pub Archive : Type 0
  pub size : Archive → ℕ
  pub empty : Archive
  -- a header and the data, padded to whole blocks; none where the crate cannot lay out the header
  pub append : Archive → Entry → Option Archive
  -- the two zero blocks that end an archive
  pub finish : Archive → Archive
  -- `Vec::resize` with zeros
  pub resize : Archive → ℕ → Archive
  -- none where the crate cannot read a member
  pub members : Archive → List (Option Member)
  pub size-empty : size empty ≡ 0
  pub size-append :
      (a b : Archive) (e : Entry)
      → append a e ≡ some b
      → size b ≡ size a + block + next_multiple (length e.content) block
  pub size-finish : (a : Archive) → size (finish a) ≡ size a + 2 * block
  pub size-resize : (a : Archive) (n : ℕ) → size (resize a n) ≡ n

-- `mode & !0o777 != 0`
abbrev pub more_than_permission : ℕ → Bool
more_than_permission mode = not (mode / 512 == 0)

abbrev named : Result Refusal (Unit {0}) → Result Error (Unit {0})
named (ok _) = ok tt
named (err r) = err (refused r)

abbrev present : {A : Type 0} → Option A → Error → Result Error A
present none e = err e
present (some a) e = ok a

-- One round of the loop of `read`.
unfoldable pub read_member : Option Member → Result Error Entry
read_member raw = do
  member ← present raw unreadable
  refuse_if (not (member.is_ustar || member.is_gnu)) not_ustar
  name ← present member.path not_utf8
  named (check name)
  refuse_if (not member.is_file) not_a_file
  mode ← present member.mode no_mode
  refuse_if (more_than_permission mode) more_than_a_permission
  size ← present member.size no_size
  refuse_if (not (length member.content == size)) cut_short
  ok (record { name = name; mode = mode; content = member.content })

unfoldable pub read_members : List (Option Member) → Result Error (List Entry)
unfolding read_member
read_members [] = ok []
read_members (raw ∷ rest) =
    read_member raw >>= λ entry. read_members rest >>= λ entries. ok (entry ∷ entries)

module _ (tar : Tar) where
  open tar use {Archive}

  -- One round of the loop of `write`.
  unfoldable pub write_entry : Archive → Entry → Result Error Archive
  write_entry archive entry = do
    named (check entry.name)
    refuse_if (ltb max_name (length entry.name)) name_too_long
    refuse_if (more_than_permission entry.mode) more_than_a_permission
    refuse_if (ltb max_size (tar.size archive + block + length entry.content)) too_large
    present (tar.append archive entry) unreadable

  unfoldable pub write_entries : Archive → List Entry → Result Error Archive
  unfolding write_entry
  write_entries archive [] = ok archive
  write_entries archive (entry ∷ rest) =
      write_entry archive entry >>= λ next. write_entries next rest

  -- The end of `write`: two zero blocks, and zeros up to a whole record.
  unfoldable pub closed : Archive → Archive
  closed archive =
      let ended = tar.finish archive in
      tar.resize ended (next_multiple (tar.size ended) record_size)

  unfoldable pub write : List Entry → Result Error Archive
  unfolding write_entries closed
  write entries = write_entries tar.empty entries >>= λ archive. ok (closed archive)

  unfoldable pub read : Archive → Result Error (List Entry)
  unfolding read_members
  read archive =
      if ltb max_size (tar.size archive)
      then err too_large
      else if not (tar.size archive % block == 0)
      then err middle_of_a_block
      else read_members (tar.members archive)
