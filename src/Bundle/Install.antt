-- ===== src/Bundle/Install.antt =====
-- Installing, restoring and removing bundles, `verify` to `claim`, `wanted` and `kept` of
-- src/bundle.rs.
pub mod Claims
pub mod LaysDown
pub mod Exclusive
pub mod DryRun
pub mod Outside
use detc.Base.{
  ◌≡◌, refl, ℕ, Bool, true, false, not, ◌&&◌, ◌||◌, Option, none, some, List, [], ◌∷◌, ◌++◌, map,
  Result, ok, err, ◌>>=◌, ◌>>◌, Text, text_eq, is_empty, length, filter, ◌==◌, if◌then◌else◌,
}
use detc.Base.Dict.{Dict, find_in, put_in}
use detc.Archive.Format.{Tar}
use detc.Bundle.Place.{
  Fault, cannot_read, installed_wrote, kept_writes, other_wrote, no_yaml, data_mode, ours,
  installed_path, kept_path, holds,
}
use detc.Bundle.Disk.{
  File, Disk, Host, Bundle, no_bundle, Io, return, raise, asks, ◌>>>=◌, ◌>>>◌, state_suffix,
  files_suffix, kept_suffix, installed_dir, kept_dir, add_path, listing, names, read_text, recorded,
  write_file, write_files, unlink_all, discard,
}
use detc.Bundle.Open.{
  Crates, Content, unsigned_signer, listed_in, or_fault, installed_state, kept_state, open_bundle,
}

pub record Outcome : Type 0 where
  pub bundle : Bundle
  pub written : ℕ
  pub removed : ℕ

unfoldable pub paths_of : List (Text × ℕ × Text) → List Text
unfolding add_path
paths_of [] = []
paths_of ((path, _, _) ∷ rest) = add_path path (paths_of rest)

unfoldable pub wanted : Content → List Text
unfolding paths_of add_path
wanted content =
    add_path (installed_path content.bundle.name files_suffix)
      (add_path (installed_path content.bundle.name state_suffix) (paths_of content.files))

-- `BTreeSet::difference`
unfoldable pub difference_of : List Text → List Text → List Text
unfolding text_eq
difference_of previous now = filter (λ p. not (listed_in p now)) previous

abbrev pub claim_all : Text → List Text → Dict Text → Dict Text
claim_all name [] m = m
claim_all name (path ∷ rest) m = claim_all name rest (put_in path name m)

abbrev pub or_kept : Option Bundle → Result Fault (Option Bundle) → Result Fault (Option Bundle)
or_kept (some b) kept = kept >>= λ _. ok (some b)
or_kept none kept = kept

abbrev pub arrived : Text → Bool → Content → Content
arrived origin persist content = record {
  bundle = record {
    name = content.bundle.name;
    version = content.bundle.version;
    signer = content.bundle.signer;
    origin = origin;
    persist = persist;
  };
  files = content.files;
}

abbrev pub state_or_default : Option Bundle → Bundle
state_or_default none = no_bundle
state_or_default (some b) = b

module _ (tar : Tar) (host : Host) (crates : Crates tar) where
  -- The inner loops of `claimed`, over the names in one directory.
  unfoldable pub claims_in :
      (Text → Text → Text) → List Text → Disk → Dict Text → Result Fault (Dict Text)
  unfolding recorded put_in
  claims_in at [] d m = ok m
  claims_in at (name ∷ rest) d m = recorded host (at name files_suffix) d >>= λ paths.
      claims_in at rest d (claim_all name paths m)

  unfoldable pub claimed : Disk → Result Fault (Dict Text)
  unfolding claims_in names kept_path installed_path
  claimed d = names host kept_dir files_suffix d >>= λ kept. claims_in kept_path kept d [] >>= λ m.
      names host installed_dir files_suffix d >>= λ installed.
      claims_in installed_path installed d m

  -- Why a path is taken, from what the other bundle is.
  unfoldable pub taken_by : Disk → Text → Text → Text → Result Fault (Unit {0})
  unfolding installed_state kept_state
  taken_by d name path other = installed_state tar host crates other d >>= λ installed.
      elim installed [
        | some what ↦ err (installed_wrote name path other)
        | none ↦ kept_state tar host crates other d >>= λ kept. elim kept [
          | some what ↦ err (kept_writes name path other)
          | none ↦ err (other_wrote name path other)
        ]
      ]

  -- The loop of `claim`.
  unfoldable pub claim_paths : Disk → Text → List Text → Dict Text → Result Fault (Unit {0})
  unfolding taken_by find_in text_eq
  claim_paths d name [] m = ok tt
  claim_paths d name (path ∷ rest) m = elim (find_in path m) [
    | none ↦ claim_paths d name rest m
    | some other ↦ elim (text_eq other name) [
      | true ↦ claim_paths d name rest m
      | false ↦ taken_by d name path other
    ]
  ]

  unfoldable pub claim : Text → List Text → Disk → Result Fault (Unit {0})
  unfolding claimed claim_paths
  claim name paths d = claimed d >>= λ m. claim_paths d name paths m

  unfoldable pub verify : tar.Archive → Bool → Disk → Result Fault Bundle
  unfolding open_bundle claim wanted
  verify file allow_unsigned d = open_bundle tar host crates file allow_unsigned d >>= λ content.
      claim content.bundle.name (wanted content) d >> ok content.bundle

  -- The list of what was written, and what the bundle is.
  unfoldable pub records_of : Text → Text → Text → Io (Unit {0})
  unfolding write_file installed_path
  records_of name paths state =
      write_file host (installed_path name files_suffix) paths data_mode
      >>> write_file host (installed_path name state_suffix) state data_mode

  -- The same beside the file that is kept, which is written last.
  unfoldable pub kept_records : Text → Text → Text → Text → Io (Unit {0})
  unfolding write_file kept_path
  kept_records name paths state file =
      write_file host (kept_path name files_suffix) paths data_mode
      >>> (write_file host (kept_path name state_suffix) state data_mode
          >>> write_file host (kept_path name kept_suffix) file data_mode)

  -- What `install` does behind the guard of the dry run: the files, what the version before left, and
  -- the records.
  unfoldable pub lay_down : Content → List Text → tar.Archive → Bool → Io (Unit {0})
  unfolding write_files unlink_all records_of kept_records discard wanted listing
  lay_down content stale file persist =
      let name = content.bundle.name in
      let paths = listing (wanted content) in
      write_files host content.files
      >>> (unlink_all host stale
          >>> (asks (λ _. or_fault (crates.to_yaml content.bundle) no_yaml) >>>= λ state.
              records_of name paths state
              >>> (if persist
                  then kept_records name paths state (crates.bytes_of file)
                  else discard host name)))

  -- What `install` asks before it writes anything: the content, and what is stale.
  unfoldable pub planned_install :
      tar.Archive → Text → Bool → Bool → Disk → Result Fault (Content × List Text)
  unfolding open_bundle claim wanted recorded difference_of installed_path
  planned_install file origin persist allow_unsigned d =
      open_bundle tar host crates file allow_unsigned d >>= λ opened.
      let content = arrived origin persist opened in
      claim content.bundle.name (wanted content) d
      >> recorded host (installed_path content.bundle.name files_suffix) d
      >>= λ previous. ok (content, difference_of previous (wanted content))

  unfoldable pub outcome_of : Content × List Text → Outcome
  unfolding wanted
  outcome_of (content, stale) = record {
    bundle = content.bundle;
    written = length (wanted content);
    removed = length stale;
  }

  -- The dry run ends before anything is written.
  unfoldable pub carry_out : Bool → Content × List Text → tar.Archive → Bool → Io Outcome
  unfolding lay_down outcome_of
  carry_out true plan file persist = return (outcome_of plan)
  carry_out false plan file persist =
      lay_down plan.0 plan.1 file persist >>> return (outcome_of plan)

  unfoldable pub install : tar.Archive → Text → Bool → Bool → Bool → Io Outcome
  unfolding planned_install carry_out
  install file origin persist allow_unsigned dry_run =
      asks (planned_install file origin persist allow_unsigned) >>>= λ plan.
      carry_out dry_run plan file persist

  unfoldable pub restore_one : Text → Bool → Io Outcome
  unfolding install kept_state read_text kept_path text_eq
  restore_one name dry_run =
      asks
        (λ d. read_text host (kept_path name kept_suffix) d >>= λ f. or_fault f (cannot_read name))
      >>>= λ file. asks (kept_state tar host crates name) >>>= λ state.
          let was = state_or_default state in
          install (crates.archive_of file.content) was.origin true
            (text_eq was.signer unsigned_signer) dry_run

  unfoldable pub outstanding : Disk → Result Fault (List Text)
  unfolding names find_in installed_path
  outstanding d = names host kept_dir kept_suffix d >>= λ kept.
      ok (filter (λ n. not (holds (find_in (installed_path n state_suffix) d))) kept)

  unfoldable pub needs_restore : Disk → Bool
  unfolding outstanding
  needs_restore d = elim (outstanding d) [ ok waiting ↦ not (is_empty waiting) | err e ↦ false ]

  -- The loop of `restore`: one bundle that cannot be put back does not stop the others.
  unfoldable pub restore_all : List Text → Bool → Disk → List (Text × Result Fault Outcome) × Disk
  unfolding restore_one
  restore_all [] dry_run d = ([], d)
  restore_all (name ∷ rest) dry_run d =
      let (outcome, next) = restore_one name dry_run d in
      let (later, last) = restore_all rest dry_run next in ((name, outcome) ∷ later, last)

  unfoldable pub restore : Bool → Io (List (Text × Result Fault Outcome))
  unfolding outstanding restore_all
  restore dry_run d = elim (outstanding d) [
    | err e ↦ (err e, d)
    | ok waiting ↦ let (outcomes, next) = restore_all waiting dry_run d in (ok outcomes, next)
  ]

  -- The dry run ends before anything is removed.
  unfoldable pub remove_files : Bool → Outcome → List Text → Text → Io (Option Outcome)
  unfolding unlink_all discard
  remove_files true outcome files name = return (some outcome)
  remove_files false outcome files name =
      unlink_all host files >>> discard host name >>> return (some outcome)

  unfoldable pub remove_known : Text → Bool → Option Bundle → Io (Option Outcome)
  unfolding recorded remove_files installed_path
  remove_known name dry_run none = return none
  remove_known name dry_run (some bundle) =
      asks (recorded host (installed_path name files_suffix)) >>>= λ files.
      remove_files dry_run (record { bundle = bundle; written = 0; removed = length files }) files
        name

  unfoldable pub remove : Text → Bool → Io (Option Outcome)
  unfolding remove_known installed_state kept_state
  remove name dry_run =
      asks (λ d. installed_state tar host crates name d >>= λ installed.
      or_kept installed (kept_state tar host crates name d))
      >>>= remove_known name dry_run

  -- The loops of `installed` and `kept`.
  unfoldable pub states_of :
      (Text → Disk → Result Fault (Option Bundle)) → List Text → Disk → Result Fault (List Bundle)
  states_of state [] d = ok []
  states_of state (name ∷ rest) d = state name d >>= λ b. states_of state rest d >>= λ later.
      elim b [ none ↦ ok later | some bundle ↦ ok (bundle ∷ later) ]

  unfoldable pub installed : Disk → Result Fault (List Bundle)
  unfolding states_of names installed_state
  installed d = names host installed_dir state_suffix d >>= λ ns.
      states_of (installed_state tar host crates) ns d

  unfoldable pub kept : Disk → Result Fault (List Bundle)
  unfolding states_of names kept_state
  kept d = names host kept_dir kept_suffix d >>= λ ns. states_of (kept_state tar host crates) ns d

  unfoldable pub owner : Text → Disk → Result Fault (Option Bundle)
  unfolding claimed installed_state find_in ours
  owner path d =
      if not (ours path)
      then ok none
      else claimed d >>= λ m. elim (find_in path m) [
        | none ↦ ok none
        | some name ↦ installed_state tar host crates name d
      ]
