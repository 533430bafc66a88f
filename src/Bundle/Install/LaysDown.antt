-- ===== src/Bundle/Install/LaysDown.antt =====
-- What laying a bundle down does to the lists of what the bundles wrote.
use detc.Base.{◌≡◌, Bool, true, false, inl, List, Result, Text, All, if◌then◌else◌}
use detc.Archive.Format.{Tar}
use detc.Bundle.Place.{Fault, installed_path, kept_path, data_mode}
use detc.Bundle.Place.Safe.{in_records}
use detc.Bundle.Disk.{
  Disk, Host, ◌>>>=◌, ◌>>>◌, asks, state_suffix, files_suffix, kept_suffix, listing, write_file,
  write_files, unlink_all, discard,
}
use detc.Bundle.Disk.Steps.{
  KeepsLists, >>>=-KeepsLists, write_file-KeepsLists, discard-KeepsLists, unlink_all-KeepsLists,
  write_files-KeepsLists,
}
use detc.Bundle.Disk.Records.{
  installed_path-NoList, kept_state-NoList, kept_path-NoList, installed_list-KeepsLists,
  kept_list-KeepsLists,
}
use detc.Bundle.Open.{Crates, Content, or_fault}
use detc.Bundle.Install.{wanted, records_of, kept_records, lay_down}

module _ (tar : Tar) (host : Host) (crates : Crates tar) where
  records_of-KeepsLists :
      (name written state : Text)
      → KeepsLists name written (records_of tar host crates name written state)
  unfolding records_of
  records_of-KeepsLists name written state =
      >>>=-KeepsLists name written
        (write_file host (installed_path name files_suffix) written data_mode)
        (λ _. write_file host (installed_path name state_suffix) state data_mode)
        (installed_list-KeepsLists host name written data_mode)
        (λ _.
          write_file-KeepsLists host name written (installed_path name state_suffix) state data_mode
            (installed_path-NoList name))

  kept_records-KeepsLists :
      (name written state file : Text)
      → KeepsLists name written (kept_records tar host crates name written state file)
  unfolding kept_records
  kept_records-KeepsLists name written state file =
      >>>=-KeepsLists name written (write_file host (kept_path name files_suffix) written data_mode)
        (λ _.
          write_file host (kept_path name state_suffix) state data_mode
          >>> write_file host (kept_path name kept_suffix) file data_mode)
        (kept_list-KeepsLists host name written data_mode)
        (λ _.
          >>>=-KeepsLists name written
            (write_file host (kept_path name state_suffix) state data_mode)
            (λ _. write_file host (kept_path name kept_suffix) file data_mode)
            (write_file-KeepsLists host name written (kept_path name state_suffix) state data_mode
              (kept_state-NoList name))
            (λ _.
              write_file-KeepsLists host name written (kept_path name kept_suffix) file data_mode
                (kept_path-NoList name)))

  asks-KeepsLists :
      {A : Type 0} (name written : Text) (f : Disk → Result Fault A)
      → KeepsLists name written (asks f)
  asks-KeepsLists name written f d a p h = inl h

  pub lay_down-KeepsLists :
      (content : Content) (stale : List Text) (file : tar.Archive) (persist : Bool)
      → All (λ f. in_records f.0 ≡ false) content.files
      → KeepsLists content.bundle.name
          (listing (wanted content))
          (lay_down tar host crates content stale file persist)
  unfolding lay_down
  lay_down-KeepsLists content stale file persist outside =
      let name = content.bundle.name in
      let written = listing (wanted content) in
      let last = λ (state : Text).
        if persist
        then kept_records tar host crates name written state (crates.bytes_of file)
        else discard host name in
      let records =
        λ (state : Text). records_of tar host crates name written state >>> last state in
      let yaml = asks (λ _. or_fault (crates.to_yaml content.bundle) Fault.no_yaml) in
      >>>=-KeepsLists name written (write_files host content.files)
        (λ _. unlink_all host stale >>> (yaml >>>= records))
        (write_files-KeepsLists host name written content.files outside)
        (λ _.
          >>>=-KeepsLists name written (unlink_all host stale) (λ _. yaml >>>= records)
            (unlink_all-KeepsLists host name written stale)
            (λ _.
              >>>=-KeepsLists name written yaml records
                (asks-KeepsLists name written
                  (λ _. or_fault (crates.to_yaml content.bundle) Fault.no_yaml))
                (λ state.
                  >>>=-KeepsLists name written (records_of tar host crates name written state)
                    (λ _. last state) (records_of-KeepsLists name written state)
                    (λ _. if_keeps persist state))))
    where
      if_keeps :
          (b : Bool) (state : Text)
          → KeepsLists content.bundle.name (listing (wanted content)) (
              if b
              then kept_records tar host crates content.bundle.name
                  (listing (wanted content))
                  state
                  (crates.bytes_of file)
              else discard host content.bundle.name)
      if_keeps true state =
          kept_records-KeepsLists content.bundle.name (listing (wanted content)) state
            (crates.bytes_of file)
      if_keeps false state =
          discard-KeepsLists host content.bundle.name (listing (wanted content)) content.bundle.name
