-- ===== src/Bundle/Tests.antt =====
-- Runs of src/bundle.rs: a signed bundle of one template, on a system that allows its key.
use detc.Base.{
  ◌≡◌, ◌∙◌, refl, sym, ap, subst, ℕ, Bool, true, false, some, List, [], ◌∷◌, Result, ok, err, Text,
  codes, text_eq, Has, split, join, none, ◌==◌, inl, inr,
}
use detc.Base.Lines.{lines}
use detc.Base.Trim.{trim}
use detc.Base.Dict.{find_in}
use detc.Archive.Format.{Entry, read}
use detc.Archive.Name.{check}
use detc.Archive.Tests.{Sheet, sheet_tar}
use detc.Bundle.Place.{Fault, place, data_mode, data_path, installed_path, kept_path, ours}
use detc.Bundle.Place.Safe.{IsPlace, place-IsPlace}
use detc.Bundle.Led.{led_to}
use detc.Bundle.Disk.{File, Disk, Host, Bundle, recorded_text, listing, path_of, unlink}
use detc.Bundle.Disk.Corrupt.{recorded_text-climbing, broken_name, place-broken_name}
use detc.Bundle.Open.{Crates, Content, open_bundle, authenticate}
use detc.Bundle.Open.Trust.{IsSigned, Holds, authenticate-IsSigned}
use detc.Bundle.Install.{Outcome, install}
use detc.Bundle.Install.DryRun.{dry_run-install}
use detc.Bundle.Install.Exclusive.{Exclusive, AreLines, install-Exclusive}

abbrev fleet : Bundle
fleet = record {
  name = codes "fleet";
  version = codes "1";
  signer = [];
  origin = [];
  persist = false;
}

abbrev payload : Sheet
payload = record {
  laid =
      record { name = codes "bundle.yaml"; mode = 420; content = codes "name: fleet" }
      ∷ record { name = codes "templates.d/motd"; mode = 420; content = codes "hello" }
      ∷ [];
  bytes = 10240;
}

abbrev signed_file : Sheet
signed_file = record {
  laid =
      record { name = codes "payload.tar"; mode = 420; content = codes "payload" }
      ∷ record { name = codes "payload.tar.sig"; mode = 420; content = codes "signature" }
      ∷ [];
  bytes = 10240;
}

abbrev crates : Crates sheet_tar
crates = record {
  archive_of = λ t. payload;
  bytes_of = λ a. codes "file";
  is_utf8 = λ t. true;
  from_yaml = λ t. some fleet;
  to_yaml = λ b. some (codes "name: fleet");
  Key = ℕ;
  Private = ℕ;
  Signature = ℕ;
  from_pem = λ t. some 7;
  to_pem = λ s. some (codes "signature");
  made_by = λ k s. k == s;
  verifies = λ k n p s. k == s;
  from_openssh = λ t. some 7;
  read_private = λ t. some 7;
  is_encrypted = λ k. false;
  sign_with = λ k n p. some k;
  signer_files = λ d. some (codes "etc/detc/allowed_signers" ∷ []);
}

abbrev willing : Host
willing = record {
  no_read = λ d p. false;
  no_list = λ d p. false;
  no_write = λ d p. false;
  no_remove = λ d p. false;
}

abbrev system : Disk
system =
    (
      codes "etc/detc/allowed_signers",
      record { mode = 420; content = codes "ops ssh-ed25519 AAAA" },
    )
    ∷ []

signed :
    authenticate sheet_tar willing crates signed_file false system
    ≡ ok (codes "payload", codes "ops")
unfolding authenticate check text_eq lines trim find_in read
signed = refl

authenticate-IsSigned_example :
    (entries : List Entry) × (s : Text) × (read sheet_tar signed_file ≡ ok entries)
    × Holds (codes "payload.tar") (codes "payload") entries
    × Holds (codes "payload.tar.sig") s entries
    × IsSigned sheet_tar willing crates (codes "payload") s (codes "ops") system
authenticate-IsSigned_example =
    authenticate-IsSigned sheet_tar willing crates signed_file system (codes "payload")
      (codes "ops") signed

motd_placed : place (codes "templates.d/motd") ≡ ok (codes "run/detc/templates.d/motd", data_mode)
unfolding place text_eq
motd_placed = refl

place-IsPlace_example :
    IsPlace (codes "templates.d/motd") (codes "run/detc/templates.d/motd") data_mode
place-IsPlace_example =
    place-IsPlace (codes "templates.d/motd") (codes "run/detc/templates.d/motd") data_mode
      motd_placed

dry_run-install_example :
    let run = λ (dry : Bool).
      install sheet_tar willing crates signed_file (codes "local") true false dry system in
    ((run true).1 ≡ system) × ((o : Outcome) → (run false).0 ≡ ok o → (run true).0 ≡ ok o)
dry_run-install_example =
    dry_run-install sheet_tar willing crates signed_file (codes "local") true false system

abbrev motd : List (Text × ℕ × Text)
motd = (codes "run/detc/templates.d/motd", 420, codes "hello") ∷ []

abbrev content : Content
content = record {
  bundle = record {
    name = codes "fleet";
    version = codes "1";
    signer = codes "ops";
    origin = [];
    persist = false;
  };
  files = motd;
}

open-content : open_bundle sheet_tar willing crates signed_file false system ≡ ok content
unfolding open_bundle authenticate check text_eq lines trim find_in read place
open-content = refl

opened :
    (c : Content)
    → open_bundle sheet_tar willing crates signed_file false system ≡ ok c
    → motd ≡ c.files
opened c h = ap files_of (sym open-content ∙ h)
  where
    files_of : Result Fault Content → List (Text × ℕ × Text)
    files_of (ok c) = c.files
    files_of (err e) = []

opened-AreLines :
    (c : Content)
    → open_bundle sheet_tar willing crates signed_file false system ≡ ok c
    → AreLines c.files
opened-AreLines c h = subst AreLines (opened c h) (refl, tt)

system-Exclusive : Exclusive system
unfolding find_in installed_path kept_path data_path recorded_text text_eq
system-Exclusive a b p wa wb x y = elim x [ inl k ↦ absurd k | inr k ↦ absurd k ]

install-Exclusive_example :
    Exclusive
      (install sheet_tar willing crates signed_file (codes "local") true false false system).1
install-Exclusive_example =
    install-Exclusive sheet_tar willing crates signed_file (codes "local") true false false system
      opened-AreLines system-Exclusive

abbrev corrupted : File
corrupted = record {
  mode = 420;
  content = listing (codes "run/detc/templates.d/motd" ∷ codes "run/detc/../../etc/passwd" ∷ []);
}

abbrev at_risk : Disk
at_risk =
    (codes "etc/passwd", record { mode = 420; content = codes "root" })
    ∷ (codes "run/detc/bundles/fleet.files", corrupted)
    ∷ []

climbing_leads : led_to at_risk (codes "run/detc/../../etc/passwd") ≡ some (codes "etc/passwd")
unfolding led_to text_eq split join
climbing_leads = refl

climbing_same : path_of (codes "run/detc/../../etc/passwd") ≡ codes "run/detc/../../etc/passwd"
unfolding path_of text_eq split join
climbing_same = refl

recorded_text-climbing_example :
    let p = codes "run/detc/../../etc/passwd" in
    Has p (recorded_text (some corrupted))
    × ((unlink willing p at_risk).0 ≡ ok tt)
    × (find_in (codes "etc/passwd") (unlink willing p at_risk).1 ≡ none)
recorded_text-climbing_example =
    recorded_text-climbing willing corrupted (codes "run/detc/../../etc/passwd")
      (codes "etc/passwd") at_risk (unfold lines listing in inr (inl refl)) climbing_same
      (unfold ours text_eq in refl) (unfold trim in refl) climbing_leads refl

place-broken_name_example :
    let name = broken_name (codes "a") (codes "templates.d/motd") in
    (place name ≡ ok (data_path name, data_mode))
    × Has
        (codes "run/detc/templates.d/motd")
        (recorded_text (some (record { mode = 420; content = listing (data_path name ∷ []) })))
unfolding text_eq trim split
place-broken_name_example =
    place-broken_name 420 (codes "a") (codes "templates.d/motd") refl refl (refl, (refl, tt)) refl
