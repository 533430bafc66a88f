-- ===== src/Bundle/Open.antt =====
-- Who signed a bundle and what it holds, `open`, `authenticate`, `signed_by`, `allowed_signers`,
-- `sign`, `parse` and `read_state` of src/bundle.rs. The crates ssh_key and serde_yaml_ng are the
-- record Crates, an argument.
pub mod Contents
pub mod Trust
use detc.Base.{
  ◌≡◌, refl, ℕ, suc, ◌+◌, Bool, true, false, not, ◌&&◌, ◌||◌, Option, none, some, List, [], ◌∷◌,
  ◌++◌, map, Result, ok, err, ◌>>=◌, ◌>>◌, refuse_if, Text, codes, text_eq, is_empty, find, any,
  ◌==◌, if◌then◌else◌,
}
use detc.Base.Lines.{lines}
use detc.Base.Trim.{trim, space1, space2, space3}
use detc.Archive.Format.{Entry, Tar, Error, read}
use detc.Bundle.Place.{
  Fault, archive, cannot_read, member_twice, other_member, named_badly, no_manifest, no_payload,
  not_utf8, not_yaml, nameless, not_signed, no_signature, no_such_key, not_valid, no_signers,
  no_listing, no_key, key_unreadable, private_unreadable, encrypted, cannot_sign, no_pem, place,
  named_well, installed_path, kept_path, begins,
}
use detc.Bundle.Disk.{File, Disk, Host, Bundle, no_bundle, state_suffix, read_text}

abbrev pub payload_member : Text
payload_member = codes "payload.tar"

abbrev pub signature_member : Text
signature_member = codes "payload.tar.sig"

abbrev pub signature_namespace : Text
signature_namespace = codes "detc-bundle"

abbrev pub manifest_name : Text
manifest_name = codes "bundle.yaml"

abbrev pub unsigned_signer : Text
unsigned_signer = codes "unsigned"

pub record Crates (tar : Tar) : Type 1 where
  pub archive_of : Text → tar.Archive
  pub bytes_of : tar.Archive → Text
  -- `String::from_utf8`
  pub is_utf8 : Text → Bool
  -- `serde_yaml_ng::from_str` and `to_string` of a bundle
  pub from_yaml : Text → Option Bundle
  pub to_yaml : Bundle → Option Text
  pub Key : Type 0
  pub Private : Type 0
  pub Signature : Type 0
  -- `SshSig::from_pem` and `to_pem`
  pub from_pem : Text → Option Signature
  pub to_pem : Signature → Option Text
  -- `key.key_data() == signature.public_key()`
  pub made_by : Key → Signature → Bool
  -- `PublicKey::verify`: the key, the namespace, the bytes and the signature
  pub verifies : Key → Text → Text → Signature → Bool
  -- `PublicKey::from_openssh`
  pub from_openssh : Text → Option Key
  -- `PrivateKey::read_openssh_file`, of a path
  pub read_private : Text → Option Private
  pub is_encrypted : Private → Bool
  pub sign_with : Private → Text → Text → Option Signature
  -- the files of the allowed signers that the ladder `usr/share`, `etc` holds
  pub signer_files : Disk → Option (List Text)

pub record Content : Type 0 where
  pub bundle : Bundle
  pub files : List (Text × ℕ × Text)

abbrev pub or_fault : {A : Type 0} → Option A → Fault → Result Fault A
or_fault none e = err e
or_fault (some a) e = ok a

abbrev pub listed_in : Text → List Text → Bool
listed_in t ts = any (text_eq t) ts

-- What is behind one character of white space, if the text begins with one.
after_space3 : ℕ → ℕ → Text → Option Text
after_space3 a b [] = none
after_space3 a b (c ∷ rest) = if space3 a b c then some rest else none

after_space2 : ℕ → Text → Option Text
unfolding after_space3
after_space2 a [] = none
after_space2 a (b ∷ rest) = if space2 a b then some rest else after_space3 a b rest

unfoldable pub after_space : Text → Option Text
unfolding after_space2
after_space [] = none
after_space (a ∷ rest) = if space1 a then some rest else after_space2 a rest

-- `split_once(char::is_whitespace)`
unfoldable pub split_once_space : Text → Option (Text × Text)
unfolding after_space
split_once_space [] = none
split_once_space (a ∷ cs) =
    let later = split_once_space cs in
    elim (after_space (a ∷ cs)) [
      | some rest ↦ some ([], rest)
      | none ↦ elim later [ none ↦ none | some (p, rest) ↦ some (a ∷ p, rest) ]
    ]

-- The two members of a bundle file.
pub record Members : Type 0 where
  pub payload : Option Text
  pub signature : Option Text

-- The loop of `authenticate`.
unfoldable pub members_of : List Entry → Members → Result Fault Members
unfolding text_eq
members_of [] m = ok m
members_of (e ∷ rest) m = elim (text_eq e.name payload_member) [
  | true ↦ members_of rest (record { payload = some e.content; signature = m.signature })
  | false ↦ elim (text_eq e.name signature_member) [
    | true ↦ members_of rest (record { payload = m.payload; signature = some e.content })
    | false ↦ err (other_member e.name)
  ]
]

-- What the loop of `open` collects.
pub record Opened : Type 0 where
  pub manifest : Option Text
  pub files : List (Text × ℕ × Text)

abbrev pub with_file : Text × ℕ → Text → Opened → Opened
with_file at content o = record { manifest = o.manifest; files = (at.0, at.1, content) ∷ o.files }

abbrev pub manifest_or : Text → Opened → Opened
manifest_or content o = elim o.manifest [
  | none ↦ record { manifest = some content; files = o.files }
  | some later ↦ o
]

-- The loop of `open`, with the names that were seen.
unfoldable pub open_entries : List Text → List Entry → Result Fault Opened
unfolding place text_eq
open_entries seen [] = ok (record { manifest = none; files = [] })
open_entries seen (e ∷ rest) = elim (listed_in e.name seen) [
  | true ↦ err (member_twice e.name)
  | false ↦ elim (text_eq e.name manifest_name) [
    | true ↦ open_entries (e.name ∷ seen) rest >>= λ o. ok (manifest_or e.content o)
    | false ↦ place e.name >>= λ at.
        open_entries (e.name ∷ seen) rest >>= λ o. ok (with_file at e.content o)
  ]
]

abbrev pub opened_archive : Result Error (List Entry) → Result Fault (List Entry)
opened_archive (ok es) = ok es
opened_archive (err e) = err (archive e)

abbrev named_as : Text → Bundle → Bundle
named_as name b = record {
  name = name;
  version = b.version;
  signer = b.signer;
  origin = b.origin;
  persist = b.persist;
}

abbrev pub signed_as : Text → Bundle → Bundle
signed_as signer b = record {
  name = b.name;
  version = b.version;
  signer = signer;
  origin = b.origin;
  persist = b.persist;
}

module _ (tar : Tar) (host : Host) (crates : Crates tar) where
  -- The checks of `parse` behind the reading of the document.
  unfoldable pub checked_bundle : Bundle → Result Fault Bundle
  unfolding named_well
  checked_bundle b = do
    refuse_if (is_empty (trim b.name) || is_empty (trim b.version)) nameless
    refuse_if (not (named_well b.name)) (named_badly b.name)
    ok b

  unfoldable pub parse_bundle : Text → Result Fault Bundle
  unfolding checked_bundle
  parse_bundle text =
      (if is_empty (trim text) then ok no_bundle else or_fault (crates.from_yaml text) not_yaml)
      >>= λ b. checked_bundle b

  unfoldable pub read_state : Text → Text → Disk → Result Fault (Option Bundle)
  unfolding parse_bundle read_text
  read_state path name d = read_text host path d >>= λ f. elim f [
    | none ↦ ok none
    | some file ↦ parse_bundle file.content >>= λ b. ok (some (named_as name b))
  ]

  unfoldable pub installed_state : Text → Disk → Result Fault (Option Bundle)
  unfolding read_state installed_path
  installed_state name = read_state (installed_path name state_suffix) name

  unfoldable pub kept_state : Text → Disk → Result Fault (Option Bundle)
  unfolding read_state kept_path
  kept_state name = read_state (kept_path name state_suffix) name

  -- The loop over the lines of one file, with the number of the line.
  unfoldable pub signers_of : ℕ → Text → List Text → Result Fault (List (Text × crates.Key))
  unfolding split_once_space
  signers_of at path [] = ok []
  signers_of at path (raw ∷ rest) =
      let line = trim raw in
      elim (is_empty line || begins (codes "#") line) [
        | true ↦ signers_of (suc at) path rest
        | false ↦ elim (split_once_space line) [
          | none ↦ err (no_key at path)
          | some (principals, key) ↦
              or_fault (crates.from_openssh (trim key)) (key_unreadable at path) >>= λ k.
              signers_of (suc at) path rest >>= λ later. ok ((principals, k) ∷ later)
        ]
      ]

  -- The loop over the files.
  unfoldable pub signers_in : Disk → List Text → Result Fault (List (Text × crates.Key))
  unfolding signers_of read_text
  signers_in d [] = ok []
  signers_in d (path ∷ rest) = read_text host path d >>= λ f.
      or_fault f (cannot_read path) >>= λ file. signers_of 1 path (lines file.content) >>= λ here.
      signers_in d rest >>= λ later. ok (here ++ later)

  unfoldable pub allowed_signers : Disk → Result Fault (List (Text × crates.Key))
  unfolding signers_in
  allowed_signers d = or_fault (crates.signer_files d) no_listing >>= λ files.
      signers_in d files >>= λ signers. refuse_if (is_empty signers) no_signers >> ok signers

  -- The check behind the key that was found.
  unfoldable pub verified_by : Text → crates.Signature → Text × crates.Key → Result Fault Text
  verified_by payload s found =
      if crates.verifies found.1 signature_namespace payload s then ok found.0 else err not_valid

  unfoldable pub signed_by : Text → Text → Disk → Result Fault Text
  unfolding allowed_signers verified_by
  signed_by payload signature d = or_fault (crates.from_pem signature) no_signature >>= λ s.
      allowed_signers d >>= λ signers.
      or_fault (find (λ (entry : Text × crates.Key). crates.made_by entry.1 s) signers) no_such_key
      >>= λ found. verified_by payload s found

  unfoldable pub sign : Text → Text → Result Fault Text
  sign payload key = or_fault (crates.read_private key) private_unreadable >>= λ private.
      refuse_if (crates.is_encrypted private) encrypted
      >> or_fault (crates.sign_with private signature_namespace payload) cannot_sign
      >>= λ s. or_fault (crates.to_pem s) no_pem

  -- The match on the signature of a bundle.
  unfoldable pub signer_of : Bool → Text → Option Text → Disk → Result Fault (Text × Text)
  unfolding signed_by
  signer_of allow_unsigned payload none d =
      if allow_unsigned then ok (payload, unsigned_signer) else err not_signed
  signer_of allow_unsigned payload (some s) d =
      signed_by payload s d >>= λ signer. ok (payload, signer)

  unfoldable pub authenticate : tar.Archive → Bool → Disk → Result Fault (Text × Text)
  unfolding members_of signer_of
  authenticate file allow_unsigned d = opened_archive (read tar file) >>= λ entries.
      members_of entries (record { payload = none; signature = none }) >>= λ m.
      or_fault m.payload no_payload >>= λ payload. signer_of allow_unsigned payload m.signature d

  -- What `open` makes of what its loop collected.
  unfoldable pub content_of : Text → Opened → Result Fault Content
  unfolding parse_bundle
  content_of signer o = or_fault o.manifest no_manifest >>= λ manifest.
      refuse_if (not (crates.is_utf8 manifest)) not_utf8 >> parse_bundle manifest >>= λ b.
      ok (record { bundle = signed_as signer b; files = o.files })

  -- `open` behind the authentication.
  unfoldable pub open_payload : Text × Text → Result Fault Content
  unfolding open_entries content_of
  open_payload signed = opened_archive (read tar (crates.archive_of signed.0)) >>= λ entries.
      open_entries [] entries >>= λ o. content_of signed.1 o

  unfoldable pub open_bundle : tar.Archive → Bool → Disk → Result Fault Content
  unfolding authenticate open_payload
  open_bundle file allow_unsigned d = authenticate file allow_unsigned d >>= open_payload
