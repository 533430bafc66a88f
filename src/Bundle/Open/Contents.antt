-- ===== src/Bundle/Open/Contents.antt =====
-- What an opened bundle holds: members with accepted names, each in its place.
use detc.Base.{
  ◌≡◌, refl, subst, ℕ, Bool, true, false, not, ◌||◌, inl, inr, Option, none, List, [], ◌∷◌, ok,
  ◌>>=◌, ◌>>◌, refuse_if, Text, text_eq, is_empty, All, Bool-cases, Option-cases, Result-cases,
  >>=-eq-ok, if◌then◌else◌, arith,
}
use detc.Base.Trim.{trim}
use detc.Archive.Name.{check}
use detc.Archive.Format.{Entry, Tar, Member, read}
use detc.Archive.Format.Reading.{IsAccepted, AreReadFrom, nothing_read, then_read, read-AreReadFrom}
use detc.Bundle.Place.{no_manifest, not_utf8, not_yaml, place, named_well}
use detc.Bundle.Place.Safe.{in_records, place-IsPlace}
use detc.Bundle.Disk.{Disk, Host, Bundle, no_bundle}
use detc.Bundle.Open.{
  Crates, Content, Opened, manifest_name, listed_in, or_fault, manifest_or, with_file, open_entries,
  opened_archive, authenticate, checked_bundle, parse_bundle, open_bundle, open_payload, content_of,
  signed_as,
}

-- One file of a bundle: where a member of that name is installed.
pub record IsMember (file : Text × ℕ × Text) : Type 0 where
  pub name : Text
  pub accepted : check name ≡ ok tt
  pub placed : place name ≡ ok (file.0, file.1)

AreReadFrom-IsAccepted :
    (raws : List (Option Member)) (es : List Entry) → AreReadFrom raws es → All IsAccepted es
AreReadFrom-IsAccepted _ _ nothing_read = tt
AreReadFrom-IsAccepted _ _ (then_read raw e raws es h r) =
    (h.accepted, AreReadFrom-IsAccepted raws es r)

opened_archive-IsAccepted :
    (tar : Tar) (a : tar.Archive) (es : List Entry)
    → opened_archive (read tar a) ≡ ok es
    → All IsAccepted es
opened_archive-IsAccepted tar a es h = elim (Result-cases (read tar a)) [
  | inl (fs, e) ↦
      subst (All IsAccepted) (ground (arith, rw e at h))
        (AreReadFrom-IsAccepted (tar.members a) fs (read-AreReadFrom tar a fs e))
  | inr (x, e) ↦ absurd (ground (arith, rw e at h))
]

abbrev AreMembers : Opened → Type 0
AreMembers o = All IsMember o.files

manifest_or-AreMembers :
    (content : Text) (o : Opened) → AreMembers o → AreMembers (manifest_or content o)
manifest_or-AreMembers content o h = elim (Option-cases o.manifest) [
  | inl e ↦ rw e h
  | inr (m, e) ↦ rw e h
]

pub open_entries-AreMembers :
    (seen : List Text) (es : List Entry) (o : Opened)
    → All IsAccepted es
    → open_entries seen es ≡ ok o
    → All IsMember o.files
unfolding open_entries
open_entries-AreMembers seen [] o a h =
    subst AreMembers {x = record { manifest = none; files = [] }} {y = o} (ground (arith, h)) tt
open_entries-AreMembers seen (e ∷ es) o a h = elim (Bool-cases (listed_in e.name seen)) [
  | inl l ↦ absurd (ground (arith, rw (open_entries, l) at h))
  | inr l ↦ elim (Bool-cases (text_eq e.name manifest_name)) [
    | inl m ↦
        let (next, k, last) =
          >>=-eq-ok (open_entries (e.name ∷ seen) es) (λ o. ok (manifest_or e.content o))
            (rw (open_entries, l, m) at h) in
        subst AreMembers {x = manifest_or e.content next} {y = o} (ground (arith, last)) (
          manifest_or-AreMembers e.content next
            (open_entries-AreMembers (e.name ∷ seen) es next a.1 k))
    | inr m ↦
        let (at, placed, h1) =
          >>=-eq-ok (place e.name)
            (λ at. open_entries (e.name ∷ seen) es >>= λ o. ok (with_file at e.content o))
            (rw (open_entries, l, m) at h) in
        let (next, k, last) =
          >>=-eq-ok (open_entries (e.name ∷ seen) es) (λ o. ok (with_file at e.content o)) h1 in
        subst AreMembers {x = with_file at e.content next} {y = o} (ground (arith, last)) (
          record { name = e.name; accepted = a.0.named_plainly; placed = placed },
          open_entries-AreMembers (e.name ∷ seen) es next a.1 k,
        )
  ]
]

module _ (tar : Tar) (host : Host) (crates : Crates tar) where
  checked_bundle-named_well :
      (b c : Bundle) → checked_bundle tar host crates b ≡ ok c → named_well c.name ≡ true
  unfolding checked_bundle
  checked_bundle-named_well b c h =
      elim (Bool-cases (is_empty (trim b.name) || is_empty (trim b.version))) [
        | inl e ↦ absurd (ground (arith, rw (checked_bundle, e) at h))
        | inr e ↦ elim (Bool-cases (named_well b.name)) [
          | inr w ↦ absurd (ground (arith, rw (checked_bundle, e, w) at h))
          | inl w ↦
              subst (λ (x : Bundle). named_well x.name ≡ true) {x = b} {y = c}
                (ground (arith, rw (checked_bundle, e, w) at h)) w
        ]
      ]

  parse_bundle-named_well :
      (text : Text) (b : Bundle)
      → parse_bundle tar host crates text ≡ ok b
      → named_well b.name ≡ true
  unfolding parse_bundle
  parse_bundle-named_well text b h =
      let (read_as, _, checked) =
        >>=-eq-ok
          (if is_empty (trim text) then ok no_bundle else or_fault (crates.from_yaml text) not_yaml)
          (λ b. checked_bundle tar host crates b) h in
      checked_bundle-named_well read_as b checked

  content_of-parts :
      (signer : Text) (o : Opened) (content : Content)
      → content_of tar host crates signer o ≡ ok content
      → (named_well content.bundle.name ≡ true) × (o.files ≡ content.files)
  unfolding content_of
  content_of-parts signer o content h =
      let (manifest, _, h1) =
        >>=-eq-ok (or_fault o.manifest no_manifest)
          (λ manifest.
            refuse_if (not (crates.is_utf8 manifest)) not_utf8
            >> parse_bundle tar host crates manifest
            >>= λ b. ok (record { bundle = signed_as signer b; files = o.files }))
          h in
      let (b, h2, last) =
        >>=-eq-ok
          (refuse_if (not (crates.is_utf8 manifest)) not_utf8
            >> parse_bundle tar host crates manifest)
          (λ b. ok (record { bundle = signed_as signer b; files = o.files })) h1 in
      let (_, _, parsed) =
        >>=-eq-ok (refuse_if (not (crates.is_utf8 manifest)) not_utf8)
          (λ _. parse_bundle tar host crates manifest) h2 in
      subst Parts {x = record { bundle = signed_as signer b; files = o.files }} {y = content}
        (ground (arith, last)) (parse_bundle-named_well manifest b parsed, refl)
    where
      Parts : Content → Type 0
      Parts c = (named_well c.bundle.name ≡ true) × (o.files ≡ c.files)

  -- An opened bundle has a well written name, and files that have their place.
  pub open_bundle-IsOpen :
      (file : tar.Archive) (allow_unsigned : Bool) (d : Disk) (content : Content)
      → open_bundle tar host crates file allow_unsigned d ≡ ok content
      → (named_well content.bundle.name ≡ true) × All IsMember content.files
  unfolding open_bundle open_payload
  open_bundle-IsOpen file allow_unsigned d content h =
      let (signed, _, h1) =
        >>=-eq-ok (authenticate tar host crates file allow_unsigned d)
          (open_payload tar host crates) h in
      let (entries, read_as, h2) =
        >>=-eq-ok (opened_archive (read tar (crates.archive_of signed.0)))
          (λ entries. open_entries [] entries >>= λ o. content_of tar host crates signed.1 o) h1 in
      let (o, opened, last) =
        >>=-eq-ok (open_entries [] entries) (λ o. content_of tar host crates signed.1 o) h2 in
      let (named, files) = content_of-parts signed.1 o content last in
      (
        named,
        subst (All IsMember) files (
            open_entries-AreMembers [] entries o
              (opened_archive-IsAccepted tar (crates.archive_of signed.0) entries read_as) opened),
      )

pub IsMember-outside : (file : Text × ℕ × Text) → IsMember file → in_records file.0 ≡ false
IsMember-outside file h = (place-IsPlace h.name file.0 file.1 h.placed).not_records
