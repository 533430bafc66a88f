-- ===== src/Bundle/Open/Trust.antt =====
-- What an accepted bundle was signed by.
use detc.Base.{
  ◌≡◌, ◌∙◌, sym, ap, subst, Bool, true, false, inl, inr, Option, none, some, List, [], ◌∷◌, ◌++◌,
  append_assoc, append-nil, refl, Result, ok, err, ◌>>=◌, text_eq, text_eq_iff, Text, find, Has,
  Bool-cases, >>=-eq-ok, arith,
}
use detc.Archive.Format.{Entry, Error, Tar, read}
use detc.Bundle.Place.{Fault, no_signature, no_such_key, no_payload}
use detc.Bundle.Disk.{Disk, Host}
use detc.Bundle.Open.{
  Crates, signature_namespace, or_fault, allowed_signers, signed_by, authenticate, opened_archive,
  members_of, signer_of, verified_by, Members, payload_member, signature_member,
}

find-Has :
    {A : Type 0} (p : A → Bool) (a : A) (xs : List A) → find p xs ≡ some a → Has a xs × (p a ≡ true)
find-Has p a [] h = absurd (ground (arith, h))
find-Has p a (x ∷ xs) h = elim (Bool-cases (p x)) [
  | inl e ↦
      let same : x ≡ a = ground (arith, rw e at h) in
      (inl (sym same), subst (λ y. p y ≡ true) same e)
  | inr e ↦ let (there, t) = find-Has p a xs (rw e at h) in (inr there, t)
]

or_fault-ok : {A : Type 0} (o : Option A) (e : Fault) (a : A) → or_fault o e ≡ ok a → o ≡ some a
or_fault-ok none e a h = absurd (ground (arith, h))
or_fault-ok (some b) e a h = ap some (ground (arith, h))

opened_archive-ok :
    (r : Result Error (List Entry)) (es : List Entry) → opened_archive r ≡ ok es → r ≡ ok es
opened_archive-ok (ok x) es h = ground (arith, h)
opened_archive-ok (err x) es h = absurd (ground (arith, h))

-- An entry of a name, with a content.
abbrev pub Holds : Text → Text → List Entry → Type 0
Holds name content es = (e : Entry) × Has e es × (e.name ≡ name) × (e.content ≡ content)

-- What was collected is the content of an entry of its name.
record AreHeld (m : Members) (es : List Entry) : Type 0 where
  payload : (t : Text) → m.payload ≡ some t → Holds payload_member t es
  signature : (t : Text) → m.signature ≡ some t → Holds signature_member t es

Has-earlier : {A : Type 0} (x : A) (es later : List A) → Has x es → Has x (es ++ later)
Has-earlier x [] later h = absurd h
Has-earlier x (e ∷ es) later h = elim h [ inl k ↦ inl k | inr k ↦ inr (Has-earlier x es later k) ]

Has-last : {A : Type 0} (x : A) (es : List A) → Has x (es ++ (x ∷ []))
Has-last x [] = inl refl
Has-last x (e ∷ es) = inr (Has-last x es)

held_later : (n t : Text) (e : Entry) (es : List Entry) → Holds n t es → Holds n t (es ++ (e ∷ []))
held_later n t e es (x, there, a, b) = (x, Has-earlier x es (e ∷ []) there, a, b)

held_here :
    (n t : Text) (e : Entry) (es : List Entry)
    → text_eq e.name n ≡ true
    → some e.content ≡ some t
    → Holds n t (es ++ (e ∷ []))
held_here n t e es h k = (e, Has-last e es, (text_eq_iff e.name n).0 h, ground (arith, k))

members_of-AreHeld :
    (es done : List Entry) (m n : Members)
    → AreHeld m done
    → members_of es m ≡ ok n
    → AreHeld n (done ++ es)
unfolding members_of
members_of-AreHeld [] done m n h k =
    subst (λ t. AreHeld n t) (sym (append-nil done))
      (subst (λ t. AreHeld t done) (ground (arith, k)) h)
members_of-AreHeld (e ∷ es) done m n h k = elim (Bool-cases (text_eq e.name payload_member)) [
  | inl p ↦ subst (AreHeld n) (append_assoc done (e ∷ []) es) (
      members_of-AreHeld es (done ++ (e ∷ []))
        (record { payload = some e.content; signature = m.signature }) n
        record {
          payload = λ t x. held_here payload_member t e done p x;
          signature = λ t x. held_later signature_member t e done (h.signature t x);
        }
        (rw (members_of, p) at k))
  | inr p ↦ elim (Bool-cases (text_eq e.name signature_member)) [
    | inl q ↦ subst (AreHeld n) (append_assoc done (e ∷ []) es) (
        members_of-AreHeld es (done ++ (e ∷ []))
          (record { payload = m.payload; signature = some e.content }) n
          record {
            payload = λ t x. held_later payload_member t e done (h.payload t x);
            signature = λ t x. held_here signature_member t e done q x;
          }
          (rw (members_of, p, q) at k))
    | inr q ↦ absurd (ground (arith, rw (members_of, p, q) at k))
  ]
]

module _ (tar : Tar) (host : Host) (crates : Crates tar) where
  -- Who vouches for a payload: an entry of the allowed signers whose key made the signature, over the
  -- payload and for a bundle.
  pub record IsSigned (payload signature signer : Text) (d : Disk) : Type 0 where
    pub signers : List (Text × crates.Key)
    pub allowed : allowed_signers tar host crates d ≡ ok signers
    pub key : crates.Key
    pub there : Has (signer, key) signers
    pub made : crates.Signature
    pub read_as : crates.from_pem signature ≡ some made
    pub by_key : crates.made_by key made ≡ true
    pub verified : crates.verifies key signature_namespace payload made ≡ true

  verified_by-ok :
      (payload : Text) (s : crates.Signature) (found : Text × crates.Key) (signer : Text)
      → verified_by tar host crates payload s found ≡ ok signer
      → (found.0 ≡ signer) × (crates.verifies found.1 signature_namespace payload s ≡ true)
  unfolding verified_by
  verified_by-ok payload s found signer h =
      elim (Bool-cases (crates.verifies found.1 signature_namespace payload s)) [
        | inl e ↦ (ground (arith, rw (verified_by, e) at h), e)
        | inr e ↦ absurd (ground (arith, rw (verified_by, e) at h))
      ]

  signed_by-IsSigned :
      (payload signature signer : Text) (d : Disk)
      → signed_by tar host crates payload signature d ≡ ok signer
      → IsSigned payload signature signer d
  unfolding signed_by
  signed_by-IsSigned payload signature signer d h =
      let (made, e, h1) =
        >>=-eq-ok (or_fault (crates.from_pem signature) no_signature)
          (λ s. allowed_signers tar host crates d >>= λ signers.
            or_fault (find (λ (entry : Text × crates.Key). crates.made_by entry.1 s) signers)
              no_such_key
            >>= λ found. verified_by tar host crates payload s found)
          h in
      let (signers, f, h2) =
        >>=-eq-ok (allowed_signers tar host crates d)
          (λ signers.
            or_fault (find (λ (entry : Text × crates.Key). crates.made_by entry.1 made) signers)
              no_such_key
            >>= λ found. verified_by tar host crates payload made found)
          h1 in
      let (found, g, h3) =
        >>=-eq-ok
          (or_fault (find (λ (entry : Text × crates.Key). crates.made_by entry.1 made) signers)
            no_such_key)
          (λ found. verified_by tar host crates payload made found) h2 in
      let (there, by_key) =
        find-Has (λ (entry : Text × crates.Key). crates.made_by entry.1 made) found signers
          (or_fault-ok (find (λ (entry : Text × crates.Key). crates.made_by entry.1 made) signers)
            no_such_key found g) in
      let (same, verified) = verified_by-ok payload made found signer h3 in
      record {
        signers = signers;
        allowed = f;
        key = found.1;
        there = subst (λ s. Has (s, found.1) signers) same there;
        made = made;
        read_as = or_fault-ok (crates.from_pem signature) no_signature made e;
        by_key = by_key;
        verified = verified;
      }

  signer_of-IsSigned :
      (payload : Text) (signature : Option Text) (d : Disk) (signed : Text × Text)
      → signer_of tar host crates false payload signature d ≡ ok signed
      → (s : Text) × (signature ≡ some s) × (payload ≡ signed.0) × IsSigned signed.0 s signed.1 d
  unfolding signer_of
  signer_of-IsSigned payload none d signed h = absurd (ground (arith, h))
  signer_of-IsSigned payload (some s) d signed h =
      let (signer, e, last) =
        >>=-eq-ok (signed_by tar host crates payload s d) (λ signer. ok (payload, signer)) h in
      let same : (payload, signer) ≡ signed = ground (arith, last) in
      (
        s,
        refl,
        ap (λ (t : Text × Text). t.0) same,
        subst (λ (t : Text × Text). IsSigned t.0 s t.1 d) same
            (signed_by-IsSigned payload s signer d e),
      )

  -- A bundle that is accepted without leave to take an unsigned one is an archive that can be read,
  -- with the payload that is answered as its member `payload.tar` and, as its member
  -- `payload.tar.sig`, a signature of that payload, made for a bundle by a key that the allowed signers
  -- list under the name of the signer.
  pub authenticate-IsSigned :
      (file : tar.Archive) (d : Disk) (payload signer : Text)
      → authenticate tar host crates file false d ≡ ok (payload, signer)
      → (entries : List Entry) × (signature : Text) × (read tar file ≡ ok entries)
        × Holds payload_member payload entries
        × Holds signature_member signature entries
        × IsSigned payload signature signer d
  unfolding authenticate
  authenticate-IsSigned file d payload signer h =
      let (entries, opened, h1) =
        >>=-eq-ok (opened_archive (read tar file))
          (λ entries. members_of entries (record { payload = none; signature = none }) >>= λ m.
            or_fault m.payload no_payload >>= λ payload.
            signer_of tar host crates false payload m.signature d)
          h in
      let (m, collected, h2) =
        >>=-eq-ok (members_of entries (record { payload = none; signature = none }))
          (λ m. or_fault m.payload no_payload >>= λ payload.
            signer_of tar host crates false payload m.signature d)
          h1 in
      let (held, there, h3) =
        >>=-eq-ok (or_fault m.payload no_payload)
          (λ payload. signer_of tar host crates false payload m.signature d) h2 in
      let (s, by, same, vouched) = signer_of-IsSigned held m.signature d (payload, signer) h3 in
      let holds =
        members_of-AreHeld entries [] (record { payload = none; signature = none }) m
          record {
            payload = λ p e. absurd (ground (arith, e));
            signature = λ p e. absurd (ground (arith, e));
          }
          collected in
      (
        entries,
        s,
        opened_archive-ok (read tar file) entries opened,
        holds.payload payload (or_fault-ok m.payload no_payload held there ∙ ap some same),
        holds.signature s by,
        vouched,
      )
