-- ===== src/Archive/Format/Reading.antt =====
-- What `read` of src/tar.rs makes of what `write` wrote.
use detc.Base.{
  ◌||◌, Result-cases, ◌≡◌, refl, sym, ap, subst, ◌∙◌, ℕ, ◌≤◌, true, false, some, none, Option, List,
  [], ◌∷◌, ◌++◌, map, ok, inl, inr, append_assoc, append-nil, length, ltb, arith, All,
}
use Prim.Native.Nat.{◌%◌}
use detc.Archive.Name.{check}
use detc.Archive.Format.{
  Entry, Tar, Member, block, record_size, max_size, more_than_permission, write_entry,
  write_entries, closed, write, read, read_member, read_members,
}
use detc.Archive.Format.Limits.{write-size, written_entry, write_parts, err_ne_ok, next_multiple-le}

-- What a member is accepted for, by the reader and by the writer alike.
pub record IsAccepted (e : Entry) : Type 0 where
  pub named_plainly : check e.name ≡ ok tt
  pub only_permission : more_than_permission e.mode ≡ false

-- The member that a plain header and its data are read back as.
abbrev pub member_of : Entry → Member
member_of e = record {
  is_ustar = true;
  is_gnu = false;
  path = some e.name;
  is_file = true;
  mode = some e.mode;
  size = some (length e.content);
  content = e.content;
}

read_member-member_of : (e : Entry) → IsAccepted e → read_member (some (member_of e)) ≡ ok e
unfolding read_member
read_member-member_of e h = ground (arith, h.named_plainly, h.only_permission)

read_members-member_of :
    (es : List Entry) → All IsAccepted es → read_members (map (λ e. some (member_of e)) es) ≡ ok es
unfolding read_members
read_members-member_of [] h = refl
read_members-member_of (e ∷ es) h =
    rw (read_member-member_of e h.0, read_members-member_of es h.1) refl

-- What an entry has of the member it was read from: a regular file in one of the two formats, of the
-- entry's name, mode and content, whose data is as long as its header says.
pub record IsReadFrom (raw : Option Member) (e : Entry) : Type 0 where
  pub member : Member
  pub there : raw ≡ some member
  pub format : member.is_ustar || member.is_gnu ≡ true
  pub regular : member.is_file ≡ true
  pub path : member.path ≡ some e.name
  pub permission : member.mode ≡ some e.mode
  pub content : member.content ≡ e.content
  pub whole : member.size ≡ some (length e.content)
  pub accepted : IsAccepted e

read_member-IsAccepted : (m : Member) (e : Entry) → read_member (some m) ≡ ok e → IsAccepted e
unfolding read_member
read_member-IsAccepted m e h = record {
  named_plainly = ground (arith, h);
  only_permission = ground (arith, h);
}

read_member-IsReadFrom :
    (raw : Option Member) (e : Entry) → read_member raw ≡ ok e → IsReadFrom raw e
unfolding read_member
read_member-IsReadFrom none e h = absurd (err_ne_ok h)
read_member-IsReadFrom (some m) e h = record {
  member = m;
  there = refl;
  format = ground (arith, h);
  regular = ground (arith, h);
  path = ground (arith, h);
  permission = ground (arith, h);
  content = ground (arith, h);
  whole = ground (arith, h);
  accepted = read_member-IsAccepted m e h;
}

-- The entries are the members, in their order: none is left out and none is added.
pub data AreReadFrom : List (Option Member) → List Entry → Type 0 where
  nothing_read : AreReadFrom [] []
  then_read :
      (raw : Option Member) (e : Entry) (raws : List (Option Member)) (es : List Entry)
      → IsReadFrom raw e
      → AreReadFrom raws es
      → AreReadFrom (raw ∷ raws) (e ∷ es)

read_members-AreReadFrom :
    (raws : List (Option Member)) (es : List Entry)
    → read_members raws ≡ ok es
    → AreReadFrom raws es
unfolding read_members
read_members-AreReadFrom [] es h = subst (AreReadFrom []) (ground (arith, h)) nothing_read
read_members-AreReadFrom (raw ∷ raws) es h = elim (Result-cases (read_member raw)) [
  | inr (x, q) ↦ absurd (err_ne_ok (rw q at h))
  | inl (e, q) ↦ elim (Result-cases (read_members raws)) [
    | inr (x, r) ↦ absurd (err_ne_ok (rw (q, r) at h))
    | inl (later, r) ↦
        subst (AreReadFrom (raw ∷ raws)) {x = e ∷ later} (ground (arith, rw (q, r) at h)) (
          then_read raw e raws later (read_member-IsReadFrom raw e q)
            (read_members-AreReadFrom raws later r))
  ]
]

-- The archive that the crate lays down for entries, one after the other.
pub data Laid (tar : Tar) : List Entry → tar.Archive → Type 0 where
  nothing : Laid tar [] tar.empty
  one_more :
      (es : List Entry) (a b : tar.Archive) (e : Entry)
      → Laid tar es a
      → tar.append a e ≡ some b
      → Laid tar (es ++ (e ∷ [])) b

-- What the crate reads of an archive that it wrote and that was padded: a member for each entry, in
-- their order.
unfoldable pub ReadsBack : Tar → Type 0
ReadsBack tar =
    (es : List Entry) (a : tar.Archive) (n : ℕ)
    → All IsAccepted es
    → Laid tar es a
    → tar.size (tar.finish a) ≤ n
    → tar.members (tar.resize (tar.finish a) n) ≡ map (λ e. some (member_of e)) es

within : {n m : ℕ} → n ≤ m → ltb m n ≡ false
within h = ground (arith, h)

blocks : (n : ℕ) → n % record_size ≡ 0 → n % block ≡ 0
blocks n h = omega (arith, h)

write_entry-IsAccepted :
    (tar : Tar) (a b : tar.Archive) (e : Entry) → write_entry tar a e ≡ ok b → IsAccepted e
unfolding write_entry
write_entry-IsAccepted tar a b e w = record {
  named_plainly = ground (arith, w);
  only_permission = ground (arith, w);
}

module _ (tar : Tar) where
  write_entries-Laid :
      (done es : List Entry) (a b : tar.Archive)
      → Laid tar done a
      → write_entries tar a es ≡ ok b
      → Laid tar (done ++ es) b
  unfolding write_entries
  write_entries-Laid done [] a b l w =
      subst (λ t. Laid tar t b) (sym (append-nil done))
        (subst (Laid tar done) (ground (arith, w)) l)
  write_entries-Laid done (e ∷ es) a b l w = elim (Result-cases (write_entry tar a e)) [
    | inl (n, q) ↦
        subst (λ t. Laid tar t b) (append_assoc done (e ∷ []) es)
          (write_entries-Laid (done ++ (e ∷ [])) es n b
            (one_more done a n e l (written_entry tar a n e q).1) (rw q at w))
    | inr (x, q) ↦ absurd (err_ne_ok (rw q at w))
  ]

  write_entries-IsAccepted :
      (es : List Entry) (a b : tar.Archive) → write_entries tar a es ≡ ok b → All IsAccepted es
  unfolding write_entries
  write_entries-IsAccepted [] a b w = tt
  write_entries-IsAccepted (e ∷ es) a b w = elim (Result-cases (write_entry tar a e)) [
    | inl (n, q) ↦ (write_entry-IsAccepted tar a n e q, write_entries-IsAccepted es n b (rw q at w))
    | inr (x, q) ↦ absurd (err_ne_ok (rw q at w))
  ]

  -- The two tests before the loop.
  read_whole :
      (a : tar.Archive)
      → tar.size a ≤ max_size
      → tar.size a % record_size ≡ 0
      → read tar a ≡ read_members (tar.members a)
  unfolding read
  read_whole a small whole = ground (arith, within small, blocks (tar.size a) whole)

  read_parts :
      (a : tar.Archive) (es : List Entry)
      → read tar a ≡ ok es
      → read_members (tar.members a) ≡ ok es
  unfolding read
  read_parts a es h = ground (arith, h)

  -- What `read` returns is an entry for each member of the archive, in their order: each is a
  -- regular file in one of the two formats, of that path, mode and content, whole, with a name
  -- that `check` accepts and no more than permission bits.
  pub read-AreReadFrom :
      (a : tar.Archive) (es : List Entry) → read tar a ≡ ok es → AreReadFrom (tar.members a) es
  read-AreReadFrom a es h = read_members-AreReadFrom (tar.members a) es (read_parts a es h)

  -- What `write` made is read back as the entries that were written, where it is no larger than
  -- the largest archive and the crate yields a member for each entry that it laid down, in an archive
  -- that was ended and padded.
  pub write-read :
      (es : List Entry) (a : tar.Archive)
      → ReadsBack tar
      → write tar es ≡ ok a
      → tar.size a ≤ max_size
      → read tar a ≡ ok es
  unfolding ReadsBack closed
  write-read es a back w small =
      let (b, e, c) = write_parts tar es a w in
      let accepted = write_entries-IsAccepted es tar.empty b e in
      let laid = write_entries-Laid [] es tar.empty b nothing e in
      read_whole a small (write-size tar es a w).0
      ∙ ap (λ t. read_members (tar.members t)) (sym c)
      ∙ ap read_members (back es b _ accepted laid (next_multiple-le (tar.size (tar.finish b))))
      ∙ read_members-member_of es accepted
