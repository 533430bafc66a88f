-- ===== src/Archive/Format/Limits.antt =====
-- How large an archive is that `write` of src/tar.rs makes, and what `read` says of it.
use detc.Base.{
  Result-cases, inl, inr, ◌≡◌, refl, sym, ap, subst, ◌∙◌, ℕ, ◌+◌, ◌*◌, ◌≤◌, ◌<◌, true, false, some,
  List, [], ◌∷◌, Result, ok, err, length, ltb, arith,
}
use Prim.Native.Nat.{◌/◌, ◌%◌}
use detc.Archive.Name.{check}
use detc.Archive.Format.{
  Entry, Error, too_large, Tar, block, record_size, max_size, max_name, next_multiple,
  more_than_permission, write_entry, write_entries, closed, write, read,
}

pub next_multiple-le : (n : ℕ) → n ≤ next_multiple n record_size
next_multiple-le n = omega arith

next_multiple-mod : (n : ℕ) → next_multiple n record_size % record_size ≡ 0
next_multiple-mod n = omega arith

small_div : (m : ℕ) → m < 512 → m / 512 ≡ 0
small_div m h = omega arith

small_mode : (m : ℕ) → m < 512 → more_than_permission m ≡ false
small_mode m h = ground (arith, small_div m h)

above_ltb : (n m : ℕ) → n < m → ltb n m ≡ true
above_ltb n m h = ground arith

padded_above : (n : ℕ) → max_size < n → max_size < next_multiple n record_size
padded_above n h = omega (arith, h, next_multiple-le n)

content_above :
    (n : ℕ) → max_size < 3 * block + n → max_size < 0 + block + next_multiple n block + 2 * block
content_above n h = omega (arith, h)

aligned_step :
    (n m c : ℕ)
    → (n % block ≡ 0) × (n ≤ max_size)
    → n + block + c ≤ max_size
    → m ≡ n + block + next_multiple c block
    → (m % block ≡ 0) × (m ≤ max_size)
aligned_step n m c h fits e = (omega (arith, h.0, fits, e), omega (arith, h.0, fits, e))

pub err_ne_ok : {A : Type 0} {x : Error} {a : A} → ¬ (◌≡◌ {A = Result Error A} (err x) (ok a))
err_ne_ok h = cc

padded_aligned :
    (n m : ℕ)
    → (n % block ≡ 0) × (n ≤ max_size)
    → m ≡ next_multiple (n + 2 * block) record_size
    → (m % record_size ≡ 0) × (m ≤ max_size + 2048)
padded_aligned n m h e = (omega (arith, e), omega (arith, h.0, h.1, e))

module _ (tar : Tar) where
  pub size-closed :
      (a : tar.Archive)
      → tar.size (closed tar a) ≡ next_multiple (tar.size a + 2 * block) record_size
  unfolding closed
  size-closed a =
      tar.size-resize (tar.finish a) _ ∙ ap (λ n. next_multiple n record_size) (tar.size-finish a)

  accepted_entry :
      (a b : tar.Archive) (e : Entry)
      → check e.name ≡ ok tt
      → length e.name ≤ max_name
      → e.mode < 512
      → tar.size a + block + length e.content ≤ max_size
      → tar.append a e ≡ some b
      → write_entry tar a e ≡ ok b
  unfolding write_entry
  accepted_entry a b e name short mode fits appended =
      ground (arith, name, short, small_mode e.mode mode, fits, appended)

  read_above : (a : tar.Archive) → max_size < tar.size a → read tar a ≡ err too_large
  unfolding read
  read_above a h = rw (above_ltb max_size (tar.size a) h) refl

  single :
      (a : tar.Archive) (e : Entry)
      → write_entry tar tar.empty e ≡ ok a
      → write tar (e ∷ []) ≡ ok (closed tar a)
  unfolding write write_entries
  single a e h = rw h refl

  closed_above :
      (a : tar.Archive) (n : ℕ)
      → tar.size a ≡ n
      → max_size < n + 2 * block
      → max_size < tar.size (closed tar a)
  closed_above a n e h =
      subst (λ m. max_size < m)
        (sym (size-closed a ∙ ap (λ m. next_multiple (m + 2 * block) record_size) e))
        (padded_above (n + 2 * block) h)

  first_size :
      (a : tar.Archive) (e : Entry)
      → tar.append tar.empty e ≡ some a
      → tar.size a ≡ 0 + block + next_multiple (length e.content) block
  first_size a e h =
      tar.size-append tar.empty a e h
      ∙ ap (λ n. n + block + next_multiple (length e.content) block) tar.size-empty

  -- One member that fits in the largest archive, and whose header, content and the two blocks
  -- that end an archive do not fit together, is written, and what was written is refused by
  -- `read`.
  pub write_single_too_large :
      (a : tar.Archive) (e : Entry)
      → check e.name ≡ ok tt
      → length e.name ≤ max_name
      → e.mode < 512
      → block + length e.content ≤ max_size
      → max_size < 3 * block + length e.content
      → tar.append tar.empty e ≡ some a
      → (write tar (e ∷ []) ≡ ok (closed tar a)) × (read tar (closed tar a) ≡ err too_large)
  write_single_too_large a e name short mode fits large appended = (
    single a e (
        accepted_entry tar.empty a e name short mode
          (subst (λ n. n + block + length e.content ≤ max_size) (sym tar.size-empty) fits)
          appended),
    read_above (closed tar a)
        (closed_above a _ (first_size a e appended) (content_above (length e.content) large)),
  )

  IsAligned : tar.Archive → Type 0
  IsAligned a = (tar.size a % block ≡ 0) × (tar.size a ≤ max_size)

  pub written_entry :
      (a b : tar.Archive) (e : Entry)
      → write_entry tar a e ≡ ok b
      → (tar.size a + block + length e.content ≤ max_size) × (tar.append a e ≡ some b)
  unfolding write_entry
  written_entry a b e w = (ground (arith, w), ground (arith, w))

  write_entry-IsAligned :
      (a b : tar.Archive) (e : Entry) → IsAligned a → write_entry tar a e ≡ ok b → IsAligned b
  unfolding IsAligned
  write_entry-IsAligned a b e h w =
      let (fits, appended) = written_entry a b e w in
      aligned_step (tar.size a) (tar.size b) (length e.content) h fits
        (tar.size-append a b e appended)

  write_entries-IsAligned :
      (es : List Entry) (a b : tar.Archive)
      → IsAligned a
      → write_entries tar a es ≡ ok b
      → IsAligned b
  unfolding write_entries
  write_entries-IsAligned [] a b h w = subst IsAligned (ground (arith, w)) h
  write_entries-IsAligned (e ∷ es) a b h w = elim (Result-cases (write_entry tar a e)) [
    | inl (n, q) ↦ write_entries-IsAligned es n b (write_entry-IsAligned a n e h q) (rw q at w)
    | inr (x, q) ↦ absurd (err_ne_ok (rw q at w))
  ]

  empty-IsAligned : IsAligned tar.empty
  unfolding IsAligned
  empty-IsAligned = (ap (λ n. n % block) tar.size-empty, omega (arith, tar.size-empty))

  pub write_parts :
      (es : List Entry) (a : tar.Archive)
      → write tar es ≡ ok a
      → (b : tar.Archive) × (write_entries tar tar.empty es ≡ ok b) × (closed tar b ≡ a)
  unfolding write
  write_parts es a w = elim (Result-cases (write_entries tar tar.empty es)) [
    | inl (b, e) ↦ (b, e, ground (arith, rw e at w))
    | inr (x, e) ↦ absurd (err_ne_ok (rw e at w))
  ]

  -- What `write` makes is whole records, and at most 2048 bytes larger than the largest archive
  -- that `read` takes.
  pub write-size :
      (es : List Entry) (a : tar.Archive)
      → write tar es ≡ ok a
      → (tar.size a % record_size ≡ 0) × (tar.size a ≤ max_size + 2048)
  unfolding IsAligned
  write-size es a w =
      let (x, e, w') = write_parts es a w in
      padded_aligned (tar.size x) (tar.size a)
        (write_entries-IsAligned es tar.empty x empty-IsAligned e)
        (sym (ap tar.size w') ∙ size-closed x)
