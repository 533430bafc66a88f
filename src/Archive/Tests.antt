-- ===== src/Archive/Tests.antt =====
-- Runs of src/tar.rs on a crate tar whose archives are a size and the entries laid down.
use detc.Base.{
  zero, ◌≡◌, refl, sym, ap, ◌∙◌, ℕ, suc, ◌+◌, ◌*◌, Option, some, List, [], ◌∷◌, ◌++◌, map, ok, err,
  Text, codes, length, All, arith, split, join, text_eq,
}
use detc.Archive.Name.{climbs_out, slash, check}
use detc.Archive.Name.Plain.{IsPlain, check-IsPlain}
use detc.Archive.Format.{Entry, refused, too_large, Tar, block, next_multiple, closed, write, read}
use detc.Archive.Format.Limits.{write_single_too_large}
use detc.Archive.Format.Reading.{member_of, Laid, nothing, one_more, ReadsBack, write-read}

pub record Sheet : Type 0 where
  pub laid : List Entry
  pub bytes : ℕ

abbrev pub laid_on : Sheet → Entry → Sheet
laid_on a e = record {
  laid = a.laid ++ (e ∷ []);
  bytes = a.bytes + block + next_multiple (length e.content) block;
}

pub bytes-laid_on :
    (a b : Sheet) (e : Entry)
    → ◌≡◌ {A = Option Sheet} (some (laid_on a e)) (some b)
    → b.bytes ≡ a.bytes + block + next_multiple (length e.content) block
bytes-laid_on a b e h = ground (arith, h)

abbrev pub sheet_tar : Tar
sheet_tar = record {
  Archive = Sheet;
  size = λ a. a.bytes;
  empty = record { laid = []; bytes = 0 };
  append = λ a e. some (laid_on a e);
  finish = λ a. record { laid = a.laid; bytes = a.bytes + 2 * block };
  resize = λ a n. record { laid = a.laid; bytes = n };
  members = λ a. map (λ e. some (member_of e)) a.laid;
  size-empty = refl;
  size-append = bytes-laid_on;
  size-finish = λ a. refl;
  size-resize = λ a n. refl;
}

laid-laid_on :
    (a b : Sheet) (e : Entry)
    → ◌≡◌ {A = Option Sheet} (some (laid_on a e)) (some b)
    → a.laid ++ (e ∷ []) ≡ b.laid
laid-laid_on a b e h = ground (arith, h)

laid-Laid : (es : List Entry) (a : Sheet) → Laid sheet_tar es a → a.laid ≡ es
laid-Laid _ _ nothing = refl
laid-Laid _ _ (one_more es a b e l h) =
    sym (laid-laid_on a b e h) ∙ ap (λ t. t ++ (e ∷ [])) (laid-Laid es a l)

sheet-ReadsBack : ReadsBack sheet_tar
unfolding ReadsBack
sheet-ReadsBack es a n h l k = ap (map (λ e. some (member_of e))) (laid-Laid es a l)

abbrev manifest : Entry
manifest = record { name = codes "manifest"; mode = 420; content = codes "detc 1" }

abbrev program : Entry
program = record { name = codes "providers/file"; mode = 493; content = codes "echo" }

abbrev both : List Entry
both = manifest ∷ program ∷ []

abbrev written : Sheet
written = record { laid = both; bytes = 10240 }

write-both : write sheet_tar both ≡ ok written
unfolding write check text_eq
write-both = refl

write-read_example : read sheet_tar written ≡ ok both
write-read_example = write-read sheet_tar both written sheet-ReadsBack write-both (omega arith)

read-both : read sheet_tar written ≡ ok both
unfolding read check text_eq
read-both = refl

-- A name that leaves the archive is refused, written or read.
write-climbing :
    write sheet_tar (record { name = codes "a/../b"; mode = 420; content = [] } ∷ [])
    ≡ err (refused climbs_out)
unfolding write check text_eq
write-climbing = refl

zeros : ℕ → Text
zeros zero = []
zeros (suc n) = 0 ∷ zeros n

length-zeros : (n : ℕ) → length (zeros n) ≡ n
unfolding zeros
length-zeros zero = refl
length-zeros (suc n) = ground (arith, length-zeros n)

abbrev large : Entry
large = record { name = codes "large"; mode = 420; content = zeros 33553920 }

check-large : check (codes "large") ≡ ok tt
unfolding check text_eq
check-large = refl

write_single_too_large_example :
    (write sheet_tar (large ∷ [])
      ≡ ok (closed sheet_tar (laid_on (record { laid = []; bytes = 0 }) large)))
    × (read sheet_tar (closed sheet_tar (laid_on (record { laid = []; bytes = 0 }) large))
        ≡ err too_large)
write_single_too_large_example =
    write_single_too_large sheet_tar (laid_on (record { laid = []; bytes = 0 }) large) large
      check-large (omega arith) (omega arith) (omega (arith, length-zeros 33553920))
      (omega (arith, length-zeros 33553920)) refl

check-program : check (codes "providers/file") ≡ ok tt
unfolding check text_eq
check-program = refl

check-IsPlain_example :
    All IsPlain (split slash (codes "providers/file"))
    × (join slash (split slash (codes "providers/file")) ≡ codes "providers/file")
check-IsPlain_example = check-IsPlain (codes "providers/file") check-program

providers-IsPlain : IsPlain (codes "providers")
unfolding text_eq
providers-IsPlain = record { filled = refl; not_dot = refl; not_dots = refl; no_nul = refl }

file-IsPlain : IsPlain (codes "file")
unfolding text_eq
file-IsPlain = record { filled = refl; not_dot = refl; not_dots = refl; no_nul = refl }
