-- ===== src/Bundle/Disk/Records.antt =====
-- What writing the records of a bundle does to the lists of what the bundles wrote.
use detc.Base.{
  ◌≡◌, ◌≢◌, ◌∙◌, refl, sym, ap, ℕ, true, false, ◌⊎◌, inl, inr, [], ◌∷◌, ◌++◌, Text, codes, text_eq,
  text_eq_iff, Has, Bool-cases, arith,
}
use mathlib.Core.List.{append_cancel_right}
use detc.Base.Dict.{find_in, put_in, find_in-put_in}
use detc.Base.Lines.{lines}
use detc.Bundle.Place.{installed_path, kept_path, data_path}
use detc.Bundle.Disk.{
  Disk, Host, state_suffix, files_suffix, kept_suffix, recorded_text, recorded_lines, write_file,
}
use detc.Bundle.Disk.Steps.{Grows, KeepsLists, NoList}

last_of : ℕ → Text → ℕ
last_of d [] = d
last_of d (c ∷ cs) = last_of c cs

last_of-append : (d : ℕ) (a : Text) (c : ℕ) (s : Text) → last_of d (a ++ (c ∷ s)) ≡ last_of c s
unfolding last_of
last_of-append d [] c s = refl
last_of-append d (x ∷ a) c s = last_of-append x a c s

-- Texts that end otherwise are not equal.
apart_by_last :
    (a b : Text) (c x : ℕ) (s t : Text)
    → last_of c s ≢ last_of x t
    → text_eq (a ++ (c ∷ s)) (b ++ (x ∷ t)) ≡ false
apart_by_last a b c x s t h = elim (Bool-cases (text_eq (a ++ (c ∷ s)) (b ++ (x ∷ t)))) [
  | inl e ↦ absurd (
      h (
        sym (last_of-append 0 a c s)
        ∙ ap (last_of 0) ((text_eq_iff (a ++ (c ∷ s)) (b ++ (x ∷ t))).0 e)
        ∙ last_of-append 0 b x t))
  | inr e ↦ e
]

state_suffix-files_suffix : (a b : Text) → text_eq (a ++ state_suffix) (b ++ files_suffix) ≡ false
unfolding last_of
state_suffix-files_suffix a b =
    apart_by_last a b b'.' b'.' (codes "yaml") (codes "files") (ground arith)

kept_suffix-files_suffix : (a b : Text) → text_eq (a ++ kept_suffix) (b ++ files_suffix) ≡ false
unfolding last_of
kept_suffix-files_suffix a b =
    apart_by_last a b b'.' b'.' (codes "detc") (codes "files") (ground arith)

pub installed_path-NoList : (n : Text) → NoList (installed_path n state_suffix)
unfolding installed_path kept_path data_path text_eq
installed_path-NoList n a = (state_suffix-files_suffix n a, refl)

pub kept_state-NoList : (n : Text) → NoList (kept_path n state_suffix)
unfolding installed_path kept_path data_path text_eq
kept_state-NoList n a = (refl, state_suffix-files_suffix n a)

pub kept_path-NoList : (n : Text) → NoList (kept_path n kept_suffix)
unfolding installed_path kept_path data_path text_eq
kept_path-NoList n a = (refl, kept_suffix-files_suffix n a)

-- Two bundles with one path of the lists have one name.
same_installed :
    (n a : Text)
    → text_eq (installed_path n files_suffix) (installed_path a files_suffix) ≡ true
    → n ≡ a
unfolding installed_path data_path text_eq
same_installed n a h =
    append_cancel_right n a files_suffix ((text_eq_iff (n ++ files_suffix) (a ++ files_suffix)).0 h)

same_kept :
    (n a : Text) → text_eq (kept_path n files_suffix) (kept_path a files_suffix) ≡ true → n ≡ a
unfolding kept_path text_eq
same_kept n a h =
    append_cancel_right n a files_suffix ((text_eq_iff (n ++ files_suffix) (a ++ files_suffix)).0 h)

-- The list that stands where one was written.
list_after :
    (written path list p : Text) (mode : ℕ) (d : Disk)
    → Has p
        (recorded_text (find_in list (put_in path (record { mode = mode; content = written }) d)))
    → Has p (recorded_text (find_in list d))
      ⊎ ((text_eq path list ≡ true) × Has p (recorded_lines (lines written)))
unfolding recorded_text
list_after written path list p mode d h = elim (Bool-cases (text_eq path list)) [
  | inl e ↦
      inr (e, rw (find_in-put_in path list (record { mode = mode; content = written }) d, e) at h)
  | inr e ↦
      inl (rw (find_in-put_in path list (record { mode = mode; content = written }) d, e) at h)
]

Grows-put_list :
    (name written path : Text) (mode : ℕ) (d : Disk)
    → ((a : Text) → text_eq path (installed_path a files_suffix) ≡ true → name ≡ a)
    → ((a : Text) → text_eq path (kept_path a files_suffix) ≡ true → name ≡ a)
    → Grows name written d (put_in path (record { mode = mode; content = written }) d)
Grows-put_list name written path mode d own own_kept a p (inl h) =
    elim (list_after written path (installed_path a files_suffix) p mode d h) [
      | inl k ↦ inl (inl k)
      | inr (e, k) ↦ inr (sym (own a e), k)
    ]
Grows-put_list name written path mode d own own_kept a p (inr h) =
    elim (list_after written path (kept_path a files_suffix) p mode d h) [
      | inl k ↦ inl (inr k)
      | inr (e, k) ↦ inr (sym (own_kept a e), k)
    ]

write_list-KeepsLists :
    (host : Host) (name written path : Text) (mode : ℕ)
    → ((a : Text) → text_eq path (installed_path a files_suffix) ≡ true → name ≡ a)
    → ((a : Text) → text_eq path (kept_path a files_suffix) ≡ true → name ≡ a)
    → KeepsLists name written (write_file host path written mode)
unfolding write_file
write_list-KeepsLists host name written path mode own own_kept d =
    elim (Bool-cases (host.no_write d path)) [
      | inl e ↦ rw e (λ a p h. inl h)
      | inr e ↦ rw e (Grows-put_list name written path mode d own own_kept)
    ]

pub installed_list-KeepsLists :
    (host : Host) (name written : Text) (mode : ℕ)
    → KeepsLists name written (write_file host (installed_path name files_suffix) written mode)
unfolding installed_path kept_path data_path text_eq
installed_list-KeepsLists host name written mode =
    write_list-KeepsLists host name written (installed_path name files_suffix) mode
      (same_installed name) (λ a h. absurd (ground (arith, h)))

pub kept_list-KeepsLists :
    (host : Host) (name written : Text) (mode : ℕ)
    → KeepsLists name written (write_file host (kept_path name files_suffix) written mode)
unfolding installed_path kept_path data_path text_eq
kept_list-KeepsLists host name written mode =
    write_list-KeepsLists host name written (kept_path name files_suffix) mode
      (λ a h. absurd (ground (arith, h))) (same_kept name)
