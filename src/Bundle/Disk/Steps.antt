-- ===== src/Bundle/Disk/Steps.antt =====
-- What the changes of the disk do to the lists of what the bundles wrote.
use detc.Base.{
  ◌≡◌, refl, ap, ℕ, true, false, ◌⊎◌, inl, inr, List, [], ◌∷◌, Result, ok, err, Text, text_eq,
  text_eq_iff, All, Has, Bool-cases, Option-cases, arith,
}
use detc.Base.Dict.{find_in, put_in, drop_in, find_in-put_in, find_in-drop_in}
use detc.Base.Lines.{lines}
use detc.Bundle.Place.{Fault, installed_path, kept_path, data_path}
use detc.Bundle.Place.Safe.{in_records}
use detc.Bundle.Led.{led_to}
use detc.Bundle.Disk.{
  File, Disk, Host, Io, followed, ◌>>>=◌, ◌>>>◌, state_suffix, files_suffix, kept_suffix,
  recorded_text, recorded_lines, write_file, remove_at, remove_file, discard, write_files, unlink,
  unlink_all,
}

-- A path is in one of the two lists of a bundle.
abbrev pub Holds : Disk → Text → Text → Type 0
Holds d name path =
    Has path (recorded_text (find_in (installed_path name files_suffix) d))
    ⊎ Has path (recorded_text (find_in (kept_path name files_suffix) d))

-- No list grew, except those of one bundle, by paths of the list that it was given.
abbrev pub Grows : Text → Text → Disk → Disk → Type 0
Grows name written d e =
    (a path : Text)
    → Holds e a path
    → Holds d a path ⊎ ((a ≡ name) × Has path (recorded_lines (lines written)))

abbrev pub KeepsLists : {A : Type 0} → Text → Text → Io A → Type 0
KeepsLists name written m = (d : Disk) → Grows name written d (m d).1

abbrev pub Grows-trans :
    (name written : Text) (d e f : Disk)
    → Grows name written d e
    → Grows name written e f
    → Grows name written d f
Grows-trans name written d e f g h a path k = elim (h a path k) [
  | inl x ↦ g a path x
  | inr x ↦ inr x
]

followed-Grows :
    {A B : Type 0} (name written : Text) (f : A → Io B) (d : Disk) (r : Result Fault A) (e : Disk)
    → Grows name written d e
    → ((a : A) → KeepsLists name written (f a))
    → Grows name written d (followed f r e).1
followed-Grows name written f d (ok a) e g h = Grows-trans name written d e (f a e).1 g (h a e)
followed-Grows name written f d (err x) e g h = g

-- One change behind another.
pub >>>=-KeepsLists :
    {A B : Type 0} (name written : Text) (m : Io A) (f : A → Io B)
    → KeepsLists name written m
    → ((a : A) → KeepsLists name written (f a))
    → KeepsLists name written (m >>>= f)
>>>=-KeepsLists name written m f g h d = followed-Grows name written f d (m d).0 (m d).1 (g d) h

-- A path that is no list.
abbrev pub NoList : Text → Type 0
NoList path =
    (a : Text)
    → (text_eq path (installed_path a files_suffix) ≡ false)
      × (text_eq path (kept_path a files_suffix) ≡ false)

Grows-put_in :
    (name written path : Text) (f : File) (d : Disk)
    → NoList path
    → Grows name written d (put_in path f d)
Grows-put_in name written path f d free a p h = inl (
    rw
      (
        find_in-put_in path (installed_path a files_suffix) f d,
        find_in-put_in path (kept_path a files_suffix) f d,
        (free a).0,
        (free a).1,
      )
      at h)

pub write_file-KeepsLists :
    (host : Host) (name written path content : Text) (mode : ℕ)
    → NoList path
    → KeepsLists name written (write_file host path content mode)
unfolding write_file
write_file-KeepsLists host name written path content mode free d =
    elim (Bool-cases (host.no_write d path)) [
      | inl e ↦ rw e (λ a p h. inl h)
      | inr e ↦
          rw e (Grows-put_in name written path (record { mode = mode; content = content }) d free)
    ]

dropped_list :
    (path list p : Text) (d : Disk)
    → Has p (recorded_text (find_in list (drop_in path d)))
    → Has p (recorded_text (find_in list d))
unfolding recorded_text
dropped_list path list p d h = elim (Bool-cases (text_eq path list)) [
  | inl e ↦ absurd (rw (find_in-drop_in path list d, e) at h)
  | inr e ↦ rw (find_in-drop_in path list d, e) at h
]

Grows-drop_in : (name written path : Text) (d : Disk) → Grows name written d (drop_in path d)
Grows-drop_in name written path d a p (inl h) =
    inl (inl (dropped_list path (installed_path a files_suffix) p d h))
Grows-drop_in name written path d a p (inr h) =
    inl (inr (dropped_list path (kept_path a files_suffix) p d h))

remove_at-KeepsLists :
    (host : Host) (name written asked path : Text)
    → KeepsLists name written (remove_at host asked path)
unfolding remove_at
remove_at-KeepsLists host name written asked path d = elim (Bool-cases (host.no_remove d path)) [
  | inl e ↦ rw e (λ a p h. inl h)
  | inr e ↦ rw e (Grows-drop_in name written path d)
]

pub remove_file-KeepsLists :
    (host : Host) (name written path : Text) → KeepsLists name written (remove_file host path)
unfolding remove_file
remove_file-KeepsLists host name written path = remove_at-KeepsLists host name written path path

unlink-KeepsLists :
    (host : Host) (name written path : Text) → KeepsLists name written (unlink host path)
unfolding unlink
unlink-KeepsLists host name written path d = elim (Option-cases (led_to d path)) [
  | inl e ↦ rw (unlink, e) (λ a p h. inl h)
  | inr (at, e) ↦ rw (unlink, e) (remove_at-KeepsLists host name written path at d)
]

pub discard-KeepsLists :
    (host : Host) (name written n : Text) → KeepsLists name written (discard host n)
unfolding discard
discard-KeepsLists host name written n =
    let gone = remove_file-KeepsLists host name written in
    >>>=-KeepsLists name written (remove_file host (kept_path n kept_suffix))
      (λ _.
        remove_file host (kept_path n state_suffix) >>> remove_file host (kept_path n files_suffix))
      (gone (kept_path n kept_suffix))
      (λ _.
        >>>=-KeepsLists name written (remove_file host (kept_path n state_suffix))
          (λ _. remove_file host (kept_path n files_suffix)) (gone (kept_path n state_suffix))
          (λ _. gone (kept_path n files_suffix)))

pub unlink_all-KeepsLists :
    (host : Host) (name written : Text) (paths : List Text)
    → KeepsLists name written (unlink_all host paths)
unfolding unlink_all
unlink_all-KeepsLists host name written [] = λ d a p h. inl h
unlink_all-KeepsLists host name written (path ∷ rest) =
    >>>=-KeepsLists name written (unlink host path) (λ _. unlink_all host rest)
      (unlink-KeepsLists host name written path) (λ _. unlink_all-KeepsLists host name written rest)

-- A path outside the records is no list.
pub outside-NoList : (path : Text) → in_records path ≡ false → NoList path
unfolding installed_path kept_path data_path
outside-NoList path h a = (
  not_equal path (installed_path a files_suffix) h refl,
  not_equal path (kept_path a files_suffix) h refl,
)
  where
    not_equal : (p q : Text) → in_records p ≡ false → in_records q ≡ true → text_eq p q ≡ false
    not_equal p q h k = elim (Bool-cases (text_eq p q)) [
      | inl e ↦ absurd (ground (arith, h, k, ap in_records ((text_eq_iff p q).0 e)))
      | inr e ↦ e
    ]

pub write_files-KeepsLists :
    (host : Host) (name written : Text) (files : List (Text × ℕ × Text))
    → All (λ f. in_records f.0 ≡ false) files
    → KeepsLists name written (write_files host files)
unfolding write_files
write_files-KeepsLists host name written [] h = λ d a p k. inl k
write_files-KeepsLists host name written ((path, mode, content) ∷ rest) h =
    >>>=-KeepsLists name written (write_file host path content mode) (λ _. write_files host rest)
      (write_file-KeepsLists host name written path content mode (outside-NoList path h.0))
      (λ _. write_files-KeepsLists host name written rest h.1)
