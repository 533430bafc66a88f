-- ===== src/Bundle/Disk/Corrupt.antt =====
-- What the lists of the bundles let through: a path that climbs out of the two trees, and a name with
-- a line break.
use detc.Base.{
  ◌≡◌, ◌∙◌, refl, sym, ap, ℕ, true, false, List, [], ◌∷◌, ◌++◌, append_assoc, Bool-cases, if_both,
  if◌then◌else◌, inr, subst, ok, some, Text, codes, text_eq, split, All, Has, is_empty, inl, arith,
  none, text_eq_iff, text_eq_refl,
}
use detc.Base.Lines.{IsLine, IsLine-append, newline, lines, unlines, lines-append}
use detc.Base.Trim.{trim}
use detc.Bundle.Place.{data_prefix, data_mode, data_path, in_tree, place, trees, ours}
use detc.Ladder.{path_lt}
use detc.Base.Dict.{find_in, find_in-drop_in}
use detc.Bundle.Led.{led_to}
use detc.Bundle.Disk.{
  File, Disk, Host, add_path, path_of, recorded_lines, recorded_text, listing, remove_at, unlink,
}
use detc.Bundle.Disk.Listed.{IsListed, KeepsComponent, tree-path_of}

Has-add_path : (p : Text) (qs : List Text) → Has p (add_path p qs)
unfolding add_path
Has-add_path p [] = inl refl
Has-add_path p (x ∷ qs) =
    if_both (Has p) (text_eq p x) (x ∷ qs)
      (if path_lt (split b'/' p) (split b'/' x) then p ∷ x ∷ qs else x ∷ add_path p qs)
      (λ e. inl ((text_eq_iff p x).0 e))
      (λ _.
        if_both (Has p) (path_lt (split b'/' p) (split b'/' x)) (p ∷ x ∷ qs) (x ∷ add_path p qs)
          (λ _. inl refl) (λ _. inr (Has-add_path p qs)))

Has-add_path_later : (p q : Text) (qs : List Text) → Has p qs → Has p (add_path q qs)
unfolding add_path
Has-add_path_later p q [] h = absurd h
Has-add_path_later p q (x ∷ qs) h =
    if_both (Has p) (text_eq q x) (x ∷ qs)
      (if path_lt (split b'/' q) (split b'/' x) then q ∷ x ∷ qs else x ∷ add_path q qs) (λ _. h)
      (λ _.
        if_both (Has p) (path_lt (split b'/' q) (split b'/' x)) (q ∷ x ∷ qs) (x ∷ add_path q qs)
          (λ _. inr h) (λ _. elim h [ inl e ↦ inl e | inr k ↦ inr (Has-add_path_later p q qs k) ]))

-- A line is recorded whatever the other lines say.
recorded_lines-Has :
    (p : Text) (ls : List Text)
    → Has p ls
    → path_of p ≡ p
    → ours p ≡ true
    → is_empty (trim p) ≡ false
    → Has p (recorded_lines ls)
unfolding recorded_lines
recorded_lines-Has p [] there same own filled = absurd there
recorded_lines-Has p (l ∷ ls) there same own filled = elim there [
  | inl e ↦ subst (λ t. Has p (recorded_lines (t ∷ ls))) e here
  | inr later ↦
      let known = recorded_lines-Has p ls later same own filled in
      elim (Bool-cases (is_empty (trim l))) [
        | inl e ↦ rw (recorded_lines, e) known
        | inr e ↦ elim (Bool-cases (ours (path_of l))) [
          | inl f ↦
              rw (recorded_lines, e, f) (Has-add_path_later p (path_of l) (recorded_lines ls) known)
          | inr f ↦ rw (recorded_lines, e, f) known
        ]
      ]
]
  where
    here : Has p (recorded_lines (p ∷ ls))
    here = rw (recorded_lines, filled, same, own) (Has-add_path p (recorded_lines ls))

-- A line of a list that is not blank, is written as a path and begins like one of the two trees is
-- recorded, wherever its components `..` lead, and removing it takes away the file that it leads to,
-- where the system does not refuse that.
pub recorded_text-climbing :
    (host : Host) (list : File) (p at : Text) (d : Disk)
    → Has p (lines list.content)
    → path_of p ≡ p
    → ours p ≡ true
    → is_empty (trim p) ≡ false
    → led_to d p ≡ some at
    → host.no_remove d at ≡ false
    → Has p (recorded_text (some list))
      × ((unlink host p d).0 ≡ ok tt)
      × (find_in at (unlink host p d).1 ≡ none)
unfolding recorded_text unlink remove_at
recorded_text-climbing host list p at d there same own filled leads free = (
  recorded_lines-Has p (lines list.content) there same own filled,
  rw (unlink, leads, free) refl,
  rw (unlink, leads, free) (rw (find_in-drop_in at at d, text_eq_refl at) refl),
)

-- A file in the directory of the templates, whose name goes on behind a line break.
abbrev pub broken_name : Text → Text → Text
broken_name a b = codes "templates.d/" ++ (a ++ (newline ∷ (data_prefix ++ b)))

broken_listing :
    (mode : ℕ) (a b : Text)
    → IsLine a
    → IsListed (data_prefix ++ b)
    → is_empty (trim (data_prefix ++ b)) ≡ false
    → Has (data_prefix ++ b) (
        recorded_text
          (some (record { mode = mode; content = listing (data_path (broken_name a b) ∷ []) })))
unfolding recorded_text listing unlines data_path ours text_eq lines
broken_listing mode a b ha hb filled =
    let first = codes "run/detc/templates.d/" ++ a in
    let rest = data_prefix ++ b in
    subst (λ ls. Has rest (recorded_lines ls))
      (sym (
        ap (λ x. lines (codes "run/detc/templates.d/" ++ x))
          (append_assoc a (newline ∷ rest) (newline ∷ []))
        ∙ lines-append first (rest ++ (newline ∷ []))
            (IsLine-append (codes "run/detc/templates.d/") a refl ha)
        ∙ ap (◌∷◌ first) (lines-append rest [] hb.0)))
      (recorded_lines-Has rest (first ∷ rest ∷ []) (inr (inl refl)) hb.1 (ground arith) filled)

-- A member in the directory of the templates is placed although its name goes on behind a line break
-- with a path under `run/detc`, and the list of what was written names that path as one of its own,
-- where both parts are one line, the path is not blank and its components are plain.
pub place-broken_name :
    (mode : ℕ) (a b : Text)
    → IsLine a
    → IsLine b
    → All KeepsComponent (split b'/' b)
    → is_empty (trim (data_prefix ++ b)) ≡ false
    → (place (broken_name a b) ≡ ok (data_path (broken_name a b), data_mode))
      × Has (data_prefix ++ b) (
          recorded_text
            (some (record { mode = mode; content = listing (data_path (broken_name a b) ∷ []) })))
unfolding data_path place in_tree text_eq trees
place-broken_name mode a b ha hb plain filled = (
  refl,
  broken_listing mode a b ha (IsLine-append data_prefix b refl hb, (tree-path_of b plain).0) filled,
)
