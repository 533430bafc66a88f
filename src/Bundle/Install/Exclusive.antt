-- ===== src/Bundle/Install/Exclusive.antt =====
-- No path belongs to two bundles, whatever is installed, removed or put back.
use detc.Base.{
  ◌≡◌, ◌∙◌, refl, sym, subst, ℕ, Bool, true, false, inl, inr, List, [], ◌∷◌, Result, ok, err, ◌>>=◌,
  ◌>>◌, Text, All, All-imp, Has, Result-cases, >>=-eq-ok, arith,
}
use detc.Base.Lines.{IsLine, lines}
use detc.Archive.Format.{Tar}
use detc.Bundle.Place.{Fault, installed_path, named_well}
use detc.Bundle.Place.Safe.{in_records}
use detc.Bundle.Disk.{
  Disk, Host, followed, return, state_suffix, files_suffix, listing, recorded_lines, recorded,
  add_path,
}
use detc.Bundle.Disk.Listed.{
  IsListed, listing-Has, All-add_path, installed_path-IsListed, IsMember-IsListed,
}
use detc.Bundle.Open.Contents.{IsMember, IsMember-outside, open_bundle-IsOpen}
use detc.Bundle.Disk.Steps.{Holds, Grows}
use detc.Bundle.Open.{Crates, Content, open_bundle}
use detc.Bundle.Install.{
  claim, claimed, claim_paths, wanted, lay_down, planned_install, install, arrived, difference_of,
  outcome_of, carry_out, paths_of,
}
use detc.Bundle.Install.LaysDown.{lay_down-KeepsLists}
use detc.Bundle.Install.Claims.{claimed_sound, claimed_covers, claim_paths-own}

-- Every path is one line.
abbrev pub AreLines : List (Text × ℕ × Text) → Type 0
AreLines files = All (λ f. IsLine f.0) files

paths_of-IsListed :
    (files : List (Text × ℕ × Text))
    → All IsMember files
    → AreLines files
    → All IsListed (paths_of files)
unfolding paths_of
paths_of-IsListed [] members h = tt
paths_of-IsListed (f ∷ files) members h =
    All-add_path IsListed f.0 (paths_of files) (IsMember-IsListed f members.0 h.0)
      (paths_of-IsListed files members.1 h.1)

-- A path that the lists of two bundles hold is of one bundle.
abbrev pub Exclusive : Disk → Type 0
Exclusive d =
    (a b path : Text)
    → named_well a ≡ true
    → named_well b ≡ true
    → Holds d a path
    → Holds d b path
    → a ≡ b

followed-return :
    {A B : Type 0} (b : B) (r : Result Fault A × Disk)
    → Exclusive r.1
    → Exclusive (followed (λ _. return b) r.0 r.1).1
followed-return b (ok a, d) h = h
followed-return b (err e, d) h = h

module _ (tar : Tar) (host : Host) (crates : Crates tar) where
  -- What was claimed is held by nobody else.
  claim-own :
      (name a p : Text) (w : List Text) (d : Disk)
      → claim tar host crates name w d ≡ ok tt
      → Exclusive d
      → named_well a ≡ true
      → Has p w
      → Holds d a p
      → a ≡ name
  unfolding claim
  claim-own name a p w d h ex well x k =
      let (m, e, later) =
        >>=-eq-ok (claimed tar host crates d) (λ m. claim_paths tar host crates d name w m) h in
      let (b, found) = claimed_covers tar host crates p a d m e well k in
      let (held, b_well) = claimed_sound tar host crates p b d m e found in
      ex a b p well b_well k held ∙ claim_paths-own tar host crates d name p b w m later x found

  -- A list that was claimed, laid down by its own name.
  grown-Exclusive :
      (name written : Text) (w : List Text) (d e : Disk)
      → Exclusive d
      → claim tar host crates name w d ≡ ok tt
      → ((p : Text) → Has p (recorded_lines (lines written)) → Has p w)
      → Grows name written d e
      → Exclusive e
  grown-Exclusive name written w d e ex h sub g a b p wa wb ka kb = elim (g a p ka) [
    | inl x ↦ elim (g b p kb) [
      | inl y ↦ ex a b p wa wb x y
      | inr (eb, y) ↦ claim-own name a p w d h ex wa (sub p y) x ∙ sym eb
    ]
    | inr (ea, x) ↦ elim (g b p kb) [
      | inl y ↦ ea ∙ sym (claim-own name b p w d h ex wb (sub p x) y)
      | inr (eb, y) ↦ ea ∙ sym eb
    ]
  ]

  wanted-IsListed :
      (content : Content)
      → named_well content.bundle.name ≡ true
      → All IsMember content.files
      → AreLines content.files
      → All IsListed (wanted content)
  unfolding wanted
  wanted-IsListed content well members h =
      let (state, files) = installed_path-IsListed content.bundle.name well in
      All-add_path IsListed (installed_path content.bundle.name files_suffix)
        (add_path (installed_path content.bundle.name state_suffix) (paths_of content.files)) files
        (All-add_path IsListed (installed_path content.bundle.name state_suffix)
          (paths_of content.files) state (paths_of-IsListed content.files members h))

  -- What an install has found out before it writes.
  pub record IsPlanned (content : Content) (file : tar.Archive) (allow : Bool) (d : Disk)
      : Type 1 where
    pub opened : Content
    pub is_opened : open_bundle tar host crates file allow d ≡ ok opened
    pub same_name : opened.bundle.name ≡ content.bundle.name
    pub same_files : opened.files ≡ content.files
    pub is_claimed : claim tar host crates content.bundle.name (wanted content) d ≡ ok tt

  pub planned_install-IsPlanned :
      (file : tar.Archive) (origin : Text) (persist allow : Bool) (d : Disk)
      (plan : Content × List Text)
      → planned_install tar host crates file origin persist allow d ≡ ok plan
      → IsPlanned plan.0 file allow d
  unfolding planned_install
  planned_install-IsPlanned file origin persist allow d plan h =
      let (opened, e, h1) =
        >>=-eq-ok (open_bundle tar host crates file allow d)
          (λ opened.
            let content = arrived origin persist opened in
            claim tar host crates content.bundle.name (wanted content) d
            >> recorded host (installed_path content.bundle.name files_suffix) d
            >>= λ previous. ok (content, difference_of previous (wanted content)))
          h in
      let content = arrived origin persist opened in
      let (previous, h2, last) =
        >>=-eq-ok
          (claim tar host crates content.bundle.name (wanted content) d
            >> recorded host (installed_path content.bundle.name files_suffix) d)
          (λ previous. ok (content, difference_of previous (wanted content))) h1 in
      let (_, claimed_first, _) =
        >>=-eq-ok (claim tar host crates content.bundle.name (wanted content) d)
          (λ _. recorded host (installed_path content.bundle.name files_suffix) d) h2 in
      subst (λ (p : Content × List Text). IsPlanned p.0 file allow d)
        {x = (content, difference_of previous (wanted content))} {y = plan} (ground (arith, last))
        (record {
          opened = opened;
          is_opened = e;
          same_name = refl;
          same_files = refl;
          is_claimed = claimed_first;
        })

  laid-Exclusive :
      (content : Content) (stale : List Text) (file : tar.Archive) (persist allow : Bool) (d : Disk)
      → IsPlanned content file allow d
      → AreLines content.files
      → Exclusive d
      → Exclusive (lay_down tar host crates content stale file persist d).1
  laid-Exclusive content stale file persist allow d plan lines_of ex =
      let (well, members) =
        open_bundle-IsOpen tar host crates file allow d plan.opened plan.is_opened in
      let well_named = subst (λ n. named_well n ≡ true) plan.same_name well in
      let here = subst (All IsMember) plan.same_files members in
      grown-Exclusive content.bundle.name (listing (wanted content)) (wanted content) d
        (lay_down tar host crates content stale file persist d).1 ex plan.is_claimed
        (λ p. listing-Has p (wanted content) (wanted-IsListed content well_named here lines_of))
        (lay_down-KeepsLists tar host crates content stale file persist
          (All-imp IsMember (λ f. in_records f.0 ≡ false) content.files IsMember-outside here) d)

  carried_out :
      (file : tar.Archive) (persist allow dry : Bool) (d : Disk) (plan : Content × List Text)
      → Exclusive d
      → ((content : Content)
          → open_bundle tar host crates file allow d ≡ ok content
          → AreLines content.files)
      → IsPlanned plan.0 file allow d
      → Exclusive (carry_out tar host crates dry plan file persist d).1
  unfolding carry_out
  carried_out file persist allow true d plan ex lines_of p = ex
  carried_out file persist allow false d plan ex lines_of p =
      followed-return (outcome_of tar host crates plan)
        (lay_down tar host crates plan.0 plan.1 file persist d)
        (laid-Exclusive plan.0 plan.1 file persist allow d p
          (subst AreLines p.same_files (lines_of p.opened p.is_opened)) ex)

  -- If no path is of two bundles, none is after an install, however it ends, where the paths of the
  -- files of the bundle are one line each.
  pub install-Exclusive :
      (file : tar.Archive) (origin : Text) (persist allow_unsigned dry_run : Bool) (d : Disk)
      → ((content : Content)
          → open_bundle tar host crates file allow_unsigned d ≡ ok content
          → AreLines content.files)
      → Exclusive d
      → Exclusive (install tar host crates file origin persist allow_unsigned dry_run d).1
  unfolding install
  install-Exclusive file origin persist allow_unsigned dry_run d lines_of ex =
      elim (Result-cases (planned_install tar host crates file origin persist allow_unsigned d)) [
        | inr (x, e) ↦ rw (install, e) ex
        | inl (plan, e) ↦
            rw (install, e)
              (carried_out file persist allow_unsigned dry_run d plan ex lines_of
                (planned_install-IsPlanned file origin persist allow_unsigned d plan e))
      ]
