-- ===== src/Bundle/Install/DryRun.antt =====
-- A dry run says what an install would do and does nothing.
use detc.Base.{
  ◌≡◌, ◌∙◌, refl, ap, Bool, true, false, inl, inr, List, Result, ok, err, Text, Result-cases, arith,
}
use detc.Archive.Format.{Tar}
use detc.Bundle.Place.{Fault}
use detc.Bundle.Disk.{Disk, Host, followed, return}
use detc.Bundle.Open.{Crates, Content}
use detc.Bundle.Install.{Outcome, carry_out, lay_down, planned_install, install, outcome_of}

followed_ok :
    {A B : Type 0} (b c : B) (r : Result Fault A × Disk)
    → (followed (λ _. return b) r.0 r.1).0 ≡ ok c
    → b ≡ c
followed_ok b c (ok a, d) h = ground (arith, h)
followed_ok b c (err e, d) h = absurd (ground (arith, h))

module _ (tar : Tar) (host : Host) (crates : Crates tar) where
  carried_outcome :
      (plan : Content × List Text) (file : tar.Archive) (persist : Bool) (d : Disk) (o : Outcome)
      → (carry_out tar host crates false plan file persist d).0 ≡ ok o
      → outcome_of tar host crates plan ≡ o
  unfolding carry_out
  carried_outcome plan file persist d o h =
      followed_ok (outcome_of tar host crates plan) o
        (lay_down tar host crates plan.0 plan.1 file persist d) h

  dry_disk :
      (plan : Content × List Text) (file : tar.Archive) (persist : Bool) (d : Disk)
      → (carry_out tar host crates true plan file persist d).1 ≡ d
  unfolding carry_out
  dry_disk plan file persist d = refl

  dry_outcome :
      (plan : Content × List Text) (file : tar.Archive) (persist : Bool) (d : Disk)
      → (carry_out tar host crates true plan file persist d).0
        ≡ ok (outcome_of tar host crates plan)
  unfolding carry_out
  dry_outcome plan file persist d = refl

  -- A dry run leaves every file as it is, and where the install itself succeeds the dry run before
  -- it has the same outcome.
  pub dry_run-install :
      (file : tar.Archive) (origin : Text) (persist allow_unsigned : Bool) (d : Disk)
      → ((install tar host crates file origin persist allow_unsigned true d).1 ≡ d)
        × ((o : Outcome)
            → (install tar host crates file origin persist allow_unsigned false d).0 ≡ ok o
            → (install tar host crates file origin persist allow_unsigned true d).0 ≡ ok o)
  unfolding install
  dry_run-install file origin persist allow_unsigned d =
      elim (Result-cases (planned_install tar host crates file origin persist allow_unsigned d)) [
        | inr (x, e) ↦ (rw (install, e) refl, λ o h. absurd (ground (arith, rw (install, e) at h)))
        | inl (plan, e) ↦ (
          rw (install, e) (dry_disk plan file persist d),
          λ o h.
              rw (install, e)
                (dry_outcome plan file persist d
                  ∙ ap ok (carried_outcome plan file persist d o (rw (install, e) at h))),
        )
      ]
