-- ===== src/Apply/Plan/Converges.antt =====
-- Planning a template again after its change was applied, in src/apply.rs and src/written.rs.
use detc.Base.{
  ◌≡◌, refl, ap, ◌∙◌, true, false, Option, none, some, Text, text_eq, text_eq_iff, text_eq_refl,
  arith, Bool-cases, Option-cases, inl, inr,
}
use detc.Base.Dict.{find_in, drop_in, find_in-drop_in}
use detc.Written.{Written, System, Instantiated, wrote, record_file, record_change}
use detc.Apply.Naming.{files_key}
use detc.Apply.Change.{Action, in_sync, remove}
use detc.Apply.Plan.{content_of, TargetFile, template_action, template_change}

-- The file once the change has been applied: what was written, or nothing.
abbrev pub file_after : Action → Option Text → TargetFile → TargetFile
file_after in_sync content f = f
file_after _ (some content) f = record { text = some content; exists = true }
file_after _ none f = record { text = none; exists = false }

module _ (root : Text) (sha256 : Text → Text) where
  action-remove :
      (w : Written) (path : Text) (o : Option Text) (f : TargetFile)
      → template_action root sha256 w path o f ≡ remove
      → (o ≡ none)
        × ((current : Text) × (f.text ≡ some current)
            × (wrote root sha256 (files_key root path) current w ≡ true))
  unfolding template_action
  action-remove w path (some content) f h = elim (Option-cases f.text) [
    | inl e ↦ elim (Bool-cases f.exists) [
      | inl x ↦ absurd (ground (arith, rw (e, x, template_action) at h))
      | inr x ↦ absurd (ground (arith, rw (e, x, template_action) at h))
    ]
    | inr (current, e) ↦ elim (Bool-cases (text_eq current content)) [
      | inl x ↦ absurd (ground (arith, rw (e, x, template_action) at h))
      | inr x ↦ absurd (ground (arith, rw (e, x, template_action) at h))
    ]
  ]
  action-remove w path none f h = elim (Option-cases f.text) [
    | inl e ↦ absurd (ground (arith, rw (e, template_action) at h))
    | inr (current, e) ↦ elim (Bool-cases (wrote root sha256 (files_key root path) current w)) [
      | inl x ↦ (refl, (current, e, x))
      | inr x ↦ absurd (ground (arith, rw (e, x, template_action) at h))
    ]
  ]

  -- The plan removes the file of a template only where the template renders to blank and the
  -- file can be read and holds, by the digest recorded for it, what detc wrote.
  pub template_change-remove :
      (w : Written) (source path : Text) (f : TargetFile) (rendered : Text)
      → (template_change root sha256 w source path f rendered).action ≡ remove
      → (content_of rendered ≡ none)
        × ((current : Text) × (f.text ≡ some current)
            × (wrote root sha256 (files_key root path) current w ≡ true))
  unfolding template_change
  template_change-remove w source path f rendered h = action-remove w path (content_of rendered) f h

  written_again :
      (v : Written) (path content : Text) (f : TargetFile)
      → f.text ≡ some content
      → template_action root sha256 v path (some content) f ≡ in_sync
  unfolding template_action
  written_again v path content f e = rw (e, template_action) (rw (text_eq_refl content) refl)

  gone_again :
      (v : Written) (path : Text) (f : TargetFile)
      → f.text ≡ none
      → template_action root sha256 v path none f ≡ in_sync
  unfolding template_action
  gone_again v path f e = rw (e, template_action) refl

  action-in_sync :
      (w : Written) (path content : Text) (f : TargetFile)
      → template_action root sha256 w path (some content) f ≡ in_sync
      → f.text ≡ some content
  unfolding template_action
  action-in_sync w path content f h = elim (Option-cases f.text) [
    | inl e ↦ elim (Bool-cases f.exists) [
      | inl x ↦ absurd (ground (arith, rw (e, x, template_action) at h))
      | inr x ↦ absurd (ground (arith, rw (e, x, template_action) at h))
    ]
    | inr (current, e) ↦ elim (Bool-cases (text_eq current content)) [
      | inl x ↦ e ∙ ap some ((text_eq_iff current content).0 x)
      | inr x ↦ absurd (ground (arith, rw (e, x, template_action) at h))
    ]
  ]

  some_again :
      (v : Written) (path content : Text) (f : TargetFile) (a : Action)
      → (a ≡ in_sync → f.text ≡ some content)
      → template_action root sha256 v path (some content) (file_after a (some content) f) ≡ in_sync
  some_again v path content f in_sync h = written_again v path content f (h refl)
  some_again v path content f _ h =
      written_again v path content (record { text = some content; exists = true }) refl

  none_again :
      (v : Written) (path : Text) (f : TargetFile) (a : Action)
      → (a ≡ in_sync → template_action root sha256 v path none f ≡ in_sync)
      → template_action root sha256 v path none (file_after a none f) ≡ in_sync
  none_again v path f in_sync h = h refl
  none_again v path f _ h = gone_again v path (record { text = none; exists = false }) refl

  -- A template with nothing to say leaves the record as it is, or takes its file out.
  wrote-record_file :
      (sys : System) (i : Instantiated) (w : Written) (current : Text)
      → wrote root sha256 (files_key root i.path) current w ≡ false
      → wrote root sha256 (files_key root i.path) current (record_file root sha256 sys i none w)
        ≡ false
  unfolding record_file wrote
  wrote-record_file sys i w current h = elim (Bool-cases (sys.exists i.path)) [
    | inl e ↦ rw e h
    | inr e ↦
        let dropped : find_in (files_key root i.path) (drop_in (files_key root i.path) w.files)
            ≡ none =
          find_in-drop_in (files_key root i.path) (files_key root i.path) w.files
          ∙ rw (text_eq_refl (files_key root i.path)) refl in
        rw (e, dropped, wrote) refl
  ]

  none_stays :
      (w v : Written) (path : Text) (f : TargetFile)
      → ((current : Text)
          → wrote root sha256 (files_key root path) current w ≡ false
          → wrote root sha256 (files_key root path) current v ≡ false)
      → template_action root sha256 w path none f ≡ in_sync
      → template_action root sha256 v path none f ≡ in_sync
  unfolding template_action
  none_stays w v path f keep h = elim (Option-cases f.text) [
    | inl e ↦ rw (e, template_action) refl
    | inr (current, e) ↦ elim (Bool-cases (wrote root sha256 (files_key root path) current w)) [
      | inl x ↦ absurd (ground (arith, rw (e, x, template_action) at h))
      | inr x ↦ rw (e, template_action) (rw (keep current x) refl)
    ]
  ]

  again :
      (sys : System) (w : Written) (source path : Text) (f : TargetFile) (o : Option Text)
      → template_action root sha256
          (record_file root sha256 sys (record { path = path; template = source; content = o }) o w)
          path
          o
          (file_after (template_action root sha256 w path o f) o f)
        ≡ in_sync
  again sys w source path f (some content) =
      some_again _ path content f (template_action root sha256 w path (some content) f)
        (action-in_sync w path content f)
  again sys w source path f none =
      none_again
        (record_file root sha256 sys (record { path = path; template = source; content = none })
          none w)
        path f (template_action root sha256 w path none f)
        (none_stays w _ path f
          (wrote-record_file sys (record { path = path; template = source; content = none }) w))

  -- Planned again, with the record that applying the template left and the file holding what was
  -- written or nothing, the template is in sync. What the file system answers `exists` by is
  -- free.
  pub template_change_again :
      (sys : System) (w : Written) (source path : Text) (f : TargetFile) (rendered : Text)
      → (template_change root sha256
          (record_change root sha256 sys (template_change root sha256 w source path f rendered) w)
          source
          path
          (file_after
            (template_change root sha256 w source path f rendered).action
            (content_of rendered)
            f)
          rendered).action
        ≡ in_sync
  unfolding template_change record_change
  template_change_again sys w source path f rendered =
      again sys w source path f (content_of rendered)
