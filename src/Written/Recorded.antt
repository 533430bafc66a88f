-- ===== src/Written/Recorded.antt =====
-- What the record of src/written.rs holds after a run.
use detc.Base.{
  ◌≡◌, refl, ap, ◌∙◌, Bool, true, false, ◌||◌, inl, inr, Option, none, some, List, [], ◌∷◌, ◌++◌,
  Text, text_eq, text_eq_refl, arith, Bool-cases, All,
}
use detc.Base.Dict.{find_in, find_in-put_in, find_in-drop_in}
use detc.Apply.Naming.{files_key, digest}
use detc.Apply.Change.{Change}
use detc.Written.{
  Written, System, Instantiated, instantiated, Applied, applied, is_some, record_file,
  record_instantiated, record_applied, record_change, record_plan, wrote,
}

module _ (root : Text) (sha256 : Text → Text) where
  -- The file that a change which worked out puts in the system, by its key.
  abbrev pub writes : Change → Text → Bool
  writes c k = elim (instantiated c) [ none ↦ false | some i ↦ text_eq (files_key root i.path) k ]

  record_file_other :
      (sys : System) (i : Instantiated) (content : Option Text) (w : Written) (k : Text)
      → text_eq (files_key root i.path) k ≡ false
      → find_in k (record_file root sha256 sys i content w).files ≡ find_in k w.files
  unfolding record_file
  record_file_other sys i (some content) w k h = ground (
    arith,
    find_in-put_in (files_key root i.path) k
        (record { digest = digest sha256 content; template = files_key root i.template }) w.files,
    h,
  )
  record_file_other sys i none w k h = elim (Bool-cases (sys.exists i.path)) [
    | inl e ↦ rw e refl
    | inr e ↦ rw e (ground (arith, find_in-drop_in (files_key root i.path) k w.files, h))
  ]

  record_applied_files :
      (a : Option Applied) (w : Written) → (record_applied root sha256 a w).files ≡ w.files
  unfolding record_applied
  record_applied_files none w = refl
  record_applied_files (some a) w = refl

  record_instantiated_other :
      (sys : System) (o : Option Instantiated) (w : Written) (k : Text)
      → (elim o [ none ↦ false | some i ↦ text_eq (files_key root i.path) k ]) ≡ false
      → find_in k (record_instantiated root sha256 sys o w).files ≡ find_in k w.files
  unfolding record_instantiated
  record_instantiated_other sys none w k h = refl
  record_instantiated_other sys (some i) w k h = record_file_other sys i i.content w k h

  record_change_other :
      (sys : System) (c : Change) (w : Written) (k : Text)
      → writes c k ≡ false
      → find_in k (record_change root sha256 sys c w).files ≡ find_in k w.files
  unfolding record_change
  record_change_other sys c w k h = elim (Bool-cases (is_some c.error || is_some c.skipped)) [
    | inl e ↦ rw e refl
    | inr e ↦ rw e (
        ap (find_in k) (
          record_applied_files (applied c) (record_instantiated root sha256 sys (instantiated c) w))
        ∙ record_instantiated_other sys (instantiated c) w k h)
  ]

  record_plan_other :
      (sys : System) (cs : List Change) (w : Written) (k : Text)
      → All (λ c. writes c k ≡ false) cs
      → find_in k (record_plan root sha256 sys cs w).files ≡ find_in k w.files
  unfolding record_plan
  record_plan_other sys [] w k h = refl
  record_plan_other sys (c ∷ cs) w k h =
      record_plan_other sys cs (record_change root sha256 sys c w) k h.1
      ∙ record_change_other sys c w k h.0

  record_plan-append :
      (sys : System) (cs ds : List Change) (w : Written)
      → record_plan root sha256 sys (cs ++ ds) w
        ≡ record_plan root sha256 sys ds (record_plan root sha256 sys cs w)
  unfolding record_plan
  record_plan-append sys [] ds w = refl
  record_plan-append sys (c ∷ cs) ds w =
      record_plan-append sys cs ds (record_change root sha256 sys c w)

  record_instantiated_file :
      (sys : System) (o : Option Instantiated) (w : Written) (i : Instantiated) (content : Text)
      → o ≡ some i
      → i.content ≡ some content
      → find_in (files_key root i.path) (record_instantiated root sha256 sys o w).files
        ≡ some (record { digest = digest sha256 content; template = files_key root i.template })
  unfolding record_instantiated record_file
  record_instantiated_file sys o w i content e h =
      rw (e, h, record_instantiated, record_file)
        (find_in-put_in (files_key root i.path) (files_key root i.path) _ w.files
          ∙ rw (text_eq_refl (files_key root i.path)) refl)

  record_change_file :
      (sys : System) (c : Change) (w : Written) (i : Instantiated) (content : Text)
      → c.error ≡ none
      → c.skipped ≡ none
      → instantiated c ≡ some i
      → i.content ≡ some content
      → find_in (files_key root i.path) (record_change root sha256 sys c w).files
        ≡ some (record { digest = digest sha256 content; template = files_key root i.template })
  unfolding record_change
  record_change_file sys c w i content e s o h =
      let quiet : is_some c.error || is_some c.skipped ≡ false = ground (arith, e, s) in
      rw quiet (
        ap (find_in (files_key root i.path)) (
          record_applied_files (applied c) (record_instantiated root sha256 sys (instantiated c) w))
        ∙ record_instantiated_file sys (instantiated c) w i content o h)

  -- After a plan is recorded, `wrote` answers yes for the content that a change instantiated,
  -- where the change neither failed nor was skipped and no later one writes to the same key.
  pub wrote-record_plan :
      (sys : System) (before after : List Change) (c : Change) (w : Written) (i : Instantiated)
      (content : Text)
      → c.error ≡ none
      → c.skipped ≡ none
      → instantiated c ≡ some i
      → i.content ≡ some content
      → All (λ d. writes d (files_key root i.path) ≡ false) after
      → wrote root sha256
          (files_key root i.path)
          content
          (record_plan root sha256 sys (before ++ (c ∷ after)) w)
        ≡ true
  unfolding wrote
  wrote-record_plan sys before after c w i content e s o h later =
      let held : find_in (files_key root i.path)
            (record_plan root sha256 sys (before ++ (c ∷ after)) w).files
          ≡ some (record { digest = digest sha256 content; template = files_key root i.template }) =
        ap (λ t. find_in (files_key root i.path) t.files)
          (record_plan-append sys before (c ∷ after) w)
        ∙ unfold record_plan in
          record_plan_other sys after
            (record_change root sha256 sys c (record_plan root sha256 sys before w))
            (files_key root i.path) later
          ∙ record_change_file sys c (record_plan root sha256 sys before w) i content e s o h in
      rw (held, wrote) (text_eq_refl (digest sha256 content))
