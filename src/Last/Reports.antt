-- ===== src/Last/Reports.antt =====
-- The document of src/last.rs says what the run of src/detc.rs reported.
use detc.Base.{
  ◌≡◌, refl, ap, ℕ, suc, ◌+◌, Bool, true, Option, none, some, List, [], ◌∷◌, map, Result, ok, Text,
  length, All, arith, ◌==◌, Bool-cases, Result-cases, inl, inr,
}
use detc.Apply.Change.{Change, Answers, Fault, changes, apply, apply_target, skip}
use detc.Apply.Run.{Event, failure, blocked, attempt, noted, run_from, run}
use detc.Last.Told.{
  AreTold, nothing_told, then_told, IsLeft, left_skipped, left_errored, left_done, IsLeft-IsTold,
}
use detc.Last.{Object, Document, found_objects, one_if_some, after_all, write}

-- An object of a plan that nothing happened to yet.
abbrev pub IsFresh : Change → Type 0
IsFresh c = (c.error ≡ none) × (c.skipped ≡ none)

module _ (read : Text → Result Text Text) (word : Fault → Text) where
  apply-IsLeft : (a : Answers) (c : Change) → IsFresh c → IsLeft read word c (attempt a c none)
  unfolding attempt apply
  apply-IsLeft a c h = elim (Bool-cases (changes c.action)) [
    | inr e ↦ rw (e, apply) (left_done c h.1 h.0 refl)
    | inl e ↦
        rw (e, apply)
          (elim (Result-cases (apply_target a c.target).0) [
            | inl (u, q) ↦ rw q (left_done _ h.1 h.0 refl)
            | inr (x, q) ↦ rw q (left_errored x _ h.1 refl)
          ])
  ]

  attempt-IsLeft :
      (a : Answers) (c : Change) (b : Option Text) → IsFresh c → IsLeft read word c (attempt a c b)
  unfolding attempt skip
  attempt-IsLeft a c none h = apply-IsLeft a c h
  attempt-IsLeft a c (some r) h = left_skipped r _ refl h.0

  IsLeft-failure :
      (c : Change) (step : Event × Change)
      → IsLeft read word c step
      → one_if_some read word step.1.error ≡ failure step.0
  IsLeft-failure c _ (left_skipped r d s e) = ap (one_if_some read word) e
  IsLeft-failure c _ (left_errored x d s e) = ap (one_if_some read word) e
  IsLeft-failure c _ (left_done d s e a) = ap (one_if_some read word) e

  -- A plan that lines up with the objects is written.
  write_lined :
      (command : Text) (full : Bool) (os : List Object) (cs : List Change)
      → length os ≡ length cs
      → write read word os command full cs
        ≡ ok (record {
          command = command;
          complete = full;
          failed = (after_all read word os cs 0).1;
          objects = (after_all read word os cs 0).0;
        })
  unfolding write
  write_lined command full os cs h =
      let same : (length os == length cs) ≡ true = ground (arith, h) in rw (same, write) refl

  left : List (Event × Change) → List Change
  left events = map (λ e. e.1) events

  module _ (outside : ℕ → Answers) where
    run_from_told :
        (cs : List Change) (i n m : ℕ) (unsatisfied : List Text)
        → All IsFresh cs
        → n ≡ m
        → AreTold read word cs
            (run_from outside i unsatisfied m cs).0
            (after_all read word
              (found_objects read word cs)
              (left (run_from outside i unsatisfied m cs).0)
              n).0
          × ((after_all read word
                (found_objects read word cs)
                (left (run_from outside i unsatisfied m cs).0)
                n).1
              ≡ (run_from outside i unsatisfied m cs).1)
    unfolding run_from after_all found_objects left
    run_from_told [] i n m unsatisfied h e = (nothing_told, e)
    run_from_told (c ∷ cs) i n m unsatisfied h e =
        let step = attempt (outside i) c (blocked unsatisfied c) in
        let was = attempt-IsLeft (outside i) c (blocked unsatisfied c) h.0 in
        let counted = IsLeft-failure c step was in
        let rest =
          run_from_told cs (suc i) (n + one_if_some read word step.1.error) (m + failure step.0)
            (noted unsatisfied step.1) h.1 (omega (arith, e, counted)) in
        (then_told c step _ cs _ _ (IsLeft-IsTold read word c step was) rest.0, rest.1)

    length-run_from :
        (cs : List Change) (i m : ℕ) (unsatisfied : List Text)
        → length (found_objects read word cs)
          ≡ length (left (run_from outside i unsatisfied m cs).0)
    unfolding run_from found_objects left
    length-run_from [] i m unsatisfied = refl
    length-run_from (c ∷ cs) i m unsatisfied =
        let step = attempt (outside i) c (blocked unsatisfied c) in
        ap suc (length-run_from cs (suc i) (m + failure step.0) (noted unsatisfied step.1))

    -- For a plan of objects that nothing happened to yet, the document of a run is written with the
    -- command and whether the run was complete, its failures are as many as the run counted, and its
    -- objects are those of the plan in their order: each with its kind, its name and what was planned,
    -- the word of what the run reported, skipped, error or what was done, and why it was skipped or
    -- what it failed at; where it neither was skipped nor failed, the error is the first of its two
    -- snapshots that could not be taken.
    pub write-run :
        (command : Text) (full : Bool) (cs : List Change)
        → All IsFresh cs
        → (d : Document) × (write read word
              (found_objects read word cs)
              command
              full
              (map (λ e. e.1) (run outside cs).0)
            ≡ ok d)
          × (d.command ≡ command)
          × (d.complete ≡ full)
          × (d.failed ≡ (run outside cs).1)
          × AreTold read word cs (run outside cs).0 d.objects
    unfolding write run left
    write-run command full cs h =
        let (told, count) = run_from_told cs 0 0 0 [] h refl in
        let (objects, failed) =
          after_all read word (found_objects read word cs) (left (run_from outside 0 [] 0 cs).0)
            0 in
        (
          record { command = command; complete = full; failed = failed; objects = objects },
          write_lined command full (found_objects read word cs)
              (left (run_from outside 0 [] 0 cs).0) (length-run_from cs 0 0 []),
          refl,
          refl,
          count,
          told,
        )
