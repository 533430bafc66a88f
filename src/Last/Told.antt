-- ===== src/Last/Told.antt =====
-- What the document of src/last.rs has of one object: the kind, the name, what was planned, what became
-- of it and why.
use detc.Base.{
  ◌≡◌, refl, ap, ◌∙◌, Bool, Option, none, some, List, [], ◌∷◌, Result, ok, err, Text, codes, arith,
  if◌then◌else◌,
}
use detc.Apply.Change.{Change, Action, Fault, planned, taken, changes}
use detc.Apply.Snapshot.{Snapshot, found, applied, snapshot}
use detc.Apply.Run.{Event, skipped, errored, done}
use detc.Last.{Object, before, with_taken, with_reached, with_found, listed, requires_text, after}

-- The word of the document for what the run reports.
abbrev pub word_of : Event → Text
word_of (skipped requirement) = codes "skipped"
word_of (errored e) = codes "error"
word_of (done t) = t

-- The snapshot that could not be taken first.
abbrev pub first_fault : Result Text (Option Snapshot) → Result Text (Option Snapshot) → Option Text
first_fault (err e) later = some e
first_fault (ok s) (err e) = some e
first_fault (ok s) (ok t) = none

module _ (read : Text → Result Text Text) (word : Fault → Text) where
  -- The error of the document: why the object was skipped, what it failed at, or else the snapshot of
  -- it, before the run or behind it, that could not be taken.
  unfoldable pub error_of : Change → Event × Change → Option Text
  error_of c (skipped requirement, later) = some (requires_text requirement)
  error_of c (errored e, later) = some (word e)
  error_of c (done t, later) =
      if changes c.action
      then first_fault (snapshot read found c) (snapshot read applied later)
      else none

  -- What the document has of an object of the plan and of what the run reported of it.
  pub record IsTold (c : Change) (step : Event × Change) (o : Object) : Type 0 where
    pub kind : o.kind ≡ c.kind
    pub name : o.name ≡ c.name
    pub planned : o.planned ≡ planned c.action
    pub taken : o.taken ≡ word_of step.0
    pub error : o.error ≡ error_of c step

  -- The objects of the document are those of the plan, in their order, each with what was reported.
  pub data AreTold : List Change → List (Event × Change) → List Object → Type 0 where
    nothing_told : AreTold [] [] []
    then_told :
        (c : Change) (step : Event × Change) (o : Object) (cs : List Change)
        (steps : List (Event × Change)) (os : List Object)
        → IsTold c step o
        → AreTold cs steps os
        → AreTold (c ∷ cs) (step ∷ steps) (o ∷ os)

  -- What an attempt leaves of a fresh object: what it reports is what the object says.
  pub data IsLeft (c : Change) : Event × Change → Type 0 where
    left_skipped :
        (r : Text) (d : Change) → d.skipped ≡ some r → d.error ≡ none → IsLeft c (skipped r, d)
    left_errored :
        (e : Fault) (d : Change) → d.skipped ≡ none → d.error ≡ some e → IsLeft c (errored e, d)
    left_done :
        (d : Change)
        → d.skipped ≡ none
        → d.error ≡ none
        → d.action ≡ c.action
        → IsLeft c (done (taken c.action), d)

  -- What the snapshots leave as it is.
  record IsSame (u o : Object) : Type 0 where
    kind : u.kind ≡ o.kind
    name : u.name ≡ o.name
    planned : u.planned ≡ o.planned

  before-IsSame : (c : Change) → IsSame (before read word c) (listed c)
  unfolding before
  before-IsSame c = record { kind = ground arith; name = ground arith; planned = ground arith }

  after-IsSame : (o : Object) (d : Change) → IsSame (after read word o d) o
  unfolding after with_taken
  after-IsSame o d = record { kind = ground arith; name = ground arith; planned = ground arith }

  after_taken :
      (o : Object) (d : Change)
      → (after read word o d).taken ≡ (with_taken read word o d.action d.skipped d.error).taken
  unfolding after
  after_taken o d = ground arith

  after_error :
      (o : Object) (d : Change) (x : Text)
      → (with_taken read word o d.action d.skipped d.error).error ≡ some x
      → (after read word o d).error ≡ some x
  unfolding after
  after_error o d x h = ground (arith, h)

  done_error :
      (o : Object) (w : Text) (b : Bool) (r q : Result Text (Option Snapshot))
      → o.error ≡ none
      → (if b
          then with_reached (record (if b then with_found o r else o) { taken = w }) q
          else record (if b then with_found o r else o) { taken = w }).error
        ≡ (if b then first_fault r q else none)
  done_error o w b r q h = ground (arith, h)

  skipped_told :
      (o : Object) (a : Action) (s : Option Text) (e : Option Fault) (r : Text)
      → s ≡ some r
      → ((with_taken read word o a s e).taken ≡ codes "skipped")
        × ((with_taken read word o a s e).error ≡ some (requires_text r))
  unfolding with_taken
  skipped_told o a none e r h = absurd (ground (arith, h))
  skipped_told o a (some x) e r h = (refl, ap (λ t. some (requires_text t)) (ground (arith, h)))

  errored_told :
      (o : Object) (a : Action) (s : Option Text) (e : Option Fault) (x : Fault)
      → s ≡ none
      → e ≡ some x
      → ((with_taken read word o a s e).taken ≡ codes "error")
        × ((with_taken read word o a s e).error ≡ some (word x))
  unfolding with_taken
  errored_told o a none none x h k = absurd (ground (arith, k))
  errored_told o a none (some y) x h k = (refl, ap (λ t. some (word t)) (ground (arith, k)))
  errored_told o a (some r) e x h k = absurd (ground (arith, h))

  reached_error :
      (c : Change) (a : Action) (s : Option Text) (e : Option Fault)
      (q : Result Text (Option Snapshot))
      → s ≡ none
      → e ≡ none
      → a ≡ c.action
      → (if changes a
          then with_reached (with_taken read word (before read word c) a s e) q
          else with_taken read word (before read word c) a s e).error
        ≡ (if changes c.action then first_fault (snapshot read found c) q else none)
  unfolding before with_taken
  reached_error c a s e q none_skipped none_failed same =
      rw (none_skipped, none_failed, same)
        (done_error (listed c) (taken c.action) (changes c.action) (snapshot read found c) q refl)

  done_after :
      (c d : Change)
      → d.skipped ≡ none
      → d.error ≡ none
      → d.action ≡ c.action
      → (after read word (before read word c) d).error ≡ error_of c (done (taken c.action), d)
  unfolding after error_of
  done_after c d s e a = reached_error c d.action d.skipped d.error (snapshot read applied d) s e a

  pub IsLeft-IsTold :
      (c : Change) (step : Event × Change)
      → IsLeft c step
      → IsTold c step (after read word (before read word c) step.1)
  unfolding error_of
  IsLeft-IsTold c _ (left_skipped r d s e) =
      let o = before read word c in
      let (words, why) = skipped_told o d.action d.skipped d.error r s in
      record {
        kind = (after-IsSame o d).kind ∙ (before-IsSame c).kind;
        name = (after-IsSame o d).name ∙ (before-IsSame c).name;
        planned = (after-IsSame o d).planned ∙ (before-IsSame c).planned;
        taken = after_taken o d ∙ words;
        error = after_error o d (requires_text r) why;
      }
  IsLeft-IsTold c _ (left_errored x d s e) =
      let o = before read word c in
      let (words, why) = errored_told o d.action d.skipped d.error x s e in
      record {
        kind = (after-IsSame o d).kind ∙ (before-IsSame c).kind;
        name = (after-IsSame o d).name ∙ (before-IsSame c).name;
        planned = (after-IsSame o d).planned ∙ (before-IsSame c).planned;
        taken = after_taken o d ∙ words;
        error = after_error o d (word x) why;
      }
  IsLeft-IsTold c _ (left_done d s e a) =
      let o = before read word c in
      record {
        kind = (after-IsSame o d).kind ∙ (before-IsSame c).kind;
        name = (after-IsSame o d).name ∙ (before-IsSame c).name;
        planned = (after-IsSame o d).planned ∙ (before-IsSame c).planned;
        taken = after_taken o d ∙ (done_told o d.action d.skipped d.error s e ∙ ap taken a);
        error = done_after c d s e a;
      }
    where
      done_told :
          (o : Object) (a : Action) (s : Option Text) (e : Option Fault)
          → s ≡ none
          → e ≡ none
          → (with_taken read word o a s e).taken ≡ taken a
      done_told o a s e h k = unfold with_taken in ground (arith, h, k)
