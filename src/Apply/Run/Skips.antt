-- ===== src/Apply/Run/Skips.antt =====
-- Who is skipped: an object is tried only if nothing that it requires was left unsatisfied before it,
-- and what is left unsatisfied includes the objects that were skipped themselves.
use detc.Base.{
  ◌≡◌, refl, sym, ap, ◌∙◌, subst, ℕ, suc, ◌+◌, Bool, true, false, Option, none, some, List, [], ◌∷◌,
  Text, text_eq, text_eq_iff, any, find, Has, inl, inr, ◌⊎◌, arith, if_both,
}
use detc.Apply.Change.{Change, Answers, apply, skip}
use detc.Apply.Run.{
  Event, skipped, errored, done, blocked, attempt, is_some, is_unsatisfied, noted, failure,
  run_from, run,
}

abbrev pub is_skipped : Event → Bool
is_skipped (skipped r) = true
is_skipped _ = false

abbrev pub is_errored : Event → Bool
is_errored (errored e) = true
is_errored _ = false

-- `x` stands before `y`.
abbrev pub Precedes : {A : Type 0} → A → A → List A → Type 0
Precedes x y [] = ⊥
Precedes x y (z ∷ zs) = ((x ≡ z) × Has y zs) ⊎ Precedes x y zs

-- Applying and skipping leave what an object is.
attempt-id : (a : Answers) (c : Change) (o : Option Text) → (attempt a c o).1.id ≡ c.id
unfolding attempt apply
attempt-id a c (some r) = refl
attempt-id a c none = ground arith

attempt-requires :
    (a : Answers) (c : Change) (o : Option Text) → (attempt a c o).1.requires ≡ c.requires
unfolding attempt apply
attempt-requires a c (some r) = refl
attempt-requires a c none = ground arith

any-Has : (id : Text) (us : List Text) → Has id us → any (λ u. text_eq u id) us ≡ true
any-Has id [] h = absurd h
any-Has id (u ∷ us) (inl e) = ground (arith, text_eq_iff u id)
any-Has id (u ∷ us) (inr h) = ground (arith, any-Has id us h)

find-Has :
    (p : Text → Bool) (id : Text) (ids : List Text)
    → Has id ids
    → p id ≡ true
    → is_some (find p ids) ≡ true
find-Has p id [] h e = absurd h
find-Has p id (i ∷ ids) (inl same) e = ground (arith, ap p same)
find-Has p id (i ∷ ids) (inr h) e = ground (arith, find-Has p id ids h e)

blocked-Has :
    (id : Text) (unsatisfied : List Text) (c : Change)
    → Has id unsatisfied
    → Has id c.requires
    → is_some (blocked unsatisfied c) ≡ true
unfolding blocked
blocked-Has id unsatisfied c u r =
    find-Has (λ i. any (λ w. text_eq w i) unsatisfied) id c.requires r (any-Has id unsatisfied u)

attempt_blocked :
    (a : Answers) (c : Change) (o : Option Text)
    → is_some o ≡ true
    → is_skipped (attempt a c o).0 ≡ true
unfolding attempt
attempt_blocked a c none h = cc
attempt_blocked a c (some r) h = refl

noted-Has :
    (id : Text) (unsatisfied : List Text) (c : Change)
    → Has id unsatisfied
    → Has id (noted unsatisfied c)
noted-Has id unsatisfied c h =
    if_both (Has id) (is_unsatisfied c) (c.id ∷ unsatisfied) unsatisfied (λ _. inr h) (λ _. h)

noted_self :
    (unsatisfied : List Text) (c : Change)
    → is_unsatisfied c ≡ true
    → Has c.id (noted unsatisfied c)
noted_self unsatisfied c h = rw h (inl refl)

module _ (outside : ℕ → Answers) where
  run_blocked :
      (id : Text) (q : Event × Change) (cs : List Change) (i : ℕ) (unsatisfied : List Text)
      (failed : ℕ)
      → Has id unsatisfied
      → Has q (run_from outside i unsatisfied failed cs).0
      → Has id q.1.requires
      → is_skipped q.0 ≡ true
  unfolding run_from
  run_blocked id q [] i unsatisfied failed u h r = absurd h
  run_blocked id q (c ∷ cs) i unsatisfied failed u (inl e) r =
      let o = blocked unsatisfied c in
      let needs : Has id c.requires =
        subst (Has id)
          (ap (λ (t : Event × Change). t.1.requires) e ∙ attempt-requires (outside i) c o) r in
      ap (λ (t : Event × Change). is_skipped t.0) e
      ∙ attempt_blocked (outside i) c o (blocked-Has id unsatisfied c u needs)
  run_blocked id q (c ∷ cs) i unsatisfied failed u (inr h) r =
      let step = attempt (outside i) c (blocked unsatisfied c) in
      run_blocked id q cs (suc i) (noted unsatisfied step.1) (failed + failure step.0)
        (noted-Has id unsatisfied step.1 u) h r

  run_from_skips :
      (p q : Event × Change) (cs : List Change) (i : ℕ) (unsatisfied : List Text) (failed : ℕ)
      → Precedes p q (run_from outside i unsatisfied failed cs).0
      → is_unsatisfied p.1 ≡ true
      → Has p.1.id q.1.requires
      → is_skipped q.0 ≡ true
  unfolding run_from
  run_from_skips p q [] i unsatisfied failed h u r = absurd h
  run_from_skips p q (c ∷ cs) i unsatisfied failed (inl (e, h)) u r =
      let step = attempt (outside i) c (blocked unsatisfied c) in
      run_blocked p.1.id q cs (suc i) (noted unsatisfied step.1) (failed + failure step.0)
        (subst (λ (t : Event × Change). Has p.1.id (noted unsatisfied t.1)) e
          (noted_self unsatisfied p.1 u))
        h r
  run_from_skips p q (c ∷ cs) i unsatisfied failed (inr h) u r =
      let step = attempt (outside i) c (blocked unsatisfied c) in
      run_from_skips p q cs (suc i) (noted unsatisfied step.1) (failed + failure step.0) h u r

-- What was not tried, or was tried and failed.
abbrev pub went_wrong : Event → Bool
went_wrong (done t) = false
went_wrong _ = true

attempt_wrong :
    (a : Answers) (c : Change) (o : Option Text)
    → went_wrong (attempt a c o).0 ≡ true
    → is_unsatisfied (attempt a c o).1 ≡ true
unfolding attempt apply skip
attempt_wrong a c (some r) h = ground arith
attempt_wrong a c none h = ground arith

run_wrong :
    (outside : ℕ → Answers) (p : Event × Change) (cs : List Change) (i : ℕ)
    (unsatisfied : List Text) (failed : ℕ)
    → Has p (run_from outside i unsatisfied failed cs).0
    → went_wrong p.0 ≡ true
    → is_unsatisfied p.1 ≡ true
unfolding run_from
run_wrong outside p [] i unsatisfied failed h w = absurd h
run_wrong outside p (c ∷ cs) i unsatisfied failed (inl e) w =
    ap (λ (t : Event × Change). is_unsatisfied t.1) e
    ∙ attempt_wrong (outside i) c (blocked unsatisfied c)
        (sym (ap (λ (t : Event × Change). went_wrong t.0) e) ∙ w)
run_wrong outside p (c ∷ cs) i unsatisfied failed (inr h) w =
    let step = attempt (outside i) c (blocked unsatisfied c) in
    run_wrong outside p cs (suc i) (noted unsatisfied step.1) (failed + failure step.0) h w

Precedes-Has : {A : Type 0} (x y : A) (xs : List A) → Precedes x y xs → Has x xs
Precedes-Has x y [] h = absurd h
Precedes-Has x y (z ∷ zs) (inl (e, h)) = inl e
Precedes-Has x y (z ∷ zs) (inr h) = inr (Precedes-Has x y zs h)

-- An object that requires one which the run reported before it as failed or as skipped is skipped,
-- so that a failure takes every object behind it along the requirements.
pub run_skips :
    (outside : ℕ → Answers) (plan : List Change) (p q : Event × Change)
    → Precedes p q (run outside plan).0
    → went_wrong p.0 ≡ true
    → Has p.1.id q.1.requires
    → is_skipped q.0 ≡ true
unfolding run
run_skips outside plan p q h w r =
    run_from_skips outside p q plan 0 [] 0 h
      (run_wrong outside p plan 0 [] 0 (Precedes-Has p q (run_from outside 0 [] 0 plan).0 h) w) r

abbrev pub count_errors : List (Event × Change) → ℕ
count_errors [] = 0
count_errors ((event, c) ∷ rest) = failure event + count_errors rest

run_from_failed :
    (outside : ℕ → Answers) (cs : List Change) (i : ℕ) (unsatisfied : List Text) (failed : ℕ)
    → (run_from outside i unsatisfied failed cs).1
      ≡ failed + count_errors (run_from outside i unsatisfied failed cs).0
unfolding run_from
run_from_failed outside [] i unsatisfied failed = omega arith
run_from_failed outside (c ∷ cs) i unsatisfied failed =
    let step = attempt (outside i) c (blocked unsatisfied c) in
    omega (
      arith,
      run_from_failed outside cs (suc i) (noted unsatisfied step.1) (failed + failure step.0),
    )

-- The number that ends a run with an error is the number of objects that it reports as failed; the
-- objects that it skipped are not counted.
pub run_failed :
    (outside : ℕ → Answers) (plan : List Change)
    → (run outside plan).1 ≡ count_errors (run outside plan).0
unfolding run
run_failed outside plan = omega (arith, run_from_failed outside plan 0 [] 0)
