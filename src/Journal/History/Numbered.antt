-- ===== src/Journal/History/Numbered.antt =====
-- Which runs the history holds, in src/journal.rs.
use detc.Base.{
  ◌≡◌, refl, ap, ◌∙◌, subst, ℕ, Bool, Option, some, List, [], ◌∷◌, ◌++◌, map, ok, codes, text_eq,
  find, ◌==◌, All, arith, append_assoc, Bool-cases, Option-cases, Result-cases, inl, inr,
  if◌then◌else◌,
}
use detc.Journal.History.{
  Commit, Group, members, run_number, add_commit, group_from, groups_of, Run, Git, found_of,
  applied_of, outcome_of, described, cause, run_of, runs_of, runs,
}

-- One number for each stretch of equal ones.
unfoldable pub stretches : List ℕ → List ℕ
stretches [] = []
stretches (n ∷ []) = n ∷ []
stretches (n ∷ m ∷ ns) = let rest = stretches (m ∷ ns) in if n == m then rest else n ∷ rest

-- Every commit of a group is of one run.
IsRun : Group → Type 0
IsRun g = All (λ c. run_number c ≡ run_number g.first) g.rest

All-snoc :
    {A : Type 0} (P : A → Type 0) (xs : List A) (x : A) → All P xs → P x → All P (xs ++ (x ∷ []))
All-snoc P [] x h k = (k, tt)
All-snoc P (y ∷ ys) x h k = (h.0, All-snoc P ys x h.1 k)

add_commit-AreRuns : (gs : List Group) (c : Commit) → All IsRun gs → All IsRun (add_commit gs c)
unfolding add_commit IsRun
add_commit-AreRuns [] c h = (tt, tt)
add_commit-AreRuns (g ∷ []) c h = elim (Bool-cases (run_number g.first == run_number c)) [
  | inl e ↦
      rw (e, add_commit)
        (All-snoc (λ d. run_number d ≡ run_number g.first) g.rest c h.0 (ground (arith, e)), tt)
  | inr e ↦ rw (e, add_commit) (h.0, (tt, tt))
]
add_commit-AreRuns (g ∷ k ∷ gs) c h = (h.0, add_commit-AreRuns (k ∷ gs) c h.1)

group_from-AreRuns :
    (gs : List Group) (cs : List Commit) → All IsRun gs → All IsRun (group_from gs cs)
unfolding group_from
group_from-AreRuns gs [] h = h
group_from-AreRuns gs (c ∷ cs) h =
    group_from-AreRuns (add_commit gs c) cs (add_commit-AreRuns gs c h)

abbrev numbers : List Group → List ℕ
numbers gs = map (λ g. run_number g.first) gs

-- The groups that are closed stay in front.
add_commit_behind :
    (pre : List Group) (g : Group) (c : Commit)
    → add_commit (pre ++ (g ∷ [])) c ≡ pre ++ add_commit (g ∷ []) c
unfolding add_commit
add_commit_behind [] g c = refl
add_commit_behind (p ∷ []) g c = refl
add_commit_behind (p ∷ q ∷ pre) g c = ap (◌∷◌ p) (add_commit_behind (q ∷ pre) g c)

numbers-append : (gs hs : List Group) → numbers (gs ++ hs) ≡ numbers gs ++ numbers hs
numbers-append [] hs = refl
numbers-append (g ∷ gs) hs = ap (◌∷◌ (run_number g.first)) (numbers-append gs hs)

numbers-group_from :
    (pre : List Group) (g : Group) (cs : List Commit)
    → numbers (group_from (pre ++ (g ∷ [])) cs)
      ≡ numbers pre ++ stretches (run_number g.first ∷ map run_number cs)
unfolding group_from stretches
numbers-group_from pre g [] = numbers-append pre (g ∷ [])
numbers-group_from pre g (c ∷ cs) = elim (Bool-cases (run_number g.first == run_number c)) [
  | inl e ↦ rw e (
      rw (add_commit_behind pre g c) (
        rw (e, add_commit)
          (numbers-group_from pre (record { first = g.first; rest = g.rest ++ (c ∷ []) }) cs
            ∙ ap (λ n. numbers pre ++ stretches (n ∷ map run_number cs)) (ground (arith, e)))))
  | inr e ↦ rw e (
      rw (add_commit_behind pre g c) (
        rw (e, add_commit)
          (subst
            (λ gs.
              numbers (group_from gs cs)
              ≡ numbers pre ++ (run_number g.first ∷ stretches (run_number c ∷ map run_number cs)))
            (append_assoc pre (g ∷ []) (record { first = c; rest = [] } ∷ []))
            (numbers-group_from (pre ++ (g ∷ [])) (record { first = c; rest = [] }) cs
              ∙ ap (λ ns. ns ++ stretches (run_number c ∷ map run_number cs))
                  (numbers-append pre (g ∷ []))
              ∙ append_assoc (numbers pre) (run_number g.first ∷ [])
                  (stretches (run_number c ∷ map run_number cs))))))
]

numbers-groups_of :
    (history : List Commit) → numbers (groups_of history) ≡ stretches (map run_number history)
unfolding group_from add_commit stretches
numbers-groups_of [] = refl
numbers-groups_of (c ∷ cs) = numbers-group_from [] (record { first = c; rest = [] }) cs

find-All :
    {A : Type 0} (P : A → Type 0) (p : A → Bool) (xs : List A) (x : A)
    → find p xs ≡ some x
    → All P xs
    → P x
find-All P p [] x h k = absurd (ground (arith, h))
find-All P p (y ∷ ys) x h k = elim (Bool-cases (p y)) [
  | inl e ↦ subst P (ground (arith, rw e at h)) k.0
  | inr e ↦ find-All P p ys x (rw e at h) k.1
]

-- Whichever commit of a group describes the run, it is of that run.
outcome_of-IsRun :
    (g : Group)
    → IsRun g
    → run_number (outcome_of (applied_of g) (found_of g) g.first) ≡ run_number g.first
unfolding IsRun
outcome_of-IsRun g h = elim (Option-cases (applied_of g)) [
  | inr (c, e) ↦ rw e (
      find-All (λ d. run_number d ≡ run_number g.first)
        (λ d. text_eq d.parsed.phase (codes "applied")) (members g) c e (refl, h))
  | inl e ↦ rw e (elim (Option-cases (found_of g)) [
    | inr (c, f) ↦ rw f (
        find-All (λ d. run_number d ≡ run_number g.first)
          (λ d. text_eq d.parsed.phase (codes "found")) (members g) c f (refl, h))
    | inl f ↦ rw f refl
  ])
]

module _ (git : Git) where
  described_id :
      (found applied : Option Commit) (outcome : Commit) (r : Run)
      → described git found applied outcome ≡ ok r
      → r.id ≡ run_number outcome
  unfolding described
  described_id found applied outcome r e = elim (Result-cases (cause git found outcome)) [
    | inr (x, q) ↦ absurd (ground (arith, rw q at e))
    | inl (why, q) ↦ ground (arith, rw q at e)
  ]

  run_of_id : (g : Group) (r : Run) → IsRun g → run_of git g ≡ ok r → r.id ≡ run_number g.first
  unfolding run_of
  run_of_id g r h e =
      described_id (found_of g) (applied_of g) (outcome_of (applied_of g) (found_of g) g.first) r e
      ∙ outcome_of-IsRun g h

  runs_of_ids :
      (gs : List Group) (rs : List Run)
      → All IsRun gs
      → runs_of git gs ≡ ok rs
      → map (λ r. r.id) rs ≡ numbers gs
  unfolding runs_of
  runs_of_ids [] rs h e =
      subst {A = List Run} (λ ts. map (λ r. r.id) ts ≡ []) {x = []} (ground (arith, e)) refl
  runs_of_ids (g ∷ gs) rs h e = elim (Result-cases (run_of git g)) [
    | inr (x, q) ↦ absurd (ground (arith, rw q at e))
    | inl (r, q) ↦ elim (Result-cases (runs_of git gs)) [
      | inr (x, p) ↦ absurd (ground (arith, rw (q, p) at e))
      | inl (ts, p) ↦
          subst {A = List Run} (λ us. map (λ r. r.id) us ≡ numbers (g ∷ gs)) {x = r ∷ ts}
            (ground (arith, rw (q, p) at e))
            (ground (arith, run_of_id g r h.0 q, runs_of_ids gs ts h.1 p))
    ]
  ]

  -- Where `runs` succeeds, the numbers of the runs are those of the commits in their order, with
  -- one for each stretch of commits of one number.
  pub runs-stretches :
      (history : List Commit) (rs : List Run)
      → runs git history ≡ ok rs
      → map (λ r. r.id) rs ≡ stretches (map run_number history)
  unfolding runs
  runs-stretches history rs e =
      runs_of_ids (groups_of history) rs (group_from-AreRuns [] history tt) e
      ∙ numbers-groups_of history
