-- ===== src/Lock/Refines.antt =====
-- The lock of src/lock.rs against what it promises: runs that come one after the other.
use detc.Base.{
  ◌≡◌, refl, sym, ap, ◌∙◌, ℕ, Bool, true, false, Option, none, some, arith, ◌==◌, Bool-cases,
  Option-cases, inl, inr, if◌then◌else◌,
}
use detc.Lock.{
  locked, running, closing, Process, State, put, in_stage, moved, Step, refuse, open_file, take,
  give_up, fail, publish, clear, close, start, Reach,
}
use detc.Lock.Exclusion.{is_some, IsSound, Reach-IsSound, held-owner, has_lock_at, same_owner}

-- The promise: a run begins where no run is in progress, and ends.
pub data Turn (before after : ℕ → Bool) : Type 0 where
  begins :
      (i : ℕ)
      → ((j : ℕ) → before j ≡ false)
      → ((j : ℕ) → after j ≡ (if j == i then true else before j))
      → Turn before after
  ends :
      (i : ℕ)
      → before i ≡ true
      → ((j : ℕ) → after j ≡ (if j == i then false else before j))
      → Turn before after
  nothing_seen : ((j : ℕ) → after j ≡ before j) → Turn before after

-- The processes that tell their programs about the lock.
abbrev pub in_run : State → ℕ → Bool
in_run s i = is_some (s.process i).held

in_run-moved :
    (s : State) (i : ℕ) (p : Process) (owner : Option ℕ) (j : ℕ)
    → in_run (moved s i p owner) j ≡ (if j == i then is_some p.held else in_run s j)
unfolding put
in_run-moved s i p owner j = elim (Bool-cases (j == i)) [ inl e ↦ rw e refl | inr e ↦ rw e refl ]

-- A step that changes neither what was published nor what is.
unseen :
    (s : State) (i : ℕ) (p q : Process) (owner : Option ℕ)
    → s.process i ≡ q
    → is_some q.held ≡ is_some p.held
    → Turn (in_run s) (in_run (moved s i p owner))
unseen s i p q owner at same = nothing_seen (λ j. elim (Bool-cases (j == i)) [
  | inl e ↦
      in_run-moved s i p owner j
      ∙ rw e
          (sym same ∙ ap (λ r. is_some r.held) (sym at) ∙ ap (in_run s) (sym (ground (arith, e))))
  | inr e ↦ in_run-moved s i p owner j ∙ rw e refl
])

nobody_else :
    (s : State) (i : ℕ)
    → IsSound s
    → s.process i ≡ in_stage locked none
    → (j : ℕ) → in_run s j ≡ false
nobody_else s i sound at j = elim (Option-cases (s.process j).held) [
  | inl e ↦ rw e refl
  | inr (path, e) ↦
      let same : i ≡ j =
        same_owner s.owner i j (has_lock_at s i (in_stage locked none) sound at refl)
          (held-owner s j path sound e) in
      ap (in_run s) (sym same) ∙ ap (λ q. is_some q.held) at
]

Step-Turn : (s t : State) → IsSound s → Step s t → Turn (in_run s) (in_run t)
Step-Turn s _ sound (refuse _ i path h) = nothing_seen (λ j. refl)
Step-Turn s _ sound (open_file _ i h) = unseen s i _ _ s.owner h refl
Step-Turn s _ sound (take _ i h free) = unseen s i _ _ (some i) h refl
Step-Turn s _ sound (give_up _ i h) = unseen s i _ _ s.owner h refl
Step-Turn s _ sound (fail _ i h) = unseen s i _ _ none h refl
Step-Turn s _ sound (close _ i h) = unseen s i _ _ none h refl
Step-Turn s _ sound (publish _ i path h) =
    begins i (nobody_else s i sound h) (in_run-moved s i (in_stage running (some path)) s.owner)
Step-Turn s _ sound (clear _ i path h) =
    ends i (ap (λ q. is_some q.held) h) (in_run-moved s i (in_stage closing none) s.owner)

-- A step from a state that can be reached is, in which processes publish the lock, the beginning
-- of a run where no run is in progress, the end of one, or nothing.
pub Reach-Turn : (s t : State) → Reach start s → Step s t → Turn (in_run s) (in_run t)
Reach-Turn s t r step = Step-Turn s t (Reach-IsSound s r) step
