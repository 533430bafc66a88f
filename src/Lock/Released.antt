-- ===== src/Lock/Released.antt =====
-- The lock of src/lock.rs is never left behind.
use detc.Base.{
  ◌≡◌, refl, sym, ap, ◌∙◌, subst, ℕ, true, ◌⊎◌, Option, none, some, [], Text, arith, ◌==◌,
  Bool-cases, inl, inr,
}
use detc.Lock.{
  Stage, outside, locked, running, closing, Process, State, put, in_stage, moved, Step, refuse,
  open_file, take, give_up, fail, publish, clear, close, start, Reach, here, next,
}
use detc.Lock.Exclusion.{has_lock, is_running, is_some, Reach-IsSound, put_same}

-- The owner is a process that has the lock.
abbrev IsHeld : State → Type 0
IsHeld s = (j : ℕ) → s.owner ≡ some j → has_lock (s.process j).stage ≡ true

kept-IsHeld :
    (s : State) (i : ℕ) (p q : Process)
    → IsHeld s
    → s.process i ≡ q
    → has_lock q.stage ≡ has_lock p.stage
    → IsHeld (moved s i p s.owner)
unfolding put
kept-IsHeld s i p q held at same j h = elim (Bool-cases (j == i)) [
  | inl e ↦ rw e (
      sym same
      ∙ ap (λ r. has_lock r.stage) (sym at)
      ∙ ap (λ k. has_lock (s.process k).stage) (sym (ground (arith, e)))
      ∙ held j h)
  | inr e ↦ rw e (held j h)
]

Step-IsHeld : (s t : State) → Step s t → IsHeld s → IsHeld t
Step-IsHeld s _ (refuse _ i path h) held = held
Step-IsHeld s _ (open_file _ i h) held = kept-IsHeld s i _ _ held h refl
Step-IsHeld s _ (give_up _ i h) held = kept-IsHeld s i _ _ held h refl
Step-IsHeld s _ (publish _ i path h) held = kept-IsHeld s i _ _ held h refl
Step-IsHeld s _ (clear _ i path h) held = kept-IsHeld s i _ _ held h refl
Step-IsHeld s _ (fail _ i h) held = λ j x. absurd (ground (arith, x))
Step-IsHeld s _ (close _ i h) held = λ j x. absurd (ground (arith, x))
Step-IsHeld s _ (take _ i h free) held = λ j x.
    subst (λ k. has_lock (put i (in_stage locked none) s.process k).stage ≡ true)
      (ground (arith, x)) (ap (λ p. has_lock p.stage) (put_same i (in_stage locked none) s.process))

Reach-IsHeld : (s : State) → Reach start s → IsHeld s
Reach-IsHeld _ here = λ j x. absurd (ground (arith, x))
Reach-IsHeld _ (next {t} r step) = Step-IsHeld t _ step (Reach-IsHeld t r)

-- What a process that has the lock looks like.
shape :
    (stage : Stage) (held : Option Text)
    → has_lock stage ≡ true
    → is_some held ≡ is_running stage
    → (in_stage stage held ≡ in_stage locked none)
      ⊎ (((path : Text) × (in_stage stage held ≡ in_stage running (some path)))
          ⊎ (in_stage stage held ≡ in_stage closing none))
shape locked none h k = inl refl
shape running (some path) h k = inr (inl (path, refl))
shape closing none h k = inr (inr refl)
shape _ _ h k = absurd (ground (arith, h, k))

-- What the owner does to leave: it publishes the lock, clears it and closes the file. Each of these
-- steps asks for the stage of that process only, and for nothing of another one.
pub data Leaving (i : ℕ) : State → State → Type 0 where
  stays : {s : State} → Leaving i s s
  publishes :
      {s t : State} (path : Text)
      → s.process i ≡ in_stage locked none
      → Leaving i (moved s i (in_stage running (some path)) s.owner) t
      → Leaving i s t
  clears :
      {s t : State} (path : Text)
      → s.process i ≡ in_stage running (some path)
      → Leaving i (moved s i (in_stage closing none) s.owner) t
      → Leaving i s t
  closes :
      {s t : State}
      → s.process i ≡ in_stage closing none
      → Leaving i (moved s i (in_stage outside none) none) t
      → Leaving i s t

-- Each of them is a step of the processes.
Leaving-Reach : (i : ℕ) (r s t : State) → Reach r s → Leaving i s t → Reach r t
Leaving-Reach i r s _ to stays = to
Leaving-Reach i r s t to (publishes path h l) =
    Leaving-Reach i r _ t (next to (publish s i path h)) l
Leaving-Reach i r s t to (clears path h l) = Leaving-Reach i r _ t (next to (clear s i path h)) l
Leaving-Reach i r s t to (closes h l) = Leaving-Reach i r _ t (next to (close s i h)) l

abbrev IsReleased : State → ℕ → Type 0
IsReleased s i =
    (t : State) × Leaving i s t × (t.owner ≡ none) × (t.process i ≡ in_stage outside none)

from_closing : (s : State) (i : ℕ) → s.process i ≡ in_stage closing none → IsReleased s i
from_closing s i h = (
  moved s i (in_stage outside none) none,
  closes h stays,
  refl,
  put_same i (in_stage outside none) s.process,
)

from_running :
    (s : State) (i : ℕ) (path : Text) → s.process i ≡ in_stage running (some path) → IsReleased s i
from_running s i path h =
    let (t, l, free, out) =
      from_closing (moved s i (in_stage closing none) s.owner) i
        (put_same i (in_stage closing none) s.process) in
    (t, clears path h l, free, out)

from_locked : (s : State) (i : ℕ) → s.process i ≡ in_stage locked none → IsReleased s i
from_locked s i h =
    let (t, l, free, out) =
      from_running (moved s i (in_stage running (some [])) s.owner) i []
        (put_same i (in_stage running (some [])) s.process) in
    (t, publishes [] h l, free, out)

leaves : (s : State) (i : ℕ) → Reach start s → s.owner ≡ some i → IsReleased s i
leaves s i r h =
    elim (shape (s.process i).stage (s.process i).held (Reach-IsHeld s r i h)
      (Reach-IsSound s r i).published) [
        | inl at ↦ from_locked s i at
        | inr (inl (path, at)) ↦ from_running s i path at
        | inr (inr at) ↦ from_closing s i at
      ]

-- From a state that can be reached, in which a process has the lock, steps of that process alone,
-- which publish the lock, clear it and close the file and ask for nothing of another process, lead
-- to a state in which nobody has it and that process is outside. The state can be reached too.
pub owner-released :
    (s : State) (i : ℕ)
    → Reach start s
    → s.owner ≡ some i
    → (t : State) × Leaving i s t
      × Reach start t
      × (t.owner ≡ none)
      × (t.process i ≡ in_stage outside none)
owner-released s i r h =
    let (t, l, free, out) = leaves s i r h in (t, l, Leaving-Reach i start s t r l, free, out)
