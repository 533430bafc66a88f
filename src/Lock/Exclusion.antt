-- ===== src/Lock/Exclusion.antt =====
-- Who has the lock of src/lock.rs while its path is published.
use detc.Base.{
  ◌≡◌, refl, sym, ap, ◌∙◌, subst, ℕ, Bool, true, false, Option, none, some, Text, arith, ◌==◌,
  Bool-cases, inl, inr,
}
use detc.Lock.{
  Stage, outside, opened, locked, running, closing, Process, State, put, in_stage, moved, Step,
  refuse, open_file, take, give_up, fail, publish, clear, close, start, Reach, here, next,
}

-- Whether a process has the lock, by where it is.
abbrev pub has_lock : Stage → Bool
has_lock outside = false
has_lock opened = false
has_lock _ = true

abbrev pub is_running : Stage → Bool
is_running running = true
is_running _ = false

abbrev pub is_some : Option Text → Bool
is_some none = false
is_some (some t) = true

-- A process that has the lock is its owner, and its path is published exactly while it runs.
pub record Fits (owner : Option ℕ) (i : ℕ) (p : Process) : Type 0 where
  pub owned : has_lock p.stage ≡ true → owner ≡ some i
  pub published : is_some p.held ≡ is_running p.stage

abbrev pub IsSound : State → Type 0
IsSound s = (i : ℕ) → Fits s.owner i (s.process i)

pub put_same : (i : ℕ) (p : Process) (f : ℕ → Process) → put i p f i ≡ p
unfolding put
put_same i p f = ground arith

-- A step of one process, where nobody else has the lock or it does not change hands.
moved-IsSound :
    (s : State) (i : ℕ) (p : Process) (owner : Option ℕ)
    → IsSound s
    → Fits owner i p
    → ((j : ℕ) → has_lock (s.process j).stage ≡ true → (j == i ≡ false) → owner ≡ some j)
    → IsSound (moved s i p owner)
unfolding put
moved-IsSound s i p owner sound fits others j = elim (Bool-cases (j == i)) [
  | inl e ↦ rw e (subst (λ k. Fits owner k p) (ground (arith, e)) fits)
  | inr e ↦ rw e (record { owned = λ h. others j h e; published = (sound j).published })
]

-- Two owners are one.
pub same_owner : (owner : Option ℕ) (i j : ℕ) → owner ≡ some i → owner ≡ some j → i ≡ j
same_owner owner i j h k = ground (arith, h, k)

kept :
    (s : State) (i : ℕ) (p : Process) → IsSound s → Fits s.owner i p → IsSound (moved s i p s.owner)
kept s i p sound fits = moved-IsSound s i p s.owner sound fits (λ j h e. (sound j).owned h)

pub has_lock_at :
    (s : State) (i : ℕ) (p : Process)
    → IsSound s
    → s.process i ≡ p
    → has_lock p.stage ≡ true
    → s.owner ≡ some i
has_lock_at s i p sound at h = (sound i).owned (ap (λ q. has_lock q.stage) at ∙ h)

freed :
    (s : State) (i : ℕ) (p : Process)
    → IsSound s
    → s.process i ≡ p
    → has_lock p.stage ≡ true
    → IsSound (moved s i (in_stage outside none) none)
freed s i p sound at h =
    moved-IsSound s i (in_stage outside none) none sound
      (record { owned = λ x. absurd (ground (arith, x)); published = refl })
      (λ j x e. absurd (
        ground
          (arith, e, same_owner s.owner i j (has_lock_at s i p sound at h) ((sound j).owned x))))

pub Step-IsSound : (s t : State) → Step s t → IsSound s → IsSound t
Step-IsSound s _ (refuse _ i path h) sound = sound
Step-IsSound s _ (open_file _ i h) sound =
    kept s i (in_stage opened none) sound
      (record { owned = λ x. absurd (ground (arith, x)); published = refl })
Step-IsSound s _ (give_up _ i h) sound =
    kept s i (in_stage outside none) sound
      (record { owned = λ x. absurd (ground (arith, x)); published = refl })
Step-IsSound s _ (publish _ i path h) sound =
    kept s i (in_stage running (some path)) sound
      (record { owned = λ x. has_lock_at s i _ sound h refl; published = refl })
Step-IsSound s _ (clear _ i path h) sound =
    kept s i (in_stage closing none) sound
      (record { owned = λ x. has_lock_at s i _ sound h refl; published = refl })
Step-IsSound s _ (fail _ i h) sound = freed s i _ sound h refl
Step-IsSound s _ (close _ i h) sound = freed s i _ sound h refl
Step-IsSound s _ (take _ i h free) sound =
    moved-IsSound s i (in_stage locked none) (some i) sound
      (record { owned = λ x. refl; published = refl })
      (λ j x e. absurd (ground (arith, free, (sound j).owned x)))

pub Reach-IsSound : (s : State) → Reach start s → IsSound s
Reach-IsSound _ here = λ i. record { owned = λ x. absurd (ground (arith, x)); published = refl }
Reach-IsSound _ (next {t} r step) = Step-IsSound t _ step (Reach-IsSound t r)

running-has_lock : (stage : Stage) → is_running stage ≡ true → has_lock stage ≡ true
running-has_lock running h = refl
running-has_lock _ h = absurd (ground (arith, h))

-- A process whose path is published is the owner.
pub held-owner :
    (s : State) (i : ℕ) (path : Text)
    → IsSound s
    → (s.process i).held ≡ some path
    → s.owner ≡ some i
held-owner s i path sound h =
    (sound i).owned (running-has_lock (s.process i).stage (sym (sound i).published ∙ ap is_some h))

-- In a state that can be reached, a process that publishes the lock has it, and any process that
-- publishes one is that process.
pub published-owner :
    (s : State) (i : ℕ) (path : Text)
    → Reach start s
    → (s.process i).held ≡ some path
    → (s.owner ≡ some i) × ((j : ℕ) → (other : Text) → (s.process j).held ≡ some other → i ≡ j)
published-owner s i path r h =
    let sound : IsSound s = Reach-IsSound s r in
    (
      held-owner s i path sound h,
      λ j other k.
          same_owner s.owner i j (held-owner s i path sound h) (held-owner s j other sound k),
    )
