-- ===== src/Lock.antt =====
-- The lock of a run, src/lock.rs, for any number of processes that work on one root. Each process is
-- one thread; the lock itself is `flock(2)`: it is taken only where nobody has it.
pub mod Exclusion
pub mod Refines
pub mod Released
mod Tests
use detc.Base.{◌≡◌, ℕ, Bool, true, false, Option, none, some, Text, ◌==◌, if◌then◌else◌}

-- Where a process is in `acquire` or `drop`: outside; behind the test of `held` and the opening of
-- the file; with the lock taken; with the path published; with the path cleared and the file open.
pub data Stage : Type 0 where
  outside opened locked running closing : Stage

-- A process: where it is, and its `HELD`.
pub record Process : Type 0 where
  pub stage : Stage
  pub held : Option Text

-- The processes, by their numbers, and who has the lock.
pub record State : Type 0 where
  pub process : ℕ → Process
  pub owner : Option ℕ

unfoldable pub put : ℕ → Process → (ℕ → Process) → ℕ → Process
put i p f j = if j == i then p else f j

abbrev pub in_stage : Stage → Option Text → Process
in_stage stage held = record { stage = stage; held = held }

abbrev pub moved : State → ℕ → Process → Option ℕ → State
moved s i p owner = record { process = put i p s.process; owner = owner }

-- What one process does next; every `?` between two of them is a step back.
pub data Step : State → State → Type 0 where
  -- `if let Some(held) = held()`: a second run of one process is refused
  refuse : (s : State) (i : ℕ) (path : Text) → (s.process i).held ≡ some path → Step s s
  -- the file is opened, where no lock is published
  open_file :
      (s : State) (i : ℕ)
      → s.process i ≡ in_stage outside none
      → Step s (moved s i (in_stage opened none) s.owner)
  -- `try_lock` or `lock` returns
  take :
      (s : State) (i : ℕ)
      → s.process i ≡ in_stage opened none
      → s.owner ≡ none
      → Step s (moved s i (in_stage locked none) (some i))
  -- `try_lock` or `lock` fails, and the file is closed
  give_up :
      (s : State) (i : ℕ)
      → s.process i ≡ in_stage opened none
      → Step s (moved s i (in_stage outside none) s.owner)
  -- `fs::canonicalize` fails, and closing the file releases the lock
  fail :
      (s : State) (i : ℕ)
      → s.process i ≡ in_stage locked none
      → Step s (moved s i (in_stage outside none) none)
  -- `*HELD.lock() = Some(path)`
  publish :
      (s : State) (i : ℕ) (path : Text)
      → s.process i ≡ in_stage locked none
      → Step s (moved s i (in_stage running (some path)) s.owner)
  -- `Drop::drop`
  clear :
      (s : State) (i : ℕ) (path : Text)
      → s.process i ≡ in_stage running (some path)
      → Step s (moved s i (in_stage closing none) s.owner)
  -- the field of the file is dropped behind it
  close :
      (s : State) (i : ℕ)
      → s.process i ≡ in_stage closing none
      → Step s (moved s i (in_stage outside none) none)

abbrev pub start : State
start = record { process = λ i. in_stage outside none; owner = none }

pub data Reach (s : State) : State → Type 0 where
  here : Reach s s
  next : {t u : State} → Reach s t → Step t u → Reach s u
