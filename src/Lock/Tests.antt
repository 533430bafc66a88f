-- ===== src/Lock/Tests.antt =====
-- Two processes, and the theorems about src/lock.rs at a concrete run.
use detc.Base.{◌≡◌, refl, ℕ, none, some, Text, codes}
use detc.Lock.{
  outside, opened, locked, running, closing, State, put, in_stage, moved, Step, open_file, take,
  publish, clear, start, Reach, here, next,
}
use detc.Lock.Exclusion.{published-owner}
use detc.Lock.Released.{Leaving, owner-released}
use detc.Lock.Refines.{in_run, Turn, Reach-Turn}

abbrev lock_path : Text
lock_path = codes "/var/lib/detc/run.lock"

-- The second process waits while the first one runs.
abbrev both_open : State
both_open = moved (moved start 0 (in_stage opened none) none) 1 (in_stage opened none) none

abbrev one_runs : State
one_runs =
    moved (moved both_open 0 (in_stage locked none) (some 0)) 0 (in_stage running (some lock_path))
      (some 0)

one_runs-Reach : Reach start one_runs
unfolding put
one_runs-Reach =
    next
      (next
        (next (next here (open_file start 0 refl))
          (open_file (moved start 0 (in_stage opened none) none) 1 refl))
        (take both_open 0 refl refl))
      (publish (moved both_open 0 (in_stage locked none) (some 0)) 0 lock_path refl)

published-owner_example :
    (one_runs.owner ≡ some 0)
    × ((j : ℕ) → (other : Text) → (one_runs.process j).held ≡ some other → 0 ≡ j)
unfolding put
published-owner_example = published-owner one_runs 0 lock_path one_runs-Reach refl

-- The first process is done.
abbrev one_done : State
one_done = moved one_runs 0 (in_stage closing none) (some 0)

one_runs-clear : Step one_runs one_done
unfolding put
one_runs-clear = clear one_runs 0 lock_path refl

Reach-Turn_example : Turn (in_run one_runs) (in_run one_done)
Reach-Turn_example = Reach-Turn one_runs one_done one_runs-Reach one_runs-clear

owner-released_example :
    (t : State) × Leaving 0 one_runs t
    × Reach start t
    × (t.owner ≡ none)
    × (t.process 0 ≡ in_stage outside none)
owner-released_example = owner-released one_runs 0 one_runs-Reach refl
