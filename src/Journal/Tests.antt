-- ===== src/Journal/Tests.antt =====
-- A history of three commits, and the theorems about src/journal.rs at concrete inputs.
use detc.Base.{
  ◌≡◌, refl, Option, none, some, List, [], ◌∷◌, map, ℕ, ok, Text, codes, text_eq, arith,
}
use detc.Base.Trim.{trim}
use detc.Apply.Snapshot.{applied}
use detc.Journal.Message.{message_of, parse, is_output}
use detc.Journal.Message.RoundTrip.{parse-message_of}
use detc.Journal.History.{Commit, Git, Run, run_number, runs}
use detc.Journal.History.Numbered.{stretches, runs-stretches}

abbrev printed : List Text
printed = codes "created pkg/nginx" ∷ codes "error unit/nginx no" ∷ []

parse-message_of_example :
    parse (message_of 7 (codes "apply") applied (codes "1 created, 1 failed") printed) ≡ record {
      run = 7;
      phase = codes "applied";
      command = codes "apply";
      summary = codes "1 created, 1 failed";
      lines = printed;
    }
unfolding is_output trim
parse-message_of_example =
    parse-message_of 7 (codes "apply") applied (codes "1 created, 1 failed") printed (omega arith)
      refl refl (refl, (refl, tt)) (refl, (refl, tt))

-- A commit of a run, with its parent.
abbrev commit : Text → ℕ → Text → Option Text → Commit
commit id run phase parent = record {
  id = id;
  parsed = record {
    run = run;
    phase = phase;
    command = codes "apply";
    summary = codes "1 created";
    lines = [];
  };
  time = codes "now";
  tree = id;
  parent = parent;
}

abbrev history : List Commit
history =
    commit (codes "c") 2 (codes "applied") (some (codes "b"))
    ∷ commit (codes "b") 2 (codes "found") (some (codes "a"))
    ∷ commit (codes "a") 1 (codes "found") none
    ∷ []

abbrev git : Git
git = record {
  tree_of = λ id. ok id;
  top = λ tree. ok ((codes "templates", tree) ∷ []);
  short = λ id. id;
}

abbrev run_at : ℕ → Text → Option (Text × Text) → Option (Text × Text) → Run
run_at id why found done = record {
  id = id;
  time = codes "now";
  command = codes "apply";
  cause = why;
  found = found;
  applied = done;
  summary = codes "1 created";
  lines = [];
}

abbrev both : List Run
both =
    run_at 2 (codes "a template changed") (some (codes "b", codes "1 created"))
      (some (codes "c", codes "1 created"))
    ∷ run_at 1 (codes "the system was recorded for the first time")
        (some (codes "a", codes "1 created")) none
    ∷ []

runs-history : runs git history ≡ ok both
unfolding runs text_eq
runs-history = refl

runs-stretches_example : map (λ r. r.id) both ≡ stretches (map run_number history)
runs-stretches_example = runs-stretches git history both runs-history
