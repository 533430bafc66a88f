-- ===== src/Journal/History.antt =====
-- The runs that the history holds, `runs`, `run_by_id` (`Journal::run`), `run_of` and `cause` of src/journal.rs. What git
-- answers of a tree or a commit is an argument.
pub mod Numbered
use detc.Base.{
  ℕ, Bool, true, false, not, Option, none, some, List, [], ◌∷◌, ◌++◌, map, Result, ok, err, ◌>>=◌,
  Text, codes, text_eq, find, ◌==◌, is_empty, if◌then◌else◌,
}
use detc.Base.Decimal.{decimal}
use detc.Base.Dict.{Dict, find_in}
use detc.Journal.Message.{Parsed}

-- One commit of the history; the ids of git are texts.
pub record Commit : Type 0 where
  pub id : Text
  pub parsed : Parsed
  pub time : Text
  pub tree : Text
  pub parent : Option Text

-- The commits of one run, which are never none.
pub record Group : Type 0 where
  pub first : Commit
  pub rest : List Commit

abbrev pub members : Group → List Commit
members g = g.first ∷ g.rest

abbrev pub run_number : Commit → ℕ
run_number c = c.parsed.run

-- `match groups.last_mut()`
unfoldable pub add_commit : List Group → Commit → List Group
add_commit [] c = record { first = c; rest = [] } ∷ []
add_commit (g ∷ []) c =
    if run_number g.first == run_number c
    then record { first = g.first; rest = g.rest ++ (c ∷ []) } ∷ []
    else g ∷ record { first = c; rest = [] } ∷ []
add_commit (g ∷ h ∷ gs) c = g ∷ add_commit (h ∷ gs) c

-- The loop of `runs`.
unfoldable pub group_from : List Group → List Commit → List Group
unfolding add_commit
group_from groups [] = groups
group_from groups (c ∷ cs) = group_from (add_commit groups c) cs

abbrev pub groups_of : List Commit → List Group
groups_of history = group_from [] history

pub record Run : Type 0 where
  pub id : ℕ
  pub time : Text
  pub command : Text
  pub cause : Text
  pub found : Option (Text × Text)
  pub applied : Option (Text × Text)
  pub summary : Text
  pub lines : List Text

-- What git answers: the tree of a commit, the entries at the top of a tree, and an id shortened.
pub record Git : Type 0 where
  pub tree_of : Text → Result Text Text
  pub top : Text → Result Text (Dict Text)
  pub short : Text → Text

abbrev pub inputs : List (Text × Text)
inputs =
    (codes "variables.yaml", codes "a variable")
    ∷ (codes "templates", codes "a template")
    ∷ (codes "resources", codes "a declaration")
    ∷ []

abbrev same_entry : Option Text → Option Text → Bool
same_entry none none = true
same_entry (some a) (some b) = text_eq a b
same_entry _ _ = false

-- The inputs that are not the same in two trees, by their names.
unfoldable pub moved : Dict Text → Dict Text → List (Text × Text) → List Text
unfolding find_in
moved now before [] = []
moved now before ((path, name) ∷ rest) =
    let later = moved now before rest in
    if same_entry (find_in path now) (find_in path before) then later else name ∷ later

-- `join(" and ")`
unfoldable pub conjoined : List Text → Text
conjoined [] = []
conjoined (t ∷ []) = t
conjoined (t ∷ u ∷ ts) = t ++ (codes " and " ++ conjoined (u ∷ ts))

abbrev reason_of : List Text → Text
unfolding conjoined
reason_of [] = codes "the system was changed outside detc"
reason_of (t ∷ ts) = conjoined (t ∷ ts) ++ codes " changed"

abbrev pub with_phase : Text → List Commit → Option Commit
with_phase phase cs = find (λ c. text_eq c.parsed.phase phase) cs

-- `applied.or(found).unwrap_or(&group[0])`
abbrev pub outcome_of : Option Commit → Option Commit → Commit → Commit
outcome_of (some c) found first = c
outcome_of none (some c) first = c
outcome_of none none first = first

abbrev pub found_of : Group → Option Commit
found_of g = with_phase (codes "found") (members g)

abbrev pub applied_of : Group → Option Commit
applied_of g = with_phase (codes "applied") (members g)

module _ (git : Git) where
  -- The match on the parent of the commit.
  cause_of : Text → Option Text → Result Text Text
  unfolding moved reason_of
  cause_of tree none = ok (codes "the system was recorded for the first time")
  cause_of tree (some parent) = do
    now ← git.top tree
    old ← git.tree_of parent
    before ← git.top old
    ok (reason_of (moved now before inputs))

  -- `Journal::cause`
  unfoldable pub cause : Option Commit → Commit → Result Text Text
  unfolding cause_of
  cause found outcome =
      if text_eq outcome.parsed.command (codes "apply")
      then elim found [
        | none ↦ ok (codes "a probe reported something new")
        | some c ↦ cause_of c.tree c.parent
      ]
      else ok (codes "`detc " ++ (outcome.parsed.command ++ codes "` was asked for it"))

  abbrev recorded : Option Commit → Option (Text × Text)
  recorded none = none
  recorded (some c) = some (git.short c.id, c.parsed.summary)

  -- What a run is described by: the commits of its phases, and the one that is its outcome.
  unfoldable pub described : Option Commit → Option Commit → Commit → Result Text Run
  unfolding cause
  described found applied outcome = cause found outcome >>= λ why. ok (record {
    id = outcome.parsed.run;
    time = outcome.time;
    command = outcome.parsed.command;
    cause = why;
    found = recorded found;
    applied = recorded applied;
    summary = outcome.parsed.summary;
    lines = outcome.parsed.lines;
  })

  -- `Journal::run_of`
  unfoldable pub run_of : Group → Result Text Run
  unfolding described
  run_of g = described (found_of g) (applied_of g) (outcome_of (applied_of g) (found_of g) g.first)

  unfoldable pub runs_of : List Group → Result Text (List Run)
  unfolding run_of
  runs_of [] = ok []
  runs_of (g ∷ gs) = run_of g >>= λ r. runs_of gs >>= λ rs. ok (r ∷ rs)

  -- `Journal::runs`, of the history most recent first.
  unfoldable pub runs : List Commit → Result Text (List Run)
  unfolding runs_of group_from
  runs history = runs_of (groups_of history)

  abbrev found_or : ℕ → Option Run → Result Text Run
  unfolding decimal
  found_or id none = err (codes "There is no run " ++ (decimal id ++ codes " in the journal"))
  found_or id (some r) = ok r

  -- `Journal::run`
  unfoldable pub run_by_id : ℕ → List Commit → Result Text Run
  unfolding runs found_or
  run_by_id id history = runs history >>= λ rs. found_or id (find (λ r. r.id == id) rs)
