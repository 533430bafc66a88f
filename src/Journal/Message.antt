-- ===== src/Journal/Message.antt =====
-- The message of a commit, `message_of`, `tally`, `trailer` and `parse` of src/journal.rs.
pub mod RoundTrip
use detc.Base.{
  ℕ, zero, suc, ◌+◌, Bool, true, false, not, ◌&&◌, Option, none, some, List, [], ◌∷◌, ◌++◌, map,
  Text, codes, text_eq, filter, is_empty, strip_prefix, parse_usize, if◌then◌else◌,
}
use detc.Base.Trim.{trim}
use detc.Base.Decimal.{decimal}
use detc.Base.Dict.{Dict, find_in, put_in}
use detc.Base.Lines.{newline, lines, unlines}
use detc.Apply.Change.{Change, Action, Fault, planned, taken, changes}
use detc.Apply.Snapshot.{Phase, found, applied}

abbrev pub run_key : Text
run_key = codes "Detc-Run"

abbrev pub phase_key : Text
phase_key = codes "Detc-Phase"

abbrev pub command_key : Text
command_key = codes "Detc-Command"

-- The two phases, as the trailer names them.
abbrev pub phase_name : Phase → Text
phase_name found = codes "found"
phase_name applied = codes "applied"

-- The match on the phase in the loop of `tally`.
unfoldable pub outcome : Phase → Action → Option Fault → Text
unfolding planned taken
outcome found a error = planned a
outcome applied a (some e) = codes "failed"
outcome applied a none = taken a

-- `*counts.entry(outcome).or_default() += 1`
unfoldable pub count_one : Text → Dict ℕ → Dict ℕ
unfolding find_in put_in
count_one k counts = elim (find_in k counts) [
  | none ↦ put_in k 1 counts
  | some n ↦ put_in k (n + 1) counts
]

-- The loop of `tally`.
unfoldable pub counts_from : Phase → List Change → Dict ℕ → Dict ℕ
unfolding count_one outcome
counts_from phase [] counts = counts
counts_from phase (c ∷ cs) counts =
    let next =
      if changes c.action then count_one (outcome phase c.action c.error) counts else counts in
    counts_from phase cs next

abbrev pub counted : Text × ℕ → Text
unfolding decimal
counted (k, n) = decimal n ++ (codes " " ++ k)

-- `join(", ")`
unfoldable pub commas : List Text → Text
commas [] = []
commas (t ∷ []) = t
commas (t ∷ u ∷ ts) = t ++ (codes ", " ++ commas (u ∷ ts))

abbrev told : Dict ℕ → Text
unfolding commas
told [] = codes "no object changed"
told (c ∷ cs) = commas (map counted (c ∷ cs))

unfoldable pub tally : Phase → List Change → Text
unfolding counts_from told
tally phase cs = told (counts_from phase cs [])

abbrev pub labelled : Text → Text → Text
labelled k v = (k ++ codes ": ") ++ v

-- The output of the run, behind a blank line.
abbrev pub body : List Text → List Text
body [] = []
body (l ∷ ls) = [] ∷ l ∷ ls

-- The trailers, behind a blank line.
abbrev pub trailers : ℕ → Phase → Text → List Text
trailers run phase command =
    []
    ∷ labelled run_key (decimal run)
    ∷ labelled phase_key (phase_name phase)
    ∷ labelled command_key command
    ∷ []

-- `Journal::message_of`; the run and the command are those of the journal.
unfoldable pub message_of : ℕ → Text → Phase → Text → List Text → Text
unfolding unlines
message_of run command phase summary ls =
    labelled command summary
    ++ (newline ∷ (unlines (body ls) ++ unlines (trailers run phase command)))

-- `Journal::message`
unfoldable pub message : ℕ → Text → Phase → List Change → List Text → Text
unfolding message_of tally
message run command phase cs ls = message_of run command phase (tally phase cs) ls

-- `rev().find_map(...)`: the last line that has the prefix.
unfoldable pub last_with : Text → List Text → Option Text
last_with prefix [] = none
last_with prefix (l ∷ ls) = elim (last_with prefix ls) [
  | some v ↦ some v
  | none ↦ strip_prefix prefix l
]

unfoldable pub trailer : Text → Text → Option Text
unfolding last_with lines
trailer text key = last_with (key ++ codes ": ") (lines text)

abbrev pub or_default : Option Text → Text
or_default none = []
or_default (some t) = t

-- What `parse` reads out of a message.
pub record Parsed : Type 0 where
  pub run : ℕ
  pub phase : Text
  pub command : Text
  pub summary : Text
  pub lines : List Text

unfoldable pub run_of_text : Option Text → ℕ
unfolding parse_usize
run_of_text none = 0
run_of_text (some t) = elim (parse_usize t) [ none ↦ 0 | some n ↦ n ]

abbrev pub subject_of : List Text → Text
subject_of [] = []
subject_of (l ∷ ls) = l

abbrev pub behind_subject : List Text → List Text
behind_subject [] = []
behind_subject (l ∷ ls) = ls

-- What of the message is output of the run.
unfoldable pub is_output : Text → Bool
unfolding trim
is_output l =
    not (is_empty (trim l))
    && elim (strip_prefix (codes "Detc-") l) [ none ↦ true | some t ↦ false ]

unfoldable pub summary_in : Text → Text → Text
summary_in command subject = elim (strip_prefix (command ++ codes ": ") subject) [
  | none ↦ subject
  | some t ↦ t
]

-- `Journal::parse`, of the message alone.
unfoldable pub parse : Text → Parsed
unfolding trailer lines is_output run_of_text summary_in
parse text = record {
  run = run_of_text (trailer text run_key);
  phase = or_default (trailer text phase_key);
  command = or_default (trailer text command_key);
  summary = summary_in (or_default (trailer text command_key)) (subject_of (lines text));
  lines = filter is_output (behind_subject (lines text));
}
