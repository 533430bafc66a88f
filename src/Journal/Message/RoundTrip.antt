-- ===== src/Journal/Message/RoundTrip.antt =====
-- A message that was written is read back, in src/journal.rs.
use detc.Base.{
  ◌≡◌, refl, sym, ap, ◌∙◌, ℕ, ◌≤◌, Bool, true, false, not, ◌&&◌, some, List, [], ◌∷◌, ◌++◌, Text,
  codes, filter, is_empty, strip_prefix, usize_max, All, arith, append-nil,
}
use detc.Base.Trim.{trim}
use detc.Base.Decimal.{decimal}
use detc.Base.Decimal.Reading.{parse_usize-decimal, decimal-IsLine}
use detc.Base.Lines.{
  lines, unlines, IsLine, IsLine-append, lines-append, lines-unlines, strip_prefix-append,
}
use detc.Apply.Snapshot.{Phase, found, applied}
use detc.Journal.Message.{
  run_key, phase_key, command_key, phase_name, labelled, body, trailers, message_of, last_with,
  trailer, is_output, summary_in, run_of_text, parse,
}

last_with-append :
    (p : Text) (ls rest : List Text) (v : Text)
    → last_with p rest ≡ some v
    → last_with p (ls ++ rest) ≡ some v
unfolding last_with
last_with-append p [] rest v h = h
last_with-append p (l ∷ ls) rest v h = rw (last_with-append p ls rest v h, last_with) refl

labelled-IsLine : (k v : Text) → IsLine (k ++ codes ": ") → IsLine v → IsLine (labelled k v)
labelled-IsLine k v h j = IsLine-append (k ++ codes ": ") v h j

phase_name-IsLine : (phase : Phase) → IsLine (phase_name phase)
phase_name-IsLine found = refl
phase_name-IsLine applied = refl

body-AreLines : (ls : List Text) → All IsLine ls → All IsLine (body ls)
body-AreLines [] h = tt
body-AreLines (l ∷ ls) h = (refl, h)

trailers-AreLines :
    (run : ℕ) (phase : Phase) (command : Text)
    → IsLine command
    → All IsLine (trailers run phase command)
trailers-AreLines run phase command h = (
  refl,
  (
    labelled-IsLine run_key (decimal run) refl (decimal-IsLine run),
    (
      labelled-IsLine phase_key (phase_name phase) refl (phase_name-IsLine phase),
      (labelled-IsLine command_key command refl h, tt),
    ),
  ),
)

lines_of_unlines : (ls : List Text) → All IsLine ls → lines (unlines ls) ≡ ls
unfolding lines
lines_of_unlines ls h =
    ap lines (sym (append-nil (unlines ls))) ∙ lines-unlines ls [] h ∙ append-nil ls

lines-message_of :
    (run : ℕ) (command : Text) (phase : Phase) (summary : Text) (ls : List Text)
    → IsLine command
    → IsLine summary
    → All IsLine ls
    → lines (message_of run command phase summary ls)
      ≡ labelled command summary ∷ (body ls ++ trailers run phase command)
unfolding message_of
lines-message_of run command phase summary ls c s h =
    lines-append (labelled command summary)
      (unlines (body ls) ++ unlines (trailers run phase command))
      (labelled-IsLine command summary (IsLine-append command (codes ": ") c refl) s)
    ∙ ap (◌∷◌ (labelled command summary)) (
        lines-unlines (body ls) (unlines (trailers run phase command)) (body-AreLines ls h)
        ∙ ap (◌++◌ (body ls))
            (lines_of_unlines (trailers run phase command) (trailers-AreLines run phase command c)))

run_in :
    (run : ℕ) (phase : Phase) (command : Text)
    → last_with (run_key ++ codes ": ") (trailers run phase command) ≡ some (decimal run)
unfolding last_with
run_in run phase command = rw (strip_prefix-append (run_key ++ codes ": ") (decimal run)) refl

phase_in :
    (run : ℕ) (phase : Phase) (command : Text)
    → last_with (phase_key ++ codes ": ") (trailers run phase command) ≡ some (phase_name phase)
unfolding last_with
phase_in run phase command =
    rw (strip_prefix-append (phase_key ++ codes ": ") (phase_name phase)) refl

command_in :
    (run : ℕ) (phase : Phase) (command : Text)
    → last_with (command_key ++ codes ": ") (trailers run phase command) ≡ some command
unfolding last_with
command_in run phase command = rw (strip_prefix-append (command_key ++ codes ": ") command) refl

-- The output is kept, and the trailers are not output.
filter-output :
    (ls rest : List Text)
    → All (λ l. is_output l ≡ true) ls
    → filter is_output rest ≡ []
    → filter is_output (ls ++ rest) ≡ ls
filter-output [] rest h e = e
filter-output (l ∷ ls) rest h e = rw h.0 (ap (◌∷◌ l) (filter-output ls rest h.1 e))

filter-body :
    (ls rest : List Text)
    → All (λ l. is_output l ≡ true) ls
    → filter is_output rest ≡ []
    → filter is_output (body ls ++ rest) ≡ ls
unfolding is_output trim
filter-body [] rest h e = e
filter-body (l ∷ ls) rest h e = filter-output (l ∷ ls) rest h e

and_false : (b : Bool) → b && false ≡ false
and_false b = ground arith

-- A line that starts like a trailer is not output.
is_output-trailer : (l t : Text) → strip_prefix (codes "Detc-") l ≡ some t → is_output l ≡ false
unfolding is_output
is_output-trailer l t h = rw h (and_false (not (is_empty (trim l))))

filter-trailers :
    (run : ℕ) (phase : Phase) (command : Text) → filter is_output (trailers run phase command) ≡ []
filter-trailers run phase command =
    rw
      (
        is_output-trailer (labelled run_key (decimal run)) _ refl,
        is_output-trailer (labelled phase_key (phase_name phase)) _ refl,
        is_output-trailer (labelled command_key command) _ refl,
      )
      blank
  where
    blank : filter is_output ([] ∷ []) ≡ []
    blank = unfold is_output in unfold trim in refl

run_of_text-decimal : (n : ℕ) → n ≤ usize_max → run_of_text (some (decimal n)) ≡ n
unfolding run_of_text
run_of_text-decimal n h = rw (parse_usize-decimal n h, run_of_text) refl

summary_in-labelled :
    (command summary : Text) → summary_in command (labelled command summary) ≡ summary
unfolding summary_in
summary_in-labelled command summary =
    rw (strip_prefix-append (command ++ codes ": ") summary, summary_in) refl

-- What `message_of` writes is read back by `parse`: the run, which fits in a `u64`, the phase,
-- the command, the summary and the output, where the command, the summary and each line of the
-- output are one line and no line of the output is blank or starts like a trailer.
pub parse-message_of :
    (run : ℕ) (command : Text) (phase : Phase) (summary : Text) (ls : List Text)
    → run ≤ usize_max
    → IsLine command
    → IsLine summary
    → All IsLine ls
    → All (λ l. is_output l ≡ true) ls
    → parse (message_of run command phase summary ls) ≡ record {
      run = run;
      phase = phase_name phase;
      command = command;
      summary = summary;
      lines = ls;
    }
unfolding parse trailer
parse-message_of run command phase summary ls n c s h o =
    rw
      (
        lines-message_of run command phase summary ls c s h,
        last_with-append (run_key ++ codes ": ") (labelled command summary ∷ body ls)
            (trailers run phase command) _ (run_in run phase command),
        last_with-append (phase_key ++ codes ": ") (labelled command summary ∷ body ls)
            (trailers run phase command) _ (phase_in run phase command),
        last_with-append (command_key ++ codes ": ") (labelled command summary ∷ body ls)
            (trailers run phase command) _ (command_in run phase command),
        filter-body ls (trailers run phase command) o (filter-trailers run phase command),
        run_of_text-decimal run n,
        summary_in-labelled command summary,
      )
      refl
