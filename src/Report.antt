-- ===== src/Report.antt =====
-- What a verb of detc has to say, `Record`, `line` and `TextSink` of src/record.rs, and the types of
-- objects, `Type` of src/detc.rs.
pub mod Columns
mod Tests
use detc.Base.{
  ℕ, Bool, true, false, Option, none, some, List, [], ◌∷◌, ◌++◌, Text, codes, join, is_empty,
  if◌then◌else◌,
}
use detc.Base.Decimal.{decimal}

pub data ObjectType : Type 0 where
  probe template resource provider variable : ObjectType

-- The names that clap gives them, in kebab case.
unfoldable pub type_name : ObjectType → Text
type_name probe = codes "probe"
type_name template = codes "template"
type_name resource = codes "resource"
type_name provider = codes "provider"
type_name variable = codes "variable"

pub record Commit : Type 0 where
  pub id : Text
  pub summary : Text

pub data Record : Type 0 where
  of_type : ObjectType → Record
  an_object : ObjectType → Text → Text → Record
  a_check : Text → Option Text → Record
  -- the action, the object, the summary and the error
  a_change : Text → Text → Option Text → Option Text → Record
  a_probe : Text → Text → Record
  -- the name, the version, the signer, the origin, whether it persists and whether it is installed
  a_bundle : Text → Text → Text → Text → Bool → Bool → Record
  a_run : ℕ → Text → Text → Text → Record
  -- the run, its time, its command, its cause, the commits of its phases and its output
  a_detail : ℕ → Text → Text → Text → Option Commit → Option Commit → List Text → Record
  a_line : Text → Record
  a_text : Text → Record

abbrev pub tab : ℕ
tab = 9

abbrev pub tabbed : Text → Text → Text
tabbed a b = a ++ (tab ∷ b)

-- `error.as_ref().or(summary.as_ref())`
abbrev pub detail_of : Option Text → Option Text → Option Text
detail_of summary (some e) = some e
detail_of summary none = summary

abbrev pub with_detail : Text → Text → Option Text → Text
with_detail action object (some detail) = tabbed action (tabbed object detail)
with_detail action object none = tabbed action object

unfoldable pub kept_word : Bool → Bool → Text
kept_word false persist = codes "kept"
kept_word true true = codes "persistent"
kept_word true false = codes "transient"

abbrev pub phase_line : Text → Option Commit → List Text
phase_line phase none = []
phase_line phase (some c) = tabbed phase (tabbed c.id c.summary) ∷ []

abbrev pub output_lines : List Text → List Text
output_lines [] = []
output_lines (l ∷ ls) = [] ∷ l ∷ ls

-- The match on `RunDetail`, before it is joined.
unfoldable pub detail_lines :
    ℕ → Text → Text → Text → Option Commit → Option Commit → List Text → List Text
unfolding decimal
detail_lines id time command cause found applied ls =
    tabbed (codes "run") (tabbed (decimal id) (tabbed time command))
    ∷ tabbed (codes "cause") cause
    ∷ (phase_line (codes "found") found
        ++ (phase_line (codes "applied") applied ++ output_lines ls))

-- `Record::line`
unfoldable pub line : Record → Text
unfolding type_name kept_word detail_lines decimal join
line (of_type kind) = type_name kind
line (an_object kind name source) = tabbed (type_name kind) (tabbed name source)
line (a_check name none) = tabbed (codes "ok") name
line (a_check name (some e)) = tabbed (codes "error") (tabbed name e)
line (a_change action object summary error) = with_detail action object (detail_of summary error)
line (a_probe mount path) = tabbed mount path
line (a_bundle name version signer origin persist installed) =
    tabbed name (tabbed version (tabbed signer (tabbed origin (kept_word installed persist))))
line (a_run id time command summary) = tabbed (decimal id) (tabbed time (tabbed command summary))
line (a_detail id time command cause found applied ls) =
    join 10 (detail_lines id time command cause found applied ls)
line (a_line text) = text
line (a_text text) = text

-- `TextSink::emit`, as what is written.
unfoldable pub emit : Record → Text
unfolding line
emit (a_text text) = text
emit r = line r ++ (10 ∷ [])
