-- ===== src/Journal/Entries.antt =====
-- What the journal records of the objects of a plan, `paths`, `Record::of`, `carried` and `record`,
-- and who a commit is attributed to, `signature`, of src/journal.rs.
pub mod Signed
use detc.Base.{
  Bool, true, false, not, ◌&&◌, ◌||◌, Option, none, some, List, [], ◌∷◌, ◌++◌, map, Result, ok, err,
  Text, codes, text_eq, filter, is_empty, ◌==◌, ℤ, ℕ, if◌then◌else◌,
}
use detc.Base.Trim.{trim}
use detc.Value.{Value, Fields, null, bool, number, string, array, object, end, field, or_null}
use detc.Var.Strategy
use detc.Apply.Naming.{files_key}
use detc.Apply.Change.{Change}
use detc.Apply.Snapshot.{Phase, Snapshot, of_template, of_resource, snapshot}

-- A path of the repository, and its bytes.
abbrev pub Entry : Type 0
Entry = Text × Text

abbrev pub template_kind : Text
template_kind = codes "template"

-- `trim_start_matches('/')`
unfoldable pub without_slashes : Text → Text
without_slashes [] = []
without_slashes (c ∷ cs) = let rest = without_slashes cs in if c == b'/' then rest else c ∷ cs

-- The two paths of an object: what it is declared to be, and what it turned out to be.
unfoldable pub paths : Text → Text → Text → Text × Text
unfolding files_key without_slashes
paths root kind name =
    if text_eq kind template_kind
    then (let target = without_slashes (files_key root name) in
        (codes "templates/" ++ target, codes "files/" ++ target))
    else (
      codes "resources/" ++ (kind ++ (codes "/" ++ name)),
      codes "states/" ++ (kind ++ (codes "/" ++ (name ++ codes ".json"))),
    )

-- The record of one object: what is written, and what has to go.
pub record Entries : Type 0 where
  pub written : List Entry
  pub gone : List Text

-- `pretty` is how serde_json writes a document over several lines, and `from_i64` how it writes the
-- order.
module _ (root : Text) (pretty : Fields → Text) (from_i64 : ℤ → Text) where
  abbrev content_entry : Text → Option Text → Text → Entries
  content_entry declared (some content) path = record { written = (path, content) ∷ []; gone = [] }
  content_entry declared none path = record { written = []; gone = path ∷ [] }

  abbrev state_body : ℤ → Fields → Option Value → Fields
  state_body order desired state =
      field (codes "desired") (object desired) (
        field (codes "order") (number (from_i64 order)) (field (codes "state") (or_null state) end))

  -- `Record::of`
  unfoldable pub entries_of : Snapshot → Entries
  unfolding paths
  entries_of (of_template target text content) =
      let (declared, holds) = paths root template_kind target in
      let e = content_entry declared content holds in
      record { written = (declared, text) ∷ e.written; gone = e.gone }
  entries_of (of_resource kind name order declared desired state) =
      let (asks, became) = paths root kind name in
      record {
        written =
            (asks, declared) ∷ (became, pretty (state_body order desired state) ++ (10 ∷ [])) ∷ [];
        gone = [];
      }

  abbrev held_at : Text → Option Text → List Entry
  held_at path none = []
  held_at path (some content) = (path, content) ∷ []

  -- `Journal::carried`; `held` is the blob that the tip has at a path.
  unfoldable pub carried : (Text → Option Text) → Change → List Entry
  unfolding paths
  carried held c =
      let (declared, became) = paths root c.kind c.name in
      held_at declared (held declared) ++ held_at became (held became)

  -- The match on the snapshot in the loop of `record`.
  unfoldable pub recorded : (Text → Option Text) → Change → Result Text (Option Snapshot) → Entries
  unfolding entries_of carried
  recorded held c (ok (some s)) = entries_of s
  recorded held c (ok none) = record { written = carried held c; gone = [] }
  recorded held c (err e) = record { written = carried held c; gone = [] }

  -- The loop of `record`.
  unfoldable pub entries_from :
      (Text → Option Text) → (Text → Result Text Text) → Phase → List Change → Entries
  unfolding recorded snapshot
  entries_from held read phase [] = record { written = []; gone = [] }
  entries_from held read phase (c ∷ cs) =
      let e = recorded held c (snapshot read phase c) in
      let rest = entries_from held read phase cs in
      record { written = e.written ++ rest.written; gone = e.gone ++ rest.gone }

  -- What `record` hands to `commit`: the namespace, and the objects.
  unfoldable pub entries :
      Text → (Text → Option Text) → (Text → Result Text Text) → Phase → List Change → Entries
  unfolding entries_from
  entries variables held read phase cs =
      let rest = entries_from held read phase cs in
      record { written = (codes "variables.yaml", variables) ∷ rest.written; gone = rest.gone }

-- The match on what the namespace says.
abbrev pub signed_value : Result Strategy.Error Value → Text
signed_value (ok (string t)) = t
signed_value (ok (bool true)) = codes "true"
signed_value (ok (bool false)) = codes "false"
signed_value (ok (number t)) = t
signed_value _ = []

abbrev pub unsigned : ℕ → Bool
unsigned c = c == b'<' || c == b'>' || c == 10 || c == 13

-- `signature`
unfoldable pub signature : Result Strategy.Error Value → Text → Text
unfolding trim signed_value
signature value default =
    let t = trim (filter (λ c. not (unsigned c)) (signed_value value)) in
    if is_empty t then default else t
