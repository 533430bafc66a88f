-- ===== src/Report/Columns.antt =====
-- What `cut` reads of the lines of src/record.rs.
use detc.Base.{
  ◌≡◌, refl, ap, ◌∙◌, subst, arith, false, Option, none, some, List, [], ◌∷◌, Text, codes, All,
  contains, split, join, split-join,
}
use detc.Base.Decimal.{decimal}
use detc.Report.{
  Record, of_type, an_object, a_check, a_change, a_probe, a_bundle, a_run, type_name, kept_word,
  detail_of, tab, line,
}

abbrev change_columns : Text → Text → Option Text → List Text
change_columns action object (some detail) = action ∷ object ∷ detail ∷ []
change_columns action object none = action ∷ object ∷ []

-- The fields of a record that is one line of them.
unfoldable pub columns : Record → Option (List Text)
unfolding change_columns
columns (of_type kind) = some (type_name kind ∷ [])
columns (an_object kind name source) = some (type_name kind ∷ name ∷ source ∷ [])
columns (a_check name none) = some (codes "ok" ∷ name ∷ [])
columns (a_check name (some e)) = some (codes "error" ∷ name ∷ e ∷ [])
columns (a_change action object summary error) =
    some (change_columns action object (detail_of summary error))
columns (a_probe mount path) = some (mount ∷ path ∷ [])
columns (a_bundle name version signer origin persist installed) =
    some (name ∷ version ∷ signer ∷ origin ∷ kept_word installed persist ∷ [])
columns (a_run id time command summary) = some (decimal id ∷ time ∷ command ∷ summary ∷ [])
columns _ = none

-- Fields that are known to be the columns.
given :
    (t : Text) (fs gs : List Text)
    → ◌≡◌ {A = Option (List Text)} (some fs) (some gs)
    → t ≡ join tab fs
    → t ≡ join tab gs
given t fs gs h e = subst (λ ks. t ≡ join tab ks) (ground (arith, h)) e

line-join : (r : Record) (fs : List Text) → columns r ≡ some fs → line r ≡ join tab fs
unfolding columns line join
line-join (of_type kind) fs h = given _ _ fs h refl
line-join (an_object kind name source) fs h = given _ _ fs h refl
line-join (a_check name none) fs h = given _ _ fs h refl
line-join (a_check name (some e)) fs h = given _ _ fs h refl
line-join (a_change action object summary (some e)) fs h = given _ _ fs h refl
line-join (a_change action object (some d) none) fs h = given _ _ fs h refl
line-join (a_change action object none none) fs h = given _ _ fs h refl
line-join (a_probe mount path) fs h = given _ _ fs h refl
line-join (a_bundle name version signer origin persist installed) fs h = given _ _ fs h refl
line-join (a_run id time command summary) fs h = given _ _ fs h refl
line-join _ fs h = absurd (ground (arith, h))

-- A record has a column.
columns-filled : (r : Record) → columns r ≡ some [] → ⊥
unfolding columns
columns-filled (of_type kind) h = absurd (ground (arith, h))
columns-filled (a_check name none) h = absurd (ground (arith, h))
columns-filled (a_check name (some e)) h = absurd (ground (arith, h))
columns-filled (a_change action object summary (some e)) h = absurd (ground (arith, h))
columns-filled (a_change action object (some d) none) h = absurd (ground (arith, h))
columns-filled (a_change action object none none) h = absurd (ground (arith, h))
columns-filled _ h = absurd (ground (arith, h))

-- The line of a record that is one line of fields, split at the tabs, is those fields, where no
-- field has a tab in it.
pub split-line :
    (r : Record) (fs : List Text)
    → columns r ≡ some fs
    → All (λ f. contains tab f ≡ false) fs
    → split tab (line r) ≡ fs
split-line r [] h a = absurd (columns-filled r h)
split-line r (f ∷ fs) h a = ap (split tab) (line-join r (f ∷ fs) h) ∙ split-join tab f fs a
