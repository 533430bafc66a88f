-- ===== src/Apply/Change/Converges.antt =====
-- Applying a resource succeeds only where the state that its provider reports afterwards agrees with
-- every key that was asked for.
use detc.Base.{
  ◌≡◌, refl, sym, ap, ◌∙◌, subst, true, Option, none, some, Result, ok, err, Text, text_eq,
  text_eq_iff, arith, if◌then◌else◌, Bool-cases, inl, inr,
}
use detc.Value.{Value, Fields, end, field, lookup}
use detc.Value.Equality.{value_eq-eq}
use detc.Apply.Change.{
  Fault, Target, resource, Change, changes, Answers, reported, agrees, differing, difference,
  no_fields, verdict, reached, reached_if, apply_target, apply,
}

agrees-eq : (o : Option Value) (v : Value) → agrees o v ≡ true → o ≡ some v
agrees-eq none v h = cc
agrees-eq (some w) v h = ap some (value_eq-eq w v h)

differing-cons :
    (current desired : Fields) (j : Text) (w : Value)
    → no_fields (differing current (field j w desired)) ≡ true
    → (lookup j current ≡ some w) × (no_fields (differing current desired) ≡ true)
unfolding differing
differing-cons current desired j w h = elim (Bool-cases (agrees (lookup j current) w)) [
  | inl same ↦ (agrees-eq (lookup j current) w same, ground (arith, same))
  | inr other ↦ absurd (ground (arith, other))
]

lookup-cons :
    (k j : Text) (w : Value) (m : Fields)
    → lookup k (field j w m) ≡ (if text_eq j k then some w else lookup k m)
unfolding lookup
lookup-cons k j w m = refl

-- Nothing differs only where every desired key is there with its value.
differing-agrees :
    (current desired : Fields) (k : Text) (v : Value)
    → no_fields (differing current desired) ≡ true
    → lookup k desired ≡ some v
    → lookup k current ≡ some v
differing-agrees current end k v h e = unfold lookup in cc
differing-agrees current (field j w desired) k v h e =
    let (here, later) = differing-cons current desired j w h in
    let e' = sym (lookup-cons k j w desired) ∙ e in
    elim (Bool-cases (text_eq j k)) [
      | inl same ↦
          subst (λ t. lookup t current ≡ some v) ((text_eq_iff j k).0 same) (here ∙ rw same at e')
      | inr other ↦ differing-agrees current desired k v later (rw other at e')
    ]

-- What a successful `apply` of a resource tells.
pub record IsReached (a : Answers) (desired diff : Fields) (after : Target) : Type 0 where
  pub read : Fields → Fields
  pub state : Value
  pub schema_is : a.schema ≡ ok read
  pub state_is : a.inspected ≡ ok (some state)
  pub left : after ≡ resource desired (some state) diff
  pub agreed :
      (k : Text) (v : Value)
      → lookup k desired ≡ some v
      → lookup k (reported read (some state)) ≡ some v

verdict-ok :
    (read : Fields → Fields) (desired : Fields) (o : Option Value)
    → verdict o (difference read desired o) ≡ ok tt
    → (state : Value) × (o ≡ some state)
      × (no_fields (differing (reported read (some state)) desired) ≡ true)
unfolding verdict difference
verdict-ok read desired none h = cc
verdict-ok read desired (some state) h = (state, refl, ground arith)

reached-IsReached :
    (a : Answers) (desired : Fields) (current : Option Value) (diff : Fields)
    (schema : Result Fault (Fields → Fields)) (inspected : Result Fault (Option Value))
    → a.schema ≡ schema
    → a.inspected ≡ inspected
    → (reached desired current diff schema inspected).0 ≡ ok tt
    → IsReached a desired diff (reached desired current diff schema inspected).1
unfolding reached
reached-IsReached a desired current diff (err e) inspected es ei h = cc
reached-IsReached a desired current diff (ok read) (err e) es ei h = cc
reached-IsReached a desired current diff (ok read) (ok o) es ei h =
    let (state, is, none_left) = verdict-ok read desired o h in
    record {
      read = read;
      state = state;
      schema_is = es;
      state_is = ei ∙ ap ok is;
      left = ap (λ t. resource desired t diff) is;
      agreed = λ k v e. differing-agrees (reported read (some state)) desired k v none_left e;
    }

reached_if-IsReached :
    (r : Result Fault (Unit {0})) (a : Answers) (desired : Fields) (current : Option Value)
    (diff : Fields)
    → (reached_if r a desired current diff).0 ≡ ok tt
    → IsReached a desired diff (reached_if r a desired current diff).1
unfolding reached_if
reached_if-IsReached (err e) a desired current diff h = cc
reached_if-IsReached (ok _) a desired current diff h =
    reached-IsReached a desired current diff a.schema a.inspected refl refl h

apply-target :
    (a : Answers) (c : Change)
    → changes c.action ≡ true
    → ((apply a c).0 ≡ (apply_target a c.target).0)
      × ((apply a c).1.target ≡ (apply_target a c.target).1)
unfolding apply
apply-target a c h = (rw h refl, rw h refl)

apply_target-IsReached :
    (a : Answers) (desired : Fields) (current : Option Value) (diff : Fields) (t : Target)
    → t ≡ resource desired current diff
    → (apply_target a t).0 ≡ ok tt
    → IsReached a desired diff (apply_target a t).1
apply_target-IsReached a desired current diff t is h =
    subst (λ u. (apply_target a u).0 ≡ ok tt → IsReached a desired diff (apply_target a u).1)
      (sym is)
      (unfold apply_target in reached_if-IsReached a.provider_applied a desired current diff) h

-- A resource that was not in sync and whose apply succeeds is afterwards in the state that its
-- provider was asked for: the provider was inspected again, reported a state, and that state, read
-- by the schema, has every desired key with its desired value.
pub apply-IsReached :
    (a : Answers) (c : Change) (desired : Fields) (current : Option Value) (diff : Fields)
    → c.target ≡ resource desired current diff
    → changes c.action ≡ true
    → (apply a c).0 ≡ ok tt
    → IsReached a desired diff (apply a c).1.target
apply-IsReached a c desired current diff is out h =
    let (result, left) = apply-target a c out in
    subst (IsReached a desired diff) (sym left)
      (apply_target-IsReached a desired current diff c.target is (sym result ∙ h))
