-- ===== src/Apply/Requirement/Order.antt =====
-- What it means that every requirement can be met: each names an object that comes strictly earlier,
-- so the requirements of a plan make no cycle.
use detc.Base.{
  ◌≡◌, refl, ℕ, suc, Bool, true, false, Option, none, some, List, [], ◌∷◌, Text, ◌<ℤ◌, ltb_ℤ→lt,
  <ℤ_trans, <ℤ_irrefl, All, arith, Bool-cases, inl, inr, ◌⊎◌, sym, ap, subst, ◌∙◌, Option-cases,
  Has, All-Has,
}
use detc.Apply.Requirement.{
  Requirement, Reason, find_object, reason, first_reason, offence, unmet_from, unmet,
}

-- The object that a requirement names is in the plan, and is broken or strictly earlier.
pub record IsMet (objects : List Requirement) (object : Requirement) (id : Text) : Type 0 where
  pub target : Requirement
  pub found : find_object id objects ≡ some target
  pub earlier : (target.broken ≡ true) ⊎ (target.order <ℤ object.order)

reason-IsMet :
    (objects : List Requirement) (object : Requirement) (id : Text) (o : Option Requirement)
    → find_object id objects ≡ o
    → reason true object id o ≡ none
    → IsMet objects object id
unfolding reason
reason-IsMet objects object id none e h = cc
reason-IsMet objects object id (some target) e h = record {
  target = target;
  found = e;
  earlier = elim (Bool-cases target.broken) [
    | inl b ↦ inl b
    | inr b ↦ inr (ltb_ℤ→lt target.order object.order (ground arith))
  ];
}

first_reason-IsMet :
    (objects : List Requirement) (object : Requirement) (ids : List Text)
    → first_reason objects true object ids ≡ none
    → All (IsMet objects object) ids
unfolding first_reason
first_reason-IsMet objects object [] h = tt
first_reason-IsMet objects object (id ∷ ids) h =
    let met = reason true object id (find_object id objects) in
    elim (Option-cases met) [
      | inl e ↦ (
        reason-IsMet objects object id (find_object id objects) refl e,
        first_reason-IsMet objects object ids (ground (arith, e)),
      )
      | inr (why, e) ↦ absurd (none_ne_some why (ground (arith, e)))
    ]
  where
    none_ne_some : (why : Reason) → ¬ (◌≡◌ {A = Option Reason} (some why) none)
    none_ne_some why x = cc

-- Every requirement of an object that is not broken is met.
abbrev pub AreMet : List Requirement → Requirement → Type 0
AreMet objects object = object.broken ≡ false → All (IsMet objects object) object.requires

offence-AreMet :
    (objects : List Requirement) (object : Requirement)
    → offence objects true object ≡ none
    → AreMet objects object
unfolding offence
offence-AreMet objects object h whole =
    first_reason-IsMet objects object object.requires (ground arith)

unmet_from-AreMet :
    (objects : List Requirement) (index : ℕ) (rest : List Requirement)
    → unmet_from objects true index rest ≡ []
    → All (AreMet objects) rest
unfolding unmet_from
unmet_from-AreMet objects index [] h = tt
unmet_from-AreMet objects index (object ∷ rest) h =
    elim (Option-cases (offence objects true object)) [
      | inl e ↦ (
        offence-AreMet objects object e,
        unmet_from-AreMet objects (suc index) rest (ground (arith, e)),
      )
      | inr (why, e) ↦ absurd (ground (arith, e))
    ]

-- A run that looked at the whole system, and that `unmet` finds nothing against, has for every
-- requirement of every object that is not broken an object of that name, which is broken itself or
-- comes strictly earlier.
pub unmet-AreMet :
    (objects : List Requirement) → unmet objects true ≡ [] → All (AreMet objects) objects
unfolding unmet
unmet-AreMet objects h = unmet_from-AreMet objects 0 objects h

-- Whole objects of the plan, each requiring the next.
pub data Chain (objects : List Requirement) : Requirement → Requirement → Type 0 where
  link :
      {a b : Requirement} (id : Text)
      → Has a objects
      → a.broken ≡ false
      → Has id a.requires
      → find_object id objects ≡ some b
      → b.broken ≡ false
      → Chain objects a b
  onward : {a b c : Requirement} → Chain objects a b → Chain objects b c → Chain objects a c

same_target :
    {objects : List Requirement} {a : Requirement} {id : Text} (b : Requirement)
    → IsMet objects a id
    → find_object id objects ≡ some b
    → b.broken ≡ false
    → b.order <ℤ a.order
same_target {objects} {a} {id} b met found whole =
    let agree : some met.target ≡ some b = sym met.found ∙ found in
    let same : met.target ≡ b = cc agree in
    elim met.earlier [
      | inl broken ↦ absurd (true_ne_false (sym broken ∙ ap (λ t. t.broken) same ∙ whole))
      | inr lt ↦ subst (λ t. t.order <ℤ a.order) same lt
    ]
  where
    true_ne_false : ¬ (◌≡◌ {A = Bool} true false)
    true_ne_false x = cc

chain_descends :
    {objects : List Requirement} {a b : Requirement}
    → All (AreMet objects) objects
    → Chain objects a b
    → b.order <ℤ a.order
chain_descends {objects} {a} {b} all_met (link id here whole needs found sound) =
    same_target b
      (All-Has (IsMet objects a) id a.requires
        (All-Has (AreMet objects) a objects all_met here whole) needs)
      found sound
chain_descends {objects} {a} {b} all_met (onward {b = m} p q) =
    <ℤ_trans b.order m.order a.order (chain_descends all_met q) (chain_descends all_met p)

-- In such a plan no object requires itself, directly or through others.
pub unmet_no_cycle :
    (objects : List Requirement) (a : Requirement) → unmet objects true ≡ [] → ¬ (Chain objects a a)
unmet_no_cycle objects a h c = <ℤ_irrefl a.order (chain_descends (unmet-AreMet objects h) c)
