-- ===== src/Apply/Plan/Accepted.antt =====
-- A plan whose offenders are marked has none left, in `Plan::build` of src/apply.rs.
use detc.Base.{
  ◌≡◌, refl, sym, ap, ◌∙◌, subst, ℕ, suc, Bool, Option, none, some, List, [], ◌∷◌, ◌++◌, map, Text,
  text_eq, arith, append_assoc, Bool-cases, Option-cases, inl, inr, length,
}
use detc.Apply.Requirement.{
  Requirement, Reason, find_object, reason, first_reason, offence, unmet_from, unmet,
}
use detc.Apply.Change.{Change, requirement}
use detc.Apply.Plan.{broken_change}
use detc.Apply.Plan.Build.{Tools, set_at, offender, mark, checked}

set_at-append :
    (pre : List Change) (c : Change) (rest : List Change) (f : Change → Change)
    → set_at (length pre) f (pre ++ (c ∷ rest)) ≡ pre ++ (f c ∷ rest)
unfolding set_at
set_at-append [] c rest f = refl
set_at-append (d ∷ pre) c rest f = ap (◌∷◌ d) (set_at-append pre c rest f)

length-snoc : (pre : List Change) (c : Change) → length (pre ++ (c ∷ [])) ≡ suc (length pre)
length-snoc [] c = refl
length-snoc (d ∷ pre) c = ap suc (length-snoc pre c)

module _ (tools : Tools) where
  -- An object, or what stands in its place.
  abbrev replaced : Option Reason → Change → Change
  replaced none c = c
  replaced (some why) c = offender tools why c

  module _ (objects : List Requirement) (complete : Bool) where
    fixed : Change → Change
    fixed c = replaced (offence objects complete (requirement c)) c

    fixed_all : List Change → List Change
    fixed_all [] = []
    fixed_all (c ∷ cs) = fixed c ∷ fixed_all cs

    id_fixed : (c : Change) → (fixed c).id ≡ c.id
    unfolding fixed offender
    id_fixed c = elim (Option-cases (offence objects complete (requirement c))) [
      | inl e ↦ rw (e, fixed) refl
      | inr (why, e) ↦ rw (e, fixed) refl
    ]

    -- Marking by position is replacing each object.
    mark-unmet_from :
        (k : ℕ) (pre rest : List Change)
        → length pre ≡ k
        → mark tools (unmet_from objects complete k (map requirement rest)) (pre ++ rest)
          ≡ pre ++ fixed_all rest
    unfolding unmet_from mark fixed_all fixed
    mark-unmet_from k pre [] h = refl
    mark-unmet_from k pre (c ∷ rest) h =
        let step : (d : Change)
            → mark tools (unmet_from objects complete (suc k) (map requirement rest))
                (pre ++ (d ∷ rest))
              ≡ pre ++ (d ∷ fixed_all rest) =
          λ d.
            subst
              (λ l.
                mark tools (unmet_from objects complete (suc k) (map requirement rest)) l
                ≡ pre ++ (d ∷ fixed_all rest))
              (append_assoc pre (d ∷ []) rest)
              (mark-unmet_from (suc k) (pre ++ (d ∷ [])) rest (length-snoc pre d ∙ ap suc h)
                ∙ append_assoc pre (d ∷ []) (fixed_all rest)) in
        elim (Option-cases (offence objects complete (requirement c))) [
          | inl e ↦ rw (e, unmet_from) (step c)
          | inr (why, e) ↦
              rw (e, unmet_from, mark)
                (subst
                  (λ n.
                    mark tools (unmet_from objects complete (suc k) (map requirement rest))
                      (set_at n (offender tools why) (pre ++ (c ∷ rest)))
                    ≡ pre ++ (offender tools why c ∷ fixed_all rest))
                  h
                  (rw (set_at-append pre c rest (offender tools why))
                    (step (offender tools why c))))
        ]

    -- An object that is found after the marking is the one before, or it cannot be applied.
    reason_fixed :
        (object : Requirement) (id : Text) (cs : List Change)
        → reason complete object id (find_object id (map requirement cs)) ≡ none
        → reason complete object id (find_object id (map requirement (fixed_all cs))) ≡ none
    unfolding find_object fixed_all fixed reason text_eq requirement offender broken_change
    reason_fixed object id [] h = h
    reason_fixed object id (c ∷ cs) h = elim (Bool-cases (text_eq c.id id)) [
      | inl e ↦ elim (Option-cases (offence objects complete (requirement c))) [
        | inl n ↦ rw (n, fixed) (rw e (ground (arith, rw e at h)))
        | inr (why, n) ↦ rw (n, fixed) (rw (e, offender, broken_change) refl)
      ]
      | inr e ↦ rw (id_fixed c) (rw e (reason_fixed object id cs (ground (arith, rw e at h))))
    ]

    first_reason_fixed :
        (cs : List Change) (object : Requirement) (ids : List Text)
        → first_reason (map requirement cs) complete object ids ≡ none
        → first_reason (map requirement (fixed_all cs)) complete object ids ≡ none
    unfolding first_reason
    first_reason_fixed cs object [] h = refl
    first_reason_fixed cs object (id ∷ ids) h =
        elim (Option-cases (reason complete object id (find_object id (map requirement cs)))) [
          | inl e ↦
              rw (reason_fixed object id cs e, first_reason)
                (first_reason_fixed cs object ids (ground (arith, rw (e, first_reason) at h)))
          | inr (why, e) ↦ absurd (ground (arith, rw (e, first_reason) at h))
        ]

    offence_keeps :
        (cs : List Change) (r : Requirement)
        → offence (map requirement cs) complete r ≡ none
        → offence (map requirement (fixed_all cs)) complete r ≡ none
    unfolding offence
    offence_keeps cs r h = elim (Bool-cases r.broken) [
      | inl b ↦ rw (b, offence) refl
      | inr b ↦
          rw (b, offence)
            (first_reason_fixed cs r r.requires (ground (arith, rw (b, offence) at h)))
    ]

    -- Behind the marking, no object has a requirement that cannot be met.
    offence-fixed :
        (cs : List Change) (c : Change)
        → objects ≡ map requirement cs
        → offence (map requirement (fixed_all cs)) complete (requirement (fixed c)) ≡ none
    unfolding fixed offence requirement offender broken_change
    offence-fixed cs c same = elim (Option-cases (offence objects complete (requirement c))) [
      | inr (why, e) ↦ rw (e, fixed) refl
      | inl e ↦
          rw (e, fixed)
            (offence_keeps cs (requirement c)
              (subst (λ os. offence os complete (requirement c) ≡ none) same e))
    ]

    unmet_from_fixed :
        (cs rest : List Change) (k : ℕ)
        → objects ≡ map requirement cs
        → unmet_from (map requirement (fixed_all cs)) complete k (map requirement (fixed_all rest))
          ≡ []
    unfolding unmet_from fixed_all
    unmet_from_fixed cs [] k same = refl
    unmet_from_fixed cs (c ∷ rest) k same =
        rw (offence-fixed cs c same, unmet_from) (unmet_from_fixed cs rest (suc k) same)

  -- The objects of a plan, each one that `unmet` finds put as broken in its place, are accepted
  -- by `unmet`: what requires an object that was marked is not an offender because of it.
  pub unmet-checked :
      (complete : Bool) (cs : List Change)
      → unmet (map requirement (checked tools complete cs)) complete ≡ []
  unfolding checked unmet
  unmet-checked complete cs =
      subst (λ l. unmet (map requirement l) complete ≡ [])
        (sym (mark-unmet_from (map requirement cs) complete 0 [] cs refl))
        (unmet_from_fixed (map requirement cs) complete cs cs 0 refl)
