-- ===== src/Hosts/Inventory/Selected.antt =====
-- Which hosts `expand` of src/hosts.rs selects.
use detc.Base.{
  ◌≡◌, refl, sym, ap, subst, ◌∙◌, ℕ, suc, Bool, true, false, not, ◌&&◌, ◌||◌, none, some, List, [],
  ◌∷◌, ◌++◌, Text, Result, ok, err, ◌>>=◌, is_empty, text_eq, text_eq_iff, arith, Bool-cases,
  Option-cases, Result-cases, inl, inr, strip_prefix,
}
use detc.Base.Trim.{trim}
use detc.Hosts.Inventory.{
  Groups, Error, find_group, listed, push_new, gather, Glob, resolve, resolve_term, retain_others,
  select, select_all, expand, commas,
}

-- No host stands in the list twice.
pub IsDistinct : List Text → Type 0
IsDistinct [] = Unit {0}
IsDistinct (t ∷ ts) = (listed t ts ≡ false) × IsDistinct ts

listed_push : (t u : Text) (ts : List Text) → listed t (ts ++ (u ∷ [])) ≡ listed t ts || text_eq t u
listed_push t u [] = ground arith
listed_push t u (v ∷ ts) = ground (arith, listed_push t u ts)

IsDistinct-push :
    (u : Text) (ts : List Text) → listed u ts ≡ false → IsDistinct ts → IsDistinct (ts ++ (u ∷ []))
unfolding IsDistinct
IsDistinct-push u [] l d = (refl, tt)
IsDistinct-push u (t ∷ ts) l d = (
  ground (arith, listed_push t u ts, text_eq_iff t u, text_eq_iff u t, d.0, l),
  IsDistinct-push u ts (ground (arith, l)) d.1,
)

known :
    (h t : Text) (hosts ts : List Text)
    → listed t hosts ≡ true
    → listed h hosts || listed h ts ≡ listed h hosts || (text_eq h t || listed h ts)
known h t hosts ts l = elim (Bool-cases (text_eq h t)) [
  | inl e ↦ ground (arith, e, l, ap (λ x. listed x hosts) ((text_eq_iff h t).0 e))
  | inr e ↦ ground (arith, e)
]

-- Pushing hosts keeps the ones there were and adds the others.
listed-push_new :
    (h : Text) (hosts ts : List Text) → listed h (push_new hosts ts) ≡ listed h hosts || listed h ts
unfolding push_new
listed-push_new h hosts [] = ground arith
listed-push_new h hosts (t ∷ ts) = elim (Bool-cases (listed t hosts)) [
  | inl l ↦ rw l (listed-push_new h hosts ts ∙ known h t hosts ts l)
  | inr l ↦ rw l (ground (arith, listed-push_new h (hosts ++ (t ∷ [])) ts, listed_push h t hosts))
]

push_new-IsDistinct : (hosts ts : List Text) → IsDistinct hosts → IsDistinct (push_new hosts ts)
unfolding push_new
push_new-IsDistinct hosts [] d = d
push_new-IsDistinct hosts (t ∷ ts) d = elim (Bool-cases (listed t hosts)) [
  | inl l ↦ rw l (push_new-IsDistinct hosts ts d)
  | inr l ↦ rw l (push_new-IsDistinct (hosts ++ (t ∷ [])) ts (IsDistinct-push t hosts l d))
]

listed-retain_others :
    (h : Text) (taken hosts : List Text)
    → listed h (retain_others taken hosts) ≡ listed h hosts && not (listed h taken)
unfolding retain_others
listed-retain_others h taken [] = refl
listed-retain_others h taken (t ∷ ts) = elim (Bool-cases (text_eq h t)) [
  | inl e ↦
      let same : h ≡ t = (text_eq_iff h t).0 e in
      ground (arith, listed-retain_others h taken ts, e, ap (λ x. listed x taken) same)
  | inr e ↦ ground (arith, listed-retain_others h taken ts, e)
]

retain_others-IsDistinct :
    (taken hosts : List Text) → IsDistinct hosts → IsDistinct (retain_others taken hosts)
unfolding retain_others IsDistinct
retain_others-IsDistinct taken [] d = tt
retain_others-IsDistinct taken (t ∷ ts) d = elim (Bool-cases (listed t taken)) [
  | inl l ↦ rw l (retain_others-IsDistinct taken ts d.1)
  | inr l ↦
      rw l (
        ground (arith, listed-retain_others t taken ts, d.0),
        retain_others-IsDistinct taken ts d.1,
      )
]

bound :
    {A B : Type 0} {r : Result Error A} (next : A → Result Error B) (b : B)
    → (r >>= next) ≡ ok b
    → (a : A) × (r ≡ ok a) × (next a ≡ ok b)
bound {r} next b e = elim (Result-cases r) [
  | inl (a, q) ↦ (a, q, rw q at e)
  | inr (x, q) ↦ absurd (ground (arith, rw q at e))
]

-- Whether one of the terms names the host.
unfoldable pub names_host : (Text → Result Error (List Text)) → Text → List Text → Bool
names_host find h [] = false
names_host find h (m ∷ ms) =
    elim (find m) [ ok found ↦ listed h found | err e ↦ false ] || names_host find h ms

listed-gather :
    (find : Text → Result Error (List Text)) (h : Text) (ms hosts out : List Text)
    → gather find ms hosts ≡ ok out
    → listed h out ≡ listed h hosts || names_host find h ms
unfolding gather names_host
listed-gather find h [] hosts out e = ap (listed h) {y = hosts} (ground (arith, e)) ∙ ground arith
listed-gather find h (m ∷ ms) hosts out e = elim (Result-cases (find m)) [
  | inl (found, q) ↦ rw q (
      listed-gather find h ms (push_new hosts found) out (rw q at e)
      ∙ ground (arith, listed-push_new h hosts found))
  | inr (x, q) ↦ absurd (ground (arith, rw q at e))
]

module _ (glob : Glob) (groups : Groups) where
  select-IsDistinct :
      (selected next : List Text) (term : Text)
      → IsDistinct selected
      → select glob groups selected term ≡ ok next
      → IsDistinct next
  unfolding select
  select-IsDistinct selected next term d e = elim (Bool-cases (is_empty term)) [
    | inl b ↦ subst IsDistinct (ground (arith, rw b at e)) d
    | inr b ↦ elim (Option-cases (strip_prefix (b'!' ∷ []) term)) [
      | inl o ↦
          let (found, r, s) =
            bound {r = resolve_term glob groups term} (λ found. ok (push_new selected found)) next
              (rw (b, o, select) at e) in
          subst IsDistinct {x = push_new selected found} (ground (arith, s))
            (push_new-IsDistinct selected found d)
      | inr (x, o) ↦ elim (Bool-cases (is_empty x)) [
        | inl c ↦ absurd (ground (arith, rw (b, o, c, select) at e))
        | inr c ↦
            let (taken, r, s) =
              bound {r = resolve_term glob groups x} (λ taken. ok (retain_others taken selected))
                next (rw (b, o, c, select) at e) in
            subst IsDistinct {x = retain_others taken selected} (ground (arith, s))
              (retain_others-IsDistinct taken selected d)
      ]
    ]
  ]

  select_all-IsDistinct :
      (ts selected hosts : List Text)
      → IsDistinct selected
      → select_all glob groups selected ts ≡ ok hosts
      → IsDistinct hosts
  unfolding select_all
  select_all-IsDistinct [] selected hosts d e = subst IsDistinct (ground (arith, e)) d
  select_all-IsDistinct (t ∷ ts) selected hosts d e =
      elim (Result-cases (select glob groups selected (trim t))) [
        | inl (next, q) ↦
            select_all-IsDistinct ts next hosts (select-IsDistinct selected next (trim t) d q)
              (rw q at e)
        | inr (x, q) ↦ absurd (ground (arith, rw q at e))
      ]

  -- A selection has no host twice.
  pub expand-IsDistinct :
      (terms hosts : List Text) → expand glob groups terms ≡ ok hosts → IsDistinct hosts
  unfolding expand
  expand-IsDistinct terms hosts e =
      select_all-IsDistinct (commas terms) [] hosts (unfold IsDistinct in tt) e

  -- After an exclusion that is accepted, a host is selected exactly where it was selected before
  -- and the excluded term does not name it.
  pub select_excluded :
      (selected next taken : List Text) (x h : Text)
      → is_empty x ≡ false
      → resolve_term glob groups x ≡ ok taken
      → select glob groups selected (b'!' ∷ x) ≡ ok next
      → listed h next ≡ listed h selected && not (listed h taken)
  unfolding select
  select_excluded selected next taken x h n r e =
      let same : retain_others taken selected ≡ next = ground (arith, rw (n, r, select) at e) in
      ap (listed h) (sym same) ∙ listed-retain_others h taken selected

  -- After a term that is accepted, a host is selected exactly where it was before or the term
  -- names it.
  pub select_included :
      (selected next found : List Text) (term h : Text)
      → is_empty term ≡ false
      → strip_prefix (b'!' ∷ []) term ≡ none
      → resolve_term glob groups term ≡ ok found
      → select glob groups selected term ≡ ok next
      → listed h next ≡ listed h selected || listed h found
  unfolding select
  select_included selected next found term h n p r e =
      let same : push_new selected found ≡ next = ground (arith, rw (n, p, r, select) at e) in
      ap (listed h) (sym same) ∙ listed-push_new h selected found

  -- Where the term is a group, resolved inside groups that are other ones, a host is among what
  -- it names exactly where one of its members, resolved inside it, names the host.
  pub resolve_group :
      (rounds : ℕ) (chain members out : List Text) (term h : Text)
      → find_group term groups ≡ some members
      → resolve glob groups (suc rounds) chain term ≡ ok out
      → listed h out ≡ names_host (resolve glob groups rounds (chain ++ (term ∷ []))) h members
  unfolding resolve
  resolve_group rounds chain members out term h f e = elim (Bool-cases (listed term chain)) [
    | inl l ↦ absurd (ground (arith, rw (f, l, resolve) at e))
    | inr l ↦ listed-gather _ h members [] out (rw (f, l, resolve) at e)
  ]
