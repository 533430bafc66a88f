-- ===== src/Hosts/Inventory/Total.antt =====
-- Following groups, and counting ranges out, comes to an end in `resolve` of src/hosts.rs.
use detc.Base.{
  ◌≡◌, ◌≢◌, refl, ap, ◌∙◌, ℕ, zero, suc, ◌+◌, ◌*◌, ◌≤◌, ◌<◌, false, ◌||◌, some, List, [], ◌∷◌, ◌++◌,
  Text, Result, ok, err, ◌>>=◌, length, is_empty, text_eq, text_eq_iff, if◌then◌else◌, arith, All,
  All-imp, Bool-cases, Option-cases, Result-cases, inl, inr, strip_prefix,
}
use detc.Base.Trim.{trim}
use detc.Hosts.Range.{ascends, names, range}
use detc.Hosts.Range.Brackets.{brackets, names-brackets}
use detc.Hosts.Inventory.{
  Groups, Error, out_of_rounds, find_group, listed, push_new, gather, Glob, host_or_pattern,
  resolve, most_brackets, widest, rounds_for, resolve_term, select, retain_others, select_all,
  expand, commas,
}

-- The groups that are not being followed.
unfoldable pub unfollowed : List Text → Groups → ℕ
unfollowed chain [] = 0
unfollowed chain ((name, members) ∷ rest) =
    (if listed name chain then 0 else 1) + unfollowed chain rest

unfollowed_all : (groups : Groups) → unfollowed [] groups ≡ length groups
unfolding unfollowed
unfollowed_all [] = refl
unfollowed_all ((n, ms) ∷ rest) = omega (arith, unfollowed_all rest)

listed-append :
    (t u : Text) (ts : List Text) → listed t (ts ++ (u ∷ [])) ≡ listed t ts || text_eq t u
listed-append t u [] = ground arith
listed-append t u (v ∷ ts) = ground (arith, listed-append t u ts)

unfollowed-le :
    (chain : List Text) (u : Text) (groups : Groups)
    → unfollowed (chain ++ (u ∷ [])) groups ≤ unfollowed chain groups
unfolding unfollowed
unfollowed-le chain u [] = omega arith
unfollowed-le chain u ((n, ms) ∷ rest) =
    ground (arith, listed-append n u chain, unfollowed-le chain u rest)

-- Following a group that is not being followed leaves fewer.
unfollowed-lt :
    (chain : List Text) (u : Text) (groups : Groups) (members : List Text)
    → find_group u groups ≡ some members
    → listed u chain ≡ false
    → unfollowed (chain ++ (u ∷ [])) groups < unfollowed chain groups
unfolding unfollowed find_group
unfollowed-lt chain u [] members f l = absurd (ground (arith, f))
unfollowed-lt chain u ((n, ms) ∷ rest) members f l = elim (Bool-cases (text_eq n u)) [
  | inl e ↦
      let same : n ≡ u = (text_eq_iff n u).0 e in
      ground (
        arith,
        listed-append n u chain,
        e,
        unfollowed-le chain u rest,
        ap (λ t. listed t chain) same ∙ l,
      )
  | inr e ↦
      let below = unfollowed-lt chain u rest members (rw e at f) l in
      ground (arith, listed-append n u chain, e, below)
]

members-brackets : (ms : List Text) → All (λ m. brackets m ≤ most_brackets ms) ms
unfolding most_brackets
members-brackets [] = tt
members-brackets (m ∷ ms) =
    (ground arith, All-imp _ _ ms (λ t h. ground (arith, h)) (members-brackets ms))

group-brackets :
    (u : Text) (groups : Groups) (members : List Text)
    → find_group u groups ≡ some members
    → most_brackets members ≤ widest groups
unfolding find_group widest
group-brackets u [] members f = absurd (ground (arith, f))
group-brackets u ((n, ms) ∷ rest) members f = elim (Bool-cases (text_eq n u)) [
  | inl e ↦ let same : ms ≡ members = ground (arith, rw e at f) in rw (← same) (ground arith)
  | inr e ↦ ground (arith, group-brackets u rest members (rw e at f))
]

gather_total :
    (find : Text → Result Error (List Text)) (ms hosts : List Text)
    → All (λ m. find m ≢ err out_of_rounds) ms
    → gather find ms hosts ≢ err out_of_rounds
unfolding gather
gather_total find [] hosts h e = absurd (ground (arith, e))
gather_total find (m ∷ ms) hosts h e = elim (Result-cases (find m)) [
  | inl (found, q) ↦ gather_total find ms (push_new hosts found) h.1 (rw q at e)
  | inr (x, q) ↦ h.0 (q ∙ rw q at e)
]

mul_step : (a b k : ℕ) → a < b → a * k + k ≤ b * k
mul_step a b k h = grind arith

host_or_pattern_total :
    (glob : Glob) (groups : Groups) (term : Text)
    → host_or_pattern glob groups term ≢ err out_of_rounds
unfolding host_or_pattern
host_or_pattern_total glob groups term e = ground (arith, e)

module _ (glob : Glob) (groups : Groups) where
  abbrev weight : List Text → Text → ℕ
  weight chain term = unfollowed chain groups * suc (widest groups) + brackets term

  -- Resolving a term with rounds for every group that is not yet followed, and for the brackets
  -- of the widest term, does not run out of rounds.
  pub resolve_total :
      (rounds : ℕ) (chain : List Text) (term : Text)
      → unfollowed chain groups * suc (widest groups) + brackets term < rounds
      → resolve glob groups rounds chain term ≢ err out_of_rounds
  unfolding resolve
  resolve_total zero chain term h e = absurd (omega arith)
  resolve_total (suc rounds) chain term h e = elim (Option-cases (find_group term groups)) [
    | inr (members, f) ↦ elim (Bool-cases (listed term chain)) [
      | inl l ↦ absurd (ground (arith, rw (f, l, resolve) at e))
      | inr l ↦
          gather_total (resolve glob groups rounds (chain ++ (term ∷ []))) members []
            (All-imp (λ m. brackets m ≤ most_brackets members) _ members
              (λ m b. resolve_total rounds (chain ++ (term ∷ [])) m (
                omega (
                  arith,
                  b,
                  group-brackets term groups members f,
                  mul_step _ _ (suc (widest groups)) (unfollowed-lt chain term groups members f l),
                )))
              (members-brackets members))
            (rw (f, l, resolve) at e)
    ]
    | inl f ↦ elim (Option-cases (range term)) [
      | inl r ↦ host_or_pattern_total glob groups term (rw (f, r, resolve) at e)
      | inr (r, q) ↦ elim (Bool-cases (ascends r.count)) [
        | inl a ↦
            gather_total (resolve glob groups rounds chain) (names r) []
              (All-imp (λ t. brackets t < brackets term) _ (names r)
                (λ t b. resolve_total rounds chain t (omega (arith, b))) (names-brackets term r q))
              (rw (f, q, a, resolve) at e)
        | inr a ↦ absurd (ground (arith, rw (f, q, a, resolve) at e))
      ]
    ]
  ]

  resolve_term_total : (term : Text) → resolve_term glob groups term ≢ err out_of_rounds
  unfolding resolve_term rounds_for
  resolve_term_total term =
      resolve_total (rounds_for groups term) [] term
        (omega (arith, ap (λ n. n * suc (widest groups)) (unfollowed_all groups)))

  bound_total :
      (term : Text) (next : List Text → Result Error (List Text))
      → ((found : List Text) → next found ≢ err out_of_rounds)
      → (resolve_term glob groups term >>= next) ≢ err out_of_rounds
  bound_total term next h e = elim (Result-cases (resolve_term glob groups term)) [
    | inl (found, q) ↦ h found (rw q at e)
    | inr (x, q) ↦ resolve_term_total term (q ∙ rw q at e)
  ]

  select_total :
      (selected : List Text) (term : Text) → select glob groups selected term ≢ err out_of_rounds
  unfolding select
  select_total selected term e = elim (Bool-cases (is_empty term)) [
    | inl b ↦ absurd (ground (arith, rw b at e))
    | inr b ↦ elim (Option-cases (strip_prefix (b'!' ∷ []) term)) [
      | inl o ↦
          bound_total term (λ found. ok (push_new selected found))
            (λ found q. absurd (ground (arith, q))) (rw (b, o, select) at e)
      | inr (x, o) ↦ elim (Bool-cases (is_empty x)) [
        | inl c ↦ absurd (ground (arith, rw (b, o, c, select) at e))
        | inr c ↦
            bound_total x (λ taken. ok (retain_others taken selected))
              (λ taken q. absurd (ground (arith, q))) (rw (b, o, c, select) at e)
      ]
    ]
  ]

  select_all_total :
      (ts selected : List Text) → select_all glob groups selected ts ≢ err out_of_rounds
  unfolding select_all
  select_all_total [] selected e = absurd (ground (arith, e))
  select_all_total (t ∷ ts) selected e =
      elim (Result-cases (select glob groups selected (trim t))) [
        | inl (next, q) ↦ select_all_total ts next (rw q at e)
        | inr (x, q) ↦ select_total selected (trim t) (q ∙ rw q at e)
      ]

  -- No selection runs out of the rounds that it is given, whatever the groups and the terms are.
  pub expand_total : (terms : List Text) → expand glob groups terms ≢ err out_of_rounds
  unfolding expand
  expand_total terms = select_all_total (commas terms) []
