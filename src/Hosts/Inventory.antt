-- ===== src/Hosts/Inventory.antt =====
-- The groups of hosts and what a term names, `Inventory` of src/hosts.rs.
pub mod Total
pub mod Selected
use detc.Base.{
  ℕ, zero, suc, ◌+◌, ◌-◌, ◌*◌, Bool, true, false, not, ◌&&◌, ◌||◌, Option, none, some, List, [],
  ◌∷◌, ◌++◌, map, Text, Result, ok, err, ◌>>=◌, length, any, filter, is_empty, contains, text_eq,
  text_lt, split, strip_prefix, ltb, leb, ◌==◌, if◌then◌else◌,
}
use detc.Base.Trim.{trim}
use detc.Hosts.Range.{Count, Range, ascends, names, range}
use detc.Hosts.Range.Brackets.{brackets}

-- A `BTreeMap` of the members of each group, by name.
abbrev pub Groups : Type 0
Groups = List (Text × List Text)

pub data Error : Type 0 where
  circle : List Text → Error
  counts_backwards : Text → Error
  takes_nothing : Error
  not_a_pattern no_inventory matches_no_host : Text → Error
  -- no error of the source: the rounds that the recursion was given are used up
  out_of_rounds : Error

unfoldable pub find_group : Text → Groups → Option (List Text)
find_group term [] = none
find_group term ((name, members) ∷ rest) =
    if text_eq name term then some members else find_group term rest

-- `contains(WILDCARDS)`
unfoldable pub has_wildcard : Text → Bool
has_wildcard t = contains b'*' t || contains b'?' t || contains b'[' t

abbrev pub listed : Text → List Text → Bool
listed t ts = any (text_eq t) ts

-- `BTreeSet::insert`
unfoldable pub add_host : Text → List Text → List Text
add_host t [] = t ∷ []
add_host t (u ∷ us) =
    if text_eq u t then u ∷ us else if text_lt t u then t ∷ u ∷ us else u ∷ add_host t us

unfoldable pub add_hosts : List Text → List Text → List Text
unfolding add_host
add_hosts [] hosts = hosts
add_hosts (t ∷ ts) hosts = add_hosts ts (add_host t hosts)

-- The hosts that one member of a group adds.
add_member : Groups → Text → List Text → List Text
unfolding find_group add_hosts has_wildcard range names
add_member groups member hosts = elim (find_group member groups) [
  | some members ↦ hosts
  | none ↦ elim (range member) [
    | some r ↦ add_hosts (names r) hosts
    | none ↦ if has_wildcard member then hosts else add_host member hosts
  ]
]

add_members : Groups → List Text → List Text → List Text
unfolding add_member
add_members groups [] hosts = hosts
add_members groups (m ∷ ms) hosts = add_members groups ms (add_member groups m hosts)

hosts_of : Groups → Groups → List Text → List Text
unfolding add_members
hosts_of all [] hosts = hosts
hosts_of all ((name, members) ∷ rest) hosts = hosts_of all rest (add_members all members hosts)

-- `Inventory::hosts`
unfoldable pub hosts : Groups → List Text
unfolding hosts_of
hosts groups = hosts_of groups groups []

-- `if !hosts.contains(&host) { hosts.push(host) }`
unfoldable pub push_new : List Text → List Text → List Text
push_new hosts [] = hosts
push_new hosts (t ∷ ts) = push_new (if listed t hosts then hosts else hosts ++ (t ∷ [])) ts

-- The loop over the members of a group or the names of a range.
unfoldable pub gather :
    (Text → Result Error (List Text)) → List Text → List Text → Result Error (List Text)
unfolding push_new
gather find [] hosts = ok hosts
gather find (m ∷ ms) hosts = find m >>= λ found. gather find ms (push_new hosts found)

-- `Pattern::new` and `Pattern::matches` of the crate glob: none where the text is no pattern.
abbrev pub Glob : Type 0
Glob = Text → Option (Text → Bool)

-- The most opening brackets of a member of any group.
unfoldable pub most_brackets : List Text → ℕ
most_brackets [] = 0
most_brackets (m ∷ ms) =
    let rest = most_brackets ms in if ltb rest (brackets m) then brackets m else rest

unfoldable pub widest : Groups → ℕ
unfolding most_brackets
widest [] = 0
widest ((name, members) ∷ rest) =
    let later = widest rest in
    if ltb later (most_brackets members) then most_brackets members else later

-- Enough rounds: a group can be entered once, and a range takes a bracket away.
unfoldable pub rounds_for : Groups → Text → ℕ
unfolding widest brackets
rounds_for groups term = suc (length groups * suc (widest groups) + brackets term)

-- `retain(|host| !taken.contains(host))`
unfoldable pub retain_others : List Text → List Text → List Text
retain_others taken [] = []
retain_others taken (h ∷ hs) =
    let rest = retain_others taken hs in if listed h taken then rest else h ∷ rest

-- `terms.iter().flat_map(|term| term.split(','))`
unfoldable pub commas : List Text → List Text
unfolding split
commas [] = []
commas (t ∷ ts) = split b',' t ++ commas ts

module _ (glob : Glob) (groups : Groups) where
  -- The match on what a pattern found.
  abbrev matched : Text → List Text → Result Error (List Text)
  matched term [] = if is_empty groups then err (no_inventory term) else err (matches_no_host term)
  matched term (h ∷ hs) = ok (h ∷ hs)

  -- The end of `resolve`: a host, or what a pattern matches.
  unfoldable pub host_or_pattern : Text → Result Error (List Text)
  unfolding has_wildcard hosts
  host_or_pattern term =
      if has_wildcard term
      then elim (glob term) [
        | none ↦ err (not_a_pattern term)
        | some matches ↦ matched term (filter matches (hosts groups))
      ]
      else ok (term ∷ [])

  -- `chain` is the groups that are being followed to get here.
  unfoldable pub resolve : ℕ → List Text → Text → Result Error (List Text)
  unfolding find_group gather range ascends names host_or_pattern
  resolve zero chain term = err out_of_rounds
  resolve (suc rounds) chain term = elim (find_group term groups) [
    | some members ↦
        if listed term chain
        then err (circle (chain ++ (term ∷ [])))
        else gather (resolve rounds (chain ++ (term ∷ []))) members []
    | none ↦ elim (range term) [
      | some r ↦
          if ascends r.count
          then gather (resolve rounds chain) (names r) []
          else err (counts_backwards term)
      | none ↦ host_or_pattern term
    ]
  ]

  -- `resolve` as `expand` calls it.
  unfoldable pub resolve_term : Text → Result Error (List Text)
  unfolding resolve rounds_for
  resolve_term term = resolve (rounds_for groups term) [] term

  -- One round of the loop of `expand`, on a trimmed term.
  unfoldable pub select : List Text → Text → Result Error (List Text)
  unfolding resolve_term push_new retain_others
  select selected term =
      if is_empty term then ok selected else elim (strip_prefix (b'!' ∷ []) term) [
        | none ↦ resolve_term term >>= λ found. ok (push_new selected found)
        | some excluded ↦
            if is_empty excluded
            then err takes_nothing
            else resolve_term excluded >>= λ taken. ok (retain_others taken selected)
      ]

  unfoldable pub select_all : List Text → List Text → Result Error (List Text)
  unfolding select trim
  select_all selected [] = ok selected
  select_all selected (t ∷ ts) = select selected (trim t) >>= λ next. select_all next ts

  unfoldable pub expand : List Text → Result Error (List Text)
  unfolding select_all commas
  expand terms = select_all [] (commas terms)
