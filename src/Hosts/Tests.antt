-- ===== src/Hosts/Tests.antt =====
-- An inventory, and the theorems about src/hosts.rs at concrete inputs.
use detc.Base.{
  ◌≡◌, ◌≢◌, refl, suc, ◌+◌, ◌*◌, ◌<◌, Bool, false, some, List, [], ◌∷◌, ok, err, Text, codes,
  text_eq, text_lt, arith,
}
use detc.Hosts.Range.{numbers, names, range}
use detc.Hosts.Range.Brackets.{brackets}
use detc.Hosts.Inventory.{
  find_group, Groups, circle, counts_backwards, out_of_rounds, Glob, listed, resolve, resolve_term,
  select, expand, widest,
}
use detc.Hosts.Inventory.Total.{unfollowed, expand_total}
use detc.Hosts.Inventory.Selected.{names_host, resolve_group}

range-lab :
    names (record { before = codes "lab"; after = []; count = numbers 9 11 2 })
    ≡ codes "lab09" ∷ codes "lab10" ∷ codes "lab11" ∷ []
unfolding names
range-lab = refl

range-found :
    range (codes "w[abc][1:3]x")
    ≡ some (record { before = codes "w[abc]"; after = codes "x"; count = numbers 1 3 1 })
unfolding range
range-found = refl

-- Only what starts with `web` is matched.
abbrev starts : Text → Bool
starts (a ∷ b ∷ c ∷ rest) = text_eq (a ∷ b ∷ c ∷ []) (codes "web")
starts _ = false

abbrev webs : Glob
webs term = some starts

abbrev fleet : Groups
fleet =
    (codes "all", codes "dmz" ∷ codes "lab[1:2]" ∷ [])
    ∷ (codes "dmz", codes "web1" ∷ codes "web2" ∷ [])
    ∷ []

abbrev asked : List Text
asked = codes "all,web3" ∷ codes "!web*" ∷ codes " web2" ∷ []

expand-fleet :
    expand webs fleet asked ≡ ok (codes "lab1" ∷ codes "lab2" ∷ codes "web3" ∷ codes "web2" ∷ [])
unfolding expand text_eq text_lt
expand-fleet = refl

abbrev around : Groups
around = (codes "a", codes "b" ∷ []) ∷ (codes "b", codes "a" ∷ []) ∷ []

expand-circle :
    expand webs around (codes "a" ∷ []) ≡ err (circle (codes "a" ∷ codes "b" ∷ codes "a" ∷ []))
unfolding expand text_eq
expand-circle = refl

expand-backwards : expand webs fleet (codes "r[3:1]" ∷ []) ≡ err (counts_backwards (codes "r[3:1]"))
unfolding expand text_eq
expand-backwards = refl

expand_total_example : expand webs fleet asked ≢ err out_of_rounds
expand_total_example = expand_total webs fleet asked

rounds-enough : unfollowed [] fleet * suc (widest fleet) + brackets (codes "all") < 9
unfolding unfollowed widest brackets
rounds-enough = omega arith

resolve-dmz : resolve_term webs fleet (codes "dmz") ≡ ok (codes "web1" ∷ codes "web2" ∷ [])
unfolding resolve_term text_eq
resolve-dmz = refl

abbrev some_hosts : List Text
some_hosts = codes "web2" ∷ codes "lab1" ∷ []

select-without : select webs fleet some_hosts (codes "!dmz") ≡ ok (codes "lab1" ∷ [])
unfolding select text_eq
select-without = refl

select-with :
    select webs fleet some_hosts (codes "dmz")
    ≡ ok (codes "web2" ∷ codes "lab1" ∷ codes "web1" ∷ [])
unfolding select text_eq
select-with = refl

resolve-all :
    resolve webs fleet 5 [] (codes "all")
    ≡ ok (codes "web1" ∷ codes "web2" ∷ codes "lab1" ∷ codes "lab2" ∷ [])
unfolding resolve text_eq
resolve-all = refl

find-all : find_group (codes "all") fleet ≡ some (codes "dmz" ∷ codes "lab[1:2]" ∷ [])
unfolding find_group text_eq
find-all = refl

resolve_group_example :
    listed (codes "web2") (codes "web1" ∷ codes "web2" ∷ codes "lab1" ∷ codes "lab2" ∷ [])
    ≡ names_host
        (resolve webs fleet 4 (codes "all" ∷ []))
        (codes "web2")
        (codes "dmz" ∷ codes "lab[1:2]" ∷ [])
resolve_group_example =
    resolve_group webs fleet 4 [] (codes "dmz" ∷ codes "lab[1:2]" ∷ [])
      (codes "web1" ∷ codes "web2" ∷ codes "lab1" ∷ codes "lab2" ∷ []) (codes "all") (codes "web2")
      find-all resolve-all

lab-found :
    range (codes "lab[1:2]")
    ≡ some (record { before = codes "lab"; after = []; count = numbers 1 2 1 })
unfolding range
lab-found = refl
