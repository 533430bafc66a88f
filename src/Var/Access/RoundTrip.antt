-- ===== src/Var/Access/RoundTrip.antt =====
-- A value that was set is read back under its key.
use detc.Base.{
  ◌≡◌, subst, refl, false, none, some, List, [], ◌∷◌, ◌++◌, ok, Text, arith, Option, split, find,
  All,
}
use detc.Value.{Value, null, array, object, lookup, member, or_empty}
use detc.Value.Laws.{lookup-insert_self}
use detc.Var.Subtree.{Action, at_subtree}
use detc.Var.Access.{
  component, get_at, get_value, is_index, prepend, split_last, put_member, set_components,
  set_checked, set_value,
}

-- No component is an index of a list.
abbrev pub Named : List Text → Type 0
Named = All (λ c. is_index c ≡ false)

-- A component that is no index names a member, whatever it is looked up in.
pub component_named : (c : Text) (v : Value) → is_index c ≡ false → component c v ≡ member c v
unfolding component member
component_named c (array xs) h = ground arith
component_named c null h = refl
component_named c _ h = refl

pub get_at-at_subtree :
    (act : Action) (name : Text) (v : Value)
    → ((a : Value) → (act a).0 ≡ ok tt → get_at (name ∷ []) (act a).1 ≡ some v)
    → (ks : List Text) (a : Value) → (at_subtree act ks a).0 ≡ ok tt
    → get_at (ks ++ name ∷ []) (at_subtree act ks a).1 ≡ some v
unfolding at_subtree get_at
get_at-at_subtree act name v put [] a h = put a h
get_at-at_subtree act name v put (k ∷ ks) (object m) h =
    let ih = get_at-at_subtree act name v put ks (or_empty (lookup k m)) h in
    ground (arith, ih, lookup-insert_self k (at_subtree act ks (or_empty (lookup k m))).1 m)
get_at-at_subtree act name v put (k ∷ ks) null h = cc
get_at-at_subtree act name v put (k ∷ ks) _ h = cc

put_member_ok :
    (key name : Text) (v a : Value)
    → (put_member key name v a).0 ≡ ok tt
    → get_at (name ∷ []) (put_member key name v a).1 ≡ some v
unfolding put_member get_at
put_member_ok key name v (object m) h = ground (arith, lookup-insert_self name v m)
put_member_ok key name v null h = cc
put_member_ok key name v _ h = cc

snoc_step :
    (c : Text) (o : Option (List Text × Text)) (cs parents : List Text) (name : Text)
    → ((ps : List Text) (n : Text) → o ≡ some (ps, n) → ps ++ n ∷ [] ≡ cs)
    → prepend c o ≡ some (parents, name)
    → parents ++ name ∷ [] ≡ c ∷ cs
snoc_step c none cs parents name ih h = cc
snoc_step c (some (ps, n)) cs parents name ih h = ground (arith, ih ps n refl)

pub split_last-append :
    (cs parents : List Text) (name : Text)
    → split_last cs ≡ some (parents, name)
    → parents ++ name ∷ [] ≡ cs
unfolding split_last
split_last-append [] parents name h = cc
split_last-append (c ∷ []) parents name h = ground arith
split_last-append (c ∷ d ∷ cs) parents name h =
    snoc_step c (split_last (d ∷ cs)) (d ∷ cs) parents name (split_last-append (d ∷ cs)) h

set_components_ok :
    (key : Text) (cs : List Text) (v ns : Value) (o : Option (List Text × Text))
    → split_last cs ≡ o
    → (set_components key o v ns).0 ≡ ok tt
    → get_at cs (set_components key o v ns).1 ≡ some v
unfolding set_components
set_components_ok key cs v ns none e h = cc
set_components_ok key cs v ns (some (parents, name)) e h =
    subst (λ t. get_at t (at_subtree (put_member key name v) parents ns).1 ≡ some v)
      (split_last-append cs parents name e)
      (get_at-at_subtree (put_member key name v) name v (put_member_ok key name v) parents ns h)

set_checked_ok :
    (key : Text) (cs : List Text) (o : Option Text) (v ns : Value)
    → (set_checked key cs o v ns).0 ≡ ok tt
    → get_at cs (set_checked key cs o v ns).1 ≡ some v
unfolding set_checked
set_checked_ok key cs none v ns h = set_components_ok key cs v ns (split_last cs) refl h
set_checked_ok key cs (some i) v ns h = cc

-- A value that was set is the one that its key reads.
pub get_value-set_value :
    (key : Text) (v ns : Value)
    → (set_value key v ns).0 ≡ ok tt
    → get_value key (set_value key v ns).1 ≡ ok v
unfolding get_value set_value
get_value-set_value key v ns h =
    let cs = split b'.' key in ground (arith, set_checked_ok key cs (find is_index cs) v ns)
