-- ===== src/Var/Access/Apart.antt =====
-- A write under one key leaves the value of a key that goes another way.
use detc.Base.{
  ◌≡◌, refl, sym, ap, false, none, some, List, [], ◌∷◌, ◌++◌, Text, arith, Option, split, find, inl,
  inr, text_eq, text_eq_iff, ◌⊎◌, subst,
}
use detc.Value.{Value, null, Fields, object, end, lookup, or_empty}
use detc.Value.Laws.{lookup-insert}
use detc.Var.Subtree.{Action, at_subtree}
use detc.Var.Access.{
  get_at, get_value, is_index, split_last, put_member, set_components, set_checked, set_value,
}
use detc.Var.Access.RoundTrip.{split_last-append}

-- The two keys part before either of them ends.
abbrev pub Apart : List Text → List Text → Type 0
Apart (c ∷ cs) (d ∷ ds) = (text_eq c d ≡ false) ⊎ ((c ≡ d) × Apart cs ds)
Apart _ _ = ⊥

get_at_empty : (cs ds : List Text) → Apart cs ds → get_at ds (object end) ≡ none
unfolding get_at lookup
get_at_empty (c ∷ cs) (d ∷ ds) a = refl
get_at_empty [] _ a = absurd a
get_at_empty (c ∷ cs) [] a = absurd a

put_apart :
    (key name : Text) (v a : Value) (d : Text) (ds : List Text)
    → text_eq name d ≡ false
    → get_at (d ∷ ds) (put_member key name v a).1 ≡ get_at (d ∷ ds) a
unfolding put_member get_at
put_apart key name v (object m) d ds h = ground (arith, lookup-insert name d v m)
put_apart key name v null d ds h = refl
put_apart key name v _ d ds h = refl

-- What a key that goes on under the same member reads.
below :
    (act : Action) (ks cs ds : List Text) (k d : Text) (m : Fields)
    → k ≡ d
    → Apart cs ds
    → ((a : Value) → get_at ds (at_subtree act ks a).1 ≡ get_at ds a)
    → get_at (d ∷ ds) (at_subtree act (k ∷ ks) (object m)).1 ≡ get_at (d ∷ ds) (object m)
unfolding get_at at_subtree
below act ks cs ds k d m same h ih =
    let child = or_empty (lookup k m) in
    ground (
      arith,
      ih child,
      get_at_empty cs ds h,
      lookup-insert k d (at_subtree act ks child).1 m,
      text_eq_iff k d,
      ap (λ t. lookup t m) same,
    )

-- What a key that leaves at this member reads.
beside :
    (act : Action) (ks ds : List Text) (k d : Text) (m : Fields)
    → text_eq k d ≡ false
    → get_at (d ∷ ds) (at_subtree act (k ∷ ks) (object m)).1 ≡ get_at (d ∷ ds) (object m)
unfolding get_at at_subtree
beside act ks ds k d m h =
    ground (arith, lookup-insert k d (at_subtree act ks (or_empty (lookup k m))).1 m)

at_subtree-Apart :
    (key name : Text) (v : Value) (ks ds : List Text) (a : Value)
    → Apart (ks ++ name ∷ []) ds
    → get_at ds (at_subtree (put_member key name v) ks a).1 ≡ get_at ds a
unfolding at_subtree
at_subtree-Apart key name v [] [] a h = absurd h
at_subtree-Apart key name v [] (d ∷ ds) a (inl ne) = put_apart key name v a d ds ne
at_subtree-Apart key name v [] (d ∷ ds) a (inr (same, h)) = absurd h
at_subtree-Apart key name v (k ∷ ks) [] a h = absurd h
at_subtree-Apart key name v (k ∷ ks) (d ∷ ds) (object m) (inl ne) =
    beside (put_member key name v) ks ds k d m ne
at_subtree-Apart key name v (k ∷ ks) (d ∷ ds) (object m) (inr (same, h)) =
    below (put_member key name v) ks (ks ++ name ∷ []) ds k d m same h
      (λ a. at_subtree-Apart key name v ks ds a h)
at_subtree-Apart key name v (k ∷ ks) (d ∷ ds) null h = refl
at_subtree-Apart key name v (k ∷ ks) (d ∷ ds) _ h = refl

set_components-Apart :
    (key : Text) (cs ds : List Text) (v ns : Value) (o : Option (List Text × Text))
    → split_last cs ≡ o
    → Apart cs ds
    → get_at ds (set_components key o v ns).1 ≡ get_at ds ns
unfolding set_components
set_components-Apart key cs ds v ns none e h = refl
set_components-Apart key cs ds v ns (some (parents, name)) e h =
    at_subtree-Apart key name v parents ds ns
      (subst (λ t. Apart t ds) (sym (split_last-append cs parents name e)) h)

set_checked-Apart :
    (key : Text) (cs ds : List Text) (v ns : Value) (o : Option Text)
    → Apart cs ds
    → get_at ds (set_checked key cs o v ns).1 ≡ get_at ds ns
unfolding set_checked
set_checked-Apart key cs ds v ns none h = set_components-Apart key cs ds v ns (split_last cs) refl h
set_checked-Apart key cs ds v ns (some i) h = refl

-- A key that parts from the one that is set, before either of them ends, reads after the write what
-- it read before, an error included.
pub get_value-set_value-Apart :
    (key other : Text) (v ns : Value)
    → Apart (split b'.' key) (split b'.' other)
    → get_value other (set_value key v ns).1 ≡ get_value other ns
unfolding get_value set_value
get_value-set_value-Apart key other v ns h =
    let cs = split b'.' key in
    let ds = split b'.' other in
    ground (arith, set_checked-Apart key cs ds v ns (find is_index cs) h)
