-- ===== src/Var/Access/Failure.antt =====
-- When a value cannot be set, and that the namespace is then as it was.
use detc.Base.{
  ◌≡◌, refl, none, some, List, ok, err, Text, arith, Option, split, any, find, is_empty, Bool-cases,
  inl, inr,
}
use detc.Value.{Value, null, Fields, object}
use detc.Value.Order.{IsSorted, insert-IsSorted}
use detc.Var.Strategy.{Error}
use detc.Var.Subtree.Frame.{at_subtree_failed, at_subtree-IsSorted}
use detc.Var.Access.{is_index, split_last, put_member, set_components, set_checked, set_value}

put_member_failed :
    (key name : Text) (v a : Value) (e : Error)
    → (put_member key name v a).0 ≡ err e
    → (put_member key name v a).1 ≡ a
unfolding put_member
put_member_failed key name v null e h = refl
put_member_failed key name v (object m) e h = cc
put_member_failed key name v _ e h = refl

put_member-IsSorted :
    (key name : Text) (v a : Value) → IsSorted v → IsSorted a → IsSorted (put_member key name v a).1
unfolding put_member
put_member-IsSorted key name v null hv ha = ha
put_member-IsSorted key name v (object m) hv ha = insert-IsSorted name v m hv ha
put_member-IsSorted key name v _ hv ha = ha

put_member_object :
    (key name : Text) (v : Value) (m : Fields) → (put_member key name v (object m)).0 ≡ ok tt
unfolding put_member
put_member_object key name v m = refl

set_components_failed :
    (key : Text) (o : Option (List Text × Text)) (v ns : Value) (e : Error)
    → IsSorted ns
    → (set_components key o v ns).0 ≡ err e
    → (set_components key o v ns).1 ≡ ns
unfolding set_components
set_components_failed key none v ns e s h = refl
set_components_failed key (some (parents, name)) v ns e s h =
    at_subtree_failed (put_member key name v) (put_member_object key name v)
      (put_member_failed key name v) parents ns e s h

set_checked_failed :
    (key : Text) (cs : List Text) (o : Option Text) (v ns : Value) (e : Error)
    → IsSorted ns
    → (set_checked key cs o v ns).0 ≡ err e
    → (set_checked key cs o v ns).1 ≡ ns
unfolding set_checked
set_checked_failed key cs none v ns e s h = set_components_failed key (split_last cs) v ns e s h
set_checked_failed key cs (some i) v ns e s h = refl

-- A write that is refused, for whatever reason, leaves the namespace as it was.
pub set_value_failed :
    (key : Text) (v ns : Value) (e : Error)
    → IsSorted ns
    → (set_value key v ns).0 ≡ err e
    → (set_value key v ns).1 ≡ ns
unfolding set_value
set_value_failed key v ns e s h =
    let cs = split b'.' key in ground (arith, set_checked_failed key cs (find is_index cs) v ns e s)

set_components-IsSorted :
    (key : Text) (o : Option (List Text × Text)) (v ns : Value)
    → IsSorted v
    → IsSorted ns
    → IsSorted (set_components key o v ns).1
unfolding set_components
set_components-IsSorted key none v ns hv s = s
set_components-IsSorted key (some (parents, name)) v ns hv s =
    at_subtree-IsSorted (put_member key name v) (λ a. put_member-IsSorted key name v a hv) parents
      ns s

set_checked-IsSorted :
    (key : Text) (cs : List Text) (o : Option Text) (v ns : Value)
    → IsSorted v
    → IsSorted ns
    → IsSorted (set_checked key cs o v ns).1
unfolding set_checked
set_checked-IsSorted key cs none v ns hv s = set_components-IsSorted key (split_last cs) v ns hv s
set_checked-IsSorted key cs (some i) v ns hv s = s

-- A write keeps the keys of every object in order.
pub set_value-IsSorted :
    (key : Text) (v ns : Value) → IsSorted v → IsSorted ns → IsSorted (set_value key v ns).1
unfolding set_value
set_value-IsSorted key v ns hv s = elim (Bool-cases (any is_empty (split b'.' key))) [
  | inl e ↦ rw e s
  | inr e ↦
      rw e (set_checked-IsSorted key (split b'.' key) (find is_index (split b'.' key)) v ns hv s)
]
