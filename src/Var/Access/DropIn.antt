-- ===== src/Var/Access/DropIn.antt =====
-- The drop-in that keeps a value says the same as the write that set it: `nest` and what
-- `merge_document` makes of it, src/var.rs.
use detc.Base.{
  ◌≡◌, refl, ap, ◌∙◌, Bool, true, false, none, some, List, [], ◌∷◌, ok, err, Text, arith, Option,
  split, text_eq, text_eq_iff, text_eq_refl, split-cons,
}
use detc.Value.{
  Value, null, string, Fields, object, end, field, lookup, member, or_null, is_null, is_object,
}
use detc.Value.Order.{IsSorted}
use detc.Var.Strategy.{Merge, partial, Error, merge_key, strategy_of}
use detc.Var.Merging.{JsonPatch, patched, take_merge, merge_value}
use detc.Var.Subtree.{at_subtree, merge_document}
use detc.Var.Access.{get_at, get_value, set_value, nest}
use detc.Var.Access.RoundTrip.{get_value-set_value}

nest-IsSorted : (ks : List Text) (v : Value) → IsSorted v → IsSorted (nest ks v)
unfolding nest
nest-IsSorted [] v s = s
nest-IsSorted (k ∷ ks) v s = (nest-IsSorted ks v s, tt, tt)

get_at-member :
    (k : Text) (ks : List Text) (a : Value) {w : Value}
    → is_object a ≡ true
    → member k a ≡ some w
    → get_at (k ∷ ks) a ≡ get_at ks w
unfolding get_at
get_at-member k ks null o h = cc
get_at-member k ks (object m) o h = ground arith
get_at-member k ks _ o h = cc

patched_value :
    (f : Value → Value → Value) (old : Option Value) (v : Value)
    → is_null v ≡ false
    → patched f old (some v) ≡ some (f (or_null old) v)
patched_value f old null h = cc
patched_value f old (object m) h = refl
patched_value f old _ h = refl

nest-is_null : (ks : List Text) (v : Value) → is_null v ≡ false → is_null (nest ks v) ≡ false
unfolding nest
nest-is_null [] v h = h
nest-is_null (k ∷ ks) v h = refl

lookup_field : (k : Text) (v : Value) → lookup k (field k v end) ≡ some v
unfolding lookup
lookup_field k v = ground (arith, text_eq_iff k k)

module _ (jp : JsonPatch) where
  get_at-merge-nest :
      (v : Value)
      → IsSorted v
      → is_null v ≡ false
      → is_object v ≡ false
      → (ks : List Text) (a : Value) → get_at ks (jp.merge a (nest ks v)) ≡ some v
  unfolding nest
  get_at-merge-nest v s filled leaf [] a = unfold get_at in ap some (jp.merge_not_object a v leaf)
  get_at-merge-nest v s filled leaf (k ∷ ks) a =
      let b = object (field k (nest ks v) end) in
      let c = jp.merge (or_null (member k a)) (nest ks v) in
      let found : member k b ≡ some (nest ks v) = unfold member in lookup_field k (nest ks v) in
      let here : member k (jp.merge a b) ≡ some c =
        jp.member-merge a b k refl (nest-IsSorted ks v s, tt, tt)
        ∙ ap (patched jp.merge (member k a)) found
        ∙ patched_value jp.merge (member k a) (nest ks v) (nest-is_null ks v filled) in
      get_at-member k ks (jp.merge a b) (jp.merge_is_object a b refl) here
      ∙ get_at-merge-nest v s filled leaf ks (or_null (member k a))

  take_merge-field :
      (k : Text) (w : Value)
      → text_eq k merge_key ≡ false
      → take_merge (object (field k w end)) ≡ (ok none, object (field k w end))
  unfolding take_merge
  take_merge-field k w h = ground arith

-- The first component of a key is the reserved one.
abbrev pub is_reserved : List Text → Bool
is_reserved [] = false
is_reserved (c ∷ cs) = text_eq c merge_key

set_reserved : (ns : Fields) (v : Text) → (set_value merge_key (string v) (object ns)).0 ≡ ok tt
unfolding set_value split text_eq
set_reserved ns v = refl

module _ (jp : JsonPatch) (m : Fields) where
  nest_refused :
      (default : Merge) (v : Text) {e : Error}
      → strategy_of v ≡ err e
      → merge_document jp [] (nest (split b'.' merge_key) (string v)) default (object m)
        ≡ (err e, object m)
  unfolding merge_document nest take_merge split
  nest_refused default v h = ground (arith, text_eq_refl merge_key)

  merge_document-nest :
      (c : Text) (cs : List Text) (v : Value)
      → text_eq c merge_key ≡ false
      → merge_document jp [] (nest (c ∷ cs) v) partial (object m)
        ≡ (ok tt, jp.merge (object m) (nest (c ∷ cs) v))
  unfolding merge_document merge_value nest at_subtree
  merge_document-nest c cs v h = rw (take_merge-field jp c (nest cs v) h) refl

  merge_document-nest-split :
      (key : Text) (v : Value)
      → is_reserved (split b'.' key) ≡ false
      → merge_document jp [] (nest (split b'.' key) v) partial (object m)
        ≡ (ok tt, jp.merge (object m) (nest (split b'.' key) v))
  merge_document-nest-split key v free =
      let (c, cs, e) = split-cons b'.' key in rw e (merge_document-nest c cs v (rw e at free))

  -- A list or a scalar other than null, kept in a drop-in under its key and merged by the default
  -- strategy, is what the key reads afterwards, whatever the namespace held, unless the key begins
  -- with the reserved component.
  pub get_value-drop_in :
      (key : Text) (v : Value)
      → IsSorted v
      → is_null v ≡ false
      → is_object v ≡ false
      → is_reserved (split b'.' key) ≡ false
      → ((merge_document jp [] (nest (split b'.' key) v) partial (object m)).0 ≡ ok tt)
        × (get_value key (merge_document jp [] (nest (split b'.' key) v) partial (object m)).1
            ≡ ok v)
  unfolding get_value
  get_value-drop_in key v s filled leaf free =
      let read = get_at-merge-nest jp v s filled leaf (split b'.' key) (object m) in
      rw (merge_document-nest-split key v free) (refl, rw (read, get_value) refl)

  -- Setting a text under the reserved key succeeds in a mapping, and the key reads it. Where the text
  -- names no strategy, the drop-in that keeps it is refused by every strategy that is the default, and
  -- the namespace that it is merged into stays as it is.
  pub drop_in_reserved :
      (ns : Fields) (default : Merge) (v : Text) {e : Error}
      → strategy_of v ≡ err e
      → ((set_value merge_key (string v) (object ns)).0 ≡ ok tt)
        × (get_value merge_key (set_value merge_key (string v) (object ns)).1 ≡ ok (string v))
        × (merge_document jp [] (nest (split b'.' merge_key) (string v)) default (object m)
            ≡ (err e, object m))
  drop_in_reserved ns default v h = (
    set_reserved ns v,
    get_value-set_value merge_key (string v) (object ns) (set_reserved ns v),
    nest_refused default v h,
  )
