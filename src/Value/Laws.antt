-- ===== src/Value/Laws.antt =====
-- What reading an object gives after a write, whatever the order of its keys.
use detc.Base.{◌≡◌, refl, false, none, some, Text, text_eq, text_eq_iff, if◌then◌else◌, arith}
use detc.Value.{Value, Fields, end, field, lookup, insert, remove}

pub lookup-insert :
    (k j : Text) (v : Value) (m : Fields)
    → lookup j (insert k v m) ≡ (if text_eq k j then some v else lookup j m)
unfolding lookup insert
lookup-insert k j v end = refl
lookup-insert k j v (field i w m) =
    ground (arith, text_eq_iff i k, text_eq_iff i j, text_eq_iff k j, lookup-insert k j v m)

pub lookup-remove :
    (k j : Text) (m : Fields) → lookup j (remove k m) ≡ (if text_eq k j then none else lookup j m)
unfolding lookup remove
lookup-remove k j end = ground arith
lookup-remove k j (field i w m) =
    ground (arith, text_eq_iff i k, text_eq_iff i j, text_eq_iff k j, lookup-remove k j m)

pub lookup-insert_self : (k : Text) (v : Value) (m : Fields) → lookup k (insert k v m) ≡ some v
lookup-insert_self k v m = ground (arith, lookup-insert k k v m, text_eq_iff k k)

pub lookup-insert_ne :
    (k j : Text) (v : Value) (m : Fields)
    → text_eq k j ≡ false
    → lookup j (insert k v m) ≡ lookup j m
lookup-insert_ne k j v m h = ground (arith, lookup-insert k j v m)
