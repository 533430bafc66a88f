-- ===== src/Var/Tests.antt =====
-- Runs of the namespace on small documents, and the theorems at concrete inputs.
use detc.Base.{
  ◌≡◌, refl, true, List, [], ◌∷◌, ok, err, Text, codes, inl, split, Result, text_eq, text_lt,
}
use detc.Value.{Value, Fields, null, bool, number, string, array, object, nil, cons, end, field}
use detc.Var.Strategy.{
  partial, Error, not_present, index_component, unknown_strategy, strategy_of, unreadable,
  not_a_mapping,
}
use detc.Var.Subtree.{merge_document, from_system_with}
use detc.Var.Subtree.Invariant.{IsNamespace, from_system_with-IsNamespace}
use detc.Var.Access.{get_value, set_value, nest}
use detc.Var.Access.RoundTrip.{get_value-set_value}
use detc.Var.Access.Apart.{get_value-set_value-Apart}
use detc.Var.Access.DropIn.{drop_in_reserved}
use detc.Var.Rfc7396.{rfc7396}

-- {"dns": {"servers": ["a"]}, "mtu": 9}
abbrev servers : Value
servers = object (field (codes "servers") (array (cons (string (codes "a")) nil)) end)

abbrev sample : Value
sample = object (field (codes "dns") servers (field (codes "mtu") (number (codes "9")) end))

get_index : get_value (codes "dns.servers.0") sample ≡ ok (string (codes "a"))
unfolding get_value text_eq
get_index = refl

get_missing : get_value (codes "dns.x") sample ≡ err (not_present (codes "dns.x"))
unfolding get_value text_eq
get_missing = refl

set_index :
    (set_value (codes "dns.servers.0") null sample).0
    ≡ err (index_component (codes "dns.servers.0") (codes "0"))
unfolding set_value text_eq text_lt
set_index = refl

set_new : (set_value (codes "net.mtu") (bool true) sample).0 ≡ ok tt
unfolding set_value text_eq text_lt
set_new = refl

get_value-set_value_example :
    get_value (codes "net.mtu") (set_value (codes "net.mtu") (bool true) sample).1 ≡ ok (bool true)
get_value-set_value_example = get_value-set_value (codes "net.mtu") (bool true) sample set_new

abbrev mtu_document : Value
mtu_document = nest (split b'.' (codes "net.mtu")) (number (codes "9000"))

get_value-set_value-Apart_example :
    get_value (codes "dns.servers.0") (set_value (codes "net.mtu") (bool true) sample).1
    ≡ get_value (codes "dns.servers.0") sample
unfolding split text_eq
get_value-set_value-Apart_example =
    get_value-set_value-Apart (codes "net.mtu") (codes "dns.servers.0") (bool true) sample
      (inl refl)

abbrev system_documents : List (Result Error Value)
system_documents =
    ok (object (field (codes "_merge") (string (codes "full")) end)) ∷ ok (bool true) ∷ []

abbrev system_probes : List (List Text × Result Error Value)
system_probes =
    (codes "net" ∷ codes "mtu" ∷ [], ok (number (codes "1500")))
    ∷ ([], err unreadable)
    ∷ ([], ok servers)
    ∷ []

from_system_with-IsNamespace_example :
    IsNamespace (from_system_with rfc7396 (ok system_probes) system_documents partial).1
from_system_with-IsNamespace_example =
    from_system_with-IsNamespace rfc7396 (ok system_probes) system_documents partial
      (tt, (tt, (((tt, tt), tt, tt), tt))) ((tt, tt, tt), (tt, tt))

-- The probes mount what they report, and the bare scalar of the second document is refused.
from_system_run : from_system_with rfc7396 (ok system_probes) system_documents partial ≡ (
  err (not_a_mapping (bool true)),
  object (
      field
        (codes "net")
        (object (field (codes "mtu") (number (codes "1500")) end))
        (field (codes "servers") (array (cons (string (codes "a")) nil)) end)),
)
unfolding from_system_with rfc7396 text_eq text_lt
from_system_run = refl

unknown_merge : strategy_of (codes "sideways") ≡ err (unknown_strategy (codes "sideways"))
unfolding strategy_of text_eq
unknown_merge = refl

sideways_refused : strategy_of (codes "sideways") ≡ err (unknown_strategy (codes "sideways"))
unfolding strategy_of text_eq
sideways_refused = refl

abbrev sample_fields : Fields
sample_fields = field (codes "dns") servers (field (codes "mtu") (number (codes "9")) end)

drop_in_reserved_example :
    let set = set_value (codes "_merge") (string (codes "sideways")) sample in
    (set.0 ≡ ok tt)
    × (get_value (codes "_merge") set.1 ≡ ok (string (codes "sideways")))
    × (merge_document rfc7396 []
          (nest (split b'.' (codes "_merge")) (string (codes "sideways")))
          partial
          sample
        ≡ (err (unknown_strategy (codes "sideways")), sample))
drop_in_reserved_example =
    drop_in_reserved rfc7396 sample_fields sample_fields partial (codes "sideways") sideways_refused
