-- ===== src/Journal/Entries/Signed.antt =====
-- Who a commit is attributed to, in src/journal.rs.
use detc.Base.{
  ◌≡◌, refl, false, not, [], ◌∷◌, Result, Text, any, filter, is_empty, Bool-cases, inl, inr,
}
use detc.Base.Trim.{trim}
use detc.Base.Trim.Parts.{any-trim}
use detc.Value.{Value}
use detc.Var.Strategy
use detc.Journal.Entries.{signed_value, unsigned, signature}

any-filter : (t : Text) → any unsigned (filter (λ c. not (unsigned c)) t) ≡ false
any-filter [] = refl
any-filter (c ∷ cs) = elim (Bool-cases (unsigned c)) [
  | inl e ↦ rw e (any-filter cs)
  | inr e ↦ rw e (rw e (any-filter cs))
]

-- A signature has no angle bracket and no line break and is not empty, whatever the namespace
-- says, where the default is such.
pub signature-unsigned :
    (value : Result Strategy.Error Value) (default : Text)
    → any unsigned default ≡ false
    → is_empty default ≡ false
    → (any unsigned (signature value default) ≡ false)
      × (is_empty (signature value default) ≡ false)
unfolding signature
signature-unsigned value default d n =
    elim (Bool-cases (is_empty (trim (filter (λ c. not (unsigned c)) (signed_value value))))) [
      | inl e ↦ rw (e, signature) (d, n)
      | inr e ↦
          rw (e, signature)
            (
              any-trim unsigned (filter (λ c. not (unsigned c)) (signed_value value))
                  (any-filter (signed_value value)),
              e,
            )
    ]
