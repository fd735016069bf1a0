-- ===== src/Client/Equality.antt =====
-- `__eq__` of the wrappers of src/consensus/client, which compare what `bincode::serialize` makes of
-- the two objects.
use kaspa_python_sdk.Prelude.{
  ◌≡◌, ◌↔◌, refl, sym, ap, ◌∙◌, subst, String, Bool, true, false, Result, ok, err, is_ok, PartialEq,
  ◌==◌, ==_self, arith, Result-cases, inl, inr,
}

-- `match (bincode::serialize(&self.0), bincode::serialize(&other.0))`
unfoldable pub serialized_eq {ℓ κ} :
    {T : Type ℓ} {Bytes : Type κ} ⦃same : PartialEq Bytes⦄
    → (T → Result String Bytes)
    → T
    → T
    → Bool
serialized_eq serialize x y = elim (serialize x) [
  | ok a ↦ elim (serialize y) [ ok b ↦ a == b | err _ ↦ false ]
  | err _ ↦ false
]

-- If `serialize` gives the same bytes only for the same objects, two objects compare as equal exactly
-- if they are the same and `serialize` does not fail on it: an object on which it fails is not even
-- equal to itself.
pub serialized_eq_iff {ℓ κ} :
    {T : Type ℓ} {Bytes : Type κ} ⦃same : PartialEq Bytes⦄ (serialize : T → Result String Bytes)
    (injective : (x y : T) (bytes : Bytes)
      → serialize x ≡ ok bytes
      → serialize y ≡ ok bytes
      → x ≡ y)
    (x y : T)
    → (serialized_eq serialize x y ≡ true) ↔ ((x ≡ y) × (is_ok (serialize x) ≡ true))
unfolding serialized_eq
serialized_eq_iff ⦃same⦄ serialize injective x y = (
  λ h. elim (Result-cases (serialize x)) [
    | inl (a, p) ↦ elim (Result-cases (serialize y)) [
      | inl (c, q) ↦
          let alike : a ≡ c = (same.eq_test_iff a c).0 (rw (serialized_eq, p, q) at h) in
          (injective x y a p (q ∙ ap ok (sym alike)), rw p refl)
      | inr (e, q) ↦
          let wrong : false ≡ true = rw (serialized_eq, p, q) at h in absurd (ground (arith, wrong))
    ]
    | inr (e, p) ↦
        let wrong : false ≡ true = rw (serialized_eq, p) at h in absurd (ground (arith, wrong))
  ],
  λ (one, succeeds). elim (Result-cases (serialize x)) [
    | inl (a, p) ↦
        subst (λ z. serialized_eq serialize x z ≡ true) one (rw (serialized_eq, p, p) (==_self a))
    | inr (e, p) ↦ let wrong : false ≡ true = rw p at succeeds in absurd (ground (arith, wrong))
  ],
)
