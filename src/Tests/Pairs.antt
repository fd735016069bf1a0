-- ===== src/Tests/Pairs.antt =====
-- Keys that are numbers: the public key is the same number, and an address is its payload.
use kaspa_python_sdk.Prelude.{
  ℕ, zero, suc, ◌≡◌, ◌≢◌, refl, some, none, List, [], ◌∷◌, ok, arith, ◌↔◌, length, nat_beq,
  nat_beq_iff, Bool-cases, inl, inr, if◌then◌else◌,
}
use kaspa_python_sdk.Keys.Pairs.{
  Curve, Version, PyKeypair, xonly_to_address, xonly_to_address_ecdsa, keypair_to_address,
  keypair_to_address_ecdsa, from_private_key, private_to_address, private_to_address_ecdsa,
}
use kaspa_python_sdk.Keys.Agreement.{
  IsCurve, private_to_address-keypair_to_address, ChecksLength, public_key_len,
  xonly_to_address_ecdsa-panics, as_result,
}

abbrev filled : ℕ → ℕ → List ℕ
filled zero key = []
filled (suc n) key = key ∷ filled n key

abbrev first : List ℕ → ℕ
first [] = 0
first (x ∷ _) = x

abbrev curve : Curve
curve = record {
  SecretKey = ℕ;
  PublicKey = ℕ;
  XOnlyPublicKey = ℕ;
  secret_from_str = λ _. ok 0;
  public_from_str = λ _. ok 0;
  xonly_from_str = λ _. ok 0;
  secret_from_slice = λ bytes. ok (first bytes);
  from_secret_key = λ key. key;
  x_only_public_key = λ key. key;
  serialize = λ key. filled 33 key;
  serialize_xonly = λ key. filled 32 key;
  PrivateKey = ℕ;
  secret_bytes = λ key. filled 32 key;
  to_public_key = λ key. ok (some key, key);
  NetworkType = Unit {0};
  Address = List ℕ;
  new = λ _ version bytes.
      if nat_beq (length bytes) (public_key_len version) then some bytes else none;
}

abbrev lawful : IsCurve curve
lawful = record { public = λ key. (key, refl, refl) }

asserted :
    (network : Unit {0}) (version : Version) (bytes : List ℕ)
    → (curve.new network version bytes ≡ none) ↔ (length bytes ≢ public_key_len version)
asserted network version bytes =
    elim (Bool-cases (nat_beq (length bytes) (public_key_len version))) [
      | inl e ↦
          (λ h. absurd (ground (arith, (rw e at h))), λ ne. absurd (ne ((nat_beq_iff _ _).0 e)))
      | inr e ↦ (λ _ same. ground (arith, e, (nat_beq_iff _ _).1 same), λ _. rw e refl)
    ]

abbrev checked : ChecksLength curve
checked = record {
  length-serialize = λ key. refl;
  length-serialize_xonly = λ key. refl;
  asserts = asserted;
}

abbrev pair : PyKeypair curve
pair = record { secret_key = 5; public_key = 5; xonly_public_key = 5 }

private_to_address-keypair_to_address_example :
    (p : PyKeypair curve) × (from_private_key curve 5 ≡ ok p)
    × (private_to_address curve 5 tt ≡ as_result (keypair_to_address curve p tt))
    × (private_to_address_ecdsa curve 5 tt ≡ as_result (keypair_to_address_ecdsa curve p tt))
    × (xonly_to_address curve p.xonly_public_key tt ≡ keypair_to_address curve p tt)
private_to_address-keypair_to_address_example =
    private_to_address-keypair_to_address curve lawful 5 tt

xonly_to_address_ecdsa-panics_example :
    (xonly_to_address_ecdsa curve 5 tt ≡ none)
    × ((address : List ℕ) × (xonly_to_address curve 5 tt ≡ some address))
    × ((address : List ℕ) × (keypair_to_address curve pair tt ≡ some address))
    × ((address : List ℕ) × (keypair_to_address_ecdsa curve pair tt ≡ some address))
xonly_to_address_ecdsa-panics_example = xonly_to_address_ecdsa-panics curve checked 5 pair tt
