-- ===== src/Keys/Agreement.antt =====
-- The addresses of one key through the key classes.
use kaspa_python_sdk.Prelude.{
  ℕ, ◌≡◌, ◌≢◌, ◌↔◌, refl, sym, ◌∙◌, Option, none, some, List, ok, PyResult, length, arith,
  Option-cases, inl, inr,
}
use kaspa_python_sdk.Keys.Pairs.{
  Curve, Version, PyKeypair, xonly_to_address, xonly_to_address_ecdsa, keypair_to_address,
  keypair_to_address_ecdsa, from_private_key, address_with, private_to_address,
  private_to_address_ecdsa,
}

-- an address as a method of a private key returns it
abbrev pub as_result : {A : Type 0} → Option A → Option (PyResult A)
as_result none = none
as_result (some address) = some (ok address)

-- What the crates document: the public key of a private key is that of its secret key.
pub record IsCurve (c : Curve) : Type 0 where
  pub public :
      (key : c.PrivateKey)
      → (secret : c.SecretKey) × (c.secret_from_slice (c.secret_bytes key) ≡ ok secret)
        × (c.to_public_key key
            ≡ ok (some (c.from_secret_key secret), c.x_only_public_key (c.from_secret_key secret)))

-- the bytes of a payload: an x-only key, or for ECDSA a full key
abbrev pub public_key_len : Version → ℕ
public_key_len Version.pub_key = 32
public_key_len Version.pub_key_ecdsa = 33

-- What the crates document of lengths: the full key has 33 bytes and the x-only key 32, and
-- `Address::new` asserts that a payload has the length of its version.
pub record ChecksLength (c : Curve) : Type 0 where
  pub length-serialize : (key : c.PublicKey) → length (c.serialize key) ≡ 33
  pub length-serialize_xonly : (key : c.XOnlyPublicKey) → length (c.serialize_xonly key) ≡ 32
  pub asserts :
      (network : c.NetworkType) (version : Version) (bytes : List ℕ)
      → (c.new network version bytes ≡ none) ↔ (length bytes ≢ public_key_len version)

module _ (c : Curve) (law : IsCurve c) where
  open c use {PrivateKey, NetworkType, Address}

  address_with-derived :
      (version : Version) (bytes : c.PublicKey → List ℕ) (key : PrivateKey) (network : NetworkType)
      {public : c.PublicKey} {xonly : c.XOnlyPublicKey}
      → c.to_public_key key ≡ ok (some public, xonly)
      → address_with c version bytes key network ≡ as_result (c.new network version (bytes public))
  unfolding address_with
  address_with-derived version bytes key network {public} e =
      elim (Option-cases (c.new network version (bytes public))) [
        | inl o ↦ rw (e, address_with, o) refl
        | inr (address, o) ↦ rw (e, address_with, o) refl
      ]

  -- If the crates derive keys as they document, a private key makes a key pair, and the two give the
  -- same addresses of both versions for every network, panics included; the Schnorr address is also
  -- that of the x-only key.
  pub private_to_address-keypair_to_address :
      (key : PrivateKey) (network : NetworkType)
      → (pair : PyKeypair c) × (from_private_key c key ≡ ok pair)
        × (private_to_address c key network ≡ as_result (keypair_to_address c pair network))
        × (private_to_address_ecdsa c key network
            ≡ as_result (keypair_to_address_ecdsa c pair network))
        × (xonly_to_address c pair.xonly_public_key network ≡ keypair_to_address c pair network)
  unfolding from_private_key private_to_address private_to_address_ecdsa keypair_to_address
      keypair_to_address_ecdsa xonly_to_address
  private_to_address-keypair_to_address key network =
      let (secret, sliced, derived) = law.public key in
      let public = c.from_secret_key secret in
      (
        record {
          secret_key = secret;
          public_key = public;
          xonly_public_key = c.x_only_public_key public;
        },
        rw sliced refl,
        address_with-derived Version.pub_key (λ k. c.serialize_xonly (c.x_only_public_key k)) key
            network derived,
        address_with-derived Version.pub_key_ecdsa c.serialize key network derived,
        refl,
      )

module _ (c : Curve) where
  open c use {PrivateKey, NetworkType, Address}

  given_address :
      (lengths : ChecksLength c) (network : NetworkType) (version : Version) (bytes : List ℕ)
      → length bytes ≡ public_key_len version
      → (address : Address) × (c.new network version bytes ≡ some address)
  given_address lengths network version bytes fits =
      elim (Option-cases (c.new network version bytes)) [
        | inl panics ↦ absurd ((lengths.asserts network version bytes).0 panics fits)
        | inr made ↦ made
      ]

  -- If the crates keep to the lengths that they document, `to_address_ecdsa` of an x-only key panics
  -- for every key and network, while `to_address` of it, and both methods of a key pair, give an
  -- address.
  pub xonly_to_address_ecdsa-panics :
      (lengths : ChecksLength c) (key : c.XOnlyPublicKey) (pair : PyKeypair c)
      (network : NetworkType)
      → (xonly_to_address_ecdsa c key network ≡ none)
        × ((address : Address) × (xonly_to_address c key network ≡ some address))
        × ((address : Address) × (keypair_to_address c pair network ≡ some address))
        × ((address : Address) × (keypair_to_address_ecdsa c pair network ≡ some address))
  unfolding xonly_to_address_ecdsa xonly_to_address keypair_to_address keypair_to_address_ecdsa
  xonly_to_address_ecdsa-panics lengths key pair network =
      let short = lengths.length-serialize_xonly key in
      (
        (lengths.asserts network Version.pub_key_ecdsa (c.serialize_xonly key)).1
            (λ fits. omega (arith, sym short ∙ fits)),
        given_address lengths network Version.pub_key (c.serialize_xonly key) short,
        given_address lengths network Version.pub_key (c.serialize_xonly pair.xonly_public_key)
            (lengths.length-serialize_xonly pair.xonly_public_key),
        given_address lengths network Version.pub_key_ecdsa (c.serialize pair.public_key)
            (lengths.length-serialize pair.public_key),
      )
