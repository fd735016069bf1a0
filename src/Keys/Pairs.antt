-- ===== src/Keys/Pairs.antt =====
-- The key classes of src/wallet/keys/{privatekey,publickey,keypair}.rs and the addresses that they
-- give. A result `none` is a panic.
use kaspa_python_sdk.Prelude.{
  ℕ, String, Option, none, some, List, Result, ok, err, PyResult, exception, map_err, ◌>>=◌,
}

pub data Version : Type 0 where
  pub_key pub_key_ecdsa : Version

-- What the classes use of secp256k1, kaspa_wallet_keys and kaspa_addresses.
pub record Curve : Type 1 where
  pub SecretKey : Type 0
  pub PublicKey : Type 0
  pub XOnlyPublicKey : Type 0
  pub secret_from_str : String → Result String SecretKey
  pub public_from_str : String → Result String PublicKey
  pub xonly_from_str : String → Result String XOnlyPublicKey
  pub secret_from_slice : List ℕ → Result String SecretKey
  pub from_secret_key : SecretKey → PublicKey
  pub x_only_public_key : PublicKey → XOnlyPublicKey
  pub serialize : PublicKey → List ℕ
  pub serialize_xonly : XOnlyPublicKey → List ℕ
  -- `PrivateKey` of kaspa_wallet_keys, and the two fields of the public key that it derives
  pub PrivateKey : Type 0
  pub secret_bytes : PrivateKey → List ℕ
  pub to_public_key : PrivateKey → Result String (Option PublicKey × XOnlyPublicKey)
  pub NetworkType : Type 0
  pub Address : Type 0
  pub new : NetworkType → Version → List ℕ → Option Address

module _ (c : Curve) where
  open c use {SecretKey, PublicKey, XOnlyPublicKey, PrivateKey, NetworkType, Address}

  pub record PyKeypair : Type 0 where
    pub secret_key : SecretKey
    pub public_key : PublicKey
    pub xonly_public_key : XOnlyPublicKey

  unfoldable pub xonly_to_address : XOnlyPublicKey → NetworkType → Option Address
  xonly_to_address key network = c.new network Version.pub_key (c.serialize_xonly key)

  unfoldable pub xonly_to_address_ecdsa : XOnlyPublicKey → NetworkType → Option Address
  xonly_to_address_ecdsa key network = c.new network Version.pub_key_ecdsa (c.serialize_xonly key)

  unfoldable pub keypair_new : String → String → String → PyResult PyKeypair
  keypair_new secret_key public_key xonly_public_key = do
    secret ← map_err exception (c.secret_from_str secret_key)
    public ← map_err exception (c.public_from_str public_key)
    xonly ← map_err exception (c.xonly_from_str xonly_public_key)
    ok (record { secret_key = secret; public_key = public; xonly_public_key = xonly })

  unfoldable pub keypair_to_address : PyKeypair → NetworkType → Option Address
  keypair_to_address pair network =
      c.new network Version.pub_key (c.serialize_xonly pair.xonly_public_key)

  unfoldable pub keypair_to_address_ecdsa : PyKeypair → NetworkType → Option Address
  keypair_to_address_ecdsa pair network =
      c.new network Version.pub_key_ecdsa (c.serialize pair.public_key)

  -- `PyKeypair::from_private_key`, which `PyPrivateKey::to_keypair` calls
  unfoldable pub from_private_key : PrivateKey → PyResult PyKeypair
  from_private_key private_key = do
    secret_key ← map_err exception (c.secret_from_slice (c.secret_bytes private_key))
    let public_key = c.from_secret_key secret_key
    ok (record {
      secret_key = secret_key;
      public_key = public_key;
      xonly_public_key = c.x_only_public_key public_key;
    })

  -- an address of the public key of a private key: `unwrap` panics where the full key is missing
  unfoldable pub address_with :
      Version → (PublicKey → List ℕ) → PrivateKey → NetworkType → Option (PyResult Address)
  address_with version payload private_key network = elim (c.to_public_key private_key) [
    | err _ ↦ some (err (exception "Failed to derive public key"))
    | ok (none, xonly) ↦ none
    | ok (some public_key, xonly) ↦ elim (c.new network version (payload public_key)) [
      | none ↦ none
      | some address ↦ some (ok address)
    ]
  ]

  unfoldable pub private_to_address : PrivateKey → NetworkType → Option (PyResult Address)
  private_to_address private_key network =
      address_with Version.pub_key
        (λ public_key. c.serialize_xonly (c.x_only_public_key public_key)) private_key network

  unfoldable pub private_to_address_ecdsa : PrivateKey → NetworkType → Option (PyResult Address)
  private_to_address_ecdsa private_key network =
      address_with Version.pub_key_ecdsa c.serialize private_key network
