-- ===== src/Keys/Extended.antt =====
-- Extended keys and their paths: src/wallet/keys/{xprv,xpub,derivation}.rs, in the children, over what
-- they use of kaspa_bip32 and kaspa_wallet_keys. A failed call is the text of its error.
pub mod DerivationPath
pub mod XPrv
pub mod XPub
pub mod Paths
use kaspa_python_sdk.Prelude.{ℕ, String, Bool, Option, List, Result}

-- `ExtendedKeyAttrs`, with the child number as an integer
pub record Attrs : Type 0 where
  pub depth : ℕ
  pub parent_fingerprint : List ℕ
  pub child_number : ℕ
  pub chain_code : List ℕ

pub record Bip32 : Type 1 where
  pub PyAny : Type 0
  pub ExtendedPrivateKey : Type 0
  pub ExtendedPublicKey : Type 0
  pub PrivateKey : Type 0
  pub PublicKey : Type 0
  pub ChildNumber : Type 0
  pub DerivationPath : Type 0
  pub Prefix : Type 0
  -- `extract::<String>()` and `extract::<PyDerivationPath>()`
  pub extract_string : PyAny → Option String
  pub extract_path : PyAny → Option DerivationPath
  pub from_hex : String → Result String (List ℕ)
  pub to_hex : List ℕ → String
  pub prefix_from_str : String → Result String Prefix
  -- `ChildNumber::new`
  pub child_number : ℕ → Bool → Result String ChildNumber
  -- `from_str` of the paths of kaspa_bip32, and `new` of those of kaspa_wallet_keys, which hold one
  pub path_from_str : String → Result String DerivationPath
  pub wallet_path : String → Result String DerivationPath
  pub path_is_empty : DerivationPath → Bool
  pub path_len : DerivationPath → ℕ
  pub path_parent : DerivationPath → Option DerivationPath
  pub path_push : DerivationPath → ChildNumber → DerivationPath
  pub path_to_string : DerivationPath → String
  -- `ExtendedPrivateKey::new` of a seed
  pub new : List ℕ → Result String ExtendedPrivateKey
  pub xprv_from_str : String → Result String ExtendedPrivateKey
  pub xprv_derive_child : ExtendedPrivateKey → ChildNumber → Result String ExtendedPrivateKey
  pub xprv_derive_path : ExtendedPrivateKey → DerivationPath → Result String ExtendedPrivateKey
  pub xprv_to_extended_key : ExtendedPrivateKey → Prefix → String
  pub xprv_attrs : ExtendedPrivateKey → Attrs
  pub xprv_public_key : ExtendedPrivateKey → ExtendedPublicKey
  pub xprv_private_key : ExtendedPrivateKey → PrivateKey
  pub secret_to_bytes : PrivateKey → List ℕ
  pub xpub_from_str : String → Result String ExtendedPublicKey
  pub xpub_derive_child : ExtendedPublicKey → ChildNumber → Result String ExtendedPublicKey
  pub xpub_derive_path : ExtendedPublicKey → DerivationPath → Result String ExtendedPublicKey
  pub xpub_to_extended_key : ExtendedPublicKey → Prefix → String
  -- `to_string` of an `ExtendedPublicKey` with a prefix
  pub xpub_to_string : ExtendedPublicKey → Prefix → String
  pub xpub_attrs : ExtendedPublicKey → Attrs
  pub xpub_public_key : ExtendedPublicKey → PublicKey
