-- ===== src/Keys/Backend.antt =====
-- What the key generators call: the derivation managers, keys and addresses of the crates
-- kaspa_wallet_keys, kaspa_bip32 and kaspa_addresses. A failed call is the text of its error.
use kaspa_python_sdk.Prelude.{
  ℕ, zero, suc, ◌+◌, ◌≡◌, String, Bool, Option, List, [], ◌∷◌, Result, try_map,
}

-- `start..end` as a list: `count` numbers from `lo`.
abbrev pub range_from : ℕ → ℕ → List ℕ
range_from lo zero = []
range_from lo (suc count) = lo ∷ range_from (lo + 1) count

pub data AddressType : Type 0 where
  receive change : AddressType

pub record Backend : Type 1 where
  pub PyAny : Type 0
  pub NetworkType : Type 0
  pub DerivationPath : Type 0
  pub ChildNumber : Type 0
  -- `ExtendedPrivateKey<SecretKey>` and `ExtendedPublicKey<secp256k1::PublicKey>`
  pub XPrv : Type 0
  pub XPub : Type 0
  pub PrivateKey : Type 0
  -- `secp256k1::PublicKey`, and the `PublicKey` of kaspa_wallet_keys
  pub SecpKey : Type 0
  pub PublicKey : Type 0
  pub Address : Type 0
  -- `WalletDerivationManager`, and the `PubkeyDerivationManager` of one address type
  pub Wallet : Type 0
  pub Manager : Type 0
  -- `extract::<String>()` and `extract::<PyXPrv>()`
  pub extract_string : PyAny → Option String
  pub extract_xprv : PyAny → Option XPrv
  -- `XPrv::try_new`, behind `PyXPrv::from_xprv_str`, and `XPub::try_new(..).inner()`
  pub parse_xprv : String → Result String XPrv
  pub parse_xpub : String → Result String XPub
  pub derive_path : XPrv → DerivationPath → Result String XPrv
  pub derive_child : XPrv → ChildNumber → Result String XPrv
  pub child_number : ℕ → Bool → Result String ChildNumber
  pub public_key : XPrv → XPub
  pub private_key : XPrv → PrivateKey
  pub build_derivate_path : Bool → ℕ → Option ℕ → Option AddressType → Result String DerivationPath
  pub from_extended_public_key : XPub → Option ℕ → Result String Wallet
  pub wallet_to_string : Wallet → String
  pub receive_pubkey_manager : Wallet → Manager
  pub change_pubkey_manager : Wallet → Manager
  pub derive_pubkey : Manager → ℕ → Result String SecpKey
  -- the half-open range from the first index to the second
  pub derive_pubkey_range : Manager → ℕ → ℕ → Result String (List SecpKey)
  pub secp_to_string : SecpKey → String
  pub from_secp : SecpKey → PublicKey
  pub pubkey_to_string : PublicKey → String
  pub to_address : PublicKey → NetworkType → Result String Address
  -- `address_to_string()`, and `Display`
  pub address_to_string : Address → String
  pub display_address : Address → String

-- A range is derived an index at a time, in order.
abbrev pub DerivesInOrder : Backend → Type 0
DerivesInOrder b =
    (m : b.Manager) (lo count : ℕ)
    → b.derive_pubkey_range m lo (lo + count) ≡ try_map (b.derive_pubkey m) (range_from lo count)
