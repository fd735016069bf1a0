-- ===== src/Keys/PublicKeyGenerator.antt =====
-- `PyPublicKeyGenerator` of src/wallet/keys/pubkeygen.rs, a method each.
pub mod Ranges
pub mod Addresses
use kaspa_python_sdk.Prelude.{
  ℕ, String, Bool, Option, none, some, List, map, PyErr, exception, Result, ok, err, PyResult,
  ◌>>=◌, map_err, try_map, ltb, if◌then◌else◌,
}
use kaspa_python_sdk.Keys.Backend.{Backend}

-- `if start > end { (start, end) = (end, start) }`
unfoldable pub in_order : ℕ → ℕ → ℕ × ℕ
in_order start end = if ltb end start then (end, start) else (start, end)

module _ (b : Backend) where
  open b use {
    PyAny, NetworkType, XPrv, SecpKey, PublicKey, Address, Wallet, Manager, extract_string,
    extract_xprv, parse_xprv, parse_xpub, derive_path, public_key, build_derivate_path,
    from_extended_public_key, wallet_to_string, receive_pubkey_manager, change_pubkey_manager,
    derive_pubkey, derive_pubkey_range, secp_to_string, from_secp, pubkey_to_string, to_address,
    address_to_string, display_address,
  }

  pub record PyPublicKeyGenerator : Type 0 where
    pub hd_wallet : Wallet

  unfoldable pub from_xpub : String → Option ℕ → PyResult PyPublicKeyGenerator
  from_xpub kpub cosigner_index = do
    xpub ← map_err exception (parse_xpub kpub)
    hd_wallet ← map_err exception (from_extended_public_key xpub cosigner_index)
    ok (record { hd_wallet = hd_wallet })

  -- the `xprv` argument: a string first, then an `XPrv`
  unfoldable pub xprv_argument : PyAny → PyResult XPrv
  xprv_argument xprv = elim (extract_string xprv) [
    | some s ↦ map_err exception (parse_xprv s)
    | none ↦ elim (extract_xprv xprv) [
      | some x ↦ ok x
      | none ↦ err (exception "`xprv` must be type str or XPrv")
    ]
  ]

  unfoldable pub from_master_xprv : PyAny → Bool → ℕ → Option ℕ → PyResult PyPublicKeyGenerator
  from_master_xprv arg is_multisig account_index cosigner_index = do
    master ← xprv_argument arg
    path ← map_err exception (build_derivate_path is_multisig account_index none none)
    xprv ← map_err exception (derive_path master path)
    let xpub = public_key xprv
    hd_wallet ← map_err exception (from_extended_public_key xpub cosigner_index)
    ok (record { hd_wallet = hd_wallet })

  module _ (g : PyPublicKeyGenerator) where
    unfoldable pub receive_pubkeys : ℕ → ℕ → PyResult (List PublicKey)
    receive_pubkeys start end = do
      let (lo, hi) = in_order start end
      pubkeys ← map_err exception (derive_pubkey_range (receive_pubkey_manager g.hd_wallet) lo hi)
      ok (map from_secp pubkeys)

    unfoldable pub receive_pubkey : ℕ → PyResult PublicKey
    receive_pubkey index = do
      pk ← map_err exception (derive_pubkey (receive_pubkey_manager g.hd_wallet) index)
      ok (from_secp pk)

    unfoldable pub receive_pubkeys_as_strings : ℕ → ℕ → PyResult (List String)
    receive_pubkeys_as_strings start end = do
      let (lo, hi) = in_order start end
      pubkeys ← map_err exception (derive_pubkey_range (receive_pubkey_manager g.hd_wallet) lo hi)
      ok (map (λ pk. pubkey_to_string (from_secp pk)) pubkeys)

    unfoldable pub receive_pubkey_as_string : ℕ → PyResult String
    receive_pubkey_as_string index = do
      pk ← map_err exception (derive_pubkey (receive_pubkey_manager g.hd_wallet) index)
      ok (secp_to_string pk)

    unfoldable pub receive_addresses : NetworkType → ℕ → ℕ → PyResult (List Address)
    receive_addresses network_type start end = do
      let (lo, hi) = in_order start end
      pubkeys ← map_err exception (derive_pubkey_range (receive_pubkey_manager g.hd_wallet) lo hi)
      map_err exception (try_map (λ pk. to_address (from_secp pk) network_type) pubkeys)

    unfoldable pub receive_address : NetworkType → ℕ → PyResult Address
    receive_address network_type index = do
      pk ← map_err exception (derive_pubkey (receive_pubkey_manager g.hd_wallet) index)
      map_err exception (to_address (from_secp pk) network_type)

    unfoldable pub receive_addresses_as_strings : NetworkType → ℕ → ℕ → PyResult (List String)
    receive_addresses_as_strings network_type start end = do
      let (lo, hi) = in_order start end
      pubkeys ← map_err exception (derive_pubkey_range (receive_pubkey_manager g.hd_wallet) lo hi)
      addresses ← map_err exception (try_map (λ pk. to_address (from_secp pk) network_type) pubkeys)
      ok (map address_to_string addresses)

    unfoldable pub receive_address_as_string : NetworkType → ℕ → PyResult String
    receive_address_as_string network_type index = do
      pk ← map_err exception (derive_pubkey (receive_pubkey_manager g.hd_wallet) index)
      address ← map_err exception (to_address (from_secp pk) network_type)
      ok (display_address address)

    unfoldable pub change_pubkeys : ℕ → ℕ → PyResult (List PublicKey)
    change_pubkeys start end = do
      let (lo, hi) = in_order start end
      pubkeys ← map_err exception (derive_pubkey_range (change_pubkey_manager g.hd_wallet) lo hi)
      ok (map from_secp pubkeys)

    unfoldable pub change_pubkey : ℕ → PyResult PublicKey
    change_pubkey index = do
      pk ← map_err exception (derive_pubkey (change_pubkey_manager g.hd_wallet) index)
      ok (from_secp pk)

    unfoldable pub change_pubkeys_as_strings : ℕ → ℕ → PyResult (List String)
    change_pubkeys_as_strings start end = do
      let (lo, hi) = in_order start end
      pubkeys ← map_err exception (derive_pubkey_range (change_pubkey_manager g.hd_wallet) lo hi)
      ok (map (λ pk. pubkey_to_string (from_secp pk)) pubkeys)

    unfoldable pub change_pubkey_as_string : ℕ → PyResult String
    change_pubkey_as_string index = do
      pk ← map_err exception (derive_pubkey (change_pubkey_manager g.hd_wallet) index)
      ok (secp_to_string pk)

    -- the manager is the receive one, as in the source
    unfoldable pub change_addresses : NetworkType → ℕ → ℕ → PyResult (List Address)
    change_addresses network_type start end = do
      let (lo, hi) = in_order start end
      pubkeys ← map_err exception (derive_pubkey_range (receive_pubkey_manager g.hd_wallet) lo hi)
      map_err exception (try_map (λ pk. to_address (from_secp pk) network_type) pubkeys)

    unfoldable pub change_address : NetworkType → ℕ → PyResult Address
    change_address network_type index = do
      pk ← map_err exception (derive_pubkey (change_pubkey_manager g.hd_wallet) index)
      map_err exception (to_address (from_secp pk) network_type)

    unfoldable pub change_addresses_as_strings : NetworkType → ℕ → ℕ → PyResult (List String)
    change_addresses_as_strings network_type start end = do
      let (lo, hi) = in_order start end
      pubkeys ← map_err exception (derive_pubkey_range (change_pubkey_manager g.hd_wallet) lo hi)
      addresses ← map_err exception (try_map (λ pk. to_address (from_secp pk) network_type) pubkeys)
      ok (map address_to_string addresses)

    -- the manager is the receive one, as in the source
    unfoldable pub change_address_as_string : NetworkType → ℕ → PyResult String
    change_address_as_string network_type index = do
      pk ← map_err exception (derive_pubkey (receive_pubkey_manager g.hd_wallet) index)
      address ← map_err exception (to_address (from_secp pk) network_type)
      ok (display_address address)

    unfoldable pub to_string : PyResult String
    to_string = ok (wallet_to_string g.hd_wallet)
