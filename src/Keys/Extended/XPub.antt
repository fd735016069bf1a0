-- ===== src/Keys/Extended/XPub.antt =====
-- `PyXPub` of src/wallet/keys/xpub.rs. A result `none` is a panic.
use kaspa_python_sdk.Prelude.{
  ℕ, String, Bool, false, Option, some, none, ok, err, PyResult, exception, map_err, unwrap_or,
  ◌>>=◌,
}
use kaspa_python_sdk.Keys.Extended.{Bip32}

module _ (b : Bip32) where
  open b use {ExtendedPublicKey}

  unfoldable pub try_new : String → PyResult ExtendedPublicKey
  try_new xpub = map_err exception (b.xpub_from_str xpub)

  unfoldable pub derive_child : ExtendedPublicKey → ℕ → Option Bool → PyResult ExtendedPublicKey
  derive_child key child_number hardened = do
    child ← map_err exception (b.child_number child_number (unwrap_or false hardened))
    map_err exception (b.xpub_derive_child key child)

  unfoldable pub derive_path : ExtendedPublicKey → String → PyResult ExtendedPublicKey
  derive_path key path = do
    found ← map_err exception (b.wallet_path path)
    map_err exception (b.xpub_derive_path key found)

  unfoldable pub to_str : ExtendedPublicKey → String → PyResult String
  to_str key prefix = do
    found ← map_err exception (b.prefix_from_str prefix)
    ok (b.xpub_to_string key found)

  unfoldable pub public_key : ExtendedPublicKey → b.PublicKey
  public_key key = b.xpub_public_key key

  unfoldable pub get_xpub : ExtendedPublicKey → Option (PyResult String)
  get_xpub key = elim (b.prefix_from_str "kpub") [
    | err _ ↦ none
    | ok prefix ↦ some (ok (b.xpub_to_extended_key key prefix))
  ]

  unfoldable pub get_depth : ExtendedPublicKey → ℕ
  get_depth key = (b.xpub_attrs key).depth

  unfoldable pub get_parent_fingerprint : ExtendedPublicKey → String
  get_parent_fingerprint key = b.to_hex ((b.xpub_attrs key).parent_fingerprint)

  unfoldable pub get_child_number : ExtendedPublicKey → ℕ
  get_child_number key = (b.xpub_attrs key).child_number

  unfoldable pub get_chain_code : ExtendedPublicKey → String
  get_chain_code key = b.to_hex ((b.xpub_attrs key).chain_code)
