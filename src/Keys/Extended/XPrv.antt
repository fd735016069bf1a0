-- ===== src/Keys/Extended/XPrv.antt =====
-- `PyXPrv` of src/wallet/keys/xprv.rs.
use kaspa_python_sdk.Prelude.{
  ℕ, String, Bool, false, Option, none, some, ok, err, PyResult, exception, map_err, unwrap_or,
  ◌>>=◌,
}
use kaspa_python_sdk.Keys.Extended.{Bip32}
use kaspa_python_sdk.Keys.Extended.DerivationPath

module _ (b : Bip32) where
  open b use {PyAny, ExtendedPrivateKey}

  unfoldable pub try_new : String → PyResult ExtendedPrivateKey
  try_new seed = do
    seed_bytes ← map_err exception (b.from_hex seed)
    map_err exception (b.new seed_bytes)

  unfoldable pub from_xprv_str : String → PyResult ExtendedPrivateKey
  from_xprv_str xprv = map_err exception (b.xprv_from_str xprv)

  unfoldable pub derive_child : ExtendedPrivateKey → ℕ → Option Bool → PyResult ExtendedPrivateKey
  derive_child key child_number hardened = do
    child ← map_err exception (b.child_number child_number (unwrap_or false hardened))
    map_err exception (b.xprv_derive_child key child)

  -- a text of a path, or else a path
  unfoldable pub path_of : PyAny → PyResult b.DerivationPath
  path_of path = elim (b.extract_string path) [
    | some path_str ↦ DerivationPath.new b path_str
    | none ↦ elim (b.extract_path path) [
      | some path_obj ↦ ok path_obj
      | none ↦ err (exception "`path` must be of type `str` or `DerivationPath`")
    ]
  ]

  unfoldable pub derive_path : ExtendedPrivateKey → PyAny → PyResult ExtendedPrivateKey
  derive_path key path = do found ← path_of path; map_err exception (b.xprv_derive_path key found)

  unfoldable pub into_string : ExtendedPrivateKey → String → PyResult String
  into_string key prefix = do
    found ← map_err exception (b.prefix_from_str prefix)
    ok (b.xprv_to_extended_key key found)

  unfoldable pub to_string : ExtendedPrivateKey → PyResult String
  to_string key = do
    prefix ← map_err exception (b.prefix_from_str "kprv")
    ok (b.xprv_to_extended_key key prefix)

  unfoldable pub to_xpub : ExtendedPrivateKey → PyResult b.ExtendedPublicKey
  to_xpub key = ok (b.xprv_public_key key)

  unfoldable pub to_private_key : ExtendedPrivateKey → PyResult b.PrivateKey
  to_private_key key = ok (b.xprv_private_key key)

  unfoldable pub get_xprv : ExtendedPrivateKey → PyResult String
  get_xprv key = do
    prefix ← map_err exception (b.prefix_from_str "kprv")
    ok (b.xprv_to_extended_key key prefix)

  unfoldable pub get_private_key : ExtendedPrivateKey → String
  get_private_key key = b.to_hex (b.secret_to_bytes (b.xprv_private_key key))

  unfoldable pub get_depth : ExtendedPrivateKey → ℕ
  get_depth key = (b.xprv_attrs key).depth

  unfoldable pub get_parent_fingerprint : ExtendedPrivateKey → String
  get_parent_fingerprint key = b.to_hex ((b.xprv_attrs key).parent_fingerprint)

  unfoldable pub get_child_number : ExtendedPrivateKey → ℕ
  get_child_number key = (b.xprv_attrs key).child_number

  unfoldable pub get_chain_code : ExtendedPrivateKey → String
  get_chain_code key = b.to_hex ((b.xprv_attrs key).chain_code)
