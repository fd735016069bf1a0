-- ===== src/Keys/Extended/DerivationPath.antt =====
-- `PyDerivationPath` of src/wallet/keys/derivation.rs: what `push` changes is returned.
use kaspa_python_sdk.Prelude.{
  ℕ, String, Bool, false, Option, ok, PyResult, exception, map_err, unwrap_or, ◌>>=◌,
}
use kaspa_python_sdk.Keys.Extended.{Bip32}

module _ (b : Bip32) where
  open b use {DerivationPath}

  unfoldable pub new : String → PyResult DerivationPath
  new path = map_err exception (b.path_from_str path)

  unfoldable pub is_empty : DerivationPath → Bool
  is_empty path = b.path_is_empty path

  unfoldable pub len : DerivationPath → ℕ
  len path = b.path_len path

  unfoldable pub parent : DerivationPath → Option DerivationPath
  parent path = b.path_parent path

  unfoldable pub push : DerivationPath → ℕ → Option Bool → PyResult DerivationPath
  push path child_number hardened = do
    child ← map_err exception (b.child_number child_number (unwrap_or false hardened))
    ok (b.path_push path child)

  unfoldable pub to_str : DerivationPath → String
  to_str path = b.path_to_string path
