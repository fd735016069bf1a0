-- ===== src/Keys/PrivateKeyGenerator.antt =====
-- `PyPrivateKeyGenerator` of src/wallet/keys/privkeygen.rs.
use kaspa_python_sdk.Prelude.{ℕ, Bool, false, Option, some, exception, ok, PyResult, ◌>>=◌, map_err}
use kaspa_python_sdk.Keys.Backend.{Backend, receive, change}
use kaspa_python_sdk.Keys.PublicKeyGenerator.{xprv_argument}

module _ (b : Backend) where
  open b use {
    PyAny, XPrv, PrivateKey, derive_path, derive_child, child_number, private_key,
    build_derivate_path,
  }

  pub record PyPrivateKeyGenerator : Type 0 where
    pub receive_xprv : XPrv
    pub change_xprv : XPrv

  unfoldable pub new : PyAny → Bool → ℕ → Option ℕ → PyResult PyPrivateKeyGenerator
  new arg is_multisig account_index cosigner_index = do
    xprv ← xprv_argument b arg
    receive_path ←
        map_err exception
          (build_derivate_path is_multisig account_index cosigner_index (some receive))
    receive_xprv ← map_err exception (derive_path xprv receive_path)
    change_path ←
        map_err exception
          (build_derivate_path is_multisig account_index cosigner_index (some change))
    change_xprv ← map_err exception (derive_path xprv change_path)
    ok (record { receive_xprv = receive_xprv; change_xprv = change_xprv })

  unfoldable pub receive_key : PyPrivateKeyGenerator → ℕ → PyResult PrivateKey
  receive_key g index = do
    child ← map_err exception (child_number index false)
    xkey ← map_err exception (derive_child g.receive_xprv child)
    ok (private_key xkey)

  unfoldable pub change_key : PyPrivateKeyGenerator → ℕ → PyResult PrivateKey
  change_key g index = do
    child ← map_err exception (child_number index false)
    xkey ← map_err exception (derive_child g.change_xprv child)
    ok (private_key xkey)
