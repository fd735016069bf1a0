-- ===== src/Signing/Pending.antt =====
-- The signing methods of `PendingTransaction` (src/wallet/core/tx/generator/pending.rs). Each returns
-- the pending transaction as it is left.
use kaspa_python_sdk.Prelude.{
  ℕ, String, Bool, Option, List, [], ◌∷◌, ok, err, PyResult, map_err, map_ok, exception, unwrap_or,
}
use kaspa_python_sdk.Signing.Backend.{Crypto, Signed}
use kaspa_python_sdk.Signing.Signer.{push_keys, zeroized}

module _ (c : Crypto) where
  open c use {PyAny, PyPrivateKey, PendingTransaction, SighashType}

  unfoldable pub create_input_signature :
      PendingTransaction → ℕ → PyPrivateKey → Option SighashType → Signed String
  create_input_signature pending input_index private_key sighash_type =
      let key_bytes = c.secret_bytes private_key in
      zeroized c (key_bytes ∷ []) (
        map_ok c.to_hex (
          map_err (λ e. exception (c.display e))
            (c.create_input_signature pending input_index key_bytes
              (unwrap_or c.all sighash_type))))

  unfoldable pub fill_input :
      PendingTransaction → ℕ → List ℕ → PendingTransaction × PyResult (Unit {0})
  fill_input pending input_index signature_script =
      let (filled, done) = c.pending_fill_input pending input_index signature_script in
      (filled, map_err (λ e. exception (c.display e)) done)

  unfoldable pub sign_input :
      PendingTransaction
      → ℕ
      → PyPrivateKey
      → Option SighashType
      → PendingTransaction × Signed (Unit {0})
  sign_input pending input_index private_key sighash_type =
      let key_bytes = c.secret_bytes private_key in
      let (signed, done) =
        c.pending_sign_input pending input_index key_bytes (unwrap_or c.all sighash_type) in
      (signed, zeroized c (key_bytes ∷ []) (map_err (λ e. exception (c.display e)) done))

  unfoldable pub sign :
      PendingTransaction → List PyAny → Option Bool → PendingTransaction × Signed (Unit {0})
  sign pending private_keys check_fully_signed =
      let (extracted, keys) = push_keys c private_keys [] in
      elim extracted [
        | err e ↦ (pending, record { result = err e; left = keys })
        | ok _ ↦
            let (signed, done) = c.try_sign_with_keys pending keys check_fully_signed in
            (signed, zeroized c keys (map_err (λ e. exception (c.display e)) done))
      ]
