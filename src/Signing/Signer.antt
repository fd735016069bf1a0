-- ===== src/Signing/Signer.antt =====
-- The functions of src/wallet/core/tx/signer.rs and src/wallet/core/message.rs.
use kaspa_python_sdk.Prelude.{
  ℕ, String, Bool, Option, List, [], ◌∷◌, ◌++◌, map, Result, ok, err, PyResult, exception, map_err,
  map_ok, unwrap_or, is_ok, if◌then◌else◌, ◌>>=◌,
}
use kaspa_python_sdk.Signing.Backend.{Crypto, zeroize, Signed}

module _ (c : Crypto) where
  open c use {PyAny, PyPrivateKey, Transaction, Error}

  -- `for item in signer.iter() { keys.push(item.extract()?.secret_bytes()) }`, with the buffer
  -- that it fills
  unfoldable pub push_keys : List PyAny → List (List ℕ) → PyResult (Unit {0}) × List (List ℕ)
  push_keys [] keys = (ok tt, keys)
  push_keys (item ∷ items) keys = elim (c.extract_key item) [
    | err e ↦ (err e, keys)
    | ok key ↦ push_keys items (keys ++ c.secret_bytes key ∷ [])
  ]

  unfoldable pub verified : Bool → Transaction → Result Error (Unit {0})
  verified verify_sig tx =
      if verify_sig then (c.tx_and_utxos tx >>= λ populated. c.verify populated) else ok tt

  unfoldable pub sign_transaction :
      Transaction → List (List ℕ) → Bool → Transaction × Result Error (Unit {0})
  sign_transaction tx private_keys verify_sig =
      let (signed, done) = c.sign_with_multiple_v3 tx private_keys in
      (signed, done >>= λ _. verified verify_sig signed)

  -- `.map_err(..)?; keys.zeroize(); Ok(..)`
  unfoldable pub zeroized : {A : Type 0} → List (List ℕ) → PyResult A → Signed A
  zeroized keys (ok value) = record { result = ok value; left = map zeroize keys }
  zeroized keys (err e) = record { result = err e; left = keys }

  -- The transaction is shared with the object that Python passes: it is returned as it is left.
  unfoldable pub py_sign_transaction :
      Transaction → List PyAny → Bool → Transaction × Signed Transaction
  py_sign_transaction tx signer verify_sig =
      let (extracted, private_keys) = push_keys signer [] in
      elim extracted [
        | err e ↦ (tx, record { result = err e; left = private_keys })
        | ok _ ↦
            let (signed, done) = sign_transaction tx private_keys verify_sig in
            (
              signed,
              zeroized private_keys
                  (map_ok (λ _. signed) (map_err (λ e. exception (c.unable_to_sign e)) done)),
            )
      ]

  unfoldable pub py_create_input_signature :
      Transaction → ℕ → PyPrivateKey → Option c.SighashType → Signed String
  py_create_input_signature tx input_index private_key sighash_type = elim (c.tx_and_utxos tx) [
    | err e ↦ record { result = err (exception (c.display e)); left = [] }
    | ok populated ↦
        let key_bytes = c.secret_bytes private_key in
        let signature =
          c.sign_input populated input_index key_bytes (unwrap_or c.all sighash_type) in
        record { result = ok (c.to_hex signature); left = zeroize key_bytes ∷ [] }
  ]

  -- 65, the signature and the type of the signature hash
  unfoldable pub sign_hash : c.Hash → List ℕ → Result Error (List ℕ)
  sign_hash sig_hash privkey = do
    msg ← c.from_digest_slice (c.as_bytes sig_hash)
    schnorr_key ← c.from_seckey_slice privkey
    ok (65 ∷ c.sign_schnorr schnorr_key msg ++ c.sig_hash_all ∷ [])

  unfoldable pub py_sign_script_hash : String → PyPrivateKey → Signed String
  py_sign_script_hash script_hash privkey = elim (c.try_from script_hash) [
    | err e ↦ record { result = err e; left = [] }
    | ok hash ↦
        let key_bytes = c.secret_bytes privkey in
        zeroized (key_bytes ∷ [])
          (map_ok c.to_hex (map_err (λ e. exception (c.display e)) (sign_hash hash key_bytes)))
  ]

  unfoldable pub py_sign_message : String → PyPrivateKey → Bool → Signed String
  py_sign_message message private_key no_aux_rand =
      let privkey_bytes = c.secret_bytes private_key in
      zeroized (privkey_bytes ∷ []) (
        map_ok c.to_hex (
          map_err (λ e. exception (c.display e))
            (c.sign_message message privkey_bytes no_aux_rand)))

  unfoldable pub py_verify_message : String → String → c.PyPublicKey → PyResult Bool
  py_verify_message message signature public_key = do
    signature_bytes ← map_err (λ e. exception (c.display e)) (c.hex_decode signature 64)
    ok (is_ok (c.verify_message message signature_bytes public_key))
