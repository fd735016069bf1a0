-- ===== src/Signing/Secrets.antt =====
-- What is left of the secret bytes when a signing function returns.
use kaspa_python_sdk.Prelude.{
  ℕ, String, ◌≡◌, refl, Bool, Option, List, [], ◌∷◌, map, ok, err, PyResult, is_ok, if◌then◌else◌,
}
use kaspa_python_sdk.Signing.Backend.{Crypto, zeroize, Signed}
use kaspa_python_sdk.Signing.Signer.{zeroized, py_sign_transaction, py_sign_message}
use kaspa_python_sdk.Signing.Pending.{create_input_signature, sign_input, sign}
use kaspa_python_sdk.Signing.Outcomes.{AreKeys, push_keys-AreKeys}

module _ (c : Crypto) where
  -- of these secret bytes zeros are left if the function succeeds, and otherwise all of them
  abbrev pub IsErasedIfOk : {A : Type 0} → List (List ℕ) → Signed A → Type 0
  IsErasedIfOk secrets signed =
      signed.left ≡ (if is_ok signed.result then map zeroize secrets else secrets)

  zeroized-IsErasedIfOk :
      {A : Type 0} (secrets : List (List ℕ)) (done : PyResult A)
      → IsErasedIfOk secrets (zeroized c secrets done)
  unfolding zeroized
  zeroized-IsErasedIfOk secrets (ok value) = refl
  zeroized-IsErasedIfOk secrets (err e) = refl

  -- Where every item is a private key, signing a transaction, a pending transaction, an input or a
  -- message leaves zeros of the secret bytes if it succeeds; if it fails, it leaves all of them as
  -- they are.
  pub signing-IsErasedIfOk :
      (tx : c.Transaction) (pending : c.PendingTransaction) (items : List c.PyAny)
      (keys : List (List ℕ)) (verify_sig : Bool) (check_fully_signed : Option Bool)
      (input_index : ℕ) (key : c.PyPrivateKey) (sighash_type : Option c.SighashType)
      (message : String) (no_aux_rand : Bool)
      → AreKeys c items keys
      → IsErasedIfOk keys (py_sign_transaction c tx items verify_sig).1
        × IsErasedIfOk keys (sign c pending items check_fully_signed).1
        × IsErasedIfOk
            (c.secret_bytes key ∷ [])
            (sign_input c pending input_index key sighash_type).1
        × IsErasedIfOk
            (c.secret_bytes key ∷ [])
            (create_input_signature c pending input_index key sighash_type)
        × IsErasedIfOk (c.secret_bytes key ∷ []) (py_sign_message c message key no_aux_rand)
  unfolding py_sign_transaction sign sign_input create_input_signature py_sign_message
  signing-IsErasedIfOk tx pending items keys verify_sig check_fully_signed input_index key
        sighash_type message no_aux_rand are_keys =
      let e = push_keys-AreKeys c are_keys [] in
      (
        rw (e, py_sign_transaction, e) (zeroized-IsErasedIfOk keys _),
        rw (e, sign, e) (zeroized-IsErasedIfOk keys _),
        zeroized-IsErasedIfOk (c.secret_bytes key ∷ []) _,
        zeroized-IsErasedIfOk (c.secret_bytes key ∷ []) _,
        zeroized-IsErasedIfOk (c.secret_bytes key ∷ []) _,
      )
