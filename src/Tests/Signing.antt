-- ===== src/Tests/Signing.antt =====
-- Signatures over numbers: a transaction is the keys that signed it, and key 9 signs nothing valid.
use kaspa_python_sdk.Prelude.{
  ℕ, ◌≡◌, refl, ◌↔◌, ◌⊎◌, true, false, none, some, List, [], ◌∷◌, ◌++◌, length, ok, err, raised,
  if◌then◌else◌, String, leb, zero, suc,
}
use kaspa_python_sdk.Signing.Backend.{Crypto}
use kaspa_python_sdk.Signing.Signer.{py_sign_transaction, py_sign_message, sign_hash}
use kaspa_python_sdk.Signing.Pending.{create_input_signature, sign_input, sign}
use kaspa_python_sdk.Signing.Outcomes.{
  AreKeys, no_keys, more_keys, Verifies, pushed, py_sign_transaction-Verifies, sign_hash-pushed,
}
use kaspa_python_sdk.Signing.Secrets.{IsErasedIfOk, signing-IsErasedIfOk}

abbrev copies : ℕ → List ℕ
copies zero = []
copies (suc n) = 7 ∷ copies n

-- Objects up to 9 are private keys, each its own secret byte.
abbrev crypto : Crypto
crypto = record {
  PyAny = ℕ;
  PyPrivateKey = ℕ;
  PyPublicKey = ℕ;
  extract_key = λ item. if leb item 9 then ok item else err (raised "TypeError");
  secret_bytes = λ key. key ∷ [];
  Error = String;
  display = λ e. e;
  unable_to_sign = λ e. e;
  Transaction = List (List ℕ);
  PopulatedTransaction = List (List ℕ);
  SighashType = Unit {0};
  all = tt;
  sign_with_multiple_v3 = λ tx keys. (tx ++ keys, ok tt);
  tx_and_utxos = λ tx. ok tx;
  verify = λ tx. elim tx [ [] ↦ err "unsigned" | _ ∷ _ ↦ ok tt ];
  sign_input = λ _ _ _ _. copies 64;
  Hash = ℕ;
  try_from = λ _. ok 0;
  as_bytes = λ _. copies 32;
  Message = List ℕ;
  from_digest_slice = λ bytes. ok bytes;
  Keypair = List ℕ;
  from_seckey_slice = λ bytes. ok bytes;
  sign_schnorr = λ _ _. copies 64;
  sig_hash_all = 1;
  to_hex = λ _. "";
  sign_message = λ _ _ _. ok (copies 64);
  hex_decode = λ _ n. ok (copies n);
  verify_message = λ _ _ _. ok tt;
  PendingTransaction = List (List ℕ);
  create_input_signature = λ _ _ _ _. ok (copies 64);
  pending_fill_input = λ p _ script. (p ++ script ∷ [], ok tt);
  pending_sign_input = λ p _ key _. (p ++ key ∷ [], ok tt);
  try_sign_with_keys = λ p keys _. (p ++ keys, err "not fully signed");
}

abbrev two_keys : List (List ℕ)
two_keys = (3 ∷ []) ∷ (4 ∷ []) ∷ []

two_keys-AreKeys : AreKeys crypto (3 ∷ 4 ∷ []) two_keys
two_keys-AreKeys = more_keys {key = 3} refl (more_keys {key = 4} refl no_keys)

py_sign_transaction-Verifies_example :
    ((py_sign_transaction crypto [] (3 ∷ 4 ∷ []) true).1.result ≡ ok two_keys) ↔ (
      (keys : List (List ℕ)) × AreKeys crypto (3 ∷ 4 ∷ []) keys
      × (crypto.sign_with_multiple_v3 [] keys ≡ (two_keys, ok tt))
      × ((true ≡ false) ⊎ Verifies crypto two_keys))
py_sign_transaction-Verifies_example =
    py_sign_transaction-Verifies crypto [] (3 ∷ 4 ∷ []) true two_keys

sign_hash-pushed_example :
    (script : List ℕ) × (sign_hash crypto 0 (5 ∷ []) ≡ ok script)
    × (pushed script ≡ some (copies 64 ++ 1 ∷ []))
    × (length script ≡ 66)
sign_hash-pushed_example =
    sign_hash-pushed crypto (λ keypair msg. refl) 0 (5 ∷ []) (5 ∷ []) (copies 32) refl refl

signing-IsErasedIfOk_example :
    IsErasedIfOk crypto two_keys (py_sign_transaction crypto [] (3 ∷ 4 ∷ []) true).1
    × IsErasedIfOk crypto two_keys (sign crypto [] (3 ∷ 4 ∷ []) (some true)).1
    × IsErasedIfOk crypto ((5 ∷ []) ∷ []) (sign_input crypto [] 0 5 none).1
    × IsErasedIfOk crypto ((5 ∷ []) ∷ []) (create_input_signature crypto [] 0 5 none)
    × IsErasedIfOk crypto ((5 ∷ []) ∷ []) (py_sign_message crypto "text" 5 false)
signing-IsErasedIfOk_example =
    signing-IsErasedIfOk crypto [] [] (3 ∷ 4 ∷ []) two_keys true (some true) 0 5 none "text" false
      two_keys-AreKeys
