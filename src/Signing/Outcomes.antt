-- ===== src/Signing/Outcomes.antt =====
-- When `sign_transaction` succeeds, and the script that `sign_script_hash` makes.
use kaspa_python_sdk.Prelude.{
  ℕ, ◌+◌, ◌≡◌, refl, sym, ap, ◌∙◌, ◌↔◌, ◌⊎◌, inl, inr, Bool, true, false, Option, none, some, List,
  [], ◌∷◌, ◌++◌, length, length-append, leb, ◌&&◌, append-nil, append_assoc, Result, ok, err,
  PyResult, map_ok, map_err, exception, Result-cases, ◌>>=◌, >>=-eq-ok, if◌then◌else◌, nat_beq,
  arith,
}
use kaspa_python_sdk.Signing.Backend.{Crypto}
use kaspa_python_sdk.Signing.Signer.{
  push_keys, verified, sign_transaction, zeroized, py_sign_transaction, sign_hash,
}

-- The data that a script pushes which is one item of up to 75 bytes, behind their number.
unfoldable pub pushed : List ℕ → Option (List ℕ)
pushed [] = none
pushed (n ∷ bytes) = if leb n 75 && nat_beq n (length bytes) then some bytes else none

module _ (c : Crypto) where
  open c use {PyAny, Transaction, Error}

  -- the items are private keys, with these secret bytes
  pub data AreKeys : List PyAny → List (List ℕ) → Type 0 where
    no_keys : AreKeys [] []
    more_keys :
        {item : PyAny} {key : c.PyPrivateKey} {items : List PyAny} {keys : List (List ℕ)}
        → c.extract_key item ≡ ok key
        → AreKeys items keys
        → AreKeys (item ∷ items) (c.secret_bytes key ∷ keys)

  -- the transaction has its entries, and every signature of it is valid
  abbrev pub Verifies : Transaction → Type 0
  Verifies tx =
      (populated : c.PopulatedTransaction) × (c.tx_and_utxos tx ≡ ok populated)
      × (c.verify populated ≡ ok tt)

  pub push_keys-AreKeys :
      {items : List PyAny} {keys : List (List ℕ)}
      → AreKeys items keys
      → (before : List (List ℕ)) → push_keys c items before ≡ (ok tt, before ++ keys)
  unfolding push_keys
  push_keys-AreKeys no_keys before = ap (λ keys. (ok tt, keys)) (sym (append-nil before))
  push_keys-AreKeys (more_keys {key = key} {keys = keys} e rest) before =
      rw (e, push_keys)
        (push_keys-AreKeys rest (before ++ c.secret_bytes key ∷ [])
          ∙ ap (λ all. (ok tt, all)) (append_assoc before (c.secret_bytes key ∷ []) keys))

  AreKeys-push_keys :
      (items : List PyAny) (before : List (List ℕ))
      → (push_keys c items before).0 ≡ ok tt
      → (keys : List (List ℕ)) × AreKeys items keys
  unfolding push_keys
  AreKeys-push_keys [] before = λ _. ([], no_keys)
  AreKeys-push_keys (item ∷ items) before = elim (Result-cases (c.extract_key item)) [
    | inl (key, e) ↦
        rw (e, push_keys)
          (λ h.
            let (keys, rest) = AreKeys-push_keys items (before ++ c.secret_bytes key ∷ []) h in
            (c.secret_bytes key ∷ keys, more_keys e rest))
    | inr (error, e) ↦ rw (e, push_keys) (λ h. absurd (ground (arith, h)))
  ]

  verified-Verifies :
      (verify_sig : Bool) (tx : Transaction)
      → (verified c verify_sig tx ≡ ok tt) ↔ ((verify_sig ≡ false) ⊎ Verifies tx)
  unfolding verified
  verified-Verifies false tx = (λ _. inl refl, λ _. refl)
  verified-Verifies true tx = (
    λ h. inr (>>=-eq-ok (c.tx_and_utxos tx) _ h),
    λ v. elim v [
      | inl e ↦ absurd (ground (arith, e))
      | inr (populated, e, valid) ↦ rw (e, valid) refl
    ],
  )

  abbrev outcome : Transaction × Result Error (Unit {0}) → Bool → PyResult Transaction
  outcome (signed, done) verify_sig =
      map_ok (λ _. signed)
        (map_err (λ e. exception (c.unable_to_sign e)) (done >>= λ _. verified c verify_sig signed))

  outcome-verified :
      (signed : Transaction) (verify_sig : Bool)
      → (done : Result Error (Unit {0})) → verified c verify_sig signed ≡ done
      → (t : Transaction)
      → (outcome (signed, ok tt) verify_sig ≡ ok t) ↔ ((signed ≡ t) × (done ≡ ok tt))
  outcome-verified signed verify_sig (ok _) e t =
      rw e (λ h. (ground (arith, h), refl), λ (same, _). ap ok same)
  outcome-verified signed verify_sig (err error) e t =
      rw e (λ h. absurd (ground (arith, h)), λ (_, h). absurd (ground (arith, h)))

  outcome-Verifies :
      (done : Transaction × Result Error (Unit {0})) (verify_sig : Bool) (t : Transaction)
      → (outcome done verify_sig ≡ ok t)
        ↔ ((done ≡ (t, ok tt)) × ((verify_sig ≡ false) ⊎ Verifies t))
  outcome-Verifies (signed, ok _) verify_sig t =
      let (onto, back) = outcome-verified signed verify_sig (verified c verify_sig signed) refl t in
      (
        λ h.
            let (same, valid) = onto h in
            (
              ap (λ x. (x, ok tt)) same,
              (verified-Verifies verify_sig t).0 (ap (verified c verify_sig) (sym same) ∙ valid),
            ),
        λ (e, valid).
            let same = ap (λ x. x.0) e in
            back (same, ap (verified c verify_sig) same ∙ (verified-Verifies verify_sig t).1 valid),
      )
  outcome-Verifies (signed, err error) verify_sig t =
      (λ h. absurd (ground (arith, h)), λ (h, _). absurd (ground (arith, ap (λ x. x.1) h)))

  zeroized-result :
      {A : Type 0} (keys : List (List ℕ)) (done : PyResult A) → (zeroized c keys done).result ≡ done
  unfolding zeroized
  zeroized-result keys (ok value) = refl
  zeroized-result keys (err e) = refl

  result_of_keys :
      (tx : Transaction) (signer : List PyAny) (verify_sig : Bool) (keys : List (List ℕ))
      → push_keys c signer [] ≡ (ok tt, keys)
      → (py_sign_transaction c tx signer verify_sig).1.result
        ≡ outcome (c.sign_with_multiple_v3 tx keys) verify_sig
  unfolding py_sign_transaction sign_transaction
  result_of_keys tx signer verify_sig keys e =
      rw (e, py_sign_transaction, e) (zeroized-result keys _)

  extracted :
      (tx : Transaction) (signer : List PyAny) (verify_sig : Bool) (t : Transaction)
      → (py_sign_transaction c tx signer verify_sig).1.result ≡ ok t
      → (push_keys c signer []).0 ≡ ok tt
  unfolding py_sign_transaction
  extracted tx signer verify_sig t = elim (Result-cases (push_keys c signer []).0) [
    | inl (_, e) ↦ λ _. e
    | inr (error, e) ↦ rw (e, py_sign_transaction) (λ h. absurd (ground (arith, h)))
  ]

  -- `sign_transaction` succeeds exactly if every item of the list is a private key, the keys sign
  -- the transaction, and, where this is asked for, the signed transaction verifies; it then returns
  -- the signed transaction.
  pub py_sign_transaction-Verifies :
      (tx : Transaction) (signer : List PyAny) (verify_sig : Bool) (t : Transaction)
      → ((py_sign_transaction c tx signer verify_sig).1.result ≡ ok t) ↔ (
          (keys : List (List ℕ)) × AreKeys signer keys
          × (c.sign_with_multiple_v3 tx keys ≡ (t, ok tt))
          × ((verify_sig ≡ false) ⊎ Verifies t))
  py_sign_transaction-Verifies tx signer verify_sig t = (
    λ h.
        let (keys, are_keys) = AreKeys-push_keys signer [] (extracted tx signer verify_sig t h) in
        let at = result_of_keys tx signer verify_sig keys (push_keys-AreKeys are_keys []) in
        let (signs, valid) =
          (outcome-Verifies (c.sign_with_multiple_v3 tx keys) verify_sig t).0 (sym at ∙ h) in
        (keys, are_keys, signs, valid),
    λ (keys, are_keys, signs, valid).
        result_of_keys tx signer verify_sig keys (push_keys-AreKeys are_keys [])
        ∙ (outcome-Verifies (c.sign_with_multiple_v3 tx keys) verify_sig t).1 (signs, valid),
  )

  -- If a Schnorr signature has 64 bytes, the digest is one of a message and the secret bytes make a
  -- key pair, the script that `sign_hash` makes is one push of exactly the signature and the type of
  -- the signature hash, 66 bytes in all.
  pub sign_hash-pushed :
      ((keypair : c.Keypair) (msg : c.Message) → length (c.sign_schnorr keypair msg) ≡ 64)
      → (sig_hash : c.Hash) (privkey : List ℕ) (keypair : c.Keypair) (msg : c.Message)
      → c.from_digest_slice (c.as_bytes sig_hash) ≡ ok msg
      → c.from_seckey_slice privkey ≡ ok keypair
      → (script : List ℕ) × (sign_hash c sig_hash privkey ≡ ok script)
        × (pushed script ≡ some (c.sign_schnorr keypair msg ++ c.sig_hash_all ∷ []))
        × (length script ≡ 66)
  unfolding sign_hash pushed
  sign_hash-pushed law sig_hash privkey keypair msg d k =
      let size = length-append (c.sign_schnorr keypair msg) (c.sig_hash_all ∷ []) in
      let total = size ∙ ap (λ n. n + 1) (law keypair msg) in
      (
        65 ∷ c.sign_schnorr keypair msg ++ c.sig_hash_all ∷ [],
        rw (d, k) refl,
        rw total refl,
        omega (arith, total),
      )
