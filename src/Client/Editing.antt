-- ===== src/Client/Editing.antt =====
-- Calls of the methods that change a transaction.
use kaspa_python_sdk.Prelude.{
  ℕ, ◌≡◌, refl, ap, ◌∙◌, String, Bool, true, false, Option, none, some, List, [], ◌∷◌, ◌++◌, map,
  ok, err, ok_value, unwrap_or, Option-cases, Bool-cases, count_if, arith, Result-cases, inl, inr,
  PyResult,
}
use kaspa_python_sdk.Convert.Backend.{Backend}
use kaspa_python_sdk.Convert.ToDict.{TransactionInput, TransactionOutput, Transaction}
use kaspa_python_sdk.Client.Transaction.{Consensus}
use kaspa_python_sdk.Client.Transaction

pub data Call (b : Backend) : Type 0 where
  finalize : Call b
  set_inputs : List (TransactionInput b) → Call b
  set_outputs : List (TransactionOutput b) → Call b
  set_version set_lock_time set_gas set_mass : ℕ → Call b
  set_subnetwork_id : String → Call b
  set_payload : List ℕ → Call b

-- the last value of a list that is there
abbrev pub last_some {ℓ} : {A : Type ℓ} → List (Option A) → Option A
last_some [] = none
last_some (x ∷ xs) = elim (last_some xs) [ some a ↦ some a | none ↦ x ]

module _ (b : Backend) (c : Consensus b) where
  pub step : Call b → Transaction b → Transaction b
  step finalize tx = (Transaction.finalize b c tx).0
  step (set_inputs value) tx = Transaction.set_inputs b c tx value
  step (set_outputs value) tx = Transaction.set_outputs b c tx value
  step (set_version value) tx = Transaction.set_version b c tx value
  step (set_lock_time value) tx = Transaction.set_lock_time b c tx value
  step (set_gas value) tx = Transaction.set_gas b c tx value
  step (set_mass value) tx = Transaction.set_mass b c tx value
  step (set_subnetwork_id value) tx = (Transaction.set_subnetwork_id b c tx value).0
  step (set_payload value) tx = Transaction.set_payload b c tx value

  unfoldable pub run : List (Call b) → Transaction b → Transaction b
  run [] tx = tx
  run (call ∷ calls) tx = run calls (step call tx)

  -- what a call sets a field to
  abbrev pub sets_inputs : Call b → Option (List (TransactionInput b))
  sets_inputs (set_inputs value) = some value
  sets_inputs _ = none

  abbrev pub sets_outputs : Call b → Option (List (TransactionOutput b))
  sets_outputs (set_outputs value) = some value
  sets_outputs _ = none

  abbrev pub sets_version : Call b → Option ℕ
  sets_version (set_version value) = some value
  sets_version _ = none

  abbrev pub sets_lock_time : Call b → Option ℕ
  sets_lock_time (set_lock_time value) = some value
  sets_lock_time _ = none

  abbrev pub sets_gas : Call b → Option ℕ
  sets_gas (set_gas value) = some value
  sets_gas _ = none

  abbrev pub sets_mass : Call b → Option ℕ
  sets_mass (set_mass value) = some value
  sets_mass _ = none

  abbrev pub sets_subnetwork_id : Call b → Option b.SubnetworkId
  sets_subnetwork_id (set_subnetwork_id value) = ok_value (Transaction.subnetwork_of b c value)
  sets_subnetwork_id _ = none

  abbrev pub sets_payload : Call b → Option (List ℕ)
  sets_payload (set_payload value) = some value
  sets_payload _ = none

  -- A field that each call sets as `sets` says is at the end what the last call set it to.
  run-last {ℓ} :
      {A : Type ℓ} (field : Transaction b → A) (sets : Call b → Option A)
      (sets_field : (call : Call b) (tx : Transaction b)
        → field (step call tx) ≡ unwrap_or (field tx) (sets call))
      (calls : List (Call b)) (tx : Transaction b)
      → field (run calls tx) ≡ unwrap_or (field tx) (last_some (map sets calls))
  unfolding run
  run-last field sets sets_field [] tx = refl
  run-last field sets sets_field (call ∷ calls) tx =
      elim (Option-cases (last_some (map sets calls))) [
        | inl e ↦ run-last field sets sets_field calls (step call tx) ∙ rw e (sets_field call tx)
        | inr (a, e) ↦ run-last field sets sets_field calls (step call tx) ∙ rw e refl
      ]

  -- the fields after a call, but the id
  abbrev StepFields : Call b → Transaction b → Type 0
  StepFields call tx =
      ((step call tx).inputs ≡ unwrap_or tx.inputs (sets_inputs call))
      × ((step call tx).outputs ≡ unwrap_or tx.outputs (sets_outputs call))
      × ((step call tx).version ≡ unwrap_or tx.version (sets_version call))
      × ((step call tx).lock_time ≡ unwrap_or tx.lock_time (sets_lock_time call))
      × ((step call tx).gas ≡ unwrap_or tx.gas (sets_gas call))
      × ((step call tx).mass ≡ unwrap_or tx.mass (sets_mass call))
      × ((step call tx).subnetwork_id ≡ unwrap_or tx.subnetwork_id (sets_subnetwork_id call))
      × ((step call tx).payload ≡ unwrap_or tx.payload (sets_payload call))

  -- the fields after a subnetwork id that was parsed or refused
  refused_or_set :
      (tx : Transaction b) (parsed : PyResult b.SubnetworkId)
      → let after = (Transaction.with_subnetwork_id b c tx parsed).0 in
        (after.inputs ≡ tx.inputs)
        × (after.outputs ≡ tx.outputs)
        × (after.version ≡ tx.version)
        × (after.lock_time ≡ tx.lock_time)
        × (after.gas ≡ tx.gas)
        × (after.mass ≡ tx.mass)
        × (after.subnetwork_id ≡ unwrap_or tx.subnetwork_id (ok_value parsed))
        × (after.payload ≡ tx.payload)
  refused_or_set tx (ok _) = (refl, refl, refl, refl, refl, refl, refl, refl)
  refused_or_set tx (err _) = (refl, refl, refl, refl, refl, refl, refl, refl)

  step-fields : (call : Call b) (tx : Transaction b) → StepFields call tx
  unfolding step Transaction.finalize Transaction.set_inputs Transaction.set_outputs
      Transaction.set_version Transaction.set_lock_time Transaction.set_gas Transaction.set_mass
      Transaction.set_subnetwork_id Transaction.set_payload
  step-fields finalize tx = (refl, refl, refl, refl, refl, refl, refl, refl)
  step-fields (set_inputs value) tx = (refl, refl, refl, refl, refl, refl, refl, refl)
  step-fields (set_outputs value) tx = (refl, refl, refl, refl, refl, refl, refl, refl)
  step-fields (set_version value) tx = (refl, refl, refl, refl, refl, refl, refl, refl)
  step-fields (set_lock_time value) tx = (refl, refl, refl, refl, refl, refl, refl, refl)
  step-fields (set_gas value) tx = (refl, refl, refl, refl, refl, refl, refl, refl)
  step-fields (set_mass value) tx = (refl, refl, refl, refl, refl, refl, refl, refl)
  step-fields (set_payload value) tx = (refl, refl, refl, refl, refl, refl, refl, refl)
  step-fields (set_subnetwork_id value) tx = refused_or_set tx (Transaction.subnetwork_of b c value)

  -- After any calls of the methods that change a transaction, what it has of each property is what the
  -- last call of its setter gave it, or as at the start if there was none; a subnetwork id that is
  -- refused changes nothing, and neither does `finalize`.
  pub run-getters :
      (calls : List (Call b)) (tx : Transaction b)
      → (Transaction.get_inputs b c (run calls tx)
          ≡ ok (unwrap_or tx.inputs (last_some (map sets_inputs calls))))
        × (Transaction.get_outputs b c (run calls tx)
            ≡ ok (unwrap_or tx.outputs (last_some (map sets_outputs calls))))
        × (Transaction.get_version b c (run calls tx)
            ≡ unwrap_or tx.version (last_some (map sets_version calls)))
        × (Transaction.get_lock_time b c (run calls tx)
            ≡ unwrap_or tx.lock_time (last_some (map sets_lock_time calls)))
        × (Transaction.get_gas b c (run calls tx)
            ≡ unwrap_or tx.gas (last_some (map sets_gas calls)))
        × (Transaction.get_mass b c (run calls tx)
            ≡ unwrap_or tx.mass (last_some (map sets_mass calls)))
        × (Transaction.get_subnetwork b c (run calls tx)
            ≡ b.subnetwork_to_hex
                (unwrap_or tx.subnetwork_id (last_some (map sets_subnetwork_id calls))))
        × (Transaction.get_payload b c (run calls tx)
            ≡ b.to_hex (unwrap_or tx.payload (last_some (map sets_payload calls))))
  unfolding Transaction.get_inputs Transaction.get_outputs Transaction.get_version
      Transaction.get_lock_time Transaction.get_gas Transaction.get_mass Transaction.get_subnetwork
      Transaction.get_payload
  run-getters calls tx = (
    ap ok (run-last (λ t. t.inputs) sets_inputs (λ a t. (step-fields a t).0) calls tx),
    ap ok (run-last (λ t. t.outputs) sets_outputs (λ a t. (step-fields a t).1) calls tx),
    run-last (λ t. t.version) sets_version (λ a t. (step-fields a t).2) calls tx,
    run-last (λ t. t.lock_time) sets_lock_time (λ a t. (step-fields a t).3) calls tx,
    run-last (λ t. t.gas) sets_gas (λ a t. (step-fields a t).4) calls tx,
    run-last (λ t. t.mass) sets_mass (λ a t. (step-fields a t).5) calls tx,
    ap b.subnetwork_to_hex
        (run-last (λ t. t.subnetwork_id) sets_subnetwork_id (λ a t. (step-fields a t).6) calls tx),
    ap b.to_hex (run-last (λ t. t.payload) sets_payload (λ a t. (step-fields a t).7) calls tx),
  )

  run-append :
      (before after : List (Call b)) (tx : Transaction b)
      → run (before ++ after) tx ≡ run after (run before tx)
  unfolding run
  run-append [] after tx = refl
  run-append (call ∷ before) after tx = run-append before after (step call tx)

  abbrev pub is_finalize : Call b → Bool
  is_finalize finalize = true
  is_finalize _ = false

  step-id :
      (call : Call b) (tx : Transaction b) → is_finalize call ≡ false → (step call tx).id ≡ tx.id
  unfolding step Transaction.set_inputs Transaction.set_outputs Transaction.set_version
      Transaction.set_lock_time Transaction.set_gas Transaction.set_mass
      Transaction.set_subnetwork_id Transaction.set_payload
  step-id finalize tx h = absurd (ground (arith, h))
  step-id (set_inputs value) tx h = refl
  step-id (set_outputs value) tx h = refl
  step-id (set_version value) tx h = refl
  step-id (set_lock_time value) tx h = refl
  step-id (set_gas value) tx h = refl
  step-id (set_mass value) tx h = refl
  step-id (set_payload value) tx h = refl
  step-id (set_subnetwork_id value) tx h =
      elim (Result-cases (Transaction.subnetwork_of b c value)) [
        | inl (subnetwork_id, e) ↦ rw (step, Transaction.set_subnetwork_id, e) refl
        | inr (x, e) ↦ rw (step, Transaction.set_subnetwork_id, e) refl
      ]

  run-id :
      (calls : List (Call b)) (tx : Transaction b)
      → count_if is_finalize calls ≡ 0
      → (run calls tx).id ≡ tx.id
  unfolding run
  run-id [] tx h = refl
  run-id (call ∷ calls) tx h = elim (Bool-cases (is_finalize call)) [
    | inl e ↦ absurd (ground (arith, h, e))
    | inr e ↦ run-id calls (step call tx) (rw e at h) ∙ step-id call tx e
  ]

  -- Where no call after it is one of `finalize`, a call of `finalize` returns the id of the transaction
  -- as it then was, and this stays the id of the transaction, whatever the setters after it change.
  pub get_id-finalize :
      (before after : List (Call b)) (tx : Transaction b)
      → count_if is_finalize after ≡ 0
      → ((Transaction.finalize b c (run before tx)).1 ≡ ok (c.tx_id (run before tx)))
        × (Transaction.get_id b c (run (before ++ finalize ∷ after) tx)
            ≡ b.hash_to_hex (c.tx_id (run before tx)))
  unfolding run step Transaction.finalize Transaction.get_id
  get_id-finalize before after tx h = (
    refl,
    ap (λ t. b.hash_to_hex t.id) (run-append before (finalize ∷ after) tx)
        ∙ ap b.hash_to_hex (run-id after (step finalize (run before tx)) h),
  )
