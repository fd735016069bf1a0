-- ===== src/Client/Transaction.antt =====
-- `PyTransaction` of src/consensus/client/transaction.rs: its state is the record inside the native
-- transaction, and a method that changes it returns the new one.
use kaspa_python_sdk.Prelude.{
  ℕ, String, Bool, none, List, Result, ok, err, PyResult, exception, map_err, ◌>>=◌, PartialEq,
}
use kaspa_python_sdk.Convert.Backend.{Backend}
use kaspa_python_sdk.Convert.ToDict.{TransactionInput, TransactionOutput, Transaction}
use kaspa_python_sdk.Convert.FromDict.{NewTransaction}
use kaspa_python_sdk.Client.Equality.{serialized_eq}

-- `cctx::Transaction::id` of the converted transaction, and the id of the coinbase subnetwork
pub record Consensus (b : Backend) : Type 0 where
  pub tx_id : Transaction b → b.Hash
  pub subnetwork_eq : b.SubnetworkId → b.SubnetworkId → Bool
  pub subnetwork_id_coinbase : b.SubnetworkId

module _ (b : Backend) (c : Consensus b) where
  open b use {Hash, SubnetworkId}

  unfoldable pub is_coinbase : Transaction b → Bool
  is_coinbase tx = c.subnetwork_eq tx.subnetwork_id c.subnetwork_id_coinbase

  unfoldable pub finalize : Transaction b → Transaction b × PyResult Hash
  finalize tx = let id = c.tx_id tx in (record tx { id = id }, ok id)

  unfoldable pub get_id : Transaction b → String
  get_id tx = b.hash_to_hex tx.id

  unfoldable pub constructor_of :
      NewTransaction b
      → ℕ
      → List (TransactionInput b)
      → List (TransactionOutput b)
      → ℕ
      → List ℕ
      → ℕ
      → List ℕ
      → ℕ
      → PyResult (Transaction b)
  constructor_of new_transaction version inputs outputs lock_time subnetwork_bytes gas payload
        mass =
      do
        subnetwork_id ← map_err exception (b.subnetwork_from_bytes subnetwork_bytes)
        map_err exception
            (new_transaction none version inputs outputs lock_time subnetwork_id gas payload mass)

  unfoldable pub get_inputs : Transaction b → PyResult (List (TransactionInput b))
  get_inputs tx = ok tx.inputs

  unfoldable pub set_inputs : Transaction b → List (TransactionInput b) → Transaction b
  set_inputs tx value = record tx { inputs = value }

  unfoldable pub get_outputs : Transaction b → PyResult (List (TransactionOutput b))
  get_outputs tx = ok tx.outputs

  unfoldable pub set_outputs : Transaction b → List (TransactionOutput b) → Transaction b
  set_outputs tx value = record tx { outputs = value }

  unfoldable pub get_version : Transaction b → ℕ
  get_version tx = tx.version

  unfoldable pub set_version : Transaction b → ℕ → Transaction b
  set_version tx value = record tx { version = value }

  unfoldable pub get_lock_time : Transaction b → ℕ
  get_lock_time tx = tx.lock_time

  unfoldable pub set_lock_time : Transaction b → ℕ → Transaction b
  set_lock_time tx value = record tx { lock_time = value }

  unfoldable pub get_gas : Transaction b → ℕ
  get_gas tx = tx.gas

  unfoldable pub set_gas : Transaction b → ℕ → Transaction b
  set_gas tx value = record tx { gas = value }

  unfoldable pub get_subnetwork : Transaction b → String
  get_subnetwork tx = b.subnetwork_to_hex tx.subnetwork_id

  -- the id that a text is parsed as
  unfoldable pub subnetwork_of : String → PyResult SubnetworkId
  subnetwork_of value = do
    bytes ← map_err exception (b.vec_from_hex value)
    map_err exception (b.subnetwork_from_bytes bytes)

  abbrev pub with_subnetwork_id :
      Transaction b → PyResult SubnetworkId → Transaction b × PyResult (Unit {0})
  with_subnetwork_id tx (ok subnetwork_id) = (record tx { subnetwork_id = subnetwork_id }, ok tt)
  with_subnetwork_id tx (err e) = (tx, err e)

  unfoldable pub set_subnetwork_id : Transaction b → String → Transaction b × PyResult (Unit {0})
  set_subnetwork_id tx value = with_subnetwork_id tx (subnetwork_of value)

  unfoldable pub get_payload : Transaction b → String
  get_payload tx = b.to_hex tx.payload

  unfoldable pub set_payload : Transaction b → List ℕ → Transaction b
  set_payload tx value = record tx { payload = value }

  unfoldable pub get_mass : Transaction b → ℕ
  get_mass tx = tx.mass

  unfoldable pub set_mass : Transaction b → ℕ → Transaction b
  set_mass tx value = record tx { mass = value }

  unfoldable pub eq {κ} :
      {Bytes : Type κ} ⦃same : PartialEq Bytes⦄
      → (Transaction b → Result String Bytes)
      → Transaction b
      → Transaction b
      → Bool
  eq serialize tx other = serialized_eq serialize tx other
