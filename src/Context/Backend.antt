-- ===== src/Context/Backend.antt =====
-- What `UtxoContext` calls: kaspa_wallet_core, kaspa_addresses and the Python arguments.
use kaspa_python_sdk.Prelude.{ℕ, String, Bool, Option, List, Result, PyErr, PartialEq}

pub record Backend : Type 1 where
  pub PyAny : Type 0
  pub Address : Type 0
  pub Hash : Type 0
  -- `UtxoContextId`, made from a hash; `none` asks for a fresh default binding
  pub ContextId : Type 0
  pub context_id_eq : PartialEq ContextId
  pub id_of_hash : Hash → ContextId
  pub default_id : ContextId
  -- the key of the processor's map of pending entries, and a `UtxoEntryReference`
  pub EntryId : Type 0
  pub entry_id_eq : PartialEq EntryId
  pub Entry : Type 0
  pub Balance : Type 0
  pub BalanceStrings : Type 0
  pub NetworkType : Type 0
  pub to_balance_strings : Balance → NetworkType → BalanceStrings
  pub parse_hash : String → Result String Hash
  pub parse_address : String → Result String Address
  pub extract_string : PyAny → Option String
  pub extract_hash : PyAny → Option Hash
  pub extract_address : PyAny → Option Address
  pub try_iter : PyAny → Option (List (Result PyErr PyAny))

module _ (b : Backend) where
  open b use {ContextId, EntryId, Entry, Balance, NetworkType}

  -- `PendingUtxoEntryReference`: an entry and the context that waits for it
  pub record PendingEntry : Type 0 where
    pub utxo_context : ContextId
    pub entry : Entry

  -- The processor: its connection, and the pending entries of all contexts by key.
  pub record Processor : Type 0 where
    pub rpc_ctl_connected : Option Bool
    pub connected : Bool
    pub running : Bool
    pub network_type : Option NetworkType
    pub pending : List (EntryId × PendingEntry)

  -- A context over its processor; `mature` is what `UtxoStream` yields.
  pub record Context : Type 0 where
    pub id : ContextId
    pub mature : List Entry
    pub mature_utxo_size : ℕ
    pub balance : Option Balance
    pub processor : Processor
