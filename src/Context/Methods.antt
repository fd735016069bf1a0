-- ===== src/Context/Methods.antt =====
-- The methods of `PyUtxoContext`, over src/wallet/core/utxo/context.rs.
use kaspa_python_sdk.Prelude.{
  ℕ, ◌-◌, String, Bool, false, ◌&&◌, Option, none, some, List, [], ◌∷◌, Result, ok, err, PyErr,
  PyResult, exception, map_err, try_map, ◌>>=◌, unwrap_or, if◌then◌else◌, ltb, nat_beq, take, drop,
}
use kaspa_python_sdk.Context.Backend.{Backend, PendingEntry, Context}

module _ (b : Backend) where
  open b use {
    PyAny, Address, Hash, ContextId, context_id_eq, id_of_hash, default_id, EntryId, entry_id_eq,
    Entry, Balance, BalanceStrings, to_balance_strings, parse_hash, parse_address, extract_string,
    extract_hash, extract_address, try_iter,
  }

  -- the `id` argument of `ctor`
  unfoldable pub context_id : Option PyAny → PyResult ContextId
  context_id none = ok default_id
  context_id (some value) = elim (extract_hash value) [
    | some hash ↦ ok (id_of_hash hash)
    | none ↦ elim (extract_string value) [
      | some hex ↦ do hash ← map_err exception (parse_hash hex); ok (id_of_hash hash)
      | none ↦ err (exception "id must be a 32-byte hex string or Hash")
    ]
  ]

  address_item : Result PyErr PyAny → PyResult Address
  address_item raised = do
    item ← raised
    elim (extract_address item) [
      | some address ↦ ok address
      | none ↦ elim (extract_string item) [
        | some s ↦ map_err exception (parse_address s)
        | none ↦ err (exception "addresses must be an iterable of Address or str")
      ]
    ]

  unfoldable pub parse_addresses : PyAny → PyResult (List Address)
  unfolding address_item
  parse_addresses value = elim (try_iter value) [
    | none ↦ err (exception "addresses must be an iterable of Address or str")
    | some items ↦ try_map address_item items
  ]

  -- `track_addresses` and `unregister_addresses`: the addresses are parsed before the call of the
  -- wallet, whose outcome is `register`.
  unfoldable pub with_addresses :
      (List Address → Context b → Result String (Context b))
      → PyAny
      → Context b
      → PyResult (Context b)
  with_addresses register addresses context = do
    parsed ← parse_addresses addresses
    map_err exception (register parsed context)

  unfoldable pub track_addresses :
      (List Address → Option ℕ → Context b → Result String (Context b))
      → PyAny
      → Option ℕ
      → Context b
      → PyResult (Context b)
  track_addresses scan_and_register addresses current_daa_score context =
      with_addresses (λ parsed. scan_and_register parsed current_daa_score) addresses context

  unfoldable pub unregister_addresses :
      (List Address → Context b → Result String (Context b))
      → PyAny
      → Context b
      → PyResult (Context b)
  unregister_addresses unregister addresses context = with_addresses unregister addresses context

  unfoldable pub get_is_active : Context b → Bool
  get_is_active context =
      unwrap_or false context.processor.rpc_ctl_connected
      && context.processor.connected
      && context.processor.running

  unfoldable pub get_mature_length : Context b → ℕ
  get_mature_length context = context.mature_utxo_size

  -- `if n > total { n = total }`
  abbrev clamp : ℕ → ℕ → ℕ
  clamp total n = if ltb total n then total else n

  unfoldable pub mature_range : Context b → ℕ → ℕ → PyResult (List Entry)
  mature_range context from_ to =
      let total = context.mature_utxo_size in
      if ltb to from_
      then err (exception "'from_' must be <= 'to'")
      else let first = clamp total from_ in
        let last = clamp total to in
        if nat_beq first last then ok [] else ok (take (last - first) (drop first context.mature))

  -- the pending entries of one context, in the order of the processor's map
  unfoldable pub pending_of : ContextId → List (EntryId × PendingEntry b) → List Entry
  pending_of id [] = []
  pending_of id ((key, value) ∷ m) =
      let rest = pending_of id m in
      if context_id_eq.eq_test value.utxo_context id then value.entry ∷ rest else rest

  unfoldable pub pending : Context b → List Entry
  pending context = pending_of context.id context.processor.pending

  -- the keys that `purge_processor_pending` collects
  unfoldable pub keys_of : ContextId → List (EntryId × PendingEntry b) → List EntryId
  keys_of id [] = []
  keys_of id ((key, value) ∷ m) =
      let rest = keys_of id m in
      if context_id_eq.eq_test value.utxo_context id then key ∷ rest else rest

  -- `pending.remove(&key)`
  unfoldable pub remove :
      EntryId → List (EntryId × PendingEntry b) → List (EntryId × PendingEntry b)
  remove k [] = []
  remove k ((key, value) ∷ m) =
      let rest = remove k m in if entry_id_eq.eq_test key k then rest else (key, value) ∷ rest

  unfoldable pub remove_keys :
      List EntryId → List (EntryId × PendingEntry b) → List (EntryId × PendingEntry b)
  remove_keys [] m = m
  remove_keys (k ∷ ks) m = remove_keys ks (remove k m)

  unfoldable pub purge_processor_pending : Context b → Context b
  purge_processor_pending context = record context {
    processor = record (context.processor) {
      pending =
          remove_keys (keys_of context.id context.processor.pending) context.processor.pending;
    };
  }

  -- `clear`: the wallet clears the context first, and only its success is followed by the purge.
  unfoldable pub clear : (Context b → Result String (Context b)) → Context b → PyResult (Context b)
  clear wallet_clear context = do
    cleared ← map_err exception (wallet_clear context)
    ok (purge_processor_pending cleared)

  unfoldable pub get_balance : Context b → Option Balance
  get_balance context = context.balance

  unfoldable pub get_balance_strings : Context b → Option BalanceStrings
  get_balance_strings context = elim context.processor.network_type [
    | none ↦ none
    | some network_type ↦ elim context.balance [
      | none ↦ none
      | some balance ↦ some (to_balance_strings balance network_type)
    ]
  ]
