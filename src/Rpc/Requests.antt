-- ===== src/Rpc/Requests.antt =====
-- The hand-written conversions of dicts to requests: src/rpc/messages.rs. A request is the record of
-- its fields.
use kaspa_python_sdk.Prelude.{
  ℕ, String, Bool, Option, none, some, List, map, ok, err, PyErr, PyResult, exception, key_error,
  map_err, try_map, ◌>>=◌, ◌>>◌,
}
use kaspa_python_sdk.Convert.Backend.{Backend}
use kaspa_python_sdk.Convert.ToDict.{TransactionInput, TransactionOutput, Transaction}
use kaspa_python_sdk.Convert.FromDict.{required, subscript}

-- What the conversions call beside those of the transactions.
pub record Messages (b : Backend) : Type 1 where
  -- `extract::<PyAddress>()` and `extract::<PyTransaction>()`
  pub extract_address : b.PyAny → PyResult b.Address
  pub extract_transaction : b.PyAny → PyResult (Transaction b)
  -- `get_item` of any object
  pub item_of : b.PyAny → String → PyResult b.PyAny
  pub RpcHeader : Type 0
  pub RpcTransactions : Type 0
  pub header_from_pyobject : b.PyAny → PyResult RpcHeader
  pub transactions_from_pyobject : b.PyAny → PyResult RpcTransactions
  pub RpcTransactionInput : Type 0
  pub RpcTransactionOutput : Type 0
  pub input_into : TransactionInput b → RpcTransactionInput
  pub output_into : TransactionOutput b → RpcTransactionOutput
  -- the text of an exception, by which another is raised
  pub display : PyErr → String
  -- `PyErr::warn`, which raises where Python turns warnings into errors
  pub warn : PyResult (Unit {0})

module _ (b : Backend) (m : Messages b) where
  open b use {
    PyAny, PyDict, Address, SubnetworkId, get_item, extract_string, extract_bool, cast_list,
  }
  open m use {RpcTransactionInput, RpcTransactionOutput}

  -- an `Address` or the text of one
  unfoldable pub address_of : String → PyAny → PyResult Address
  address_of message item = elim (m.extract_address item) [
    | ok address ↦ ok address
    | err _ ↦ elim (extract_string item) [
      | ok s ↦ map_err (λ e. exception (m.display e)) (map_err exception (b.address_from_string s))
      | err _ ↦ err (exception message)
    ]
  ]

  unfoldable pub get_balance_by_address : PyDict → PyResult Address
  get_balance_by_address dict = do
    address_value ← required b dict "address" "Key `address` not present"
    address_of "Addresses must be either an Address instance or a string" address_value

  unfoldable pub addresses_of : PyDict → PyResult (List Address)
  addresses_of dict = do
    items ← required b dict "addresses" "Key `addresses` not present"
    list ← map_err (λ _. exception "`addresses` should be a list") (cast_list items)
    try_map (address_of "Addresses must be either an Address instance or an address as a string")
        list

  unfoldable pub get_balances_by_addresses : PyDict → PyResult (List Address)
  get_balances_by_addresses dict = addresses_of dict

  pub record GetMempoolEntriesByAddressesRequest : Type 0 where
    pub addresses : List Address
    pub include_orphan_pool : Bool
    pub filter_transaction_pool : Bool

  unfoldable pub get_mempool_entries_by_addresses :
      PyDict → PyResult GetMempoolEntriesByAddressesRequest
  get_mempool_entries_by_addresses dict = do
    addresses ← addresses_of dict
    include_item ← required b dict "includeOrphanPool" "Key `include_orphan_pool` not present"
    include_orphan_pool ← extract_bool include_item
    filter_item ←
        required b dict "filterTransactionPool" "Key `filter_transaction_pool` not present"
    filter_transaction_pool ← extract_bool filter_item
    ok (record {
      addresses = addresses;
      include_orphan_pool = include_orphan_pool;
      filter_transaction_pool = filter_transaction_pool;
    })

  unfoldable pub get_utxos_by_addresses : PyDict → PyResult (List Address)
  get_utxos_by_addresses dict = addresses_of dict

  pub record SubmitBlockRequest : Type 0 where
    pub header : m.RpcHeader
    pub transactions : m.RpcTransactions
    pub allow_non_daa_blocks : Bool

  unfoldable pub submit_block : PyDict → PyResult SubmitBlockRequest
  submit_block dict = do
    block ← subscript b dict "block"
    header_item ← m.item_of block "header"
    header ← m.header_from_pyobject header_item
    transactions_item ← m.item_of block "transactions"
    transactions ← m.transactions_from_pyobject transactions_item
    allow_item ← subscript b dict "allowNonDaaBlocks"
    allow_non_daa_blocks ← extract_bool allow_item
    ok (record {
      header = header;
      transactions = transactions;
      allow_non_daa_blocks = allow_non_daa_blocks;
    })

  -- `verbose_data` is `None` in every request
  pub record RpcTransaction : Type 0 where
    pub version : ℕ
    pub inputs : List RpcTransactionInput
    pub outputs : List RpcTransactionOutput
    pub lock_time : ℕ
    pub subnetwork_id : SubnetworkId
    pub gas : ℕ
    pub payload : List ℕ
    pub mass : ℕ

  pub record SubmitTransactionRequest : Type 0 where
    pub transaction : RpcTransaction
    pub allow_orphan : Bool

  -- `allow_orphan` is deprecated: its presence gives a warning
  unfoldable pub deprecated : Option PyAny → PyResult (Unit {0})
  deprecated none = ok tt
  deprecated (some _) = m.warn

  unfoldable pub allow_orphan_of : PyDict → PyResult Bool
  allow_orphan_of dict = elim (get_item dict "allowOrphan") [
    | some item ↦ extract_bool item
    | none ↦ elim (get_item dict "allow_orphan") [
      | some item ↦ extract_bool item
      | none ↦ err (key_error "Key `allowOrphan` not present")
    ]
  ]

  unfoldable pub rpc_transaction_of : Transaction b → RpcTransaction
  rpc_transaction_of inner = record {
    version = inner.version;
    inputs = map m.input_into inner.inputs;
    outputs = map m.output_into inner.outputs;
    lock_time = inner.lock_time;
    subnetwork_id = inner.subnetwork_id;
    gas = inner.gas;
    payload = inner.payload;
    mass = inner.mass;
  }

  unfoldable pub submit_transaction : PyDict → PyResult SubmitTransactionRequest
  submit_transaction dict = do
    item ← required b dict "transaction" "Key `transaction` not present"
    transaction ← m.extract_transaction item
    deprecated (get_item dict "allow_orphan")
    allow_orphan ← allow_orphan_of dict
    ok (record { transaction = rpc_transaction_of transaction; allow_orphan = allow_orphan })

  unfoldable pub submit_transaction_replacement :
      {A : Type 0} → (Transaction b → A) → PyDict → PyResult A
  submit_transaction_replacement into dict = do
    item ← required b dict "transaction" "Key `transactions` not present"
    transaction ← m.extract_transaction item
    ok (into transaction)
