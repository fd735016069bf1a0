-- ===== src/Tx/Generator.antt =====
-- The arguments and the constructor of `Generator`, src/wallet/core/tx/generator/generator.rs.
use kaspa_python_sdk.Prelude.{
  ℕ, String, Bool, not, ◌&&◌, Option, none, some, List, Result, ok, err, exception, key_error,
  PyErr, PyResult, map_err, ◌>>=◌, try_map, ok_or, unwrap_or, if◌then◌else◌,
}
use kaspa_python_sdk.Convert.Backend.{Backend}
use kaspa_python_sdk.Convert.ToDict.{UtxoEntryReference}
use kaspa_python_sdk.Convert.FromDict.{reference_from_dict}

-- What the constructor calls: `f64`, `PaymentOutput`, and the native settings and generator.
pub record GeneratorBackend (b : Backend) : Type 1 where
  pub Float : Type 0
  pub is_finite : Float → Bool
  pub is_nan : Float → Bool
  pub at_least_1e_8 : Float → Bool
  -- the text of an exception
  pub display : PyErr → String
  pub PaymentOutput : Type 0
  pub new_payment_output : b.Address → ℕ → PaymentOutput
  pub NetworkId : Type 0
  pub UtxoContext : Type 0
  pub extract_context : b.PyAny → Option UtxoContext
  pub extract_reference : b.PyAny → Option (UtxoEntryReference b)
  pub extract_payment_output : b.PyAny → Option PaymentOutput
  pub extract_address : b.PyAny → Option b.Address
  -- `Fees`, its `From<u64>` and its `None`
  pub Fees : Type 0
  pub fees_from : ℕ → Fees
  pub fees_none : Fees

module _ (b : Backend) (g : GeneratorBackend b) where
  open b use {PyAny, PyDict, Address, get_item, cast_list, cast_dict, extract_string, extract_u64}
  open g use {
    Float, PaymentOutput, NetworkId, UtxoContext, extract_context, extract_reference,
    extract_payment_output, extract_address,
  }

  -- an item of `PyUtxoEntries`
  unfoldable pub entry_item : PyAny → PyResult (UtxoEntryReference b)
  entry_item item = elim (extract_reference item) [
    | some entry ↦ ok entry
    | none ↦ elim (cast_dict item) [
      | ok entry ↦ reference_from_dict b entry
      | err _ ↦ err (exception "All entries must be UtxoEntryReference instance or compatible dict")
    ]
  ]

  unfoldable pub extract_entries : PyAny → PyResult (List (UtxoEntryReference b))
  extract_entries obj = do list ← cast_list obj; try_map entry_item list

  -- `TryFrom<&Bound<PyDict>> for PyPaymentOutput` of src/wallet/core/tx/payment.rs
  unfoldable pub payment_address : PyAny → PyResult Address
  payment_address address_value = elim (extract_address address_value) [
    | some address ↦ ok address
    | none ↦ elim (extract_string address_value) [
      | ok s ↦ map_err (λ e. exception (g.display e)) (map_err exception (b.address_from_string s))
      | err _ ↦ err (exception "Addresses must be either an Address instance or a string")
    ]
  ]

  unfoldable pub payment_output_from_dict : PyDict → PyResult PaymentOutput
  payment_output_from_dict value = do
    address_value ← ok_or (key_error "Key `address` not present") (get_item value "address")
    address ← payment_address address_value
    amount_value ← ok_or (key_error "Key `amount` not present") (get_item value "amount")
    amount ← extract_u64 amount_value
    ok (g.new_payment_output address amount)

  -- an item of `PyOutputs`
  unfoldable pub output_item : PyAny → PyResult PaymentOutput
  output_item item = elim (extract_payment_output item) [
    | some output ↦ ok output
    | none ↦ elim (cast_dict item) [
      | ok output ↦ payment_output_from_dict output
      | err _ ↦ err (exception "All outputs must be PaymentOutput instance or compatible dict")
    ]
  ]

  unfoldable pub extract_outputs : PyAny → PyResult (List PaymentOutput)
  extract_outputs obj = do list ← cast_list obj; try_map output_item list

  pub data GeneratorSource : Type 0 where
    utxo_entries : List (UtxoEntryReference b) → GeneratorSource
    utxo_context : UtxoContext → GeneratorSource

  unfoldable pub parse_generator_source : PyAny → PyResult GeneratorSource
  parse_generator_source entries = elim (extract_context entries) [
    | some context ↦ ok (utxo_context context)
    | none ↦ elim (extract_entries entries) [
      | ok list ↦ ok (utxo_entries list)
      | err _ ↦
          err (
            exception
              "entries must be a UtxoContext or list of UtxoEntryReference-compatible items")
    ]
  ]

  pub data PaymentDestination : Type 0 where
    payment_outputs : List PaymentOutput → PaymentDestination
    change : PaymentDestination

  pub record GeneratorSettings : Type 0 where
    pub network_id : Option NetworkId
    pub source : GeneratorSource
    pub priority_utxo_entries : Option (List (UtxoEntryReference b))
    pub final_transaction_destination : PaymentDestination
    pub change_address : Option Address
    pub fee_rate : Option Float
    pub final_priority_fee : g.Fees
    pub sig_op_count : ℕ
    pub minimum_signatures : ℕ
    pub payload : Option (List ℕ)

  unfoldable pub destination_of : Option (List PaymentOutput) → PaymentDestination
  destination_of (some outputs) = payment_outputs outputs
  destination_of none = change

  unfoldable pub fee_rate_of : Option Float → Option Float
  fee_rate_of none = none
  fee_rate_of (some v) =
      if g.is_finite v && not (g.is_nan v) && g.at_least_1e_8 v then some v else none

  unfoldable pub priority_fee_of : Option ℕ → g.Fees
  priority_fee_of (some fee) = g.fees_from fee
  priority_fee_of none = g.fees_none

  -- `GeneratorSettings::new`, but for the multiplexer, which it sets to `None`
  unfoldable pub new_settings :
      Option (List PaymentOutput)
      → Address
      → Option Float
      → Option ℕ
      → GeneratorSource
      → Option (List (UtxoEntryReference b))
      → Option ℕ
      → Option ℕ
      → Option (List ℕ)
      → Option NetworkId
      → GeneratorSettings
  new_settings outputs change_address fee_rate priority_fee source priority_entries sig_op_count
        minimum_signatures payload network_id =
      record {
        network_id = network_id;
        source = source;
        priority_utxo_entries = priority_entries;
        final_transaction_destination = destination_of outputs;
        change_address = some change_address;
        fee_rate = fee_rate_of fee_rate;
        final_priority_fee = priority_fee_of priority_fee;
        sig_op_count = unwrap_or 1 sig_op_count;
        minimum_signatures = unwrap_or 1 minimum_signatures;
        payload = payload;
      }

  -- The two constructors of the native settings, and the native generator, are arguments.
  module _ {Settings Generator : Type 0}
      (try_new_with_iterator : NetworkId
        → List (UtxoEntryReference b)
        → Option (List (UtxoEntryReference b))
        → Address
        → ℕ
        → ℕ
        → PaymentDestination
        → Option Float
        → g.Fees
        → Option (List ℕ)
        → Result String Settings)
      (try_new_with_context : UtxoContext
        → Option (List (UtxoEntryReference b))
        → Address
        → ℕ
        → ℕ
        → PaymentDestination
        → Option Float
        → g.Fees
        → Option (List ℕ)
        → Result String Settings)
      (try_new : Settings → Result String Generator) where
    unfoldable pub native_settings : GeneratorSettings → PyResult Settings
    native_settings settings = elim settings.source [
      | utxo_entries entries ↦ (do
        change_address ←
            ok_or
              (exception "changeAddress is required for Generator constructor with UTXO entries")
              settings.change_address
        network_id ←
            ok_or (exception "networkId is required for Generator constructor with UTXO entries")
              settings.network_id
        map_err exception (
            try_new_with_iterator network_id entries settings.priority_utxo_entries change_address
              settings.sig_op_count settings.minimum_signatures
              settings.final_transaction_destination settings.fee_rate settings.final_priority_fee
              settings.payload))
      | utxo_context context ↦ (do
        change_address ←
            ok_or
              (exception "changeAddress is required for Generator constructor with UTXO entries")
              settings.change_address
        map_err exception (
            try_new_with_context context settings.priority_utxo_entries change_address
              settings.sig_op_count settings.minimum_signatures
              settings.final_transaction_destination settings.fee_rate settings.final_priority_fee
              settings.payload))
    ]

    -- `PyGenerator::ctor`, after pyo3 has extracted the typed arguments
    unfoldable pub ctor :
        PyAny
        → Address
        → Option NetworkId
        → Option (List PaymentOutput)
        → Option (List ℕ)
        → Option Float
        → Option ℕ
        → Option (List (UtxoEntryReference b))
        → Option ℕ
        → Option ℕ
        → PyResult Generator
    ctor entries change_address network_id outputs payload fee_rate priority_fee priority_entries
          sig_op_count minimum_signatures =
        do
          source ← parse_generator_source entries
          let settings =
              new_settings outputs change_address fee_rate priority_fee source priority_entries
                sig_op_count minimum_signatures payload network_id
          native ← native_settings settings
          map_err exception (try_new native)
