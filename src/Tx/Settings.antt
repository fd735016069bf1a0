-- ===== src/Tx/Settings.antt =====
-- What the constructor of `Generator` makes of its arguments.
use kaspa_python_sdk.Prelude.{
  ℕ, ◌≡◌, refl, String, false, not, ◌&&◌, Option, none, some, List, Result, ok, err, exception,
  PyResult,
}
use kaspa_python_sdk.Convert.Backend.{Backend}
use kaspa_python_sdk.Convert.ToDict.{UtxoEntryReference}
use kaspa_python_sdk.Tx.Generator.{
  GeneratorBackend, PaymentDestination, extract_entries, parse_generator_source, new_settings,
  fee_rate_of, native_settings, ctor,
}

module _ (b : Backend) (g : GeneratorBackend b) {Settings Generator : Type 0}
    (try_new_with_iterator : g.NetworkId
      → List (UtxoEntryReference b)
      → Option (List (UtxoEntryReference b))
      → b.Address
      → ℕ
      → ℕ
      → PaymentDestination b g
      → Option g.Float
      → g.Fees
      → Option (List ℕ)
      → Result String Settings)
    (try_new_with_context : g.UtxoContext
      → Option (List (UtxoEntryReference b))
      → b.Address
      → ℕ
      → ℕ
      → PaymentDestination b g
      → Option g.Float
      → g.Fees
      → Option (List ℕ)
      → Result String Settings)
    (try_new : Settings → Result String Generator) (entries : b.PyAny) (change_address : b.Address)
    (outputs : Option (List g.PaymentOutput)) (payload : Option (List ℕ))
    (fee_rate : Option g.Float) (priority_fee : Option ℕ)
    (priority_entries : Option (List (UtxoEntryReference b))) where
  -- the constructor on these arguments
  abbrev pub made : Option g.NetworkId → Option g.Float → Option ℕ → Option ℕ → PyResult Generator
  made network_id rate sig_op_count minimum_signatures =
      ctor b g try_new_with_iterator try_new_with_context try_new entries change_address network_id
        outputs payload rate priority_fee priority_entries sig_op_count minimum_signatures

  -- With a `UtxoContext` as its entries, the constructor gives the same result whatever the network
  -- id is.
  pub ctor-network_id :
      (context : g.UtxoContext) (network other : Option g.NetworkId)
      (sig_op_count minimum_signatures : Option ℕ)
      → g.extract_context entries ≡ some context
      → made network fee_rate sig_op_count minimum_signatures
        ≡ made other fee_rate sig_op_count minimum_signatures
  unfolding ctor parse_generator_source native_settings new_settings
  ctor-network_id context network other sig_op_count minimum_signatures h =
      rw (h, parse_generator_source) refl

  -- With a list of entries that is no `UtxoContext`, the constructor without a network id is refused
  -- with the error that asks for one.
  pub ctor-no_network_id :
      (list : List (UtxoEntryReference b)) (sig_op_count minimum_signatures : Option ℕ)
      → g.extract_context entries ≡ none
      → extract_entries b g entries ≡ ok list
      → made none fee_rate sig_op_count minimum_signatures
        ≡ err (exception "networkId is required for Generator constructor with UTXO entries")
  unfolding ctor parse_generator_source native_settings new_settings
  ctor-no_network_id list sig_op_count minimum_signatures h k =
      rw (h, k, parse_generator_source) refl

  -- A fee rate that is not finite, not a number or below 1e-8 counts as none, and the number of
  -- signature operations and the minimum of signatures are 1 where they are not given.
  pub ctor-defaults :
      (network_id : Option g.NetworkId) (rate : g.Float)
      → (g.is_finite rate && not (g.is_nan rate) && g.at_least_1e_8 rate) ≡ false
      → made network_id (some rate) none none ≡ made network_id none (some 1) (some 1)
  unfolding ctor new_settings fee_rate_of
  ctor-defaults network_id rate h = rw (h, fee_rate_of) refl
