-- ===== src/Tests/Context.antt =====
-- `UtxoContext` over numbered entries.
use kaspa_python_sdk.Prelude.{
  ℕ, ◌≡◌, refl, String, true, none, some, [], ◌∷◌, ok, map_ok, eq_of_nat, nat_beq, if◌then◌else◌,
}
use kaspa_python_sdk.Context.Backend.{Backend, Context}
use kaspa_python_sdk.Context.Methods.{mature_range, pending_of, clear}
use kaspa_python_sdk.Context.Pending.{pending_of-clear}

abbrev numbered : Backend
numbered = record {
  PyAny = String;
  Address = String;
  Hash = ℕ;
  ContextId = ℕ;
  context_id_eq = eq_of_nat;
  id_of_hash = λ h. h;
  default_id = 0;
  EntryId = ℕ;
  entry_id_eq = eq_of_nat;
  Entry = ℕ;
  Balance = ℕ;
  BalanceStrings = ℕ;
  NetworkType = Unit {0};
  to_balance_strings = λ n _. n;
  parse_hash = λ _. ok 1;
  parse_address = λ s. ok s;
  extract_string = λ s. some s;
  extract_hash = λ _. none;
  extract_address = λ _. none;
  try_iter = λ _. none;
}

-- context 7 with five mature entries; contexts 7 and 8 wait for one entry each
abbrev busy : Context numbered
busy = record {
  id = 7;
  mature = 20 ∷ 21 ∷ 22 ∷ 23 ∷ 24 ∷ [];
  mature_utxo_size = 5;
  balance = none;
  processor = record {
    rpc_ctl_connected = some true;
    connected = true;
    running = true;
    network_type = none;
    pending =
        (1, record { utxo_context = 7; entry = 30 })
        ∷ (2, record { utxo_context = 8; entry = 31 })
        ∷ [];
  };
}

range_past_the_end : mature_range numbered busy 3 9 ≡ ok (23 ∷ 24 ∷ [])
unfolding mature_range
range_past_the_end = refl

pending_of-clear_example :
    map_ok
      (λ after. pending_of numbered 8 after.processor.pending)
      (clear numbered (λ c. ok c) busy)
    ≡ ok (if nat_beq 7 8 then [] else pending_of numbered 8 busy.processor.pending)
pending_of-clear_example = pending_of-clear numbered (λ c. ok c) busy busy 8 refl (refl, (refl, tt))
