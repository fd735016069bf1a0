-- ===== src/Tests/Keys.antt =====
-- The key generators over a backend of numbered keys.
use kaspa_python_sdk.Prelude.{
  ℕ, ◌+◌, ◌*◌, ◌≡◌, ◌≢◌, map_ok, refl, ap, String, none, some, [], ◌∷◌, Result, ok, err, exception,
  ok_value, try_map, if◌then◌else◌, ◌==◌, eq_of_string, ltb, leb, arith,
}
use kaspa_python_sdk.Keys.Backend.{Backend, DerivesInOrder, range_from}
use kaspa_python_sdk.Keys.TryMap.{range}
use kaspa_python_sdk.Keys.PublicKeyGenerator.{
  in_order, PyPublicKeyGenerator, receive_pubkeys, receive_addresses, receive_address,
  change_pubkeys, change_address, change_address_as_string,
}
use kaspa_python_sdk.Keys.PublicKeyGenerator.Addresses.{change_address_as_string-ne-change_address}
use kaspa_python_sdk.Keys.PublicKeyGenerator.Ranges.{indices, receive_addresses-pointwise}

abbrev derive : ℕ → ℕ → Result String ℕ
derive m index = if ltb index 100 then ok (m * 100 + index) else err "index"

-- the receive keys are numbered from 0, the change keys from 100
abbrev numbered : Backend
numbered = record {
  PyAny = String;
  NetworkType = Unit {0};
  DerivationPath = ℕ;
  ChildNumber = ℕ;
  XPrv = ℕ;
  XPub = ℕ;
  PrivateKey = ℕ;
  SecpKey = ℕ;
  PublicKey = ℕ;
  Address = String;
  Wallet = Unit {0};
  Manager = ℕ;
  extract_string = λ s. some s;
  extract_xprv = λ _. none;
  parse_xprv = λ _. ok 0;
  parse_xpub = λ _. ok 0;
  derive_path = λ x _. ok x;
  derive_child = λ x i. ok (x + i);
  child_number = λ i _. ok i;
  public_key = λ x. x;
  private_key = λ x. x;
  build_derivate_path = λ _ account _ _. ok account;
  from_extended_public_key = λ _ _. ok tt;
  wallet_to_string = λ _. "wallet";
  receive_pubkey_manager = λ _. 0;
  change_pubkey_manager = λ _. 1;
  derive_pubkey = derive;
  derive_pubkey_range = λ m lo hi. try_map (derive m) (range lo hi);
  secp_to_string = λ k. if leb k 99 then "receive" else "change";
  from_secp = λ k. k;
  pubkey_to_string = λ k. if leb k 99 then "receive" else "change";
  to_address = λ k _. ok (if leb k 99 then "kaspa:receive" else "kaspa:change");
  address_to_string = λ a. a;
  display_address = λ a. a;
}

numbered_in_order : DerivesInOrder numbered
numbered_in_order m lo count = ap (λ n. try_map (derive m) (range_from lo n)) (omega arith)

abbrev generator : PyPublicKeyGenerator numbered
generator = record { hd_wallet = tt }

receive_pubkeys_run : receive_pubkeys numbered generator 5 2 ≡ ok (2 ∷ 3 ∷ 4 ∷ [])
unfolding receive_pubkeys in_order
receive_pubkeys_run = refl

change_pubkeys_error : change_pubkeys numbered generator 99 101 ≡ err (exception "index")
unfolding change_pubkeys in_order
change_pubkeys_error = refl

receive_addresses-pointwise_example :
    ok_value (receive_addresses numbered generator tt 98 101)
    ≡ ok_value (try_map (receive_address numbered generator tt) (indices 98 101))
receive_addresses-pointwise_example =
    receive_addresses-pointwise numbered generator numbered_in_order tt 98 101

two_addresses :
    receive_addresses numbered generator tt 6 4 ≡ ok ("kaspa:receive" ∷ "kaspa:receive" ∷ [])
unfolding receive_addresses in_order
two_addresses = refl

receive_address_at : receive_address numbered generator tt 2 ≡ ok "kaspa:receive"
unfolding receive_address
receive_address_at = refl

change_address_at : change_address numbered generator tt 2 ≡ ok "kaspa:change"
unfolding change_address
change_address_at = refl

change_address_as_string-ne-change_address_example :
    change_address_as_string numbered generator tt 2
    ≢ map_ok (λ a. a) (change_address numbered generator tt 2)
change_address_as_string-ne-change_address_example =
    change_address_as_string-ne-change_address numbered generator tt 2 receive_address_at
      change_address_at (λ e. ground (arith, ap (λ s. s == "kaspa:receive") e))
