-- ===== src/Rpc/Sent.antt =====
-- What the calls by addresses send to the node.
use kaspa_python_sdk.Prelude.{
  String, ◌≡◌, ◌↔◌, ap, Option, none, some, List, Result, ok, err, PyResult, map_ok, arith,
  >>=-eq-ok, ok_or-eq-ok,
}
use kaspa_python_sdk.Convert.Backend.{Backend}
use kaspa_python_sdk.Convert.FromDict.{required}
use kaspa_python_sdk.Rpc.Requests
use kaspa_python_sdk.Rpc.Requests.{
  Messages, addresses_of, address_of, get_balance_by_address, get_balances_by_addresses,
  get_utxos_by_addresses,
}
use kaspa_python_sdk.Rpc.Addresses.{
  Names, AllName, Names-address_of, address_of-Names, addresses_of-AllName,
}
use kaspa_python_sdk.Rpc.Calls
use kaspa_python_sdk.Rpc.Calls.{Calls, respond, interface_with_args, args_try_from}

↔-trans {ℓ κ μ} : {A : Type ℓ} {B : Type κ} {C : Type μ} → A ↔ B → B ↔ C → A ↔ C
↔-trans p q = (λ a. q.0 (p.0 a), λ c. p.1 (q.1 c))

map_ok-eq-ok {ℓ κ μ} :
    {E : Type ℓ} {A : Type κ} {B : Type μ} (f : A → B) (injective : (x y : A) → f x ≡ f y → x ≡ y)
    (r : Result E A) (a : A)
    → (map_ok f r ≡ ok (f a)) ↔ (r ≡ ok a)
map_ok-eq-ok f injective (ok x) a =
    (λ h. ap ok (injective x a (ground (arith, h))), λ h. ap (map_ok f) h)
map_ok-eq-ok f injective (err e) a =
    (λ h. absurd (ground (arith, h)), λ h. absurd (ground (arith, h)))

module _ (b : Backend) (m : Messages b) (c : Calls b) where
  open b use {PyAny, PyDict, Address}

  -- the dict has a list of objects that name these addresses
  abbrev pub Listed : PyDict → List Address → Type 0
  Listed dict addresses =
      (item : PyAny) × (items : List PyAny) × (b.get_item dict "addresses" ≡ some item)
      × (b.cast_list item ≡ ok items)
      × AllName b m items addresses

  -- the request that a call sends
  abbrev pub sent : Calls.Outcome b m c → Option (Calls.Request b m c)
  sent (Calls.raises e) = none
  sent (Calls.sends request _) = some request

  respond-sent :
      (node : Calls.Request b m c → Result String c.Response) (r : PyResult (Calls.Request b m c))
      (request : Calls.Request b m c)
      → (sent (respond b m c node r) ≡ some request) ↔ (r ≡ ok request)
  unfolding respond
  respond-sent node (ok r) request = (λ h. ground (arith, h), λ h. ground (arith, h))
  respond-sent node (err e) request =
      (λ h. absurd (ground (arith, h)), λ h. absurd (ground (arith, h)))

  get_balance_by_address-Names :
      (dict : PyDict) (address : Address)
      → (get_balance_by_address b m dict ≡ ok address)
        ↔ ((item : PyAny) × (b.get_item dict "address" ≡ some item) × Names b m item address)
  unfolding get_balance_by_address
  get_balance_by_address-Names dict address = (
    λ h.
        let (item, found, named) = >>=-eq-ok (required b dict "address" _) _ h in
        (
          item,
          ok_or-eq-ok _ (b.get_item dict "address") found,
          Names-address_of b m _ item address named,
        ),
    λ (item, found, named).
        rw (get_balance_by_address, required, found) (address_of-Names b m _ item address named),
  )

  -- The calls by addresses send a request exactly if the dict holds what they ask for: for balances and
  -- UTXOs of addresses, a list under `addresses` whose objects each are an address or a text that parses
  -- as one, and for a balance such an object under `address`. The request is then of the addresses that
  -- these name, in order.
  pub interface_with_args-sent :
      (node : Calls.Request b m c → Result String c.Response) (dict : PyDict)
      → ((addresses : List Address)
          → (sent (interface_with_args b m c node Calls.get_utxos_by_addresses dict)
              ≡ some (Calls.utxos_by_addresses addresses))
            ↔ Listed dict addresses)
        × ((addresses : List Address)
            → (sent (interface_with_args b m c node Calls.get_balances_by_addresses dict)
                ≡ some (Calls.balances_by_addresses addresses))
              ↔ Listed dict addresses)
        × ((address : Address)
            → (sent (interface_with_args b m c node Calls.get_balance_by_address dict)
                ≡ some (Calls.balance_by_address address))
              ↔ ((item : PyAny) × (b.get_item dict "address" ≡ some item) × Names b m item address))
  unfolding interface_with_args args_try_from Requests.get_utxos_by_addresses
      Requests.get_balances_by_addresses
  interface_with_args-sent node dict = (
    λ addresses. ↔-trans (respond-sent node _ _) (
        ↔-trans
          (map_ok-eq-ok Calls.utxos_by_addresses (λ x y h. ground (arith, h))
            (addresses_of b m dict) addresses)
          (addresses_of-AllName b m dict addresses)),
    λ addresses. ↔-trans (respond-sent node _ _) (
        ↔-trans
          (map_ok-eq-ok Calls.balances_by_addresses (λ x y h. ground (arith, h))
            (addresses_of b m dict) addresses)
          (addresses_of-AllName b m dict addresses)),
    λ address. ↔-trans (respond-sent node _ _) (
        ↔-trans
          (map_ok-eq-ok Calls.balance_by_address (λ x y h. ground (arith, h))
            (get_balance_by_address b m dict) address)
          (get_balance_by_address-Names dict address)),
  )
