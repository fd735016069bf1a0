-- ===== src/Rpc/Addresses.antt =====
-- Which addresses a request takes from its dict.
use kaspa_python_sdk.Prelude.{
  String, ◌≡◌, refl, ◌∙◌, ◌↔◌, ◌⊎◌, inl, inr, some, List, [], ◌∷◌, ok, err, exception, PyErr, sym,
  map_err, try_map, >>=-eq-ok, Result-cases, map_err-eq-ok, ok_or-eq-ok, subst, arith,
}
use kaspa_python_sdk.Convert.Backend.{Backend}
use kaspa_python_sdk.Convert.FromDict.{required}
use kaspa_python_sdk.Rpc.Requests.{Messages, address_of, addresses_of}

module _ (b : Backend) (m : Messages b) where
  open b use {PyAny, PyDict, Address}

  -- the object is this address, or else a text of it
  abbrev pub Names : PyAny → Address → Type 0
  Names item address =
      (m.extract_address item ≡ ok address)
      ⊎ ((e : PyErr) × (s : String) × (m.extract_address item ≡ err e)
          × (b.extract_string item ≡ ok s)
          × (b.address_from_string s ≡ ok address))

  -- the objects name these addresses, in order
  pub data AllName : List PyAny → List Address → Type 0 where
    no_names : AllName [] []
    more_names :
        {item : PyAny} {address : Address} {items : List PyAny} {addresses : List Address}
        → Names item address
        → AllName items addresses
        → AllName (item ∷ items) (address ∷ addresses)

  pub Names-address_of :
      (message : String) (item : PyAny) (address : Address)
      → address_of b m message item ≡ ok address
      → Names item address
  unfolding address_of
  Names-address_of message item address h = elim (Result-cases (m.extract_address item)) [
    | inl (a, e) ↦
        let found : address_of b m message item ≡ ok a = rw (e, address_of) refl in
        inl (e ∙ sym found ∙ h)
    | inr (x, e) ↦ elim (Result-cases (b.extract_string item)) [
      | inl (s, t) ↦
          let parsed : address_of b m message item
              ≡ map_err (λ e. exception (m.display e))
                  (map_err exception (b.address_from_string s)) =
            rw (e, address_of, t) refl in
          inr (
            x,
            s,
            e,
            t,
            map_err-eq-ok _ (b.address_from_string s)
                (map_err-eq-ok _ (map_err exception (b.address_from_string s)) (sym parsed ∙ h)),
          )
      | inr (y, t) ↦
          let refused : address_of b m message item ≡ err (exception message) =
            rw (e, address_of, t) refl in
          absurd (ground (arith, sym refused ∙ h))
    ]
  ]

  pub address_of-Names :
      (message : String) (item : PyAny) (address : Address)
      → Names item address
      → address_of b m message item ≡ ok address
  unfolding address_of
  address_of-Names message item address (inl e) = rw (e, address_of) refl
  address_of-Names message item address (inr (x, s, e, t, p)) = rw (e, address_of, t, p) refl

  AllName-try_map :
      (message : String) (items : List PyAny) (addresses : List Address)
      → try_map (address_of b m message) items ≡ ok addresses
      → AllName items addresses
  AllName-try_map message [] addresses h =
      let same : [] ≡ addresses = ground (arith, h) in subst (AllName []) same no_names
  AllName-try_map message (item ∷ items) addresses h =
      let (first, named, h) = >>=-eq-ok (address_of b m message item) _ h in
      let (later, rest, h) = >>=-eq-ok (try_map (address_of b m message) items) _ h in
      let same : first ∷ later ≡ addresses = ground (arith, h) in
      subst (AllName (item ∷ items)) same (
        more_names (Names-address_of message item first named)
          (AllName-try_map message items later rest))

  try_map-AllName :
      (message : String) {items : List PyAny} {addresses : List Address}
      → AllName items addresses
      → try_map (address_of b m message) items ≡ ok addresses
  try_map-AllName message no_names = refl
  try_map-AllName message (more_names {item = item} {address = address} name rest) =
      rw (address_of-Names message item address name, try_map-AllName message rest) refl

  -- `addresses_of` succeeds exactly if the dict has, under `addresses`, a list whose objects each are
  -- an address or a text that parses as one; it then gives the addresses that they name, in order.
  pub addresses_of-AllName :
      (dict : PyDict) (addresses : List Address)
      → (addresses_of b m dict ≡ ok addresses) ↔ (
          (item : PyAny) × (items : List PyAny) × (b.get_item dict "addresses" ≡ some item)
          × (b.cast_list item ≡ ok items)
          × AllName items addresses)
  unfolding addresses_of
  addresses_of-AllName dict addresses = (
    λ h.
        let (item, found, h) = >>=-eq-ok (required b dict "addresses" _) _ h in
        let (items, listed, h) = >>=-eq-ok (map_err _ (b.cast_list item)) _ h in
        (
          item,
          items,
          ok_or-eq-ok _ (b.get_item dict "addresses") found,
          map_err-eq-ok _ (b.cast_list item) listed,
          AllName-try_map _ items addresses h,
        ),
    λ (item, items, found, listed, names).
        rw (found, addresses_of, listed) (try_map-AllName _ names),
  )
