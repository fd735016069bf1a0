-- ===== src/Address.antt =====
-- `PyAddress` of src/address.rs: what a setter changes is returned.
use kaspa_python_sdk.Prelude.{
  ℕ, ◌≡◌, refl, String, Bool, Result, ok, err, PyResult, exception, map_err, is_ok,
}

-- What the wrapper uses of kaspa_addresses.
pub record Addresses : Type 1 where
  pub Version : Type 0
  pub Prefix : Type 0
  pub Payload : Type 0
  pub version_to_string : Version → String
  pub prefix_to_string : Prefix → String
  pub prefix_try_from : String → Result String Prefix

module _ (a : Addresses) where
  open a use {Prefix}

  -- `Address`
  pub record Address : Type 0 where
    pub prefix : Prefix
    pub version : a.Version
    pub payload : a.Payload

  pub record AddressTexts : Type 0 where
    pub try_from : String → Result String Address
    pub address_to_string : Address → String
    pub payload_to_string : Address → String
    pub short : Address → ℕ → String

  module _ (t : AddressTexts) where
    unfoldable pub constructor_of : String → PyResult Address
    constructor_of address = map_err exception (t.try_from address)

    unfoldable pub validate : String → Bool
    validate address = is_ok (t.try_from address)

    unfoldable pub address_to_string : Address → String
    address_to_string address = t.address_to_string address

    unfoldable pub get_version : Address → String
    get_version address = a.version_to_string address.version

    unfoldable pub get_prefix : Address → String
    get_prefix address = a.prefix_to_string address.prefix

    abbrev pub with_prefix : Address → PyResult Prefix → Address × PyResult (Unit {0})
    with_prefix address (ok prefix) = (record address { prefix = prefix }, ok tt)
    with_prefix address (err e) = (address, err e)

    unfoldable pub set_prefix : Address → String → Address × PyResult (Unit {0})
    set_prefix address value = with_prefix address (map_err exception (a.prefix_try_from value))

    unfoldable pub get_payload : Address → String
    get_payload address = t.payload_to_string address

    unfoldable pub short : Address → ℕ → String
    short address n = t.short address n

    -- `TryFrom<String>`
    unfoldable pub try_from : String → PyResult Address
    try_from value = map_err exception (t.try_from value)

    -- The setter of the prefix keeps the version and the payload, and raises exactly if the text is no
    -- prefix.
    pub set_prefix_lem :
        (address : Address) (value : String)
        → ((set_prefix address value).0.version ≡ address.version)
          × ((set_prefix address value).0.payload ≡ address.payload)
          × (is_ok ((set_prefix address value).1) ≡ is_ok (a.prefix_try_from value))
    unfolding set_prefix
    set_prefix_lem address value = kept (a.prefix_try_from value)
      where
        kept :
            (parsed : Result String Prefix)
            → ((with_prefix address (map_err exception parsed)).0.version ≡ address.version)
              × ((with_prefix address (map_err exception parsed)).0.payload ≡ address.payload)
              × (is_ok ((with_prefix address (map_err exception parsed)).1) ≡ is_ok parsed)
        kept (ok _) = (refl, refl, refl)
        kept (err _) = (refl, refl, refl)
