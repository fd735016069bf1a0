-- ===== src/Keys/PublicKeyGenerator/Addresses.antt =====
-- The address methods of `PyPublicKeyGenerator`: their text forms, and the manager that the change
-- methods read.
use kaspa_python_sdk.Prelude.{ℕ, ◌≡◌, ◌≢◌, refl, map, map_ok, ok, arith}
use kaspa_python_sdk.Keys.Backend.{Backend}
use kaspa_python_sdk.Keys.PublicKeyGenerator.{
  PyPublicKeyGenerator, receive_addresses, receive_addresses_as_strings, receive_address,
  receive_address_as_string, change_addresses, change_address, change_address_as_string,
}

module _ (b : Backend) (g : PyPublicKeyGenerator b) where
  open b use {NetworkType, Address, address_to_string, display_address}

  -- The text methods are the address methods followed by the conversion to text, on the results
  -- and on the errors: `receive_addresses_as_strings` and `receive_address_as_string`.
  pub receive_addresses_as_strings-receive_addresses :
      (network : NetworkType) (start end index : ℕ)
      → (receive_addresses_as_strings b g network start end
          ≡ map_ok (map address_to_string) (receive_addresses b g network start end))
        × (receive_address_as_string b g network index
            ≡ map_ok display_address (receive_address b g network index))
  unfolding receive_addresses_as_strings receive_addresses receive_address_as_string receive_address
  receive_addresses_as_strings-receive_addresses network start end index =
      (ground arith, ground arith)

  -- Two change methods return receive addresses: `change_addresses` agrees with
  -- `receive_addresses` on every range, and `change_address_as_string` with
  -- `receive_address_as_string` on every index.
  pub change_addresses-eq-receive_addresses :
      (network : NetworkType) (start end index : ℕ)
      → (change_addresses b g network start end ≡ receive_addresses b g network start end)
        × (change_address_as_string b g network index ≡ receive_address_as_string b g network index)
  unfolding change_addresses receive_addresses change_address_as_string receive_address_as_string
  change_addresses-eq-receive_addresses network start end index = (refl, refl)

  -- Where both chains derive an index and their addresses print differently,
  -- `change_address_as_string` is not the text of `change_address`.
  pub change_address_as_string-ne-change_address :
      (network : NetworkType) (index : ℕ) {r c : Address}
      → receive_address b g network index ≡ ok r
      → change_address b g network index ≡ ok c
      → display_address r ≢ display_address c
      → change_address_as_string b g network index
        ≢ map_ok display_address (change_address b g network index)
  change_address_as_string-ne-change_address network index hr hc ne same = ne (
      ground (
        arith,
        (change_addresses-eq-receive_addresses network index index index).1,
        (receive_addresses_as_strings-receive_addresses network index index index).1,
      ))
