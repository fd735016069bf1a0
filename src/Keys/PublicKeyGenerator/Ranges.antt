-- ===== src/Keys/PublicKeyGenerator/Ranges.antt =====
-- The range methods of `PyPublicKeyGenerator` against the single-index methods.
use kaspa_python_sdk.Prelude.{
  ℕ, ◌+◌, ◌-◌, ◌≤◌, ◌≡◌, ap, sym, ◌∙◌, ok_value-eq_some, List, exception, ok, ok_value, length,
  arith, try_map, map, map_err, ◌>>=◌,
}
use kaspa_python_sdk.Keys.Backend.{Backend, DerivesInOrder}
use kaspa_python_sdk.Keys.TryMap.{
  range, derive_range, try_map-map, try_map-try_map, length-try_map, length-range_from,
}
use kaspa_python_sdk.Keys.PublicKeyGenerator.{
  in_order, PyPublicKeyGenerator, receive_pubkeys, receive_pubkey, receive_pubkeys_as_strings,
  receive_addresses, receive_address, receive_addresses_as_strings, change_pubkeys, change_pubkey,
  change_pubkeys_as_strings, change_addresses, change_addresses_as_strings,
}

in_order_comm : (start end : ℕ) → in_order start end ≡ in_order end start
unfolding in_order
in_order_comm start end = ground arith

in_order_le : (start end : ℕ) → (in_order start end).0 ≤ (in_order start end).1
unfolding in_order
in_order_le start end = ground arith

in_order_width :
    (start end : ℕ)
    → (in_order start end).1 - (in_order start end).0 ≡ (start - end) + (end - start)
unfolding in_order
in_order_width start end = ground arith

-- the indices that the range methods visit
abbrev pub indices : ℕ → ℕ → List ℕ
indices start end = range (in_order start end).0 (in_order start end).1

pub length-indices : (start end : ℕ) → length (indices start end) ≡ (start - end) + (end - start)
length-indices start end = omega (
  arith,
  length-range_from (in_order start end).0 ((in_order start end).1 - (in_order start end).0),
  in_order_width start end,
)

-- the walk of one manager, shared by the receive and the change methods
pubkeys_of :
    (b : Backend)
    → DerivesInOrder b
    → (m : b.Manager) (start end : ℕ)
    → (map_err exception (b.derive_pubkey_range m (in_order start end).0 (in_order start end).1)
        >>= λ ys. ok (map b.from_secp ys))
      ≡ try_map
          (λ i. map_err exception (b.derive_pubkey m i) >>= λ pk. ok (b.from_secp pk))
          (indices start end)
pubkeys_of b law m start end =
    rw (derive_range b m _ _ law (in_order_le start end))
      (try_map-map exception (b.derive_pubkey m) b.from_secp (indices start end))

module _ (b : Backend) (g : PyPublicKeyGenerator b) where
  open b use {NetworkType, PublicKey, Address}

  -- All eight range methods give the same result when `start` and `end` are swapped.
  pub ranges_symmetric :
      (network : NetworkType) (start end : ℕ)
      → (receive_pubkeys b g start end ≡ receive_pubkeys b g end start)
        × (receive_pubkeys_as_strings b g start end ≡ receive_pubkeys_as_strings b g end start)
        × (receive_addresses b g network start end ≡ receive_addresses b g network end start)
        × (receive_addresses_as_strings b g network start end
            ≡ receive_addresses_as_strings b g network end start)
        × (change_pubkeys b g start end ≡ change_pubkeys b g end start)
        × (change_pubkeys_as_strings b g start end ≡ change_pubkeys_as_strings b g end start)
        × (change_addresses b g network start end ≡ change_addresses b g network end start)
        × (change_addresses_as_strings b g network start end
            ≡ change_addresses_as_strings b g network end start)
  unfolding receive_pubkeys receive_pubkeys_as_strings receive_addresses
      receive_addresses_as_strings change_pubkeys change_pubkeys_as_strings change_addresses
      change_addresses_as_strings
  ranges_symmetric network start end =
      let e = in_order_comm start end in (rw e, rw e, rw e, rw e, rw e, rw e, rw e, rw e)

  -- If the backend derives a range index by index, `receive_pubkeys` and `change_pubkeys` are the
  -- walks of the single-index methods over the indices from the smaller to the larger bound,
  -- results and errors included.
  pub pubkeys-pointwise :
      DerivesInOrder b
      → (start end : ℕ)
      → (receive_pubkeys b g start end ≡ try_map (receive_pubkey b g) (indices start end))
        × (change_pubkeys b g start end ≡ try_map (change_pubkey b g) (indices start end))
  unfolding receive_pubkeys receive_pubkey change_pubkeys change_pubkey
  pubkeys-pointwise law start end = (
    pubkeys_of b law (b.receive_pubkey_manager g.hd_wallet) start end,
    pubkeys_of b law (b.change_pubkey_manager g.hd_wallet) start end,
  )

  -- If the backend derives a range index by index, `receive_addresses` succeeds exactly when
  -- `receive_address` does on every index of the range, and with the same addresses in order.
  pub receive_addresses-pointwise :
      DerivesInOrder b
      → (network : NetworkType) (start end : ℕ)
      → ok_value (receive_addresses b g network start end)
        ≡ ok_value (try_map (receive_address b g network) (indices start end))
  unfolding receive_addresses receive_address
  receive_addresses-pointwise law network start end =
      rw (derive_range b _ _ _ law (in_order_le start end)) (
        try_map-try_map exception (b.derive_pubkey (b.receive_pubkey_manager g.hd_wallet))
          (λ pk. b.to_address (b.from_secp pk) network) (indices start end))

  -- If the backend derives a range index by index and `receive_addresses` succeeds, it returns one
  -- address for each index between `start` and `end`.
  pub length-receive_addresses :
      DerivesInOrder b
      → (network : NetworkType) (start end : ℕ) {addresses : List Address}
      → receive_addresses b g network start end ≡ ok addresses
      → length addresses ≡ (start - end) + (end - start)
  length-receive_addresses law network start end {addresses} h = omega (
    arith,
    length-try_map _ (indices start end) addresses (
        ok_value-eq_some _
          (sym (receive_addresses-pointwise law network start end) ∙ ap ok_value h)),
    length-indices start end,
  )
