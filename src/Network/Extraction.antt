-- ===== src/Network/Extraction.antt =====
-- The network id that a Python object names.
use kaspa_python_sdk.Prelude.{
  ◌≡◌, ◌↔◌, ◌⊎◌, inl, inr, refl, sym, ◌∙◌, exception, none, some, ok, err, PyErr, Option-cases,
  arith,
}
use kaspa_python_sdk.Network.{
  Networks, NetworkId, extract_network_type, network_id_new, extract_network_id,
}

module _ (n : Networks) where
  extract_network_id-cast_id :
      (obj : n.PyAny)
      → n.extract_string obj ≡ none
      → n.cast_type obj ≡ none
      → (id : NetworkId) → (extract_network_id n obj ≡ some (ok id)) ↔ (n.cast_id obj ≡ some id)
  unfolding extract_network_id
  extract_network_id-cast_id obj other untyped id = elim (Option-cases (n.cast_id obj)) [
    | inr (found, e) ↦
        let taken : extract_network_id n obj ≡ some (ok found) =
          rw (extract_network_id, other, untyped, e) refl in
        (λ h. e ∙ ground (arith, sym taken ∙ h), λ h. taken ∙ ground (arith, sym e ∙ h))
    | inl e ↦
        let refused : extract_network_id n obj
            ≡ some (err (exception "`network_id` must be a String or NetworkId instance")) =
          rw (extract_network_id, other, untyped, e) refl in
        (λ h. absurd (ground (arith, sym refused ∙ h)), λ h. absurd (ground (arith, sym e ∙ h)))
  ]

  -- The constructor of NetworkId and the conversion of an argument that is a network id do the same on
  -- every Python object, errors of the parser and panics included, save for one that is neither a text
  -- nor a network type: the constructor refuses it, the conversion takes it if it is a network id, and
  -- refuses it otherwise.
  pub extract_network_id-network_id_new :
      (obj : n.PyAny)
      → (extract_network_id n obj ≡ network_id_new n obj)
        ⊎ ((n.extract_string obj ≡ none)
            × (n.cast_type obj ≡ none)
            × ((e : PyErr) × (network_id_new n obj ≡ some (err e)))
            × ((id : NetworkId)
                → (extract_network_id n obj ≡ some (ok id)) ↔ (n.cast_id obj ≡ some id)))
  unfolding extract_network_id network_id_new extract_network_type
  extract_network_id-network_id_new obj = elim (Option-cases (n.extract_string obj)) [
    | inr (s, text) ↦ inl (rw (extract_network_id, network_id_new, text) refl)
    | inl other ↦ elim (Option-cases (n.cast_type obj)) [
      | inr (t, typed) ↦
          inl (
            rw (extract_network_id, network_id_new, other, extract_network_type, other, typed) refl)
      | inl untyped ↦ inr (
        other,
        untyped,
        (
          exception
              "`network_id` must be of type NetworkType or String representation (mainnet, testnet-10, etc)",
          rw (network_id_new, other, extract_network_type, other, untyped) refl,
        ),
        extract_network_id-cast_id obj other untyped,
      )
    ]
  ]
