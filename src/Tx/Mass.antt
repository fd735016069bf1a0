-- ===== src/Tx/Mass.antt =====
-- The mass functions of src/wallet/core/tx/mass.rs, on a transaction whose mass is a field.
use kaspa_python_sdk.Prelude.{
  ℕ, ◌≤◌, ◌≡◌, String, Bool, true, false, List, map, Option, none, some, Result, ok, exception,
  PyResult, map_err, map_ok, Result-cases, inl, inr, ap, subst, ◌∙◌, ◌>>=◌, unwrap_or, ltb, leb,
  if◌then◌else◌, arith,
}
use kaspa_python_sdk.Convert.Backend.{Backend}
use kaspa_python_sdk.Convert.ToDict.{Transaction}

-- `MassCalculator` for the parameters of a network, and the limit of a standard transaction.
pub record Calculator (b : Backend) : Type 1 where
  pub NetworkId : Type 0
  pub calc_overall_mass : NetworkId → Transaction b → ℕ → Result String ℕ
  pub calc_fee_for_mass : NetworkId → ℕ → ℕ
  pub maximum_standard_transaction_mass : ℕ

-- `calc_storage_mass` with its cells, and the parameter of a network that it takes
pub record StorageCalculator : Type 1 where
  pub Network : Type 0
  pub UtxoCell : Type 0
  -- a cell of so many entries of this size, and an amount
  pub new : ℕ → ℕ → UtxoCell
  pub storage_mass_parameter : Network → ℕ
  pub calc_storage_mass : Bool → List UtxoCell → List UtxoCell → ℕ → Option ℕ

unfoldable pub calculate_storage_mass :
    (c : StorageCalculator) → c.Network → List ℕ → List ℕ → PyResult (Option ℕ)
calculate_storage_mass c network_id input_values output_values = ok (
    c.calc_storage_mass false (map (c.new 1) input_values) (map (c.new 1) output_values)
      (c.storage_mass_parameter network_id))

module _ (b : Backend) (m : Calculator b) where
  open m use {NetworkId, calc_overall_mass, calc_fee_for_mass, maximum_standard_transaction_mass}

  unfoldable pub calculate_unsigned_transaction_mass :
      NetworkId → Transaction b → Option ℕ → PyResult ℕ
  calculate_unsigned_transaction_mass network_id tx minimum_signatures =
      map_err exception (calc_overall_mass network_id tx (unwrap_or 1 minimum_signatures))

  -- The answer, and the transaction, which the caller shares.
  unfoldable pub update_unsigned_transaction_mass :
      NetworkId → Transaction b → Option ℕ → PyResult (Bool × Transaction b)
  update_unsigned_transaction_mass network_id tx minimum_signatures = do
    mass ← map_err exception (calc_overall_mass network_id tx (unwrap_or 1 minimum_signatures))
    ok (
        if ltb maximum_standard_transaction_mass mass
        then (false, tx)
        else (true, record tx { mass = mass }))

  unfoldable pub calculate_unsigned_transaction_fee :
      NetworkId → Transaction b → Option ℕ → PyResult (Option ℕ)
  calculate_unsigned_transaction_fee network_id tx minimum_signatures = do
    mass ← map_err exception (calc_overall_mass network_id tx (unwrap_or 1 minimum_signatures))
    ok (
        if ltb maximum_standard_transaction_mass mass
        then none
        else some (calc_fee_for_mass network_id mass))

  -- The three functions agree on the limit: with a mass above it there is no fee and the update
  -- answers `false` and leaves the transaction as it was, with one up to it the fee is that of the
  -- mass and the update answers `true` and changes only the mass; where the mass fails, the three
  -- fail alike.
  pub mass_limit_agrees :
      (network_id : NetworkId) (tx : Transaction b) (minimum_signatures : Option ℕ)
      → (update_unsigned_transaction_mass network_id tx minimum_signatures
          ≡ map_ok
              (λ mass.
                if leb mass maximum_standard_transaction_mass
                then (true, record tx { mass = mass })
                else (false, tx))
              (calculate_unsigned_transaction_mass network_id tx minimum_signatures))
        × (calculate_unsigned_transaction_fee network_id tx minimum_signatures
            ≡ map_ok
                (λ mass.
                  if leb mass maximum_standard_transaction_mass
                  then some (calc_fee_for_mass network_id mass)
                  else none)
                (calculate_unsigned_transaction_mass network_id tx minimum_signatures))
  unfolding calculate_unsigned_transaction_mass update_unsigned_transaction_mass
      calculate_unsigned_transaction_fee
  mass_limit_agrees network_id tx minimum_signatures = (ground arith, ground arith)

  update-inversion :
      (network_id : NetworkId) (tx updated : Transaction b) (minimum_signatures : Option ℕ)
      → update_unsigned_transaction_mass network_id tx minimum_signatures ≡ ok (true, updated)
      → (mass : ℕ) × (calc_overall_mass network_id tx (unwrap_or 1 minimum_signatures) ≡ ok mass)
        × (mass ≤ maximum_standard_transaction_mass)
        × (record tx { mass = mass } ≡ updated)
  unfolding update_unsigned_transaction_mass
  update-inversion network_id tx updated minimum_signatures h =
      elim (Result-cases (calc_overall_mass network_id tx (unwrap_or 1 minimum_signatures))) [
        | inl (mass, e) ↦ (mass, e, ground arith, ground arith)
        | inr (x, e) ↦ absurd (ground arith)
      ]

  update-again :
      (network_id : NetworkId) (tx : Transaction b) (minimum_signatures : Option ℕ) (mass : ℕ)
      → calc_overall_mass network_id (record tx { mass = mass }) (unwrap_or 1 minimum_signatures)
        ≡ ok mass
      → mass ≤ maximum_standard_transaction_mass
      → update_unsigned_transaction_mass network_id (record tx { mass = mass }) minimum_signatures
        ≡ ok (true, record tx { mass = mass })
  unfolding update_unsigned_transaction_mass
  update-again network_id tx minimum_signatures mass e h = rw e (ground arith)

  -- If the mass does not depend on the mass field, an update that answers `true` gives the
  -- transaction the mass that is calculated for it, within the limit, and a second update changes
  -- nothing.
  pub update_unsigned_transaction_mass-idempotent :
      (network_id : NetworkId) (tx updated : Transaction b) (minimum_signatures : Option ℕ)
      → ((mass : ℕ)
          → calc_overall_mass network_id
              (record tx { mass = mass })
              (unwrap_or 1 minimum_signatures)
            ≡ calc_overall_mass network_id tx (unwrap_or 1 minimum_signatures))
      → update_unsigned_transaction_mass network_id tx minimum_signatures ≡ ok (true, updated)
      → (calculate_unsigned_transaction_mass network_id updated minimum_signatures
          ≡ ok updated.mass)
        × (updated.mass ≤ maximum_standard_transaction_mass)
        × (update_unsigned_transaction_mass network_id updated minimum_signatures
            ≡ ok (true, updated))
  unfolding calculate_unsigned_transaction_mass
  update_unsigned_transaction_mass-idempotent network_id tx updated minimum_signatures keeps h =
      let (mass, e, within, same) = update-inversion network_id tx updated minimum_signatures h in
      subst
        (λ u.
          (calculate_unsigned_transaction_mass network_id u minimum_signatures ≡ ok u.mass)
          × (u.mass ≤ maximum_standard_transaction_mass)
          × (update_unsigned_transaction_mass network_id u minimum_signatures ≡ ok (true, u)))
        same
        (
          ap (map_err exception) (keeps mass ∙ e),
          within,
          update-again network_id tx minimum_signatures mass (keeps mass ∙ e) within,
        )
