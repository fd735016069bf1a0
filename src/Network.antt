-- ===== src/Network.antt =====
-- Network types and network ids: src/consensus/core/network.rs. Where a call of the crate panics, the
-- result is `none`. The child holds the proofs.
pub mod Extraction
use kaspa_python_sdk.Prelude.{
  ℕ, String, Bool, Option, none, some, Result, ok, err, PyErr, PyResult, exception, map_err,
}

pub data PyNetworkType : Type 0 where
  mainnet testnet devnet simnet : PyNetworkType

-- `NetworkId`, whose suffix is a u32
pub record NetworkId : Type 0 where
  pub network_type : PyNetworkType
  pub suffix : Option ℕ

-- What the wrappers use of pyo3 and of kaspa_consensus_core.
pub record Networks : Type 1 where
  pub PyAny : Type 0
  -- `extract::<String>()`, and `cast` to the two classes
  pub extract_string : PyAny → Option String
  pub cast_type : PyAny → Option PyNetworkType
  pub cast_id : PyAny → Option NetworkId
  -- the text of an exception, by which another is raised
  pub display : PyErr → String
  pub type_from_str : String → Result String PyNetworkType
  pub default_rpc_port : PyNetworkType → ℕ
  pub default_borsh_rpc_port : PyNetworkType → ℕ
  pub default_json_rpc_port : PyNetworkType → ℕ
  pub prefix_of : PyNetworkType → String
  pub id_from_str : String → Result String NetworkId
  -- `NetworkId::new` and `NetworkId::with_suffix`
  pub id_new : PyNetworkType → Option NetworkId
  pub id_with_suffix : PyNetworkType → ℕ → NetworkId
  pub id_is_mainnet : NetworkId → Bool
  pub id_suffix : NetworkId → Option ℕ
  pub id_default_p2p_port : NetworkId → ℕ
  pub id_to_prefixed : NetworkId → String
  pub id_to_string : NetworkId → String

module _ (n : Networks) where
  open n use {PyAny}

  unfoldable pub network_type_from_str : String → PyResult PyNetworkType
  network_type_from_str s = map_err exception (n.type_from_str s)

  unfoldable pub extract_network_type : PyAny → PyResult PyNetworkType
  extract_network_type obj = elim (n.extract_string obj) [
    | some s ↦ map_err (λ e. exception (n.display e)) (network_type_from_str s)
    | none ↦ elim (n.cast_type obj) [
      | some t ↦ ok t
      | none ↦ err (exception "Expected type `str` or `NetworkType`")
    ]
  ]

  unfoldable pub default_rpc_port : PyNetworkType → ℕ
  default_rpc_port t = n.default_rpc_port t

  unfoldable pub default_borsh_rpc_port : PyNetworkType → ℕ
  default_borsh_rpc_port t = n.default_borsh_rpc_port t

  unfoldable pub default_json_rpc_port : PyNetworkType → ℕ
  default_json_rpc_port t = n.default_json_rpc_port t

  unfoldable pub network_id_from_str : String → PyResult NetworkId
  network_id_from_str s = map_err exception (n.id_from_str s)

  -- `NetworkId::new`, which panics for some types, and its result as that of a method
  unfoldable pub id_of_type : PyNetworkType → Option (PyResult NetworkId)
  id_of_type t = elim (n.id_new t) [ some inner ↦ some (ok inner) | none ↦ none ]

  unfoldable pub network_id_new : PyAny → Option (PyResult NetworkId)
  network_id_new network_id = elim (n.extract_string network_id) [
    | some s ↦ some (network_id_from_str s)
    | none ↦ elim (extract_network_type network_id) [
      | ok network_type ↦ id_of_type network_type
      | err _ ↦ some (
          err (
            exception
              "`network_id` must be of type NetworkType or String representation (mainnet, testnet-10, etc)"))
    ]
  ]

  unfoldable pub with_suffix : PyNetworkType → ℕ → NetworkId
  with_suffix network_type suffix = n.id_with_suffix network_type suffix

  unfoldable pub get_network_type : NetworkId → PyNetworkType
  get_network_type id = id.network_type

  unfoldable pub is_mainnet : NetworkId → Bool
  is_mainnet id = n.id_is_mainnet id

  unfoldable pub get_suffix : NetworkId → Option ℕ
  get_suffix id = n.id_suffix id

  unfoldable pub get_default_p2p_port : NetworkId → ℕ
  get_default_p2p_port id = n.id_default_p2p_port id

  unfoldable pub to_prefixed : NetworkId → String
  to_prefixed id = n.id_to_prefixed id

  unfoldable pub to_string : NetworkId → String
  to_string id = n.id_to_string id

  unfoldable pub address_prefix : NetworkId → String
  address_prefix id = n.prefix_of id.network_type

  -- `From<PyNetworkId> for NetworkId`
  unfoldable pub into_network_id : NetworkId → NetworkId
  into_network_id value = record { network_type = value.network_type; suffix = value.suffix }

  unfoldable pub extract_network_id : PyAny → Option (PyResult NetworkId)
  extract_network_id obj = elim (n.extract_string obj) [
    | some s ↦ some (network_id_from_str s)
    | none ↦ elim (n.cast_type obj) [
      | some network_type ↦ id_of_type network_type
      | none ↦ elim (n.cast_id obj) [
        | some network_id ↦ some (ok network_id)
        | none ↦ some (err (exception "`network_id` must be a String or NetworkId instance"))
      ]
    ]
  ]
