-- ===== src/Convert/Backend.antt =====
-- What the conversions call: Python objects through pyo3, hex, serde, and the types of the crates
-- kaspa_addresses and kaspa_consensus_core; then the laws of these, under which a round trip holds.
use kaspa_python_sdk.Prelude.{
  ℕ, ◌<◌, ◌^◌, String, Bool, true, false, Option, none, some, List, [], Result, ok, err, PyErr,
  PyResult, ◌≡◌, ◌==◌, eq_of_string, if◌then◌else◌,
}

pub record Backend : Type 1 where
  pub PyAny : Type 0
  pub PyDict : Type 0
  pub Address : Type 0
  pub Hash : Type 0
  pub SubnetworkId : Type 0
  pub ScriptPublicKey : Type 0
  -- `TransactionOutpoint`, which serde converts as a whole
  pub TransactionOutpoint : Type 0
  -- `PyDict::new`, `set_item` and `get_item` at string keys, which cannot raise
  pub empty : PyDict
  pub set_item : PyDict → String → PyAny → PyDict
  pub get_item : PyDict → String → Option PyAny
  -- the objects that `set_item` makes of Rust values
  pub of_none : PyAny
  pub of_string : String → PyAny
  pub of_int : ℕ → PyAny
  pub of_bool : Bool → PyAny
  pub of_dict : PyDict → PyAny
  pub of_list : List PyAny → PyAny
  -- `extract` and `cast`
  pub is_none : PyAny → Bool
  pub extract_string : PyAny → PyResult String
  pub extract_u8 : PyAny → PyResult ℕ
  pub extract_u16 : PyAny → PyResult ℕ
  pub extract_u64 : PyAny → PyResult ℕ
  pub extract_bool : PyAny → PyResult Bool
  pub extract_spk : PyAny → PyResult ScriptPublicKey
  pub cast_dict : PyAny → PyResult PyDict
  pub cast_list : PyAny → PyResult (List PyAny)
  pub cast_bytes : PyAny → PyResult (List ℕ)
  -- `to_hex`; `faster_hex::hex_decode` and `Vec::from_hex`
  pub to_hex : List ℕ → String
  pub hex_decode : String → Result String (List ℕ)
  pub vec_from_hex : String → Result String (List ℕ)
  pub address_to_string : Address → String
  pub address_from_string : String → Result String Address
  pub hash_to_hex : Hash → String
  pub hash_from_hex : String → Result String Hash
  pub subnetwork_to_hex : SubnetworkId → String
  pub subnetwork_from_bytes : List ℕ → Result String SubnetworkId
  -- `ScriptPublicKey::new`, `version()`, `script_as_hex()` and `FromStr`
  pub new_spk : ℕ → List ℕ → ScriptPublicKey
  pub spk_version : ScriptPublicKey → ℕ
  pub script_as_hex : ScriptPublicKey → String
  pub spk_from_str : String → Result String ScriptPublicKey
  -- `serde_pyobject::to_pyobject(outpoint.inner())` and `from_pyobject`
  pub outpoint_to_dict : TransactionOutpoint → PyDict
  pub outpoint_from_dict : PyDict → PyResult TransactionOutpoint

-- What the conversions rely on: a value put into a dict is found again under its key and extracts
-- as itself, and what is printed parses back.
pub record IsLawful (b : Backend) : Type 0 where
  pub get-empty : (k : String) → b.get_item b.empty k ≡ none
  pub get-set :
      (d : b.PyDict) (k : String) (v : b.PyAny) (j : String)
      → b.get_item (b.set_item d k v) j ≡ (if k == j then some v else b.get_item d j)
  pub none_is_none : b.is_none b.of_none ≡ true
  pub string_is_none : (s : String) → b.is_none (b.of_string s) ≡ false
  pub dict_is_none : (d : b.PyDict) → b.is_none (b.of_dict d) ≡ false
  pub string : (s : String) → b.extract_string (b.of_string s) ≡ ok s
  pub u8 : (n : ℕ) → n < 2 ^ 8 → b.extract_u8 (b.of_int n) ≡ ok n
  pub u16 : (n : ℕ) → n < 2 ^ 16 → b.extract_u16 (b.of_int n) ≡ ok n
  pub u64 : (n : ℕ) → n < 2 ^ 64 → b.extract_u64 (b.of_int n) ≡ ok n
  pub bool : (x : Bool) → b.extract_bool (b.of_bool x) ≡ ok x
  pub dict : (d : b.PyDict) → b.cast_dict (b.of_dict d) ≡ ok d
  pub list : (l : List b.PyAny) → b.cast_list (b.of_list l) ≡ ok l
  -- a dict is neither a string nor an instance of `ScriptPublicKey`
  pub dict_no_spk : (d : b.PyDict) → (e : PyErr) × (b.extract_spk (b.of_dict d) ≡ err e)
  pub dict_no_string : (d : b.PyDict) → (e : PyErr) × (b.extract_string (b.of_dict d) ≡ err e)
  -- the text of a script, of a signature and of a payload
  pub hex_decode-to_hex : (bytes : List ℕ) → b.hex_decode (b.to_hex bytes) ≡ ok bytes
  pub vec_from_hex-to_hex : (bytes : List ℕ) → b.vec_from_hex (b.to_hex bytes) ≡ ok bytes
  pub to_hex-empty : (bytes : List ℕ) → (b.to_hex bytes == "") ≡ true → bytes ≡ []
  pub address : (a : b.Address) → b.address_from_string (b.address_to_string a) ≡ ok a
  pub hash : (h : b.Hash) → b.hash_from_hex (b.hash_to_hex h) ≡ ok h
  pub subnetwork :
      (s : b.SubnetworkId)
      → (bytes : List ℕ) × (b.vec_from_hex (b.subnetwork_to_hex s) ≡ ok bytes)
        × (b.subnetwork_from_bytes bytes ≡ ok s)
  pub spk :
      (s : b.ScriptPublicKey)
      → (script : List ℕ) × (b.hex_decode (b.script_as_hex s) ≡ ok script)
        × (b.new_spk (b.spk_version s) script ≡ s)
  pub spk_version_u16 : (s : b.ScriptPublicKey) → b.spk_version s < 2 ^ 16
  pub outpoint : (o : b.TransactionOutpoint) → b.outpoint_from_dict (b.outpoint_to_dict o) ≡ ok o
