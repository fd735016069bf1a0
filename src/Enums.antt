-- ===== src/Enums.antt =====
-- Enumerations that Python names by a text: src/consensus/core/hashing.rs, src/address.rs,
-- src/rpc/encoding.rs and src/wallet/bip32/language.rs. The child holds the proofs.
pub mod Texts
use kaspa_python_sdk.Prelude.{
  String, ◌==◌, eq_of_string, if◌then◌else◌, ok, err, PyErr, PyResult, exception, map_err,
}
use kaspa_python_sdk.Rpc.Connection.{PyEncoding, borsh, serde_json}

pub data PySighashType : Type 0 where
  all none single all_any_one_can_pay none_any_one_can_pay single_any_one_can_pay : PySighashType

pub data PyAddressVersion : Type 0 where
  pub_key pub_key_ecdsa script_hash : PyAddressVersion

pub data PyLanguage : Type 0 where
  english : PyLanguage

-- the arms of `match s.to_lowercase().as_str()`
unfoldable pub sighash_of_text : String → PyResult PySighashType
sighash_of_text text =
    if text == "all"
    then ok all
    else if text == "none"
    then ok none
    else if text == "single"
    then ok single
    else if text == "allanyonecanpay"
    then ok all_any_one_can_pay
    else if text == "noneanyonecanpay"
    then ok none_any_one_can_pay
    else if text == "singleanyonecanpay"
    then ok single_any_one_can_pay
    else err (exception "Unsupported string value for SighashType")

unfoldable pub version_of_text : String → PyResult PyAddressVersion
version_of_text text =
    if text == "pubkey"
    then ok pub_key
    else if text == "pubkeyecdsa"
    then ok pub_key_ecdsa
    else if text == "scripthash"
    then ok script_hash
    else err (exception "Unsupported string value for `AddressVersion`")

unfoldable pub encoding_of_text : String → PyResult PyEncoding
encoding_of_text text =
    if text == "borsh"
    then ok borsh
    else if text == "json"
    then ok serde_json
    else err (exception "Unsupported string value for Encoding")

unfoldable pub language_of_text : String → PyResult PyLanguage
language_of_text text =
    if text == "english"
    then ok english
    else err (exception "Unsupported string value for Language")

-- Python objects, `str::to_lowercase`, and the text of an exception, by which another is raised.
module _ (PyAny : Type 0) (extract_string : PyAny → PyResult String)
    (to_lowercase : String → String) (display : PyErr → String) where
  unfoldable pub sighash_from_str : String → PyResult PySighashType
  sighash_from_str s = sighash_of_text (to_lowercase s)

  unfoldable pub version_from_str : String → PyResult PyAddressVersion
  version_from_str s = version_of_text (to_lowercase s)

  unfoldable pub encoding_from_str : String → PyResult PyEncoding
  encoding_from_str s = encoding_of_text (to_lowercase s)

  unfoldable pub language_from_str : String → PyResult PyLanguage
  language_from_str s = language_of_text (to_lowercase s)

  -- `cast` gives the variant of an object that is one of the enumeration.
  unfoldable pub extract_sighash : (PyAny → PyResult PySighashType) → PyAny → PyResult PySighashType
  extract_sighash cast obj = elim (extract_string obj) [
    | ok s ↦ map_err (λ e. exception (display e)) (sighash_from_str s)
    | err _ ↦ elim (cast obj) [
      | ok t ↦ ok t
      | err _ ↦ err (exception "Expected type `str` or `SighashType`")
    ]
  ]

  unfoldable pub extract_version :
      (PyAny → PyResult PyAddressVersion) → PyAny → PyResult PyAddressVersion
  extract_version cast obj = elim (extract_string obj) [
    | ok s ↦ map_err (λ e. exception (display e)) (version_from_str s)
    | err _ ↦ elim (cast obj) [
      | ok t ↦ ok t
      | err _ ↦ err (exception "Expected type `str` or `AddressVersion`")
    ]
  ]

  unfoldable pub extract_encoding : (PyAny → PyResult PyEncoding) → PyAny → PyResult PyEncoding
  extract_encoding cast obj = elim (extract_string obj) [
    | ok s ↦ map_err (λ e. exception (display e)) (encoding_from_str s)
    | err _ ↦ elim (cast obj) [
      | ok t ↦ ok t
      | err _ ↦ err (exception "Expected type `str` or `Encoding`")
    ]
  ]

  unfoldable pub extract_language : (PyAny → PyResult PyLanguage) → PyAny → PyResult PyLanguage
  extract_language cast obj = elim (extract_string obj) [
    | ok s ↦ map_err (λ e. exception (display e)) (language_from_str s)
    | err _ ↦ elim (cast obj) [
      | ok t ↦ ok t
      | err _ ↦ err (exception "Expected type `str` or `Language`")
    ]
  ]
