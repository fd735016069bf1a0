-- ===== src/Signing/Backend.antt =====
-- What the signing functions use of pyo3, secp256k1 and the Kaspa crates.
use kaspa_python_sdk.Prelude.{ℕ, String, Bool, Option, List, Result, PyResult, map}

-- A call that changes a transaction behind its lock returns the transaction as it leaves it.
pub record Crypto : Type 1 where
  pub PyAny : Type 0
  pub PyPrivateKey : Type 0
  pub PyPublicKey : Type 0
  pub extract_key : PyAny → PyResult PyPrivateKey
  pub secret_bytes : PyPrivateKey → List ℕ
  pub Error : Type 0
  pub display : Error → String
  -- `format!("Unable to sign: {err:?}")`
  pub unable_to_sign : Error → String
  pub Transaction : Type 0
  pub PopulatedTransaction : Type 0
  pub SighashType : Type 0
  pub all : SighashType
  -- `sign_with_multiple_v3(..)?.unwrap()`, fully signed or not
  pub sign_with_multiple_v3 : Transaction → List (List ℕ) → Transaction × Result Error (Unit {0})
  pub tx_and_utxos : Transaction → Result Error PopulatedTransaction
  pub verify : PopulatedTransaction → Result Error (Unit {0})
  pub sign_input : PopulatedTransaction → ℕ → List ℕ → SighashType → List ℕ
  pub Hash : Type 0
  pub try_from : String → PyResult Hash
  pub as_bytes : Hash → List ℕ
  pub Message : Type 0
  pub from_digest_slice : List ℕ → Result Error Message
  pub Keypair : Type 0
  pub from_seckey_slice : List ℕ → Result Error Keypair
  pub sign_schnorr : Keypair → Message → List ℕ
  pub sig_hash_all : ℕ
  pub to_hex : List ℕ → String
  pub sign_message : String → List ℕ → Bool → Result Error (List ℕ)
  -- `hex_decode` into a buffer of so many bytes
  pub hex_decode : String → ℕ → Result Error (List ℕ)
  pub verify_message : String → List ℕ → PyPublicKey → Result Error (Unit {0})
  pub PendingTransaction : Type 0
  pub create_input_signature : PendingTransaction → ℕ → List ℕ → SighashType → Result Error (List ℕ)
  pub pending_fill_input :
      PendingTransaction → ℕ → List ℕ → PendingTransaction × Result Error (Unit {0})
  pub pending_sign_input :
      PendingTransaction → ℕ → List ℕ → SighashType → PendingTransaction × Result Error (Unit {0})
  pub try_sign_with_keys :
      PendingTransaction
      → List (List ℕ)
      → Option Bool
      → PendingTransaction × Result Error (Unit {0})

-- `zeroize` of a buffer
abbrev pub zeroize : List ℕ → List ℕ
zeroize bytes = map (λ _. 0) bytes

-- What a function returns, and what is in its buffers of secret bytes when it does.
pub record Signed (A : Type 0) : Type 0 where
  pub result : PyResult A
  pub left : List (List ℕ)
