-- ===== src/Script/Hex.antt =====
-- The hex text of a script: `to_string` of src/crypto/txscript/builder.rs.
use kaspa_python_sdk.Prelude.{
  ℕ, ◌+◌, ◌-◌, ◌*◌, ◌/◌, ◌%◌, ◌<◌, ◌≡◌, refl, sym, ap, false, Option, none, some, List, [], ◌∷◌,
  ltb, if◌then◌else◌, arith, ok,
}
use kaspa_python_sdk.Convert.Backend.{Backend}
use kaspa_python_sdk.Script.Handles.{same_cell_at}
use kaspa_python_sdk.Script.Builder.{Native, returns, Heap, hex_digit, hex_of, to_string, locked}

-- the value of a hex digit, in either case
abbrev digit_value : ℕ → Option ℕ
digit_value code =
    if ltb code b'0'
    then none
    else if ltb code (b'9' + 1)
    then some (code - b'0')
    else if ltb code b'A'
    then none
    else if ltb code (b'F' + 1)
    then some (code - b'A' + 10)
    else if ltb code b'a'
    then none
    else if ltb code (b'f' + 1)
    then some (code - b'a' + 10)
    else none

abbrev byte_value : Option ℕ → Option ℕ → Option (List ℕ) → Option (List ℕ)
byte_value (some high) (some low) (some bytes) = some ((high * 16 + low) ∷ bytes)
byte_value _ _ _ = none

-- The bytes that a hex text of two digits for each stands for.
unfoldable pub bytes_of_hex : List ℕ → Option (List ℕ)
bytes_of_hex [] = some []
bytes_of_hex (_ ∷ []) = none
bytes_of_hex (high ∷ low ∷ text) =
    byte_value (digit_value high) (digit_value low) (bytes_of_hex text)

pub data AreBytes : List ℕ → Type 0 where
  none_left : AreBytes []
  byte : {n : ℕ} {bytes : List ℕ} → n < 256 → AreBytes bytes → AreBytes (n ∷ bytes)

digit_value-hex_digit : (d : ℕ) → d < 16 → digit_value (hex_digit d) ≡ some d
unfolding hex_digit
digit_value-hex_digit d h = ground arith

bytes_of_hex-hex_of :
    {script : List ℕ} → AreBytes script → bytes_of_hex (hex_of script) ≡ some script
unfolding hex_of bytes_of_hex
bytes_of_hex-hex_of none_left = refl
bytes_of_hex-hex_of (byte {n = n} {bytes = bytes} small rest) =
    rw
      (
        digit_value-hex_digit (n / 16) (omega arith),
        digit_value-hex_digit (n % 16) (omega arith),
        bytes_of_hex-hex_of rest,
      )
      (ap (λ m. some (m ∷ bytes)) (omega arith))

-- `to_string` of a builder whose lock is not poisoned gives a text that stands for exactly the bytes
-- of the script, and no builder changes.
pub to_string-bytes_of_hex :
    (b : Backend) (n : Native b) (r : ℕ) (h : Heap b n)
    → (h.cell r).poisoned ≡ false
    → AreBytes (n.script (h.cell r).builder)
    → (text : List ℕ) × ((to_string b n r h).1 ≡ returns (ok text))
      × (bytes_of_hex text ≡ some (n.script (h.cell r).builder))
      × ((i : ℕ) → (to_string b n r h).0.cell i ≡ h.cell i)
unfolding to_string locked
to_string-bytes_of_hex b n r h sound bytes = (
  hex_of (n.script (h.cell r).builder),
  rw sound refl,
  bytes_of_hex-hex_of bytes,
  λ i. rw sound (sym (same_cell_at b n r h sound i)),
)
