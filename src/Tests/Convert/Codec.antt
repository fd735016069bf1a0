-- ===== src/Tests/Convert/Codec.antt =====
-- A code of byte lists as text that decodes again: each number in unary, closed by a zero.
use kaspa_python_sdk.Prelude.{
  ℕ, zero, suc, ◌+◌, ◌≡◌, refl, ap, ap₂, ◌∙◌, String, Bool, true, List, [], ◌∷◌, nat_beq, ◌==◌,
  eq_of_string, arith,
}
use Prim.Native.Char.{Char, code}
use native.Mathlib.Nat.{add-zero}

-- a character that is not a zero counts one
is_zero : Char → Bool
is_zero c = nat_beq (code c) 48

unfoldable pub ones : ℕ → String → String
ones zero s = String.◌∷◌ "0" s
ones (suc n) s = String.◌∷◌ "1" (ones n s)

unfoldable pub encode : List ℕ → String
encode [] = String.[]
encode (n ∷ ns) = ones n (encode ns)

decode_from : ℕ → String → List ℕ
unfolding is_zero
decode_from n String.[] = []
decode_from n (String.◌∷◌ c s) = elim (is_zero c) [
  | true ↦ n ∷ decode_from 0 s
  | _ ↦ decode_from (n + 1) s
]

unfoldable pub decode : String → List ℕ
unfolding decode_from
decode = decode_from 0

decode_from-ones : (n k : ℕ) (s : String) → decode_from k (ones n s) ≡ (k + n) ∷ decode_from 0 s
unfolding decode_from ones
decode_from-ones zero k s = rw add-zero
decode_from-ones (suc n) k s =
    decode_from-ones n (k + 1) s ∙ ap (λ m. m ∷ decode_from 0 s) (omega arith)

decode_from-encode : (ns : List ℕ) → decode_from 0 (encode ns) ≡ ns
unfolding encode decode_from
decode_from-encode [] = refl
decode_from-encode (n ∷ ns) =
    decode_from-ones n 0 (encode ns) ∙ ap₂ ◌∷◌ (omega arith) (decode_from-encode ns)

pub decode-encode : (ns : List ℕ) → decode (encode ns) ≡ ns
unfolding decode
decode-encode ns = decode_from-encode ns

pub encode-empty : (ns : List ℕ) → (encode ns == "") ≡ true → ns ≡ []
unfolding encode ones
encode-empty [] h = refl
encode-empty (zero ∷ ns) h =
    let e : encode (zero ∷ ns) ≡ "" = (eq_of_string.eq_test_iff _ _).0 h in cc e
encode-empty (suc n ∷ ns) h =
    let e : encode (suc n ∷ ns) ≡ "" = (eq_of_string.eq_test_iff _ _).0 h in cc e
