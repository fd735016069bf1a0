-- ===== src/Keys/Mnemonic.antt =====
-- `PyMnemonic` of src/wallet/bip32/phrase.rs: what a setter changes is returned.
use kaspa_python_sdk.Prelude.{
  ℕ, ◌≡◌, refl, String, Bool, Option, List, Result, ok, err, PyResult, exception, map_err,
  unwrap_or, is_ok, ◌>>=◌,
}
use kaspa_python_sdk.Enums.{PyLanguage, english}

-- `Mnemonic` of kaspa_bip32. `random` is its outcome for the numbers that the system gives it.
pub record Mnemonics : Type 1 where
  pub Mnemonic : Type 0
  pub WordCount : Type 0
  pub new : String → PyLanguage → Result String Mnemonic
  pub random : WordCount → PyLanguage → Result String Mnemonic
  pub default_language : PyLanguage
  pub word_count : ℕ → Result String WordCount
  pub entropy : Mnemonic → String
  pub set_entropy : Mnemonic → String → Mnemonic
  pub phrase : Mnemonic → String
  pub set_phrase : Mnemonic → String → Mnemonic
  -- `to_seed(..).as_bytes()`
  pub to_seed : Mnemonic → String → List ℕ
  pub to_hex : List ℕ → String

module _ (m : Mnemonics) where
  open m use {Mnemonic}

  unfoldable pub constructor_of : String → Option PyLanguage → PyResult Mnemonic
  constructor_of phrase language = map_err exception (m.new phrase (unwrap_or english language))

  unfoldable pub validate : String → Option PyLanguage → Bool
  validate phrase language = is_ok (m.new phrase (unwrap_or english language))

  unfoldable pub get_entropy : Mnemonic → String
  get_entropy mnemonic = m.entropy mnemonic

  unfoldable pub set_entropy : Mnemonic → String → Mnemonic
  set_entropy mnemonic value = m.set_entropy mnemonic value

  unfoldable pub create_random : Option ℕ → PyResult Mnemonic
  create_random word_count = do
    count ← map_err exception (m.word_count (unwrap_or 24 word_count))
    map_err exception (m.random count m.default_language)

  unfoldable pub get_phrase : Mnemonic → String
  get_phrase mnemonic = m.phrase mnemonic

  unfoldable pub set_phrase : Mnemonic → String → Mnemonic
  set_phrase mnemonic value = m.set_phrase mnemonic value

  unfoldable pub create_seed : Mnemonic → Option String → String
  create_seed mnemonic password = m.to_hex (m.to_seed mnemonic (unwrap_or "" password))

  is_ok-map_err {ℓ κ μ} :
      {E : Type ℓ} {F : Type κ} {A : Type μ} (f : E → F) (r : Result E A)
      → is_ok (map_err f r) ≡ is_ok r
  is_ok-map_err f (ok a) = refl
  is_ok-map_err f (err e) = refl

  -- `validate` tells exactly whether the constructor takes the phrase.
  pub validate-constructor_of :
      (phrase : String) (language : Option PyLanguage)
      → is_ok (constructor_of phrase language) ≡ validate phrase language
  unfolding constructor_of validate
  validate-constructor_of phrase language = is_ok-map_err exception _
