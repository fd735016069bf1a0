-- ===== src/Enums/Texts.antt =====
-- Which Python objects the enumerations take.
use kaspa_python_sdk.Prelude.{
  String, ◌≡◌, refl, ap, ◌∙◌, ◌↔◌, ◌⊎◌, inl, inr, Bool-cases, ◌==◌, eq_of_string, if◌then◌else◌, ok,
  err, PyErr, PyResult, exception, map_err, map_err-eq-ok, arith,
}
use kaspa_python_sdk.Rpc.Connection.{PyEncoding, borsh, serde_json}
use kaspa_python_sdk.Enums.{
  PySighashType, PyAddressVersion, PyLanguage, all, none, single, all_any_one_can_pay,
  none_any_one_can_pay, single_any_one_can_pay, pub_key, pub_key_ecdsa, script_hash, english,
  sighash_of_text, sighash_from_str, extract_sighash, version_of_text, version_from_str,
  extract_version, encoding_of_text, encoding_from_str, extract_encoding, language_of_text,
  language_from_str, extract_language,
}

abbrev pub sighash_name : PySighashType → String
sighash_name all = "all"
sighash_name none = "none"
sighash_name single = "single"
sighash_name all_any_one_can_pay = "allanyonecanpay"
sighash_name none_any_one_can_pay = "noneanyonecanpay"
sighash_name single_any_one_can_pay = "singleanyonecanpay"

abbrev pub version_name : PyAddressVersion → String
version_name pub_key = "pubkey"
version_name pub_key_ecdsa = "pubkeyecdsa"
version_name script_hash = "scripthash"

abbrev pub encoding_name : PyEncoding → String
encoding_name borsh = "borsh"
encoding_name serde_json = "json"

abbrev pub language_name : PyLanguage → String
language_name english = "english"

-- An object names a variant: it is a text that is the variant's name in lower case, or it is no text
-- and `cast` gives the variant.
abbrev pub NamesVariant {ℓ κ} :
    {PyAny : Type ℓ} {T : Type κ}
    → (PyAny → PyResult String)
    → (String → String)
    → (T → String)
    → (PyAny → PyResult T)
    → PyAny
    → T
    → Type κ
NamesVariant extract_string to_lowercase name cast obj t =
    ((s : String) × (extract_string obj ≡ ok s) × (to_lowercase s ≡ name t))
    ⊎ ((e : PyErr) × (extract_string obj ≡ err e) × (cast obj ≡ ok t))

sighash_of_text-sighash_name : (t : PySighashType) → sighash_of_text (sighash_name t) ≡ ok t
unfolding sighash_of_text
sighash_of_text-sighash_name all = refl
sighash_of_text-sighash_name none = refl
sighash_of_text-sighash_name single = refl
sighash_of_text-sighash_name all_any_one_can_pay = refl
sighash_of_text-sighash_name none_any_one_can_pay = refl
sighash_of_text-sighash_name single_any_one_can_pay = refl

version_of_text-version_name : (t : PyAddressVersion) → version_of_text (version_name t) ≡ ok t
unfolding version_of_text
version_of_text-version_name pub_key = refl
version_of_text-version_name pub_key_ecdsa = refl
version_of_text-version_name script_hash = refl

encoding_of_text-encoding_name : (t : PyEncoding) → encoding_of_text (encoding_name t) ≡ ok t
unfolding encoding_of_text
encoding_of_text-encoding_name borsh = refl
encoding_of_text-encoding_name serde_json = refl

language_of_text-language_name : (t : PyLanguage) → language_of_text (language_name t) ≡ ok t
unfolding language_of_text
language_of_text-language_name english = refl

-- an arm of the match: either its text is met and its variant returned, or the arms after it decide
arm {ℓ} :
    {T : Type ℓ} (text s : String) {t u : T} {rest : PyResult T}
    → (if text == s then ok u else rest) ≡ ok t
    → ((text ≡ s) × (u ≡ t)) ⊎ (rest ≡ ok t)
arm text s h = elim (Bool-cases (text == s)) [
  | inl same ↦ inl ((eq_of_string.eq_test_iff text s).0 same, ground (arith, h, same))
  | inr other ↦ inr (ground (arith, h, other))
]

sighash_of_text-eq-ok :
    (text : String) (t : PySighashType) → sighash_of_text text ≡ ok t → text ≡ sighash_name t
unfolding sighash_of_text
sighash_of_text-eq-ok text t h = elim (arm text "all" h) [
  | inl (same, e) ↦ same ∙ ap sighash_name e
  | inr h1 ↦ elim (arm text "none" h1) [
    | inl (same, e) ↦ same ∙ ap sighash_name e
    | inr h2 ↦ elim (arm text "single" h2) [
      | inl (same, e) ↦ same ∙ ap sighash_name e
      | inr h3 ↦ elim (arm text "allanyonecanpay" h3) [
        | inl (same, e) ↦ same ∙ ap sighash_name e
        | inr h4 ↦ elim (arm text "noneanyonecanpay" h4) [
          | inl (same, e) ↦ same ∙ ap sighash_name e
          | inr h5 ↦ elim (arm text "singleanyonecanpay" h5) [
            | inl (same, e) ↦ same ∙ ap sighash_name e
            | inr h6 ↦ ground (arith, h6)
          ]
        ]
      ]
    ]
  ]
]

version_of_text-eq-ok :
    (text : String) (t : PyAddressVersion) → version_of_text text ≡ ok t → text ≡ version_name t
unfolding version_of_text
version_of_text-eq-ok text t h = elim (arm text "pubkey" h) [
  | inl (same, e) ↦ same ∙ ap version_name e
  | inr h1 ↦ elim (arm text "pubkeyecdsa" h1) [
    | inl (same, e) ↦ same ∙ ap version_name e
    | inr h2 ↦ elim (arm text "scripthash" h2) [
      | inl (same, e) ↦ same ∙ ap version_name e
      | inr h3 ↦ ground (arith, h3)
    ]
  ]
]

encoding_of_text-eq-ok :
    (text : String) (t : PyEncoding) → encoding_of_text text ≡ ok t → text ≡ encoding_name t
unfolding encoding_of_text
encoding_of_text-eq-ok text t h = elim (arm text "borsh" h) [
  | inl (same, e) ↦ same ∙ ap encoding_name e
  | inr h1 ↦ elim (arm text "json" h1) [
    | inl (same, e) ↦ same ∙ ap encoding_name e
    | inr h2 ↦ ground (arith, h2)
  ]
]

language_of_text-eq-ok :
    (text : String) (t : PyLanguage) → language_of_text text ≡ ok t → text ≡ language_name t
unfolding language_of_text
language_of_text-eq-ok text t h = elim (arm text "english" h) [
  | inl (same, e) ↦ same ∙ ap language_name e
  | inr h1 ↦ ground (arith, h1)
]

-- What `extract` makes of the text of an object or else of its cast.
extract_iff :
    {T : Type 0} (display : PyErr → String) (message : String) (of_text : String → PyResult T)
    (to_lowercase : String → String) (name : T → String)
    (match_ok : (s : String) (t : T) → of_text s ≡ ok t → s ≡ name t)
    (match_name : (t : T) → of_text (name t) ≡ ok t) (text : PyResult String) (variant : PyResult T)
    (t : T)
    → ((elim text [
      | ok s ↦ map_err (λ e. exception (display e)) (of_text (to_lowercase s))
      | err _ ↦ elim variant [ ok u ↦ ok u | err _ ↦ err (exception message) ]
    ])
        ≡ ok t)
      ↔ (((s : String) × (text ≡ ok s) × (to_lowercase s ≡ name t))
          ⊎ ((e : PyErr) × (text ≡ err e) × (variant ≡ ok t)))
extract_iff display message of_text to_lowercase name match_ok match_name (ok s) variant t = (
  λ h. inl (s, refl, match_ok (to_lowercase s) t (map_err-eq-ok _ (of_text (to_lowercase s)) h)),
  λ h. elim h [
    | inl (s2, e, n) ↦ let same : to_lowercase s ≡ name t = cc in rw (same, match_name t) refl
    | inr (e, refused, _) ↦ absurd (ground (arith, refused))
  ],
)
extract_iff display message of_text to_lowercase name match_ok match_name (err x) (ok u) t = (
  λ h. inr (x, refl, h),
  λ h. elim h [ inl (s, e, _) ↦ absurd (ground (arith, e)) | inr (_, _, h) ↦ h ],
)
extract_iff display message of_text to_lowercase name match_ok match_name (err x) (err y) t = (
  λ h. absurd (ground (arith, h)),
  λ h. elim h [
    | inl (s, e, _) ↦ absurd (ground (arith, e))
    | inr (_, _, h) ↦ absurd (ground (arith, h))
  ],
)

module _ {PyAny : Type 0} (extract_string : PyAny → PyResult String)
    (to_lowercase : String → String) (display : PyErr → String) where
  -- The four enumerations take exactly the Python objects that name a variant, and give the variant:
  -- the texts that are its name when they are put in lower case, and, where the object is no text, the
  -- objects that are it.
  pub extract-NamesVariant :
      (cast_sighash : PyAny → PyResult PySighashType)
      (cast_version : PyAny → PyResult PyAddressVersion)
      (cast_encoding : PyAny → PyResult PyEncoding) (cast_language : PyAny → PyResult PyLanguage)
      (obj : PyAny)
      → ((t : PySighashType)
          → (extract_sighash PyAny extract_string to_lowercase display cast_sighash obj ≡ ok t)
            ↔ NamesVariant extract_string to_lowercase sighash_name cast_sighash obj t)
        × ((t : PyAddressVersion)
            → (extract_version PyAny extract_string to_lowercase display cast_version obj ≡ ok t)
              ↔ NamesVariant extract_string to_lowercase version_name cast_version obj t)
        × ((t : PyEncoding)
            → (extract_encoding PyAny extract_string to_lowercase display cast_encoding obj ≡ ok t)
              ↔ NamesVariant extract_string to_lowercase encoding_name cast_encoding obj t)
        × ((t : PyLanguage)
            → (extract_language PyAny extract_string to_lowercase display cast_language obj ≡ ok t)
              ↔ NamesVariant extract_string to_lowercase language_name cast_language obj t)
  unfolding extract_sighash sighash_from_str extract_version version_from_str extract_encoding
      encoding_from_str extract_language language_from_str
  extract-NamesVariant cast_sighash cast_version cast_encoding cast_language obj = (
    extract_iff display _ sighash_of_text to_lowercase sighash_name sighash_of_text-eq-ok
        sighash_of_text-sighash_name (extract_string obj) (cast_sighash obj),
    extract_iff display _ version_of_text to_lowercase version_name version_of_text-eq-ok
        version_of_text-version_name (extract_string obj) (cast_version obj),
    extract_iff display _ encoding_of_text to_lowercase encoding_name encoding_of_text-eq-ok
        encoding_of_text-encoding_name (extract_string obj) (cast_encoding obj),
    extract_iff display _ language_of_text to_lowercase language_name language_of_text-eq-ok
        language_of_text-language_name (extract_string obj) (cast_language obj),
  )
