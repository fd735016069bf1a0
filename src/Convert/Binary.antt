-- ===== src/Convert/Binary.antt =====
-- `PyBinary` of src/types.rs: bytes given as hex text, as `bytes` or as a list of integers.
use kaspa_python_sdk.Prelude.{
  ℕ, String, Option, none, some, List, [], ◌∷◌, ok, err, PyErr, PyResult, exception, try_map, ◌≡◌,
  refl, arith, ◌⊎◌, inl, inr, is_ok, ap, ◌∙◌, ◌++◌, false, Result-cases,
}
use kaspa_python_sdk.Convert.Backend.{Backend}

abbrev pub binary_error : PyErr
binary_error = exception "Expected `str` (of valid hex), `bytes`, or `[int]`"

-- A conversion that panics, as `unwrap` does, gives `none`.
abbrev pub unwrap_all {ℓ κ} :
    {A : Type ℓ} {B : Type κ} → (A → PyResult B) → List A → Option (List B)
unwrap_all f [] = some []
unwrap_all f (x ∷ xs) =
    let rest = unwrap_all f xs in
    elim (f x) [ ok y ↦ elim rest [ some ys ↦ some (y ∷ ys) | none ↦ none ] | err _ ↦ none ]

module _ (b : Backend) where
  open b use {PyAny, extract_string, cast_bytes, cast_list, extract_u8, hex_decode}

  hex_text : String → PyResult (List ℕ)
  hex_text s = elim (hex_decode s) [
    | ok bytes ↦ ok bytes
    | err _ ↦ err (exception "Invalid hex string")
  ]

  -- `FromPyObject for PyBinary`: the bytes, or the exception
  unfoldable pub extract_binary : PyAny → PyResult (List ℕ)
  unfolding hex_text
  extract_binary value = elim (extract_string value) [
    | ok s ↦ hex_text s
    | err _ ↦ elim (cast_bytes value) [
      | ok bytes ↦ ok bytes
      | err _ ↦ elim (cast_list value) [
        | ok items ↦ try_map extract_u8 items
        | err _ ↦ err binary_error
      ]
    ]
  ]

  -- `TryFrom<&Bound<PyAny>> for PyBinary`; `none` is the panic of its `unwrap`.
  unfoldable pub try_from_any : PyAny → Option (PyResult (List ℕ))
  unfolding hex_text
  try_from_any value = elim (extract_string value) [
    | ok s ↦ some (hex_text s)
    | err _ ↦ elim (cast_bytes value) [
      | ok bytes ↦ some (ok bytes)
      | err _ ↦ elim (cast_list value) [
        | ok items ↦ elim (unwrap_all extract_u8 items) [
          | some bytes ↦ some (ok bytes)
          | none ↦ none
        ]
        | err _ ↦ some (err binary_error)
      ]
    ]
  ]

  -- the items before the first that `f` refuses, it, and the items after it
  abbrev pub FirstRefused : {A : Type 0} → (PyAny → PyResult A) → List PyAny → PyErr → Type 0
  FirstRefused {A} f items e =
      (accepted later : List PyAny) × (values : List A) × (item : PyAny) × (items
        ≡ accepted ++ item ∷ later)
      × (try_map f accepted ≡ ok values)
      × (f item ≡ err e)

  FirstRefused-cons :
      {A : Type 0} (f : PyAny → PyResult A) (x : PyAny) (y : A) (xs : List PyAny) (e : PyErr)
      → f x ≡ ok y
      → FirstRefused f xs e
      → FirstRefused f (x ∷ xs) e
  FirstRefused-cons f x y xs e accepts (accepted, later, values, item, split, before, refused) = (
    x ∷ accepted,
    later,
    y ∷ values,
    item,
    ap (λ r. x ∷ r) split,
    ground (arith, accepts, before),
    refused,
  )

  -- either no item is refused, and both walks give the same values, or one is first refused
  refused-cases :
      {A : Type 0} (f : PyAny → PyResult A) (xs : List PyAny)
      → ((ys : List A) × (unwrap_all f xs ≡ some ys) × (try_map f xs ≡ ok ys))
        ⊎ ((e : PyErr) × FirstRefused f xs e)
  refused-cases f [] = inl ([], refl, refl)
  refused-cases f (x ∷ xs) = elim (Result-cases (f x)) [
    | inr (e, refused) ↦ inr (e, ([], xs, [], x, refl, refl, refused))
    | inl (y, accepts) ↦ elim (refused-cases f xs) [
      | inl (ys, unwrapped, tried) ↦
          inl (y ∷ ys, ground (arith, accepts, unwrapped), ground (arith, accepts, tried))
      | inr (e, first) ↦ inr (e, FirstRefused-cons f x y xs e accepts first)
    ]
  ]

  walks-FirstRefused :
      {A : Type 0} (f : PyAny → PyResult A) (accepted later : List PyAny) (values : List A)
      (item : PyAny) (e : PyErr)
      → try_map f accepted ≡ ok values
      → f item ≡ err e
      → (unwrap_all f (accepted ++ item ∷ later) ≡ none)
        × (try_map f (accepted ++ item ∷ later) ≡ err e)
  walks-FirstRefused f [] later values item e before refused =
      (ground (arith, refused), ground (arith, refused))
  walks-FirstRefused f (x ∷ accepted) later values item e before refused =
      elim (Result-cases (f x)) [
        | inr (x', refuses) ↦ absurd (ground (arith, before, refuses))
        | inl (y, accepts) ↦ elim (Result-cases (try_map f accepted)) [
          | inr (x', fails) ↦ absurd (ground (arith, before, accepts, fails))
          | inl (ys, kept) ↦
              let (unwrapped, tried) = walks-FirstRefused f accepted later ys item e kept refused in
              (ground (arith, accepts, unwrapped), ground (arith, accepts, tried))
        ]
      ]

  not_ok : {A : Type 0} (r : PyResult A) → is_ok r ≡ false → (e : PyErr) × (r ≡ err e)
  not_ok (ok a) h = absurd (ground (arith, h))
  not_ok (err e) h = (e, refl)

  -- an object that is no text and no bytes, and a list of which an item is no byte
  abbrev pub IsBadList : PyAny → PyErr → Type 0
  IsBadList value e =
      (is_ok (extract_string value) ≡ false)
      × (is_ok (cast_bytes value) ≡ false)
      × (items : List PyAny) × (cast_list value ≡ ok items)
      × FirstRefused extract_u8 items e

  IsBadList-panics :
      (value : PyAny) (e : PyErr)
      → IsBadList value e
      → (try_from_any value ≡ none) × (extract_binary value ≡ err e)
  unfolding extract_binary try_from_any
  IsBadList-panics value e
        (text, bytes, items, listed, (accepted, later, values, item, split, before, refused)) =
      let (unwrapped, tried) =
        walks-FirstRefused extract_u8 accepted later values item e before refused in
      let walked = ap (unwrap_all extract_u8) split ∙ unwrapped in
      let raised = ap (try_map extract_u8) split ∙ tried in
      let (x, s) = not_ok (extract_string value) text in
      let (y, c) = not_ok (cast_bytes value) bytes in
      (rw (try_from_any, s, c, listed, walked) refl, rw (extract_binary, s, c, listed, raised) refl)

  binary-cases :
      (value : PyAny)
      → ((e : PyErr) × IsBadList value e) ⊎ (try_from_any value ≡ some (extract_binary value))
  unfolding extract_binary try_from_any
  binary-cases value = elim (Result-cases (extract_string value)) [
    | inl (x, s) ↦ inr (rw (try_from_any, extract_binary, s) refl)
    | inr (x, s) ↦ elim (Result-cases (cast_bytes value)) [
      | inl (y, c) ↦ inr (rw (try_from_any, extract_binary, s, c) refl)
      | inr (y, c) ↦ elim (Result-cases (cast_list value)) [
        | inr (z, l) ↦ inr (rw (try_from_any, extract_binary, s, c, l) refl)
        | inl (items, l) ↦ elim (refused-cases extract_u8 items) [
          | inl (ys, unwrapped, tried) ↦
              inr (rw (try_from_any, extract_binary, s, c, l, unwrapped, tried) refl)
          | inr (e, first) ↦ inl (e, (ground (arith, s), ground (arith, c), items, l, first))
        ]
      ]
    ]
  ]

  -- Either an object is no text and no bytes but a list, and an item of it is no byte: then
  -- `try_from_any` panics and `extract_binary` raises what the first such item raises. Or it is no such
  -- object: then the two conversions to bytes give the same result, without a panic.
  pub try_from_any-extract_binary :
      (value : PyAny)
      → ((e : PyErr) × IsBadList value e
          × (try_from_any value ≡ none)
          × (extract_binary value ≡ err e))
        ⊎ (((e : PyErr) → ¬ IsBadList value e) × (try_from_any value ≡ some (extract_binary value)))
  try_from_any-extract_binary value = elim (binary-cases value) [
    | inl (e, bad) ↦
        let (panics, raises) = IsBadList-panics value e bad in inl (e, bad, panics, raises)
    | inr same ↦ inr (λ e bad. ground (arith, same, (IsBadList-panics value e bad).0), same)
  ]

  -- hex text that decodes is the bytes
  pub extract_binary-string :
      (value : PyAny) {s : String} {bytes : List ℕ}
      → extract_string value ≡ ok s
      → hex_decode s ≡ ok bytes
      → extract_binary value ≡ ok bytes
  unfolding extract_binary
  extract_binary-string value p q = ground arith
