-- ===== src/Context/Mature.antt =====
-- `mature_range` is a slice of the mature entries.
use kaspa_python_sdk.Prelude.{
  ℕ, ◌+◌, ◌-◌, ◌≤◌, ◌≡◌, refl, ap, ◌>>=◌, sym, ◌∙◌, List, [], ◌∷◌, ◌++◌, ok, err, exception, zero,
  suc, ltb, if◌then◌else◌, take, drop, length, length-drop, arith,
}
use native.Mathlib.Nat.{zero-add, suc-add}
use kaspa_python_sdk.Context.Backend.{Backend, Context}
use kaspa_python_sdk.Context.Methods.{mature_range}

module _ {ℓ} {A : Type ℓ} where
  drop_of_length-le : (n : ℕ) (xs : List A) → length xs ≤ n → drop n xs ≡ []
  drop_of_length-le zero [] h = refl
  drop_of_length-le zero (x ∷ xs) h = absurd (omega arith)
  drop_of_length-le (suc n) [] h = refl
  drop_of_length-le (suc n) (x ∷ xs) h = drop_of_length-le n xs (omega arith)

  take_of_length-le :
      (m n : ℕ) (xs : List A) → length xs ≤ m → length xs ≤ n → take m xs ≡ take n xs
  take_of_length-le zero zero xs h k = refl
  take_of_length-le zero (suc n) [] h k = refl
  take_of_length-le (suc m) zero [] h k = refl
  take_of_length-le (suc m) (suc n) [] h k = refl
  take_of_length-le zero n (x ∷ xs) h k = absurd (omega arith)
  take_of_length-le (suc m) zero (x ∷ xs) h k = absurd (omega arith)
  take_of_length-le (suc m) (suc n) (x ∷ xs) h k =
      ap (◌∷◌ x) (take_of_length-le m n xs (omega arith) (omega arith))

  take-nil : (n : ℕ) → take {A = A} n [] ≡ []
  take-nil zero = refl
  take-nil (suc n) = refl

  drop-nil : (n : ℕ) → drop {A = A} n [] ≡ []
  drop-nil zero = refl
  drop-nil (suc n) = refl

  take_of_eq_zero : (n : ℕ) (xs : List A) → n ≡ 0 → take n xs ≡ []
  take_of_eq_zero zero xs h = refl
  take_of_eq_zero (suc n) xs h = absurd (omega arith)

  take-append-take : (m n : ℕ) (xs : List A) → take m xs ++ take n (drop m xs) ≡ take (m + n) xs
  take-append-take zero n xs = rw zero-add
  take-append-take (suc m) n [] = take-nil n ∙ sym (take-nil (suc m + n))
  take-append-take (suc m) n (x ∷ xs) = rw suc-add (ap (◌∷◌ x) (take-append-take m n xs))

  drop-drop : (m n : ℕ) (xs : List A) → drop n (drop m xs) ≡ drop (m + n) xs
  drop-drop zero n xs = rw zero-add
  drop-drop (suc m) n [] = drop-nil n ∙ sym (drop-nil (suc m + n))
  drop-drop (suc m) n (x ∷ xs) = rw suc-add (drop-drop m n xs)

module _ (b : Backend) (context : Context b) where
  -- The stream yields as many entries as the wallet counts.
  abbrev pub IsCounted : Type 0
  IsCounted = length context.mature ≡ context.mature_utxo_size

  -- If the stream yields as many entries as the wallet counts, `mature_range` is the slice between
  -- its arguments, whether or not they pass the end, and an error exactly when they are out of
  -- order.
  pub mature_range-slice :
      IsCounted
      → (from_ to : ℕ)
      → mature_range b context from_ to ≡ (
          if ltb to from_
          then err (exception "'from_' must be <= 'to'")
          else ok (take (to - from_) (drop from_ context.mature)))
  unfolding mature_range
  mature_range-slice counted from_ to = ground (
    arith,
    length-drop from_ context.mature,
    drop_of_length-le from_ context.mature,
    take-nil {A = b.Entry} (to - from_),
    take_of_eq_zero (to - from_) (drop from_ context.mature),
    take_of_length-le (context.mature_utxo_size - from_) (to - from_) (drop from_ context.mature),
  )

  -- in order, the range is the slice
  mature_range-in_order :
      IsCounted
      → (i j : ℕ) → i ≤ j
      → mature_range b context i j ≡ ok (take (j - i) (drop i context.mature))
  mature_range-in_order counted i j p = ground (arith, mature_range-slice counted i j)

  -- If the stream yields as many entries as the wallet counts, two adjacent ranges make one: for
  -- `i ≤ j ≤ l` the ranges from `i` to `j` and from `j` to `l` succeed, and joined they are the
  -- range from `i` to `l`.
  pub mature_range-append :
      IsCounted
      → (i j l : ℕ) → i ≤ j
      → j ≤ l
      → (do
        first ← mature_range b context i j
        second ← mature_range b context j l
        ok (first ++ second))
        ≡ mature_range b context i l
  mature_range-append counted i j l p q = rw (mature_range-in_order counted i j p) (
      rw (mature_range-in_order counted j l q)
        (rw (mature_range-in_order counted i l (omega arith)) (ap ok joined)))
    where
      m : List b.Entry
      m = context.mature

      back : j ≡ i + (j - i)
      back = omega arith

      across : j - i + (l - j) ≡ l - i
      across = omega arith

      joined : take (j - i) (drop i m) ++ take (l - j) (drop j m) ≡ take (l - i) (drop i m)
      joined =
          ap (λ n. take (j - i) (drop i m) ++ take (l - j) (drop n m)) back
          ∙ rw (← drop-drop i (j - i) m)
              (take-append-take (j - i) (l - j) (drop i m) ∙ ap (λ n. take n (drop i m)) across)
