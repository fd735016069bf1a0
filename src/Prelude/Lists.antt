-- ===== src/Prelude/Lists.antt =====
-- Lists measured by native numbers, under the library's names.
use Prim.Native.Nat.{ℕ, zero, suc, ◌+◌, ◌-◌, min}
use mathlib.Core.Path.{◌≡◌, refl}
use mathlib.Core.Bool.{Bool, true, not}
use mathlib.Core.List.{List, [], ◌∷◌, ◌++◌}
use native.Mathlib.Omega.{arith}
use kaspa_python_sdk.Prelude.Tests.{if◌then◌else◌}

module _ {ℓ} {A : Type ℓ} where
  abbrev pub length : List A → ℕ
  length [] = 0
  length (x ∷ xs) = suc (length xs)

  abbrev pub take : ℕ → List A → List A
  take zero xs = []
  take (suc n) [] = []
  take (suc n) (x ∷ xs) = x ∷ take n xs

  abbrev pub drop : ℕ → List A → List A
  drop zero xs = xs
  drop (suc n) [] = []
  drop (suc n) (x ∷ xs) = drop n xs

  -- `retain`: the elements that pass the test, in order.
  abbrev pub retain : (A → Bool) → List A → List A
  retain p [] = []
  retain p (x ∷ xs) = let rest = retain p xs in if p x then x ∷ rest else rest

  -- How many elements pass the test.
  abbrev pub count_if : (A → Bool) → List A → ℕ
  count_if p [] = 0
  count_if p (x ∷ xs) = let rest = count_if p xs in if p x then suc rest else rest

  pub length-append : (xs ys : List A) → length (xs ++ ys) ≡ length xs + length ys
  length-append [] ys = omega arith
  length-append (x ∷ xs) ys = omega (arith, length-append xs ys)

  pub length-take : (n : ℕ) (xs : List A) → length (take n xs) ≡ min n (length xs)
  length-take zero xs = omega arith
  length-take (suc n) [] = omega arith
  length-take (suc n) (x ∷ xs) = omega (arith, length-take n xs)

  pub length-drop : (n : ℕ) (xs : List A) → length (drop n xs) ≡ length xs - n
  length-drop zero xs = omega arith
  length-drop (suc n) [] = omega arith
  length-drop (suc n) (x ∷ xs) = omega (arith, length-drop n xs)

  pub count_if-append :
      (p : A → Bool) (xs ys : List A) → count_if p (xs ++ ys) ≡ count_if p xs + count_if p ys
  count_if-append p [] ys = omega arith
  count_if-append p (x ∷ xs) ys = ground (arith, count_if-append p xs ys)

  pub retain-append :
      (p : A → Bool) (xs ys : List A) → retain p (xs ++ ys) ≡ retain p xs ++ retain p ys
  retain-append p [] ys = refl
  retain-append p (x ∷ xs) ys = ground (arith, retain-append p xs ys)

  -- Nothing that the test rejects is left.
  pub count_if-retain : (q : A → Bool) (xs : List A) → count_if q (retain (λ x. not (q x)) xs) ≡ 0
  count_if-retain q [] = refl
  count_if-retain q (x ∷ xs) = ground (arith, count_if-retain q xs)

  -- Where the test rejects nothing, nothing is dropped.
  pub retain_of_count_if :
      (q : A → Bool) (xs : List A) → count_if q xs ≡ 0 → retain (λ x. not (q x)) xs ≡ xs
  retain_of_count_if q [] h = refl
  retain_of_count_if q (x ∷ xs) h = ground (arith, retain_of_count_if q xs)

  -- A rejected element at the end is dropped again.
  pub retain-snoc :
      (q : A → Bool) (xs : List A) (x : A)
      → count_if q xs ≡ 0
      → q x ≡ true
      → retain (λ y. not (q y)) (xs ++ x ∷ []) ≡ xs
  retain-snoc q [] x h hx = ground arith
  retain-snoc q (y ∷ ys) x h hx = ground (arith, retain-snoc q ys x)

  pub retain_idem : (p : A → Bool) (xs : List A) → retain p (retain p xs) ≡ retain p xs
  retain_idem p [] = refl
  retain_idem p (x ∷ xs) = ground (arith, retain_idem p xs)
