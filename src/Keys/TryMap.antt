-- ===== src/Keys/TryMap.antt =====
-- `try_map`, the fallible walk over a range of indices, in one pass and in two.
use kaspa_python_sdk.Prelude.{
  ℕ, zero, suc, ◌+◌, ◌-◌, ◌≤◌, ◌≡◌, refl, ap, subst, List, [], ◌∷◌, map, Result, ok, ◌>>=◌, map_err,
  try_map, ok_value, length, arith,
}
use kaspa_python_sdk.Keys.Backend.{Backend, DerivesInOrder, range_from}

-- `lo..hi`
abbrev pub range : ℕ → ℕ → List ℕ
range lo hi = range_from lo (hi - lo)

pub length-range_from : (lo count : ℕ) → length (range_from lo count) ≡ count
length-range_from lo zero = refl
length-range_from lo (suc count) = ap suc (length-range_from (lo + 1) count)

module _ {ℓ κ μ} {E : Type ℓ} {A : Type κ} {B : Type μ} where
  pub length-try_map :
      (f : A → Result E B) (xs : List A) (ys : List B)
      → try_map f xs ≡ ok ys
      → length ys ≡ length xs
  length-try_map f [] ys h = ground arith
  length-try_map f (x ∷ xs) [] h = ground arith
  length-try_map f (x ∷ xs) (y ∷ ys) h = ground (arith, length-try_map f xs ys)

module _ {ℓ κ} {E F A B : Type ℓ} {X : Type κ} where
  -- A walk followed by a map, and one walk that maps each result.
  pub try_map-map :
      (c : E → F) (f : X → Result E A) (g : A → B) (xs : List X)
      → (map_err c (try_map f xs) >>= λ ys. ok (map g ys))
        ≡ try_map (λ x. map_err c (f x) >>= λ y. ok (g y)) xs
  try_map-map c f g [] = refl
  try_map-map c f g (x ∷ xs) = ground (arith, try_map-map c f g xs)

  -- Two walks succeed exactly when one walk that does both steps succeeds, with the same list.
  pub try_map-try_map :
      (c : E → F) (f : X → Result E A) (g : A → Result E B) (xs : List X)
      → ok_value (map_err c (try_map f xs) >>= λ ys. map_err c (try_map g ys))
        ≡ ok_value (try_map (λ x. map_err c (f x) >>= λ y. map_err c (g y)) xs)
  try_map-try_map c f g [] = refl
  try_map-try_map c f g (x ∷ xs) = ground (arith, try_map-try_map c f g xs)

pub derive_range :
    (b : Backend) (m : b.Manager) (lo hi : ℕ)
    → DerivesInOrder b
    → lo ≤ hi
    → b.derive_pubkey_range m lo hi ≡ try_map (b.derive_pubkey m) (range lo hi)
derive_range b m lo hi law h =
    subst (λ n. b.derive_pubkey_range m lo n ≡ try_map (b.derive_pubkey m) (range lo hi))
      (omega arith) (law m lo (hi - lo))
