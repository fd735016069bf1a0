-- ===== src/Prelude/Tests.antt =====
-- Boolean tests, the conditional, and equality as an interface.
use Prim.Native.Nat.{ℕ, ◌≤◌, ◌<◌, compare, Ordering}
use Prim.Native.String.{String}
use mathlib.Core.Path.{◌≡◌, refl}
use mathlib.Core.Logic.{◌↔◌, ◌⊎◌, inl, inr}
use mathlib.Core.Bool.{Bool, true, false, ◌||◌}
use mathlib.Core.List.{List, [], ◌∷◌}
use mathlib.Core.Option.{Option, none, some}
use native.Mathlib.Omega.{arith}
use text.Mathlib.Text.{◌==◌ as str_beq}
use text.Mathlib.TextEquality.{eq_iff}

abbrev pub ltb : ℕ → ℕ → Bool
ltb a b = elim (compare a b) [ Ordering.lt ↦ true | _ ↦ false ]

abbrev pub leb : ℕ → ℕ → Bool
leb a b = elim (compare a b) [ Ordering.gt ↦ false | _ ↦ true ]

abbrev pub nat_beq : ℕ → ℕ → Bool
nat_beq a b = elim (compare a b) [ Ordering.eq ↦ true | _ ↦ false ]

infix 1 if◌then◌else◌
abbrev pub if◌then◌else◌ {ℓ} : {A : Type ℓ} → Bool → A → A → A
if true then x else y = x
if false then x else y = y

pub ltb→lt : (a b : ℕ) → ltb a b ≡ true → a < b
ltb→lt a b h = ground arith

pub ltb→le : (a b : ℕ) → ltb a b ≡ false → b ≤ a
ltb→le a b h = ground arith

pub leb→le : (a b : ℕ) → leb a b ≡ true → a ≤ b
leb→le a b h = ground arith

pub nat_beq_iff : (a b : ℕ) → (nat_beq a b ≡ true) ↔ (a ≡ b)
nat_beq_iff a b = ground arith

pub nat_beq_refl : (a : ℕ) → nat_beq a a ≡ true
nat_beq_refl a = (nat_beq_iff a a).1 refl

-- `PartialEq` of a type that the source compares or uses as a key.
pub record PartialEq {ℓ} (K : Type ℓ) : Type ℓ where
  pub eq_test : (a b : K) → Bool
  pub eq_test_iff : (a b : K) → (eq_test a b ≡ true) ↔ (a ≡ b)

instance abbrev pub eq_of_string : PartialEq String
eq_of_string = record { eq_test = str_beq; eq_test_iff = eq_iff }

-- `a == b`
infix 50 ◌==◌
abbrev pub ◌==◌ {ℓ} : {K : Type ℓ} ⦃same : PartialEq K⦄ (a b : K) → Bool
◌==◌ ⦃same⦄ a b = same.eq_test a b

instance abbrev pub eq_of_nat : PartialEq ℕ
eq_of_nat = record { eq_test = nat_beq; eq_test_iff = nat_beq_iff }

pub ==_self {ℓ} : {A : Type ℓ} ⦃e : PartialEq A⦄ → (a : A) → (a == a) ≡ true
==_self ⦃e⦄ a = (e.eq_test_iff a a).1 refl

-- To split on a computed value and keep the equation.
pub Bool-cases : (b : Bool) → (b ≡ true) ⊎ (b ≡ false)
Bool-cases true = inl refl
Bool-cases false = inr refl

pub Option-cases {ℓ} : {A : Type ℓ} (o : Option A) → (o ≡ none) ⊎ ((a : A) × (o ≡ some a))
Option-cases none = inl refl
Option-cases (some a) = inr (a, refl)

-- Whether a list holds a value.
abbrev pub contains {ℓ} : {A : Type ℓ} ⦃e : PartialEq A⦄ → List A → A → Bool
contains [] a = false
contains (x ∷ xs) a = x == a || contains xs a
