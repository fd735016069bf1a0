-- ===== src/Prelude/Results.antt =====
-- `Result`, and the Python exceptions that the bindings raise.
use Prim.Native.Nat.{ℕ}
use Prim.Native.String.{String}
use mathlib.Core.Path.{◌≡◌, refl}
use mathlib.Core.Logic.{◌⊎◌, inl, inr}
use mathlib.Core.Bool.{Bool, true, false}
use mathlib.Core.List.{List, [], ◌∷◌}
use mathlib.Core.Option.{Option, none, some}
use native.Mathlib.Omega.{arith}

pub data Result {ℓ κ} (E : Type ℓ) (A : Type κ) : Type (ℓ ⊔ κ) where
  ok : A → Result E A
  err : E → Result E A

-- `PyErr`. `raised` is what pyo3 or the interpreter raises by itself: a failed `extract` or `cast`.
pub data PyErr : Type 0 where
  exception key_error value_error raised : String → PyErr
  fee_exceeds : (priority_fee amount : ℕ) → PyErr

-- `PyResult`.
abbrev pub PyResult {ℓ} : Type ℓ → Type ℓ
PyResult A = Result PyErr A

-- `?`: the rest of the body runs on a value, an error is returned.
infixl 5 ◌>>=◌ ◌>>◌
abbrev pub ◌>>=◌ {ℓ κ μ} :
    {E : Type ℓ} {A : Type κ} {B : Type μ} (r : Result E A) (rest : A → Result E B) → Result E B
err e >>= rest = err e
ok value >>= rest = rest value

abbrev pub ◌>>◌ {ℓ κ} : {E : Type ℓ} {B : Type κ} → Result E (Unit {0}) → Result E B → Result E B
err e >> rest = err e
ok _ >> rest = rest

-- `.map_err(f)`
abbrev pub map_err {ℓ κ μ} :
    {E : Type ℓ} {F : Type κ} {A : Type μ} → (E → F) → Result E A → Result F A
map_err f (ok a) = ok a
map_err f (err e) = err (f e)

-- `.map(f)`
abbrev pub map_ok {ℓ κ μ} :
    {E : Type ℓ} {A : Type κ} {B : Type μ} → (A → B) → Result E A → Result E B
map_ok f (ok a) = ok (f a)
map_ok f (err e) = err e

-- `.ok_or_else(|| e)`
abbrev pub ok_or {ℓ κ} : {E : Type ℓ} {A : Type κ} → E → Option A → Result E A
ok_or e none = err e
ok_or e (some a) = ok a

-- `.unwrap_or(d)`
abbrev pub unwrap_or {ℓ} : {A : Type ℓ} → A → Option A → A
unwrap_or d none = d
unwrap_or d (some a) = a

-- `.map(f).collect::<Result<Vec<_>, _>>()`: the first error ends the walk.
abbrev pub try_map {ℓ κ μ} :
    {E : Type ℓ} {A : Type κ} {B : Type μ} → (A → Result E B) → List A → Result E (List B)
try_map f [] = ok []
try_map f (x ∷ xs) = let rest = try_map f xs in f x >>= λ y. rest >>= λ ys. ok (y ∷ ys)

-- `.ok()`
abbrev pub ok_value {ℓ κ} : {E : Type ℓ} {A : Type κ} → Result E A → Option A
ok_value (ok a) = some a
ok_value (err _) = none

-- `.is_ok()`
abbrev pub is_ok {ℓ κ} : {E : Type ℓ} {A : Type κ} → Result E A → Bool
is_ok (ok _) = true
is_ok (err _) = false

pub >>=-eq-ok {ℓ κ μ} :
    {E : Type ℓ} {A : Type κ} {B : Type μ} (r : Result E A) (rest : A → Result E B) {b : B}
    → (r >>= rest) ≡ ok b
    → (value : A) × (r ≡ ok value) × (rest value ≡ ok b)
>>=-eq-ok (err e) rest h = cc
>>=-eq-ok (ok value) rest h = (value, refl, h)

pub map_err-eq-ok {ℓ κ μ} :
    {E : Type ℓ} {F : Type κ} {A : Type μ} (f : E → F) (r : Result E A) {a : A}
    → map_err f r ≡ ok a
    → r ≡ ok a
map_err-eq-ok f (ok x) h = ground (arith, h)
map_err-eq-ok f (err e) h = ground (arith, h)

pub ok_or-eq-ok {ℓ κ} :
    {E : Type ℓ} {A : Type κ} (e : E) (o : Option A) {a : A} → ok_or e o ≡ ok a → o ≡ some a
ok_or-eq-ok e (some x) h = ground (arith, h)
ok_or-eq-ok e none h = ground (arith, h)

pub ok_value-eq_some {ℓ κ} :
    {E : Type ℓ} {A : Type κ} (r : Result E A) {a : A} → ok_value r ≡ some a → r ≡ ok a
ok_value-eq_some (ok a) h = ground arith
ok_value-eq_some (err e) h = ground arith

-- To split on a computed result and keep the equation.
pub Result-cases {ℓ κ} :
    {E : Type ℓ} {A : Type κ} (r : Result E A) → ((a : A) × (r ≡ ok a)) ⊎ ((e : E) × (r ≡ err e))
Result-cases (ok a) = inl (a, refl)
Result-cases (err e) = inr (e, refl)
