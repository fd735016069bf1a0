-- ===== src/Tests/Iteration.antt =====
-- A generator that has so many transactions left.
use kaspa_python_sdk.Prelude.{
  ℕ, zero, suc, ◌<◌, ◌≡◌, refl, sym, ap, ◌⊎◌, String, Option, none, some, List, Result, ok, err,
  exception, arith,
}
use kaspa_python_sdk.Tx.Iteration.{Generating, IsFinite, next, estimate, create_transactions}
use kaspa_python_sdk.Tx.Exhaustion.{Yields, Fails, estimate-exhausts}

abbrev take_one : ℕ → ℕ × Option (Result String ℕ)
take_one zero = (zero, none)
take_one (suc n) = (n, some (ok n))

abbrev generating : Generating
generating = record {
  Generator = ℕ;
  PendingTransaction = ℕ;
  GeneratorSummary = ℕ;
  next = take_one;
  summary = λ n. n;
}

take_one_falls :
    (n later : ℕ) (result : Result String ℕ) → take_one n ≡ (later, some result) → later < n
take_one_falls zero later result h = absurd (ground (arith, ap (λ x. x.1) h))
take_one_falls (suc n) later result h = ground (arith, ap (λ x. x.0) h)

take_one_stays : (n later : ℕ) → take_one n ≡ (later, none) → take_one later ≡ (later, none)
take_one_stays zero later h = rw (sym (ap (λ x. x.0) h)) refl
take_one_stays (suc n) later h = absurd (ground (arith, ap (λ x. x.1) h))

abbrev finite : IsFinite generating
finite = record { left = λ n. n; falls = take_one_falls; stays = take_one_stays }

estimate-exhausts_example :
    ((transactions : List ℕ) × (end : ℕ) × Yields generating 2 transactions end
      × (estimate generating 3 2 ≡ some (end, ok end))
      × (create_transactions generating 3 2 ≡ some (end, ok (transactions, end)))
      × (next generating end ≡ (end, ok none)))
    ⊎ ((e : String) × (end : ℕ) × Fails generating 2 e end
        × (estimate generating 3 2 ≡ some (end, err (exception e)))
        × (create_transactions generating 3 2 ≡ some (end, err (exception e))))
estimate-exhausts_example = estimate-exhausts generating finite 3 2 (omega arith)
