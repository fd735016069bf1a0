-- ===== src/Tx/Iteration.antt =====
-- The iteration of `Generator` (src/wallet/core/tx/generator/generator.rs), and `create_transactions`
-- and `estimate_transactions` (src/wallet/core/tx/utils.rs), which run it to its end. The loop is on
-- fuel, and `none` means that the fuel ran out.
use kaspa_python_sdk.Prelude.{
  ℕ, zero, suc, ◌<◌, ◌≡◌, String, Option, none, some, List, [], ◌∷◌, Result, ok, err, PyResult,
  exception,
}

-- The native generator. An iterator shares the state of its generator: `next` changes it.
pub record Generating : Type 1 where
  pub Generator : Type 0
  pub PendingTransaction : Type 0
  pub GeneratorSummary : Type 0
  pub next : Generator → Generator × Option (Result String PendingTransaction)
  pub summary : Generator → GeneratorSummary

-- Every transaction spends entries, and so few are left; and at its end a generator stays there.
pub record IsFinite (g : Generating) : Type 0 where
  pub left : g.Generator → ℕ
  pub falls :
      (generator later : g.Generator) (result : Result String g.PendingTransaction)
      → g.next generator ≡ (later, some result)
      → left later < left generator
  pub stays :
      (generator later : g.Generator)
      → g.next generator ≡ (later, none)
      → g.next later ≡ (later, none)

module _ (g : Generating) where
  open g use {Generator, PendingTransaction, GeneratorSummary}

  -- `__next__`
  unfoldable pub next : Generator → Generator × PyResult (Option PendingTransaction)
  next generator =
      let (later, item) = g.next generator in
      elim item [
        | none ↦ (later, ok none)
        | some (ok transaction) ↦ (later, ok (some transaction))
        | some (err e) ↦ (later, err (exception e))
      ]

  abbrev pub Collected : Type 0
  Collected = Option (Generator × Result String (List PendingTransaction))

  -- a transaction in front of those that follow
  abbrev pub in_front : PendingTransaction → Collected → Collected
  in_front transaction none = none
  in_front transaction (some (end, ok later)) = some (end, ok (transaction ∷ later))
  in_front transaction (some (end, err e)) = some (end, err e)

  -- `.iter().collect::<Result<Vec<_>>>()`
  unfoldable pub collect : ℕ → Generator → Collected
  collect zero generator = none
  collect (suc fuel) generator =
      let (later, item) = g.next generator in
      let rest = collect fuel later in
      elim item [
        | none ↦ some (later, ok [])
        | some (err e) ↦ some (later, err e)
        | some (ok transaction) ↦ in_front transaction rest
      ]

  -- `.map_err(..)?` on what was collected, and then the rest of the body
  abbrev collected :
      {A : Type 0}
      → (List PendingTransaction → Generator → A)
      → Collected
      → Option (Generator × PyResult A)
  collected body none = none
  collected body (some (end, ok transactions)) = some (end, ok (body transactions end))
  collected body (some (end, err e)) = some (end, err (exception e))

  unfoldable pub estimate : ℕ → Generator → Option (Generator × PyResult GeneratorSummary)
  estimate fuel generator = collected (λ _ end. g.summary end) (collect fuel generator)

  -- with the generator that the constructor made
  unfoldable pub create_transactions :
      ℕ → Generator → Option (Generator × PyResult (List PendingTransaction × GeneratorSummary))
  create_transactions fuel generator =
      collected (λ transactions end. (transactions, g.summary end)) (collect fuel generator)

  unfoldable pub estimate_transactions :
      ℕ → Generator → Option (Generator × PyResult GeneratorSummary)
  estimate_transactions fuel generator = collected (λ _ end. g.summary end) (collect fuel generator)
