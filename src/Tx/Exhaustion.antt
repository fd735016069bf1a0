-- ===== src/Tx/Exhaustion.antt =====
-- What is left of a generator after `estimate`.
use kaspa_python_sdk.Prelude.{
  ℕ, zero, suc, ◌<◌, ◌≡◌, refl, ap, ◌⊎◌, inl, inr, String, Option, none, some, List, [], ◌∷◌,
  Result, ok, err, exception, arith,
}
use kaspa_python_sdk.Tx.Iteration.{
  Generating, IsFinite, Collected, in_front, collect, estimate, create_transactions, next,
}

module _ (g : Generating) where
  open g use {Generator, PendingTransaction, GeneratorSummary}

  -- The generator yields these transactions and is then at its end; or it yields some and then fails.
  pub data Yields : Generator → List PendingTransaction → Generator → Type 0 where
    ends : {generator end : Generator} → g.next generator ≡ (end, none) → Yields generator [] end
    yields :
        {generator later end : Generator} {transaction : PendingTransaction}
        {transactions : List PendingTransaction}
        → g.next generator ≡ (later, some (ok transaction))
        → Yields later transactions end
        → Yields generator (transaction ∷ transactions) end

  pub data Fails : Generator → String → Generator → Type 0 where
    fails :
        {generator end : Generator} {e : String}
        → g.next generator ≡ (end, some (err e))
        → Fails generator e end
    fails_later :
        {generator later end : Generator} {transaction : PendingTransaction} {e : String}
        → g.next generator ≡ (later, some (ok transaction))
        → Fails later e end
        → Fails generator e end

  -- what a collection from this generator comes to
  abbrev Comes : Generator → Collected g → Type 0
  Comes generator outcome =
      ((transactions : List PendingTransaction) × (end : Generator) × Yields generator transactions
          end
        × (outcome ≡ some (end, ok transactions)))
      ⊎ ((e : String) × (end : Generator) × Fails generator e end × (outcome ≡ some (end, err e)))

  Comes-in_front :
      (generator later : Generator) (transaction : PendingTransaction) (rest : Collected g)
      → g.next generator ≡ (later, some (ok transaction))
      → Comes later rest
      → Comes generator (in_front g transaction rest)
  Comes-in_front generator later transaction rest step (inl (transactions, end, ys, e)) =
      inl (transaction ∷ transactions, end, yields step ys, ap (in_front g transaction) e)
  Comes-in_front generator later transaction rest step (inr (message, end, fs, e)) =
      inr (message, end, fails_later step fs, ap (in_front g transaction) e)

  collect-at :
      (law : IsFinite g) (fuel : ℕ) (generator : Generator)
      (result : Generator × Option (Result String PendingTransaction))
      → g.next generator ≡ result
      → law.left generator < suc fuel
      → ((later : Generator) → law.left later < fuel → Comes later (collect g fuel later))
      → Comes generator (collect g (suc fuel) generator)
  unfolding collect
  collect-at law fuel generator (later, none) e h rest =
      inl ([], later, ends e, rw (e, collect, e) refl)
  collect-at law fuel generator (later, some (err message)) e h rest =
      inr (message, later, fails e, rw (e, collect, e) refl)
  collect-at law fuel generator (later, some (ok transaction)) e h rest =
      rw (e, collect, e)
        (Comes-in_front generator later transaction (collect g fuel later) e
          (rest later (omega (arith, h, law.falls generator later (ok transaction) e))))

  collect-Comes :
      (law : IsFinite g) (fuel : ℕ) (generator : Generator)
      → law.left generator < fuel
      → Comes generator (collect g fuel generator)
  collect-Comes law zero generator h = elim h [ ]
  collect-Comes law (suc fuel) generator h =
      collect-at law fuel generator (g.next generator) refl h
        (λ later small. collect-Comes law fuel later small)

  Yields-end :
      (law : IsFinite g) {generator end : Generator} {transactions : List PendingTransaction}
      → Yields generator transactions end
      → g.next end ≡ (end, none)
  Yields-end law (ends {generator = generator} {end = end} e) = law.stays generator end e
  Yields-end law (yields e rest) = Yields-end law rest

  -- If every transaction that the native generator yields lessens what it has left, and it stays at
  -- its end, then with more fuel than it has left `estimate` comes to a result. Either it generates
  -- all transactions, the same as `create_transactions`, and with the same summary, and the
  -- generator has no transaction left, so that `__next__` gives none; or both fail with the error at
  -- which the generator fails.
  pub estimate-exhausts :
      (law : IsFinite g) (fuel : ℕ) (generator : Generator)
      → law.left generator < fuel
      → ((transactions : List PendingTransaction) × (end : Generator) × Yields generator
            transactions end
          × (estimate g fuel generator ≡ some (end, ok (g.summary end)))
          × (create_transactions g fuel generator ≡ some (end, ok (transactions, g.summary end)))
          × (next g end ≡ (end, ok none)))
        ⊎ ((e : String) × (end : Generator) × Fails generator e end
            × (estimate g fuel generator ≡ some (end, err (exception e)))
            × (create_transactions g fuel generator ≡ some (end, err (exception e))))
  unfolding estimate create_transactions next
  estimate-exhausts law fuel generator h = elim (collect-Comes law fuel generator h) [
    | inl (transactions, end, ys, e) ↦ inl (
      transactions,
      end,
      ys,
      rw e refl,
      rw e refl,
      rw (Yields-end law ys, next, Yields-end law ys) refl,
    )
    | inr (message, end, fs, e) ↦ inr (message, end, fs, rw e refl, rw e refl)
  ]
