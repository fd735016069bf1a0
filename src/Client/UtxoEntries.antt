-- ===== src/Client/UtxoEntries.antt =====
-- `PyUtxoEntries` of src/consensus/client/utxo.rs. `sort_by_key` is a stable sort, and a sum of u64
-- wraps around as in a release build.
use kaspa_python_sdk.Prelude.{
  ℕ, ◌+◌, ◌%◌, ◌^◌, ◌≤◌, ◌≡◌, refl, ap, ◌∙◌, List, [], ◌∷◌, leb, nat_beq, retain, if◌then◌else◌,
  arith, Bool-cases, inl, inr,
}
use kaspa_python_sdk.Convert.Backend.{Backend}
use kaspa_python_sdk.Convert.ToDict.{UtxoEntryReference}

module _ (b : Backend) where
  abbrev Entries : Type 0
  Entries = List (UtxoEntryReference b)

  -- `e.amount()`
  abbrev pub amount_of : UtxoEntryReference b → ℕ
  amount_of e = e.utxo.amount

  -- in front of the first entry of at least this amount
  unfoldable pub insert : UtxoEntryReference b → Entries → Entries
  insert e [] = e ∷ []
  insert e (x ∷ xs) =
      let later = insert e xs in if leb (amount_of e) (amount_of x) then e ∷ x ∷ xs else x ∷ later

  -- `items.sort_by_key(|e| e.amount())`
  unfoldable pub sort : Entries → Entries
  sort [] = []
  sort (e ∷ entries) = insert e (sort entries)

  -- `.map(|e| e.amount()).sum()` on top of what is summed so far
  unfoldable pub sum_from : ℕ → Entries → ℕ
  sum_from total [] = total
  sum_from total (e ∷ entries) = sum_from ((total + amount_of e) % 2 ^ 64) entries

  unfoldable pub amount : Entries → ℕ
  amount entries = sum_from 0 entries

  -- every amount is at least this
  pub data AreAbove : ℕ → Entries → Type 0 where
    none_above : {n : ℕ} → AreAbove n []
    above :
        {n : ℕ} {e : UtxoEntryReference b} {entries : Entries}
        → n ≤ amount_of e
        → AreAbove n entries
        → AreAbove n (e ∷ entries)

  -- the amounts do not fall
  pub data AreSorted : Entries → Type 0 where
    none_sorted : AreSorted []
    sorted :
        {e : UtxoEntryReference b} {entries : Entries}
        → AreAbove (amount_of e) entries
        → AreSorted entries
        → AreSorted (e ∷ entries)

  weaken : {m n : ℕ} {entries : Entries} → m ≤ n → AreAbove n entries → AreAbove m entries
  weaken h none_above = none_above
  weaken h (above k rest) = above (omega (arith, h, k)) (weaken h rest)

  insert-AreAbove :
      {n : ℕ} (e : UtxoEntryReference b) (entries : Entries)
      → n ≤ amount_of e
      → AreAbove n entries
      → AreAbove n (insert e entries)
  unfolding insert
  insert-AreAbove e [] h none_above = above h none_above
  insert-AreAbove e (x ∷ xs) h (above k rest) =
      elim (Bool-cases (leb (amount_of e) (amount_of x))) [
        | inl t ↦ rw (t, insert) (above h (above k rest))
        | inr t ↦ rw (t, insert) (above k (insert-AreAbove e xs h rest))
      ]

  insert-AreSorted :
      (e : UtxoEntryReference b) (entries : Entries)
      → AreSorted entries
      → AreSorted (insert e entries)
  unfolding insert
  insert-AreSorted e [] none_sorted = sorted none_above none_sorted
  insert-AreSorted e (x ∷ xs) (sorted low rest) =
      elim (Bool-cases (leb (amount_of e) (amount_of x))) [
        | inl t ↦
            let h : amount_of e ≤ amount_of x = ground (arith, t) in
            rw (t, insert) (sorted (above h (weaken h low)) (sorted low rest))
        | inr t ↦
            let h : amount_of x ≤ amount_of e = ground (arith, t) in
            rw (t, insert) (sorted (insert-AreAbove e xs h low) (insert-AreSorted e xs rest))
      ]

  sort-AreSorted : (entries : Entries) → AreSorted (sort entries)
  unfolding sort
  sort-AreSorted [] = none_sorted
  sort-AreSorted (e ∷ entries) = insert-AreSorted e (sort entries) (sort-AreSorted entries)

  -- the entries of one amount
  abbrev pub of_amount : ℕ → Entries → Entries
  of_amount n = retain (λ e. nat_beq (amount_of e) n)

  of_amount-insert :
      (n : ℕ) (e : UtxoEntryReference b) (entries : Entries)
      → of_amount n (insert e entries) ≡ of_amount n (e ∷ entries)
  unfolding insert
  of_amount-insert n e [] = refl
  of_amount-insert n e (x ∷ xs) = ground (arith, of_amount-insert n e xs)

  of_amount-sort : (n : ℕ) (entries : Entries) → of_amount n (sort entries) ≡ of_amount n entries
  unfolding sort
  of_amount-sort n [] = refl
  of_amount-sort n (e ∷ entries) =
      of_amount-insert n e (sort entries)
      ∙ ap (λ rest. if nat_beq (amount_of e) n then e ∷ rest else rest) (of_amount-sort n entries)

  add_swap : (t m n : ℕ) → ((t + m) % 2 ^ 64 + n) % 2 ^ 64 ≡ ((t + n) % 2 ^ 64 + m) % 2 ^ 64
  add_swap t m n = omega arith

  sum_from-insert :
      (total : ℕ) (e : UtxoEntryReference b) (entries : Entries)
      → sum_from total (insert e entries) ≡ sum_from total (e ∷ entries)
  unfolding insert sum_from
  sum_from-insert total e [] = refl
  sum_from-insert total e (x ∷ xs) = elim (Bool-cases (leb (amount_of e) (amount_of x))) [
    | inl t ↦ rw (t, insert) refl
    | inr t ↦
        rw (t, insert)
          (sum_from-insert ((total + amount_of x) % 2 ^ 64) e xs
            ∙ ap (λ n. sum_from n xs) (add_swap total (amount_of x) (amount_of e)))
  ]

  sum_from-sort :
      (total : ℕ) (entries : Entries) → sum_from total (sort entries) ≡ sum_from total entries
  unfolding sort sum_from
  sum_from-sort total [] = refl
  sum_from-sort total (e ∷ entries) =
      sum_from-insert total e (sort entries)
      ∙ sum_from-sort ((total + amount_of e) % 2 ^ 64) entries

  -- `sort` puts the entries in the order of their amounts, keeps those of each amount as they were,
  -- in their order, and does not change `amount`.
  pub sort-of_amount :
      (entries : Entries)
      → AreSorted (sort entries)
        × ((n : ℕ) → of_amount n (sort entries) ≡ of_amount n entries)
        × (amount (sort entries) ≡ amount entries)
  unfolding amount
  sort-of_amount entries =
      (sort-AreSorted entries, λ n. of_amount-sort n entries, sum_from-sort 0 entries)
