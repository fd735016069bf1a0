-- ===== src/Script/Comparison.antt =====
-- `__eq__` of two script builders, src/crypto/txscript/builder.rs. The locks that the two calls of
-- `inner` take are both held to the end of the comparison.
use kaspa_python_sdk.Prelude.{
  ℕ, ◌≡◌, ◌≢◌, ◌↔◌, refl, sym, ap, ◌∙◌, String, Bool, true, false, List, Result, ok, err, PyResult,
  PartialEq, Bool-cases, Result-cases, inl, inr, if◌then◌else◌, nat_beq, nat_beq_iff, nat_beq_refl,
  arith, is_ok,
}
use kaspa_python_sdk.Convert.Backend.{Backend}
use kaspa_python_sdk.Client.Equality.{serialized_eq, serialized_eq_iff}
use kaspa_python_sdk.Script.Builder.{
  Native, Outcome, returns, panics, Cell, Heap, write, added, extract_op, extract_ops,
}
use kaspa_python_sdk.Script.Methods.{
  Method, adds_op, adds_ops, adds_data, adds_i64, adds_lock_time, adds_sequence, prints,
  creates_script, encodes_signature, drains, Answer, handle, map_outcome, call, calls,
}
use kaspa_python_sdk.Script.Poison.{IsCallable, poisoned-panics}
use kaspa_python_sdk.Script.Handles.{under_lock, with_operand, alone, call-IsLocal}

-- What a comparison comes to. A thread that locks a `Mutex` which it holds does not get it: it waits
-- for itself, or panics.
pub data Compared : Type 0 where
  compares : Bool → Compared
  panicked never_returns : Compared

module _ (b : Backend) (n : Native b) where
  -- A panic of the second `inner` comes under the first lock, and poisons it.
  unfoldable pub eq {κ} :
      {Bytes : Type κ} ⦃same : PartialEq Bytes⦄
      → (List ℕ → Result String Bytes)
      → ℕ
      → ℕ
      → Heap b n
      → Heap b n × Compared
  eq serialize self other h =
      if (h.cell self).poisoned
      then (h, panicked)
      else if nat_beq other self
      then (h, never_returns)
      else if (h.cell other).poisoned
      then (
        write b n h self (record { builder = (h.cell self).builder; poisoned = true }),
        panicked,
      )
      else (
        h,
        compares (
            serialized_eq serialize (n.script (h.cell self).builder)
              (n.script (h.cell other).builder)),
      )

  added-handle :
      (r r2 : ℕ) (f : n.ScriptBuilder → n.ScriptBuilder × Result String (Unit {0})) (c : Cell b n)
      → map_outcome b n handle (under_lock b n (λ builder. added b n r (f builder)) c).1
        ≡ returns (ok (handle r2))
      → (r2 ≡ r) × ((under_lock b n (λ builder. added b n r (f builder)) c).0.poisoned ≡ false)
  unfolding under_lock added map_outcome
  added-handle r r2 f c h = elim (Bool-cases c.poisoned) [
    | inl e ↦ absurd (ground (arith, (rw (under_lock, e) at h)))
    | inr e ↦ elim (Result-cases (f c.builder).1) [
      | inl (x, done) ↦
          let answer : returns (ok (handle r)) ≡ returns (ok (handle r2)) =
            rw (under_lock, e, added, done) at h in
          (ground (arith, answer), rw (under_lock, e) refl)
      | inr (x, done) ↦ absurd (ground (arith, (rw (under_lock, e, added, done) at h)))
    ]
  ]

  no_handle :
      {A : Type 0} (f : A → Answer b n) (r2 : ℕ)
      → ((a : A) → f a ≢ handle r2)
      → (done : Outcome A) → map_outcome b n f done ≢ returns (ok (handle r2))
  unfolding map_outcome
  no_handle f r2 other (returns (ok a)) h = other a (ground (arith, h))
  no_handle f r2 other (returns (err e)) h = ground (arith, h)
  no_handle f r2 other panics h = ground (arith, h)

  -- the method answers a handle only to its own builder, which is then sound
  abbrev AnswersItself : ℕ → ℕ → Cell b n × Outcome ℕ → Type 0
  AnswersItself r r2 done =
      map_outcome b n handle done.1 ≡ returns (ok (handle r2))
      → (r2 ≡ r) × (done.0.poisoned ≡ false)

  with_operand-handle :
      {A : Type 0} (r r2 : ℕ) (operand : PyResult A) (f : A → Cell b n → Cell b n × Outcome ℕ)
      (c : Cell b n)
      → ((a : A) → AnswersItself r r2 (f a c))
      → AnswersItself r r2 (with_operand b n operand f c)
  unfolding with_operand map_outcome
  with_operand-handle r r2 (ok a) f c each h = each a h
  with_operand-handle r r2 (err e) f c each h = absurd (ground (arith, h))

  alone-handle :
      (m : Method b n) (r r2 : ℕ) (c : Cell b n)
      → (alone b n r m c).1 ≡ returns (ok (handle r2))
      → (r2 ≡ r) × ((alone b n r m c).0.poisoned ≡ false)
  unfolding alone with_operand
  alone-handle (adds_op op) r r2 c h =
      with_operand-handle r r2 (extract_op b n op) _ c
        (λ value k. added-handle r r2 (λ s. n.add_op s value) c k) h
  alone-handle (adds_ops opcodes) r r2 c h =
      with_operand-handle r r2 (extract_ops b n opcodes) _ c
        (λ values k. added-handle r r2 (λ s. n.add_ops s values) c k) h
  alone-handle (adds_data bytes) r r2 c h = added-handle r r2 (λ s. n.add_data s bytes) c h
  alone-handle (adds_i64 value) r r2 c h = added-handle r r2 (λ s. n.add_i64 s value) c h
  alone-handle (adds_lock_time time) r r2 c h = added-handle r r2 (λ s. n.add_lock_time s time) c h
  alone-handle (adds_sequence value) r r2 c h = added-handle r r2 (λ s. n.add_sequence s value) c h
  alone-handle prints r r2 c h = absurd (no_handle _ r2 (λ a e. ground (arith, e)) _ h)
  alone-handle creates_script r r2 c h = absurd (no_handle _ r2 (λ a e. ground (arith, e)) _ h)
  alone-handle (encodes_signature signature) r r2 c h =
      absurd (no_handle _ r2 (λ a e. ground (arith, e)) _ h)
  alone-handle drains r r2 c h = absurd (no_handle _ r2 (λ a e. ground (arith, e)) _ h)

  -- If a method that is called on a builder answers a builder, comparing the two never returns: what it
  -- answers shares the lock, which the comparison takes twice.
  pub eq-call {κ} :
      {Bytes : Type κ} ⦃same : PartialEq Bytes⦄ (serialize : List ℕ → Result String Bytes)
      (m : Method b n) (r r2 : ℕ) (h : Heap b n)
      → (call b n m r h).1 ≡ returns (ok (handle r2))
      → ((eq serialize r r2 (call b n m r h).0).1 ≡ never_returns)
        × ((eq serialize r r (call b n m r h).0).1 ≡ never_returns)
  unfolding eq
  eq-call serialize m r r2 h answered =
      let (answer, cells) = call-IsLocal b n m r h in
      let (same, sound) = alone-handle m r r2 (h.cell r) (sym answer ∙ answered) in
      let kept =
        ap (λ c. c.poisoned)
          (cells r
            ∙ ap (λ t. if t then (alone b n r m (h.cell r)).0 else h.cell r) (nat_beq_refl r))
        ∙ sound in
      (rw (same, eq, kept, nat_beq_refl r) refl, rw (eq, kept, nat_beq_refl r) refl)

  -- Comparing a sound builder with a poisoned one panics and poisons it too: every later method on it,
  -- with any operands that it takes, panics, whatever is called in between.
  pub eq-poisons {κ} :
      {Bytes : Type κ} ⦃same : PartialEq Bytes⦄ (serialize : List ℕ → Result String Bytes)
      (self other : ℕ) (h : Heap b n) (between : List (ℕ × Method b n)) (m : Method b n)
      → (h.cell self).poisoned ≡ false
      → (h.cell other).poisoned ≡ true
      → IsCallable b n m
      → ((eq serialize self other h).1 ≡ panicked)
        × ((call b n m self (calls b n between (eq serialize self other h).0).0).1 ≡ panics)
  unfolding eq
  eq-poisons serialize self other h between m sound lost callable =
      elim (Bool-cases (nat_beq other self)) [
        | inl e ↦ absurd (
            ground (
              arith,
              sym (ap (λ i. (h.cell i).poisoned) ((nat_beq_iff other self).0 e)) ∙ lost,
              sound,
            ))
        | inr e ↦ (
          rw (eq, sound, e, lost) refl,
          poisoned-panics b n self (eq serialize self other h).0 between m
              (rw (eq, sound, e, lost, nat_beq_refl self) refl) callable,
        )
      ]

  -- If `serialize` gives the same bytes only for the same scripts, a comparison answers `true` exactly
  -- for two builders of which none is poisoned, which are not one, and which have the same script, on
  -- which `serialize` does not fail.
  pub eq_iff {κ} :
      {Bytes : Type κ} ⦃same : PartialEq Bytes⦄ (serialize : List ℕ → Result String Bytes)
      (injective : (x y : List ℕ) (bytes : Bytes)
        → serialize x ≡ ok bytes
        → serialize y ≡ ok bytes
        → x ≡ y)
      (self other : ℕ) (h : Heap b n)
      → ((eq serialize self other h).1 ≡ compares true) ↔ (
          ((h.cell self).poisoned ≡ false)
          × (nat_beq other self ≡ false)
          × ((h.cell other).poisoned ≡ false)
          × (n.script (h.cell self).builder ≡ n.script (h.cell other).builder)
          × (is_ok (serialize (n.script (h.cell self).builder)) ≡ true))
  unfolding eq
  eq_iff serialize injective self other h =
      let scripts =
        serialized_eq_iff serialize injective (n.script (h.cell self).builder)
          (n.script (h.cell other).builder) in
      elim (Bool-cases (h.cell self).poisoned) [
        | inl e ↦
            (λ k. absurd (ground (arith, (rw (eq, e) at k))), λ k. absurd (ground (arith, e, k.0)))
        | inr e ↦ elim (Bool-cases (nat_beq other self)) [
          | inl f ↦ (
            λ k. absurd (ground (arith, (rw (eq, e, f) at k))),
            λ k. absurd (ground (arith, f, k.1)),
          )
          | inr f ↦ elim (Bool-cases (h.cell other).poisoned) [
            | inl g ↦ (
              λ k. absurd (ground (arith, (rw (eq, e, f, g) at k))),
              λ k. absurd (ground (arith, g, k.2)),
            )
            | inr g ↦ (
              λ k.
                  let both = scripts.0 (ground (arith, (rw (eq, e, f, g) at k))) in
                  (e, f, g, both.0, both.1),
              λ k. rw (eq, e, f, g) (ap compares (scripts.1 (k.3, k.4))),
            )
          ]
        ]
      ]
