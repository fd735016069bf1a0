-- ===== src/Script/Poison.antt =====
-- What becomes of a builder whose `drain` panics.
use kaspa_python_sdk.Prelude.{
  ℕ, ◌≡◌, refl, ap, ◌∙◌, true, false, none, List, [], ◌∷◌, ok, Result-cases, inl, inr,
  if◌then◌else◌, nat_beq_refl, arith,
}
use kaspa_python_sdk.Convert.Backend.{Backend}
use kaspa_python_sdk.Script.Utf8.{from_utf8}
use kaspa_python_sdk.Script.Builder.{
  Native, Outcome, panics, Cell, Heap, extract_op, extract_ops, drain,
}
use kaspa_python_sdk.Script.Methods.{
  Method, adds_op, adds_ops, adds_data, adds_i64, adds_lock_time, adds_sequence, prints,
  creates_script, encodes_signature, drains, Answer, map_outcome, call, calls,
}
use kaspa_python_sdk.Script.Handles.{
  under_lock, with_operand, drain_alone, alone, all_alone, of_handle, call-IsLocal, drain-IsLocal,
  calls-all_alone,
}

module _ (b : Backend) (n : Native b) where
  open n use {ScriptBuilder}

  -- the operands of the method are ones that the builder takes
  unfoldable pub IsCallable : Method b n → Type 0
  IsCallable (adds_op op) = (value : ℕ) × (extract_op b n op ≡ ok value)
  IsCallable (adds_ops opcodes) = (values : List ℕ) × (extract_ops b n opcodes ≡ ok values)
  IsCallable m = Unit

  -- a poisoned builder stays so, and a method with such operands panics on it
  abbrev IsLost : Method b n → Cell b n × Outcome (Answer b n) → Type 0
  IsLost m done = (done.0.poisoned ≡ true) × (IsCallable m → done.1 ≡ panics)

  alone-IsLost :
      (r : ℕ) (m : Method b n) (c : Cell b n) → c.poisoned ≡ true → IsLost m (alone b n r m c)
  unfolding alone under_lock with_operand drain_alone IsCallable map_outcome
  alone-IsLost r (adds_op op) c e = elim (Result-cases (extract_op b n op)) [
    | inl (value, x) ↦ rw (x, e) (refl, λ _. refl)
    | inr (error, x) ↦ rw (x, e) (refl, λ (value, y). grind arith)
  ]
  alone-IsLost r (adds_ops opcodes) c e = elim (Result-cases (extract_ops b n opcodes)) [
    | inl (values, x) ↦ rw (x, e) (refl, λ _. refl)
    | inr (error, x) ↦ rw (x, e) (refl, λ (value, y). grind arith)
  ]
  alone-IsLost r (adds_data bytes) c e = rw e (refl, λ _. refl)
  alone-IsLost r (adds_i64 value) c e = rw e (refl, λ _. refl)
  alone-IsLost r (adds_lock_time lock_time) c e = rw e (refl, λ _. refl)
  alone-IsLost r (adds_sequence sequence) c e = rw e (refl, λ _. refl)
  alone-IsLost r prints c e = rw e (refl, λ _. refl)
  alone-IsLost r creates_script c e = rw e (refl, λ _. refl)
  alone-IsLost r (encodes_signature signature) c e = rw e (refl, λ _. refl)
  alone-IsLost r drains c e = rw e (refl, λ _. refl)

  all_alone-poisoned :
      (r : ℕ) (ms : List (Method b n)) (c : Cell b n)
      → c.poisoned ≡ true
      → (all_alone b n r ms c).0.poisoned ≡ true
  unfolding all_alone
  all_alone-poisoned r [] c e = e
  all_alone-poisoned r (m ∷ later) c e =
      all_alone-poisoned r later (alone b n r m c).0 (alone-IsLost r m c e).0

  -- A method with operands that it takes panics on a poisoned builder, whatever is called in between.
  pub poisoned-panics :
      (r : ℕ) (h : Heap b n) (between : List (ℕ × Method b n)) (m : Method b n)
      → (h.cell r).poisoned ≡ true
      → IsCallable m
      → (call b n m r (calls b n between h).0).1 ≡ panics
  poisoned-panics r h between m lost callable =
      let h' = (calls b n between h).0 in
      let poisoned =
        ap (λ c. c.poisoned) (calls-all_alone b n between h r).0
        ∙ all_alone-poisoned r (of_handle b n r between) (h.cell r) lost in
      (call-IsLocal b n m r h').0 ∙ (alone-IsLost r m (h'.cell r) poisoned).1 callable

  drain_alone-panics :
      (c : Cell b n)
      → c.poisoned ≡ false
      → from_utf8 (n.drain c.builder).1 ≡ none
      → drain_alone b n c ≡ (record { builder = (n.drain c.builder).0; poisoned = true }, panics)
  unfolding drain_alone
  drain_alone-panics c sound no_text = rw (sound, no_text) refl

  -- If what `drain` takes from a builder is no UTF-8 text, it panics, and so does, whatever is called
  -- on this and other handles in between, every later method on the builder, with any operands that
  -- it takes.
  pub drain-poisons :
      (r : ℕ) (h : Heap b n) (between : List (ℕ × Method b n)) (m : Method b n)
      → (h.cell r).poisoned ≡ false
      → from_utf8 (n.drain (h.cell r).builder).1 ≡ none
      → IsCallable m
      → ((drain b n r h).1 ≡ panics)
        × ((call b n m r (calls b n between (drain b n r h).0).0).1 ≡ panics)
  drain-poisons r h between m sound no_text callable =
      let (answer, cells) = drain-IsLocal b n r h in
      let panicked = drain_alone-panics (h.cell r) sound no_text in
      let drained =
        cells r
        ∙ ap (λ t. if t then (drain_alone b n (h.cell r)).0 else h.cell r) (nat_beq_refl r) in
      let lost = ap (λ c. c.poisoned) (drained ∙ ap (λ done. done.0) panicked) in
      (
        answer ∙ ap (λ done. done.1) panicked,
        poisoned-panics r (drain b n r h).0 between m lost callable,
      )
