-- ===== src/Script/Handles.antt =====
-- A builder stands alone: calls on other handles neither change it nor what its own methods answer.
use kaspa_python_sdk.Prelude.{
  ℕ, ◌≡◌, refl, ap, ap₂, ◌∙◌, Bool, true, false, none, some, List, [], ◌∷◌, ok, err, exception,
  PyResult, map_ok, map_err, nat_beq, if◌then◌else◌, arith, nat_beq_iff, nat_beq_refl, Bool-cases,
  Option-cases, Result-cases, inl, inr,
}
use kaspa_python_sdk.Convert.Backend.{Backend}
use kaspa_python_sdk.Script.Utf8.{from_utf8}
use kaspa_python_sdk.Script.Builder.{
  Native, Outcome, returns, panics, Cell, Heap, extract_op, extract_ops, hex_of, locked, added,
  add_op, add_ops, add_data, add_i64, add_lock_time, add_sequence, to_string,
  create_pay_to_script_hash_script, encode_pay_to_script_hash_signature_script, drain,
}
use kaspa_python_sdk.Script.Methods.{
  Method, adds_op, adds_ops, adds_data, adds_i64, adds_lock_time, adds_sequence, prints,
  creates_script, encodes_signature, drains, Answer, handle, text, hex, script_public_key,
  map_outcome, answered, call, calls,
}

module _ (b : Backend) (n : Native b) where
  open n use {ScriptBuilder}

  -- One builder by itself: a lock with a builder in it, and what an operation makes of the two.
  unfoldable pub under_lock :
      {A : Type 0} → (ScriptBuilder → ScriptBuilder × PyResult A) → Cell b n → Cell b n × Outcome A
  under_lock f c =
      let done = f c.builder in
      if c.poisoned
      then (c, panics)
      else (record { builder = done.0; poisoned = false }, returns done.1)

  -- an operation on an operand that is read first
  unfoldable pub with_operand :
      {A B : Type 0}
      → PyResult A
      → (A → Cell b n → Cell b n × Outcome B)
      → Cell b n
      → Cell b n × Outcome B
  with_operand (ok operand) f c = f operand c
  with_operand (err e) f c = (c, returns (err e))

  unfoldable pub drain_alone : Cell b n → Cell b n × Outcome (List ℕ)
  drain_alone c =
      let drained = n.drain c.builder in
      if c.poisoned then (c, panics) else elim (from_utf8 drained.1) [
        | some utf8 ↦ (record { builder = drained.0; poisoned = false }, returns (ok utf8))
        | none ↦ (record { builder = drained.0; poisoned = true }, panics)
      ]

  abbrev as_answer :
      {A : Type 0} → (A → Answer b n) → Cell b n × Outcome A → Cell b n × Outcome (Answer b n)
  as_answer f done = (done.0, map_outcome b n f done.1)

  abbrev reads_alone : {A : Type 0} → (List ℕ → PyResult A) → Cell b n → Cell b n × Outcome A
  reads_alone f = under_lock (λ builder. (builder, f (n.script builder)))

  -- What each method does to one builder, with the handle that it answers.
  unfoldable pub alone : ℕ → Method b n → Cell b n → Cell b n × Outcome (Answer b n)
  alone r (adds_op op) c = as_answer handle (
      with_operand (extract_op b n op)
        (λ value. under_lock (λ builder. added b n r (n.add_op builder value))) c)
  alone r (adds_ops opcodes) c = as_answer handle (
      with_operand (extract_ops b n opcodes)
        (λ values. under_lock (λ builder. added b n r (n.add_ops builder values))) c)
  alone r (adds_data bytes) c =
      as_answer handle (under_lock (λ builder. added b n r (n.add_data builder bytes)) c)
  alone r (adds_i64 value) c =
      as_answer handle (under_lock (λ builder. added b n r (n.add_i64 builder value)) c)
  alone r (adds_lock_time lock_time) c =
      as_answer handle (under_lock (λ builder. added b n r (n.add_lock_time builder lock_time)) c)
  alone r (adds_sequence sequence) c =
      as_answer handle (under_lock (λ builder. added b n r (n.add_sequence builder sequence)) c)
  alone r prints c = as_answer text (reads_alone (λ script. ok (hex_of script)) c)
  alone r creates_script c =
      as_answer script_public_key
        (reads_alone (λ script. ok (n.pay_to_script_hash_script script)) c)
  alone r (encodes_signature signature) c = as_answer hex (
      reads_alone
        (λ script.
          map_ok b.to_hex
            (map_err exception (n.pay_to_script_hash_signature_script script signature)))
        c)
  alone r drains c = as_answer text (drain_alone c)

  unfoldable pub all_alone :
      ℕ → List (Method b n) → Cell b n → Cell b n × List (Outcome (Answer b n))
  unfolding alone
  all_alone r [] c = (c, [])
  all_alone r (m ∷ later) c =
      let done = alone r m c in let rest = all_alone r later done.0 in (rest.0, done.1 ∷ rest.1)

  -- what stands beside this handle, in order
  unfoldable pub of_handle : {A : Type 0} → ℕ → List (ℕ × A) → List A
  of_handle r [] = []
  of_handle r ((i, a) ∷ rest) =
      let later = of_handle r rest in if nat_beq r i then a ∷ later else later

  -- a heap and an outcome are what one builder makes of itself, and no other builder changes
  abbrev IsLocal :
      {A : Type 0} → ℕ → Heap b n → Heap b n × Outcome A → Cell b n × Outcome A → Type 0
  IsLocal r h done one =
      (done.1 ≡ one.1) × ((i : ℕ) → done.0.cell i ≡ (if nat_beq i r then one.0 else h.cell i))

  same_cell :
      (r : ℕ) (h : Heap b n) (i : ℕ) → h.cell i ≡ (if nat_beq i r then h.cell r else h.cell i)
  same_cell r h i = ground arith

  pub same_cell_at :
      {p : Bool} (r : ℕ) (h : Heap b n)
      → (h.cell r).poisoned ≡ p
      → (i : ℕ)
      → h.cell i
        ≡ (if nat_beq i r then record { builder = (h.cell r).builder; poisoned = p } else h.cell i)
  same_cell_at r h e i =
      same_cell r h i
      ∙ ap
          (λ p.
            if nat_beq i r then record { builder = (h.cell r).builder; poisoned = p } else h.cell i)
          e

  locked-IsLocal :
      {A : Type 0} (f : ScriptBuilder → ScriptBuilder × PyResult A) (r : ℕ) (h : Heap b n)
      → IsLocal r h (locked b n f r h) (under_lock f (h.cell r))
  unfolding locked under_lock
  locked-IsLocal f r h = elim (Bool-cases (h.cell r).poisoned) [
    | inl e ↦ rw e (refl, same_cell_at r h e)
    | inr e ↦ rw e (refl, λ i. refl)
  ]

  pub drain-IsLocal : (r : ℕ) (h : Heap b n) → IsLocal r h (drain b n r h) (drain_alone (h.cell r))
  unfolding drain drain_alone
  drain-IsLocal r h =
      let drained = n.drain (h.cell r).builder in
      elim (Bool-cases (h.cell r).poisoned) [
        | inl e ↦ rw e (refl, same_cell_at r h e)
        | inr e ↦ elim (Option-cases (from_utf8 drained.1)) [
          | inl u ↦ rw (e, u) (refl, λ i. refl)
          | inr (utf8, u) ↦
              rw (e, u)
                (
                  refl,
                  λ i.
                      ap
                        (λ p.
                          if nat_beq i r
                          then record { builder = drained.0; poisoned = p }
                          else h.cell i)
                        e,
                )
        ]
      ]

  IsLocal-answered :
      {A : Type 0} (f : A → Answer b n) (r : ℕ) (h : Heap b n) (done : Heap b n × Outcome A)
      (one : Cell b n × Outcome A)
      → IsLocal r h done one
      → IsLocal r h (answered b n f done) (as_answer f one)
  unfolding answered
  IsLocal-answered f r h done one (same, cells) = (ap (map_outcome b n f) same, cells)

  add_op-IsLocal :
      (op : b.PyAny) (r : ℕ) (h : Heap b n)
      → IsLocal r h (add_op b n op r h) (
          with_operand
            (extract_op b n op)
            (λ value. under_lock (λ builder. added b n r (n.add_op builder value)))
            (h.cell r))
  unfolding add_op with_operand
  add_op-IsLocal op r h = elim (Result-cases (extract_op b n op)) [
    | inl (value, e) ↦ rw (e, add_op) (locked-IsLocal _ r h)
    | inr (error, e) ↦ rw (e, add_op) (refl, same_cell r h)
  ]

  add_ops-IsLocal :
      (opcodes : b.PyAny) (r : ℕ) (h : Heap b n)
      → IsLocal r h (add_ops b n opcodes r h) (
          with_operand
            (extract_ops b n opcodes)
            (λ values. under_lock (λ builder. added b n r (n.add_ops builder values)))
            (h.cell r))
  unfolding add_ops with_operand
  add_ops-IsLocal opcodes r h = elim (Result-cases (extract_ops b n opcodes)) [
    | inl (values, e) ↦ rw (e, add_ops) (locked-IsLocal _ r h)
    | inr (error, e) ↦ rw (e, add_ops) (refl, same_cell r h)
  ]

  pub call-IsLocal :
      (m : Method b n) (r : ℕ) (h : Heap b n) → IsLocal r h (call b n m r h) (alone r m (h.cell r))
  unfolding call alone add_data add_i64 add_lock_time add_sequence to_string
      create_pay_to_script_hash_script encode_pay_to_script_hash_signature_script
  call-IsLocal (adds_op op) r h = IsLocal-answered handle r h _ _ (add_op-IsLocal op r h)
  call-IsLocal (adds_ops opcodes) r h =
      IsLocal-answered handle r h _ _ (add_ops-IsLocal opcodes r h)
  call-IsLocal (adds_data bytes) r h = IsLocal-answered handle r h _ _ (locked-IsLocal _ r h)
  call-IsLocal (adds_i64 value) r h = IsLocal-answered handle r h _ _ (locked-IsLocal _ r h)
  call-IsLocal (adds_lock_time lock_time) r h =
      IsLocal-answered handle r h _ _ (locked-IsLocal _ r h)
  call-IsLocal (adds_sequence sequence) r h = IsLocal-answered handle r h _ _ (locked-IsLocal _ r h)
  call-IsLocal prints r h = IsLocal-answered text r h _ _ (locked-IsLocal _ r h)
  call-IsLocal creates_script r h =
      IsLocal-answered script_public_key r h _ _ (locked-IsLocal _ r h)
  call-IsLocal (encodes_signature signature) r h =
      IsLocal-answered hex r h _ _ (locked-IsLocal _ r h)
  call-IsLocal drains r h = IsLocal-answered text r h _ _ (drain-IsLocal r h)

  -- After any calls of the methods other than the comparison, on any handles, each builder is what the
  -- calls on its own handle, in their order, make of it by themselves, and these calls answer what they
  -- answer then.
  pub calls-all_alone :
      (cs : List (ℕ × Method b n)) (h : Heap b n) (r : ℕ)
      → ((calls b n cs h).0.cell r ≡ (all_alone r (of_handle r cs) (h.cell r)).0)
        × (of_handle r (calls b n cs h).1 ≡ (all_alone r (of_handle r cs) (h.cell r)).1)
  unfolding calls all_alone of_handle
  calls-all_alone [] h r = (refl, refl)
  calls-all_alone ((i, m) ∷ later) h r = elim (Bool-cases (nat_beq r i)) [
    | inl e ↦
        let (answer, cells) = call-IsLocal m r h in
        let (builder, answers) = calls-all_alone later (call b n m r h).0 r in
        let own =
          cells r ∙ ap (λ t. if t then (alone r m (h.cell r)).0 else h.cell r) (nat_beq_refl r) in
        rw (e, ← (nat_beq_iff r i).0 e)
          (
            builder ∙ ap (λ c. (all_alone r (of_handle r later) c).0) own,
            ap₂ ◌∷◌ answer (answers ∙ ap (λ c. (all_alone r (of_handle r later) c).1) own),
          )
    | inr e ↦
        let (builder, answers) = calls-all_alone later (call b n m i h).0 r in
        let kept =
          (call-IsLocal m i h).1 r ∙ ap (λ t. if t then (alone i m (h.cell i)).0 else h.cell r) e in
        rw e (
          builder ∙ ap (λ c. (all_alone r (of_handle r later) c).0) kept,
          answers ∙ ap (λ c. (all_alone r (of_handle r later) c).1) kept,
        )
  ]
