-- ===== src/Script/Methods.antt =====
-- The methods of a `PyScriptBuilder` as one type, and calls of them on the handles of a heap in the
-- order in which Python makes them (src/crypto/txscript/builder.rs).
use kaspa_python_sdk.Prelude.{ℕ, String, List, [], ◌∷◌, map_ok}
use kaspa_python_sdk.Convert.Backend.{Backend}
use kaspa_python_sdk.Script.Builder.{
  Native, Outcome, returns, panics, Heap, add_op, add_ops, add_data, add_i64, add_lock_time,
  add_sequence, to_string, create_pay_to_script_hash_script,
  encode_pay_to_script_hash_signature_script, drain,
}

module _ (b : Backend) (n : Native b) where
  pub data Method : Type 0 where
    adds_op : b.PyAny → Method
    adds_ops : b.PyAny → Method
    adds_data : List ℕ → Method
    adds_i64 : n.I64 → Method
    adds_lock_time : ℕ → Method
    adds_sequence : ℕ → Method
    prints : Method
    creates_script : Method
    encodes_signature : List ℕ → Method
    drains : Method

  -- What Python gets: a handle, a text or a script.
  pub data Answer : Type 0 where
    handle : ℕ → Answer
    text : List ℕ → Answer
    hex : String → Answer
    script_public_key : b.ScriptPublicKey → Answer

  unfoldable pub map_outcome : {A : Type 0} → (A → Answer) → Outcome A → Outcome Answer
  map_outcome f (returns result) = returns (map_ok f result)
  map_outcome f panics = panics

  unfoldable pub answered :
      {A : Type 0} → (A → Answer) → Heap b n × Outcome A → Heap b n × Outcome Answer
  answered f done = (done.0, map_outcome f done.1)

  unfoldable pub call : Method → ℕ → Heap b n → Heap b n × Outcome Answer
  call (adds_op op) r h = answered handle (add_op b n op r h)
  call (adds_ops opcodes) r h = answered handle (add_ops b n opcodes r h)
  call (adds_data bytes) r h = answered handle (add_data b n bytes r h)
  call (adds_i64 value) r h = answered handle (add_i64 b n value r h)
  call (adds_lock_time lock_time) r h = answered handle (add_lock_time b n lock_time r h)
  call (adds_sequence sequence) r h = answered handle (add_sequence b n sequence r h)
  call prints r h = answered text (to_string b n r h)
  call creates_script r h = answered script_public_key (create_pay_to_script_hash_script b n r h)
  call (encodes_signature signature) r h =
      answered hex (encode_pay_to_script_hash_signature_script b n signature r h)
  call drains r h = answered text (drain b n r h)

  -- calls on handles, and the handle and the outcome of each
  unfoldable pub calls : List (ℕ × Method) → Heap b n → Heap b n × List (ℕ × Outcome Answer)
  unfolding call
  calls [] h = (h, [])
  calls ((r, m) ∷ later) h =
      let done = call m r h in let rest = calls later done.0 in (rest.0, (r, done.1) ∷ rest.1)
