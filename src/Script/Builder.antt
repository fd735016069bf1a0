-- ===== src/Script/Builder.antt =====
-- `PyScriptBuilder` of src/crypto/txscript/builder.rs. A builder is a handle, an `Arc` of a `Mutex`:
-- every method returns the handle that it was called on, so all copies share one script. A panic
-- that happens under the lock poisons it.
use kaspa_python_sdk.Prelude.{
  ℕ, ◌+◌, ◌-◌, ◌/◌, ◌%◌, ◌^◌, String, Bool, true, false, Option, none, some, List, [], ◌∷◌, Result,
  ok, err, exception, PyResult, map_err, map_ok, try_map, nat_beq, ltb, if◌then◌else◌,
}
use kaspa_python_sdk.Convert.Backend.{Backend}
use kaspa_python_sdk.Script.Opcodes.{PyOpcodes}
use kaspa_python_sdk.Script.Opcodes.Values.{get_value}
use kaspa_python_sdk.Script.Utf8.{from_utf8}

-- `native::ScriptBuilder` and `standard`. An operation that can fail returns the builder as it leaves
-- it, beside its result.
pub record Native (b : Backend) : Type 1 where
  pub ScriptBuilder : Type 0
  pub I64 : Type 0
  pub new : ScriptBuilder
  pub script : ScriptBuilder → List ℕ
  pub extend : ScriptBuilder → List ℕ → ScriptBuilder
  pub add_op : ScriptBuilder → ℕ → ScriptBuilder × Result String (Unit {0})
  pub add_ops : ScriptBuilder → List ℕ → ScriptBuilder × Result String (Unit {0})
  pub add_data : ScriptBuilder → List ℕ → ScriptBuilder × Result String (Unit {0})
  pub add_i64 : ScriptBuilder → I64 → ScriptBuilder × Result String (Unit {0})
  pub add_lock_time : ScriptBuilder → ℕ → ScriptBuilder × Result String (Unit {0})
  pub add_sequence : ScriptBuilder → ℕ → ScriptBuilder × Result String (Unit {0})
  pub drain : ScriptBuilder → ScriptBuilder × List ℕ
  pub pay_to_script_hash_script : List ℕ → b.ScriptPublicKey
  pub pay_to_script_hash_signature_script : List ℕ → List ℕ → Result String (List ℕ)
  pub canonical_data_size : List ℕ → ℕ
  pub extract_opcodes : b.PyAny → Option PyOpcodes

-- What a method comes to.
pub data Outcome (A : Type 0) : Type 0 where
  returns : PyResult A → Outcome A
  panics : Outcome A

-- each byte by `{:02x}`, as the codes of its two digits
unfoldable pub hex_digit : ℕ → ℕ
hex_digit d = if ltb d 10 then b'0' + d else b'a' + (d - 10)

unfoldable pub hex_of : List ℕ → List ℕ
hex_of [] = []
hex_of (byte ∷ bytes) = hex_digit (byte / 16) ∷ hex_digit (byte % 16) ∷ hex_of bytes

module _ (b : Backend) (n : Native b) where
  open b use {PyAny, extract_u8, cast_list, to_hex}
  open n use {ScriptBuilder, I64}

  unfoldable pub extract_op : PyAny → PyResult ℕ
  extract_op item = elim (extract_u8 item) [
    | ok op ↦ ok op
    | err _ ↦ elim (n.extract_opcodes item) [
      | some op ↦ ok (get_value op)
      | none ↦ err (exception "Expected int (u8) or Opcodes enum variant.")
    ]
  ]

  unfoldable pub extract_ops : PyAny → PyResult (List ℕ)
  extract_ops input = elim (cast_list input) [
    | ok list ↦ try_map extract_op list
    | err _ ↦ err (exception "Expected a list containing ints and/or Opcodes enum variants.")
  ]

  -- the size `as u32`
  unfoldable pub canonical_data_size : List ℕ → PyResult ℕ
  canonical_data_size bytes = ok (n.canonical_data_size bytes % 2 ^ 32)

  -- a `Mutex` with the builder that it guards
  pub record Cell : Type 0 where
    pub builder : ScriptBuilder
    pub poisoned : Bool

  -- the builders that handles point to, and the handle of the next one
  pub record Heap : Type 0 where
    pub cell : ℕ → Cell
    pub fresh : ℕ

  abbrev pub write : Heap → ℕ → Cell → Heap
  write h r c = record h { cell = λ i. if nat_beq i r then c else h.cell i }

  -- a new handle to this builder
  unfoldable pub allocate : ScriptBuilder → Heap → Heap × ℕ
  allocate builder h = (
    record (write h h.fresh (record { builder = builder; poisoned = false })) {
      fresh = h.fresh + 1;
    },
    h.fresh,
  )

  unfoldable pub new : Heap → Heap × ℕ
  new h = allocate n.new h

  unfoldable pub from_script : List ℕ → Heap → Heap × ℕ
  from_script script h = allocate (n.extend n.new script) h

  -- `self.inner()`, and what is done under the lock; it panics where the lock is poisoned
  unfoldable pub locked :
      {A : Type 0} → (ScriptBuilder → ScriptBuilder × PyResult A) → ℕ → Heap → Heap × Outcome A
  locked f handle h =
      let c = h.cell handle in
      let done = f c.builder in
      if c.poisoned
      then (h, panics)
      else (write h handle (record c { builder = done.0 }), returns done.1)

  -- `.map_err(..)?; Ok(self.clone())`
  unfoldable pub added : ℕ → ScriptBuilder × Result String (Unit {0}) → ScriptBuilder × PyResult ℕ
  added handle done = (done.0, map_ok (λ _. handle) (map_err exception done.1))

  unfoldable pub add_op : PyAny → ℕ → Heap → Heap × Outcome ℕ
  add_op op handle h = elim (extract_op op) [
    | err e ↦ (h, returns (err e))
    | ok value ↦ locked (λ builder. added handle (n.add_op builder value)) handle h
  ]

  unfoldable pub add_ops : PyAny → ℕ → Heap → Heap × Outcome ℕ
  add_ops opcodes handle h = elim (extract_ops opcodes) [
    | err e ↦ (h, returns (err e))
    | ok values ↦ locked (λ builder. added handle (n.add_ops builder values)) handle h
  ]

  unfoldable pub add_data : List ℕ → ℕ → Heap → Heap × Outcome ℕ
  add_data bytes handle h = locked (λ builder. added handle (n.add_data builder bytes)) handle h

  unfoldable pub add_i64 : I64 → ℕ → Heap → Heap × Outcome ℕ
  add_i64 value handle h = locked (λ builder. added handle (n.add_i64 builder value)) handle h

  unfoldable pub add_lock_time : ℕ → ℕ → Heap → Heap × Outcome ℕ
  add_lock_time lock_time handle h =
      locked (λ builder. added handle (n.add_lock_time builder lock_time)) handle h

  unfoldable pub add_sequence : ℕ → ℕ → Heap → Heap × Outcome ℕ
  add_sequence sequence handle h =
      locked (λ builder. added handle (n.add_sequence builder sequence)) handle h

  -- A method that only reads the script.
  abbrev pub reads : {A : Type 0} → (List ℕ → PyResult A) → ℕ → Heap → Heap × Outcome A
  reads f handle h = locked (λ builder. (builder, f (n.script builder))) handle h

  unfoldable pub to_string : ℕ → Heap → Heap × Outcome (List ℕ)
  to_string = reads (λ script. ok (hex_of script))

  unfoldable pub create_pay_to_script_hash_script : ℕ → Heap → Heap × Outcome b.ScriptPublicKey
  create_pay_to_script_hash_script = reads (λ script. ok (n.pay_to_script_hash_script script))

  unfoldable pub encode_pay_to_script_hash_signature_script :
      List ℕ → ℕ → Heap → Heap × Outcome String
  encode_pay_to_script_hash_signature_script signature = reads (λ script.
      map_ok to_hex (map_err exception (n.pay_to_script_hash_signature_script script signature)))

  -- `String::from_utf8(inner.drain()).unwrap()`: the script is taken first, and where it is no text
  -- the panic comes under the lock
  unfoldable pub drain : ℕ → Heap → Heap × Outcome (List ℕ)
  drain handle h =
      let c = h.cell handle in
      let drained = n.drain c.builder in
      if c.poisoned then (h, panics) else elim (from_utf8 drained.1) [
        | some text ↦ (write h handle (record c { builder = drained.0 }), returns (ok text))
        | none ↦ (write h handle (record { builder = drained.0; poisoned = true }), panics)
      ]
