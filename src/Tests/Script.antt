-- ===== src/Tests/Script.antt =====
-- Script builders that are their scripts, over the objects of the conversions.
use kaspa_python_sdk.Prelude.{
  ℕ, ◌<◌, ◌≡◌, ◌↔◌, refl, false, none, List, [], ◌∷◌, ◌++◌, ok, arith, nat_beq, if◌then◌else◌,
  Result, String, length, sym, ap, ◌∙◌, eq_of_string,
}
use kaspa_python_sdk.Script.Opcodes.{PyOpcodes}
use kaspa_python_sdk.Script.Opcodes.Values.{get_value}
use kaspa_python_sdk.Script.Opcodes.Bytes.{get_value-eq_byte}
use kaspa_python_sdk.Script.Utf8.{from_utf8-high}
use kaspa_python_sdk.Script.Builder.{
  Native, Outcome, returns, panics, Cell, Heap, drain, to_string, new, from_script,
}
use kaspa_python_sdk.Script.Methods.{Method, adds_op, adds_data, prints, drains, call, calls}
use kaspa_python_sdk.Script.Handles.{all_alone, of_handle, calls-all_alone}
use kaspa_python_sdk.Script.Poison.{IsCallable, drain-poisons}
use kaspa_python_sdk.Script.Comparison.{panicked, never_returns, eq, eq-call, eq-poisons}
use kaspa_python_sdk.Tests.Convert.Codec.{encode, decode, decode-encode}
use kaspa_python_sdk.Tests.Convert.Objects.{objects}
use kaspa_python_sdk.Tests.Convert.Objects as Objects

abbrev grown : List ℕ → List ℕ → List ℕ × Result String (Unit {0})
grown script bytes = (script ++ bytes, ok tt)

abbrev native : Native objects
native = record {
  ScriptBuilder = List ℕ;
  I64 = ℕ;
  new = [];
  script = λ script. script;
  extend = λ script bytes. script ++ bytes;
  add_op = λ script op. grown script (op ∷ []);
  add_ops = λ script ops. grown script ops;
  add_data = λ script bytes. grown script bytes;
  add_i64 = λ script value. grown script (value ∷ []);
  add_lock_time = λ script time. grown script (time ∷ []);
  add_sequence = λ script sequence. grown script (sequence ∷ []);
  drain = λ script. ([], script);
  pay_to_script_hash_script = λ script. (false, script);
  pay_to_script_hash_signature_script = λ script signature. ok (signature ++ script);
  canonical_data_size = length;
  extract_opcodes = λ _. none;
}

-- The builder 0 holds `OpCheckSig`, the others nothing.
abbrev heap : Heap objects native
heap = record {
  cell = λ i. record { builder = if nat_beq i 0 then 0xac ∷ [] else []; poisoned = false };
  fresh = 2;
}

abbrev session : List (ℕ × Method objects native)
session = (1, adds_data (7 ∷ [])) ∷ (0, drains) ∷ (1, prints) ∷ []

calls-all_alone_example :
    ((calls objects native session heap).0.cell 1
      ≡ (all_alone objects native 1 (adds_data (7 ∷ []) ∷ prints ∷ []) (heap.cell 1)).0)
    × (of_handle objects native 1 (calls objects native session heap).1
        ≡ (all_alone objects native 1 (adds_data (7 ∷ []) ∷ prints ∷ []) (heap.cell 1)).1)
unfolding of_handle
calls-all_alone_example = calls-all_alone objects native session heap 1

drain-poisons_example :
    ((drain objects native 0 heap).1 ≡ panics)
    × ((call objects native
          (adds_op (Objects.int 1))
          0
          (calls objects native session (drain objects native 0 heap).0).0).1
        ≡ panics)
unfolding IsCallable kaspa_python_sdk.Script.Builder.extract_op
drain-poisons_example =
    drain-poisons objects native 0 heap session (adds_op (Objects.int 1)) refl
      (from_utf8-high 0xac (omega arith)) (1, refl)

get_value-eq_byte_example :
    (get_value PyOpcodes.op_false < 256)
    × (op : PyOpcodes) × (get_value op ≡ 172)
    × ((get_value PyOpcodes.op_false ≡ 172) ↔ (PyOpcodes.op_false ≡ op))
get_value-eq_byte_example = get_value-eq_byte PyOpcodes.op_false 172 (omega arith)

abbrev serialize : List ℕ → Result String String
serialize script = ok (encode script)

serialize_injective :
    (x y : List ℕ) (bytes : String) → serialize x ≡ ok bytes → serialize y ≡ ok bytes → x ≡ y
serialize_injective x y bytes p q =
    let alike : encode x ≡ encode y = ground (arith, p ∙ sym q) in
    sym (decode-encode x) ∙ ap decode alike ∙ decode-encode y

eq-call_example :
    ((eq objects native serialize 1 1 (call objects native (adds_data (7 ∷ [])) 1 heap).0).1
      ≡ never_returns)
    × ((eq objects native serialize 1 1 (call objects native (adds_data (7 ∷ [])) 1 heap).0).1
        ≡ never_returns)
unfolding call kaspa_python_sdk.Script.Builder.add_data kaspa_python_sdk.Script.Builder.locked
    kaspa_python_sdk.Script.Builder.added kaspa_python_sdk.Script.Methods.answered
    kaspa_python_sdk.Script.Methods.map_outcome
eq-call_example = eq-call objects native serialize (adds_data (7 ∷ [])) 1 1 heap refl

-- the builder 0 is poisoned
abbrev lost_heap : Heap objects native
lost_heap = record { cell = λ i. record { builder = []; poisoned = nat_beq i 0 }; fresh = 2 }

eq-poisons_example :
    ((eq objects native serialize 1 0 lost_heap).1 ≡ panicked)
    × ((call objects native prints 1
          (calls objects native session (eq objects native serialize 1 0 lost_heap).0).0).1
        ≡ panics)
unfolding IsCallable
eq-poisons_example = eq-poisons objects native serialize 1 0 lost_heap session prints refl refl tt
