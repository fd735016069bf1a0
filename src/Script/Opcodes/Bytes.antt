-- ===== src/Script/Opcodes/Bytes.antt =====
-- Every byte is the value of exactly one opcode.
use mathlib.Core.Option.{some_inj}
use kaspa_python_sdk.Prelude.{
  ℕ, zero, suc, ◌<◌, ◌≡◌, refl, Option, none, some, List, [], ◌∷◌, arith, ap, sym, ◌∙◌, Bool, true,
  false, ◌&&◌, nat_beq, ◌↔◌, Option-cases, inl, inr,
}
use kaspa_python_sdk.Script.Opcodes.{PyOpcodes}
use kaspa_python_sdk.Script.Opcodes.Values.{get_value}

-- the opcodes in the order of the source
table : List PyOpcodes
table =
    PyOpcodes.op_false ∷ PyOpcodes.op_data1 ∷ PyOpcodes.op_data2 ∷ PyOpcodes.op_data3
    ∷ PyOpcodes.op_data4 ∷ PyOpcodes.op_data5 ∷ PyOpcodes.op_data6 ∷ PyOpcodes.op_data7
    ∷ PyOpcodes.op_data8 ∷ PyOpcodes.op_data9 ∷ PyOpcodes.op_data10 ∷ PyOpcodes.op_data11
    ∷ PyOpcodes.op_data12 ∷ PyOpcodes.op_data13 ∷ PyOpcodes.op_data14 ∷ PyOpcodes.op_data15
    ∷ PyOpcodes.op_data16 ∷ PyOpcodes.op_data17 ∷ PyOpcodes.op_data18 ∷ PyOpcodes.op_data19
    ∷ PyOpcodes.op_data20 ∷ PyOpcodes.op_data21 ∷ PyOpcodes.op_data22 ∷ PyOpcodes.op_data23
    ∷ PyOpcodes.op_data24 ∷ PyOpcodes.op_data25 ∷ PyOpcodes.op_data26 ∷ PyOpcodes.op_data27
    ∷ PyOpcodes.op_data28 ∷ PyOpcodes.op_data29 ∷ PyOpcodes.op_data30 ∷ PyOpcodes.op_data31
    ∷ PyOpcodes.op_data32 ∷ PyOpcodes.op_data33 ∷ PyOpcodes.op_data34 ∷ PyOpcodes.op_data35
    ∷ PyOpcodes.op_data36 ∷ PyOpcodes.op_data37 ∷ PyOpcodes.op_data38 ∷ PyOpcodes.op_data39
    ∷ PyOpcodes.op_data40 ∷ PyOpcodes.op_data41 ∷ PyOpcodes.op_data42 ∷ PyOpcodes.op_data43
    ∷ PyOpcodes.op_data44 ∷ PyOpcodes.op_data45 ∷ PyOpcodes.op_data46 ∷ PyOpcodes.op_data47
    ∷ PyOpcodes.op_data48 ∷ PyOpcodes.op_data49 ∷ PyOpcodes.op_data50 ∷ PyOpcodes.op_data51
    ∷ PyOpcodes.op_data52 ∷ PyOpcodes.op_data53 ∷ PyOpcodes.op_data54 ∷ PyOpcodes.op_data55
    ∷ PyOpcodes.op_data56 ∷ PyOpcodes.op_data57 ∷ PyOpcodes.op_data58 ∷ PyOpcodes.op_data59
    ∷ PyOpcodes.op_data60 ∷ PyOpcodes.op_data61 ∷ PyOpcodes.op_data62 ∷ PyOpcodes.op_data63
    ∷ PyOpcodes.op_data64 ∷ PyOpcodes.op_data65 ∷ PyOpcodes.op_data66 ∷ PyOpcodes.op_data67
    ∷ PyOpcodes.op_data68 ∷ PyOpcodes.op_data69 ∷ PyOpcodes.op_data70 ∷ PyOpcodes.op_data71
    ∷ PyOpcodes.op_data72 ∷ PyOpcodes.op_data73 ∷ PyOpcodes.op_data74 ∷ PyOpcodes.op_data75
    ∷ PyOpcodes.op_push_data1 ∷ PyOpcodes.op_push_data2 ∷ PyOpcodes.op_push_data4
    ∷ PyOpcodes.op1_negate ∷ PyOpcodes.op_reserved ∷ PyOpcodes.op_true ∷ PyOpcodes.op2
    ∷ PyOpcodes.op3 ∷ PyOpcodes.op4 ∷ PyOpcodes.op5 ∷ PyOpcodes.op6 ∷ PyOpcodes.op7 ∷ PyOpcodes.op8
    ∷ PyOpcodes.op9 ∷ PyOpcodes.op10 ∷ PyOpcodes.op11 ∷ PyOpcodes.op12 ∷ PyOpcodes.op13
    ∷ PyOpcodes.op14 ∷ PyOpcodes.op15 ∷ PyOpcodes.op16 ∷ PyOpcodes.op_nop ∷ PyOpcodes.op_ver
    ∷ PyOpcodes.op_if ∷ PyOpcodes.op_not_if ∷ PyOpcodes.op_ver_if ∷ PyOpcodes.op_ver_not_if
    ∷ PyOpcodes.op_else ∷ PyOpcodes.op_end_if ∷ PyOpcodes.op_verify ∷ PyOpcodes.op_return
    ∷ PyOpcodes.op_to_alt_stack ∷ PyOpcodes.op_from_alt_stack ∷ PyOpcodes.op2_drop
    ∷ PyOpcodes.op2_dup ∷ PyOpcodes.op3_dup ∷ PyOpcodes.op2_over ∷ PyOpcodes.op2_rot
    ∷ PyOpcodes.op2_swap ∷ PyOpcodes.op_if_dup ∷ PyOpcodes.op_depth ∷ PyOpcodes.op_drop
    ∷ PyOpcodes.op_dup ∷ PyOpcodes.op_nip ∷ PyOpcodes.op_over ∷ PyOpcodes.op_pick
    ∷ PyOpcodes.op_roll ∷ PyOpcodes.op_rot ∷ PyOpcodes.op_swap ∷ PyOpcodes.op_tuck
    ∷ PyOpcodes.op_cat ∷ PyOpcodes.op_sub_str ∷ PyOpcodes.op_left ∷ PyOpcodes.op_right
    ∷ PyOpcodes.op_size ∷ PyOpcodes.op_invert ∷ PyOpcodes.op_and ∷ PyOpcodes.op_or
    ∷ PyOpcodes.op_xor ∷ PyOpcodes.op_equal ∷ PyOpcodes.op_equal_verify ∷ PyOpcodes.op_reserved1
    ∷ PyOpcodes.op_reserved2 ∷ PyOpcodes.op1_add ∷ PyOpcodes.op1_sub ∷ PyOpcodes.op2_mul
    ∷ PyOpcodes.op2_div ∷ PyOpcodes.op_negate ∷ PyOpcodes.op_abs ∷ PyOpcodes.op_not
    ∷ PyOpcodes.op0_not_equal ∷ PyOpcodes.op_add ∷ PyOpcodes.op_sub ∷ PyOpcodes.op_mul
    ∷ PyOpcodes.op_div ∷ PyOpcodes.op_mod ∷ PyOpcodes.op_l_shift ∷ PyOpcodes.op_r_shift
    ∷ PyOpcodes.op_bool_and ∷ PyOpcodes.op_bool_or ∷ PyOpcodes.op_num_equal
    ∷ PyOpcodes.op_num_equal_verify ∷ PyOpcodes.op_num_not_equal ∷ PyOpcodes.op_less_than
    ∷ PyOpcodes.op_greater_than ∷ PyOpcodes.op_less_than_or_equal
    ∷ PyOpcodes.op_greater_than_or_equal ∷ PyOpcodes.op_min ∷ PyOpcodes.op_max ∷ PyOpcodes.op_within
    ∷ PyOpcodes.op_unknown166 ∷ PyOpcodes.op_unknown167 ∷ PyOpcodes.op_sha256
    ∷ PyOpcodes.op_check_multi_sig_ecdsa ∷ PyOpcodes.op_blake2b ∷ PyOpcodes.op_check_sig_ecdsa
    ∷ PyOpcodes.op_check_sig ∷ PyOpcodes.op_check_sig_verify ∷ PyOpcodes.op_check_multi_sig
    ∷ PyOpcodes.op_check_multi_sig_verify ∷ PyOpcodes.op_check_lock_time_verify
    ∷ PyOpcodes.op_check_sequence_verify ∷ PyOpcodes.op_unknown178 ∷ PyOpcodes.op_unknown179
    ∷ PyOpcodes.op_unknown180 ∷ PyOpcodes.op_unknown181 ∷ PyOpcodes.op_unknown182
    ∷ PyOpcodes.op_unknown183 ∷ PyOpcodes.op_unknown184 ∷ PyOpcodes.op_unknown185
    ∷ PyOpcodes.op_unknown186 ∷ PyOpcodes.op_unknown187 ∷ PyOpcodes.op_unknown188
    ∷ PyOpcodes.op_unknown189 ∷ PyOpcodes.op_unknown190 ∷ PyOpcodes.op_unknown191
    ∷ PyOpcodes.op_unknown192 ∷ PyOpcodes.op_unknown193 ∷ PyOpcodes.op_unknown194
    ∷ PyOpcodes.op_unknown195 ∷ PyOpcodes.op_unknown196 ∷ PyOpcodes.op_unknown197
    ∷ PyOpcodes.op_unknown198 ∷ PyOpcodes.op_unknown199 ∷ PyOpcodes.op_unknown200
    ∷ PyOpcodes.op_unknown201 ∷ PyOpcodes.op_unknown202 ∷ PyOpcodes.op_unknown203
    ∷ PyOpcodes.op_unknown204 ∷ PyOpcodes.op_unknown205 ∷ PyOpcodes.op_unknown206
    ∷ PyOpcodes.op_unknown207 ∷ PyOpcodes.op_unknown208 ∷ PyOpcodes.op_unknown209
    ∷ PyOpcodes.op_unknown210 ∷ PyOpcodes.op_unknown211 ∷ PyOpcodes.op_unknown212
    ∷ PyOpcodes.op_unknown213 ∷ PyOpcodes.op_unknown214 ∷ PyOpcodes.op_unknown215
    ∷ PyOpcodes.op_unknown216 ∷ PyOpcodes.op_unknown217 ∷ PyOpcodes.op_unknown218
    ∷ PyOpcodes.op_unknown219 ∷ PyOpcodes.op_unknown220 ∷ PyOpcodes.op_unknown221
    ∷ PyOpcodes.op_unknown222 ∷ PyOpcodes.op_unknown223 ∷ PyOpcodes.op_unknown224
    ∷ PyOpcodes.op_unknown225 ∷ PyOpcodes.op_unknown226 ∷ PyOpcodes.op_unknown227
    ∷ PyOpcodes.op_unknown228 ∷ PyOpcodes.op_unknown229 ∷ PyOpcodes.op_unknown230
    ∷ PyOpcodes.op_unknown231 ∷ PyOpcodes.op_unknown232 ∷ PyOpcodes.op_unknown233
    ∷ PyOpcodes.op_unknown234 ∷ PyOpcodes.op_unknown235 ∷ PyOpcodes.op_unknown236
    ∷ PyOpcodes.op_unknown237 ∷ PyOpcodes.op_unknown238 ∷ PyOpcodes.op_unknown239
    ∷ PyOpcodes.op_unknown240 ∷ PyOpcodes.op_unknown241 ∷ PyOpcodes.op_unknown242
    ∷ PyOpcodes.op_unknown243 ∷ PyOpcodes.op_unknown244 ∷ PyOpcodes.op_unknown245
    ∷ PyOpcodes.op_unknown246 ∷ PyOpcodes.op_unknown247 ∷ PyOpcodes.op_unknown248
    ∷ PyOpcodes.op_unknown249 ∷ PyOpcodes.op_small_integer ∷ PyOpcodes.op_pub_keys
    ∷ PyOpcodes.op_unknown252 ∷ PyOpcodes.op_pub_key_hash ∷ PyOpcodes.op_pub_key
    ∷ PyOpcodes.op_invalid_op_code ∷ []

nth : ℕ → List PyOpcodes → Option PyOpcodes
nth i [] = none
nth zero (op ∷ ops) = some op
nth (suc i) (op ∷ ops) = nth i ops

nth-get_value : (op : PyOpcodes) → nth (get_value op) table ≡ some op
unfolding nth get_value table
nth-get_value PyOpcodes.op_false = refl
nth-get_value _ = refl

holds : ℕ → Bool
holds n = elim (nth n table) [ none ↦ false | some op ↦ nat_beq (get_value op) n ]

all_hold : ℕ → Bool
all_hold zero = true
all_hold (suc n) = holds n && all_hold n

all_hold_256 : all_hold 256 ≡ true
unfolding all_hold holds nth table get_value
all_hold_256 = refl

all_hold_below : (n i : ℕ) → all_hold n ≡ true → i < n → holds i ≡ true
unfolding all_hold
all_hold_below zero i h lt = absurd (omega arith)
all_hold_below (suc n) i h lt = ground (arith, all_hold_below n i)

holds-nth :
    (n : ℕ) → holds n ≡ true → (op : PyOpcodes) × (nth n table ≡ some op) × (get_value op ≡ n)
unfolding holds
holds-nth n h = elim (Option-cases (nth n table)) [
  | inl e ↦ absurd (ground arith)
  | inr (op, e) ↦ (op, e, ground arith)
]

get_value-lt : (op : PyOpcodes) → get_value op < 256
unfolding get_value
get_value-lt PyOpcodes.op_false = omega arith
get_value-lt _ = omega arith

-- An opcode has a value below 256, and each such number is the value of exactly one opcode.
pub get_value-eq_byte :
    (other : PyOpcodes) (n : ℕ)
    → n < 256
    → (get_value other < 256)
      × (op : PyOpcodes) × (get_value op ≡ n)
      × ((get_value other ≡ n) ↔ (other ≡ op))
get_value-eq_byte other n h =
    let (op, e, same) = holds-nth n (all_hold_below 256 n all_hold_256 h) in
    (
      get_value-lt other,
      op,
      same,
      (
        λ v. some_inj.0 (sym (nth-get_value other) ∙ ap (λ i. nth i table) v ∙ e),
        λ v. ap get_value v ∙ same,
      ),
    )
