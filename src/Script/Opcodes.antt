-- ===== src/Script/Opcodes.antt =====
-- `PyOpcodes` of src/crypto/txscript/opcodes.rs, a constructor for each opcode.
pub mod Values
pub mod Bytes

pub data PyOpcodes : Type 0 where
  op_false op_data1 op_data2 op_data3 op_data4 op_data5 op_data6 op_data7 op_data8 : PyOpcodes
  op_data9 op_data10 op_data11 op_data12 op_data13 op_data14 op_data15 op_data16 : PyOpcodes
  op_data17 op_data18 op_data19 op_data20 op_data21 op_data22 op_data23 op_data24 : PyOpcodes
  op_data25 op_data26 op_data27 op_data28 op_data29 op_data30 op_data31 op_data32 : PyOpcodes
  op_data33 op_data34 op_data35 op_data36 op_data37 op_data38 op_data39 op_data40 : PyOpcodes
  op_data41 op_data42 op_data43 op_data44 op_data45 op_data46 op_data47 op_data48 : PyOpcodes
  op_data49 op_data50 op_data51 op_data52 op_data53 op_data54 op_data55 op_data56 : PyOpcodes
  op_data57 op_data58 op_data59 op_data60 op_data61 op_data62 op_data63 op_data64 : PyOpcodes
  op_data65 op_data66 op_data67 op_data68 op_data69 op_data70 op_data71 op_data72 : PyOpcodes
  op_data73 op_data74 op_data75 op_push_data1 op_push_data2 op_push_data4 : PyOpcodes
  op1_negate op_reserved op_true op2 op3 op4 op5 op6 op7 op8 op9 op10 op11 op12 : PyOpcodes
  op13 op14 op15 op16 op_nop op_ver op_if op_not_if op_ver_if op_ver_not_if op_else : PyOpcodes
  op_end_if op_verify op_return op_to_alt_stack op_from_alt_stack op2_drop op2_dup : PyOpcodes
  op3_dup op2_over op2_rot op2_swap op_if_dup op_depth op_drop op_dup op_nip : PyOpcodes
  op_over op_pick op_roll op_rot op_swap op_tuck op_cat op_sub_str op_left op_right : PyOpcodes
  op_size op_invert op_and op_or op_xor op_equal op_equal_verify op_reserved1 : PyOpcodes
  op_reserved2 op1_add op1_sub op2_mul op2_div op_negate op_abs op_not : PyOpcodes
  op0_not_equal op_add op_sub op_mul op_div op_mod op_l_shift op_r_shift : PyOpcodes
  op_bool_and op_bool_or op_num_equal op_num_equal_verify op_num_not_equal : PyOpcodes
  op_less_than op_greater_than op_less_than_or_equal op_greater_than_or_equal : PyOpcodes
  op_min op_max op_within op_unknown166 op_unknown167 op_sha256 : PyOpcodes
  op_check_multi_sig_ecdsa op_blake2b op_check_sig_ecdsa op_check_sig : PyOpcodes
  op_check_sig_verify op_check_multi_sig op_check_multi_sig_verify : PyOpcodes
  op_check_lock_time_verify op_check_sequence_verify op_unknown178 op_unknown179 : PyOpcodes
  op_unknown180 op_unknown181 op_unknown182 op_unknown183 op_unknown184 : PyOpcodes
  op_unknown185 op_unknown186 op_unknown187 op_unknown188 op_unknown189 : PyOpcodes
  op_unknown190 op_unknown191 op_unknown192 op_unknown193 op_unknown194 : PyOpcodes
  op_unknown195 op_unknown196 op_unknown197 op_unknown198 op_unknown199 : PyOpcodes
  op_unknown200 op_unknown201 op_unknown202 op_unknown203 op_unknown204 : PyOpcodes
  op_unknown205 op_unknown206 op_unknown207 op_unknown208 op_unknown209 : PyOpcodes
  op_unknown210 op_unknown211 op_unknown212 op_unknown213 op_unknown214 : PyOpcodes
  op_unknown215 op_unknown216 op_unknown217 op_unknown218 op_unknown219 : PyOpcodes
  op_unknown220 op_unknown221 op_unknown222 op_unknown223 op_unknown224 : PyOpcodes
  op_unknown225 op_unknown226 op_unknown227 op_unknown228 op_unknown229 : PyOpcodes
  op_unknown230 op_unknown231 op_unknown232 op_unknown233 op_unknown234 : PyOpcodes
  op_unknown235 op_unknown236 op_unknown237 op_unknown238 op_unknown239 : PyOpcodes
  op_unknown240 op_unknown241 op_unknown242 op_unknown243 op_unknown244 : PyOpcodes
  op_unknown245 op_unknown246 op_unknown247 op_unknown248 op_unknown249 : PyOpcodes
  op_small_integer op_pub_keys op_unknown252 op_pub_key_hash op_pub_key : PyOpcodes
  op_invalid_op_code : PyOpcodes
