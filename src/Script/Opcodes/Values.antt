-- ===== src/Script/Opcodes/Values.antt =====
-- The values of the opcodes: `get_value`, and the opcode of a byte.
use kaspa_python_sdk.Prelude.{ℕ}
use kaspa_python_sdk.Script.Opcodes.{PyOpcodes}

-- `self.clone() as u8`
unfoldable pub get_value : PyOpcodes → ℕ
get_value PyOpcodes.op_false = 0x00
get_value PyOpcodes.op_data1 = 0x01
get_value PyOpcodes.op_data2 = 0x02
get_value PyOpcodes.op_data3 = 0x03
get_value PyOpcodes.op_data4 = 0x04
get_value PyOpcodes.op_data5 = 0x05
get_value PyOpcodes.op_data6 = 0x06
get_value PyOpcodes.op_data7 = 0x07
get_value PyOpcodes.op_data8 = 0x08
get_value PyOpcodes.op_data9 = 0x09
get_value PyOpcodes.op_data10 = 0x0a
get_value PyOpcodes.op_data11 = 0x0b
get_value PyOpcodes.op_data12 = 0x0c
get_value PyOpcodes.op_data13 = 0x0d
get_value PyOpcodes.op_data14 = 0x0e
get_value PyOpcodes.op_data15 = 0x0f
get_value PyOpcodes.op_data16 = 0x10
get_value PyOpcodes.op_data17 = 0x11
get_value PyOpcodes.op_data18 = 0x12
get_value PyOpcodes.op_data19 = 0x13
get_value PyOpcodes.op_data20 = 0x14
get_value PyOpcodes.op_data21 = 0x15
get_value PyOpcodes.op_data22 = 0x16
get_value PyOpcodes.op_data23 = 0x17
get_value PyOpcodes.op_data24 = 0x18
get_value PyOpcodes.op_data25 = 0x19
get_value PyOpcodes.op_data26 = 0x1a
get_value PyOpcodes.op_data27 = 0x1b
get_value PyOpcodes.op_data28 = 0x1c
get_value PyOpcodes.op_data29 = 0x1d
get_value PyOpcodes.op_data30 = 0x1e
get_value PyOpcodes.op_data31 = 0x1f
get_value PyOpcodes.op_data32 = 0x20
get_value PyOpcodes.op_data33 = 0x21
get_value PyOpcodes.op_data34 = 0x22
get_value PyOpcodes.op_data35 = 0x23
get_value PyOpcodes.op_data36 = 0x24
get_value PyOpcodes.op_data37 = 0x25
get_value PyOpcodes.op_data38 = 0x26
get_value PyOpcodes.op_data39 = 0x27
get_value PyOpcodes.op_data40 = 0x28
get_value PyOpcodes.op_data41 = 0x29
get_value PyOpcodes.op_data42 = 0x2a
get_value PyOpcodes.op_data43 = 0x2b
get_value PyOpcodes.op_data44 = 0x2c
get_value PyOpcodes.op_data45 = 0x2d
get_value PyOpcodes.op_data46 = 0x2e
get_value PyOpcodes.op_data47 = 0x2f
get_value PyOpcodes.op_data48 = 0x30
get_value PyOpcodes.op_data49 = 0x31
get_value PyOpcodes.op_data50 = 0x32
get_value PyOpcodes.op_data51 = 0x33
get_value PyOpcodes.op_data52 = 0x34
get_value PyOpcodes.op_data53 = 0x35
get_value PyOpcodes.op_data54 = 0x36
get_value PyOpcodes.op_data55 = 0x37
get_value PyOpcodes.op_data56 = 0x38
get_value PyOpcodes.op_data57 = 0x39
get_value PyOpcodes.op_data58 = 0x3a
get_value PyOpcodes.op_data59 = 0x3b
get_value PyOpcodes.op_data60 = 0x3c
get_value PyOpcodes.op_data61 = 0x3d
get_value PyOpcodes.op_data62 = 0x3e
get_value PyOpcodes.op_data63 = 0x3f
get_value PyOpcodes.op_data64 = 0x40
get_value PyOpcodes.op_data65 = 0x41
get_value PyOpcodes.op_data66 = 0x42
get_value PyOpcodes.op_data67 = 0x43
get_value PyOpcodes.op_data68 = 0x44
get_value PyOpcodes.op_data69 = 0x45
get_value PyOpcodes.op_data70 = 0x46
get_value PyOpcodes.op_data71 = 0x47
get_value PyOpcodes.op_data72 = 0x48
get_value PyOpcodes.op_data73 = 0x49
get_value PyOpcodes.op_data74 = 0x4a
get_value PyOpcodes.op_data75 = 0x4b
get_value PyOpcodes.op_push_data1 = 0x4c
get_value PyOpcodes.op_push_data2 = 0x4d
get_value PyOpcodes.op_push_data4 = 0x4e
get_value PyOpcodes.op1_negate = 0x4f
get_value PyOpcodes.op_reserved = 0x50
get_value PyOpcodes.op_true = 0x51
get_value PyOpcodes.op2 = 0x52
get_value PyOpcodes.op3 = 0x53
get_value PyOpcodes.op4 = 0x54
get_value PyOpcodes.op5 = 0x55
get_value PyOpcodes.op6 = 0x56
get_value PyOpcodes.op7 = 0x57
get_value PyOpcodes.op8 = 0x58
get_value PyOpcodes.op9 = 0x59
get_value PyOpcodes.op10 = 0x5a
get_value PyOpcodes.op11 = 0x5b
get_value PyOpcodes.op12 = 0x5c
get_value PyOpcodes.op13 = 0x5d
get_value PyOpcodes.op14 = 0x5e
get_value PyOpcodes.op15 = 0x5f
get_value PyOpcodes.op16 = 0x60
get_value PyOpcodes.op_nop = 0x61
get_value PyOpcodes.op_ver = 0x62
get_value PyOpcodes.op_if = 0x63
get_value PyOpcodes.op_not_if = 0x64
get_value PyOpcodes.op_ver_if = 0x65
get_value PyOpcodes.op_ver_not_if = 0x66
get_value PyOpcodes.op_else = 0x67
get_value PyOpcodes.op_end_if = 0x68
get_value PyOpcodes.op_verify = 0x69
get_value PyOpcodes.op_return = 0x6a
get_value PyOpcodes.op_to_alt_stack = 0x6b
get_value PyOpcodes.op_from_alt_stack = 0x6c
get_value PyOpcodes.op2_drop = 0x6d
get_value PyOpcodes.op2_dup = 0x6e
get_value PyOpcodes.op3_dup = 0x6f
get_value PyOpcodes.op2_over = 0x70
get_value PyOpcodes.op2_rot = 0x71
get_value PyOpcodes.op2_swap = 0x72
get_value PyOpcodes.op_if_dup = 0x73
get_value PyOpcodes.op_depth = 0x74
get_value PyOpcodes.op_drop = 0x75
get_value PyOpcodes.op_dup = 0x76
get_value PyOpcodes.op_nip = 0x77
get_value PyOpcodes.op_over = 0x78
get_value PyOpcodes.op_pick = 0x79
get_value PyOpcodes.op_roll = 0x7a
get_value PyOpcodes.op_rot = 0x7b
get_value PyOpcodes.op_swap = 0x7c
get_value PyOpcodes.op_tuck = 0x7d
get_value PyOpcodes.op_cat = 0x7e
get_value PyOpcodes.op_sub_str = 0x7f
get_value PyOpcodes.op_left = 0x80
get_value PyOpcodes.op_right = 0x81
get_value PyOpcodes.op_size = 0x82
get_value PyOpcodes.op_invert = 0x83
get_value PyOpcodes.op_and = 0x84
get_value PyOpcodes.op_or = 0x85
get_value PyOpcodes.op_xor = 0x86
get_value PyOpcodes.op_equal = 0x87
get_value PyOpcodes.op_equal_verify = 0x88
get_value PyOpcodes.op_reserved1 = 0x89
get_value PyOpcodes.op_reserved2 = 0x8a
get_value PyOpcodes.op1_add = 0x8b
get_value PyOpcodes.op1_sub = 0x8c
get_value PyOpcodes.op2_mul = 0x8d
get_value PyOpcodes.op2_div = 0x8e
get_value PyOpcodes.op_negate = 0x8f
get_value PyOpcodes.op_abs = 0x90
get_value PyOpcodes.op_not = 0x91
get_value PyOpcodes.op0_not_equal = 0x92
get_value PyOpcodes.op_add = 0x93
get_value PyOpcodes.op_sub = 0x94
get_value PyOpcodes.op_mul = 0x95
get_value PyOpcodes.op_div = 0x96
get_value PyOpcodes.op_mod = 0x97
get_value PyOpcodes.op_l_shift = 0x98
get_value PyOpcodes.op_r_shift = 0x99
get_value PyOpcodes.op_bool_and = 0x9a
get_value PyOpcodes.op_bool_or = 0x9b
get_value PyOpcodes.op_num_equal = 0x9c
get_value PyOpcodes.op_num_equal_verify = 0x9d
get_value PyOpcodes.op_num_not_equal = 0x9e
get_value PyOpcodes.op_less_than = 0x9f
get_value PyOpcodes.op_greater_than = 0xa0
get_value PyOpcodes.op_less_than_or_equal = 0xa1
get_value PyOpcodes.op_greater_than_or_equal = 0xa2
get_value PyOpcodes.op_min = 0xa3
get_value PyOpcodes.op_max = 0xa4
get_value PyOpcodes.op_within = 0xa5
get_value PyOpcodes.op_unknown166 = 0xa6
get_value PyOpcodes.op_unknown167 = 0xa7
get_value PyOpcodes.op_sha256 = 0xa8
get_value PyOpcodes.op_check_multi_sig_ecdsa = 0xa9
get_value PyOpcodes.op_blake2b = 0xaa
get_value PyOpcodes.op_check_sig_ecdsa = 0xab
get_value PyOpcodes.op_check_sig = 0xac
get_value PyOpcodes.op_check_sig_verify = 0xad
get_value PyOpcodes.op_check_multi_sig = 0xae
get_value PyOpcodes.op_check_multi_sig_verify = 0xaf
get_value PyOpcodes.op_check_lock_time_verify = 0xb0
get_value PyOpcodes.op_check_sequence_verify = 0xb1
get_value PyOpcodes.op_unknown178 = 0xb2
get_value PyOpcodes.op_unknown179 = 0xb3
get_value PyOpcodes.op_unknown180 = 0xb4
get_value PyOpcodes.op_unknown181 = 0xb5
get_value PyOpcodes.op_unknown182 = 0xb6
get_value PyOpcodes.op_unknown183 = 0xb7
get_value PyOpcodes.op_unknown184 = 0xb8
get_value PyOpcodes.op_unknown185 = 0xb9
get_value PyOpcodes.op_unknown186 = 0xba
get_value PyOpcodes.op_unknown187 = 0xbb
get_value PyOpcodes.op_unknown188 = 0xbc
get_value PyOpcodes.op_unknown189 = 0xbd
get_value PyOpcodes.op_unknown190 = 0xbe
get_value PyOpcodes.op_unknown191 = 0xbf
get_value PyOpcodes.op_unknown192 = 0xc0
get_value PyOpcodes.op_unknown193 = 0xc1
get_value PyOpcodes.op_unknown194 = 0xc2
get_value PyOpcodes.op_unknown195 = 0xc3
get_value PyOpcodes.op_unknown196 = 0xc4
get_value PyOpcodes.op_unknown197 = 0xc5
get_value PyOpcodes.op_unknown198 = 0xc6
get_value PyOpcodes.op_unknown199 = 0xc7
get_value PyOpcodes.op_unknown200 = 0xc8
get_value PyOpcodes.op_unknown201 = 0xc9
get_value PyOpcodes.op_unknown202 = 0xca
get_value PyOpcodes.op_unknown203 = 0xcb
get_value PyOpcodes.op_unknown204 = 0xcc
get_value PyOpcodes.op_unknown205 = 0xcd
get_value PyOpcodes.op_unknown206 = 0xce
get_value PyOpcodes.op_unknown207 = 0xcf
get_value PyOpcodes.op_unknown208 = 0xd0
get_value PyOpcodes.op_unknown209 = 0xd1
get_value PyOpcodes.op_unknown210 = 0xd2
get_value PyOpcodes.op_unknown211 = 0xd3
get_value PyOpcodes.op_unknown212 = 0xd4
get_value PyOpcodes.op_unknown213 = 0xd5
get_value PyOpcodes.op_unknown214 = 0xd6
get_value PyOpcodes.op_unknown215 = 0xd7
get_value PyOpcodes.op_unknown216 = 0xd8
get_value PyOpcodes.op_unknown217 = 0xd9
get_value PyOpcodes.op_unknown218 = 0xda
get_value PyOpcodes.op_unknown219 = 0xdb
get_value PyOpcodes.op_unknown220 = 0xdc
get_value PyOpcodes.op_unknown221 = 0xdd
get_value PyOpcodes.op_unknown222 = 0xde
get_value PyOpcodes.op_unknown223 = 0xdf
get_value PyOpcodes.op_unknown224 = 0xe0
get_value PyOpcodes.op_unknown225 = 0xe1
get_value PyOpcodes.op_unknown226 = 0xe2
get_value PyOpcodes.op_unknown227 = 0xe3
get_value PyOpcodes.op_unknown228 = 0xe4
get_value PyOpcodes.op_unknown229 = 0xe5
get_value PyOpcodes.op_unknown230 = 0xe6
get_value PyOpcodes.op_unknown231 = 0xe7
get_value PyOpcodes.op_unknown232 = 0xe8
get_value PyOpcodes.op_unknown233 = 0xe9
get_value PyOpcodes.op_unknown234 = 0xea
get_value PyOpcodes.op_unknown235 = 0xeb
get_value PyOpcodes.op_unknown236 = 0xec
get_value PyOpcodes.op_unknown237 = 0xed
get_value PyOpcodes.op_unknown238 = 0xee
get_value PyOpcodes.op_unknown239 = 0xef
get_value PyOpcodes.op_unknown240 = 0xf0
get_value PyOpcodes.op_unknown241 = 0xf1
get_value PyOpcodes.op_unknown242 = 0xf2
get_value PyOpcodes.op_unknown243 = 0xf3
get_value PyOpcodes.op_unknown244 = 0xf4
get_value PyOpcodes.op_unknown245 = 0xf5
get_value PyOpcodes.op_unknown246 = 0xf6
get_value PyOpcodes.op_unknown247 = 0xf7
get_value PyOpcodes.op_unknown248 = 0xf8
get_value PyOpcodes.op_unknown249 = 0xf9
get_value PyOpcodes.op_small_integer = 0xfa
get_value PyOpcodes.op_pub_keys = 0xfb
get_value PyOpcodes.op_unknown252 = 0xfc
get_value PyOpcodes.op_pub_key_hash = 0xfd
get_value PyOpcodes.op_pub_key = 0xfe
get_value PyOpcodes.op_invalid_op_code = 0xff
