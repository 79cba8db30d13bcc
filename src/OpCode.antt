-- ===== src/OpCode.antt =====
-- tx-runtime/include/tx/opcodes.inc and the opcode tables of chunk.hxx: the instruction set. The
-- constructors stand in the order of the source, which `to_underlying` numbers.
use tx_lang_cxx.Prelude.{ℕ}
use tx_lang_cxx.Prelude.Int.{ℤ, pos, negsuc}

pub data OpCode : Type 0 where
  constant constant_long nil true false : OpCode
  pop get_local get_local_long set_local set_local_long : OpCode
  get_global get_global_long set_global set_global_long define_global : OpCode
  define_global_long get_upvalue get_upvalue_long set_upvalue set_upvalue_long : OpCode
  equal not_equal greater greater_equal less : OpCode
  less_equal add substract multiply divide : OpCode
  not negate jump jump_if_false loop : OpCode
  call closure closure_long end_scope end_scope_long : OpCode
  return end : OpCode

unfoldable pub to_underlying : OpCode → ℕ
to_underlying constant = 0
to_underlying constant_long = 1
to_underlying nil = 2
to_underlying true = 3
to_underlying false = 4
to_underlying pop = 5
to_underlying get_local = 6
to_underlying get_local_long = 7
to_underlying set_local = 8
to_underlying set_local_long = 9
to_underlying get_global = 10
to_underlying get_global_long = 11
to_underlying set_global = 12
to_underlying set_global_long = 13
to_underlying define_global = 14
to_underlying define_global_long = 15
to_underlying get_upvalue = 16
to_underlying get_upvalue_long = 17
to_underlying set_upvalue = 18
to_underlying set_upvalue_long = 19
to_underlying equal = 20
to_underlying not_equal = 21
to_underlying greater = 22
to_underlying greater_equal = 23
to_underlying less = 24
to_underlying less_equal = 25
to_underlying add = 26
to_underlying substract = 27
to_underlying multiply = 28
to_underlying divide = 29
to_underlying not = 30
to_underlying negate = 31
to_underlying jump = 32
to_underlying jump_if_false = 33
to_underlying loop = 34
to_underlying call = 35
to_underlying closure = 36
to_underlying closure_long = 37
to_underlying end_scope = 38
to_underlying end_scope_long = 39
to_underlying return = 40
to_underlying end = 41

-- `opcode_length_table` at the opcode
unfoldable pub get_byte_count_following_opcode : OpCode → ℕ
get_byte_count_following_opcode constant = 1
get_byte_count_following_opcode constant_long = 3
get_byte_count_following_opcode nil = 0
get_byte_count_following_opcode true = 0
get_byte_count_following_opcode false = 0
get_byte_count_following_opcode pop = 0
get_byte_count_following_opcode get_local = 1
get_byte_count_following_opcode get_local_long = 3
get_byte_count_following_opcode set_local = 1
get_byte_count_following_opcode set_local_long = 3
get_byte_count_following_opcode get_global = 1
get_byte_count_following_opcode get_global_long = 3
get_byte_count_following_opcode set_global = 1
get_byte_count_following_opcode set_global_long = 3
get_byte_count_following_opcode define_global = 1
get_byte_count_following_opcode define_global_long = 3
get_byte_count_following_opcode get_upvalue = 1
get_byte_count_following_opcode get_upvalue_long = 3
get_byte_count_following_opcode set_upvalue = 1
get_byte_count_following_opcode set_upvalue_long = 3
get_byte_count_following_opcode equal = 0
get_byte_count_following_opcode not_equal = 0
get_byte_count_following_opcode greater = 0
get_byte_count_following_opcode greater_equal = 0
get_byte_count_following_opcode less = 0
get_byte_count_following_opcode less_equal = 0
get_byte_count_following_opcode add = 0
get_byte_count_following_opcode substract = 0
get_byte_count_following_opcode multiply = 0
get_byte_count_following_opcode divide = 0
get_byte_count_following_opcode not = 0
get_byte_count_following_opcode negate = 0
get_byte_count_following_opcode jump = 2
get_byte_count_following_opcode jump_if_false = 2
get_byte_count_following_opcode loop = 2
get_byte_count_following_opcode call = 1
get_byte_count_following_opcode closure = 1
get_byte_count_following_opcode closure_long = 3
get_byte_count_following_opcode end_scope = 1
get_byte_count_following_opcode end_scope_long = 3
get_byte_count_following_opcode return = 0
get_byte_count_following_opcode end = 0

-- `opcode_stack_effect_table` at the opcode
unfoldable pub opcode_stack_effect : OpCode → ℤ
opcode_stack_effect constant = pos 1
opcode_stack_effect constant_long = pos 1
opcode_stack_effect nil = pos 1
opcode_stack_effect true = pos 1
opcode_stack_effect false = pos 1
opcode_stack_effect pop = negsuc 0
opcode_stack_effect get_local = pos 1
opcode_stack_effect get_local_long = pos 1
opcode_stack_effect set_local = pos 0
opcode_stack_effect set_local_long = pos 0
opcode_stack_effect get_global = pos 1
opcode_stack_effect get_global_long = pos 1
opcode_stack_effect set_global = pos 0
opcode_stack_effect set_global_long = pos 0
opcode_stack_effect define_global = negsuc 0
opcode_stack_effect define_global_long = negsuc 0
opcode_stack_effect get_upvalue = pos 1
opcode_stack_effect get_upvalue_long = pos 1
opcode_stack_effect set_upvalue = pos 0
opcode_stack_effect set_upvalue_long = pos 0
opcode_stack_effect equal = negsuc 0
opcode_stack_effect not_equal = negsuc 0
opcode_stack_effect greater = negsuc 0
opcode_stack_effect greater_equal = negsuc 0
opcode_stack_effect less = negsuc 0
opcode_stack_effect less_equal = negsuc 0
opcode_stack_effect add = negsuc 0
opcode_stack_effect substract = negsuc 0
opcode_stack_effect multiply = negsuc 0
opcode_stack_effect divide = negsuc 0
opcode_stack_effect not = pos 0
opcode_stack_effect negate = pos 0
opcode_stack_effect jump = pos 0
opcode_stack_effect jump_if_false = pos 0
opcode_stack_effect loop = pos 0
opcode_stack_effect call = pos 0
opcode_stack_effect closure = pos 1
opcode_stack_effect closure_long = pos 1
opcode_stack_effect end_scope = pos 0
opcode_stack_effect end_scope_long = pos 0
opcode_stack_effect return = pos 0
opcode_stack_effect end = pos 0
