-- ===== src/Chunk/OpCode.antt =====
-- include/chunk.h: the operation codes of the machine, with their numbers in the enumeration.
use joker_complier.Base.{ℕ}

pub data OpCode : Type 0 where
  op_pop op_dup op_constant op_constant_long op_value op_none op_true op_false op_not : OpCode
  op_negate op_equal op_not_equal op_less op_less_equal op_greater op_greater_equal op_add : OpCode
  op_subtract op_multiply op_divide op_mod op_bw_and op_bw_or op_bw_xor op_bw_sl op_bw_sr : OpCode
  op_bw_not op_define_global op_get_global op_set_global op_get_local op_set_local : OpCode
  op_get_upvalue op_set_upvalue op_get_property op_set_property op_get_super : OpCode
  op_get_layer_property op_get_type op_jump_if_false op_jump_if_neq op_jump op_loop : OpCode
  op_call op_closure op_close_upvalue op_print op_return op_break op_continue op_match : OpCode
  op_class op_method op_inherit op_invoke op_super_invoke op_struct op_member : OpCode
  op_struct_inherit op_enum op_enum_define_member op_enum_get_member op_enum_member_bind : OpCode
  op_enum_member_match op_layer_property_call op_vector_new op_vector_set op_vector_get : OpCode

-- The byte of a code.
abbrev pub code : OpCode → ℕ
code op_pop = 0
code op_dup = 1
code op_constant = 2
code op_constant_long = 3
code op_value = 4
code op_none = 5
code op_true = 6
code op_false = 7
code op_not = 8
code op_negate = 9
code op_equal = 10
code op_not_equal = 11
code op_less = 12
code op_less_equal = 13
code op_greater = 14
code op_greater_equal = 15
code op_add = 16
code op_subtract = 17
code op_multiply = 18
code op_divide = 19
code op_mod = 20
code op_bw_and = 21
code op_bw_or = 22
code op_bw_xor = 23
code op_bw_sl = 24
code op_bw_sr = 25
code op_bw_not = 26
code op_define_global = 27
code op_get_global = 28
code op_set_global = 29
code op_get_local = 30
code op_set_local = 31
code op_get_upvalue = 32
code op_set_upvalue = 33
code op_get_property = 34
code op_set_property = 35
code op_get_super = 36
code op_get_layer_property = 37
code op_get_type = 38
code op_jump_if_false = 39
code op_jump_if_neq = 40
code op_jump = 41
code op_loop = 42
code op_call = 43
code op_closure = 44
code op_close_upvalue = 45
code op_print = 46
code op_return = 47
code op_break = 48
code op_continue = 49
code op_match = 50
code op_class = 51
code op_method = 52
code op_inherit = 53
code op_invoke = 54
code op_super_invoke = 55
code op_struct = 56
code op_member = 57
code op_struct_inherit = 58
code op_enum = 59
code op_enum_define_member = 60
code op_enum_get_member = 61
code op_enum_member_bind = 62
code op_enum_member_match = 63
code op_layer_property_call = 64
code op_vector_new = 65
code op_vector_set = 66
code op_vector_get = 67
