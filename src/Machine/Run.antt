-- ===== src/Machine/Run.antt =====
-- src/vm.c: `run`, as the table of labels that a byte of the code selects. The result of a handler is not
-- tested. The handlers of enums, vectors and static members are the parameter `others`.
use joker_complier.Base.{
  ℕ, zero, suc, ◌==◌, Bool, true, false, Option, none, some, List, [], ◌∷◌, get_elem?, length,
  if◌then◌else◌,
}
use joker_complier.Value.{boolean, none_value}
use joker_complier.Chunk.OpCode.{
  OpCode, op_pop, op_dup, op_constant, op_constant_long, op_value, op_none, op_true, op_false,
  op_not, op_negate, op_equal, op_not_equal, op_less, op_less_equal, op_greater, op_greater_equal,
  op_add, op_subtract, op_multiply, op_divide, op_mod, op_bw_and, op_bw_or, op_bw_xor, op_bw_sl,
  op_bw_sr, op_bw_not, op_define_global, op_get_global, op_set_global, op_get_local, op_set_local,
  op_get_upvalue, op_set_upvalue, op_get_property, op_set_property, op_get_super,
  op_get_layer_property, op_get_type, op_jump_if_false, op_jump_if_neq, op_jump, op_loop, op_call,
  op_closure, op_close_upvalue, op_print, op_return, op_break, op_continue, op_match, op_class,
  op_method, op_inherit, op_invoke, op_super_invoke, op_struct, op_member, op_struct_inherit,
  op_enum, op_enum_define_member, op_enum_get_member, op_enum_member_bind, op_enum_member_match,
  op_layer_property_call, op_vector_new, op_vector_set, op_vector_get,
}
use joker_complier.Parse.State.{Fn}
use joker_complier.Vm.Arith.{
  add_op, sub_op, mul_op, div_op, mod_op, eq_op, neq_op, gt_op, lt_op, gte_op, lte_op, shl_op,
  shr_op, bit_and_op, bit_or_op, bit_xor_op,
}
use joker_complier.Machine.State.{
  H, ◌>>=◌, ◌>>◌, return, crash, fail, exhausted, push, last_frame, InterpretResult, succeeded,
}
use joker_complier.Machine.Fetch.{Readers, read_byte}
use joker_complier.Machine.Calls.{Natives, handle_op_return}
use joker_complier.Machine.Values.{
  Floats, Operators, read_binary, handle_op_not, handle_op_negate, handle_op_bw_not,
}
use joker_complier.Machine.Handlers.{
  done, handle_op_call, handle_op_close_upvalue, handle_op_closure, handle_op_constant,
  handle_op_constant_long, handle_op_define_global, handle_op_dup, handle_op_get_global,
  handle_op_get_local, handle_op_get_upvalue, handle_op_jump, handle_op_jump_if_false,
  handle_op_jump_if_neq, handle_op_loop, handle_op_match, handle_op_pop, handle_op_set_global,
  handle_op_set_local, handle_op_set_upvalue, handle_op_value,
}
use joker_complier.Machine.Holders.{
  handle_op_get_property, handle_op_set_property, handle_op_get_super, handle_op_get_type,
  handle_op_class, handle_op_method, handle_op_inherit, handle_op_invoke, handle_op_super_invoke,
  handle_op_struct, handle_op_member, handle_op_struct_inherit,
}

-- `op_table`, less the label of what is unknown, which is the last one
abbrev pub op_table : List OpCode
op_table =
    op_pop ∷ op_dup ∷ op_constant ∷ op_constant_long ∷ op_value ∷ op_none ∷ op_true ∷ op_false
    ∷ op_not ∷ op_negate ∷ op_equal ∷ op_not_equal ∷ op_less ∷ op_less_equal ∷ op_greater
    ∷ op_greater_equal ∷ op_add ∷ op_subtract ∷ op_multiply ∷ op_divide ∷ op_mod ∷ op_bw_and
    ∷ op_bw_or ∷ op_bw_xor ∷ op_bw_sl ∷ op_bw_sr ∷ op_bw_not ∷ op_define_global ∷ op_get_global
    ∷ op_set_global ∷ op_get_local ∷ op_set_local ∷ op_get_upvalue ∷ op_set_upvalue
    ∷ op_get_property ∷ op_set_property ∷ op_get_super ∷ op_get_layer_property ∷ op_get_type
    ∷ op_jump_if_false ∷ op_jump_if_neq ∷ op_jump ∷ op_loop ∷ op_call ∷ op_closure
    ∷ op_close_upvalue ∷ op_print ∷ op_return ∷ op_break ∷ op_continue ∷ op_match ∷ op_class
    ∷ op_method ∷ op_inherit ∷ op_invoke ∷ op_super_invoke ∷ op_struct ∷ op_member
    ∷ op_struct_inherit ∷ op_enum ∷ op_enum_define_member ∷ op_enum_get_member ∷ op_enum_member_bind
    ∷ op_enum_member_match ∷ op_layer_property_call ∷ op_vector_new ∷ op_vector_set ∷ op_vector_get
    ∷ []

-- The operation of a byte.
abbrev pub decode : ℕ → Option OpCode
decode byte = get_elem? op_table byte

-- The label of a handler: it goes on with the next instruction, whatever the result.
abbrev pub handle : H InterpretResult → H Bool
handle handler = do result ← handler; return false

-- The same, with the frame taken anew.
abbrev pub handle_call : H InterpretResult → H Bool
handle_call handler = do result ← handler; last_frame; return false

-- The label of op_return
abbrev pub leave : InterpretResult → H Bool
leave succeeded = return true
leave result = do last_frame; return false

module _ (readers : Readers) (program : List Fn) (natives : Natives) (floats : Floats)
    (operators : Operators) (others : OpCode → H InterpretResult) where
  -- The labels of `run`: whether it returns.
  unfoldable pub dispatch : OpCode → H Bool
  dispatch op_pop = handle handle_op_pop
  dispatch op_dup = handle handle_op_dup
  dispatch op_constant = handle (handle_op_constant readers program natives floats)
  dispatch op_constant_long = handle (handle_op_constant_long readers program natives floats)
  dispatch op_value = handle (handle_op_value readers program natives floats)
  dispatch op_none = handle (done (push none_value))
  dispatch op_true = handle (done (push (boolean true)))
  dispatch op_false = handle (done (push (boolean false)))
  dispatch op_not = handle (handle_op_not floats operators)
  dispatch op_negate = handle (handle_op_negate floats operators)
  dispatch op_equal = handle (read_binary floats operators eq_op)
  dispatch op_not_equal = handle (read_binary floats operators neq_op)
  dispatch op_less = handle (read_binary floats operators lt_op)
  dispatch op_less_equal = handle (read_binary floats operators lte_op)
  dispatch op_greater = handle (read_binary floats operators gt_op)
  dispatch op_greater_equal = handle (read_binary floats operators gte_op)
  dispatch op_add = handle (read_binary floats operators add_op)
  dispatch op_subtract = handle (read_binary floats operators sub_op)
  dispatch op_multiply = handle (read_binary floats operators mul_op)
  dispatch op_divide = handle (read_binary floats operators div_op)
  dispatch op_mod = handle (read_binary floats operators mod_op)
  dispatch op_bw_and = handle (read_binary floats operators bit_and_op)
  dispatch op_bw_or = handle (read_binary floats operators bit_or_op)
  dispatch op_bw_xor = handle (read_binary floats operators bit_xor_op)
  dispatch op_bw_sl = handle (read_binary floats operators shl_op)
  dispatch op_bw_sr = handle (read_binary floats operators shr_op)
  dispatch op_bw_not = handle (handle_op_bw_not floats operators)
  dispatch op_define_global = handle (handle_op_define_global readers program natives floats)
  dispatch op_get_global = handle (handle_op_get_global readers program natives floats)
  dispatch op_set_global = handle (handle_op_set_global readers program natives floats)
  dispatch op_get_local = handle (handle_op_get_local readers program natives floats)
  dispatch op_set_local = handle (handle_op_set_local readers program natives floats)
  dispatch op_get_upvalue = handle (handle_op_get_upvalue readers program natives floats)
  dispatch op_set_upvalue = handle (handle_op_set_upvalue readers program natives floats)
  dispatch op_get_property = handle (handle_op_get_property readers program natives)
  dispatch op_set_property = handle (handle_op_set_property readers program natives)
  dispatch op_get_super = handle (handle_op_get_super readers program natives)
  dispatch op_get_layer_property = handle (others op_get_layer_property)
  dispatch op_get_type = handle (handle_op_get_type readers program natives)
  dispatch op_jump_if_false = handle (handle_op_jump_if_false readers program natives floats)
  dispatch op_jump_if_neq = handle (handle_op_jump_if_neq readers program natives floats)
  dispatch op_jump = handle (handle_op_jump readers program natives floats)
  dispatch op_loop = handle (handle_op_loop readers program natives floats)
  dispatch op_call = handle_call (handle_op_call readers program natives floats)
  dispatch op_closure = handle (handle_op_closure readers program natives floats)
  dispatch op_close_upvalue = handle (handle_op_close_upvalue readers program natives floats)
  dispatch op_print = handle handle_op_pop
  dispatch op_break = handle (handle_op_jump readers program natives floats)
  dispatch op_continue = handle (handle_op_loop readers program natives floats)
  dispatch op_match = handle (handle_op_match readers program natives floats)
  dispatch op_class = handle (handle_op_class readers program natives)
  dispatch op_method = handle (handle_op_method readers program natives)
  dispatch op_inherit = handle (handle_op_inherit readers program natives)
  dispatch op_invoke = handle_call (handle_op_invoke readers program natives)
  dispatch op_super_invoke = handle_call (handle_op_super_invoke readers program natives)
  dispatch op_struct = handle (handle_op_struct readers program natives)
  dispatch op_member = handle (handle_op_member readers program natives)
  dispatch op_struct_inherit = handle (handle_op_struct_inherit readers program natives)
  dispatch op_enum = handle (others op_enum)
  dispatch op_enum_define_member = handle (others op_enum_define_member)
  dispatch op_enum_get_member = handle (others op_enum_get_member)
  dispatch op_enum_member_bind = handle (others op_enum_member_bind)
  dispatch op_enum_member_match = handle (others op_enum_member_match)
  dispatch op_layer_property_call = handle_call (others op_layer_property_call)
  dispatch op_vector_new = handle (others op_vector_new)
  dispatch op_vector_set = handle (others op_vector_set)
  dispatch op_vector_get = handle (others op_vector_get)
  dispatch op_return = do result ← handle_op_return readers program natives; leave result

  -- The jump to a label, or to what is unknown or behind the table
  unfoldable pub select : Option OpCode → ℕ → H Bool
  unfolding dispatch
  select (some op) byte = dispatch op
  select none byte = if byte == length op_table then fail else crash

  -- OP_DISPATCH
  unfoldable pub step : H Bool
  unfolding read_byte select
  step = do byte ← read_byte readers program; select (decode byte) byte

  -- `run`: the fuel bounds the instructions.
  unfoldable pub run : ℕ → H (Unit {0})
  unfolding step
  run zero = exhausted
  run (suc fuel) = do ended ← step; if ended then return tt else run fuel
