-- ===== src/Machine/Safe.antt =====
-- The loop of src/vm.c keeps the counts of frames and values within their arrays.
use joker_complier.Base.{
  ℕ, zero, suc, ◌==◌, Bool, true, false, Option, none, some, List, length, Outcome, ok, panic,
  undefined, out_of_fuel, ◌≡◌, refl, ap, ◌∙◌, if◌then◌else◌,
}
use joker_complier.Value.{boolean, none_value}
use joker_complier.Chunk.OpCode.{
  OpCode, op_pop, op_dup, op_constant, op_constant_long, op_value, op_none, op_true, op_false,
  op_not, op_negate, op_equal, op_not_equal, op_less, op_less_equal, op_greater, op_greater_equal,
  op_add, op_subtract, op_multiply, op_divide, op_mod, op_bw_and, op_bw_or, op_bw_xor, op_bw_sl,
  op_bw_sr, op_bw_not, op_define_global, op_get_global, op_set_global, op_get_local, op_set_local,
  op_get_upvalue, op_set_upvalue, op_get_property, op_set_property, op_get_super,
  op_get_layer_property, op_get_type, op_jump_if_false, op_jump_if_neq, op_jump, op_loop, op_call,
  op_closure, op_close_upvalue, op_print, op_break, op_continue, op_match, op_class, op_method,
  op_inherit, op_invoke, op_super_invoke, op_struct, op_member, op_struct_inherit, op_enum,
  op_enum_define_member, op_enum_get_member, op_enum_member_bind, op_enum_member_match,
  op_layer_property_call, op_vector_new, op_vector_set, op_vector_get, op_return,
}
use joker_complier.Parse.State.{Fn}
use joker_complier.Vm.Arith.{
  add_op, sub_op, mul_op, div_op, mod_op, eq_op, neq_op, gt_op, lt_op, gte_op, lte_op, shl_op,
  shr_op, bit_and_op, bit_or_op, bit_xor_op,
}
use joker_complier.Machine.State.{
  Vm, H, crash, continue, return, InterpretResult, succeeded, raised, passed,
}
use joker_complier.Machine.Fetch.{Readers}
use joker_complier.Machine.Calls.{Natives}
use joker_complier.Machine.Values.{Floats, Operators}
use joker_complier.Machine.Run.{
  handle, handle_call, leave, dispatch, select, step, run, decode, op_table,
}
use joker_complier.Machine.Keeps.{
  Keeps, bind-Keeps, return-Keeps, crash-Gives, fail-Gives, if-Gives, push-Keeps,
}
use joker_complier.Machine.Frames.{last_frame-Keeps, read_byte-Keeps}
use joker_complier.Machine.Callers.{handle_op_return-Keeps}
use joker_complier.Machine.Runs.{
  done-Keeps, read_binary-Keeps, handle_op_bw_not-Keeps, handle_op_call-Keeps,
  handle_op_close_upvalue-Keeps, handle_op_closure-Keeps, handle_op_constant-Keeps,
  handle_op_constant_long-Keeps, handle_op_define_global-Keeps, handle_op_dup-Keeps,
  handle_op_get_global-Keeps, handle_op_get_local-Keeps, handle_op_get_upvalue-Keeps,
  handle_op_jump-Keeps, handle_op_jump_if_false-Keeps, handle_op_jump_if_neq-Keeps,
  handle_op_loop-Keeps, handle_op_match-Keeps, handle_op_negate-Keeps, handle_op_not-Keeps,
  handle_op_pop-Keeps, handle_op_set_global-Keeps, handle_op_set_local-Keeps,
  handle_op_set_upvalue-Keeps, handle_op_value-Keeps,
}
use joker_complier.Machine.Owners.{
  handle_op_class-Keeps, handle_op_get_property-Keeps, handle_op_get_super-Keeps,
  handle_op_get_type-Keeps, handle_op_inherit-Keeps, handle_op_invoke-Keeps, handle_op_member-Keeps,
  handle_op_method-Keeps, handle_op_set_property-Keeps, handle_op_struct-Keeps,
  handle_op_struct_inherit-Keeps, handle_op_super_invoke-Keeps,
}

handle-Keeps : {m : H InterpretResult} → Keeps m → Keeps (handle m)
handle-Keeps k = bind-Keeps k λ _. return-Keeps false

handle_call-Keeps : {m : H InterpretResult} → Keeps m → Keeps (handle_call m)
handle_call-Keeps k = bind-Keeps k λ _. bind-Keeps last_frame-Keeps λ _. return-Keeps false

leave-Keeps : (r : InterpretResult) → Keeps (leave r)
leave-Keeps succeeded = return-Keeps true
leave-Keeps raised = bind-Keeps last_frame-Keeps λ _. return-Keeps false
leave-Keeps passed = bind-Keeps last_frame-Keeps λ _. return-Keeps false

-- The model of a run ends in front of an instruction for enums, vectors or static members.
abbrev pub no_others : OpCode → H InterpretResult
no_others op = crash

others-Keeps : (op : OpCode) → Keeps (no_others op)
others-Keeps op = crash-Gives

module _ (readers : Readers) (program : List Fn) (natives : Natives) (floats : Floats)
    (operators : Operators) where
  -- The states between the instructions of a run from `s`.
  pub data Reached (s : Vm) : Vm → Type 0 where
    start : Reached s s
    next :
        {s' s'' : Vm} (ended : Bool)
        → Reached s s'
        → step readers program natives floats operators no_others s' ≡ ok (ended, s'')
        → Reached s s''

  Reached-before :
      {s s' s'' : Vm}
      → step readers program natives floats operators no_others s ≡ ok (false, s')
      → Reached s' s''
      → Reached s s''
  Reached-before e start = next false start e
  Reached-before e (next ended r e') = next ended (Reached-before e r) e'

  -- Where `run` returns, it has reached its last state.
  pub run-Reached :
      (fuel : ℕ) (s s' : Vm)
      → run readers program natives floats operators no_others fuel s ≡ ok (tt, s')
      → Reached s s'
  unfolding run
  run-Reached zero s s' e = cc
  run-Reached (suc fuel) s s' e =
      go (step readers program natives floats operators no_others s) refl (run-Reached fuel) e
    where
      go :
          (o : Outcome (Bool × Vm))
          → step readers program natives floats operators no_others s ≡ o
          → ((t t' : Vm)
              → run readers program natives floats operators no_others fuel t ≡ ok (tt, t')
              → Reached t t')
          → continue o (λ ended.
            if ended
            then return tt
            else run readers program natives floats operators no_others fuel)
            ≡ ok (tt, s')
          → Reached s s'
      go (ok (true, s'')) stepped loop e' =
          let same : s'' ≡ s' = cc in next true start (stepped ∙ ap (λ (x : Vm). ok (true, x)) same)
      go (ok (false, s'')) stepped loop e' = Reached-before stepped (loop s'' s' e')
      go panic stepped loop e' = cc
      go undefined stepped loop e' = cc
      go out_of_fuel stepped loop e' = cc

module _ (readers : Readers) (program : List Fn) (natives : Natives) (floats : Floats)
    (operators : Operators)
    (native-Keeps : (number count first : ℕ) → Keeps (natives.native number count first)) where
  dispatch-Keeps :
      (op : OpCode) → Keeps (dispatch readers program natives floats operators no_others op)
  unfolding dispatch
  dispatch-Keeps op_pop = handle-Keeps handle_op_pop-Keeps
  dispatch-Keeps op_dup = handle-Keeps handle_op_dup-Keeps
  dispatch-Keeps op_constant =
      handle-Keeps (handle_op_constant-Keeps readers program natives floats native-Keeps)
  dispatch-Keeps op_constant_long =
      handle-Keeps (handle_op_constant_long-Keeps readers program natives floats native-Keeps)
  dispatch-Keeps op_value =
      handle-Keeps (handle_op_value-Keeps readers program natives floats native-Keeps)
  dispatch-Keeps op_none = handle-Keeps (done-Keeps (push-Keeps none_value))
  dispatch-Keeps op_true = handle-Keeps (done-Keeps (push-Keeps (boolean true)))
  dispatch-Keeps op_false = handle-Keeps (done-Keeps (push-Keeps (boolean false)))
  dispatch-Keeps op_not = handle-Keeps (handle_op_not-Keeps floats operators)
  dispatch-Keeps op_negate = handle-Keeps (handle_op_negate-Keeps floats operators)
  dispatch-Keeps op_equal = handle-Keeps (read_binary-Keeps floats operators eq_op)
  dispatch-Keeps op_not_equal = handle-Keeps (read_binary-Keeps floats operators neq_op)
  dispatch-Keeps op_less = handle-Keeps (read_binary-Keeps floats operators lt_op)
  dispatch-Keeps op_less_equal = handle-Keeps (read_binary-Keeps floats operators lte_op)
  dispatch-Keeps op_greater = handle-Keeps (read_binary-Keeps floats operators gt_op)
  dispatch-Keeps op_greater_equal = handle-Keeps (read_binary-Keeps floats operators gte_op)
  dispatch-Keeps op_add = handle-Keeps (read_binary-Keeps floats operators add_op)
  dispatch-Keeps op_subtract = handle-Keeps (read_binary-Keeps floats operators sub_op)
  dispatch-Keeps op_multiply = handle-Keeps (read_binary-Keeps floats operators mul_op)
  dispatch-Keeps op_divide = handle-Keeps (read_binary-Keeps floats operators div_op)
  dispatch-Keeps op_mod = handle-Keeps (read_binary-Keeps floats operators mod_op)
  dispatch-Keeps op_bw_and = handle-Keeps (read_binary-Keeps floats operators bit_and_op)
  dispatch-Keeps op_bw_or = handle-Keeps (read_binary-Keeps floats operators bit_or_op)
  dispatch-Keeps op_bw_xor = handle-Keeps (read_binary-Keeps floats operators bit_xor_op)
  dispatch-Keeps op_bw_sl = handle-Keeps (read_binary-Keeps floats operators shl_op)
  dispatch-Keeps op_bw_sr = handle-Keeps (read_binary-Keeps floats operators shr_op)
  dispatch-Keeps op_bw_not = handle-Keeps (handle_op_bw_not-Keeps floats operators)
  dispatch-Keeps op_define_global =
      handle-Keeps (handle_op_define_global-Keeps readers program natives floats native-Keeps)
  dispatch-Keeps op_get_global =
      handle-Keeps (handle_op_get_global-Keeps readers program natives floats native-Keeps)
  dispatch-Keeps op_set_global =
      handle-Keeps (handle_op_set_global-Keeps readers program natives floats native-Keeps)
  dispatch-Keeps op_get_local =
      handle-Keeps (handle_op_get_local-Keeps readers program natives floats native-Keeps)
  dispatch-Keeps op_set_local =
      handle-Keeps (handle_op_set_local-Keeps readers program natives floats native-Keeps)
  dispatch-Keeps op_get_upvalue =
      handle-Keeps (handle_op_get_upvalue-Keeps readers program natives floats native-Keeps)
  dispatch-Keeps op_set_upvalue =
      handle-Keeps (handle_op_set_upvalue-Keeps readers program natives floats native-Keeps)
  dispatch-Keeps op_get_property =
      handle-Keeps (handle_op_get_property-Keeps readers program natives native-Keeps)
  dispatch-Keeps op_set_property =
      handle-Keeps (handle_op_set_property-Keeps readers program natives native-Keeps)
  dispatch-Keeps op_get_super =
      handle-Keeps (handle_op_get_super-Keeps readers program natives native-Keeps)
  dispatch-Keeps op_get_layer_property = handle-Keeps (others-Keeps op_get_layer_property)
  dispatch-Keeps op_get_type =
      handle-Keeps (handle_op_get_type-Keeps readers program natives native-Keeps)
  dispatch-Keeps op_jump_if_false =
      handle-Keeps (handle_op_jump_if_false-Keeps readers program natives floats native-Keeps)
  dispatch-Keeps op_jump_if_neq =
      handle-Keeps (handle_op_jump_if_neq-Keeps readers program natives floats native-Keeps)
  dispatch-Keeps op_jump =
      handle-Keeps (handle_op_jump-Keeps readers program natives floats native-Keeps)
  dispatch-Keeps op_loop =
      handle-Keeps (handle_op_loop-Keeps readers program natives floats native-Keeps)
  dispatch-Keeps op_call =
      handle_call-Keeps (handle_op_call-Keeps readers program natives floats native-Keeps)
  dispatch-Keeps op_closure =
      handle-Keeps (handle_op_closure-Keeps readers program natives floats native-Keeps)
  dispatch-Keeps op_close_upvalue =
      handle-Keeps (handle_op_close_upvalue-Keeps readers program natives floats native-Keeps)
  dispatch-Keeps op_print = handle-Keeps handle_op_pop-Keeps
  dispatch-Keeps op_break =
      handle-Keeps (handle_op_jump-Keeps readers program natives floats native-Keeps)
  dispatch-Keeps op_continue =
      handle-Keeps (handle_op_loop-Keeps readers program natives floats native-Keeps)
  dispatch-Keeps op_match =
      handle-Keeps (handle_op_match-Keeps readers program natives floats native-Keeps)
  dispatch-Keeps op_class =
      handle-Keeps (handle_op_class-Keeps readers program natives native-Keeps)
  dispatch-Keeps op_method =
      handle-Keeps (handle_op_method-Keeps readers program natives native-Keeps)
  dispatch-Keeps op_inherit =
      handle-Keeps (handle_op_inherit-Keeps readers program natives native-Keeps)
  dispatch-Keeps op_invoke =
      handle_call-Keeps (handle_op_invoke-Keeps readers program natives native-Keeps)
  dispatch-Keeps op_super_invoke =
      handle_call-Keeps (handle_op_super_invoke-Keeps readers program natives native-Keeps)
  dispatch-Keeps op_struct =
      handle-Keeps (handle_op_struct-Keeps readers program natives native-Keeps)
  dispatch-Keeps op_member =
      handle-Keeps (handle_op_member-Keeps readers program natives native-Keeps)
  dispatch-Keeps op_struct_inherit =
      handle-Keeps (handle_op_struct_inherit-Keeps readers program natives native-Keeps)
  dispatch-Keeps op_enum = handle-Keeps (others-Keeps op_enum)
  dispatch-Keeps op_enum_define_member = handle-Keeps (others-Keeps op_enum_define_member)
  dispatch-Keeps op_enum_get_member = handle-Keeps (others-Keeps op_enum_get_member)
  dispatch-Keeps op_enum_member_bind = handle-Keeps (others-Keeps op_enum_member_bind)
  dispatch-Keeps op_enum_member_match = handle-Keeps (others-Keeps op_enum_member_match)
  dispatch-Keeps op_layer_property_call = handle_call-Keeps (others-Keeps op_layer_property_call)
  dispatch-Keeps op_vector_new = handle-Keeps (others-Keeps op_vector_new)
  dispatch-Keeps op_vector_set = handle-Keeps (others-Keeps op_vector_set)
  dispatch-Keeps op_vector_get = handle-Keeps (others-Keeps op_vector_get)
  dispatch-Keeps op_return =
      bind-Keeps (handle_op_return-Keeps readers program natives native-Keeps) leave-Keeps

  select-Keeps :
      (o : Option OpCode) (byte : ℕ)
      → Keeps (select readers program natives floats operators no_others o byte)
  unfolding select
  select-Keeps (some op) byte = dispatch-Keeps op
  select-Keeps none byte = if-Gives (byte == length op_table) fail-Gives crash-Gives

  pub step-Keeps : Keeps (step readers program natives floats operators no_others)
  unfolding step
  step-Keeps = bind-Keeps (read_byte-Keeps readers program) λ byte. select-Keeps (decode byte) byte
