-- ===== src/Machine/Goes.antt =====
-- What the loop of src/vm.c makes of a runtime error: the labels do not test the result of a handler.
use joker_complier.Base.{
  ℕ, suc, Bool, true, false, some, List, [], ◌++◌, Outcome, ok, ◌≡◌, refl, ap, if◌then◌else◌,
}
use joker_complier.Value.{Value, is_null}
use joker_complier.Chunk.OpCode.{OpCode, op_get_global}
use joker_complier.Parse.State.{Fn}
use joker_complier.Machine.State.{
  Vm, H, InterpretResult, continue, return, reset_stack, runtime_error, get_field,
}
use joker_complier.Machine.Fetch.{Readers, read_byte, read_string}
use joker_complier.Machine.Calls.{Natives}
use joker_complier.Machine.Values.{Floats, Operators}
use joker_complier.Machine.Handlers.{globals, handle_op_get_global}
use joker_complier.Machine.Run.{dispatch, select, step, run, decode}

-- The machine after `reset_stack`: `frame`, a local variable of `run`, still points to the frame, whose cell, with
-- its `ip`, is as it was.
abbrev pub cleared : Vm → Vm
cleared s = record s {
  stack_top = 0;
  frame_count = 0;
  open_upvalues = [];
  dropped = s.open_upvalues ++ s.dropped;
}

module _ (readers : Readers) (program : List Fn) (natives : Natives) (floats : Floats)
    (operators : Operators) (others : OpCode → H InterpretResult) where
  step-get_global :
      (s s₁ s₂ : Vm) (byte : ℕ) (name : List ℕ)
      → read_byte readers program s ≡ ok (byte, s₁)
      → decode byte ≡ some op_get_global
      → read_string readers program s₁ ≡ ok (name, s₂)
      → is_null (get_field s₂.globals name) ≡ true
      → step readers program natives floats operators others s ≡ ok (false, cleared s₂)
  unfolding step select dispatch handle_op_get_global globals runtime_error reset_stack
  step-get_global s s₁ s₂ byte name read op text missing = rw (read, op, text, missing) refl

  -- A read of a global variable that is not there does not end the run. With the stack and the frames emptied,
  -- and the pointer `frame` as it was, the loop goes on with the instruction behind it.
  pub run-get_global :
      (fuel : ℕ) (s s₁ s₂ : Vm) (byte : ℕ) (name : List ℕ)
      → read_byte readers program s ≡ ok (byte, s₁)
      → decode byte ≡ some op_get_global
      → read_string readers program s₁ ≡ ok (name, s₂)
      → is_null (get_field s₂.globals name) ≡ true
      → run readers program natives floats operators others (suc fuel) s
        ≡ run readers program natives floats operators others fuel (cleared s₂)
  unfolding run
  run-get_global fuel s s₁ s₂ byte name read op text missing =
      ap
        (λ (o : Outcome (Bool × Vm)). continue o (λ ended.
          if ended then return tt else run readers program natives floats operators others fuel))
        (step-get_global s s₁ s₂ byte name read op text missing)
