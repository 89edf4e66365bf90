-- ===== src/Machine/Runs.antt =====
-- The instructions of src/vm.c keep the bounds.
use joker_complier.Base.{
  ℕ, zero, suc, ◌+◌, ◌-◌, ◌/◌, ◌%◌, ◌^◌, ◌≤◌, Bool, true, false, not, ◌&&◌, ◌||◌, Option, none,
  some, List, [], ◌∷◌, ◌++◌, Outcome, ok, panic, undefined, out_of_fuel, ltb, leb, ◌==◌,
  if◌then◌else◌, get_elem?, length, set, replicate, arith, refl, length-set, ◌≡◌, sym,
}
use joker_complier.Base
use joker_complier.Base.Int.{pos}
use joker_complier.Value.{Value, i32, boolean, object, is_null}
use joker_complier.Parse.State.{Fn}
use joker_complier.Vm.Arith.{
  Operator, bit_not_op, Interpreted, interpret_ok, interpret_runtime_error,
}
use joker_complier.Vm.Unary.{negate, not_value, read_unary}
use joker_complier.Machine.State.{
  Object, closure_object, fn_object, Fields, get_field, has_field, set_field, Vm, H,
  InterpretResult, succeeded, raised, passed,
}
use joker_complier.Machine.Fetch.{Readers}
use joker_complier.Machine.Calls.{Natives}
use joker_complier.Machine.Values.{
  Floats, Operators, is_number, is_string, is_object, is_add, is_binary, binary_value, equal_values,
  put, put_object, pop_on, pop_after, heap, read_binary, handle_op_negate, handle_op_not,
  handle_op_bw_not,
}
use joker_complier.Machine.Handlers.{
  done, called, globals, set_globals, handle_op_pop, handle_op_dup, local_slot, read_upvalue,
  write_closed, write_upvalue, find_location, location_of, upvalue_in, capture_slot, fn_number,
  handle_op_constant, handle_op_constant_long, handle_op_value, handle_op_define_global,
  handle_op_get_global, handle_op_set_global, handle_op_get_local, handle_op_set_local, upvalue_ptr,
  handle_op_get_upvalue, handle_op_set_upvalue, jump_by, jump_back, is_falsey,
  handle_op_jump_if_false, handle_op_jump_if_neq, handle_op_jump, handle_op_loop, handle_op_match,
  handle_op_call, capture, capture_loop, as_fn, upvalue_count, handle_op_closure,
  handle_op_close_upvalue,
}
use joker_complier.Machine.Keeps.{
  Keeps, bind-Gives, bind-Keeps, return-Keeps, crash-Gives, fail-Gives, skip-Keeps, if-Gives,
  runtime_error-Keeps, stack_top-Gives, slot-Keeps, set_slot-Keeps, push-Keeps, pop-Keeps,
  peek-Keeps, set_peek-Keeps,
}
use joker_complier.Machine.Frames.{
  Quiet, Quiet-Keeps, object_at-Keeps, set_object-Keeps, allocate-Keeps, as_object-Keeps,
  current-Gives, set_ip-Keeps, read_byte-Keeps, read_short-Keeps, read_constant-Keeps,
  read_constant_long-Keeps, read_string-Keeps,
}
use joker_complier.Machine.Callers.{or_crash-Keeps, call_value-Keeps, close_from-Keeps}

pub done-Keeps : {m : H (Unit {0})} → Keeps m → Keeps (done m)
done-Keeps k = bind-Keeps k λ _. return-Keeps succeeded

put-Keeps : (distance : ℕ) (o : Outcome Interpreted) → Keeps (put distance o)
unfolding put
put-Keeps distance (ok (interpret_ok (value ∷ rest))) =
    bind-Keeps (set_peek-Keeps distance value) λ _. return-Keeps succeeded
put-Keeps distance (ok (interpret_ok [])) = runtime_error-Keeps
put-Keeps distance (ok interpret_runtime_error) = runtime_error-Keeps
put-Keeps distance panic = fail-Gives
put-Keeps distance undefined = crash-Gives
put-Keeps distance out_of_fuel = record { gives = λ s b. tt }

put_object-Keeps : (distance : ℕ) (o : Option (Value × List Object)) → Keeps (put_object distance o)
unfolding put_object
put_object-Keeps distance (some (value, objects)) =
    bind-Keeps (set_peek-Keeps distance value) λ _. Quiet-Keeps λ s. (refl, refl, refl, refl)
put_object-Keeps distance none = runtime_error-Keeps

pop_on-Keeps : (r : InterpretResult) → Keeps (pop_on r)
unfolding pop_on
pop_on-Keeps succeeded = bind-Keeps pop-Keeps λ v. return-Keeps succeeded
pop_on-Keeps raised = return-Keeps raised
pop_on-Keeps passed = return-Keeps passed

pop_after-Keeps : {m : H InterpretResult} → Keeps m → Keeps (pop_after m)
unfolding pop_after
pop_after-Keeps k = bind-Keeps k pop_on-Keeps

heap-Keeps : Keeps heap
unfolding heap
heap-Keeps = Quiet-Keeps λ s. (refl, refl, refl, refl)

module _ (floats : Floats) (operators : Operators) where
  pub read_binary-Keeps : (op : Operator) → Keeps (read_binary floats operators op)
  unfolding read_binary
  read_binary-Keeps op = bind-Keeps (peek-Keeps 0) λ rhs. bind-Keeps (peek-Keeps 1) λ lhs.
      bind-Keeps (as_object-Keeps lhs) λ left. bind-Keeps (as_object-Keeps rhs) λ right.
        bind-Keeps heap-Keeps λ objects. if-Gives (not (is_binary op)) runtime_error-Keeps (
          if-Gives (is_object left || (is_add op && is_number lhs && is_string right))
            (pop_after-Keeps (put_object-Keeps 1 (operators.binary op lhs rhs objects)))
            (pop_after-Keeps (put-Keeps 1 (binary_value floats op lhs rhs))))

  pub handle_op_negate-Keeps : Keeps (handle_op_negate floats operators)
  unfolding handle_op_negate
  handle_op_negate-Keeps = bind-Gives stack_top-Gives λ top h.
      if-Gives (leb top 0) fail-Gives (bind-Keeps (peek-Keeps 0) λ v. put-Keeps 0 (negate (v ∷ [])))

  pub handle_op_not-Keeps : Keeps (handle_op_not floats operators)
  unfolding handle_op_not
  handle_op_not-Keeps = bind-Gives stack_top-Gives λ top h.
      if-Gives (leb top 0) fail-Gives
        (bind-Keeps (peek-Keeps 0) λ v. put-Keeps 0 (not_value (v ∷ [])))

  pub handle_op_bw_not-Keeps : Keeps (handle_op_bw_not floats operators)
  unfolding handle_op_bw_not
  handle_op_bw_not-Keeps = bind-Keeps (peek-Keeps 0) λ v. bind-Keeps (as_object-Keeps v) λ o.
      bind-Keeps heap-Keeps λ objects.
        if-Gives (is_object o) (put_object-Keeps 0 (operators.unary bit_not_op v objects))
          (put-Keeps 0 (read_unary bit_not_op (v ∷ [])))

pub handle_op_pop-Keeps : Keeps handle_op_pop
unfolding handle_op_pop
handle_op_pop-Keeps = bind-Keeps pop-Keeps λ v. return-Keeps succeeded

pub handle_op_dup-Keeps : Keeps handle_op_dup
unfolding handle_op_dup
handle_op_dup-Keeps = bind-Keeps (peek-Keeps 0) λ v. done-Keeps (push-Keeps v)

globals-Keeps : Keeps globals
unfolding globals
globals-Keeps = Quiet-Keeps λ s. (refl, refl, refl, refl)

set_globals-Keeps : (fields : Fields) → Keeps (set_globals fields)
unfolding set_globals
set_globals-Keeps fields = Quiet-Keeps λ s. (refl, refl, refl, refl)

local_slot-Keeps : (i : ℕ) → Keeps (local_slot i)
unfolding local_slot
local_slot-Keeps i = bind-Gives current-Gives λ f h. return-Keeps (f.slots + i)

read_upvalue-Keeps : (location : ℕ) → Keeps (read_upvalue location)
unfolding read_upvalue
read_upvalue-Keeps location = Quiet-Keeps λ s. (refl, refl, refl, refl)

write_upvalue-Keeps : (location : ℕ) (v : Value) → Keeps (write_upvalue location v)
unfolding write_upvalue
write_upvalue-Keeps location v = Quiet-Keeps λ s. go s (ltb location (length s.stack))
  where
    go :
        (s : Vm) (t : Bool)
        → Quiet s (
            if t
            then ok (tt {0}, record s { stack = set s.stack location v })
            else ok (
              tt,
              record s {
                open_upvalues = write_closed s.open_upvalues location v;
                dropped = write_closed s.dropped location v;
              },
            ))
    go s true = (refl, refl, refl, length-set s.stack location v)
    go s false = (refl, refl, refl, refl)

location_of-Keeps : (id : ℕ) → Keeps (location_of id)
unfolding location_of
location_of-Keeps id = Quiet-Keeps λ s. go s (find_location (s.open_upvalues ++ s.dropped) id)
  where
    go :
        (s : Vm) (o : Option ℕ)
        → Quiet s (elim o [ none ↦ undefined | some location ↦ ok (location, s) ])
    go s none = tt
    go s (some location) = (refl, refl, refl, refl)

upvalue_in-Keeps : (o : Object) (i : ℕ) → Keeps (upvalue_in o i)
unfolding upvalue_in
upvalue_in-Keeps (closure_object number upvalues) i = or_crash-Keeps (get_elem? upvalues i)
upvalue_in-Keeps o i = crash-Gives

capture_slot-Keeps : (i : ℕ) → Keeps (capture_slot i)
unfolding capture_slot
capture_slot-Keeps i = Quiet-Keeps λ s. (refl, refl, refl, refl)

fn_number-Keeps : (o : Option Object) → Keeps (fn_number o)
unfolding fn_number
fn_number-Keeps (some (fn_object number)) = return-Keeps number
fn_number-Keeps o = crash-Gives

module _ (readers : Readers) (program : List Fn) (natives : Natives) (floats : Floats)
    (native-Keeps : (number count first : ℕ) → Keeps (natives.native number count first)) where
  pub handle_op_constant-Keeps : Keeps (handle_op_constant readers program natives floats)
  unfolding handle_op_constant
  handle_op_constant-Keeps =
      bind-Keeps (read_constant-Keeps readers program) λ v. done-Keeps (push-Keeps v)

  pub handle_op_constant_long-Keeps : Keeps (handle_op_constant_long readers program natives floats)
  unfolding handle_op_constant_long
  handle_op_constant_long-Keeps =
      bind-Keeps (read_constant_long-Keeps readers program) λ v. done-Keeps (push-Keeps v)

  pub handle_op_value-Keeps : Keeps (handle_op_value readers program natives floats)
  unfolding handle_op_value
  handle_op_value-Keeps =
      bind-Keeps (read_byte-Keeps readers program) λ byte. done-Keeps (push-Keeps (i32 (pos byte)))

  pub handle_op_define_global-Keeps : Keeps (handle_op_define_global readers program natives floats)
  unfolding handle_op_define_global
  handle_op_define_global-Keeps = bind-Keeps (read_string-Keeps readers program) λ identifier.
      bind-Keeps globals-Keeps λ fields. bind-Keeps (peek-Keeps 0) λ value.
        bind-Keeps (set_globals-Keeps (set_field fields identifier value))
          λ _. bind-Keeps pop-Keeps λ _. return-Keeps succeeded

  pub handle_op_get_global-Keeps : Keeps (handle_op_get_global readers program natives floats)
  unfolding handle_op_get_global
  handle_op_get_global-Keeps = bind-Keeps (read_string-Keeps readers program) λ identifier.
      bind-Keeps globals-Keeps λ fields.
        if-Gives (is_null (get_field fields identifier)) runtime_error-Keeps
          (done-Keeps (push-Keeps (get_field fields identifier)))

  pub handle_op_set_global-Keeps : Keeps (handle_op_set_global readers program natives floats)
  unfolding handle_op_set_global
  handle_op_set_global-Keeps = bind-Keeps (read_string-Keeps readers program) λ identifier.
      bind-Keeps globals-Keeps λ fields.
        if-Gives (has_field fields identifier)
          (bind-Keeps (peek-Keeps 0)
            λ value. done-Keeps (set_globals-Keeps (set_field fields identifier value)))
          runtime_error-Keeps

  pub handle_op_get_local-Keeps : Keeps (handle_op_get_local readers program natives floats)
  unfolding handle_op_get_local
  handle_op_get_local-Keeps = bind-Keeps (read_byte-Keeps readers program) λ byte.
      bind-Keeps (local_slot-Keeps byte) λ i.
        bind-Keeps (slot-Keeps i)
          λ value. if-Gives (is_null value) runtime_error-Keeps (done-Keeps (push-Keeps value))

  pub handle_op_set_local-Keeps : Keeps (handle_op_set_local readers program natives floats)
  unfolding handle_op_set_local
  handle_op_set_local-Keeps = bind-Keeps (read_byte-Keeps readers program) λ byte.
      bind-Keeps (local_slot-Keeps byte)
        λ i. bind-Keeps (peek-Keeps 0) λ value. done-Keeps (set_slot-Keeps i value)

  upvalue_ptr-Keeps : (i : ℕ) → Keeps (upvalue_ptr readers program natives floats i)
  unfolding upvalue_ptr
  upvalue_ptr-Keeps i = bind-Gives current-Gives λ f h.
      bind-Keeps (object_at-Keeps f.closure) λ o. bind-Keeps (upvalue_in-Keeps o i) or_crash-Keeps

  pub handle_op_get_upvalue-Keeps : Keeps (handle_op_get_upvalue readers program natives floats)
  unfolding handle_op_get_upvalue
  handle_op_get_upvalue-Keeps = bind-Keeps (read_byte-Keeps readers program) λ byte.
      bind-Keeps (upvalue_ptr-Keeps byte) λ id.
        bind-Keeps (location_of-Keeps id) λ location.
          bind-Keeps (read_upvalue-Keeps location) λ value. done-Keeps (push-Keeps value)

  pub handle_op_set_upvalue-Keeps : Keeps (handle_op_set_upvalue readers program natives floats)
  unfolding handle_op_set_upvalue
  handle_op_set_upvalue-Keeps = bind-Keeps (read_byte-Keeps readers program) λ byte.
      bind-Keeps (upvalue_ptr-Keeps byte) λ id. bind-Keeps (location_of-Keeps id) λ location.
        bind-Keeps (peek-Keeps 0) λ value. done-Keeps (write_upvalue-Keeps location value)

  jump_by-Keeps : (offset : ℕ) → Keeps (jump_by readers program natives floats offset)
  unfolding jump_by
  jump_by-Keeps offset = bind-Gives current-Gives λ f h. set_ip-Keeps (f.ip + offset)

  jump_back-Keeps : (offset : ℕ) → Keeps (jump_back readers program natives floats offset)
  unfolding jump_back
  jump_back-Keeps offset =
      bind-Gives current-Gives
        λ f h. if-Gives (leb offset f.ip) (set_ip-Keeps (f.ip - offset)) crash-Gives

  is_falsey-Keeps : (v : Value) → Keeps (is_falsey readers program natives floats v)
  unfolding is_falsey
  is_falsey-Keeps (boolean b) = return-Keeps (not b)
  is_falsey-Keeps v = bind-Keeps runtime_error-Keeps λ r. return-Keeps false

  pub handle_op_jump_if_false-Keeps : Keeps (handle_op_jump_if_false readers program natives floats)
  unfolding handle_op_jump_if_false
  handle_op_jump_if_false-Keeps = bind-Keeps (read_short-Keeps readers program) λ offset.
      bind-Keeps (peek-Keeps 0) λ value.
        bind-Keeps (is_falsey-Keeps value)
          λ falsey. done-Keeps (if-Gives falsey (jump_by-Keeps offset) skip-Keeps)

  pub handle_op_jump_if_neq-Keeps : Keeps (handle_op_jump_if_neq readers program natives floats)
  unfolding handle_op_jump_if_neq
  handle_op_jump_if_neq-Keeps = bind-Keeps pop-Keeps λ pattern_. bind-Keeps pop-Keeps λ matched.
      bind-Keeps
        (if-Gives (equal_values floats matched pattern_) (jump_by-Keeps 2)
          (bind-Keeps (read_short-Keeps readers program) jump_by-Keeps))
        λ _. done-Keeps (push-Keeps matched)

  pub handle_op_jump-Keeps : Keeps (handle_op_jump readers program natives floats)
  unfolding handle_op_jump
  handle_op_jump-Keeps =
      bind-Keeps (read_short-Keeps readers program) λ offset. done-Keeps (jump_by-Keeps offset)

  pub handle_op_loop-Keeps : Keeps (handle_op_loop readers program natives floats)
  unfolding handle_op_loop
  handle_op_loop-Keeps =
      bind-Keeps (read_short-Keeps readers program) λ offset. done-Keeps (jump_back-Keeps offset)

  pub handle_op_match-Keeps : Keeps (handle_op_match readers program natives floats)
  unfolding handle_op_match
  handle_op_match-Keeps =
      bind-Keeps (read_short-Keeps readers program) λ offset. return-Keeps succeeded

  pub handle_op_call-Keeps : Keeps (handle_op_call readers program natives floats)
  unfolding handle_op_call
  handle_op_call-Keeps = bind-Keeps (read_byte-Keeps readers program) λ arg_count.
      bind-Keeps (peek-Keeps arg_count) λ callee.
        bind-Keeps (call_value-Keeps readers program natives native-Keeps callee arg_count)
          λ b. return-Keeps (called b)

  capture-Keeps : (info : ℕ) → Keeps (capture readers program natives floats info)
  unfolding capture
  capture-Keeps info = bind-Keeps (local_slot-Keeps (info % 2 ^ 7)) λ i.
      bind-Gives current-Gives λ f h.
        bind-Keeps (object_at-Keeps f.closure) λ o.
          if-Gives (info / 2 ^ 7 == 0) (upvalue_in-Keeps o (info % 2 ^ 7)) (capture_slot-Keeps i)

  capture_loop-Keeps : (n : ℕ) → Keeps (capture_loop readers program natives floats n)
  unfolding capture_loop
  capture_loop-Keeps zero = return-Keeps []
  capture_loop-Keeps (suc n) = bind-Keeps (read_byte-Keeps readers program) λ info.
      bind-Keeps (capture-Keeps info)
        λ u. bind-Keeps (capture_loop-Keeps n) λ us. return-Keeps (u ∷ us)

  as_fn-Keeps : (v : Value) → Keeps (as_fn readers program natives floats v)
  unfolding as_fn
  as_fn-Keeps v = bind-Keeps (as_object-Keeps v) fn_number-Keeps

  upvalue_count-Keeps : (number : ℕ) → Keeps (upvalue_count readers program natives floats number)
  unfolding upvalue_count
  upvalue_count-Keeps number = Quiet-Keeps λ s. go s (get_elem? program number)
    where
      go :
          (s : Vm) (o : Option Fn)
          → Quiet s (
              Base.◌>>=◌
                (elim o [ none ↦ undefined | some fn ↦ ok fn ])
                (λ (fn : Fn). ok (fn.upvalue_count, s)))
      go s none = tt
      go s (some fn) = (refl, refl, refl, refl)

  pub handle_op_closure-Keeps : Keeps (handle_op_closure readers program natives floats)
  unfolding handle_op_closure
  handle_op_closure-Keeps = bind-Keeps (read_constant-Keeps readers program) λ value.
      bind-Keeps (as_fn-Keeps value) λ number. bind-Keeps (upvalue_count-Keeps number) λ count.
        bind-Keeps (allocate-Keeps (closure_object number (replicate count none))) λ closure.
          bind-Keeps (push-Keeps (object closure)) λ _.
            bind-Keeps (capture_loop-Keeps count)
              λ upvalues. done-Keeps (set_object-Keeps closure (closure_object number upvalues))

  pub handle_op_close_upvalue-Keeps : Keeps (handle_op_close_upvalue readers program natives floats)
  unfolding handle_op_close_upvalue
  handle_op_close_upvalue-Keeps = bind-Gives stack_top-Gives λ top h.
      bind-Keeps (close_from-Keeps readers program natives native-Keeps (top - 1))
        λ _. bind-Keeps pop-Keeps λ v. return-Keeps succeeded
