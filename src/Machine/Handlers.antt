-- ===== src/Machine/Handlers.antt =====
-- src/vm.c: the handlers of constants, variables, jumps, upvalues, classes and structs.
use joker_complier.Base.{
  ℕ, zero, suc, ◌+◌, ◌-◌, ◌/◌, ◌%◌, ◌^◌, Bool, true, false, not, Option, none, some, List, [], ◌∷◌,
  ◌++◌, Outcome, ok, undefined, ltb, leb, ◌==◌, if◌then◌else◌, length, replicate, get_elem?, set,
}
use joker_complier.Base
use joker_complier.Base.Int.{pos}
use joker_complier.Value.{Value, i32, boolean, object, is_null}
use joker_complier.Parse.State.{Fn}
use joker_complier.Upvalue.{Upvalue, capture_upvalue}
use joker_complier.Machine.State.{
  Object, fn_object, closure_object, Fields, get_field, has_field, set_field, H, ◌>>=◌, ◌>>◌,
  return, crash, skip, cell, current, set_ip, InterpretResult, succeeded, raised, runtime_error,
  push, pop, peek, stack_top, slot, set_slot, object_at, set_object, allocate,
}
use joker_complier.Machine.Fetch.{
  Readers, read_byte, read_short, read_constant, read_constant_long, read_string,
}
use joker_complier.Machine.Calls.{
  Natives, or_crash, as_object, read_address, call_value, close_from,
}
use joker_complier.Machine.Values.{Floats, equal_values}

-- A handler that cannot fail.
abbrev pub done : H (Unit {0}) → H InterpretResult
done m = m >>= λ _. return succeeded

-- The result of a handler that calls.
abbrev pub called : Bool → InterpretResult
called b = if b then succeeded else raised

unfoldable pub globals : H Fields
globals s = ok (s.globals, s)

unfoldable pub set_globals : Fields → H (Unit {0})
set_globals fields s = ok (tt, record s { globals = fields })

-- `handle_op_value` and the constants without an operand
unfoldable pub handle_op_pop : H InterpretResult
unfolding pop
handle_op_pop = do value ← pop; return succeeded

unfoldable pub handle_op_dup : H InterpretResult
unfolding peek push
handle_op_dup = do value ← peek 0; done (push value)

-- The slot of the current frame, `frame->slots[i]`
unfoldable pub local_slot : ℕ → H ℕ
unfolding current
local_slot i = do frame ← current; return (frame.slots + i)

-- `*upvalue->location`
unfoldable pub read_upvalue : ℕ → H Value
unfolding read_address
read_upvalue location s = ok (read_address s.stack (s.open_upvalues ++ s.dropped) location, s)

-- `*upvalue->location = value`, on the stack or in the node
abbrev pub write_closed : List (Upvalue Value) → ℕ → Value → List (Upvalue Value)
write_closed [] address value = []
write_closed (u ∷ us) address value =
    let rest = write_closed us address value in
    if u.location == address then record u { closed = some value } ∷ us else u ∷ rest

unfoldable pub write_upvalue : ℕ → Value → H (Unit {0})
write_upvalue location value s =
    if ltb location (length s.stack)
    then ok (tt, record s { stack = set s.stack location value })
    else ok (
      tt,
      record s {
        open_upvalues = write_closed s.open_upvalues location value;
        dropped = write_closed s.dropped location value;
      },
    )

-- Where the upvalue with this address points to.
abbrev pub find_location : List (Upvalue Value) → ℕ → Option ℕ
find_location [] id = none
find_location (u ∷ us) id =
    let rest = find_location us id in if u.id == id then some u.location else rest

unfoldable pub location_of : ℕ → H ℕ
location_of id s = elim (find_location (s.open_upvalues ++ s.dropped) id) [
  | none ↦ undefined
  | some location ↦ ok (location, s)
]

-- `closure->upvalue_ptrs[i]`, none where it is NULL
unfoldable pub upvalue_in : Object → ℕ → H (Option ℕ)
unfolding or_crash
upvalue_in (closure_object number upvalues) i = or_crash (get_elem? upvalues i)
upvalue_in o i = crash

-- `capture_upvalue(self, slot)`
unfoldable pub capture_slot : ℕ → H (Option ℕ)
unfolding capture_upvalue
capture_slot i s =
    let (id, us) = capture_upvalue (length s.open_upvalues + length s.dropped) s.open_upvalues i in
    ok (some id, record s { open_upvalues = us })

unfoldable pub fn_number : Option Object → H ℕ
fn_number (some (fn_object number)) = return number
fn_number o = crash

module _ (readers : Readers) (program : List Fn) (natives : Natives) (floats : Floats) where
  unfoldable pub handle_op_constant : H InterpretResult
  unfolding read_constant push
  handle_op_constant = do value ← read_constant readers program; done (push value)

  unfoldable pub handle_op_constant_long : H InterpretResult
  unfolding read_constant_long push
  handle_op_constant_long = do value ← read_constant_long readers program; done (push value)

  unfoldable pub handle_op_value : H InterpretResult
  unfolding read_byte push
  handle_op_value = do byte ← read_byte readers program; done (push (i32 (pos byte)))

  unfoldable pub handle_op_define_global : H InterpretResult
  unfolding read_string globals peek set_globals pop
  handle_op_define_global = do
    identifier ← read_string readers program
    fields ← globals
    value ← peek 0
    set_globals (set_field fields identifier value)
    popped ← pop
    return succeeded

  unfoldable pub handle_op_get_global : H InterpretResult
  unfolding read_string globals runtime_error push
  handle_op_get_global = do
    identifier ← read_string readers program
    fields ← globals
    if is_null (get_field fields identifier)
        then runtime_error
        else done (push (get_field fields identifier))

  unfoldable pub handle_op_set_global : H InterpretResult
  unfolding read_string globals runtime_error peek set_globals
  handle_op_set_global = do
    identifier ← read_string readers program
    fields ← globals
    if has_field fields identifier
        then (do value ← peek 0; done (set_globals (set_field fields identifier value)))
        else runtime_error

  unfoldable pub handle_op_get_local : H InterpretResult
  unfolding read_byte local_slot slot runtime_error push
  handle_op_get_local = do
    byte ← read_byte readers program
    i ← local_slot byte
    value ← slot i
    if is_null value then runtime_error else done (push value)

  unfoldable pub handle_op_set_local : H InterpretResult
  unfolding read_byte local_slot peek set_slot
  handle_op_set_local = do
    byte ← read_byte readers program
    i ← local_slot byte
    value ← peek 0
    done (set_slot i value)

  -- `frame->closure->upvalue_ptrs[i]`; NULL is undefined.
  unfoldable pub upvalue_ptr : ℕ → H ℕ
  unfolding current object_at upvalue_in or_crash
  upvalue_ptr i = do frame ← current; o ← object_at frame.closure; u ← upvalue_in o i; or_crash u

  unfoldable pub handle_op_get_upvalue : H InterpretResult
  unfolding read_byte upvalue_ptr location_of read_upvalue push
  handle_op_get_upvalue = do
    byte ← read_byte readers program
    id ← upvalue_ptr byte
    location ← location_of id
    value ← read_upvalue location
    done (push value)

  unfoldable pub handle_op_set_upvalue : H InterpretResult
  unfolding read_byte upvalue_ptr location_of peek write_upvalue
  handle_op_set_upvalue = do
    byte ← read_byte readers program
    id ← upvalue_ptr byte
    location ← location_of id
    value ← peek 0
    done (write_upvalue location value)

  -- `frame->ip += offset`, and `frame->ip -= offset`, which must stay in the code
  unfoldable pub jump_by : ℕ → H (Unit {0})
  unfolding current set_ip
  jump_by offset = do frame ← current; set_ip (frame.ip + offset)

  unfoldable pub jump_back : ℕ → H (Unit {0})
  unfolding current set_ip
  jump_back offset = do
    frame ← current
    if leb offset frame.ip then set_ip (frame.ip - offset) else crash

  -- `is_falsey`: what is no Boolean raises an error, and the result is `false`.
  unfoldable pub is_falsey : Value → H Bool
  unfolding runtime_error
  is_falsey (boolean b) = return (not b)
  is_falsey _ = do r ← runtime_error; return false

  unfoldable pub handle_op_jump_if_false : H InterpretResult
  unfolding read_short peek is_falsey jump_by
  handle_op_jump_if_false = do
    offset ← read_short readers program
    value ← peek 0
    falsey ← is_falsey value
    done (if falsey then jump_by offset else skip)

  unfoldable pub handle_op_jump_if_neq : H InterpretResult
  unfolding pop read_short jump_by push
  handle_op_jump_if_neq = do
    pattern_ ← pop
    matched ← pop
    if equal_values floats matched pattern_
        then jump_by 2
        else (do offset ← read_short readers program; jump_by offset)
    done (push matched)

  -- `handle_op_jump` and `handle_op_break`
  unfoldable pub handle_op_jump : H InterpretResult
  unfolding read_short jump_by
  handle_op_jump = do offset ← read_short readers program; done (jump_by offset)

  -- `handle_op_loop` and `handle_op_continue`
  unfoldable pub handle_op_loop : H InterpretResult
  unfolding read_short jump_back
  handle_op_loop = do offset ← read_short readers program; done (jump_back offset)

  unfoldable pub handle_op_match : H InterpretResult
  unfolding read_short
  handle_op_match = do offset ← read_short readers program; return succeeded

  unfoldable pub handle_op_call : H InterpretResult
  unfolding read_byte peek call_value
  handle_op_call = do
    arg_count ← read_byte readers program
    callee ← peek arg_count
    b ← call_value readers program natives callee arg_count
    return (called b)

  -- The upvalue of one byte behind op_closure.
  unfoldable pub capture : ℕ → H (Option ℕ)
  unfolding local_slot current object_at upvalue_in capture_slot
  capture info = do
    i ← local_slot (info % 2 ^ 7)
    frame ← current
    o ← object_at frame.closure
    if info / 2 ^ 7 == 0 then upvalue_in o (info % 2 ^ 7) else capture_slot i

  unfoldable pub capture_loop : ℕ → H (List (Option ℕ))
  unfolding read_byte capture
  capture_loop zero = return []
  capture_loop (suc n) = do
    info ← read_byte readers program
    u ← capture info
    us ← capture_loop n
    return (u ∷ us)

  -- `macro_as_fn`
  unfoldable pub as_fn : Value → H ℕ
  unfolding as_object fn_number
  as_fn value = do o ← as_object value; fn_number o

  unfoldable pub upvalue_count : ℕ → H ℕ
  upvalue_count number s = Base.◌>>=◌ (cell program number) λ fn. ok (fn.upvalue_count, s)

  unfoldable pub handle_op_closure : H InterpretResult
  unfolding read_constant as_fn upvalue_count allocate push capture_loop set_object
  handle_op_closure = do
    value ← read_constant readers program
    number ← as_fn value
    count ← upvalue_count number
    closure ← allocate (closure_object number (replicate count none))
    push (object closure)
    upvalues ← capture_loop count
    done (set_object closure (closure_object number upvalues))

  unfoldable pub handle_op_close_upvalue : H InterpretResult
  unfolding stack_top close_from pop
  handle_op_close_upvalue = do
    top ← stack_top
    close_from readers program natives (top - 1)
    value ← pop
    return succeeded
