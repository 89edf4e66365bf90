-- ===== src/Machine/Calls.antt =====
-- src/vm.c: calls of functions, methods and classes, and the return.
use joker_complier.Base.{
  ℕ, zero, suc, ◌+◌, ◌-◌, Bool, true, false, not, Option, none, some, List, [], ◌∷◌, ◌++◌, Outcome,
  ok, undefined, ltb, leb, ◌==◌, if◌then◌else◌, length, replicate,
}
use joker_complier.Base
use joker_complier.Value.{Value, object, null, is_null}
use joker_complier.Parse.State.{Fn}
use joker_complier.Upvalue
use joker_complier.Machine.State.{
  Object, closure_object, native_object, class_object, instance_object, bound_method_object,
  struct_object, Fields, get_field, has_field, set_field, H, ◌>>=◌, ◌>>◌, return, crash, fail,
  write_cell, current, CallFrame, frames_stack_max, InterpretResult, succeeded, passed,
  runtime_error, push, pop, peek, stack_top, set_stack_top, set_below, object_at, allocate,
}
use joker_complier.Machine.Fetch.{Readers, fn_of}

-- The machine around the model: the native functions, which get the address of the function, the count
-- of the arguments and the index of the first, and the address of the field `closed` of an upvalue.
pub record Natives : Type 0 where
  pub native : ℕ → ℕ → ℕ → H Value
  pub closed_at : ℕ → ℕ

-- The object that a value points to.
unfoldable pub as_object : Value → H (Option Object)
unfolding object_at
as_object (object address) = do o ← object_at address; return (some o)
as_object _ = return none

-- `macro_as_closure`: what is no object has no address.
unfoldable pub as_address : Value → H ℕ
as_address (object address) = return address
as_address _ = crash

unfoldable pub new_struct : List ℕ → Fields → H ℕ
unfolding allocate
new_struct name fields = allocate (struct_object name [] fields 0)

unfoldable pub new_instance : ℕ → H ℕ
unfolding allocate
new_instance klass = allocate (instance_object klass [])

unfoldable pub types : H Fields
types s = ok (s.types, s)

-- A `panic` where there is no value.
unfoldable pub or_fail : {A : Type 0} → Option A → H A
or_fail none = fail
or_fail (some a) = return a

-- Undefined where there is no value.
unfoldable pub or_crash : {A : Type 0} → Option A → H A
or_crash none = crash
or_crash (some a) = return a

-- A class, by the cast that is not tested.
unfoldable pub class_in : Object → H (List ℕ × Fields)
class_in (class_object name methods) = return (name, methods)
class_in o = crash

unfoldable pub class_at : ℕ → H (List ℕ × Fields)
unfolding object_at class_in
class_at address = do o ← object_at address; class_in o

unfoldable pub frame_count : H ℕ
frame_count s = ok (s.frame_count, s)

unfoldable pub set_frame_count : ℕ → H (Unit {0})
set_frame_count count s = ok (tt, record s { frame_count = count })

-- `self->frames[self->frame_count++] = frame`, with the count that `call` has read. The end of the array is
-- not tested here: a frame behind it would make the list longer than the array.
unfoldable pub push_frame : ℕ → CallFrame → H (Unit {0})
push_frame count frame s =
    Base.◌>>=◌ (write_cell s.frames count frame)
      λ frames. ok (tt, record s { frames = frames; frame_count = count + 1 })

-- What an address holds: a cell of the stack, or the field `closed` of a node.
abbrev pub read_closed : List (Upvalue.Upvalue Value) → ℕ → Value
read_closed [] address = null
read_closed (u ∷ us) address =
    let rest = read_closed us address in
    let value : Value = elim u.closed [ none ↦ null | some v ↦ v ] in
    if u.location == address then value else rest

unfoldable pub read_address : List Value → List (Upvalue.Upvalue Value) → ℕ → Value
read_address cells us address = elim (Base.get_elem? cells address) [
  | none ↦ read_closed us address
  | some v ↦ v
]

-- A runtime error, where the result of the function is `false`.
unfoldable pub failed : H Bool
unfolding runtime_error
failed = do r ← runtime_error; return false

module _ (readers : Readers) (program : List Fn) (natives : Natives) where
  -- `call`
  unfoldable pub call : ℕ → ℕ → H Bool
  unfolding fn_of failed frame_count stack_top push_frame
  call closure arg_count = do
    fn ← fn_of readers program closure
    count ← frame_count
    top ← stack_top
    if not (arg_count == fn.arity)
        then failed
        else if count == frames_stack_max
        then failed
        else if leb top arg_count
        then crash
        else (do
          push_frame count (record { slots = top - arg_count - 1; closure = closure; ip = 0 })
          return true)

  -- The fields of a new instance of a struct: its names from the last one down, with the values on the
  -- stack.
  unfoldable pub pop_fields : List (List ℕ) → ℕ → Fields → H Fields
  unfolding pop
  pop_fields names zero fields = return fields
  pop_fields names (suc i) fields = do
    name ← or_fail (Base.get_elem? names i)
    value ← pop
    pop_fields names i (set_field fields name value)

  -- The branch OBJ_STRUCT of `call_value`
  unfoldable pub call_struct : List ℕ → List (List ℕ) → ℕ → ℕ → H Bool
  unfolding failed pop_fields set_below new_struct
  call_struct name names count arg_count = if not (arg_count == count) then failed else (do
    fields ← pop_fields names count []
    instance_ ← new_struct name fields
    set_below 0 (object instance_)
    return true)

  -- The branch OBJ_CLASS of `call_value`
  unfoldable pub call_class : ℕ → Fields → ℕ → H Bool
  unfolding failed call set_below new_instance as_address
  call_class klass methods arg_count = do
    instance_ ← new_instance klass
    set_below arg_count (object instance_)
    let initializer = get_field methods (105 ∷ 110 ∷ 105 ∷ 116 ∷ [])
    if not (is_null initializer)
        then (do closure ← as_address initializer; call closure arg_count)
        else if not (arg_count == 0)
        then failed
        else return true

  -- The branch OBJ_NATIVE of `call_value`
  unfoldable pub call_native : ℕ → Bool → ℕ → H Bool
  unfolding stack_top set_stack_top push
  call_native address is_builtin_method arg_count = do
    let adjusted = if is_builtin_method then arg_count + 1 else arg_count
    top ← stack_top
    if ltb top adjusted then crash else (do
      result ← natives.native address adjusted (top - adjusted)
      after ← stack_top
      if leb after arg_count
          then crash
          else (do set_stack_top (after - (arg_count + 1)); push result; return true))

  -- The switch of `call_value` on the kind of the object
  unfoldable pub call_object : Option Object → Value → ℕ → H Bool
  call_object (some (closure_object number upvalues)) callee arg_count = do
    address ← as_address callee
    call address arg_count
  call_object (some (native_object number is_builtin)) callee arg_count = do
    address ← as_address callee
    call_native address is_builtin arg_count
  call_object (some (class_object name methods)) callee arg_count = do
    address ← as_address callee
    call_class address methods arg_count
  call_object (some (bound_method_object receiver method)) callee arg_count = do
    set_below arg_count receiver
    call method arg_count
  call_object (some (struct_object name names fields count)) callee arg_count =
      call_struct name names count arg_count
  call_object _ callee arg_count = failed

  -- `call_value`
  unfoldable pub call_value : Value → ℕ → H Bool
  unfolding as_object call_object
  call_value callee arg_count = do o ← as_object callee; call_object o callee arg_count

  -- `invoke_from_class`
  unfoldable pub invoke_from_class : Fields → List ℕ → ℕ → H Bool
  unfolding failed call as_address
  invoke_from_class methods name arg_count =
      if is_null (get_field methods name)
      then failed
      else (do closure ← as_address (get_field methods name); call closure arg_count)

  -- `invoke` on an instance
  unfoldable pub invoke_instance : ℕ → Fields → List ℕ → ℕ → H Bool
  unfolding failed call_value invoke_from_class class_at types set_below
  invoke_instance klass fields name arg_count = do
    (class_name, methods) ← class_at klass
    builtin ← types
    let method = get_field methods name
    let field = get_field fields name
    if has_field builtin class_name
        then if is_null method then failed else call_value method arg_count
        else if not (is_null field)
        then (do set_below arg_count field; call_value field arg_count)
        else invoke_from_class methods name arg_count

  unfoldable pub invoke_object : Option Object → List ℕ → ℕ → H Bool
  invoke_object (some (instance_object klass fields)) name arg_count =
      invoke_instance klass fields name arg_count
  invoke_object o name arg_count = failed

  -- `invoke`
  unfoldable pub invoke : List ℕ → ℕ → H Bool
  unfolding peek as_object invoke_object
  invoke name arg_count = do
    receiver ← peek arg_count
    o ← as_object receiver
    invoke_object o name arg_count

  -- `close_upvalues(self->open_upv_ptr, last)`
  unfoldable pub close_from : ℕ → H (Unit {0})
  close_from last s = ok (
    tt,
    record s {
      open_upvalues =
          Upvalue.close_upvalues natives.closed_at (read_address s.stack s.open_upvalues)
            s.open_upvalues last;
    },
  )

  -- `handle_op_return`
  unfoldable pub handle_op_return : H InterpretResult
  unfolding pop current close_from frame_count set_frame_count set_stack_top push
  handle_op_return = do
    result ← pop
    frame ← current
    close_from frame.slots
    count ← frame_count
    if leb count 1
        then if count == 0 then crash else (do set_frame_count 0; return succeeded)
        else (do set_frame_count (count - 1); set_stack_top frame.slots; push result; return passed)
