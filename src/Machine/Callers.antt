-- ===== src/Machine/Callers.antt =====
-- The calls and the return of src/vm.c keep the bounds.
use joker_complier.Base.{
  ℕ, zero, suc, ◌+◌, ◌-◌, ◌≤◌, Bool, true, false, not, Option, none, some, List, [], ◌∷◌, ltb, leb,
  ◌==◌, if◌then◌else◌, get_elem?, arith, refl,
}
use joker_complier.Value.{Value, object, is_null}
use joker_complier.Parse.State.{Fn}
use joker_complier.Machine.State.{
  frames_stack_max, Object, closure_object, native_object, class_object, bound_method_object,
  struct_object, instance_object, Fields, get_field, has_field, set_field, succeeded, passed,
}
use joker_complier.Machine.Fetch.{Readers}
use joker_complier.Machine.Calls.{
  Natives, as_address, or_fail, or_crash, new_struct, new_instance, class_in, class_at, types,
  frame_count, set_frame_count, failed, call, pop_fields, call_struct, call_class, call_native,
  call_object, call_value, invoke_from_class, invoke_instance, invoke_object, invoke, close_from,
  handle_op_return,
}
use joker_complier.Machine.Keeps.{
  Gives, Keeps, bind-Gives, bind-Keeps, return-Keeps, crash-Gives, fail-Gives, if-Gives, cond-Gives,
  runtime_error-Keeps, stack_top-Gives, set_stack_top-Keeps, push-Keeps, pop-Keeps, peek-Keeps,
  set_below-Keeps,
}
use joker_complier.Machine.Frames.{
  Quiet-Keeps, object_at-Keeps, allocate-Keeps, as_object-Keeps, current-Gives, push_frame-Keeps,
  fn_of-Keeps,
}

pub as_address-Keeps : (v : Value) → Keeps (as_address v)
unfolding as_address
as_address-Keeps (object address) = return-Keeps address
as_address-Keeps v = crash-Gives

pub or_fail-Keeps : {A : Type 0} (o : Option A) → Keeps (or_fail o)
unfolding or_fail
or_fail-Keeps none = fail-Gives
or_fail-Keeps (some a) = return-Keeps a

pub or_crash-Keeps : {A : Type 0} (o : Option A) → Keeps (or_crash o)
unfolding or_crash
or_crash-Keeps none = crash-Gives
or_crash-Keeps (some a) = return-Keeps a

pub new_struct-Keeps : (name : List ℕ) (fields : Fields) → Keeps (new_struct name fields)
unfolding new_struct
new_struct-Keeps name fields = allocate-Keeps (struct_object name [] fields 0)

class_in-Keeps : (o : Object) → Keeps (class_in o)
unfolding class_in
class_in-Keeps (class_object name methods) = return-Keeps (name, methods)
class_in-Keeps o = crash-Gives

pub class_at-Keeps : (address : ℕ) → Keeps (class_at address)
unfolding class_at
class_at-Keeps address = bind-Keeps (object_at-Keeps address) class_in-Keeps

pub types-Keeps : Keeps types
unfolding types
types-Keeps = Quiet-Keeps λ s. (refl, refl, refl, refl)

frame_count-Gives : Gives (λ count. count ≤ frames_stack_max) frame_count
unfolding frame_count
frame_count-Gives = record { gives = λ s b. (b.frames_small, b) }

set_frame_count-Keeps : (count : ℕ) → count ≤ frames_stack_max → Keeps (set_frame_count count)
unfolding set_frame_count
set_frame_count-Keeps count h = record {
  gives = λ s b. (
    tt,
    record {
      frames_small = h;
      stack_small = b.stack_small;
      based = b.based;
      frames_fit = b.frames_fit;
      stack_fit = b.stack_fit;
    },
  );
}

pub failed-Keeps : Keeps failed
unfolding failed
failed-Keeps = bind-Keeps runtime_error-Keeps λ r. return-Keeps false

module _ (readers : Readers) (program : List Fn) (natives : Natives)
    (native-Keeps : (number count first : ℕ) → Keeps (natives.native number count first)) where
  pub call-Keeps : (closure arg_count : ℕ) → Keeps (call readers program natives closure arg_count)
  unfolding call
  call-Keeps closure arg_count = bind-Keeps (fn_of-Keeps readers program closure) λ fn.
      bind-Gives frame_count-Gives λ count small. bind-Gives stack_top-Gives λ top h.
        if-Gives (not (arg_count == fn.arity)) failed-Keeps (
          cond-Gives (count == frames_stack_max) (λ full. failed-Keeps)
            λ room. if-Gives (leb top arg_count) crash-Gives (
              bind-Keeps
                (push_frame-Keeps count
                  (record { slots = top - arg_count - 1; closure = closure; ip = 0 })
                  (ground (arith, small, room)) (omega (arith, h)))
                λ _. return-Keeps true))

  pop_fields-Keeps :
      (names : List (List ℕ)) (n : ℕ) (fields : Fields)
      → Keeps (pop_fields readers program natives names n fields)
  unfolding pop_fields
  pop_fields-Keeps names zero fields = return-Keeps fields
  pop_fields-Keeps names (suc i) fields =
      bind-Keeps (or_fail-Keeps (get_elem? names i))
        λ name. bind-Keeps pop-Keeps λ value. pop_fields-Keeps names i (set_field fields name value)

  call_struct-Keeps :
      (name : List ℕ) (names : List (List ℕ)) (count arg_count : ℕ)
      → Keeps (call_struct readers program natives name names count arg_count)
  unfolding call_struct
  call_struct-Keeps name names count arg_count = if-Gives (not (arg_count == count)) failed-Keeps (
      bind-Keeps (pop_fields-Keeps names count []) λ fields.
        bind-Keeps (new_struct-Keeps name fields)
          λ instance_. bind-Keeps (set_below-Keeps 0 (object instance_)) λ _. return-Keeps true)

  call_class-Keeps :
      (klass : ℕ) (methods : Fields) (arg_count : ℕ)
      → Keeps (call_class readers program natives klass methods arg_count)
  unfolding call_class new_instance
  call_class-Keeps klass methods arg_count =
      bind-Keeps (allocate-Keeps (instance_object klass [])) λ instance_.
        bind-Keeps (set_below-Keeps arg_count (object instance_)) λ _.
          let initializer = get_field methods (105 ∷ 110 ∷ 105 ∷ 116 ∷ []) in
          if-Gives (not (is_null initializer))
            (bind-Keeps (as_address-Keeps initializer) λ closure. call-Keeps closure arg_count)
            (if-Gives (not (arg_count == 0)) failed-Keeps (return-Keeps true))

  call_native-Keeps :
      (address : ℕ) (is_builtin : Bool) (arg_count : ℕ)
      → Keeps (call_native readers program natives address is_builtin arg_count)
  unfolding call_native
  call_native-Keeps address is_builtin arg_count =
      let adjusted = if is_builtin then arg_count + 1 else arg_count in
      bind-Gives stack_top-Gives λ top h. if-Gives (ltb top adjusted) crash-Gives (
        bind-Keeps (native-Keeps address adjusted (top - adjusted)) λ result.
          bind-Gives stack_top-Gives λ after h'. if-Gives (leb after arg_count) crash-Gives (
            bind-Keeps (set_stack_top-Keeps (after - (arg_count + 1)) (omega (arith, h')))
              λ _. bind-Keeps (push-Keeps result) λ _. return-Keeps true))

  call_object-Keeps :
      (o : Option Object) (callee : Value) (arg_count : ℕ)
      → Keeps (call_object readers program natives o callee arg_count)
  unfolding call_object
  call_object-Keeps (some (closure_object number upvalues)) callee arg_count =
      bind-Keeps (as_address-Keeps callee) λ address. call-Keeps address arg_count
  call_object-Keeps (some (native_object number is_builtin)) callee arg_count =
      bind-Keeps (as_address-Keeps callee) λ address. call_native-Keeps address is_builtin arg_count
  call_object-Keeps (some (class_object name methods)) callee arg_count =
      bind-Keeps (as_address-Keeps callee) λ address. call_class-Keeps address methods arg_count
  call_object-Keeps (some (bound_method_object receiver method)) callee arg_count =
      bind-Keeps (set_below-Keeps arg_count receiver) λ _. call-Keeps method arg_count
  call_object-Keeps (some (struct_object name names fields count)) callee arg_count =
      call_struct-Keeps name names count arg_count
  call_object-Keeps _ callee arg_count = failed-Keeps

  pub call_value-Keeps :
      (callee : Value) (arg_count : ℕ) → Keeps (call_value readers program natives callee arg_count)
  unfolding call_value
  call_value-Keeps callee arg_count =
      bind-Keeps (as_object-Keeps callee) λ o. call_object-Keeps o callee arg_count

  pub invoke_from_class-Keeps :
      (methods : Fields) (name : List ℕ) (arg_count : ℕ)
      → Keeps (invoke_from_class readers program natives methods name arg_count)
  unfolding invoke_from_class
  invoke_from_class-Keeps methods name arg_count =
      if-Gives (is_null (get_field methods name)) failed-Keeps (
        bind-Keeps (as_address-Keeps (get_field methods name))
          λ closure. call-Keeps closure arg_count)

  invoke_instance-Keeps :
      (klass : ℕ) (fields : Fields) (name : List ℕ) (arg_count : ℕ)
      → Keeps (invoke_instance readers program natives klass fields name arg_count)
  unfolding invoke_instance
  invoke_instance-Keeps klass fields name arg_count =
      bind-Keeps (class_at-Keeps klass) λ (class_name, methods). bind-Keeps types-Keeps λ builtin.
        if-Gives (has_field builtin class_name)
          (if-Gives (is_null (get_field methods name)) failed-Keeps
            (call_value-Keeps (get_field methods name) arg_count))
          (if-Gives (not (is_null (get_field fields name)))
            (bind-Keeps (set_below-Keeps arg_count (get_field fields name))
              λ _. call_value-Keeps (get_field fields name) arg_count)
            (invoke_from_class-Keeps methods name arg_count))

  invoke_object-Keeps :
      (o : Option Object) (name : List ℕ) (arg_count : ℕ)
      → Keeps (invoke_object readers program natives o name arg_count)
  unfolding invoke_object
  invoke_object-Keeps (some (instance_object klass fields)) name arg_count =
      invoke_instance-Keeps klass fields name arg_count
  invoke_object-Keeps o name arg_count = failed-Keeps

  pub invoke-Keeps :
      (name : List ℕ) (arg_count : ℕ) → Keeps (invoke readers program natives name arg_count)
  unfolding invoke
  invoke-Keeps name arg_count =
      bind-Keeps (peek-Keeps arg_count)
        λ receiver. bind-Keeps (as_object-Keeps receiver) λ o. invoke_object-Keeps o name arg_count

  pub close_from-Keeps : (last : ℕ) → Keeps (close_from readers program natives last)
  unfolding close_from
  close_from-Keeps last = Quiet-Keeps λ s. (refl, refl, refl, refl)

  pub handle_op_return-Keeps : Keeps (handle_op_return readers program natives)
  unfolding handle_op_return
  handle_op_return-Keeps = bind-Keeps pop-Keeps λ result. bind-Gives current-Gives λ frame based.
      bind-Keeps (close_from-Keeps frame.slots) λ _. bind-Gives frame_count-Gives λ count small.
        if-Gives (leb count 1)
          (if-Gives (count == 0) crash-Gives
            (bind-Keeps (set_frame_count-Keeps 0 (omega arith)) λ _. return-Keeps succeeded))
          (bind-Keeps (set_frame_count-Keeps (count - 1) (omega (arith, small))) λ _.
            bind-Keeps (set_stack_top-Keeps frame.slots based)
              λ _. bind-Keeps (push-Keeps result) λ _. return-Keeps passed)
