-- ===== src/Machine/Holders.antt =====
-- src/vm.c: the handlers of properties, classes and structs.
use joker_complier.Base.{ℕ, ◌+◌, Bool, true, Option, some, List, [], ◌∷◌, ◌++◌, not, if◌then◌else◌}
use joker_complier.Value.{Value, object, is_null}
use joker_complier.Parse.State.{Fn}
use joker_complier.Machine.State.{
  Object, class_object, instance_object, bound_method_object, struct_object, Fields, get_field,
  has_field, set_field, add_fields, H, ◌>>=◌, ◌>>◌, return, crash, InterpretResult, succeeded,
  runtime_error, push, pop, peek, object_at, set_object, allocate,
}
use joker_complier.Machine.Fetch.{Readers, read_byte, read_string}
use joker_complier.Machine.Calls.{
  Natives, as_object, as_address, new_struct, invoke, invoke_from_class, class_at, types, failed,
}
use joker_complier.Machine.Handlers.{done, called}

-- The method of a bound method, by a cast that is not tested.
unfoldable pub bind_closure : Value → Value → H Bool
unfolding allocate pop push
bind_closure (object closure) receiver = do
  bound ← allocate (bound_method_object receiver closure)
  popped ← pop
  push (object bound)
  return true
bind_closure method receiver = crash

-- `bind_method`
unfoldable pub bind_method : Fields → List ℕ → H Bool
unfolding failed peek bind_closure
bind_method methods name =
    if is_null (get_field methods name)
    then failed
    else (do receiver ← peek 0; bind_closure (get_field methods name) receiver)

module _ (readers : Readers) (program : List Fn) (natives : Natives) where
  -- `get_property` on an instance
  unfoldable pub instance_property : ℕ → Fields → List ℕ → H InterpretResult
  unfolding pop push class_at bind_method
  instance_property klass fields name =
      if not (is_null (get_field fields name))
      then (do popped ← pop; done (push (get_field fields name)))
      else (do
        (class_name, methods) ← class_at klass
        bound ← bind_method methods name
        return (called bound))

  -- `get_property` on a struct
  unfoldable pub struct_property : Fields → List ℕ → H InterpretResult
  unfolding pop push runtime_error
  struct_property fields name =
      if is_null (get_field fields name)
      then runtime_error
      else (do popped ← pop; done (push (get_field fields name)))

  unfoldable pub property : Option Object → List ℕ → H InterpretResult
  property (some (instance_object klass fields)) name = instance_property klass fields name
  property (some (struct_object struct_name names fields count)) name = struct_property fields name
  property o name = runtime_error

  unfoldable pub handle_op_get_property : H InterpretResult
  unfolding read_string peek as_object property
  handle_op_get_property = do
    name ← read_string readers program
    holder ← peek 0
    o ← as_object holder
    property o name

  -- `set_property` of a holder at this address
  unfoldable pub set_property : ℕ → Option Object → List ℕ → Value → H InterpretResult
  unfolding set_object runtime_error
  set_property address (some (instance_object klass fields)) name value =
      done (set_object address (instance_object klass (set_field fields name value)))
  set_property address (some (struct_object struct_name names fields count)) name value =
      if has_field fields name
      then done
          (set_object address (struct_object struct_name names (set_field fields name value) count))
      else runtime_error
  set_property address o name value = runtime_error

  -- The stack after a property has been set
  unfoldable pub leave_value : InterpretResult → Value → H InterpretResult
  unfolding pop push
  leave_value succeeded value = do popped ← pop; popped_holder ← pop; done (push value)
  leave_value result value = return result

  unfoldable pub set_held : Value → Option Object → List ℕ → Value → H InterpretResult
  unfolding set_property runtime_error
  set_held (object address) o name value = set_property address o name value
  set_held holder o name value = runtime_error

  unfoldable pub handle_op_set_property : H InterpretResult
  unfolding read_string peek as_object set_held leave_value
  handle_op_set_property = do
    name ← read_string readers program
    value ← peek 0
    holder ← peek 1
    o ← as_object holder
    result ← set_held holder o name value
    leave_value result value

  -- `macro_as_class` of a value on the stack
  unfoldable pub as_class : Value → H (List ℕ × Fields)
  unfolding as_address class_at
  as_class value = do address ← as_address value; class_at address

  unfoldable pub handle_op_get_super : H InterpretResult
  unfolding read_string pop as_class bind_method
  handle_op_get_super = do
    name ← read_string readers program
    value ← pop
    (class_name, methods) ← as_class value
    bound ← bind_method methods name
    return (called bound)

  unfoldable pub handle_op_get_type : H InterpretResult
  unfolding read_string types runtime_error push
  handle_op_get_type = do
    identifier ← read_string readers program
    fields ← types
    if is_null (get_field fields identifier)
        then runtime_error
        else done (push (get_field fields identifier))

  unfoldable pub handle_op_class : H InterpretResult
  unfolding read_string allocate push
  handle_op_class = do
    name ← read_string readers program
    klass ← allocate (class_object name [])
    done (push (object klass))

  -- `define_method`
  unfoldable pub handle_op_method : H InterpretResult
  unfolding read_string peek as_address class_at set_object pop
  handle_op_method = do
    name ← read_string readers program
    method ← peek 0
    value ← peek 1
    klass ← as_address value
    (class_name, methods) ← class_at klass
    set_object klass (class_object class_name (set_field methods name method))
    popped ← pop
    return succeeded

  unfoldable pub inherit : Option Object → Value → H InterpretResult
  unfolding as_address class_at set_object pop runtime_error
  inherit (some (class_object super_name super_methods)) value = do
    klass ← as_address value
    (class_name, methods) ← class_at klass
    set_object klass (class_object class_name (add_fields super_methods methods))
    popped ← pop
    return succeeded
  inherit o value = runtime_error

  unfoldable pub handle_op_inherit : H InterpretResult
  unfolding peek as_object inherit
  handle_op_inherit = do
    superclass ← peek 1
    o ← as_object superclass
    value ← peek 0
    inherit o value

  unfoldable pub handle_op_invoke : H InterpretResult
  unfolding read_string read_byte invoke
  handle_op_invoke = do
    name ← read_string readers program
    arg_count ← read_byte readers program
    b ← invoke readers program natives name arg_count
    return (called b)

  unfoldable pub handle_op_super_invoke : H InterpretResult
  unfolding read_string read_byte pop as_class invoke_from_class runtime_error
  handle_op_super_invoke = do
    name ← read_string readers program
    arg_count ← read_byte readers program
    value ← pop
    (class_name, methods) ← as_class value
    b ← invoke_from_class readers program natives methods name arg_count
    if b then return succeeded else runtime_error

  unfoldable pub handle_op_struct : H InterpretResult
  unfolding read_string new_struct push
  handle_op_struct = do
    name ← read_string readers program
    struct_ ← new_struct name []
    done (push (object struct_))

  -- `define_member` on the struct at this address
  unfoldable pub define_member : ℕ → Object → List ℕ → Value → H InterpretResult
  unfolding set_object pop
  define_member address (struct_object struct_name names fields count) name initializer = do
    set_object address (
        struct_object struct_name (names ++ name ∷ []) (set_field fields name initializer)
          (count + 1))
    popped ← pop
    return succeeded
  define_member address o name initializer = crash

  unfoldable pub handle_op_member : H InterpretResult
  unfolding read_string peek as_address object_at define_member
  handle_op_member = do
    name ← read_string readers program
    initializer ← peek 0
    value ← peek 1
    address ← as_address value
    o ← object_at address
    define_member address o name initializer

  -- The struct at this address takes the fields of another.
  unfoldable pub struct_inherit : ℕ → Object → List (List ℕ) → Fields → ℕ → H InterpretResult
  unfolding set_object pop
  struct_inherit address (struct_object struct_name names fields count) super_names super_fields
        super_count =
      do
        set_object address (
            struct_object struct_name (names ++ super_names) (add_fields super_fields fields)
              super_count)
        popped ← pop
        return succeeded
  struct_inherit address o super_names super_fields super_count = crash

  unfoldable pub inherit_fields : Option Object → Value → H InterpretResult
  unfolding as_address object_at struct_inherit runtime_error
  inherit_fields (some (struct_object super_name super_names super_fields super_count)) value = do
    address ← as_address value
    own ← object_at address
    struct_inherit address own super_names super_fields super_count
  inherit_fields o value = runtime_error

  unfoldable pub handle_op_struct_inherit : H InterpretResult
  unfolding peek as_object inherit_fields
  handle_op_struct_inherit = do
    super_value ← peek 1
    o ← as_object super_value
    value ← peek 0
    inherit_fields o value
