-- ===== src/Machine/Owners.antt =====
-- The handlers of properties, classes and structs of src/vm.c keep the bounds.
use joker_complier.Base.{ℕ, ◌+◌, true, not, Option, some, List, [], ◌∷◌, ◌++◌}
use joker_complier.Value.{Value, object, is_null}
use joker_complier.Parse.State.{Fn}
use joker_complier.Machine.State.{
  Object, class_object, struct_object, instance_object, bound_method_object, Fields, get_field,
  has_field, set_field, add_fields, ◌>>=◌, pop, return, InterpretResult, succeeded, raised, passed,
}
use joker_complier.Machine.Fetch.{Readers}
use joker_complier.Machine.Calls.{Natives}
use joker_complier.Machine.Handlers.{called}
use joker_complier.Machine.Holders.{
  bind_closure, bind_method, instance_property, struct_property, property, handle_op_get_property,
  set_property, leave_value, set_held, handle_op_set_property, as_class, handle_op_get_super,
  handle_op_get_type, handle_op_class, handle_op_method, inherit, handle_op_inherit,
  handle_op_invoke, handle_op_super_invoke, handle_op_struct, define_member, handle_op_member,
  struct_inherit, inherit_fields, handle_op_struct_inherit,
}
use joker_complier.Machine.Keeps.{
  Keeps, bind-Keeps, return-Keeps, crash-Gives, if-Gives, runtime_error-Keeps, push-Keeps,
  pop-Keeps, peek-Keeps,
}
use joker_complier.Machine.Frames.{
  object_at-Keeps, set_object-Keeps, allocate-Keeps, as_object-Keeps, read_byte-Keeps,
  read_string-Keeps,
}
use joker_complier.Machine.Callers.{
  as_address-Keeps, new_struct-Keeps, class_at-Keeps, types-Keeps, failed-Keeps,
  invoke_from_class-Keeps, invoke-Keeps,
}
use joker_complier.Machine.Runs.{done-Keeps}

-- The value on top is dropped, and the handler succeeds.
drop-Keeps : Keeps (pop >>= λ v. return succeeded)
drop-Keeps = bind-Keeps pop-Keeps λ v. return-Keeps succeeded

bind_closure-Keeps : (method receiver : Value) → Keeps (bind_closure method receiver)
unfolding bind_closure
bind_closure-Keeps (object closure) receiver =
    bind-Keeps (allocate-Keeps (bound_method_object receiver closure)) λ bound.
      bind-Keeps pop-Keeps λ _. bind-Keeps (push-Keeps (object bound)) λ _. return-Keeps true
bind_closure-Keeps method receiver = crash-Gives

bind_method-Keeps : (methods : Fields) (name : List ℕ) → Keeps (bind_method methods name)
unfolding bind_method
bind_method-Keeps methods name =
    if-Gives (is_null (get_field methods name)) failed-Keeps
      (bind-Keeps (peek-Keeps 0) (bind_closure-Keeps (get_field methods name)))

module _ (readers : Readers) (program : List Fn) (natives : Natives)
    (native-Keeps : (number count first : ℕ) → Keeps (natives.native number count first)) where
  instance_property-Keeps :
      (klass : ℕ) (fields : Fields) (name : List ℕ)
      → Keeps (instance_property readers program natives klass fields name)
  unfolding instance_property
  instance_property-Keeps klass fields name =
      if-Gives (not (is_null (get_field fields name)))
        (bind-Keeps pop-Keeps λ _. done-Keeps (push-Keeps (get_field fields name)))
        (bind-Keeps (class_at-Keeps klass) λ (class_name, methods).
          bind-Keeps (bind_method-Keeps methods name) λ bound. return-Keeps (called bound))

  struct_property-Keeps :
      (fields : Fields) (name : List ℕ)
      → Keeps (struct_property readers program natives fields name)
  unfolding struct_property
  struct_property-Keeps fields name =
      if-Gives (is_null (get_field fields name)) runtime_error-Keeps
        (bind-Keeps pop-Keeps λ _. done-Keeps (push-Keeps (get_field fields name)))

  property-Keeps :
      (o : Option Object) (name : List ℕ) → Keeps (property readers program natives o name)
  unfolding property
  property-Keeps (some (instance_object klass fields)) name =
      instance_property-Keeps klass fields name
  property-Keeps (some (struct_object struct_name names fields count)) name =
      struct_property-Keeps fields name
  property-Keeps o name = runtime_error-Keeps

  pub handle_op_get_property-Keeps : Keeps (handle_op_get_property readers program natives)
  unfolding handle_op_get_property
  handle_op_get_property-Keeps = bind-Keeps (read_string-Keeps readers program) λ name.
      bind-Keeps (peek-Keeps 0)
        λ holder. bind-Keeps (as_object-Keeps holder) λ o. property-Keeps o name

  set_property-Keeps :
      (address : ℕ) (o : Option Object) (name : List ℕ) (value : Value)
      → Keeps (set_property readers program natives address o name value)
  unfolding set_property
  set_property-Keeps address (some (instance_object klass fields)) name value =
      done-Keeps (set_object-Keeps address (instance_object klass (set_field fields name value)))
  set_property-Keeps address (some (struct_object struct_name names fields count)) name value =
      if-Gives (has_field fields name)
        (done-Keeps (
          set_object-Keeps address
            (struct_object struct_name names (set_field fields name value) count)))
        runtime_error-Keeps
  set_property-Keeps address o name value = runtime_error-Keeps

  leave_value-Keeps :
      (r : InterpretResult) (value : Value) → Keeps (leave_value readers program natives r value)
  unfolding leave_value
  leave_value-Keeps succeeded value =
      bind-Keeps pop-Keeps λ _. bind-Keeps pop-Keeps λ _. done-Keeps (push-Keeps value)
  leave_value-Keeps raised value = return-Keeps raised
  leave_value-Keeps passed value = return-Keeps passed

  set_held-Keeps :
      (holder : Value) (o : Option Object) (name : List ℕ) (value : Value)
      → Keeps (set_held readers program natives holder o name value)
  unfolding set_held
  set_held-Keeps (object address) o name value = set_property-Keeps address o name value
  set_held-Keeps holder o name value = runtime_error-Keeps

  pub handle_op_set_property-Keeps : Keeps (handle_op_set_property readers program natives)
  unfolding handle_op_set_property
  handle_op_set_property-Keeps = bind-Keeps (read_string-Keeps readers program) λ name.
      bind-Keeps (peek-Keeps 0) λ value. bind-Keeps (peek-Keeps 1) λ holder.
        bind-Keeps (as_object-Keeps holder)
          λ o. bind-Keeps (set_held-Keeps holder o name value) λ r. leave_value-Keeps r value

  as_class-Keeps : (v : Value) → Keeps (as_class readers program natives v)
  unfolding as_class
  as_class-Keeps v = bind-Keeps (as_address-Keeps v) class_at-Keeps

  pub handle_op_get_super-Keeps : Keeps (handle_op_get_super readers program natives)
  unfolding handle_op_get_super
  handle_op_get_super-Keeps = bind-Keeps (read_string-Keeps readers program) λ name.
      bind-Keeps pop-Keeps λ value. bind-Keeps (as_class-Keeps value) λ (class_name, methods).
        bind-Keeps (bind_method-Keeps methods name) λ bound. return-Keeps (called bound)

  pub handle_op_get_type-Keeps : Keeps (handle_op_get_type readers program natives)
  unfolding handle_op_get_type
  handle_op_get_type-Keeps = bind-Keeps (read_string-Keeps readers program) λ identifier.
      bind-Keeps types-Keeps λ fields.
        if-Gives (is_null (get_field fields identifier)) runtime_error-Keeps
          (done-Keeps (push-Keeps (get_field fields identifier)))

  pub handle_op_class-Keeps : Keeps (handle_op_class readers program natives)
  unfolding handle_op_class
  handle_op_class-Keeps = bind-Keeps (read_string-Keeps readers program) λ name.
      bind-Keeps (allocate-Keeps (class_object name []))
        λ klass. done-Keeps (push-Keeps (object klass))

  pub handle_op_method-Keeps : Keeps (handle_op_method readers program natives)
  unfolding handle_op_method
  handle_op_method-Keeps = bind-Keeps (read_string-Keeps readers program) λ name.
      bind-Keeps (peek-Keeps 0) λ method. bind-Keeps (peek-Keeps 1) λ value.
        bind-Keeps (as_address-Keeps value) λ klass.
          bind-Keeps (class_at-Keeps klass) λ (class_name, methods).
            bind-Keeps
              (set_object-Keeps klass (class_object class_name (set_field methods name method)))
              λ _. drop-Keeps

  inherit-Keeps : (o : Option Object) (v : Value) → Keeps (inherit readers program natives o v)
  unfolding inherit
  inherit-Keeps (some (class_object super_name super_methods)) value =
      bind-Keeps (as_address-Keeps value) λ klass.
        bind-Keeps (class_at-Keeps klass) λ (class_name, methods).
          bind-Keeps
            (set_object-Keeps klass (class_object class_name (add_fields super_methods methods)))
            λ _. drop-Keeps
  inherit-Keeps o value = runtime_error-Keeps

  pub handle_op_inherit-Keeps : Keeps (handle_op_inherit readers program natives)
  unfolding handle_op_inherit
  handle_op_inherit-Keeps = bind-Keeps (peek-Keeps 1) λ superclass.
      bind-Keeps (as_object-Keeps superclass)
        λ o. bind-Keeps (peek-Keeps 0) λ value. inherit-Keeps o value

  pub handle_op_invoke-Keeps : Keeps (handle_op_invoke readers program natives)
  unfolding handle_op_invoke
  handle_op_invoke-Keeps = bind-Keeps (read_string-Keeps readers program) λ name.
      bind-Keeps (read_byte-Keeps readers program) λ arg_count.
        bind-Keeps (invoke-Keeps readers program natives native-Keeps name arg_count)
          λ b. return-Keeps (called b)

  pub handle_op_super_invoke-Keeps : Keeps (handle_op_super_invoke readers program natives)
  unfolding handle_op_super_invoke
  handle_op_super_invoke-Keeps = bind-Keeps (read_string-Keeps readers program) λ name.
      bind-Keeps (read_byte-Keeps readers program) λ arg_count. bind-Keeps pop-Keeps λ value.
        bind-Keeps (as_class-Keeps value) λ (class_name, methods).
          bind-Keeps
            (invoke_from_class-Keeps readers program natives native-Keeps methods name arg_count)
            λ b. if-Gives b (return-Keeps succeeded) runtime_error-Keeps

  pub handle_op_struct-Keeps : Keeps (handle_op_struct readers program natives)
  unfolding handle_op_struct
  handle_op_struct-Keeps = bind-Keeps (read_string-Keeps readers program) λ name.
      bind-Keeps (new_struct-Keeps name []) λ struct_. done-Keeps (push-Keeps (object struct_))

  define_member-Keeps :
      (address : ℕ) (o : Object) (name : List ℕ) (v : Value)
      → Keeps (define_member readers program natives address o name v)
  unfolding define_member
  define_member-Keeps address (struct_object struct_name names fields count) name v =
      bind-Keeps
        (set_object-Keeps address
          (struct_object struct_name (names ++ name ∷ []) (set_field fields name v) (count + 1)))
        λ _. drop-Keeps
  define_member-Keeps address o name v = crash-Gives

  pub handle_op_member-Keeps : Keeps (handle_op_member readers program natives)
  unfolding handle_op_member
  handle_op_member-Keeps = bind-Keeps (read_string-Keeps readers program) λ name.
      bind-Keeps (peek-Keeps 0) λ initializer. bind-Keeps (peek-Keeps 1) λ value.
        bind-Keeps (as_address-Keeps value) λ address.
          bind-Keeps (object_at-Keeps address) λ o. define_member-Keeps address o name initializer

  struct_inherit-Keeps :
      (address : ℕ) (o : Object) (super_names : List (List ℕ)) (super_fields : Fields)
      (super_count : ℕ)
      → Keeps
          (struct_inherit readers program natives address o super_names super_fields super_count)
  unfolding struct_inherit
  struct_inherit-Keeps address (struct_object struct_name names fields count) super_names
        super_fields n =
      bind-Keeps
        (set_object-Keeps address
          (struct_object struct_name (names ++ super_names) (add_fields super_fields fields) n))
        λ _. drop-Keeps
  struct_inherit-Keeps address o super_names super_fields n = crash-Gives

  inherit_fields-Keeps :
      (o : Option Object) (v : Value) → Keeps (inherit_fields readers program natives o v)
  unfolding inherit_fields
  inherit_fields-Keeps (some (struct_object super_name super_names super_fields n)) v =
      bind-Keeps (as_address-Keeps v) λ address.
        bind-Keeps (object_at-Keeps address)
          λ own. struct_inherit-Keeps address own super_names super_fields n
  inherit_fields-Keeps o v = runtime_error-Keeps

  pub handle_op_struct_inherit-Keeps : Keeps (handle_op_struct_inherit readers program natives)
  unfolding handle_op_struct_inherit
  handle_op_struct_inherit-Keeps = bind-Keeps (peek-Keeps 1) λ super_value.
      bind-Keeps (as_object-Keeps super_value)
        λ o. bind-Keeps (peek-Keeps 0) λ value. inherit_fields-Keeps o value
