-- ===== src/Machine/Values.antt =====
-- src/vm.c: the operators, on values of the stack. Arithmetic on floats and the operators that a class of
-- objects has of its own are parameters.
use joker_complier.Base.{
  ℕ, ◌+◌, ◌-◌, ◌&&◌, ◌||◌, Bool, true, false, not, Option, none, some, List, [], ◌∷◌, Outcome, ok,
  panic, undefined, out_of_fuel, leb, if◌then◌else◌,
}
use joker_complier.Base
use joker_complier.Value.{
  Value, i32, i64, f32, f64, boolean, object, none_value, null, values_equal,
}
use joker_complier.Vm.Arith.{
  Operator, add_op, sub_op, mul_op, div_op, mod_op, eq_op, neq_op, gt_op, lt_op, gte_op, lte_op,
  not_op, bit_not_op, Interpreted, interpret_ok, interpret_runtime_error, handle_binary_i32_op,
  handle_binary_i64_op, handle_binary_bool_op, handle_binary_none_op, set_bool,
}
use joker_complier.Vm.Unary.{negate, not_value, read_unary}
use joker_complier.Machine.State.{
  Object, string_object, H, ◌>>=◌, ◌>>◌, return, crash, fail, InterpretResult, succeeded,
  runtime_error, pop, peek, stack_top, set_peek,
}
use joker_complier.Machine.Calls.{as_object}

-- The floating-point unit: operations and comparisons of bit patterns, the test for zero, and
-- `(double)(int32_t)x`.
pub record Floats : Type 0 where
  pub f32_op : Operator → ℕ → ℕ → ℕ
  pub f64_op : Operator → ℕ → ℕ → ℕ
  pub f32_test : Operator → ℕ → ℕ → Bool
  pub f64_test : Operator → ℕ → ℕ → Bool
  pub f32_zero : ℕ → Bool
  pub f64_zero : ℕ → Bool
  pub f32_int : ℕ → ℕ
  pub f64_int : ℕ → ℕ
  pub object_equal : ℕ → ℕ → Bool

-- The handlers of the tables `binary_operators` and `unary_operators` of a class of objects.
pub record Operators : Type 0 where
  pub binary : Operator → Value → Value → List Object → Option (Value × List Object)
  pub unary : Operator → Value → List Object → Option (Value × List Object)

-- macro_is_number
abbrev pub is_number : Value → Bool
is_number (i32 a) = true
is_number (i64 a) = true
is_number (f32 a) = true
is_number (f64 a) = true
is_number _ = false

abbrev pub is_string : Option Object → Bool
is_string (some (string_object text)) = true
is_string _ = false

abbrev pub is_object : Option Object → Bool
is_object (some o) = true
is_object none = false

abbrev pub is_add : Operator → Bool
is_add add_op = true
is_add _ = false

-- MACRO_IN_BINARY_OP
abbrev pub is_binary : Operator → Bool
is_binary not_op = false
is_binary bit_not_op = false
is_binary _ = true

module _ (floats : Floats) where
  -- `numeric_type_promotion`: the type is set before the value is read, so that a float goes through
  -- `int32_t`, and a member of the union that was not written is read where the types differ.
  unfoldable pub numeric_type_promotion : Value → Value → Outcome (Value × Value)
  numeric_type_promotion (i32 a) (i32 b) = ok (i32 a, i32 b)
  numeric_type_promotion (i64 a) (i64 b) = ok (i64 a, i64 b)
  numeric_type_promotion (f32 a) (f32 b) = ok (f32 (floats.f32_int a), f32 (floats.f32_int b))
  numeric_type_promotion (f64 a) (f64 b) = ok (f64 (floats.f64_int a), f64 (floats.f64_int b))
  numeric_type_promotion a b = undefined

  -- `coerce_types`, less the conversion of a number to a string
  unfoldable pub coerce_types : Value → Value → Outcome (Value × Value)
  unfolding numeric_type_promotion
  coerce_types lhs rhs =
      if is_number lhs && is_number rhs then numeric_type_promotion lhs rhs else ok (lhs, rhs)

  unfoldable pub handle_binary_f32_op : Operator → ℕ → ℕ → Outcome Interpreted
  handle_binary_f32_op add_op a b = ok (interpret_ok (f32 (floats.f32_op add_op a b) ∷ []))
  handle_binary_f32_op sub_op a b = ok (interpret_ok (f32 (floats.f32_op sub_op a b) ∷ []))
  handle_binary_f32_op mul_op a b = ok (interpret_ok (f32 (floats.f32_op mul_op a b) ∷ []))
  handle_binary_f32_op div_op a b =
      if floats.f32_zero b
      then ok interpret_runtime_error
      else ok (interpret_ok (f32 (floats.f32_op div_op a b) ∷ []))
  handle_binary_f32_op eq_op a b = set_bool (floats.f32_test eq_op a b) []
  handle_binary_f32_op neq_op a b = set_bool (floats.f32_test neq_op a b) []
  handle_binary_f32_op gt_op a b = set_bool (floats.f32_test gt_op a b) []
  handle_binary_f32_op lt_op a b = set_bool (floats.f32_test lt_op a b) []
  handle_binary_f32_op gte_op a b = set_bool (floats.f32_test gte_op a b) []
  handle_binary_f32_op lte_op a b = set_bool (floats.f32_test lte_op a b) []
  handle_binary_f32_op _ a b = ok interpret_runtime_error

  unfoldable pub handle_binary_f64_op : Operator → ℕ → ℕ → Outcome Interpreted
  handle_binary_f64_op add_op a b = ok (interpret_ok (f64 (floats.f64_op add_op a b) ∷ []))
  handle_binary_f64_op sub_op a b = ok (interpret_ok (f64 (floats.f64_op sub_op a b) ∷ []))
  handle_binary_f64_op mul_op a b = ok (interpret_ok (f64 (floats.f64_op mul_op a b) ∷ []))
  handle_binary_f64_op div_op a b =
      if floats.f64_zero b
      then ok interpret_runtime_error
      else ok (interpret_ok (f64 (floats.f64_op div_op a b) ∷ []))
  handle_binary_f64_op mod_op a b = ok (interpret_ok (f64 (floats.f64_op mod_op a b) ∷ []))
  handle_binary_f64_op eq_op a b = set_bool (floats.f64_test eq_op a b) []
  handle_binary_f64_op neq_op a b = set_bool (floats.f64_test neq_op a b) []
  handle_binary_f64_op gt_op a b = set_bool (floats.f64_test gt_op a b) []
  handle_binary_f64_op lt_op a b = set_bool (floats.f64_test lt_op a b) []
  handle_binary_f64_op gte_op a b = set_bool (floats.f64_test gte_op a b) []
  handle_binary_f64_op lte_op a b = set_bool (floats.f64_test lte_op a b) []
  handle_binary_f64_op _ a b = ok interpret_runtime_error

  -- The switch of `read_binary` on the type of the left operand; the handlers read the right operand as
  -- of the same type, and another member of the union is not defined.
  unfoldable pub basic_binary : Operator → Value → Value → Outcome Interpreted
  unfolding handle_binary_f32_op handle_binary_f64_op
  basic_binary op (i32 a) (i32 b) = handle_binary_i32_op op a b []
  basic_binary op (i64 a) (i64 b) = handle_binary_i64_op op a b []
  basic_binary op (f32 a) (f32 b) = handle_binary_f32_op op a b
  basic_binary op (f64 a) (f64 b) = handle_binary_f64_op op a b
  basic_binary op (boolean a) (boolean b) = handle_binary_bool_op op a b []
  basic_binary op none_value rhs = handle_binary_none_op op rhs []
  basic_binary op null rhs = ok interpret_runtime_error
  basic_binary op (object address) rhs = ok interpret_runtime_error
  basic_binary op lhs rhs = undefined

  unfoldable pub binary_value : Operator → Value → Value → Outcome Interpreted
  unfolding coerce_types basic_binary
  binary_value op lhs rhs = Base.◌>>=◌ (coerce_types lhs rhs) λ (a, b). basic_binary op a b

  -- `values_equal`
  unfoldable pub equal_values : Value → Value → Bool
  equal_values = values_equal (floats.f32_test eq_op) (floats.f64_test eq_op) floats.object_equal

-- The value of an operator takes the place of the operand at the distance, or an error is raised.
unfoldable pub put : ℕ → Outcome Interpreted → H InterpretResult
unfolding runtime_error set_peek
put distance (ok (interpret_ok (value ∷ rest))) = do set_peek distance value; return succeeded
put distance (ok (interpret_ok [])) = runtime_error
put distance (ok interpret_runtime_error) = runtime_error
put distance panic = fail
put distance undefined = crash
put distance out_of_fuel = λ s. out_of_fuel

-- `put`, for an operator of a class of objects
unfoldable pub put_object : ℕ → Option (Value × List Object) → H InterpretResult
unfolding runtime_error set_peek
put_object distance (some (value, objects)) = do
  set_peek distance value
  λ s. ok (succeeded, record s { objects = objects })
put_object distance none = runtime_error

unfoldable pub pop_on : InterpretResult → H InterpretResult
unfolding pop
pop_on succeeded = do v ← pop; return succeeded
pop_on result = return result

-- The right operand is taken off the stack after an operator that has succeeded.
unfoldable pub pop_after : H InterpretResult → H InterpretResult
unfolding pop_on
pop_after handler = do result ← handler; pop_on result

unfoldable pub heap : H (List Object)
heap s = ok (s.objects, s)

module _ (floats : Floats) (operators : Operators) where
  -- `read_binary`
  unfoldable pub read_binary : Operator → H InterpretResult
  unfolding peek as_object put put_object pop_after binary_value heap runtime_error
  read_binary op = do
    rhs ← peek 0
    lhs ← peek 1
    left ← as_object lhs
    right ← as_object rhs
    objects ← heap
    let text = is_add op && is_number lhs && is_string right
    if not (is_binary op)
        then runtime_error
        else if is_object left || text
        then pop_after (put_object 1 (operators.binary op lhs rhs objects))
        else pop_after (put 1 (binary_value floats op lhs rhs))

  -- `negate` and `not_`
  unfoldable pub handle_op_negate : H InterpretResult
  unfolding stack_top peek put
  handle_op_negate = do
    top ← stack_top
    if leb top 0 then fail else (do value ← peek 0; put 0 (negate (value ∷ [])))

  unfoldable pub handle_op_not : H InterpretResult
  unfolding stack_top peek put
  handle_op_not = do
    top ← stack_top
    if leb top 0 then fail else (do value ← peek 0; put 0 (not_value (value ∷ [])))

  -- `read_unary` with `~`
  unfoldable pub handle_op_bw_not : H InterpretResult
  unfolding peek put put_object as_object heap
  handle_op_bw_not = do
    value ← peek 0
    o ← as_object value
    objects ← heap
    if is_object o
        then put_object 0 (operators.unary bit_not_op value objects)
        else put 0 (read_unary bit_not_op (value ∷ []))
