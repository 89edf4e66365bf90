-- ===== src/Vm/Unary.antt =====
-- src/vm.c: the unary operators, in place on top of the stack. A float is its bit pattern, and `-` flips
-- its sign bit; objects go to the handlers of their class, which are not here.
use joker_complier.Base.{
  ℕ, zero, suc, ◌+◌, ◌%◌, ◌^◌, Bool, true, false, not, List, [], ◌∷◌, Outcome, ok, panic, undefined,
  if◌then◌else◌,
}
use joker_complier.Base.Int.{ℤ, pos, negsuc}
use joker_complier.Value.{Value, i32, i64, f32, f64, boolean, object, none_value, null}
use joker_complier.Vm.Arith.{
  Operator, not_op, bit_not_op, Interpreted, interpret_ok, interpret_runtime_error, in_i32, in_i64,
}

abbrev pub minus : ℤ → ℤ
minus (pos zero) = pos zero
minus (pos (suc n)) = negsuc n
minus (negsuc n) = pos (suc n)

-- `~a` in two's complement: -a - 1
abbrev pub complement : ℤ → ℤ
complement (pos n) = negsuc n
complement (negsuc n) = pos n

abbrev pub flip_sign : ℕ → ℕ → ℕ
flip_sign sign bits = (bits + sign) % (sign + sign)

-- `negate`: the switch on the value on top. `-INT32_MIN` and `-INT64_MIN` are undefined in C.
unfoldable pub negate : List Value → Outcome Interpreted
negate [] = panic
negate (i32 a ∷ stack) =
    if in_i32 (minus a) then ok (interpret_ok (i32 (minus a) ∷ stack)) else undefined
negate (i64 a ∷ stack) =
    if in_i64 (minus a) then ok (interpret_ok (i64 (minus a) ∷ stack)) else undefined
negate (f32 b ∷ stack) = ok (interpret_ok (f32 (flip_sign (2 ^ 31) b) ∷ stack))
negate (f64 b ∷ stack) = ok (interpret_ok (f64 (flip_sign (2 ^ 63) b) ∷ stack))
negate (boolean b ∷ stack) = ok interpret_runtime_error
negate (object address ∷ stack) = ok interpret_runtime_error
negate (none_value ∷ stack) = ok interpret_runtime_error
negate (null ∷ stack) = ok interpret_runtime_error

-- `not_`
unfoldable pub not_value : List Value → Outcome Interpreted
not_value [] = panic
not_value (boolean b ∷ stack) = ok (interpret_ok (boolean (not b) ∷ stack))
not_value (value ∷ stack) = ok interpret_runtime_error

-- The `handle_unary_…_op` functions; an operator comes here by MACRO_IN_UNARY_OP, which NEG fails.
unfoldable pub handle_unary_op : Operator → Value → List Value → Outcome Interpreted
handle_unary_op bit_not_op (i32 a) stack = ok (interpret_ok (i32 (complement a) ∷ stack))
handle_unary_op bit_not_op (i64 a) stack = ok (interpret_ok (i64 (complement a) ∷ stack))
handle_unary_op not_op (boolean b) stack = ok (interpret_ok (boolean (not b) ∷ stack))
handle_unary_op _ _ stack = ok interpret_runtime_error

abbrev pub is_unary_op : Operator → Bool
is_unary_op not_op = true
is_unary_op bit_not_op = true
is_unary_op _ = false

-- `read_unary` on a value that is no object.
unfoldable pub read_unary : Operator → List Value → Outcome Interpreted
read_unary op [] = undefined
read_unary op (operand ∷ stack) =
    if is_unary_op op then handle_unary_op op operand stack else ok interpret_runtime_error
