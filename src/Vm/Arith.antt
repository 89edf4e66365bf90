-- ===== src/Vm/Arith.antt =====
-- src/vm.c: the value stack and the binary operators on 32-bit integers, Booleans and None. The stack
-- is the list of its values, the top one first. What C leaves undefined is `undefined`: a quotient
-- that does not fit, and shifts of negative numbers, by too much, or into the sign.
use Prim.Native.Nat.{bit_and, bit_or, bit_xor}
use joker_complier.Base.{
  ℕ, ◌+◌, ◌-◌, ◌*◌, ◌/◌, ◌%◌, ◌^◌, Bool, true, false, not, ◌&&◌, ◌||◌, none, some, List, [], ◌∷◌,
  Outcome, ok, panic, undefined, ltb, leb, if◌then◌else◌, length, get_elem?,
}
use joker_complier.Base.Int.{
  ℤ, pos, negsuc, ◌+ℤ◌, ◌-ℤ◌, ◌*ℤ◌, leb_ℤ, ltb_ℤ, eqb_ℤ, sub_ℕ, pos_part, neg_part,
}
use joker_complier.Value.{Value, i32, i64, boolean, none_value, eqb_bool}

abbrev pub constant_stack_max : ℕ
constant_stack_max = 64 * 256

unfoldable pub push : List Value → Value → Outcome (List Value)
push stack value = if leb constant_stack_max (length stack) then panic else ok (value ∷ stack)

unfoldable pub pop : List Value → Outcome (Value × List Value)
pop [] = panic
pop (value ∷ stack) = ok (value, stack)

-- The slot right below the stack passes the test of `peek`, and reading it is undefined.
unfoldable pub peek : List Value → ℕ → Outcome Value
peek stack distance =
    let value : Outcome Value = elim (get_elem? stack distance) [
      | none ↦ undefined
      | some v ↦ ok v
    ] in
    if ltb (length stack) distance then panic else value

pub data Operator : Type 0 where
  add_op sub_op mul_op div_op mod_op pow_op eq_op neq_op gt_op lt_op gte_op lte_op : Operator
  and_op or_op xor_op neg_op assign_op shl_op shr_op : Operator
  bit_and_op bit_or_op bit_xor_op not_op bit_not_op : Operator

pub data Interpreted : Type 0 where
  interpret_ok : List Value → Interpreted
  interpret_runtime_error : Interpreted

-- INT32_MIN ≤ a ≤ INT32_MAX
abbrev pub in_i32 : ℤ → Bool
in_i32 (pos n) = ltb n (2 ^ 31)
in_i32 (negsuc n) = ltb n (2 ^ 31)

-- The bits of a 32-bit integer, and the integer of 32 bits.
unfoldable pub bits : ℤ → ℕ
bits (pos n) = n % 2 ^ 32
bits (negsuc n) = 2 ^ 32 - 1 - n % 2 ^ 32

unfoldable pub of_bits : ℕ → ℤ
of_bits b = if ltb (b % 2 ^ 32) (2 ^ 31) then pos (b % 2 ^ 32) else negsuc (2 ^ 32 - 1 - b % 2 ^ 32)

-- `a / b` and `a % b` of C, which go towards 0, for b that is not 0.
unfoldable pub quotient : ℤ → ℤ → ℤ
quotient a b =
    let size = (pos_part a + neg_part a) / (pos_part b + neg_part b) in
    if eqb_bool (leb_ℤ (pos 0) a) (leb_ℤ (pos 0) b) then pos size else sub_ℕ 0 size

unfoldable pub remainder : ℤ → ℤ → ℤ
remainder a b =
    let size = (pos_part a + neg_part a) % (pos_part b + neg_part b) in
    if leb_ℤ (pos 0) a then pos size else sub_ℕ 0 size

-- `a >> b` of a 32-bit integer, with the sign kept.
unfoldable pub shift_right : ℤ → ℕ → ℤ
shift_right (pos n) b = pos (n / 2 ^ b)
shift_right (negsuc n) b = negsuc (n / 2 ^ b)

-- MACRO_CHECK_I32_OVERFLOW and the write of the result.
abbrev pub checked : ℤ → List Value → Outcome Interpreted
checked r stack = if in_i32 r then ok (interpret_ok (i32 r ∷ stack)) else ok interpret_runtime_error

-- A result that C computes as an `int`.
abbrev pub defined : ℤ → List Value → Outcome Interpreted
defined r stack = if in_i32 r then ok (interpret_ok (i32 r ∷ stack)) else undefined

abbrev pub set_bool : Bool → List Value → Outcome Interpreted
set_bool b stack = ok (interpret_ok (boolean b ∷ stack))

abbrev pub is_shift : ℤ → Bool
is_shift (pos n) = ltb n 32
is_shift (negsuc n) = false

abbrev pub is_negative : ℤ → Bool
is_negative (pos n) = false
is_negative (negsuc n) = true

-- `handle_binary_i32_op`: the stack above `stack` has `b` on top of `a`.
unfoldable pub handle_binary_i32_op : Operator → ℤ → ℤ → List Value → Outcome Interpreted
handle_binary_i32_op add_op a b stack = checked (a +ℤ b) stack
handle_binary_i32_op sub_op a b stack = checked (a -ℤ b) stack
handle_binary_i32_op mul_op a b stack = checked (a *ℤ b) stack
handle_binary_i32_op div_op a b stack =
    if eqb_ℤ b (pos 0) then ok interpret_runtime_error else defined (quotient a b) stack
handle_binary_i32_op mod_op a b stack =
    if eqb_ℤ b (pos 0)
    then ok interpret_runtime_error
    else if in_i32 (quotient a b)
    then ok (interpret_ok (i32 (remainder a b) ∷ stack))
    else undefined
handle_binary_i32_op eq_op a b stack = set_bool (eqb_ℤ a b) stack
handle_binary_i32_op neq_op a b stack = set_bool (not (eqb_ℤ a b)) stack
handle_binary_i32_op gt_op a b stack = set_bool (ltb_ℤ b a) stack
handle_binary_i32_op lt_op a b stack = set_bool (ltb_ℤ a b) stack
handle_binary_i32_op gte_op a b stack = set_bool (leb_ℤ b a) stack
handle_binary_i32_op lte_op a b stack = set_bool (leb_ℤ a b) stack
handle_binary_i32_op shl_op a b stack =
    if is_shift b && not (is_negative a)
    then defined (pos (pos_part a * 2 ^ pos_part b)) stack
    else undefined
handle_binary_i32_op shr_op a b stack =
    if is_shift b then ok (interpret_ok (i32 (shift_right a (pos_part b)) ∷ stack)) else undefined
handle_binary_i32_op bit_xor_op a b stack =
    ok (interpret_ok (i32 (of_bits (bit_xor (bits a) (bits b))) ∷ stack))
handle_binary_i32_op bit_or_op a b stack =
    ok (interpret_ok (i32 (of_bits (bit_or (bits a) (bits b))) ∷ stack))
handle_binary_i32_op bit_and_op a b stack =
    ok (interpret_ok (i32 (of_bits (bit_and (bits a) (bits b))) ∷ stack))
handle_binary_i32_op _ a b stack = ok interpret_runtime_error

unfoldable pub handle_binary_bool_op : Operator → Bool → Bool → List Value → Outcome Interpreted
handle_binary_bool_op eq_op a b stack = set_bool (eqb_bool a b) stack
handle_binary_bool_op neq_op a b stack = set_bool (not (eqb_bool a b)) stack
handle_binary_bool_op and_op a b stack = set_bool (a && b) stack
handle_binary_bool_op or_op a b stack = set_bool (a || b) stack
handle_binary_bool_op _ a b stack = ok interpret_runtime_error

abbrev pub is_none_value : Value → Bool
is_none_value none_value = true
is_none_value _ = false

unfoldable pub handle_binary_none_op : Operator → Value → List Value → Outcome Interpreted
handle_binary_none_op eq_op b stack = set_bool (is_none_value b) stack
handle_binary_none_op neq_op b stack = set_bool (not (is_none_value b)) stack
handle_binary_none_op _ b stack = ok interpret_runtime_error

abbrev pub in_i64 : ℤ → Bool
in_i64 (pos n) = ltb n (2 ^ 63)
in_i64 (negsuc n) = ltb n (2 ^ 63)

-- A result that C computes as an `int64_t`; there is no check of its range.
abbrev pub defined_i64 : ℤ → List Value → Outcome Interpreted
defined_i64 r stack = if in_i64 r then ok (interpret_ok (i64 r ∷ stack)) else undefined

abbrev pub is_shift_i64 : ℤ → Bool
is_shift_i64 (pos n) = ltb n 64
is_shift_i64 (negsuc n) = false

unfoldable pub bits_i64 : ℤ → ℕ
bits_i64 (pos n) = n % 2 ^ 64
bits_i64 (negsuc n) = 2 ^ 64 - 1 - n % 2 ^ 64

unfoldable pub of_bits_i64 : ℕ → ℤ
of_bits_i64 b =
    if ltb (b % 2 ^ 64) (2 ^ 63) then pos (b % 2 ^ 64) else negsuc (2 ^ 64 - 1 - b % 2 ^ 64)

-- `handle_binary_i64_op`
unfoldable pub handle_binary_i64_op : Operator → ℤ → ℤ → List Value → Outcome Interpreted
handle_binary_i64_op add_op a b stack = defined_i64 (a +ℤ b) stack
handle_binary_i64_op sub_op a b stack = defined_i64 (a -ℤ b) stack
handle_binary_i64_op mul_op a b stack = defined_i64 (a *ℤ b) stack
handle_binary_i64_op div_op a b stack =
    if eqb_ℤ b (pos 0) then ok interpret_runtime_error else defined_i64 (quotient a b) stack
handle_binary_i64_op mod_op a b stack =
    if eqb_ℤ b (pos 0)
    then ok interpret_runtime_error
    else if in_i64 (quotient a b)
    then ok (interpret_ok (i64 (remainder a b) ∷ stack))
    else undefined
handle_binary_i64_op eq_op a b stack = set_bool (eqb_ℤ a b) stack
handle_binary_i64_op neq_op a b stack = set_bool (not (eqb_ℤ a b)) stack
handle_binary_i64_op gt_op a b stack = set_bool (ltb_ℤ b a) stack
handle_binary_i64_op lt_op a b stack = set_bool (ltb_ℤ a b) stack
handle_binary_i64_op gte_op a b stack = set_bool (leb_ℤ b a) stack
handle_binary_i64_op lte_op a b stack = set_bool (leb_ℤ a b) stack
handle_binary_i64_op shl_op a b stack =
    if is_shift_i64 b && not (is_negative a)
    then defined_i64 (pos (pos_part a * 2 ^ pos_part b)) stack
    else undefined
handle_binary_i64_op shr_op a b stack =
    if is_shift_i64 b
    then ok (interpret_ok (i64 (shift_right a (pos_part b)) ∷ stack))
    else undefined
handle_binary_i64_op bit_and_op a b stack =
    ok (interpret_ok (i64 (of_bits_i64 (bit_and (bits_i64 a) (bits_i64 b))) ∷ stack))
handle_binary_i64_op bit_or_op a b stack =
    ok (interpret_ok (i64 (of_bits_i64 (bit_or (bits_i64 a) (bits_i64 b))) ∷ stack))
handle_binary_i64_op bit_xor_op a b stack =
    ok (interpret_ok (i64 (of_bits_i64 (bit_xor (bits_i64 a) (bits_i64 b))) ∷ stack))
handle_binary_i64_op _ a b stack = ok interpret_runtime_error
