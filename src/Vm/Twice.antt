-- ===== src/Vm/Twice.antt =====
-- src/vm.c: the unary operators undo themselves.
use joker_complier.Base.{
  ℕ, zero, suc, ◌+◌, ◌-◌, ◌/◌, ◌%◌, ◌^◌, ◌<◌, ◌≡◌, refl, Bool, true, false, List, [], ◌∷◌, Outcome,
  ok, panic, undefined, out_of_fuel, ◌==◌, Bool-cases, inl, inr, arith,
}
use joker_complier.Base.Int.{ℤ, pos, negsuc, ◌+ℤ◌, sub_ℕ}
use joker_complier.Value.{Value, i32, i64, f32, f64, boolean, object, none_value, null}
use joker_complier.Vm.Arith.{Interpreted, interpret_ok, interpret_runtime_error, in_i32, in_i64}
use joker_complier.Vm.Unary.{minus, flip_sign, negate}

-- A value that its C type can hold.
abbrev pub Fits : Value → Type 0
Fits (i32 a) = in_i32 a ≡ true
Fits (i64 a) = in_i64 a ≡ true
Fits (f32 b) = b < 2 ^ 32
Fits (f64 b) = b < 2 ^ 64
Fits _ = Unit

abbrev pub is_number : Value → Bool
is_number (i32 a) = true
is_number (i64 a) = true
is_number (f32 b) = true
is_number (f64 b) = true
is_number _ = false

-- INT32_MIN and INT64_MIN
abbrev pub is_least : Value → Bool
is_least (i32 (negsuc n)) = n == 2 ^ 31 - 1
is_least (i64 (negsuc n)) = n == 2 ^ 63 - 1
is_least _ = false

-- The number with the other sign: the sum of integers is 0, and floats differ in the sign bit alone.
abbrev pub Opposite : Value → Value → Type 0
Opposite (i32 a) (i32 a') = a +ℤ a' ≡ pos 0
Opposite (i64 a) (i64 a') = a +ℤ a' ≡ pos 0
Opposite (f32 b) (f32 b') = (b' % 2 ^ 31 ≡ b % 2 ^ 31) × (b / 2 ^ 31 + b' / 2 ^ 31 ≡ 1)
Opposite (f64 b) (f64 b') = (b' % 2 ^ 63 ≡ b % 2 ^ 63) × (b / 2 ^ 63 + b' / 2 ^ 63 ≡ 1)
Opposite _ _ = ⊥

-- What comes of a negation of `value` on top of `stack`.
abbrev pub Undone : Value → List Value → Outcome Interpreted → Type 0
Undone value stack (ok (interpret_ok (value' ∷ stack'))) =
    Opposite value value'
    × Fits value'
    × (stack' ≡ stack)
    × (negate (value' ∷ stack') ≡ ok (interpret_ok (value ∷ stack)))
Undone value stack (ok (interpret_ok [])) = ⊥
Undone value stack (ok interpret_runtime_error) = is_number value ≡ false
Undone value stack undefined = is_least value ≡ true
Undone value stack panic = ⊥
Undone value stack out_of_fuel = ⊥

sub_ℕ_same : (a b : ℕ) → a ≡ b → sub_ℕ a b ≡ pos 0
sub_ℕ_same a b e = ground (arith, e)

minus_sum : (a : ℤ) → a +ℤ minus a ≡ pos 0
unfolding ◌+ℤ◌
minus_sum (pos zero) = refl
minus_sum (pos (suc n)) = sub_ℕ_same _ _ (omega arith)
minus_sum (negsuc n) = sub_ℕ_same _ _ (omega arith)

least_i32 : (a : ℤ) → in_i32 a ≡ true → in_i32 (minus a) ≡ false → is_least (i32 a) ≡ true
least_i32 (pos zero) h over = absurd (ground arith)
least_i32 (pos (suc n)) h over = absurd (ground arith)
least_i32 (negsuc n) h over = ground arith

least_i64 : (a : ℤ) → in_i64 a ≡ true → in_i64 (minus a) ≡ false → is_least (i64 a) ≡ true
least_i64 (pos zero) h over = absurd (ground arith)
least_i64 (pos (suc n)) h over = absurd (ground arith)
least_i64 (negsuc n) h over = ground arith

minus_twice : (a : ℤ) → minus (minus a) ≡ a
minus_twice (pos zero) = refl
minus_twice (pos (suc n)) = refl
minus_twice (negsuc n) = refl

-- `negate` on a value that its type can hold. A number, but for INT32_MIN and INT64_MIN, is replaced by
-- the one of its type with the other sign, with the rest of the stack as it was, and a second negation turns
-- it back; those two are undefined in C; and exactly what is no number is a runtime error.
pub negate-Undone :
    (value : Value) (stack : List Value) → Fits value → Undone value stack (negate (value ∷ stack))
unfolding negate
negate-Undone (i32 a) stack h = elim (Bool-cases (in_i32 (minus a))) [
  | inl fits ↦ rw fits (minus_sum a, fits, refl, rw (minus_twice a, h))
  | inr over ↦ rw over (least_i32 a h over)
]
negate-Undone (i64 a) stack h = elim (Bool-cases (in_i64 (minus a))) [
  | inl fits ↦ rw fits (minus_sum a, fits, refl, rw (minus_twice a, h))
  | inr over ↦ rw over (least_i64 a h over)
]
negate-Undone (f32 b) stack h =
    let back : flip_sign (2 ^ 31) (flip_sign (2 ^ 31) b) ≡ b = omega arith in
    ((omega arith, omega arith), omega arith, refl, rw back)
negate-Undone (f64 b) stack h =
    let back : flip_sign (2 ^ 63) (flip_sign (2 ^ 63) b) ≡ b = omega arith in
    ((omega arith, omega arith), omega arith, refl, rw back)
negate-Undone (boolean b) stack h = refl
negate-Undone (object address) stack h = refl
negate-Undone none_value stack h = refl
negate-Undone null stack h = refl
