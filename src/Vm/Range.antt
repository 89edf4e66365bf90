-- ===== src/Vm/Range.antt =====
-- src/vm.c: what the operators on 32-bit integers can leave on the stack.
use joker_complier.Base.{
  ℕ, zero, suc, ◌+◌, ◌*◌, ◌%◌, ◌^◌, ◌≤◌, ◌<◌, ◌≡◌, refl, Bool, true, false, not, ◌&&◌, List, ◌∷◌,
  arith, Outcome, ok, undefined, ltb, if◌then◌else◌, Bool-cases, inl, inr, ◌⊎◌, ap, sym, ◌∙◌, ◌/◌,
}
use joker_complier.Base.Int.{
  ◌+ℤ◌, ◌-ℤ◌, ◌*ℤ◌, ℤ, pos, negsuc, eqb_ℤ, pos_part, neg_part, leb_ℤ, ltb_ℤ, ◌≤ℤ◌, sub_ℕ,
}
use joker_complier.Value.{Value, i32, boolean, eqb_bool}
use Prim.Native.Nat.{bit_and, bit_or, bit_xor}
use native.Mathlib.Nat.{mod-lt, div-add-mod', div-le_self}
use joker_complier.Vm.Arith.{
  Operator, add_op, sub_op, mul_op, div_op, mod_op, pow_op, eq_op, neq_op, gt_op, lt_op, gte_op,
  lte_op, and_op, or_op, xor_op, neg_op, assign_op, shl_op, shr_op, bit_and_op, bit_or_op,
  bit_xor_op, not_op, bit_not_op, Interpreted, interpret_ok, interpret_runtime_error, in_i32, bits,
  of_bits, set_bool, quotient, remainder, shift_right, checked, is_shift, is_negative,
  handle_binary_i32_op,
}

-- The result `r` is put on the stack in place of the operands.
abbrev pub Puts : ℤ → List Value → Outcome Interpreted → Type 0
Puts r stack o = (in_i32 r ≡ true) × (o ≡ ok (interpret_ok (i32 r ∷ stack)))

abbrev pub Raises : Outcome Interpreted → Type 0
Raises o = o ≡ ok interpret_runtime_error

-- `r` where it is a 32-bit integer, and a runtime error where it is none.
abbrev pub Checks : ℤ → List Value → Outcome Interpreted → Type 0
Checks r stack o = Puts r stack o ⊎ ((in_i32 r ≡ false) × Raises o)

-- The answer to a question.
abbrev pub Decides : Type 0 → List Value → Outcome Interpreted → Type 0
Decides P stack o =
    (t : Bool) × (o ≡ ok (interpret_ok (boolean t ∷ stack)))
    × (((t ≡ true) × P) ⊎ ((t ≡ false) × (¬ P)))

abbrev pub size : ℤ → ℕ
size a = pos_part a + neg_part a

-- `a` divided by `b`, towards 0: the quotient is negative or 0 where the signs differ, and the remainder has
-- the sign of `a`.
abbrev pub Divides : ℤ → ℤ → ℤ → ℤ → Type 0
Divides a b q r =
    (size a ≡ size q * size b + size r)
    × (size r < size b)
    × ((if eqb_bool (leb_ℤ (pos 0) a) (leb_ℤ (pos 0) b) then leb_ℤ (pos 0) q else leb_ℤ q (pos 0))
        ≡ true)
    × ((if leb_ℤ (pos 0) a then leb_ℤ (pos 0) r else leb_ℤ r (pos 0)) ≡ true)

-- A division: a runtime error for a divisor of 0, one of the two results where the quotient is a 32-bit integer,
-- and undefined where it is none.
abbrev pub Divided : (ℤ → ℤ → ℤ) → ℤ → ℤ → List Value → Outcome Interpreted → Type 0
Divided pick a b stack o =
    ((b ≡ pos 0) × Raises o)
    ⊎ ((q : ℤ) × (r : ℤ) × Divides a b q r
        × (((in_i32 q ≡ true) × Puts (pick q r) stack o) ⊎ ((in_i32 q ≡ false) × (o ≡ undefined))))

-- The result has the bits `n`.
abbrev pub Bits : ℕ → List Value → Outcome Interpreted → Type 0
Bits n stack o = (r : ℤ) × (bits r ≡ n % 2 ^ 32) × Puts r stack o

-- `r` is the integer `a` divided by `k` and rounded down, with -(n + 1) as `negsuc n`.
abbrev pub Floors : ℤ → ℕ → ℤ → Type 0
Floors (pos n) k (pos m) = (m * k ≤ n) × (n < m * k + k)
Floors (negsuc n) k (negsuc m) = (m * k ≤ n) × (n < m * k + k)
Floors _ k _ = ⊥

-- What an operator means on two 32-bit integers.
abbrev pub Means : Operator → ℤ → ℤ → List Value → Outcome Interpreted → Type 0
Means add_op a b stack o = Checks (a +ℤ b) stack o
Means sub_op a b stack o = Checks (a -ℤ b) stack o
Means mul_op a b stack o = Checks (a *ℤ b) stack o
Means div_op a b stack o = Divided (λ q r. q) a b stack o
Means mod_op a b stack o = Divided (λ q r. r) a b stack o
Means eq_op a b stack o = Decides (a ≡ b) stack o
Means neq_op a b stack o = Decides (¬ (a ≡ b)) stack o
Means gt_op a b stack o = Decides (¬ (a ≤ℤ b)) stack o
Means lt_op a b stack o = Decides (¬ (b ≤ℤ a)) stack o
Means gte_op a b stack o = Decides (b ≤ℤ a) stack o
Means lte_op a b stack o = Decides (a ≤ℤ b) stack o
Means shl_op a b stack o =
    ((r : ℤ) × (r ≡ pos (pos_part a * 2 ^ pos_part b))
      × (is_shift b ≡ true)
      × (is_negative a ≡ false)
      × Puts r stack o)
    ⊎ (((is_shift b && not (is_negative a) && in_i32 (pos (pos_part a * 2 ^ pos_part b))) ≡ false)
        × (o ≡ undefined))
Means shr_op a b stack o =
    ((is_shift b ≡ true) × ((r : ℤ) × Floors a (2 ^ pos_part b) r × Puts r stack o))
    ⊎ ((is_shift b ≡ false) × (o ≡ undefined))
Means bit_xor_op a b stack o = Bits (bit_xor (bits a) (bits b)) stack o
Means bit_or_op a b stack o = Bits (bit_or (bits a) (bits b)) stack o
Means bit_and_op a b stack o = Bits (bit_and (bits a) (bits b)) stack o
Means op a b stack o = Raises o

Means-checked : (r : ℤ) (stack : List Value) → Checks r stack (checked r stack)
Means-checked r stack = elim (Bool-cases (in_i32 r)) [
  | inl fits ↦ rw fits (inl (refl, refl))
  | inr over ↦ rw over (inr (refl, refl))
]

of_bits-in_i32 : (b : ℕ) → in_i32 (of_bits b) ≡ true
unfolding of_bits
of_bits-in_i32 b = elim (Bool-cases (ltb (b % 2 ^ 32) (2 ^ 31))) [
  | inl low ↦ rw low low
  | inr high ↦ rw high (ground arith)
]

shift_right-in_i32 : (a : ℤ) (b : ℕ) → in_i32 a ≡ true → in_i32 (shift_right a b) ≡ true
unfolding shift_right
shift_right-in_i32 (pos n) b h = ground (arith, h, div-le_self n (2 ^ b))
shift_right-in_i32 (negsuc n) b h = ground (arith, h, div-le_self n (2 ^ b))

not_zero : (b : ℤ) → eqb_ℤ b (pos 0) ≡ false → 0 < size b
not_zero (pos n) h = ground arith
not_zero (negsuc n) h = omega arith

remainder-in_i32 :
    (a b : ℤ) → in_i32 b ≡ true → eqb_ℤ b (pos 0) ≡ false → in_i32 (remainder a b) ≡ true
unfolding remainder
remainder-in_i32 a b h n =
    let less = mod-lt (pos_part a + neg_part a) (not_zero b n) in
    let size = size_le b h in
    let size_of = (pos_part a + neg_part a) % (pos_part b + neg_part b) in
    elim (Bool-cases (leb_ℤ (pos 0) a)) [
      | inl above ↦ rw above (positive size_of (omega arith))
      | inr below ↦ rw below (negative size_of (omega arith))
    ]
  where
    size_le : (b : ℤ) → in_i32 b ≡ true → pos_part b + neg_part b ≤ 2 ^ 31
    size_le (pos n) h = ground arith
    size_le (negsuc n) h = ground arith

    positive : (n : ℕ) → n < 2 ^ 31 → in_i32 (pos n) ≡ true
    positive n h = ground arith

    negative : (n : ℕ) → n < 2 ^ 31 → in_i32 (sub_ℕ 0 n) ≡ true
    negative zero h = ground arith
    negative (suc n) h = ground arith

eqb_ℤ-eq : (a b : ℤ) → eqb_ℤ a b ≡ true → a ≡ b
eqb_ℤ-eq (pos n) (pos m) e = ap pos (ground (arith, e))
eqb_ℤ-eq (pos n) (negsuc m) e = absurd (ground (arith, e))
eqb_ℤ-eq (negsuc n) (pos m) e = absurd (ground (arith, e))
eqb_ℤ-eq (negsuc n) (negsuc m) e = ap negsuc (ground (arith, e))

eqb_ℤ-same : (a : ℤ) → eqb_ℤ a a ≡ true
eqb_ℤ-same (pos n) = ground arith
eqb_ℤ-same (negsuc n) = ground arith

eqb_ℤ-other : (a b : ℤ) → eqb_ℤ a b ≡ false → ¬ (a ≡ b)
eqb_ℤ-other a b e =
    λ same. let true_too : eqb_ℤ a b ≡ true = ap (eqb_ℤ a) (sym same) ∙ eqb_ℤ-same a in cc

size-sub_ℕ : (n : ℕ) → size (sub_ℕ 0 n) ≡ n
size-sub_ℕ zero = refl
size-sub_ℕ (suc n) = ground arith

below_zero : (n : ℕ) → leb_ℤ (sub_ℕ 0 n) (pos 0) ≡ true
below_zero zero = refl
below_zero (suc n) = ground arith

quotient-size : (a b : ℤ) → size (quotient a b) ≡ size a / size b
unfolding quotient
quotient-size a b = elim (Bool-cases (eqb_bool (leb_ℤ (pos 0) a) (leb_ℤ (pos 0) b))) [
  | inl e ↦ rw e (omega arith)
  | inr e ↦ rw e (size-sub_ℕ _)
]

remainder-size : (a b : ℤ) → size (remainder a b) ≡ size a % size b
unfolding remainder
remainder-size a b = elim (Bool-cases (leb_ℤ (pos 0) a)) [
  | inl e ↦ rw e (omega arith)
  | inr e ↦ rw e (size-sub_ℕ _)
]

Divides-quotient : (a b : ℤ) → eqb_ℤ b (pos 0) ≡ false → Divides a b (quotient a b) (remainder a b)
Divides-quotient a b n = (
  rw (quotient-size a b, remainder-size a b) (sym (div-add-mod' (size a) (size b))),
  rw (remainder-size a b) (mod-lt (size a) (not_zero b n)),
  (unfold quotient in
      elim (Bool-cases (eqb_bool (leb_ℤ (pos 0) a) (leb_ℤ (pos 0) b))) [
        | inl e ↦ rw e (ground arith)
        | inr e ↦ rw e (below_zero _)
      ]),
  (unfold remainder in
      elim (Bool-cases (leb_ℤ (pos 0) a)) [
        | inl e ↦ rw e (ground arith)
        | inr e ↦ rw e (below_zero _)
      ]),
)

Decides-leb : (a b : ℤ) (stack : List Value) → Decides (a ≤ℤ b) stack (set_bool (leb_ℤ a b) stack)
Decides-leb a b stack = elim (Bool-cases (leb_ℤ a b)) [
  | inl e ↦ (leb_ℤ a b, refl, inl (e, ground (arith, e)))
  | inr e ↦ (leb_ℤ a b, refl, inr (e, (λ le. ground (arith, e, le))))
]

Decides-ltb :
    (a b : ℤ) (stack : List Value) → Decides (¬ (b ≤ℤ a)) stack (set_bool (ltb_ℤ a b) stack)
Decides-ltb a b stack = elim (Bool-cases (ltb_ℤ a b)) [
  | inl e ↦ (ltb_ℤ a b, refl, inl (e, (λ le. ground (arith, e, le))))
  | inr e ↦ (ltb_ℤ a b, refl, inr (e, (λ lt. lt (ground (arith, e)))))
]

bits-of_bits : (n : ℕ) → bits (of_bits n) ≡ n % 2 ^ 32
unfolding bits of_bits
bits-of_bits n = elim (Bool-cases (ltb (n % 2 ^ 32) (2 ^ 31))) [
  | inl low ↦ rw low (omega arith)
  | inr high ↦ rw high (omega arith)
]

Bits-of_bits :
    (n : ℕ) (stack : List Value) → Bits n stack (ok (interpret_ok (i32 (of_bits n) ∷ stack)))
Bits-of_bits n stack = (of_bits n, bits-of_bits n, (of_bits-in_i32 n, refl))

two_pow : (b : ℕ) → 0 < 2 ^ b
two_pow zero = omega arith
two_pow (suc b) = omega (arith, two_pow b)

floor : (n k : ℕ) → 0 < k → (n / k * k ≤ n) × (n < n / k * k + k)
floor n k h =
    let split = div-add-mod' n k in
    let small = mod-lt n h in (omega (arith, split), omega (arith, split, small))

shift_right-Floors : (a : ℤ) (b : ℕ) → Floors a (2 ^ b) (shift_right a b)
unfolding shift_right
shift_right-Floors (pos n) b = floor n (2 ^ b) (two_pow b)
shift_right-Floors (negsuc n) b = floor n (2 ^ b) (two_pow b)

-- Each operator on two 32-bit integers, with the stack below them as it was. Addition, subtraction and multiplication
-- leave the exact result where it is a 32-bit integer and raise a runtime error where it is none. Division and
-- remainder raise one for a divisor of 0, leave the quotient and the remainder of the division towards 0
-- where the quotient is a 32-bit integer, and are undefined in C where it is none. The comparisons leave
-- the Boolean that answers them. A shift leaves the
-- operand times a power of two, or divided by one and rounded down, and is undefined exactly for an amount outside
-- 0 to 31 and, to the left, for a negative operand or a result that is no 32-bit integer. The operators on bits leave the
-- 32-bit integer with the bits of the result. Every other operator is a runtime error.
pub handle_binary_i32_op-Means :
    (op : Operator) (a b : ℤ) (stack : List Value)
    → in_i32 a ≡ true
    → in_i32 b ≡ true
    → Means op a b stack (handle_binary_i32_op op a b stack)
unfolding handle_binary_i32_op
handle_binary_i32_op-Means add_op a b stack ha hb = Means-checked (a +ℤ b) stack
handle_binary_i32_op-Means sub_op a b stack ha hb = Means-checked (a -ℤ b) stack
handle_binary_i32_op-Means mul_op a b stack ha hb = Means-checked (a *ℤ b) stack
handle_binary_i32_op-Means div_op a b stack ha hb = elim (Bool-cases (eqb_ℤ b (pos 0))) [
  | inl z ↦ rw z (inl (eqb_ℤ-eq b (pos 0) z, refl))
  | inr n ↦ elim (Bool-cases (in_i32 (quotient a b))) [
    | inl fits ↦
        rw (n, fits)
          (inr (quotient a b, remainder a b, Divides-quotient a b n, inl (fits, (fits, refl))))
    | inr over ↦
        rw (n, over) (inr (quotient a b, remainder a b, Divides-quotient a b n, inr (over, refl)))
  ]
]
handle_binary_i32_op-Means mod_op a b stack ha hb = elim (Bool-cases (eqb_ℤ b (pos 0))) [
  | inl z ↦ rw z (inl (eqb_ℤ-eq b (pos 0) z, refl))
  | inr n ↦ elim (Bool-cases (in_i32 (quotient a b))) [
    | inl fits ↦
        rw (n, fits)
          (inr (
            quotient a b,
            remainder a b,
            Divides-quotient a b n,
            inl (fits, (remainder-in_i32 a b hb n, refl)),
          ))
    | inr over ↦
        rw (n, over) (inr (quotient a b, remainder a b, Divides-quotient a b n, inr (over, refl)))
  ]
]
handle_binary_i32_op-Means shl_op a b stack ha hb = elim (Bool-cases (is_shift b)) [
  | inr far ↦ rw far (inr (refl, refl))
  | inl near ↦ elim (Bool-cases (is_negative a)) [
    | inl minus ↦ rw (near, minus) (inr (refl, refl))
    | inr plus ↦ elim (Bool-cases (in_i32 (pos (pos_part a * 2 ^ pos_part b)))) [
      | inl fits ↦ rw (near, plus, fits) (inl (_, refl, refl, refl, (fits, refl)))
      | inr over ↦ rw (near, plus, over) (inr (refl, refl))
    ]
  ]
]
handle_binary_i32_op-Means shr_op a b stack ha hb = elim (Bool-cases (is_shift b)) [
  | inl near ↦ rw near (
      inl (
        refl,
        (
          shift_right a (pos_part b),
          shift_right-Floors a (pos_part b),
          (shift_right-in_i32 a _ ha, refl),
        ),
      ))
  | inr far ↦ rw far (inr (refl, refl))
]
handle_binary_i32_op-Means bit_xor_op a b stack ha hb = Bits-of_bits _ stack
handle_binary_i32_op-Means bit_or_op a b stack ha hb = Bits-of_bits _ stack
handle_binary_i32_op-Means bit_and_op a b stack ha hb = Bits-of_bits _ stack
handle_binary_i32_op-Means eq_op a b stack ha hb = elim (Bool-cases (eqb_ℤ a b)) [
  | inl e ↦ (eqb_ℤ a b, refl, inl (e, eqb_ℤ-eq a b e))
  | inr e ↦ (eqb_ℤ a b, refl, inr (e, eqb_ℤ-other a b e))
]
handle_binary_i32_op-Means neq_op a b stack ha hb = elim (Bool-cases (eqb_ℤ a b)) [
  | inl e ↦ (not (eqb_ℤ a b), refl, inr (rw e refl, (λ other. other (eqb_ℤ-eq a b e))))
  | inr e ↦ (not (eqb_ℤ a b), refl, inl (rw e refl, eqb_ℤ-other a b e))
]
handle_binary_i32_op-Means gt_op a b stack ha hb = Decides-ltb b a stack
handle_binary_i32_op-Means lt_op a b stack ha hb = Decides-ltb a b stack
handle_binary_i32_op-Means gte_op a b stack ha hb = Decides-leb b a stack
handle_binary_i32_op-Means lte_op a b stack ha hb = Decides-leb a b stack
handle_binary_i32_op-Means pow_op a b stack ha hb = refl
handle_binary_i32_op-Means and_op a b stack ha hb = refl
handle_binary_i32_op-Means or_op a b stack ha hb = refl
handle_binary_i32_op-Means xor_op a b stack ha hb = refl
handle_binary_i32_op-Means neg_op a b stack ha hb = refl
handle_binary_i32_op-Means assign_op a b stack ha hb = refl
handle_binary_i32_op-Means not_op a b stack ha hb = refl
handle_binary_i32_op-Means bit_not_op a b stack ha hb = refl
