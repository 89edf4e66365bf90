-- ===== src/Vm/Jumps.antt =====
-- The handlers of the jump instructions in src/vm.c, on the `ip` behind the instruction's byte.
-- A step back past the code's first byte is undefined in C.
use joker_complier.Base.{ℕ, ◌+◌, ◌-◌, Bool, Outcome, ok, undefined, ◌>>=◌, leb, if◌then◌else◌}
use joker_complier.Chunk.{Chunk}
use joker_complier.Vm.Fetch.{read_short}

module _ {ℓ} {V : Type ℓ} (chunk : Chunk V) where
  unfoldable pub handle_op_jump : ℕ → Outcome ℕ
  handle_op_jump ip = do (offset, next) ← read_short chunk ip; ok (next + offset)

  -- `falsey` is what `is_falsey` says of the value on top of the stack.
  unfoldable pub handle_op_jump_if_false : Bool → ℕ → Outcome ℕ
  handle_op_jump_if_false falsey ip = do
    (offset, next) ← read_short chunk ip
    if falsey then ok (next + offset) else ok next

  -- `equal` is what `values_equal` says of the matched value and the pattern.
  unfoldable pub handle_op_jump_if_neq : Bool → ℕ → Outcome ℕ
  handle_op_jump_if_neq equal ip =
      let jumped = read_short chunk ip >>= λ (offset, next). ok (next + offset) in
      if equal then ok (ip + 2) else jumped

  unfoldable pub handle_op_loop : ℕ → Outcome ℕ
  handle_op_loop ip = do
    (offset, next) ← read_short chunk ip
    if leb offset next then ok (next - offset) else undefined
