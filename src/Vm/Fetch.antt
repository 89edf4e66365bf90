-- ===== src/Vm/Fetch.antt =====
-- The macros of `run` in src/vm.c that read operands: a frame's `ip` is an index into the code of
-- its chunk.
use joker_complier.Base.{ℕ, ◌+◌, ◌*◌, ◌%◌, ◌^◌, Outcome, ok, undefined, ◌>>=◌, ◌==◌, if◌then◌else◌}
use joker_complier.Memory.{load}
use joker_complier.Chunk.{Chunk, op_constant, op_constant_long}

module _ {ℓ} {V : Type ℓ} (chunk : Chunk V) where
  -- `*frame->ip++`
  unfoldable pub read_byte : ℕ → Outcome (ℕ × ℕ)
  read_byte ip = do b ← load chunk.code ip; ok (b, ip + 1)

  -- `(uint16_t)((high << 8) | low)`: the two bytes do not overlap, so `|` is `+`.
  unfoldable pub read_byte_long : ℕ → Outcome (ℕ × ℕ)
  read_byte_long ip = do
    (high, ip₁) ← read_byte ip
    (low, ip₂) ← read_byte ip₁
    ok ((high * 2 ^ 8 + low) % 2 ^ 16, ip₂)

  -- macro_read_short
  unfoldable pub read_short : ℕ → Outcome (ℕ × ℕ)
  read_short ip = do
    high ← load chunk.code ip
    low ← load chunk.code (ip + 1)
    ok (high * 2 ^ 8 + low, ip + 2)

  unfoldable pub read_constant : ℕ → Outcome (V × ℕ)
  read_constant ip = do
    (index, next) ← read_byte ip
    value ← load chunk.constants.values index
    ok (value, next)

  unfoldable pub read_constant_long : ℕ → Outcome (V × ℕ)
  read_constant_long ip = do
    (index, next) ← read_byte_long ip
    value ← load chunk.constants.values index
    ok (value, next)

  -- The dispatch of `run` on the two instructions that load a constant; the value is what they push.
  unfoldable pub run_constant : ℕ → Outcome (V × ℕ)
  run_constant ip = do
    (instruction, next) ← read_byte ip
    if instruction == op_constant
        then read_constant next
        else if instruction == op_constant_long
        then read_constant_long next
        else undefined
