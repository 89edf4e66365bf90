-- ===== src/Compiler/Emit.antt =====
-- src/parser.c: what the parser writes into a chunk. The parser keeps the line of its last token and
-- its two error flags; the messages are not kept. Offsets are `int`s of the source that are not
-- negative, and `>> 8`, `& 0xff` are the quotient and the remainder by 256.
use joker_complier.Base.{
  ℕ, ◌+◌, ◌-◌, ◌/◌, ◌%◌, ◌^◌, Bool, true, Outcome, ok, ◌>>=◌, ltb, if◌then◌else◌,
}
use joker_complier.Memory.{store}
use joker_complier.Chunk.{Chunk, write_chunk}

pub record Parser : Type 0 where
  pub line : ℕ
  pub had_error : Bool
  pub panic_mode : Bool

-- `parse_error_at_curr`: an error in panic mode is dropped.
abbrev pub parse_error : Parser → Parser
parse_error self =
    if self.panic_mode then self else record self { panic_mode = true; had_error = true }

abbrev pub uint16_max : ℕ
uint16_max = 2 ^ 16 - 1

abbrev pub op_pop : ℕ
op_pop = 0

abbrev pub op_jump_if_false : ℕ
op_jump_if_false = 39

abbrev pub op_jump_if_neq : ℕ
op_jump_if_neq = 40

abbrev pub op_jump : ℕ
op_jump = 41

abbrev pub op_loop : ℕ
op_loop = 42

abbrev pub op_continue : ℕ
op_continue = 49

abbrev pub op_close_upvalue : ℕ
op_close_upvalue = 45

module _ {ℓ} {V : Type ℓ} where
  abbrev pub emit_byte : Parser → Chunk V → ℕ → Outcome (Chunk V)
  emit_byte self chunk byte = write_chunk chunk byte self.line

  -- `emit_jump`: the index of the two bytes that `patch_jump` fills in.
  unfoldable pub emit_jump : Parser → Chunk V → ℕ → Outcome (ℕ × Chunk V)
  emit_jump self chunk opcode = do
    c₁ ← emit_byte self chunk opcode
    c₂ ← emit_byte self c₁ 0xff
    c₃ ← emit_byte self c₂ 0xff
    ok (c₃.count - 2, c₃)

  -- `patch_jump`: an offset that is too great is an error, and its low 16 bits are written.
  unfoldable pub patch_jump : Parser → Chunk V → ℕ → Outcome (Parser × Chunk V)
  patch_jump self chunk offset = do
    let jump = chunk.count - offset - 2
    let self' = if ltb uint16_max jump then parse_error self else self
    code ← store chunk.code offset (jump / 2 ^ 8 % 2 ^ 8)
    code' ← store code (offset + 1) (jump % 2 ^ 8)
    ok (self', record chunk { code = code' })

  -- The body that `emit_loop` and `emit_continue` share.
  unfoldable pub emit_back : ℕ → Parser → Chunk V → ℕ → Outcome (Parser × Chunk V)
  emit_back opcode self chunk loop_start = do
    c₁ ← emit_byte self chunk opcode
    let offset = c₁.count - loop_start + 2
    let self' = if ltb uint16_max offset then parse_error self else self
    c₂ ← emit_byte self' c₁ (offset / 2 ^ 8 % 2 ^ 8)
    c₃ ← emit_byte self' c₂ (offset % 2 ^ 8)
    ok (self', c₃)

  abbrev pub emit_loop : Parser → Chunk V → ℕ → Outcome (Parser × Chunk V)
  emit_loop = emit_back op_loop

  abbrev pub emit_continue : Parser → Chunk V → ℕ → Outcome (Parser × Chunk V)
  emit_continue = emit_back op_continue
