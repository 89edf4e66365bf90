-- ===== src/Compiler/Jumps.antt =====
-- The jumps that src/parser.c emits are the ones that src/vm.c takes.
use joker_complier.Base.{
  ℕ, ◌+◌, ◌-◌, ◌/◌, ◌%◌, ◌^◌, ◌≤◌, ◌≡◌, ◌∙◌, false, true, List, [], ◌∷◌, ◌++◌, arith, ok, ltb, leb,
  length, length-append,
}
use joker_complier.Chunk.{Chunk}
use joker_complier.Chunk.Write.{HoldsChunk, write_codes, write_codes-HoldsChunk}
use joker_complier.Compiler.Emit.{Parser, emit_jump, patch_jump, emit_back, uint16_max}
use joker_complier.Vm.Fetch.{read_short}
use joker_complier.Vm.Jumps.{handle_op_jump, handle_op_jump_if_false, handle_op_loop}
use joker_complier.Compiler.Operand.{
  length-recode, emit_jump-HoldsChunk, patch_jump-HoldsChunk, write_three, read_short-appended,
}

-- What a jump over `body` does: the parser emits the jump, then the body, then it patches the jump.
-- Nothing is undefined and no error is reported where the body has at most 65535 codes. On the
-- patched chunk, op_jump and a taken op_jump_if_false go on behind the body, and an
-- op_jump_if_false not taken goes on with the body's first code.
pub patch_jump-handle_op_jump :
    (self : Parser) (c : Chunk ℕ) (log body : List (ℕ × ℕ)) (op : ℕ)
    → HoldsChunk c log
    → length body ≤ uint16_max
    → (c₁ : Chunk ℕ) × (c₂ : Chunk ℕ) × (c₃ : Chunk ℕ) × (emit_jump self c op
        ≡ ok (c.count + 1, c₁))
      × (write_codes c₁ body ≡ ok c₂)
      × (patch_jump self c₂ (c.count + 1) ≡ ok (self, c₃))
      × (handle_op_jump c₃ (c.count + 1) ≡ ok c₃.count)
      × (handle_op_jump_if_false c₃ true (c.count + 1) ≡ ok c₃.count)
      × (handle_op_jump_if_false c₃ false (c.count + 1) ≡ ok (c.count + 3))
      × (c₃.count ≡ c.count + 3 + length body)
unfolding handle_op_jump handle_op_jump_if_false
patch_jump-handle_op_jump self c log body op h near =
    let (c₁, e₁, h₁) = emit_jump-HoldsChunk self c log op h in
    let front = log ++ (op, self.line) ∷ (0xff, self.line) ∷ (0xff, self.line) ∷ [] in
    let (c₂, e₂, h₂, _) = write_codes-HoldsChunk c₁ front body h₁ in
    let size : length (front ++ body) ≡ length log + 3 + length body = omega (
      arith,
      length-append front body,
      length-append log ((op, self.line) ∷ (0xff, self.line) ∷ (0xff, self.line) ∷ []),
    ) in
    let (c₃, e₃, h₃, read) =
      patch_jump-HoldsChunk self c₂ (front ++ body) (c.count + 1) h₂ (omega (arith, h.counted))
        (omega (arith, h.counted)) in
    let count : c₃.count ≡ length (front ++ body) =
      h₃.counted ∙ length-recode _ _ _ ∙ length-recode _ _ _ in
    let jump : c.count + 1 + 2 + (length (front ++ body) - (c.count + 1) - 2) ≡ c₃.count =
      omega (arith, h.counted) in
    let next : c.count + 1 + 2 ≡ c.count + 3 = omega arith in
    (
      c₁,
      c₂,
      c₃,
      e₁,
      e₂,
      e₃,
      rw (read, jump),
      rw (read, jump),
      rw (read, next),
      omega (arith, h.counted),
    )

-- A loop back: op_loop and op_continue, emitted where the code has grown by at most 65532 codes
-- since `loop_start`, report no error, and the machine at their operand goes on at `loop_start`.
pub emit_back-handle_op_loop :
    (opcode : ℕ) (self : Parser) (c : Chunk ℕ) (log : List (ℕ × ℕ)) (loop_start : ℕ)
    → HoldsChunk c log
    → loop_start ≤ c.count
    → c.count ≤ loop_start + 65532
    → (c' : Chunk ℕ) × (emit_back opcode self c loop_start ≡ ok (self, c'))
      × (handle_op_loop c' (c.count + 1) ≡ ok loop_start)
      × (c'.count ≡ c.count + 3)
unfolding emit_back handle_op_loop
emit_back-handle_op_loop opcode self c log loop_start h back near =
    let offset = c.count + 1 - loop_start + 2 in
    let (c₁, c₂, c₃, e₁, e₂, e₃, n₁, n₃, h') =
      write_three c log (opcode, self.line) (offset / 2 ^ 8 % 2 ^ 8, self.line)
        (offset % 2 ^ 8, self.line) h in
    let short : ltb uint16_max offset ≡ false = ground arith in
    let read : read_short c₃ (c.count + 1) ≡ ok (offset, c.count + 1 + 2) =
      read_short-appended c₃ log (opcode, self.line) self.line c.count offset h' h.counted
        (omega arith) in
    let enough : leb offset (c.count + 1 + 2) ≡ true = ground arith in
    let at : c.count + 1 + 2 - offset ≡ loop_start = omega arith in
    (c₃, rw (e₁, n₁, short, e₂, e₃), rw (read, enough, at), n₃)
