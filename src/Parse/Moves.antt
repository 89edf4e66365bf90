-- ===== src/Parse/Moves.antt =====
-- src/parser.c: the moves over the tokens and what is written into the chunk of the current function,
-- as handlers. An error sets the flags of the parser; its message is not kept.
use joker_complier.Base.{
  ℕ, ◌+◌, ◌-◌, ◌%◌, ◌^◌, Bool, true, false, Option, none, some, List, [], ◌∷◌, ◌++◌, Outcome, ok,
  panic, undefined, ltb, ◌==◌, if◌then◌else◌, length, map,
}
use joker_complier.Base
use joker_complier.Chunk.{Chunk, write_constant}
use joker_complier.Chunk.OpCode.{OpCode, code}
use joker_complier.Token.{Token, TokenType}
use joker_complier.Compiler.Emit.{
  Parser, emit_byte, emit_jump, patch_jump, emit_loop, emit_continue,
}
use joker_complier.Compiler.Scope.{Compiler}
use joker_complier.Compiler.Tokens.{Cursor, report, parse_is_at_end, parse_advance, parse_check}
use joker_complier.Compiler.Tokens
use joker_complier.Parse.State.{Constant, Parsing, M, ◌>>=◌, ◌>>◌, return, skip}

-- `parse_error_at_curr` and `parse_error_at_prev`
unfoldable pub error : M (Unit {0})
unfolding report
error s = ok (tt, record s { cursor = report s.cursor })

-- `parse_is_at_end`
unfoldable pub at_end : M Bool
at_end s = let (b, c) = parse_is_at_end s.cursor in ok (b, record s { cursor = c })

-- `parse_advance`, with whether there was a token
unfoldable pub advance : M Bool
unfolding parse_advance parse_is_at_end
advance s =
    let (token, c) = parse_advance s.cursor in
    let found : Bool = elim token [ none ↦ false | some t ↦ true ] in
    ok (found, record s { cursor = c })

-- `parse_advance` where its result is not used
unfoldable pub shift : M (Unit {0})
unfolding advance
shift = advance >>= λ _. skip

-- `parse_check`
unfoldable pub check : TokenType → M Bool
unfolding parse_check
check type s = ok (parse_check s.cursor type, s)

-- Whether one of the checks succeeds, from left to right.
unfoldable pub check_any : List TokenType → M Bool
check_any [] = return false
check_any (type ∷ types) = do b ← check type; if b then return true else check_any types

-- `parse_match`
unfoldable pub match_token : TokenType → M Bool
unfolding Tokens.parse_match
match_token type s =
    let (b, c) = Tokens.parse_match s.cursor type in ok (b, record s { cursor = c })

-- `parse_consume`
unfoldable pub consume : TokenType → M (Unit {0})
unfolding Tokens.parse_consume
consume type s =
    Base.◌>>=◌ (Tokens.parse_consume s.cursor type) λ c. ok (tt, record s { cursor = c })

-- `self->prev`, whose fields are read without a test for NULL
unfoldable pub prev_token : M Token
prev_token s = elim s.cursor.prev [ none ↦ undefined | some token ↦ ok (token, s) ]

-- The parser as the emitting functions see it: the line is that of `self->prev`.
unfoldable pub emitter : Cursor → ℕ → Parser
emitter cursor line = record {
  line = line;
  had_error = cursor.had_error;
  panic_mode = cursor.panic_mode;
}

-- The flags of the parser written back.
unfoldable pub flagged : Parsing → Parser → Parsing
flagged s self = record s {
  cursor = record s.cursor { had_error = self.had_error; panic_mode = self.panic_mode };
}

unfoldable pub with_chunk : Parsing → Chunk Constant → Parsing
with_chunk s chunk = record s { current = record s.current { chunk = chunk } }

unfoldable pub with_compiler : Parsing → Compiler → Parsing
with_compiler s compiler = record s { current = record s.current { compiler = compiler } }

-- A function that writes into the current chunk.
unfoldable pub emit : (Parser → Chunk Constant → Outcome (Chunk Constant)) → M (Unit {0})
unfolding emitter with_chunk prev_token
emit write = do
  token ← prev_token
  λ s.
      Base.◌>>=◌ (write (emitter s.cursor token.line) s.current.chunk)
        λ chunk. ok (tt, with_chunk s chunk)

-- One that also may report an error at the current token.
unfoldable pub emit_checked :
    (Parser → Chunk Constant → Outcome (Parser × Chunk Constant)) → M (Unit {0})
unfolding emitter with_chunk prev_token flagged
emit_checked write = do
  token ← prev_token
  λ s.
      Base.◌>>=◌ (write (emitter s.cursor token.line) s.current.chunk)
        λ (self, chunk). ok (tt, with_chunk (flagged s self) chunk)

-- `emit_byte` of an operand, which is a `uint8_t`
unfoldable pub operand : ℕ → M (Unit {0})
unfolding emit
operand value = emit λ self chunk. emit_byte self chunk (value % 2 ^ 8)

-- `emit_byte(self, curr_chunk(vm->compiler), opcode)`
unfoldable pub byte : OpCode → M (Unit {0})
unfolding emit
byte opcode = emit λ self chunk. emit_byte self chunk (code opcode)

-- `emit_bytes`: the operand is a `uint8_t`.
unfoldable pub bytes : OpCode → ℕ → M (Unit {0})
unfolding byte operand
bytes opcode value = do byte opcode; operand value

-- `emit_constant`
unfoldable pub constant : Constant → M (Unit {0})
unfolding emit
constant value = emit λ self chunk. write_constant chunk value self.line

-- `emit_jump`: the place of the offset
unfoldable pub jump : OpCode → M ℕ
unfolding emitter with_chunk prev_token
jump opcode = do
  token ← prev_token
  λ s.
      Base.◌>>=◌ (emit_jump (emitter s.cursor token.line) s.current.chunk (code opcode))
        λ (place, chunk). ok (place, with_chunk s chunk)

-- `patch_jump`
unfoldable pub patch : ℕ → M (Unit {0})
unfolding emit_checked
patch offset = emit_checked λ self chunk. patch_jump self chunk offset

-- `emit_loop`
unfoldable pub loop_back : ℕ → M (Unit {0})
unfolding emit_checked
loop_back start = emit_checked λ self chunk. emit_loop self chunk start

-- `emit_continue`
unfoldable pub continue_back : ℕ → M (Unit {0})
unfolding emit_checked
continue_back start = emit_checked λ self chunk. emit_continue self chunk start
