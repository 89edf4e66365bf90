-- ===== src/Parse/Steady.antt =====
-- What the handlers that only write leave as it was, and what the moves do at a known token.
use joker_complier.Base.{
  ℕ, zero, suc, ◌+◌, ◌%◌, ◌^◌, if◌then◌else◌, Bool, true, false, Option, none, some, List, [], ◌∷◌,
  ◌++◌, Outcome, ok, panic, Bool-cases, inl, inr, ltb, undefined, out_of_fuel, ◌≡◌, refl, ap, sym,
  ◌∙◌, arith,
}
use joker_complier.Token.{Token, TokenType, same_type, token_eof}
use joker_complier.Compiler.Tokens.{Cursor}
use joker_complier.Compiler.Tokens
use joker_complier.Base
use joker_complier.Parse.State.{Parsing, M, continue, ◌>>◌}
use joker_complier.Chunk.{Chunk, write_constant, add_constant}
use joker_complier.Chunk.OpCode.{OpCode, code, op_get_global, op_set_global}
use joker_complier.Compiler.Emit.{Parser, emit_byte, patch_jump, uint16_max}
use joker_complier.Parse.State.{Constant, string_constant, return, skip}
use joker_complier.Parse.Moves.{
  error, at_end, advance, check, shift, match_token, consume, prev_token, emit, emit_checked, byte,
  operand, bytes, constant, jump, patch, flagged, with_chunk, with_compiler,
}
use joker_complier.Parse.Names.{make_constant, identifier_constant, resolve_local, resolve_upvalue}
use joker_complier.Parse.Variables.{
  access, local_access, outer_access, upvalue_access, global_access,
}
use joker_complier.Parse.Expressions.{curr_type}

abbrev pub curr : Parsing → List Token
curr s = s.cursor.curr

-- The state after the token that was the current one.
unfoldable pub moved : Token → List Token → Parsing → Parsing
moved t rest s = record s {
  cursor = record s.cursor { pprev = s.cursor.prev; prev = some t; curr = rest };
}

pub curr-moved : (t : Token) (rest : List Token) (s : Parsing) → curr (moved t rest s) ≡ rest
unfolding moved
curr-moved t rest s = refl

module _ (t : Token) (rest : List Token) (s : Parsing) (e : curr s ≡ t ∷ rest) where
  pub advance-moved : same_type t.type token_eof ≡ false → advance s ≡ ok (true, moved t rest s)
  unfolding advance moved
  advance-moved live = rw (e, live)

  pub shift-moved : same_type t.type token_eof ≡ false → shift s ≡ ok (tt, moved t rest s)
  unfolding shift advance moved
  shift-moved live = rw (e, live)

  pub at_end-eq : at_end s ≡ ok (same_type t.type token_eof, s)
  unfolding at_end Tokens.parse_is_at_end
  at_end-eq = rw e

  pub curr_type-eq : curr_type s ≡ ok (t.type, s)
  unfolding curr_type
  curr_type-eq = rw e

  pub check-eq : (type : TokenType) → check type s ≡ ok (same_type t.type type, s)
  unfolding check Tokens.parse_check
  check-eq type = rw e

  pub shift-end : same_type t.type token_eof ≡ true → shift s ≡ ok (tt, s)
  unfolding shift advance Tokens.parse_is_at_end
  shift-end end = rw (e, end)

  pub match_token-other :
      (type : TokenType) → same_type t.type type ≡ false → match_token type s ≡ ok (false, s)
  unfolding match_token Tokens.parse_check
  match_token-other type other = rw (e, other)

  pub consume-moved :
      (type : TokenType)
      → same_type t.type type ≡ true
      → same_type t.type token_eof ≡ false
      → consume type s ≡ ok (tt, moved t rest s)
  unfolding consume moved Tokens.parse_advance Tokens.parse_is_at_end
  consume-moved type found live = rw (e, found, live)

-- Where a handler that returns leaves the parser.
abbrev pub Leaves : {A : Type 0} → List Token → Outcome (A × Parsing) → Type 0
Leaves ts (ok (a, s)) = curr s ≡ ts
Leaves ts _ = Unit

module _ {A B : Type 0} where
  pub Leaves-continue :
      (ts us : List Token) (o : Outcome (A × Parsing)) (f : A → M B)
      → Leaves ts o
      → ((a : A) (s : Parsing) → curr s ≡ ts → Leaves us (f a s))
      → Leaves us (continue o f)
  Leaves-continue ts us (ok (a, s)) f h k = k a s h
  Leaves-continue ts us panic f h k = tt
  Leaves-continue ts us undefined f h k = tt
  Leaves-continue ts us out_of_fuel f h k = tt

  -- Two ways to go on that agree where the first handler leaves the parser.
  pub continue_cong :
      (ts : List Token) (o : Outcome (A × Parsing)) (f g : A → M B)
      → Leaves ts o
      → ((a : A) (s : Parsing) → curr s ≡ ts → f a s ≡ g a s)
      → continue o f ≡ continue o g
  continue_cong ts (ok (a, s)) f g h k = k a s h
  continue_cong ts panic f g h k = refl
  continue_cong ts undefined f g h k = refl
  continue_cong ts out_of_fuel f g h k = refl

pub continue_assoc :
    {A B C : Type 0} (o : Outcome (A × Parsing)) (f : A → M B) (g : B → M C)
    → continue (continue o f) g ≡ continue o (λ a s. continue (f a s) g)
continue_assoc (ok (a, s)) f g = refl
continue_assoc panic f g = refl
continue_assoc undefined f g = refl
continue_assoc out_of_fuel f g = refl

prev_token-Leaves : (s : Parsing) → Leaves (curr s) (prev_token s)
unfolding prev_token
prev_token-Leaves s = at s.cursor.prev
  where
    at :
        (o : Option Token)
        → Leaves
            (curr s)
            (elim o as (λ _. Outcome (Token × Parsing)) [ none ↦ undefined | some t ↦ ok (t, s) ])
    at none = tt
    at (some t) = refl

module _ (ts : List Token) (write : Parser → Chunk Constant → Outcome (Chunk Constant)) where
  written :
      (s : Parsing) (o : Outcome (Chunk Constant))
      → curr s ≡ ts
      → Leaves ts (Base.◌>>=◌ o λ c. ok (tt, with_chunk s c))
  unfolding with_chunk
  written s (ok c) h = h
  written s panic h = tt
  written s undefined h = tt
  written s out_of_fuel h = tt

  pub emit-Leaves : (s : Parsing) → curr s ≡ ts → Leaves ts (emit write s)
  unfolding emit
  emit-Leaves s h =
      Leaves-continue ts ts (prev_token s) _ (rw (← h) (prev_token-Leaves s))
        λ t s' k. written s' _ k

module _ (ts : List Token)
    (write : Parser → Chunk Constant → Outcome (Parser × Chunk Constant)) where
  checked :
      (s : Parsing) (o : Outcome (Parser × Chunk Constant))
      → curr s ≡ ts
      → Leaves ts (Base.◌>>=◌ o λ (self, c). ok (tt, with_chunk (flagged s self) c))
  unfolding with_chunk flagged
  checked s (ok (self, c)) h = h
  checked s panic h = tt
  checked s undefined h = tt
  checked s out_of_fuel h = tt

  pub emit_checked-Leaves : (s : Parsing) → curr s ≡ ts → Leaves ts (emit_checked write s)
  unfolding emit_checked
  emit_checked-Leaves s h =
      Leaves-continue ts ts (prev_token s) _ (rw (← h) (prev_token-Leaves s))
        λ t s' k. checked s' _ k

module _ (ts : List Token) where
  pub byte-Leaves : (opcode : OpCode) (s : Parsing) → curr s ≡ ts → Leaves ts (byte opcode s)
  unfolding byte
  byte-Leaves opcode s h = emit-Leaves ts (λ self chunk. emit_byte self chunk (code opcode)) s h

  operand-Leaves : (value : ℕ) (s : Parsing) → curr s ≡ ts → Leaves ts (operand value s)
  unfolding operand
  operand-Leaves value s h = emit-Leaves ts (λ self chunk. emit_byte self chunk (value % 2 ^ 8)) s h

  pub bytes-Leaves :
      (opcode : OpCode) (value : ℕ) (s : Parsing) → curr s ≡ ts → Leaves ts (bytes opcode value s)
  unfolding bytes
  bytes-Leaves opcode value s h =
      Leaves-continue ts ts (byte opcode s) _ (byte-Leaves opcode s h)
        λ u s' k. operand-Leaves value s' k

  pub constant-Leaves :
      (value : Constant) (s : Parsing) → curr s ≡ ts → Leaves ts (constant value s)
  unfolding constant
  constant-Leaves value s h =
      emit-Leaves ts (λ self chunk. write_constant chunk value self.line) s h

  pub patch-Leaves : (place : ℕ) (s : Parsing) → curr s ≡ ts → Leaves ts (patch place s)
  unfolding patch
  patch-Leaves place s h = emit_checked-Leaves ts (λ self chunk. patch_jump self chunk place) s h

  placed :
      (s : Parsing) (o : Outcome (ℕ × Chunk Constant))
      → curr s ≡ ts
      → Leaves ts (Base.◌>>=◌ o λ (n, c). ok (n, with_chunk s c))
  unfolding with_chunk
  placed s (ok (n, c)) h = h
  placed s panic h = tt
  placed s undefined h = tt
  placed s out_of_fuel h = tt

  pub jump-Leaves : (opcode : OpCode) (s : Parsing) → curr s ≡ ts → Leaves ts (jump opcode s)
  unfolding jump
  jump-Leaves opcode s h =
      Leaves-continue ts ts (prev_token s) _ (rw (← h) (prev_token-Leaves s))
        λ t s' k. placed s' _ k

  error-Leaves : (s : Parsing) → curr s ≡ ts → Leaves ts (error s)
  unfolding error
  error-Leaves s h = elim (Bool-cases s.cursor.panic_mode) [ inl on ↦ rw on h | inr off ↦ rw off h ]

  make_constant-Leaves :
      (value : Constant) (s : Parsing) → curr s ≡ ts → Leaves ts (make_constant value s)
  unfolding make_constant
  make_constant-Leaves value s h =
      Leaves-continue ts ts (pooled s) rest (placed s (add_constant s.current.chunk value) h) goes
    where
      pooled : M ℕ
      pooled s' =
          Base.◌>>=◌ (add_constant s'.current.chunk value) λ (i, chunk). ok (i, with_chunk s' chunk)

      rest : ℕ → M ℕ
      rest index = do if ltb uint16_max index then error else skip; return index

      goes : (index : ℕ) (s' : Parsing) → curr s' ≡ ts → Leaves ts (rest index s')
      goes index s' k = elim (Bool-cases (ltb uint16_max index)) [
        | inl big ↦
            rw big (
              Leaves-continue ts ts (error s') (λ u. return index) (error-Leaves s' k) λ u s'' l. l)
        | inr small ↦ rw small k
      ]

  local-Leaves : (name : Token) (s : Parsing) → curr s ≡ ts → Leaves ts (resolve_local name s)
  unfolding resolve_local flagged
  local-Leaves name s h = h

  upvalue-Leaves : (name : Token) (s : Parsing) → curr s ≡ ts → Leaves ts (resolve_upvalue name s)
  unfolding resolve_upvalue flagged with_compiler
  upvalue-Leaves name s h = h

  global-Leaves : (name : Token) (s : Parsing) → curr s ≡ ts → Leaves ts (global_access name s)
  unfolding global_access identifier_constant
  global-Leaves name s h =
      Leaves-continue ts ts (make_constant (string_constant name.lexeme) s)
        (λ i. return (op_get_global, op_set_global, i))
        (make_constant-Leaves (string_constant name.lexeme) s h) λ i s' k. k

  outer-Leaves : (name : Token) (s : Parsing) → curr s ≡ ts → Leaves ts (outer_access name s)
  unfolding outer_access
  outer-Leaves name s h =
      Leaves-continue ts ts (resolve_upvalue name s) (upvalue_access name) (upvalue-Leaves name s h)
        goes
    where
      goes : (i : Option ℕ) (s' : Parsing) → curr s' ≡ ts → Leaves ts (upvalue_access name i s')
      goes (some i) s' k = k
      goes none s' k = global-Leaves name s' k

  pub access-Leaves : (name : Token) (s : Parsing) → curr s ≡ ts → Leaves ts (access name s)
  unfolding access
  access-Leaves name s h =
      Leaves-continue ts ts (resolve_local name s) (local_access name) (local-Leaves name s h) goes
    where
      goes : (i : Option ℕ) (s' : Parsing) → curr s' ≡ ts → Leaves ts (local_access name i s')
      goes (some i) s' k = k
      goes none s' k = outer-Leaves name s' k
