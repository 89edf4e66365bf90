-- ===== src/Compiler/Tests.antt =====
-- src/parser.c on a short chunk and a function with one local.
use joker_complier.Base.{
  ℕ, ◌+◌, ◌-◌, ◌%◌, ◌^◌, true, false, ◌||◌, List, [], ◌∷◌, ok, ◌≡◌, refl, arith, none, some, length,
  leb,
}
use joker_complier.Chunk.{Chunk, init_chunk}
use joker_complier.Chunk.Write.{init_chunk-HoldsChunk, write_codes}
use joker_complier.Token.{Token, make_token, equal_token, token_identifier}
use joker_complier.Compiler.Emit.{Parser, emit_jump, patch_jump, emit_back, op_jump, op_loop}
use joker_complier.Compiler.Jumps.{patch_jump-handle_op_jump, emit_back-handle_op_loop}
use joker_complier.Compiler.Scope.{
  Compiler, LocalVariable, type_fn, resolve_local, declare_variable, mark_initialized, end_scope,
  new_upvalue_info, read_upvalue_info,
}
use joker_complier.Compiler.Locals.{
  Resolves, resolve_local-Resolves, Declares, declare_variable-resolve_local,
}
use joker_complier.Compiler.Pops.{Popped, end_scope-Popped, read_upvalue_info-new_upvalue_info}
use joker_complier.Compiler.Tokens.{Cursor, synchronize}
use joker_complier.Compiler.Sync.{Recovered, synchronize-Recovered}
use joker_complier.Vm.Jumps.{handle_op_jump, handle_op_jump_if_false, handle_op_loop}

abbrev new_chunk : Chunk ℕ
new_chunk = init_chunk

abbrev parser : Parser
parser = record { line = 1; had_error = false; panic_mode = false }

abbrev two_codes : List (ℕ × ℕ)
two_codes = (5, 1) ∷ (0, 1) ∷ []

patch_jump-handle_op_jump_example :
    (c₁ : Chunk ℕ) × (c₂ : Chunk ℕ) × (c₃ : Chunk ℕ) × (emit_jump parser new_chunk op_jump
      ≡ ok (new_chunk.count + 1, c₁))
    × (write_codes c₁ two_codes ≡ ok c₂)
    × (patch_jump parser c₂ (new_chunk.count + 1) ≡ ok (parser, c₃))
    × (handle_op_jump c₃ (new_chunk.count + 1) ≡ ok c₃.count)
    × (handle_op_jump_if_false c₃ true (new_chunk.count + 1) ≡ ok c₃.count)
    × (handle_op_jump_if_false c₃ false (new_chunk.count + 1) ≡ ok (new_chunk.count + 3))
    × (c₃.count ≡ new_chunk.count + 3 + length two_codes)
patch_jump-handle_op_jump_example =
    patch_jump-handle_op_jump parser new_chunk [] two_codes op_jump init_chunk-HoldsChunk
      (omega arith)

emit_back-handle_op_loop_example :
    (c' : Chunk ℕ) × (emit_back op_loop parser new_chunk 0 ≡ ok (parser, c'))
    × (handle_op_loop c' (new_chunk.count + 1) ≡ ok 0)
    × (c'.count ≡ new_chunk.count + 3)
unfolding init_chunk
emit_back-handle_op_loop_example =
    emit_back-handle_op_loop op_loop parser new_chunk [] 0 init_chunk-HoldsChunk (omega arith)
      (omega arith)

abbrev name_of : ℕ → Token
name_of c = record { lexeme = c ∷ []; line = 1; type = token_identifier }

abbrev in_block : Compiler
in_block = record {
  locals = record { name = name_of 97; depth = some 0; is_captured = false } ∷ [];
  scope_depth = 1;
  fn_type = type_fn;
  upvalues = [];
  loops = [];
}

resolve_local-Resolves_example :
    Resolves in_block.locals
      (name_of 97)
      (length in_block.locals)
      parser
      (resolve_local parser in_block (name_of 97))
resolve_local-Resolves_example = resolve_local-Resolves parser in_block (name_of 97)

declare_variable-resolve_local_example :
    Declares in_block.locals in_block.scope_depth
      (name_of 98)
      (length in_block.locals)
      parser
      (declare_variable parser in_block (name_of 98)).0
    × (resolve_local parser
          (mark_initialized (declare_variable parser in_block (name_of 98)).1)
          (name_of 98)
        ≡ (parser, some 1))
    × (resolve_local parser
          (mark_initialized (declare_variable parser in_block (name_of 98)).1)
          (name_of 97)
        ≡ resolve_local parser in_block (name_of 97))
unfolding equal_token make_token
declare_variable-resolve_local_example =
    declare_variable-resolve_local parser in_block (name_of 98) (name_of 97) refl (omega arith) refl
      parser

end_scope-Popped_example :
    (kept : List LocalVariable) × (c' : Chunk ℕ) × (end_scope parser in_block new_chunk
      ≡ ok (record in_block { scope_depth = in_block.scope_depth - 1; locals = kept }, c'))
    × Popped parser (in_block.scope_depth - 1) in_block.locals kept [] c'
end_scope-Popped_example = end_scope-Popped parser in_block new_chunk [] init_chunk-HoldsChunk

read_upvalue_info-new_upvalue_info_example :
    read_upvalue_info (new_upvalue_info 130 true) ≡ (true || leb (2 ^ 7) 130, 130 % 2 ^ 7)
read_upvalue_info-new_upvalue_info_example =
    read_upvalue_info-new_upvalue_info 130 true (omega arith)

abbrev in_error : Cursor
in_error = record {
  prev = some (name_of 97);
  pprev = none;
  curr = name_of 98 ∷ [];
  had_error = true;
  panic_mode = true;
}

synchronize-Recovered_example : Recovered (name_of 97) in_error (synchronize in_error)
synchronize-Recovered_example = synchronize-Recovered in_error (name_of 97) refl
