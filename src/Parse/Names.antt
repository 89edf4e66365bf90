-- ===== src/Parse/Names.antt =====
-- src/parser.c and src/compiler.c: constants, names, scopes, loops and the compilers of functions, as
-- handlers of the parser.
use joker_complier.Base.{
  ℕ, ◌+◌, ◌-◌, ◌%◌, ◌^◌, Bool, true, false, Option, none, some, List, [], ◌∷◌, ◌++◌, Outcome, ok,
  panic, undefined, ltb, ◌==◌, if◌then◌else◌, length, map,
}
use joker_complier.Base
use joker_complier.Chunk.{add_constant, init_chunk}
use joker_complier.Chunk.OpCode.{op_get_local, op_return, op_define_global}
use joker_complier.Token.{Token}
use joker_complier.Compiler.Emit.{Parser, uint16_max}
use joker_complier.Compiler.Scope
use joker_complier.Compiler.Scope.{
  Compiler, Loop, FnType, type_fn, type_method, type_lambda, type_initializer, type_script,
  init_compiler, is_script,
}
use joker_complier.Parse.State.{
  Constant, string_constant, FnCompiler, Parsing, M, ◌>>=◌, ◌>>◌, return, skip,
}
use joker_complier.Parse.Moves.{
  error, prev_token, emitter, flagged, with_chunk, with_compiler, byte, bytes,
}

-- `make_constant`
unfoldable pub make_constant : Constant → M ℕ
unfolding with_chunk error
make_constant value = do
  index ←
      λ s. Base.◌>>=◌ (add_constant s.current.chunk value) λ (i, chunk). ok (i, with_chunk s chunk)
  if ltb uint16_max index then error else skip
  return index

-- `identifier_constant`: the string of the text of the token
unfoldable pub identifier_constant : Token → M ℕ
unfolding make_constant
identifier_constant token = make_constant (string_constant token.lexeme)

-- The parser as the functions on scopes see it, which read its flags only.
abbrev pub parser : Parsing → Parser
parser s = record { line = 0; had_error = s.cursor.had_error; panic_mode = s.cursor.panic_mode }

-- `declare_variable`
unfoldable pub declare : Token → M (Unit {0})
unfolding flagged with_compiler
declare name s =
    let (self, compiler) = Scope.declare_variable (parser s) s.current.compiler name in
    ok (tt, with_compiler (flagged s self) compiler)

-- `add_local`
unfoldable pub add_local : Token → M (Unit {0})
unfolding flagged with_compiler
add_local name s =
    let (self, compiler) = Scope.add_local (parser s) s.current.compiler name in
    ok (tt, with_compiler (flagged s self) compiler)

abbrev pub change_compiler : (Compiler → Compiler) → M (Unit {0})
change_compiler f s =
    ok (tt, record s { current = record s.current { compiler = f s.current.compiler } })

-- `mark_initialized`
unfoldable pub mark_initialized : M (Unit {0})
mark_initialized = change_compiler Scope.mark_initialized

unfoldable pub scope_depth : M ℕ
scope_depth s = ok (s.current.compiler.scope_depth, s)

unfoldable pub fn_type : M FnType
fn_type s = ok (s.current.compiler.fn_type, s)

-- `define_variable`
unfoldable pub define_variable : ℕ → M (Unit {0})
unfolding mark_initialized scope_depth bytes
define_variable index = do
  depth ← scope_depth
  if ltb 0 depth then mark_initialized else bytes op_define_global index

-- `resolve_local`
unfoldable pub resolve_local : Token → M (Option ℕ)
unfolding flagged
resolve_local name s =
    let (self, index) = Scope.resolve_local (parser s) s.current.compiler name in
    ok (index, flagged s self)

abbrev pub compilers : List FnCompiler → List Compiler
compilers [] = []
compilers (f ∷ fs) = f.compiler ∷ compilers fs

abbrev pub set_compilers : List FnCompiler → List Compiler → List FnCompiler
set_compilers (f ∷ fs) (c ∷ cs) = record f { compiler = c } ∷ set_compilers fs cs
set_compilers fs _ = fs

-- `resolve_upvalue`
unfoldable pub resolve_upvalue : Token → M (Option ℕ)
unfolding flagged with_compiler
resolve_upvalue name s =
    let (self, compiler, outers, index) =
      Scope.resolve_upvalue (parser s) s.current.compiler (compilers s.enclosing) name in
    ok (
      index,
      record (with_compiler (flagged s self) compiler) {
        enclosing = set_compilers s.enclosing outers;
      },
    )

-- `begin_scope`
unfoldable pub begin_scope : M (Unit {0})
begin_scope = change_compiler Scope.begin_scope

-- `compile_end_scope`
unfoldable pub compile_end_scope : M (Unit {0})
compile_end_scope = change_compiler λ c. record c { scope_depth = c.scope_depth - 1 }

-- `end_scope`
unfoldable pub end_scope : M (Unit {0})
unfolding prev_token emitter with_chunk with_compiler
end_scope = do
  token ← prev_token
  λ s.
      Base.◌>>=◌ (Scope.end_scope (emitter s.cursor token.line) s.current.compiler s.current.chunk)
        λ (compiler, chunk). ok (tt, with_chunk (with_compiler s compiler) chunk)

-- `begin_loop`
unfoldable pub begin_loop : ℕ → M (Unit {0})
begin_loop start = change_compiler λ c. Scope.begin_loop c start

-- `end_loop`
unfoldable pub end_loop : M (Unit {0})
unfolding with_compiler
end_loop s =
    Base.◌>>=◌ (Scope.end_loop s.current.compiler) λ compiler. ok (tt, with_compiler s compiler)

-- `vm->compiler->loop`
unfoldable pub current_loop : M (Option Loop)
current_loop s = ok (elim s.current.compiler.loops [ [] ↦ none | l ∷ ls ↦ some l ], s)

-- `curr_chunk(vm->compiler)->count`
unfoldable pub code_count : M ℕ
code_count s = ok (s.current.chunk.count, s)

-- `emit_return`
unfoldable pub emit_return : M (Unit {0})
unfolding fn_type byte bytes
emit_return = do
  type ← fn_type
  elim type [ type_initializer ↦ bytes op_get_local 0 | _ ↦ skip ]
  byte op_return

-- `curr_into_sub_compiler`
unfoldable pub curr_into_sub_compiler : FnType → M (Unit {0})
unfolding prev_token init_compiler init_chunk
curr_into_sub_compiler type = do
  token ← prev_token
  λ s. ok (
    tt,
    record s {
      current = record {
        compiler = init_compiler type;
        chunk = init_chunk;
        arity = 0;
        name = if is_script type then none else some token.lexeme;
      };
      enclosing = s.current ∷ s.enclosing;
    },
  )

-- `curr_from_sub_compiler` of a function inside another: its number, and the upvalues of its
-- compiler.
unfoldable pub curr_from_sub_compiler : M (ℕ × List ℕ)
unfolding emit_return
curr_from_sub_compiler = do
  emit_return
  λ s. elim s.enclosing [
    | [] ↦ undefined
    | outer ∷ outers ↦ ok (
      (length s.functions, s.current.compiler.upvalues),
      record s {
        current = outer;
        enclosing = outers;
        functions =
            s.functions
            ++ record {
              arity = s.current.arity;
              chunk = s.current.chunk;
              name = s.current.name;
              upvalue_count = length s.current.compiler.upvalues;
            }
              ∷ [];
      },
    )
  ]
