-- ===== src/Parse/State.antt =====
-- include/parser.h, include/compiler.h and include/class_compiler.h: what the handlers of src/parser.c
-- read and change. The chain of compilers is the current one and the list of those around it, each
-- with the chunk, the arity and the name of its function; the class compilers are their flags
-- `has_superclass`. A string of the constant pool is its text, a float the text that `strtof` or
-- `strtod` reads, and a function its number in the order in which functions are finished.
use joker_complier.Base.{ℕ, Bool, Option, none, List, []}
pub use joker_complier.Base.Action.{
  Action, continue, ◌>>=◌, ◌>>◌, return, fail, exhausted, crash, skip,
}
use joker_complier.Base.Int.{ℤ}
use joker_complier.Chunk.{Chunk, init_chunk}
use joker_complier.Token.{Token}
use joker_complier.Compiler.Tokens.{Cursor}
use joker_complier.Compiler.Scope.{Compiler, type_script, init_compiler}
use joker_complier.Compiler.Tokens

pub data Constant : Type 0 where
  i32_constant i64_constant : ℤ → Constant
  f32_constant f64_constant string_constant : List ℕ → Constant
  fn_constant : ℕ → Constant

-- `Fn`: the script has no name.
pub record Fn : Type 0 where
  pub arity : ℕ
  pub chunk : Chunk Constant
  pub name : Option (List ℕ)
  pub upvalue_count : ℕ

-- `Compiler` with its `fn`.
pub record FnCompiler : Type 0 where
  pub compiler : Compiler
  pub chunk : Chunk Constant
  pub arity : ℕ
  pub name : Option (List ℕ)

pub record Parsing : Type 0 where
  pub cursor : Cursor
  pub current : FnCompiler
  pub enclosing : List FnCompiler
  pub classes : List Bool
  pub functions : List Fn

-- A handler of the parser.
abbrev pub M : Type 0 → Type 0
M A = Action Parsing A

-- The state of the parser at the first token, in the script.
unfoldable pub start : List Token → Parsing
unfolding Tokens.init_parser init_compiler init_chunk
start tokens = record {
  cursor = Tokens.init_parser tokens;
  current = record {
    compiler = init_compiler type_script;
    chunk = init_chunk;
    arity = 0;
    name = none;
  };
  enclosing = [];
  classes = [];
  functions = [];
}
