-- ===== src/Compiler.antt =====
-- include/compiler.h, src/compiler.c and the part of src/parser.c between the tokens and the
-- bytecode: jumps, scopes, locals and upvalues.
pub mod Emit
pub mod Tokens
pub mod Sync
pub mod Operand
pub mod Jumps
pub mod Scope
pub mod Locals
pub mod Pops
mod Tests
