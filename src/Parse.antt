-- ===== src/Parse.antt =====
-- src/parser.c and include/parser.h: the parser, which writes bytecode while it reads tokens.
pub mod State
pub mod Moves
pub mod Names
pub mod Rules
pub mod Variables
pub mod Functions
pub mod Expressions
pub mod Statements
pub mod Matches
pub mod Declarations
pub mod Run
mod Tests
pub mod Grammar
pub mod Steady
pub mod Walks
pub mod Agree
pub mod Dispatch
pub mod Pratt
pub mod Skips
pub mod Errors
