-- ===== src/Lib.antt =====
-- Joker: a compiler to bytecode and a virtual machine, in C. The scanner turns a source into tokens,
-- the parser writes bytecode into the chunk of a function through the compiler's scopes and locals,
-- and the machine runs the chunk; the globals and the interned strings stand in hash maps.
--
-- The files and the code that they are about, by paths from the repository's root:
-- - Base: the shared names; Boolean tests, lists and integers over the native numbers, and Outcome,
--   how a C call ends: with a value, by panic, by undefined behaviour, or out of the model's fuel.
-- - Memory: include/memory.h, src/memory.c. A block of memory is the list of its cells, a cell that
--   was never written is `none`, and an access outside of it is `undefined`. Memory.Stores relates
--   a block to the list of items that it holds.
-- - Chunk: include/chunk.h, src/chunk.c. The code, its line table in run-length form and the constant
--   pool: init_chunk, write_chunk, get_rle_line, add_constant, write_constant.
-- - Value: include/value.h, src/value.c.
-- - HashMap: include/hashmap.h, src/hashmap.c. Open addressing with tombstones, all operations.
--   HashMap.Mask is about the masking of an index, Probe about find_entry, Write about one entry,
--   Resize and Table about adjust_capacity, Lookup about the operations as a map.
-- - Token: include/token.h, src/token.c.
-- - TokenList: the linked list of include/token.h and src/token.c, as indices into a heap of tokens.
-- - Scanner: include/scanner.h, src/scanner.c. A pointer into the source is the text from there on.
--   Scanner.Faults says what is no token and where the scanner ends the process.
-- - Compiler: include/compiler.h, src/compiler.c, src/upvalue.c and the part of src/parser.c that
--   writes jumps, keeps scopes, locals and upvalues, and walks over the tokens. Compiler.Emit is about
--   what is written, Tokens and Sync about the walk, Scope, Locals and Pops about scopes.
-- - Parse: include/parser.h, src/parser.c, src/compiler.c and src/class_compiler.c, with Chunk.OpCode for
--   the codes of include/chunk.h: the parser, which writes bytecode while it reads tokens. A handler is a
--   function from the state of the parser to an outcome. Parse.State is the state, Moves and Names the
--   moves, the emission and the scopes as handlers, Rules the table static_syntax_rules, Variables,
--   Functions, Expressions, Statements, Matches and Declarations the handlers, Run parse_tokens and
--   compile. The handlers call each other through the argument `rec`, which Run ties to `parse`.
--   Parse.Grammar has expressions as trees, with their tokens and their postfix code; Steady, Walks,
--   Agree, Dispatch and Pratt relate them to the parser, Skips is about the loop over a type, and Errors
--   about errors.
-- - Machine: include/vm.h and src/vm.c, the machine as a whole. Machine.State is its state with the value
--   stack and runtime_error, Fetch the reads of the code, Calls the calls and the return, Values the
--   operators on values of every type, Handlers and Holders the handlers, Run the loop of labels. It runs the functions
--   that Parse writes. Keeps, Frames, Callers, Runs, Owners and Safe are about the bounds of its arrays,
--   Goes about runtime errors in the loop, Returns about a call and its return. A write behind an array makes its
--   list longer, so that the bounds are a matter of the guards of the code.
-- - Vec: include/vec.h, src/vec.c. A growable vector as the list that it holds.
-- - Upvalue: src/upvalue.c. The machine's list of open upvalues.
-- - Vm: include/vm.h, src/vm.c. Vm.Fetch reads instructions and constants, Jumps has the jumps, Arith
--   the value stack and the operators on integers, Range the meaning of those on 32-bit ones, Unary and Twice
--   the unary operators.
-- - Pool: include/pool.h and src/pool.c in one thread. A node is its index in the pool's memory, and Pool keeps the
--   field `next` of each node and the heads of the lists `head` and `free_list`; Pool.Cache has the batches
--   and the cache of the thread, Pool.Chain says which nodes are on a list, and Pool.Batch is about the batches. The fuel of
--   Pool.batch_loop counts its rounds; the round after the last node ends it. The loops that repeat an
--   exchange of a list's head are taken to succeed at once.
--
-- Fuel: find_loop and find_key_loop of HashMap get as many rounds as there are entries, and a table
-- always has a slot never used, so the probe ends; the loops of Scanner get one round more than the
-- bytes left, and each round passes a byte; capacity_loop of Vec gets one round more than the
-- capacity that is asked for; sync_loop one round more than the tokens left. `parse`
-- takes fuel for the depth of the calls and for the rounds of each loop; more than the size of an
-- expression is enough for it. The fuel of Machine.Run.run bounds the instructions, since a program need
-- not end. Where a theorem states a
-- result `ok`, the fuel is enough.
--
-- Parameters: HashMap takes the heap of strings, from an address to its string, and Value takes the
-- comparison of floating-point numbers and of objects. Machine
-- takes the reading of floats, arithmetic on floats (Floats), the operators that a class of objects has of
-- its own (Operators), the native functions and the place of a closed upvalue (Natives), and the handlers of enums,
-- vectors and static members.
--
-- Not modelled: the overflow of size_t in the size of a pool, the collector, the allocator's size classes, pool_destroy, printing, the console, native functions, and the
-- classes of heap objects; malloc is taken to succeed, and messages of errors are not kept. The constant
-- pool of the parser holds the texts of strings and floats and the numbers of functions in place of heap
-- objects. A hash map of the machine is the list of its keys
-- and values. The second loop of `run`, which other compilers than GCC get, is not modelled.
pub mod Base
pub mod Memory
pub mod Chunk
pub mod Value
pub mod HashMap
pub mod Token
pub mod TokenList
pub mod Scanner
pub mod Vm
pub mod Machine
pub mod Pool
pub mod Compiler
pub mod Vec
pub mod Upvalue
pub mod Parse
