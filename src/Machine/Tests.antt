-- ===== src/Machine/Tests.antt =====
-- src/vm.c on small programs.
use joker_complier.Base.{
  ℕ, ◌+◌, true, false, Option, none, some, List, [], ◌∷◌, ok, Outcome, ◌++◌, ◌≡◌, ◌≤◌, ◌==◌,
  if◌then◌else◌, refl, get_elem?, arith,
}
use joker_complier.Base.Int.{pos}
use joker_complier.Value.{i32, boolean, object}
use joker_complier.Memory.{load}
use joker_complier.Vm.Fetch
use joker_complier.Token.{
  Token, TokenType, token_i32, token_plus, token_star, token_semicolon, token_eof, token_identifier,
  token_assign, token_var,
}
use joker_complier.Parse.State.{Fn, string_constant}
use joker_complier.Parse.Run.{compile}
use joker_complier.Machine.State.{Vm, CallFrame, crash, closure_object, passed, Fields}
use joker_complier.Machine.Fetch.{Readers, fn_of, read_byte, read_string}
use joker_complier.Machine.Calls.{Natives, call, handle_op_return}
use joker_complier.Machine.Values.{Floats, Operators}
use joker_complier.Machine.Run.{run}
use joker_complier.Machine.Safe.{no_others}
use joker_complier.Machine.Goes.{run-get_global, cleared}
use joker_complier.Machine.Returns.{call-return, Callable, Returning, entry, entered, left, live}

abbrev no_readers : Readers
no_readers = record { read_f32 = λ t. 0; read_f64 = λ t. 0 }

abbrev no_natives : Natives
no_natives = record { native = λ f n args. crash; closed_at = λ id. 100000 + id }

abbrev no_floats : Floats
no_floats = record {
  f32_op = λ op a b. 0;
  f64_op = λ op a b. 0;
  f32_test = λ op a b. false;
  f64_test = λ op a b. false;
  f32_zero = λ a. false;
  f64_zero = λ a. false;
  f32_int = λ a. a;
  f64_int = λ a. a;
  object_equal = λ a b. false;
}

abbrev no_operators : Operators
no_operators = record { binary = λ op a b os. none; unary = λ op a os. none }

-- The machine before the first instruction of the function with this number.
abbrev started : ℕ → Vm
started number = record {
  frames = record { slots = 0; closure = 0; ip = 0 } ∷ [];
  frame_count = 1;
  frame = some 0;
  stack = object 0 ∷ [];
  stack_top = 1;
  globals = [];
  types = [];
  objects = closure_object number [] ∷ [];
  open_upvalues = [];
  dropped = [];
}

abbrev globals_of : Outcome (Unit {0} × Vm) → Fields
globals_of (ok (u, s)) = s.globals
globals_of _ = []

abbrev token_at : TokenType → List ℕ → Token
token_at type lexeme = record { lexeme = lexeme; line = 1; type = type }

-- `var x = 1 + 2 * 3; 0`
abbrev tokens : List Token
tokens =
    token_at token_var []
    ∷ token_at token_identifier (120 ∷ [])
    ∷ token_at token_assign []
    ∷ token_at token_i32 (49 ∷ [])
    ∷ token_at token_plus (43 ∷ [])
    ∷ token_at token_i32 (50 ∷ [])
    ∷ token_at token_star (42 ∷ [])
    ∷ token_at token_i32 (51 ∷ [])
    ∷ token_at token_semicolon (59 ∷ [])
    ∷ token_at token_eof []
    ∷ []

-- The functions of a program, the script last.
abbrev program_of : Outcome (Option Fn × List Fn) → List Fn
program_of (ok (some fn, fns)) = fns ++ fn ∷ []
program_of _ = []

abbrev sum_program : List Fn
sum_program = program_of (compile 12 tokens)

-- The machine of the program at its first instruction; a run of it leaves `x = 7` behind.
abbrev sum_run : Outcome (Unit {0} × Vm)
sum_run = run no_readers sum_program no_natives no_floats no_operators no_others 30 (started 0)

abbrev sum_globals : Fields
sum_globals = globals_of sum_run

-- `true` and a return
abbrev short_program : List Fn
short_program =
    record {
      arity = 0;
      chunk = record {
        count = 2;
        capacity = 2;
        code = some 6 ∷ some 47 ∷ [];
        lines = record { count = 0; capacity = 0; lines = [] };
        constants = record { count = 0; capacity = 0; values = [] };
      };
      name = none;
      upvalue_count = 0;
    }
    ∷ []

abbrev short_end : Vm
short_end = record (started 0) {
  frames = record { slots = 0; closure = 0; ip = 2 } ∷ [];
  frame_count = 0;
  stack = object 0 ∷ boolean true ∷ [];
}

-- A global that is not there, and then a return
abbrev missing_program : List Fn
missing_program =
    record {
      arity = 0;
      chunk = record {
        count = 3;
        capacity = 3;
        code = some 28 ∷ some 0 ∷ some 47 ∷ [];
        lines = record { count = 0; capacity = 0; lines = [] };
        constants = record {
          count = 1;
          capacity = 1;
          values = some (string_constant (120 ∷ [])) ∷ [];
        };
      };
      name = none;
      upvalue_count = 0;
    }
    ∷ []

abbrev at_ip : ℕ → Vm
at_ip ip = record (started 0) { frames = record { slots = 0; closure = 0; ip = ip } ∷ [] }

run-get_global_example :
    run no_readers missing_program no_natives no_floats no_operators no_others 9 (started 0)
    ≡ run no_readers missing_program no_natives no_floats no_operators no_others 8
        (cleared (at_ip 2))
unfolding Fetch.read_byte load Fetch.read_constant
run-get_global_example =
    run-get_global no_readers missing_program no_natives no_floats no_operators no_others 8
      (started 0) (at_ip 1) (at_ip 2) 28 (120 ∷ []) (unfold read_byte in refl) refl
      (unfold read_string in refl) refl

-- A call of a number with no arguments
abbrev bad_call : List Fn
bad_call =
    record {
      arity = 0;
      chunk = record {
        count = 2;
        capacity = 2;
        code = some 43 ∷ some 0 ∷ [];
        lines = record { count = 0; capacity = 0; lines = [] };
        constants = record { count = 0; capacity = 0; values = [] };
      };
      name = none;
      upvalue_count = 0;
    }
    ∷ []

abbrev number_at : ℕ → Vm
number_at ip = record (at_ip ip) { stack = object 0 ∷ i32 (pos 5) ∷ []; stack_top = 2 }

-- A function of one argument, called with 5, that has 6 on top when it returns
abbrev callee_program : List Fn
callee_program =
    record {
      arity = 1;
      chunk = record {
        count = 0;
        capacity = 0;
        code = [];
        lines = record { count = 0; capacity = 0; lines = [] };
        constants = record { count = 0; capacity = 0; values = [] };
      };
      name = none;
      upvalue_count = 0;
    }
    ∷ []

abbrev calling : Vm
calling = record (started 0) { stack = object 0 ∷ object 0 ∷ i32 (pos 5) ∷ []; stack_top = 3 }

-- A second call at this depth: the cell of the callee's frame is that of the first one, which has returned.
abbrev calling_again : Vm
calling_again = record calling {
  frames =
      record { slots = 0; closure = 0; ip = 0 } ∷ record { slots = 2; closure = 0; ip = 9 } ∷ [];
}

abbrev inside : CallFrame
inside = record { slots = 1; closure = 0; ip = 7 }

abbrev returning : Vm
returning = record (entered 0 1 calling_again) {
  frames = record { slots = 0; closure = 0; ip = 0 } ∷ inside ∷ [];
  frame = some 1;
  stack = object 0 ∷ object 0 ∷ i32 (pos 5) ∷ i32 (pos 6) ∷ [];
  stack_top = 4;
}

calling-Callable : Callable no_readers callee_program 0 1 calling_again
calling-Callable = record {
  fn = record {
    arity = 1;
    chunk = record {
      count = 0;
      capacity = 0;
      code = [];
      lines = record { count = 0; capacity = 0; lines = [] };
      constants = record { count = 0; capacity = 0; values = [] };
    };
    name = none;
    upvalue_count = 0;
  };
  found = unfold fn_of in refl;
  matched = refl;
  inner = omega arith;
  room = omega arith;
  written = omega arith;
  under = omega arith;
  small = omega arith;
}

returning-Returning : Returning 1 calling_again inside (i32 (pos 6)) returning
returning-Returning = record {
  based = refl;
  called = refl;
  stacked = refl;
  pointed = refl;
  above = omega arith;
  on_top = refl;
}

call-return_example :
    (call no_readers callee_program no_natives 0 1 calling_again
      ≡ ok (true, entered 0 1 calling_again))
    × (live (entered 0 1 calling_again) ≡ live calling_again ++ entry 0 3 1 ∷ [])
    × (handle_op_return no_readers callee_program no_natives returning
        ≡ ok (passed, left no_natives 1 1 (i32 (pos 6)) returning))
    × (live (left no_natives 1 1 (i32 (pos 6)) returning) ≡ live calling_again)
    × ((left no_natives 1 1 (i32 (pos 6)) returning).stack_top + 1 ≡ 3)
    × ((j : ℕ)
        → j ≤ 1
        → get_elem? (left no_natives 1 1 (i32 (pos 6)) returning).stack j
          ≡ (if 1 == j then some (i32 (pos 6)) else get_elem? returning.stack j))
call-return_example =
    call-return no_readers callee_program no_natives 0 1 calling_again inside (i32 (pos 6))
      returning calling-Callable returning-Returning
