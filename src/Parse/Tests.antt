-- ===== src/Parse/Tests.antt =====
-- src/parser.c on small programs.
use joker_complier.Base.{
  ℕ, arith, inl, undefined, Option, none, some, List, [], ◌∷◌, ok, ◌≡◌, refl, Outcome,
}
use joker_complier.Memory.{Block}
use joker_complier.Memory
use joker_complier.Chunk
use joker_complier.Chunk.{Chunk}
use joker_complier.Token.{
  Token, TokenType, token_i32, token_plus, token_star, token_semicolon, token_eof,
  token_right_paren, token_identifier, token_assign, token_not,
}
use joker_complier.Parse.State.{Fn, Parsing, start}
use joker_complier.Parse.Run.{compile, parse}
use joker_complier.Parse.Rules.{prec_assign}
use joker_complier.Parse.Variables.{precedence}
use joker_complier.Parse.Moves.{shift}
use joker_complier.Parse.Expressions.{parse_i32}
use joker_complier.Parse.Grammar.{Expr, atom, binary, i32_atom, plus, star, walk}
use joker_complier.Parse.Pratt.{parse-walk}
use joker_complier.Parse.Skips.{Skipped, first_stop, skip_until-Skipped}
use joker_complier.Parse.Errors.{parse-Prefixed, compile-some}

abbrev token_at : TokenType → List ℕ → Token
token_at type lexeme = record { lexeme = lexeme; line = 1; type = type }

abbrev written : Block ℕ → List ℕ
written [] = []
written (none ∷ b) = []
written (some x ∷ b) = x ∷ written b

abbrev code_of : Outcome (Option Fn × List Fn) → List ℕ
code_of (ok (some fn, fns)) = written fn.chunk.code
code_of _ = []

-- `1 + 2 * 3;`
abbrev sum_tokens : List Token
sum_tokens =
    token_at token_i32 (49 ∷ [])
    ∷ token_at token_plus (43 ∷ [])
    ∷ token_at token_i32 (50 ∷ [])
    ∷ token_at token_star (42 ∷ [])
    ∷ token_at token_i32 (51 ∷ [])
    ∷ token_at token_semicolon (59 ∷ [])
    ∷ token_at token_eof []
    ∷ []

abbrev sum_code : List ℕ
sum_code = code_of (compile 9 sum_tokens)

-- `1 + 2 * 3`
abbrev sum : Expr
sum =
    binary (atom i32_atom (record { lexeme = 49 ∷ []; line = 1 })) plus
      (record { lexeme = 43 ∷ []; line = 1 })
      (binary (atom i32_atom (record { lexeme = 50 ∷ []; line = 1 })) star
        (record { lexeme = 42 ∷ []; line = 1 })
        (atom i32_atom (record { lexeme = 51 ∷ []; line = 1 })))

parse-walk_example :
    parse 11 (precedence prec_assign) (start sum_tokens) ≡ walk sum (start sum_tokens)
parse-walk_example =
    parse-walk sum 11 (token_at token_semicolon (59 ∷ [])) (token_at token_eof [] ∷ [])
      (start sum_tokens) (omega arith, tt, (omega arith, tt, tt)) (omega arith)
      (record { live = refl; other = refl; lower = omega arith }) (unfold start in refl)

-- `i32 = 1;`, after the colon of a declaration
abbrev typed_tokens : List Token
typed_tokens =
    token_at token_identifier (105 ∷ [])
    ∷ token_at token_assign (61 ∷ [])
    ∷ token_at token_i32 (49 ∷ [])
    ∷ token_at token_semicolon (59 ∷ [])
    ∷ token_at token_eof []
    ∷ []

skip_until-Skipped_example :
    Skipped
      (token_assign ∷ [])
      typed_tokens
      (start typed_tokens)
      (first_stop (token_assign ∷ []) typed_tokens)
skip_until-Skipped_example =
    skip_until-Skipped (token_assign ∷ []) typed_tokens (start typed_tokens) (unfold start in refl)
      tt

-- `1!` and the end
abbrev bang_tokens : List Token
bang_tokens =
    token_at token_i32 (49 ∷ []) ∷ token_at token_not (33 ∷ []) ∷ token_at token_eof [] ∷ []

abbrev one : Expr
one = atom i32_atom (record { lexeme = 49 ∷ []; line = 1 })

abbrev state_of : Outcome (Unit {0} × Parsing) → Parsing
state_of (ok (u, s)) = s
state_of _ = start []

abbrev after_one : Parsing
after_one = state_of (walk one (start bang_tokens))

walked : walk one (start bang_tokens) ≡ ok (tt, after_one)
unfolding start shift parse_i32 Chunk.write_constant Chunk.write_chunk Chunk.add_constant
    Chunk.add_line Chunk.extend_line Chunk.append_line Chunk.is_new_line Chunk.grow_code
    Chunk.write_value_array Memory.push_back Memory.store Memory.load Memory.reserve
    Memory.reallocate Memory.grow_capacity
walked = refl

parse-Prefixed_example : parse 3 (precedence prec_assign) (start bang_tokens) ≡ undefined
parse-Prefixed_example =
    parse-Prefixed one 3 (token_at token_not (33 ∷ [])) (token_at token_eof [] ∷ [])
      (start bang_tokens) after_one tt (omega arith) (omega arith) (inl refl) (unfold start in refl)
      walked

-- `)` and the end
abbrev wrong_tokens : List Token
wrong_tokens = token_at token_right_paren (41 ∷ []) ∷ token_at token_eof [] ∷ []

compile-some_example : ¬ (compile 3 wrong_tokens ≡ ok (none, []))
compile-some_example = compile-some 3 wrong_tokens []
