-- ===== src/Parse/Run.antt =====
-- src/parser.c and src/compiler.c: the parser as a whole. `parse` ties the handlers together; its fuel
-- bounds the depth of the calls and the rounds of every loop.
use joker_complier.Base.{
  ℕ, zero, suc, Bool, true, false, Option, none, some, List, Outcome, ok, if◌then◌else◌, length,
}
use joker_complier.Base
use joker_complier.Token.{Token, token_eof}
use joker_complier.Parse.State.{Fn, Parsing, M, ◌>>=◌, ◌>>◌, skip, exhausted, start}
use joker_complier.Parse.Moves.{at_end, consume}
use joker_complier.Parse.Names.{emit_return}
use joker_complier.Parse.Variables.{
  Goal, precedence, declaration, statement, match_statement, class_declaration,
}
use joker_complier.Parse.Expressions.{parse_precedence}
use joker_complier.Parse.Matches.{parse_statement, parse_match_statement}
use joker_complier.Parse.Declarations.{parse_declaration, parse_class_declaration}

-- A handler by its goal.
unfoldable pub handle : ℕ → (Goal → M (Unit {0})) → Goal → M (Unit {0})
unfolding parse_precedence parse_declaration parse_statement parse_match_statement
    parse_class_declaration
handle rounds rec (precedence level) = parse_precedence rounds rec level
handle rounds rec declaration = parse_declaration rounds rec
handle rounds rec statement = parse_statement rounds rec
handle rounds rec match_statement = parse_match_statement rounds rec
handle rounds rec class_declaration = parse_class_declaration rounds rec

unfoldable pub parse : ℕ → Goal → M (Unit {0})
unfolding handle
parse zero goal = exhausted
parse (suc fuel) goal = handle fuel (parse fuel) goal

-- The loop of `parse_tokens`
unfoldable pub tokens_loop : ℕ → ℕ → M (Unit {0})
unfolding at_end parse
tokens_loop fuel zero = exhausted
tokens_loop fuel (suc left) = do
  ended ← at_end
  if ended then skip else (do parse fuel declaration; tokens_loop fuel left)

-- `parse_tokens`: the script, and the state in which it is finished.
unfoldable pub parse_tokens : ℕ → M Fn
unfolding tokens_loop consume emit_return
parse_tokens fuel = do
  tokens_loop fuel fuel
  consume token_eof
  emit_return
  λ s. ok (
    record {
      arity = s.current.arity;
      chunk = s.current.chunk;
      name = s.current.name;
      upvalue_count = length s.current.compiler.upvalues;
    },
    s,
  )

-- `free_parser`, which resets the flags too
unfoldable pub free_parser : Parsing → Parsing
free_parser s = record s { cursor = record s.cursor { had_error = false; panic_mode = false } }

-- The part of `compile` after the scanner: NULL is `none`. The flag is read after `free_parser`.
unfoldable pub compile : ℕ → List Token → Outcome (Option Fn × List Fn)
unfolding parse_tokens free_parser start
compile fuel tokens = Base.◌>>=◌ (parse_tokens fuel (start tokens)) λ (fn, s).
    let freed = free_parser s in
    ok (if freed.cursor.had_error then none else some fn, freed.functions)
