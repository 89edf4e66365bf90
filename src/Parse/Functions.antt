-- ===== src/Parse/Functions.antt =====
-- src/parser.c: blocks, functions, lambdas and methods.
use joker_complier.Base.{ℕ, zero, suc, ◌+◌, ok, List, [], ◌∷◌, ltb, if◌then◌else◌}
use joker_complier.Chunk.OpCode.{op_closure, op_method}
use joker_complier.Token.{
  same_bytes, token_right_brace, token_eof, token_left_paren, token_right_paren, token_colon,
  token_comma, token_arrow, token_left_brace, token_pipe, token_identifier,
}
use joker_complier.Scanner.{codes}
use joker_complier.Compiler.Scope.{FnType, type_method, type_initializer, type_lambda}
use joker_complier.Parse.State.{fn_constant, M, ◌>>=◌, ◌>>◌, skip, exhausted, crash}
use joker_complier.Parse.Moves.{
  error, check, check_any, match_token, consume, prev_token, operand, bytes, shift,
}
use joker_complier.Parse.Names.{
  make_constant, identifier_constant, define_variable, begin_scope, curr_into_sub_compiler,
  curr_from_sub_compiler,
}
use joker_complier.Parse.Variables.{
  Goal, declaration, parse_variable, skip_until, argument_count_max, parse_expression,
}

-- `vm->compiler->fn->arity++`, and the new arity
unfoldable pub add_parameter : M ℕ
add_parameter s =
    ok
      (s.current.arity + 1, record s { current = record s.current { arity = s.current.arity + 1 } })

-- The bytes after `op_closure`: the upvalues of the function.
unfoldable pub emit_upvalues : List ℕ → M (Unit {0})
unfolding operand
emit_upvalues [] = skip
emit_upvalues (info ∷ infos) = do operand info; emit_upvalues infos

-- The type of a parameter of a function: tokens up to a comma or the closing parenthesis.
unfoldable pub skip_parameter_type : ℕ → M (Unit {0})
unfolding shift check
skip_parameter_type zero = exhausted
skip_parameter_type (suc rounds) = do
  shift
  closed ← check token_right_paren
  comma ← check token_comma
  if closed then skip else if comma then skip else skip_parameter_type rounds

-- The loop over the parameters of `parse_function`. After the error it returns with `vm->compiler` at
-- the compiler that dies with it.
unfoldable pub parameters_loop : ℕ → ℕ → M (Unit {0})
unfolding add_parameter error parse_variable define_variable match_token skip_parameter_type
parameters_loop types zero = exhausted
parameters_loop types (suc left) = do
  arity ← add_parameter
  if ltb argument_count_max arity then (do error; crash) else do
    index ← parse_variable
    define_variable index
    colon ← match_token token_colon
    if colon then skip_parameter_type types else skip
    more ← match_token token_comma
    if more then parameters_loop types left else skip

-- The loop over the parameters of `parse_lambda`.
unfoldable pub lambda_loop : ℕ → M (Unit {0})
unfolding add_parameter error parse_variable define_variable match_token consume
lambda_loop zero = exhausted
lambda_loop (suc left) = do
  arity ← add_parameter
  if ltb argument_count_max arity then error else skip
  index ← parse_variable
  colon ← match_token token_colon
  if colon then consume token_identifier else skip
  define_variable index
  more ← match_token token_comma
  if more then lambda_loop left else skip

module _ (rounds : ℕ) (rec : Goal → M (Unit {0})) where
  -- The loop of `parse_block_statement`
  unfoldable pub block_loop : ℕ → M (Unit {0})
  unfolding check_any
  block_loop zero = exhausted
  block_loop (suc left) = do
    closed ← check_any (token_right_brace ∷ token_eof ∷ [])
    if closed then skip else (do rec declaration; block_loop left)

  -- `parse_block_statement`
  unfoldable pub parse_block_statement : M (Unit {0})
  unfolding block_loop consume
  parse_block_statement = do block_loop rounds; consume token_right_brace

  -- `parse_function`
  unfoldable pub parse_function : FnType → M (Unit {0})
  unfolding curr_into_sub_compiler begin_scope consume check parameters_loop match_token skip_until
      parse_block_statement curr_from_sub_compiler make_constant bytes emit_upvalues
  parse_function type = do
    curr_into_sub_compiler type
    begin_scope
    consume token_left_paren
    empty ← check token_right_paren
    if empty then skip else parameters_loop rounds rounds
    consume token_right_paren
    arrow ← match_token token_arrow
    if arrow then skip_until rounds (token_left_brace ∷ []) else skip
    consume token_left_brace
    parse_block_statement
    (fn, upvalues) ← curr_from_sub_compiler
    index ← make_constant (fn_constant fn)
    bytes op_closure index
    emit_upvalues upvalues

  -- `parse_method`
  unfoldable pub parse_method : M (Unit {0})
  unfolding consume prev_token identifier_constant parse_function bytes
  parse_method = do
    consume token_identifier
    name ← prev_token
    index ← identifier_constant name
    let type : FnType =
        if same_bytes name.lexeme (codes "init") then type_initializer else type_method
    parse_function type
    bytes op_method index

  -- `parse_lambda`
  unfoldable pub parse_lambda : M (Unit {0})
  unfolding curr_into_sub_compiler begin_scope match_token lambda_loop consume parse_block_statement
      curr_from_sub_compiler make_constant bytes emit_upvalues
  parse_lambda = do
    curr_into_sub_compiler type_lambda
    begin_scope
    no_parameters ← match_token token_pipe
    if no_parameters then skip else (do lambda_loop rounds; consume token_pipe)
    arrow ← match_token token_arrow
    if arrow then consume token_identifier else skip
    braced ← match_token token_left_brace
    if braced then parse_block_statement else parse_expression rounds rec
    (fn, upvalues) ← curr_from_sub_compiler
    index ← make_constant (fn_constant fn)
    bytes op_closure index
    emit_upvalues upvalues
