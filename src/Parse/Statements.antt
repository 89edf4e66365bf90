-- ===== src/Parse/Statements.antt =====
-- src/parser.c: statements. An end of -1 of a loop is `none`.
use joker_complier.Base.{ℕ, zero, suc, false, Option, none, some, [], ◌∷◌, if◌then◌else◌}
use joker_complier.Chunk.OpCode.{op_pop, op_none, op_jump_if_false, op_jump, op_break}
use joker_complier.Token.{
  token_semicolon, token_left_paren, token_right_paren, token_colon, token_assign, token_comma,
  token_else, token_var,
}
use joker_complier.Compiler.Scope.{type_script, type_initializer}
use joker_complier.Parse.State.{M, ◌>>=◌, ◌>>◌, return, skip, exhausted, crash}
use joker_complier.Parse.Moves.{
  error, match_token, consume, byte, jump, patch, loop_back, continue_back,
}
use joker_complier.Parse.Names.{
  define_variable, fn_type, begin_scope, end_scope, begin_loop, end_loop, current_loop, code_count,
  emit_return, change_compiler,
}
use joker_complier.Parse.Variables.{Goal, statement, parse_variable, skip_until, parse_expression}

-- `vm->compiler->loop->end = end`
unfoldable pub set_loop_end : ℕ → M (Unit {0})
set_loop_end place =
    change_compiler λ c. record c {
      loops = elim c.loops [ [] ↦ [] | l ∷ ls ↦ record l { end = some place } ∷ ls ];
    }

-- `parse_break_statement`: only the first `break` of a loop emits a jump.
unfoldable pub parse_break_statement : M (Unit {0})
unfolding consume current_loop error jump set_loop_end
parse_break_statement = do
  consume token_semicolon
  loop ← current_loop
  elim loop [
    | none ↦ error
    | some l ↦ elim l.end [
      | none ↦ do place ← jump op_break; set_loop_end place
      | some place ↦ skip
    ]
  ]

-- `parse_continue_statement`
unfoldable pub parse_continue_statement : M (Unit {0})
unfolding consume current_loop error continue_back
parse_continue_statement = do
  consume token_semicolon
  loop ← current_loop
  elim loop [ none ↦ error | some l ↦ continue_back l.start ]

-- `if (vm->compiler->loop->end != -1) emit_break(…)`
unfoldable pub emit_break : M (Unit {0})
unfolding current_loop patch
emit_break = do
  loop ← current_loop
  elim loop [ none ↦ crash | some l ↦ elim l.end [ none ↦ skip | some place ↦ patch place ] ]

module _ (rounds : ℕ) (rec : Goal → M (Unit {0})) where
  -- A condition, with or without its parentheses.
  unfoldable pub condition : M (Unit {0})
  unfolding match_token consume
  condition = do
    bracketed ← match_token token_left_paren
    parse_expression rounds rec
    if bracketed then consume token_right_paren else skip

  -- `parse_expr_statement`
  unfoldable pub parse_expr_statement : M (Unit {0})
  unfolding match_token byte
  parse_expr_statement = do
    parse_expression rounds rec
    semicolon ← match_token token_semicolon
    byte op_pop

  -- `parse_return_statement`
  unfoldable pub parse_return_statement : M (Unit {0})
  unfolding fn_type error match_token consume emit_return
  parse_return_statement = do
    type ← fn_type
    let body : M (Unit {0}) = (do
      semicolon ← match_token token_semicolon
      if semicolon
          then elim type [ type_initializer ↦ error | _ ↦ skip ]
          else (do parse_expression rounds rec; consume token_semicolon)
      emit_return)
    elim type [ type_script ↦ error | _ ↦ body ]

  -- The loop of `parse_var_declaration`
  unfoldable pub var_loop : ℕ → M (Unit {0})
  unfolding parse_variable match_token skip_until byte define_variable
  var_loop zero = exhausted
  var_loop (suc left) = do
    index ← parse_variable
    colon ← match_token token_colon
    if colon then skip_until rounds (token_assign ∷ token_comma ∷ token_semicolon ∷ []) else skip
    assigned ← match_token token_assign
    if assigned then parse_expression rounds rec else byte op_none
    define_variable index
    more ← match_token token_comma
    if more then var_loop left else skip

  -- `parse_var_declaration`
  unfoldable pub parse_var_declaration : M (Unit {0})
  unfolding var_loop consume
  parse_var_declaration = do var_loop rounds; consume token_semicolon

  -- The first clause of a `for`.
  unfoldable pub for_initializer : M (Unit {0})
  unfolding match_token parse_var_declaration parse_expr_statement
  for_initializer = do
    empty ← match_token token_semicolon
    declared ← if empty then return false else match_token token_var
    if empty then skip else if declared then parse_var_declaration else parse_expr_statement

  -- The second clause, with the jump out of the loop.
  unfoldable pub for_condition : M (Option ℕ)
  unfolding match_token consume jump byte
  for_condition = do
    empty ← match_token token_semicolon
    if empty then return none else do
      parse_expression rounds rec
      consume token_semicolon
      exit_jump ← jump op_jump_if_false
      byte op_pop
      return (some exit_jump)

  -- The third clause, with the new start of the loop. Without it the loop is not begun.
  unfoldable pub for_increment : ℕ → M ℕ
  unfolding match_token consume jump byte code_count loop_back begin_loop patch
  for_increment loop_start = do
    empty ← match_token token_right_paren
    if empty then return loop_start else do
      body_jump ← jump op_jump
      increment_start ← code_count
      parse_expression rounds rec
      byte op_pop
      consume token_right_paren
      loop_back loop_start
      begin_loop increment_start
      patch body_jump
      return increment_start

  -- `parse_for_statement`
  unfoldable pub parse_for_statement : M (Unit {0})
  unfolding begin_scope consume for_initializer code_count for_condition for_increment loop_back
      patch byte emit_break end_loop end_scope
  parse_for_statement = do
    begin_scope
    consume token_left_paren
    for_initializer
    loop_start ← code_count
    exit_jump ← for_condition
    continue_start ← for_increment loop_start
    rec statement
    loop_back continue_start
    elim exit_jump [ none ↦ skip | some place ↦ do patch place; byte op_pop ]
    emit_break
    end_loop
    end_scope

  -- `parse_while_statement`
  unfoldable pub parse_while_statement : M (Unit {0})
  unfolding code_count condition begin_loop jump byte loop_back patch emit_break end_loop
  parse_while_statement = do
    loop_start ← code_count
    condition
    begin_loop loop_start
    exit_jump ← jump op_jump_if_false
    byte op_pop
    rec statement
    loop_back loop_start
    patch exit_jump
    byte op_pop
    emit_break
    end_loop

  -- `parse_loop_statement`
  unfoldable pub parse_loop_statement : M (Unit {0})
  unfolding code_count begin_loop loop_back emit_break end_loop
  parse_loop_statement = do
    loop_start ← code_count
    begin_loop loop_start
    rec statement
    loop_back loop_start
    emit_break
    end_loop

  -- `parse_if_statement`
  unfoldable pub parse_if_statement : M (Unit {0})
  unfolding condition jump byte patch match_token
  parse_if_statement = do
    condition
    then_jump ← jump op_jump_if_false
    byte op_pop
    rec statement
    else_jump ← jump op_jump
    patch then_jump
    byte op_pop
    alternative ← match_token token_else
    if alternative then rec statement else skip
    patch else_jump
