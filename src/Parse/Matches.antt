-- ===== src/Parse/Matches.antt =====
-- src/parser.c: the `match` statement and the choice of a statement by its first token.
use joker_complier.Base.{
  ℕ, zero, suc, ◌+◌, Bool, true, false, ◌&&◌, Option, none, some, List, [], ◌∷◌, ◌++◌, Outcome, ok,
  undefined, leb, if◌then◌else◌, length,
}
use joker_complier.Base
use joker_complier.Chunk.OpCode.{
  op_pop, op_jump_if_neq, op_jump, op_match, op_enum_get_member, op_enum_member_match,
  op_enum_member_bind,
}
use joker_complier.Token.{
  Token, same_type, token_left_paren, token_right_paren, token_left_brace, token_right_brace,
  token_comma, token_identifier, token_layer, token_fat_arrow, token_underscore, token_for,
  token_if, token_return, token_break, token_continue, token_match, token_while, token_loop,
  token_eof,
}
use joker_complier.Compiler.Scope.{uint8_count}
use joker_complier.Parse.State.{M, ◌>>=◌, ◌>>◌, return, skip, fail, exhausted}
use joker_complier.Parse.Moves.{
  check, check_any, match_token, consume, shift, prev_token, byte, operand, bytes, jump, patch,
}
use joker_complier.Parse.Names.{
  identifier_constant, declare, define_variable, resolve_local, begin_scope, end_scope,
}
use joker_complier.Parse.Variables.{Goal, match_statement, parse_named_variable, parse_expression}
use joker_complier.Parse.Functions.{parse_block_statement}
use joker_complier.Parse.Statements.{
  condition, parse_return_statement, parse_loop_statement, parse_expr_statement,
  parse_for_statement, parse_if_statement, parse_break_statement, parse_continue_statement,
  parse_while_statement,
}

-- Whether the tokens begin with `identifier :: identifier`, read from left to right.
abbrev pub is_enum_pattern : List Token → Outcome Bool
is_enum_pattern [] = undefined
is_enum_pattern (a ∷ as') =
    let first = same_type a.type token_identifier in if first then second as' else ok false
  where
    third : List Token → Outcome Bool
    third [] = undefined
    third (c ∷ cs) = ok (same_type c.type token_identifier)

    second : List Token → Outcome Bool
    second [] = undefined
    second (b ∷ bs) = if same_type b.type token_layer then third bs else ok false

unfoldable pub enum_pattern : M Bool
enum_pattern s = Base.◌>>=◌ (is_enum_pattern s.cursor.curr) λ b. ok (b, s)

-- The walk of `counter` over the names of a pattern; `after_name` is whether a comma may come next.
unfoldable pub count_names : Bool → List Token → ℕ → Outcome ℕ
count_names after_name [] bind_count = undefined
count_names after_name (token ∷ tokens) bind_count =
    let named = count_names true tokens (bind_count + 1) in
    let separated = count_names false tokens bind_count in
    if after_name && same_type token.type token_comma
    then separated
    else if same_type token.type token_identifier
    then named
    else ok bind_count

unfoldable pub bind_count : M ℕ
unfolding count_names
bind_count s = Base.◌>>=◌ (count_names false s.cursor.curr 0) λ n. ok (n, s)

-- The loop over the names of a pattern, with the slots found so far.
unfoldable pub bind_loop : ℕ → List (Option ℕ) → M (List (Option ℕ))
unfolding match_token prev_token identifier_constant declare define_variable resolve_local check
    shift
bind_loop zero slots = exhausted
bind_loop (suc left) slots = do
  named ← match_token token_identifier
  if named
      then (do
        name ← prev_token
        index ← identifier_constant name
        declare name
        define_variable index
        slot ← resolve_local name
        comma ← check token_comma
        if comma then shift else skip
        bind_loop left (slots ++ slot ∷ []))
      else return slots

-- The slots as bytes: -1 is 255.
unfoldable pub emit_slots : List (Option ℕ) → M (Unit {0})
unfolding operand
emit_slots [] = skip
emit_slots (slot ∷ slots) = do operand (elim slot [ none ↦ 255 | some i ↦ i ]); emit_slots slots

-- `for (…) patch_jump(…, match.stack[i])`
unfoldable pub patch_all : List ℕ → M (Unit {0})
unfolding patch
patch_all [] = skip
patch_all (place ∷ places) = do patch place; patch_all places

module _ (rounds : ℕ) (rec : Goal → M (Unit {0})) where
  -- The statement of an arm.
  unfoldable pub arm_statement : M (Unit {0})
  unfolding match_token parse_return_statement parse_loop_statement parse_block_statement
      parse_expr_statement
  arm_statement = do
    returned ← match_token token_return
    if returned then parse_return_statement rounds rec else do
      matched ← match_token token_match
      if matched then rec match_statement else do
        looped ← match_token token_loop
        if looped then parse_loop_statement rounds rec else do
          braced ← match_token token_left_brace
          if braced then parse_block_statement rounds rec else parse_expr_statement rounds rec

  -- The pattern of an arm, with the jump to the next arm.
  unfoldable pub pattern_test : M ℕ
  unfolding enum_pattern shift prev_token parse_named_variable identifier_constant bytes jump
      match_token bind_count bind_loop emit_slots consume
  pattern_test = do
    enumerated ← enum_pattern
    if enumerated
        then (do
          shift
          name ← prev_token
          parse_named_variable rounds rec name false
          shift
          shift
          member ← prev_token
          index ← identifier_constant member
          bytes op_enum_get_member index
          jump_if_not_matched ← jump op_enum_member_match
          bound ← match_token token_left_paren
          if bound
              then (do
                count ← bind_count
                slots ← bind_loop rounds []
                bytes op_enum_member_bind count
                emit_slots slots
                consume token_right_paren)
              else skip
          return jump_if_not_matched)
        else (do parse_expression rounds rec; jump op_jump_if_neq)

  -- `parse_match_member`, with the jump that it stores in `match->stack`
  unfoldable pub parse_match_member : M ℕ
  unfolding begin_scope pattern_test consume arm_statement jump patch end_scope
  parse_match_member = do
    begin_scope
    jump_if_not_matched ← pattern_test
    consume token_fat_arrow
    arm_statement
    place ← jump op_jump
    patch jump_if_not_matched
    end_scope
    return place

  -- The arm after `_`.
  unfoldable pub default_arm : M ℕ
  unfolding begin_scope consume arm_statement jump end_scope match_token
  default_arm = do
    begin_scope
    consume token_fat_arrow
    arm_statement
    place ← jump op_jump
    end_scope
    comma ← match_token token_comma
    return place

  -- The loop of `parse_match_statement`: the stack of jumps, and `has_default`.
  unfoldable pub arms_loop : ℕ → List ℕ → M (List ℕ × Bool)
  unfolding check_any match_token default_arm parse_match_member
  arms_loop zero stack = exhausted
  arms_loop (suc left) stack = do
    closed ← check_any (token_right_brace ∷ token_eof ∷ [])
    if closed then return (stack, false) else do
      otherwise ← match_token token_underscore
      if otherwise then (do place ← default_arm; return (stack ++ place ∷ [], true)) else (do
        place ← parse_match_member
        comma ← match_token token_comma
        comma' ← match_token token_comma
        if leb uint8_count (length stack + 1) then fail else arms_loop left (stack ++ place ∷ []))

  -- `parse_match_statement`
  unfoldable pub parse_match_statement : M (Unit {0})
  unfolding begin_scope condition jump consume arms_loop patch patch_all byte end_scope
  parse_match_statement = do
    begin_scope
    condition rounds rec
    start ← jump op_match
    consume token_left_brace
    (stack, has_default) ← arms_loop rounds []
    end ← if has_default then return start else do place ← jump op_jump; patch start; return place
    patch end
    patch_all stack
    byte op_pop
    consume token_right_brace
    end_scope

  -- `parse_statement`
  unfoldable pub parse_statement : M (Unit {0})
  unfolding match_token parse_for_statement parse_if_statement parse_return_statement
      parse_break_statement parse_continue_statement parse_match_statement parse_while_statement
      parse_loop_statement begin_scope parse_block_statement end_scope parse_expr_statement
  parse_statement = do
    for ← match_token token_for
    if for then parse_for_statement rounds rec else do
      conditional ← match_token token_if
      if conditional then parse_if_statement rounds rec else do
        returned ← match_token token_return
        if returned then parse_return_statement rounds rec else do
          broken ← match_token token_break
          if broken then parse_break_statement else do
            continued ← match_token token_continue
            if continued then parse_continue_statement else do
              matched ← match_token token_match
              if matched then rec match_statement else do
                repeated ← match_token token_while
                if repeated then parse_while_statement rounds rec else do
                  looped ← match_token token_loop
                  if looped then parse_loop_statement rounds rec else do
                    braced ← match_token token_left_brace
                    if braced
                        then (do begin_scope; parse_block_statement rounds rec; end_scope)
                        else parse_expr_statement rounds rec
