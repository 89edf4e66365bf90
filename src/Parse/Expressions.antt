-- ===== src/Parse/Expressions.antt =====
-- src/parser.c: the handlers of expressions, which the table of rules names, and the loop over infix
-- operators. `strtol` and `strtoll` read the digits that a number token consists of.
use joker_complier.Base.{
  ℕ, zero, suc, ◌+◌, ◌-◌, ◌*◌, ◌^◌, Bool, false, ◌&&◌, Option, none, some, List, [], ◌∷◌, ok,
  undefined, leb, if◌then◌else◌, min, length, take, drop,
}
use joker_complier.Chunk.OpCode.{
  OpCode, op_pop, op_none, op_true, op_false, op_not, op_negate, op_equal, op_not_equal, op_less,
  op_less_equal, op_greater, op_greater_equal, op_add, op_subtract, op_multiply, op_divide, op_mod,
  op_bw_and, op_bw_or, op_bw_xor, op_bw_sl, op_bw_sr, op_bw_not, op_set_global, op_set_local,
  op_set_upvalue, op_get_property, op_set_property, op_get_super, op_get_layer_property,
  op_jump_if_false, op_jump, op_call, op_invoke, op_super_invoke, op_layer_property_call,
  op_vector_new, op_vector_set, op_vector_get,
}
use joker_complier.Scanner.{codes}
use joker_complier.Token.{
  Token, TokenType, make_token, token_left_paren, token_right_paren, token_right_bracket,
  token_comma, token_dot, token_colon, token_minus, token_plus, token_star, token_slash, token_mod,
  token_plus_assign, token_minus_assign, token_star_assign, token_slash_assign, token_mod_assign,
  token_bit_and_assign, token_bit_or_assign, token_bit_xor_assign, token_shl_assign,
  token_shr_assign, token_bit_not_assign, token_not, token_neq, token_assign, token_eq, token_gt,
  token_egt, token_le, token_let, token_identifier, token_false, token_none, token_true,
}
use joker_complier.Vm.Arith.{of_bits, of_bits_i64}
use joker_complier.Parse.State.{
  i32_constant, i64_constant, f32_constant, f64_constant, string_constant, M, ◌>>=◌, ◌>>◌, return,
  fail, skip, exhausted, crash,
}
use joker_complier.Parse.Moves.{
  error, at_end, advance, check, match_token, consume, prev_token, byte, operand, bytes, constant,
  jump, patch,
}
use joker_complier.Parse.Names.{resolve_local, resolve_upvalue, identifier_constant}
use joker_complier.Parse.Rules.{
  Prefix, Infix, get_rule, prec_assign, prec_or, prec_and, prec_bitwise_or, prec_bitwise_xor,
  prec_bitwise_and, prec_shift, prec_unary, grouping_prefix, null_prefix, vector_prefix,
  lambda_prefix, bitwise_not_prefix, unary_prefix, identifier_prefix, string_prefix, i32_prefix,
  i64_prefix, f32_prefix, f64_prefix, literal_prefix, super_prefix, self_prefix, call_infix,
  null_infix, vector_index_infix, dot_infix, ternary_infix, layer_infix, bitwise_and_infix,
  bitwise_or_infix, bitwise_xor_infix, shift_left_infix, shift_right_infix, compound_assign_infix,
  binary_infix, and_infix, or_infix,
}
use joker_complier.Parse.Variables.{
  Goal, precedence, parse_named_variable, parse_identifier, parse_argument_list, parse_expression,
}
use joker_complier.Parse.Functions.{parse_lambda}

-- The digits at the front of a text, read on top of `value`.
unfoldable pub digits : ℕ → List ℕ → ℕ
digits value [] = value
digits value (c ∷ cs) =
    let rest = digits (value * 10 + (c - b'0')) cs in
    if leb b'0' c && leb c b'9' then rest else value

-- `strtol` and `strtoll`, which stop at the greatest `long`
unfoldable pub strtol : List ℕ → ℕ
unfolding digits
strtol text = min (digits 0 text) (2 ^ 63 - 1)

-- The quoted text without its quotes.
unfoldable pub unquoted : List ℕ → List ℕ
unquoted text = take (length text - 2) (drop 1 text)

-- `parse_i32`
unfoldable pub parse_i32 : M (Unit {0})
unfolding prev_token constant strtol
parse_i32 = do token ← prev_token; constant (i32_constant (of_bits (strtol token.lexeme)))

-- `parse_i64`
unfoldable pub parse_i64 : M (Unit {0})
unfolding prev_token constant strtol
parse_i64 = do token ← prev_token; constant (i64_constant (of_bits_i64 (strtol token.lexeme)))

-- `parse_f32`
unfoldable pub parse_f32 : M (Unit {0})
unfolding prev_token constant
parse_f32 = do token ← prev_token; constant (f32_constant token.lexeme)

-- `parse_f64`
unfoldable pub parse_f64 : M (Unit {0})
unfolding prev_token constant
parse_f64 = do token ← prev_token; constant (f64_constant token.lexeme)

-- `parse_string`
unfoldable pub parse_string : M (Unit {0})
unfolding prev_token constant unquoted
parse_string = do token ← prev_token; constant (string_constant (unquoted token.lexeme))

-- `parse_literal`
unfoldable pub parse_literal : M (Unit {0})
unfolding prev_token byte
parse_literal = do
  token ← prev_token
  elim token.type [
    | token_false ↦ byte op_false
    | token_true ↦ byte op_true
    | token_none ↦ byte op_none
    | _ ↦ fail
  ]

-- The `switch` of `parse_binary`
abbrev pub binary_code : TokenType → Option OpCode
binary_code token_neq = some op_not_equal
binary_code token_eq = some op_equal
binary_code token_gt = some op_greater
binary_code token_egt = some op_greater_equal
binary_code token_le = some op_less
binary_code token_let = some op_less_equal
binary_code token_plus = some op_add
binary_code token_minus = some op_subtract
binary_code token_star = some op_multiply
binary_code token_slash = some op_divide
binary_code token_mod = some op_mod
binary_code _ = none

-- The `switch` of `parse_compound_assign`
abbrev pub compound_code : TokenType → Option OpCode
compound_code token_plus_assign = some op_add
compound_code token_minus_assign = some op_subtract
compound_code token_star_assign = some op_multiply
compound_code token_slash_assign = some op_divide
compound_code token_shl_assign = some op_bw_sl
compound_code token_shr_assign = some op_bw_sr
compound_code token_bit_and_assign = some op_bw_and
compound_code token_bit_or_assign = some op_bw_or
compound_code token_bit_xor_assign = some op_bw_xor
compound_code token_bit_not_assign = some op_bw_not
compound_code token_mod_assign = some op_mod
compound_code _ = none

-- `synthetic_token`
unfoldable pub synthetic_token : List ℕ → Token
unfolding make_token
synthetic_token text = make_token token_identifier text 0

-- `self->pprev`, whose text is read without a test for NULL
unfoldable pub pprev_token : M Token
pprev_token s = elim s.cursor.pprev [ none ↦ undefined | some token ↦ ok (token, s) ]

-- The last part of `parse_compound_assign`: the write of the variable.
unfoldable pub store_variable : Token → M (Unit {0})
unfolding resolve_local resolve_upvalue identifier_constant bytes
store_variable name = do
  local ← resolve_local name
  elim local [
    | some i ↦ bytes op_set_local i
    | none ↦ do
      upvalue ← resolve_upvalue name
      elim upvalue [
        | some i ↦ bytes op_set_upvalue i
        | none ↦ do i ← identifier_constant name; bytes op_set_global i
      ]
  ]

-- `vm->class_compiler`
unfoldable pub class_compiler : M (Option Bool)
class_compiler s = ok (elim s.classes [ [] ↦ none | c ∷ cs ↦ some c ], s)

-- `self->curr->type`, read without a test for NULL
unfoldable pub curr_type : M TokenType
curr_type s = elim s.cursor.curr [ [] ↦ undefined | token ∷ rest ↦ ok (token.type, s) ]

module _ (rounds : ℕ) (rec : Goal → M (Unit {0})) where
  -- `parse_grouping`
  unfoldable pub parse_grouping : M (Unit {0})
  unfolding consume
  parse_grouping = do parse_expression rounds rec; consume token_right_paren

  -- `parse_call`
  unfoldable pub parse_call : M (Unit {0})
  unfolding parse_argument_list bytes
  parse_call = do arg_count ← parse_argument_list rounds rec; bytes op_call arg_count

  -- `parse_unary`
  unfoldable pub parse_unary : M (Unit {0})
  unfolding prev_token byte
  parse_unary = do
    operator ← prev_token
    rec (precedence prec_unary)
    elim operator.type [ token_not ↦ byte op_not | token_minus ↦ byte op_negate | _ ↦ fail ]

  -- `parse_bitwise_not`
  unfoldable pub parse_bitwise_not : M (Unit {0})
  unfolding byte
  parse_bitwise_not = do rec (precedence prec_unary); byte op_bw_not

  -- `parse_binary`
  unfoldable pub parse_binary : M (Unit {0})
  unfolding prev_token byte
  parse_binary = do
    operator ← prev_token
    rec (precedence ((get_rule operator.type).operand + 1))
    elim (binary_code operator.type) [ none ↦ fail | some opcode ↦ byte opcode ]

  -- What `parse_bitwise_and`, `parse_bitwise_or`, `parse_bitwise_xor`, `parse_shift_left` and
  -- `parse_shift_right` share.
  unfoldable pub parse_bitwise : ℕ → OpCode → M (Unit {0})
  unfolding byte
  parse_bitwise level opcode = do rec (precedence level); byte opcode

  -- `parse_and`
  unfoldable pub parse_and : M (Unit {0})
  unfolding jump byte patch
  parse_and = do end ← jump op_jump_if_false; byte op_pop; rec (precedence prec_and); patch end

  -- `parse_or`
  unfoldable pub parse_or : M (Unit {0})
  unfolding jump byte patch
  parse_or = do
    else_jump ← jump op_jump_if_false
    end ← jump op_jump
    patch else_jump
    byte op_pop
    rec (precedence prec_or)
    patch end

  -- `parse_ternary`
  unfoldable pub parse_ternary : M (Unit {0})
  unfolding jump byte patch consume
  parse_ternary = do
    then_jump ← jump op_jump_if_false
    byte op_pop
    rec (precedence prec_assign)
    else_jump ← jump op_jump
    patch then_jump
    byte op_pop
    consume token_colon
    rec (precedence prec_assign)
    patch else_jump

  -- `parse_self`
  unfoldable pub parse_self : M (Unit {0})
  unfolding class_compiler error parse_identifier
  parse_self = do
    class ← class_compiler
    elim class [ none ↦ error | some c ↦ parse_identifier rounds rec false ]

  -- The rest of `parse_super`, inside a class with a superclass.
  unfoldable pub super_method : M (Unit {0})
  unfolding consume prev_token identifier_constant parse_named_variable synthetic_token match_token
      parse_argument_list bytes operand
  super_method = do
    consume token_dot
    consume token_identifier
    name ← prev_token
    index ← identifier_constant name
    parse_named_variable rounds rec (synthetic_token (codes "self")) false
    called ← match_token token_left_paren
    if called
        then (do
          arg_count ← parse_argument_list rounds rec
          parse_named_variable rounds rec (synthetic_token (codes "super")) false
          bytes op_super_invoke index
          operand arg_count)
        else (do
          parse_named_variable rounds rec (synthetic_token (codes "super")) false
          bytes op_get_super index)

  -- `parse_super`
  unfoldable pub parse_super : M (Unit {0})
  unfolding class_compiler error super_method
  parse_super = do
    class ← class_compiler
    elim class [
      | none ↦ error
      | some has_superclass ↦ if has_superclass then super_method else error
    ]

  -- `parse_dot`
  unfoldable pub parse_dot : Bool → M (Unit {0})
  unfolding consume prev_token identifier_constant match_token parse_argument_list bytes operand
  parse_dot can_assign = do
    consume token_identifier
    name ← prev_token
    index ← identifier_constant name
    assigned ← if can_assign then match_token token_assign else return false
    called ← if assigned then return false else match_token token_left_paren
    if assigned
        then (do parse_expression rounds rec; bytes op_set_property index)
        else if called
        then (do
          arg_count ← parse_argument_list rounds rec
          bytes op_invoke index
          operand arg_count)
        else bytes op_get_property index

  -- `parse_layer`
  unfoldable pub parse_layer : M (Unit {0})
  unfolding consume prev_token identifier_constant match_token parse_argument_list bytes operand
  parse_layer = do
    consume token_identifier
    name ← prev_token
    index ← identifier_constant name
    called ← match_token token_left_paren
    if called
        then (do
          arg_count ← parse_argument_list rounds rec
          bytes op_layer_property_call index
          operand arg_count)
        else bytes op_get_layer_property index

  -- `parse_compound_assign`
  unfoldable pub parse_compound_assign : Bool → M (Unit {0})
  unfolding error pprev_token prev_token byte store_variable
  parse_compound_assign can_assign =
      if can_assign
      then (do
        name ← pprev_token
        operator ← prev_token
        rec (precedence prec_assign)
        elim (compound_code operator.type) [ none ↦ error | some opcode ↦ byte opcode ]
        store_variable name)
      else error

  -- The loop of `parse_vector`; the count is an `int`.
  unfoldable pub elements_loop : ℕ → ℕ → M ℕ
  unfolding check match_token
  elements_loop zero element_count = exhausted
  elements_loop (suc left) element_count = do
    closed ← check token_right_bracket
    if closed then return element_count else do
      parse_expression rounds rec
      more ← match_token token_comma
      if more then elements_loop left (element_count + 1) else return (element_count + 1)

  -- `parse_vector`
  unfoldable pub parse_vector : M (Unit {0})
  unfolding elements_loop consume bytes
  parse_vector = do
    element_count ← elements_loop rounds 0
    consume token_right_bracket
    bytes op_vector_new element_count

  -- `parse_vector_index`
  unfoldable pub parse_vector_index : Bool → M (Unit {0})
  unfolding consume match_token byte
  parse_vector_index can_assign = do
    parse_expression rounds rec
    consume token_right_bracket
    assigned ← if can_assign then match_token token_assign else return false
    if assigned then (do parse_expression rounds rec; byte op_vector_set) else byte op_vector_get

  -- The call of a prefix rule that is not NULL.
  unfoldable pub run_prefix : Prefix → Bool → M (Unit {0})
  run_prefix null_prefix can_assign = crash
  run_prefix grouping_prefix can_assign = parse_grouping
  run_prefix vector_prefix can_assign = parse_vector
  run_prefix lambda_prefix can_assign = parse_lambda rounds rec
  run_prefix bitwise_not_prefix can_assign = parse_bitwise_not
  run_prefix unary_prefix can_assign = parse_unary
  run_prefix identifier_prefix can_assign = parse_identifier rounds rec can_assign
  run_prefix string_prefix can_assign = parse_string
  run_prefix i32_prefix can_assign = parse_i32
  run_prefix i64_prefix can_assign = parse_i64
  run_prefix f32_prefix can_assign = parse_f32
  run_prefix f64_prefix can_assign = parse_f64
  run_prefix literal_prefix can_assign = parse_literal
  run_prefix super_prefix can_assign = parse_super
  run_prefix self_prefix can_assign = parse_self

  -- The call of an infix rule, which is made without a test for NULL.
  unfoldable pub run_infix : Infix → Bool → M (Unit {0})
  run_infix null_infix can_assign = crash
  run_infix call_infix can_assign = parse_call
  run_infix vector_index_infix can_assign = parse_vector_index can_assign
  run_infix dot_infix can_assign = parse_dot can_assign
  run_infix ternary_infix can_assign = parse_ternary
  run_infix layer_infix can_assign = parse_layer
  run_infix bitwise_and_infix can_assign = parse_bitwise prec_bitwise_and op_bw_and
  run_infix bitwise_or_infix can_assign = parse_bitwise prec_bitwise_or op_bw_or
  run_infix bitwise_xor_infix can_assign = parse_bitwise prec_bitwise_xor op_bw_xor
  run_infix shift_left_infix can_assign = parse_bitwise prec_shift op_bw_sl
  run_infix shift_right_infix can_assign = parse_bitwise prec_shift op_bw_sr
  run_infix compound_assign_infix can_assign = parse_compound_assign can_assign
  run_infix binary_infix can_assign = parse_binary
  run_infix and_infix can_assign = parse_and
  run_infix or_infix can_assign = parse_or

  -- The last part of `parse_precedence`
  unfoldable pub no_assignment : Bool → M (Unit {0})
  unfolding match_token error
  no_assignment can_assign = do
    assigned ← if can_assign then match_token token_assign else return false
    if assigned then error else skip

  -- The loop of `parse_precedence` and what comes after it.
  unfoldable pub infix_loop : ℕ → ℕ → M (Unit {0})
  unfolding curr_type advance error prev_token run_infix no_assignment
  infix_loop zero outer_precedence = exhausted
  infix_loop (suc left) outer_precedence = do
    let can_assign = leb outer_precedence prec_assign
    type ← curr_type
    if leb outer_precedence (get_rule type).precedence
        then (do
          found ← advance
          if found
              then (do
                operator ← prev_token
                run_infix (get_rule operator.type).infix_rule can_assign
                infix_loop left outer_precedence)
              else error)
        else no_assignment can_assign

  -- The middle part of `parse_precedence`: the prefix rule and what follows.
  unfoldable pub after_prefix : Prefix → ℕ → M (Unit {0})
  unfolding run_prefix error at_end infix_loop
  after_prefix null_prefix outer_precedence = error
  after_prefix prefix outer_precedence = do
    run_prefix prefix (leb outer_precedence prec_assign)
    ended ← at_end
    if ended then skip else infix_loop rounds outer_precedence

  -- `parse_precedence`
  unfoldable pub parse_precedence : ℕ → M (Unit {0})
  unfolding advance error prev_token after_prefix
  parse_precedence outer_precedence = do
    found ← advance
    if found
        then (do token ← prev_token; after_prefix (get_rule token.type).prefix outer_precedence)
        else error
