-- ===== src/Parse/Variables.antt =====
-- src/parser.c: the calls between the handlers, uses of names, and lists of expressions. `rec` is the
-- parser with less fuel, for the handlers that call one another in a circle, and `rounds` is the fuel
-- of the loops.
use joker_complier.Base.{
  ℕ, zero, suc, ◌+◌, ◌%◌, ◌^◌, Bool, false, Option, none, some, List, ◌==◌, if◌then◌else◌,
}
use joker_complier.Chunk.OpCode.{
  OpCode, op_get_local, op_set_local, op_get_upvalue, op_set_upvalue, op_get_global, op_set_global,
}
use joker_complier.Token.{
  Token, TokenType, token_assign, token_comma, token_right_paren, token_identifier,
}
use joker_complier.Parse.State.{M, ◌>>=◌, ◌>>◌, return, skip, exhausted}
use joker_complier.Parse.Moves.{
  error, check, match_token, consume, prev_token, bytes, shift, check_any,
}
use joker_complier.Parse.Names.{
  resolve_local, resolve_upvalue, identifier_constant, declare, scope_depth,
}
use joker_complier.Parse.Rules.{prec_assign}

-- `argument_count_max`
abbrev pub argument_count_max : ℕ
argument_count_max = 255

-- The handlers that are called in a circle.
pub data Goal : Type 0 where
  precedence : ℕ → Goal
  declaration statement match_statement class_declaration : Goal

-- `parse_variable`
unfoldable pub parse_variable : M ℕ
unfolding consume prev_token declare scope_depth identifier_constant
parse_variable = do
  consume token_identifier
  name ← prev_token
  declare name
  depth ← scope_depth
  if depth == 0 then identifier_constant name else return 0

-- The last `else` of `parse_named_variable`
unfoldable pub global_access : Token → M (OpCode × OpCode × ℕ)
unfolding identifier_constant
global_access name = do i ← identifier_constant name; return (op_get_global, op_set_global, i)

-- The choice by the result of `resolve_upvalue`
abbrev pub upvalue_access : Token → Option ℕ → M (OpCode × OpCode × ℕ)
upvalue_access name (some i) = return (op_get_upvalue, op_set_upvalue, i)
upvalue_access name none = global_access name

unfoldable pub outer_access : Token → M (OpCode × OpCode × ℕ)
unfolding resolve_upvalue global_access
outer_access name = do upvalue ← resolve_upvalue name; upvalue_access name upvalue

-- The choice by the result of `resolve_local`
abbrev pub local_access : Token → Option ℕ → M (OpCode × OpCode × ℕ)
local_access name (some i) = return (op_get_local, op_set_local, i)
local_access name none = outer_access name

-- The first part of `parse_named_variable`: the codes that read and write the variable, and its index.
unfoldable pub access : Token → M (OpCode × OpCode × ℕ)
unfolding resolve_local outer_access
access name = do local ← resolve_local name; local_access name local

-- `while (!parse_check(self, …)) parse_advance(self)`, which does not end where no such token is left
unfoldable pub skip_until : ℕ → List TokenType → M (Unit {0})
skip_until zero stops = exhausted
skip_until (suc rounds) stops = do
  found ← check_any stops
  if found then skip else (do shift; skip_until rounds stops)

module _ (rounds : ℕ) (rec : Goal → M (Unit {0})) where
  -- `parse_expression`
  abbrev pub parse_expression : M (Unit {0})
  parse_expression = rec (precedence prec_assign)

  -- `parse_named_variable`
  unfoldable pub parse_named_variable : Token → Bool → M (Unit {0})
  unfolding access match_token bytes
  parse_named_variable name can_assign = do
    (get_op, set_op, index) ← access name
    assigned ← if can_assign then match_token token_assign else return false
    if assigned then (do parse_expression; bytes set_op index) else bytes get_op index

  -- `parse_identifier`
  unfoldable pub parse_identifier : Bool → M (Unit {0})
  unfolding parse_named_variable prev_token
  parse_identifier can_assign = do name ← prev_token; parse_named_variable name can_assign

  -- The loop of `parse_argument_list`; the count is a `uint8_t`.
  unfoldable pub arguments_loop : ℕ → ℕ → M ℕ
  unfolding error match_token
  arguments_loop zero arg_count = exhausted
  arguments_loop (suc left) arg_count = do
    parse_expression
    if arg_count == argument_count_max then error else skip
    more ← match_token token_comma
    let counted = (arg_count + 1) % 2 ^ 8
    if more then arguments_loop left counted else return counted

  -- `parse_argument_list`
  unfoldable pub parse_argument_list : M ℕ
  unfolding check arguments_loop consume
  parse_argument_list = do
    closed ← check token_right_paren
    arg_count ← if closed then return 0 else arguments_loop rounds 0
    consume token_right_paren
    return arg_count
