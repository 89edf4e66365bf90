-- ===== src/Parse/Rules.antt =====
-- include/parser.h: the levels of precedence and the table of the parser's rules.
use joker_complier.Base.{ℕ}
use joker_complier.Token.{
  TokenType, token_and, token_bit_and, token_bit_and_assign, token_bit_not, token_bit_not_assign,
  token_bit_or_assign, token_bit_xor, token_bit_xor_assign, token_dot, token_egt, token_eq,
  token_f32, token_f64, token_false, token_gt, token_i32, token_i64, token_identifier, token_layer,
  token_le, token_left_bracket, token_left_paren, token_let, token_minus, token_minus_assign,
  token_mod, token_mod_assign, token_neq, token_none, token_not, token_or, token_pipe, token_plus,
  token_plus_assign, token_question, token_self, token_shl, token_shl_assign, token_shr,
  token_shr_assign, token_slash, token_slash_assign, token_star, token_star_assign, token_string,
  token_super, token_true,
}

abbrev pub prec_none : ℕ
prec_none = 0

abbrev pub prec_assign : ℕ
prec_assign = 1

abbrev pub prec_conditional : ℕ
prec_conditional = 2

abbrev pub prec_or : ℕ
prec_or = 3

abbrev pub prec_and : ℕ
prec_and = 4

abbrev pub prec_bitwise_or : ℕ
prec_bitwise_or = 5

abbrev pub prec_bitwise_xor : ℕ
prec_bitwise_xor = 6

abbrev pub prec_bitwise_and : ℕ
prec_bitwise_and = 7

abbrev pub prec_equality : ℕ
prec_equality = 8

abbrev pub prec_comparison : ℕ
prec_comparison = 9

abbrev pub prec_shift : ℕ
prec_shift = 10

abbrev pub prec_term : ℕ
prec_term = 11

abbrev pub prec_factor : ℕ
prec_factor = 12

abbrev pub prec_unary : ℕ
prec_unary = 13

abbrev pub prec_call : ℕ
prec_call = 14

abbrev pub prec_primary : ℕ
prec_primary = 15

-- The functions of the column `prefix`.
pub data Prefix : Type 0 where
  grouping_prefix null_prefix vector_prefix lambda_prefix bitwise_not_prefix : Prefix
  unary_prefix identifier_prefix string_prefix i32_prefix i64_prefix f32_prefix : Prefix
  f64_prefix literal_prefix super_prefix self_prefix : Prefix

-- The functions of the column `infix`.
pub data Infix : Type 0 where
  call_infix null_infix vector_index_infix dot_infix ternary_infix layer_infix : Infix
  bitwise_and_infix bitwise_or_infix bitwise_xor_infix shift_left_infix : Infix
  shift_right_infix compound_assign_infix binary_infix and_infix or_infix : Infix

-- `precedence[0]` and `precedence[1]`
pub record ParseRule : Type 0 where
  pub prefix : Prefix
  pub infix_rule : Infix
  pub operand : ℕ
  pub precedence : ℕ

abbrev pub rule : Prefix → Infix → ℕ → ℕ → ParseRule
rule prefix infix_rule operand precedence = record {
  prefix = prefix;
  infix_rule = infix_rule;
  operand = operand;
  precedence = precedence;
}

-- `static_syntax_rules`: a type that it does not name, or names with two NULLs, has no rule.
abbrev pub get_rule : TokenType → ParseRule
get_rule token_left_paren = rule grouping_prefix call_infix prec_call prec_call
get_rule token_left_bracket = rule vector_prefix vector_index_infix prec_call prec_call
get_rule token_dot = rule null_prefix dot_infix prec_call prec_call
get_rule token_question = rule null_prefix ternary_infix prec_conditional prec_conditional
get_rule token_layer = rule null_prefix layer_infix prec_call prec_call
get_rule token_bit_and = rule null_prefix bitwise_and_infix prec_bitwise_and prec_bitwise_and
get_rule token_pipe = rule lambda_prefix bitwise_or_infix prec_primary prec_bitwise_or
get_rule token_bit_xor = rule null_prefix bitwise_xor_infix prec_bitwise_xor prec_bitwise_xor
get_rule token_bit_not = rule bitwise_not_prefix null_infix prec_unary prec_unary
get_rule token_shl = rule null_prefix shift_left_infix prec_shift prec_shift
get_rule token_shr = rule null_prefix shift_right_infix prec_shift prec_shift
get_rule token_plus_assign = rule null_prefix compound_assign_infix prec_assign prec_assign
get_rule token_minus_assign = rule null_prefix compound_assign_infix prec_assign prec_assign
get_rule token_star_assign = rule null_prefix compound_assign_infix prec_assign prec_assign
get_rule token_slash_assign = rule null_prefix compound_assign_infix prec_assign prec_assign
get_rule token_mod_assign = rule null_prefix compound_assign_infix prec_assign prec_assign
get_rule token_bit_and_assign = rule null_prefix compound_assign_infix prec_assign prec_assign
get_rule token_bit_or_assign = rule null_prefix compound_assign_infix prec_assign prec_assign
get_rule token_bit_xor_assign = rule null_prefix compound_assign_infix prec_assign prec_assign
get_rule token_bit_not_assign = rule null_prefix compound_assign_infix prec_assign prec_assign
get_rule token_shl_assign = rule null_prefix compound_assign_infix prec_assign prec_assign
get_rule token_shr_assign = rule null_prefix compound_assign_infix prec_assign prec_assign
get_rule token_minus = rule unary_prefix binary_infix prec_term prec_term
get_rule token_plus = rule null_prefix binary_infix prec_term prec_term
get_rule token_slash = rule null_prefix binary_infix prec_factor prec_factor
get_rule token_star = rule null_prefix binary_infix prec_factor prec_factor
get_rule token_mod = rule null_prefix binary_infix prec_factor prec_factor
get_rule token_not = rule unary_prefix null_infix prec_unary prec_unary
get_rule token_neq = rule null_prefix binary_infix prec_equality prec_equality
get_rule token_eq = rule null_prefix binary_infix prec_equality prec_equality
get_rule token_gt = rule null_prefix binary_infix prec_comparison prec_comparison
get_rule token_egt = rule null_prefix binary_infix prec_comparison prec_comparison
get_rule token_le = rule null_prefix binary_infix prec_comparison prec_comparison
get_rule token_let = rule null_prefix binary_infix prec_comparison prec_comparison
get_rule token_identifier = rule identifier_prefix null_infix prec_none prec_none
get_rule token_string = rule string_prefix null_infix prec_none prec_none
get_rule token_i32 = rule i32_prefix null_infix prec_none prec_none
get_rule token_i64 = rule i64_prefix null_infix prec_none prec_none
get_rule token_f32 = rule f32_prefix null_infix prec_none prec_none
get_rule token_f64 = rule f64_prefix null_infix prec_none prec_none
get_rule token_and = rule null_prefix and_infix prec_and prec_and
get_rule token_false = rule literal_prefix null_infix prec_none prec_none
get_rule token_none = rule literal_prefix null_infix prec_none prec_none
get_rule token_or = rule null_prefix or_infix prec_or prec_or
get_rule token_super = rule super_prefix null_infix prec_none prec_none
get_rule token_self = rule self_prefix null_infix prec_none prec_none
get_rule token_true = rule literal_prefix null_infix prec_none prec_none
get_rule _ = rule null_prefix null_infix prec_none prec_none
