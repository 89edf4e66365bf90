-- ===== src/Token.antt =====
-- include/token.h and src/token.c: the tokens of the scanner, and the comparison of lexemes.
-- A token keeps the text that its pointer and its length delimit.
use joker_complier.Base.{ℕ, Bool, true, false, ◌&&◌, List, [], ◌∷◌, ◌==◌, length}

pub data TokenType : Type 0 where
  token_left_paren token_right_paren token_left_bracket token_right_bracket token_left_brace :
      TokenType
  token_right_brace token_comma token_dot token_pipe token_colon token_question : TokenType
  token_semicolon token_minus token_plus token_star token_slash token_mod token_plus_assign :
      TokenType
  token_minus_assign token_star_assign token_slash_assign token_mod_assign token_bit_and : TokenType
  token_bit_and_assign token_bit_or token_bit_or_assign token_bit_xor token_bit_xor_assign :
      TokenType
  token_shl token_shl_assign token_shr token_shr_assign token_bit_not token_bit_not_assign :
      TokenType
  token_not token_neq token_assign token_eq token_gt token_egt token_le token_let token_arrow :
      TokenType
  token_fat_arrow token_underscore token_layer token_identifier token_string token_i32 : TokenType
  token_i64 token_f32 token_f64 token_type token_and token_class token_struct token_else : TokenType
  token_false token_for token_fn token_if token_none token_or token_return token_super : TokenType
  token_self token_true token_var token_while token_break token_continue token_match : TokenType
  token_loop token_enum token_error token_eof : TokenType

pub record Token : Type 0 where
  pub lexeme : List ℕ
  pub line : ℕ
  pub type : TokenType

unfoldable pub make_token : TokenType → List ℕ → ℕ → Token
make_token type lexeme line = record { lexeme = lexeme; line = line; type = type }

unfoldable pub eof_token : ℕ → Token
unfolding make_token
eof_token line = make_token token_eof [] line

-- `memcmp(a, b, n) == 0`, where `n` is the length of both.
abbrev pub same_bytes : List ℕ → List ℕ → Bool
same_bytes [] [] = true
same_bytes (a ∷ as') (b ∷ bs) = (a == b) && same_bytes as' bs
same_bytes _ _ = false

unfoldable pub equal_token : Token → Token → Bool
equal_token left right =
    (length left.lexeme == length right.lexeme) && same_bytes left.lexeme right.lexeme

-- The number of a type in the enumeration.
abbrev pub type_number : TokenType → ℕ
type_number token_left_paren = 0
type_number token_right_paren = 1
type_number token_left_bracket = 2
type_number token_right_bracket = 3
type_number token_left_brace = 4
type_number token_right_brace = 5
type_number token_comma = 6
type_number token_dot = 7
type_number token_pipe = 8
type_number token_colon = 9
type_number token_question = 10
type_number token_semicolon = 11
type_number token_minus = 12
type_number token_plus = 13
type_number token_star = 14
type_number token_slash = 15
type_number token_mod = 16
type_number token_plus_assign = 17
type_number token_minus_assign = 18
type_number token_star_assign = 19
type_number token_slash_assign = 20
type_number token_mod_assign = 21
type_number token_bit_and = 22
type_number token_bit_and_assign = 23
type_number token_bit_or = 24
type_number token_bit_or_assign = 25
type_number token_bit_xor = 26
type_number token_bit_xor_assign = 27
type_number token_shl = 28
type_number token_shl_assign = 29
type_number token_shr = 30
type_number token_shr_assign = 31
type_number token_bit_not = 32
type_number token_bit_not_assign = 33
type_number token_not = 34
type_number token_neq = 35
type_number token_assign = 36
type_number token_eq = 37
type_number token_gt = 38
type_number token_egt = 39
type_number token_le = 40
type_number token_let = 41
type_number token_arrow = 42
type_number token_fat_arrow = 43
type_number token_underscore = 44
type_number token_layer = 45
type_number token_identifier = 46
type_number token_string = 47
type_number token_i32 = 48
type_number token_i64 = 49
type_number token_f32 = 50
type_number token_f64 = 51
type_number token_type = 52
type_number token_and = 53
type_number token_class = 54
type_number token_struct = 55
type_number token_else = 56
type_number token_false = 57
type_number token_for = 58
type_number token_fn = 59
type_number token_if = 60
type_number token_none = 61
type_number token_or = 62
type_number token_return = 63
type_number token_super = 64
type_number token_self = 65
type_number token_true = 66
type_number token_var = 67
type_number token_while = 68
type_number token_break = 69
type_number token_continue = 70
type_number token_match = 71
type_number token_loop = 72
type_number token_enum = 73
type_number token_error = 74
type_number token_eof = 75

abbrev pub same_type : TokenType → TokenType → Bool
same_type a b = type_number a == type_number b
