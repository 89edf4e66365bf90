-- ===== src/Parse/Grammar.antt =====
-- The expressions of the grammar at the head of src/parser.c as trees: the tokens of a tree, when the
-- tokens need no more parentheses, and the postfix code of a tree. Assignments, calls, members,
-- lambdas and vectors are not among them.
use joker_complier.Base.{ℕ, ◌+◌, ◌≤◌, Bool, true, false, List, ◌∷◌, if◌then◌else◌}
use joker_complier.Chunk.OpCode.{
  OpCode, op_pop, op_not, op_negate, op_equal, op_not_equal, op_less, op_less_equal, op_greater,
  op_greater_equal, op_add, op_subtract, op_multiply, op_divide, op_mod, op_bw_and, op_bw_or,
  op_bw_xor, op_bw_sl, op_bw_sr, op_bw_not, op_jump_if_false, op_jump,
}
use joker_complier.Token.{
  Token, TokenType, token_left_paren, token_right_paren, token_pipe, token_colon, token_question,
  token_minus, token_plus, token_star, token_slash, token_mod, token_bit_and, token_bit_xor,
  token_shl, token_shr, token_bit_not, token_not, token_neq, token_eq, token_gt, token_egt,
  token_le, token_let, token_identifier, token_string, token_i32, token_i64, token_f32, token_f64,
  token_and, token_false, token_none, token_or, token_true,
}
use joker_complier.Parse.State.{M, ◌>>=◌, ◌>>◌}
use joker_complier.Parse.Moves.{shift, prev_token, byte, bytes, jump, patch}
use joker_complier.Parse.Rules.{get_rule, prec_assign, prec_conditional, prec_unary, prec_primary}
use joker_complier.Parse.Variables.{access}
use joker_complier.Parse.Expressions.{
  parse_i32, parse_i64, parse_f32, parse_f64, parse_string, parse_literal,
}

pub data Atom : Type 0 where
  i32_atom i64_atom f32_atom f64_atom string_atom true_atom false_atom none_atom name_atom : Atom

pub data Unary : Type 0 where
  not_unary negate_unary bw_not_unary : Unary

pub data Binary : Type 0 where
  neq eq gt egt le let_eq plus minus star slash mod_binary : Binary
  bit_and bit_or bit_xor shl shr and_binary or_binary : Binary

-- What a token is beside its type.
pub record Text : Type 0 where
  pub lexeme : List ℕ
  pub line : ℕ

pub data Expr : Type 0 where
  atom : Atom → Text → Expr
  group : Text → Expr → Text → Expr
  unary : Unary → Text → Expr → Expr
  binary : Expr → Binary → Text → Expr → Expr
  ternary : Expr → Text → Expr → Text → Expr → Expr

abbrev pub atom_type : Atom → TokenType
atom_type i32_atom = token_i32
atom_type i64_atom = token_i64
atom_type f32_atom = token_f32
atom_type f64_atom = token_f64
atom_type string_atom = token_string
atom_type true_atom = token_true
atom_type false_atom = token_false
atom_type none_atom = token_none
atom_type name_atom = token_identifier

abbrev pub unary_type : Unary → TokenType
unary_type not_unary = token_not
unary_type negate_unary = token_minus
unary_type bw_not_unary = token_bit_not

abbrev pub binary_type : Binary → TokenType
binary_type neq = token_neq
binary_type eq = token_eq
binary_type gt = token_gt
binary_type egt = token_egt
binary_type le = token_le
binary_type let_eq = token_let
binary_type plus = token_plus
binary_type minus = token_minus
binary_type star = token_star
binary_type slash = token_slash
binary_type mod_binary = token_mod
binary_type bit_and = token_bit_and
binary_type bit_or = token_pipe
binary_type bit_xor = token_bit_xor
binary_type shl = token_shl
binary_type shr = token_shr
binary_type and_binary = token_and
binary_type or_binary = token_or

abbrev pub token : TokenType → Text → Token
token type text = record { lexeme = text.lexeme; line = text.line; type = type }

-- The tokens of an expression, in front of those of `rest`.
abbrev pub print : Expr → List Token → List Token
print (atom a x) rest = token (atom_type a) x ∷ rest
print (group x e y) rest = token token_left_paren x ∷ print e (token token_right_paren y ∷ rest)
print (unary u x e) rest = token (unary_type u) x ∷ print e rest
print (binary l b x r) rest = print l (token (binary_type b) x ∷ print r rest)
print (ternary c x a y b) rest =
    print c (token token_question x ∷ print a (token token_colon y ∷ print b rest))

abbrev pub level : Binary → ℕ
level b = (get_rule (binary_type b)).precedence

-- Equality, comparison and arithmetic group to the left, the other operators to the right.
abbrev pub is_left : Binary → Bool
is_left bit_and = false
is_left bit_or = false
is_left bit_xor = false
is_left shl = false
is_left shr = false
is_left and_binary = false
is_left or_binary = false
is_left _ = true

-- The least level of an operand on the left, and on the right.
abbrev pub left_level : Binary → ℕ
left_level b = if is_left b then level b else level b + 1

abbrev pub right_level : Binary → ℕ
right_level b = if is_left b then level b + 1 else level b

-- The expression can stand where operators of at least this level are read.
abbrev pub Fits : ℕ → Expr → Type 0
Fits p (atom a x) = Unit
Fits p (group x e y) = Fits prec_assign e
Fits p (unary u x e) = Fits prec_unary e
Fits p (binary l b x r) = (p ≤ level b) × Fits (left_level b) l × Fits (right_level b) r
Fits p (ternary c x a y b) =
    (p ≤ prec_conditional) × Fits (prec_conditional + 1) c × Fits prec_assign a × Fits prec_assign b

-- A token of this level or above, after the expression, would be read as a part of it.
abbrev pub limit : Expr → ℕ
limit (atom a x) = prec_primary + 1
limit (group x e y) = prec_primary + 1
limit (unary u x e) = prec_unary
limit (binary l b x r) = right_level b
limit (ternary c x a y b) = prec_assign

abbrev pub size : Expr → ℕ
size (atom a x) = 2
size (group x e y) = size e + 2
size (unary u x e) = size e + 2
size (binary l b x r) = size l + size r + 2
size (ternary c x a y b) = size c + size a + size b + 2

-- The rounds of the loop over infix operators that an expression takes.
abbrev pub spine : Expr → ℕ
spine (binary l b x r) = spine l + 1
spine (ternary c x a y b) = spine c + 1
spine _ = 0

-- The code of an atom whose token is `self->prev`.
abbrev pub emit_atom : Atom → M (Unit {0})
emit_atom i32_atom = parse_i32
emit_atom i64_atom = parse_i64
emit_atom f32_atom = parse_f32
emit_atom f64_atom = parse_f64
emit_atom string_atom = parse_string
emit_atom true_atom = parse_literal
emit_atom false_atom = parse_literal
emit_atom none_atom = parse_literal
emit_atom name_atom = do
  name ← prev_token
  (get_op, set_op, index) ← access name
  bytes get_op index

abbrev pub unary_code : Unary → OpCode
unary_code not_unary = op_not
unary_code negate_unary = op_negate
unary_code bw_not_unary = op_bw_not

-- The code around the code of the operand on the right.
abbrev pub around : Binary → M (Unit {0}) → M (Unit {0})
around neq right = do right; byte op_not_equal
around eq right = do right; byte op_equal
around gt right = do right; byte op_greater
around egt right = do right; byte op_greater_equal
around le right = do right; byte op_less
around let_eq right = do right; byte op_less_equal
around plus right = do right; byte op_add
around minus right = do right; byte op_subtract
around star right = do right; byte op_multiply
around slash right = do right; byte op_divide
around mod_binary right = do right; byte op_mod
around bit_and right = do right; byte op_bw_and
around bit_or right = do right; byte op_bw_or
around bit_xor right = do right; byte op_bw_xor
around shl right = do right; byte op_bw_sl
around shr right = do right; byte op_bw_sr
around and_binary right = do end ← jump op_jump_if_false; byte op_pop; right; patch end
around or_binary right = do
  else_jump ← jump op_jump_if_false
  end ← jump op_jump
  patch else_jump
  byte op_pop
  right
  patch end

-- The code of the branches of a conditional expression, with the step over the colon.
abbrev pub branches : M (Unit {0}) → M (Unit {0}) → M (Unit {0}) → M (Unit {0})
branches first colon second = do
  then_jump ← jump op_jump_if_false
  byte op_pop
  first
  else_jump ← jump op_jump
  patch then_jump
  byte op_pop
  colon
  second
  patch else_jump

-- The postfix code of an expression, written while the tokens are passed over.
abbrev pub walk : Expr → M (Unit {0})
walk (atom a x) = do shift; emit_atom a
walk (group x e y) = do shift; walk e; shift
walk (unary u x e) = do shift; walk e; byte (unary_code u)
walk (binary l b x r) = do walk l; shift; around b (walk r)
walk (ternary c x a y b) = do walk c; shift; branches (walk a) shift (walk b)
