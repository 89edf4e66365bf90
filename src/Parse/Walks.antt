-- ===== src/Parse/Walks.antt =====
-- The postfix code of an expression takes exactly its tokens, and what stands around the operand of
-- an infix operator.
use joker_complier.Base.{ℕ, false, List, ◌∷◌, ◌≡◌, refl}
use joker_complier.Chunk.OpCode.{
  OpCode, op_pop, op_true, op_false, op_none, op_jump_if_false, op_jump,
}
use joker_complier.Token.{Token, same_type, token_eof}
use joker_complier.Vm.Arith.{of_bits, of_bits_i64}
use joker_complier.Parse.State.{
  i32_constant, i64_constant, f32_constant, f64_constant, string_constant, Parsing, M, ◌>>=◌, ◌>>◌,
}
use joker_complier.Parse.Moves.{shift, byte, bytes, jump, patch}
use joker_complier.Parse.Expressions.{
  strtol, unquoted, parse_i32, parse_i64, parse_f32, parse_f64, parse_string, parse_literal,
}
use joker_complier.Parse.Grammar.{
  Atom, Unary, Binary, Text, Expr, atom, group, unary, binary, ternary, atom_type, unary_type,
  binary_type, token, print, emit_atom, unary_code, around, branches, walk, i32_atom, i64_atom,
  f32_atom, f64_atom, string_atom, true_atom, false_atom, none_atom, name_atom, not_unary,
  negate_unary, bw_not_unary, and_binary, or_binary, neq,
}
use joker_complier.Parse.Variables.{access}
use joker_complier.Token.{token_left_paren, token_right_paren, token_question, token_colon}
use joker_complier.Parse.Steady.{
  curr, moved, curr-moved, shift-moved, Leaves, Leaves-continue, byte-Leaves, bytes-Leaves,
  constant-Leaves, patch-Leaves, jump-Leaves, access-Leaves,
}

-- A handler that takes the tokens before `rest`, from where they stand.
abbrev pub Takes : List Token → List Token → M (Unit {0}) → Type 0
Takes ts rest m = (s : Parsing) → curr s ≡ ts → Leaves rest (m s)

pub shift-Takes :
    (t : Token) (rest : List Token)
    → same_type t.type token_eof ≡ false
    → Takes (t ∷ rest) rest shift
shift-Takes t rest live s h = rw (shift-moved t rest s h live) (curr-moved t rest s)

module _ (ts us vs : List Token) (m n : M (Unit {0})) where
  pub >>-Takes : Takes ts us m → Takes us vs n → Takes ts vs (m >> n)
  >>-Takes h k s e = Leaves-continue us vs (m s) (λ _. n) (h s e) λ _ s' e'. k s' e'

-- A simple operator: its code comes after the operand.
pub after-Takes :
    (ts us : List Token) (opcode : OpCode) (right : M (Unit {0}))
    → Takes ts us right
    → Takes ts us (right >> byte opcode)
after-Takes ts us opcode right h =
    >>-Takes ts us us right (byte opcode) h λ s e. byte-Leaves us opcode s e

jump-Takes :
    (opcode : OpCode) (ts us : List Token) (m : ℕ → M (Unit {0}))
    → ((place : ℕ) → Takes ts us (m place))
    → Takes ts us (jump opcode >>= m)
jump-Takes opcode ts us m h s e =
    Leaves-continue ts us (jump opcode s) m (jump-Leaves ts opcode s e) h

pub around-Takes :
    (b : Binary) (ts us : List Token) (right : M (Unit {0}))
    → Takes ts us right
    → Takes ts us (around b right)
around-Takes and_binary ts us right h =
    jump-Takes op_jump_if_false ts us (λ end. byte op_pop >> (right >> patch end))
      λ end.
        >>-Takes ts ts us (byte op_pop) (right >> patch end) (byte-Leaves ts op_pop)
          (>>-Takes ts us us right (patch end) h (patch-Leaves us end))
around-Takes or_binary ts us right h =
    jump-Takes op_jump_if_false ts us
      (λ else_jump.
        jump op_jump >>= λ end. patch else_jump >> (byte op_pop >> (right >> patch end)))
      λ else_jump.
        jump-Takes op_jump ts us (λ end. patch else_jump >> (byte op_pop >> (right >> patch end)))
          λ end.
            >>-Takes ts ts us (patch else_jump) (byte op_pop >> (right >> patch end))
              (patch-Leaves ts else_jump)
              (>>-Takes ts ts us (byte op_pop) (right >> patch end) (byte-Leaves ts op_pop)
                (>>-Takes ts us us right (patch end) h (patch-Leaves us end)))
around-Takes b ts us right h = after-Takes ts us _ right h

pub branches-Takes :
    (ts us vs ws : List Token) (first colon second : M (Unit {0}))
    → Takes ts us first
    → Takes us vs colon
    → Takes vs ws second
    → Takes ts ws (branches first colon second)
branches-Takes ts us vs ws first colon second h k l =
    jump-Takes op_jump_if_false ts ws _ λ then_jump.
      >>-Takes ts ts ws (byte op_pop) _ (byte-Leaves ts op_pop) (
        >>-Takes ts us ws first _ h (
          jump-Takes op_jump us ws _ λ else_jump.
            >>-Takes us us ws (patch then_jump) _ (patch-Leaves us then_jump) (
              >>-Takes us us ws (byte op_pop) _ (byte-Leaves us op_pop) (
                >>-Takes us vs ws colon _ k
                  (>>-Takes vs ws ws second (patch else_jump) l (patch-Leaves ws else_jump))))))

-- An atom whose token was just passed.
pub atom-Leaves :
    (a : Atom) (x : Text) (rest : List Token) (s : Parsing)
    → Leaves rest (emit_atom a (moved (token (atom_type a) x) rest s))
unfolding moved parse_i32 parse_i64 parse_f32 parse_f64 parse_string parse_literal
atom-Leaves i32_atom x rest s =
    constant-Leaves rest (i32_constant (of_bits (strtol x.lexeme)))
      (moved (token (atom_type i32_atom) x) rest s) refl
atom-Leaves i64_atom x rest s =
    constant-Leaves rest (i64_constant (of_bits_i64 (strtol x.lexeme)))
      (moved (token (atom_type i64_atom) x) rest s) refl
atom-Leaves f32_atom x rest s =
    constant-Leaves rest (f32_constant x.lexeme) (moved (token (atom_type f32_atom) x) rest s) refl
atom-Leaves f64_atom x rest s =
    constant-Leaves rest (f64_constant x.lexeme) (moved (token (atom_type f64_atom) x) rest s) refl
atom-Leaves string_atom x rest s =
    constant-Leaves rest (string_constant (unquoted x.lexeme))
      (moved (token (atom_type string_atom) x) rest s) refl
atom-Leaves true_atom x rest s =
    byte-Leaves rest op_true (moved (token (atom_type true_atom) x) rest s) refl
atom-Leaves false_atom x rest s =
    byte-Leaves rest op_false (moved (token (atom_type false_atom) x) rest s) refl
atom-Leaves none_atom x rest s =
    byte-Leaves rest op_none (moved (token (atom_type none_atom) x) rest s) refl
atom-Leaves name_atom x rest s =
    let name = token (atom_type name_atom) x in
    Leaves-continue rest rest (access name (moved name rest s))
      (λ (get_op, set_op, index). bytes get_op index)
      (access-Leaves rest name (moved name rest s) (curr-moved name rest s))
      λ (get_op, set_op, index) s' e. bytes-Leaves rest get_op index s' e

pub unary-live : (u : Unary) → same_type (unary_type u) token_eof ≡ false
unary-live not_unary = refl
unary-live negate_unary = refl
unary-live bw_not_unary = refl

pub binary-live : (b : Binary) → same_type (binary_type b) token_eof ≡ false
binary-live neq = refl
binary-live b = refl

pub atom-live : (a : Atom) → same_type (atom_type a) token_eof ≡ false
atom-live i32_atom = refl
atom-live a = refl

-- The postfix code of an expression takes its tokens.
pub walk-Takes : (e : Expr) (rest : List Token) → Takes (print e rest) rest (walk e)
walk-Takes (atom a x) rest =
    λ s h. rw (shift-moved (token (atom_type a) x) rest s h (atom-live a)) (atom-Leaves a x rest s)
walk-Takes (group x e y) rest =
    let close = token token_right_paren y ∷ rest in
    >>-Takes (print (group x e y) rest) (print e close) rest shift (walk e >> shift)
      (shift-Takes (token token_left_paren x) (print e close) refl)
      (>>-Takes (print e close) close rest (walk e) shift (walk-Takes e close)
        (shift-Takes (token token_right_paren y) rest refl))
walk-Takes (unary u x e) rest =
    >>-Takes (print (unary u x e) rest) (print e rest) rest shift (walk e >> byte (unary_code u))
      (shift-Takes (token (unary_type u) x) (print e rest) (unary-live u))
      (after-Takes (print e rest) rest (unary_code u) (walk e) (walk-Takes e rest))
walk-Takes (binary l b x r) rest =
    let right = token (binary_type b) x ∷ print r rest in
    >>-Takes (print l right) right rest (walk l) (shift >> around b (walk r)) (walk-Takes l right) (
      >>-Takes right (print r rest) rest shift (around b (walk r))
        (shift-Takes (token (binary_type b) x) (print r rest) (binary-live b))
        (around-Takes b (print r rest) rest (walk r) (walk-Takes r rest)))
walk-Takes (ternary c x a y b) rest =
    let others = print b rest in
    let colon = token token_colon y ∷ others in
    let first = print a colon in
    >>-Takes (print (ternary c x a y b) rest) (token token_question x ∷ first) rest (walk c)
      (shift >> branches (walk a) shift (walk b)) (walk-Takes c (token token_question x ∷ first))
      (>>-Takes (token token_question x ∷ first) first rest shift (branches (walk a) shift (walk b))
        (shift-Takes (token token_question x) first refl)
        (branches-Takes first colon others rest (walk a) shift (walk b) (walk-Takes a colon)
          (shift-Takes (token token_colon y) others refl) (walk-Takes b rest)))
