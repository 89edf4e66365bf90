-- ===== src/Parse/Dispatch.antt =====
-- src/parser.c: the table of rules at the tokens of an expression, and one round of the loop over
-- infix operators.
use joker_complier.Base.{
  ℕ, suc, Bool, true, false, List, ◌∷◌, ok, ◌≡◌, refl, ap, leb, if◌then◌else◌,
}
use joker_complier.Token.{Token, same_type, token_eof, token_assign, token_colon, token_right_paren}
use joker_complier.Parse.State.{Parsing, M, continue, ◌>>=◌, ◌>>◌, skip, return}
use joker_complier.Parse.Moves.{prev_token, at_end, consume, byte, bytes, match_token, jump, error}
use joker_complier.Compiler.Emit.{emit_jump}
use joker_complier.Parse.Rules.{
  Prefix, null_prefix, grouping_prefix, get_rule, prec_unary, prec_assign, ternary_infix,
}
use joker_complier.Parse.Variables.{
  Goal, precedence, access, parse_named_variable, parse_identifier,
}
use joker_complier.Parse.Expressions.{
  run_prefix, run_infix, after_prefix, infix_loop, parse_precedence, no_assignment, parse_binary,
  parse_bitwise, parse_and, parse_or, parse_ternary, parse_unary, parse_bitwise_not, parse_grouping,
}
use joker_complier.Parse.Grammar.{
  Atom, Unary, Binary, Text, atom_type, unary_type, binary_type, token, emit_atom, unary_code,
  around, branches, right_level, neq, name_atom, not_unary,
}
use joker_complier.Parse.Steady.{
  curr, moved, at_end-eq, curr_type-eq, match_token-other, continue_cong, access-Leaves,
}

abbrev pub is_null : Prefix → Bool
is_null null_prefix = true
is_null _ = false

-- A token that is no `=` is no assignment.
unassigned :
    (t : Token) (rest : List Token) (s : Parsing)
    → curr s ≡ t ∷ rest
    → same_type t.type token_assign ≡ false
    → (can : Bool) (f : Bool → M (Unit {0}))
    → continue ((if can then match_token token_assign else return false) s) f ≡ f false s
unassigned t rest s e other true f = rw (match_token-other t rest s e token_assign other) refl
unassigned t rest s e other false f = refl

module _ (rounds : ℕ) (rec : Goal → M (Unit {0})) where
  -- What follows a prefix rule.
  pub rest_of : ℕ → M (Unit {0})
  rest_of p = do ended ← at_end; if ended then skip else infix_loop rounds rec rounds p

  after_prefix-run :
      (prefix : Prefix) (p : ℕ)
      → is_null prefix ≡ false
      → after_prefix rounds rec prefix p
        ≡ (run_prefix rounds rec prefix (leb p prec_assign) >> rest_of p)
  unfolding after_prefix rest_of
  after_prefix-run null_prefix p h = cc
  after_prefix-run prefix p h = refl

  -- A prefix rule is called with its token as the previous one.
  pub parse_precedence-prefix :
      (t : Token) (rest : List Token) (s : Parsing) (p : ℕ)
      → curr s ≡ t ∷ rest
      → same_type t.type token_eof ≡ false
      → is_null (get_rule t.type).prefix ≡ false
      → parse_precedence rounds rec p s
        ≡ continue
            (run_prefix rounds rec (get_rule t.type).prefix (leb p prec_assign) (moved t rest s))
            (λ _. rest_of p)
  unfolding parse_precedence prev_token moved
  parse_precedence-prefix t rest s p e live rule =
      rw (e, live)
        (ap (λ (m : M (Unit {0})). m (moved t rest s))
          (after_prefix-run (get_rule t.type).prefix p rule))

  pub rest_of-live :
      (t : Token) (rest : List Token) (s : Parsing) (p : ℕ)
      → curr s ≡ t ∷ rest
      → same_type t.type token_eof ≡ false
      → rest_of p s ≡ infix_loop rounds rec rounds p s
  unfolding rest_of
  rest_of-live t rest s p e live = rw (at_end-eq t rest s e, live) refl

  -- An infix operator of a level that is high enough is called with its token as the previous one.
  pub infix_loop-suc :
      (t : Token) (rest : List Token) (s : Parsing) (p left : ℕ)
      → curr s ≡ t ∷ rest
      → same_type t.type token_eof ≡ false
      → leb p (get_rule t.type).precedence ≡ true
      → infix_loop rounds rec (suc left) p s
        ≡ continue
            (run_infix rounds rec (get_rule t.type).infix_rule (leb p prec_assign) (moved t rest s))
            (λ _. infix_loop rounds rec left p)
  unfolding infix_loop prev_token moved
  infix_loop-suc t rest s p left e live high = rw (e, high, live) refl

  -- The loop ends at a token of a lower level.
  pub infix_loop-stop :
      (t : Token) (rest : List Token) (s : Parsing) (p left : ℕ)
      → curr s ≡ t ∷ rest
      → leb p (get_rule t.type).precedence ≡ false
      → same_type t.type token_assign ≡ false
      → infix_loop rounds rec (suc left) p s ≡ ok (tt, s)
  unfolding infix_loop no_assignment
  infix_loop-stop t rest s p left e low other =
      simp (curr_type-eq t rest s e, low)
        (unassigned t rest s e other (leb p prec_assign)
          (λ assigned. if assigned then error else skip))

  -- The rule of an infix operator.
  pub run_infix-around :
      (b : Binary) (x : Text) (rest : List Token) (s : Parsing) (can : Bool)
      → run_infix rounds rec
          (get_rule (binary_type b)).infix_rule
          can
          (moved (token (binary_type b) x) rest s)
        ≡ around b (rec (precedence (right_level b))) (moved (token (binary_type b) x) rest s)
  unfolding run_infix moved parse_binary parse_bitwise jump parse_and emit_jump parse_or
  run_infix-around neq x rest s can = refl
  run_infix-around b x rest s can = refl

  pub run_infix-branches :
      (s : Parsing) (can : Bool)
      → run_infix rounds rec ternary_infix can s
        ≡ branches
            (rec (precedence prec_assign))
            (consume token_colon)
            (rec (precedence prec_assign))
            s
  unfolding run_infix jump parse_ternary
  run_infix-branches s can = refl

  pub run_prefix-grouping :
      (s : Parsing) (can : Bool)
      → run_prefix rounds rec grouping_prefix can s
        ≡ (rec (precedence prec_assign) >> consume token_right_paren) s
  unfolding run_prefix parse_grouping
  run_prefix-grouping s can = refl

  -- The rule of a unary operator.
  pub run_prefix-unary :
      (u : Unary) (x : Text) (rest : List Token) (s : Parsing) (can : Bool)
      → run_prefix rounds rec
          (get_rule (unary_type u)).prefix
          can
          (moved (token (unary_type u) x) rest s)
        ≡ continue
            (rec (precedence prec_unary) (moved (token (unary_type u) x) rest s))
            (λ _. byte (unary_code u))
  unfolding run_prefix moved parse_unary parse_bitwise_not
  run_prefix-unary not_unary x rest s can = refl
  run_prefix-unary u x rest s can = refl

  -- The rule of an atom that no assignment follows.
  pub run_prefix-atom :
      (a : Atom) (x : Text) (t : Token) (rest : List Token) (s : Parsing) (can : Bool)
      → same_type t.type token_assign ≡ false
      → run_prefix rounds rec
          (get_rule (atom_type a)).prefix
          can
          (moved (token (atom_type a) x) (t ∷ rest) s)
        ≡ emit_atom a (moved (token (atom_type a) x) (t ∷ rest) s)
  unfolding run_prefix parse_identifier parse_named_variable moved
  run_prefix-atom name_atom x t rest s can other =
      let name = token (atom_type name_atom) x in
      let at = moved name (t ∷ rest) s in
      continue_cong (t ∷ rest) (access name at)
        (λ (get_op, set_op, index). do
          assigned ← if can then match_token token_assign else return false
          if assigned
              then (do rec (precedence prec_assign); bytes set_op index)
              else bytes get_op index)
        (λ (get_op, set_op, index). bytes get_op index) (access-Leaves (t ∷ rest) name at refl)
        λ (get_op, set_op, index) s' e. unassigned t rest s' e other can λ assigned.
          if assigned
          then rec (precedence prec_assign) >> bytes set_op index
          else bytes get_op index
  run_prefix-atom a x t rest s can other = refl
