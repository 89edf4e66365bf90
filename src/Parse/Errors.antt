-- ===== src/Parse/Errors.antt =====
-- src/parser.c and src/compiler.c: what becomes of an error.
use joker_complier.Base.{
  Outcome, Option, none, ℕ, suc, ◌-◌, ◌<◌, false, some, List, ◌∷◌, ok, panic, undefined,
  out_of_fuel, if◌then◌else◌, ◌≡◌, refl, ◌∙◌, ◌⊎◌, inl, inr, arith,
}
use joker_complier.Token.{
  Token, TokenType, same_type, token_eof, token_assign, token_bit_not, token_not,
}
use joker_complier.Parse.State.{Fn, Parsing, start}
use joker_complier.Parse.Rules.{prec_assign, prec_unary, get_rule, null_infix}
use joker_complier.Parse.Variables.{precedence}
use joker_complier.Parse.Expressions.{infix_loop, run_infix}
use joker_complier.Parse.Run.{parse, parse_tokens, compile, free_parser}
use joker_complier.Base
use joker_complier.Parse.Grammar.{Expr, print, walk, size, spine, limit, Fits}
use joker_complier.Parse.Steady.{curr, continue_cong}
use joker_complier.Parse.Walks.{walk-Takes}
use joker_complier.Parse.Dispatch.{infix_loop-suc}
use joker_complier.Parse.Pratt.{parse-Reads, predecessor, spine-lt-size}

-- What `compile` makes of the end of the parsing.
abbrev result : Fn × Parsing → Outcome (Option Fn × List Fn)
result (fn, s) =
    let freed = free_parser s in
    ok (if freed.cursor.had_error then none else some fn, freed.functions)

result-some :
    (o : Outcome (Fn × Parsing)) (fns : List Fn)
    → ¬ (Base.◌>>=◌ {B = Option Fn × List Fn} o result ≡ ok (none, fns))
unfolding free_parser
result-some (ok (fn, s)) fns = λ e. cc
result-some panic fns = λ e. cc
result-some undefined fns = λ e. cc
result-some out_of_fuel fns = λ e. cc

-- The compiler never returns NULL, whatever errors the parser has reported: the flag is reset before it is
-- read, so that a program with errors is handed over to be run.
pub compile-some :
    (fuel : ℕ) (tokens : List Token) (fns : List Fn) → ¬ (compile fuel tokens ≡ ok (none, fns))
unfolding compile
compile-some fuel tokens fns = result-some (parse_tokens fuel (start tokens)) fns

-- The types of the operators that have a rule for a prefix and none for an infix.
abbrev pub Prefixed : TokenType → Type 0
Prefixed type = (type ≡ token_not) ⊎ (type ≡ token_bit_not)

-- Where their infix rule stands.
record Ranked (type : TokenType) : Type 0 where
  live : same_type type token_eof ≡ false
  other : same_type type token_assign ≡ false
  null : (get_rule type).infix_rule ≡ null_infix
  level : (get_rule type).precedence ≡ prec_unary

Prefixed-Ranked : (type : TokenType) → Prefixed type → Ranked type
Prefixed-Ranked type (inl e) =
    rw e (record { live = refl; other = refl; null = refl; level = refl })
Prefixed-Ranked type (inr e) =
    rw e (record { live = refl; other = refl; null = refl; level = refl })

-- The loop calls the rule of such an operator.
infix_loop-Prefixed :
    (n left : ℕ) (t : Token) (rest : List Token) (s : Parsing)
    → curr s ≡ t ∷ rest
    → Prefixed t.type
    → infix_loop n (parse n) (suc left) prec_assign s ≡ undefined
unfolding run_infix
infix_loop-Prefixed n left t rest s e prefixed =
    let ranked = Prefixed-Ranked t.type prefixed in
    infix_loop-suc n (parse n) t rest s prec_assign left e ranked.live (rw ranked.level refl)
    ∙ rw ranked.null refl

-- An operand that `!` or `~` follows makes the parser call a null pointer: where the tokens of an atom
-- or a group are followed by one of them, the loop of `parse_precedence` writes the code of the operand
-- and then takes the operator for an infix one, which has no rule.
pub parse-Prefixed :
    (e : Expr) (n : ℕ) (t : Token) (rest : List Token) (s s' : Parsing)
    → Fits prec_assign e
    → prec_unary < limit e
    → size e < n
    → Prefixed t.type
    → curr s ≡ print e (t ∷ rest)
    → walk e s ≡ ok (tt, s')
    → parse n (precedence prec_assign) s ≡ undefined
parse-Prefixed e n t rest s s' fits high fuel prefixed h walked =
    let ranked = Prefixed-Ranked t.type prefixed in
    let (k, n-suc) = predecessor n (omega arith) in
    let (j, left) = predecessor (k - spine e) (omega (arith, spine-lt-size e)) in
    rw n-suc (
      parse-Reads e prec_assign t rest fits
        (record { live = ranked.live; other = ranked.other; lower = rw ranked.level high }) k
        (k - spine e) s (omega arith) (omega (arith, spine-lt-size e)) h
      ∙ continue_cong (t ∷ rest) (walk e s) (λ _. infix_loop k (parse k) (k - spine e) prec_assign)
          (λ _ _. undefined) (walk-Takes e (t ∷ rest) s h)
          (λ _ s'' e'. rw left (infix_loop-Prefixed k j t rest s'' e' prefixed))
      ∙ rw walked refl)
