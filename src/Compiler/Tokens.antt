-- ===== src/Compiler/Tokens.antt =====
-- src/parser.c: the parser's place in the token list, and its recovery from an error. `curr` is the
-- list from the current token on, empty where the pointer is NULL.
use joker_complier.Base.{
  ℕ, zero, suc, Bool, true, false, ◌||◌, Option, none, some, List, [], ◌∷◌, Outcome, ok, undefined,
  out_of_fuel, if◌then◌else◌, length,
}
use joker_complier.Token.{
  Token, TokenType, same_type, token_eof, token_semicolon, token_class, token_fn, token_var,
  token_for, token_if, token_while, token_return,
}

pub record Cursor : Type 0 where
  pub prev : Option Token
  pub pprev : Option Token
  pub curr : List Token
  pub had_error : Bool
  pub panic_mode : Bool

-- `init_parser`
unfoldable pub init_parser : List Token → Cursor
init_parser tokens = record {
  prev = none;
  pprev = none;
  curr = tokens;
  had_error = false;
  panic_mode = false;
}

-- The flags that every error of the parser sets.
unfoldable pub report : Cursor → Cursor
report self = if self.panic_mode then self else record self { panic_mode = true; had_error = true }

-- `parse_is_at_end`
unfoldable pub parse_is_at_end : Cursor → Bool × Cursor
parse_is_at_end self = elim self.curr [
  | [] ↦ (true, report self)
  | token ∷ rest ↦ (same_type token.type token_eof, self)
]

-- `parse_advance`; the result NULL is `none`.
unfoldable pub parse_advance : Cursor → Option Token × Cursor
parse_advance self =
    let (at_end, self') = parse_is_at_end self in
    let stepped : Option Token × Cursor = elim self.curr [
      | [] ↦ (none, self')
      | token ∷ rest ↦
          (some token, record self { pprev = self.prev; prev = some token; curr = rest })
    ] in
    if at_end then (none, self') else stepped

-- `parse_check`
unfoldable pub parse_check : Cursor → TokenType → Bool
parse_check self type = elim self.curr [ [] ↦ false | token ∷ rest ↦ same_type token.type type ]

-- `parse_match`
unfoldable pub parse_match : Cursor → TokenType → Bool × Cursor
parse_match self type =
    if parse_check self type then (true, (parse_advance self).1) else (false, self)

-- `parse_consume`, which reads the current token without a test for NULL.
unfoldable pub parse_consume : Cursor → TokenType → Outcome Cursor
parse_consume self type = elim self.curr [
  | [] ↦ undefined
  | token ∷ rest ↦ ok (if same_type token.type type then (parse_advance self).1 else report self)
]

-- The types that the `switch` of `synchronize` stops at.
abbrev pub starts_statement : TokenType → Bool
starts_statement type =
    same_type type token_class
    || same_type type token_fn
    || same_type type token_var
    || same_type type token_for
    || same_type type token_if
    || same_type type token_while
    || same_type type token_return

abbrev pub starts : List Token → Bool
starts [] = false
starts (token ∷ rest) = starts_statement token.type

-- The loop of `synchronize`, on fuel.
unfoldable pub sync_loop : ℕ → Cursor → Outcome Cursor
sync_loop zero self = out_of_fuel
sync_loop (suc fuel) self =
    let rest = sync_loop fuel (parse_advance self).1 in
    let step : Outcome Cursor = elim self.prev [
      | none ↦ undefined
      | some token ↦
          if same_type token.type token_semicolon || starts self.curr then ok self else rest
    ] in
    if (parse_is_at_end self).0 then ok (parse_is_at_end self).1 else step

unfoldable pub synchronize : Cursor → Outcome Cursor
synchronize self = sync_loop (suc (length self.curr)) (record self { panic_mode = false })
