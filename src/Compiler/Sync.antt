-- ===== src/Compiler/Sync.antt =====
-- src/parser.c: the recovery from an error ends at a place where a statement can begin.
use joker_complier.Base.{
  ℕ, zero, suc, ◌<◌, ◌≡◌, refl, ap, sym, Bool, true, false, ◌||◌, Option, some, List, [], ◌∷◌, ◌++◌,
  arith, Outcome, ok, length, Bool-cases, inl, inr,
}
use mathlib.Core.Path.{subst}
use joker_complier.Token.{Token, same_type, token_eof, token_semicolon}
use joker_complier.Compiler.Tokens.{
  Cursor, report, parse_is_at_end, parse_advance, starts, starts_statement, sync_loop, synchronize,
}

-- A statement can begin between the tokens `last` and `next`, or the tokens end there.
abbrev pub is_place : Token → Token → Bool
is_place last next =
    same_type next.type token_eof
    || same_type last.type token_semicolon
    || starts_statement next.type

-- No place to go on from stands in front of any of the tokens.
abbrev pub Passes : Token → List Token → Type 0
Passes last [] = Unit
Passes last (token ∷ tokens) = (is_place last token ≡ false) × Passes token tokens

abbrev pub last_skipped : Token → List Token → Token
last_skipped last [] = last
last_skipped last (token ∷ tokens) = last_skipped token tokens

abbrev pub is_here : Token → List Token → Bool
is_here last [] = true
is_here last (token ∷ rest) = is_place last token

abbrev pub no_tokens : List Token → Bool
no_tokens [] = true
no_tokens (token ∷ rest) = false

-- The first place to go on from, with the tokens that were skipped up to it.
abbrev pub Recovered : Token → Cursor → Outcome Cursor → Type 0
Recovered last self o =
    (self' : Cursor) × (skipped : List Token) × (o ≡ ok self')
    × (self.curr ≡ skipped ++ self'.curr)
    × Passes last skipped
    × (self'.prev ≡ some (last_skipped last skipped))
    × (is_here (last_skipped last skipped) self'.curr ≡ true)
    × (self'.panic_mode ≡ no_tokens self'.curr)

-- The state of a parser, field by field.
abbrev cursor : Token → Option Token → List Token → Bool → Bool → Cursor
cursor last pprev tokens had_error panic_mode = record {
  prev = some last;
  pprev = pprev;
  curr = tokens;
  had_error = had_error;
  panic_mode = panic_mode;
}

step_past :
    (last : Token) (pprev : Option Token) (token : Token) (rest : List Token) (he pm : Bool)
    → same_type token.type token_eof ≡ false
    → (parse_advance (cursor last pprev (token ∷ rest) he pm)).1
      ≡ cursor token (some last) rest he pm
unfolding parse_advance parse_is_at_end
step_past last pprev token rest he pm more = rw more

sync_loop-Recovered :
    (fuel : ℕ) (last : Token) (pprev : Option Token) (tokens : List Token) (he : Bool)
    → length tokens < fuel
    → Recovered last
        (cursor last pprev tokens he false)
        (sync_loop fuel (cursor last pprev tokens he false))
unfolding sync_loop parse_is_at_end report
sync_loop-Recovered zero last pprev tokens he h = absurd (omega arith)
sync_loop-Recovered (suc fuel) last pprev [] he h = (_, [], refl, refl, tt, refl, refl, refl)
sync_loop-Recovered (suc fuel) last pprev (token ∷ rest) he h =
    elim (Bool-cases (same_type token.type token_eof)) [
      | inl eof ↦ rw eof (_, [], refl, refl, tt, refl, rw eof, refl)
      | inr more ↦
          elim (Bool-cases (same_type last.type token_semicolon || starts (token ∷ rest))) [
            | inl here ↦ rw (more, here) (_, [], refl, refl, tt, refl, rw (more, here), refl)
            | inr on ↦
                let (s, skipped, e, whole, passed, at, here, calm) =
                  sync_loop-Recovered fuel token (some last) rest he (omega arith) in
                (
                  s,
                  token ∷ skipped,
                  rw (more, on, step_past last pprev token rest he false more) e,
                  ap (◌∷◌ token) whole,
                  (rw (more, on), passed),
                  at,
                  here,
                  calm,
                )
          ]
    ]

-- After an error, once a token has been read, the parser skips tokens up to the first place where a statement
-- can begin, and no further: the end of the tokens, behind a semicolon, or in front of a keyword that starts a
-- statement. It has left the panic mode there, unless the tokens ran out without a token_eof, which is
-- an error of its own. This ends on every token list.
pub synchronize-Recovered :
    (self : Cursor) (last : Token) → self.prev ≡ some last → Recovered last self (synchronize self)
unfolding synchronize
synchronize-Recovered self last e =
    let same : record self { panic_mode = false }
        ≡ cursor last self.pprev self.curr self.had_error false =
      rw e in
    subst (λ (c : Cursor). Recovered last self (sync_loop (suc (length self.curr)) c)) (sym same)
      (sync_loop-Recovered (suc (length self.curr)) last self.pprev self.curr self.had_error
        (omega arith))
