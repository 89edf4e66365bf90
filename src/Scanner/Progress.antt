-- ===== src/Scanner/Progress.antt =====
-- src/scanner.c: the loops of the scanner end, and each token is a part of the text.
use joker_complier.Base.{
  ℕ, ◌<◌, true, false, not, Option, none, some, List, [], ◌∷◌, ◌++◌, Outcome, ok, panic, ◌==◌,
  if◌then◌else◌, length, ◌≡◌, refl, ap, sym, ◌∙◌, ◌⊎◌, inl, inr, arith, Bool,
}
use Prim.Native.String.{String}
use joker_complier.Token.{
  make_token, same_bytes, token_underscore, token_string, token_error, TokenType, Token,
}
use joker_complier.Scanner.{
  make_tk, error_token, lexeme_of, codes, identifier_type, Scanner, peek, rest_of, advance,
  peek_next, is_at_end, symbol, scan_lexeme, scan_identifier, scan_number, scan_string, skip_digits,
  skip_word, skip_string, is_alpha, is_digit,
}
use joker_complier.Scanner.Behind.{
  Behind, Behind-refl, Behind-trans, Behind-length, Behind-advance, Behind-skip_word,
  Behind-skip_digits, if_elim, Behind-skip_string, take-Behind,
}
use joker_complier.Scanner.Blanks.{advance-lt}
use joker_complier.Scanner.Faults.{
  IsError, BareDot, begins_token, skip_digits-all_digits, skip_string-no_quote, symbol-none,
}
use joker_complier.Scanner.Symbols.{Reads, Reads-symbol}

-- What a token takes from the text: its lexeme, unless it is an error.
abbrev pub Takes : Scanner → Token → Scanner → Type 0
Takes s token s' =
    (s'.tokens ≡ s.tokens)
    × (is_at_end s.current ≡ false → length s'.current < length s.current)
    × ((s.current ≡ token.lexeme ++ s'.current)
        ⊎ ((token.type ≡ token_error) × IsError s.current s'.current))

abbrev pub Took : Scanner → Outcome (Token × Scanner) → Type 0
Took s o =
    ((o ≡ panic) × BareDot s.current)
    ⊎ ((token : Token) × (s' : Scanner) × (o ≡ ok (token, s')) × Takes s token s')

distinct : ¬ (true ≡ false)
distinct h = cc

advance-rest_of : (text : List ℕ) → is_at_end text ≡ false → advance text ≡ rest_of text
advance-rest_of text h = ap (λ b. if b then text else rest_of text) h

-- The scanner behind a token of `s` that ends at `text'`.
abbrev at : Scanner → List ℕ → ℕ → Scanner
at s text' line' = record { start = s.current; current = text'; line = line'; tokens = s.tokens }

module _ (s : Scanner) (text' : List ℕ) (line' : ℕ) (h : is_at_end s.current ≡ false)
    (p : Behind (advance s.current) text') where
  shorter : length text' < length s.current
  shorter = omega (arith, Behind-length (advance s.current) text' p, advance-lt s.current h)

  behind : Behind s.current text'
  behind = Behind-trans s.current (advance s.current) text' (Behind-advance s.current) p

  Took-make_tk :
      (type : TokenType) → Took s (ok (make_tk (at s text' line') type, at s text' line'))
  unfolding make_token
  Took-make_tk type =
      inr (_, _, refl, (refl, (λ _. shorter), inl (take-Behind s.current text' behind)))

  Took-error_token :
      (message : String)
      → IsError s.current text'
      → Took s (ok (error_token (at s text' line') message, at s text' line'))
  unfolding make_token
  Took-error_token message wrong = inr (_, _, refl, (refl, (λ _. shorter), inr (refl, wrong)))

-- The first byte, which is not the end, and the text behind it.
first_byte : (text : List ℕ) → is_at_end text ≡ false → text ≡ peek text ∷ advance text
first_byte [] h = absurd (ground arith)
first_byte (c ∷ cs) h = ap (◌∷◌ c) (sym (advance-rest_of (c ∷ cs) h))

negated : (b : Bool) → not b ≡ true → b ≡ false
negated true e = cc
negated false e = refl

-- A digit, other digits and a dot that no digit follows.
bare_dot :
    (text whole : List ℕ)
    → is_at_end text ≡ false
    → is_digit (peek text) ≡ true
    → whole ≡ skip_digits (advance text)
    → (peek whole == b'.') ≡ true
    → is_digit (peek_next whole) ≡ false
    → BareDot text
bare_dot text [] h d e dot bare = absurd (ground (arith, dot))
bare_dot text (c ∷ rest) h d e dot bare =
    let (digits, all, split) = skip_digits-all_digits (advance text) in
    let is_dot : c ≡ b'.' = ground (arith, dot) in
    let live : is_at_end (c ∷ rest) ≡ false = rw is_dot refl in
    (
      peek text ∷ digits,
      rest,
      first_byte text h
          ∙ ap (◌∷◌ (peek text))
              (split ∙ ap (λ z. digits ++ z) (sym e) ∙ ap (λ (x : ℕ). digits ++ (x ∷ rest)) is_dot),
      omega arith,
      rw (d, all) refl,
      sym (ap (λ b. is_digit (if b then 0 else peek rest)) live) ∙ bare,
    )

-- The handlers, on the scanner behind the first byte.
module _ (s : Scanner) (h : is_at_end s.current ≡ false) where
  Took-scan_identifier : Took s (ok (scan_identifier (at s (advance s.current) s.line)))
  unfolding scan_identifier
  Took-scan_identifier =
      let p = Behind-skip_word (advance s.current) in
      let there = at s (skip_word (advance s.current)) s.line in
      if_elim (λ (r : Token × Scanner). Took s (ok r)) (same_bytes (lexeme_of there) (codes "_"))
        (make_tk there token_underscore, there)
        (make_tk there (identifier_type (lexeme_of there)), there)
        (λ _. Took-make_tk s (skip_word (advance s.current)) s.line h p _)
        (λ _. Took-make_tk s (skip_word (advance s.current)) s.line h p _)

  Took-scan_string :
      (peek s.current == b'"') ≡ true → Took s (ok (scan_string (at s (advance s.current) s.line)))
  unfolding scan_string
  Took-scan_string quote =
      let p = Behind-skip_string (advance s.current) s.line in
      let text = (skip_string (advance s.current) s.line).0 in
      let line = (skip_string (advance s.current) s.line).1 in
      if_elim (λ (r : Token × Scanner). Took s (ok r)) (is_at_end text)
        (error_token (at s text line) "Unterminated string.", at s text line)
        (make_tk (at s (advance text) line) token_string, at s (advance text) line)
        (λ e. Took-error_token s text line h p "Unterminated string." (unended e))
        (λ _.
          Took-make_tk s (advance text) _ h
            (Behind-trans (advance s.current) text (advance text) p (Behind-advance text)) _)
    where
      unended :
          is_at_end (skip_string (advance s.current) s.line).0 ≡ true
          → IsError s.current (skip_string (advance s.current) s.line).0
      unended e =
          let (body, unclosed, split) = skip_string-no_quote (advance s.current) s.line in
          let mark : peek s.current ≡ b'"' = ground (arith, quote) in
          inr (
            body,
            first_byte s.current h
                ∙ ap (λ (x : ℕ). x ∷ advance s.current) mark
                ∙ ap (◌∷◌ b'"') split,
            unclosed,
            e,
          )

  Took-scan_number :
      is_digit (peek s.current) ≡ true → Took s (scan_number (at s (advance s.current) s.line))
  unfolding scan_number
  Took-scan_number digit =
      let whole = skip_digits (advance s.current) in
      let p = Behind-skip_digits (advance s.current) in
      if_elim (Took s) (peek whole == b'.') _ _
        (λ dot.
          if_elim (Took s) (not (is_digit (peek_next whole))) _ _
            (λ bare. inl (
              refl,
              bare_dot s.current whole h digit refl dot (negated (is_digit (peek_next whole)) bare),
            ))
            (λ _.
              Took-make_tk s (skip_digits (advance whole)) s.line h
                (Behind-trans (advance s.current) whole _ p (
                  Behind-trans whole (advance whole) _ (Behind-advance whole)
                    (Behind-skip_digits (advance whole))))
                _))
        (λ _. Took-make_tk s whole s.line h p _)

  Took-symbol :
      (r : Option (TokenType × List ℕ))
      → Reads (advance s.current) r
      → (r ≡ none → begins_token (peek s.current) ≡ false)
      → Took s (elim r as (λ _. Outcome (Token × Scanner)) [
        | none ↦ ok (
          error_token (at s (advance s.current) s.line) "Unexpected character.",
          at s (advance s.current) s.line,
        )
        | some (type, text) ↦ ok (make_tk (at s text s.line) type, at s text s.line)
      ])
  Took-symbol none reads unknown =
      Took-error_token s (advance s.current) s.line h (Behind-refl (advance s.current))
        "Unexpected character." (inl (peek s.current, first_byte s.current h, unknown refl))
  Took-symbol (some (type, text)) reads unknown = Took-make_tk s text s.line h reads type

pub Took-scan_lexeme : (s : Scanner) → Took s (scan_lexeme s)
unfolding scan_lexeme make_token
Took-scan_lexeme s =
    if_elim (Took s) (is_at_end s.current) _ _
      (λ e. inr (
        _,
        _,
        refl,
        (
          refl,
          (λ e'. absurd (distinct (sym e ∙ e'))),
          inl (take-Behind s.current s.current (Behind-refl s.current)),
        ),
      ))
      (λ e.
        if_elim (Took s) (is_alpha (peek s.current)) _ _ (λ _. Took-scan_identifier s e)
          (λ letter.
            if_elim (Took s) (is_digit (peek s.current)) _ _ (Took-scan_number s e) (λ digit.
              if_elim (Took s) (peek s.current == b'"') _ _ (Took-scan_string s e) (λ quote.
                Took-symbol s e (symbol (peek s.current) (advance s.current))
                  (Reads-symbol (peek s.current) (advance s.current))
                  (λ none_of.
                    rw
                      (
                        letter,
                        digit,
                        quote,
                        symbol-none (peek s.current) (advance s.current) none_of,
                      )
                      refl)))))
