-- ===== src/Scanner/Covers.antt =====
-- src/scanner.c: the loop over the tokens ends, and the tokens cover the source.
use joker_complier.Base.{
  ℕ, ◌<◌, true, false, List, [], ◌∷◌, ◌++◌, Outcome, ok, panic, length, ◌≡◌, ◌⊎◌,
}
use joker_complier.Token.{token_error, eof_token, Token}
use joker_complier.Scanner.{Scanner, is_at_end}
use joker_complier.Scanner.Behind.{Behind}
use joker_complier.Scanner.Blanks.{IsBlank, Blanked, Opens}
use joker_complier.Scanner.Faults.{IsError, BareDot}

-- Where the scanner ends the process: behind some blanks and comments, at a comment without an end or at a
-- number with a dot that no digit follows.
abbrev pub Stuck : List ℕ → Type 0
Stuck text = Opens text ⊎ ((text' : List ℕ) × Blanked text text' × BareDot text')

-- The tokens of a text, in its order: behind some blanks and comments stands each token's lexeme;
-- only an error leaves bytes out, and it is one.
pub data Covers : List ℕ → List Token → Type 0 where
  finished : (text : List ℕ) (line : ℕ) → is_at_end text ≡ true → Covers text (eof_token line ∷ [])
  next_token :
      (blanks text text' : List ℕ) (token : Token) (tokens : List Token)
      → IsBlank blanks
      → text ≡ blanks ++ (token.lexeme ++ text')
      → Covers text' tokens
      → Covers text (token ∷ tokens)
  next_error :
      (text text₁ text' : List ℕ) (token : Token) (tokens : List Token)
      → token.type ≡ token_error
      → Blanked text text₁
      → IsError text₁ text'
      → Covers text' tokens
      → Covers text (token ∷ tokens)

-- Behind some tokens the scanner gets stuck.
pub data Breaks : List ℕ → Type 0 where
  stuck : (text : List ℕ) → is_at_end text ≡ false → Stuck text → Breaks text
  behind_token :
      (blanks lexeme text text' : List ℕ)
      → IsBlank blanks
      → text ≡ blanks ++ (lexeme ++ text')
      → Breaks text'
      → Breaks text
  behind_error :
      (text text₁ text' : List ℕ)
      → Blanked text text₁
      → IsError text₁ text'
      → Breaks text'
      → Breaks text

-- A token that `scan_token` takes, the blanks in front of it included.
abbrev Passes : Scanner → Token → Scanner → Type 0
Passes s token s' =
    (s'.tokens ≡ s.tokens)
    × (length s'.current < length s.current)
    × (((blanks : List ℕ) × IsBlank blanks × (s.current ≡ blanks ++ (token.lexeme ++ s'.current)))
        ⊎ ((token.type ≡ token_error)
            × ((text₁ : List ℕ) × Blanked s.current text₁ × IsError text₁ s'.current)))

abbrev Passed : Scanner → Outcome (Token × Scanner) → Type 0
Passed s o =
    ((o ≡ panic) × Stuck s.current)
    ⊎ ((token : Token) × (s' : Scanner) × (o ≡ ok (token, s')) × Passes s token s')

abbrev pub Scanned : Scanner → Outcome Scanner → Type 0
Scanned s o =
    ((o ≡ panic) × Breaks s.current)
    ⊎ ((s' : Scanner) × (tokens : List Token) × (o ≡ ok s')
        × (s'.tokens ≡ s.tokens ++ tokens)
        × Covers s.current tokens)
