-- ===== src/Scanner.antt =====
-- include/scanner.h and src/scanner.c. A pointer into the source, which ends with a zero byte, is
-- the text from there on; a read at the end of the text gives the zero byte. `panic` and `exit` are
-- one outcome, the end of the process.
pub mod Keyword
pub mod Behind
pub mod Blanks
pub mod Symbols
pub mod Faults
pub mod Progress
pub mod Covers
mod Tests
use Prim.Native.Char.{code}
use Prim.Native.String.{String}
use joker_complier.Base.{
  ℕ, zero, suc, ◌+◌, ◌-◌, ◌*◌, ◌^◌, min, Bool, true, false, not, ◌&&◌, ◌||◌, Option, none, some,
  List, [], ◌∷◌, ◌++◌, Outcome, ok, panic, out_of_fuel, ◌>>=◌, ltb, leb, ◌==◌, if◌then◌else◌,
  length, take, drop,
}
use joker_complier.Token.{
  TokenType, Token, make_token, eof_token, same_bytes, token_left_paren, token_right_paren,
  token_left_bracket, token_right_bracket, token_left_brace, token_right_brace, token_comma,
  token_dot, token_pipe, token_colon, token_question, token_semicolon, token_minus, token_plus,
  token_star, token_slash, token_mod, token_plus_assign, token_minus_assign, token_star_assign,
  token_slash_assign, token_mod_assign, token_bit_and, token_bit_and_assign, token_bit_or,
  token_bit_or_assign, token_bit_xor, token_bit_xor_assign, token_shl, token_shl_assign, token_shr,
  token_shr_assign, token_bit_not, token_bit_not_assign, token_not, token_neq, token_assign,
  token_eq, token_gt, token_egt, token_le, token_let, token_arrow, token_fat_arrow,
  token_underscore, token_layer, token_identifier, token_string, token_i32, token_i64, token_f32,
  token_f64, token_type, token_and, token_class, token_struct, token_else, token_false, token_for,
  token_fn, token_if, token_none, token_or, token_return, token_super, token_self, token_true,
  token_var, token_while, token_break, token_continue, token_match, token_loop, token_enum,
  token_error, token_eof,
}

-- The bytes of a text of ASCII characters.
abbrev pub codes : String → List ℕ
codes String.[] = []
codes (String.◌∷◌ c s) = code c ∷ codes s

pub record Scanner : Type 0 where
  pub start : List ℕ
  pub current : List ℕ
  pub line : ℕ
  pub tokens : List Token

unfoldable pub init_scanner : List ℕ → Scanner
init_scanner source = record { start = source; current = source; line = 1; tokens = [] }

abbrev pub is_digit : ℕ → Bool
is_digit ch = leb b'0' ch && leb ch b'9'

abbrev pub is_alpha : ℕ → Bool
is_alpha ch = (leb b'a' ch && leb ch b'z') || (leb b'A' ch && leb ch b'Z') || (ch == b'_')

abbrev pub peek : List ℕ → ℕ
peek [] = 0
peek (c ∷ cs) = c

abbrev pub is_at_end : List ℕ → Bool
is_at_end text = peek text == 0

abbrev pub rest_of : List ℕ → List ℕ
rest_of [] = []
rest_of (c ∷ cs) = cs

-- `advance`: the text behind one byte, or the same text at its end.
abbrev pub advance : List ℕ → List ℕ
advance text = if is_at_end text then text else rest_of text

-- `peek_next`
abbrev pub peek_next : List ℕ → ℕ
peek_next text = if is_at_end text then 0 else peek (rest_of text)

-- `match`: whether the next byte is `expected`, and the text after it if it is.
unfoldable pub match : List ℕ → ℕ → Bool × List ℕ
match text expected =
    if is_at_end text
    then (false, text)
    else if not (peek text == expected)
    then (false, text)
    else (true, rest_of text)

-- `while (peek(self) != '\n' && !is_at_end(self)) advance(self);`
unfoldable pub skip_line : List ℕ → List ℕ
skip_line [] = []
skip_line (c ∷ cs) = if c == b'\n' || c == 0 then c ∷ cs else skip_line cs

-- The loop inside a block comment: the text behind `*/` and the line there, if the comment ends.
unfoldable pub skip_block : List ℕ → ℕ → Option (List ℕ × ℕ)
skip_block [] line = none
skip_block (c ∷ cs) line =
    let line' = if c == b'\n' then line + 1 else line in
    let rest = skip_block cs line' in
    if c == 0 then none else if c == b'*' && peek cs == b'/' then some (advance cs, line') else rest

-- `skip_with_espace`, on fuel: the text that it stops at, and the line.
unfoldable pub skip : ℕ → List ℕ → ℕ → Outcome (List ℕ × ℕ)
skip zero text line = out_of_fuel
skip (suc fuel) text line =
    let blank = skip fuel (advance text) line in
    let newline = skip fuel (advance text) (line + 1) in
    let comment = skip fuel (skip_line text) line in
    let block = elim (skip_block (advance (advance text)) line) as (λ r. Outcome (List ℕ × ℕ)) [
      | none ↦ panic
      | some (text', line') ↦ skip fuel text' line'
    ] in
    if peek text == b' ' || peek text == b'\r' || peek text == b'\t'
    then blank
    else if peek text == b'\n'
    then newline
    else if peek text == b'/'
    then (if peek_next text == b'/'
        then comment
        else if peek_next text == b'*'
        then block
        else ok (text, line))
    else ok (text, line)

unfoldable pub skip_with_espace : Scanner → Outcome Scanner
skip_with_espace s = do
  (text, line) ← skip (suc (length s.current)) s.current s.line
  ok (record s { current = text; line = line })

-- The bytes between `start` and `current`.
abbrev pub lexeme_of : Scanner → List ℕ
lexeme_of s = take (length s.start - length s.current) s.start

abbrev pub make_tk : Scanner → TokenType → Token
make_tk s type = make_token type (lexeme_of s) s.line

abbrev pub error_token : Scanner → String → Token
error_token s message = make_token token_error (codes message) s.line

-- `check_keyword`
unfoldable pub check_keyword : List ℕ → ℕ → ℕ → String → TokenType → TokenType
check_keyword lexeme start length_ rest type =
    if (length lexeme == start + length_) && same_bytes (drop start lexeme) (codes rest)
    then type
    else token_identifier

-- `identifier_type`: the trie of the keywords, on the lexeme. `first` and `second` are
-- `self->start[0]` and `self->start[1]`, which the lexeme's length guards.
unfoldable pub identifier_type : List ℕ → TokenType
identifier_type lexeme =
    let first = peek lexeme in
    let second = peek (rest_of lexeme) in
    let long = ltb 1 (length lexeme) in
    if first == b'a'
    then check_keyword lexeme 1 2 "nd" token_and
    else if first == b'b'
    then check_keyword lexeme 1 4 "reak" token_break
    else if first == b'c'
    then (if long && (second == b'l')
        then check_keyword lexeme 2 3 "ass" token_class
        else if long && (second == b'o')
        then check_keyword lexeme 2 6 "ntinue" token_continue
        else token_identifier)
    else if first == b'e'
    then (if long && (second == b'l')
        then check_keyword lexeme 2 2 "se" token_else
        else if long && (second == b'n')
        then check_keyword lexeme 2 2 "um" token_enum
        else token_identifier)
    else if first == b'f'
    then (if long && (second == b'a')
        then check_keyword lexeme 2 3 "lse" token_false
        else if long && (second == b'o')
        then check_keyword lexeme 2 1 "r" token_for
        else if long && (second == b'n')
        then token_fn
        else token_identifier)
    else if first == b'i'
    then check_keyword lexeme 1 1 "f" token_if
    else if first == b'l'
    then check_keyword lexeme 1 3 "oop" token_loop
    else if first == b'm'
    then check_keyword lexeme 1 4 "atch" token_match
    else if first == b'N'
    then check_keyword lexeme 1 3 "one" token_none
    else if first == b'o'
    then check_keyword lexeme 1 1 "r" token_or
    else if first == b'r'
    then check_keyword lexeme 1 5 "eturn" token_return
    else if first == b't'
    then check_keyword lexeme 1 3 "rue" token_true
    else if first == b'v'
    then check_keyword lexeme 1 2 "ar" token_var
    else if first == b'w'
    then check_keyword lexeme 1 4 "hile" token_while
    else if first == b's'
    then (if long && (second == b'e')
        then check_keyword lexeme 2 2 "lf" token_self
        else if long && (second == b'u')
        then check_keyword lexeme 2 3 "per" token_super
        else if long && (second == b't')
        then check_keyword lexeme 2 4 "ruct" token_struct
        else token_identifier)
    else token_identifier

-- `while (is_alpha(peek(self)) || is_digit(peek(self))) advance(self);`
unfoldable pub skip_word : List ℕ → List ℕ
skip_word [] = []
skip_word (c ∷ cs) = if is_alpha c || is_digit c then skip_word cs else c ∷ cs

-- `scan_identifier`
unfoldable pub scan_identifier : Scanner → Token × Scanner
scan_identifier s =
    let s' = record s { current = skip_word s.current } in
    if same_bytes (lexeme_of s') (codes "_")
    then (make_tk s' token_underscore, s')
    else (make_tk s' (identifier_type (lexeme_of s')), s')

-- `while (is_digit(peek(self))) advance(self);`
unfoldable pub skip_digits : List ℕ → List ℕ
skip_digits [] = []
skip_digits (c ∷ cs) = if is_digit c then skip_digits cs else c ∷ cs

-- `strtoul` in base ten: the value of the digits at the front, at most the greatest unsigned long.
unfoldable pub decimal : List ℕ → ℕ → ℕ
decimal [] value = value
decimal (c ∷ cs) value = if is_digit c then decimal cs (value * 10 + (c - b'0')) else value

abbrev pub ulong_max : ℕ
ulong_max = 2 ^ 64 - 1

abbrev pub strtoul : List ℕ → ℕ
strtoul text = min (decimal text 0) ulong_max

abbrev pub int32_max : ℕ
int32_max = 2 ^ 31 - 1

-- `check_number`; `strndup` gives NULL for the empty text.
unfoldable pub check_number : List ℕ → Bool → TokenType
check_number lexeme is_float =
    if length lexeme == 0
    then token_error
    else if is_float
    then token_f64
    else if ltb int32_max (strtoul lexeme)
    then token_i64
    else token_i32

-- `scan_number`; the process ends where no digit follows the dot.
unfoldable pub scan_number : Scanner → Outcome (Token × Scanner)
scan_number s =
    let whole = skip_digits s.current in
    let s' = record s { current = whole } in
    let s'' = record s { current = skip_digits (advance whole) } in
    if peek whole == b'.'
    then (if not (is_digit (peek_next whole))
        then panic
        else ok (make_tk s'' (check_number (lexeme_of s'') true), s''))
    else ok (make_tk s' (check_number (lexeme_of s') false), s')

-- The loop of `scan_string`: the text at the closing quote or at the end, and the line there.
unfoldable pub skip_string : List ℕ → ℕ → List ℕ × ℕ
skip_string [] line = ([], line)
skip_string (c ∷ cs) line =
    if c == b'"' || c == 0
    then (c ∷ cs, line)
    else skip_string cs (if c == b'\n' then line + 1 else line)

-- `scan_string`
unfoldable pub scan_string : Scanner → Token × Scanner
scan_string s =
    let (text, line) = skip_string s.current s.line in
    let stopped = record s { current = text; line = line } in
    let closed = record s { current = advance text; line = line } in
    if is_at_end text
    then (error_token stopped "Unterminated string.", stopped)
    else (make_tk closed token_string, closed)

-- `match(self, expected) ? type : other`
abbrev pub if_match : List ℕ → ℕ → TokenType → TokenType × List ℕ → TokenType × List ℕ
if_match text expected type other =
    let (found, text') = match text expected in if found then (type, text') else other

-- The second test of the cases of `<` and `>`, and the test for `=` behind it.
abbrev pub if_shift : List ℕ → ℕ → TokenType → TokenType → TokenType → TokenType × List ℕ
if_shift text ch other type type_assign =
    let (found, text') = match text ch in
    if found then if_match text' b'=' type_assign (type, text') else (other, text)

-- The `switch` of `scan_token` on the byte before `text`, less the strings: the type and the text
-- behind the token; `none` is the default case.
unfoldable pub symbol : ℕ → List ℕ → Option (TokenType × List ℕ)
symbol ch text =
    if ch == b'('
    then some (token_left_paren, text)
    else if ch == b')'
    then some (token_right_paren, text)
    else if ch == b'['
    then some (token_left_bracket, text)
    else if ch == b']'
    then some (token_right_bracket, text)
    else if ch == b'{'
    then some (token_left_brace, text)
    else if ch == b'}'
    then some (token_right_brace, text)
    else if ch == b'?'
    then some (token_question, text)
    else if ch == b':'
    then some (if_match text b':' token_layer (token_colon, text))
    else if ch == b';'
    then some (token_semicolon, text)
    else if ch == b','
    then some (token_comma, text)
    else if ch == b'.'
    then some (token_dot, text)
    else if ch == b'_'
    then some (token_underscore, text)
    else if ch == b'%'
    then some (if_match text b'=' token_mod_assign (token_mod, text))
    else if ch == b'-'
    then some
        (if_match text b'=' token_minus_assign (if_match text b'>' token_arrow (token_minus, text)))
    else if ch == b'+'
    then some (if_match text b'=' token_plus_assign (token_plus, text))
    else if ch == b'/'
    then some (if_match text b'=' token_slash_assign (token_slash, text))
    else if ch == b'*'
    then some (if_match text b'=' token_star_assign (token_star, text))
    else if ch == b'|'
    then some (if_match text b'=' token_bit_or_assign (token_pipe, text))
    else if ch == b'&'
    then some (if_match text b'=' token_bit_and_assign (token_bit_and, text))
    else if ch == b'^'
    then some (if_match text b'=' token_bit_xor_assign (token_bit_xor, text))
    else if ch == b'~'
    then some (if_match text b'=' token_bit_not_assign (token_bit_not, text))
    else if ch == b'!'
    then some (if_match text b'=' token_neq (token_not, text))
    else if ch == b'='
    then some
        (if_match text b'=' token_eq (if_match text b'>' token_fat_arrow (token_assign, text)))
    else if ch == b'<'
    then some
        (if_match text b'=' token_let (if_shift text b'<' token_le token_shl token_shl_assign))
    else if ch == b'>'
    then some
        (if_match text b'=' token_egt (if_shift text b'>' token_gt token_shr token_shr_assign))
    else none

-- `scan_token` behind the blanks.
unfoldable pub scan_lexeme : Scanner → Outcome (Token × Scanner)
scan_lexeme s =
    let begun = record s { start = s.current } in
    let s' = record begun { current = advance s.current } in
    let ch = peek s.current in
    if is_at_end s.current
    then ok (make_tk begun token_eof, begun)
    else if is_alpha ch
    then ok (scan_identifier s')
    else if is_digit ch
    then scan_number s'
    else if ch == b'"'
    then ok (scan_string s')
    else elim (symbol ch s'.current) [
      | none ↦ ok (error_token s' "Unexpected character.", s')
      | some (type, text) ↦ let s'' = record s' { current = text } in ok (make_tk s'' type, s'')
    ]

-- `scan_token`
unfoldable pub scan_token : Scanner → Outcome (Token × Scanner)
scan_token s = do s' ← skip_with_espace s; scan_lexeme s'

-- `scan_tokens`, on fuel.
unfoldable pub scan_loop : ℕ → Scanner → Outcome Scanner
scan_loop zero s = out_of_fuel
scan_loop (suc fuel) s =
    if is_at_end s.current
    then ok (record s { tokens = s.tokens ++ (eof_token s.line ∷ []) })
    else do
      (token, s') ← scan_token s
      scan_loop fuel (record s' { tokens = s'.tokens ++ (token ∷ []) })

unfoldable pub scan_tokens : Scanner → Outcome Scanner
scan_tokens s = scan_loop (suc (length s.current)) s
