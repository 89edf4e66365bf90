-- ===== src/Scanner/Keyword.antt =====
-- src/scanner.c: the trie of identifier_type against the table of the keywords.
use Prim.Native.String.{String}
use joker_complier.Base.{
  ℕ, suc, Bool, true, ◌&&◌, List, [], ◌∷◌, ltb, ◌==◌, if◌then◌else◌, length, ◌≡◌, refl, ap, inl,
  inr, arith, Bool-cases,
}
use joker_complier.Token.{
  TokenType, same_bytes, token_identifier, token_and, token_break, token_class, token_continue,
  token_else, token_enum, token_false, token_for, token_fn, token_if, token_loop, token_match,
  token_none, token_or, token_return, token_true, token_var, token_while, token_self, token_super,
  token_struct,
}
use joker_complier.Scanner.{codes, peek, rest_of, check_keyword, identifier_type}

-- The keywords, less `fn`.
abbrev pub keywords : List (String × TokenType)
keywords =
    ("and", token_and)
    ∷ ("break", token_break)
    ∷ ("class", token_class)
    ∷ ("continue", token_continue)
    ∷ ("else", token_else)
    ∷ ("enum", token_enum)
    ∷ ("false", token_false)
    ∷ ("for", token_for)
    ∷ ("if", token_if)
    ∷ ("loop", token_loop)
    ∷ ("match", token_match)
    ∷ ("None", token_none)
    ∷ ("or", token_or)
    ∷ ("return", token_return)
    ∷ ("true", token_true)
    ∷ ("var", token_var)
    ∷ ("while", token_while)
    ∷ ("self", token_self)
    ∷ ("super", token_super)
    ∷ ("struct", token_struct)
    ∷ []

-- The type that a table gives to a lexeme: the whole text is compared.
abbrev pub look_up : List (String × TokenType) → List ℕ → TokenType
look_up [] lexeme = token_identifier
look_up ((word, type) ∷ table) lexeme =
    if same_bytes lexeme (codes word) then type else look_up table lexeme

abbrev pub starts_with_fn : List ℕ → Bool
starts_with_fn lexeme = (peek lexeme == b'f') && (peek (rest_of lexeme) == b'n')

same_bytes-length :
    (xs ys : List ℕ) → (length xs == length ys) && same_bytes xs ys ≡ same_bytes xs ys
same_bytes-length [] [] = refl
same_bytes-length [] (y ∷ ys) = ground arith
same_bytes-length (x ∷ xs) [] = ground arith
same_bytes-length (x ∷ xs) (y ∷ ys) = ground (arith, same_bytes-length xs ys)

-- The test of a keyword behind its first byte, or its first two, compares the whole rest.
check_keyword-one :
    (c : ℕ) (cs : List ℕ) (word : String) (type : TokenType)
    → check_keyword (c ∷ cs) 1 (length (codes word)) word type
      ≡ (if same_bytes cs (codes word) then type else token_identifier)
unfolding check_keyword
check_keyword-one c cs word type =
    ap (λ b. if b then type else token_identifier)
      (ground (arith, same_bytes-length cs (codes word)))

check_keyword-two :
    (c d : ℕ) (cs : List ℕ) (word : String) (type : TokenType)
    → check_keyword (c ∷ d ∷ cs) 2 (length (codes word)) word type
      ≡ (if same_bytes cs (codes word) then type else token_identifier)
unfolding check_keyword
check_keyword-two c d cs word type =
    ap (λ b. if b then type else token_identifier)
      (ground (arith, same_bytes-length cs (codes word)))

abbrev table_type : List ℕ → TokenType
table_type lexeme = if starts_with_fn lexeme then token_fn else look_up keywords lexeme

long : (n : ℕ) → ltb 1 (suc (suc n)) ≡ true
long n = ground arith

the_byte : (c d : ℕ) → (c == d) ≡ true → c ≡ d
the_byte c d h = ground arith

-- The cases of the first byte.
case-a : (cs : List ℕ) → identifier_type (b'a' ∷ cs) ≡ table_type (b'a' ∷ cs)
unfolding identifier_type
case-a cs = check_keyword-one b'a' cs "nd" token_and

case-b : (cs : List ℕ) → identifier_type (b'b' ∷ cs) ≡ table_type (b'b' ∷ cs)
unfolding identifier_type
case-b cs = check_keyword-one b'b' cs "reak" token_break

case-c : (cs : List ℕ) → identifier_type (b'c' ∷ cs) ≡ table_type (b'c' ∷ cs)
unfolding identifier_type
case-c [] = refl
case-c (d ∷ ds) = rw (long (length ds)) (elim (Bool-cases (d == b'l')) [
  | inl e ↦ rw (the_byte d b'l' e) (check_keyword-two b'c' b'l' ds "ass" token_class)
  | inr e ↦ elim (Bool-cases (d == b'o')) [
    | inl e' ↦ rw (the_byte d b'o' e') (check_keyword-two b'c' b'o' ds "ntinue" token_continue)
    | inr e' ↦ rw (e, e')
  ]
])

case-e : (cs : List ℕ) → identifier_type (b'e' ∷ cs) ≡ table_type (b'e' ∷ cs)
unfolding identifier_type
case-e [] = refl
case-e (d ∷ ds) = rw (long (length ds)) (elim (Bool-cases (d == b'l')) [
  | inl e ↦ rw (the_byte d b'l' e) (check_keyword-two b'e' b'l' ds "se" token_else)
  | inr e ↦ elim (Bool-cases (d == b'n')) [
    | inl e' ↦ rw (the_byte d b'n' e') (check_keyword-two b'e' b'n' ds "um" token_enum)
    | inr e' ↦ rw (e, e')
  ]
])

case-f : (cs : List ℕ) → identifier_type (b'f' ∷ cs) ≡ table_type (b'f' ∷ cs)
unfolding identifier_type
case-f [] = refl
case-f (d ∷ ds) = rw (long (length ds)) (elim (Bool-cases (d == b'a')) [
  | inl e ↦ rw (the_byte d b'a' e) (check_keyword-two b'f' b'a' ds "lse" token_false)
  | inr e ↦ elim (Bool-cases (d == b'o')) [
    | inl e' ↦ rw (the_byte d b'o' e') (check_keyword-two b'f' b'o' ds "r" token_for)
    | inr e' ↦ elim (Bool-cases (d == b'n')) [
      | inl e'' ↦ rw (the_byte d b'n' e'')
      | inr e'' ↦ rw (e, e', e'')
    ]
  ]
])

case-i : (cs : List ℕ) → identifier_type (b'i' ∷ cs) ≡ table_type (b'i' ∷ cs)
unfolding identifier_type
case-i cs = check_keyword-one b'i' cs "f" token_if

case-l : (cs : List ℕ) → identifier_type (b'l' ∷ cs) ≡ table_type (b'l' ∷ cs)
unfolding identifier_type
case-l cs = check_keyword-one b'l' cs "oop" token_loop

case-m : (cs : List ℕ) → identifier_type (b'm' ∷ cs) ≡ table_type (b'm' ∷ cs)
unfolding identifier_type
case-m cs = check_keyword-one b'm' cs "atch" token_match

case-N : (cs : List ℕ) → identifier_type (b'N' ∷ cs) ≡ table_type (b'N' ∷ cs)
unfolding identifier_type
case-N cs = check_keyword-one b'N' cs "one" token_none

case-o : (cs : List ℕ) → identifier_type (b'o' ∷ cs) ≡ table_type (b'o' ∷ cs)
unfolding identifier_type
case-o cs = check_keyword-one b'o' cs "r" token_or

case-r : (cs : List ℕ) → identifier_type (b'r' ∷ cs) ≡ table_type (b'r' ∷ cs)
unfolding identifier_type
case-r cs = check_keyword-one b'r' cs "eturn" token_return

case-t : (cs : List ℕ) → identifier_type (b't' ∷ cs) ≡ table_type (b't' ∷ cs)
unfolding identifier_type
case-t cs = check_keyword-one b't' cs "rue" token_true

case-v : (cs : List ℕ) → identifier_type (b'v' ∷ cs) ≡ table_type (b'v' ∷ cs)
unfolding identifier_type
case-v cs = check_keyword-one b'v' cs "ar" token_var

case-w : (cs : List ℕ) → identifier_type (b'w' ∷ cs) ≡ table_type (b'w' ∷ cs)
unfolding identifier_type
case-w cs = check_keyword-one b'w' cs "hile" token_while

case-s : (cs : List ℕ) → identifier_type (b's' ∷ cs) ≡ table_type (b's' ∷ cs)
unfolding identifier_type
case-s [] = refl
case-s (d ∷ ds) = rw (long (length ds)) (elim (Bool-cases (d == b'e')) [
  | inl e ↦ rw (the_byte d b'e' e) (check_keyword-two b's' b'e' ds "lf" token_self)
  | inr e ↦ elim (Bool-cases (d == b'u')) [
    | inl e' ↦ rw (the_byte d b'u' e') (check_keyword-two b's' b'u' ds "per" token_super)
    | inr e' ↦ elim (Bool-cases (d == b't')) [
      | inl e'' ↦ rw (the_byte d b't' e'') (check_keyword-two b's' b't' ds "ruct" token_struct)
      | inr e'' ↦ rw (e, e', e'')
    ]
  ]
])

-- Every lexeme gets the type of the keyword that it is equal to and token_identifier where there is
-- none, except that every lexeme that begins with `fn` gets token_fn.
pub identifier_type-keywords :
    (lexeme : List ℕ)
    → identifier_type lexeme ≡ (if starts_with_fn lexeme then token_fn else look_up keywords lexeme)
unfolding identifier_type
identifier_type-keywords [] = refl
identifier_type-keywords (c ∷ cs) = elim (Bool-cases (c == b'a')) [
  | inl e0 ↦ rw (the_byte c b'a' e0) (case-a cs)
  | inr e0 ↦ elim (Bool-cases (c == b'b')) [
    | inl e1 ↦ rw (the_byte c b'b' e1) (case-b cs)
    | inr e1 ↦ elim (Bool-cases (c == b'c')) [
      | inl e2 ↦ rw (the_byte c b'c' e2) (case-c cs)
      | inr e2 ↦ elim (Bool-cases (c == b'e')) [
        | inl e3 ↦ rw (the_byte c b'e' e3) (case-e cs)
        | inr e3 ↦ elim (Bool-cases (c == b'f')) [
          | inl e4 ↦ rw (the_byte c b'f' e4) (case-f cs)
          | inr e4 ↦ elim (Bool-cases (c == b'i')) [
            | inl e5 ↦ rw (the_byte c b'i' e5) (case-i cs)
            | inr e5 ↦ elim (Bool-cases (c == b'l')) [
              | inl e6 ↦ rw (the_byte c b'l' e6) (case-l cs)
              | inr e6 ↦ elim (Bool-cases (c == b'm')) [
                | inl e7 ↦ rw (the_byte c b'm' e7) (case-m cs)
                | inr e7 ↦ elim (Bool-cases (c == b'N')) [
                  | inl e8 ↦ rw (the_byte c b'N' e8) (case-N cs)
                  | inr e8 ↦ elim (Bool-cases (c == b'o')) [
                    | inl e9 ↦ rw (the_byte c b'o' e9) (case-o cs)
                    | inr e9 ↦ elim (Bool-cases (c == b'r')) [
                      | inl e10 ↦ rw (the_byte c b'r' e10) (case-r cs)
                      | inr e10 ↦ elim (Bool-cases (c == b't')) [
                        | inl e11 ↦ rw (the_byte c b't' e11) (case-t cs)
                        | inr e11 ↦ elim (Bool-cases (c == b'v')) [
                          | inl e12 ↦ rw (the_byte c b'v' e12) (case-v cs)
                          | inr e12 ↦ elim (Bool-cases (c == b'w')) [
                            | inl e13 ↦ rw (the_byte c b'w' e13) (case-w cs)
                            | inr e13 ↦ elim (Bool-cases (c == b's')) [
                              | inl e14 ↦ rw (the_byte c b's' e14) (case-s cs)
                              | inr e14 ↦
                                  rw (
                                    e0, e1, e2, e3, e4, e5, e6, e7, e8, e9, e10, e11, e12, e13, e14,
                                  )
                            ]
                          ]
                        ]
                      ]
                    ]
                  ]
                ]
              ]
            ]
          ]
        ]
      ]
    ]
  ]
]
