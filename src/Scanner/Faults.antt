-- ===== src/Scanner/Faults.antt =====
-- src/scanner.c: what is no token, and where the scanner ends the process.
use joker_complier.Base.{
  ℕ, ◌+◌, ◌<◌, Bool, true, false, ◌&&◌, ◌||◌, not, Option, none, some, List, [], ◌∷◌, ◌++◌, ◌==◌,
  if◌then◌else◌, length, ◌≡◌, refl, ap, ◌⊎◌, inl, inr, arith, Bool-cases,
}
use joker_complier.Token.{TokenType}
use joker_complier.Scanner.{peek, is_at_end, is_alpha, is_digit, symbol, skip_digits, skip_string}
use joker_complier.Scanner.Behind.{Behind, if_elim}

-- The bytes of the operators and the punctuation.
abbrev pub marks : List ℕ
marks =
    b'(' ∷ b')' ∷ b'[' ∷ b']' ∷ b'{' ∷ b'}' ∷ b'?' ∷ b':' ∷ b';' ∷ b',' ∷ b'.' ∷ b'_' ∷ b'%' ∷ b'-'
    ∷ b'+' ∷ b'/' ∷ b'*' ∷ b'|' ∷ b'&' ∷ b'^' ∷ b'~' ∷ b'!' ∷ b'=' ∷ b'<' ∷ b'>' ∷ []

abbrev pub is_among : ℕ → List ℕ → Bool
is_among c [] = false
is_among c (x ∷ xs) = c == x || is_among c xs

-- The byte begins a token.
abbrev pub begins_token : ℕ → Bool
begins_token c = is_alpha c || is_digit c || (c == b'"') || is_among c marks

abbrev pub no_quote : List ℕ → Bool
no_quote [] = true
no_quote (c ∷ cs) = not (c == b'"') && no_quote cs

-- What an error token leaves out: a byte that begins no token, or a string without an end, up to the end of the
-- source.
abbrev pub IsError : List ℕ → List ℕ → Type 0
IsError text text' =
    ((c : ℕ) × (text ≡ c ∷ text') × (begins_token c ≡ false))
    ⊎ ((body : List ℕ) × (text ≡ b'"' ∷ (body ++ text'))
        × (no_quote body ≡ true)
        × (is_at_end text' ≡ true))

pub IsError-Behind : (text text' : List ℕ) → IsError text text' → Behind text text'
IsError-Behind text text' (inl (c, e, unknown)) = (c ∷ [], e)
IsError-Behind text text' (inr (body, e, unclosed, ended)) = (b'"' ∷ body, e)

abbrev pub all_digits : List ℕ → Bool
all_digits [] = true
all_digits (c ∷ cs) = is_digit c && all_digits cs

-- A number with a dot that no digit follows.
abbrev pub BareDot : List ℕ → Type 0
BareDot text =
    (digits : List ℕ) × (rest : List ℕ) × (text ≡ digits ++ (b'.' ∷ rest))
    × (0 < length digits)
    × (all_digits digits ≡ true)
    × (is_digit (peek rest) ≡ false)

pub skip_digits-all_digits :
    (text : List ℕ)
    → (digits : List ℕ) × (all_digits digits ≡ true) × (text ≡ digits ++ skip_digits text)
unfolding skip_digits
skip_digits-all_digits [] = ([], refl, refl)
skip_digits-all_digits (c ∷ cs) = elim (Bool-cases (is_digit c)) [
  | inl e ↦
      let (digits, all, whole) = skip_digits-all_digits cs in
      (c ∷ digits, rw (e, all) refl, rw e (ap (◌∷◌ c) whole))
  | inr e ↦ ([], refl, rw e refl)
]

pub skip_string-no_quote :
    (text : List ℕ) (line : ℕ)
    → (body : List ℕ) × (no_quote body ≡ true) × (text ≡ body ++ (skip_string text line).0)
unfolding skip_string
skip_string-no_quote [] line = ([], refl, refl)
skip_string-no_quote (c ∷ cs) line =
    let line' = if c == b'\n' then line + 1 else line in
    if_elim (λ r. (body : List ℕ) × (no_quote body ≡ true) × (c ∷ cs ≡ body ++ r.0))
      (c == b'"' || c == 0) (c ∷ cs, line) (skip_string cs line') (λ _. ([], refl, refl))
      (λ e. longer (ground (arith, e)) (skip_string-no_quote cs line'))
  where
    longer :
        {text' : List ℕ}
        → (c == b'"') ≡ false
        → ((body : List ℕ) × (no_quote body ≡ true) × (cs ≡ body ++ text'))
        → (body : List ℕ) × (no_quote body ≡ true) × (c ∷ cs ≡ body ++ text')
    longer e (body, unclosed, whole) = (c ∷ body, rw (e, unclosed) refl, ap (◌∷◌ c) whole)

none_if :
    (b : Bool) (x : TokenType × List ℕ) (r : Option (TokenType × List ℕ))
    → (if b then some x else r) ≡ none
    → (b ≡ false) × (r ≡ none)
none_if true x r e = cc
none_if false x r e = (refl, e)

-- The default case of the switch is that of the other bytes.
pub symbol-none : (ch : ℕ) (text : List ℕ) → symbol ch text ≡ none → is_among ch marks ≡ false
unfolding symbol
symbol-none ch text e₀ =
    let (n0, e1) = none_if (ch == b'(') _ _ e₀ in
    let (n1, e2) = none_if (ch == b')') _ _ e1 in
    let (n2, e3) = none_if (ch == b'[') _ _ e2 in
    let (n3, e4) = none_if (ch == b']') _ _ e3 in
    let (n4, e5) = none_if (ch == b'{') _ _ e4 in
    let (n5, e6) = none_if (ch == b'}') _ _ e5 in
    let (n6, e7) = none_if (ch == b'?') _ _ e6 in
    let (n7, e8) = none_if (ch == b':') _ _ e7 in
    let (n8, e9) = none_if (ch == b';') _ _ e8 in
    let (n9, e10) = none_if (ch == b',') _ _ e9 in
    let (n10, e11) = none_if (ch == b'.') _ _ e10 in
    let (n11, e12) = none_if (ch == b'_') _ _ e11 in
    let (n12, e13) = none_if (ch == b'%') _ _ e12 in
    let (n13, e14) = none_if (ch == b'-') _ _ e13 in
    let (n14, e15) = none_if (ch == b'+') _ _ e14 in
    let (n15, e16) = none_if (ch == b'/') _ _ e15 in
    let (n16, e17) = none_if (ch == b'*') _ _ e16 in
    let (n17, e18) = none_if (ch == b'|') _ _ e17 in
    let (n18, e19) = none_if (ch == b'&') _ _ e18 in
    let (n19, e20) = none_if (ch == b'^') _ _ e19 in
    let (n20, e21) = none_if (ch == b'~') _ _ e20 in
    let (n21, e22) = none_if (ch == b'!') _ _ e21 in
    let (n22, e23) = none_if (ch == b'=') _ _ e22 in
    let (n23, e24) = none_if (ch == b'<') _ _ e23 in
    let (n24, e25) = none_if (ch == b'>') _ _ e24 in
    rw
      (
        n0, n1, n2, n3, n4, n5, n6, n7, n8, n9, n10, n11, n12, n13, n14, n15, n16, n17, n18, n19,
        n20, n21, n22, n23, n24,
      )
      refl
