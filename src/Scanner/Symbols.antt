-- ===== src/Scanner/Symbols.antt =====
-- src/scanner.c: the tokens of one to three bytes.
use joker_complier.Base.{ℕ, Bool, true, false, not, Option, none, some, List, ◌==◌, if◌then◌else◌}
use joker_complier.Token.{TokenType}
use joker_complier.Scanner.{peek, is_at_end, match, if_match, if_shift, symbol}
use joker_complier.Scanner.Behind.{Behind, Behind-refl, Behind-trans, Behind-rest_of, if_elim}

-- `symbol` stops behind some bytes.
abbrev pub Reads : List ℕ → Option (TokenType × List ℕ) → Type 0
Reads text none = Unit
Reads text (some (type, text')) = Behind text text'

Behind-match : (text : List ℕ) (ch : ℕ) → Behind text (match text ch).1
unfolding match
Behind-match text ch =
    if_elim (λ (r : Bool × List ℕ). Behind text r.1) (is_at_end text) _ _ (λ _. Behind-refl text)
      (λ _.
        if_elim (λ (r : Bool × List ℕ). Behind text r.1) (not (peek text == ch)) _ _
          (λ _. Behind-refl text) (λ _. Behind-rest_of text))

Behind-if_match :
    (text : List ℕ) (ch : ℕ) (type : TokenType) (other : TokenType × List ℕ)
    → Behind text other.1
    → Behind text (if_match text ch type other).1
Behind-if_match text ch type other p =
    if_elim (λ (r : TokenType × List ℕ). Behind text r.1) (match text ch).0 _ _
      (λ _. Behind-match text ch) (λ _. p)

Behind-if_shift :
    (text : List ℕ) (ch : ℕ) (other type type_assign : TokenType)
    → Behind text (if_shift text ch other type type_assign).1
Behind-if_shift text ch other type type_assign =
    let behind = Behind-match text ch in
    if_elim (λ (r : TokenType × List ℕ). Behind text r.1) (match text ch).0 _ _
      (λ _. Behind-trans text (match text ch).1 _ behind (
        Behind-if_match (match text ch).1 b'=' type_assign (type, (match text ch).1)
          (Behind-refl (match text ch).1)))
      (λ _. Behind-refl text)

Reads-if :
    (text : List ℕ) (b : Bool) (x y : Option (TokenType × List ℕ))
    → Reads text x
    → Reads text y
    → Reads text (if b then x else y)
Reads-if text true x y p q = p
Reads-if text false x y p q = q

Reads-here : (text : List ℕ) (type : TokenType) → Reads text (some (type, text))
Reads-here text type = Behind-refl text

Reads-match :
    (text : List ℕ) (ch : ℕ) (type other : TokenType)
    → Reads text (some (if_match text ch type (other, text)))
Reads-match text ch type other = Behind-if_match text ch type (other, text) (Behind-refl text)

Reads-match_match :
    (text : List ℕ) (ch ch' : ℕ) (type type' other : TokenType)
    → Reads text (some (if_match text ch type (if_match text ch' type' (other, text))))
Reads-match_match text ch ch' type type' other =
    Behind-if_match text ch type (if_match text ch' type' (other, text))
      (Behind-if_match text ch' type' (other, text) (Behind-refl text))

Reads-shift :
    (text : List ℕ) (ch : ℕ) (type' other type type_assign : TokenType)
    → Reads text (some (if_match text b'=' type' (if_shift text ch other type type_assign)))
Reads-shift text ch type' other type type_assign =
    Behind-if_match text b'=' type' (if_shift text ch other type type_assign)
      (Behind-if_shift text ch other type type_assign)

ruleset reads = (Reads-if, Reads-here, Reads-match, Reads-match_match, Reads-shift)

pub Reads-symbol : (ch : ℕ) (text : List ℕ) → Reads text (symbol ch text)
unfolding symbol
Reads-symbol ch text = search reads depth 40
