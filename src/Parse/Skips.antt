-- ===== src/Parse/Skips.antt =====
-- The loops of src/parser.c that pass over a type: `while (!parse_check(self, …)) parse_advance(self)`.
use joker_complier.Base.{
  ℕ, zero, suc, ◌≤◌, Bool, true, false, Option, none, some, List, [], ◌∷◌, Outcome, ok, out_of_fuel,
  ◌≡◌, refl, ◌∙◌, arith, length, if◌then◌else◌, Bool-cases, inl, inr,
}
use joker_complier.Token.{Token, TokenType, same_type, token_eof}
use joker_complier.Parse.State.{Parsing}
use joker_complier.Parse.Moves.{check_any}
use joker_complier.Parse.Variables.{skip_until}
use joker_complier.Parse.Steady.{curr, moved, curr-moved, shift-moved, check-eq, shift-end}

-- Whether the type is one of the stops.
abbrev pub among : List TokenType → TokenType → Bool
among [] type = false
among (stop ∷ stops) type = if same_type type stop then true else among stops type

-- The tokens from the first stop on that is not behind the end of the tokens.
abbrev pub first_stop : List TokenType → List Token → Option (List Token)
first_stop stops [] = none
first_stop stops (t ∷ ts) =
    let rest = first_stop stops ts in
    if among stops t.type then some (t ∷ ts) else if same_type t.type token_eof then none else rest

check_any-among :
    (stops : List TokenType) (t : Token) (ts : List Token) (s : Parsing)
    → curr s ≡ t ∷ ts
    → check_any stops s ≡ ok (among stops t.type, s)
unfolding check_any
check_any-among [] t ts s e = refl
check_any-among (stop ∷ stops) t ts s e = elim (Bool-cases (same_type t.type stop)) [
  | inl found ↦ rw (check-eq t ts s e stop, found) refl
  | inr other ↦ rw (check-eq t ts s e stop, other) (check_any-among stops t ts s e)
]

-- One round of the loop, at a token that is no stop.
module _ (rounds : ℕ) (stops : List TokenType) (t : Token) (ts : List Token) (s : Parsing)
    (e : curr s ≡ t ∷ ts) where
  skip_until-found : among stops t.type ≡ true → skip_until (suc rounds) stops s ≡ ok (tt, s)
  unfolding skip_until
  skip_until-found found = rw (check_any-among stops t ts s e, found) refl

  skip_until-moved :
      among stops t.type ≡ false
      → same_type t.type token_eof ≡ false
      → skip_until (suc rounds) stops s ≡ skip_until rounds stops (moved t ts s)
  unfolding skip_until
  skip_until-moved other live =
      rw (check_any-among stops t ts s e, other, shift-moved t ts s e live) refl

  skip_until-end :
      among stops t.type ≡ false
      → same_type t.type token_eof ≡ true
      → skip_until (suc rounds) stops s ≡ skip_until rounds stops s
  unfolding skip_until
  skip_until-end other end = rw (check_any-among stops t ts s e, other, shift-end t ts s e end) refl

-- The loop has returned at the tokens `rest`.
abbrev Reaches : List Token → Outcome (Unit {0} × Parsing) → Type 0
Reaches rest (ok (u, s)) = curr s ≡ rest
Reaches rest _ = ⊥

skip_until-stuck :
    (rounds : ℕ) (stops : List TokenType) (t : Token) (ts : List Token) (s : Parsing)
    → curr s ≡ t ∷ ts
    → among stops t.type ≡ false
    → same_type t.type token_eof ≡ true
    → skip_until rounds stops s ≡ out_of_fuel
skip_until-stuck zero stops t ts s e other end = unfold skip_until in refl
skip_until-stuck (suc rounds) stops t ts s e other end =
    skip_until-end rounds stops t ts s e other end
    ∙ skip_until-stuck rounds stops t ts s e other end

-- What the loop does on the tokens `tokens`, by whether there is a stop before the end.
abbrev pub Skipped : List TokenType → List Token → Parsing → Option (List Token) → Type 0
Skipped stops tokens s (some rest) =
    (rounds : ℕ) → length tokens ≤ rounds → Reaches rest (skip_until rounds stops s)
Skipped stops tokens s none = (rounds : ℕ) → skip_until rounds stops s ≡ out_of_fuel

abbrev pub HasEnd : List Token → Type 0
HasEnd [] = ⊥
HasEnd (t ∷ ts) = if same_type t.type token_eof then Unit {0} else HasEnd ts

-- The loop that passes over a type annotation returns exactly if one of its stops comes before the end
-- of the tokens, and then at the first of them, in as many rounds as there are tokens. Where no stop is
-- left it never returns, however many rounds it takes.
pub skip_until-Skipped :
    (stops : List TokenType) (tokens : List Token) (s : Parsing)
    → curr s ≡ tokens
    → HasEnd tokens
    → Skipped stops tokens s (first_stop stops tokens)
skip_until-Skipped stops [] s e h = absurd h
skip_until-Skipped stops (t ∷ ts) s e h = elim (Bool-cases (among stops t.type)) [
  | inl found ↦ rw found (at_stop found)
  | inr other ↦ elim (Bool-cases (same_type t.type token_eof)) [
    | inl end ↦ rw (other, end) λ rounds. skip_until-stuck rounds stops t ts s e other end
    | inr live ↦
        let ends : HasEnd ts = rw live at h in
        rw (other, live)
          (step (first_stop stops ts) other live
            (skip_until-Skipped stops ts (moved t ts s) (curr-moved t ts s) ends))
  ]
]
  where
    at_stop :
        among stops t.type ≡ true
        → (rounds : ℕ) → length (t ∷ ts) ≤ rounds
        → Reaches (t ∷ ts) (skip_until rounds stops s)
    at_stop found zero le = absurd (omega arith)
    at_stop found (suc rounds) le = rw (skip_until-found rounds stops t ts s e found) e

    step_on :
        (rest : List Token)
        → among stops t.type ≡ false
        → same_type t.type token_eof ≡ false
        → ((rounds : ℕ)
            → length ts ≤ rounds
            → Reaches rest (skip_until rounds stops (moved t ts s)))
        → (rounds : ℕ) → length (t ∷ ts) ≤ rounds
        → Reaches rest (skip_until rounds stops s)
    step_on rest other live k zero le = absurd (omega arith)
    step_on rest other live k (suc rounds) le =
        rw (skip_until-moved rounds stops t ts s e other live) (k rounds (omega arith))

    stay :
        among stops t.type ≡ false
        → same_type t.type token_eof ≡ false
        → ((rounds : ℕ) → skip_until rounds stops (moved t ts s) ≡ out_of_fuel)
        → (rounds : ℕ) → skip_until rounds stops s ≡ out_of_fuel
    stay other live k zero = unfold skip_until in refl
    stay other live k (suc rounds) = skip_until-moved rounds stops t ts s e other live ∙ k rounds

    step :
        (o : Option (List Token))
        → among stops t.type ≡ false
        → same_type t.type token_eof ≡ false
        → Skipped stops ts (moved t ts s) o
        → Skipped stops (t ∷ ts) s o
    step (some rest) other live k = step_on rest other live k
    step none other live k = stay other live k
