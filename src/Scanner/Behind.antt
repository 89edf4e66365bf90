-- ===== src/Scanner/Behind.antt =====
-- src/scanner.c: a part of the text and what is behind it.
use joker_complier.Base.{
  ℕ, ◌+◌, ◌-◌, ◌≤◌, Bool, true, false, List, [], ◌∷◌, ◌++◌, ◌==◌, if◌then◌else◌, length, take, ◌≡◌,
  refl, ap, sym, ◌∙◌, arith, length-append, take-append_length,
}
use joker_complier.Scanner.{
  rest_of, advance, is_at_end, skip_line, skip_digits, skip_word, skip_string,
}

-- `text'` is the text behind some bytes of `text`.
abbrev pub Behind : List ℕ → List ℕ → Type 0
Behind text text' = (passed : List ℕ) × (text ≡ passed ++ text')

pub Behind-refl : (text : List ℕ) → Behind text text
Behind-refl text = ([], refl)

pub bytes_assoc : (xs ys zs : List ℕ) → (xs ++ ys) ++ zs ≡ xs ++ (ys ++ zs)
bytes_assoc [] ys zs = refl
bytes_assoc (x ∷ xs) ys zs = ap (◌∷◌ x) (bytes_assoc xs ys zs)

pub Behind-trans : (a b c : List ℕ) → Behind a b → Behind b c → Behind a c
Behind-trans a b c (xs, e) (ys, e') =
    (xs ++ ys, e ∙ ap (λ z. xs ++ z) e' ∙ sym (bytes_assoc xs ys c))

pub Behind-∷ : (x : ℕ) (text text' : List ℕ) → Behind text text' → Behind (x ∷ text) text'
Behind-∷ x text text' (xs, e) = (x ∷ xs, ap (◌∷◌ x) e)

pub Behind-length : (text text' : List ℕ) → Behind text text' → length text' ≤ length text
Behind-length text text' (xs, e) = omega (arith, ap length e, length-append xs text')

pub if_Behind :
    (b : Bool) (text x y : List ℕ)
    → Behind text x
    → Behind text y
    → Behind text (if b then x else y)
if_Behind true text x y p q = p
if_Behind false text x y p q = q

pub Behind-rest_of : (text : List ℕ) → Behind text (rest_of text)
Behind-rest_of [] = ([], refl)
Behind-rest_of (c ∷ cs) = (c ∷ [], refl)

pub Behind-advance : (text : List ℕ) → Behind text (advance text)
Behind-advance text =
    if_Behind (is_at_end text) text text (rest_of text) (Behind-refl text) (Behind-rest_of text)

pub Behind-skip_line : (text : List ℕ) → Behind text (skip_line text)
unfolding skip_line
Behind-skip_line [] = Behind-refl []
Behind-skip_line (c ∷ cs) =
    if_Behind _ (c ∷ cs) (c ∷ cs) (skip_line cs) (Behind-refl (c ∷ cs))
      (Behind-∷ c cs (skip_line cs) (Behind-skip_line cs))

pub Behind-skip_word : (text : List ℕ) → Behind text (skip_word text)
unfolding skip_word
Behind-skip_word [] = Behind-refl []
Behind-skip_word (c ∷ cs) =
    if_Behind _ (c ∷ cs) (skip_word cs) (c ∷ cs)
      (Behind-∷ c cs (skip_word cs) (Behind-skip_word cs)) (Behind-refl (c ∷ cs))

pub Behind-skip_digits : (text : List ℕ) → Behind text (skip_digits text)
unfolding skip_digits
Behind-skip_digits [] = Behind-refl []
Behind-skip_digits (c ∷ cs) =
    if_Behind _ (c ∷ cs) (skip_digits cs) (c ∷ cs)
      (Behind-∷ c cs (skip_digits cs) (Behind-skip_digits cs)) (Behind-refl (c ∷ cs))

-- A property of a conditional, from the property of each branch under its test.
pub if_elim {ℓ κ} :
    {A : Type ℓ} (P : A → Type κ) (b : Bool) (x y : A)
    → (b ≡ true → P x)
    → (b ≡ false → P y)
    → P (if b then x else y)
if_elim P true x y f g = f refl
if_elim P false x y f g = g refl

pub Behind-skip_string : (text : List ℕ) (line : ℕ) → Behind text (skip_string text line).0
unfolding skip_string
Behind-skip_string [] line = Behind-refl []
Behind-skip_string (c ∷ cs) line =
    if_elim (λ r. Behind (c ∷ cs) r.0) _ (c ∷ cs, line)
      (skip_string cs (if c == b'\n' then line + 1 else line)) (λ _. Behind-refl (c ∷ cs))
      (λ _. Behind-∷ c cs _ (Behind-skip_string cs _))

pub Behind-whole :
    (text text' : List ℕ) → Behind text text' → length text ≤ length text' → text ≡ text'
Behind-whole text text' ([], e) h = e
Behind-whole text text' (x ∷ xs, e) h = absurd (omega (arith, ap length e, length-append xs text'))

pub take-Behind :
    (text text' : List ℕ)
    → Behind text text'
    → text ≡ take (length text - length text') text ++ text'
take-Behind text text' (xs, e) =
    let long : length text - length text' ≡ length xs =
      omega (arith, ap length e, length-append xs text') in
    e
    ∙ ap (λ ys. ys ++ text')
        (sym (ap (λ n. take n text) long ∙ ap (take (length xs)) e ∙ take-append_length xs text'))
