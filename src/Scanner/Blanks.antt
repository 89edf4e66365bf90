-- ===== src/Scanner/Blanks.antt =====
-- src/scanner.c: the loop over the blanks and the comments ends.
use joker_complier.Base.{
  ℕ, zero, suc, ◌+◌, ◌<◌, Bool, true, false, not, ◌&&◌, ◌||◌, Option, none, some, List, [], ◌∷◌,
  ◌++◌, Outcome, ok, panic, ◌==◌, if◌then◌else◌, length, ◌≡◌, refl, ap, sym, ◌∙◌, ◌⊎◌, inl, inr,
  arith, Bool-cases, length-append,
}
use joker_complier.Scanner.{peek, advance, peek_next, is_at_end, skip_line, skip_block, skip}
use joker_complier.Scanner.Behind.{bytes_assoc, Behind-length, Behind-skip_line, if_elim}

-- Bytes with no line's end among them.
abbrev pub one_line : List ℕ → Bool
one_line [] = true
one_line (c ∷ cs) = not (c == b'\n') && one_line cs

abbrev pub is_blank : ℕ → Bool
is_blank c = (c == b' ' || c == b'\r' || c == b'\t') || c == b'\n'

-- What may stand in front of a token.
pub data IsBlank : List ℕ → Type 0 where
  nothing : IsBlank []
  blank_byte : (c : ℕ) (cs : List ℕ) → is_blank c ≡ true → IsBlank cs → IsBlank (c ∷ cs)
  line_comment :
      (body cs : List ℕ) → one_line body ≡ true → IsBlank cs → IsBlank (b'/' ∷ b'/' ∷ (body ++ cs))
  block_comment :
      (body cs : List ℕ) → IsBlank cs → IsBlank (b'/' ∷ b'*' ∷ (body ++ (b'*' ∷ b'/' ∷ cs)))

abbrev pub Blanked : List ℕ → List ℕ → Type 0
Blanked text text' = (passed : List ℕ) × IsBlank passed × (text ≡ passed ++ text')

-- The text of a block comment has its end, before the end of the source.
abbrev pub closes : List ℕ → Bool
closes [] = false
closes (c ∷ cs) =
    let rest = closes cs in
    if c == 0 then false else if c == b'*' && peek cs == b'/' then true else rest

-- Behind some blanks a block comment begins that has no end.
abbrev pub Opens : List ℕ → Type 0
Opens text = (body : List ℕ) × Blanked text (b'/' ∷ b'*' ∷ body) × (closes body ≡ false)

-- The text behind the comment, if it ends.
abbrev Ends : List ℕ → Option (List ℕ × ℕ) → Type 0
Ends text none = closes text ≡ false
Ends text (some (text', line')) = (body : List ℕ) × (text ≡ body ++ (b'*' ∷ b'/' ∷ text'))

Ends-∷ :
    (c : ℕ) (cs : List ℕ) (r : Option (List ℕ × ℕ))
    → (c == 0) ≡ false
    → (c == b'*' && peek cs == b'/') ≡ false
    → Ends cs r
    → Ends (c ∷ cs) r
Ends-∷ c cs none live inside e = rw (live, inside) e
Ends-∷ c cs (some (text', line')) live inside (body, e) = (c ∷ body, ap (◌∷◌ c) e)

ends_here :
    (c : ℕ) (cs : List ℕ)
    → (c == b'*' && peek cs == b'/') ≡ true
    → c ∷ cs ≡ b'*' ∷ b'/' ∷ advance cs
ends_here c [] h = absurd (ground arith)
ends_here c (d ∷ cs) h =
    let star : c ≡ b'*' = ground arith in let slash : d ≡ b'/' = ground arith in rw (star, slash)

Ends-skip_block : (text : List ℕ) (line : ℕ) → Ends text (skip_block text line)
unfolding skip_block
Ends-skip_block [] line = refl
Ends-skip_block (c ∷ cs) line =
    let line' = if c == b'\n' then line + 1 else line in
    if_elim (Ends (c ∷ cs)) (c == 0) none _ (λ z. rw z refl)
      (λ live.
        if_elim (Ends (c ∷ cs)) _ (some (advance cs, line')) (skip_block cs line')
          (λ e. ([], ends_here c cs e))
          (λ inside. Ends-∷ c cs (skip_block cs line') live inside (Ends-skip_block cs line')))

skip_line-one_line :
    (text : List ℕ) → (body : List ℕ) × (one_line body ≡ true) × (text ≡ body ++ skip_line text)
unfolding skip_line
skip_line-one_line [] = ([], refl, refl)
skip_line-one_line (c ∷ cs) =
    if_elim (λ r. (body : List ℕ) × (one_line body ≡ true) × (c ∷ cs ≡ body ++ r))
      (c == b'\n' || c == 0) (c ∷ cs) (skip_line cs) (λ _. ([], refl, refl))
      (λ e. longer e (skip_line-one_line cs))
  where
    longer :
        (c == b'\n' || c == 0) ≡ false
        → ((body : List ℕ) × (one_line body ≡ true) × (cs ≡ body ++ skip_line cs))
        → (body : List ℕ) × (one_line body ≡ true) × (c ∷ cs ≡ body ++ skip_line cs)
    longer e (body, one, e') = (c ∷ body, ground (arith), ap (◌∷◌ c) e')

-- The two bytes at the front of a text.
two_bytes :
    (text : List ℕ) (c d : ℕ)
    → (peek text == suc c) ≡ true
    → (peek_next text == suc d) ≡ true
    → (cs : List ℕ) × (text ≡ suc c ∷ suc d ∷ cs)
two_bytes [] c d h h' = absurd (ground arith)
two_bytes (x ∷ []) c d h h' = absurd (ground arith)
two_bytes (x ∷ y ∷ cs) c d h h' =
    let first : x ≡ suc c = ground arith in
    let second : y ≡ suc d = ground arith in (cs, rw (first, second))

-- A loop over `text` that is not out of fuel: the process ends at a comment without an end, or the loop stops
-- behind blanks.
abbrev pub Stops : List ℕ → Outcome (List ℕ × ℕ) → Type 0
Stops text o =
    ((o ≡ panic) × Opens text)
    ⊎ ((text' : List ℕ) × (line' : ℕ) × (o ≡ ok (text', line')) × Blanked text text')

-- A byte that is not the end is passed.
pub advance-lt : (text : List ℕ) → is_at_end text ≡ false → length (advance text) < length text
advance-lt [] h = ground arith
advance-lt (x ∷ xs) h = ground arith

-- A byte that one of three tests names is not the end.
blank-is_at_end : (c : ℕ) → (c == b' ' || c == b'\r' || c == b'\t') ≡ true → (c == 0) ≡ false
blank-is_at_end c h = ground arith

pub byte-is_at_end : (c d : ℕ) → (c == suc d) ≡ true → (c == 0) ≡ false
byte-is_at_end c d h = ground arith

skip_line-lt : (text : List ℕ) → (peek text == b'/') ≡ true → length (skip_line text) < length text
unfolding skip_line
skip_line-lt [] h = ground arith
skip_line-lt (x ∷ xs) h = elim (Bool-cases (x == b'\n' || x == 0)) [
  | inl e ↦ absurd (ground arith)
  | inr e ↦ omega (
    arith,
    ap (λ b. length (if b then x ∷ xs else skip_line xs)) e,
    Behind-length xs (skip_line xs) (Behind-skip_line xs),
  )
]

bytes_assoc_two :
    (body passed text' : List ℕ)
    → (body ++ (b'*' ∷ b'/' ∷ passed)) ++ text' ≡ body ++ (b'*' ∷ b'/' ∷ (passed ++ text'))
bytes_assoc_two body passed text' = bytes_assoc body (b'*' ∷ b'/' ∷ passed) text'

Stops-map :
    (text text₁ : List ℕ) (o : Outcome (List ℕ × ℕ))
    → ((t : List ℕ) → Blanked text₁ t → Blanked text t)
    → Stops text₁ o
    → Stops text o
Stops-map text text₁ o k (inl (e, (body, blanks, unclosed))) = inl (e, (body, k _ blanks, unclosed))
Stops-map text text₁ o k (inr (text', line', e, blanks)) = inr (text', line', e, k text' blanks)

-- What stands in front of more blanks.
byte_Blanked :
    (text t : List ℕ) → is_blank (peek text) ≡ true → Blanked (advance text) t → Blanked text t
byte_Blanked [] t h b = absurd (ground arith)
byte_Blanked (c ∷ cs) t h (passed, blank, e') =
    let there : (c == 0) ≡ false = ground arith in
    (
      c ∷ passed,
      blank_byte c passed h blank,
      ap (◌∷◌ c) (ap (λ b. if b then c ∷ cs else cs) (sym there) ∙ e'),
    )

skip_line-slashes : (cs : List ℕ) → skip_line (b'/' ∷ b'/' ∷ cs) ≡ skip_line cs
unfolding skip_line
skip_line-slashes cs = refl

line_Blanked :
    (text cs t : List ℕ) → text ≡ b'/' ∷ b'/' ∷ cs → Blanked (skip_line text) t → Blanked text t
line_Blanked text cs t front (passed, blank, e') =
    let (body, one, whole) = skip_line-one_line cs in
    let after : skip_line cs ≡ passed ++ t = sym (ap skip_line front ∙ skip_line-slashes cs) ∙ e' in
    (
      b'/' ∷ b'/' ∷ (body ++ passed),
      line_comment body passed one blank,
      front
          ∙ ap (λ z. b'/' ∷ b'/' ∷ z)
              (whole ∙ ap (λ z. body ++ z) after ∙ sym (bytes_assoc body passed t)),
    )

block_Blanked :
    (text cs after t : List ℕ)
    → text ≡ b'/' ∷ b'*' ∷ cs
    → (body : List ℕ) × (cs ≡ body ++ (b'*' ∷ b'/' ∷ after))
    → Blanked after t
    → Blanked text t
block_Blanked text cs after t front (body, whole) (passed, blank, e') = (
  b'/' ∷ b'*' ∷ (body ++ (b'*' ∷ b'/' ∷ passed)),
  block_comment body passed blank,
  front
      ∙ ap (λ z. b'/' ∷ b'*' ∷ z)
          (whole ∙ ap (λ z. body ++ (b'*' ∷ b'/' ∷ z)) e' ∙ sym (bytes_assoc_two body passed t)),
)

is_blank-blank : (c : ℕ) → (c == b' ' || c == b'\r' || c == b'\t') ≡ true → is_blank c ≡ true
is_blank-blank c h = ground arith

is_blank-newline : (c : ℕ) → (c == b'\n') ≡ true → is_blank c ≡ true
is_blank-newline c h = ground arith

-- The loop over the blanks and the comments needs no more fuel than there are bytes.
pub skip-Stops :
    (fuel : ℕ) (text : List ℕ) (line : ℕ) → length text < fuel → Stops text (skip fuel text line)
unfolding skip
skip-Stops zero text line h = absurd (omega arith)
skip-Stops (suc fuel) text line h =
    if_elim (Stops text) _ _ _
      (λ e.
        Stops-map text (advance text) _ (λ t. byte_Blanked text t (is_blank-blank (peek text) e))
          (skip-Stops fuel (advance text) line
            (omega (arith, advance-lt text (blank-is_at_end (peek text) e)))))
      (λ _.
        if_elim (Stops text) _ _ _
          (λ e.
            Stops-map text (advance text) _
              (λ t. byte_Blanked text t (is_blank-newline (peek text) e))
              (skip-Stops fuel (advance text) (line + 1)
                (omega (arith, advance-lt text (byte-is_at_end (peek text) 9 e)))))
          (λ _.
            if_elim (Stops text) _ _ _
              (λ e.
                if_elim (Stops text) (peek_next text == b'/') _ _
                  (λ e'.
                    line_stops e e'
                      (skip-Stops fuel (skip_line text) line (omega (arith, skip_line-lt text e))))
                  (λ _.
                    if_elim (Stops text) (peek_next text == b'*') _ _
                      (λ e'.
                        block (skip_block (advance (advance text)) line)
                          (Ends-skip_block (advance (advance text)) line) e e' (skip-Stops fuel))
                      (λ _. stop)))
              (λ _. stop)))
  where
    stop : Stops text (ok (text, line))
    stop = inr (text, line, refl, ([], nothing, refl))

    line_stops :
        (peek text == b'/') ≡ true
        → (peek_next text == b'/') ≡ true
        → Stops (skip_line text) (skip fuel (skip_line text) line)
        → Stops text (skip fuel (skip_line text) line)
    line_stops e e' stops =
        let (cs, whole) = two_bytes text 46 46 e e' in
        Stops-map text (skip_line text) _ (λ t. line_Blanked text cs t whole) stops

    block :
        (r : Option (List ℕ × ℕ))
        → Ends (advance (advance text)) r
        → (peek text == b'/') ≡ true
        → (peek_next text == b'*') ≡ true
        → ((text' : List ℕ) (line' : ℕ) → length text' < fuel → Stops text' (skip fuel text' line'))
        → Stops text (elim r as (λ r. Outcome (List ℕ × ℕ)) [
          | none ↦ panic
          | some (text', line') ↦ skip fuel text' line'
        ])
    block none ends e e' loop =
        let (cs, whole) = two_bytes text 46 41 e e' in
        let same : cs ≡ advance (advance text) = sym (ap (λ t. advance (advance t)) whole) in
        inl (refl, (cs, ([], nothing, whole), ap closes same ∙ ends))
    block (some (text', line')) (body, ends) e e' loop =
        let (cs, whole) = two_bytes text 46 41 e e' in
        let same : cs ≡ advance (advance text) = sym (ap (λ t. advance (advance t)) whole) in
        Stops-map text text' _ (λ t. block_Blanked text cs text' t whole (body, same ∙ ends))
          (loop text' line' (
            omega (
              arith,
              ap length whole,
              ap length (same ∙ ends),
              length-append body (b'*' ∷ b'/' ∷ text'),
            )))
