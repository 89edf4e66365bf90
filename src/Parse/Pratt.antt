-- ===== src/Parse/Pratt.antt =====
-- src/parser.c: the parser of expressions, by levels of precedence, reads the tree that the tokens
-- stand for, and writes its postfix code.
use joker_complier.Base.{
  ℕ, zero, suc, ◌+◌, ◌-◌, ◌≤◌, ◌<◌, true, false, List, ◌∷◌, Outcome, ok, panic, undefined,
  out_of_fuel, ◌≡◌, ◌≢◌, ◌⊎◌, inl, inr, refl, ap, sym, ◌∙◌, leb, Bool-cases, arith,
}
use joker_complier.Token.{
  Token, TokenType, same_type, token_eof, token_assign, token_colon, token_left_paren,
  token_question, token_right_paren,
}
use joker_complier.Parse.State.{Parsing, M, continue, ◌>>◌}
use joker_complier.Parse.Moves.{shift, consume, byte}
use joker_complier.Parse.Rules.{get_rule, prec_unary, prec_assign, prec_conditional}
use joker_complier.Parse.Variables.{precedence}
use joker_complier.Parse.Expressions.{run_prefix, run_infix, infix_loop, parse_precedence}
use joker_complier.Parse.Run.{parse}
use joker_complier.Parse.Grammar.{
  Atom, Unary, Binary, Text, Expr, atom, group, unary, binary, ternary, atom_type, unary_type,
  binary_type, token, print, emit_atom, unary_code, around, branches, walk, level, is_left,
  left_level, right_level, Fits, limit, size, spine, neq, bit_and, bit_or, bit_xor, shl, shr,
  and_binary, or_binary, i32_atom, not_unary,
}
use joker_complier.Parse.Steady.{
  curr, moved, curr-moved, shift-moved, consume-moved, Leaves, continue_cong, continue_assoc,
}
use joker_complier.Parse.Walks.{
  >>-Takes, after-Takes, walk-Takes, shift-Takes, atom-Leaves, atom-live, unary-live, binary-live,
}
use joker_complier.Parse.Agree.{Agree, first-Agree, >>-Agree, around-Agree, branches-Agree}
use joker_complier.Parse.Dispatch.{
  rest_of, is_null, parse_precedence-prefix, rest_of-live, infix_loop-suc, infix_loop-stop,
  run_infix-around, run_infix-branches, run_prefix-unary, run_prefix-grouping, run_prefix-atom,
}

left-level : (b : Binary) → is_left b ≡ true → (7 < level b) × (level b ≢ 10)
left-level bit_and h = cc
left-level bit_or h = cc
left-level bit_xor h = cc
left-level shl h = cc
left-level shr h = cc
left-level and_binary h = cc
left-level or_binary h = cc
left-level b h = (omega arith, λ e. omega arith)

right-level : (b : Binary) → is_left b ≡ false → (level b < 8) ⊎ (level b ≡ 10)
right-level bit_and h = inl (omega arith)
right-level bit_or h = inl (omega arith)
right-level bit_xor h = inl (omega arith)
right-level shl h = inr refl
right-level shr h = inr refl
right-level and_binary h = inl (omega arith)
right-level or_binary h = inl (omega arith)
right-level b h = cc

level_bounds : (b : Binary) → (2 < level b) × (level b < 13)
level_bounds neq = (omega arith, omega arith)
level_bounds b = (omega arith, omega arith)

-- An operator that stands after its left operand is not read as a part of that operand.
right-limit : (b b' : Binary) → left_level b ≤ level b' → level b < right_level b'
right-limit b b' h = elim (Bool-cases (is_left b)) [
  | inl left ↦ elim (Bool-cases (is_left b')) [
    | inl left' ↦ ground arith
    | inr right' ↦ ground (arith, left-level b left, right-level b' right')
  ]
  | inr right ↦ ground arith
]

left-limit : (b : Binary) (l : Expr) → Fits (left_level b) l → level b < limit l
left-limit b (atom a x) h = omega (arith, level_bounds b)
left-limit b (group x e y) h = omega (arith, level_bounds b)
left-limit b (unary u x e) h = omega (arith, level_bounds b)
left-limit b (binary l b' x r) h = right-limit b b' h.0
left-limit b (ternary c x a y d) h = absurd (ground (arith, level_bounds b))

right-top : (b : Binary) → right_level b ≤ prec_unary
right-top b = ground (arith, level_bounds b)

right-ne : (b : Binary) → right_level b ≢ prec_conditional
right-ne b e = ground (arith, level_bounds b)

conditional-limit : (c : Expr) → Fits (prec_conditional + 1) c → prec_conditional < limit c
conditional-limit (atom a x) h = omega arith
conditional-limit (group x e y) h = omega arith
conditional-limit (unary u x e) h = omega arith
conditional-limit (binary l b x r) h = ground (arith, h.0)
conditional-limit (ternary c x a y b) h = absurd (omega (arith, h.0))

-- What follows an expression: a token that is not the end, no assignment, and no operator that
-- would go on with the expression.
pub record Follows (bound : ℕ) (t : Token) : Type 0 where
  pub live : same_type t.type token_eof ≡ false
  pub other : same_type t.type token_assign ≡ false
  pub lower : (get_rule t.type).precedence < bound

binary-other : (b : Binary) → same_type (binary_type b) token_assign ≡ false
binary-other neq = refl
binary-other b = refl

binary-Follows :
    (b : Binary) (x : Text) (bound : ℕ) → level b < bound → Follows bound (token (binary_type b) x)
binary-Follows b x bound h = record { live = binary-live b; other = binary-other b; lower = h }

Fits-mono : (p q : ℕ) (e : Expr) → p ≤ q → Fits q e → Fits p e
Fits-mono p q (atom a x) le h = h
Fits-mono p q (group x e y) le h = h
Fits-mono p q (unary u x e) le h = h
Fits-mono p q (binary l b x r) le h = (omega arith, h.1, h.2)
Fits-mono p q (ternary c x a y b) le h = (omega arith, h.1, h.2, h.3)

pub spine-lt-size : (e : Expr) → spine e < size e
spine-lt-size (atom a x) = omega arith
spine-lt-size (group x e y) = omega arith
spine-lt-size (unary u x e) = omega arith
spine-lt-size (binary l b x r) = omega (arith, spine-lt-size l)
spine-lt-size (ternary c x a y b) = omega (arith, spine-lt-size c)

pub predecessor : (n : ℕ) → 0 < n → (m : ℕ) × (n ≡ suc m)
predecessor zero h = absurd (omega arith)
predecessor (suc m) h = (m, refl)

continue_ok : {A : Type 0} (o : Outcome (A × Parsing)) → continue o (λ a s. ok (a, s)) ≡ o
continue_ok (ok (a, s)) = refl
continue_ok panic = refl
continue_ok undefined = refl
continue_ok out_of_fuel = refl

-- The parser with fuel `n` reads the expression `e` where the level is `q`, up to its loop with the
-- rounds that are left.
abbrev pub Reads : Expr → ℕ → Token → List Token → Type 0
Reads e q t rest =
    (n m : ℕ) (s : Parsing)
    → size e ≤ n
    → m + spine e ≡ n
    → curr s ≡ print e (t ∷ rest)
    → parse (suc n) (precedence q) s ≡ continue (walk e s) (λ _. infix_loop n (parse n) m q)

-- An operand: the loop stops at the token after it.
operand-Agree :
    (e : Expr) (q n : ℕ) (t : Token) (rest : List Token)
    → size e < n
    → Follows q t
    → Reads e q t rest
    → Agree (print e (t ∷ rest)) (parse n (precedence q)) (walk e)
operand-Agree e q n t rest fuel follows reads s h =
    let (k, n-suc) = predecessor n (omega arith) in
    let (j, left) = predecessor (k - spine e) (omega (arith, spine-lt-size e)) in
    rw n-suc (
      reads k (k - spine e) s (omega arith) (omega (arith, spine-lt-size e)) h
      ∙ continue_cong (t ∷ rest) (walk e s) (λ _. infix_loop k (parse k) (k - spine e) q)
          (λ u s'. ok (u, s')) (walk-Takes e (t ∷ rest) s h)
          (λ _ s' e'. rw left (
            infix_loop-stop k (parse k) t rest s' q j e' (ground (arith, follows.lower))
              follows.other))
      ∙ continue_ok (walk e s))

Fits-limit : (q : ℕ) (e : Expr) → Fits q e → q ≤ prec_unary → q ≢ prec_conditional → q ≤ limit e
Fits-limit q (atom a x) h top ne = omega arith
Fits-limit q (group x e y) h top ne = omega arith
Fits-limit q (unary u x e) h top ne = omega arith
Fits-limit q (binary l b x r) h top ne = ground (arith, h.0)
Fits-limit q (ternary c x a y b) h top ne = omega (arith, h.0)

abbrev raise : (p q : ℕ) (t : Token) → p ≤ q → Follows p t → Follows q t
raise p q t le f = record { live = f.live; other = f.other; lower = omega (arith, f.lower) }

-- An operand whose tokens fit the level at which it is read.
read_operand :
    (e : Expr) (q n : ℕ) (t : Token) (rest : List Token)
    → Fits q e
    → q ≤ prec_unary
    → q ≢ prec_conditional
    → size e < n
    → Follows q t
    → (Follows (limit e) t → Reads e q t rest)
    → Agree (print e (t ∷ rest)) (parse n (precedence q)) (walk e)
read_operand e q n t rest fits top ne fuel f reads =
    operand-Agree e q n t rest fuel f (reads (raise q (limit e) t (Fits-limit q e fits top ne) f))

-- The prefix part of `parse_precedence`, up to the loop.
prefix_part :
    (n p : ℕ) (t : Token) (rest : List Token) (o : Outcome (Unit {0} × Parsing))
    → same_type t.type token_eof ≡ false
    → Leaves (t ∷ rest) o
    → continue o (λ _. rest_of n (parse n) p) ≡ continue o (λ _. infix_loop n (parse n) n p)
prefix_part n p t rest o live leaves =
    continue_cong (t ∷ rest) o (λ _. rest_of n (parse n) p) (λ _. infix_loop n (parse n) n p) leaves
      λ _ s e. rest_of-live n (parse n) t rest s p e live

parse-suc :
    (n p : ℕ) (s : Parsing) → parse (suc n) (precedence p) s ≡ parse_precedence n (parse n) p s
unfolding parse
parse-suc n p s = refl

atom-rule : (a : Atom) → is_null (get_rule (atom_type a)).prefix ≡ false
atom-rule i32_atom = refl
atom-rule a = refl

unary-rule : (u : Unary) → is_null (get_rule (unary_type u)).prefix ≡ false
unary-rule not_unary = refl
unary-rule u = refl

-- The prefix part, from the call to the loop: `part` is what the rule of the first token does.
prefix-Reads :
    (n m p : ℕ) (first t : Token) (tokens rest : List Token) (s : Parsing) (part : M (Unit {0}))
    → m + 0 ≡ n
    → curr s ≡ first ∷ tokens
    → same_type first.type token_eof ≡ false
    → is_null (get_rule first.type).prefix ≡ false
    → same_type t.type token_eof ≡ false
    → run_prefix n (parse n) (get_rule first.type).prefix (leb p prec_assign) (moved first tokens s)
      ≡ part (moved first tokens s)
    → Leaves (t ∷ rest) (part (moved first tokens s))
    → parse (suc n) (precedence p) s
      ≡ continue ((shift >> part) s) (λ _. infix_loop n (parse n) m p)
prefix-Reads n m p first t tokens rest s part left h live rule live' e leaves =
    let whole : m ≡ n = omega (arith, left) in
    rw (whole, shift-moved first tokens s h live)
      (parse-suc n p s
        ∙ parse_precedence-prefix n (parse n) first tokens s p h live rule
        ∙ ap (λ (o : Outcome (Unit {0} × Parsing)). continue o (λ _. rest_of n (parse n) p)) e
        ∙ prefix_part n p t rest (part (moved first tokens s)) live' leaves)

-- The loop after a left operand takes the operator, with its right part.
infix-Reads :
    (n m p : ℕ) (operator : Token) (tokens : List Token) (s : Parsing) (part : M (Unit {0}))
    → curr s ≡ operator ∷ tokens
    → same_type operator.type token_eof ≡ false
    → p ≤ (get_rule operator.type).precedence
    → run_infix n
        (parse n)
        (get_rule operator.type).infix_rule
        (leb p prec_assign)
        (moved operator tokens s)
      ≡ part (moved operator tokens s)
    → infix_loop n (parse n) (suc m) p s
      ≡ continue ((shift >> part) s) (λ _. infix_loop n (parse n) m p)
infix-Reads n m p operator tokens s part h live le e =
    infix_loop-suc n (parse n) operator tokens s p m h live (ground arith)
    ∙ ap (λ (o : Outcome (Unit {0} × Parsing)). continue o (λ _. infix_loop n (parse n) m p)) e
    ∙ rw (shift-moved operator tokens s h live) refl

-- A left operand, and then the operator.
left-Reads :
    (l : Expr) (n m p : ℕ) (operator : Token) (tokens : List Token) (s : Parsing)
    (part : M (Unit {0}))
    → Reads l p operator tokens
    → size l ≤ n
    → suc m + spine l ≡ n
    → curr s ≡ print l (operator ∷ tokens)
    → same_type operator.type token_eof ≡ false
    → p ≤ (get_rule operator.type).precedence
    → ((s' : Parsing)
        → curr s' ≡ operator ∷ tokens
        → run_infix n
            (parse n)
            (get_rule operator.type).infix_rule
            (leb p prec_assign)
            (moved operator tokens s')
          ≡ part (moved operator tokens s'))
    → parse (suc n) (precedence p) s
      ≡ continue ((walk l >> (shift >> part)) s) (λ _. infix_loop n (parse n) m p)
left-Reads l n m p operator tokens s part reads fuel left h live le e =
    reads n (suc m) s fuel left h
    ∙ continue_cong (operator ∷ tokens) (walk l s) (λ _. infix_loop n (parse n) (suc m) p)
        (λ _ s'. continue ((shift >> part) s') (λ _. infix_loop n (parse n) m p))
        (walk-Takes l (operator ∷ tokens) s h)
        (λ _ s' e'. infix-Reads n m p operator tokens s' part e' live le (e s' e'))
    ∙ sym (continue_assoc (walk l s) (λ _. shift >> part) (λ _. infix_loop n (parse n) m p))

consume-Agree :
    (t : Token) (rest : List Token) (type : TokenType)
    → same_type t.type type ≡ true
    → same_type t.type token_eof ≡ false
    → Agree (t ∷ rest) (consume type) shift
consume-Agree t rest type found live s e =
    consume-moved t rest s e type found live ∙ sym (shift-moved t rest s e live)

pub parse-Reads :
    (e : Expr) (p : ℕ) (t : Token) (rest : List Token)
    → Fits p e
    → Follows (limit e) t
    → Reads e p t rest
parse-Reads (atom a x) p t rest fits f n m s fuel left h =
    prefix-Reads n m p (token (atom_type a) x) t (t ∷ rest) rest s (emit_atom a) left h
      (atom-live a) (atom-rule a) f.live
      (run_prefix-atom n (parse n) a x t rest s (leb p prec_assign) f.other)
      (atom-Leaves a x (t ∷ rest) s)
parse-Reads (group x e y) p t rest fits f n m s fuel left h =
    let first = token token_left_paren x in
    let close = token token_right_paren y in
    let inside = print e (close ∷ t ∷ rest) in
    let at = moved first inside s in
    prefix-Reads n m p first t inside rest s (walk e >> shift) left h refl refl f.live
      (run_prefix-grouping n (parse n) at (leb p prec_assign)
        ∙ first-Agree inside (parse n (precedence prec_assign)) (walk e) (consume token_right_paren)
            (read_operand e prec_assign n close (t ∷ rest) fits (omega arith) (λ o. omega arith)
              (omega (arith, fuel)) (record { live = refl; other = refl; lower = omega arith })
              (λ f'. parse-Reads e prec_assign close (t ∷ rest) fits f'))
            at (curr-moved first inside s)
        ∙ >>-Agree inside (close ∷ t ∷ rest) (walk e) (consume token_right_paren) shift
            (walk-Takes e (close ∷ t ∷ rest))
            (consume-Agree close (t ∷ rest) token_right_paren refl refl) at
            (curr-moved first inside s))
      (>>-Takes inside (close ∷ t ∷ rest) (t ∷ rest) (walk e) shift
        (walk-Takes e (close ∷ t ∷ rest)) (shift-Takes close (t ∷ rest) refl) at
        (curr-moved first inside s))
parse-Reads (unary u x e) p t rest fits f n m s fuel left h =
    let operator = token (unary_type u) x in
    let tokens = print e (t ∷ rest) in
    let at = moved operator tokens s in
    prefix-Reads n m p operator t tokens rest s (walk e >> byte (unary_code u)) left h
      (unary-live u) (unary-rule u) f.live
      (run_prefix-unary n (parse n) u x tokens s (leb p prec_assign)
        ∙ first-Agree tokens (parse n (precedence prec_unary)) (walk e) (byte (unary_code u))
            (read_operand e prec_unary n t rest fits (omega arith) (λ o. omega arith)
              (omega (arith, fuel)) f (λ f'. parse-Reads e prec_unary t rest fits f'))
            at (curr-moved operator tokens s))
      (after-Takes tokens (t ∷ rest) (unary_code u) (walk e) (walk-Takes e (t ∷ rest)) at
        (curr-moved operator tokens s))
parse-Reads (binary l b x r) p t rest fits f n m s fuel left h =
    left-Reads l n m p (token (binary_type b) x) (print r (t ∷ rest)) s (around b (walk r))
      (parse-Reads l p (token (binary_type b) x) (print r (t ∷ rest))
        (Fits-mono p (left_level b) l (ground (arith, fits.0)) fits.1)
        (binary-Follows b x (limit l) (left-limit b l fits.1)))
      (omega (arith, fuel)) (omega (arith, left)) h (binary-live b) fits.0
      λ s' e'.
        run_infix-around n (parse n) b x (print r (t ∷ rest)) s' (leb p prec_assign)
        ∙ around-Agree b (print r (t ∷ rest)) (parse n (precedence (right_level b))) (walk r)
            (read_operand r (right_level b) n t rest fits.2 (right-top b) (right-ne b)
              (omega (arith, fuel)) f λ f'. parse-Reads r (right_level b) t rest fits.2 f')
            (moved (token (binary_type b) x) (print r (t ∷ rest)) s')
            (curr-moved (token (binary_type b) x) (print r (t ∷ rest)) s')
parse-Reads (ternary c x a y b) p t rest fits f n m s fuel left h =
    let question = token token_question x in
    let colon = token token_colon y in
    let second = print b (t ∷ rest) in
    let first = print a (colon ∷ second) in
    let one = parse n (precedence prec_assign) in
    left-Reads c n m p question first s (branches (walk a) shift (walk b))
      (parse-Reads c p question first
        (Fits-mono p (prec_conditional + 1) c (omega (arith, fits.0)) fits.1)
        (record { live = refl; other = refl; lower = conditional-limit c fits.1 }))
      (omega (arith, fuel)) (omega (arith, left)) h refl fits.0
      λ s' e'.
        run_infix-branches n (parse n) (moved question first s') (leb p prec_assign)
        ∙ branches-Agree first (colon ∷ second) second one (walk a) (consume token_colon) shift one
            (walk b) (walk-Takes a (colon ∷ second)) (shift-Takes colon second refl)
            (read_operand a prec_assign n colon second fits.2 (omega arith) (λ o. omega arith)
              (omega (arith, fuel)) (record { live = refl; other = refl; lower = omega arith })
              (λ f'. parse-Reads a prec_assign colon second fits.2 f'))
            (consume-Agree colon second token_colon refl refl)
            (read_operand b prec_assign n t rest fits.3 (omega arith) (λ o. omega arith)
              (omega (arith, fuel)) f (λ f'. parse-Reads b prec_assign t rest fits.3 f'))
            (moved question first s') (curr-moved question first s')

-- The parser of expressions reads a tree off its tokens. Where the tokens of an expression, that need
-- no more parentheses, are followed by a token that has no infix rule, is no `=` and not the end of the
-- tokens, `parse_precedence` at the level of assignments does exactly what a walk over the tree does:
-- it passes the tokens of the tree and writes the code of the operands before that of their operator,
-- with the jumps of `and`, `or` and `?:` around the branches. Fuel above the size of the tree is enough.
pub parse-walk :
    (e : Expr) (n : ℕ) (t : Token) (rest : List Token) (s : Parsing)
    → Fits prec_assign e
    → size e < n
    → Follows prec_assign t
    → curr s ≡ print e (t ∷ rest)
    → parse n (precedence prec_assign) s ≡ walk e s
parse-walk e n t rest s fits fuel follows h =
    read_operand e prec_assign n t rest fits (omega arith) (λ o. omega arith) fuel follows
      (λ f. parse-Reads e prec_assign t rest fits f) s h
