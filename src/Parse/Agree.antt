-- ===== src/Parse/Agree.antt =====
-- What stands around an operand agrees on operands that agree, and what the handlers named by the
-- table of rules do at the tokens of an expression.
use joker_complier.Base.{ℕ, List, Outcome, ◌≡◌, ap, ◌∙◌}
use joker_complier.Chunk.OpCode.{OpCode, op_pop, op_jump_if_false, op_jump}
use joker_complier.Token.{Token}
use joker_complier.Parse.State.{Parsing, M, continue, ◌>>=◌, ◌>>◌}
use joker_complier.Parse.Moves.{byte, jump, patch}
use joker_complier.Parse.Grammar.{Binary, around, branches, and_binary, or_binary}
use joker_complier.Parse.Steady.{curr, continue_cong, byte-Leaves, patch-Leaves, jump-Leaves}
use joker_complier.Parse.Walks.{Takes}

-- Two handlers that do the same at the tokens `ts`.
abbrev pub Agree : List Token → M (Unit {0}) → M (Unit {0}) → Type 0
Agree ts m n = (s : Parsing) → curr s ≡ ts → m s ≡ n s

-- One step that both make, and then handlers that agree.
pub >>-Agree :
    (ts us : List Token) (m n n' : M (Unit {0}))
    → Takes ts us m
    → Agree us n n'
    → Agree ts (m >> n) (m >> n')
>>-Agree ts us m n n' h k s e = continue_cong us (m s) (λ _. n) (λ _. n') (h s e) λ _ s' e'. k s' e'

-- A step that differs, and then the same.
pub first-Agree :
    (ts : List Token) (m m' n : M (Unit {0})) → Agree ts m m' → Agree ts (m >> n) (m' >> n)
first-Agree ts m m' n h s e = ap (λ (o : Outcome (Unit {0} × Parsing)). continue o (λ _. n)) (h s e)

jump-Agree :
    (opcode : OpCode) (ts : List Token) (m m' : ℕ → M (Unit {0}))
    → ((place : ℕ) → Agree ts (m place) (m' place))
    → Agree ts (jump opcode >>= m) (jump opcode >>= m')
jump-Agree opcode ts m m' h s e =
    continue_cong ts (jump opcode s) m m' (jump-Leaves ts opcode s e) h

pub around-Agree :
    (b : Binary) (ts : List Token) (right right' : M (Unit {0}))
    → Agree ts right right'
    → Agree ts (around b right) (around b right')
around-Agree and_binary ts right right' h =
    jump-Agree op_jump_if_false ts (λ end. byte op_pop >> (right >> patch end))
      (λ end. byte op_pop >> (right' >> patch end))
      λ end.
        >>-Agree ts ts (byte op_pop) (right >> patch end) (right' >> patch end)
          (byte-Leaves ts op_pop) (first-Agree ts right right' (patch end) h)
around-Agree or_binary ts right right' h =
    let rest = λ (m : M (Unit {0})) (else_jump end : ℕ).
      patch else_jump >> (byte op_pop >> (m >> patch end)) in
    jump-Agree op_jump_if_false ts (λ else_jump. jump op_jump >>= rest right else_jump)
      (λ else_jump. jump op_jump >>= rest right' else_jump)
      λ else_jump. jump-Agree op_jump ts (rest right else_jump) (rest right' else_jump) λ end.
        >>-Agree ts ts (patch else_jump) (byte op_pop >> (right >> patch end))
          (byte op_pop >> (right' >> patch end)) (patch-Leaves ts else_jump)
          (>>-Agree ts ts (byte op_pop) (right >> patch end) (right' >> patch end)
            (byte-Leaves ts op_pop) (first-Agree ts right right' (patch end) h))
around-Agree b ts right right' h = first-Agree ts right right' _ h

pub branches-Agree :
    (ts us vs : List Token) (first first' colon colon' second second' : M (Unit {0}))
    → Takes ts us first'
    → Takes us vs colon'
    → Agree ts first first'
    → Agree us colon colon'
    → Agree vs second second'
    → Agree ts (branches first colon second) (branches first' colon' second')
branches-Agree ts us vs first first' colon colon' second second' p q h k l =
    jump-Agree op_jump_if_false ts _ _ λ then_jump.
      >>-Agree ts ts (byte op_pop) _ _ (byte-Leaves ts op_pop) λ s e.
        first-Agree ts first first' _ h s e
        ∙ >>-Agree ts us first' _ _ p
            (jump-Agree op_jump us _ _ λ else_jump.
              >>-Agree us us (patch then_jump) _ _ (patch-Leaves us then_jump) (
                >>-Agree us us (byte op_pop) _ _ (byte-Leaves us op_pop) λ s' e'.
                  first-Agree us colon colon' _ k s' e'
                  ∙ >>-Agree us vs colon' _ _ q (first-Agree vs second second' (patch else_jump) l)
                      s' e'))
            s e
