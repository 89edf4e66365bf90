-- ===== src/Compiler/Pops.antt =====
-- src/parser.c and src/upvalue.c: what the end of a scope emits, and the byte of an upvalue.
use mathlib.Core.List.{append_assoc, append-nil}
use joker_complier.Base.{
  ℕ, zero, suc, ◌-◌, ◌%◌, ◌^◌, ◌<◌, ◌≡◌, refl, sym, ap, ◌∙◌, Bool, false, true, ◌&&◌, ◌||◌, some,
  List, [], ◌∷◌, ◌++◌, map, arith, ok, leb, if◌then◌else◌, length, get_elem?, take, get_elem?_total,
  length-take, Bool-cases, inl, inr,
}
use joker_complier.Chunk.{Chunk}
use joker_complier.Chunk.Write.{HoldsChunk, write_chunk-HoldsChunk}
use joker_complier.Compiler.Emit.{Parser, op_pop, op_close_upvalue}
use joker_complier.Compiler.Scope.{
  LocalVariable, Compiler, is_inner, pop_loop, end_scope, new_upvalue_info, read_upvalue_info,
}

-- The instruction that takes a local from the stack.
abbrev pub pop_code : LocalVariable → ℕ
pop_code l = if l.is_captured then op_close_upvalue else op_pop

abbrev pub reversed : List LocalVariable → List LocalVariable
reversed [] = []
reversed (l ∷ ls) = reversed ls ++ l ∷ []

abbrev pub all_inner : List LocalVariable → ℕ → Bool
all_inner [] d = true
all_inner (l ∷ ls) d = is_inner l.depth d && all_inner ls d

-- No local is left on top that is deeper than the scope.
abbrev pub EndsOuter : List LocalVariable → ℕ → Type 0
EndsOuter locals d =
    (l : LocalVariable) → get_elem? locals (length locals - 1) ≡ some l → is_inner l.depth d ≡ false

take-length : (n : ℕ) (locals : List LocalVariable) → n ≡ length locals → take n locals ≡ locals
take-length zero [] h = refl
take-length zero (l ∷ ls) h = absurd (omega arith)
take-length (suc n) [] h = absurd (omega arith)
take-length (suc n) (l ∷ ls) h = ap (◌∷◌ l) (take-length n ls (omega arith))

take-snoc :
    (n : ℕ) (locals : List LocalVariable) (l : LocalVariable)
    → suc n ≡ length locals
    → get_elem? locals n ≡ some l
    → locals ≡ take n locals ++ l ∷ []
take-snoc n [] l h e = absurd (omega arith)
take-snoc zero (x ∷ []) l h e = let same : x ≡ l = cc in rw same
take-snoc zero (x ∷ y ∷ ls) l h e = absurd (omega arith)
take-snoc (suc n) (x ∷ ls) l h e = ap (◌∷◌ x) (take-snoc n ls l (omega arith) e)

distinct : ¬ (true ≡ false)
distinct h = cc

all_inner-snoc :
    (ls : List LocalVariable) (l : LocalVariable) (d : ℕ)
    → all_inner ls d ≡ true
    → is_inner l.depth d ≡ true
    → all_inner (ls ++ l ∷ []) d ≡ true
all_inner-snoc [] l d h e = rw e
all_inner-snoc (x ∷ ls) l d h e = elim (Bool-cases (is_inner x.depth d)) [
  | inl deep ↦ rw deep (all_inner-snoc ls l d (rw deep at h) e)
  | inr shallow ↦ absurd (distinct (sym (rw shallow at h)))
]

-- What `end_scope` leaves: `kept` stay, `gone` are dropped, and one instruction is emitted for each
-- of `gone`, the last local first.
pub record Popped {ℓ} {V : Type ℓ} (self : Parser) (d : ℕ) (locals kept : List LocalVariable)
    (log : List (ℕ × ℕ)) (chunk : Chunk V) : Type ℓ where
  pub gone : List LocalVariable
  pub split : locals ≡ kept ++ gone
  pub inner : all_inner gone d ≡ true
  pub outer : EndsOuter kept d
  pub emitted : HoldsChunk chunk (log ++ map (λ l. (pop_code l, self.line)) (reversed gone))

last_shallow :
    (n : ℕ) (locals : List LocalVariable) (l l' : LocalVariable) (d : ℕ)
    → suc n ≡ length locals
    → get_elem? locals n ≡ some l
    → get_elem? locals (length locals - 1) ≡ some l'
    → is_inner l.depth d ≡ false
    → is_inner l'.depth d ≡ false
last_shallow n locals l l' d size e e' h =
    let at : length locals - 1 ≡ n = omega arith in
    let here : get_elem? locals n ≡ some l' = ap (get_elem? locals) (sym at) ∙ e' in
    let same : l ≡ l' = cc in ap (λ (x : LocalVariable). is_inner x.depth d) (sym same) ∙ h

reversed-snoc :
    (ls : List LocalVariable) (l : LocalVariable) → reversed (ls ++ l ∷ []) ≡ l ∷ reversed ls
reversed-snoc [] l = refl
reversed-snoc (x ∷ ls) l = ap (λ r. r ++ x ∷ []) (reversed-snoc ls l)

module _ {ℓ} {V : Type ℓ} where
  HoldsChunk-at :
      (c : Chunk V) (log log' : List (ℕ × ℕ)) → log ≡ log' → HoldsChunk c log → HoldsChunk c log'
  HoldsChunk-at c log log' e h = rw e at h

  pop_loop-Popped :
      (self : Parser) (d n : ℕ) (locals : List LocalVariable) (c : Chunk V) (log : List (ℕ × ℕ))
      → n ≡ length locals
      → HoldsChunk c log
      → (kept : List LocalVariable) × (c' : Chunk V) × (pop_loop self d n locals c ≡ ok (kept, c'))
        × Popped self d locals kept log c'
  unfolding pop_loop
  pop_loop-Popped self d zero [] c log size h = (
    [],
    c,
    refl,
    record {
      gone = [];
      split = refl;
      inner = refl;
      outer = λ l e. absurd cc;
      emitted = rw append-nil h;
    },
  )
  pop_loop-Popped self d zero (l ∷ ls) c log size h = absurd (omega arith)
  pop_loop-Popped self d (suc n) locals c log size h =
      let (l, e) = get_elem?_total locals n (omega arith) in
      elim (Bool-cases (is_inner l.depth d)) [
        | inl deep ↦
            let (c₁, e₁, h₁, _) = write_chunk-HoldsChunk c log (pop_code l) self.line h in
            let (kept, c', e', p) =
              pop_loop-Popped self d n (take n locals) c₁ _ (omega (arith, length-take n locals))
                h₁ in
            (
              kept,
              c',
              rw (pop_loop, e, deep, e₁, e'),
              record {
                gone = p.gone ++ l ∷ [];
                split =
                    take-snoc n locals l size e
                    ∙ ap (λ ls. ls ++ l ∷ []) p.split
                    ∙ append_assoc kept p.gone (l ∷ []);
                inner = all_inner-snoc p.gone l d p.inner deep;
                outer = p.outer;
                emitted =
                    HoldsChunk-at c' _ _ (rw (reversed-snoc p.gone l, append_assoc)) p.emitted;
              },
            )
        | inr shallow ↦ (
          locals,
          c,
          rw (pop_loop, e, shallow),
          record {
            gone = [];
            split = sym (append-nil locals);
            inner = refl;
            outer = λ l' e'. last_shallow n locals l l' d size e e' shallow;
            emitted = rw append-nil h;
          },
        )
      ]

-- The end of a scope drops exactly the locals on top that are deeper than the scope outside, keeps
-- the others, and emits op_close_upvalue or op_pop for each that goes, the last declared first.
pub end_scope-Popped :
    (self : Parser) (compiler : Compiler) (c : Chunk ℕ) (log : List (ℕ × ℕ))
    → HoldsChunk c log
    → (kept : List LocalVariable) × (c' : Chunk ℕ) × (end_scope self compiler c
        ≡ ok (record compiler { scope_depth = compiler.scope_depth - 1; locals = kept }, c'))
      × Popped self (compiler.scope_depth - 1) compiler.locals kept log c'
unfolding end_scope
end_scope-Popped self compiler c log h =
    let (kept, c', e, p) =
      pop_loop-Popped self (compiler.scope_depth - 1) (length compiler.locals) compiler.locals c log
        refl h in
    (kept, c', rw e, p)

-- What op_closure reads of the byte that the compiler emits for an upvalue: the index is kept below
-- 128, and from 128 on it loses its high bit, and the upvalue reads as a local of the function around.
pub read_upvalue_info-new_upvalue_info :
    (index : ℕ) (is_local : Bool)
    → index < 2 ^ 8
    → read_upvalue_info (new_upvalue_info index is_local)
      ≡ (is_local || leb (2 ^ 7) index, index % 2 ^ 7)
unfolding read_upvalue_info new_upvalue_info
read_upvalue_info-new_upvalue_info index true h = ground arith
read_upvalue_info-new_upvalue_info index false h = ground arith
