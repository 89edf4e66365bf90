-- ===== src/Compiler/Locals.antt =====
-- src/parser.c: what a name resolves to, and what the end of a scope emits.
use joker_complier.Base.{
  ℕ, zero, suc, ◌-◌, ◌≤◌, ◌<◌, ◌≡◌, refl, sym, ap, ◌∙◌, false, true, Option, none, some, List, [],
  ◌∷◌, ◌++◌, arith, ltb, ◌==◌, if◌then◌else◌, length, get_elem?, set, length-append,
  get_elem?-append, get_elem?_total, Bool-cases, inl, inr, ◌⊎◌,
}
use joker_complier.Token.{Token, equal_token, same_bytes, make_token}
use joker_complier.Compiler.Emit.{Parser, parse_error}
use joker_complier.Compiler.Scope.{
  LocalVariable, Compiler, resolve_loop, resolve_local, declare_variable, add_local,
  mark_initialized, is_none, is_outer, declare_loop, uint8_count,
}

-- What a name means in the slots below `n`: the last slot with this name, or no slot.
abbrev pub Resolves : List LocalVariable → Token → ℕ → Parser → Parser × Option ℕ → Type 0
Resolves locals name n self (self', none) =
    (self' ≡ self)
    × ((j : ℕ) (l : LocalVariable)
        → j < n
        → get_elem? locals j ≡ some l
        → equal_token l.name name ≡ false)
Resolves locals name n self (self', some i) =
    (local : LocalVariable) × (get_elem? locals i ≡ some local)
    × (equal_token local.name name ≡ true)
    × (self' ≡ (if is_none local.depth then parse_error self else self))
    × ((j : ℕ) (l : LocalVariable)
        → i < j
        → j < n
        → get_elem? locals j ≡ some l
        → equal_token l.name name ≡ false)

-- One slot more, with another name.
Resolves-suc :
    (locals : List LocalVariable) (name : Token) (n : ℕ) (self : Parser) (r : Parser × Option ℕ)
    → ((l : LocalVariable) → get_elem? locals n ≡ some l → equal_token l.name name ≡ false)
    → Resolves locals name n self r
    → Resolves locals name (suc n) self r
Resolves-suc locals name n self (self', none) here (same, others) = (
  same,
  λ j l lt e. elim (Bool-cases (j == n)) [
    | inl top ↦ let at : j ≡ n = ground arith in here l (ap (get_elem? locals) (sym at) ∙ e)
    | inr below ↦ others j l (ground arith) e
  ],
)
Resolves-suc locals name n self (self', some i) here (local, e, named, same, others) = (
  local,
  e,
  named,
  same,
  λ j l above lt e'. elim (Bool-cases (j == n)) [
    | inl top ↦ let at : j ≡ n = ground arith in here l (ap (get_elem? locals) (sym at) ∙ e')
    | inr below ↦ others j l above (ground arith) e'
  ],
)

resolve_loop-Resolves :
    (locals : List LocalVariable) (name : Token) (n : ℕ) (self : Parser)
    → Resolves locals name n self (resolve_loop locals name n self)
unfolding resolve_loop
resolve_loop-Resolves locals name zero self = (refl, λ j l lt e. absurd (omega arith))
resolve_loop-Resolves locals name (suc n) self =
    slot (get_elem? locals n) refl (resolve_loop-Resolves locals name n self)
  where
    slot :
        (o : Option LocalVariable)
        → get_elem? locals n ≡ o
        → Resolves locals name n self (resolve_loop locals name n self)
        → Resolves locals name (suc n) self (elim o as (λ _. Parser × Option ℕ) [
          | none ↦ resolve_loop locals name n self
          | some local ↦
              if equal_token local.name name
              then (if is_none local.depth then parse_error self else self, some n)
              else resolve_loop locals name n self
        ])
    slot none e rest = Resolves-suc locals name n self _ (λ l e'. absurd cc) rest
    slot (some local) e rest = elim (Bool-cases (equal_token local.name name)) [
      | inl named ↦ rw named (local, e, named, refl, λ j l above lt e'. absurd (omega arith))
      | inr other ↦ rw other (
          Resolves-suc locals name n self _
            (λ l e'.
              (let same : local ≡ l = cc in
                ap (λ (x : LocalVariable). equal_token x.name name) (sym same) ∙ other))
            rest)
    ]

-- `resolve_local` gives the innermost slot with this name, and reports an error exactly where this
-- slot is declared but not defined; it gives no slot exactly where no slot has this name.
pub resolve_local-Resolves :
    (self : Parser) (compiler : Compiler) (name : Token)
    → Resolves compiler.locals name (length compiler.locals) self (resolve_local self compiler name)
unfolding resolve_local
resolve_local-Resolves self compiler name =
    resolve_loop-Resolves compiler.locals name (length compiler.locals) self

same_bytes_refl : (xs : List ℕ) → same_bytes xs xs ≡ true
same_bytes_refl [] = refl
same_bytes_refl (x ∷ xs) = ground (arith, same_bytes_refl xs)

equal_token-same :
    (name : Token) → equal_token (make_token name.type name.lexeme name.line) name ≡ true
unfolding equal_token make_token
equal_token-same name = ground (arith, same_bytes_refl name.lexeme)

get_elem?-snoc :
    (locals : List LocalVariable) (l : LocalVariable)
    → get_elem? (locals ++ l ∷ []) (length locals) ≡ some l
get_elem?-snoc [] l = refl
get_elem?-snoc (x ∷ xs) l = get_elem?-snoc xs l

set-snoc :
    (locals : List LocalVariable) (l l' : LocalVariable)
    → set (locals ++ l ∷ []) (length locals) l' ≡ locals ++ l' ∷ []
set-snoc [] l l' = refl
set-snoc (x ∷ xs) l l' = ap (◌∷◌ x) (set-snoc xs l l')

resolve_loop-suc :
    (locals : List LocalVariable) (name : Token) (n : ℕ) (self : Parser) (local : LocalVariable)
    → get_elem? locals n ≡ some local
    → resolve_loop locals name (suc n) self ≡ (
        if equal_token local.name name
        then (if is_none local.depth then parse_error self else self, some n)
        else resolve_loop locals name n self)
unfolding resolve_loop
resolve_loop-suc locals name n self local e = rw (resolve_loop, e)

-- The slots below the last one.
resolve_loop-append :
    (locals more : List LocalVariable) (name : Token) (n : ℕ) (self : Parser)
    → n ≤ length locals
    → resolve_loop (locals ++ more) name n self ≡ resolve_loop locals name n self
unfolding resolve_loop
resolve_loop-append locals more name zero self h = refl
resolve_loop-append locals more name (suc n) self h =
    let within : ltb n (length locals) ≡ true = ground arith in
    let here : get_elem? (locals ++ more) n ≡ get_elem? locals n =
      get_elem?-append locals more n ∙ rw within in
    let (l, e) = get_elem?_total locals n (omega arith) in
    resolve_loop-suc (locals ++ more) name n self l (here ∙ e)
    ∙ ap
        (λ r.
          if equal_token l.name name
          then (if is_none l.depth then parse_error self else self, some n)
          else r)
        (resolve_loop-append locals more name n self (omega arith))
    ∙ sym (resolve_loop-suc locals name n self l e)

-- A variable as `declare_variable` and `mark_initialized` leave it.
abbrev new_local : Compiler → Token → LocalVariable
new_local compiler name = record {
  name = make_token name.type name.lexeme name.line;
  depth = some compiler.scope_depth;
  is_captured = false;
}

declare_variable-locals :
    (self : Parser) (compiler : Compiler) (name : Token)
    → (compiler.scope_depth == 0) ≡ false
    → length compiler.locals < uint8_count
    → mark_initialized (declare_variable self compiler name).1
      ≡ record compiler { locals = compiler.locals ++ new_local compiler name ∷ [] }
unfolding declare_variable mark_initialized add_local
declare_variable-locals self compiler name inner room =
    let l : LocalVariable = record {
      name = make_token name.type name.lexeme name.line;
      depth = none;
      is_captured = false;
    } in
    let free : (length compiler.locals == uint8_count) ≡ false = ground arith in
    let last : length (compiler.locals ++ l ∷ []) - 1 ≡ length compiler.locals =
      omega (arith, length-append compiler.locals (l ∷ [])) in
    let declared : (declare_variable self compiler name).1
        ≡ record compiler { locals = compiler.locals ++ l ∷ [] } =
      rw (inner, free) in
    ap mark_initialized declared
    ∙ rw (
      mark_initialized,
      inner,
      last,
      get_elem?-snoc compiler.locals l,
      last,
      set-snoc compiler.locals l,
    )

-- The name is that of a slot below `n` of the scope: no slot from there on is one of an outer scope.
abbrev pub Redeclares : List LocalVariable → ℕ → Token → ℕ → Type 0
Redeclares locals scope_depth name n =
    (j : ℕ) × (l : LocalVariable) × (j < n)
    × (get_elem? locals j ≡ some l)
    × (equal_token l.name name ≡ true)
    × ((k : ℕ) (m : LocalVariable)
        → j ≤ k
        → k < n
        → get_elem? locals k ≡ some m
        → is_outer m.depth scope_depth ≡ false)

-- An error is reported exactly where the name is one of the scope.
abbrev pub Declares : List LocalVariable → ℕ → Token → ℕ → Parser → Parser → Type 0
Declares locals scope_depth name n self self' =
    (Redeclares locals scope_depth name n × (self' ≡ parse_error self))
    ⊎ ((¬ Redeclares locals scope_depth name n) × (self' ≡ self))

parse_error_twice : (self : Parser) → parse_error (parse_error self) ≡ parse_error self
parse_error_twice self = elim (Bool-cases self.panic_mode) [ inl e ↦ rw e refl | inr e ↦ rw e refl ]

-- The slot of an index is one.
one_slot :
    (locals : List LocalVariable) (i k : ℕ) (l m : LocalVariable) (scope_depth : ℕ)
    → k ≡ i
    → get_elem? locals i ≡ some l
    → get_elem? locals k ≡ some m
    → is_outer l.depth scope_depth ≡ false
    → is_outer m.depth scope_depth ≡ false
one_slot locals i k l m scope_depth e at at' inner =
    let same : some l ≡ some m = sym at ∙ ap (get_elem? locals) (sym e) ∙ at' in
    let equal : l ≡ m = cc in
    ap (λ (x : LocalVariable). is_outer x.depth scope_depth) (sym equal) ∙ inner

Redeclares-suc :
    (locals : List LocalVariable) (scope_depth : ℕ) (name : Token) (i : ℕ) (l : LocalVariable)
    → get_elem? locals i ≡ some l
    → is_outer l.depth scope_depth ≡ false
    → Redeclares locals scope_depth name i
    → Redeclares locals scope_depth name (suc i)
Redeclares-suc locals scope_depth name i l at inner (j, m, h, at', same, inners) = (
  j,
  m,
  omega arith,
  at',
  same,
  (λ k x h' h'' at''. elim (Bool-cases (k == i)) [
    | inl e ↦ one_slot locals i k l x scope_depth (ground (arith, e)) at at'' inner
    | inr e ↦ inners k x h' (ground (arith, e, h'')) at''
  ]),
)

Redeclares-below :
    (locals : List LocalVariable) (scope_depth : ℕ) (name : Token) (i : ℕ) (l : LocalVariable)
    → get_elem? locals i ≡ some l
    → equal_token l.name name ≡ false
    → Redeclares locals scope_depth name (suc i)
    → Redeclares locals scope_depth name i
Redeclares-below locals scope_depth name i l at apart (j, m, h, at', same, inners) =
    elim (Bool-cases (j == i)) [
      | inl e ↦ absurd (other (ground (arith, e)))
      | inr e ↦ (
        j,
        m,
        ground (arith, e, h),
        at',
        same,
        (λ k x h' h'' at''. inners k x h' (omega arith) at''),
      )
    ]
  where
    other : j ≡ i → ⊥
    other e =
        let both : some l ≡ some m = sym at ∙ ap (get_elem? locals) (sym e) ∙ at' in
        let equal : l ≡ m = cc in
        let named : equal_token m.name name ≡ false =
          ap (λ (x : LocalVariable). equal_token x.name name) (sym equal) ∙ apart in
        cc

declare_loop-suc :
    (locals : List LocalVariable) (scope_depth : ℕ) (name : Token) (i : ℕ) (self : Parser)
    (l : LocalVariable)
    → get_elem? locals i ≡ some l
    → declare_loop locals scope_depth name (suc i) self ≡ (
        if is_outer l.depth scope_depth
        then self
        else declare_loop locals scope_depth name i
            (if equal_token l.name name then parse_error self else self))
unfolding declare_loop
declare_loop-suc locals scope_depth name i self l at =
    ap
      (λ (o : Option LocalVariable). elim o [
        | none ↦ self
        | some local ↦
            if is_outer local.depth scope_depth
            then self
            else declare_loop locals scope_depth name i
                (if equal_token local.name name then parse_error self else self)
      ])
      at

-- The loop of `declare_variable`.
declare_loop-Declares :
    (locals : List LocalVariable) (scope_depth : ℕ) (name : Token) (i : ℕ) (self : Parser)
    → i ≤ length locals
    → Declares locals scope_depth name i self (declare_loop locals scope_depth name i self)
declare_loop-Declares locals scope_depth name zero self h =
    inr ((λ (j, l, lt, at, same, inners). absurd (omega (arith, lt))), unfold declare_loop in refl)
declare_loop-Declares locals scope_depth name (suc i) self h =
    let (l, at) = get_elem?_total locals i (omega arith) in
    let read = declare_loop-suc locals scope_depth name i self l at in
    elim (Bool-cases (is_outer l.depth scope_depth)) [
      | inl outer ↦ inr (
        (λ (j, m, lt, at', same, inners).
            let inner = inners i l (omega (arith, lt)) (omega arith) at in cc),
        rw (read, outer) refl,
      )
      | inr inner ↦ elim (Bool-cases (equal_token l.name name)) [
        | inl same ↦ inl (
          (
            i,
            l,
            omega arith,
            at,
            same,
            λ k m h' h'' at'.
                one_slot locals i k l m scope_depth (omega (arith, h', h'')) at at' inner,
          ),
          rw (read, inner, same)
              (elim (declare_loop-Declares locals scope_depth name i (parse_error self)
                (omega arith)) [
                  | inl (again, e) ↦ e ∙ parse_error_twice self
                  | inr (none_else, e) ↦ e
                ]),
        )
        | inr apart ↦ elim (declare_loop-Declares locals scope_depth name i self (omega arith)) [
          | inl (red, e) ↦
              inl
                (Redeclares-suc locals scope_depth name i l at inner red, rw (read, inner, apart) e)
          | inr (fresh, e) ↦ inr (
            (λ red. fresh (Redeclares-below locals scope_depth name i l at apart red)),
            rw (read, inner, apart) e,
          )
        ]
      ]
    ]

declare_variable-Declares :
    (self : Parser) (compiler : Compiler) (name : Token)
    → (compiler.scope_depth == 0) ≡ false
    → length compiler.locals < uint8_count
    → Declares compiler.locals compiler.scope_depth name
        (length compiler.locals)
        self
        (declare_variable self compiler name).0
unfolding declare_variable add_local
declare_variable-Declares self compiler name inner room =
    let free : (length compiler.locals == uint8_count) ≡ false = ground arith in
    rw (inner, free)
      (declare_loop-Declares compiler.locals compiler.scope_depth name (length compiler.locals) self
        (omega arith))

-- In an inner scope with a slot left. The declaration of a name reports an error exactly where the name is
-- already one of the scope, and it makes a slot for it all the same; once the name is defined, it resolves to the
-- new slot, and that resolution reports no error; every other name resolves as before.
pub declare_variable-resolve_local :
    (self : Parser) (compiler : Compiler) (name other : Token)
    → (compiler.scope_depth == 0) ≡ false
    → length compiler.locals < uint8_count
    → equal_token (make_token name.type name.lexeme name.line) other ≡ false
    → (p : Parser)
    → Declares compiler.locals compiler.scope_depth name
        (length compiler.locals)
        self
        (declare_variable self compiler name).0
      × (resolve_local p (mark_initialized (declare_variable self compiler name).1) name
          ≡ (p, some (length compiler.locals)))
      × (resolve_local p (mark_initialized (declare_variable self compiler name).1) other
          ≡ resolve_local p compiler other)
unfolding resolve_local
declare_variable-resolve_local self compiler name other inner room apart p =
    let l = new_local compiler name in
    let locals = compiler.locals ++ l ∷ [] in
    let size : length locals ≡ suc (length compiler.locals) =
      omega (arith, length-append compiler.locals (l ∷ [])) in
    let top = get_elem?-snoc compiler.locals l in
    (
      declare_variable-Declares self compiler name inner room,
      rw (declare_variable-locals self compiler name inner room, size)
          (rw
            (resolve_loop-suc locals name (length compiler.locals) p l top, equal_token-same name)),
      rw (declare_variable-locals self compiler name inner room, size)
          (rw (resolve_loop-suc locals other (length compiler.locals) p l top, apart)
            (resolve_loop-append compiler.locals (l ∷ []) other (length compiler.locals) p
              (omega arith))),
    )
