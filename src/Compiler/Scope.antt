-- ===== src/Compiler/Scope.antt =====
-- src/parser.c and src/compiler.c: scopes and local variables. The locals of a compiler are the list
-- of the first `local_count` cells of its array, and the enclosing compilers are a list, the
-- innermost first. A depth of -1 (declared, not yet defined) is `none`.
use joker_complier.Base.{
  ℕ, zero, suc, ◌+◌, ◌-◌, ◌/◌, ◌%◌, ◌^◌, Bool, true, false, not, ◌&&◌, Option, none, some, List, [],
  ◌∷◌, ◌++◌, Outcome, ok, panic, ◌>>=◌, ltb, ◌==◌, if◌then◌else◌, length, get_elem?, set, take,
}
use joker_complier.Chunk.{Chunk}
use joker_complier.Token.{Token, make_token, equal_token, token_self, token_identifier}
use joker_complier.Scanner.{codes}
use joker_complier.Compiler.Emit.{Parser, parse_error, emit_byte, op_pop, op_close_upvalue}

pub record LocalVariable : Type 0 where
  pub name : Token
  pub depth : Option ℕ
  pub is_captured : Bool

pub record Loop : Type 0 where
  pub start : ℕ
  pub end : Option ℕ

pub data FnType : Type 0 where
  type_fn type_method type_initializer type_script type_lambda : FnType

pub record Compiler : Type 0 where
  pub locals : List LocalVariable
  pub scope_depth : ℕ
  pub fn_type : FnType
  pub upvalues : List ℕ
  pub loops : List Loop

-- `uint8_count` and `upvalue_index_count`
abbrev pub uint8_count : ℕ
uint8_count = 256

abbrev pub upvalue_index_count : ℕ
upvalue_index_count = 128

-- The name of the slot 0.
abbrev pub first_name : FnType → Token
first_name type_initializer = make_token token_self (codes "self") 0
first_name type_method = make_token token_self (codes "self") 0
first_name _ = make_token token_identifier [] 0

-- `init_compiler`: slot 0 belongs to the function that is called.
unfoldable pub init_compiler : FnType → Compiler
init_compiler type = record {
  locals = record { name = first_name type; depth = some 0; is_captured = false } ∷ [];
  scope_depth = 0;
  fn_type = type;
  upvalues = [];
  loops = [];
}

-- `begin_loop` and `end_loop`; an end of -1 is `none`.
unfoldable pub begin_loop : Compiler → ℕ → Compiler
begin_loop self start = record self { loops = record { start = start; end = none } ∷ self.loops }

unfoldable pub end_loop : Compiler → Outcome Compiler
end_loop self = elim self.loops [ [] ↦ panic | l ∷ ls ↦ ok (record self { loops = ls }) ]

-- `begin_scope`, and the first line of `end_scope`
unfoldable pub begin_scope : Compiler → Compiler
begin_scope self = record self { scope_depth = self.scope_depth + 1 }

-- `local->depth != -1 && local->depth < compiler->scope_depth`
abbrev pub is_outer : Option ℕ → ℕ → Bool
is_outer none scope_depth = false
is_outer (some d) scope_depth = ltb d scope_depth

-- The loop of `declare_variable` over the slots below `i`.
unfoldable pub declare_loop : List LocalVariable → ℕ → Token → ℕ → Parser → Parser
declare_loop locals scope_depth name zero self = self
declare_loop locals scope_depth name (suc i) self = elim (get_elem? locals i) [
  | none ↦ self
  | some local ↦
      let clash = equal_token local.name name in
      let rest =
        declare_loop locals scope_depth name i (if clash then parse_error self else self) in
      if is_outer local.depth scope_depth then self else rest
]

-- `add_local`
unfoldable pub add_local : Parser → Compiler → Token → Parser × Compiler
add_local self compiler name =
    if length compiler.locals == uint8_count
    then (parse_error self, compiler)
    else let local : LocalVariable = record {
      name = make_token name.type name.lexeme name.line;
      depth = none;
      is_captured = false;
    } in
      (self, record compiler { locals = compiler.locals ++ local ∷ [] })

-- `declare_variable`
unfoldable pub declare_variable : Parser → Compiler → Token → Parser × Compiler
declare_variable self compiler name =
    let self' =
      declare_loop compiler.locals compiler.scope_depth name (length compiler.locals) self in
    if compiler.scope_depth == 0 then (self, compiler) else add_local self' compiler name

-- `mark_initialized`
unfoldable pub mark_initialized : Compiler → Compiler
mark_initialized compiler =
    let last = length compiler.locals - 1 in
    let marked : Compiler = elim (get_elem? compiler.locals last) [
      | none ↦ compiler
      | some local ↦ record compiler {
        locals = set compiler.locals last (record local { depth = some compiler.scope_depth });
      }
    ] in
    if compiler.scope_depth == 0 then compiler else marked

abbrev pub is_none : Option ℕ → Bool
is_none none = true
is_none (some d) = false

-- The loop of `resolve_local` over the slots below `i`; an index of -1 is `none`.
unfoldable pub resolve_loop : List LocalVariable → Token → ℕ → Parser → Parser × Option ℕ
resolve_loop locals name zero self = (self, none)
resolve_loop locals name (suc i) self =
    let rest = resolve_loop locals name i self in
    elim (get_elem? locals i) [
      | none ↦ rest
      | some local ↦
          if equal_token local.name name
          then (if is_none local.depth then parse_error self else self, some i)
          else rest
    ]

unfoldable pub resolve_local : Parser → Compiler → Token → Parser × Option ℕ
resolve_local self compiler name = resolve_loop compiler.locals name (length compiler.locals) self

-- `locals[local_count - 1].depth > scope_depth`
abbrev pub is_inner : Option ℕ → ℕ → Bool
is_inner none scope_depth = false
is_inner (some d) scope_depth = ltb scope_depth d

module _ {ℓ} {V : Type ℓ} where
  -- The loop of `end_scope`, with `n` locals left.
  unfoldable pub pop_loop :
      Parser → ℕ → ℕ → List LocalVariable → Chunk V → Outcome (List LocalVariable × Chunk V)
  pop_loop self scope_depth zero locals chunk = ok (locals, chunk)
  pop_loop self scope_depth (suc n) locals chunk = elim (get_elem? locals n) [
    | none ↦ ok (locals, chunk)
    | some local ↦
        let code = if local.is_captured then op_close_upvalue else op_pop in
        let popped =
          emit_byte self chunk code >>= λ c. pop_loop self scope_depth n (take n locals) c in
        if is_inner local.depth scope_depth then popped else ok (locals, chunk)
  ]

  -- `end_scope`
  unfoldable pub end_scope : Parser → Compiler → Chunk V → Outcome (Compiler × Chunk V)
  end_scope self compiler chunk = do
    let depth = compiler.scope_depth - 1
    (locals, c) ← pop_loop self depth (length compiler.locals) compiler.locals chunk
    ok (record compiler { scope_depth = depth; locals = locals }, c)

-- `new_upvalue_info`: `index | (is_local << 7)` in eight bits.
unfoldable pub new_upvalue_info : ℕ → Bool → ℕ
new_upvalue_info index is_local =
    let byte = index % 2 ^ 8 in if is_local && ltb byte (2 ^ 7) then byte + 2 ^ 7 else byte

-- How `handle_op_closure` reads it: `is_local`, and the index.
unfoldable pub read_upvalue_info : ℕ → Bool × ℕ
read_upvalue_info info = (not (info / 2 ^ 7 == 0), info % 2 ^ 7)

-- The loop of `add_upvalue`: the first index of `info`.
unfoldable pub index_of : List ℕ → ℕ → ℕ → Option ℕ
index_of [] info i = none
index_of (x ∷ xs) info i = let rest = index_of xs info (i + 1) in if x == info then some i else rest

-- `add_upvalue`; index 0 is returned with the error.
unfoldable pub add_upvalue : Parser → Compiler → ℕ → Parser × Compiler × ℕ
add_upvalue self compiler info =
    if length compiler.upvalues == upvalue_index_count
    then (parse_error self, compiler, 0)
    else elim (index_of compiler.upvalues info 0) [
      | some i ↦ (self, compiler, i)
      | none ↦ (
        self,
        record compiler { upvalues = compiler.upvalues ++ info ∷ [] },
        length compiler.upvalues,
      )
    ]

abbrev pub is_script : FnType → Bool
is_script type_script = true
is_script _ = false

-- `enclosing->locals[up_local].is_captured = true`
unfoldable pub capture_local : Compiler → ℕ → Compiler
capture_local compiler i = elim (get_elem? compiler.locals i) [
  | none ↦ compiler
  | some local ↦ record compiler {
    locals = set compiler.locals i (record local { is_captured = true });
  }
]

-- `resolve_upvalue`: `enclosing` are the compilers around `compiler`, and come back with their
-- captured locals marked and their own upvalues added.
unfoldable pub resolve_upvalue :
    Parser → Compiler → List Compiler → Token → Parser × Compiler × List Compiler × Option ℕ
resolve_upvalue self compiler [] name = (self, compiler, [], none)
resolve_upvalue self compiler (outer ∷ outers) name =
    let (self', up_local) = resolve_local self outer name in
    let (up_self, outer', outers', up_upvalue) = resolve_upvalue self' outer outers name in
    let from_outer : Parser × Compiler × List Compiler × Option ℕ = elim up_upvalue [
      | none ↦ (up_self, compiler, outer' ∷ outers', none)
      | some i ↦
          let (s, c, index) = add_upvalue up_self compiler (new_upvalue_info i false) in
          (s, c, outer' ∷ outers', some index)
    ] in
    if is_script compiler.fn_type then (self, compiler, outer ∷ outers, none) else elim up_local [
      | some i ↦
          let (s, c, index) = add_upvalue self' compiler (new_upvalue_info i true) in
          (s, c, capture_local outer i ∷ outers, some index)
      | none ↦ from_outer
    ]
