-- ===== src/Parse/Declarations.antt =====
-- src/parser.c and src/class_compiler.c: declarations of enums, structs, classes, functions and
-- variables.
use joker_complier.Base.{
  ℕ, zero, suc, ◌+◌, Bool, true, false, List, [], ◌∷◌, ok, ltb, ◌==◌, if◌then◌else◌,
}
use joker_complier.Chunk.OpCode.{
  op_pop, op_value, op_none, op_class, op_inherit, op_struct, op_member, op_struct_inherit, op_enum,
  op_enum_define_member,
}
use joker_complier.Scanner.{codes}
use joker_complier.Token.{
  Token, same_type, equal_token, token_left_paren, token_right_paren, token_left_brace,
  token_right_brace, token_comma, token_colon, token_identifier, token_class, token_struct,
  token_fn, token_var, token_enum, token_eof,
}
use joker_complier.Compiler.Scope.{type_fn}
use joker_complier.Compiler.Tokens
use joker_complier.Base
use joker_complier.Parse.State.{M, ◌>>=◌, ◌>>◌, skip, fail, exhausted, return}
use joker_complier.Parse.Moves.{
  error, check, check_any, match_token, consume, shift, prev_token, byte, bytes,
}
use joker_complier.Parse.Names.{
  identifier_constant, declare, add_local, mark_initialized, define_variable, begin_scope,
  compile_end_scope,
}
use joker_complier.Parse.Variables.{
  Goal, class_declaration, parse_variable, skip_until, parse_named_variable,
}
use joker_complier.Parse.Functions.{parse_function, parse_method}
use joker_complier.Parse.Expressions.{synthetic_token, curr_type}
use joker_complier.Parse.Statements.{parse_var_declaration}
use joker_complier.Parse.Matches.{parse_statement}

-- `into_curr_class_compiler`
unfoldable pub into_class : M (Unit {0})
into_class s = ok (tt, record s { classes = false ∷ s.classes })

-- `set_curr_class_superclass`
unfoldable pub set_superclass : M (Unit {0})
set_superclass s = ok (tt, record s { classes = elim s.classes [ [] ↦ [] | c ∷ cs ↦ true ∷ cs ] })

-- `out_curr_class_compiler`
unfoldable pub out_of_class : M (Unit {0})
out_of_class s = ok (tt, record s { classes = elim s.classes [ [] ↦ [] | c ∷ cs ↦ cs ] })

-- `if (!parse_check(self, token_right_brace)) parse_consume(self, token_comma, …)`
unfoldable pub separator : M (Unit {0})
unfolding check consume
separator = do last ← check token_right_brace; if last then skip else consume token_comma

-- `panic_mode` and the call of `synchronize`
unfoldable pub recover : M (Unit {0})
recover s =
    let synchronized =
      Base.◌>>=◌ (Tokens.synchronize s.cursor) λ c. ok (tt, record s { cursor = c }) in
    if s.cursor.panic_mode then synchronized else ok (tt, s)

-- `parse_member`
unfoldable pub parse_member : ℕ → M (Unit {0})
unfolding consume prev_token identifier_constant match_token skip_until byte bytes separator
parse_member rounds = do
  consume token_identifier
  name ← prev_token
  index ← identifier_constant name
  colon ← match_token token_colon
  if colon then skip_until rounds (token_right_brace ∷ token_comma ∷ []) else skip
  byte op_none
  bytes op_member index
  separator

-- The loop of `parse_struct_declaration`
unfoldable pub members_loop : ℕ → ℕ → M (Unit {0})
unfolding check_any parse_member
members_loop types zero = exhausted
members_loop types (suc left) = do
  closed ← check_any (token_right_brace ∷ token_eof ∷ [])
  if closed then skip else (do parse_member types; members_loop types left)

module _ (rounds : ℕ) (rec : Goal → M (Unit {0})) where
  -- The loop over the value types of `parse_enum_member`, with the number of them.
  unfoldable pub enum_values_loop : ℕ → ℕ → M ℕ
  unfolding match_token curr_type shift prev_token parse_named_variable check consume
  enum_values_loop zero arg_count = exhausted
  enum_values_loop (suc left) arg_count = do
    closed ← match_token token_right_paren
    if closed then return arg_count else do
      type ← curr_type
      if same_type type token_identifier
          then (do shift; name ← prev_token; parse_named_variable rounds rec name false)
          else fail
      last ← check token_right_paren
      if last then skip else consume token_comma
      enum_values_loop left (arg_count + 1)

  -- `parse_enum_member`
  unfoldable pub parse_enum_member : M (Unit {0})
  unfolding consume prev_token identifier_constant match_token enum_values_loop bytes separator
  parse_enum_member = do
    consume token_identifier
    name ← prev_token
    index ← identifier_constant name
    valued ← match_token token_left_paren
    if valued
        then (do
          arg_count ← enum_values_loop rounds 0
          if ltb arg_count 1 then fail else bytes op_value arg_count)
        else bytes op_value 0
    bytes op_enum_define_member index
    separator

  -- The loop of `parse_enum_declaration`, which has no test for the end of the tokens.
  unfoldable pub enum_members_loop : ℕ → M (Unit {0})
  unfolding check parse_enum_member
  enum_members_loop zero = exhausted
  enum_members_loop (suc left) = do
    closed ← check token_right_brace
    if closed then skip else (do parse_enum_member; enum_members_loop left)

  -- `parse_enum_declaration`
  unfoldable pub parse_enum_declaration : M (Unit {0})
  unfolding consume prev_token identifier_constant declare bytes define_variable
      parse_named_variable enum_members_loop byte
  parse_enum_declaration = do
    consume token_identifier
    name ← prev_token
    index ← identifier_constant name
    declare name
    bytes op_enum index
    define_variable index
    parse_named_variable rounds rec name false
    consume token_left_brace
    enum_members_loop rounds
    consume token_right_brace
    byte op_pop

  -- The part of `parse_struct_declaration` after a colon.
  unfoldable pub struct_inheritance : Token → M (Unit {0})
  unfolding consume prev_token parse_named_variable error byte
  struct_inheritance struct_name = do
    consume token_identifier
    super_name ← prev_token
    parse_named_variable rounds rec super_name false
    super_token ← prev_token
    if equal_token super_token struct_name then error else skip
    parse_named_variable rounds rec struct_name false
    byte op_struct_inherit

  -- `parse_struct_declaration`
  unfoldable pub parse_struct_declaration : M (Unit {0})
  unfolding consume prev_token identifier_constant declare bytes define_variable match_token
      struct_inheritance parse_named_variable members_loop byte
  parse_struct_declaration = do
    consume token_identifier
    name ← prev_token
    index ← identifier_constant name
    declare name
    bytes op_struct index
    define_variable index
    inherits ← match_token token_colon
    if inherits then struct_inheritance name else skip
    parse_named_variable rounds rec name false
    consume token_left_brace
    members_loop rounds rounds
    consume token_right_brace
    byte op_pop

  -- `parse_class_member`
  unfoldable pub parse_class_member : M (Unit {0})
  unfolding match_token parse_struct_declaration parse_method error
  parse_class_member = do
    class ← match_token token_class
    if class then rec class_declaration else do
      structure ← match_token token_struct
      if structure
          then parse_struct_declaration
          else do method ← match_token token_fn; if method then parse_method rounds rec else error

  -- The loop of `parse_class_declaration`
  unfoldable pub class_members_loop : ℕ → M (Unit {0})
  unfolding check_any parse_class_member
  class_members_loop zero = exhausted
  class_members_loop (suc left) = do
    closed ← check_any (token_right_brace ∷ token_eof ∷ [])
    if closed then skip else (do parse_class_member; class_members_loop left)

  -- The part of `parse_class_declaration` after a colon.
  unfoldable pub class_inheritance : Token → M (Unit {0})
  unfolding consume prev_token parse_named_variable error begin_scope add_local synthetic_token
      define_variable byte set_superclass
  class_inheritance class_name = do
    consume token_identifier
    super_name ← prev_token
    parse_named_variable rounds rec super_name false
    super_token ← prev_token
    if equal_token class_name super_token then error else skip
    begin_scope
    add_local (synthetic_token (codes "super"))
    define_variable 0
    parse_named_variable rounds rec class_name false
    byte op_inherit
    set_superclass

  -- `parse_class_declaration`: the scope of the superclass is left without a pop.
  unfoldable pub parse_class_declaration : M (Unit {0})
  unfolding consume prev_token identifier_constant declare bytes define_variable into_class
      match_token class_inheritance parse_named_variable class_members_loop byte compile_end_scope
      out_of_class
  parse_class_declaration = do
    consume token_identifier
    name ← prev_token
    index ← identifier_constant name
    declare name
    bytes op_class index
    define_variable index
    into_class
    inherits ← match_token token_colon
    if inherits then class_inheritance name else skip
    parse_named_variable rounds rec name false
    consume token_left_brace
    class_members_loop rounds
    consume token_right_brace
    byte op_pop
    if inherits then compile_end_scope else skip
    out_of_class

  -- `parse_fn_declaration`
  unfoldable pub parse_fn_declaration : M (Unit {0})
  unfolding parse_variable mark_initialized parse_function define_variable
  parse_fn_declaration = do
    index ← parse_variable
    mark_initialized
    parse_function rounds rec type_fn
    define_variable index

  -- The choice of `parse_declaration` by the first token.
  unfoldable pub choose_declaration : M (Unit {0})
  unfolding match_token parse_struct_declaration parse_enum_declaration parse_fn_declaration
      parse_var_declaration parse_statement
  choose_declaration = do
    class ← match_token token_class
    if class then rec class_declaration else do
      structure ← match_token token_struct
      if structure then parse_struct_declaration else do
        enumeration ← match_token token_enum
        if enumeration then parse_enum_declaration else do
          function ← match_token token_fn
          if function then parse_fn_declaration else do
            variable ← match_token token_var
            if variable then parse_var_declaration rounds rec else parse_statement rounds rec

  -- `parse_declaration`
  unfoldable pub parse_declaration : M (Unit {0})
  unfolding choose_declaration recover
  parse_declaration = do choose_declaration; recover
