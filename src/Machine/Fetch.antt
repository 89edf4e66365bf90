-- ===== src/Machine/Fetch.antt =====
-- src/vm.c: the reads of `run` and of the handlers, from the code of the function whose frame is the
-- current one, and the conversion of a constant of the parser to a value.
use joker_complier.Base.{
  ℕ, ◌+◌, Bool, true, false, Option, none, some, List, [], ◌∷◌, ◌++◌, Outcome, ok, undefined,
  length, ◌==◌, if◌then◌else◌,
}
use joker_complier.Base
use joker_complier.Chunk.{Chunk}
use joker_complier.Value.{Value, i32, i64, f32, f64, object}
use joker_complier.Parse.State.{
  Constant, i32_constant, i64_constant, f32_constant, f64_constant, string_constant, fn_constant,
  Fn,
}
use joker_complier.Vm.Fetch
use joker_complier.Machine.State.{
  Object, string_object, fn_object, closure_object, string_equal, H, ◌>>=◌, ◌>>◌, return, crash,
  cell, current, set_ip, object_at,
}

-- Floats as bit patterns: the reading of `strtof` and `strtod`.
pub record Readers : Type 0 where
  pub read_f32 : List ℕ → ℕ
  pub read_f64 : List ℕ → ℕ

-- The string of the pool with this text, where there is one.
abbrev pub find_string : List Object → List ℕ → ℕ → Option ℕ
find_string [] text address = none
find_string (string_object t ∷ objects) text address =
    let rest = find_string objects text (address + 1) in
    if string_equal t text then some address else rest
find_string (o ∷ objects) text address = find_string objects text (address + 1)

-- `new_string`: strings are interned.
unfoldable pub new_string : List ℕ → H ℕ
new_string text s = elim (find_string s.objects text 0) [
  | some address ↦ ok (address, s)
  | none ↦ ok (length s.objects, record s { objects = s.objects ++ string_object text ∷ [] })
]

abbrev pub find_fn : List Object → ℕ → ℕ → Option ℕ
find_fn [] number address = none
find_fn (fn_object n ∷ objects) number address =
    let rest = find_fn objects number (address + 1) in if n == number then some address else rest
find_fn (o ∷ objects) number address = find_fn objects number (address + 1)

-- The object of a function.
unfoldable pub fn_address : ℕ → H ℕ
fn_address number s = elim (find_fn s.objects number 0) [
  | some address ↦ ok (address, s)
  | none ↦ ok (length s.objects, record s { objects = s.objects ++ fn_object number ∷ [] })
]

module _ (readers : Readers) (program : List Fn) where
  unfoldable pub value_of : Constant → H Value
  unfolding new_string fn_address
  value_of (i32_constant a) = return (i32 a)
  value_of (i64_constant a) = return (i64 a)
  value_of (f32_constant text) = return (f32 (readers.read_f32 text))
  value_of (f64_constant text) = return (f64 (readers.read_f64 text))
  value_of (string_constant text) = do address ← new_string text; return (object address)
  value_of (fn_constant number) = do address ← fn_address number; return (object address)

  unfoldable pub fn_in : Object → H Fn
  fn_in (closure_object number upvalues) = λ s. Base.◌>>=◌ (cell program number) λ fn. ok (fn, s)
  fn_in o = crash

  -- `frame->closure->fn`
  unfoldable pub fn_of : ℕ → H Fn
  unfolding object_at fn_in
  fn_of closure = do o ← object_at closure; fn_in o

  unfoldable pub curr_chunk : H (Chunk Constant)
  unfolding current fn_of
  curr_chunk = do frame ← current; fn ← fn_of frame.closure; return fn.chunk

  -- A read at `frame->ip`, which moves it.
  unfoldable pub fetch : {A : Type 0} → (Chunk Constant → ℕ → Outcome (A × ℕ)) → H A
  unfolding current curr_chunk set_ip
  fetch read = do
    frame ← current
    chunk ← curr_chunk
    (a, next) ← λ s. Base.◌>>=◌ (read chunk frame.ip) λ r. ok (r, s)
    set_ip next
    return a

  -- macro_read_byte
  unfoldable pub read_byte : H ℕ
  unfolding fetch
  read_byte = fetch λ chunk. Fetch.read_byte chunk

  -- macro_read_short
  unfoldable pub read_short : H ℕ
  unfolding fetch
  read_short = fetch λ chunk. Fetch.read_short chunk

  -- macro_read_constant
  unfoldable pub read_constant : H Value
  unfolding fetch value_of
  read_constant = do c ← fetch λ chunk. Fetch.read_constant chunk; value_of c

  -- macro_read_constant_long
  unfoldable pub read_constant_long : H Value
  unfolding fetch value_of
  read_constant_long = do c ← fetch λ chunk. Fetch.read_constant_long chunk; value_of c

  unfoldable pub text_of : Constant → H (List ℕ)
  text_of (string_constant text) = return text
  text_of c = crash

  -- macro_read_string: a constant that is no string is undefined.
  unfoldable pub read_string : H (List ℕ)
  unfolding fetch text_of
  read_string = do c ← fetch λ chunk. Fetch.read_constant chunk; text_of c
