-- ===== src/Chunk.antt =====
-- include/chunk.h, src/chunk.c and the growable arrays of src/value.c: bytecode, its line table in
-- run-length form, and the constant pool. `count`, `capacity` and `line` are `int`s of the source,
-- natural numbers here; a chunk stays far below 2 ^ 31 bytes.
pub mod OpCode
pub mod Lines
pub mod Write
mod Tests
use joker_complier.Base.{
  ℕ, zero, suc, ◌+◌, ◌-◌, ◌*◌, ◌/◌, ◌%◌, ◌^◌, Bool, true, false, not, ◌||◌, [], Outcome, ok, panic,
  ◌>>=◌, ltb, leb, ◌==◌, if◌then◌else◌,
}
use joker_complier.Memory.{Block, grow_capacity, reallocate, load, store, push_back}

pub record RleLine : Type 0 where
  pub line : ℕ
  pub count : ℕ

pub record RleLines : Type 0 where
  pub count : ℕ
  pub capacity : ℕ
  pub lines : Block RleLine

pub record Values {ℓ} (V : Type ℓ) : Type ℓ where
  pub count : ℕ
  pub capacity : ℕ
  pub values : Block V

pub record Chunk {ℓ} (V : Type ℓ) : Type ℓ where
  pub count : ℕ
  pub capacity : ℕ
  pub code : Block ℕ
  pub lines : RleLines
  pub constants : Values V

unfoldable pub init_rle_lines : RleLines
init_rle_lines = record { count = 0; capacity = 0; lines = [] }

-- The loop of `get_rle_line` with `rounds` entries left, at entry `i`.
pub rle_loop : Block RleLine → ℕ → ℕ → ℕ → ℕ → Outcome ℕ
rle_loop lines zero i total code_count = panic
rle_loop lines (suc rounds) i total code_count = do
  entry ← load lines i
  let total' = total + entry.count
  let rest = rle_loop lines rounds (i + 1) total' code_count
  if ltb code_count total' then ok entry.line else rest

pub get_rle_line : RleLines → ℕ → Outcome ℕ
get_rle_line lines code_count = rle_loop lines.lines lines.count 0 0 code_count

module _ {ℓ} {V : Type ℓ} where
  unfoldable pub init_value_array : Values V
  init_value_array = record { count = 0; capacity = 0; values = [] }

  unfoldable pub write_value_array : Values V → V → Outcome (Values V)
  write_value_array array value = do
    (capacity, values) ← push_back array.capacity array.count array.values value
    ok (record { count = array.count + 1; capacity = capacity; values = values })

  unfoldable pub init_chunk : Chunk V
  unfolding init_rle_lines init_value_array
  init_chunk = record {
    count = 0;
    capacity = 0;
    code = [];
    lines = init_rle_lines;
    constants = init_value_array;
  }

abbrev pub op_constant : ℕ
op_constant = 2

abbrev pub op_constant_long : ℕ
op_constant_long = 3

-- `lines.count == 0 || lines.lines[lines.count - 1].line != line`: whether a new entry is needed.
unfoldable pub is_new_line : RleLines → ℕ → Outcome Bool
is_new_line lines line =
    let last = load lines.lines (lines.count - 1) >>= (λ r. ok (not (r.line == line))) in
    if lines.count == 0 then ok true else last

unfoldable pub append_line : RleLines → ℕ → Outcome RleLines
append_line lines line = do
  (capacity, block) ←
      push_back lines.capacity lines.count lines.lines (record { line = line; count = 1 })
  ok (record { count = lines.count + 1; capacity = capacity; lines = block })

unfoldable pub extend_line : RleLines → Outcome RleLines
extend_line lines = do
  r ← load lines.lines (lines.count - 1)
  block ← store lines.lines (lines.count - 1) (record r { count = r.count + 1 })
  ok (record lines { lines = block })

-- The middle part of `write_chunk`.
unfoldable pub add_line : RleLines → ℕ → Outcome RleLines
add_line lines line = do
  fresh ← is_new_line lines line
  if fresh then append_line lines line else extend_line lines

module _ {ℓ} {V : Type ℓ} where
  -- The first part of `write_chunk`. The line block takes the size of the code block, and
  -- `lines.capacity` keeps its old value.
  unfoldable pub grow_code : Chunk V → Chunk V
  grow_code chunk =
      let capacity = grow_capacity chunk.capacity in
      if ltb chunk.capacity (chunk.count + 1)
      then record chunk {
        capacity = capacity;
        code = reallocate capacity chunk.code;
        lines = record (chunk.lines) { lines = reallocate capacity chunk.lines.lines };
      }
      else chunk

  unfoldable pub write_chunk : Chunk V → ℕ → ℕ → Outcome (Chunk V)
  write_chunk chunk code line = do
    let grown = grow_code chunk
    lines ← add_line grown.lines line
    bytes ← store grown.code grown.count code
    ok (record grown { count = grown.count + 1; code = bytes; lines = lines })

  -- The value is pushed on the stack of the machine and popped again around the write, for the
  -- collector; that changes nothing here.
  unfoldable pub add_constant : Chunk V → V → Outcome (ℕ × Chunk V)
  add_constant chunk value =
      let add =
        write_value_array chunk.constants value
        >>= (λ values. ok (values.count - 1, record chunk { constants = values })) in
      if leb (2 ^ 31 - 1) chunk.constants.count then panic else add

  unfoldable pub write_constant : Chunk V → V → ℕ → Outcome (Chunk V)
  write_constant chunk value line = do
    (index, pooled) ← add_constant chunk value
    let short = write_chunk pooled op_constant line >>= (λ c. write_chunk c (index % 2 ^ 8) line)
    let long = write_chunk pooled op_constant_long line >>= (λ c.
        write_chunk c (index / 2 ^ 8 % 2 ^ 8) line >>= (λ d. write_chunk d (index % 2 ^ 8) line))
    if ltb index 255 then short else if ltb index 65535 then long else panic
