-- ===== src/Machine/State.antt =====
-- include/vm.h: the state of the machine. The arrays `frames` and `stack` are the cells that have been
-- written, from the first one on; a pointer into them is an index, and what lies above `stack_top` is
-- still there. Objects stand in a heap and are told by their addresses; strings are interned, and the hash maps of
-- globals, types, fields and methods are association lists.
use joker_complier.Base.{
  ℕ, ◌+◌, ◌-◌, ◌&&◌, Bool, true, false, Option, none, some, List, [], ◌∷◌, ◌++◌, Outcome, ok, panic,
  undefined, ltb, leb, ◌==◌, if◌then◌else◌, length, get_elem?, set,
}
use joker_complier.Base
pub use joker_complier.Base.Action.{
  Action, continue, ◌>>=◌, ◌>>◌, return, fail, crash, skip, exhausted,
}
use joker_complier.Token.{same_bytes}
use joker_complier.Value.{Value, null}
use joker_complier.Upvalue.{Upvalue}
use joker_complier.Vm.Arith.{constant_stack_max}

abbrev pub frames_stack_max : ℕ
frames_stack_max = 64

pub record CallFrame : Type 0 where
  pub slots : ℕ
  pub closure : ℕ
  pub ip : ℕ

-- `HashMap`, as the list of its keys and values
abbrev pub Fields : Type 0
Fields = List (List ℕ × Value)

-- `string_equal`
abbrev pub string_equal : List ℕ → List ℕ → Bool
string_equal a b = (length a == length b) && same_bytes a b

-- `hashmap_get`: NULL where the key is missing
abbrev pub get_field : Fields → List ℕ → Value
get_field [] key = null
get_field ((k, v) ∷ fields) key = if string_equal k key then v else get_field fields key

-- `hashmap_contains_key`
abbrev pub has_field : Fields → List ℕ → Bool
has_field [] key = false
has_field ((k, v) ∷ fields) key = if string_equal k key then true else has_field fields key

-- `hashmap_set`
abbrev pub set_field : Fields → List ℕ → Value → Fields
set_field [] key value = (key, value) ∷ []
set_field ((k, v) ∷ fields) key value =
    let rest = set_field fields key value in
    if string_equal k key then (k, value) ∷ fields else (k, v) ∷ rest

-- `hashmap_add_all`
abbrev pub add_fields : Fields → Fields → Fields
add_fields [] to = to
add_fields ((k, v) ∷ from) to = add_fields from (set_field to k v)

-- The objects of the heap. A closure has the address of each of its upvalues, none where it is NULL.
pub data Object : Type 0 where
  string_object : List ℕ → Object
  fn_object : ℕ → Object
  closure_object : ℕ → List (Option ℕ) → Object
  native_object : ℕ → Bool → Object
  class_object : List ℕ → Fields → Object
  instance_object : ℕ → Fields → Object
  bound_method_object : Value → ℕ → Object
  struct_object : List ℕ → List (List ℕ) → Fields → ℕ → Object

pub record Vm : Type 0 where
  pub frames : List CallFrame
  pub frame_count : ℕ
  -- the index that `frame` of `run` points at
  pub frame : Option ℕ
  pub stack : List Value
  pub stack_top : ℕ
  pub globals : Fields
  pub types : Fields
  pub objects : List Object
  -- the list of open upvalues, and the nodes that a reset has cut off
  pub open_upvalues : List (Upvalue Value)
  pub dropped : List (Upvalue Value)

-- A function of the machine.
abbrev pub H : Type 0 → Type 0
H A = Action Vm A

-- How a handler ends.
pub data InterpretResult : Type 0 where
  succeeded raised passed : InterpretResult

-- `reset_stack`
unfoldable pub reset_stack : H (Unit {0})
reset_stack s = ok (
  tt,
  record s {
    stack_top = 0;
    frame_count = 0;
    open_upvalues = [];
    dropped = s.open_upvalues ++ s.dropped;
  },
)

-- `runtime_error`, less the messages
unfoldable pub runtime_error : H InterpretResult
unfolding reset_stack
runtime_error = do reset_stack; return raised

-- A cell of an array.
abbrev pub cell {ℓ} : {A : Type ℓ} → List A → ℕ → Outcome A
cell cells i = elim (get_elem? cells i) [ none ↦ undefined | some v ↦ ok v ]

-- A write into a cell that has been written, or into the first one that has not.
abbrev pub write_cell {ℓ} : {A : Type ℓ} → List A → ℕ → A → Outcome (List A)
write_cell cells i v =
    if ltb i (length cells)
    then ok (set cells i v)
    else if i == length cells
    then ok (cells ++ v ∷ [])
    else undefined

-- A write into a cell that has been written.
abbrev pub set_cell {ℓ} : {A : Type ℓ} → List A → ℕ → A → Outcome (List A)
set_cell cells i v = if ltb i (length cells) then ok (set cells i v) else undefined

-- `self->stack[i]`
unfoldable pub slot : ℕ → H Value
slot i s = Base.◌>>=◌ (cell s.stack i) λ v. ok (v, s)

-- `*self->stack_top = value` of `push`. The end of the array is not tested here: a write behind it would make
-- the list longer than the array.
unfoldable pub put_slot : ℕ → Value → H (Unit {0})
put_slot i v s = Base.◌>>=◌ (write_cell s.stack i v) λ cells. ok (tt, record s { stack = cells })

-- A write to another place of the array
unfoldable pub set_slot : ℕ → Value → H (Unit {0})
unfolding put_slot
set_slot i v = if ltb i constant_stack_max then put_slot i v else crash

unfoldable pub stack_top : H ℕ
stack_top s = ok (s.stack_top, s)

unfoldable pub set_stack_top : ℕ → H (Unit {0})
set_stack_top top s = ok (tt, record s { stack_top = top })

-- `push`
unfoldable pub push : Value → H (Unit {0})
unfolding stack_top put_slot set_stack_top
push value = do
  top ← stack_top
  if leb constant_stack_max top then fail else (do put_slot top value; set_stack_top (top + 1))

-- `pop`
unfoldable pub pop : H Value
unfolding stack_top slot set_stack_top
pop = do top ← stack_top; if leb top 0 then fail else (do set_stack_top (top - 1); slot (top - 1))

-- The index of `peek`; the slot below the stack is undefined.
unfoldable pub peek_index : ℕ → H ℕ
unfolding stack_top
peek_index distance = do
  top ← stack_top
  if ltb top distance then fail else if top == distance then crash else return (top - 1 - distance)

-- `*peek(self, distance)`
unfoldable pub peek : ℕ → H Value
unfolding peek_index slot
peek distance = do i ← peek_index distance; slot i

-- `*peek(self, distance) = value`
unfoldable pub set_peek : ℕ → Value → H (Unit {0})
unfolding peek_index set_slot
set_peek distance value = do i ← peek_index distance; set_slot i value

-- `self->stack_top[-distance - 1] = value`, which is not tested
unfoldable pub set_below : ℕ → Value → H (Unit {0})
unfolding stack_top set_slot
set_below distance value = do
  top ← stack_top
  if leb top distance then crash else set_slot (top - 1 - distance) value

-- The current frame.
unfoldable pub current : H CallFrame
current s = elim s.frame [
  | none ↦ undefined
  | some i ↦ Base.◌>>=◌ (cell s.frames i) λ frame. ok (frame, s)
]

unfoldable pub set_frame : CallFrame → H (Unit {0})
set_frame frame s = elim s.frame [
  | none ↦ undefined
  | some i ↦ Base.◌>>=◌ (set_cell s.frames i frame) λ frames. ok (tt, record s { frames = frames })
]

unfoldable pub set_ip : ℕ → H (Unit {0})
unfolding current set_frame
set_ip ip = do frame ← current; set_frame (record frame { ip = ip })

-- `frame = &self->frames[self->frame_count - 1]`
unfoldable pub last_frame : H (Unit {0})
last_frame s =
    ok (tt, record s { frame = if s.frame_count == 0 then none else some (s.frame_count - 1) })

-- The object at an address, and a write to it.
unfoldable pub object_at : ℕ → H Object
object_at address s = Base.◌>>=◌ (cell s.objects address) λ o. ok (o, s)

unfoldable pub set_object : ℕ → Object → H (Unit {0})
set_object address o s = ok (tt, record s { objects = set s.objects address o })

-- `allocate_object`
unfoldable pub allocate : Object → H ℕ
allocate o s = ok (length s.objects, record s { objects = s.objects ++ o ∷ [] })
