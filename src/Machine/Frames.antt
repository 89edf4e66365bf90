-- ===== src/Machine/Frames.antt =====
-- The frames and the reads of src/vm.c keep the bounds.
use joker_complier.Base.{
  ℕ, zero, suc, ◌+◌, ◌-◌, ◌≤◌, ◌<◌, Bool, true, false, Option, none, some, List, [], ◌∷◌, ◌++◌,
  Outcome, ok, panic, undefined, out_of_fuel, ltb, leb, ◌==◌, if◌then◌else◌, length, get_elem?, set,
  arith, Bool-cases, inl, inr, length-set, length-append, refl, ◌≡◌, sym,
}
use joker_complier.Base
use joker_complier.Chunk.{Chunk}
use joker_complier.Value.{Value, i32, i64, f32, f64, object}
use joker_complier.Parse.State.{
  Constant, i32_constant, i64_constant, f32_constant, f64_constant, string_constant, fn_constant,
  Fn,
}
use joker_complier.Vm.Fetch
use joker_complier.Vm.Arith.{constant_stack_max}
use joker_complier.Machine.State.{
  CallFrame, frames_stack_max, Object, closure_object, string_object, fn_object, Vm, H, cell,
  set_cell, current, set_frame, set_ip, last_frame, object_at, set_object, allocate,
}
use joker_complier.Machine.Fetch.{
  Readers, find_string, find_fn, new_string, fn_address, value_of, fn_in, text_of, fn_of,
  curr_chunk, fetch, read_byte, read_short, read_constant, read_constant_long, read_string,
}
use joker_complier.Machine.Calls.{push_frame, as_object}
use joker_complier.Machine.Keeps.{
  Based, Based-cell, Based-set, Based-append, Bounded, After, Gives, Keeps, bind-Gives, bind-Keeps,
  return-Keeps, crash-Gives,
}

-- A function that leaves the counts and the frames alone.
abbrev pub Same : Vm → Vm → Type 0
Same s s' =
    (s'.frame_count ≡ s.frame_count)
    × (s'.stack_top ≡ s.stack_top)
    × (s'.frames ≡ s.frames)
    × (length s'.stack ≡ length s.stack)

pub Same-Bounded : (s s' : Vm) → Same s s' → Bounded s → Bounded s'
Same-Bounded s s' (c, t, f, v) b = record {
  frames_small = rw c b.frames_small;
  stack_small = rw t b.stack_small;
  based = rw f b.based;
  frames_fit = rw f b.frames_fit;
  stack_fit = rw v b.stack_fit;
}

-- A function whose outcome, for every state, changes at most other parts of it.
abbrev pub Quiet : {A : Type 0} → Vm → Outcome (A × Vm) → Type 0
Quiet s (ok (a, s')) = Same s s'
Quiet s panic = Unit
Quiet s undefined = Unit
Quiet s out_of_fuel = Unit

pub Quiet-Keeps : {A : Type 0} {m : H A} → ((s : Vm) → Quiet s (m s)) → Keeps m
Quiet-Keeps {A = A} {m} q = record { gives = λ s b. go s b (m s) (q s) }
  where
    go : (s : Vm) → Bounded s → (o : Outcome (A × Vm)) → Quiet s o → After (λ _. Unit {0}) o
    go s b (ok (a, s')) same = (tt, Same-Bounded s s' same b)
    go s b panic q = tt
    go s b undefined q = tt
    go s b out_of_fuel q = tt

-- A computation whose value is returned with the state as it was.
pub value-Quiet : {A : Type 0} (s : Vm) (o : Outcome A) → Quiet s (Base.◌>>=◌ o (λ a. ok (a, s)))
value-Quiet s (ok a) = (refl, refl, refl, refl)
value-Quiet s panic = tt
value-Quiet s undefined = tt
value-Quiet s out_of_fuel = tt

pub lift-Keeps : {A : Type 0} (f : Vm → Outcome A) → Keeps (λ s. Base.◌>>=◌ (f s) (λ a. ok (a, s)))
lift-Keeps f = Quiet-Keeps λ s. value-Quiet s (f s)

pub object_at-Keeps : (address : ℕ) → Keeps (object_at address)
unfolding object_at
object_at-Keeps address = lift-Keeps λ s. cell s.objects address

pub set_object-Keeps : (address : ℕ) (o : Object) → Keeps (set_object address o)
unfolding set_object
set_object-Keeps address o = Quiet-Keeps λ s. (refl, refl, refl, refl)

pub allocate-Keeps : (o : Object) → Keeps (allocate o)
unfolding allocate
allocate-Keeps o = Quiet-Keeps λ s. (refl, refl, refl, refl)

pub last_frame-Keeps : Keeps last_frame
unfolding last_frame
last_frame-Keeps = Quiet-Keeps λ s. (refl, refl, refl, refl)

pub as_object-Keeps : (v : Value) → Keeps (as_object v)
unfolding as_object
as_object-Keeps (object address) = bind-Keeps (object_at-Keeps address) λ o. return-Keeps (some o)
as_object-Keeps v = return-Keeps none

pub current-Gives : Gives (λ f. f.slots ≤ constant_stack_max) current
unfolding current
current-Gives = record { gives = λ s b. at s b s.frame }
  where
    read :
        (s : Vm) (b : Bounded s) (i : ℕ) (o : Option CallFrame)
        → get_elem? s.frames i ≡ o
        → After
            (λ (f : CallFrame). f.slots ≤ constant_stack_max)
            (Base.◌>>=◌
              (elim o [ none ↦ undefined | some f ↦ ok f ])
              (λ (f : CallFrame). ok (f, s)))
    read s b i none e = tt
    read s b i (some f) e = (Based-cell s.frames i f b.based e, b)

    at :
        (s : Vm) (b : Bounded s) (frame : Option ℕ)
        → After
            (λ (f : CallFrame). f.slots ≤ constant_stack_max)
            (elim frame [
              | none ↦ undefined
              | some i ↦ Base.◌>>=◌ (cell s.frames i) λ (f : CallFrame). ok (f, s)
            ])
    at s b none = tt
    at s b (some i) = read s b i (get_elem? s.frames i) refl

-- The frames of a state, with a list that fits in their place.
framed :
    (s : Vm) (count : ℕ) (fs : List CallFrame)
    → Bounded s
    → count ≤ frames_stack_max
    → Based fs
    → length fs ≤ frames_stack_max
    → Bounded (record s { frames = fs; frame_count = count })
framed s count fs b small based fit = record {
  frames_small = small;
  stack_small = b.stack_small;
  based = based;
  frames_fit = fit;
  stack_fit = b.stack_fit;
}

pub set_frame-Keeps : (f : CallFrame) → f.slots ≤ constant_stack_max → Keeps (set_frame f)
unfolding set_frame
set_frame-Keeps f h = record { gives = λ s b. at s b s.frame }
  where
    at :
        (s : Vm) (b : Bounded s) (frame : Option ℕ)
        → After
            (λ _. Unit {0})
            (elim frame [
              | none ↦ undefined
              | some i ↦
                  Base.◌>>=◌ (set_cell s.frames i f) λ frames. ok (tt, record s { frames = frames })
            ])
    at s b none = tt
    at s b (some i) = elim (Bool-cases (ltb i (length s.frames))) [
      | inl inside ↦ rw inside (
        tt,
        framed s s.frame_count (set s.frames i f) b b.frames_small
            (Based-set s.frames i f b.based h)
            (omega (arith, length-set s.frames i f, b.frames_fit)),
      )
      | inr outside ↦ rw outside tt
    ]

pub set_ip-Keeps : (ip : ℕ) → Keeps (set_ip ip)
unfolding set_ip
set_ip-Keeps ip = bind-Gives current-Gives λ f h. set_frame-Keeps (record f { ip = ip }) h

pub push_frame-Keeps :
    (count : ℕ) (f : CallFrame)
    → count < frames_stack_max
    → f.slots ≤ constant_stack_max
    → Keeps (push_frame count f)
unfolding push_frame
push_frame-Keeps count f few h = record {
  gives = λ s b. elim (Bool-cases (ltb count (length s.frames))) [
    | inl inside ↦ rw inside (
      tt,
      framed s (count + 1) (set s.frames count f) b (omega (arith, few))
          (Based-set s.frames count f b.based h)
          (omega (arith, length-set s.frames count f, b.frames_fit)),
    )
    | inr outside ↦ elim (Bool-cases (count == length s.frames)) [
      | inl next ↦
          rw (outside, next)
            (
              tt,
              framed s (count + 1) (s.frames ++ f ∷ []) b (omega (arith, few))
                  (Based-append s.frames f b.based h) (longer s.frames (ground (arith, next))),
            )
      | inr beyond ↦ rw (outside, beyond) tt
    ]
  ];
}
  where
    longer : (fs : List CallFrame) → count ≡ length fs → length (fs ++ f ∷ []) ≤ frames_stack_max
    longer fs e = omega (arith, few, e, length-append fs (f ∷ []))

module _ (readers : Readers) (program : List Fn) where
  pub new_string-Keeps : (text : List ℕ) → Keeps (new_string text)
  unfolding new_string
  new_string-Keeps text = Quiet-Keeps λ s. go s (find_string s.objects text 0)
    where
      go :
          (s : Vm) (o : Option ℕ)
          → Quiet s (elim o [
            | some address ↦ ok (address, s)
            | none ↦
                ok (length s.objects, record s { objects = s.objects ++ string_object text ∷ [] })
          ])
      go s none = (refl, refl, refl, refl)
      go s (some address) = (refl, refl, refl, refl)

  pub fn_address-Keeps : (number : ℕ) → Keeps (fn_address number)
  unfolding fn_address
  fn_address-Keeps number = Quiet-Keeps λ s. go s (find_fn s.objects number 0)
    where
      go :
          (s : Vm) (o : Option ℕ)
          → Quiet s (elim o [
            | some address ↦ ok (address, s)
            | none ↦
                ok (length s.objects, record s { objects = s.objects ++ fn_object number ∷ [] })
          ])
      go s none = (refl, refl, refl, refl)
      go s (some address) = (refl, refl, refl, refl)

  pub value_of-Keeps : (c : Constant) → Keeps (value_of readers program c)
  unfolding value_of
  value_of-Keeps (string_constant text) =
      bind-Keeps (new_string-Keeps text) λ address. return-Keeps (object address)
  value_of-Keeps (fn_constant number) =
      bind-Keeps (fn_address-Keeps number) λ address. return-Keeps (object address)
  value_of-Keeps (i32_constant a) = return-Keeps (i32 a)
  value_of-Keeps (i64_constant a) = return-Keeps (i64 a)
  value_of-Keeps (f32_constant text) = return-Keeps (f32 (readers.read_f32 text))
  value_of-Keeps (f64_constant text) = return-Keeps (f64 (readers.read_f64 text))

  fn_in-Keeps : (o : Object) → Keeps (fn_in readers program o)
  unfolding fn_in
  fn_in-Keeps (closure_object number upvalues) = lift-Keeps λ s. cell program number
  fn_in-Keeps o = crash-Gives

  pub fn_of-Keeps : (closure : ℕ) → Keeps (fn_of readers program closure)
  unfolding fn_of
  fn_of-Keeps closure = bind-Keeps (object_at-Keeps closure) fn_in-Keeps

  pub curr_chunk-Keeps : Keeps (curr_chunk readers program)
  unfolding curr_chunk
  curr_chunk-Keeps =
      bind-Gives current-Gives λ f h. bind-Keeps (fn_of-Keeps f.closure) λ fn. return-Keeps fn.chunk

  pub fetch-Keeps :
      {A : Type 0} (read : Chunk Constant → ℕ → Outcome (A × ℕ))
      → Keeps (fetch readers program read)
  unfolding fetch
  fetch-Keeps read = bind-Gives current-Gives λ f h. bind-Keeps curr_chunk-Keeps λ chunk.
      bind-Keeps (lift-Keeps λ s. read chunk f.ip)
        λ (a, next). bind-Keeps (set_ip-Keeps next) λ u. return-Keeps a

  pub read_byte-Keeps : Keeps (read_byte readers program)
  unfolding read_byte
  read_byte-Keeps = fetch-Keeps λ chunk. Fetch.read_byte chunk

  pub read_short-Keeps : Keeps (read_short readers program)
  unfolding read_short
  read_short-Keeps = fetch-Keeps λ chunk. Fetch.read_short chunk

  pub read_constant-Keeps : Keeps (read_constant readers program)
  unfolding read_constant
  read_constant-Keeps = bind-Keeps (fetch-Keeps λ chunk. Fetch.read_constant chunk) value_of-Keeps

  pub read_constant_long-Keeps : Keeps (read_constant_long readers program)
  unfolding read_constant_long
  read_constant_long-Keeps =
      bind-Keeps (fetch-Keeps λ chunk. Fetch.read_constant_long chunk) value_of-Keeps

  text_of-Keeps : (c : Constant) → Keeps (text_of readers program c)
  unfolding text_of
  text_of-Keeps (string_constant text) = return-Keeps text
  text_of-Keeps c = crash-Gives

  pub read_string-Keeps : Keeps (read_string readers program)
  unfolding read_string
  read_string-Keeps = bind-Keeps (fetch-Keeps λ chunk. Fetch.read_constant chunk) text_of-Keeps
