-- ===== src/Machine/Returns.antt =====
-- src/vm.c: a call and its return.
use joker_complier.Base.{
  ℕ, zero, suc, ◌+◌, ◌-◌, ◌≤◌, ◌<◌, Bool, true, false, not, Option, none, some, List, Outcome, ok,
  undefined, ltb, leb, ◌==◌, ◌≡◌, ◌≢◌, refl, if◌then◌else◌, length, ◌++◌, ◌∷◌, [], get_elem?,
  get_elem?-append, get_elem?-set, get_elem?-lt, set, take, length-take, take-append_length,
  Bool-cases, inl, inr, arith, sym, ap, ◌∙◌,
}
use joker_complier.Base
use joker_complier.Value.{Value}
use joker_complier.Parse.State.{Fn}
use joker_complier.Upvalue.{close_upvalues}
use joker_complier.Vm.Arith.{constant_stack_max}
use joker_complier.Machine.State.{
  continue, return, CallFrame, frames_stack_max, Vm, passed, cell, current, stack_top,
  set_stack_top, slot, put_slot, push, pop,
}
use joker_complier.Machine.Fetch.{Readers, fn_of}
use joker_complier.Machine.Calls.{
  Natives, read_address, frame_count, set_frame_count, push_frame, call, close_from,
  handle_op_return,
}

-- The frame of a call of `closure`, whose arguments end at `top`.
abbrev pub entry : ℕ → ℕ → ℕ → CallFrame
entry closure top arg_count = record { slots = top - arg_count - 1; closure = closure; ip = 0 }

-- The frames of the calls that are going on, the last one at the end.
abbrev pub live : Vm → List CallFrame
live s = take s.frame_count s.frames

-- Where a call can be made: the closure, the number of its arguments, and room for a frame.
pub record Callable (readers : Readers) (program : List Fn) (closure arg_count : ℕ) (s : Vm)
    : Type 0 where
  pub fn : Fn
  pub found : fn_of readers program closure s ≡ ok (fn, s)
  pub matched : arg_count ≡ fn.arity
  pub inner : 0 < s.frame_count
  pub room : s.frame_count < frames_stack_max
  pub written : s.frame_count ≤ length s.frames
  pub under : arg_count < s.stack_top
  pub small : s.stack_top ≤ constant_stack_max

-- The callee of a call at `s` can return `v`: the frames are those of the caller and, on top and
-- current, the callee's, wherever it is in its code, and the value is on top of the stack.
pub record Returning (arg_count : ℕ) (s : Vm) (frame : CallFrame) (v : Value) (s' : Vm)
    : Type 0 where
  pub based : frame.slots ≡ s.stack_top - arg_count - 1
  pub called : s'.frame_count ≡ suc s.frame_count
  pub stacked : live s' ≡ live s ++ frame ∷ []
  pub pointed : s'.frame ≡ some s.frame_count
  pub above : frame.slots < s'.stack_top
  pub on_top : get_elem? s'.stack (s'.stack_top - 1) ≡ some v

read_some :
    {A : Type 0} (o : Option A) (a : A) (s : Vm)
    → o ≡ some a
    → Base.◌>>=◌ {B = A × Vm} (elim o [ none ↦ undefined | some b ↦ ok b ]) (λ (b : A). ok (b, s))
      ≡ ok (a, s)
read_some {A = A} o a s e =
    ap
      (λ (o : Option A).
        Base.◌>>=◌ {B = A × Vm} (elim o [ none ↦ undefined | some b ↦ ok b ])
          (λ (b : A). ok (b, s)))
      e

pub slot-some : (i : ℕ) (v : Value) (s : Vm) → get_elem? s.stack i ≡ some v → slot i s ≡ ok (v, s)
unfolding slot
slot-some i v s e = read_some (get_elem? s.stack i) v s e

pub pop-some :
    (v : Value) (s : Vm)
    → 0 < s.stack_top
    → get_elem? s.stack (s.stack_top - 1) ≡ some v
    → pop s ≡ ok (v, record s { stack_top = s.stack_top - 1 })
unfolding pop stack_top set_stack_top
pop-some v s h e =
    let some_value : leb s.stack_top 0 ≡ false = ground (arith, h) in
    rw some_value (slot-some (s.stack_top - 1) v (record s { stack_top = s.stack_top - 1 }) e)

pub current-some :
    (f : CallFrame) (i : ℕ) (s : Vm)
    → s.frame ≡ some i
    → get_elem? s.frames i ≡ some f
    → current s ≡ ok (f, s)
unfolding current
current-some f i s e e' =
    ap
      (λ (frame : Option ℕ). elim frame [
        | none ↦ undefined
        | some i ↦ Base.◌>>=◌ {B = CallFrame × Vm} (cell s.frames i) λ (f : CallFrame). ok (f, s)
      ])
      e
    ∙ read_some (get_elem? s.frames i) f s e'

pub push-room :
    (v : Value) (s : Vm)
    → s.stack_top < constant_stack_max
    → s.stack_top < length s.stack
    → push v s
      ≡ ok (tt, record s { stack = set s.stack s.stack_top v; stack_top = s.stack_top + 1 })
unfolding push stack_top set_stack_top put_slot
push-room v s small low =
    let room : leb constant_stack_max s.stack_top ≡ false = ground (arith, small) in
    let inside : ltb s.stack_top (length s.stack) ≡ true = ground (arith, low) in
    rw (room, inside) refl

-- The frames after a call: the cell of the last one may have been written by an earlier call.
abbrev pub put_frame : List CallFrame → ℕ → CallFrame → List CallFrame
put_frame fs i f = if ltb i (length fs) then set fs i f else fs ++ f ∷ []

-- The machine in the callee, and after its return.
abbrev pub entered : ℕ → ℕ → Vm → Vm
entered closure arg_count s = record s {
  frames = put_frame s.frames s.frame_count (entry closure s.stack_top arg_count);
  frame_count = s.frame_count + 1;
}

abbrev pub left : Natives → ℕ → ℕ → Value → Vm → Vm
left natives slots count v s = record s {
  frame_count = count;
  stack_top = slots + 1;
  stack = set s.stack slots v;
  open_upvalues =
      close_upvalues natives.closed_at (read_address s.stack s.open_upvalues) s.open_upvalues slots;
}

take-put_frame :
    (fs : List CallFrame) (i : ℕ) (f : CallFrame)
    → i ≤ length fs
    → take (suc i) (put_frame fs i f) ≡ take i fs ++ f ∷ []
take-put_frame [] zero f h = refl
take-put_frame [] (suc i) f h = absurd (omega arith)
take-put_frame (x ∷ fs) zero f h =
    let inside : ltb 0 (suc (length fs)) ≡ true = ground arith in rw inside refl
take-put_frame (x ∷ fs) (suc i) f h = elim (Bool-cases (ltb i (length fs))) [
  | inl e ↦
      let inside : ltb (suc i) (suc (length fs)) ≡ true = ground (arith, e) in
      rw inside (
        ap (◌∷◌ x) (
          ap (λ (b : Bool). take (suc i) (if b then set fs i f else fs ++ f ∷ [])) (sym e)
          ∙ take-put_frame fs i f (omega arith)))
  | inr e ↦
      let outside : ltb (suc i) (suc (length fs)) ≡ false = ground (arith, e) in
      rw outside (
        ap (◌∷◌ x) (
          ap (λ (b : Bool). take (suc i) (if b then set fs i f else fs ++ f ∷ [])) (sym e)
          ∙ take-put_frame fs i f (omega arith)))
]

take_less : (n : ℕ) (fs : List CallFrame) → take n (take (suc n) fs) ≡ take n fs
take_less zero fs = refl
take_less (suc n) [] = refl
take_less (suc n) (x ∷ fs) = ap (◌∷◌ x) (take_less n fs)

get_elem?-take : (n : ℕ) (fs : List CallFrame) → get_elem? (take (suc n) fs) n ≡ get_elem? fs n
get_elem?-take n [] = refl
get_elem?-take zero (x ∷ fs) = refl
get_elem?-take (suc n) (x ∷ fs) = get_elem?-take n fs

-- The frame at the end of a list.
get_elem?-last :
    (fs : List CallFrame) (n : ℕ) (f : CallFrame)
    → length fs ≡ n
    → get_elem? (fs ++ f ∷ []) n ≡ some f
get_elem?-last fs n f e =
    let after : ltb n (length fs) ≡ false = ground (arith, e) in
    let first : n - length fs ≡ 0 = omega (arith, e) in
    rw (get_elem?-append fs (f ∷ []) n, after, first) refl

module _ (readers : Readers) (program : List Fn) (natives : Natives) where
  call-Callable :
      (closure arg_count : ℕ) (s : Vm)
      → Callable readers program closure arg_count s
      → call readers program natives closure arg_count s ≡ ok (true, entered closure arg_count s)
  unfolding call frame_count stack_top push_frame
  call-Callable closure arg_count s c =
      let arity : not (arg_count == c.fn.arity) ≡ false = ground (arith, c.matched) in
      let few : (s.frame_count == frames_stack_max) ≡ false = ground (arith, c.room) in
      let enough : leb s.stack_top arg_count ≡ false = ground (arith, c.under) in
      elim (Bool-cases (ltb s.frame_count (length s.frames))) [
        | inl inside ↦ rw (c.found, arity, few, enough, inside) refl
        | inr outside ↦
            let last : (s.frame_count == length s.frames) ≡ true =
              ground (arith, c.written, outside) in
            rw (c.found, arity, few, enough, outside, last) refl
      ]

  return-Returning :
      (arg_count : ℕ) (s : Vm) (frame : CallFrame) (v : Value) (s' : Vm)
      → 0 < s.frame_count
      → s.frame_count ≤ length s.frames
      → frame.slots < constant_stack_max
      → Returning arg_count s frame v s'
      → handle_op_return readers program natives s'
        ≡ ok (passed, left natives frame.slots s.frame_count v s')
  unfolding handle_op_return close_from frame_count set_frame_count set_stack_top
  return-Returning arg_count s frame v s' inner written small r =
      let count = s.frame_count in
      let more : leb (suc count) 1 ≡ false = ground (arith, inner) in
      let back : suc count - 1 ≡ count = omega arith in
      let size : length (live s) ≡ count = omega (arith, length-take count s.frames, written) in
      let cut : take (suc count) s'.frames ≡ live s ++ frame ∷ [] =
        ap (λ (n : ℕ). take n s'.frames) (sym r.called) ∙ r.stacked in
      let held : get_elem? s'.frames count ≡ some frame =
        sym (get_elem?-take count s'.frames)
        ∙ ap (λ (fs : List CallFrame). get_elem? fs count) cut
        ∙ get_elem?-last (live s) count frame size in
      let low : frame.slots < length s'.stack =
        omega (arith, r.above, get_elem?-lt s'.stack (s'.stack_top - 1) v r.on_top) in
      rw
        (
          pop-some v s' (omega (arith, r.above)) r.on_top,
          current-some frame count (record s' { stack_top = s'.stack_top - 1 }) r.pointed held,
          r.called,
          more,
          back,
        )
        (ap (λ (o : Outcome (Unit {0} × Vm)). continue o (λ _. return passed))
          (push-room v
            (record s' {
              frame_count = count;
              stack_top = frame.slots;
              open_upvalues =
                  close_upvalues natives.closed_at (read_address s'.stack s'.open_upvalues)
                    s'.open_upvalues frame.slots;
            })
            small low))

  -- A call and its return. With the right number of arguments and room for a frame, a call puts a frame on
  -- top of those of the caller, which begins at the callee's slot. From every state in which the frames are
  -- still the caller's with the callee's on top, with a result above the callee's slot, the return
  -- leaves exactly the caller's frames; the result stands in place of the callee and its arguments, with
  -- nothing above it, and what lies below is as the callee left it. Earlier calls may have been made and have returned.
  pub call-return :
      (closure arg_count : ℕ) (s : Vm) (frame : CallFrame) (v : Value) (s' : Vm)
      → Callable readers program closure arg_count s
      → Returning arg_count s frame v s'
      → (call readers program natives closure arg_count s ≡ ok (true, entered closure arg_count s))
        × (live (entered closure arg_count s) ≡ live s ++ entry closure s.stack_top arg_count ∷ [])
        × (handle_op_return readers program natives s'
            ≡ ok (passed, left natives frame.slots s.frame_count v s'))
        × (live (left natives frame.slots s.frame_count v s') ≡ live s)
        × ((left natives frame.slots s.frame_count v s').stack_top + arg_count ≡ s.stack_top)
        × ((j : ℕ)
            → j ≤ frame.slots
            → get_elem? (left natives frame.slots s.frame_count v s').stack j
              ≡ (if frame.slots == j then some v else get_elem? s'.stack j))
  call-return closure arg_count s frame v s' c r =
      let count = s.frame_count in
      let one : count + 1 ≡ suc count = omega arith in
      let size : length (live s) ≡ count = omega (arith, length-take count s.frames, c.written) in
      let cut : take (suc count) s'.frames ≡ live s ++ frame ∷ [] =
        ap (λ (n : ℕ). take n s'.frames) (sym r.called) ∙ r.stacked in
      (
        call-Callable closure arg_count s c,
        ap (λ (n : ℕ). take n (entered closure arg_count s).frames) one
            ∙ take-put_frame s.frames count (entry closure s.stack_top arg_count) c.written,
        return-Returning arg_count s frame v s' c.inner c.written
            (omega (arith, r.based, c.small, c.under)) r,
        sym (take_less count s'.frames)
            ∙ ap (take count) cut
            ∙ ap (λ (n : ℕ). take n (live s ++ frame ∷ [])) (sym size)
            ∙ take-append_length (live s) (frame ∷ []),
        omega (arith, r.based, c.under),
        (λ j h.
            get_elem?-set s'.stack frame.slots j v
              (omega (arith, r.above, get_elem?-lt s'.stack (s'.stack_top - 1) v r.on_top))),
      )
