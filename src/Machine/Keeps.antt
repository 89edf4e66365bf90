-- ===== src/Machine/Keeps.antt =====
-- A condition that functions of the machine keep: the counts stay within the arrays of include/vm.h, and
-- so do the bases of the frames.
use joker_complier.Base.{
  ℕ, zero, suc, ◌+◌, ◌-◌, ◌≤◌, ◌<◌, Bool, true, false, Option, none, some, List, [], ◌∷◌, ◌++◌,
  Outcome, ok, panic, undefined, out_of_fuel, ltb, leb, ◌==◌, if◌then◌else◌, length, get_elem?, set,
  arith, Bool-cases, inl, inr, length-set, length-append, refl, ◌≡◌, sym,
}
use joker_complier.Base
use joker_complier.Value.{Value}
use joker_complier.Vm.Arith.{constant_stack_max}
use joker_complier.Machine.State.{
  CallFrame, frames_stack_max, Vm, H, ◌>>=◌, continue, return, crash, fail, skip, reset_stack,
  runtime_error, slot, put_slot, set_slot, stack_top, set_stack_top, push, pop, peek_index, peek,
  set_peek, set_below,
}

-- Every frame begins within the stack.
abbrev pub Based : List CallFrame → Type 0
Based [] = Unit
Based (f ∷ fs) = (f.slots ≤ constant_stack_max) × Based fs

pub record Bounded (s : Vm) : Type 0 where
  pub frames_small : s.frame_count ≤ frames_stack_max
  pub stack_small : s.stack_top ≤ constant_stack_max
  pub based : Based s.frames
  -- no cell behind the arrays has been written
  pub frames_fit : length s.frames ≤ frames_stack_max
  pub stack_fit : length s.stack ≤ constant_stack_max

pub Based-cell :
    (fs : List CallFrame) (i : ℕ) (f : CallFrame)
    → Based fs
    → get_elem? fs i ≡ some f
    → f.slots ≤ constant_stack_max
Based-cell [] i f b e = cc
Based-cell (x ∷ fs) zero f b e = rw (sym (some_inj e)) b.0
  where
    some_inj : some x ≡ some f → x ≡ f
    some_inj e = cc
Based-cell (x ∷ fs) (suc i) f b e = Based-cell fs i f b.1 e

pub Based-set :
    (fs : List CallFrame) (i : ℕ) (f : CallFrame)
    → Based fs
    → f.slots ≤ constant_stack_max
    → Based (set fs i f)
Based-set [] i f b h = tt
Based-set (x ∷ fs) zero f b h = (h, b.1)
Based-set (x ∷ fs) (suc i) f b h = (b.0, Based-set fs i f b.1 h)

pub Based-append :
    (fs : List CallFrame) (f : CallFrame)
    → Based fs
    → f.slots ≤ constant_stack_max
    → Based (fs ++ f ∷ [])
Based-append [] f b h = (h, tt)
Based-append (x ∷ fs) f b h = (b.0, Based-append fs f b.1 h)

-- What holds when a function returns.
abbrev pub After : {A : Type 0} → (A → Type 0) → Outcome (A × Vm) → Type 0
After P (ok (a, s)) = P a × Bounded s
After P panic = Unit
After P undefined = Unit
After P out_of_fuel = Unit

-- From a state within the bounds, the function leaves one, with a result that satisfies `P`.
pub record Gives {A : Type 0} (P : A → Type 0) (m : H A) : Type 0 where
  pub gives : (s : Vm) → Bounded s → After P (m s)

abbrev pub Keeps : {A : Type 0} → H A → Type 0
Keeps m = Gives (λ _. Unit) m

pub bind-Gives :
    {A B : Type 0} {P : A → Type 0} {Q : B → Type 0} {m : H A} {f : A → H B}
    → Gives P m
    → ((a : A) → P a → Gives Q (f a))
    → Gives Q (m >>= f)
bind-Gives {A = A} {P = P} {Q = Q} {m} {f} g k = record { gives = λ s b. go (m s) (g.gives s b) }
  where
    go : (o : Outcome (A × Vm)) → After P o → After Q (continue o f)
    go (ok (a, s)) (p, b) = (k a p).gives s b
    go panic p = tt
    go undefined p = tt
    go out_of_fuel p = tt

-- `bind-Gives` where nothing is known of the first result.
pub bind-Keeps :
    {A B : Type 0} {Q : B → Type 0} {m : H A} {f : A → H B}
    → Keeps m
    → ((a : A) → Gives Q (f a))
    → Gives Q (m >>= f)
bind-Keeps g k = bind-Gives g (λ a u. k a)

pub return-Gives : {A : Type 0} {P : A → Type 0} {a : A} → P a → Gives P (return a)
return-Gives p = record { gives = λ s b. (p, b) }

pub return-Keeps : {A : Type 0} (a : A) → Keeps (return a)
return-Keeps a = return-Gives tt

pub crash-Gives : {A : Type 0} {P : A → Type 0} → Gives P crash
crash-Gives = record { gives = λ s b. tt }

pub fail-Gives : {A : Type 0} {P : A → Type 0} → Gives P fail
fail-Gives = record { gives = λ s b. tt }

pub skip-Keeps : Keeps skip
skip-Keeps = record { gives = λ s b. (tt, b) }

pub if-Gives :
    {A : Type 0} {P : A → Type 0} (b : Bool) {m n : H A}
    → Gives P m
    → Gives P n
    → Gives P (if b then m else n)
if-Gives true g h = g
if-Gives false g h = h

-- `if-Gives`, with what the test says.
pub cond-Gives :
    {A : Type 0} {P : A → Type 0} (b : Bool) {m n : H A}
    → (b ≡ true → Gives P m)
    → (b ≡ false → Gives P n)
    → Gives P (if b then m else n)
cond-Gives true g h = g refl
cond-Gives false g h = h refl

-- A read of the state.
pub read-Keeps : {A : Type 0} (f : Vm → A) → Keeps (λ s. ok (f s, s))
read-Keeps f = record { gives = λ s b. (tt, b) }

pub runtime_error-Keeps : Keeps runtime_error
unfolding runtime_error reset_stack
runtime_error-Keeps = record {
  gives = λ s b. (
    tt,
    record {
      frames_small = omega arith;
      stack_small = omega arith;
      based = b.based;
      frames_fit = b.frames_fit;
      stack_fit = b.stack_fit;
    },
  );
}

pub stack_top-Gives : Gives (λ top. top ≤ constant_stack_max) stack_top
unfolding stack_top
stack_top-Gives = record { gives = λ s b. (b.stack_small, b) }

pub set_stack_top-Keeps : (top : ℕ) → top ≤ constant_stack_max → Keeps (set_stack_top top)
unfolding set_stack_top
set_stack_top-Keeps top h = record {
  gives = λ s b. (
    tt,
    record {
      frames_small = b.frames_small;
      stack_small = h;
      based = b.based;
      frames_fit = b.frames_fit;
      stack_fit = b.stack_fit;
    },
  );
}

pub slot-Keeps : (i : ℕ) → Keeps (slot i)
unfolding slot
slot-Keeps i = record { gives = λ s b. go s b (get_elem? s.stack i) }
  where
    go :
        (s : Vm)
        → Bounded s
        → (o : Option Value)
        → After
            (λ _. Unit {0})
            (Base.◌>>=◌ (elim o [ none ↦ undefined | some v ↦ ok v ]) (λ (v : Value). ok (v, s)))
    go s b none = tt
    go s b (some v) = (tt, b)

-- A write within the array.
put_slot-Keeps : (i : ℕ) (v : Value) → i < constant_stack_max → Keeps (put_slot i v)
unfolding put_slot
put_slot-Keeps i v h = record {
  gives = λ s b. elim (Bool-cases (ltb i (length s.stack))) [
    | inl inside ↦
        rw inside
          (tt, stored s b (set s.stack i v) (omega (arith, length-set s.stack i v, b.stack_fit)))
    | inr outside ↦ elim (Bool-cases (i == length s.stack)) [
      | inl next ↦
          rw (outside, next)
            (tt, stored s b (s.stack ++ v ∷ []) (longer s.stack v (ground (arith, next))))
      | inr beyond ↦ rw (outside, beyond) tt
    ]
  ];
}
  where
    longer :
        (cells : List Value) (v : Value)
        → i ≡ length cells
        → length (cells ++ v ∷ []) ≤ constant_stack_max
    longer cells v e = omega (arith, h, e, length-append cells (v ∷ []))

    stored :
        (s : Vm)
        → Bounded s
        → (cells : List Value) → length cells ≤ constant_stack_max
        → Bounded (record s { stack = cells })
    stored s b cells fit = record {
      frames_small = b.frames_small;
      stack_small = b.stack_small;
      based = b.based;
      frames_fit = b.frames_fit;
      stack_fit = fit;
    }

pub set_slot-Keeps : (i : ℕ) (v : Value) → Keeps (set_slot i v)
unfolding set_slot
set_slot-Keeps i v =
    cond-Gives (ltb i constant_stack_max) (λ low. put_slot-Keeps i v (ground (arith, low)))
      λ high. crash-Gives

pub push-Keeps : (v : Value) → Keeps (push v)
unfolding push
push-Keeps v = bind-Gives stack_top-Gives λ top h.
    cond-Gives (leb constant_stack_max top) (λ full. fail-Gives)
      λ room.
        bind-Keeps (put_slot-Keeps top v (ground (arith, room)))
          λ u. set_stack_top-Keeps (top + 1) (ground (arith, room))

pub pop-Keeps : Keeps pop
unfolding pop
pop-Keeps = bind-Gives stack_top-Gives λ top h.
    if-Gives (leb top 0) fail-Gives
      (bind-Keeps (set_stack_top-Keeps (top - 1) (omega arith)) (λ u. slot-Keeps (top - 1)))

pub peek_index-Keeps : (distance : ℕ) → Keeps (peek_index distance)
unfolding peek_index
peek_index-Keeps distance = bind-Gives stack_top-Gives λ top h.
    if-Gives (ltb top distance) fail-Gives
      (if-Gives (top == distance) crash-Gives (return-Keeps (top - 1 - distance)))

pub peek-Keeps : (distance : ℕ) → Keeps (peek distance)
unfolding peek
peek-Keeps distance = bind-Keeps (peek_index-Keeps distance) slot-Keeps

pub set_peek-Keeps : (distance : ℕ) (v : Value) → Keeps (set_peek distance v)
unfolding set_peek
set_peek-Keeps distance v = bind-Keeps (peek_index-Keeps distance) λ i. set_slot-Keeps i v

pub set_below-Keeps : (distance : ℕ) (v : Value) → Keeps (set_below distance v)
unfolding set_below
set_below-Keeps distance v =
    bind-Gives stack_top-Gives
      λ top h. if-Gives (leb top distance) crash-Gives (set_slot-Keeps (top - 1 - distance) v)
