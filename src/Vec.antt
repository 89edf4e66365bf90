-- ===== src/Vec.antt =====
-- include/vec.h and src/vec.c: the growable vector. `cells` is the block from `start` to `end`, empty
-- where `start` is NULL, and `finish` is an index into it.
pub mod Holds
pub mod Shift
pub mod Remove
mod Tests
use joker_complier.Base.{
  ℕ, zero, suc, ◌+◌, ◌-◌, ◌/◌, Bool, true, false, not, [], Outcome, ok, panic, out_of_fuel, ◌>>=◌,
  ltb, leb, ◌==◌, if◌then◌else◌, length,
}
use joker_complier.Memory.{Block, grow_capacity, reallocate, load, store}

pub record Vec {ℓ} (V : Type ℓ) : Type ℓ where
  pub cells : Block V
  pub finish : ℕ

-- `while (new_capacity < min_capacity)` of `vec_resize`, on fuel.
unfoldable pub capacity_loop : ℕ → ℕ → ℕ → Outcome ℕ
capacity_loop zero new_capacity min_capacity = out_of_fuel
capacity_loop (suc fuel) new_capacity min_capacity =
    let rest = capacity_loop fuel (grow_capacity new_capacity) min_capacity in
    if ltb new_capacity min_capacity then rest else ok new_capacity

module _ {ℓ} {V : Type ℓ} where
  unfoldable pub new_vec : Vec V
  new_vec = record { cells = []; finish = 0 }

  unfoldable pub new_vec_with_capacity : ℕ → Vec V
  new_vec_with_capacity capacity = record { cells = reallocate capacity []; finish = 0 }

  abbrev pub vec_capacity : Vec V → ℕ
  vec_capacity vec = length vec.cells

  abbrev pub vec_len : Vec V → ℕ
  vec_len vec = vec.finish

  -- Enough rounds: each one makes the capacity greater.
  unfoldable pub vec_resize : Vec V → ℕ → Outcome (Vec V)
  vec_resize vec min_capacity = do
    capacity ← capacity_loop (suc min_capacity) (grow_capacity (vec_capacity vec)) min_capacity
    ok (record vec { cells = reallocate capacity vec.cells })

  -- `if (length == capacity) vec_resize(vec, length + 1)`
  unfoldable pub vec_reserve : Vec V → Outcome (Vec V)
  vec_reserve vec =
      let grown = vec_resize vec (vec_len vec + 1) in
      if vec_len vec == vec_capacity vec then grown else ok vec

  -- `*vec->finish++ = element`
  unfoldable pub push_cell : Vec V → V → Outcome (Vec V)
  push_cell vec element = do
    cells ← store vec.cells vec.finish element
    ok (record { cells = cells; finish = vec.finish + 1 })

  unfoldable pub vec_push : Vec V → V → Outcome (Vec V)
  vec_push vec element = do roomy ← vec_reserve vec; push_cell roomy element

  abbrev pub vec_is_empty : Vec V → Bool
  vec_is_empty vec = vec.finish == 0

  unfoldable pub vec_pop : Vec V → Outcome (V × Vec V)
  vec_pop vec =
      let popped =
        load vec.cells (vec.finish - 1) >>= λ x. ok (x, record vec { finish = vec.finish - 1 }) in
      if vec_is_empty vec then panic else popped

  unfoldable pub vec_first : Vec V → Outcome V
  vec_first vec = if vec_is_empty vec then panic else load vec.cells 0

  unfoldable pub vec_last : Vec V → Outcome V
  vec_last vec = if vec_is_empty vec then panic else load vec.cells (vec.finish - 1)

  unfoldable pub vec_get : Vec V → ℕ → Outcome V
  vec_get vec index = if leb (vec_len vec) index then panic else load vec.cells index

  unfoldable pub vec_set : Vec V → ℕ → V → Outcome (Vec V)
  vec_set vec index element =
      let written = store vec.cells index element >>= λ cells. ok (record vec { cells = cells }) in
      if leb (vec_len vec) index then panic else written

  -- `for (i = length; i > index; i--) start[i] = start[i - 1];`
  unfoldable pub shift_up : Block V → ℕ → ℕ → Outcome (Block V)
  shift_up cells index zero = ok cells
  shift_up cells index (suc i) =
      let moved = (do x ← load cells i; cells' ← store cells (suc i) x; shift_up cells' index i) in
      if ltb index (suc i) then moved else ok cells

  unfoldable pub vec_insert : Vec V → ℕ → V → Outcome (Vec V)
  vec_insert vec index element =
      let inserted = (do
        roomy ← vec_reserve vec
        let shifted = do
          cells ← shift_up roomy.cells index (vec_len vec)
          cells' ← store cells index element
          ok (record { cells = cells'; finish = roomy.finish + 1 })
        if index == vec_len vec then push_cell roomy element else shifted) in
      if ltb (vec_len vec) index then panic else inserted

  -- `for (i = index; i < length - 1; i++) start[i] = start[i + 1];` with `rounds` left.
  unfoldable pub shift_down : Block V → ℕ → ℕ → Outcome (Block V)
  shift_down cells i zero = ok cells
  shift_down cells i (suc rounds) = do
    x ← load cells (i + 1)
    cells' ← store cells i x
    shift_down cells' (i + 1) rounds

  unfoldable pub vec_remove : Vec V → ℕ → Outcome (Vec V)
  vec_remove vec index =
      let removed = shift_down vec.cells index (vec_len vec - 1 - index) >>= λ cells.
      ok (record { cells = cells; finish = vec.finish - 1 }) in
      if leb (vec_len vec) index then panic else removed

  -- `memcpy(vec->finish, other->start, len_o)` with `rounds` cells left, from `i` to `j`.
  unfoldable pub copy_cells : Block V → Block V → ℕ → ℕ → ℕ → Outcome (Block V)
  copy_cells from to i j zero = ok to
  copy_cells from to i j (suc rounds) = do
    x ← load from i
    to' ← store to j x
    copy_cells from to' (i + 1) (j + 1) rounds

  unfoldable pub vec_extend : Vec V → Vec V → Outcome (Vec V)
  vec_extend vec other =
      let required = vec_len vec + vec_len other in
      let resized = vec_resize vec required in
      let extended = (do
        roomy ← (if ltb (vec_capacity vec) required then resized else ok vec)
        cells ← copy_cells other.cells roomy.cells 0 roomy.finish (vec_len other)
        ok (record { cells = cells; finish = roomy.finish + vec_len other })) in
      if vec_is_empty other then ok vec else extended

  unfoldable pub vec_clear : Vec V → Vec V
  vec_clear vec = record vec { finish = 0 }

  -- The loop of `vec_reverse` with `rounds` swaps left.
  unfoldable pub swap_loop : Block V → ℕ → ℕ → ℕ → Outcome (Block V)
  swap_loop cells size i zero = ok cells
  swap_loop cells size i (suc rounds) = do
    x ← load cells i
    y ← load cells (size - i - 1)
    cells₁ ← store cells i y
    cells₂ ← store cells₁ (size - i - 1) x
    swap_loop cells₂ size (i + 1) rounds

  unfoldable pub vec_reverse : Vec V → Outcome (Vec V)
  vec_reverse vec = do
    cells ← swap_loop vec.cells (vec_len vec) 0 (vec_len vec / 2)
    ok (record vec { cells = cells })

  -- The loop of `vec_equal`, over vectors of one length, with `rounds` left.
  unfoldable pub equal_loop : (V → V → Bool) → Block V → Block V → ℕ → ℕ → Outcome Bool
  equal_loop equal left right i zero = ok true
  equal_loop equal left right i (suc rounds) = do
    x ← load left i
    y ← load right i
    let rest = equal_loop equal left right (i + 1) rounds
    if equal x y then rest else ok false

  unfoldable pub vec_equal : (V → V → Bool) → Vec V → Vec V → Outcome Bool
  vec_equal equal left right =
      let loop = equal_loop equal left.cells right.cells 0 (vec_len left) in
      if vec_len left == vec_len right then loop else ok false
