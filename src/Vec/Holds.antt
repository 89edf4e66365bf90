-- ===== src/Vec/Holds.antt =====
-- src/vec.c: a vector holds a list. Growth, push, pop and get.
use joker_complier.Base.{
  ℕ, zero, suc, ◌+◌, ◌-◌, ◌≤◌, ◌<◌, ◌≡◌, refl, false, some, List, [], ◌∷◌, ◌++◌, arith, ok, ltb,
  leb, ◌==◌, length, get_elem?, set, length-append, length-set, get_elem?-lt, Bool-cases, inl, inr,
}
use joker_complier.Memory.{Block, reallocate, grow_capacity}
use joker_complier.Memory.Stores.{
  Stores, nothing, item, Array, Array-push, Array-reallocate, load-Stores, store-ok,
  lt-grow_capacity, length-reallocate,
}
use joker_complier.Vec.{
  Vec, capacity_loop, new_vec, vec_resize, vec_reserve, push_cell, vec_push, vec_pop, vec_get,
}

-- The capacity that a vector grows to is enough, and the loop ends.
capacity_loop-enough :
    (fuel capacity min_capacity : ℕ)
    → min_capacity ≤ fuel + capacity
    → (c : ℕ) × (capacity_loop (suc fuel) capacity min_capacity ≡ ok c)
      × (min_capacity ≤ c)
      × (capacity ≤ c)
unfolding capacity_loop
capacity_loop-enough zero capacity min_capacity h =
    let big : ltb capacity min_capacity ≡ false = ground arith in
    (capacity, rw big, omega arith, omega arith)
capacity_loop-enough (suc fuel) capacity min_capacity h =
    elim (Bool-cases (ltb capacity min_capacity)) [
      | inl small ↦
          let more = lt-grow_capacity capacity in
          let (c, e, enough, le) =
            capacity_loop-enough fuel (grow_capacity capacity) min_capacity (omega arith) in
          (c, rw small e, enough, omega arith)
      | inr big ↦ (capacity, rw big, ground arith, omega arith)
    ]

module _ {ℓ} {V : Type ℓ} where
  -- The first cells of the vector are `xs`, and its length is theirs.
  pub record HoldsVec (v : Vec V) (xs : List V) : Type ℓ where
    pub array : Array (length v.cells) v.cells xs
    pub counted : v.finish ≡ length xs

  pub new_vec-HoldsVec : HoldsVec new_vec []
  unfolding new_vec
  new_vec-HoldsVec = record {
    array = record { stored = nothing; within = omega arith; allocated = omega arith };
    counted = refl;
  }

  pub vec_resize-HoldsVec :
      (v : Vec V) (xs : List V) (min_capacity : ℕ)
      → HoldsVec v xs
      → (v' : Vec V) × (vec_resize v min_capacity ≡ ok v')
        × HoldsVec v' xs
        × (min_capacity ≤ length v'.cells)
        × (v'.finish ≡ v.finish)
  unfolding vec_resize
  vec_resize-HoldsVec v xs min_capacity h =
      let bigger = lt-grow_capacity (length v.cells) in
      let (c, e, enough, le) =
        capacity_loop-enough min_capacity (grow_capacity (length v.cells)) min_capacity
          (omega arith) in
      let size = length-reallocate c v.cells in
      let array = Array-reallocate c h.array (omega arith) in
      (
        record v { cells = reallocate c v.cells },
        rw e,
        record {
          array = record {
            stored = array.stored;
            within = omega (arith, array.within);
            allocated = omega arith;
          };
          counted = h.counted;
        },
        omega arith,
        refl,
      )

  pub vec_reserve-HoldsVec :
      (v : Vec V) (xs : List V)
      → HoldsVec v xs
      → (v' : Vec V) × (vec_reserve v ≡ ok v')
        × HoldsVec v' xs
        × (length xs < length v'.cells)
        × (v'.finish ≡ v.finish)
  unfolding vec_reserve
  vec_reserve-HoldsVec v xs h = elim (Bool-cases (v.finish == length v.cells)) [
    | inl full ↦
        let (v', e, h', room, same) = vec_resize-HoldsVec v xs (v.finish + 1) h in
        (v', rw full e, h', omega (arith, h.counted), same)
    | inr free ↦ (v, rw free, h, ground (arith, h.counted, h.array.within), refl)
  ]

  pub push_cell-HoldsVec :
      (v : Vec V) (xs : List V) (x : V)
      → HoldsVec v xs
      → length xs < length v.cells
      → (v' : Vec V) × (push_cell v x ≡ ok v') × HoldsVec v' (xs ++ x ∷ [])
  unfolding push_cell
  push_cell-HoldsVec v xs x h room =
      let array = Array-push x h.array room in
      (
        record { cells = set v.cells v.finish (some x); finish = v.finish + 1 },
        rw (store-ok v.cells v.finish x (omega (arith, h.counted))),
        record {
          array = rw h.counted (record {
            stored = array.stored;
            within =
                omega (arith, length-append xs (x ∷ []), length-set v.cells (length xs) (some x));
            allocated = omega arith;
          });
          counted = omega (arith, h.counted, length-append xs (x ∷ []));
        },
      )

  pub vec_push-HoldsVec :
      (v : Vec V) (xs : List V) (x : V)
      → HoldsVec v xs
      → (v' : Vec V) × (vec_push v x ≡ ok v') × HoldsVec v' (xs ++ x ∷ [])
  unfolding vec_push
  vec_push-HoldsVec v xs x h =
      let (r, e, hr, room, _) = vec_reserve-HoldsVec v xs h in
      let (v', e', h') = push_cell-HoldsVec r xs x hr room in (v', rw (e, e'), h')

  pub vec_get-HoldsVec :
      (v : Vec V) (xs : List V) (i : ℕ) (x : V)
      → HoldsVec v xs
      → get_elem? xs i ≡ some x
      → vec_get v i ≡ ok x
  unfolding vec_get
  vec_get-HoldsVec v xs i x h e =
      let lt = get_elem?-lt xs i x e in
      let within : leb v.finish i ≡ false = ground (arith, h.counted) in
      rw (within, load-Stores i x h.array.stored e)

  Stores-front : (b : Block V) (xs ys : List V) → Stores b (xs ++ ys) → Stores b xs
  Stores-front b [] ys s = nothing
  Stores-front [] (x ∷ xs) ys s = elim s [ ]
  Stores-front (c ∷ b) (x ∷ xs) ys (item s) = item (Stores-front b xs ys s)

  get_elem?-last : (xs : List V) (x : V) → get_elem? (xs ++ x ∷ []) (length xs) ≡ some x
  get_elem?-last [] x = refl
  get_elem?-last (y ∷ xs) x = get_elem?-last xs x

  vec_pop-HoldsVec :
      (v : Vec V) (xs : List V) (x : V)
      → HoldsVec v (xs ++ x ∷ [])
      → (v' : Vec V) × (vec_pop v ≡ ok (x, v')) × HoldsVec v' xs
  unfolding vec_pop
  vec_pop-HoldsVec v xs x h =
      let size = length-append xs (x ∷ []) in
      let last : v.finish - 1 ≡ length xs = omega (arith, h.counted) in
      let some_left : (v.finish == 0) ≡ false = ground (arith, h.counted) in
      (
        record v { finish = v.finish - 1 },
        rw (some_left, last, load-Stores (length xs) x h.array.stored (get_elem?-last xs x)),
        record {
          array = record {
            stored = Stores-front v.cells xs (x ∷ []) h.array.stored;
            within = omega (arith, h.array.within);
            allocated = omega arith;
          };
          counted = last;
        },
      )

-- A push on a vector that holds `xs` ends, with growth where it is full. The vector then answers
-- each of `xs` at its index and the new value behind them, and a pop gives the new value and leaves
-- a vector that holds `xs`.
pub vec_push-vec_pop :
    (v : Vec ℕ) (xs : List ℕ) (x : ℕ)
    → HoldsVec v xs
    → (v' : Vec ℕ) × (vec_push v x ≡ ok v')
      × ((i y : ℕ) → get_elem? (xs ++ x ∷ []) i ≡ some y → vec_get v' i ≡ ok y)
      × ((v'' : Vec ℕ) × (vec_pop v' ≡ ok (x, v'')) × HoldsVec v'' xs)
vec_push-vec_pop v xs x h =
    let (v', e, h') = vec_push-HoldsVec v xs x h in
    (v', e, (λ i y. vec_get-HoldsVec v' (xs ++ x ∷ []) i y h'), vec_pop-HoldsVec v' xs x h')
