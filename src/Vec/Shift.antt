-- ===== src/Vec/Shift.antt =====
-- src/vec.c: `vec_insert` as an operation on lists, by what the moves do cell by cell.
use joker_complier.Base.{
  ℕ, zero, suc, ◌+◌, ◌-◌, ◌≤◌, ◌<◌, ◌≡◌, refl, sym, ap, ◌∙◌, true, false, ◌&&◌, some, List, [], ◌∷◌,
  ◌++◌, arith, ok, panic, ltb, leb, ◌==◌, if◌then◌else◌, length, get_elem?, set, take, drop,
  length-append, length-set, length-take, length-drop, get_elem?-lt, get_elem?-set, get_elem?_total,
  Bool-cases, inl, inr,
}
use mathlib.Core.Path.{subst}
use joker_complier.Memory.{Block, load, store}
use joker_complier.Memory.Stores.{Stores, nothing, item, store-ok, get_elem?-Stores}
use joker_complier.Vec.{Vec, vec_insert, shift_up}
use joker_complier.Vec.Holds.{HoldsVec, vec_reserve-HoldsVec, push_cell-HoldsVec}

module _ {V : Type 0} where
  -- A cell that has been written.
  abbrev pub Wrote : Block V → ℕ → Type 0
  Wrote b j = (y : V) × (get_elem? b j ≡ some (some y))

  pub load-Wrote : (b : Block V) (j : ℕ) (y : V) → get_elem? b j ≡ some (some y) → load b j ≡ ok y
  unfolding load
  load-Wrote b j y e = rw (e, load)

  pub Wrote-set :
      (b : Block V) (i j : ℕ) (y : V) → i < length b → Wrote b j → Wrote (set b i (some y)) j
  Wrote-set b i j y lt (z, e) = elim (Bool-cases (i == j)) [
    | inl here ↦ (y, get_elem?-set b i j (some y) lt ∙ rw here)
    | inr there ↦ (z, get_elem?-set b i j (some y) lt ∙ rw there e)
  ]

  -- One more cell moved, seen at an index `j`.
  moved :
      (j : ℕ) (b b' : Block V) (i : ℕ) (y : V) (index : ℕ)
      → suc i < length b
      → ltb index (suc i) ≡ true
      → get_elem? b i ≡ some (some y)
      → get_elem? b' j ≡ (
          if ltb index j && leb j i
          then get_elem? (set b (suc i) (some y)) (j - 1)
          else get_elem? (set b (suc i) (some y)) j)
      → get_elem? b' j
        ≡ (if ltb index j && leb j (suc i) then get_elem? b (j - 1) else get_elem? b j)
  moved j b b' i y index lt above e cell = elim (Bool-cases (suc i == j)) [
    | inl top ↦
        let at : j ≡ suc i = ground arith in
        let before : j - 1 ≡ i = omega arith in
        let this : (ltb index j && leb j i) ≡ false = ground arith in
        let that : (ltb index j && leb j (suc i)) ≡ true = ground arith in
        rw (cell, this, get_elem?-set b (suc i) j (some y) lt, top, that, before, e)
    | inr other ↦ ground (
      arith,
      cell,
      get_elem?-set b (suc i) j (some y) lt,
      get_elem?-set b (suc i) (j - 1) (some y) lt,
    )
  ]

  shift_up-cells :
      (b : Block V) (index i : ℕ)
      → ((j : ℕ) → j < i → Wrote b j)
      → i < length b
      → (b' : Block V) × (shift_up b index i ≡ ok b')
        × (length b' ≡ length b)
        × ((j : ℕ)
            → get_elem? b' j
              ≡ (if ltb index j && leb j i then get_elem? b (j - 1) else get_elem? b j))
  unfolding shift_up
  shift_up-cells b index zero wrote lt = (b, refl, refl, λ j. ground arith)
  shift_up-cells b index (suc i) wrote lt = elim (Bool-cases (ltb index (suc i))) [
    | inl above ↦
        let (y, e) = wrote i (omega arith) in
        let b₁ = set b (suc i) (some y) in
        let (b', e', size, cells) =
          shift_up-cells b₁ index i (λ j lt'. Wrote-set b (suc i) j y lt (wrote j (omega arith)))
            (omega (arith, length-set b (suc i) (some y))) in
        (
          b',
          rw (above, load-Wrote b i y e, store-ok b (suc i) y lt, e'),
          omega (arith, length-set b (suc i) (some y)),
          λ j. moved j b b' i y index lt above e (cells j),
        )
    | inr below ↦ (b, rw below, refl, λ j. ground arith)
  ]

  -- A block stores a list as soon as each of its items is in its cell.
  pub Stores-cells :
      (b : Block V) (xs : List V)
      → ((j : ℕ) (y : V) → get_elem? xs j ≡ some y → get_elem? b j ≡ some (some y))
      → Stores b xs
  Stores-cells b [] cells = nothing
  Stores-cells [] (x ∷ xs) cells = let e = cells 0 x refl in absurd cc
  Stores-cells (c ∷ b) (x ∷ xs) cells =
      let e : c ≡ some x = let e' = cells 0 x refl in cc in
      rw e (item (Stores-cells b xs (λ j y e'. cells (suc j) y e')))

  abbrev pub insert_at : List V → ℕ → V → List V
  insert_at xs index x = take index xs ++ x ∷ drop index xs

  length-insert_at :
      (xs : List V) (index : ℕ) (x : V)
      → index ≤ length xs
      → length (insert_at xs index x) ≡ suc (length xs)
  length-insert_at xs index x h = omega (
    arith,
    length-append (take index xs) (x ∷ drop index xs),
    length-take index xs,
    length-drop index xs,
  )

  get_elem?-insert_at :
      (xs : List V) (index j : ℕ) (x : V)
      → index ≤ length xs
      → get_elem? (insert_at xs index x) j ≡ (
          if ltb j index
          then get_elem? xs j
          else if j == index
          then some x
          else get_elem? xs (j - 1))
  get_elem?-insert_at xs zero zero x h = refl
  get_elem?-insert_at xs zero (suc j) x h = ground arith
  get_elem?-insert_at [] (suc index) j x h = absurd (omega arith)
  get_elem?-insert_at (z ∷ xs) (suc index) zero x h = ground arith
  get_elem?-insert_at (z ∷ xs) (suc index) (suc j) x h =
      ground (arith, get_elem?-insert_at xs index j x (omega arith))

  -- The cells after the move and the write.
  inserted-Stores :
      (b b' : Block V) (xs : List V) (index : ℕ) (x : V)
      → Stores b xs
      → index ≤ length xs
      → length xs < length b'
      → ((j : ℕ)
          → get_elem? b' j
            ≡ (if ltb index j && leb j (length xs) then get_elem? b (j - 1) else get_elem? b j))
      → Stores (set b' index (some x)) (insert_at xs index x)
  inserted-Stores b b' xs index x stored h room cells =
      Stores-cells (set b' index (some x)) (insert_at xs index x)
        (λ j y e. cell_of j y (sym (get_elem?-insert_at xs index j x h) ∙ e))
    where
      cell_of :
          (j : ℕ) (y : V)
          → (if ltb j index
              then get_elem? xs j
              else if j == index
              then some x
              else get_elem? xs (j - 1))
            ≡ some y
          → get_elem? (set b' index (some x)) j ≡ some (some y)
      cell_of j y e =
          let written = get_elem?-set b' index j (some x) (omega arith) in
          elim (Bool-cases (ltb j index)) [
            | inl before ↦
                let apart : (index == j) ≡ false = ground arith in
                let stays : (ltb index j && leb j (length xs)) ≡ false = ground arith in
                written ∙ rw (apart, cells j, stays) (get_elem?-Stores j y stored (rw before at e))
            | inr after ↦ elim (Bool-cases (j == index)) [
              | inl here ↦
                  let same : (index == j) ≡ true = ground arith in
                  let value : some x ≡ some y = rw (after, here) at e in
                  written ∙ rw same (ap some value)
              | inr there ↦
                  let old : get_elem? xs (j - 1) ≡ some y = rw (after, there) at e in
                  let within = get_elem?-lt xs (j - 1) y old in
                  let apart : (index == j) ≡ false = ground arith in
                  let moves : (ltb index j && leb j (length xs)) ≡ true = ground arith in
                  written ∙ rw (apart, cells j, moves) (get_elem?-Stores (j - 1) y stored old)
            ]
          ]

  insert_at_end : (xs : List V) (x : V) → insert_at xs (length xs) x ≡ xs ++ x ∷ []
  insert_at_end [] x = refl
  insert_at_end (y ∷ xs) x = ap (◌∷◌ y) (insert_at_end xs x)

  pub Stores-Wrote : (b : Block V) (xs : List V) → Stores b xs → (j : ℕ) → j < length xs → Wrote b j
  Stores-Wrote b xs stored j lt =
      let (y, e) = get_elem?_total xs j lt in (y, get_elem?-Stores j y stored e)

  -- The branch of `vec_insert` that moves cells, in a vector with room.
  insert_moved :
      (r : Vec V) (xs : List V) (index : ℕ) (x : V)
      → HoldsVec r xs
      → length xs < length r.cells
      → index ≤ length xs
      → (cells cells' : Block V) × (shift_up r.cells index (length xs) ≡ ok cells)
        × (store cells index x ≡ ok cells')
        × HoldsVec (record { cells = cells'; finish = r.finish + 1 }) (insert_at xs index x)
  insert_moved r xs index x hr room le =
      let (cells, e, size, moves) =
        shift_up-cells r.cells index (length xs) (Stores-Wrote r.cells xs hr.array.stored) room in
      (
        cells,
        set cells index (some x),
        e,
        store-ok cells index x (omega arith),
        record {
          array = record {
            stored =
                inserted-Stores r.cells cells xs index x hr.array.stored le (omega arith) moves;
            within = omega (arith, length-insert_at xs index x le, length-set cells index (some x));
            allocated = omega arith;
          };
          counted = omega (arith, hr.counted, length-insert_at xs index x le);
        },
      )

-- `vec_insert` at an index up to the length ends, with growth where the vector is full, and the
-- vector holds the list with the new value at this index; past the length it panics.
pub vec_insert-HoldsVec :
    (v : Vec ℕ) (xs : List ℕ) (index x : ℕ)
    → HoldsVec v xs
    → (index ≤ length xs
        → (v' : Vec ℕ) × (vec_insert v index x ≡ ok v') × HoldsVec v' (insert_at xs index x))
      × (length xs < index → vec_insert v index x ≡ panic)
unfolding vec_insert
vec_insert-HoldsVec v xs index x h =
    (inside, λ past. let out : ltb v.finish index ≡ true = ground (arith, h.counted) in rw out)
  where
    inside :
        index ≤ length xs
        → (v' : Vec ℕ) × (vec_insert v index x ≡ ok v') × HoldsVec v' (insert_at xs index x)
    inside le =
        let within : ltb v.finish index ≡ false = ground (arith, h.counted) in
        let (r, e, hr, room, same) = vec_reserve-HoldsVec v xs h in
        elim (Bool-cases (index == v.finish)) [
          | inl end ↦
              let at : length xs ≡ index = ground (arith, h.counted) in
              let (v', e', h') = push_cell-HoldsVec r xs x hr room in
              let h'' : HoldsVec v' (insert_at xs index x) =
                subst (λ i. HoldsVec v' (insert_at xs i x)) at
                  (subst (HoldsVec v') (sym (insert_at_end xs x)) h') in
              (v', rw (within, e, end, e'), h'')
          | inr before ↦
              let (cells, cells', e₁, e₂, h') = insert_moved r xs index x hr room le in
              let e₁' : shift_up r.cells index v.finish ≡ ok cells =
                ap (shift_up r.cells index) h.counted ∙ e₁ in
              (
                record { cells = cells'; finish = r.finish + 1 },
                rw (within, e, before, e₁', e₂),
                h',
              )
        ]
