-- ===== src/Vec/Remove.antt =====
-- src/vec.c: `vec_remove` as an operation on lists.
use joker_complier.Base.{
  ℕ, zero, suc, ◌+◌, ◌-◌, ◌≤◌, ◌<◌, ◌≡◌, refl, sym, ap, ◌∙◌, true, false, ◌&&◌, some, List, [], ◌∷◌,
  ◌++◌, arith, ok, panic, ltb, leb, ◌==◌, if◌then◌else◌, length, get_elem?, set, take, drop,
  length-append, length-set, length-take, length-drop, get_elem?-lt, get_elem?-set, Bool-cases, inl,
  inr,
}
use joker_complier.Memory.{Block}
use joker_complier.Memory.Stores.{Stores, store-ok, get_elem?-Stores}
use joker_complier.Vec.{Vec, vec_remove, shift_down}
use joker_complier.Vec.Holds.{HoldsVec}
use joker_complier.Vec.Shift.{Wrote, load-Wrote, Wrote-set, Stores-cells, Stores-Wrote}

module _ {V : Type 0} where
  -- One more cell moved down, seen at an index `j`.
  moved_down :
      (j : ℕ) (b b' : Block V) (i rounds : ℕ) (y : V)
      → i < length b
      → get_elem? b (i + 1) ≡ some (some y)
      → get_elem? b' j ≡ (
          if leb (i + 1) j && ltb j (i + 1 + rounds)
          then get_elem? (set b i (some y)) (j + 1)
          else get_elem? (set b i (some y)) j)
      → get_elem? b' j
        ≡ (if leb i j && ltb j (i + suc rounds) then get_elem? b (j + 1) else get_elem? b j)
  moved_down j b b' i rounds y lt e cell = elim (Bool-cases (i == j)) [
    | inl here ↦
        let at : j ≡ i = ground arith in
        let this : (leb (i + 1) j && ltb j (i + 1 + rounds)) ≡ false = ground arith in
        let that : (leb i j && ltb j (i + suc rounds)) ≡ true = ground arith in
        let next : get_elem? b (j + 1) ≡ some (some y) = ap (λ k. get_elem? b (k + 1)) at ∙ e in
        rw (cell, this, get_elem?-set b i j (some y) lt, here, that, next)
    | inr other ↦
        ground (arith, cell, get_elem?-set b i j (some y) lt, get_elem?-set b i (j + 1) (some y) lt)
  ]

  shift_down-cells :
      (b : Block V) (i rounds : ℕ)
      → ((j : ℕ) → j ≤ i + rounds → Wrote b j)
      → i + rounds < length b
      → (b' : Block V) × (shift_down b i rounds ≡ ok b')
        × (length b' ≡ length b)
        × ((j : ℕ)
            → get_elem? b' j
              ≡ (if leb i j && ltb j (i + rounds) then get_elem? b (j + 1) else get_elem? b j))
  unfolding shift_down
  shift_down-cells b i zero wrote lt = (b, refl, refl, λ j. ground arith)
  shift_down-cells b i (suc rounds) wrote lt =
      let (y, e) = wrote (i + 1) (omega arith) in
      let b₁ = set b i (some y) in
      let (b', e', size, cells) =
        shift_down-cells b₁ (i + 1) rounds
          (λ j le. Wrote-set b i j y (omega arith) (wrote j (omega arith)))
          (omega (arith, length-set b i (some y))) in
      (
        b',
        rw (load-Wrote b (i + 1) y e, store-ok b i y (omega arith), e'),
        omega (arith, length-set b i (some y)),
        λ j. moved_down j b b' i rounds y (omega arith) e (cells j),
      )

  abbrev pub remove_at : List V → ℕ → List V
  remove_at xs index = take index xs ++ drop (suc index) xs

  length-remove_at :
      (xs : List V) (index : ℕ) → index < length xs → length (remove_at xs index) ≡ length xs - 1
  length-remove_at xs index h = omega (
    arith,
    length-append (take index xs) (drop (suc index) xs),
    length-take index xs,
    length-drop (suc index) xs,
  )

  get_elem?-remove_at :
      (xs : List V) (index j : ℕ)
      → index < length xs
      → get_elem? (remove_at xs index) j
        ≡ (if ltb j index then get_elem? xs j else get_elem? xs (j + 1))
  get_elem?-remove_at [] index j h = absurd (omega arith)
  get_elem?-remove_at (z ∷ xs) zero j h =
      let same : j + 1 ≡ suc j = omega arith in
      let test : ltb j 0 ≡ false = ground arith in rw (same, test)
  get_elem?-remove_at (z ∷ xs) (suc index) zero h = ground arith
  get_elem?-remove_at (z ∷ xs) (suc index) (suc j) h =
      ground (arith, get_elem?-remove_at xs index j (omega arith))

  removed-Stores :
      (b b' : Block V) (xs : List V) (index : ℕ)
      → Stores b xs
      → index < length xs
      → ((j : ℕ)
          → get_elem? b' j ≡ (
              if leb index j && ltb j (index + (length xs - 1 - index))
              then get_elem? b (j + 1)
              else get_elem? b j))
      → Stores b' (remove_at xs index)
  removed-Stores b b' xs index stored h cells =
      Stores-cells b' (remove_at xs index)
        (λ j y e. cell_of j y (sym (get_elem?-remove_at xs index j h) ∙ e))
    where
      cell_of :
          (j : ℕ) (y : V)
          → (if ltb j index then get_elem? xs j else get_elem? xs (j + 1)) ≡ some y
          → get_elem? b' j ≡ some (some y)
      cell_of j y e = elim (Bool-cases (ltb j index)) [
        | inl before ↦
            let stays : (leb index j && ltb j (index + (length xs - 1 - index))) ≡ false =
              ground arith in
            rw (cells j, stays) (get_elem?-Stores j y stored (rw before at e))
        | inr after ↦
            let old : get_elem? xs (j + 1) ≡ some y = rw after at e in
            let within = get_elem?-lt xs (j + 1) y old in
            let moves : (leb index j && ltb j (index + (length xs - 1 - index))) ≡ true =
              ground arith in
            rw (cells j, moves) (get_elem?-Stores (j + 1) y stored old)
      ]

-- `vec_remove` at an index below the length ends, and the vector holds the list without the value at
-- this index; at any other index it panics.
pub vec_remove-HoldsVec :
    (v : Vec ℕ) (xs : List ℕ) (index : ℕ)
    → HoldsVec v xs
    → (index < length xs
        → (v' : Vec ℕ) × (vec_remove v index ≡ ok v') × HoldsVec v' (remove_at xs index))
      × (length xs ≤ index → vec_remove v index ≡ panic)
unfolding vec_remove
vec_remove-HoldsVec v xs index h =
    (inside, λ past. let out : leb v.finish index ≡ true = ground (arith, h.counted) in rw out)
  where
    inside :
        index < length xs
        → (v' : Vec ℕ) × (vec_remove v index ≡ ok v') × HoldsVec v' (remove_at xs index)
    inside lt =
        let within : leb v.finish index ≡ false = ground (arith, h.counted) in
        let room = h.array.within in
        let (cells, e, size, moves) =
          shift_down-cells v.cells index (length xs - 1 - index)
            (λ j le. Stores-Wrote v.cells xs h.array.stored j (omega arith)) (omega arith) in
        let e' : shift_down v.cells index (v.finish - 1 - index) ≡ ok cells =
          ap (λ n. shift_down v.cells index (n - 1 - index)) h.counted ∙ e in
        (
          record { cells = cells; finish = v.finish - 1 },
          rw (within, e'),
          record {
            array = record {
              stored = removed-Stores v.cells cells xs index h.array.stored lt moves;
              within = omega (arith, length-remove_at xs index lt);
              allocated = omega arith;
            };
            counted = omega (arith, h.counted, length-remove_at xs index lt);
          },
        )
