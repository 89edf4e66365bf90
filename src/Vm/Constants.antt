-- ===== src/Vm/Constants.antt =====
-- A constant that `write_constant` of src/chunk.c emits is the one that `run` of src/vm.c loads.
use mathlib.Core.List.{map-append}
use joker_complier.Base.{
  ℕ, ◌+◌, ◌-◌, ◌*◌, ◌/◌, ◌%◌, ◌^◌, ◌<◌, ◌≡◌, refl, ap, ◌∙◌, false, some, List, [], ◌∷◌, ◌++◌, map,
  arith, Outcome, ok, panic, undefined, out_of_fuel, ◌>>=◌, ltb, lt→ltb, leb, if◌then◌else◌, length,
  get_elem?, length-append, get_elem?-append, get_elem?-lt, length-map, Bool-cases, inl, inr,
}
use joker_complier.Memory.{load}
use joker_complier.Memory.Stores.{Array, push_back-Array, load-Stores}
use joker_complier.Chunk.{
  Values, Chunk, write_value_array, add_constant, write_constant, op_constant, op_constant_long,
}
use joker_complier.Chunk.Write.{
  HoldsChunk, Answers, write_codes, write_codes-HoldsChunk, HoldsChunk-Answers, codes,
}
use joker_complier.Vm.Fetch.{
  read_byte, read_byte_long, read_constant, read_constant_long, run_constant,
}

-- The bytes that `write_constant` emits for the constant at `index`.
pub constant_code : ℕ → List ℕ
constant_code index =
    if ltb index 255
    then op_constant ∷ index % 2 ^ 8 ∷ []
    else op_constant_long ∷ (index / 2 ^ 8 % 2 ^ 8) ∷ (index % 2 ^ 8) ∷ []

bind_ok {ℓ} : {A : Type ℓ} (m : Outcome A) → (m >>= λ x. ok x) ≡ m
bind_ok (ok x) = refl
bind_ok panic = refl
bind_ok undefined = refl
bind_ok out_of_fuel = refl

module _ {ℓ} {V : Type ℓ} where
  -- The pool holds the constants `vs`.
  pub record HoldsValues (pool : Values V) (vs : List V) : Type ℓ where
    pub array : Array pool.capacity pool.values vs
    pub counted : pool.count ≡ length vs

  write_value_array-HoldsValues :
      (pool : Values V) (vs : List V) (v : V)
      → HoldsValues pool vs
      → (pool' : Values V) × (write_value_array pool v ≡ ok pool')
        × HoldsValues pool' (vs ++ v ∷ [])
  unfolding write_value_array
  write_value_array-HoldsValues pool vs v h =
      let (c, b, pushed, array, _) = push_back-Array v h.array in
      (
        record { count = pool.count + 1; capacity = c; values = b },
        rw (h.counted, pushed),
        record { array = array; counted = omega (arith, h.counted, length-append vs (v ∷ [])) },
      )

  get_elem?-snoc : (xs : List V) (x : V) → get_elem? (xs ++ x ∷ []) (length xs) ≡ some x
  get_elem?-snoc [] x = refl
  get_elem?-snoc (y ∷ xs) x = get_elem?-snoc xs x

  write_constant-codes :
      (c : Chunk V) (pool' : Values V) (vs : List V) (v : V) (line : ℕ)
      → HoldsValues c.constants vs
      → length vs < 65535
      → write_value_array c.constants v ≡ ok pool'
      → HoldsValues pool' (vs ++ v ∷ [])
      → write_constant c v line
        ≡ write_codes
            (record c { constants = pool' })
            (map (λ b. (b, line)) (constant_code (length vs)))
  unfolding write_constant add_constant write_codes constant_code
  write_constant-codes c pool' vs v line h lt e h' =
      let index : pool'.count - 1 ≡ length vs =
        omega (arith, h'.counted, length-append vs (v ∷ [])) in
      let room : leb (2 ^ 31 - 1) c.constants.count ≡ false = ground (arith, h.counted) in
      rw (room, e, index)
        (elim (Bool-cases (ltb (length vs) 255)) [
          | inl short ↦ simp (short, bind_ok)
          | inr long ↦ simp (long, lt→ltb _ _ lt, bind_ok)
        ])

  -- `run` on the bytes that stand for the constant at `index`, wherever they stand in the code.
  run_constant-code :
      (c : Chunk V) (ip index : ℕ) (v : V)
      → index < 65535
      → ((k b : ℕ) → get_elem? (constant_code index) k ≡ some b → load c.code (ip + k) ≡ ok b)
      → load c.constants.values index ≡ ok v
      → run_constant c ip ≡ ok (v, ip + length (constant_code index))
  unfolding run_constant read_constant read_constant_long read_byte read_byte_long constant_code
  run_constant-code c ip index v lt at value =
      let here : ip + 0 ≡ ip = omega arith in
      elim (Bool-cases (ltb index 255)) [
        | inl short ↦
            let small : index % 2 ^ 8 ≡ index = ground arith in
            let op : load c.code ip ≡ ok op_constant = rw here at (at 0 op_constant (rw short)) in
            let low : load c.code (ip + 1) ≡ ok (index % 2 ^ 8) = at 1 (index % 2 ^ 8) (rw short) in
            let end : ip + 1 + 1 ≡ ip + 2 = omega arith in rw (short, op, low, small, value, end)
        | inr long ↦
            let op : load c.code ip ≡ ok op_constant_long =
              rw here at (at 0 op_constant_long (rw long)) in
            let high : load c.code (ip + 1) ≡ ok (index / 2 ^ 8 % 2 ^ 8) =
              at 1 (index / 2 ^ 8 % 2 ^ 8) (rw long) in
            let two : ip + 2 ≡ ip + 1 + 1 = omega arith in
            let low : load c.code (ip + 1 + 1) ≡ ok (index % 2 ^ 8) =
              rw two at (at 2 (index % 2 ^ 8) (rw long)) in
            let whole : (index / 2 ^ 8 % 2 ^ 8 * 2 ^ 8 + index % 2 ^ 8) % 2 ^ 16 ≡ index =
              omega arith in
            let end : ip + 1 + 1 + 1 ≡ ip + 3 = omega arith in
            rw (long, op, high, low, whole, value, end)
      ]

codes-map : (line : ℕ) (bs : List ℕ) → codes (map (λ b. (b, line)) bs) ≡ bs
codes-map line [] = refl
codes-map line (b ∷ bs) = ap (◌∷◌ b) (codes-map line bs)

module _ {ℓ} {V : Type ℓ} where
  -- The codes and lines do not depend on the pool.
  HoldsChunk-constants :
      (c : Chunk V) (log : List (ℕ × ℕ)) (pool : Values V)
      → HoldsChunk c log
      → HoldsChunk (record c { constants = pool }) log
  HoldsChunk-constants c log pool h = record {
    code = h.code;
    counted = h.counted;
    lines = h.lines;
    line_count_le = h.line_count_le;
    level = h.level;
    level_is = h.level_is;
    line_level = h.line_level;
    line_level_is = h.line_level_is;
    line_level_le = h.line_level_le;
  }

  -- What is read in a part of the code that is known.
  load-middle :
      (c : Chunk V) (log more : List (ℕ × ℕ)) (k b : ℕ)
      → Answers c (log ++ more)
      → get_elem? (codes more) k ≡ some b
      → load c.code (length log + k) ≡ ok b
  load-middle c log more k b a e = a.code_at (length log + k) b (
      rw (map-append, get_elem?-append, length-map (λ (w : ℕ × ℕ). w.0) log)
        (let past : ltb (length log + k) (length log) ≡ false = ground arith in
          let shift : length log + k - length log ≡ k = omega arith in rw (past, shift) e))

  load-before :
      (c : Chunk V) (log more : List (ℕ × ℕ)) (i b : ℕ)
      → Answers c (log ++ more)
      → get_elem? (codes log) i ≡ some b
      → load c.code i ≡ ok b
  load-before c log more i b a e =
      a.code_at i b
        (rw (map-append, get_elem?-append) (rw (lt→ltb _ _ (get_elem?-lt (codes log) i b e)) e))

-- A constant that `write_constant` adds to a chunk with fewer than 65535 constants is written
-- without undefined behaviour, and `run` at the place where it was emitted loads this constant and
-- goes on behind it. The codes before it stay.
pub write_constant-run_constant :
    (c : Chunk ℕ) (log : List (ℕ × ℕ)) (vs : List ℕ) (v line : ℕ)
    → HoldsChunk c log
    → HoldsValues c.constants vs
    → length vs < 65535
    → (c' : Chunk ℕ) × (write_constant c v line ≡ ok c')
      × (run_constant c' c.count ≡ ok (v, c'.count))
      × ((i b : ℕ) → get_elem? (codes log) i ≡ some b → load c'.code i ≡ ok b)
write_constant-run_constant c log vs v line h hv lt =
    let (pool', e, hv') = write_value_array-HoldsValues c.constants vs v hv in
    let bs = constant_code (length vs) in
    let emitted = map (λ b. (b, line)) bs in
    let (c', written, h', same) =
      write_codes-HoldsChunk (record c { constants = pool' }) log emitted
        (HoldsChunk-constants c log pool' h) in
    let a = HoldsChunk-Answers c' (log ++ emitted) h' in
    let value : load c'.constants.values (length vs) ≡ ok v =
      rw same (load-Stores (length vs) v hv'.array.stored (get_elem?-snoc vs v)) in
    let end : c'.count ≡ c.count + length bs = omega (
      arith,
      a.count,
      h.counted,
      length-append log emitted,
      length-map {B = ℕ × ℕ} (λ b. (b, line)) bs,
    ) in
    (
      c',
      write_constant-codes c pool' vs v line hv lt e hv' ∙ written,
      rw end (
          run_constant-code c' c.count (length vs) v lt
            (λ k b e. rw h.counted (load-middle c' log emitted k b a (rw (codes-map line bs) e)))
            value),
      λ i b e. load-before c' log emitted i b a e,
    )
