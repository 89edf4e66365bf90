-- ===== src/Chunk/Lines.antt =====
-- The line table of src/chunk.c: what `get_rle_line` finds in it, and what `write_chunk` adds.
use joker_complier.Base.{
  ℕ, zero, suc, ◌+◌, ◌-◌, ◌≤◌, ◌<◌, ◌≡◌, ◌≢◌, refl, sym, ap, ◌∙◌, false, Option, none, some, List,
  [], ◌∷◌, ◌++◌, arith, Outcome, ok, panic, ltb, lt→ltb, ◌==◌, length, tests, get_elem?, set,
  replicate, length-append, length-replicate, length-set, get_elem?-append, get_elem?-replicate,
  get_elem?_total, Bool-cases, inl, inr,
}
use mathlib.Core.List.{append_assoc, append-nil}
use native.Mathlib.Numerals.{add-one}
use joker_complier.Memory.{Block, load}
use joker_complier.Memory.Stores.{
  Array, Array-length, Array-set, Grows, push_back-Array, load-Stores, store-ok,
}
use joker_complier.Chunk.{
  RleLine, RleLines, rle_loop, get_rle_line, is_new_line, append_line, extend_line, add_line,
}

abbrev pub entry : ℕ → ℕ → RleLine
entry line count = record { line = line; count = count }

-- The line of each code that a table stands for.
unfoldable pub expand : List RleLine → List ℕ
expand [] = []
expand (r ∷ rs) = replicate r.count r.line ++ expand rs

abbrev pub found : Option ℕ → Outcome ℕ
found none = panic
found (some l) = ok l

-- The loop over the entries `rs`, which stand in the block from index `i` on.
rle_loop-expand :
    (b : Block RleLine) (rs : List RleLine) (i total target : ℕ)
    → ((k : ℕ) (r : RleLine) → get_elem? rs k ≡ some r → load b (i + k) ≡ ok r)
    → total ≤ target
    → rle_loop b (length rs) i total target ≡ found (get_elem? (expand rs) (target - total))
unfolding rle_loop expand
rle_loop-expand b [] i total target h le = refl
rle_loop-expand b (r ∷ rs) i total target h le =
    let at : i + 0 ≡ i = omega arith in
    let first : load b i ≡ ok r = rw at at (h 0 r refl) in
    rw
      (
        first,
        get_elem?-append (replicate r.count r.line) (expand rs) (target - total),
        length-replicate,
      )
      (elim (Bool-cases (ltb target (total + r.count))) [
        | inl here ↦
            let within : target - total < r.count = omega tests in
            rw (here, lt→ltb _ _ within, get_elem?-replicate r.count (target - total) r.line within)
        | inr past ↦
            let beyond : ltb (target - total) r.count ≡ false = ground arith in
            let gone : target - total - r.count ≡ target - (total + r.count) = omega arith in
            rw (past, beyond, gone)
              (rle_loop-expand b rs (i + 1) (total + r.count) target
                (λ k r' e.
                  let shift : i + suc k ≡ i + 1 + k = omega arith in rw shift at (h (suc k) r' e))
                (ground arith))
      ])

-- The table holds the entries `runs`, which stand for the lines `lines`, inside its block.
pub record HoldsLines (t : RleLines) (lines : List ℕ) : Type 0 where
  pub runs : List RleLine
  pub array : Array t.capacity t.lines runs
  pub counted : t.count ≡ length runs
  pub expands : expand runs ≡ lines

pub get_rle_line-found :
    (t : RleLines) (lines : List ℕ) (i : ℕ)
    → HoldsLines t lines
    → get_rle_line t i ≡ found (get_elem? lines i)
unfolding get_rle_line
get_rle_line-found t lines i h =
    rw (h.counted, ← h.expands)
      (rw whole at (
        rle_loop-expand t.lines h.runs 0 0 i
          (λ k r e.
            let zero_add : 0 + k ≡ k = omega arith in
            rw zero_add (load-Stores k r h.array.stored e))
          (omega arith)))
  where
    whole : i - 0 ≡ i
    whole = omega arith

expand-append : (xs ys : List RleLine) → expand (xs ++ ys) ≡ expand xs ++ expand ys
unfolding expand
expand-append [] ys = refl
expand-append (r ∷ xs) ys = rw (expand-append xs ys, append_assoc)

expand-new : (runs : List RleLine) (l : ℕ) → expand (runs ++ entry l 1 ∷ []) ≡ expand runs ++ l ∷ []
unfolding expand
expand-new runs l = expand-append runs (entry l 1 ∷ [])

replicate_snoc {ℓ} : {A : Type ℓ} (n : ℕ) (x : A) → replicate (suc n) x ≡ replicate n x ++ x ∷ []
replicate_snoc zero x = refl
replicate_snoc (suc n) x = ap (◌∷◌ x) (replicate_snoc n x)

-- The last entry counts one more.
expand-extend :
    (runs : List RleLine) (n : ℕ) (r : RleLine)
    → length runs ≡ suc n
    → get_elem? runs n ≡ some r
    → expand (set runs n (entry r.line (r.count + 1))) ≡ expand runs ++ r.line ∷ []
unfolding expand
expand-extend [] n r len e = cc
expand-extend (r ∷ []) zero r' len e =
    let same : r' ≡ r = cc in rw same (simp (append-nil, add-one) (replicate_snoc r.count r.line))
expand-extend (r ∷ s ∷ runs) zero r' len e = absurd (omega arith)
expand-extend (r ∷ runs) (suc n) r' len e =
    rw (expand-extend runs n r' (omega arith) e, append_assoc)

-- The table after one more code: what it holds, and how its capacity and count have moved.
pub record Added (t : RleLines) (lines : List ℕ) (t' : RleLines) : Type 0 where
  pub holds : HoldsLines t' lines
  pub count_le : t'.count ≤ t.count + 1
  pub capacity : Grows t.capacity t.count t'.capacity

append_line-Added :
    (t : RleLines) (lines : List ℕ) (l : ℕ)
    → HoldsLines t lines
    → (t' : RleLines) × (append_line t l ≡ ok t') × Added t (lines ++ l ∷ []) t'
unfolding append_line
append_line-Added t lines l h =
    let (c, block, pushed, array, grows) = push_back-Array (entry l 1) h.array in
    (
      record { count = t.count + 1; capacity = c; lines = block },
      rw (h.counted, pushed),
      record {
        holds = record {
          runs = h.runs ++ entry l 1 ∷ [];
          array = array;
          counted = omega (arith, h.counted, length-append h.runs (entry l 1 ∷ []));
          expands = expand-new h.runs l ∙ ap (λ ls. ls ++ l ∷ []) h.expands;
        };
        count_le = omega arith;
        capacity = rw h.counted grows;
      },
    )

extend_line-Added :
    (t : RleLines) (lines : List ℕ) (r : RleLine) (h : HoldsLines t lines)
    → t.count ≢ 0
    → get_elem? h.runs (t.count - 1) ≡ some r
    → (t' : RleLines) × (extend_line t ≡ ok t') × Added t (lines ++ r.line ∷ []) t'
unfolding extend_line
extend_line-Added t lines r h pos e =
    let longer = entry r.line (r.count + 1) in
    (
      record t { lines = set t.lines (t.count - 1) (some longer) },
      rw (
        load-Stores (t.count - 1) r h.array.stored e,
        store-ok t.lines (t.count - 1) longer (omega (arith, h.counted, Array-length h.array)),
      ),
      record {
        holds = record {
          runs = set h.runs (t.count - 1) longer;
          array = Array-set (t.count - 1) longer h.array;
          counted = h.counted ∙ sym (length-set h.runs _ _);
          expands =
              expand-extend h.runs (t.count - 1) r (omega (arith, h.counted)) e
              ∙ ap (λ ls. ls ++ r.line ∷ []) h.expands;
        };
        count_le = omega arith;
        capacity = inl refl;
      },
    )

pub add_line-Added :
    (t : RleLines) (lines : List ℕ) (l : ℕ)
    → HoldsLines t lines
    → (t' : RleLines) × (add_line t l ≡ ok t') × Added t (lines ++ l ∷ []) t'
unfolding add_line is_new_line
add_line-Added t lines l h = elim (Bool-cases (t.count == 0)) [
  | inl empty ↦ rw empty (append_line-Added t lines l h)
  | inr some_line ↦
      let (r, e) = get_elem?_total h.runs (t.count - 1) (ground (arith, h.counted)) in
      rw (some_line, load-Stores (t.count - 1) r h.array.stored e)
        (elim (Bool-cases (r.line == l)) [
          | inl same ↦
              let eq : r.line ≡ l = ground arith in
              rw same (rw eq at (extend_line-Added t lines r h (ground arith) e))
          | inr other ↦ rw other (append_line-Added t lines l h)
        ])
]
