-- ===== src/Chunk/Write.antt =====
-- `write_chunk` of src/chunk.c appends one code and its line, and keeps every write in bounds.
use mathlib.Core.List.{map-append, append-nil, append_assoc}
use joker_complier.Base.{
  ℕ, zero, suc, ◌+◌, ◌≤◌, ◌<◌, ◌≡◌, refl, sym, ap, ◌∙◌, some, List, [], ◌∷◌, ◌++◌, map, arith,
  Outcome, ok, ◌>>=◌, ltb, leb, leb→le, length, get_elem?, set, length-append, length-map,
  Bool-cases, inl, inr,
}
use joker_complier.Memory.{load, reallocate, grow_capacity}
use joker_complier.Memory.Stores.{
  Array, Array-push, Array-reallocate, Grows, load-Stores, store-ok, lt-grow_capacity, nothing,
  Stores-reallocate, length-reallocate,
}
use joker_complier.Chunk.{RleLines, Chunk, init_chunk, grow_code, write_chunk, get_rle_line}
use joker_complier.Chunk.Lines.{HoldsLines, add_line-Added, found, get_rle_line-found, expand}

-- The capacities that growth from nothing goes through: 0, 8, 16, ….
pub nth_capacity : ℕ → ℕ
nth_capacity zero = 0
nth_capacity (suc k) = grow_capacity (nth_capacity k)

nth_capacity_mono : (j k : ℕ) → j ≤ k → nth_capacity j ≤ nth_capacity k
nth_capacity_mono j zero h = let e : j ≡ 0 = omega arith in rw e (omega arith)
nth_capacity_mono j (suc k) h = elim (Bool-cases (leb j k)) [
  | inl below ↦ omega (arith, grow_step k, nth_capacity_mono j k (leb→le j k below))
  | inr top ↦ let e : j ≡ suc k = ground arith in rw e (omega arith)
]
  where
    grow_step : (i : ℕ) → nth_capacity i < nth_capacity (suc i)
    grow_step i = unfold nth_capacity in lt-grow_capacity (nth_capacity i)

nth_capacity_lt : (j k : ℕ) → nth_capacity j < nth_capacity k → j < k
nth_capacity_lt j k h = elim (Bool-cases (leb k j)) [
  | inl below ↦ absurd (omega (arith, nth_capacity_mono k j (leb→le k j below)))
  | inr above ↦ ground arith
]

abbrev pub codes : List (ℕ × ℕ) → List ℕ
codes = map (λ w. w.0)

abbrev pub lines_of : List (ℕ × ℕ) → List ℕ
lines_of = map (λ w. w.1)

HoldsLines-reallocate :
    (t : RleLines) (ls : List ℕ) (n : ℕ)
    → HoldsLines t ls
    → t.capacity ≤ n
    → HoldsLines (record t { lines = reallocate n t.lines }) ls
HoldsLines-reallocate t ls n h le = record {
  runs = h.runs;
  array = record {
    stored = Stores-reallocate n h.array.stored (omega (arith, h.array.within));
    within = h.array.within;
    allocated = omega (arith, length-reallocate n t.lines);
  };
  counted = h.counted;
  expands = h.expands;
}

level_step :
    {cap cap' count top : ℕ} (j k : ℕ)
    → cap ≡ nth_capacity j
    → top ≡ nth_capacity k
    → count < top
    → j ≤ k
    → Grows cap count cap'
    → (j' : ℕ) × (cap' ≡ nth_capacity j') × (j' ≤ k)
level_step j k at top lt le (inl same) = (j, same ∙ at, le)
level_step {cap} {cap'} j k at top lt le (inr (full, grown)) =
    (suc j, grown ∙ step, nth_capacity_lt j k (omega (arith, at, top, lt, full)))
  where
    step : grow_capacity cap ≡ nth_capacity (suc j)
    step = unfold nth_capacity in ap grow_capacity at

module _ {ℓ} {V : Type ℓ} where
  -- The chunk holds the codes and lines of `log`, written in this order.
  pub record HoldsChunk (c : Chunk V) (log : List (ℕ × ℕ)) : Type ℓ where
    pub code : Array c.capacity c.code (codes log)
    pub counted : c.count ≡ length log
    pub lines : HoldsLines c.lines (lines_of log)
    pub line_count_le : c.lines.count ≤ c.count
    pub level : ℕ
    pub level_is : c.capacity ≡ nth_capacity level
    pub line_level : ℕ
    pub line_level_is : c.lines.capacity ≡ nth_capacity line_level
    pub line_level_le : line_level ≤ level

  pub init_chunk-HoldsChunk : HoldsChunk init_chunk []
  unfolding init_chunk nth_capacity expand
  init_chunk-HoldsChunk = record {
    code = record { stored = nothing; within = omega arith; allocated = omega arith };
    counted = refl;
    lines = record {
      runs = [];
      array = record { stored = nothing; within = omega arith; allocated = omega arith };
      counted = refl;
      expands = refl;
    };
    line_count_le = omega arith;
    level = 0;
    level_is = refl;
    line_level = 0;
    line_level_is = refl;
    line_level_le = omega arith;
  }

  grow_code-HoldsChunk :
      (c : Chunk V) (log : List (ℕ × ℕ))
      → HoldsChunk c log
      → HoldsChunk (grow_code c) log × ((grow_code c).count < (grow_code c).capacity)
  unfolding grow_code nth_capacity
  grow_code-HoldsChunk c log h = elim (Bool-cases (ltb c.capacity (c.count + 1))) [
    | inl full ↦
        let big = lt-grow_capacity c.capacity in
        let top = nth_capacity_mono h.line_level h.level h.line_level_le in
        let le : c.lines.capacity ≤ grow_capacity c.capacity =
          omega (arith, h.level_is, h.line_level_is) in
        rw full (
          record {
            code = Array-reallocate (grow_capacity c.capacity) h.code (omega arith);
            counted = h.counted;
            lines = HoldsLines-reallocate c.lines _ (grow_capacity c.capacity) h.lines le;
            line_count_le = h.line_count_le;
            level = suc h.level;
            level_is = ap grow_capacity h.level_is;
            line_level = h.line_level;
            line_level_is = h.line_level_is;
            line_level_le = omega (arith, h.line_level_le);
          },
          omega (arith, h.counted, h.code.within, length-map (λ (w : ℕ × ℕ). w.0) log),
        )
    | inr room ↦ rw room (h, ground arith)
  ]

  grow_code-constants : (c : Chunk V) → (grow_code c).constants ≡ c.constants
  unfolding grow_code
  grow_code-constants c = ground arith

  -- `write_chunk` on a chunk that holds `log`: no undefined behaviour, and the result holds one more.
  pub write_chunk-HoldsChunk :
      (c : Chunk V) (log : List (ℕ × ℕ)) (code line : ℕ)
      → HoldsChunk c log
      → (c' : Chunk V) × (write_chunk c code line ≡ ok c')
        × HoldsChunk c' (log ++ (code, line) ∷ [])
        × (c'.constants ≡ c.constants)
  unfolding write_chunk
  write_chunk-HoldsChunk c log code line h =
      let (g, room) = grow_code-HoldsChunk c log h in
      let grown = grow_code c in
      let (t, added, a) = add_line-Added grown.lines _ line g.lines in
      let len = length-map (λ (w : ℕ × ℕ). w.0) log in
      let (j, at, le) =
        level_step g.line_level g.level g.line_level_is g.level_is
          (omega (arith, room, g.line_count_le)) g.line_level_le a.capacity in
      let end : grown.count ≡ length (codes log) = g.counted ∙ sym len in
      (
        record grown {
          count = grown.count + 1;
          code = set grown.code grown.count (some code);
          lines = t;
        },
        rw (added, store-ok grown.code grown.count code (omega (arith, room, g.code.allocated))),
        record {
          code = rw (map-append, end) (Array-push code g.code (omega (arith, room, end)));
          counted = omega (arith, g.counted, length-append log ((code, line) ∷ []));
          lines = rw map-append a.holds;
          line_count_le = omega (arith, a.count_le, g.line_count_le);
          level = g.level;
          level_is = g.level_is;
          line_level = j;
          line_level_is = at;
          line_level_le = le;
        },
        grow_code-constants c,
      )

  -- A sequence of `write_chunk` calls.
  unfoldable pub write_codes : Chunk V → List (ℕ × ℕ) → Outcome (Chunk V)
  write_codes c [] = ok c
  write_codes c ((code, line) ∷ log) = write_chunk c code line >>= (λ c'. write_codes c' log)

  pub write_codes-HoldsChunk :
      (c : Chunk V) (log more : List (ℕ × ℕ))
      → HoldsChunk c log
      → (c' : Chunk V) × (write_codes c more ≡ ok c')
        × HoldsChunk c' (log ++ more)
        × (c'.constants ≡ c.constants)
  unfolding write_codes
  write_codes-HoldsChunk c log [] h = (c, refl, rw append-nil h, refl)
  write_codes-HoldsChunk c log ((code, line) ∷ more) h =
      let (c₁, written, h₁, same) = write_chunk-HoldsChunk c log code line h in
      let (c₂, rest, h₂, same₂) = write_codes-HoldsChunk c₁ (log ++ (code, line) ∷ []) more h₁ in
      (c₂, rw (written, rest), rw append_assoc at h₂, same₂ ∙ same)

  -- What a chunk answers: the codes one after the other, and for each index the line of its code.
  pub record Answers (c : Chunk V) (log : List (ℕ × ℕ)) : Type ℓ where
    pub count : c.count ≡ length log
    pub code_at : (i : ℕ) (b : ℕ) → get_elem? (codes log) i ≡ some b → load c.code i ≡ ok b
    pub line_at : (i : ℕ) → get_rle_line c.lines i ≡ found (get_elem? (lines_of log) i)

  pub HoldsChunk-Answers : (c : Chunk V) (log : List (ℕ × ℕ)) → HoldsChunk c log → Answers c log
  HoldsChunk-Answers c log h = record {
    count = h.counted;
    code_at = λ i b e. load-Stores i b h.code.stored e;
    line_at = λ i. get_rle_line-found c.lines (lines_of log) i h.lines;
  }

-- Any sequence of writes to a new chunk ends with no access out of bounds. The chunk then holds
-- exactly these codes in order, `get_rle_line` gives for each index the line that its code was
-- written with, and it panics for an index past the last code.
pub write_codes-Answers :
    (log : List (ℕ × ℕ)) → (c : Chunk ℕ) × (write_codes init_chunk log ≡ ok c) × Answers c log
write_codes-Answers log =
    let (c, written, h, _) = write_codes-HoldsChunk init_chunk [] log init_chunk-HoldsChunk in
    (c, written, HoldsChunk-Answers c log h)
