-- ===== src/Compiler/Operand.antt =====
-- The operand of a jump in the code: what src/parser.c writes is what src/vm.c reads as a short.
use mathlib.Core.List.{append_assoc, map-append}
use joker_complier.Base.{
  ℕ, zero, suc, ◌+◌, ◌-◌, ◌*◌, ◌/◌, ◌%◌, ◌^◌, ◌≤◌, ◌<◌, ◌≡◌, refl, sym, ap, ◌∙◌, false, true, some,
  List, [], ◌∷◌, ◌++◌, arith, ok, ltb, ◌==◌, length, get_elem?, set, length-set, length-append,
  get_elem?-set, length-map, get_elem?-append,
}
use joker_complier.Memory.{load, store}
use joker_complier.Memory.Stores.{Array-set, load-Stores, store-ok, Array-length}
use joker_complier.Chunk.{Chunk, write_chunk}
use joker_complier.Chunk.Write.{HoldsChunk, write_chunk-HoldsChunk, codes, lines_of}
use joker_complier.Compiler.Emit.{Parser, emit_jump, patch_jump, uint16_max}
use joker_complier.Vm.Fetch.{read_short}

-- Another code at one index; the line stays.
pub recode : List (ℕ × ℕ) → ℕ → ℕ → List (ℕ × ℕ)
recode [] i b = []
recode ((code, line) ∷ log) zero b = (b, line) ∷ log
recode (w ∷ log) (suc i) b = w ∷ recode log i b

codes-recode : (log : List (ℕ × ℕ)) (i b : ℕ) → codes (recode log i b) ≡ set (codes log) i b
unfolding recode
codes-recode [] i b = refl
codes-recode ((code, line) ∷ log) zero b = refl
codes-recode (w ∷ log) (suc i) b = ap (◌∷◌ w.0) (codes-recode log i b)

lines_of-recode : (log : List (ℕ × ℕ)) (i b : ℕ) → lines_of (recode log i b) ≡ lines_of log
unfolding recode
lines_of-recode [] i b = refl
lines_of-recode ((code, line) ∷ log) zero b = refl
lines_of-recode (w ∷ log) (suc i) b = ap (◌∷◌ w.1) (lines_of-recode log i b)

pub length-recode : (log : List (ℕ × ℕ)) (i b : ℕ) → length (recode log i b) ≡ length log
unfolding recode
length-recode [] i b = refl
length-recode ((code, line) ∷ log) zero b = refl
length-recode (w ∷ log) (suc i) b = ap suc (length-recode log i b)

module _ {ℓ} {V : Type ℓ} where
  -- A store into the code that is written.
  store-HoldsChunk :
      (c : Chunk V) (log : List (ℕ × ℕ)) (i b : ℕ)
      → HoldsChunk c log
      → i < length log
      → (store c.code i b ≡ ok (set c.code i (some b)))
        × HoldsChunk (record c { code = set c.code i (some b) }) (recode log i b)
  store-HoldsChunk c log i b h lt = (
    store-ok c.code i b (omega (arith, Array-length h.code, length-map (λ (w : ℕ × ℕ). w.0) log)),
    record {
      code = rw (codes-recode log i b) (Array-set i b h.code);
      counted = h.counted ∙ sym (length-recode log i b);
      lines = rw (lines_of-recode log i b) h.lines;
      line_count_le = h.line_count_le;
      level = h.level;
      level_is = h.level_is;
      line_level = h.line_level;
      line_level_is = h.line_level_is;
      line_level_le = h.line_level_le;
    },
  )

  load-HoldsChunk :
      (c : Chunk V) (log : List (ℕ × ℕ)) (i b : ℕ)
      → HoldsChunk c log
      → get_elem? (codes log) i ≡ some b
      → load c.code i ≡ ok b
  load-HoldsChunk c log i b h e = load-Stores i b h.code.stored e

  -- Two bytes of the code, read as a short.
  read_short-bytes :
      (c : Chunk V) (ip offset : ℕ)
      → offset < 2 ^ 16
      → load c.code ip ≡ ok (offset / 2 ^ 8 % 2 ^ 8)
      → load c.code (ip + 1) ≡ ok (offset % 2 ^ 8)
      → read_short c ip ≡ ok (offset, ip + 2)
  unfolding read_short
  read_short-bytes c ip offset lt high low =
      let whole : offset / 2 ^ 8 % 2 ^ 8 * 2 ^ 8 + offset % 2 ^ 8 ≡ offset = omega arith in
      rw (high, low, whole)

  HoldsChunk-same :
      (c : Chunk V) (log log' : List (ℕ × ℕ)) → log ≡ log' → HoldsChunk c log → HoldsChunk c log'
  HoldsChunk-same c log log' e h = rw e at h

  -- Three writes, one after the other.
  pub write_three :
      (c : Chunk V) (log : List (ℕ × ℕ)) (w₁ w₂ w₃ : ℕ × ℕ)
      → HoldsChunk c log
      → (c₁ : Chunk V) × (c₂ : Chunk V) × (c₃ : Chunk V) × (write_chunk c w₁.0 w₁.1 ≡ ok c₁)
        × (write_chunk c₁ w₂.0 w₂.1 ≡ ok c₂)
        × (write_chunk c₂ w₃.0 w₃.1 ≡ ok c₃)
        × (c₁.count ≡ c.count + 1)
        × (c₃.count ≡ c.count + 3)
        × HoldsChunk c₃ (log ++ w₁ ∷ w₂ ∷ w₃ ∷ [])
  write_three c log w₁ w₂ w₃ h =
      let (c₁, e₁, h₁, _) = write_chunk-HoldsChunk c log w₁.0 w₁.1 h in
      let (c₂, e₂, h₂, _) = write_chunk-HoldsChunk c₁ (log ++ w₁ ∷ []) w₂.0 w₂.1 h₁ in
      let (c₃, e₃, h₃, _) = write_chunk-HoldsChunk c₂ ((log ++ w₁ ∷ []) ++ w₂ ∷ []) w₃.0 w₃.1 h₂ in
      let same : ((log ++ w₁ ∷ []) ++ w₂ ∷ []) ++ w₃ ∷ [] ≡ log ++ w₁ ∷ w₂ ∷ w₃ ∷ [] =
        rw (append_assoc, append_assoc) in
      let h' = HoldsChunk-same c₃ _ _ same h₃ in
      (
        c₁,
        c₂,
        c₃,
        e₁,
        e₂,
        e₃,
        omega (arith, h₁.counted, h.counted, length-append log (w₁ ∷ [])),
        omega (arith, h'.counted, h.counted, length-append log (w₁ ∷ w₂ ∷ w₃ ∷ [])),
        h',
      )

  pub emit_jump-HoldsChunk :
      (self : Parser) (c : Chunk V) (log : List (ℕ × ℕ)) (op : ℕ)
      → HoldsChunk c log
      → (c' : Chunk V) × (emit_jump self c op ≡ ok (c.count + 1, c'))
        × HoldsChunk c' (log ++ (op, self.line) ∷ (0xff, self.line) ∷ (0xff, self.line) ∷ [])
  unfolding emit_jump
  emit_jump-HoldsChunk self c log op h =
      let (c₁, c₂, c₃, e₁, e₂, e₃, _, counted, h') =
        write_three c log (op, self.line) (0xff, self.line) (0xff, self.line) h in
      let at : c₃.count - 2 ≡ c.count + 1 = omega arith in (c₃, rw (e₁, e₂, e₃, at), h')

  patched-read_short :
      (c : Chunk V) (log : List (ℕ × ℕ)) (offset jump : ℕ)
      → HoldsChunk c (recode (recode log offset (jump / 2 ^ 8 % 2 ^ 8)) (offset + 1) (jump % 2 ^ 8))
      → offset + 2 ≤ length log
      → jump < 2 ^ 16
      → read_short c offset ≡ ok (jump, offset + 2)
  patched-read_short c log offset jump h room lt =
      let high = jump / 2 ^ 8 % 2 ^ 8 in
      let low = jump % 2 ^ 8 in
      let log₁ = recode log offset high in
      let size : length (codes log) ≡ length log = length-map (λ (w : ℕ × ℕ). w.0) log in
      let bytes : codes (recode log₁ (offset + 1) low)
          ≡ set (set (codes log) offset high) (offset + 1) low =
        codes-recode log₁ (offset + 1) low
        ∙ ap (λ bs. set bs (offset + 1) low) (codes-recode log offset high) in
      let inner : offset + 1 < length (set (codes log) offset high) =
        omega (arith, length-set (codes log) offset high) in
      let other : (offset + 1 == offset) ≡ false = ground arith in
      let same : (offset + 1 == offset + 1) ≡ true = ground arith in
      let this : (offset == offset) ≡ true = ground arith in
      read_short-bytes c offset jump lt
        (load-HoldsChunk c _ offset high h (
          ap (λ bs. get_elem? bs offset) bytes
          ∙ get_elem?-set (set (codes log) offset high) (offset + 1) offset low inner
          ∙ rw (other, get_elem?-set (codes log) offset offset high (omega arith), this)))
        (load-HoldsChunk c _ (offset + 1) low h (
          ap (λ bs. get_elem? bs (offset + 1)) bytes
          ∙ get_elem?-set (set (codes log) offset high) (offset + 1) (offset + 1) low inner
          ∙ rw same))

  -- The jump behind the operand at `offset`, once it is patched.
  pub patch_jump-HoldsChunk :
      (self : Parser) (c : Chunk V) (log : List (ℕ × ℕ)) (offset : ℕ)
      → HoldsChunk c log
      → offset + 2 ≤ length log
      → length log ≤ offset + 2 + uint16_max
      → (c' : Chunk V) × (patch_jump self c offset ≡ ok (self, c'))
        × HoldsChunk c' (
            recode
              (recode log offset ((length log - offset - 2) / 2 ^ 8 % 2 ^ 8))
              (offset + 1)
              ((length log - offset - 2) % 2 ^ 8))
        × (read_short c' offset ≡ ok (length log - offset - 2, offset + 2))
  unfolding patch_jump
  patch_jump-HoldsChunk self c log offset h room near =
      let jump = length log - offset - 2 in
      let high = jump / 2 ^ 8 % 2 ^ 8 in
      let low = jump % 2 ^ 8 in
      let (e₁, h₁) = store-HoldsChunk c log offset high h (omega arith) in
      let log₁ = recode log offset high in
      let c₁ = record c { code = set c.code offset (some high) } in
      let (e₂, h₂) =
        store-HoldsChunk c₁ log₁ (offset + 1) low h₁
          (omega (arith, length-recode log offset high)) in
      let short : ltb uint16_max jump ≡ false = ground arith in
      (
        record c { code = set (set c.code offset (some high)) (offset + 1) (some low) },
        rw (h.counted, short, e₁, e₂),
        h₂,
        patched-read_short _ log offset jump h₂ room (omega arith),
      )

  -- What is read in the last part of the code.
  load-appended :
      (c : Chunk V) (log more : List (ℕ × ℕ)) (k b : ℕ)
      → HoldsChunk c (log ++ more)
      → get_elem? (codes more) k ≡ some b
      → load c.code (length log + k) ≡ ok b
  load-appended c log more k b h e = load-HoldsChunk c (log ++ more) (length log + k) b h (
      rw (map-append, get_elem?-append, length-map (λ (w : ℕ × ℕ). w.0) log)
        (let past : ltb (length log + k) (length log) ≡ false = ground arith in
          let shift : length log + k - length log ≡ k = omega arith in rw (past, shift) e))

  pub read_short-appended :
      (c : Chunk V) (log : List (ℕ × ℕ)) (w : ℕ × ℕ) (line n offset : ℕ)
      → HoldsChunk c (log ++ w ∷ (offset / 2 ^ 8 % 2 ^ 8, line) ∷ (offset % 2 ^ 8, line) ∷ [])
      → n ≡ length log
      → offset < 2 ^ 16
      → read_short c (n + 1) ≡ ok (offset, n + 1 + 2)
  read_short-appended c log w line n offset h e lt =
      let more = w ∷ (offset / 2 ^ 8 % 2 ^ 8, line) ∷ (offset % 2 ^ 8, line) ∷ [] in
      let first : n + 1 ≡ length log + 1 = omega arith in
      let second : n + 1 + 1 ≡ length log + 2 = omega arith in
      read_short-bytes c (n + 1) offset lt
        (ap (load c.code) first ∙ load-appended c log more 1 _ h refl)
        (ap (load c.code) second ∙ load-appended c log more 2 _ h refl)
