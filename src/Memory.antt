-- ===== src/Memory.antt =====
-- include/memory.h and src/memory.c: heap blocks and the growth of arrays. A block is the list
-- of its cells, and a cell that no write has reached is `none`. `realloc` and `malloc` are taken
-- to succeed (the source exits otherwise), and the collector that `reallocate` may run is taken
-- to keep what is reachable; `bytes_allocated` is not kept.
pub mod Stores
use joker_complier.Base.{
  ℕ, zero, suc, ◌+◌, ◌*◌, Option, none, some, List, [], ◌∷◌, Outcome, ok, undefined, ◌>>=◌, ltb,
  length, get_elem?, set, if◌then◌else◌,
}

abbrev pub Block {ℓ} : Type ℓ → Type ℓ
Block A = List (Option A)

-- macro_grow_capacity
unfoldable pub grow_capacity : ℕ → ℕ
grow_capacity capacity = if ltb capacity 8 then 8 else capacity * 2

module _ {ℓ} {A : Type ℓ} where
  -- The block at its new size: the old cells as far as they fit, then cells not written.
  unfoldable pub reallocate : ℕ → Block A → Block A
  reallocate zero b = []
  reallocate (suc n) [] = none ∷ reallocate n []
  reallocate (suc n) (c ∷ b) = c ∷ reallocate n b

  -- `block[i]`
  unfoldable pub load : Block A → ℕ → Outcome A
  load b i = elim (get_elem? b i) [
    | none ↦ undefined
    | some c ↦ elim c [ none ↦ undefined | some x ↦ ok x ]
  ]

  -- `block[i] = x`
  unfoldable pub store : Block A → ℕ → A → Outcome (Block A)
  store b i x = if ltb i (length b) then ok (set b i (some x)) else undefined

  -- What the growable arrays of the source do first when they take one more item.
  unfoldable pub reserve : ℕ → ℕ → Block A → ℕ × Block A
  reserve capacity count b =
      if ltb capacity (count + 1)
      then (grow_capacity capacity, reallocate (grow_capacity capacity) b)
      else (capacity, b)

  unfoldable pub push_back : ℕ → ℕ → Block A → A → Outcome (ℕ × Block A)
  push_back capacity count b x = do
    let (capacity', b') = reserve capacity count b
    written ← store b' count x
    ok (capacity', written)
