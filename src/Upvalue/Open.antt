-- ===== src/Upvalue/Open.antt =====
-- src/upvalue.c: one node for each captured slot, and what is closed.
use joker_complier.Base.{
  ℕ, ◌≤◌, ◌<◌, ◌≡◌, refl, ap, sym, false, Option, none, some, List, [], ◌∷◌, map, arith, ltb, ◌==◌,
  if◌then◌else◌, Bool-cases, inl, inr,
}
use joker_complier.Upvalue.{Upvalue, new_upvalue, capture_upvalue, close, close_upvalues}

module _ {V : Type 0} where
  -- The slots go down strictly from `top`.
  abbrev pub Descends : ℕ → List (Upvalue V) → Type 0
  Descends top [] = Unit
  Descends top (u ∷ us) = (u.location < top) × Descends u.location us

  -- The node of a slot.
  abbrev pub node_at : List (Upvalue V) → ℕ → Option ℕ
  node_at [] slot = none
  node_at (u ∷ us) slot = if u.location == slot then some u.id else node_at us slot

  node_at-above :
      (top slot : ℕ) (us : List (Upvalue V)) → Descends top us → top ≤ slot → node_at us slot ≡ none
  node_at-above top slot [] d h = refl
  node_at-above top slot (u ∷ us) (lt, d) h =
      ground (arith, lt, node_at-above u.location slot us d (omega arith))

  -- `capture_upvalue` keeps the list in its strict order, gives the slot the node that it had or the
  -- new one, and leaves the nodes of all other slots.
  pub capture_upvalue-Descends :
      (fresh top local : ℕ) (us : List (Upvalue V))
      → Descends top us
      → local < top
      → Descends top (capture_upvalue fresh us local).1
        × ((capture_upvalue fresh us local).0
            ≡ elim (node_at us local) as (λ _. ℕ) [ none ↦ fresh | some id ↦ id ])
        × ((slot : ℕ)
            → node_at (capture_upvalue fresh us local).1 slot ≡ (
                if slot == local then some (capture_upvalue fresh us local).0 else node_at us slot))
  unfolding capture_upvalue new_upvalue
  capture_upvalue-Descends fresh top local [] d h = ((h, tt), refl, λ slot. ground arith)
  capture_upvalue-Descends fresh top local (u ∷ us) (lt, d) h =
      elim (Bool-cases (ltb local u.location)) [
        | inl below ↦
            let (d', id, nodes) =
              capture_upvalue-Descends fresh u.location local us d (ground arith) in
            let apart : (u.location == local) ≡ false = ground arith in
            rw (below, apart) ((lt, d'), id, λ slot. ground (arith, nodes slot))
        | inr here ↦ elim (Bool-cases (u.location == local)) [
          | inl same ↦ rw (here, same) ((lt, d), refl, λ slot. ground arith)
          | inr new ↦
              let none_here = node_at-above u.location local us d (ground arith) in
              rw (here, new, none_here) ((h, (ground arith, d)), refl, λ slot. ground arith)
        ]
      ]

  unchanged :
      (closed_at : ℕ → ℕ) (stack : ℕ → V) (top last : ℕ) (us : List (Upvalue V))
      → Descends top us
      → top ≤ last
      → map (λ u. if ltb last u.location then close closed_at stack u else u) us ≡ us
  unchanged closed_at stack top last [] d h = refl
  unchanged closed_at stack top last (u ∷ us) (lt, d) h =
      let low : ltb last u.location ≡ false = ground arith in
      rw low (ap (◌∷◌ u) (unchanged closed_at stack u.location last us d (omega arith)))

  -- On a list in order, `close_upvalues` closes exactly the nodes of the slots above `last`:
  -- the node of `last` itself stays open.
  pub close_upvalues-map :
      (closed_at : ℕ → ℕ) (stack : ℕ → V) (top last : ℕ) (us : List (Upvalue V))
      → Descends top us
      → close_upvalues closed_at stack us last
        ≡ map (λ u. if ltb last u.location then close closed_at stack u else u) us
  unfolding close_upvalues
  close_upvalues-map closed_at stack top last [] d = refl
  close_upvalues-map closed_at stack top last (u ∷ us) (lt, d) =
      elim (Bool-cases (ltb last u.location)) [
        | inl above ↦ rw above (
            ap (◌∷◌ (close closed_at stack u))
              (close_upvalues-map closed_at stack u.location last us d))
        | inr low ↦
            rw low
              (ap (◌∷◌ u) (sym (unchanged closed_at stack u.location last us d (ground arith))))
      ]
