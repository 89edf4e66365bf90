-- ===== src/Upvalue.antt =====
-- src/upvalue.c: the open upvalues of the machine. The linked list is a list of nodes, each with the
-- identity of its object; an address is a number, and `stack` is what the stack holds at each.
pub mod Open
mod Tests
use joker_complier.Base.{ℕ, ◌-◌, Option, none, some, List, [], ◌∷◌, ltb, ◌==◌, if◌then◌else◌}

pub record Upvalue {ℓ} (V : Type ℓ) : Type ℓ where
  pub id : ℕ
  pub location : ℕ
  pub closed : Option V

module _ {ℓ} {V : Type ℓ} where
  -- `new_upvalue`
  unfoldable pub new_upvalue : ℕ → ℕ → Upvalue V
  new_upvalue id slot = record { id = id; location = slot; closed = none }

  -- `capture_upvalue`: the node for the slot `local`, and the list with it; `fresh` is the identity of
  -- the object that is allocated if there is no such node.
  unfoldable pub capture_upvalue : ℕ → List (Upvalue V) → ℕ → ℕ × List (Upvalue V)
  capture_upvalue fresh [] local = (fresh, new_upvalue fresh local ∷ [])
  capture_upvalue fresh (u ∷ us) local =
      let rest = capture_upvalue fresh us local in
      if ltb local u.location
      then (rest.0, u ∷ rest.1)
      else if u.location == local
      then (u.id, u ∷ us)
      else (fresh, new_upvalue fresh local ∷ u ∷ us)

  -- `upv->closed = *upv->location; upv->location = &upv->closed;`; `closed_at` is the address of the
  -- field of each node.
  unfoldable pub close : (ℕ → ℕ) → (ℕ → V) → Upvalue V → Upvalue V
  close closed_at stack u = record u { closed = some (stack u.location); location = closed_at u.id }

  -- `close_upvalues`
  unfoldable pub close_upvalues : (ℕ → ℕ) → (ℕ → V) → List (Upvalue V) → ℕ → List (Upvalue V)
  close_upvalues closed_at stack [] last = []
  close_upvalues closed_at stack (u ∷ us) last =
      let rest = close_upvalues closed_at stack us last in
      if ltb last u.location then close closed_at stack u ∷ rest else u ∷ us

  -- `handle_op_close_upvalue`, less the pop: it passes the slot on top of the stack itself.
  unfoldable pub handle_op_close_upvalue :
      (ℕ → ℕ) → (ℕ → V) → List (Upvalue V) → ℕ → List (Upvalue V)
  handle_op_close_upvalue closed_at stack us stack_top =
      close_upvalues closed_at stack us (stack_top - 1)
