-- ===== src/Upvalue/Tests.antt =====
-- src/upvalue.c on two open upvalues.
use joker_complier.Base.{
  ℕ, ◌+◌, ◌≡◌, arith, List, [], ◌∷◌, map, none, some, ltb, ◌==◌, if◌then◌else◌,
}
use joker_complier.Upvalue.{Upvalue, capture_upvalue, close, close_upvalues}
use joker_complier.Upvalue.Open.{Descends, node_at, capture_upvalue-Descends, close_upvalues-map}

abbrev two_open : List (Upvalue ℕ)
two_open =
    record { id = 0; location = 7; closed = none }
    ∷ record { id = 1; location = 3; closed = none }
    ∷ []

two_open-Descends : Descends 16 two_open
two_open-Descends = (omega arith, (omega arith, tt))

capture_upvalue-Descends_example :
    Descends 16 (capture_upvalue 2 two_open 5).1
    × ((capture_upvalue 2 two_open 5).0 ≡ 2)
    × ((slot : ℕ)
        → node_at (capture_upvalue 2 two_open 5).1 slot
          ≡ (if slot == 5 then some (capture_upvalue 2 two_open 5).0 else node_at two_open slot))
capture_upvalue-Descends_example =
    capture_upvalue-Descends 2 16 5 two_open two_open-Descends (omega arith)

abbrev field_of : ℕ → ℕ
field_of id = 1000 + id

close_upvalues-map_example :
    close_upvalues field_of (λ slot. slot) two_open 3
    ≡ map (λ u. if ltb 3 u.location then close field_of (λ slot. slot) u else u) two_open
close_upvalues-map_example =
    close_upvalues-map field_of (λ slot. slot) 16 3 two_open two_open-Descends
