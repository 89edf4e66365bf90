-- ===== src/Vec/Tests.antt =====
-- src/vec.c on a vector with two values.
use joker_complier.Base.{
  ℕ, ◌≤◌, ◌<◌, List, [], ◌∷◌, ◌++◌, some, ok, panic, ◌≡◌, refl, arith, length, get_elem?,
}
use joker_complier.Memory.Stores.{nothing, item}
use joker_complier.Vec.{Vec, vec_push, vec_pop, vec_get, vec_insert, vec_remove}
use joker_complier.Vec.Holds.{HoldsVec, vec_push-vec_pop}
use joker_complier.Vec.Remove.{remove_at, vec_remove-HoldsVec}
use joker_complier.Vec.Shift.{insert_at, vec_insert-HoldsVec}

abbrev full_vec : Vec ℕ
full_vec = record { cells = some 4 ∷ some 5 ∷ []; finish = 2 }

abbrev four_five : List ℕ
four_five = 4 ∷ 5 ∷ []

full_vec-HoldsVec : HoldsVec full_vec four_five
full_vec-HoldsVec = record {
  array = record { stored = item (item nothing); within = omega arith; allocated = omega arith };
  counted = refl;
}

vec_push-vec_pop_example :
    (v' : Vec ℕ) × (vec_push full_vec 6 ≡ ok v')
    × ((i y : ℕ) → get_elem? (four_five ++ 6 ∷ []) i ≡ some y → vec_get v' i ≡ ok y)
    × ((v'' : Vec ℕ) × (vec_pop v' ≡ ok (6, v'')) × HoldsVec v'' four_five)
vec_push-vec_pop_example = vec_push-vec_pop full_vec four_five 6 full_vec-HoldsVec

vec_insert-HoldsVec_example :
    (1 ≤ length four_five
      → (v' : Vec ℕ) × (vec_insert full_vec 1 9 ≡ ok v') × HoldsVec v' (insert_at four_five 1 9))
    × (length four_five < 1 → vec_insert full_vec 1 9 ≡ panic)
vec_insert-HoldsVec_example = vec_insert-HoldsVec full_vec four_five 1 9 full_vec-HoldsVec

vec_remove-HoldsVec_example :
    (0 < length four_five
      → (v' : Vec ℕ) × (vec_remove full_vec 0 ≡ ok v') × HoldsVec v' (remove_at four_five 0))
    × (length four_five ≤ 0 → vec_remove full_vec 0 ≡ panic)
vec_remove-HoldsVec_example = vec_remove-HoldsVec full_vec four_five 0 full_vec-HoldsVec
