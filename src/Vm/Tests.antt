-- ===== src/Vm/Tests.antt =====
-- src/vm.c on the first constant of a chunk.
use joker_complier.Base.{ℕ, [], ◌∷◌, ok, ◌≡◌, refl, some, arith, get_elem?}
use joker_complier.Memory.{load}
use joker_complier.Memory.Stores.{nothing}
use joker_complier.Chunk.{Chunk, init_chunk, init_value_array, write_constant}
use joker_complier.Chunk.Write.{init_chunk-HoldsChunk, codes}
use joker_complier.Vm.Constants.{HoldsValues, write_constant-run_constant}
use joker_complier.Base.Int.{pos, negsuc}
use joker_complier.Vm.Arith.{mul_op, handle_binary_i32_op}
use joker_complier.Value.{i32}
use joker_complier.Vm.Unary.{negate}
use joker_complier.Vm.Twice.{Undone, negate-Undone}
use joker_complier.Vm.Range.{Means, handle_binary_i32_op-Means}
use joker_complier.Vm.Fetch.{run_constant}

abbrev new_chunk : Chunk ℕ
new_chunk = init_chunk

no_constants : HoldsValues new_chunk.constants []
unfolding init_chunk init_value_array
no_constants = record {
  array = record { stored = nothing; within = omega arith; allocated = omega arith };
  counted = refl;
}

write_constant-run_constant_example :
    (c' : Chunk ℕ) × (write_constant new_chunk 42 1 ≡ ok c')
    × (run_constant c' new_chunk.count ≡ ok (42, c'.count))
    × ((i b : ℕ) → get_elem? (codes []) i ≡ some b → load c'.code i ≡ ok b)
write_constant-run_constant_example =
    write_constant-run_constant new_chunk [] [] 42 1 init_chunk-HoldsChunk no_constants
      (omega arith)

handle_binary_i32_op-Means_example :
    Means mul_op
      (pos 100000)
      (negsuc 99999)
      []
      (handle_binary_i32_op mul_op (pos 100000) (negsuc 99999) [])
handle_binary_i32_op-Means_example =
    handle_binary_i32_op-Means mul_op (pos 100000) (negsuc 99999) [] refl refl

negate-Undone_example : Undone (i32 (pos 5)) [] (negate (i32 (pos 5) ∷ []))
negate-Undone_example = negate-Undone (i32 (pos 5)) [] refl
