-- ===== src/Chunk/Tests.antt =====
-- src/chunk.c on three codes of two lines.
use joker_complier.Base.{ℕ, List, [], ◌∷◌, ok, ◌≡◌}
use joker_complier.Chunk.{Chunk, init_chunk}
use joker_complier.Chunk.Write.{Answers, write_codes, write_codes-Answers}

abbrev three_codes : List (ℕ × ℕ)
three_codes = (5, 1) ∷ (6, 1) ∷ (47, 2) ∷ []

write_codes-Answers_example :
    (c : Chunk ℕ) × (write_codes init_chunk three_codes ≡ ok c) × Answers c three_codes
write_codes-Answers_example = write_codes-Answers three_codes
