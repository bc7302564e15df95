-- ===== src/Tests/Chunking.antt =====
-- fastcdc/fastcdc.h: the chunker on 8-bit hashes and small chunks, and on the client's configuration.
use cdc_file_transfer.Prelude.{
  ℕ, ◌+◌, ◌*◌, ◌%◌, ◌<◌, ◌≤◌, ◌≡◌, refl, List, [], ◌∷◌, ◌++◌, some, arith, bit_and, flatten,
}
use cdc_file_transfer.Chunker.{
  Config, fresh, narrow, regression_mask, find_chunk_boundary, process_all,
}
use cdc_file_transfer.Chunker.Bounds.{IsValid, find_chunk_boundary_bounds}
use cdc_file_transfer.Chunker.Cuts.{Sizes}
use cdc_file_transfer.Chunker.Mask.{regression_mask-passes}
use cdc_file_transfer.Chunker.Streaming.{process_all-eq-process_once, process_all_partition}

abbrev small_config : Config
small_config = record { min_size = 2; avg_size = 4; max_size = 8 }

abbrev small_gear : ℕ → ℕ
small_gear b = (b * 37 + 11) % 256

abbrev small_input : List ℕ
small_input = 5 ∷ 9 ∷ 200 ∷ 13 ∷ 77 ∷ 1 ∷ 2 ∷ 3 ∷ 90 ∷ 41 ∷ 17 ∷ 255 ∷ []

small_config-IsValid : IsValid small_config
small_config-IsValid = record {
  positive = omega arith;
  min_avg = omega arith;
  avg_max = omega arith;
}

-- The mask of a hash of 8 bits keeps its leading zeros.
narrowed : regression_mask 8 0x15 ≡ 0xe0
unfolding regression_mask narrow
narrowed = refl

regression_mask-passes_example : bit_and 0x15 (regression_mask 8 0x15) ≡ 0
regression_mask-passes_example = regression_mask-passes 8 0x15

find_chunk_boundary_bounds_example :
    (0 < find_chunk_boundary 8 small_gear small_config small_input 12)
    × (find_chunk_boundary 8 small_gear small_config small_input 12 ≤ 12)
    × (find_chunk_boundary 8 small_gear small_config small_input 12 ≤ 8)
    × (2 < 12 → 2 ≤ find_chunk_boundary 8 small_gear small_config small_input 12)
    × (12 ≤ 2 → find_chunk_boundary 8 small_gear small_config small_input 12 ≡ 12)
find_chunk_boundary_bounds_example =
    find_chunk_boundary_bounds 8 small_gear small_config small_input (omega arith)
      small_config-IsValid 12 (omega arith)

process_all-eq-process_once_example :
    (chunks : List (List ℕ)) × (process_all 8 small_gear
        (fresh small_config)
        (small_input ∷ (4 ∷ 4 ∷ []) ∷ [])
      ≡ some chunks)
    × (process_all 8 small_gear (fresh small_config) ((small_input ++ 4 ∷ 4 ∷ []) ∷ [])
        ≡ some chunks)
process_all-eq-process_once_example =
    process_all-eq-process_once 8 small_gear small_config (omega arith) small_config-IsValid
      (small_input ∷ (4 ∷ 4 ∷ []) ∷ []) (omega arith, (omega arith, tt))

process_all_partition_example :
    (chunks : List (List ℕ)) × (process_all 8 small_gear
        (fresh small_config)
        (small_input ∷ (4 ∷ 4 ∷ []) ∷ [])
      ≡ some chunks)
    × (flatten chunks ≡ small_input ++ 4 ∷ 4 ∷ [])
    × Sizes small_config chunks []
process_all_partition_example =
    process_all_partition 8 small_gear small_config (omega arith) small_config-IsValid
      (small_input ∷ (4 ∷ 4 ∷ []) ∷ []) (omega arith, (omega arith, tt))
