-- ===== src/Chunker.antt =====
-- fastcdc/fastcdc.h: `ChunkerTmpl`. The hash type `T` is an unsigned integer of `w` bits, and the
-- gear table is a function on bytes; `size_t` values are natural numbers. The handler's calls are
-- the list of chunks that `process` returns.
pub mod Gear
pub mod Mask
pub mod Bounds
pub mod Cuts
pub mod Streaming
use cdc_file_transfer.Prelude.{
  ℕ, zero, suc, ◌+◌, ◌-◌, ◌*◌, ◌/◌, ◌%◌, ◌^◌, Bool, true, false, ◌&&◌, ◌||◌, List, [], ◌∷◌, ◌++◌,
  Option, none, some, ltb, leb, ◌==◌, if◌then◌else◌, length, get_or, take, drop, bit_and,
}

pub record Config : Type 0 where
  pub min_size : ℕ
  pub avg_size : ℕ
  pub max_size : ℕ

-- `std::numeric_limits<T>::max()`
abbrev pub hash_max : ℕ → ℕ
hash_max w = 2 ^ w - 1

-- `while (hash & rc_mask) rc_mask <<= 1;`, with fuel
unfoldable pub narrow : ℕ → ℕ → ℕ → ℕ → ℕ
narrow w zero hash rc_mask = rc_mask
narrow w (suc fuel) hash rc_mask = elim (bit_and hash rc_mask == 0) [
  | true ↦ rc_mask
  | false ↦ narrow w fuel hash (rc_mask * 2 % 2 ^ w)
]

-- The mask of a new regression point: all ones, narrowed until the hash passes it.
unfoldable pub regression_mask : ℕ → ℕ → ℕ
unfolding narrow
regression_mask w hash = narrow w (suc w) hash (hash_max w)

-- The state of a chunker: `cfg_` and `data_`.
pub record Chunker : Type 0 where
  pub cfg : Config
  pub buffer : List ℕ

-- `threshold_`, as the constructor computes it
pub threshold : ℕ → Config → ℕ
threshold w cfg = hash_max w / (cfg.avg_size - cfg.min_size + 1)

-- `if (len > cfg_.max_size) len = cfg_.max_size;`
pub clamp : Config → ℕ → ℕ
clamp cfg len = if ltb cfg.max_size len then cfg.max_size else len

-- where the warm-up starts; `kHashBits` is `w`
pub warm_start : ℕ → Config → ℕ
warm_start w cfg = if ltb w cfg.min_size then cfg.min_size - w else 0

-- `bytes_left >= cfg_.max_size || (bytes_left > 0 && eof)`
unfoldable pub more : Config → Bool → ℕ → Bool
more cfg eof bytes_left = leb cfg.max_size bytes_left || (ltb 0 bytes_left && eof)

module _ (w : ℕ) (gear : ℕ → ℕ) (cfg : Config) where
  -- `hash = (hash << 1) + gear[data[i]]`
  pub roll : List ℕ → ℕ → ℕ → ℕ
  roll buf i hash = (hash * 2 % 2 ^ w + gear (get_or buf i 0)) % 2 ^ w

  -- the loop that warms the hash up, with the count of rounds left
  pub warm_up : List ℕ → ℕ → ℕ → ℕ → ℕ
  warm_up buf zero i hash = hash
  warm_up buf (suc n) i hash = warm_up buf n (i + 1) (roll buf i hash)

  -- the loop over [min_size, len) and the return behind it
  pub scan : List ℕ → ℕ → ℕ → ℕ → ℕ → ℕ → ℕ
  scan buf zero i rc_len rc_mask hash = if bit_and hash rc_mask == 0 then i else rc_len
  scan buf (suc n) i rc_len rc_mask hash = elim (bit_and hash rc_mask == 0) [
    | true ↦ elim (leb hash (threshold w cfg)) [
      | true ↦ i
      | false ↦ scan buf n (i + 1) i (regression_mask w hash) (roll buf i hash)
    ]
    | false ↦ scan buf n (i + 1) rc_len rc_mask (roll buf i hash)
  ]

  unfoldable pub find_chunk_boundary : List ℕ → ℕ → ℕ
  find_chunk_boundary buf len0 =
      if leb len0 cfg.min_size
      then len0
      else (let len = clamp cfg len0 in
          let hash =
            warm_up buf (cfg.min_size - warm_start w cfg) (warm_start w cfg) (hash_max w) in
          scan buf (len - cfg.min_size) cfg.min_size len 0 hash)

  -- The `while` of `Process`: the chunks found, and the data that is left. `none`: out of fuel.
  unfoldable pub chunk_loop : ℕ → Bool → List ℕ → Option (List (List ℕ) × List ℕ)
  chunk_loop zero eof buf = none
  chunk_loop (suc fuel) eof buf = elim (more cfg eof (length buf)) [
    | true ↦
        let n = find_chunk_boundary buf (length buf) in
        elim (chunk_loop fuel eof (drop n buf)) [
          | none ↦ none
          | some (chunks, rest) ↦ some (take n buf ∷ chunks, rest)
        ]
    | false ↦ some ([], buf)
  ]

-- The new chunker, beside the chunks found.
abbrev pub finish : Config → Option (List (List ℕ) × List ℕ) → Option (List (List ℕ) × Chunker)
finish cfg none = none
finish cfg (some (chunks, rest)) = some (chunks, record { cfg = cfg; buffer = rest })

module _ (w : ℕ) (gear : ℕ → ℕ) where
  -- `Process`; a block with no bytes stands for `data == nullptr || size == 0`, the end of file.
  unfoldable pub process : Chunker → List ℕ → Option (List (List ℕ) × Chunker)
  process c block =
      let buf = c.buffer ++ block in
      let eof = length block == 0 in
      if length buf == 0
      then some ([], c)
      else finish c.cfg (chunk_loop w gear c.cfg (suc (length buf)) eof buf)

  unfoldable pub finalize : Chunker → Option (List (List ℕ) × Chunker)
  finalize c = process c []

  -- A client's calls: each block in turn, then `Finalize`. The chunks of all calls in order.
  unfoldable pub process_all : Chunker → List (List ℕ) → Option (List (List ℕ))
  process_all c [] = elim (finalize c) [ none ↦ none | some (chunks, c') ↦ some chunks ]
  process_all c (block ∷ blocks) = elim (process c block) [
    | none ↦ none
    | some (chunks, c') ↦ elim (process_all c' blocks) [
      | none ↦ none
      | some rest ↦ some (chunks ++ rest)
    ]
  ]

abbrev pub fresh : Config → Chunker
fresh cfg = record { cfg = cfg; buffer = [] }
