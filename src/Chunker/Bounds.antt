-- ===== src/Chunker/Bounds.antt =====
-- fastcdc/fastcdc.h: where `FindChunkBoundary` cuts.
use native.Mathlib.Nat.{pow-suc}
use cdc_file_transfer.Prelude.{
  ℕ, zero, suc, ◌+◌, ◌-◌, ◌/◌, ◌^◌, ◌≤◌, ◌<◌, ◌≡◌, refl, inl, inr, false, List, arith, leb,
  Bool-cases,
}
use cdc_file_transfer.Chunker.{
  Config, hash_max, roll, warm_up, scan, threshold, clamp, warm_start, find_chunk_boundary,
  regression_mask,
}
use cdc_file_transfer.Chunker.Mask.{and_zero, pow-pos, regression_mask-ones}

-- What the constructor asserts.
pub record IsValid (cfg : Config) : Type 0 where
  pub positive : 1 ≤ cfg.avg_size
  pub min_avg : cfg.min_size ≤ cfg.avg_size
  pub avg_max : cfg.avg_size ≤ cfg.max_size

module _ (w : ℕ) (gear : ℕ → ℕ) (cfg : Config) (buf : List ℕ) where
  -- A cut is a position of the scan, its end, or the last regression point.
  scan_bounds :
      (n i rc_len rc_mask hash lo hi : ℕ)
      → lo ≤ i
      → i + n ≤ hi
      → lo ≤ rc_len
      → rc_len ≤ hi
      → (lo ≤ scan w gear cfg buf n i rc_len rc_mask hash)
        × (scan w gear cfg buf n i rc_len rc_mask hash ≤ hi)
  unfolding scan
  scan_bounds zero i rc_len rc_mask hash lo hi a b c d = ground arith
  scan_bounds (suc n) i rc_len rc_mask hash lo hi a b c d = ground (
    arith,
    scan_bounds n (i + 1) i (regression_mask w hash) (roll w gear cfg buf i hash) lo hi,
    scan_bounds n (i + 1) rc_len rc_mask (roll w gear cfg buf i hash) lo hi,
  )

  -- With an empty mask the scan cuts where it stands, or behind.
  scan_empty_mask : (n i rc_len hash : ℕ) → 0 < i → i ≤ scan w gear cfg buf n i rc_len 0 hash
  unfolding scan
  scan_empty_mask zero i rc_len hash h = rw (and_zero hash, scan) (omega arith)
  scan_empty_mask (suc n) i rc_len hash h =
      rw (and_zero hash, scan)
        (ground (
          arith,
          scan_bounds n (i + 1) i (regression_mask w hash) (roll w gear cfg buf i hash) i
              (i + 1 + n),
        ))

pow-pos-lt : (w : ℕ) → 0 < w → 2 ≤ 2 ^ w
pow-pos-lt zero h = absurd (omega arith)
pow-pos-lt (suc w) h = omega (arith, pow-suc 2 w, pow-pos w)

div_lt : (m d : ℕ) → 1 ≤ m → 2 ≤ d → m / d < m
div_lt m d h k = grind arith

threshold-lt-ones :
    (w : ℕ) (cfg : Config) → 0 < w → IsValid cfg → cfg.min_size ≡ 0 → threshold w cfg < hash_max w
unfolding threshold
threshold-lt-ones w cfg h v e =
    div_lt (hash_max w) (cfg.avg_size - cfg.min_size + 1) (omega (arith, pow-pos-lt w h))
      (omega arith)

module _ (w : ℕ) (gear : ℕ → ℕ) (cfg : Config) (buf : List ℕ) (wide : 0 < w) (v : IsValid cfg) where
  -- Where no byte is skipped, the hash of all ones keeps the first cut off position 0.
  no_empty_chunk :
      (n rc_len : ℕ) → cfg.min_size ≡ 0 → 0 < n → 0 < scan w gear cfg buf n 0 rc_len 0 (hash_max w)
  unfolding scan
  no_empty_chunk zero rc_len e h = absurd (omega arith)
  no_empty_chunk (suc n) rc_len e h =
      let t : leb (hash_max w) (threshold w cfg) ≡ false =
        ground (arith, threshold-lt-ones w cfg wide v e) in
      rw (and_zero (hash_max w), scan)
        (rw t (
          rw (regression_mask-ones w) (
            scan_empty_mask w gear cfg buf n 1 0 (roll w gear cfg buf 0 (hash_max w))
              (omega arith))))

  scan_cut :
      (m c hash : ℕ)
      → m ≡ cfg.min_size
      → m ≤ c
      → 0 < c
      → (m ≡ 0 → hash ≡ hash_max w)
      → let b = scan w gear cfg buf (c - m) m c 0 hash in (0 < b) × (b ≤ c) × (m ≤ b)
  scan_cut zero c hash e h p k = rw (k refl) (
      ground (
        arith,
        no_empty_chunk (c - 0) c,
        scan_bounds w gear cfg buf (c - 0) 0 c 0 (hash_max w) 0 c,
      ))
  scan_cut (suc m) c hash e h p k =
      ground (arith, scan_bounds w gear cfg buf (c - suc m) (suc m) c 0 hash (suc m) c)

  warm_up_none :
      (m : ℕ)
      → m ≡ 0
      → warm_up w gear cfg buf (m - warm_start w cfg) (warm_start w cfg) (hash_max w) ≡ hash_max w
  unfolding warm_up
  warm_up_none m e = let z : m - warm_start w cfg ≡ 0 = omega arith in rw z

  -- For such hashes and configurations a cut of data that is not empty is not 0, lies in the data
  -- and at most at the maximal size, and at least at the minimal size if the data is longer than
  -- that; data that is not longer is not cut.
  pub find_chunk_boundary_bounds :
      (len : ℕ)
      → 0 < len
      → let b = find_chunk_boundary w gear cfg buf len in
        (0 < b)
        × (b ≤ len)
        × (b ≤ cfg.max_size)
        × (cfg.min_size < len → cfg.min_size ≤ b)
        × (len ≤ cfg.min_size → b ≡ len)
  unfolding find_chunk_boundary clamp
  find_chunk_boundary_bounds len h = elim (Bool-cases (leb len cfg.min_size)) [
    | inl short ↦ rw (short, find_chunk_boundary) (ground arith)
    | inr long ↦
        rw (long, find_chunk_boundary)
          (ground (
            arith,
            scan_cut cfg.min_size (clamp cfg len) _ refl (ground arith) (ground arith)
                (warm_up_none cfg.min_size),
          ))
  ]
