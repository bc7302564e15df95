-- ===== src/Chunker/Streaming.antt =====
-- fastcdc/fastcdc.h: the chunks do not depend on how the input is split into calls of `Process`.
use cdc_file_transfer.Prelude.{
  ℕ, zero, suc, ◌+◌, ◌-◌, ◌≤◌, ◌<◌, ◌≡◌, refl, sym, ap, ◌∙◌, inl, inr, Bool, true, false, List, [],
  ◌∷◌, ◌++◌, ◌==◌, arith, Bool-cases, length, drop, flatten, All, get_or-append, take-append_le,
  drop-append_le, length-append, append-nil, append_assoc, some, leb,
}
use cdc_file_transfer.Chunker.{
  Config, hash_max, more, clamp, roll, warm_up, warm_start, scan, find_chunk_boundary,
  regression_mask, process, finalize, process_all, fresh,
}
use cdc_file_transfer.Chunker.Bounds.{IsValid, find_chunk_boundary_bounds}
use cdc_file_transfer.Chunker.Cuts.{
  Cuts, cut_at, Sizes, Cuts-unique, flatten-Cuts, chunk_loop-Cuts, Cuts-Sizes,
}

boundary_of_long :
    (w : ℕ) (gear : ℕ → ℕ) (cfg : Config) (buf : List ℕ)
    → IsValid cfg
    → (len : ℕ) → leb len cfg.min_size ≡ false
    → cfg.max_size ≤ len
    → find_chunk_boundary w gear cfg buf len
      ≡ scan w gear cfg buf
          (cfg.max_size - cfg.min_size)
          cfg.min_size
          cfg.max_size
          0
          (warm_up w gear cfg buf (cfg.min_size - warm_start w cfg) (warm_start w cfg) (hash_max w))
unfolding find_chunk_boundary
boundary_of_long w gear cfg buf v len long h =
    let e : clamp cfg len ≡ cfg.max_size = unfold clamp in ground arith in
    rw (long, find_chunk_boundary) (rw e)

module _ (w : ℕ) (gear : ℕ → ℕ) (cfg : Config) (a b : List ℕ) where
  roll-append :
      (i hash : ℕ) → i < length a → roll w gear cfg (a ++ b) i hash ≡ roll w gear cfg a i hash
  unfolding roll
  roll-append i hash h = rw (get_or-append a b i 0 h)

  warm_up-append :
      (n i hash : ℕ)
      → i + n ≤ length a
      → warm_up w gear cfg (a ++ b) n i hash ≡ warm_up w gear cfg a n i hash
  unfolding warm_up
  warm_up-append zero i hash h = refl
  warm_up-append (suc n) i hash h =
      rw (roll-append i hash (omega arith)) (warm_up-append n (i + 1) _ (omega arith))

  scan-append :
      (n i rc_len rc_mask hash : ℕ)
      → i + n ≤ length a
      → scan w gear cfg (a ++ b) n i rc_len rc_mask hash ≡ scan w gear cfg a n i rc_len rc_mask hash
  unfolding scan
  scan-append zero i rc_len rc_mask hash h = refl
  scan-append (suc n) i rc_len rc_mask hash h = ground (
    arith,
    roll-append i hash,
    scan-append n (i + 1) i (regression_mask w hash) (roll w gear cfg a i hash),
    scan-append n (i + 1) rc_len rc_mask (roll w gear cfg a i hash),
  )

  start-le : warm_start w cfg ≤ cfg.min_size
  unfolding warm_start
  start-le = ground arith

  -- Where the data reaches the maximal size, the bytes behind it do not move the cut.
  boundary-append :
      0 < w
      → IsValid cfg
      → cfg.max_size ≤ length a
      → cut_at w gear cfg (a ++ b) ≡ cut_at w gear cfg a
  boundary-append wide v h = elim (Bool-cases (leb (length a) cfg.min_size)) [
    | inl short ↦ ground (
      arith,
      length-append a b,
      find_chunk_boundary_bounds w gear cfg a wide v (length a) (omega arith),
      find_chunk_boundary_bounds w gear cfg (a ++ b) wide v (length (a ++ b)),
    )
    | inr long ↦
        rw
          (boundary_of_long w gear cfg (a ++ b) v (length (a ++ b))
            (ground (arith, length-append a b)) (omega (arith, length-append a b)))
          (rw (boundary_of_long w gear cfg a v (length a) long h) (
            rw
              (warm_up-append (cfg.min_size - warm_start w cfg) (warm_start w cfg) (hash_max w)
                (omega (arith, start-le)))
              (scan-append (cfg.max_size - cfg.min_size) cfg.min_size cfg.max_size 0 _
                (omega arith))))
  ]

module _ (w : ℕ) (gear : ℕ → ℕ) (cfg : Config) (wide : 0 < w) (v : IsValid cfg) where
  -- Data that comes later continues the cuts.
  Cuts-append :
      (eof : Bool) (a b : List ℕ) (xs ys : List (List ℕ)) (r s : List ℕ)
      → Cuts w gear cfg false a xs r
      → Cuts w gear cfg eof (r ++ b) ys s
      → Cuts w gear cfg eof (a ++ b) (xs ++ ys) s
  Cuts-append eof a b [] ys r s p q = rw p.1 q
  Cuts-append eof a b (x ∷ xs) ys r s p q =
      let n = cut_at w gear cfg a in
      let long : cfg.max_size ≤ length a = unfold more in ground arith in
      let same = boundary-append w gear cfg a b wide v long in
      let fits = find_chunk_boundary_bounds w gear cfg a wide v (length a) (omega arith) in
      let ih = Cuts-append eof (drop n a) b xs ys r s p.2 q in
      (
        unfold more in ground (arith, length-append a b),
        rw same (rw (take-append_le n a b fits.1) p.1),
        rw same (rw (drop-append_le n a b fits.1) ih),
      )

  -- One call that is not the last: what it cuts, and what it keeps.
  process-Cuts :
      (buf block : List ℕ)
      → 0 < length block
      → (xs : List (List ℕ)) × (r : List ℕ) × (process w gear
            (record { cfg = cfg; buffer = buf })
            block
          ≡ some (xs, record { cfg = cfg; buffer = r }))
        × Cuts w gear cfg false (buf ++ block) xs r
  unfolding process
  process-Cuts buf block h =
      let (xs, r, e, c) =
        chunk_loop-Cuts w gear cfg wide v (suc (length (buf ++ block))) false (buf ++ block)
          (omega arith) in
      let e1 : (length block == 0) ≡ false = ground arith in
      let e2 : (length (buf ++ block) == 0) ≡ false = ground (arith, length-append buf block) in
      (xs, r, rw e1 (rw e2 (rw e)), c)

  Cuts-eof :
      (buf : List ℕ) (xs : List (List ℕ)) (r : List ℕ) → Cuts w gear cfg true buf xs r → r ≡ []
  Cuts-eof buf (x ∷ xs) r p = Cuts-eof (drop (cut_at w gear cfg buf) buf) xs r p.2
  Cuts-eof [] [] r p = sym p.1
  Cuts-eof (b ∷ buf) [] r p = unfold more in ground arith

  finalize-Cuts :
      (buf : List ℕ)
      → (xs : List (List ℕ)) × (finalize w gear (record { cfg = cfg; buffer = buf })
          ≡ some (xs, record { cfg = cfg; buffer = [] }))
        × Cuts w gear cfg true buf xs []
  unfolding finalize process
  finalize-Cuts [] = ([], refl, (unfold more in ground arith, refl))
  finalize-Cuts (b ∷ buf) =
      let (xs, r, e, c) =
        chunk_loop-Cuts w gear cfg wide v (suc (length (b ∷ buf))) true (b ∷ buf) (omega arith) in
      let z = Cuts-eof (b ∷ buf) xs r c in
      let e2 : (length (b ∷ buf) == 0) ≡ false = ground arith in
      (xs, rw (append-nil buf) (rw e2 (rw e (rw z))), rw z at c)

  pub Cuts-nil : Cuts w gear cfg true [] [] []
  Cuts-nil = (unfold more in ground arith, refl)

  -- A call of `Process` finds the next of the chunks that the whole input is cut into.
  pub process-next :
      (buf block rest : List ℕ) (chunks : List (List ℕ))
      → 0 < length block
      → Cuts w gear cfg true (buf ++ (block ++ rest)) chunks []
      → (xs ys : List (List ℕ)) × (r : List ℕ) × (process w gear
            (record { cfg = cfg; buffer = buf })
            block
          ≡ some (xs, record { cfg = cfg; buffer = r }))
        × (chunks ≡ xs ++ ys)
        × Cuts w gear cfg true (r ++ rest) ys []
  process-next buf block rest chunks h c =
      let (xs, r, e, c1) = process-Cuts buf block h in
      let (ys, s, _, c2) =
        chunk_loop-Cuts w gear cfg wide v (suc (length (r ++ rest))) true (r ++ rest)
          (omega arith) in
      let c3 = rw (Cuts-eof (r ++ rest) ys s c2) at c2 in
      let both = Cuts-append true (buf ++ block) rest xs ys r [] c1 c3 in
      (
        xs,
        ys,
        r,
        e,
        (Cuts-unique w gear cfg true (buf ++ (block ++ rest)) chunks (xs ++ ys) [] [] c
            (rw (append_assoc buf block rest) at both)).0,
        c3,
      )

  pub process-last :
      (buf : List ℕ) (chunks : List (List ℕ))
      → Cuts w gear cfg true buf chunks []
      → process w gear (record { cfg = cfg; buffer = buf }) []
        ≡ some (chunks, record { cfg = cfg; buffer = [] })
  unfolding finalize
  process-last buf chunks c =
      let (xs, e, c1) = finalize-Cuts buf in
      e
      ∙ ap (λ (x : List (List ℕ)). some (x, record { cfg = cfg; buffer = [] }))
          (Cuts-unique w gear cfg true buf xs chunks [] [] c1 c).0

  process_all-Cuts :
      (buf : List ℕ) (blocks : List (List ℕ))
      → All (λ block. 0 < length block) blocks
      → (xs : List (List ℕ)) × (process_all w gear (record { cfg = cfg; buffer = buf }) blocks
          ≡ some xs)
        × Cuts w gear cfg true (buf ++ flatten blocks) xs []
  unfolding process_all
  process_all-Cuts buf [] h =
      let (xs, e, c) = finalize-Cuts buf in (xs, rw (e, process_all), rw (append-nil buf) c)
  process_all-Cuts buf (block ∷ blocks) h =
      let (xs, r, e, c) = process-Cuts buf block h.0 in
      let (ys, e', c') = process_all-Cuts r blocks h.1 in
      (
        xs ++ ys,
        rw (e, process_all) (rw e'),
        rw (← append_assoc buf block (flatten blocks))
            (Cuts-append true (buf ++ block) (flatten blocks) xs ys r [] c c'),
      )

pub process_once-Cuts :
    (w : ℕ) (gear : ℕ → ℕ) (cfg : Config)
    → 0 < w
    → IsValid cfg
    → (input : List ℕ)
    → (xs : List (List ℕ)) × (process_all w gear (fresh cfg) (input ∷ []) ≡ some xs)
      × Cuts w gear cfg true input xs []
unfolding process_all finalize process
process_once-Cuts w gear cfg wide v [] = ([], refl, (unfold more in ground arith, refl))
process_once-Cuts w gear cfg wide v (b ∷ input) =
    let (xs, e, c) = process_all-Cuts w gear cfg wide v [] ((b ∷ input) ∷ []) (omega arith, tt) in
    (xs, e, rw (append-nil input) at c)

-- For such hashes and configurations the chunks do not depend on how the input is split into blocks
-- that are not empty: they are the chunks of one call with all of it.
pub process_all-eq-process_once :
    (w : ℕ) (gear : ℕ → ℕ) (cfg : Config)
    → 0 < w
    → IsValid cfg
    → (blocks : List (List ℕ)) → All (λ block. 0 < length block) blocks
    → (chunks : List (List ℕ)) × (process_all w gear (fresh cfg) blocks ≡ some chunks)
      × (process_all w gear (fresh cfg) (flatten blocks ∷ []) ≡ some chunks)
process_all-eq-process_once w gear cfg wide v blocks h =
    let (xs, e, c) = process_all-Cuts w gear cfg wide v [] blocks h in
    let (ys, e', c') = process_once-Cuts w gear cfg wide v (flatten blocks) in
    (xs, e, e' ∙ ap some (sym (Cuts-unique w gear cfg true (flatten blocks) xs ys [] [] c c').0))

-- For hashes of at least one bit and a configuration that the constructor's assertions accept, the
-- calls with any blocks that are not empty end, and their chunks in order are the input; none is
-- empty or above the maximal size, and none with data behind it is below the minimal size.
pub process_all_partition :
    (w : ℕ) (gear : ℕ → ℕ) (cfg : Config)
    → 0 < w
    → IsValid cfg
    → (blocks : List (List ℕ)) → All (λ block. 0 < length block) blocks
    → (chunks : List (List ℕ)) × (process_all w gear (fresh cfg) blocks ≡ some chunks)
      × (flatten chunks ≡ flatten blocks)
      × Sizes cfg chunks []
process_all_partition w gear cfg wide v blocks h =
    let (xs, e, c) = process_all-Cuts w gear cfg wide v [] blocks h in
    (
      xs,
      e,
      sym (append-nil (flatten xs)) ∙ flatten-Cuts w gear cfg true (flatten blocks) xs [] c,
      Cuts-Sizes w gear cfg wide v true (flatten blocks) xs [] c,
    )
