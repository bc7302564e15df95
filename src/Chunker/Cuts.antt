-- ===== src/Chunker/Cuts.antt =====
-- fastcdc/fastcdc.h: what the loop of `Process` computes, as a relation that does not speak of fuel.
use cdc_file_transfer.Prelude.{
  ℕ, zero, suc, ◌≤◌, ◌<◌, ◌≡◌, refl, sym, ap, ◌∙◌, inl, inr, Bool, true, false, List, [], ◌∷◌, ◌++◌,
  arith, Bool-cases, length, take, drop, flatten, take-append-drop, length-take, length-drop,
  append_assoc, some,
}
use cdc_file_transfer.Chunker.{Config, more, find_chunk_boundary, chunk_loop}
use cdc_file_transfer.Chunker.Bounds.{IsValid, find_chunk_boundary_bounds}

-- Each chunk is not empty and at most the maximal size, and at least the minimal size if bytes follow.
abbrev pub Sizes : Config → List (List ℕ) → List ℕ → Type 0
Sizes cfg [] rest = Unit {0}
Sizes cfg (c ∷ chunks) rest =
    (0 < length c)
    × (length c ≤ cfg.max_size)
    × (0 < length (flatten chunks ++ rest) → cfg.min_size ≤ length c)
    × Sizes cfg chunks rest

module _ (w : ℕ) (gear : ℕ → ℕ) (cfg : Config) where
  abbrev pub cut_at : List ℕ → ℕ
  cut_at buf = find_chunk_boundary w gear cfg buf (length buf)

  -- `Cuts eof buf chunks rest`: the data is cut into the chunks, one boundary after the other, as
  -- long as there is more to do, and the rest is left.
  abbrev pub Cuts : Bool → List ℕ → List (List ℕ) → List ℕ → Type 0
  Cuts eof buf [] rest = (more cfg eof (length buf) ≡ false) × (buf ≡ rest)
  Cuts eof buf (chunk ∷ chunks) rest =
      (more cfg eof (length buf) ≡ true)
      × (chunk ≡ take (cut_at buf) buf)
      × Cuts eof (drop (cut_at buf) buf) chunks rest

  pub Cuts-unique :
      (eof : Bool) (buf : List ℕ) (xs ys : List (List ℕ)) (r s : List ℕ)
      → Cuts eof buf xs r
      → Cuts eof buf ys s
      → (xs ≡ ys) × (r ≡ s)
  Cuts-unique eof buf [] [] r s p q = (refl, sym p.1 ∙ q.1)
  Cuts-unique eof buf [] (y ∷ ys) r s p q = cc
  Cuts-unique eof buf (x ∷ xs) [] r s p q = cc
  Cuts-unique eof buf (x ∷ xs) (y ∷ ys) r s p q =
      let ih = Cuts-unique eof (drop (cut_at buf) buf) xs ys r s p.2 q.2 in (cc (ih.0), ih.1)

  -- No byte is lost, added or moved.
  pub flatten-Cuts :
      (eof : Bool) (buf : List ℕ) (chunks : List (List ℕ)) (rest : List ℕ)
      → Cuts eof buf chunks rest
      → flatten chunks ++ rest ≡ buf
  flatten-Cuts eof buf [] rest p = sym p.1
  flatten-Cuts eof buf (c ∷ chunks) rest p =
      append_assoc c (flatten chunks) rest
      ∙ (rw (flatten-Cuts eof (drop (cut_at buf) buf) chunks rest p.2)
          (rw p.1 (take-append-drop (cut_at buf) buf)))

  pub more-pos : (eof : Bool) (n : ℕ) → IsValid cfg → more cfg eof n ≡ true → 0 < n
  unfolding more
  more-pos eof n v h = ground arith

  module _ (wide : 0 < w) (v : IsValid cfg) where
    -- With more fuel than there are bytes the loop ends.
    pub chunk_loop-Cuts :
        (fuel : ℕ) (eof : Bool) (buf : List ℕ)
        → length buf < fuel
        → (chunks : List (List ℕ)) × (rest : List ℕ) × (chunk_loop w gear cfg fuel eof buf
            ≡ some (chunks, rest))
          × Cuts eof buf chunks rest
    unfolding chunk_loop
    chunk_loop-Cuts zero eof buf h = absurd (omega arith)
    chunk_loop-Cuts (suc fuel) eof buf h = elim (Bool-cases (more cfg eof (length buf))) [
      | inr stop ↦ ([], buf, rw (stop, chunk_loop), (stop, refl))
      | inl go ↦
          let n = cut_at buf in
          let b =
            find_chunk_boundary_bounds w gear cfg buf wide v (length buf) (more-pos eof _ v go) in
          let (chunks, rest, e, c) =
            chunk_loop-Cuts fuel eof (drop n buf) (omega (arith, length-drop n buf)) in
          (take n buf ∷ chunks, rest, rw (go, chunk_loop) (rw e), (go, refl, c))
    ]

    -- No chunk is empty or longer than the maximum, and only the last may be shorter than the
    -- minimum: none is, where data is left behind it.
    pub Cuts-Sizes :
        (eof : Bool) (buf : List ℕ) (chunks : List (List ℕ)) (rest : List ℕ)
        → Cuts eof buf chunks rest
        → Sizes cfg chunks rest
    Cuts-Sizes eof buf [] rest p = tt
    Cuts-Sizes eof buf (c ∷ chunks) rest p =
        let n = cut_at buf in
        let b =
          find_chunk_boundary_bounds w gear cfg buf wide v (length buf)
            (more-pos eof (length buf) v p.0) in
        let len : length c ≡ n = rw p.1 (omega (arith, length-take n buf)) in
        let left = flatten-Cuts eof (drop n buf) chunks rest p.2 in
        (
          omega arith,
          omega arith,
          (λ h. ground (arith, b, ap length left, length-drop n buf)),
          Cuts-Sizes eof (drop n buf) chunks rest p.2,
        )
