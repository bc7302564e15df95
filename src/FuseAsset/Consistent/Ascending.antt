-- ===== src/FuseAsset/Consistent/Ascending.antt =====
-- cdc_fuse_fs/asset.cc: what `Asset::IsConsistent` promises of the offsets of a file's chunks.
use mathlib.Core.Bool.{false≢true}
use mathlib.Core.Option.{some-injective, some-ne-none}
use cdc_file_transfer.Prelude.{
  ℕ, suc, ◌+◌, ◌≤◌, ◌<◌, ◌≡◌, ◌⊎◌, inl, inr, refl, sym, subst, Bool, true, false, not, ◌&&◌, ◌||◌,
  List, [], ◌∷◌, ◌++◌, map, Option, none, some, length, get_elem?, ltb, ◌==◌, arith, Option-cases,
  if◌then◌else◌,
}
use cdc_file_transfer.Prelude.Words.{add64}
use cdc_file_transfer.FileChunkMap.{ChunkRef}
use cdc_file_transfer.FuseAsset.{IndirectChunkList, Asset}
use cdc_file_transfer.FuseAsset.Read.{is_file}
use cdc_file_transfer.FuseAsset.Consistent.{
  is_nil, check_direct, check_chunks, check_loaded, is_list_disordered, check_lists, last_offset,
  is_below_size, fits_type, is_consistent,
}

-- From `first` on, no offset is below the one before it, and `last` is the last one.
abbrev pub Ascends : ℕ → List ℕ → ℕ → Type 0
Ascends first [] last = first ≡ last
Ascends first (o ∷ offsets) last = (first ≤ o) × Ascends o offsets last

Ascends-append :
    (a b c : ℕ) (xs ys : List ℕ) → Ascends a xs b → Ascends b ys c → Ascends a (xs ++ ys) c
Ascends-append a b c [] ys h k = subst (λ x. Ascends x ys c) (sym h) k
Ascends-append a b c (x ∷ xs) ys (l, h) k = (l, Ascends-append x b c xs ys h k)

-- A test that gives a result has taken the other branch.
passed :
    (t : Bool) (r : Option ℕ) (n : ℕ)
    → (if t then none else r) ≡ some n
    → (t ≡ false) × (r ≡ some n)
passed true r n e = absurd (some-ne-none n (sym e))
passed false r n e = (refl, e)

check_direct-Ascends :
    (total last : ℕ) (cs : List ChunkRef)
    → check_direct total cs ≡ some last
    → Ascends total (map (λ c. c.ref_offset) cs) last
unfolding check_direct
check_direct-Ascends total last [] e = some-injective total last e
check_direct-Ascends total last (c ∷ cs) e =
    let (t, f) = passed (ltb c.ref_offset total) _ last e in
    (ground (arith, t), check_direct-Ascends c.ref_offset last cs f)

or_false : (a b : Bool) → (a || b) ≡ false → b ≡ false
or_false true b e = absurd (false≢true (sym e))
or_false false b e = e

check_chunks-Ascends :
    (list_offset total last : ℕ) (first : Bool) (cs : List ChunkRef)
    → check_chunks list_offset first total cs ≡ some last
    → Ascends total (map (λ c. add64 c.ref_offset list_offset) cs) last
unfolding check_chunks
check_chunks-Ascends o total last first [] e = some-injective total last e
check_chunks-Ascends o total last first (c ∷ cs) e =
    let (t, f) =
      passed (first && not (c.ref_offset == 0) || ltb (add64 c.ref_offset o) total) _ last e in
    let below = or_false (first && not (c.ref_offset == 0)) _ t in
    (ground (arith, below), check_chunks-Ascends o (add64 c.ref_offset o) last false cs f)

-- The offsets of all chunks in the lists, from the list of an index on
abbrev pub list_offsets : (ℕ → List ChunkRef) → ℕ → List IndirectChunkList → List ℕ
list_offsets fetched i [] = []
list_offsets fetched i (l ∷ lists) =
    map (λ c. add64 c.ref_offset l.list_offset) (fetched i) ++ list_offsets fetched (suc i) lists

loaded_step :
    (no_direct : Bool) (prev i total last : ℕ) (loaded : List (Option (List ChunkRef)))
    (list : List ChunkRef) (l : IndirectChunkList) (lists : List IndirectChunkList)
    → get_elem? loaded i ≡ some (some list)
    → check_lists no_direct prev loaded i total (l ∷ lists) ≡ some last
    → (next : ℕ) × (check_chunks l.list_offset true total list ≡ some next)
      × (check_lists no_direct prev loaded (suc i) next lists ≡ some last)
unfolding check_lists check_loaded
loaded_step no_direct prev i total last loaded list l lists g e =
    let (t, f) = passed (is_list_disordered no_direct prev i l.list_offset total) _ last e in
    elim (Option-cases (check_chunks l.list_offset true total list)) [
      | inl k ↦ absurd (some-ne-none last (sym (rw (g, k) at f)))
      | inr (next, k) ↦ (next, k, rw (g, k) at f)
    ]

check_lists-Ascends :
    (no_direct : Bool) (prev i total last : ℕ) (loaded : List (Option (List ChunkRef)))
    (fetched : ℕ → List ChunkRef) (lists : List IndirectChunkList)
    → ((j : ℕ) → j < i + length lists → get_elem? loaded j ≡ some (some (fetched j)))
    → check_lists no_direct prev loaded i total lists ≡ some last
    → Ascends total (list_offsets fetched i lists) last
unfolding check_lists
check_lists-Ascends no_direct prev i total last loaded fetched [] h e = some-injective total last e
check_lists-Ascends no_direct prev i total last loaded fetched (l ∷ lists) h e =
    let (next, f, g) =
      loaded_step no_direct prev i total last loaded (fetched i) l lists (h i (omega arith)) e in
    Ascends-append total next last _ (list_offsets fetched (suc i) lists)
      (check_chunks-Ascends l.list_offset total next true (fetched i) f)
      (check_lists-Ascends no_direct prev (suc i) next last loaded fetched lists
        (λ j k. h j (omega (arith, k))) g)

is_below_size-some :
    (size : ℕ) (r : Option ℕ)
    → is_below_size size r ≡ true
    → (last : ℕ) × (r ≡ some last) × ((last < size) ⊎ ((last ≡ 0) × (size ≡ 0)))
unfolding is_below_size
is_below_size-some size none e = absurd (false≢true e)
is_below_size-some size (some total) e = (total, refl, ground (arith, e))

module _ {Child : Type 0} where
  last_offset-Ascends :
      (a : Asset Child) (fetched : ℕ → List ChunkRef) (last : ℕ)
      → ((i : ℕ)
          → i < length a.proto.file_indirect_chunks
          → get_elem? a.file_chunk_lists i ≡ some (some (fetched i)))
      → last_offset a ≡ some last
      → Ascends 0
          (map (λ c. c.ref_offset) a.proto.file_chunks
            ++ list_offsets fetched 0 a.proto.file_indirect_chunks)
          last
  unfolding last_offset
  last_offset-Ascends a fetched last h e =
      elim (Option-cases (check_direct 0 a.proto.file_chunks)) [
        | inl t ↦ absurd (some-ne-none last (sym (rw (last_offset, t) at e)))
        | inr (prev, t) ↦
            Ascends-append 0 prev last _ (list_offsets fetched 0 a.proto.file_indirect_chunks)
              (check_direct-Ascends 0 prev a.proto.file_chunks t)
              (check_lists-Ascends (is_nil a.proto.file_chunks) prev 0 prev last a.file_chunk_lists
                fetched a.proto.file_indirect_chunks (λ i k. h i (omega (arith, k)))
                (rw (last_offset, t) at e))
      ]

  -- Where IsConsistent returns true for a file all of whose indirect lists are loaded, the absolute
  -- offsets of all its chunks, the direct ones and then those of each list, never decrease, and the
  -- last one is below the size of the file, or both are 0.
  pub is_consistent_lem :
      (a : Asset Child) (fetched : ℕ → List ChunkRef)
      → is_file a.proto.asset_type ≡ true
      → ((i : ℕ)
          → i < length a.proto.file_indirect_chunks
          → get_elem? a.file_chunk_lists i ≡ some (some (fetched i)))
      → is_consistent a ≡ true
      → (last : ℕ) × Ascends 0
          (map (λ c. c.ref_offset) a.proto.file_chunks
            ++ list_offsets fetched 0 a.proto.file_indirect_chunks)
          last
        × ((last < a.proto.file_size) ⊎ ((last ≡ 0) × (a.proto.file_size ≡ 0)))
  unfolding is_consistent
  is_consistent_lem a fetched f h e =
      let (last, g, k) = is_below_size-some a.proto.file_size (last_offset a) below in
      (last, last_offset-Ascends a fetched last h g, k)
    where
      second : (x y : Bool) → (x && y) ≡ true → y ≡ true
      second true y t = t
      second false y t = absurd (false≢true t)

      below : is_below_size a.proto.file_size (last_offset a) ≡ true
      below = rw f at (second (fits_type a.proto.asset_type a) _ e)
