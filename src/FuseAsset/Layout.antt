-- ===== src/FuseAsset/Layout.antt =====
-- cdc_fuse_fs/asset.cc: the chunks of a file, one behind the other through its lists.
use mathlib.Core.Bool.{false≢true}
use cdc_file_transfer.Prelude.{
  ℕ, zero, suc, ◌+◌, ◌-◌, ◌^◌, ◌≤◌, ◌<◌, ◌≡◌, ◌⊎◌, inl, inr, refl, ap, ◌∙◌, true, false, List, [],
  ◌∷◌, ◌++◌, Option, none, some, length, get_elem?, length-append, arith,
}
use cdc_file_transfer.FileChunkMap.{ChunkRef}
use cdc_file_transfer.FuseAsset.{
  IndirectChunkList, AssetProto, sub64, chunk_list_offset, chunk_size,
}

pub sub64_exact : (a b : ℕ) → b ≤ a → a < 2 ^ 64 → sub64 a b ≡ a - b
unfolding sub64
sub64_exact a b h l = omega arith

abbrev pub head? : List ChunkRef → Option ChunkRef
head? [] = none
head? (c ∷ cs) = some c

-- The chunks `cs` of the list `nr`, from the offset `start` of the file on, and those of the lists
-- behind it have `bytes`, up to the end of the file; `n` is the number of chunks and lists.
module _ {Child : Type 0} (lists : List ℕ → List ChunkRef) (chunk_of : List ℕ → List ℕ)
    (p : AssetProto Child) where
  abbrev pub Rest : ℕ → ℕ → List ChunkRef → ℕ → List ℕ → Type 0
  Rest zero nr cs start bytes = false ≡ true
  Rest (suc n) nr [] start bytes =
      ((l : IndirectChunkList) × (get_elem? p.file_indirect_chunks nr ≡ some l)
        × (l.list_offset ≡ start)
        × Rest n (suc nr) (lists l.chunk_list_id) start bytes)
      ⊎ ((get_elem? p.file_indirect_chunks nr ≡ none) × (p.file_size ≡ start) × (bytes ≡ []))
  Rest (suc n) nr (c ∷ cs) start bytes =
      (start ≡ chunk_list_offset nr p + c.ref_offset)
      × (rest : List ℕ) × (bytes ≡ chunk_of c.chunk_id ++ rest)
      × Rest n nr cs (start + length (chunk_of c.chunk_id)) rest

  -- The bytes reach to the end of the file.
  pub Rest-file_size :
      (n nr : ℕ) (cs : List ChunkRef) (start : ℕ) (bytes : List ℕ)
      → Rest n nr cs start bytes
      → start + length bytes ≡ p.file_size
  Rest-file_size zero nr cs start bytes h = absurd (false≢true h)
  Rest-file_size (suc n) nr [] start bytes (inl (l, e, o, h)) =
      Rest-file_size n (suc nr) (lists l.chunk_list_id) start bytes h
  Rest-file_size (suc n) nr [] start bytes (inr (e, o, b)) = omega (arith, o, ap length b)
  Rest-file_size (suc n) nr (c ∷ cs) start bytes (o, rest, b, h) = omega (
    arith,
    ap length b,
    length-append (chunk_of c.chunk_id) rest,
    Rest-file_size n nr cs (start + length (chunk_of c.chunk_id)) rest h,
  )

  pub list_offset_some :
      (nr : ℕ) (l : IndirectChunkList)
      → get_elem? p.file_indirect_chunks nr ≡ some l
      → chunk_list_offset (suc nr) p ≡ l.list_offset
  unfolding chunk_list_offset
  list_offset_some nr l e = rw (chunk_list_offset, e) refl

  pub list_offset_none :
      (nr : ℕ)
      → get_elem? p.file_indirect_chunks nr ≡ none
      → chunk_list_offset (suc nr) p ≡ p.file_size
  unfolding chunk_list_offset
  list_offset_none nr e = rw (chunk_list_offset, e) refl

  -- A list ends where the next one or the end of the file is.
  pub Rest-nil :
      (n nr start : ℕ) (bytes : List ℕ)
      → Rest n nr [] start bytes
      → chunk_list_offset (suc nr) p ≡ start
  Rest-nil zero nr start bytes h = absurd (false≢true h)
  Rest-nil (suc n) nr start bytes (inl (l, e, o, h)) = list_offset_some nr l e ∙ o
  Rest-nil (suc n) nr start bytes (inr (e, o, b)) = list_offset_none nr e ∙ o

  -- The size of a chunk is the length of its data.
  pub chunk_size_lem :
      (n nr : ℕ) (c : ChunkRef) (cs : List ChunkRef) (start : ℕ) (bytes : List ℕ)
      → p.file_size < 2 ^ 64
      → Rest n nr (c ∷ cs) start bytes
      → chunk_size nr c (head? cs) p ≡ length (chunk_of c.chunk_id)
  unfolding chunk_size
  chunk_size_lem zero nr c cs start bytes s h = absurd (false≢true h)
  chunk_size_lem (suc n) nr c [] start bytes s (o, rest, b, h) =
      sub64_exact (chunk_list_offset (suc nr) p) (c.ref_offset + chunk_list_offset nr p)
        (omega (arith, o, Rest-nil n nr _ rest h))
        (omega (arith, s, Rest-nil n nr _ rest h, Rest-file_size n nr [] _ rest h))
      ∙ omega (arith, o, Rest-nil n nr _ rest h)
  chunk_size_lem (suc zero) nr c (d ∷ cs) start bytes s (o, rest, b, h) = absurd (false≢true h)
  chunk_size_lem (suc (suc n)) nr c (d ∷ cs) start bytes s (o, rest, b, (o', rest', b', h)) =
      sub64_exact d.ref_offset c.ref_offset (omega (arith, o, o'))
        (omega (arith, s, o', Rest-file_size (suc n) nr (d ∷ cs) _ rest (o', rest', b', h)))
      ∙ omega (arith, o, o')
