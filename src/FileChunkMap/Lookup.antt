-- ===== src/FileChunkMap/Lookup.antt =====
-- manifest/file_chunk_map.cc: every chunk of a file is found.
use mathlib.Core.Option.{some-injective, some-ne-none}
use cdc_file_transfer.Prelude.{
  ℕ, zero, suc, ◌<◌, ◌≡◌, ◌≢◌, ◌⊎◌, inl, inr, refl, sym, ap, ◌∙◌, true, List, [], ◌∷◌, none, some,
  length, take, get_elem?, Bool-cases, ◌^◌, take-length,
}
use cdc_file_transfer.Prelude.Words.{to_u32, to_u32_exact}
use cdc_file_transfer.Prelude.Dict.{Entry, lookup, insert, same, same_refl}
use cdc_file_transfer.FileChunkMap.{
  FileChunk, File, FileUpdate, ChunkLocation, FileChunkMap, add_chunks, add_files,
  update_id_to_chunk_map, flush_with, flush_updates, Found, find_chunk, new_map,
}
use cdc_file_transfer.FileChunkMap.Find.{
  IsInSync, find_chunk-cases, flush_with-IsInSync, insert_found, insert_other, IsFoundAt,
}
use cdc_file_transfer.FileChunkMap.Count.{HasCount, flush_updates-IsCounted}

-- An id that was put into the map stays in it.
abbrev pub IsListed : List ℕ → List (Entry ChunkLocation) → Type 0
IsListed id ids = (loc : ChunkLocation) × (lookup id ids ≡ some loc)

insert-IsListed :
    (k id : List ℕ) (at_k : ChunkLocation) (ids : List (Entry ChunkLocation))
    → IsListed id ids
    → IsListed id (insert k at_k ids)
insert-IsListed k id at_k ids (loc, h) = elim (Bool-cases (same k id)) [
  | inl t ↦ (at_k, insert_found k id at_k ids t)
  | inr t ↦ (loc, insert_other k id at_k ids t ∙ h)
]

add_chunks-keeps :
    (id path : List ℕ) (n : ℕ) (chunks : List FileChunk) (ids : List (Entry ChunkLocation))
    → IsListed id ids
    → IsListed id (add_chunks path n chunks ids)
unfolding add_chunks
add_chunks-keeps id path n [] ids h = h
add_chunks-keeps id path n (c ∷ chunks) ids h =
    add_chunks-keeps id path (suc n) chunks _ (insert-IsListed c.content_id id _ ids h)

add_chunks-IsListed :
    (id path : List ℕ) (n i : ℕ) (chunks : List FileChunk) (c : FileChunk)
    (ids : List (Entry ChunkLocation))
    → get_elem? chunks i ≡ some c
    → c.content_id ≡ id
    → IsListed id (add_chunks path n chunks ids)
unfolding add_chunks
add_chunks-IsListed id path n i [] c ids e f = absurd (some-ne-none c (sym e))
add_chunks-IsListed id path n zero (d ∷ chunks) c ids e f =
    add_chunks-keeps id path (suc n) chunks _ (
      _,
      insert_found d.content_id id _ ids
          (ap (λ x. same x id) (ap (λ x. x.content_id) (some-injective d c e) ∙ f) ∙ same_refl id),
    )
add_chunks-IsListed id path n (suc i) (d ∷ chunks) c ids e f =
    add_chunks-IsListed id path (suc n) i chunks c _ e f

add_files-keeps :
    (id : List ℕ) (todo : List (Entry File)) (ids : List (Entry ChunkLocation))
    → IsListed id ids
    → IsListed id (add_files todo ids)
unfolding add_files
add_files-keeps id [] ids h = h
add_files-keeps id (e ∷ todo) ids h =
    add_files-keeps id todo _ (add_chunks-keeps id e.key 0 _ ids h)

-- Less than 2^32 chunks
take_all :
    (file : File)
    → length file.chunks < 2 ^ 32
    → take (to_u32 (length file.chunks)) file.chunks ≡ file.chunks
take_all file h =
    ap (λ n. take n file.chunks) (to_u32_exact (length file.chunks) h) ∙ take-length file.chunks

add_files-IsListed :
    (id path : List ℕ) (i : ℕ) (file : File) (c : FileChunk) (todo : List (Entry File))
    (ids : List (Entry ChunkLocation))
    → length file.chunks < 2 ^ 32
    → lookup path todo ≡ some file
    → get_elem? file.chunks i ≡ some c
    → c.content_id ≡ id
    → IsListed id (add_files todo ids)
unfolding add_files
add_files-IsListed id path i file c [] ids s l e f = absurd (some-ne-none file (sym l))
add_files-IsListed id path i file c (x ∷ todo) ids s l e f = elim (Bool-cases (same x.key path)) [
  | inl t ↦ add_files-keeps id todo _ (add_chunks-IsListed id x.key 0 i _ c ids (here t) f)
  | inr t ↦ add_files-IsListed id path i file c todo _ s (rw t at l) e f
]
  where
    here :
        same x.key path ≡ true
        → get_elem? (take (to_u32 (length x.value.chunks)) x.value.chunks) i ≡ some c
    here t =
        ap (λ y. get_elem? (take (to_u32 (length y.chunks)) y.chunks) i)
          (some-injective x.value file (rw t at l))
        ∙ ap (λ y. get_elem? y i) (take_all file s)
        ∙ e

-- Every chunk of a file of less than 2^32 chunks is in the map.
abbrev pub IsComplete : FileChunkMap → Type 0
IsComplete m =
    (path : List ℕ) (file : File) (i : ℕ) (c : FileChunk)
    → length file.chunks < 2 ^ 32
    → lookup path m.path_to_file ≡ some file
    → get_elem? file.chunks i ≡ some c
    → IsListed c.content_id m.id_to_chunk

-- The count is right, and both maps are in sync.
abbrev pub IsFlushed : FileChunkMap → Type 0
IsFlushed m = HasCount m × IsInSync m.path_to_file m.id_to_chunk × IsComplete m

flush_with-IsComplete :
    (us : List FileUpdate) (m : FileChunkMap) → IsComplete m → IsComplete (flush_with us m)
unfolding flush_with update_id_to_chunk_map
flush_with-IsComplete [] m h = h
flush_with-IsComplete (u ∷ us) m h =
    λ path file i c s l e. add_files-IsListed c.content_id path i file c _ [] s l e refl

-- FlushUpdates keeps that each path has one file, that the count of chunks is that of all files,
-- that every place in the id map is one of its id's chunks, and that every chunk of a file of less
-- than 2^32 chunks is in the id map.
pub flush_updates-IsFlushed : (m : FileChunkMap) → IsFlushed m → IsFlushed (flush_updates m)
unfolding flush_updates
flush_updates-IsFlushed m (c, s, k) = (
  flush_updates-IsCounted m c,
  flush_with-IsInSync m.file_updates m (flush_updates-IsCounted m c) s,
  flush_with-IsComplete m.file_updates m k,
)

pub new_map-IsFlushed : IsFlushed new_map
unfolding new_map
new_map-IsFlushed = (
  (tt, refl),
  (λ id loc e. absurd (some-ne-none loc (sym e))),
  (λ path file i c s l e. absurd (some-ne-none file (sym l))),
)

-- In a map whose count is right and whose two parts are in sync, FindChunk finds an id at a place
-- of a file where a chunk of that id stands, with the chunk's offset and the size that reaches to
-- the next chunk's offset, or behind the last one to the file's size, unless that end lies before
-- the offset or 2^32 bytes or more behind it; it fails only if no file of less than 2^32 chunks has
-- a chunk of that id.
pub find_chunk_lem :
    (id : List ℕ) (m : FileChunkMap)
    → IsFlushed m
    → ((find_chunk id m ≡ none)
        × ((path : List ℕ) (file : File) (i : ℕ) (c : FileChunk)
            → length file.chunks < 2 ^ 32
            → lookup path m.path_to_file ≡ some file
            → get_elem? file.chunks i ≡ some c
            → c.content_id ≢ id))
      ⊎ ((f : Found) × (file : File) × (c : FileChunk) × (find_chunk id m ≡ some f)
          × (lookup f.found_path m.path_to_file ≡ some file)
          × (c.content_id ≡ id)
          × IsFoundAt f file c)
find_chunk_lem id m (n, s, k) = elim (find_chunk-cases id m s) [
  | inl (e, t) ↦ inl (
    e,
    (λ path file i c b l g f.
        let (loc, h) = k path file i c b l g in
        some-ne-none loc (sym h ∙ (ap (λ x. lookup x m.id_to_chunk) f ∙ t))),
  )
  | inr found ↦ inr found
]
