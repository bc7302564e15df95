-- ===== src/FileChunkMap.antt =====
-- manifest/file_chunk_map.cc: `FileChunkMap` without its statistics. Paths and content ids are strings
-- of bytes, and a pointer to a path is that path.
pub mod Count
pub mod Find
pub mod Lookup
use cdc_file_transfer.Prelude.{
  ℕ, zero, suc, ◌+◌, ◌-◌, ◌^◌, ◌*◌, ◌%◌, List, [], ◌∷◌, ◌++◌, map, Option, none, some, length, take,
  get_elem?, ◌==◌, if◌then◌else◌,
}
use cdc_file_transfer.Prelude.Words.{add64, to_u32}
use cdc_file_transfer.Prelude.Dict.{Entry, lookup, insert, remove}

pub record FileChunk : Type 0 where
  pub content_id : List ℕ
  pub offset : ℕ

-- `ChunkRefProto`
pub record ChunkRef : Type 0 where
  pub chunk_id : List ℕ
  pub ref_offset : ℕ

pub record File : Type 0 where
  pub chunks : List FileChunk
  pub file_size : ℕ

-- `FileUpdate` with the fields that each type uses.
pub data FileUpdate : Type 0 where
  update_init : List ℕ → ℕ → List FileChunk → FileUpdate
  update_append : List ℕ → List FileChunk → FileUpdate
  update_remove : List ℕ → FileUpdate
  update_clear : FileUpdate

pub record ChunkLocation : Type 0 where
  pub path : List ℕ
  pub index : ℕ

pub record FileChunkMap : Type 0 where
  pub path_to_file : List (Entry File)
  pub id_to_chunk : List (Entry ChunkLocation)
  pub total_chunks : ℕ
  pub file_updates : List FileUpdate

unfoldable pub queue_update : FileUpdate → FileChunkMap → FileChunkMap
queue_update u m = record m { file_updates = m.file_updates ++ u ∷ [] }

-- `Init`, with no chunks for a null pointer.
unfoldable pub init : List ℕ → ℕ → List FileChunk → FileChunkMap → FileChunkMap
init path size chunks m = queue_update (update_init path size chunks) m

pub chunk_at : ℕ → ChunkRef → FileChunk
chunk_at list_offset ch = record {
  content_id = ch.chunk_id;
  offset = add64 ch.ref_offset list_offset;
}

-- `AppendCopy`, and `AppendMove`, which leaves the list without its ids.
unfoldable pub append : List ℕ → List ChunkRef → ℕ → FileChunkMap → FileChunkMap
append path list list_offset m =
    queue_update (update_append path (map (chunk_at list_offset) list)) m

pub remove_file : List ℕ → FileChunkMap → FileChunkMap
remove_file path m = queue_update (update_remove path) m

pub clear : FileChunkMap → FileChunkMap
clear m = queue_update update_clear m

-- `path_to_file_[path]`, which makes an empty file where there is none.
pub file_at : List ℕ → List (Entry File) → File
file_at path files = elim (lookup path files) [
  | none ↦ record { chunks = []; file_size = 0 }
  | some file ↦ file
]

-- The case of `kRemove`, with what `find` returns.
pub remove_found : List ℕ → Option File → List (Entry File) → ℕ → List (Entry File) × ℕ
remove_found path none files total = (files, total)
remove_found path (some file) files total = (remove path files, total - length file.chunks)

-- The switch of `FlushUpdates`: the files and `total_chunks_`.
pub apply_update : FileUpdate → List (Entry File) × ℕ → List (Entry File) × ℕ
apply_update (update_init path size chunks) (files, total) = (
  insert path (record { chunks = chunks; file_size = size }) files,
  total - length (file_at path files).chunks + length chunks,
)
apply_update (update_append path chunks) (files, total) =
    let file = file_at path files in
    (insert path (record file { chunks = file.chunks ++ chunks }) files, total + length chunks)
apply_update (update_remove path) (files, total) = remove_found path (lookup path files) files total
apply_update update_clear (files, total) = ([], 0)

pub apply_updates : List FileUpdate → List (Entry File) × ℕ → List (Entry File) × ℕ
apply_updates [] state = state
apply_updates (u ∷ us) state = apply_updates us (apply_update u state)

-- The inner loop of `UpdateIdToChunkMap`, from index `n` on.
pub add_chunks :
    List ℕ → ℕ → List FileChunk → List (Entry ChunkLocation) → List (Entry ChunkLocation)
add_chunks path n [] ids = ids
add_chunks path n (c ∷ chunks) ids =
    add_chunks path (suc n) chunks (insert c.content_id (record { path = path; index = n }) ids)

-- The number of chunks is cast to 32 bits.
pub add_files : List (Entry File) → List (Entry ChunkLocation) → List (Entry ChunkLocation)
add_files [] ids = ids
add_files (e ∷ files) ids =
    add_files files (add_chunks e.key 0 (take (to_u32 (length e.value.chunks)) e.value.chunks) ids)

pub update_id_to_chunk_map : List (Entry File) → List (Entry ChunkLocation)
update_id_to_chunk_map files = add_files files []

pub flush_with : List FileUpdate → FileChunkMap → FileChunkMap
flush_with [] m = m
flush_with (u ∷ us) m =
    let (files, total) = apply_updates (u ∷ us) (m.path_to_file, m.total_chunks) in
    record {
      path_to_file = files;
      id_to_chunk = update_id_to_chunk_map files;
      total_chunks = total;
      file_updates = [];
    }

pub flush_updates : FileChunkMap → FileChunkMap
flush_updates m = flush_with m.file_updates m

-- What `FindChunk` stores.
pub record Found : Type 0 where
  pub found_path : List ℕ
  pub found_offset : ℕ
  pub found_size : ℕ
  pub found_index : ℕ

-- The difference of two 64-bit offsets, cast to 32 bits.
pub size_between : ℕ → ℕ → ℕ
size_between next_offset this_offset = to_u32 ((next_offset + 2 ^ 64 - this_offset) % 2 ^ 64)

pub next_offset_of : File → ℕ → ℕ
next_offset_of file n =
    if n + 1 == length file.chunks
    then file.file_size
    else elim (get_elem? file.chunks (n + 1)) [ none ↦ file.file_size | some c ↦ c.offset ]

-- Where the assertions do not hold, the model finds nothing.
pub find_in : ChunkLocation → Option File → Option Found
find_in loc none = none
find_in loc (some file) = elim (get_elem? file.chunks loc.index) [
  | none ↦ none
  | some c ↦ some (record {
    found_path = loc.path;
    found_offset = c.offset;
    found_size = size_between (next_offset_of file loc.index) c.offset;
    found_index = loc.index;
  })
]

pub find_chunk : List ℕ → FileChunkMap → Option Found
find_chunk id m = elim (lookup id m.id_to_chunk) [
  | none ↦ none
  | some loc ↦ find_in loc (lookup loc.path m.path_to_file)
]

-- `Lookup` stores the path, the offset and the size.
pub lookup_chunk : List ℕ → FileChunkMap → Option (List ℕ × ℕ × ℕ)
lookup_chunk id m = elim (find_chunk id m) [
  | none ↦ none
  | some f ↦ some (f.found_path, f.found_offset, f.found_size)
]

pub new_map : FileChunkMap
new_map = record { path_to_file = []; id_to_chunk = []; total_chunks = 0; file_updates = [] }
