-- ===== src/Tests/Stores.antt =====
-- The manifest's chunk map and the data stores on small inputs.
use mathlib.Core.Bool.{false≢true}
use cdc_file_transfer.Prelude.{
  ℕ, zero, suc, ◌^◌, ◌<◌, ◌≡◌, ◌≢◌, ◌⊎◌, inl, refl, List, [], ◌∷◌, Option, some, none, length,
  get_elem?, take, drop, All, ◌↔◌, true, false,
}
use cdc_file_transfer.Prelude.Dict.{lookup}
use cdc_file_transfer.FileChunkMap.{
  FileChunk, File, FileChunkMap, Found, init, append, queue_update, flush_updates, new_map,
  find_chunk,
}
use cdc_file_transfer.FileChunkMap.Find.{IsFoundAt}
use cdc_file_transfer.FileChunkMap.Lookup.{
  IsFlushed, flush_updates-IsFlushed, new_map-IsFlushed, find_chunk_lem,
}
use cdc_file_transfer.Prelude.Status.{ok, ◌>>=◌}
use cdc_file_transfer.DataStore.{new_task, Reader}
use cdc_file_transfer.DataStore.Right.{IsReader}
use cdc_file_transfer.DataStore.Mem.{
  MemStore, mem_writer, get_all, put, remove_chunk, get_range, contains,
}
use cdc_file_transfer.DataStore.Mem.Refines.{mem_data_store_lem, mem_writer-IsLawful}
use cdc_file_transfer.DataStore.Mem.Serve.{mem_reader, mem_reader-IsReader, mem-Holds}
use cdc_file_transfer.DataProvider.{
  Cache, get_part, get_tasks, write_lock_all, is_locked, content_mutex,
}
use cdc_file_transfer.DataProvider.Locks.{IsRising, write_lock_all_lem}
use cdc_file_transfer.DataProvider.Reads.{Keeps, IsAnswer, CacheHolds, get_part_lem}
use cdc_file_transfer.DataProvider.Lists.{IsServedList, get_tasks_lem}

abbrev chunk_map : FileChunkMap
chunk_map =
    append (1 ∷ []) (record { chunk_id = 8 ∷ []; ref_offset = 0 } ∷ []) 100
      (init (1 ∷ []) 150 (record { content_id = 7 ∷ []; offset = 0 } ∷ []) new_map)

chunk_map-IsFlushed : IsFlushed chunk_map
unfolding append init queue_update
chunk_map-IsFlushed = new_map-IsFlushed

flush_updates-IsFlushed_example : IsFlushed (flush_updates chunk_map)
flush_updates-IsFlushed_example = flush_updates-IsFlushed chunk_map chunk_map-IsFlushed

find_chunk_lem_example :
    ((find_chunk (8 ∷ []) (flush_updates chunk_map) ≡ none)
      × ((path : List ℕ) (file : File) (i : ℕ) (c : FileChunk)
          → length file.chunks < 2 ^ 32
          → lookup path (flush_updates chunk_map).path_to_file ≡ some file
          → get_elem? file.chunks i ≡ some c
          → c.content_id ≢ (8 ∷ [])))
    ⊎ ((f : Found) × (file : File) × (c : FileChunk) × (find_chunk
            (8 ∷ [])
            (flush_updates chunk_map)
          ≡ some f)
        × (lookup f.found_path (flush_updates chunk_map).path_to_file ≡ some file)
        × (c.content_id ≡ 8 ∷ [])
        × IsFoundAt f file c)
find_chunk_lem_example =
    find_chunk_lem (8 ∷ []) (flush_updates chunk_map)
      (flush_updates-IsFlushed chunk_map chunk_map-IsFlushed)

abbrev disk : MemStore
disk = record { key = 5 ∷ []; value = 1 ∷ 2 ∷ 3 ∷ 4 ∷ [] } ∷ []

abbrev data_of : List ℕ → Option (List ℕ)
data_of id = lookup id disk

abbrev readers : List Reader
readers = mem_reader data_of disk ∷ []

readers-IsReader : All (IsReader data_of) readers
readers-IsReader = (mem_reader-IsReader data_of disk (mem-Holds disk), tt)

abbrev empty_cache : Option (Cache MemStore)
empty_cache = some (record { store = []; chunks_updated = false })

empty_cache-CacheHolds : CacheHolds data_of mem_writer mem_writer-IsLawful empty_cache
empty_cache-CacheHolds id b e = absurd (cc (mem-Holds [] id b e))

get_part_lem_example :
    let (r, c) = get_part mem_writer (λ s. s) readers (5 ∷ []) 1 2 empty_cache in
    IsAnswer data_of (5 ∷ []) readers (λ b. take 2 (drop 1 b)) r
    × CacheHolds data_of mem_writer mem_writer-IsLawful c
get_part_lem_example =
    get_part_lem data_of mem_writer mem_writer-IsLawful (λ s. s) readers (5 ∷ []) 1 2 empty_cache
      (λ s h. h) readers-IsReader empty_cache-CacheHolds

-- Another thread removes everything before the second place, and does nothing else.
abbrev forget : ℕ → MemStore → MemStore
forget zero s = s
forget (suc zero) s = []
forget (suc (suc n)) s = s

forget-Keeps : (n : ℕ) → Keeps data_of mem_writer mem_writer-IsLawful (forget n)
forget-Keeps zero s h = h
forget-Keeps (suc zero) s h = λ id b e. absurd (cc (mem-Holds [] id b e))
forget-Keeps (suc (suc n)) s h = h

get_tasks_lem_example :
    IsServedList data_of mem_writer mem_writer-IsLawful
      (new_task (5 ∷ []) 1 2 ∷ [])
      (get_tasks mem_writer forget readers (new_task (5 ∷ []) 1 2 ∷ []) empty_cache)
unfolding new_task
get_tasks_lem_example =
    get_tasks_lem data_of mem_writer mem_writer-IsLawful forget readers (new_task (5 ∷ []) 1 2 ∷ [])
      empty_cache forget-Keeps readers-IsReader (((λ d n. absurd (false≢true d)), inl refl), tt)
      empty_cache-CacheHolds

write_lock_all_lem_example :
    IsRising (write_lock_all ((9 ∷ 1 ∷ []) ∷ (3 ∷ []) ∷ (9 ∷ []) ∷ []))
    × All
        (λ id.
          is_locked (content_mutex id) (write_lock_all ((9 ∷ 1 ∷ []) ∷ (3 ∷ []) ∷ (9 ∷ []) ∷ []))
          ≡ true)
        ((9 ∷ 1 ∷ []) ∷ (3 ∷ []) ∷ (9 ∷ []) ∷ [])
write_lock_all_lem_example = write_lock_all_lem ((9 ∷ 1 ∷ []) ∷ (3 ∷ []) ∷ (9 ∷ []) ∷ [])

mem_data_store_lem_example :
    (get_all (6 ∷ []) (put (5 ∷ []) (8 ∷ []) disk).0 ≡ get_all (6 ∷ []) disk)
    × (get_all (6 ∷ []) (remove_chunk (5 ∷ []) disk).0 ≡ get_all (6 ∷ []) disk)
    × (get_range (6 ∷ []) 0 2 disk ≡ (get_all (6 ∷ []) disk >>= λ b. ok (take 2 (drop 0 b))))
    × ((contains (6 ∷ []) disk ≡ true) ↔ ((b : List ℕ) × (get_all (6 ∷ []) disk ≡ ok b)))
mem_data_store_lem_example = mem_data_store_lem (5 ∷ []) (6 ∷ []) (8 ∷ []) 0 2 disk
