-- ===== src/DataProvider.antt =====
-- data_store/data_provider.cc: `DataProvider`, reads through a cache. The writer, if there is one, has
-- a state of the type `S`; `other` is what other threads do to it in between: for a chunk, while no
-- lock is held; for a list, `other n` is what they do before the place `n` of `Get` where the store
-- is used, be it to any chunk whose mutex is not held. Logging and the times of the last accesses are
-- left out.
pub mod Locks
pub mod Reads
pub mod Lists
use cdc_file_transfer.Prelude.{
  ℕ, suc, ◌+◌, ◌-◌, ◌^◌, min, Bool, true, false, not, ◌&&◌, ◌||◌, List, [], ◌∷◌, ◌++◌, Option, none,
  some, length, take, drop, ltb, leb, ◌==◌, if◌then◌else◌,
}
use cdc_file_transfer.Prelude.Status.{Code, Result, ok, err, not_found, ◌>>=◌}
use cdc_file_transfer.ContentId.{get_byte}
use cdc_file_transfer.DataStore.{ChunkTask, read_done, prefetch_done, is_not_found, Reader, Writer}

-- `kMaxFuseRequestSize`
abbrev pub max_fuse_request_size : ℕ
max_fuse_request_size = 131072

-- `PrefetchSize`
pub prefetch_size_for : ℕ → ℕ → ℕ
prefetch_size_for prefetch_size read_size =
    if read_size == max_fuse_request_size then read_size + prefetch_size else read_size

-- The cache and `chunks_updated_`
pub record Cache (S : Type 0) : Type 0 where
  pub store : S
  pub chunks_updated : Bool

-- `GetContentMutex`: the index of a mutex.
pub content_mutex : List ℕ → ℕ
content_mutex content_id = get_byte content_id 0

-- The comparison of ids as strings.
pub id_less : List ℕ → List ℕ → Bool
id_less [] [] = false
id_less [] (b ∷ bs) = true
id_less (a ∷ as') [] = false
id_less (a ∷ as') (b ∷ bs) =
    let rest = id_less as' bs in if ltb a b then true else (if ltb b a then false else rest)

-- `std::sort`
pub insert_id : List ℕ → List (List ℕ) → List (List ℕ)
insert_id id [] = id ∷ []
insert_id id (k ∷ ids) =
    let rest = insert_id id ids in if id_less k id then k ∷ rest else id ∷ k ∷ ids

pub sort_ids : List (List ℕ) → List (List ℕ)
sort_ids [] = []
sort_ids (id ∷ ids) = insert_id id (sort_ids ids)

pub is_locked : ℕ → List ℕ → Bool
is_locked mutex [] = false
is_locked mutex (n ∷ locked) =
    let rest = is_locked mutex locked in if n == mutex then true else rest

-- The loop of `WriteLockAll`: the mutexes in the order in which they are locked.
pub lock_each : List (List ℕ) → List ℕ → List ℕ
lock_each [] locked = locked
lock_each (id ∷ ids) locked =
    lock_each ids
      (if is_locked (content_mutex id) locked then locked else locked ++ content_mutex id ∷ [])

pub write_lock_all : List (List ℕ) → List ℕ
write_lock_all chunk_ids = lock_each (sort_ids chunk_ids) []

-- What `Get` copies of a chunk that a reader returned.
pub copy_part : ℕ → ℕ → List ℕ → List ℕ
copy_part offset size bytes =
    if leb (length bytes) offset
    then []
    else take (min (length bytes - offset) size) (drop offset bytes)

module _ {S : Type 0} (w : Writer S) where
  -- A chunk goes to the cache, if there is one; an error is only logged.
  pub cache_chunk : List ℕ → List ℕ → Option (Cache S) → Option (Cache S)
  cache_chunk id bytes none = none
  cache_chunk id bytes (some c) =
      some (record { store = (w.put id bytes c.store).0; chunks_updated = true })

  -- The loop over the readers: the chunk, and the cache.
  pub from_readers : List ℕ → List Reader → Option (Cache S) → Result (List ℕ) × Option (Cache S)
  from_readers id [] c = (err not_found, c)
  from_readers id (r ∷ readers) c =
      let rest = from_readers id readers c in
      elim (r.get id) [
        | ok bytes ↦ (ok bytes, cache_chunk id bytes c)
        | err code ↦ if is_not_found code then rest else (err code, c)
      ]

  -- Behind the first read of the cache and its failure: the second one, under the writer lock.
  pub read_again : (S → Result (List ℕ)) → Code → S → Option (List ℕ)
  read_again read code s =
      if is_not_found code then elim (read s) [ ok bytes ↦ some bytes | err code' ↦ none ] else none

  -- `read` is the read of the cache: all of the chunk, or a part of it.
  pub from_cache : (S → S) → (S → Result (List ℕ)) → Cache S → Option (List ℕ) × Cache S
  from_cache other read c = elim (read c.store) [
    | ok bytes ↦ (some bytes, c)
    | err code ↦ let c' = record c { store = other c.store } in (read_again read code c'.store, c')
  ]

  -- `Get` for a whole chunk.
  pub get_chunk :
      (S → S) → List Reader → List ℕ → Option (Cache S) → Result (List ℕ) × Option (Cache S)
  get_chunk other readers id none = from_readers id readers none
  get_chunk other readers id (some c) =
      let (hit, c') = from_cache other (w.get_all id) c in
      let miss = from_readers id readers (some c') in
      elim hit [ none ↦ miss | some bytes ↦ (ok bytes, some c') ]

  -- `Get` for a part of a chunk.
  pub copy_result : ℕ → ℕ → Result (List ℕ) → Result (List ℕ)
  copy_result offset size (ok bytes) = ok (copy_part offset size bytes)
  copy_result offset size (err code) = err code

  pub get_part :
      (S → S) → List Reader → List ℕ → ℕ → ℕ → Option (Cache S) → Result (List ℕ) × Option (Cache S)
  get_part other readers id offset size none =
      let (r, c') = from_readers id readers none in (copy_result offset size r, c')
  get_part other readers id offset size (some c) =
      let (hit, c') = from_cache other (w.get_range id offset size) c in
      let (r, c'') = from_readers id readers (some c') in
      elim hit [ none ↦ (copy_result offset size r, c'') | some bytes ↦ (ok bytes, some c') ]

  -- The body of the loop of `GetFromWriter`: the task and the store.
  pub fill_task : Bool → ChunkTask → S → ChunkTask × S
  fill_task lock_required t s =
      if t.size == 0
      then (record t { done = w.contains t.id s }, s)
      else elim (w.get_range t.id t.offset t.size s) [
        | err code ↦ (t, s)
        | ok bytes ↦
            if length bytes == t.size
            then (record t { copied = bytes; done = true }, s)
            else (if lock_required then (t, s) else (t, (w.remove t.id s).0))
      ]

  -- The loop from the place `n` on, with the tasks it has passed; it ends early where nothing is left
  -- to read. Other threads come between any two tasks, as a lock is held for one task at most.
  pub fill_tasks : (ℕ → S → S) → Bool → ℕ → List ChunkTask → List ChunkTask → S → List ChunkTask × S
  fill_tasks other lock_required n before [] s = (before, s)
  fill_tasks other lock_required n before (t ∷ tasks) s =
      let s1 = other n s in
      let (t', s') = if t.done then (t, s1) else fill_task lock_required t s1 in
      let rest = fill_tasks other lock_required (suc n) (before ++ t' ∷ []) tasks s' in
      if not t.done && t'.done && not (t.size == 0) && read_done (before ++ t' ∷ tasks)
      then (before ++ t' ∷ tasks, s')
      else rest

  pub get_from_writer :
      (ℕ → S → S) → Bool → ℕ → List ChunkTask → Option (Cache S) → List ChunkTask × Option (Cache S)
  get_from_writer other lock_required n tasks none = (tasks, none)
  get_from_writer other lock_required n tasks (some c) =
      let (tasks', s') = fill_tasks other lock_required n [] tasks c.store in
      if read_done tasks then (tasks, some c) else (tasks', some (record c { store = s' }))

  -- The ids of the tasks that are not done, for `WriteLockAll`.
  pub undone_ids : List ChunkTask → List (List ℕ)
  undone_ids [] = []
  undone_ids (t ∷ tasks) = let rest = undone_ids tasks in if t.done then rest else t.id ∷ rest

  pub ask_readers : List Reader → List ChunkTask → Result (List ChunkTask)
  ask_readers [] tasks = ok tasks
  ask_readers (r ∷ readers) tasks = r.get_list tasks >>= λ tasks'.
      let rest = ask_readers readers tasks' in if prefetch_done tasks' then ok tasks' else rest

  abbrev pub is_empty : List ℕ → Bool
  is_empty [] = true
  is_empty (x ∷ xs) = false

  pub meanwhile : (S → S) → Option (Cache S) → Option (Cache S)
  meanwhile other none = none
  meanwhile other (some c) = some (record c { store = other c.store })

  -- The last loop of `Get` for a list: complete chunks go to the cache.
  pub cache_tasks : (ℕ → S → S) → ℕ → List ChunkTask → Option (Cache S) → Option (Cache S)
  cache_tasks other n [] c = c
  cache_tasks other n (t ∷ tasks) c =
      let c1 = meanwhile (other n) c in
      cache_tasks other (suc n) tasks
        (if not t.done || is_empty t.chunk_data then c1 else cache_chunk t.id t.chunk_data c1)

  pub after_readers :
      (ℕ → S → S)
      → ℕ
      → Result (List ChunkTask)
      → Option (Cache S)
      → Result (List ChunkTask) × Option (Cache S)
  after_readers other n (err code) c = (err code, c)
  after_readers other n (ok tasks) c = (ok tasks, cache_tasks other n tasks c)

  -- `Get` for a list of tasks, with the mutexes of `WriteLockAll` held from the second read on.
  pub get_tasks :
      (ℕ → S → S)
      → List Reader
      → List ChunkTask
      → Option (Cache S)
      → Result (List ChunkTask) × Option (Cache S)
  get_tasks other readers tasks c =
      let (tasks1, c1) = get_from_writer other true 0 tasks c in
      let (tasks2, c2) = get_from_writer other false (length tasks) tasks1 c1 in
      if read_done tasks1
      then (ok tasks1, c1)
      else (if read_done tasks2
          then (ok tasks2, c2)
          else after_readers other (length tasks + length tasks) (ask_readers readers tasks2) c2)
