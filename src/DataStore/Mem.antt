-- ===== src/DataStore/Mem.antt =====
-- data_store/mem_data_store.cc: `MemDataStore`, as a map from content ids to data.
pub mod Refines
pub mod Serve
use cdc_file_transfer.Prelude.{
  ℕ, ◌-◌, min, Bool, true, false, ◌&&◌, List, [], ◌∷◌, ◌++◌, Option, none, some, length, take, drop,
  ltb, leb, ◌==◌, if◌then◌else◌,
}
use cdc_file_transfer.Prelude.Status.{
  Code, Result, Status, ok, err, not_found, out_of_range, data_loss, ◌>>=◌,
}
use cdc_file_transfer.Prelude.Dict.{Entry, lookup, insert, remove, same}
use cdc_file_transfer.ContentId.{from_array}
use cdc_file_transfer.DataStore.{ChunkTask, Writer}

abbrev pub MemStore : Type 0
MemStore = List (Entry (List ℕ))

-- `AddData`, with the hasher.
pub add_data : (List ℕ → List ℕ) → List ℕ → MemStore → List ℕ × MemStore
add_data blake3 bytes m = let id = from_array blake3 bytes in (id, insert id bytes m)

pub part_of : ℕ → ℕ → List ℕ → List ℕ
part_of offset size bytes =
    if leb (length bytes) offset
    then []
    else take (min (length bytes - offset) size) (drop offset bytes)

pub get_range : List ℕ → ℕ → ℕ → MemStore → Result (List ℕ)
get_range id offset size m = elim (lookup id m) [
  | none ↦ err not_found
  | some bytes ↦ ok (part_of offset size bytes)
]

pub get_all : List ℕ → MemStore → Result (List ℕ)
get_all id m = elim (lookup id m) [ none ↦ err not_found | some bytes ↦ ok bytes ]

-- The body of the loop over a list of tasks, for a chunk that is found.
pub serve : List ℕ → ChunkTask → Result ChunkTask
serve bytes t =
    let t' = record t { chunk_data = bytes } in
    if t.size == 0
    then ok (record t' { done = true })
    else (if leb (length bytes) t.offset
        then err out_of_range
        else (if ltb (min (length bytes - t.offset) t.size) t.size
            then err data_loss
            else ok (record t' {
              copied = take (min (length bytes - t.offset) t.size) (drop t.offset bytes);
              done = true;
            })))

pub serve_found : Option (List ℕ) → ChunkTask → Result ChunkTask
serve_found none t = ok t
serve_found (some bytes) t = serve bytes t

-- `Get` for a list of tasks. An error leaves nothing to use.
pub get_list : MemStore → List ChunkTask → Result (List ChunkTask)
get_list m [] = ok []
get_list m (t ∷ tasks) = (if t.done then ok t else serve_found (lookup t.id m) t) >>= λ t'.
    get_list m tasks >>= λ tasks'. ok (t' ∷ tasks')

pub contains : List ℕ → MemStore → Bool
contains id m = elim (lookup id m) [ none ↦ false | some bytes ↦ true ]

pub put : List ℕ → List ℕ → MemStore → MemStore × Status
put id bytes m = (insert id bytes m, ok tt)

pub remove_chunk : List ℕ → MemStore → MemStore × Status
remove_chunk id m = (remove id m, ok tt)

pub wipe : MemStore → MemStore × Status
wipe m = ([], ok tt)

-- The loop of `Prune` over the entries: the ids to delete, and the ids to keep that are not found.
pub erase_id : List ℕ → List (List ℕ) → List (List ℕ)
erase_id id [] = []
erase_id id (k ∷ ids) = let rest = erase_id id ids in if same k id then rest else k ∷ rest

pub has_id : List ℕ → List (List ℕ) → Bool
has_id id [] = false
has_id id (k ∷ ids) = let rest = has_id id ids in if same k id then true else rest

pub select : MemStore → List (List ℕ) → List (List ℕ) × List (List ℕ)
select [] keep = ([], keep)
select (e ∷ m) keep =
    let is_kept = has_id e.key keep in
    let (delete, missing) = select m (if is_kept then erase_id e.key keep else keep) in
    (if is_kept then delete else e.key ∷ delete, missing)

pub remove_all : List (List ℕ) → MemStore → MemStore
remove_all [] m = m
remove_all (id ∷ ids) m = remove_all ids (remove id m)

pub status_of : List (List ℕ) → Status
status_of [] = ok tt
status_of (id ∷ ids) = err not_found

pub prune : List (List ℕ) → MemStore → MemStore × Status
prune ids_to_keep m =
    let (delete, missing) = select m ids_to_keep in (remove_all delete m, status_of missing)

abbrev pub mem_writer : Writer MemStore
mem_writer = record {
  get_all = get_all;
  get_range = get_range;
  contains = contains;
  put = put;
  remove = remove_chunk;
}
