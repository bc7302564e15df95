-- ===== src/DataStore.antt =====
-- data_store/data_store_reader.h and .cc, data_store/data_store_writer.h: the interfaces of the data
-- stores and the lists of transfers. A content id is its bytes; reads return the bytes that the
-- source copies into a buffer.
pub mod Mem
pub mod Right
use cdc_file_transfer.Prelude.{
  ℕ, Bool, true, false, not, ◌&&◌, ◌||◌, List, [], ◌∷◌, ◌++◌, length, ◌==◌, if◌then◌else◌,
}
use cdc_file_transfer.Prelude.Status.{Code, Result, Status, ok, err, internal, not_found, ◌>>=◌}

-- `ChunkTransferTask`; `copied` is what was copied into the buffer `data`.
pub record ChunkTask : Type 0 where
  pub id : List ℕ
  pub offset : ℕ
  pub size : ℕ
  pub chunk_data : List ℕ
  pub done : Bool
  pub copied : List ℕ

unfoldable pub new_task : List ℕ → ℕ → ℕ → ChunkTask
new_task id offset size = record {
  id = id;
  offset = offset;
  size = size;
  chunk_data = [];
  done = false;
  copied = [];
}

-- `ChunkTransferList::ReadDone` and `PrefetchDone`
unfoldable pub read_done : List ChunkTask → Bool
read_done [] = true
read_done (t ∷ tasks) =
    let rest = read_done tasks in if not (t.size == 0) && not t.done then false else rest

pub prefetch_done : List ChunkTask → Bool
prefetch_done [] = true
prefetch_done (t ∷ tasks) = let rest = prefetch_done tasks in if not t.done then false else rest

abbrev pub is_not_found : Code → Bool
is_not_found not_found = true
is_not_found _ = false

-- `DataStoreReader`: the whole chunk, a part of it, and a list of tasks.
pub record Reader : Type 0 where
  pub get : List ℕ → Result (List ℕ)
  pub get_list : List ChunkTask → Result (List ChunkTask)

-- `DataStoreWriter` with a state. A write returns the error it had, if any.
pub record Writer (S : Type 0) : Type 0 where
  pub get_all : List ℕ → S → Result (List ℕ)
  pub get_range : List ℕ → ℕ → ℕ → S → Result (List ℕ)
  pub contains : List ℕ → S → Bool
  pub put : List ℕ → List ℕ → S → S × Status
  pub remove : List ℕ → S → S × Status

-- What the default list read does with the answer for one task.
pub take_answer : ChunkTask → Result (List ℕ) → Result ChunkTask
take_answer t (ok bytes) =
    if length bytes == t.size then ok (record t { copied = bytes; done = true }) else err internal
take_answer t (err code) = if is_not_found code then ok t else err code

-- `DataStoreReader::Get` for a list, on a reader of parts. An error leaves nothing to use.
pub default_get_list : (List ℕ → ℕ → ℕ → Result (List ℕ)) → List ChunkTask → Result (List ChunkTask)
default_get_list get_range [] = ok []
default_get_list get_range (t ∷ tasks) =
    (if t.done || (t.size == 0) then ok t else take_answer t (get_range t.id t.offset t.size))
    >>= λ t'. default_get_list get_range tasks >>= λ tasks'. ok (t' ∷ tasks')
