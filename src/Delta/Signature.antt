-- ===== src/Delta/Signature.antt =====
-- cdc_rsync/base/cdc_interface.cc: `CreateAndSendSignature`.
pub mod Correct
pub mod Stream
use cdc_file_transfer.Prelude.{
  ℕ, zero, suc, ◌+◌, ◌-◌, Bool, true, false, ◌||◌, List, [], ◌∷◌, ◌++◌, Option, none, some, length,
  ltb, leb, if◌then◌else◌, ◌==◌,
}
use cdc_file_transfer.Prelude.Status.{Result, ok, err, ◌>>=◌, internal, out_of_fuel}
use cdc_file_transfer.Chunker.{Chunker, process, finalize, fresh}
use cdc_file_transfer.Delta.{
  Chunk, SignaturesResponse, empty_response, append_hash, compute_hash, max_num_hash_tasks,
  min_num_chunks_per_batch,
}
use cdc_file_transfer.Delta.Session.{config}

-- The locals that the handlers capture, and the responses sent. `queue` holds the data of the hash
-- tasks that are in the pool; its one worker finishes them in order.
pub record Signer : Type 0 where
  pub chunker : Chunker
  pub queue : List (List ℕ)
  pub num_hash_tasks : ℕ
  pub response : SignaturesResponse
  pub sent : List SignaturesResponse

abbrev pub new_signer : Signer
new_signer = record {
  chunker = fresh config;
  queue = [];
  num_hash_tasks = 0;
  response = empty_response;
  sent = [];
}

-- `HashTask::ThreadRun` and `AppendHash` for a task with these data; `AppendHash` casts the size.
pub finish_task : (List ℕ → List ℕ) → List ℕ → SignaturesResponse → SignaturesResponse
finish_task blake3 bytes r =
    append_hash (record { hash = compute_hash blake3 bytes; size = length bytes }) r

-- `chunk_handler` for each chunk found
pub queue_tasks : List (List ℕ) → Signer → Signer
queue_tasks [] s = s
queue_tasks (chunk ∷ chunks) s =
    queue_tasks chunks
      (record s { queue = s.queue ++ chunk ∷ []; num_hash_tasks = s.num_hash_tasks + 1 })

-- A round of the loops that finish tasks, on the task that is completed first.
pub take_task : (List ℕ → List ℕ) → List ℕ → List (List ℕ) → Signer → Signer
take_task blake3 bytes queue s = record s {
  queue = queue;
  num_hash_tasks = s.num_hash_tasks - 1;
  response = finish_task blake3 bytes s.response;
}

-- Whether a round gets a task: `GetCompletedTask` waits for one, `TryGetCompletedTask` gets one only
-- if it is completed by then.
pub gets_task : Bool → Signer → Bool
gets_task completed s = leb max_num_hash_tasks s.num_hash_tasks || completed

-- The loop of the read handler, over the tasks in the pool. `timing` says for each round whether the
-- next task is completed by then.
pub drain : (List ℕ → List ℕ) → List (List ℕ) → List Bool → Signer → Signer
drain blake3 [] timing s = s
drain blake3 (bytes ∷ queue) [] s =
    let rest = drain blake3 queue [] (take_task blake3 bytes queue s) in
    if gets_task false s then rest else s
drain blake3 (bytes ∷ queue) (completed ∷ timing) s =
    let rest = drain blake3 queue timing (take_task blake3 bytes queue s) in
    if gets_task completed s then rest else s

-- The loop behind `hash_pool_->Wait()`
pub drain_all : (List ℕ → List ℕ) → List (List ℕ) → Signer → Signer
drain_all blake3 [] s = s
drain_all blake3 (bytes ∷ queue) s = drain_all blake3 queue (take_task blake3 bytes queue s)

module _ (accept : List SignaturesResponse → SignaturesResponse → Bool) where
  -- `message_pump_->SendMessage(PacketType::kAddSignatures, response)`
  pub send_response : Signer → Result Signer
  send_response s =
      if accept s.sent s.response
      then ok (record s { sent = s.sent ++ s.response ∷ [] })
      else err internal

  -- The response is sent and cleared if it has so many chunks.
  pub send_batch : ℕ → Signer → Result Signer
  send_batch least s =
      if leb least (length s.response.sizes)
      then (do s' ← send_response s; ok (record s' { response = empty_response }))
      else ok s

module _ (w : ℕ) (gear : ℕ → ℕ) (blake3 : List ℕ → List ℕ)
    (accept : List SignaturesResponse → SignaturesResponse → Bool) where
  -- `chunker.Process`, with `chunk_handler`
  pub sign_chunks : List ℕ → Signer → Result Signer
  sign_chunks block s = elim (process w gear s.chunker block) [
    | none ↦ err out_of_fuel
    | some (chunks, c) ↦ ok (queue_tasks chunks (record s { chunker = c }))
  ]

  -- `read_handler`
  pub sign_block : List ℕ → List Bool → Signer → Result Signer
  sign_block block timing s = do
    s1 ← sign_chunks block s
    send_batch accept min_num_chunks_per_batch (drain blake3 s1.queue timing s1)

  -- What comes behind `StreamReadFileContents`.
  pub sign_end : Signer → Result Signer
  sign_end s = do
    s1 ← sign_chunks [] s
    s2 ← send_batch accept 1 (drain_all blake3 s1.queue s1)
    send_response accept s2

  -- The blocks that are read, and the call without data at the end of the file.
  pub sign_stream : List (List ℕ × List Bool) → List Bool → Signer → Result Signer
  sign_stream [] timing s = do s' ← sign_block [] timing s; sign_end s'
  sign_stream ((block, now) ∷ blocks) timing s = do
    s' ← sign_block block now s
    sign_stream blocks timing s'

  pub create_and_send_signature : List (List ℕ × List Bool) → List Bool → Result Signer
  create_and_send_signature blocks timing = sign_stream blocks timing new_signer
