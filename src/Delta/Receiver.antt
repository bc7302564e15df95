-- ===== src/Delta/Receiver.antt =====
-- cdc_rsync/base/cdc_interface.cc: `ServerChunkReceiver`.
pub mod Hashes
pub mod Index
use cdc_file_transfer.Prelude.{
  ℕ, zero, suc, ◌+◌, ◌*◌, Bool, true, false, not, ◌&&◌, ◌||◌, List, [], ◌∷◌, Option, none, some,
  length, take, drop, ◌==◌, if◌then◌else◌,
}
use cdc_file_transfer.Prelude.Status.{Result, ok, err, Code, internal}
use cdc_file_transfer.Prelude.Words.{add64}
use cdc_file_transfer.Delta.{Hash, SignaturesResponse, hash_eq, hash_of_bytes}

-- `inbox` holds the responses that the server sends and that are not received yet.
pub record Receiver : Type 0 where
  pub chunk_offsets : List (Hash × ℕ)
  pub curr_offset : ℕ
  pub all_chunks_received : Bool
  pub inbox : List SignaturesResponse

abbrev pub new_receiver : List SignaturesResponse → Receiver
new_receiver inbox = record {
  chunk_offsets = [];
  curr_offset = 0;
  all_chunks_received = false;
  inbox = inbox;
}

-- `chunk_offsets_.find(hash)`
pub find_offset : Hash → List (Hash × ℕ) → Option ℕ
find_offset h [] = none
find_offset h ((k, offset) ∷ m) = if hash_eq k h then some offset else find_offset h m

-- `chunk_offsets_.insert({hash, offset})`: an entry that is there already stays.
pub insert_offset : Hash → ℕ → List (Hash × ℕ) → List (Hash × ℕ)
insert_offset h offset [] = (h, offset) ∷ []
insert_offset h offset ((k, o) ∷ m) =
    if hash_eq k h then (k, o) ∷ m else (k, o) ∷ insert_offset h offset m

-- The loop over the chunks of a response; `num` counts the server's bytes processed.
pub add_server_chunks : List ℕ → List ℕ → Receiver → ℕ → Receiver × ℕ
add_server_chunks [] hashes r num = (r, num)
add_server_chunks (size ∷ sizes) hashes r num =
    let r' = record r {
      chunk_offsets = insert_offset (hash_of_bytes (take 16 hashes)) r.curr_offset r.chunk_offsets;
      curr_offset = add64 r.curr_offset size;
    } in
    add_server_chunks sizes (drop 16 hashes) r' (add64 num size)

-- What `Receive` does with a response.
pub take_response : SignaturesResponse → Receiver → Result (Receiver × ℕ)
take_response response r =
    if length response.hashes == length response.sizes * 16
    then (if length response.sizes == 0
        then ok (record r { all_chunks_received = true }, 0)
        else ok (add_server_chunks response.sizes response.hashes r 0))
    else err internal

-- `ReceiveMessage`: on an empty inbox the server has hung up.
pub receive_message : List SignaturesResponse → Receiver → Result (Receiver × ℕ)
receive_message [] r = err internal
receive_message (response ∷ rest) r = take_response response (record r { inbox = rest })

-- `CanReceive()`: the next response is there, if it has arrived.
pub can_receive : Bool → List SignaturesResponse → Bool
can_receive arrived inbox = arrived && not (length inbox == 0)

pub receive : Bool → Bool → Receiver → Result (Receiver × ℕ)
receive block arrived r =
    if r.all_chunks_received
    then ok (r, 0)
    else (if not block && not (can_receive arrived r.inbox)
        then ok (r, 0)
        else receive_message r.inbox r)
