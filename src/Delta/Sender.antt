-- ===== src/Delta/Sender.antt =====
-- cdc_rsync/base/cdc_interface.cc: `PatchSender`. The message pump is the list of requests sent, and
-- a test that says whether it accepts one more after those; `file` is the content of `file_`.
pub mod Pending
pub mod Step
pub mod Chunks
use cdc_file_transfer.Prelude.{
  ℕ, zero, suc, ◌+◌, ◌<◌, Bool, true, false, not, ◌&&◌, List, [], ◌∷◌, ◌++◌, Option, none, some,
  length, take, drop, ◌==◌, ltb, if◌then◌else◌,
}
use cdc_file_transfer.Prelude.Status.{Result, ok, err, ◌>>=◌, internal}
use cdc_file_transfer.Prelude.Words.{add32, add64}
use cdc_file_transfer.Delta.{
  Chunk, Source, source_data, source_basis_file, PatchRequest, empty_request, patch_metadata_size,
  patch_request_size_threshold, combined_chunk_size_threshold,
}
use cdc_file_transfer.Delta.Receiver.{Receiver, find_offset}

pub record Sender : Type 0 where
  pub request : PatchRequest
  pub request_size : ℕ
  pub total_request_size : ℕ
  pub file_offset : ℕ
  pub curr_chunk_idx : ℕ
  pub sent : List PatchRequest

abbrev pub new_sender : Sender
new_sender = record {
  request = empty_request;
  request_size = 0;
  total_request_size = 0;
  file_offset = 0;
  curr_chunk_idx = 0;
  sent = [];
}

-- The last entry of a repeated field, and a write to it: `sizes(last_idx)`, `set_sizes(last_idx, v)`.
pub get_last {ℓ} : {A : Type ℓ} → List A → Option A
get_last [] = none
get_last (x ∷ []) = some x
get_last (x ∷ y ∷ xs) = get_last (y ∷ xs)

pub set_last {ℓ} : {A : Type ℓ} → A → List A → List A
set_last v [] = []
set_last v (x ∷ []) = v ∷ []
set_last v (x ∷ y ∷ xs) = x ∷ set_last v (y ∷ xs)

-- `request_.sizes(last_idx)`, read only where there is a last entry
abbrev pub or_zero : Option ℕ → ℕ
or_zero none = 0
or_zero (some n) = n

abbrev pub is_basis : Option Source → Bool
is_basis (some source_basis_file) = true
is_basis _ = false

abbrev pub is_data : Option Source → Bool
is_data (some source_data) = true
is_data _ = false

-- A new entry of the three arrays.
pub add_entry : Source → ℕ → ℕ → PatchRequest → PatchRequest
add_entry source offset size r = record r {
  sources = r.sources ++ source ∷ [];
  offsets = r.offsets ++ offset ∷ [];
  sizes = r.sizes ++ size ∷ [];
}

-- `request_.set_sizes(last_idx, request_.sizes(last_idx) + size)`
pub extend_last : ℕ → PatchRequest → PatchRequest
extend_last size r = record r { sizes = set_last (add32 (or_zero (get_last r.sizes)) size) r.sizes }

-- Whether a chunk of the basis file at `offset` continues the last entry.
pub continues : ℕ → PatchRequest → Bool
continues offset r =
    is_basis (get_last r.sources)
    && (add64 (or_zero (get_last r.offsets)) (or_zero (get_last r.sizes)) == offset
        && ltb (or_zero (get_last r.sizes)) combined_chunk_size_threshold)

-- The entry of a new chunk, before its bytes are read.
pub add_data_entry : ℕ → Sender → Sender
add_data_entry size p =
    if is_data (get_last p.request.sources)
    then record p { request = extend_last size p.request }
    else record p {
      request = add_entry source_data (length p.request.payload) size p.request;
      request_size = p.request_size + patch_metadata_size;
    }

module _ (accept : List PatchRequest → PatchRequest → Bool) where
  -- `message_pump_->SendMessage(kAddPatchCommands, request)`
  pub send_message : PatchRequest → Sender → Result Sender
  send_message r p =
      if accept p.sent r then ok (record p { sent = p.sent ++ r ∷ [] }) else err internal

  pub on_chunk_added : ℕ → Sender → Result Sender
  on_chunk_added size p0 =
      let p = record p0 { file_offset = add64 p0.file_offset size } in
      if ltb patch_request_size_threshold p.request_size
      then (do
        p' ← send_message p.request p
        ok (record p' {
          total_request_size = p'.total_request_size + p'.request_size;
          request_size = 0;
          request = empty_request;
        }))
      else ok p

  pub add_existing_chunk : ℕ → ℕ → Sender → Result Sender
  add_existing_chunk offset size p = on_chunk_added size (
      if continues offset p.request
      then record p { request = extend_last size p.request }
      else record p {
        request = add_entry source_basis_file offset size p.request;
        request_size = p.request_size + patch_metadata_size;
      })

  -- The bytes at `file_offset_` go to the end of the request's data; a short read is an error.
  pub add_new_chunk : List ℕ → ℕ → Sender → Result Sender
  add_new_chunk file size p0 =
      let p = add_data_entry size p0 in
      let bytes = take size (drop p.file_offset file) in
      if length bytes == size
      then on_chunk_added size (record p {
        request = record (p.request) { payload = p.request.payload ++ bytes };
        request_size = p.request_size + size;
      })
      else err internal

  -- The body of the loop for a chunk: `none` if it has to wait for more chunks of the server.
  pub add_chunk : List ℕ → Receiver → Chunk → Sender → Option (Result Sender)
  add_chunk file r c p = elim (find_offset c.hash r.chunk_offsets) [
    | some offset ↦ some (add_existing_chunk offset c.size p)
    | none ↦ if r.all_chunks_received then some (add_new_chunk file c.size p) else none
  ]

  -- The loop of `TryAddChunks` over the client's chunks from `curr_chunk_idx_` on; `num` counts the
  -- client's bytes processed.
  pub add_chunks : List ℕ → Receiver → List Chunk → Sender → ℕ → Result (Sender × ℕ)
  add_chunks file r [] p num = ok (p, num)
  add_chunks file r (c ∷ chunks) p num = elim (add_chunk file r c p) [
    | none ↦ ok (p, num)
    | some (err e) ↦ err e
    | some (ok p1) ↦
        let p2 = record p1 { curr_chunk_idx = p1.curr_chunk_idx + 1 } in
        elim r.all_chunks_received [
          | true ↦ ok (p2, add64 num c.size)
          | false ↦ add_chunks file r chunks p2 (add64 num c.size)
        ]
  ]

  unfoldable pub try_add_chunks : List ℕ → List Chunk → Receiver → Sender → Result (Sender × ℕ)
  try_add_chunks file client_chunks r p =
      add_chunks file r (drop p.curr_chunk_idx client_chunks) p 0

  -- `Flush`: the rest of the commands, if any, and an empty request as the end marker.
  pub flush : Sender → Result Sender
  flush p = do
    p1 ←
        if ltb 0 p.request_size
        then (do
          p' ← send_message p.request p
          ok (record p' {
            total_request_size = p'.total_request_size + p'.request_size;
            request = empty_request;
          }))
        else ok p
    send_message p1.request p1
