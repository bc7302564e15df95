-- ===== src/Delta/Session.antt =====
-- cdc_rsync/base/cdc_interface.cc: `ReceiveSignatureAndCreateAndSendDiff`.
pub mod Correct
pub mod Transfer
use cdc_file_transfer.Prelude.{
  ℕ, zero, suc, ◌+◌, ◌<◌, Bool, true, false, not, ◌&&◌, ◌||◌, List, [], ◌∷◌, ◌++◌, map, Option,
  none, some, length, ltb, if◌then◌else◌,
}
use cdc_file_transfer.Prelude.Status.{Result, ok, err, ◌>>=◌, out_of_fuel}
use cdc_file_transfer.Prelude.Words.{add64}
use cdc_file_transfer.Chunker.{Chunker, Config, process, finalize, fresh}
use cdc_file_transfer.Delta.{
  Chunk, PatchRequest, SignaturesResponse, client_chunk, min_chunk_size, avg_chunk_size,
  max_chunk_size,
}
use cdc_file_transfer.Delta.Receiver.{Receiver, new_receiver, receive}
use cdc_file_transfer.Delta.Sender.{Sender, new_sender, try_add_chunks, flush}

abbrev pub config : Config
config = record { min_size = min_chunk_size; avg_size = avg_chunk_size; max_size = max_chunk_size }

-- The locals that the handler of `StreamReadFileContents` captures. `progress` is the calls of
-- `ReportSyncProgress`, in order.
pub record Session : Type 0 where
  pub client_chunks : List Chunk
  pub chunker : Chunker
  pub receiver : Receiver
  pub sender : Sender
  pub file_size : ℕ
  pub progress : List (ℕ × ℕ)

abbrev pub new_session : List SignaturesResponse → Session
new_session inbox = record {
  client_chunks = [];
  chunker = fresh config;
  receiver = new_receiver inbox;
  sender = new_sender;
  file_size = 0;
  progress = [];
}

module _ (w : ℕ) (gear : ℕ → ℕ) (blake3 : List ℕ → List ℕ)
    (accept : List PatchRequest → PatchRequest → Bool) (file : List ℕ) where
  -- `chunker.Process`, whose handler appends to the client's chunks
  pub chunk_block : List ℕ → Session → Result Session
  chunk_block block s = elim (process w gear s.chunker block) [
    | none ↦ err out_of_fuel
    | some (chunks, c) ↦ ok (record s {
      client_chunks = s.client_chunks ++ map (client_chunk blake3) chunks;
      chunker = c;
      file_size = add64 s.file_size (length block);
    })
  ]

  -- The body of the `do` loop.
  pub exchange : Bool → Bool → Session → Result Session
  exchange block arrived s = do
    (r, server_bytes) ← receive block arrived s.receiver
    (p, client_bytes) ← try_add_chunks accept file s.client_chunks r s.sender
    ok (record s {
      receiver = r;
      sender = p;
      progress = s.progress ++ (client_bytes, server_bytes) ∷ [];
    })

  -- The condition of the `do` loop, where all client chunks are read.
  pub unfinished : Session → Bool
  unfinished s =
      not s.receiver.all_chunks_received || ltb s.sender.curr_chunk_idx (length s.client_chunks)

  -- The `do` loop at the end of the file, on fuel.
  pub exchange_loop : ℕ → Session → Result Session
  exchange_loop zero s = err out_of_fuel
  exchange_loop (suc fuel) s = elim (exchange true false s) [
    | err e ↦ err e
    | ok s' ↦ elim (unfinished s') [ true ↦ exchange_loop fuel s' | false ↦ ok s' ]
  ]

  -- The handler at a block that is read; `arrived`: the server's next response has come in.
  pub on_block : List ℕ → Bool → Session → Result Session
  on_block block arrived s = do s' ← chunk_block block s; exchange false arrived s'

  -- Each round receives a response or sends a chunk.
  pub rounds : Session → ℕ
  rounds s = suc (length s.receiver.inbox + length s.client_chunks)

  -- The handler at the end of the file; `Process` with no data and `Finalize` are the same call.
  pub on_eof : Session → Result Session
  on_eof s = do s1 ← chunk_block [] s; s2 ← chunk_block [] s1; exchange_loop (suc (rounds s2)) s2

  -- `StreamReadFileContents`: the blocks read, and the end of the file.
  pub stream : List (List ℕ × Bool) → Session → Result Session
  stream [] s = on_eof s
  stream ((block, arrived) ∷ blocks) s = do s' ← on_block block arrived s; stream blocks s'

  pub create_and_send_diff : List (List ℕ × Bool) → List SignaturesResponse → Result Sender
  create_and_send_diff blocks inbox = do
    s ← stream blocks (new_session inbox)
    flush accept s.sender
