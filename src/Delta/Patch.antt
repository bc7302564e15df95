-- ===== src/Delta/Patch.antt =====
-- cdc_rsync/base/cdc_interface.cc: `ReceiveDiffAndPatch`; common/util.cc: `Util::IsExecutable`.
pub mod Replay
use cdc_file_transfer.Prelude.{
  ℕ, zero, suc, ◌+◌, Bool, true, false, not, ◌&&◌, ◌||◌, List, [], ◌∷◌, ◌++◌, length, take, drop,
  ◌==◌, ltb, if◌then◌else◌,
}
use cdc_file_transfer.Prelude.Status.{Result, ok, err, ◌>>=◌, internal, out_of_bounds}
use cdc_file_transfer.Prelude.Words.{add64}
use cdc_file_transfer.Delta.{Source, source_data, source_basis_file, PatchRequest}

-- `memcmp(data, magic, sizeof(magic)) == 0`
pub starts_with : List ℕ → List ℕ → Bool
starts_with [] bytes = true
starts_with (m ∷ magic) [] = false
starts_with (m ∷ magic) (b ∷ bytes) = m == b && starts_with magic bytes

pub is_executable : List ℕ → Bool
is_executable bytes =
    if ltb (length bytes) 4
    then false
    else (starts_with (0x7f ∷ 0x45 ∷ 0x4c ∷ 0x46 ∷ []) bytes
        || (starts_with (b'#' ∷ b'!' ∷ b'/' ∷ []) bytes || starts_with (0x4d ∷ 0x5a ∷ []) bytes))

-- What is written to the patched file, and the locals `first_chunk` and `*is_executable`.
pub record Patched : Type 0 where
  pub content : List ℕ
  pub first_chunk : Bool
  pub executable : Bool

abbrev pub new_patched : Patched
new_patched = record { content = []; first_chunk = true; executable = false }

-- The bytes of a command, or the error of a read that falls short. Where the sum of 64 bits wraps, the
-- source reads and writes what lies behind the data; the model ends with an error of its own.
pub command_bytes : List ℕ → List ℕ → Source → ℕ → ℕ → Result (List ℕ)
command_bytes basis payload source_basis_file offset size =
    let bytes = take size (drop offset basis) in
    if length bytes == size then ok bytes else err internal
command_bytes basis payload source_data offset size =
    let bytes = take size (drop offset payload) in
    if ltb (length payload) (add64 offset size)
    then err internal
    else (if length bytes == size then ok bytes else err out_of_bounds)

-- `first_chunk` and `*is_executable` after a chunk
pub note_first : List ℕ → Patched → Patched
note_first bytes s =
    if s.first_chunk && ltb 0 (length bytes)
    then record s { first_chunk = false; executable = is_executable bytes }
    else s

module _ (can_write : List ℕ → List ℕ → Bool) (basis : List ℕ) where
  -- `fwrite`; `can_write` says whether it succeeds behind what is written already.
  pub write : List ℕ → Patched → Result Patched
  write bytes s =
      if can_write s.content bytes
      then ok (record s { content = s.content ++ bytes })
      else err internal

  -- The loop over the commands of a request. Its arrays have the same length.
  pub run_commands : List ℕ → List Source → List ℕ → List ℕ → Patched → Result Patched
  run_commands payload (source ∷ sources) (offset ∷ offsets) (size ∷ sizes) s = do
    bytes ← command_bytes basis payload source offset size
    s' ← write bytes (note_first bytes s)
    run_commands payload sources offsets sizes s'
  run_commands payload _ _ _ s = ok s

  -- The loop over the requests received. `err` behind the last: the client has hung up.
  pub receive_diff : List PatchRequest → Patched → Result Patched
  receive_diff [] s = err internal
  receive_diff (r ∷ rest) s =
      if length r.sources == length r.offsets && length r.sources == length r.sizes
      then (if length r.sources == 0
          then ok s
          else (do s' ← run_commands r.payload r.sources r.offsets r.sizes s; receive_diff rest s'))
      else err internal

  pub receive_diff_and_patch : List PatchRequest → Result Patched
  receive_diff_and_patch requests = receive_diff requests new_patched
