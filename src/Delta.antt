-- ===== src/Delta.antt =====
-- cdc_rsync/base/cdc_interface.cc: the data of the delta transfer, and what it sends.
pub mod Receiver
pub mod Sender
pub mod Patch
pub mod Signature
pub mod Session
use cdc_file_transfer.Prelude.{
  ℕ, zero, suc, ◌+◌, ◌-◌, ◌*◌, ◌/◌, ◌%◌, ◌^◌, Bool, true, false, ◌&&◌, List, [], ◌∷◌, ◌++◌, length,
  take, drop, ◌==◌,
}
use cdc_file_transfer.Prelude.Words.{to_u32, le_bytes, of_le_bytes}

-- `kAvgChunkSize`, `kMinChunkSize`, `kMaxChunkSize`, `kCombinedChunkSizeThreshold`,
-- `kMaxNumHashTasks`, `kMinNumChunksPerBatch`, `kPatchRequestSizeThreshold`
abbrev pub avg_chunk_size : ℕ
avg_chunk_size = 8 * 1024

abbrev pub min_chunk_size : ℕ
min_chunk_size = avg_chunk_size / 2

abbrev pub max_chunk_size : ℕ
max_chunk_size = avg_chunk_size * 4

abbrev pub combined_chunk_size_threshold : ℕ
combined_chunk_size_threshold = 64 * 1024

abbrev pub max_num_hash_tasks : ℕ
max_num_hash_tasks = 64

abbrev pub min_num_chunks_per_batch : ℕ
min_num_chunks_per_batch = 8 * 1024 * 1024 / avg_chunk_size

abbrev pub patch_request_size_threshold : ℕ
patch_request_size_threshold = 65536

-- 1 byte for source, 8 bytes for offset and 4 bytes for size: `kPatchMetadataSize`
abbrev pub patch_metadata_size : ℕ
patch_metadata_size = 1 + 8 + 4

pub record Hash : Type 0 where
  pub low : ℕ
  pub high : ℕ

abbrev pub hash_eq : Hash → Hash → Bool
hash_eq a b = a.low == b.low && a.high == b.high

pub record Chunk : Type 0 where
  pub hash : Hash
  pub size : ℕ

-- The memory of a `Hash`, on a machine that stores the least significant byte first.
unfoldable pub hash_bytes : Hash → List ℕ
hash_bytes h = le_bytes 8 h.low ++ le_bytes 8 h.high

unfoldable pub hash_of_bytes : List ℕ → Hash
hash_of_bytes bytes = record {
  low = of_le_bytes (take 8 bytes);
  high = of_le_bytes (take 8 (drop 8 bytes));
}

-- `ComputeHash`; `blake3 data` is the output of the hasher for `data`.
unfoldable pub compute_hash : (List ℕ → List ℕ) → List ℕ → Hash
compute_hash blake3 bytes = hash_of_bytes (take 16 (blake3 bytes))

-- protos/messages.proto: `AddSignaturesResponse`, `AddPatchCommandsRequest`
pub record SignaturesResponse : Type 0 where
  pub sizes : List ℕ
  pub hashes : List ℕ

abbrev pub empty_response : SignaturesResponse
empty_response = record { sizes = []; hashes = [] }

pub data Source : Type 0 where
  source_data : Source
  source_basis_file : Source

pub record PatchRequest : Type 0 where
  pub sources : List Source
  pub offsets : List ℕ
  pub sizes : List ℕ
  pub payload : List ℕ

abbrev pub empty_request : PatchRequest
empty_request = record { sources = []; offsets = []; sizes = []; payload = [] }

-- `HashTask::AppendHash`, for a task that has hashed a chunk of `size` bytes
pub append_hash : Chunk → SignaturesResponse → SignaturesResponse
append_hash c r = record {
  sizes = r.sizes ++ to_u32 c.size ∷ [];
  hashes = r.hashes ++ hash_bytes c.hash;
}

-- The handler of a client's chunk: its hash and its size.
pub client_chunk : (List ℕ → List ℕ) → List ℕ → Chunk
client_chunk blake3 bytes = record {
  hash = compute_hash blake3 bytes;
  size = to_u32 (length bytes);
}
