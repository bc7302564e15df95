-- ===== src/Tests/Transfer.antt =====
-- cdc_rsync/base/cdc_interface.cc: a transfer of a few bytes, with a toy hash.
use native.Mathlib.Nat.{mod-lt}
use cdc_file_transfer.Prelude.{
  ℕ, ◌%◌, ◌<◌, ◌≤◌, ◌≡◌, refl, ap, List, [], ◌∷◌, ◌++◌, some, arith, length, Bool, true, false, inl,
  inr,
}
use cdc_file_transfer.Prelude.Words.{to_u32}
use cdc_file_transfer.Prelude.Status.{ok}
use cdc_file_transfer.Chunker.{
  fresh, process_all, process, finalize, chunk_loop, more, find_chunk_boundary,
}
use cdc_file_transfer.Chunker.Gear.{gear64}
use cdc_file_transfer.Delta.{
  PatchRequest, SignaturesResponse, Hash, hash_bytes, hash_of_bytes, empty_request, compute_hash,
  client_chunk, source_data, source_basis_file,
}
use cdc_file_transfer.Delta.Patch.{Patched, receive_diff_and_patch}
use cdc_file_transfer.Delta.Patch.Replay.{Pays, receive_diff_and_patch-content}
use cdc_file_transfer.Delta.Receiver.{Receiver, new_receiver, receive}
use cdc_file_transfer.Delta.Receiver.Hashes.{IsHasher}
use cdc_file_transfer.Delta.Receiver.Index.{Signs, IsSound, new_receiver-IsSound, receive-IsSound}
use cdc_file_transfer.Delta.Sender.{
  Sender, new_sender, add_existing_chunk, add_new_chunk, add_chunks, flush,
}
use cdc_file_transfer.Delta.Sender.Pending.{IsReady, new_sender-IsReady}
use cdc_file_transfer.Delta.Sender.Step.{
  add_existing_chunk-IsReady, add_new_chunk-IsReady, flush-Pays,
}
use cdc_file_transfer.Delta.Sender.Chunks.{IsDistinct, Advance, add_chunks-Advance}
use cdc_file_transfer.Delta.Session.{config, create_and_send_diff}
use cdc_file_transfer.Delta.Session.Correct.{create_and_send_diff_patches}
use cdc_file_transfer.Delta.Session.Transfer.{transfer_lem}
use cdc_file_transfer.Delta.Signature.{Signer, create_and_send_signature}
use cdc_file_transfer.Delta.Signature.Correct.{SignsAll}
use cdc_file_transfer.Delta.Signature.Stream.{create_and_send_signature-SignsAll}

-- The length, as a hash.
abbrev toy_hash : List ℕ → List ℕ
toy_hash d = length d % 256 ∷ []

toy_hash-IsHasher : IsHasher toy_hash
toy_hash-IsHasher d = (mod-lt (length d) (omega arith), tt)

abbrev accept_all : List PatchRequest → PatchRequest → Bool
accept_all sent r = true

abbrev sign_all : List SignaturesResponse → SignaturesResponse → Bool
sign_all sent r = true

abbrev write_all : List ℕ → List ℕ → Bool
write_all before bytes = true

abbrev new_file : List ℕ
new_file = 9 ∷ 8 ∷ 7 ∷ 6 ∷ []

abbrev old_chunks : List (List ℕ)
old_chunks = (1 ∷ 2 ∷ []) ∷ new_file ∷ []

abbrev old_file : List ℕ
old_file = 1 ∷ 2 ∷ 9 ∷ 8 ∷ 7 ∷ 6 ∷ []

abbrev responses : List SignaturesResponse
responses =
    record {
      sizes = 2 ∷ 4 ∷ [];
      hashes =
          hash_bytes (compute_hash toy_hash (1 ∷ 2 ∷ []))
          ++ (hash_bytes (compute_hash toy_hash new_file) ++ []);
    }
    ∷ record { sizes = []; hashes = [] }
    ∷ []

responses-Signs : Signs toy_hash toy_hash-IsHasher responses old_chunks
unfolding to_u32
responses-Signs = inr (1 ∷ 2 ∷ [], new_file ∷ [], [], refl, refl, inl (refl, refl))

new_file-IsDistinct : IsDistinct toy_hash toy_hash-IsHasher old_chunks new_file
unfolding compute_hash hash_of_bytes
new_file-IsDistinct = ((λ e. absurd (omega (arith, ap (λ (h : Hash). h.low) e))), ((λ e. refl), tt))

once : process_all 64 gear64 (fresh config) (new_file ∷ []) ≡ some (new_file ∷ [])
unfolding process_all process finalize chunk_loop more find_chunk_boundary
once = refl

create_and_send_diff_patches_example :
    (p : Sender) × (s : Patched) × (create_and_send_diff 64 gear64 toy_hash accept_all new_file
        (((9 ∷ 8 ∷ []), true) ∷ ((7 ∷ 6 ∷ []), false) ∷ [])
        responses
      ≡ ok p)
    × (receive_diff_and_patch write_all old_file p.sent ≡ ok s)
    × (s.content ≡ new_file)
create_and_send_diff_patches_example =
    create_and_send_diff_patches 64 gear64 (omega arith) toy_hash toy_hash-IsHasher accept_all
      (λ sent r. refl) write_all (λ a b. refl) old_file (omega arith) old_chunks responses refl
      (omega arith, (omega arith, tt)) responses-Signs
      (((9 ∷ 8 ∷ []), true) ∷ ((7 ∷ 6 ∷ []), false) ∷ []) (new_file ∷ [])
      (omega arith, (omega arith, tt)) (omega arith) once (new_file-IsDistinct, tt)

start-IsSound :
    IsSound toy_hash toy_hash-IsHasher old_file old_chunks (omega arith) (new_receiver responses)
start-IsSound =
    new_receiver-IsSound toy_hash toy_hash-IsHasher old_file old_chunks (omega arith) responses refl
      (omega arith, (omega arith, tt)) responses-Signs

receive-IsSound_example :
    (r' : Receiver) × (n : ℕ) × (receive true false (new_receiver responses) ≡ ok (r', n))
    × IsSound toy_hash toy_hash-IsHasher old_file old_chunks (omega arith) r'
    × (length r'.inbox ≤ 2)
    × (true ≡ true → false ≡ false → length r'.inbox < 2)
    × (false ≡ true → r'.all_chunks_received ≡ true)
receive-IsSound_example =
    receive-IsSound toy_hash toy_hash-IsHasher old_file old_chunks (omega arith) true false
      (new_receiver responses) start-IsSound

add_existing_chunk-IsReady_example :
    (p' : Sender) × (add_existing_chunk accept_all 2 4 new_sender ≡ ok p')
    × IsReady old_file p' new_file
    × (p'.curr_chunk_idx ≡ 0)
add_existing_chunk-IsReady_example =
    add_existing_chunk-IsReady accept_all (λ sent r. refl) old_file new_sender [] new_file 2 4
      (new_sender-IsReady old_file) refl refl (omega arith) (omega arith) (omega arith)
      (omega arith)

add_new_chunk-IsReady_example :
    (p' : Sender) × (add_new_chunk accept_all new_file 4 new_sender ≡ ok p')
    × IsReady old_file p' new_file
    × (p'.curr_chunk_idx ≡ 0)
add_new_chunk-IsReady_example =
    add_new_chunk-IsReady accept_all (λ sent r. refl) old_file new_sender [] new_file new_file
      (new_sender-IsReady old_file) refl (omega arith) (omega arith)

abbrev one_sent : Sender
one_sent = record {
  request = record {
    sources = source_basis_file ∷ [];
    offsets = 2 ∷ [];
    sizes = 4 ∷ [];
    payload = [];
  };
  request_size = 13;
  total_request_size = 0;
  file_offset = 4;
  curr_chunk_idx = 1;
  sent = [];
}

one_sent-IsReady : IsReady old_file one_sent new_file
one_sent-IsReady = record {
  pending = record {
    commands = record { source = source_basis_file; offset = 2; size = 4 } ∷ [];
    payload = [];
    done = [];
    shape = refl;
    fits = (omega arith, tt);
    ends = λ e. cc;
    paid = refl;
    total = refl;
    metered = omega arith;
  };
  room = omega arith;
  position = refl;
}

flush-Pays_example :
    (p' : Sender) × (rs : List PatchRequest) × (flush accept_all one_sent ≡ ok p')
    × (p'.sent ≡ rs ++ empty_request ∷ [])
    × Pays old_file rs new_file
flush-Pays_example =
    flush-Pays accept_all (λ sent r. refl) old_file one_sent new_file one_sent-IsReady

add_chunks-Advance_example :
    Advance toy_hash toy_hash-IsHasher old_chunks accept_all
      (λ sent r. refl)
      old_file
      (omega arith)
      new_file
      (omega arith)
      (new_receiver responses)
      new_sender
      []
      (new_file ∷ [])
      (add_chunks accept_all new_file
        (new_receiver responses)
        (client_chunk toy_hash new_file ∷ [])
        new_sender
        0)
add_chunks-Advance_example =
    add_chunks-Advance toy_hash toy_hash-IsHasher old_chunks accept_all (λ sent r. refl) old_file
      (omega arith) new_file (omega arith) (new_receiver responses) [] (new_file ∷ []) [] new_sender
      0 tt (record { ready = new_sender-IsReady old_file; index = refl }) refl (omega arith, tt)
      (new_file-IsDistinct, tt)

abbrev some_requests : List PatchRequest
some_requests =
    record {
      sources = source_basis_file ∷ source_data ∷ [];
      offsets = 2 ∷ 0 ∷ [];
      sizes = 4 ∷ 1 ∷ [];
      payload = 33 ∷ [];
    }
    ∷ []

receive_diff_and_patch-content_example :
    (s : Patched) × (receive_diff_and_patch write_all old_file (some_requests ++ empty_request ∷ [])
      ≡ ok s)
    × (s.content ≡ new_file ++ 33 ∷ [])
receive_diff_and_patch-content_example =
    receive_diff_and_patch-content write_all (λ a b. refl) old_file some_requests
      (new_file ++ 33 ∷ [])
      (
        record { source = source_data; offset = 0; size = 1 },
        record { source = source_basis_file; offset = 2; size = 4 } ∷ [],
        33 ∷ [],
        [],
        refl,
        (omega arith, (omega arith, tt)),
        omega arith,
        refl,
        refl,
      )

abbrev basis_blocks : List (List ℕ × List Bool)
basis_blocks = ((1 ∷ 2 ∷ []), []) ∷ ((3 ∷ []), true ∷ []) ∷ []

create_and_send_signature-SignsAll_example :
    (s : Signer) × (chunks : List (List ℕ)) × (create_and_send_signature 64 gear64 toy_hash sign_all
        basis_blocks
        (true ∷ [])
      ≡ ok s)
    × (process_all 64 gear64 (fresh config) ((1 ∷ 2 ∷ 3 ∷ []) ∷ []) ≡ some chunks)
    × SignsAll toy_hash toy_hash-IsHasher s.sent chunks
create_and_send_signature-SignsAll_example =
    create_and_send_signature-SignsAll 64 gear64 (omega arith) toy_hash toy_hash-IsHasher sign_all
      (λ sent r. refl) basis_blocks (true ∷ []) (omega arith, (omega arith, tt))

one_basis_chunk :
    process_all 64 gear64 (fresh config) ((1 ∷ 2 ∷ 3 ∷ []) ∷ []) ≡ some ((1 ∷ 2 ∷ 3 ∷ []) ∷ [])
unfolding process_all process finalize chunk_loop more find_chunk_boundary
one_basis_chunk = refl

apart : IsDistinct toy_hash toy_hash-IsHasher ((1 ∷ 2 ∷ 3 ∷ []) ∷ []) new_file
unfolding compute_hash hash_of_bytes
apart = ((λ e. absurd (omega (arith, ap (λ (h : Hash). h.low) e))), tt)

transfer_lem_example :
    (signer : Signer) × (p : Sender) × (s : Patched) × (create_and_send_signature 64 gear64 toy_hash
        sign_all basis_blocks
        (true ∷ [])
      ≡ ok signer)
    × (create_and_send_diff 64 gear64 toy_hash accept_all new_file
          (((9 ∷ 8 ∷ []), true) ∷ ((7 ∷ 6 ∷ []), false) ∷ [])
          signer.sent
        ≡ ok p)
    × (receive_diff_and_patch write_all (1 ∷ 2 ∷ 3 ∷ []) p.sent ≡ ok s)
    × (s.content ≡ new_file)
transfer_lem_example =
    transfer_lem 64 gear64 (omega arith) toy_hash toy_hash-IsHasher sign_all (λ sent r. refl)
      accept_all (λ sent r. refl) write_all (λ a b. refl) basis_blocks (true ∷ [])
      ((1 ∷ 2 ∷ 3 ∷ []) ∷ []) (omega arith, (omega arith, tt)) (omega arith) one_basis_chunk
      (((9 ∷ 8 ∷ []), true) ∷ ((7 ∷ 6 ∷ []), false) ∷ []) (new_file ∷ [])
      (omega arith, (omega arith, tt)) (omega arith) once (apart, tt)
