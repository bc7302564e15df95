-- ===== src/Delta/Session/Transfer.antt =====
-- cdc_rsync/base/cdc_interface.cc: both sides together, from the two files to the patched file.
use mathlib.Core.Option.{some-injective}
use cdc_file_transfer.Prelude.{
  ℕ, ◌^◌, ◌≤◌, ◌<◌, ◌≡◌, sym, ◌∙◌, Bool, List, [], ◌∷◌, length, arith, some, All, subst,
}
use cdc_file_transfer.Prelude.Status.{ok}
use cdc_file_transfer.Chunker.{process_all, fresh}
use cdc_file_transfer.Delta.{PatchRequest, SignaturesResponse, max_chunk_size}
use cdc_file_transfer.Delta.Patch.{Patched, receive_diff_and_patch}
use cdc_file_transfer.Delta.Patch.Replay.{Writes}
use cdc_file_transfer.Delta.Receiver.Hashes.{IsHasher}
use cdc_file_transfer.Delta.Receiver.Index.{Signs}
use cdc_file_transfer.Delta.Sender.{Sender}
use cdc_file_transfer.Delta.Sender.Pending.{Accepts}
use cdc_file_transfer.Delta.Sender.Chunks.{IsDistinct}
use cdc_file_transfer.Delta.Session.{config, create_and_send_diff}
use cdc_file_transfer.Delta.Session.Correct.{
  contents, NonEmpty, config-chunks, create_and_send_diff_patches,
}
use cdc_file_transfer.Delta.Signature.{Signer, create_and_send_signature}
use cdc_file_transfer.Delta.Signature.Correct.{AcceptsAll, SignsAll-Signs}
use cdc_file_transfer.Delta.Signature.Stream.{basis_of, create_and_send_signature-SignsAll}

All-lt :
    (xs : List (List ℕ)) → All (λ d. length d ≤ max_chunk_size) xs → All (λ d. length d < 2 ^ 32) xs
All-lt [] h = tt
All-lt (x ∷ xs) h = (omega (arith, h.0), All-lt xs h.1)

-- If both files have less than 2^64 bytes and are read in blocks that are not empty, chunks of the
-- two files with equal hashes are equal, the message pumps accept every message and no write fails,
-- then for hash tasks and responses that arrive at any times the server signs its file, the client
-- sends its diff and the server patches, all without an error, and the patched file is the client's
-- file.
pub transfer_lem :
    (w : ℕ) (gear : ℕ → ℕ)
    → 0 < w
    → (blake3 : List ℕ → List ℕ) (hasher : IsHasher blake3)
    → (accept_signatures : List SignaturesResponse → SignaturesResponse → Bool)
    → AcceptsAll accept_signatures
    → (accept : List PatchRequest → PatchRequest → Bool) → Accepts accept
    → (can_write : List ℕ → List ℕ → Bool) → Writes can_write
    → (basis : List (List ℕ × List Bool)) (timing : List Bool) (server : List (List ℕ))
    → All (λ (b : List ℕ × List Bool). 0 < length b.0) basis
    → length (basis_of basis) < 2 ^ 64
    → process_all w gear (fresh config) (basis_of basis ∷ []) ≡ some server
    → (blocks : List (List ℕ × Bool)) (client : List (List ℕ)) → NonEmpty blocks
    → length (contents blocks) < 2 ^ 64
    → process_all w gear (fresh config) (contents blocks ∷ []) ≡ some client
    → All (IsDistinct blake3 hasher server) client
    → (signer : Signer) × (p : Sender) × (s : Patched) × (create_and_send_signature w gear blake3
          accept_signatures basis timing
        ≡ ok signer)
      × (create_and_send_diff w gear blake3 accept (contents blocks) blocks signer.sent ≡ ok p)
      × (receive_diff_and_patch can_write (basis_of basis) p.sent ≡ ok s)
      × (s.content ≡ contents blocks)
transfer_lem w gear wide blake3 hasher accept_signatures all_signatures accept accepts can_write
      writes basis timing server some_basis basis64 cut_basis blocks client some_blocks file64
      cut_file distinct =
    let (signer, chunks, e, once, signs) =
      create_and_send_signature-SignsAll w gear wide blake3 hasher accept_signatures all_signatures
        basis timing some_basis in
    let signs' : Signs blake3 hasher signer.sent server =
      subst (Signs blake3 hasher signer.sent) (some-injective chunks server (sym once ∙ cut_basis))
        (SignsAll-Signs blake3 hasher signer.sent chunks signs) in
    let (_, same, small) = config-chunks w gear wide (basis_of basis) server cut_basis in
    let (p, s, e', e2, content) =
      create_and_send_diff_patches w gear wide blake3 hasher accept accepts can_write writes
        (basis_of basis) basis64 server signer.sent same (All-lt server small) signs' blocks client
        some_blocks file64 cut_file distinct in
    (signer, p, s, e, e', e2, content)
