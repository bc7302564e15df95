-- ===== src/Delta/Signature/Stream.antt =====
-- cdc_rsync/base/cdc_interface.cc: `CreateAndSendSignature` over the blocks of the file.
use cdc_file_transfer.Prelude.{
  ℕ, ◌<◌, ◌≡◌, refl, sym, ap, ◌∙◌, Bool, true, List, [], ◌∷◌, ◌++◌, length, arith, append-nil, some,
  All,
}
use cdc_file_transfer.Prelude.Status.{ok}
use cdc_file_transfer.Chunker.{Chunker, process, process_all, fresh}
use cdc_file_transfer.Chunker.Cuts.{Cuts}
use cdc_file_transfer.Chunker.Streaming.{Cuts-nil, process-next, process-last, process_once-Cuts}
use cdc_file_transfer.Delta.{SignaturesResponse, min_num_chunks_per_batch}
use cdc_file_transfer.Delta.Receiver.Hashes.{IsHasher}
use cdc_file_transfer.Delta.Session.{config}
use cdc_file_transfer.Delta.Signature.{
  Signer, new_signer, queue_tasks, drain, send_response, send_batch, sign_chunks, sign_block,
  sign_end, sign_stream, create_and_send_signature,
}
use cdc_file_transfer.Delta.Signature.Correct.{
  AcceptsAll, SignsAll, config-IsValid, IsOpen, new_signer-IsOpen, IsOpen-SignsAll, drain-IsOpen,
  drain_all-IsOpen, queue_tasks-IsOpen, send_batch-IsOpen,
}

-- The bytes of the blocks that are read; none of them is empty.
abbrev pub basis_of : List (List ℕ × List Bool) → List ℕ
basis_of [] = []
basis_of ((block, timing) ∷ blocks) = block ++ basis_of blocks

module _ (w : ℕ) (gear : ℕ → ℕ) (wide : 0 < w) (blake3 : List ℕ → List ℕ) (hasher : IsHasher blake3)
    (accept : List SignaturesResponse → SignaturesResponse → Bool) (accepts : AcceptsAll accept)
    (client : List (List ℕ)) where
  pub record IsSigning (s : Signer) (rest : List ℕ) : Type 0 where
    pub buffer : List ℕ
    pub future : List (List ℕ)
    pub chunker : s.chunker ≡ record { cfg = config; buffer = buffer }
    pub cuts : Cuts w gear config true (buffer ++ rest) future []
    pub signed : IsOpen blake3 hasher client s future

  sign_chunks_lem :
      (block : List ℕ) (s : Signer) (xs : List (List ℕ)) (c : Chunker)
      → process w gear s.chunker block ≡ some (xs, c)
      → sign_chunks w gear blake3 accept block s ≡ ok (queue_tasks xs (record s { chunker = c }))
  unfolding sign_chunks
  sign_chunks_lem block s xs c e = rw (e, sign_chunks) refl

  -- The chunks that a call of `Process` finds wait in the pool.
  found-IsSigning :
      (block rest r : List ℕ) (s : Signer) (xs ys : List (List ℕ)) (g : IsSigning s (block ++ rest))
      → process w gear (record { cfg = config; buffer = g.buffer }) block
        ≡ some (xs, record { cfg = config; buffer = r })
      → g.future ≡ xs ++ ys
      → Cuts w gear config true (r ++ rest) ys []
      → (s' : Signer) × (sign_chunks w gear blake3 accept block s ≡ ok s')
        × ((g' : IsSigning s' rest) × (g'.future ≡ ys))
  found-IsSigning block rest r s xs ys g e split cuts' =
      let next = record s { chunker = record { cfg = config; buffer = r } } in
      let opened : IsOpen blake3 hasher client next (xs ++ ys) = record {
        done = g.signed.done;
        part = g.signed.part;
        batches = g.signed.batches;
        shape = g.signed.shape;
        parts = g.signed.parts ∙ ap (λ f. (g.signed.done ++ g.signed.part) ++ (s.queue ++ f)) split;
        count = g.signed.count;
      } in
      let (open', same) = queue_tasks-IsOpen blake3 hasher client xs next ys opened in
      (
        queue_tasks xs next,
        sign_chunks_lem block s xs _ (ap (λ c. process w gear c block) g.chunker ∙ e),
        (record { buffer = r; future = ys; chunker = same; cuts = cuts'; signed = open' }, refl),
      )

  sign_chunks_end :
      (s : Signer)
      → IsSigning s []
      → (s' : Signer) × (sign_chunks w gear blake3 accept [] s ≡ ok s')
        × ((g' : IsSigning s' []) × (g'.future ≡ []))
  sign_chunks_end s g =
      found-IsSigning [] [] [] s g.future [] g
        (process-last w gear config wide config-IsValid g.buffer g.future (rw append-nil at g.cuts))
        (sym (append-nil g.future)) (Cuts-nil w gear config wide config-IsValid)

  -- What the read handler does once the chunks are found.
  after_chunks-IsSigning :
      (timing : List Bool) (s : Signer) (rest : List ℕ)
      → IsSigning s rest
      → (s' : Signer) × (send_batch accept min_num_chunks_per_batch (drain blake3 s.queue timing s)
          ≡ ok s')
        × IsSigning s' rest
  after_chunks-IsSigning timing s rest g =
      let (opened, same) =
        drain-IsOpen blake3 hasher client s.queue timing s g.future refl g.signed in
      let (s', e, open', same', _, _) =
        send_batch-IsOpen blake3 hasher client accept accepts min_num_chunks_per_batch _ g.future
          (omega arith) opened in
      (
        s',
        e,
        record {
          buffer = g.buffer;
          future = g.future;
          chunker = same' ∙ (same ∙ g.chunker);
          cuts = g.cuts;
          signed = open';
        },
      )

  sign_block-IsSigning :
      (block : List ℕ) (timing : List Bool) (s : Signer) (rest : List ℕ)
      → 0 < length block
      → IsSigning s (block ++ rest)
      → (s' : Signer) × (sign_block w gear blake3 accept block timing s ≡ ok s') × IsSigning s' rest
  unfolding sign_block
  sign_block-IsSigning block timing s rest some_bytes g =
      let (xs, ys, r, e, split, cuts') =
        process-next w gear config wide config-IsValid g.buffer block rest g.future some_bytes
          g.cuts in
      let (s1, e1, (g1, _)) = found-IsSigning block rest r s xs ys g e split cuts' in
      let (s2, e2, g2) = after_chunks-IsSigning timing s1 rest g1 in (s2, rw e1 e2, g2)

  sign_end-SignsAll :
      (s : Signer)
      → IsSigning s []
      → (s' : Signer) × (sign_end w gear blake3 accept s ≡ ok s')
        × SignsAll blake3 hasher s'.sent client
  unfolding sign_end send_response
  sign_end-SignsAll s g =
      let (s1, e1, (g1, none_left)) = sign_chunks_end s g in
      let (opened, empty) =
        drain_all-IsOpen blake3 hasher client s1.queue s1 g1.future refl g1.signed in
      let (s2, e2, open', _, queue, response) =
        send_batch-IsOpen blake3 hasher client accept accepts 1 _ g1.future (omega arith) opened in
      (
        record s2 { sent = s2.sent ++ s2.response ∷ [] },
        rw e1 (rw e2 (rw (accepts s2.sent s2.response) refl)),
        IsOpen-SignsAll blake3 hasher client s2 g1.future open' none_left (queue ∙ empty)
            (response refl),
      )

  sign_stream-SignsAll :
      (blocks : List (List ℕ × List Bool)) (timing : List Bool) (s : Signer)
      → All (λ (b : List ℕ × List Bool). 0 < length b.0) blocks
      → IsSigning s (basis_of blocks)
      → (s' : Signer) × (sign_stream w gear blake3 accept blocks timing s ≡ ok s')
        × SignsAll blake3 hasher s'.sent client
  unfolding sign_stream sign_block
  sign_stream-SignsAll [] timing s h g =
      let (s1, e1, (g1, _)) = sign_chunks_end s g in
      let (s2, e2, g2) = after_chunks-IsSigning timing s1 [] g1 in
      let (s3, e3, signs) = sign_end-SignsAll s2 g2 in (s3, rw e1 (rw e2 e3), signs)
  sign_stream-SignsAll ((block, now) ∷ blocks) timing s h g =
      let (s1, e1, g1) = sign_block-IsSigning block now s (basis_of blocks) h.0 g in
      let (s2, e2, signs) = sign_stream-SignsAll blocks timing s1 h.1 g1 in (s2, rw e1 e2, signs)

-- If the message pump accepts every message, then for a file read in blocks that are not empty, and
-- whatever hash tasks are completed at each time, CreateAndSendSignature succeeds and sends the
-- signatures of the chunks of the whole file in order, in responses that are not empty, and behind
-- them one empty response and nothing more.
pub create_and_send_signature-SignsAll :
    (w : ℕ) (gear : ℕ → ℕ)
    → 0 < w
    → (blake3 : List ℕ → List ℕ) (hasher : IsHasher blake3)
    → (accept : List SignaturesResponse → SignaturesResponse → Bool) → AcceptsAll accept
    → (blocks : List (List ℕ × List Bool)) (timing : List Bool)
    → All (λ (b : List ℕ × List Bool). 0 < length b.0) blocks
    → (s : Signer) × (chunks : List (List ℕ)) × (create_and_send_signature w gear blake3 accept
          blocks timing
        ≡ ok s)
      × (process_all w gear (fresh config) (basis_of blocks ∷ []) ≡ some chunks)
      × SignsAll blake3 hasher s.sent chunks
unfolding create_and_send_signature
create_and_send_signature-SignsAll w gear wide blake3 hasher accept accepts blocks timing
      some_bytes =
    let (chunks, once, cuts) =
      process_once-Cuts w gear config wide config-IsValid (basis_of blocks) in
    let (s, e, signs) =
      sign_stream-SignsAll w gear wide blake3 hasher accept accepts chunks blocks timing new_signer
        some_bytes
        (record {
          buffer = [];
          future = chunks;
          chunker = refl;
          cuts = cuts;
          signed = new_signer-IsOpen blake3 hasher chunks;
        }) in
    (s, chunks, e, once, signs)
