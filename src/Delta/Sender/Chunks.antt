-- ===== src/Delta/Sender/Chunks.antt =====
-- cdc_rsync/base/cdc_interface.cc: `TryAddChunks` sends the client's chunks one after the other.
use mathlib.Core.Bool.{false≢true}
use cdc_file_transfer.Prelude.{
  ℕ, ◌+◌, ◌^◌, ◌≤◌, ◌<◌, ◌≡◌, refl, sym, ap, ◌∙◌, ◌⊎◌, inl, inr, Bool, true, false, List, [], ◌∷◌,
  ◌++◌, map, length, take, drop, arith, append-nil, append_assoc, length-append, Bool-cases,
  Option-cases, some, none, Option, flatten, flatten-append, All, take-length-append,
  drop-length-append, subst,
}
use cdc_file_transfer.Prelude.Status.{Result, ok}
use cdc_file_transfer.Prelude.Words.{add64, to_u32_exact}
use cdc_file_transfer.Delta.{Chunk, PatchRequest, compute_hash, client_chunk, max_chunk_size}
use cdc_file_transfer.Delta.Patch.Replay.{slice}
use cdc_file_transfer.Delta.Receiver.{Receiver, find_offset}
use cdc_file_transfer.Delta.Receiver.Hashes.{All-Member, IsHasher}
use cdc_file_transfer.Delta.Receiver.Index.{Entries, find_offset-Entry}
use cdc_file_transfer.Delta.Sender.{
  Sender, add_existing_chunk, add_chunk, add_chunks, add_new_chunk,
}
use cdc_file_transfer.Delta.Sender.Pending.{IsReady, Accepts}
use cdc_file_transfer.Delta.Sender.Step.{add_existing_chunk-IsReady, add_new_chunk-IsReady}

-- The chunk is not among the server's.
add_chunk_new :
    (accept : List PatchRequest → PatchRequest → Bool) (file : List ℕ) (r : Receiver) (c : Chunk)
    (p : Sender)
    → find_offset c.hash r.chunk_offsets ≡ none
    → r.all_chunks_received ≡ true
    → add_chunk accept file r c p ≡ some (add_new_chunk accept file c.size p)
unfolding add_chunk
add_chunk_new accept file r c p missing all = rw (missing, add_chunk) (rw all refl)

-- The chunk is one of the server's.
add_chunk_old :
    (accept : List PatchRequest → PatchRequest → Bool) (file : List ℕ) (r : Receiver) (c : Chunk)
    (p : Sender) (offset : ℕ)
    → find_offset c.hash r.chunk_offsets ≡ some offset
    → add_chunk accept file r c p ≡ some (add_existing_chunk accept offset c.size p)
unfolding add_chunk
add_chunk_old accept file r c p offset found = rw (found, add_chunk) refl

-- What the loop does behind a chunk.
module _ (accept : List PatchRequest → PatchRequest → Bool) (file : List ℕ) (r : Receiver)
    (c : Chunk) (cs : List Chunk) (p : Sender) (num : ℕ) where
  add_chunks_wait :
      add_chunk accept file r c p ≡ none → add_chunks accept file r (c ∷ cs) p num ≡ ok (p, num)
  unfolding add_chunks
  add_chunks_wait e = rw (e, add_chunks) refl

  add_chunks_one :
      (p' : Sender)
      → add_chunk accept file r c p ≡ some (ok p')
      → r.all_chunks_received ≡ true
      → add_chunks accept file r (c ∷ cs) p num
        ≡ ok (record p' { curr_chunk_idx = p'.curr_chunk_idx + 1 }, add64 num c.size)
  unfolding add_chunks
  add_chunks_one p' e all = rw (e, add_chunks) (rw all refl)

  add_chunks_more :
      (p' : Sender)
      → add_chunk accept file r c p ≡ some (ok p')
      → r.all_chunks_received ≡ false
      → add_chunks accept file r (c ∷ cs) p num
        ≡ add_chunks accept file r cs
            (record p' { curr_chunk_idx = p'.curr_chunk_idx + 1 })
            (add64 num c.size)
  unfolding add_chunks
  add_chunks_more p' e wait = rw (e, add_chunks) (simp wait refl)

module _ (blake3 : List ℕ → List ℕ) (hasher : IsHasher blake3) (server : List (List ℕ)) where
  -- A chunk of the client's file that has the hash of one of the server's is that one.
  abbrev pub IsDistinct : List ℕ → Type 0
  IsDistinct a = All (λ b. compute_hash blake3 a ≡ compute_hash blake3 b → a ≡ b) server

  module _ (accept : List PatchRequest → PatchRequest → Bool) (accepts : Accepts accept)
      (basis : List ℕ) (basis64 : length basis < 2 ^ 64) (file : List ℕ)
      (file64 : length file < 2 ^ 64) where
    -- The bytes behind those that are sent.
    slice_next :
        (out d tail : List ℕ) → file ≡ out ++ (d ++ tail) → slice file (length out) (length d) ≡ d
    slice_next out d tail split =
        ap (λ f. take (length d) (drop (length out) f)) split
        ∙ (ap (take (length d)) (drop-length-append out (d ++ tail)) ∙ take-length-append d tail)

    -- The outcome for a chunk: it waits for more chunks of the server, or is sent.
    Outcome : Receiver → Sender → List ℕ → Option (Result Sender) → Type 0
    Outcome r p out o =
        ((o ≡ none) × (r.all_chunks_received ≡ false))
        ⊎ ((p' : Sender) × (o ≡ some (ok p'))
            × IsReady basis p' out
            × (p'.curr_chunk_idx ≡ p.curr_chunk_idx))

    add_chunk-Outcome :
        (r : Receiver) (p : Sender) (out d tail : List ℕ)
        → Entries blake3 hasher basis server r.chunk_offsets
        → IsReady basis p out
        → file ≡ out ++ (d ++ tail)
        → length d ≤ max_chunk_size
        → IsDistinct d
        → Outcome r p (out ++ d) (add_chunk accept file r (client_chunk blake3 d) p)
    unfolding Outcome add_chunk client_chunk
    add_chunk-Outcome r p out d tail es ready split small one =
        let size = to_u32_exact (length d) (omega arith) in
        let all_in : length out + length d ≤ length file =
          rw split (omega (arith, length-append out (d ++ tail), length-append d tail)) in
        elim (Option-cases (find_offset (compute_hash blake3 d) r.chunk_offsets)) [
          | inr (offset, found) ↦
              let (b, member, h, same, inside) =
                find_offset-Entry blake3 hasher basis server _ r.chunk_offsets offset es found in
              let eq : d ≡ b =
                All-Member (λ b. compute_hash blake3 d ≡ compute_hash blake3 b → d ≡ b) server b one
                  member h in
              let (p', e, ready', idx) =
                add_existing_chunk-IsReady accept accepts basis p out d offset (length d) ready refl
                  (rw eq same) (rw eq inside) small (omega arith) basis64 in
              inr (
                p',
                add_chunk_old accept file r (client_chunk blake3 d) p offset found
                    ∙ ap some (ap (λ n. add_existing_chunk accept offset n p) size ∙ e),
                ready',
                idx,
              )
          | inl missing ↦ elim (Bool-cases r.all_chunks_received) [
            | inr wait ↦ inl (rw (missing, add_chunk) (rw wait), wait)
            | inl all ↦
                let (p', e, ready', idx) =
                  add_new_chunk-IsReady accept accepts basis p out d file ready
                    (slice_next out d tail split) small (omega arith) in
                inr (
                  p',
                  add_chunk_new accept file r (client_chunk blake3 d) p missing all
                      ∙ ap some (ap (λ n. add_new_chunk accept file n p) size ∙ e),
                  ready',
                  idx,
                )
          ]
        ]

    -- The index of the next chunk does not matter to what is sent.
    step_index :
        (p : Sender) (out : List ℕ)
        → IsReady basis p out
        → IsReady basis (record p { curr_chunk_idx = p.curr_chunk_idx + 1 }) out
    step_index p out ready = record {
      pending = record {
        commands = h.commands;
        payload = h.payload;
        done = h.done;
        shape = h.shape;
        fits = h.fits;
        ends = h.ends;
        paid = h.paid;
        total = h.total;
        metered = h.metered;
      };
      room = ready.room;
      position = ready.position;
    }
      where
        open ready use {pending as h}

    -- Where the sender stands among the client's chunks.
    pub record IsAt (p : Sender) (sent : List (List ℕ)) : Type 0 where
      pub ready : IsReady basis p (flatten sent)
      pub index : p.curr_chunk_idx ≡ length sent

    -- What `TryAddChunks` leaves: more chunks are sent. Once all of the server's are received, one is,
    -- if any is left.
    pub record Advance (r : Receiver) (p : Sender) (sent todo : List (List ℕ))
        (m : Result (Sender × ℕ)) : Type 0 where
      pub after : Sender
      pub bytes : ℕ
      pub sent_now : List (List ℕ)
      pub todo_now : List (List ℕ)
      pub returned : m ≡ ok (after, bytes)
      pub parts : sent ++ todo ≡ sent_now ++ todo_now
      pub at : IsAt after sent_now
      pub fewer : length todo_now ≤ length todo
      pub one : r.all_chunks_received ≡ true → 0 < length todo → length todo_now < length todo

    -- On a sound map of the basis file, for chunks of the client's file in order that are at most
    -- the maximal size and equal to a server's chunk if they have its hash, and a pump that accepts
    -- every message, the loop of TryAddChunks succeeds and the requests stand for all chunks sent
    -- so far; once all of the server's chunks are received it sends one, if any is left.
    pub add_chunks-Advance :
        (r : Receiver) (sent todo : List (List ℕ)) (tail : List ℕ) (p : Sender) (num : ℕ)
        → Entries blake3 hasher basis server r.chunk_offsets
        → IsAt p sent
        → file ≡ flatten (sent ++ todo) ++ tail
        → All (λ d. length d ≤ max_chunk_size) todo
        → All IsDistinct todo
        → Advance r p sent todo (add_chunks accept file r (map (client_chunk blake3) todo) p num)
    unfolding add_chunks Outcome
    add_chunks-Advance r sent [] tail p num es at split small distinct = record {
      after = p;
      bytes = num;
      sent_now = sent;
      todo_now = [];
      returned = refl;
      parts = refl;
      at = at;
      fewer = omega arith;
      one = λ a b. b;
    }
    add_chunks-Advance r sent (d ∷ todo) tail p num es at split small distinct =
        elim (add_chunk-Outcome r p (flatten sent) d (flatten todo ++ tail) es at.ready
          (split_next split) small.0 distinct.0) [
            | inl (e, wait) ↦ record {
              after = p;
              bytes = num;
              sent_now = sent;
              todo_now = d ∷ todo;
              returned =
                  add_chunks_wait accept file r (client_chunk blake3 d)
                    (map (client_chunk blake3) todo) p num e;
              parts = refl;
              at = at;
              fewer = omega arith;
              one = λ all. absurd (false≢true (sym wait ∙ all));
            }
            | inr (p', e, ready', idx) ↦
                let at' : IsAt (record p' { curr_chunk_idx = p'.curr_chunk_idx + 1 })
                    (sent ++ d ∷ []) =
                  sent_one p' ready' idx in
                elim (Bool-cases r.all_chunks_received) [
                  | inl all ↦ record {
                    after = record p' { curr_chunk_idx = p'.curr_chunk_idx + 1 };
                    bytes = add64 num (client_chunk blake3 d).size;
                    sent_now = sent ++ d ∷ [];
                    todo_now = todo;
                    returned =
                        add_chunks_one accept file r (client_chunk blake3 d)
                          (map (client_chunk blake3) todo) p num p' e all;
                    parts = sym (append_assoc sent (d ∷ []) todo);
                    at = at';
                    fewer = omega arith;
                    one = λ a b. omega arith;
                  }
                  | inr wait ↦
                      let next =
                        add_chunks-Advance r (sent ++ d ∷ []) todo tail
                          (record p' { curr_chunk_idx = p'.curr_chunk_idx + 1 })
                          (add64 num (client_chunk blake3 d).size) es at'
                          (split
                            ∙ ap (λ x. flatten x ++ tail) (sym (append_assoc sent (d ∷ []) todo)))
                          small.1 distinct.1 in
                      record {
                        after = next.after;
                        bytes = next.bytes;
                        sent_now = next.sent_now;
                        todo_now = next.todo_now;
                        returned =
                            add_chunks_more accept file r (client_chunk blake3 d)
                              (map (client_chunk blake3) todo) p num p' e wait
                            ∙ next.returned;
                        parts = sym (append_assoc sent (d ∷ []) todo) ∙ next.parts;
                        at = next.at;
                        fewer = omega (arith, next.fewer);
                        one = λ all. absurd (false≢true (sym wait ∙ all));
                      }
                ]
          ]
      where
        split_next :
            file ≡ flatten (sent ++ d ∷ todo) ++ tail
            → file ≡ flatten sent ++ (d ++ (flatten todo ++ tail))
        split_next e =
            e
            ∙ (ap (λ x. x ++ tail) (flatten-append sent (d ∷ todo))
                ∙ (append_assoc (flatten sent) (d ++ flatten todo) tail
                    ∙ ap (λ x. flatten sent ++ x) (append_assoc d (flatten todo) tail)))

        sent_one :
            (p' : Sender)
            → IsReady basis p' (flatten sent ++ d)
            → p'.curr_chunk_idx ≡ p.curr_chunk_idx
            → IsAt (record p' { curr_chunk_idx = p'.curr_chunk_idx + 1 }) (sent ++ d ∷ [])
        sent_one p' ready idx = record {
          ready = step_index p' (flatten (sent ++ d ∷ [])) (
              subst (λ out. IsReady basis p' out)
                (ap (λ x. flatten sent ++ x) (sym (append-nil d))
                  ∙ sym (flatten-append sent (d ∷ [])))
                ready);
          index = omega (arith, at.index, length-append sent (d ∷ []));
        }
