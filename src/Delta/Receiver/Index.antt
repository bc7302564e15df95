-- ===== src/Delta/Receiver/Index.antt =====
-- cdc_rsync/base/cdc_interface.cc: what `ServerChunkReceiver` knows of the server's file.
use native.Mathlib.Nat.{zero-add}
use cdc_file_transfer.Prelude.{
  ℕ, ◌+◌, ◌*◌, ◌^◌, ◌≤◌, ◌<◌, ◌≡◌, refl, sym, ap, ◌∙◌, ◌⊎◌, inl, inr, Bool, true, false, not, ◌&&◌,
  List, [], ◌∷◌, ◌++◌, length, take, drop, arith, append_assoc, length-append, ◌==◌, Bool-cases,
  some, flatten, All, drop-drop, take-length-append, drop-length-append, subst,
}
use cdc_file_transfer.Prelude.Status.{ok}
use cdc_file_transfer.Prelude.Words.{add64, add64_exact, to_u32, to_u32_exact}
use cdc_file_transfer.Delta.{
  Hash, SignaturesResponse, empty_response, hash_eq, hash_bytes, hash_of_bytes, compute_hash,
}
use cdc_file_transfer.Delta.Patch.Replay.{slice}
use cdc_file_transfer.Delta.Receiver.{
  Receiver, new_receiver, find_offset, insert_offset, add_server_chunks, take_response,
  receive_message, can_receive, receive,
}
use cdc_file_transfer.Delta.Receiver.Hashes.{
  Member, Member-middle, hash_eq-eq, of_le_bytes-lt, All-take-drop, hash_of_bytes-hash_bytes,
  IsHasher,
}

module _ (blake3 : List ℕ → List ℕ) (hasher : IsHasher blake3) where
  compute_hash-lt :
      (d : List ℕ)
      → ((compute_hash blake3 d).low < 256 ^ 8) × ((compute_hash blake3 d).high < 256 ^ 8)
  unfolding compute_hash hash_of_bytes
  compute_hash-lt d =
      let first = (All-take-drop 16 (blake3 d) (hasher d)).0 in
      (
        of_le_bytes-lt 8 (take 16 (blake3 d)) first,
        of_le_bytes-lt 8 (drop 8 (take 16 (blake3 d))) (All-take-drop 8 _ first).1,
      )

  -- The arrays of a response that signs chunks with these bytes.
  abbrev pub signed_sizes : List (List ℕ) → List ℕ
  signed_sizes [] = []
  signed_sizes (d ∷ ds) = to_u32 (length d) ∷ signed_sizes ds

  abbrev pub signed_hashes : List (List ℕ) → List ℕ
  signed_hashes [] = []
  signed_hashes (d ∷ ds) = hash_bytes (compute_hash blake3 d) ++ signed_hashes ds

  -- The responses sign the chunks in order: each some, and an empty one at the end.
  abbrev pub Signs : List SignaturesResponse → List (List ℕ) → Type 0
  Signs [] ds = ⊥
  Signs (r ∷ rs) ds =
      ((r ≡ empty_response) × (ds ≡ []))
      ⊎ ((d : List ℕ) × (part rest : List (List ℕ)) × (r
            ≡ record { sizes = signed_sizes (d ∷ part); hashes = signed_hashes (d ∷ part) })
          × (ds ≡ (d ∷ part) ++ rest)
          × Signs rs rest)

  lengths_signed : (ds : List (List ℕ)) → length (signed_hashes ds) ≡ length (signed_sizes ds) * 16
  unfolding hash_bytes
  lengths_signed [] = refl
  lengths_signed (d ∷ ds) = omega (arith, lengths_signed ds)

  module _ (basis : List ℕ) (server : List (List ℕ)) where
    -- An entry of the map tells where the basis file has a chunk with the hash.
    abbrev pub Entry : Hash → ℕ → Type 0
    Entry h offset =
        (d : List ℕ) × Member d server
        × (h ≡ compute_hash blake3 d)
        × (slice basis offset (length d) ≡ d)
        × (offset + length d ≤ length basis)

    abbrev pub Entries : List (Hash × ℕ) → Type 0
    Entries [] = Unit {0}
    Entries ((h, offset) ∷ m) = Entry h offset × Entries m

    pub find_offset-Entry :
        (h : Hash) (m : List (Hash × ℕ)) (offset : ℕ)
        → Entries m
        → find_offset h m ≡ some offset
        → Entry h offset
    unfolding find_offset
    find_offset-Entry h [] offset es e = cc
    find_offset-Entry h ((k, o) ∷ m) offset es e = elim (Bool-cases (hash_eq k h)) [
      | inl hit ↦
          let same : o ≡ offset = ground (arith, rw hit at e) in
          subst (λ x. Entry x offset) (hash_eq-eq k h hit) (subst (Entry k) same es.0)
      | inr miss ↦ find_offset-Entry h m offset es.1 (rw miss at e)
    ]

    insert_offset-Entries :
        (h : Hash) (offset : ℕ) (m : List (Hash × ℕ))
        → Entry h offset
        → Entries m
        → Entries (insert_offset h offset m)
    unfolding insert_offset
    insert_offset-Entries h offset [] e es = (e, tt)
    insert_offset-Entries h offset ((k, o) ∷ m) e es = elim (Bool-cases (hash_eq k h)) [
      | inl hit ↦ rw hit es
      | inr miss ↦ rw miss (es.0, insert_offset-Entries h offset m e es.1)
    ]

    -- Before the chunks `pending` are received: the map is sound, and the next chunk begins at the
    -- current offset.
    pub record IsIndex (r : Receiver) (pending : List (List ℕ)) : Type 0 where
      pub seen : List (List ℕ)
      pub parts : server ≡ seen ++ pending
      pub entries : Entries r.chunk_offsets
      pub position : drop r.curr_offset basis ≡ flatten pending
      pub inside : r.curr_offset + length (flatten pending) ≡ length basis
      pub small : All (λ d. length d < 2 ^ 32) pending

    module _ (basis64 : length basis < 2 ^ 64) where
      after_chunk : List ℕ → Receiver → Receiver
      after_chunk d r = record r {
        chunk_offsets = insert_offset (compute_hash blake3 d) r.curr_offset r.chunk_offsets;
        curr_offset = add64 r.curr_offset (to_u32 (length d));
      }

      one_chunk :
          (d : List ℕ) (ds : List (List ℕ)) (r : Receiver) (num : ℕ)
          → add_server_chunks (signed_sizes (d ∷ ds)) (signed_hashes (d ∷ ds)) r num
            ≡ add_server_chunks
                (signed_sizes ds)
                (signed_hashes ds)
                (after_chunk d r)
                (add64 num (to_u32 (length d)))
      unfolding add_server_chunks after_chunk
      one_chunk d ds r num =
          let (low, high) = compute_hash-lt d in
          let (back, tail) =
            hash_of_bytes-hash_bytes (compute_hash blake3 d) (signed_hashes ds) low high in
          λ i.
            add_server_chunks (signed_sizes ds) (tail i)
              (record r {
                chunk_offsets = insert_offset (back i) r.curr_offset r.chunk_offsets;
                curr_offset = add64 r.curr_offset (to_u32 (length d));
              })
              (add64 num (to_u32 (length d)))

      after_chunk-IsIndex :
          (d : List ℕ) (pending : List (List ℕ)) (r : Receiver)
          → IsIndex r (d ∷ pending)
          → IsIndex (after_chunk d r) pending
      unfolding after_chunk
      after_chunk-IsIndex d pending r ix =
          let n = length d in
          let total = length-append d (flatten pending) in
          let next : add64 r.curr_offset (to_u32 n) ≡ r.curr_offset + n = omega (
            arith,
            add64_exact r.curr_offset n,
            ap (add64 r.curr_offset) (to_u32_exact n ix.small.0),
            ix.inside,
          ) in
          record {
            seen = ix.seen ++ d ∷ [];
            parts = ix.parts ∙ sym (append_assoc ix.seen (d ∷ []) pending);
            entries =
                insert_offset-Entries (compute_hash blake3 d) r.curr_offset r.chunk_offsets
                  (
                    d,
                    subst (Member d) (sym ix.parts) (Member-middle ix.seen d pending),
                    refl,
                    rw (ix.position) (take-length-append d (flatten pending)),
                    omega (arith, ix.inside),
                  )
                  ix.entries;
            position = rw next (
                rw (← drop-drop r.curr_offset n basis)
                  (rw ix.position (drop-length-append d (flatten pending))));
            inside = omega (arith, ix.inside);
            small = ix.small.1;
          }

      add_server_chunks-IsIndex :
          (ds rest : List (List ℕ)) (r : Receiver) (num : ℕ)
          → IsIndex r (ds ++ rest)
          → let r' = (add_server_chunks (signed_sizes ds) (signed_hashes ds) r num).0 in
            IsIndex r' rest
            × (r'.inbox ≡ r.inbox)
            × (r'.all_chunks_received ≡ r.all_chunks_received)
      unfolding add_server_chunks after_chunk
      add_server_chunks-IsIndex [] rest r num ix = (ix, refl, refl)
      add_server_chunks-IsIndex (d ∷ ds) rest r num ix = rw (one_chunk d ds r num) (
          add_server_chunks-IsIndex ds rest (after_chunk d r) _
            (after_chunk-IsIndex d (ds ++ rest) r ix))

      -- What the receiver knows is right, and what it waits for signs the rest.
      pub record IsSound (r : Receiver) : Type 0 where
        pub pending : List (List ℕ)
        pub index : IsIndex r pending
        pub live : r.all_chunks_received ≡ false → Signs r.inbox pending

      -- Before anything is received, the chunks are those of the basis file.
      pub new_receiver-IsSound :
          (inbox : List SignaturesResponse)
          → flatten server ≡ basis
          → All (λ d. length d < 2 ^ 32) server
          → Signs inbox server
          → IsSound (new_receiver inbox)
      new_receiver-IsSound inbox same sizes signs = record {
        pending = server;
        index = record {
          seen = [];
          parts = refl;
          entries = tt;
          position = sym same;
          inside = zero-add (length (flatten server)) ∙ ap length same;
          small = sizes;
        };
        live = λ _. signs;
      }

      IsIndex-box :
          (r : Receiver) (inbox : List SignaturesResponse) (all : Bool) (pending : List (List ℕ))
          → IsIndex r pending
          → IsIndex (record r { inbox = inbox; all_chunks_received = all }) pending
      IsIndex-box r inbox all pending ix = record {
        seen = ix.seen;
        parts = ix.parts;
        entries = ix.entries;
        position = ix.position;
        inside = ix.inside;
        small = ix.small;
      }

      take_response-IsSound :
          (inbox : List SignaturesResponse) (r : Receiver) (pending : List (List ℕ))
          → r.inbox ≡ inbox
          → r.all_chunks_received ≡ false
          → IsIndex r pending
          → Signs inbox pending
          → (r' : Receiver) × (n : ℕ) × (receive_message inbox r ≡ ok (r', n))
            × IsSound r'
            × (length r'.inbox < length r.inbox)
      unfolding receive_message take_response
      take_response-IsSound [] r pending e w ix s = absurd s
      take_response-IsSound (response ∷ rest) r pending e w ix (inl (last, none_left)) = (
        record r { inbox = rest; all_chunks_received = true },
        0,
        rw last,
        record { pending = pending; index = IsIndex-box r rest true pending ix; live = λ h. cc },
        omega (arith, ap length e),
      )
      take_response-IsSound (response ∷ rest) r pending e w ix
            (inr (d, part, more, shape, split, signs)) =
          let r0 = record r { inbox = rest } in
          let chunks = d ∷ part in
          let (r', n) = add_server_chunks (signed_sizes chunks) (signed_hashes chunks) r0 0 in
          let (ix', box, all) =
            add_server_chunks-IsIndex chunks more r0 0
              (IsIndex-box r rest r.all_chunks_received (chunks ++ more) (rw split at ix)) in
          let fits : (length (signed_hashes chunks) == length (signed_sizes chunks) * 16) ≡ true =
            ground (arith, lengths_signed chunks) in
          let some_left : (length (signed_sizes chunks) == 0) ≡ false = ground arith in
          (
            r',
            n,
            rw shape (rw fits (rw some_left)),
            record { pending = more; index = ix'; live = λ h. rw box signs },
            omega (arith, ap length e, ap length box),
          )

      -- Receive succeeds on the signatures of the basis file, keeps the map sound (an entry's
      -- offset is where the basis file has a chunk of that hash), takes a response if it blocks and
      -- not all chunks are received, and never forgets that all are.
      pub receive-IsSound :
          (block arrived : Bool) (r : Receiver)
          → IsSound r
          → (r' : Receiver) × (n : ℕ) × (receive block arrived r ≡ ok (r', n))
            × IsSound r'
            × (length r'.inbox ≤ length r.inbox)
            × (block ≡ true → r.all_chunks_received ≡ false → length r'.inbox < length r.inbox)
            × (r.all_chunks_received ≡ true → r'.all_chunks_received ≡ true)
      unfolding receive
      receive-IsSound block arrived r s = elim (Bool-cases r.all_chunks_received) [
        | inl all ↦ (r, 0, rw all, s, omega arith, (λ _ h. cc), λ h. h)
        | inr some_left ↦ elim (Bool-cases (not block && not (can_receive arrived r.inbox))) [
          | inl wait ↦ (r, 0, rw some_left (rw wait), s, omega arith, (λ b _. ground arith), λ h. h)
          | inr go ↦
              let (r', n, e, s', less) =
                take_response-IsSound r.inbox r s.pending refl some_left s.index
                  (s.live some_left) in
              (r', n, simp (some_left, go) e, s', omega arith, (λ _ _. less), λ h. cc)
        ]
      ]
