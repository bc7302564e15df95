-- ===== src/Delta/Sender/Step.antt =====
-- cdc_rsync/base/cdc_interface.cc: each chunk that `PatchSender` adds is paid for by its requests.
use cdc_file_transfer.Prelude.{
  ℕ, ◌+◌, ◌*◌, ◌^◌, ◌≤◌, ◌<◌, ◌≡◌, refl, sym, ap, ◌∙◌, inl, inr, Bool, true, List, [], ◌∷◌, ◌++◌,
  length, arith, append-nil, append_assoc, length-append, Bool-cases, ltb, ltb→lt,
}
use cdc_file_transfer.Prelude.Status.{ok}
use cdc_file_transfer.Prelude.Words.{add64, add64_exact}
use cdc_file_transfer.Delta.{
  source_data, source_basis_file, PatchRequest, empty_request, patch_request_size_threshold,
  combined_chunk_size_threshold, max_chunk_size, patch_metadata_size,
}
use cdc_file_transfer.Delta.Patch.Replay.{
  Command, sources, offsets, sizes, request_of, origin, slice, output, Fits, Pays, Pays-snoc,
}
use cdc_file_transfer.Delta.Sender.{
  Sender, get_last, is_data, add_entry, extend_last, continues, send_message, on_chunk_added,
  add_existing_chunk, add_data_entry, add_new_chunk, flush,
}
use cdc_file_transfer.Delta.Sender.Pending.{
  get_last-snoc, grown, extend_last-request_of, slice-add, slice_end, has_size, output-append, Ends,
  Pending, IsReady, within, sources_differ, no_data, data_Command, no_continues, Accepts,
}

module _ (accept : List PatchRequest → PatchRequest → Bool) (accepts : Accepts accept)
    (basis : List ℕ) where
  send-Pays :
      (p : Sender) (out : List ℕ) (h : Pending basis p out)
      → 0 < p.request_size
      → p.request_size < 2 ^ 32
      → Pays basis (p.sent ++ p.request ∷ []) out
  send-Pays p out h pos small = go h.commands h.shape h.fits h.ends h.total h.metered
    where
      go :
          (cs : List Command)
          → p.request ≡ request_of cs h.payload
          → Fits basis h.payload cs
          → Ends h.payload cs
          → h.done ++ output basis h.payload cs ≡ out
          → p.request_size ≡ 13 * length cs + length h.payload
          → Pays basis (p.sent ++ p.request ∷ []) out
      go [] s f e t m = absurd (omega (arith, ap length e))
      go (c ∷ cs) s f e t m =
          rw s (rw (← t) (Pays-snoc basis p.sent h.done c cs h.payload h.paid f (omega arith)))

  on_chunk_added-IsReady :
      (p : Sender) (out bytes : List ℕ) (size : ℕ)
      → Pending basis p (out ++ bytes)
      → p.file_offset ≡ length out
      → length bytes ≡ size
      → length out + size < 2 ^ 64
      → p.request_size < 2 ^ 32
      → (p' : Sender) × (on_chunk_added accept size p ≡ ok p')
        × IsReady basis p' (out ++ bytes)
        × (p'.curr_chunk_idx ≡ p.curr_chunk_idx)
  unfolding on_chunk_added send_message
  on_chunk_added-IsReady p out bytes size h at len fits64 small =
      elim (Bool-cases (ltb patch_request_size_threshold p.request_size)) [
        | inl full ↦ (
          record p {
            request = empty_request;
            request_size = 0;
            total_request_size = p.total_request_size + p.request_size;
            file_offset = add64 p.file_offset size;
            sent = p.sent ++ p.request ∷ [];
          },
          rw full (rw (accepts p.sent p.request)),
          record {
            pending = record {
              commands = [];
              payload = [];
              done = out ++ bytes;
              shape = refl;
              fits = tt;
              ends = refl;
              paid =
                  send-Pays p (out ++ bytes) h (omega (arith, ltb→lt 65536 p.request_size full))
                    small;
              total = append-nil (out ++ bytes);
              metered = refl;
            };
            room = omega arith;
            position = moved;
          },
          refl,
        )
        | inr open_ ↦ (
          record p { file_offset = add64 p.file_offset size },
          rw open_,
          record {
            pending = record {
              commands = h.commands;
              payload = h.payload;
              done = h.done;
              shape = h.shape;
              fits = h.fits;
              ends = h.ends;
              paid = h.paid;
              total = h.total;
              metered = h.metered;
            };
            room = ground arith;
            position = moved;
          },
          refl,
        )
      ]
    where
      moved : add64 p.file_offset size ≡ length (out ++ bytes)
      moved = omega (arith, add64_exact p.file_offset size, length-append out bytes)

  -- Where a chunk continues the last entry: the entry copies from the basis file, up to the chunk.
  continues-Command :
      (c : Command) (cs : List Command) (payload : List ℕ) (offset : ℕ)
      → Fits basis payload (c ∷ cs)
      → length basis < 2 ^ 64
      → continues offset (request_of (c ∷ cs) payload) ≡ true
      → (c.source ≡ source_basis_file)
        × (c.offset + c.size ≡ offset)
        × (c.size < combined_chunk_size_threshold)
  unfolding continues
  continues-Command c cs payload offset f small h =
      let src : c.source ≡ source_basis_file =
        ground (arith, get_last-snoc (sources cs) c.source) in
      let fit = within basis payload c.source (c.offset + c.size) src f.0 in
      (
        src,
        ground (
          arith,
          get_last-snoc (sources cs) c.source,
          get_last-snoc (offsets cs) c.offset,
          get_last-snoc (sizes cs) c.size,
          add64_exact c.offset c.size,
        ),
        ground (
          arith,
          get_last-snoc (sources cs) c.source,
          get_last-snoc (offsets cs) c.offset,
          get_last-snoc (sizes cs) c.size,
        ),
      )

  extend-Pending :
      (p : Sender) (out bytes : List ℕ) (offset size : ℕ)
      → Pending basis p out
      → slice basis offset size ≡ bytes
      → offset + size ≤ length basis
      → size ≤ max_chunk_size
      → length basis < 2 ^ 64
      → continues offset p.request ≡ true
      → Pending basis (record p { request = extend_last size p.request }) (out ++ bytes)
  extend-Pending p out bytes offset size h same inside small basis64 next =
      go h.commands h.shape h.fits h.total h.metered
    where
      go :
          (cs : List Command)
          → p.request ≡ request_of cs h.payload
          → Fits basis h.payload cs
          → h.done ++ output basis h.payload cs ≡ out
          → p.request_size ≡ 13 * length cs + length h.payload
          → Pending basis (record p { request = extend_last size p.request }) (out ++ bytes)
      go [] e f t m = let no_entry = rw e at next in absurd (no_continues offset h.payload no_entry)
      go (c ∷ cs) e f t m =
          let (src, at, below) = continues-Command c cs h.payload offset f basis64 (rw e at next) in
          let o : origin basis h.payload c.source ≡ basis = ap (origin basis h.payload) src in
          let s2 : slice (origin basis h.payload c.source) (c.offset + c.size) size ≡ bytes =
            rw o (rw at same) in
          let old = output basis h.payload cs in
          let s1 = slice (origin basis h.payload c.source) c.offset c.size in
          record {
            commands = grown c size ∷ cs;
            payload = h.payload;
            done = h.done;
            shape = rw e (extend_last-request_of c cs h.payload size (omega arith));
            fits = (rw o (omega arith), f.1);
            ends = λ s. absurd (sources_differ (sym src ∙ s));
            paid = h.paid;
            total = rw (slice-add (origin basis h.payload c.source) c.offset c.size size) (
                rw s2 (
                  rw (← append_assoc old s1 bytes)
                    (rw (← append_assoc h.done (old ++ s1) bytes) (rw t))));
            metered = m;
          }

  -- For a pump that accepts every message and basis and client files of less than 2^64 bytes,
  -- AddExistingChunk on a chunk of at most the maximal size that the basis file has at the offset
  -- succeeds, and the requests sent and the one at hand stand for the bytes before and the chunk.
  pub add_existing_chunk-IsReady :
      (p : Sender) (out bytes : List ℕ) (offset size : ℕ)
      → IsReady basis p out
      → length bytes ≡ size
      → slice basis offset size ≡ bytes
      → offset + size ≤ length basis
      → size ≤ max_chunk_size
      → length out + size < 2 ^ 64
      → length basis < 2 ^ 64
      → (p' : Sender) × (add_existing_chunk accept offset size p ≡ ok p')
        × IsReady basis p' (out ++ bytes)
        × (p'.curr_chunk_idx ≡ p.curr_chunk_idx)
  unfolding add_existing_chunk
  add_existing_chunk-IsReady p out bytes offset size r len same inside small at64 basis64 =
      elim (Bool-cases (continues offset p.request)) [
        | inl next ↦ rw next (
            on_chunk_added-IsReady _ out bytes size
              (extend-Pending p out bytes offset size h same inside small basis64 next) r.position
              len at64 (omega arith))
        | inr new ↦ rw new (
            on_chunk_added-IsReady _ out bytes size
              (record {
                commands =
                    record { source = source_basis_file; offset = offset; size = size }
                    ∷ h.commands;
                payload = h.payload;
                done = h.done;
                shape = rw (h.shape) (unfold add_entry in refl);
                fits = (inside, h.fits);
                ends = λ e. cc;
                paid = h.paid;
                total =
                    rw
                      (← append_assoc h.done (output basis h.payload h.commands)
                        (slice basis offset size))
                      (rw (h.total, same));
                metered = omega arith;
              })
              r.position len at64 (omega arith))
      ]
    where
      open r use {pending as h}

  -- The bytes of a new chunk at the end of the payload, in an entry that grows.
  grow-Pending :
      (p : Sender) (out bytes : List ℕ)
      → Pending basis p out
      → length bytes ≤ max_chunk_size
      → p.request_size ≤ patch_request_size_threshold
      → is_data (get_last p.request.sources) ≡ true
      → Pending basis
          (record p {
            request = record (extend_last (length bytes) p.request) {
              payload = p.request.payload ++ bytes;
            };
            request_size = p.request_size + length bytes;
          })
          (out ++ bytes)
  grow-Pending p out bytes h small room last = go h.commands h.shape h.fits h.ends h.total h.metered
    where
      go :
          (cs : List Command)
          → p.request ≡ request_of cs h.payload
          → Fits basis h.payload cs
          → Ends h.payload cs
          → h.done ++ output basis h.payload cs ≡ out
          → p.request_size ≡ 13 * length cs + length h.payload
          → Pending basis
              (record p {
                request = record (extend_last (length bytes) p.request) {
                  payload = p.request.payload ++ bytes;
                };
                request_size = p.request_size + length bytes;
              })
              (out ++ bytes)
      go [] e f en t m = absurd (no_data (rw e at last))
      go (c ∷ cs) e f en t m =
          let src = data_Command c cs (rw e at last) in
          let end = en src in
          let o : origin basis (h.payload ++ bytes) c.source ≡ h.payload ++ bytes =
            ap (origin basis (h.payload ++ bytes)) src in
          let (same, fits) = output-append basis h.payload bytes (c ∷ cs) f in
          let whole = h.payload ++ bytes in
          let s1 = slice (origin basis whole c.source) c.offset c.size in
          let s2 : slice (origin basis whole c.source) (c.offset + c.size) (length bytes) ≡ bytes =
            rw o (rw end (slice_end h.payload bytes)) in
          record {
            commands = grown c (length bytes) ∷ cs;
            payload = whole;
            done = h.done;
            shape = rw e (
                ap (λ (r : PatchRequest). record r { payload = whole })
                  (extend_last-request_of c cs h.payload (length bytes) (omega arith)));
            fits = (rw o (omega (arith, length-append h.payload bytes)), fits.1);
            ends = λ _. omega (arith, length-append h.payload bytes);
            paid = h.paid;
            total = rw (slice-add (origin basis whole c.source) c.offset c.size (length bytes)) (
                rw s2 (
                  rw (← append_assoc (output basis whole cs) s1 bytes) (
                    rw same (
                      rw (← append_assoc h.done (output basis h.payload (c ∷ cs)) bytes) (rw t)))));
            metered = omega (arith, length-append h.payload bytes);
          }

  -- The bytes of a new chunk at the end of the payload, in a new entry.
  begin-Pending :
      (p : Sender) (out bytes : List ℕ)
      → Pending basis p out
      → Pending basis
          (record p {
            request =
                record (add_entry source_data (length p.request.payload) (length bytes) p.request) {
                  payload = p.request.payload ++ bytes;
                };
            request_size = p.request_size + patch_metadata_size + length bytes;
          })
          (out ++ bytes)
  begin-Pending p out bytes h =
      let (same, fits) = output-append basis h.payload bytes h.commands h.fits in
      record {
        commands =
            record { source = source_data; offset = length h.payload; size = length bytes }
            ∷ h.commands;
        payload = h.payload ++ bytes;
        done = h.done;
        shape = unfold add_entry in rw h.shape;
        fits = (omega (arith, length-append h.payload bytes), fits);
        ends = λ _. omega (arith, length-append h.payload bytes);
        paid = h.paid;
        total =
            rw (same, slice_end h.payload bytes)
              (rw (← append_assoc h.done (output basis h.payload h.commands) bytes) (rw h.total));
        metered = omega (arith, length-append h.payload bytes);
      }

  -- The sender between the new entry and the bytes that belong to it.
  data_entry-Pending :
      (p : Sender) (out bytes : List ℕ)
      → IsReady basis p out
      → length bytes ≤ max_chunk_size
      → let q = add_data_entry (length bytes) p in
        Pending basis
          (record q {
            request = record (q.request) { payload = q.request.payload ++ bytes };
            request_size = q.request_size + length bytes;
          })
          (out ++ bytes)
  unfolding add_data_entry
  data_entry-Pending p out bytes r small =
      elim (Bool-cases (is_data (get_last p.request.sources))) [
        | inl last ↦
            rw last (unfold extend_last in grow-Pending p out bytes r.pending small r.room last)
        | inr new ↦ rw new (unfold add_entry in begin-Pending p out bytes r.pending)
      ]

  data_entry_keeps :
      (p : Sender) (size : ℕ)
      → let q = add_data_entry size p in
        (q.file_offset ≡ p.file_offset)
        × (q.curr_chunk_idx ≡ p.curr_chunk_idx)
        × (q.request_size ≤ p.request_size + patch_metadata_size)
  unfolding add_data_entry
  data_entry_keeps p size = ground arith

  -- For a pump that accepts every message, AddNewChunk on a chunk of at most the maximal size that
  -- the client's file has behind the bytes sent, in a file of less than 2^64 bytes, succeeds, and
  -- the requests sent and the one at hand stand for the bytes before and the chunk.
  pub add_new_chunk-IsReady :
      (p : Sender) (out bytes file : List ℕ)
      → IsReady basis p out
      → slice file (length out) (length bytes) ≡ bytes
      → length bytes ≤ max_chunk_size
      → length out + length bytes < 2 ^ 64
      → (p' : Sender) × (add_new_chunk accept file (length bytes) p ≡ ok p')
        × IsReady basis p' (out ++ bytes)
        × (p'.curr_chunk_idx ≡ p.curr_chunk_idx)
  unfolding add_new_chunk
  add_new_chunk-IsReady p out bytes file r same small fits64 =
      let size = length bytes in
      let q = add_data_entry size p in
      let (at, idx, meter) = data_entry_keeps p size in
      let here : slice file q.file_offset size ≡ bytes =
        ap (λ (o : ℕ). slice file o size) (at ∙ r.position) ∙ same in
      let (p', e, ready, idx') =
        on_chunk_added-IsReady _ out bytes size (data_entry-Pending p out bytes r small)
          (at ∙ r.position) refl fits64 (omega arith) in
      (p', rw here (rw (has_size bytes size refl) e), ready, idx' ∙ idx)

  -- A size of 0 means that the request at hand is empty.
  nothing-Pays :
      (p : Sender) (out : List ℕ)
      → Pending basis p out
      → p.request_size ≡ 0
      → (p.request ≡ empty_request) × Pays basis p.sent out
  nothing-Pays p out h zero_size = go h.commands h.shape h.ends h.total h.metered
    where
      go :
          (cs : List Command)
          → p.request ≡ request_of cs h.payload
          → Ends h.payload cs
          → h.done ++ output basis h.payload cs ≡ out
          → p.request_size ≡ 13 * length cs + length h.payload
          → (p.request ≡ empty_request) × Pays basis p.sent out
      go [] e en t m = (rw en at e, rw (← (sym (append-nil h.done) ∙ t)) h.paid)
      go (c ∷ cs) e en t m = absurd (omega arith)

  -- For a pump that accepts every message, Flush succeeds, and what is sent is requests that stand
  -- for all bytes added, none of them empty, and one empty request.
  pub flush-Pays :
      (p : Sender) (out : List ℕ)
      → IsReady basis p out
      → (p' : Sender) × (rs : List PatchRequest) × (flush accept p ≡ ok p')
        × (p'.sent ≡ rs ++ empty_request ∷ [])
        × Pays basis rs out
  unfolding flush send_message
  flush-Pays p out r = elim (Bool-cases (ltb 0 p.request_size)) [
    | inl some_left ↦
        let q = record p {
          sent = p.sent ++ p.request ∷ [];
          total_request_size = p.total_request_size + p.request_size;
          request = empty_request;
        } in
        (
          record q { sent = q.sent ++ empty_request ∷ [] },
          q.sent,
          rw some_left (rw (accepts p.sent p.request) (rw (accepts q.sent empty_request))),
          refl,
          send-Pays p out r.pending (ltb→lt 0 p.request_size some_left) (omega arith),
        )
    | inr none_left ↦ (
      record p { sent = p.sent ++ p.request ∷ [] },
      p.sent,
      rw none_left (rw (accepts p.sent p.request)),
      ap (λ (x : PatchRequest). p.sent ++ x ∷ []) (nothing-Pays p out r.pending (ground arith)).0,
      (nothing-Pays p out r.pending (ground arith)).1,
    )
  ]
