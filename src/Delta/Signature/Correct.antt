-- ===== src/Delta/Signature/Correct.antt =====
-- cdc_rsync/base/cdc_interface.cc: the signatures sent are those of the file's chunks, in order.
use cdc_file_transfer.Prelude.{
  ℕ, ◌≤◌, ◌<◌, ◌≡◌, ◌⊎◌, refl, sym, ap, ◌∙◌, inl, inr, Bool, true, false, List, [], ◌∷◌, ◌++◌,
  length, arith, append-nil, append_assoc, length-append, Bool-cases, leb, leb→le, subst,
}
use cdc_file_transfer.Prelude.Status.{ok}
use cdc_file_transfer.Prelude.Words.{to_u32}
use cdc_file_transfer.Chunker.Bounds.{IsValid}
use cdc_file_transfer.Delta.{
  SignaturesResponse, empty_response, append_hash, compute_hash, hash_bytes,
}
use cdc_file_transfer.Delta.Receiver.Hashes.{IsHasher}
use cdc_file_transfer.Delta.Receiver.Index.{Signs, signed_sizes, signed_hashes}
use cdc_file_transfer.Delta.Session.{config}
use cdc_file_transfer.Delta.Signature.{
  Signer, new_signer, finish_task, queue_tasks, take_task, gets_task, drain, drain_all,
  send_response, send_batch,
}

-- The message pump accepts every message.
abbrev pub AcceptsAll : (List SignaturesResponse → SignaturesResponse → Bool) → Type 0
AcceptsAll accept = (sent : List SignaturesResponse) (r : SignaturesResponse) → accept sent r ≡ true

pub config-IsValid : IsValid config
config-IsValid = record { positive = omega arith; min_avg = omega arith; avg_max = omega arith }

module _ (blake3 : List ℕ → List ℕ) (hasher : IsHasher blake3) where
  -- The response that signs chunks with these bytes.
  abbrev pub response_of : List (List ℕ) → SignaturesResponse
  response_of ds = record {
    sizes = signed_sizes blake3 hasher ds;
    hashes = signed_hashes blake3 hasher ds;
  }

  signed_sizes-snoc :
      (ds : List (List ℕ)) (d : List ℕ)
      → signed_sizes blake3 hasher (ds ++ d ∷ [])
        ≡ signed_sizes blake3 hasher ds ++ to_u32 (length d) ∷ []
  signed_sizes-snoc [] d = refl
  signed_sizes-snoc (x ∷ ds) d = ap (◌∷◌ (to_u32 (length x))) (signed_sizes-snoc ds d)

  signed_hashes-snoc :
      (ds : List (List ℕ)) (d : List ℕ)
      → signed_hashes blake3 hasher (ds ++ d ∷ [])
        ≡ signed_hashes blake3 hasher ds ++ hash_bytes (compute_hash blake3 d)
  signed_hashes-snoc [] d = append-nil (hash_bytes (compute_hash blake3 d))
  signed_hashes-snoc (x ∷ ds) d =
      ap (λ h. hash_bytes (compute_hash blake3 x) ++ h) (signed_hashes-snoc ds d)
      ∙ sym (
          append_assoc (hash_bytes (compute_hash blake3 x)) (signed_hashes blake3 hasher ds)
            (hash_bytes (compute_hash blake3 d)))

  finish_task-response_of :
      (ds : List (List ℕ)) (d : List ℕ)
      → finish_task blake3 d (response_of ds) ≡ response_of (ds ++ d ∷ [])
  unfolding finish_task append_hash
  finish_task-response_of ds d = λ i. record {
    sizes = sym (signed_sizes-snoc ds d) i;
    hashes = sym (signed_hashes-snoc ds d) i;
  }

  -- Responses that sign chunks, none of them empty.
  pub Batches : List SignaturesResponse → List (List ℕ) → Type 0
  Batches [] ds = ds ≡ []
  Batches (r ∷ rs) ds =
      (d : List ℕ) × (part rest : List (List ℕ)) × (r ≡ response_of (d ∷ part))
      × (ds ≡ (d ∷ part) ++ rest)
      × Batches rs rest

  Batches-snoc :
      (rs : List SignaturesResponse) (ds : List (List ℕ)) (d : List ℕ) (part : List (List ℕ))
      → Batches rs ds
      → Batches (rs ++ response_of (d ∷ part) ∷ []) (ds ++ d ∷ part)
  unfolding Batches
  Batches-snoc [] ds d part b =
      (d, part, [], refl, ap (λ x. x ++ d ∷ part) b ∙ sym (append-nil (d ∷ part)), refl)
  Batches-snoc (r ∷ rs) ds d part b =
      let (d', part', rest, e, split, b') = b in
      (
        d',
        part',
        rest ++ d ∷ part,
        e,
        ap (λ x. x ++ d ∷ part) split ∙ append_assoc (d' ∷ part') rest (d ∷ part),
        Batches-snoc rs rest d part b',
      )

  -- All that is sent: the responses sign the chunks in order, each some, and the last one is empty
  -- and the only empty one.
  abbrev pub SignsAll : List SignaturesResponse → List (List ℕ) → Type 0
  SignsAll [] ds = ⊥
  SignsAll (r ∷ rs) ds =
      ((r ≡ empty_response) × (ds ≡ []) × (rs ≡ []))
      ⊎ ((d : List ℕ) × (part rest : List (List ℕ)) × (r ≡ response_of (d ∷ part))
          × (ds ≡ (d ∷ part) ++ rest)
          × SignsAll rs rest)

  pub SignsAll-Signs :
      (rs : List SignaturesResponse) (ds : List (List ℕ))
      → SignsAll rs ds
      → Signs blake3 hasher rs ds
  SignsAll-Signs [] ds h = h
  SignsAll-Signs (r ∷ rs) ds (inl (e, f, g)) = inl (e, f)
  SignsAll-Signs (r ∷ rs) ds (inr (d, part, rest, e, split, h)) =
      inr (d, part, rest, e, split, SignsAll-Signs rs rest h)

  Batches-SignsAll :
      (rs : List SignaturesResponse) (ds : List (List ℕ))
      → Batches rs ds
      → SignsAll (rs ++ empty_response ∷ []) ds
  unfolding Batches
  Batches-SignsAll [] ds b = inl (refl, b, refl)
  Batches-SignsAll (r ∷ rs) ds b =
      let (d, part, rest, e, split, b') = b in
      inr (d, part, rest, e, split, Batches-SignsAll rs rest b')

  shift :
      (a p q f : List (List ℕ)) (b : List ℕ)
      → (a ++ p) ++ (b ∷ q ++ f) ≡ (a ++ (p ++ b ∷ [])) ++ (q ++ f)
  shift a p q f b =
      sym (append_assoc (a ++ p) (b ∷ []) (q ++ f))
      ∙ ap (λ x. x ++ (q ++ f)) (append_assoc a p (b ∷ []))

  module _ (client : List (List ℕ)) where
    -- The chunks are signed in responses sent, in the one at hand, or wait in the pool or to be found.
    pub record IsOpen (s : Signer) (future : List (List ℕ)) : Type 0 where
      pub done : List (List ℕ)
      pub part : List (List ℕ)
      pub batches : Batches s.sent done
      pub shape : s.response ≡ response_of part
      pub parts : client ≡ (done ++ part) ++ (s.queue ++ future)
      pub count : s.num_hash_tasks ≡ length s.queue

    pub new_signer-IsOpen : IsOpen new_signer client
    unfolding Batches
    new_signer-IsOpen = record {
      done = [];
      part = [];
      batches = refl;
      shape = refl;
      parts = refl;
      count = refl;
    }

    -- With nothing left, an empty response ends the signatures.
    pub IsOpen-SignsAll :
        (s : Signer) (future : List (List ℕ))
        → IsOpen s future
        → future ≡ []
        → s.queue ≡ []
        → s.response ≡ empty_response
        → SignsAll (s.sent ++ s.response ∷ []) client
    IsOpen-SignsAll s future g none_left idle e = go g.part g.shape g.parts
      where
        go :
            (part : List (List ℕ))
            → s.response ≡ response_of part
            → client ≡ (g.done ++ part) ++ (s.queue ++ future)
            → SignsAll (s.sent ++ s.response ∷ []) client
        go [] shape parts =
            let all_done : g.done ≡ client = sym (
              parts
              ∙ (ap (λ x. (g.done ++ []) ++ (x ++ future)) idle
                  ∙ (ap (λ x. (g.done ++ []) ++ x) none_left
                      ∙ (append-nil (g.done ++ []) ∙ append-nil g.done)))) in
            subst (λ r. SignsAll (s.sent ++ r ∷ []) client) (sym e)
              (Batches-SignsAll s.sent client (subst (Batches s.sent) all_done g.batches))
        go (d ∷ part) shape parts = absurd (
            omega (
              arith,
              ap (λ (r : SignaturesResponse). length r.sizes) shape,
              ap (λ (r : SignaturesResponse). length r.sizes) e,
            ))

    take_task-IsOpen :
        (bytes : List ℕ) (queue : List (List ℕ)) (s : Signer) (future : List (List ℕ))
        → s.queue ≡ bytes ∷ queue
        → IsOpen s future
        → IsOpen (take_task blake3 bytes queue s) future
    unfolding take_task
    take_task-IsOpen bytes queue s future e g = record {
      done = g.done;
      part = g.part ++ bytes ∷ [];
      batches = g.batches;
      shape = ap (finish_task blake3 bytes) g.shape ∙ finish_task-response_of g.part bytes;
      parts =
          g.parts
          ∙ (ap (λ q. (g.done ++ g.part) ++ (q ++ future)) e
              ∙ shift g.done g.part queue future bytes);
      count = omega (arith, g.count, ap length e);
    }

    pub drain-IsOpen :
        (queue : List (List ℕ)) (timing : List Bool) (s : Signer) (future : List (List ℕ))
        → s.queue ≡ queue
        → IsOpen s future
        → IsOpen (drain blake3 queue timing s) future
          × ((drain blake3 queue timing s).chunker ≡ s.chunker)
    unfolding drain take_task
    drain-IsOpen [] timing s future e g = (g, refl)
    drain-IsOpen (bytes ∷ queue) [] s future e g =
        let next =
          drain-IsOpen queue [] (take_task blake3 bytes queue s) future refl
            (take_task-IsOpen bytes queue s future e g) in
        elim (Bool-cases (gets_task false s)) [ inl t ↦ rw t next | inr f ↦ rw f (g, refl) ]
    drain-IsOpen (bytes ∷ queue) (completed ∷ timing) s future e g =
        let next =
          drain-IsOpen queue timing (take_task blake3 bytes queue s) future refl
            (take_task-IsOpen bytes queue s future e g) in
        elim (Bool-cases (gets_task completed s)) [ inl t ↦ rw t next | inr f ↦ rw f (g, refl) ]

    pub drain_all-IsOpen :
        (queue : List (List ℕ)) (s : Signer) (future : List (List ℕ))
        → s.queue ≡ queue
        → IsOpen s future
        → IsOpen (drain_all blake3 queue s) future × ((drain_all blake3 queue s).queue ≡ [])
    unfolding drain_all take_task
    drain_all-IsOpen [] s future e g = (g, e)
    drain_all-IsOpen (bytes ∷ queue) s future e g =
        drain_all-IsOpen queue (take_task blake3 bytes queue s) future refl
          (take_task-IsOpen bytes queue s future e g)

    pub queue_tasks-IsOpen :
        (chunks : List (List ℕ)) (s : Signer) (future : List (List ℕ))
        → IsOpen s (chunks ++ future)
        → IsOpen (queue_tasks chunks s) future × ((queue_tasks chunks s).chunker ≡ s.chunker)
    unfolding queue_tasks
    queue_tasks-IsOpen [] s future g = (g, refl)
    queue_tasks-IsOpen (c ∷ chunks) s future g = queue_tasks-IsOpen chunks _ future (record {
      done = g.done;
      part = g.part;
      batches = g.batches;
      shape = g.shape;
      parts =
          g.parts
          ∙ ap (λ x. (g.done ++ g.part) ++ x)
              (sym (append_assoc s.queue (c ∷ []) (chunks ++ future)));
      count = omega (arith, g.count, length-append s.queue (c ∷ []));
    })

    module _ (accept : List SignaturesResponse → SignaturesResponse → Bool)
        (accepts : AcceptsAll accept) where
      pub send_batch-IsOpen :
          (least : ℕ) (s : Signer) (future : List (List ℕ))
          → 0 < least
          → IsOpen s future
          → (s' : Signer) × (send_batch accept least s ≡ ok s')
            × IsOpen s' future
            × (s'.chunker ≡ s.chunker)
            × (s'.queue ≡ s.queue)
            × (least ≡ 1 → s'.response ≡ empty_response)
      unfolding send_batch send_response
      send_batch-IsOpen least s future h g =
          elim (Bool-cases (leb least (length s.response.sizes))) [
            | inl enough ↦ (
              record s { sent = s.sent ++ s.response ∷ []; response = empty_response },
              rw enough (rw (accepts s.sent s.response) refl),
              sent_one s future h g (leb→le least (length s.response.sizes) enough),
              refl,
              refl,
              λ _. refl,
            )
            | inr few ↦ (s, rw few refl, g, refl, refl, λ one. nothing s future g (ground arith))
          ]
        where
          sent_one :
              (s : Signer) (future : List (List ℕ))
              → 0 < least
              → IsOpen s future
              → least ≤ length s.response.sizes
              → IsOpen
                  (record s { sent = s.sent ++ s.response ∷ []; response = empty_response })
                  future
          sent_one s future h g enough = go g.part g.shape g.parts
            where
              go :
                  (part : List (List ℕ))
                  → s.response ≡ response_of part
                  → client ≡ (g.done ++ part) ++ (s.queue ++ future)
                  → IsOpen
                      (record s { sent = s.sent ++ s.response ∷ []; response = empty_response })
                      future
              go [] e parts =
                  absurd (omega (arith, ap (λ (r : SignaturesResponse). length r.sizes) e))
              go (d ∷ part) e parts = record {
                done = g.done ++ d ∷ part;
                part = [];
                batches =
                    subst (λ r. Batches (s.sent ++ r ∷ []) (g.done ++ d ∷ part)) (sym e)
                      (Batches-snoc s.sent g.done d part g.batches);
                shape = refl;
                parts =
                    parts
                    ∙ ap (λ x. x ++ (s.queue ++ future)) (sym (append-nil (g.done ++ d ∷ part)));
                count = g.count;
              }

          nothing :
              (s : Signer) (future : List (List ℕ))
              → IsOpen s future
              → length s.response.sizes ≡ 0
              → s.response ≡ empty_response
          nothing s future g z = go g.part g.shape
            where
              go :
                  (part : List (List ℕ))
                  → s.response ≡ response_of part
                  → s.response ≡ empty_response
              go [] e = e
              go (d ∷ part) e =
                  absurd (omega (arith, ap (λ (r : SignaturesResponse). length r.sizes) e))
