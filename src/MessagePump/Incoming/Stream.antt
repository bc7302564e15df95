-- ===== src/MessagePump/Incoming/Stream.antt =====
-- cdc_rsync/base/message_pump.cc: what is dequeued is what the stream holds, in order.
use cdc_file_transfer.Prelude.{
  ℕ, ◌-◌, ◌≡◌, ◌⊎◌, inl, inr, refl, sym, ap, subst, ◌∙◌, ◌||◌, List, [], ◌∷◌, ◌++◌, none, some,
  length, append_assoc, arith, Bool-cases, ltb, All,
}
use cdc_file_transfer.Prelude.Status.{Code, Result, ok, err, internal}
use cdc_file_transfer.MessagePump.{
  packet_received, Packet, Source, ReadChunk, in_out_buffer_size, thread_do_receive_packet,
}
use cdc_file_transfer.MessagePump.Wire.{
  wire, stream_of, IsSendable, plain, thread_do_receive_packet-wire,
}
use cdc_file_transfer.MessagePump.Truncated.{
  split_prefix, thread_do_receive_packet_truncated, thread_do_receive_packet_empty,
}
use cdc_file_transfer.MessagePump.Outgoing.{Flags}
use cdc_file_transfer.MessagePump.Incoming.{
  Receiver, idle, receiving, received, receive_failing, receive_failed, receiver_stopped, Incoming,
  packet_size, pop_packet, dequeue_packet, after_receive, receiver_at, receiver_step,
}

-- The packet that the receiver thread has yet to queue.
abbrev pub held : Receiver → List Packet
held (received p) = p ∷ []
held _ = []

-- The packets dequeued, queued and held are the first of `ps`; the socket has yet to deliver a part
-- of the bytes of the others, in front.
abbrev pub IsReceived {ℓ} : {Reader : Type ℓ} → List Packet → List Packet → Incoming Reader → Type ℓ
IsReceived ps dequeued i =
    (rest : List Packet) × (u : List ℕ) × (v : List ℕ) × (ps
      ≡ dequeued ++ (i.incoming_packets ++ (held i.receiver ++ rest)))
    × (i.source ≡ plain u)
    × (u ++ v ≡ stream_of rest)

All-suffix {κ} : {A : Type 0} (P : A → Type κ) (xs ys : List A) → All P (xs ++ ys) → All P ys
All-suffix P [] ys h = h
All-suffix P (x ∷ xs) ys h = All-suffix P xs ys h.1

no_bytes : (u v : List ℕ) → u ++ v ≡ [] → u ≡ []
no_bytes [] v e = refl
no_bytes (x ∷ u) v e = absurd (omega (arith, ap length e))

-- What one receive finds on the bytes of packets that are cut off somewhere.
module _ {ℓ} {Reader : Type ℓ} (read : Reader → ℕ → Result (ReadChunk Reader)) where
  receive-cases :
      (rest : List Packet) (u v : List ℕ)
      → All IsSendable rest
      → u ++ v ≡ stream_of rest
      → (thread_do_receive_packet read (plain u) ≡ err internal)
        ⊎ ((p : Packet) × (left : List Packet) × (u' : List ℕ) × (rest ≡ p ∷ left)
            × (thread_do_receive_packet read (plain u) ≡ ok (p, plain u'))
            × (u' ++ v ≡ stream_of left))
  receive-cases [] u v h e = inl (
      ap (λ x. thread_do_receive_packet read (plain x)) (no_bytes u v e)
      ∙ thread_do_receive_packet_empty read)
  receive-cases (p ∷ left) u v (s, h) e = elim (split_prefix (wire p) u v (stream_of left) e) [
    | inl (u', f, g) ↦ inr (
      p,
      left,
      u',
      refl,
      ap (λ x. thread_do_receive_packet read (plain x)) f
          ∙ thread_do_receive_packet-wire read p u' s,
      g,
    )
    | inr (t, f, l) ↦ inl (thread_do_receive_packet_truncated read p u t s f l)
  ]

module _ {ℓ} {Reader : Type ℓ} (read : Reader → ℕ → Result (ReadChunk Reader)) where
  receiving-IsReceived :
      (ps dequeued : List Packet) (i : Incoming Reader)
      → All IsSendable ps
      → i.receiver ≡ receiving
      → IsReceived ps dequeued i
      → IsReceived ps dequeued
          (after_receive read (λ t. none) (thread_do_receive_packet read i.source) i)
  unfolding after_receive packet_received
  receiving-IsReceived ps dequeued i h r (rest, u, v, e, s, b) =
      elim (receive-cases read rest u v unread_sendable b) [
        | inl f ↦ simp (received_as f) (rest, u, v, e', s, b)
        | inr (p, left, u', g, f, b') ↦
            simp (received_as f)
              (left, u', v, e' ∙ ap (λ x. dequeued ++ (i.incoming_packets ++ x)) g, refl, b')
      ]
    where
      received_as :
          {x : Result (Packet × Source Reader)}
          → thread_do_receive_packet read (plain u) ≡ x
          → thread_do_receive_packet read i.source ≡ x
      received_as f = ap (thread_do_receive_packet read) s ∙ f

      e' : ps ≡ dequeued ++ (i.incoming_packets ++ rest)
      e' = e ∙ ap (λ x. dequeued ++ (i.incoming_packets ++ (held x ++ rest))) r

      unread_sendable : All IsSendable rest
      unread_sendable = All-suffix IsSendable i.incoming_packets rest (
          All-suffix IsSendable dequeued (i.incoming_packets ++ rest) (subst (All IsSendable) e' h))

  receiver_at-IsReceived :
      (r : Receiver) (ps dequeued : List Packet) (f : Flags) (i : Incoming Reader)
      → All IsSendable ps
      → i.receiver ≡ r
      → IsReceived ps dequeued i
      → IsReceived ps dequeued (receiver_at read (λ t. none) r f i).1
  unfolding receiver_at
  receiver_at-IsReceived idle ps dequeued f i h r (rest, u, v, e, s, b) =
      elim (Bool-cases (f.receive_error || f.shutdown)) [
        | inl t ↦ simp t (rest, u, v, e ∙ rw r refl, s, b)
        | inr t ↦ elim (Bool-cases (ltb i.incoming_byte_size in_out_buffer_size)) [
          | inl l ↦ simp (t, l) (rest, u, v, e ∙ rw r refl, s, b)
          | inr l ↦ simp (t, l) (rest, u, v, e, s, b)
        ]
      ]
  receiver_at-IsReceived receiving ps dequeued f i h r x = receiving-IsReceived ps dequeued i h r x
  receiver_at-IsReceived (received p) ps dequeued f i h r (rest, u, v, e, s, b) =
      (rest, u, v, e ∙ rw (r, append_assoc i.incoming_packets (p ∷ []) rest) refl, s, b)
  receiver_at-IsReceived (receive_failing code) ps dequeued f i h r (rest, u, v, e, s, b) =
      (rest, u, v, e ∙ rw r refl, s, b)
  receiver_at-IsReceived receive_failed ps dequeued f i h r (rest, u, v, e, s, b) =
      (rest, u, v, e ∙ rw r refl, s, b)
  receiver_at-IsReceived receiver_stopped ps dequeued f i h r x = x

  pub receiver_step-IsReceived :
      (ps dequeued : List Packet) (f : Flags) (i : Incoming Reader)
      → All IsSendable ps
      → IsReceived ps dequeued i
      → IsReceived ps dequeued (receiver_step read (λ t. none) f i).1
  unfolding receiver_step
  receiver_step-IsReceived ps dequeued f i h x =
      receiver_at-IsReceived i.receiver ps dequeued f i h refl x

pop_packet-IsReceived {ℓ} :
    {Reader : Type ℓ} (q : List Packet) (ps dequeued : List Packet) (f : Flags)
    (i : Incoming Reader)
    → i.incoming_packets ≡ q
    → IsReceived ps dequeued i
    → ((c : Code) × (pop_packet f q i ≡ some (err c)))
      ⊎ ((pop_packet f q i ≡ none)
          ⊎ ((p : Packet) × (i' : Incoming Reader) × (pop_packet f q i ≡ some (ok (p, i')))
              × IsReceived ps (dequeued ++ p ∷ []) i'))
unfolding pop_packet
pop_packet-IsReceived [] ps dequeued f i g h = elim (Bool-cases (f.send_error || f.receive_error)) [
  | inl e ↦ inl (f.status, simp e refl)
  | inr e ↦ inr (inl (simp e refl))
]
pop_packet-IsReceived (p ∷ q) ps dequeued f i g (rest, u, v, e, s, b) =
    elim (Bool-cases f.send_error) [
      | inl t ↦ inl (f.status, simp t refl)
      | inr t ↦ inr (
          inr (
            p,
            record i {
              incoming_packets = q;
              incoming_byte_size = i.incoming_byte_size - packet_size p;
            },
            simp t refl,
            (rest, u, v, e ∙ in_order, s, b),
          ))
    ]
  where
    in_order :
        dequeued ++ (i.incoming_packets ++ (held i.receiver ++ rest))
        ≡ (dequeued ++ p ∷ []) ++ (q ++ (held i.receiver ++ rest))
    in_order =
        ap (λ x. dequeued ++ (x ++ (held i.receiver ++ rest))) g
        ∙ sym (append_assoc dequeued (p ∷ []) (q ++ (held i.receiver ++ rest)))

-- `DequeuePacket` returns the next packet of the stream, or an error, or waits.
pub dequeue_packet-IsReceived {ℓ} :
    {Reader : Type ℓ} (ps dequeued : List Packet) (f : Flags) (i : Incoming Reader)
    → IsReceived ps dequeued i
    → ((c : Code) × (dequeue_packet f i ≡ some (err c)))
      ⊎ ((dequeue_packet f i ≡ none)
          ⊎ ((p : Packet) × (i' : Incoming Reader) × (dequeue_packet f i ≡ some (ok (p, i')))
              × IsReceived ps (dequeued ++ p ∷ []) i'))
unfolding dequeue_packet
dequeue_packet-IsReceived ps dequeued f i h =
    pop_packet-IsReceived i.incoming_packets ps dequeued f i refl h
