-- ===== src/MessagePump/Pump/Sent.antt =====
-- cdc_rsync/base/message_pump.cc: what goes out under any interleaving.
use mathlib.Core.List.{map-append}
use cdc_file_transfer.Prelude.{
  ℕ, ◌+◌, ◌<◌, ◌≡◌, ◌⊎◌, inl, inr, refl, sym, ap, subst, ◌∙◌, Bool, true, false, List, [], ◌∷◌,
  ◌++◌, map, Option, none, some, length, flatten, flatten-append, append-nil, arith, All,
}
use cdc_file_transfer.Prelude.Status.{Result, ok, err, internal}
use cdc_file_transfer.MessagePump.{
  PacketType, Packet, ReadChunk, in_out_buffer_size, header_size, max_packet_size,
}
use cdc_file_transfer.MessagePump.Wire.{wire, stream_of, IsSendable, create_serialized_packet-cases}
use cdc_file_transfer.MessagePump.Outgoing.{
  queue_packet, redirect_output, stop_message_pump, is_flushed, new_outgoing,
}
use cdc_file_transfer.MessagePump.Outgoing.Bytes.{
  IsCounted, enqueued, queue_packet-cases, enqueued-IsCounted, sender_step-IsCounted,
}
use cdc_file_transfer.MessagePump.Outgoing.Prefix.{
  IsSent, IsSent-weaken, is_flushed-IsSent, enqueued-IsSent, sender_step-IsSent, all_bytes,
}
use cdc_file_transfer.MessagePump.Incoming.{Incoming, receiver_step}
use cdc_file_transfer.MessagePump.Incoming.Order.{receiver_step-flags}
use cdc_file_transfer.MessagePump.Pump.{
  Pump, Act, act_send, act_receive, act_redirect_output, act_stop, act_sender, act_receiver,
  serialize_packet, after_queue, send, after_dequeue, Call, calling_redirect_output,
  calling_stop_message_pump, after_flush, begin_stop, go_on, act_go_on, perform, run, new_pump,
}

-- The queue's state and the packets accepted fit, and each of these is of a legal size.
abbrev pub IsSound {ℓ} : {Reader : Type ℓ} → Pump Reader → Type 0
IsSound m =
    IsCounted m.outgoing
    × IsSent m.flags (stream_of m.accepted) m.outgoing
    × All IsSendable m.accepted

stream_of-snoc : (ps : List Packet) (p : Packet) → stream_of (ps ++ p ∷ []) ≡ stream_of ps ++ wire p
stream_of-snoc ps p =
    ap flatten (map-append wire ps (p ∷ []))
    ∙ flatten-append (map wire ps) (wire p ∷ [])
    ∙ ap (λ x. stream_of ps ++ x) (append-nil (wire p))

-- A packet is refused, or serialized and of a legal size.
serialize_packet-cases :
    (p : Packet)
    → (serialize_packet p ≡ err internal) ⊎ ((serialize_packet p ≡ ok (wire p)) × IsSendable p)
unfolding serialize_packet
serialize_packet-cases p =
    elim (create_serialized_packet-cases p.packet_type (length p.data_bytes)) [
      | inl e ↦ inl (rw e refl)
      | inr (e, h) ↦ inr (rw e refl, h)
    ]

All-snoc :
    (ps : List Packet) (p : Packet)
    → All IsSendable ps
    → IsSendable p
    → All IsSendable (ps ++ p ∷ [])
All-snoc [] p h s = (s, tt)
All-snoc (q ∷ ps) p (t, h) s = (t, All-snoc ps p h s)

length-wire : (p : Packet) → length (wire p) ≡ 4 + length p.data_bytes
length-wire p = omega arith

module _ {ℓ} {Reader : Type ℓ} where
  send-IsSound :
      (p : Packet) (m : Pump Reader)
      → IsSendable p
      → IsSound m
      → IsSound (after_queue p (queue_packet m.flags (wire p) m.outgoing) m)
  unfolding after_queue
  send-IsSound p m s (c, h, k) = elim (queue_packet-cases m.flags (wire p) m.outgoing) [
    | inl e ↦ rw e (c, h, k)
    | inr (inl e) ↦ rw e (c, h, k)
    | inr (inr (e, room, no_send_error, no_receive_error)) ↦ rw e (
      enqueued-IsCounted (wire p) m.outgoing (omega (arith, s, length-wire p)) room c,
      subst (λ x. IsSent m.flags x (enqueued (wire p) m.outgoing))
          (sym (stream_of-snoc m.accepted p))
          (enqueued-IsSent m.flags (stream_of m.accepted) (wire p) m.outgoing h),
      All-snoc m.accepted p k s,
    )
  ]

  after_dequeue-IsSound :
      (r : Option (Result (Packet × Incoming Reader))) (m : Pump Reader)
      → IsSound m
      → IsSound (after_dequeue r m)
  unfolding after_dequeue
  after_dequeue-IsSound none m h = h
  after_dequeue-IsSound (some (ok (p, i))) m h = h
  after_dequeue-IsSound (some (err e)) m h = h

  after_flush-IsSound :
      (call : Call) (t : Bool) (m : Pump Reader) → IsSound m → IsSound (after_flush call t m)
  unfolding after_flush
  after_flush-IsSound call false m h = h
  after_flush-IsSound call true m h = h

  begin_stop-IsSound : (s t : Bool) (m : Pump Reader) → IsSound m → IsSound (begin_stop s t m)
  unfolding begin_stop
  begin_stop-IsSound true t m h = h
  begin_stop-IsSound false t m h = after_flush-IsSound calling_stop_message_pump t m h

  go_on-IsSound : (c : Option Call) (m : Pump Reader) → IsSound m → IsSound (go_on c m)
  unfolding go_on redirect_output stop_message_pump
  go_on-IsSound none m h = h
  go_on-IsSound (some (calling_redirect_output handler)) m h = h
  go_on-IsSound (some calling_stop_message_pump) m h = (
    h.0,
    IsSent-weaken m.flags (record (m.flags) { shutdown = true }) (stream_of m.accepted) m.outgoing
        (λ x. x) (λ x. x) h.1,
    h.2,
  )

module _ {ℓ} {Reader : Type ℓ} (read : Reader → ℕ → Result (ReadChunk Reader))
    (redirect : PacketType → Option Reader) where
  perform-IsSound : (a : Act) (m : Pump Reader) → IsSound m → IsSound (perform read redirect a m)
  unfolding perform send
  perform-IsSound (act_send p) m h = elim (serialize_packet-cases p) [
    | inl e ↦ rw e h
    | inr (e, s) ↦ rw e (send-IsSound p m s h)
  ]
  perform-IsSound act_receive m h = after_dequeue-IsSound _ m h
  perform-IsSound (act_redirect_output handler) m h = after_flush-IsSound _ _ m h
  perform-IsSound act_stop m h = begin_stop-IsSound _ _ m h
  perform-IsSound act_go_on m h = go_on-IsSound m.flushed m h
  perform-IsSound (act_sender outcome) m (c, h, k) = (
    sender_step-IsCounted outcome m.flags m.outgoing c,
    sender_step-IsSent outcome m.flags (stream_of m.accepted) m.outgoing h,
    k,
  )
  perform-IsSound act_receiver m (c, h, k) = (
    c,
    IsSent-weaken m.flags (receiver_step read redirect m.flags m.incoming).0 _ m.outgoing
        (receiver_step-flags read redirect m.flags m.incoming).0
        (receiver_step-flags read redirect m.flags m.incoming).1 h,
    k,
  )

  pub run-IsSound :
      (acts : List Act) (m : Pump Reader) → IsSound m → IsSound (run read redirect acts m)
  unfolding run
  run-IsSound [] m h = h
  run-IsSound (a ∷ acts) m h = run-IsSound acts (perform read redirect a m) (perform-IsSound a m h)

  pub new_pump-IsSound : (stream : List ℕ) → IsSound (new_pump {Reader = Reader} stream)
  unfolding new_pump new_outgoing
  new_pump-IsSound stream = ((omega arith, omega arith), ((λ i. refl), ([], refl)), tt)

  pub run-All-IsSendable :
      (acts : List Act) (stream : List ℕ)
      → All IsSendable (run read redirect acts (new_pump stream)).accepted
  run-All-IsSendable acts stream = (run-IsSound acts _ (new_pump-IsSound stream)).2

  pub outgoing_packets_lem :
      (acts : List Act) (stream : List ℕ)
      → let m = run read redirect acts (new_pump stream) in
        (rest : List ℕ) × (all_bytes m.outgoing.outputs ++ rest ≡ stream_of m.accepted)
  outgoing_packets_lem acts stream = (run-IsSound acts _ (new_pump-IsSound stream)).1.1

  -- Under any interleaving, the byte size of the outgoing queue stays below the size of the buffer,
  -- a header and the maximal size of a packet.
  pub outgoing_byte_size_lem :
      (acts : List Act) (stream : List ℕ)
      → let m = run read redirect acts (new_pump stream) in
        m.outgoing.outgoing_byte_size < in_out_buffer_size + header_size + max_packet_size
  outgoing_byte_size_lem acts stream = (run-IsSound acts _ (new_pump-IsSound stream)).0.1

  -- Under any interleaving, where FlushOutgoingQueue may return and neither thread has set its
  -- error flag, the bytes put out are those of all packets accepted, in their order.
  pub flush_outgoing_queue_lem :
      (acts : List Act) (stream : List ℕ)
      → let m = run read redirect acts (new_pump stream) in
        m.flags.send_error ≡ false
        → m.flags.receive_error ≡ false
        → is_flushed m.flags m.outgoing ≡ true
        → all_bytes m.outgoing.outputs ≡ stream_of m.accepted
  flush_outgoing_queue_lem acts stream a b e =
      let h = run-IsSound acts _ (new_pump-IsSound stream) in is_flushed-IsSent _ _ _ a b e h.0 h.1
