-- ===== src/MessagePump/Pump/Received.antt =====
-- cdc_rsync/base/message_pump.cc: what is dequeued under any interleaving.
use cdc_file_transfer.Prelude.{
  ℕ, ◌≡◌, inl, inr, refl, List, [], ◌∷◌, ◌++◌, Option, none, some, All, Bool, true, false,
}
use cdc_file_transfer.Prelude.Status.{Result, ok, err}
use cdc_file_transfer.MessagePump.{Packet, ReadChunk, PacketType}
use cdc_file_transfer.MessagePump.Wire.{stream_of, IsSendable}
use cdc_file_transfer.MessagePump.Outgoing.{Outgoing}
use cdc_file_transfer.MessagePump.Outgoing.Prefix.{all_bytes}
use cdc_file_transfer.MessagePump.Incoming.{dequeue_packet, new_incoming}
use cdc_file_transfer.MessagePump.Incoming.Stream.{
  IsReceived, receiver_step-IsReceived, dequeue_packet-IsReceived,
}
use cdc_file_transfer.MessagePump.Pump.{
  Pump, Act, act_send, act_receive, act_redirect_output, act_stop, act_sender, act_receiver,
  after_queue, send, after_dequeue, Call, calling_redirect_output, calling_stop_message_pump,
  after_flush, begin_stop, go_on, act_go_on, perform, run, new_pump,
}
use cdc_file_transfer.MessagePump.Pump.Sent.{outgoing_packets_lem, run-All-IsSendable}

abbrev IsFed {ℓ} : {Reader : Type ℓ} → List Packet → Pump Reader → Type ℓ
IsFed ps m = IsReceived ps m.dequeued m.incoming

module _ {ℓ} {Reader : Type ℓ} where
  after_queue-IsFed :
      (ps : List Packet) (p : Packet) (r : Option (Result Outgoing)) (m : Pump Reader)
      → IsFed ps m
      → IsFed ps (after_queue p r m)
  unfolding after_queue
  after_queue-IsFed ps p none m h = h
  after_queue-IsFed ps p (some (ok o)) m h = h
  after_queue-IsFed ps p (some (err c)) m h = h

  send-IsFed :
      (ps : List Packet) (p : Packet) (r : Result (List ℕ)) (m : Pump Reader)
      → IsFed ps m
      → IsFed ps (send p r m)
  unfolding send
  send-IsFed ps p (ok bytes) m h = after_queue-IsFed ps p _ m h
  send-IsFed ps p (err c) m h = h

  after_flush-IsFed :
      (ps : List Packet) (call : Call) (t : Bool) (m : Pump Reader)
      → IsFed ps m
      → IsFed ps (after_flush call t m)
  unfolding after_flush
  after_flush-IsFed ps call false m h = h
  after_flush-IsFed ps call true m h = h

  begin_stop-IsFed :
      (ps : List Packet) (s t : Bool) (m : Pump Reader) → IsFed ps m → IsFed ps (begin_stop s t m)
  unfolding begin_stop
  begin_stop-IsFed ps true t m h = h
  begin_stop-IsFed ps false t m h = after_flush-IsFed ps calling_stop_message_pump t m h

  go_on-IsFed :
      (ps : List Packet) (c : Option Call) (m : Pump Reader) → IsFed ps m → IsFed ps (go_on c m)
  unfolding go_on
  go_on-IsFed ps none m h = h
  go_on-IsFed ps (some (calling_redirect_output handler)) m h = h
  go_on-IsFed ps (some calling_stop_message_pump) m h = h

  receive-IsFed :
      (ps : List Packet) (m : Pump Reader)
      → IsFed ps m
      → IsFed ps (after_dequeue (dequeue_packet m.flags m.incoming) m)
  unfolding after_dequeue
  receive-IsFed ps m h = elim (dequeue_packet-IsReceived ps m.dequeued m.flags m.incoming h) [
    | inl (c, e) ↦ simp e h
    | inr (inl e) ↦ simp e h
    | inr (inr (p, i', e, h')) ↦ simp e h'
  ]

  new_pump-IsFed :
      (ps : List Packet) (u v : List ℕ)
      → u ++ v ≡ stream_of ps
      → IsFed ps (new_pump {Reader = Reader} u)
  unfolding new_pump new_incoming
  new_pump-IsFed ps u v e = (ps, u, v, refl, refl, e)

module _ {ℓ} {Reader : Type ℓ} (read : Reader → ℕ → Result (ReadChunk Reader)) where
  perform-IsFed :
      (a : Act) (ps : List Packet) (m : Pump Reader)
      → All IsSendable ps
      → IsFed ps m
      → IsFed ps (perform read (λ t. none) a m)
  unfolding perform
  perform-IsFed (act_send p) ps m s h = send-IsFed ps p _ m h
  perform-IsFed act_receive ps m s h = receive-IsFed ps m h
  perform-IsFed (act_redirect_output handler) ps m s h = after_flush-IsFed ps _ _ m h
  perform-IsFed act_stop ps m s h = begin_stop-IsFed ps _ _ m h
  perform-IsFed act_go_on ps m s h = go_on-IsFed ps m.flushed m h
  perform-IsFed (act_sender outcome) ps m s h = h
  perform-IsFed act_receiver ps m s h =
      receiver_step-IsReceived read ps m.dequeued m.flags m.incoming s h

  run-IsFed :
      (acts : List Act) (ps : List Packet) (m : Pump Reader)
      → All IsSendable ps
      → IsFed ps m
      → IsFed ps (run read (λ t. none) acts m)
  unfolding run
  run-IsFed [] ps m s h = h
  run-IsFed (a ∷ acts) ps m s h =
      run-IsFed acts ps (perform read (λ t. none) a m) s (perform-IsFed a ps m s h)

  -- What is dequeued of a stream that breaks off somewhere.
  pub dequeued_lem :
      (acts : List Act) (ps : List Packet) (u v : List ℕ)
      → All IsSendable ps
      → u ++ v ≡ stream_of ps
      → (rest : List Packet) × (ps ≡ (run read (λ t. none) acts (new_pump u)).dequeued ++ rest)
  dequeued_lem acts ps u v s e =
      let (rest, u', v', f, g, b) = run-IsFed acts ps (new_pump u) s (new_pump-IsFed ps u v e) in
      (_, f)

  -- Under any interleaving of the actions of two message pumps, errors, shutdown and broken sends
  -- included, where the socket of the second delivers all bytes that the first has put out and no
  -- input is redirected, the packets that the second has dequeued are the first of the packets that
  -- the first has accepted, in their order and with their data.
  pub message_pump_lem :
      (acts acts' : List Act) (stream : List ℕ) (redirect : PacketType → Option Reader)
      → let sender = run read redirect acts (new_pump stream) in
        let receiver = run read (λ t. none) acts' (new_pump (all_bytes sender.outgoing.outputs)) in
        (rest : List Packet) × (sender.accepted ≡ receiver.dequeued ++ rest)
  message_pump_lem acts acts' stream redirect =
      let (rest, e) = outgoing_packets_lem read redirect acts stream in
      dequeued_lem acts' _ _ rest (run-All-IsSendable read redirect acts stream) e
