-- ===== src/MessagePump/Pump.antt =====
-- cdc_rsync/base/message_pump.cc: `MessagePump` with both of its threads and its user. An
-- interleaving is a list of actions; an action that has to wait changes nothing.
pub mod Sent
pub mod Received
use cdc_file_transfer.Prelude.{
  ℕ, Bool, true, false, List, [], ◌∷◌, ◌++◌, Option, none, some, length,
}
use cdc_file_transfer.Prelude.Status.{Code, internal, Result, ok, err, ◌>>=◌}
use cdc_file_transfer.MessagePump.{PacketType, Packet, ReadChunk, create_serialized_packet}
use cdc_file_transfer.MessagePump.Outgoing.{
  Flags, Outgoing, queue_packet, is_flushed, redirect_output, stop_message_pump, sender_step,
  new_outgoing,
}
use cdc_file_transfer.MessagePump.Incoming.{Incoming, dequeue_packet, receiver_step, new_incoming}

-- A call that waits in `FlushOutgoingQueue` first: `RedirectOutput` with a handler or with none, or
-- `StopMessagePump`.
pub data Call : Type 0 where
  calling_redirect_output : Bool → Call
  calling_stop_message_pump : Call

-- The pump, with the call whose flush has returned, if any, the packets that `SendRawData` and
-- `SendMessage` accepted and those that `DequeuePacket` returned.
pub record Pump {ℓ} (Reader : Type ℓ) : Type ℓ where
  pub flags : Flags
  pub outgoing : Outgoing
  pub incoming : Incoming Reader
  pub flushed : Option Call
  pub accepted : List Packet
  pub dequeued : List Packet

pub data Act : Type 0 where
  act_send : Packet → Act
  act_receive : Act
  act_redirect_output : Bool → Act
  act_stop : Act
  act_go_on : Act
  act_sender : Option (ℕ × Code) → Act
  act_receiver : Act

-- What `SendRawData` and `SendMessage` queue, with the bytes of the message.
unfoldable pub serialize_packet : Packet → Result (List ℕ)
serialize_packet p = create_serialized_packet p.packet_type (length p.data_bytes) >>= λ header.
    ok (header ++ p.data_bytes)

module _ {ℓ} {Reader : Type ℓ} where
  unfoldable pub after_queue : Packet → Option (Result Outgoing) → Pump Reader → Pump Reader
  after_queue p (some (ok o)) m = record m { outgoing = o; accepted = m.accepted ++ p ∷ [] }
  after_queue p _ m = m

  unfoldable pub send : Packet → Result (List ℕ) → Pump Reader → Pump Reader
  send p (ok bytes) m = after_queue p (queue_packet m.flags bytes m.outgoing) m
  send p (err code) m = m

  pub after_dequeue : Option (Result (Packet × Incoming Reader)) → Pump Reader → Pump Reader
  after_dequeue (some (ok (p, i))) m = record m { incoming = i; dequeued = m.dequeued ++ p ∷ [] }
  after_dequeue _ m = m

  -- `FlushOutgoingQueue` returns to a call, or waits.
  pub after_flush : Call → Bool → Pump Reader → Pump Reader
  after_flush call false m = m
  after_flush call true m = record m { flushed = some call }

  -- `StopMessagePump` up to its flush; it returns at once behind a shutdown.
  pub begin_stop : Bool → Bool → Pump Reader → Pump Reader
  begin_stop true flushed m = m
  begin_stop false flushed m = after_flush calling_stop_message_pump flushed m

  -- What the call does behind its flush; anything may have happened since.
  pub go_on : Option Call → Pump Reader → Pump Reader
  go_on none m = m
  go_on (some (calling_redirect_output handler)) m = record m {
    outgoing = redirect_output handler m.outgoing;
    flushed = none;
  }
  go_on (some calling_stop_message_pump) m = record m {
    flags = stop_message_pump m.flags;
    flushed = none;
  }

module _ {ℓ} {Reader : Type ℓ} (read : Reader → ℕ → Result (ReadChunk Reader))
    (redirect : PacketType → Option Reader) where
  unfoldable pub perform : Act → Pump Reader → Pump Reader
  perform (act_send p) m = send p (serialize_packet p) m
  perform act_receive m = after_dequeue (dequeue_packet m.flags m.incoming) m
  perform (act_redirect_output handler) m =
      after_flush (calling_redirect_output handler) (is_flushed m.flags m.outgoing) m
  perform act_stop m = begin_stop m.flags.shutdown (is_flushed m.flags m.outgoing) m
  perform act_go_on m = go_on m.flushed m
  perform (act_sender outcome) m =
      let (f, o) = sender_step outcome m.flags m.outgoing in record m { flags = f; outgoing = o }
  perform act_receiver m =
      let (f, i) = receiver_step read redirect m.flags m.incoming in
      record m { flags = f; incoming = i }

  unfoldable pub run : List Act → Pump Reader → Pump Reader
  run [] m = m
  run (a ∷ acts) m = run acts (perform a m)

-- A pump whose socket will deliver `stream`.
unfoldable pub new_pump {ℓ} : {Reader : Type ℓ} → List ℕ → Pump Reader
new_pump stream = record {
  flags = record { send_error = false; receive_error = false; shutdown = false; status = internal };
  outgoing = new_outgoing;
  incoming = new_incoming stream;
  flushed = none;
  accepted = [];
  dequeued = [];
}
