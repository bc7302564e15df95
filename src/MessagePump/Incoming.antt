-- ===== src/MessagePump/Incoming.antt =====
-- cdc_rsync/base/message_pump.cc: the queue of incoming packets and the receiver thread.
pub mod Order
pub mod Stream
use cdc_file_transfer.Prelude.{
  ℕ, ◌+◌, ◌-◌, Bool, true, false, ◌||◌, List, [], ◌∷◌, ◌++◌, Option, none, some, length, ltb,
  if◌then◌else◌,
}
use cdc_file_transfer.Prelude.Status.{Code, Result, ok, err}
use cdc_file_transfer.MessagePump.{
  in_out_buffer_size, header_size, PacketType, Packet, ReadChunk, Source, thread_do_receive_packet,
  packet_received,
}
use cdc_file_transfer.MessagePump.Outgoing.{Flags}

-- Where `ThreadReceiverMain` stands: at `Await`, in `ThreadDoReceivePacket`, before the lock with a
-- packet, before `status_` and before `receive_error_`, or behind the loop.
pub data Receiver : Type 0 where
  idle : Receiver
  receiving : Receiver
  received : Packet → Receiver
  receive_failing : Code → Receiver
  receive_failed : Receiver
  receiver_stopped : Receiver

pub record Incoming {ℓ} (Reader : Type ℓ) : Type ℓ where
  pub incoming_packets : List Packet
  pub incoming_byte_size : ℕ
  pub receiver : Receiver
  pub source : Source Reader

-- A packet's share of the byte size
abbrev pub packet_size : Packet → ℕ
packet_size p = header_size + length p.data_bytes

-- `DequeuePacket` where it has not to wait
pub pop_packet {ℓ} :
    {Reader : Type ℓ}
    → Flags
    → List Packet
    → Incoming Reader
    → Option (Result (Packet × Incoming Reader))
pop_packet f [] i = if f.send_error || f.receive_error then some (err f.status) else none
pop_packet f (p ∷ packets) i =
    if f.send_error
    then some (err f.status)
    else some (
        ok (
          p,
          record i {
            incoming_packets = packets;
            incoming_byte_size = i.incoming_byte_size - packet_size p;
          },
        ))

pub dequeue_packet {ℓ} :
    {Reader : Type ℓ} → Flags → Incoming Reader → Option (Result (Packet × Incoming Reader))
dequeue_packet f i = pop_packet f i.incoming_packets i

module _ {ℓ} {Reader : Type ℓ} (read : Reader → ℕ → Result (ReadChunk Reader))
    (redirect : PacketType → Option Reader) where
  -- Behind `ThreadDoReceivePacket`, with the callback.
  pub after_receive : Result (Packet × Source Reader) → Incoming Reader → Incoming Reader
  after_receive (ok (p, s)) i = record i {
    source = packet_received redirect p.packet_type s;
    receiver = received p;
  }
  after_receive (err code) i = record i { receiver = receive_failing code }

  pub receiver_at : Receiver → Flags → Incoming Reader → Flags × Incoming Reader
  receiver_at idle f i =
      if f.receive_error || f.shutdown
      then (f, record i { receiver = receiver_stopped })
      else (if ltb i.incoming_byte_size in_out_buffer_size
          then (f, record i { receiver = receiving })
          else (f, i))
  receiver_at receiving f i = (f, after_receive (thread_do_receive_packet read i.source) i)
  receiver_at (received p) f i = (
    f,
    record i {
      incoming_packets = i.incoming_packets ++ p ∷ [];
      incoming_byte_size = i.incoming_byte_size + packet_size p;
      receiver = idle;
    },
  )
  receiver_at (receive_failing code) f i =
      (record f { status = code }, record i { receiver = receive_failed })
  receiver_at receive_failed f i =
      (record f { receive_error = true }, record i { receiver = receiver_stopped })
  receiver_at receiver_stopped f i = (f, i)

  pub receiver_step : Flags → Incoming Reader → Flags × Incoming Reader
  receiver_step f i = receiver_at i.receiver f i

unfoldable pub new_incoming {ℓ} : {Reader : Type ℓ} → List ℕ → Incoming Reader
new_incoming stream = record {
  incoming_packets = [];
  incoming_byte_size = 0;
  receiver = idle;
  source = record { input_reader = none; unread = stream };
}
