-- ===== src/MessagePump/Outgoing.antt =====
-- cdc_rsync/base/message_pump.cc: the queue of outgoing packets and the sender thread. Each function
-- is what one thread does under a lock or between two; `none` is for a thread that has to wait.
pub mod Bytes
pub mod Prefix
use cdc_file_transfer.Prelude.{
  ℕ, ◌+◌, ◌-◌, Bool, true, false, ◌||◌, List, [], ◌∷◌, ◌++◌, Option, none, some, length, take, ltb,
  ◌==◌, if◌then◌else◌,
}
use cdc_file_transfer.Prelude.Status.{Code, Result, ok, err}
use cdc_file_transfer.MessagePump.{in_out_buffer_size}

-- What both threads read: `send_error_`, `receive_error_`, `shutdown_` and `status_`.
pub record Flags : Type 0 where
  pub send_error : Bool
  pub receive_error : Bool
  pub shutdown : Bool
  pub status : Code

-- Where `ThreadSenderMain` stands: at `Await`, in `ThreadDoSendPacket` before and behind the test of
-- `receive_error_`, before the lock with a packet of a size that was sent, before `status_` and
-- before `send_error_` with one that was not, or behind the loop. A stopped thread keeps the size
-- that it has not subtracted.
pub data Sender : Type 0 where
  idle : Sender
  grabbed : List ℕ → Sender
  sending : List ℕ → Sender
  sent : ℕ → Sender
  send_failing : ℕ → Code → Sender
  send_failed : ℕ → Sender
  sender_stopped : ℕ → Sender

-- Bytes that went to the output handler or to the socket.
pub record Output : Type 0 where
  pub to_handler : Bool
  pub output_bytes : List ℕ

pub record Outgoing : Type 0 where
  pub outgoing_packets : List (List ℕ)
  pub outgoing_byte_size : ℕ
  pub has_output_handler : Bool
  pub sender : Sender
  pub outputs : List Output

-- `QueuePacket`
unfoldable pub queue_packet : Flags → List ℕ → Outgoing → Option (Result Outgoing)
queue_packet f bytes o =
    if ltb o.outgoing_byte_size in_out_buffer_size || f.send_error || f.receive_error
    then (if f.send_error || f.receive_error
        then some (err f.status)
        else some (
            ok (record o {
              outgoing_packets = o.outgoing_packets ++ bytes ∷ [];
              outgoing_byte_size = o.outgoing_byte_size + length bytes;
            })))
    else none

-- The condition of `FlushOutgoingQueue`
unfoldable pub is_flushed : Flags → Outgoing → Bool
is_flushed f o = o.outgoing_byte_size == 0 || f.send_error || f.receive_error

-- `RedirectOutput` behind its flush, with a handler or with none
unfoldable pub redirect_output : Bool → Outgoing → Outgoing
redirect_output handler o = record o { has_output_handler = handler }

-- `StopMessagePump` behind its flush, before the threads are joined
unfoldable pub stop_message_pump : Flags → Flags
stop_message_pump f = record f { shutdown = true }

-- The next packet, where it need not wait.
unfoldable pub grab_packet : List (List ℕ) → Outgoing → Outgoing
grab_packet [] o = o
grab_packet (bytes ∷ rest) o = record o { outgoing_packets = rest; sender = grabbed bytes }

-- The outcome of sending: none for success, or a number of bytes that went out before an error.
unfoldable pub do_send : Option (ℕ × Code) → List ℕ → Outgoing → Outgoing
do_send none bytes o = record o {
  outputs = o.outputs ++ record { to_handler = o.has_output_handler; output_bytes = bytes } ∷ [];
  sender = sent (length bytes);
}
do_send (some (n, code)) bytes o = record o {
  outputs =
      o.outputs ++ record { to_handler = o.has_output_handler; output_bytes = take n bytes } ∷ [];
  sender = send_failing (length bytes) code;
}

-- The sender's next action, with the outcome of sending.
unfoldable pub sender_at : Sender → Option (ℕ × Code) → Flags → Outgoing → Flags × Outgoing
sender_at idle outcome f o =
    if f.send_error || f.shutdown
    then (f, record o { sender = sender_stopped 0 })
    else (f, grab_packet o.outgoing_packets o)
sender_at (grabbed bytes) outcome f o =
    if f.receive_error
    then (f, record o { sender = sent (length bytes) })
    else (f, record o { sender = sending bytes })
sender_at (sending bytes) outcome f o = (f, do_send outcome bytes o)
sender_at (sent size) outcome f o =
    (f, record o { outgoing_byte_size = o.outgoing_byte_size - size; sender = idle })
sender_at (send_failing size code) outcome f o =
    (record f { status = code }, record o { sender = send_failed size })
sender_at (send_failed size) outcome f o =
    (record f { send_error = true }, record o { sender = sender_stopped size })
sender_at (sender_stopped size) outcome f o = (f, o)

unfoldable pub sender_step : Option (ℕ × Code) → Flags → Outgoing → Flags × Outgoing
sender_step outcome f o = sender_at o.sender outcome f o

unfoldable pub new_outgoing : Outgoing
new_outgoing = record {
  outgoing_packets = [];
  outgoing_byte_size = 0;
  has_output_handler = false;
  sender = idle;
  outputs = [];
}
