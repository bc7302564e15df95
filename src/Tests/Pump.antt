-- ===== src/Tests/Pump.antt =====
-- The message pump on a short exchange.
use cdc_file_transfer.Prelude.{
  ℕ, ◌<◌, ◌≡◌, refl, List, [], ◌∷◌, ◌++◌, ◌+◌, Option, some, none, arith, Bool, true,
}
use cdc_file_transfer.Prelude.Status.{Result, ok, err, internal, ◌>>=◌}
use cdc_file_transfer.MessagePump.{
  Packet, PacketType, raw_data, add_files, ReadChunk, in_out_buffer_size, header_size,
  max_packet_size, serialize_message, create_serialized_packet, thread_do_receive_packet,
}
use cdc_file_transfer.MessagePump.Wire.{plain, stream_of, receive_from, receive_message_lem}
use cdc_file_transfer.MessagePump.Truncated.{thread_do_receive_packet_truncated}
use cdc_file_transfer.MessagePump.Outgoing.{
  is_flushed, new_outgoing, queue_packet, sender_step, sender_at, grab_packet, do_send,
}
use cdc_file_transfer.MessagePump.Outgoing.Prefix.{all_bytes}
use cdc_file_transfer.MessagePump.Pump.{
  Act, act_send, act_receive, act_sender, act_receiver, run, new_pump, perform, send, after_queue,
  serialize_packet,
}
use cdc_file_transfer.MessagePump.Pump.Sent.{outgoing_byte_size_lem, flush_outgoing_queue_lem}
use cdc_file_transfer.MessagePump.Pump.Received.{message_pump_lem}

abbrev no_input : Bool → ℕ → Result (ReadChunk Bool)
no_input r n = err internal

abbrev no_redirect : PacketType → Option Bool
no_redirect t = none

abbrev two_bytes : Packet
two_bytes = record { packet_type = raw_data; data_bytes = 7 ∷ 8 ∷ [] }

abbrev no_files : Packet
no_files = record { packet_type = add_files; data_bytes = [] }

-- Two packets are queued, and one of them is sent.
abbrev sending_acts : List Act
sending_acts =
    act_send two_bytes
    ∷ act_sender none
    ∷ act_sender none
    ∷ act_send no_files
    ∷ act_sender none
    ∷ act_sender none
    ∷ []

abbrev receiving_acts : List Act
receiving_acts = act_receiver ∷ act_receiver ∷ act_receiver ∷ act_receive ∷ []

message_pump_lem_example :
    (rest : List Packet) × ((run no_input no_redirect sending_acts (new_pump [])).accepted
      ≡ (run no_input no_redirect receiving_acts (
          new_pump (
            all_bytes
              (run no_input no_redirect sending_acts (new_pump [])).outgoing.outputs))).dequeued
        ++ rest)
message_pump_lem_example = message_pump_lem no_input sending_acts receiving_acts [] no_redirect

abbrev sent_stream : List ℕ
sent_stream = all_bytes (run no_input no_redirect sending_acts (new_pump [])).outgoing.outputs

outgoing_byte_size_lem_example :
    (run no_input no_redirect sending_acts (new_pump [])).outgoing.outgoing_byte_size
    < in_out_buffer_size + header_size + max_packet_size
outgoing_byte_size_lem_example = outgoing_byte_size_lem no_input no_redirect sending_acts []

abbrev flushing_acts : List Act
flushing_acts =
    act_send two_bytes ∷ act_sender none ∷ act_sender none ∷ act_sender none ∷ act_sender none ∷ []

flush_outgoing_queue_lem_example :
    all_bytes (run no_input no_redirect flushing_acts (new_pump [])).outgoing.outputs
    ≡ stream_of (run no_input no_redirect flushing_acts (new_pump [])).accepted
unfolding run perform send after_queue serialize_packet create_serialized_packet queue_packet
    sender_step sender_at grab_packet do_send new_pump new_outgoing is_flushed
flush_outgoing_queue_lem_example =
    flush_outgoing_queue_lem no_input no_redirect flushing_acts [] refl refl refl

-- The client's empty message is its type.
receive_message_lem_example :
    (serialize_message (λ (m : Bool). 2) (λ m. some (8 ∷ 1 ∷ [])) add_files true >>= λ sent.
    receive_from
      (λ (m : Bool). 2)
      (λ m. some (8 ∷ 1 ∷ []))
      (λ b. some true)
      no_input
      add_files
      (sent ++ 5 ∷ []))
    ≡ ok (true, 5 ∷ [])
receive_message_lem_example =
    receive_message_lem (λ (m : Bool). 2) (λ m. some (8 ∷ 1 ∷ [])) (λ b. some true) no_input
      add_files true (8 ∷ 1 ∷ []) (5 ∷ []) refl refl refl (omega arith)

thread_do_receive_packet_truncated_example :
    thread_do_receive_packet no_input (plain (0 ∷ 2 ∷ 0 ∷ 0 ∷ 7 ∷ [])) ≡ err internal
thread_do_receive_packet_truncated_example =
    thread_do_receive_packet_truncated no_input two_bytes (0 ∷ 2 ∷ 0 ∷ 0 ∷ 7 ∷ []) (8 ∷ [])
      (omega arith) refl (omega arith)
