-- ===== src/MessagePump/Incoming/Order.antt =====
-- cdc_rsync/base/message_pump.cc: what the receiver thread queues is what the stream holds, in order.
use mathlib.Core.Bool.{false≢true}
use cdc_file_transfer.Prelude.{ℕ, ◌≡◌, inl, inr, sym, false, ◌||◌, Option, ltb, Bool-cases}
use cdc_file_transfer.Prelude.Status.{Result}
use cdc_file_transfer.MessagePump.{PacketType, ReadChunk, in_out_buffer_size}
use cdc_file_transfer.MessagePump.Outgoing.{Flags}
use cdc_file_transfer.MessagePump.Incoming.{
  Receiver, idle, receiving, received, receive_failing, receive_failed, receiver_stopped, Incoming,
  receiver_at, receiver_step,
}

module _ {ℓ} {Reader : Type ℓ} (read : Reader → ℕ → Result (ReadChunk Reader))
    (redirect : PacketType → Option Reader) where
  -- The receiver thread takes back no error.
  receiver_at-flags :
      (r : Receiver) (f : Flags) (i : Incoming Reader)
      → let f' = (receiver_at read redirect r f i).0 in
        (f'.send_error ≡ false → f.send_error ≡ false)
        × (f'.receive_error ≡ false → f.receive_error ≡ false)
  unfolding receiver_at
  receiver_at-flags idle f i = elim (Bool-cases (f.receive_error || f.shutdown)) [
    | inl e ↦ simp e ((λ x. x), (λ x. x))
    | inr e ↦ elim (Bool-cases (ltb i.incoming_byte_size in_out_buffer_size)) [
      | inl l ↦ simp (e, l) ((λ x. x), (λ x. x))
      | inr l ↦ simp (e, l) ((λ x. x), (λ x. x))
    ]
  ]
  receiver_at-flags receiving f i = ((λ x. x), (λ x. x))
  receiver_at-flags (received p) f i = ((λ x. x), (λ x. x))
  receiver_at-flags (receive_failing code) f i = ((λ x. x), (λ x. x))
  receiver_at-flags receive_failed f i = ((λ x. x), (λ e. absurd (false≢true (sym e))))
  receiver_at-flags receiver_stopped f i = ((λ x. x), (λ x. x))

  pub receiver_step-flags :
      (f : Flags) (i : Incoming Reader)
      → let f' = (receiver_step read redirect f i).0 in
        (f'.send_error ≡ false → f.send_error ≡ false)
        × (f'.receive_error ≡ false → f.receive_error ≡ false)
  unfolding receiver_step
  receiver_step-flags f i = receiver_at-flags i.receiver f i
