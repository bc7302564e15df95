-- ===== src/MessagePump/Outgoing/Bytes.antt =====
-- cdc_rsync/base/message_pump.cc: the byte size of the outgoing queue.
use cdc_file_transfer.Prelude.{
  ℕ, ◌+◌, ◌<◌, ◌≤◌, ◌≡◌, ◌⊎◌, inl, inr, refl, ap, ◌∙◌, false, ◌||◌, List, [], ◌∷◌, ◌++◌, Option,
  none, some, length, ltb, ltb→lt, arith, Bool-cases,
}
use cdc_file_transfer.Prelude.Status.{Code, ok, err}
use cdc_file_transfer.MessagePump.{in_out_buffer_size, header_size, max_packet_size}
use cdc_file_transfer.MessagePump.Outgoing.{
  Flags, Sender, idle, grabbed, sending, sent, send_failing, send_failed, sender_stopped, Outgoing,
  queue_packet, grab_packet, do_send, sender_at, sender_step,
}

abbrev pub total_size : List (List ℕ) → ℕ
total_size [] = 0
total_size (b ∷ packets) = length b + total_size packets

-- The size of the packet that the sender thread has taken and not subtracted.
abbrev pub held_size : Sender → ℕ
held_size idle = 0
held_size (grabbed b) = length b
held_size (sending b) = length b
held_size (sent n) = n
held_size (send_failing n code) = n
held_size (send_failed n) = n
held_size (sender_stopped n) = n

-- The counter is the size of what is queued or held, and less than the buffer's size and one packet.
abbrev pub IsCounted : Outgoing → Type 0
IsCounted o =
    (o.outgoing_byte_size ≡ total_size o.outgoing_packets + held_size o.sender)
    × (o.outgoing_byte_size < in_out_buffer_size + header_size + max_packet_size)

total_size-append : (xs ys : List (List ℕ)) → total_size (xs ++ ys) ≡ total_size xs + total_size ys
total_size-append [] ys = omega arith
total_size-append (x ∷ xs) ys = omega (arith, total_size-append xs ys)

abbrev pub enqueued : List ℕ → Outgoing → Outgoing
enqueued b o = record o {
  outgoing_packets = o.outgoing_packets ++ b ∷ [];
  outgoing_byte_size = o.outgoing_byte_size + length b;
}

-- `QueuePacket` waits, or returns the error, or appends the packet to a queue with room.
pub queue_packet-cases :
    (f : Flags) (b : List ℕ) (o : Outgoing)
    → (queue_packet f b o ≡ none)
      ⊎ ((queue_packet f b o ≡ some (err f.status))
          ⊎ ((queue_packet f b o ≡ some (ok (enqueued b o)))
              × (o.outgoing_byte_size < in_out_buffer_size)
              × (f.send_error ≡ false)
              × (f.receive_error ≡ false)))
unfolding queue_packet
queue_packet-cases f b o = elim (Bool-cases f.send_error) [
  | inl s ↦ elim (Bool-cases (ltb o.outgoing_byte_size in_out_buffer_size)) [
    | inl l ↦ inr (inl (simp (s, l) refl))
    | inr l ↦ inr (inl (simp (s, l) refl))
  ]
  | inr s ↦ elim (Bool-cases f.receive_error) [
    | inl r ↦ elim (Bool-cases (ltb o.outgoing_byte_size in_out_buffer_size)) [
      | inl l ↦ inr (inl (simp (s, r, l) refl))
      | inr l ↦ inr (inl (simp (s, r, l) refl))
    ]
    | inr r ↦ elim (Bool-cases (ltb o.outgoing_byte_size in_out_buffer_size)) [
      | inl l ↦ inr (inr (simp (s, r, l) refl, ltb→lt _ _ l, s, r))
      | inr l ↦ inl (simp (s, r, l) refl)
    ]
  ]
]

pub enqueued-IsCounted :
    (b : List ℕ) (o : Outgoing)
    → length b ≤ header_size + max_packet_size
    → o.outgoing_byte_size < in_out_buffer_size
    → IsCounted o
    → IsCounted (enqueued b o)
enqueued-IsCounted b o h l (e, m) =
    (omega (arith, e, total_size-append o.outgoing_packets (b ∷ [])), omega arith)

grab_packet-IsCounted :
    (q : List (List ℕ)) (o : Outgoing)
    → o.outgoing_packets ≡ q
    → o.sender ≡ idle
    → IsCounted o
    → IsCounted (grab_packet q o)
unfolding grab_packet
grab_packet-IsCounted [] o e s h = h
grab_packet-IsCounted (b ∷ q) o e s (c, m) = (omega (arith, c, ap total_size e, ap held_size s), m)

pub sender_at-IsCounted :
    (s : Sender) (outcome : Option (ℕ × Code)) (f : Flags) (o : Outgoing)
    → o.sender ≡ s
    → IsCounted o
    → IsCounted (sender_at s outcome f o).1
unfolding sender_at do_send
sender_at-IsCounted idle outcome f o e (c, m) = elim (Bool-cases (f.send_error || f.shutdown)) [
  | inl t ↦ rw t (c ∙ rw e refl, m)
  | inr t ↦ rw t (grab_packet-IsCounted o.outgoing_packets o refl e (c, m))
]
sender_at-IsCounted (grabbed b) outcome f o e (c, m) = elim (Bool-cases f.receive_error) [
  | inl t ↦ rw t (c ∙ rw e refl, m)
  | inr t ↦ rw t (c ∙ rw e refl, m)
]
sender_at-IsCounted (sending b) none f o e (c, m) = (c ∙ rw e refl, m)
sender_at-IsCounted (sending b) (some (n, code)) f o e (c, m) = (c ∙ rw e refl, m)
sender_at-IsCounted (sent n) outcome f o e (c, m) =
    (omega (arith, c, ap held_size e), omega (arith, m))
sender_at-IsCounted (send_failing n code) outcome f o e (c, m) = (c ∙ rw e refl, m)
sender_at-IsCounted (send_failed n) outcome f o e (c, m) = (c ∙ rw e refl, m)
sender_at-IsCounted (sender_stopped n) outcome f o e h = h

pub sender_step-IsCounted :
    (outcome : Option (ℕ × Code)) (f : Flags) (o : Outgoing)
    → IsCounted o
    → IsCounted (sender_step outcome f o).1
unfolding sender_step
sender_step-IsCounted outcome f o h = sender_at-IsCounted o.sender outcome f o refl h
