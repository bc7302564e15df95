-- ===== src/MessagePump/Truncated.antt =====
-- cdc_rsync/base/message_pump.cc: a packet whose end is missing is an error.
use cdc_file_transfer.Prelude.{
  ℕ, zero, suc, ◌<◌, ◌≡◌, ◌⊎◌, inl, inr, refl, ap, ◌∙◌, Bool, true, false, List, [], ◌∷◌, ◌++◌,
  length, leb, ltb, arith, drop, if◌then◌else◌,
}
use cdc_file_transfer.Prelude.Status.{Result, err, internal}
use cdc_file_transfer.Prelude.Words.{le_bytes}
use cdc_file_transfer.MessagePump.{
  PacketType, type_byte, Packet, ReadChunk, Source, socket_receive, thread_do_receive,
  receive_sized, thread_do_receive_packet, max_packet_size,
}
use cdc_file_transfer.MessagePump.Wire.{
  wire, IsSendable, plain, receive_data_step, type_of_byte-type_byte, length-le_three,
  thread_do_receive-plain,
}

-- A prefix of `x ++ w` holds all of `x`, or ends within it.
pub split_prefix :
    (x u v w : List ℕ)
    → u ++ v ≡ x ++ w
    → ((u' : List ℕ) × (u ≡ x ++ u') × (u' ++ v ≡ w))
      ⊎ ((t : List ℕ) × (u ++ t ≡ x) × (length u < length x))
split_prefix [] u v w e = inl (u, refl, e)
split_prefix (a ∷ x) [] v w e = inr (a ∷ x, refl, omega arith)
split_prefix (a ∷ x) (b ∷ u) v w e = elim (split_prefix x u v w (ap (drop 1) e)) [
  | inl (u', p, q) ↦ inl (u', cc, q)
  | inr (t, p, l) ↦ inr (t, cc, omega arith)
]

module _ {ℓ} {Reader : Type ℓ} (read : Reader → ℕ → Result (ReadChunk Reader)) where
  socket_receive_short :
      (n : ℕ) (u : List ℕ)
      → length u < n
      → socket_receive {Reader = Reader} n (plain u) ≡ err internal
  unfolding socket_receive
  socket_receive_short n u h = rw too_short refl
    where
      too_short : leb n (length u) ≡ false
      too_short = ground arith

  thread_do_receive_short :
      (n : ℕ) (u : List ℕ) → length u < n → thread_do_receive read n (plain u) ≡ err internal
  unfolding thread_do_receive
  thread_do_receive_short zero u h = absurd (omega arith)
  thread_do_receive_short (suc n) u h = socket_receive_short (suc n) u h

  receive_sized_short :
      (t : PacketType) (n : ℕ) (u : List ℕ)
      → length u < n
      → receive_sized read t n (plain u) ≡ err internal
  unfolding receive_sized
  receive_sized_short t n u h = rw (thread_do_receive_short n u h) (both (ltb max_packet_size n))
    where
      both :
          (b : Bool)
          → ◌≡◌ {A = Result (Packet × Source Reader)}
              (if b then err internal else err internal)
              (err internal)
      both true = refl
      both false = refl

  header_short :
      (u : List ℕ) → length u < 4 → thread_do_receive_packet read (plain u) ≡ err internal
  unfolding thread_do_receive_packet
  header_short u h = rw (thread_do_receive_short 4 u h) refl

  body_short :
      (p : Packet) (u : List ℕ)
      → IsSendable p
      → length u < length p.data_bytes
      → thread_do_receive_packet read
          (plain ((type_byte p.packet_type ∷ le_bytes 3 (length p.data_bytes)) ++ u))
        ≡ err internal
  unfolding thread_do_receive_packet
  body_short p u s h =
      rw
        (thread_do_receive-plain read (type_byte p.packet_type ∷ le_bytes 3 (length p.data_bytes))
          u)
        (receive_data_step read _ _ _ _ p.packet_type (plain u)
            (type_of_byte-type_byte p.packet_type)
          ∙ (ap (λ n. receive_sized read p.packet_type n (plain u))
                (length-le_three (length p.data_bytes) s)
              ∙ receive_sized_short p.packet_type (length p.data_bytes) u h))

  -- Without redirected input, a stream that ends before the end of a packet of legal size gives an
  -- error and no packet.
  pub thread_do_receive_packet_truncated :
      (p : Packet) (u t : List ℕ)
      → IsSendable p
      → u ++ t ≡ wire p
      → length u < length (wire p)
      → thread_do_receive_packet read (plain u) ≡ err internal
  thread_do_receive_packet_truncated p u t s e l =
      elim (split_prefix (type_byte p.packet_type ∷ le_bytes 3 (length p.data_bytes)) u t
        p.data_bytes e) [
          | inl (u', f, g) ↦
              ap (λ x. thread_do_receive_packet read (plain x)) f
              ∙ body_short p u' s (omega (arith, ap length f, l))
          | inr (t', f, g) ↦ header_short u (omega (arith, g))
        ]

  pub thread_do_receive_packet_empty : thread_do_receive_packet read (plain []) ≡ err internal
  thread_do_receive_packet_empty = header_short [] (omega arith)
