-- ===== src/MessagePump/Wire.antt =====
-- cdc_rsync/base/message_pump.cc: what is received is what was sent.
use cdc_file_transfer.Prelude.{
  ℕ, zero, suc, ◌+◌, ◌*◌, ◌/◌, ◌%◌, ◌<◌, ◌≤◌, ◌≡◌, ◌⊎◌, inl, inr, refl, sym, ap, ◌∙◌, true, false,
  List, [], ◌∷◌, ◌++◌, Option, none, some, length, ◌==◌, flatten, map, ltb, leb, arith, lt→ltb,
  Bool-cases, take-length-append, drop-length-append, length-append, if◌then◌else◌,
}
use cdc_file_transfer.Prelude.Status.{Result, ok, err, internal, ◌>>=◌}
use cdc_file_transfer.Prelude.Words.{le_bytes}
use cdc_file_transfer.MessagePump.{
  PacketType, raw_data, test, set_options, toggle_compression, add_files, send_file_stats,
  add_file_indices, send_missing_file_data, add_signatures, add_patch_commands, add_deleted_files,
  shutdown_server, type_byte, type_of_byte, Packet, max_packet_size, create_serialized_packet,
  serialize_raw_data, serialize_message, ReadChunk, Source, socket_receive, thread_do_receive,
  receive_data, receive_sized, thread_do_receive_packet, message_of,
}

pub type_of_byte-type_byte : (t : PacketType) → type_of_byte (type_byte t) ≡ some t
type_of_byte-type_byte raw_data = refl
type_of_byte-type_byte test = refl
type_of_byte-type_byte set_options = refl
type_of_byte-type_byte toggle_compression = refl
type_of_byte-type_byte add_files = refl
type_of_byte-type_byte send_file_stats = refl
type_of_byte-type_byte add_file_indices = refl
type_of_byte-type_byte send_missing_file_data = refl
type_of_byte-type_byte add_signatures = refl
type_of_byte-type_byte add_patch_commands = refl
type_of_byte-type_byte add_deleted_files = refl
type_of_byte-type_byte shutdown_server = refl

-- A packet's bytes.
abbrev pub wire : Packet → List ℕ
wire p = type_byte p.packet_type ∷ (le_bytes 3 (length p.data_bytes) ++ p.data_bytes)

-- The bytes of packets, one behind the other.
abbrev pub stream_of : List Packet → List ℕ
stream_of packets = flatten (map wire packets)

-- The length fits into the header.
abbrev pub IsSendable : Packet → Type 0
IsSendable p = length p.data_bytes ≤ max_packet_size

abbrev pub plain {ℓ} : {Reader : Type ℓ} → List ℕ → Source Reader
plain bytes = record { input_reader = none; unread = bytes }

leb-append {ℓ} : {A : Type ℓ} (xs ys : List A) → leb (length xs) (length (xs ++ ys)) ≡ true
leb-append xs ys = ground (arith, length-append xs ys)

ltb-false_le : (a b : ℕ) → ltb a b ≡ false → b ≤ a
ltb-false_le a b h = ground arith

==_self : (n : ℕ) → (n == n) ≡ true
==_self n = ground arith

create_serialized_packet_small :
    (t : PacketType) (n : ℕ)
    → n ≤ max_packet_size
    → create_serialized_packet t n ≡ ok (type_byte t ∷ le_bytes 3 n)
unfolding create_serialized_packet
create_serialized_packet_small t n h = ground arith

pub create_serialized_packet_large :
    (t : PacketType) (n : ℕ) → max_packet_size < n → create_serialized_packet t n ≡ err internal
unfolding create_serialized_packet
create_serialized_packet_large t n h = ground arith

pub serialize_raw_data_small :
    (bytes : List ℕ)
    → length bytes ≤ max_packet_size
    → serialize_raw_data bytes ≡ ok (wire (record { packet_type = raw_data; data_bytes = bytes }))
unfolding serialize_raw_data
serialize_raw_data_small bytes h =
    rw (create_serialized_packet_small raw_data (length bytes) h) refl

module _ {ℓ} {Message : Type ℓ} (byte_size : Message → ℕ)
    (serialize : Message → Option (List ℕ)) where
  nonempty_step :
      (t : PacketType) (m : Message) (n : ℕ) (b : List ℕ)
      → n ≡ length b
      → serialize m ≡ some b
      → (if ltb 0 n
          then elim (serialize m) [
            | none ↦ err internal
            | some bytes ↦ ok (type_byte t ∷ le_bytes 3 n ++ bytes)
          ]
          else ok (type_byte t ∷ le_bytes 3 n))
        ≡ ok (wire (record { packet_type = t; data_bytes = b }))
  nonempty_step t m zero [] e s = refl
  nonempty_step t m zero (x ∷ b) e s = absurd (omega (arith, e))
  nonempty_step t m (suc n) b e s = rw (s, sym e) (rw (lt→ltb 0 (suc n) (omega arith)) refl)

  pub serialize_message_small :
      (t : PacketType) (m : Message) (b : List ℕ)
      → serialize m ≡ some b
      → byte_size m ≡ length b
      → length b ≤ max_packet_size
      → serialize_message byte_size serialize t m
        ≡ ok (wire (record { packet_type = t; data_bytes = b }))
  unfolding serialize_message
  serialize_message_small t m b s e h =
      rw (create_serialized_packet_small t (byte_size m) (omega (arith, e, h)))
        (nonempty_step t m (byte_size m) b e s)

pub socket_receive-plain {ℓ} :
    {Reader : Type ℓ} (xs rest : List ℕ)
    → socket_receive {Reader = Reader} (length xs) (plain (xs ++ rest)) ≡ ok (xs, plain rest)
unfolding socket_receive
socket_receive-plain xs rest =
    rw (leb-append xs rest, take-length-append xs rest, drop-length-append xs rest) refl

pub length-le_three :
    (n : ℕ)
    → n ≤ max_packet_size
    → (n % 256) + (n / 256 % 256) * 256 + (n / 256 / 256 % 256) * 65536 ≡ n
length-le_three n h = omega arith

module _ {ℓ} {Reader : Type ℓ} (read : Reader → ℕ → Result (ReadChunk Reader)) where
  -- Without redirected input, the bytes that are asked for are the next ones of the socket.
  pub thread_do_receive-plain :
      (xs rest : List ℕ)
      → thread_do_receive read (length xs) (plain (xs ++ rest)) ≡ ok (xs, plain rest)
  unfolding thread_do_receive
  thread_do_receive-plain [] rest = refl
  thread_do_receive-plain (x ∷ xs) rest = socket_receive-plain (x ∷ xs) rest

  receive_sized-plain :
      (t : PacketType) (b rest : List ℕ)
      → length b ≤ max_packet_size
      → receive_sized read t (length b) (plain (b ++ rest))
        ≡ ok (record { packet_type = t; data_bytes = b }, plain rest)
  unfolding receive_sized
  receive_sized-plain t b rest h = rw (fits, thread_do_receive-plain b rest) refl
    where
      fits : ltb max_packet_size (length b) ≡ false
      fits = ground (arith, h)

  pub receive_data_step :
      (b s0 s1 s2 : ℕ) (t : PacketType) (s : Source Reader)
      → type_of_byte b ≡ some t
      → receive_data read (b ∷ s0 ∷ s1 ∷ s2 ∷ []) s
        ≡ receive_sized read t (s0 + s1 * 256 + s2 * 65536) s
  unfolding receive_data
  receive_data_step b s0 s1 s2 t s e = rw (receive_data, e) refl

  -- What was sent is received, and the bytes behind it are left.
  pub thread_do_receive_packet-wire :
      (p : Packet) (rest : List ℕ)
      → IsSendable p
      → thread_do_receive_packet read (plain (wire p ++ rest)) ≡ ok (p, plain rest)
  unfolding thread_do_receive_packet
  thread_do_receive_packet-wire p rest h =
      rw
        (thread_do_receive-plain (type_byte p.packet_type ∷ le_bytes 3 (length p.data_bytes))
          (p.data_bytes ++ rest))
        (receive_data_step _ _ _ _ p.packet_type (plain (p.data_bytes ++ rest))
            (type_of_byte-type_byte p.packet_type)
          ∙ (ap (λ n. receive_sized read p.packet_type n (plain (p.data_bytes ++ rest)))
                (length-le_three (length p.data_bytes) h)
              ∙ receive_sized-plain p.packet_type p.data_bytes rest h))

module _ {ℓ κ} {Message : Type ℓ} {Reader : Type κ} (byte_size : Message → ℕ)
    (serialize : Message → Option (List ℕ)) (parse : List ℕ → Option Message)
    (read : Reader → ℕ → Result (ReadChunk Reader)) where
  message_of_step :
      (t : PacketType) (m : Message) (b : List ℕ)
      → parse b ≡ some m
      → message_of parse t (record { packet_type = t; data_bytes = b }) ≡ ok m
  unfolding message_of
  message_of_step t m b e = rw (==_self (type_byte t), e) refl

  -- A message of the given type from the start of a stream, and the rest.
  abbrev pub receive_from : PacketType → List ℕ → Result (Message × List ℕ)
  receive_from t stream = thread_do_receive_packet read (plain stream) >>= λ x.
      message_of parse t x.0 >>= λ received. ok (received, x.1.unread)

  -- A message whose bytes protobuf can read back, with the size that protobuf announces and at most
  -- the maximal size of a packet, is received from a stream that begins with the packet that
  -- SendMessage queues, and the bytes behind it are left.
  pub receive_message_lem :
      (t : PacketType) (m : Message) (b rest : List ℕ)
      → serialize m ≡ some b
      → parse b ≡ some m
      → byte_size m ≡ length b
      → length b ≤ max_packet_size
      → (serialize_message byte_size serialize t m >>= λ sent. receive_from t (sent ++ rest))
        ≡ ok (m, rest)
  receive_message_lem t m b rest s e l h =
      rw
        (
          serialize_message_small byte_size serialize t m b s l h,
          thread_do_receive_packet-wire read (record { packet_type = t; data_bytes = b }) rest h,
          message_of_step t m b e,
        )
        refl

pub create_serialized_packet-cases :
    (t : PacketType) (n : ℕ)
    → (create_serialized_packet t n ≡ err internal)
      ⊎ ((create_serialized_packet t n ≡ ok (type_byte t ∷ le_bytes 3 n)) × (n ≤ max_packet_size))
unfolding create_serialized_packet
create_serialized_packet-cases t n = elim (Bool-cases (ltb max_packet_size n)) [
  | inl e ↦ inl (rw e refl)
  | inr e ↦ inr (rw e refl, ltb-false_le max_packet_size n e)
]
