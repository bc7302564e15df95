-- ===== src/MessagePump.antt =====
-- cdc_rsync/base/message_pump.cc: packets and their bytes. The queues and the two threads of
-- `MessagePump` are in the child modules. A message of protobuf is of the type `Message`.
pub mod Wire
pub mod Truncated
pub mod Outgoing
pub mod Incoming
pub mod Pump
use cdc_file_transfer.Prelude.{
  ℕ, zero, suc, ◌+◌, ◌*◌, ◌<◌, Bool, true, false, ◌&&◌, List, [], ◌∷◌, ◌++◌, Option, none, some,
  length, take, drop, get_elem?, ltb, leb, ◌==◌, if◌then◌else◌,
}
use cdc_file_transfer.Prelude.Status.{Result, ok, err, internal, ◌>>=◌}
use cdc_file_transfer.Prelude.Words.{le_bytes}

-- `kCount` is the number of the others.
pub data PacketType : Type 0 where
  raw_data : PacketType
  test : PacketType
  set_options : PacketType
  toggle_compression : PacketType
  add_files : PacketType
  send_file_stats : PacketType
  add_file_indices : PacketType
  send_missing_file_data : PacketType
  add_signatures : PacketType
  add_patch_commands : PacketType
  add_deleted_files : PacketType
  shutdown_server : PacketType

-- The value of the enumeration.
abbrev pub type_byte : PacketType → ℕ
type_byte raw_data = 0
type_byte test = 1
type_byte set_options = 2
type_byte toggle_compression = 3
type_byte add_files = 4
type_byte send_file_stats = 5
type_byte add_file_indices = 6
type_byte send_missing_file_data = 7
type_byte add_signatures = 8
type_byte add_patch_commands = 9
type_byte add_deleted_files = 10
type_byte shutdown_server = 11

-- The check against `kCount` and the cast in `ThreadDoReceivePacket`
abbrev pub type_of_byte : ℕ → Option PacketType
type_of_byte b =
    get_elem?
      (raw_data ∷ test ∷ set_options ∷ toggle_compression ∷ add_files ∷ send_file_stats
        ∷ add_file_indices ∷ send_missing_file_data ∷ add_signatures ∷ add_patch_commands
        ∷ add_deleted_files ∷ shutdown_server ∷ [])
      b

pub record Packet : Type 0 where
  pub packet_type : PacketType
  pub data_bytes : List ℕ

-- `kInOutBufferSize`, `kHeaderSize` and `kMaxPacketSize`
abbrev pub in_out_buffer_size : ℕ
in_out_buffer_size = 1024 * 1024 * 8

abbrev pub header_size : ℕ
header_size = 4

abbrev pub max_packet_size : ℕ
max_packet_size = 16777215

-- The header: the type, and three bytes of the size.
unfoldable pub create_serialized_packet : PacketType → ℕ → Result (List ℕ)
create_serialized_packet t size =
    if ltb max_packet_size size then err internal else ok (type_byte t ∷ le_bytes 3 size)

-- The packet that `SendRawData` queues.
pub serialize_raw_data : List ℕ → Result (List ℕ)
serialize_raw_data bytes =
    create_serialized_packet raw_data (length bytes) >>= λ header. ok (header ++ bytes)

-- The packet that `SendMessage` queues, with protobuf's size and bytes of a message.
pub serialize_message {ℓ} :
    {Message : Type ℓ}
    → (Message → ℕ)
    → (Message → Option (List ℕ))
    → PacketType
    → Message
    → Result (List ℕ)
serialize_message byte_size serialize t message =
    create_serialized_packet t (byte_size message) >>= λ header.
    if ltb 0 (byte_size message)
    then elim (serialize message) [ none ↦ err internal | some bytes ↦ ok (header ++ bytes) ]
    else ok header

-- What `input_reader_->Read` has read, and whether it hit the end; the reader that is left.
pub record ReadChunk {ℓ} (Reader : Type ℓ) : Type ℓ where
  pub bytes_read : List ℕ
  pub eof : Bool
  pub reader : Reader

-- Where the receiver's bytes come from: the redirected input, and all that the socket has yet to
-- deliver.
pub record Source {ℓ} (Reader : Type ℓ) : Type ℓ where
  pub input_reader : Option Reader
  pub unread : List ℕ

-- `Socket::Receive` without partial reads. The peer has closed the connection behind the last byte.
pub socket_receive {ℓ} : {Reader : Type ℓ} → ℕ → Source Reader → Result (List ℕ × Source Reader)
socket_receive size s =
    if leb size (length s.unread)
    then ok (take size s.unread, record s { unread = drop size s.unread })
    else err internal

-- `ThreadDoReceive` behind a read of the input reader
pub after_read {ℓ} :
    {Reader : Type ℓ} → ℕ → ReadChunk Reader → Source Reader → Result (List ℕ × Source Reader)
after_read size c s =
    let s' = record s { input_reader = if c.eof then none else some c.reader } in
    if c.eof && ltb 0 (length c.bytes_read) && ltb (length c.bytes_read) size
    then err internal
    else (if length c.bytes_read == size then ok (c.bytes_read, s') else socket_receive size s')

module _ {ℓ} {Reader : Type ℓ} (read : Reader → ℕ → Result (ReadChunk Reader)) where
  pub thread_do_receive : ℕ → Source Reader → Result (List ℕ × Source Reader)
  thread_do_receive zero s = ok ([], s)
  thread_do_receive (suc n) s = elim s.input_reader [
    | none ↦ socket_receive (suc n) s
    | some r ↦ read r (suc n) >>= λ c. after_read (suc n) c s
  ]

  -- Behind the type
  pub receive_sized : PacketType → ℕ → Source Reader → Result (Packet × Source Reader)
  receive_sized t size s =
      if ltb max_packet_size size
      then err internal
      else thread_do_receive size s >>= λ (bytes, s').
          ok (record { packet_type = t; data_bytes = bytes }, s')

  -- Behind the header. Bytes that are shifted apart are summed.
  pub receive_data : List ℕ → Source Reader → Result (Packet × Source Reader)
  receive_data (b ∷ s0 ∷ s1 ∷ s2 ∷ []) s = elim (type_of_byte b) [
    | none ↦ err internal
    | some t ↦ receive_sized t (s0 + s1 * 256 + s2 * 65536) s
  ]
  receive_data _ s = err internal

  pub thread_do_receive_packet : Source Reader → Result (Packet × Source Reader)
  thread_do_receive_packet s =
      thread_do_receive header_size s >>= λ (header, s'). receive_data header s'

-- `RedirectInput`: a second reader is refused.
pub redirect_input {ℓ} : {Reader : Type ℓ} → Reader → Source Reader → Source Reader
redirect_input r s = elim s.input_reader [ none ↦ record s { input_reader = some r } | some r' ↦ s ]

-- `packet_received_(packet.type)`; `redirect` is the reader that this callback passes to
-- `RedirectInput`.
pub packet_received {ℓ} :
    {Reader : Type ℓ} → (PacketType → Option Reader) → PacketType → Source Reader → Source Reader
packet_received redirect t s = elim (redirect t) [ none ↦ s | some r ↦ redirect_input r s ]

-- `ReceiveRawData` and `ReceiveMessage` behind `DequeuePacket`
pub raw_data_of : Packet → Result (List ℕ)
raw_data_of p = elim p.packet_type [ raw_data ↦ ok p.data_bytes | _ ↦ err internal ]

pub message_of {ℓ} :
    {Message : Type ℓ} → (List ℕ → Option Message) → PacketType → Packet → Result Message
message_of parse t p =
    if type_byte p.packet_type == type_byte t
    then elim (parse p.data_bytes) [ none ↦ err internal | some message ↦ ok message ]
    else err internal
