-- ===== src/Packet.antt =====
-- packet.h and packet.c: the packet of the protocol, its image on the wire, and the functions
-- that make DATA and ACK packets. A block of memory is the list of its bytes; `none` is a fault.
pub mod RoundTrip
pub mod Reading
pub mod Forms
use p2pdown_loader.Prelude.{
  ℕ, ◌+◌, ◌-◌, ◌*◌, ◌/◌, ◌%◌, ◌^◌, List, [], ◌∷◌, ◌++◌, Option, none, some, Bool, ltb, leb, ◌&&◌,
  if◌then◌else◌, ◌>>=◌, ◌>>◌, guard, slice, put, replicate, get_or,
}

abbrev pub max_hashnum_per_pack : ℕ
max_hashnum_per_pack = 50

abbrev pub buflen2 : ℕ
buflen2 = 1500

abbrev pub header_len : ℕ
header_len = 16

-- The casts to `uint8_t`, `uint16_t` and `uint32_t`.
abbrev pub u8 : ℕ → ℕ
u8 n = n % 2 ^ 8

abbrev pub u16 : ℕ → ℕ
u16 n = n % 2 ^ 16

abbrev pub u32 : ℕ → ℕ
u32 n = n % 2 ^ 32

-- `payload` is null or the block that it points to, less the spare byte at its end.
pub record Packet : Type 0 where
  pub magic_num : ℕ
  pub version_num : ℕ
  pub packet_type : ℕ
  pub hd_len : ℕ
  pub pack_len : ℕ
  pub seq_num : ℕ
  pub ack_num : ℕ
  pub chunkhash_num : ℕ
  pub payload : Option (List ℕ)
  pub timestamp : ℕ
  pub acked_num : ℕ

-- What `bzero` leaves.
abbrev pub zero_packet : Packet
zero_packet = record {
  magic_num = 0;
  version_num = 0;
  packet_type = 0;
  hd_len = 0;
  pack_len = 0;
  seq_num = 0;
  ack_num = 0;
  chunkhash_num = 0;
  payload = none;
  timestamp = 0;
  acked_num = 0;
}

-- The bytes in memory of `htons (x)` and `htonl (x)`, and the numbers that `ntohs` and `ntohl`
-- read from such bytes at an offset.
abbrev pub htons : ℕ → List ℕ
htons x = x / 2 ^ 8 % 256 ∷ x % 256 ∷ []

abbrev pub htonl : ℕ → List ℕ
htonl x = x / 2 ^ 24 % 256 ∷ x / 2 ^ 16 % 256 ∷ x / 2 ^ 8 % 256 ∷ x % 256 ∷ []

abbrev pub byte_at : List ℕ → ℕ → ℕ
byte_at bytes i = get_or bytes i 0

abbrev pub ntohs : List ℕ → ℕ → ℕ
ntohs bytes i = byte_at bytes i * 2 ^ 8 + byte_at bytes (i + 1)

abbrev pub ntohl : List ℕ → ℕ → ℕ
ntohl bytes i =
    byte_at bytes i * 2 ^ 24
    + byte_at bytes (i + 1) * 2 ^ 16
    + byte_at bytes (i + 2) * 2 ^ 8
    + byte_at bytes (i + 3)

-- The first `HEADER_LEN` bytes of the struct, once its fields are in network order. The two
-- one-byte fields, which are taken to be below 256, and the order of the others leave no padding.
unfoldable pub header_bytes : Packet → List ℕ
header_bytes p =
    htons p.magic_num
    ++ (p.version_num ∷ p.packet_type ∷ []
        ++ (htons p.hd_len ++ (htons p.pack_len ++ (htonl p.seq_num ++ htonl p.ack_num))))

abbrev pub non_payload_len : ℕ → ℕ
non_payload_len packet_type = if leb packet_type 1 then 20 else header_len

-- The bytes that `memcpy` takes from the payload: none at all may be taken from a null pointer. The
-- spare byte that the source allocates behind a payload is left out, so that reading it is a fault.
unfoldable pub read_payload : Option (List ℕ) → ℕ → Option (List ℕ)
read_payload none n = if leb n 0 then some [] else none
read_payload (some bytes) n = slice bytes 0 n

-- `serial_pack`. The result is one byte longer than the packet. A packet shorter than what
-- precedes its payload makes the size of the last `memcpy` negative, which is a fault.
unfoldable pub serial_pack : Packet → Option (List ℕ)
serial_pack p = do
  let start = non_payload_len p.packet_type
  head ← put (replicate (p.pack_len + 1) 0) 0 (header_bytes p)
  stream ← if leb p.packet_type 1 then put head header_len (p.chunkhash_num ∷ []) else some head
  guard (leb start p.pack_len)
  body ← read_payload p.payload (p.pack_len - start)
  put stream start body

-- The header of `binary2packet`, read into a packet that `bzero` has cleared.
pub read_header : List ℕ → Packet
read_header bytes = record zero_packet {
  magic_num = ntohs bytes 0;
  version_num = byte_at bytes 2;
  packet_type = byte_at bytes 3;
  hd_len = ntohs bytes 4;
  pack_len = ntohs bytes 6;
  seq_num = ntohl bytes 8;
  ack_num = ntohl bytes 12;
}

-- The rest of `binary2packet`: the number of hashes, and the payload where there is one.
pub read_rest : List ℕ → Packet → Option Packet
read_rest stream p = do
  let start = non_payload_len p.packet_type
  count ← if leb p.packet_type 1 then slice stream header_len 1 else some (0 ∷ [])
  let q = record p { chunkhash_num = byte_at count 0 }
  if ltb p.packet_type 4 && ltb start p.pack_len
      then (do
        body ← slice stream start (p.pack_len - start)
        some (record q { payload = some body }))
      else some q

pub binary2packet : List ℕ → Option Packet
binary2packet stream = do header ← slice stream 0 header_len; read_rest stream (read_header header)

-- `form_DATA_pack`: the first `data_len` bytes of the buffer become the payload.
pub form_data_pack : List ℕ → ℕ → ℕ → Option Packet
form_data_pack bytes data_len seqno = do
  body ← slice bytes 0 data_len
  some (record zero_packet {
    packet_type = 3;
    hd_len = header_len;
    magic_num = 15441;
    version_num = 1;
    seq_num = u32 seqno;
    pack_len = u16 (header_len + data_len);
    payload = some body;
  })

unfoldable pub form_ack_pack : ℕ → Packet
form_ack_pack seqno = record zero_packet {
  packet_type = 4;
  hd_len = header_len;
  magic_num = 15441;
  version_num = 1;
  pack_len = header_len;
  ack_num = u32 seqno;
}
