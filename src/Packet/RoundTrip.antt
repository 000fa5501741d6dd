-- ===== src/Packet/RoundTrip.antt =====
-- `serial_pack` and `binary2packet` of packet.c are inverse to one another.
use p2pdown_loader.Prelude.{
  Bool-cases, ℕ, suc, length-append, ◌+◌, ◌-◌, ◌*◌, ◌/◌, ◌%◌, ◌≤◌, ◌<◌, ◌^◌, ◌≡◌, refl, ap, ◌∙◌,
  sym, List, [], ◌∷◌, ◌++◌, Option, none, some, arith, length, leb, if◌then◌else◌, true, false, inl,
  inr, put, put-start, slice, slice-start, slice-short, replicate, replicate-add, length-replicate,
  append-nil, append_assoc,
}
use p2pdown_loader.Packet.{
  ntohs, Packet, header_bytes, serial_pack, binary2packet, non_payload_len, read_payload, read_rest,
  read_header,
}

-- The payload of a packet as a pointer: null if there is nothing in it.
abbrev pub as_payload : List ℕ → Option (List ℕ)
as_payload [] = none
as_payload (b ∷ bs) = some (b ∷ bs)

slice-all : (body : List ℕ) (n : ℕ) → n ≡ length body → slice body 0 n ≡ some body
slice-all body n e = ap (λ s. slice s 0 n) (sym (append-nil body)) ∙ slice-start body [] n (sym e)

read_payload-as_payload :
    (body : List ℕ) (n : ℕ) → n ≡ length body → read_payload (as_payload body) n ≡ some body
unfolding read_payload
read_payload-as_payload [] n e = ground arith
read_payload-as_payload (b ∷ bs) n e = slice-all (b ∷ bs) n e

put-blank : (body : List ℕ) → put (replicate (length body + 1) 0) 0 body ≡ some (body ++ 0 ∷ [])
put-blank body =
    rw (replicate-add {A = ℕ} (length body) 1 0)
      (put-start (replicate (length body) 0) body (0 ∷ []) (length-replicate (length body) 0))

-- What lies between the header and the payload: the number of hashes and three bytes of padding.
abbrev pub tag_bytes : Packet → List ℕ
tag_bytes p = if leb p.packet_type 1 then p.chunkhash_num ∷ 0 ∷ 0 ∷ 0 ∷ [] else []

-- The image of a packet on the wire.
abbrev pub wire : Packet → List ℕ → List ℕ
wire p body = header_bytes p ++ (tag_bytes p ++ body)

-- The packet's fields fit their types, its length counts the bytes of its payload `body`, only
-- the types below 4 have one, and only the types below 2 count hashes.
pub record IsWire (p : Packet) (body : List ℕ) : Type 0 where
  pub magic_fits : p.magic_num < 2 ^ 16
  pub hd_fits : p.hd_len < 2 ^ 16
  pub len_fits : p.pack_len < 2 ^ 16
  pub seq_fits : p.seq_num < 2 ^ 32
  pub ack_fits : p.ack_num < 2 ^ 32
  pub payload_is : p.payload ≡ as_payload body
  pub len_is : p.pack_len ≡ non_payload_len p.packet_type + length body
  pub typed : 4 ≤ p.packet_type → body ≡ []
  pub untagged : 2 ≤ p.packet_type → p.chunkhash_num ≡ 0

serial_pack-tagged :
    (p : Packet) (body : List ℕ)
    → leb p.packet_type 1 ≡ true
    → p.pack_len ≡ 20 + length body
    → p.payload ≡ as_payload body
    → serial_pack p ≡ some (header_bytes p ++ (p.chunkhash_num ∷ 0 ∷ 0 ∷ 0 ∷ (body ++ 0 ∷ [])))
unfolding serial_pack header_bytes
serial_pack-tagged p body tagged e pay =
    let room : p.pack_len + 1
        ≡ suc (
            suc (
              suc (
                suc (
                  suc (
                    suc (
                      suc (
                        suc (
                          suc (
                            suc (
                              suc (
                                suc (
                                  suc (
                                    suc (
                                      suc (
                                        suc
                                          (suc (suc (suc (suc (length body + 1)))))))))))))))))))) =
      omega arith in
    let long : leb 20 p.pack_len ≡ true = ground arith in
    let rest : p.pack_len - 20 ≡ length body = omega arith in
    rw (tagged, room, long, rest, pay, read_payload-as_payload body _ refl, put-blank body)

serial_pack-plain :
    (p : Packet) (body : List ℕ)
    → leb p.packet_type 1 ≡ false
    → p.pack_len ≡ 16 + length body
    → p.payload ≡ as_payload body
    → serial_pack p ≡ some (header_bytes p ++ (body ++ 0 ∷ []))
unfolding serial_pack header_bytes
serial_pack-plain p body plain e pay =
    let room : p.pack_len + 1
        ≡ suc (
            suc (
              suc (
                suc (
                  suc (
                    suc (
                      suc (
                        suc
                          (suc (suc (suc (suc (suc (suc (suc (suc (length body + 1)))))))))))))))) =
      omega arith in
    let long : leb 16 p.pack_len ≡ true = ground arith in
    let rest : p.pack_len - 16 ≡ length body = omega arith in
    rw (plain, room, long, rest, pay, read_payload-as_payload body _ refl, put-blank body)

-- `serial_pack` writes the image, and one more zero.
pub serial_pack-IsWire :
    {p : Packet} {body : List ℕ} → IsWire p body → serial_pack p ≡ some (wire p body ++ 0 ∷ [])
unfolding header_bytes
serial_pack-IsWire {p} {body} w = elim (Bool-cases (leb p.packet_type 1)) [
  | inl tagged ↦ rw tagged (serial_pack-tagged p body tagged (ground arith) w.payload_is)
  | inr plain ↦ rw plain (serial_pack-plain p body plain (ground arith) w.payload_is)
]

-- Big-endian bytes give back the number.
ntohs-htons : (x : ℕ) → x < 2 ^ 16 → x / 256 % 256 * 256 + x % 256 ≡ x
ntohs-htons x h = omega arith

ntohl-htonl :
    (x : ℕ)
    → x < 2 ^ 32
    → x / 16777216 % 256 * 16777216 + x / 65536 % 256 * 65536 + x / 256 % 256 * 256 + x % 256 ≡ x
ntohl-htonl x h = omega arith

-- What arrives: the bookkeeping of the sender is not on the wire.
abbrev pub received : Packet → Packet
received p = record p { timestamp = 0; acked_num = 0 }

-- The header alone.
abbrev bare : Packet → Packet
bare p = record p { chunkhash_num = 0; payload = none; timestamp = 0; acked_num = 0 }

read_header-header_bytes :
    {p : Packet} {body : List ℕ} → IsWire p body → read_header (header_bytes p) ≡ bare p
unfolding read_header header_bytes
read_header-header_bytes {p} w = rw (
  ntohs-htons p.magic_num w.magic_fits,
  ntohs-htons p.hd_len w.hd_fits,
  ntohs-htons p.pack_len w.len_fits,
  ntohl-htonl p.seq_num w.seq_fits,
  ntohl-htonl p.ack_num w.ack_fits,
)

slice-header :
    (p : Packet) (rest : List ℕ) → slice (header_bytes p ++ rest) 0 16 ≡ some (header_bytes p)
unfolding header_bytes
slice-header p rest = refl

-- Past the header, the payload is what the length says.
slice-body :
    (p : Packet) (body rest : List ℕ)
    → slice (wire p body ++ rest) (non_payload_len p.packet_type) (length body) ≡ some body
unfolding header_bytes
slice-body p body rest = elim (Bool-cases (leb p.packet_type 1)) [
  | inl tagged ↦ rw tagged (slice-start body rest (length body) refl)
  | inr plain ↦ rw plain (slice-start body rest (length body) refl)
]

slice-count :
    (p : Packet) (body rest : List ℕ)
    → leb p.packet_type 1 ≡ true
    → slice (wire p body ++ rest) 16 1 ≡ some (p.chunkhash_num ∷ [])
unfolding header_bytes
slice-count p body rest tagged = rw tagged

read_rest-wire :
    {p : Packet} (body rest : List ℕ)
    → IsWire p body
    → read_rest (wire p body ++ rest) (bare p) ≡ some (received p)
unfolding read_rest
read_rest-wire {p} [] rest w = ground (arith, slice-count p [] rest)
read_rest-wire {p} (b ∷ bs) rest w =
    ground (arith, slice-count p (b ∷ bs) rest, slice-body p (b ∷ bs) rest)

-- `binary2packet` reads a packet off the front of its stream, whatever follows.
pub binary2packet-wire :
    {p : Packet} {body : List ℕ} (rest : List ℕ)
    → IsWire p body
    → binary2packet (wire p body ++ rest) ≡ some (received p)
unfolding binary2packet
binary2packet-wire {p} {body} rest w =
    let head : slice (wire p body ++ rest) 0 16 ≡ some (header_bytes p) =
      ap (λ s. slice s 0 16) (append_assoc (header_bytes p) _ rest) ∙ slice-header p _ in
    rw (head, read_header-header_bytes w) (read_rest-wire body rest w)

pub length-wire : {p : Packet} {body : List ℕ} → IsWire p body → length (wire p body) ≡ p.pack_len
unfolding header_bytes
length-wire {p} {body} w = elim (Bool-cases (leb p.packet_type 1)) [
  | inl tagged ↦ rw tagged (ground arith)
  | inr plain ↦ rw plain (ground arith)
]

-- A packet that fits its fields and counts its own length survives `serial_pack` and then
-- `binary2packet`: neither faults, the stream is `Pack_len` bytes and a zero, and every field comes
-- back but the sender's own timestamp and count of ACKs.
pub serial_pack-roundtrip :
    {p : Packet} {body : List ℕ}
    → IsWire p body
    → (stream : List ℕ) × (serial_pack p ≡ some stream)
      × (length stream ≡ p.pack_len + 1)
      × (binary2packet stream ≡ some (received p))
serial_pack-roundtrip {p} {body} w = (
  wire p body ++ 0 ∷ [],
  serial_pack-IsWire w,
  omega (arith, length-append (wire p body) (0 ∷ []), length-wire w),
  binary2packet-wire (0 ∷ []) w,
)

-- The length of a packet stands at its byte 6, where the receive buffer looks for it.
pub ntohs-wire :
    {p : Packet} {body : List ℕ} (tail : List ℕ)
    → IsWire p body
    → ntohs (wire p body ++ tail) 6 ≡ p.pack_len
unfolding header_bytes
ntohs-wire {p} tail w = ntohs-htons p.pack_len w.len_fits

pub header-le-pack_len : {p : Packet} {body : List ℕ} → IsWire p body → 16 ≤ p.pack_len
header-le-pack_len {p} w = ground arith

-- A stream shorter than a header is read past its end.
pub binary2packet-short : (stream : List ℕ) → length stream < 16 → binary2packet stream ≡ none
unfolding binary2packet
binary2packet-short stream h = rw (slice-short stream 0 16 h)

pub wire-received : (p : Packet) (body : List ℕ) → wire p body ≡ wire (received p) body
unfolding header_bytes
wire-received p body = refl
