-- ===== src/Framing.antt =====
-- The receive buffer: `get_firststream` and `get_firstpack` of packet.c, and the part of
-- `process_inbound_udp` of peer.c that fills the buffer and cuts it into packets.
pub mod Split
pub mod Faults
pub mod Rounds
use p2pdown_loader.Prelude.{
  ℕ, zero, suc, ◌+◌, ◌-◌, List, [], ◌∷◌, ◌++◌, Option, none, some, Bool, leb, if◌then◌else◌, ◌>>=◌,
  ◌>>◌, true, false, guard, slice, put, replicate, length, ℤ, pos, negsuc, ◌+ℤ◌, ◌-ℤ◌, ltb_ℤ,
}
use p2pdown_loader.Packet.{Packet, zero_packet, buflen2, header_len, ntohs, binary2packet}

-- The struct `buf`: an array of `BUFLEN2` bytes, and how many of them are in use.
pub record Buf : Type 0 where
  pub bytes : List ℕ
  pub buf_len : ℤ

abbrev pub empty_buf : Buf
empty_buf = record { bytes = replicate buflen2 0; buf_len = pos 0 }

-- `memcpy (buffer->buf, buffer->buf + n, BUFLEN2 - n)`, taken to move the bytes although the two
-- ranges overlap, and the `memset` of what is left at the end.
pub shift_out : ℕ → List ℕ → Option (List ℕ)
shift_out n bytes = do
  rest ← slice bytes n (buflen2 - n)
  moved ← put bytes 0 rest
  put moved (buflen2 - n) (replicate n 0)

-- `get_firststream`: the first stream and a zero, in a block of `stream_len + 1` bytes, or null.
-- A length beyond the array makes the copies run past it.
pub get_firststream : Buf → Option (Option (List ℕ) × Buf)
get_firststream b =
    let stream_len = ntohs b.bytes 6 in
    if ltb_ℤ b.buf_len (pos header_len) then some (none, b) else do
      copy ← slice b.bytes 0 stream_len
      shifted ← shift_out stream_len b.bytes
      some
          (some (copy ++ 0 ∷ []), record { bytes = shifted; buf_len = b.buf_len -ℤ pos stream_len })

-- What `get_firstpack` does with the stream; `pack` has been cleared by the caller.
pub unpack : Option (List ℕ) × Buf → Option (Packet × Buf)
unpack (none, b) = some (zero_packet, b)
unpack (some stream, b) = do pack ← binary2packet stream; some (pack, b)

pub get_firstpack : Buf → Option (Packet × Buf)
unfolding unpack
get_firstpack b = get_firststream b >>= unpack

-- What `spiffy_recvfrom` did: it received some bytes, and may have written others behind them; or
-- its result is negative, `-1 - k`.
pub data Recv : Type 0 where
  got : List ℕ → List ℕ → Recv
  failed : ℕ → Recv

-- The call of `spiffy_recvfrom` and `buf_len += recv`. The bytes go to `buf + buf_len`, which lies
-- before the array if `buf_len` is negative.
unfoldable pub receive : Recv → Buf → Option Buf
receive (failed k) b = some (record b { buf_len = b.buf_len +ℤ negsuc k })
receive (got bytes junk) b = elim b.buf_len [
  | pos used ↦ do
    filled ← put b.bytes used (bytes ++ junk)
    some (record { bytes = filled; buf_len = pos (used + length bytes) })
  | negsuc k ↦ none
]

-- The loop `while (buf->buf_len >= 16)`: the packets that it hands to `dealwithincomepack`, in
-- order, and the buffer that it leaves; or a fault; or no end within the rounds allowed.
pub data Drained : Type 0 where
  drained : List Packet → Buf → Drained
  fault : Drained
  running : Drained

pub hand_over : Packet → Drained → Drained
hand_over p (drained ps b) = drained (p ∷ ps) b
hand_over p fault = fault
hand_over p running = running

pub drain : ℕ → Buf → Drained
unfolding hand_over
drain zero b = running
drain (suc rounds) b = elim (ltb_ℤ b.buf_len (pos 16)) [
  | true ↦ drained [] b
  | false ↦ elim (get_firstpack b) [
    | none ↦ fault
    | some (p, rest) ↦ hand_over p (drain rounds rest)
  ]
]

-- One call of `process_inbound_udp`. Every round takes at least 15 bytes from at most 1500.
abbrev pub rounds : ℕ
rounds = 101

pub process_inbound_udp : Recv → Buf → Drained
process_inbound_udp recv b = elim (receive recv b) [
  | none ↦ fault
  | some filled ↦ drain rounds filled
]
