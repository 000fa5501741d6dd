-- ===== src/Framing/Faults.antt =====
-- What the receive buffer of packet.c does with a length that it does not check.
use p2pdown_loader.Prelude.{
  ◌+ℤ◌, ap, true, ℕ, suc, ◌<◌, ◌≡◌, refl, ◌∙◌, List, [], ◌∷◌, ◌++◌, Option, none, some, arith,
  length, length-append, slice, slice-short, length-slice, pos, negsuc, ltb_ℤ, ◌≤ℤ◌, false, ◌-ℤ◌,
  ◌⊎◌, inl, inr, Option-cases, ◌>>=◌,
}
use p2pdown_loader.Packet.{binary2packet, ntohs, buflen2}
use p2pdown_loader.Framing.{
  Buf, shift_out, get_firststream, get_firstpack, unpack, drain, drained, fault,
  process_inbound_udp, got, failed, receive,
}
use p2pdown_loader.Packet.RoundTrip.{binary2packet-short}
use p2pdown_loader.Framing.Split.{process_inbound_udp-drain, drain-stop}

-- The stream of `get_firststream` is one longer than the length field says.
pub get_firststream-inv :
    (b : Buf) {o : Option (List ℕ)} {r : Buf}
    → ltb_ℤ b.buf_len (pos 16) ≡ false
    → get_firststream b ≡ some (o, r)
    → (copy : List ℕ) × (o ≡ some (copy ++ 0 ∷ []))
      × (slice b.bytes 0 (ntohs b.bytes 6) ≡ some copy)
      × (r.buf_len ≡ b.buf_len -ℤ pos (ntohs b.bytes 6))
unfolding get_firststream
get_firststream-inv b long e = elim (Option-cases (slice b.bytes 0 (ntohs b.bytes 6))) [
  | inl f ↦ absurd (ground arith)
  | inr (copy, f) ↦ elim (Option-cases (shift_out (ntohs b.bytes 6) b.bytes)) [
    | inl g ↦ absurd (ground arith)
    | inr (s, g) ↦ (copy, ground arith, f, ground arith)
  ]
]

get_firststream-long :
    (b : Buf)
    → ltb_ℤ b.buf_len (pos 16) ≡ false
    → slice b.bytes 0 (ntohs b.bytes 6) ≡ none
    → get_firststream b ≡ none
unfolding get_firststream
get_firststream-long b long e = rw (long, e)

pub get_firstpack-none : (b : Buf) → get_firststream b ≡ none → get_firstpack b ≡ none
unfolding get_firstpack
get_firstpack-none b e = rw (e, get_firstpack)

pub get_firstpack-unpack :
    (b : Buf) {o : Option (List ℕ)} {r : Buf}
    → get_firststream b ≡ some (o, r)
    → get_firstpack b ≡ unpack (o, r)
unfolding get_firstpack
get_firstpack-unpack b e = rw (e, get_firstpack)

unpack-stream :
    (stream : List ℕ) (b : Buf)
    → unpack (some stream, b) ≡ (binary2packet stream >>= λ p. some (p, b))
unfolding unpack
unpack-stream stream b = refl

pub get_firstpack-short :
    (b : Buf) → ltb_ℤ b.buf_len (pos 16) ≡ false → ntohs b.bytes 6 < 15 → get_firstpack b ≡ none
get_firstpack-short b long bad = elim (Option-cases (get_firststream b)) [
  | inl e ↦ get_firstpack-none b e
  | inr ((o, r), e) ↦
      let (copy, shape, read, left) = get_firststream-inv b long e in
      let short : length (copy ++ 0 ∷ []) < 16 =
        omega (arith, length-append copy (0 ∷ []), length-slice b.bytes (ntohs b.bytes 6) read) in
      get_firstpack-unpack b e
      ∙ rw (shape, unpack-stream, binary2packet-short (copy ++ 0 ∷ []) short)
]

-- A length below 15 gives `binary2packet` less than a header, and one above the size of the buffer
-- makes the copy run past it.
get_firstpack-bad_len :
    (b : Buf)
    → length b.bytes ≡ buflen2
    → ltb_ℤ b.buf_len (pos 16) ≡ false
    → (ntohs b.bytes 6 < 15) ⊎ (buflen2 < ntohs b.bytes 6)
    → get_firstpack b ≡ none
get_firstpack-bad_len b full long (inl bad) = get_firstpack-short b long bad
get_firstpack-bad_len b full long (inr bad) =
    get_firstpack-none b
      (get_firststream-long b long (slice-short b.bytes 0 (ntohs b.bytes 6) (omega arith)))

drain-fault :
    (fuel : ℕ) (b : Buf)
    → ltb_ℤ b.buf_len (pos 16) ≡ false
    → get_firstpack b ≡ none
    → drain (suc fuel) b ≡ fault
unfolding drain
drain-fault fuel b long e = rw (long, e, drain)

-- Whenever 16 bytes have come, a length field below 15 or above the size of the buffer makes
-- the receive loop read or write out of bounds.
pub drain-bad_len :
    (fuel : ℕ) (b : Buf)
    → length b.bytes ≡ buflen2
    → pos 16 ≤ℤ b.buf_len
    → (ntohs b.bytes 6 < 15) ⊎ (buflen2 < ntohs b.bytes 6)
    → drain (suc fuel) b ≡ fault
drain-bad_len fuel b full long bad =
    let test : ltb_ℤ b.buf_len (pos 16) ≡ false = ground arith in
    drain-fault fuel b test (get_firstpack-bad_len b full test bad)

receive-failed :
    (k : ℕ) (b : Buf)
    → b.buf_len ≡ pos 0
    → receive (failed k) b ≡ some (record b { buf_len = negsuc k })
unfolding receive
receive-failed k b e =
    let lowered : b.buf_len +ℤ negsuc k ≡ negsuc k = rw e (ground arith) in
    ap (λ n. some (record b { buf_len = n })) lowered

-- A failed receive on the empty buffer makes its count negative, and the next datagram is then
-- written before the start of the array.
pub process_inbound_udp-failed :
    (b : Buf) (k : ℕ) (bytes junk : List ℕ)
    → b.buf_len ≡ pos 0
    → (process_inbound_udp (failed k) b ≡ drained [] (record b { buf_len = negsuc k }))
      × (process_inbound_udp (got bytes junk) (record b { buf_len = negsuc k }) ≡ fault)
unfolding process_inbound_udp receive
process_inbound_udp-failed b k bytes junk e =
    let short : ltb_ℤ (negsuc k) (pos 16) ≡ true = ground arith in
    (
      process_inbound_udp-drain (failed k) b (receive-failed k b e)
          ∙ (drain-stop 100 (record b { buf_len = negsuc k }) short),
      refl,
    )
