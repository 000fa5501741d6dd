-- ===== src/Framing/Split.antt =====
-- The receive buffer of packet.c gives back the packets that were written one after another.
use Prim.Native.Nat.add
use p2pdown_loader.Prelude.{
  ℕ, zero, suc, ◌+◌, ◌-◌, ◌*◌, ◌≤◌, ◌<◌, ◌≡◌, refl, sym, ap, ◌∙◌, List, [], ◌∷◌, ◌++◌, some, arith,
  length, length-append, length-replicate, replicate, length-replicate, replicate-add, slice,
  slice-start, slice-append, put, put-append, append-nil, append_assoc, drop, length-drop, pos,
  ltb_ℤ, true, false, ◌-ℤ◌,
}
use p2pdown_loader.Packet.{Packet, buflen2}
use p2pdown_loader.Packet.RoundTrip.{
  IsWire, wire, received, binary2packet-wire, length-wire, ntohs-wire, header-le-pack_len,
}
use p2pdown_loader.Framing.{
  Buf, Recv, shift_out, get_firststream, get_firstpack, drain, drained, rounds, process_inbound_udp,
  got, receive, hand_over,
}

pub put-front :
    (xs ys : List ℕ) → length ys ≤ length xs → put xs 0 ys ≡ some (ys ++ drop (length ys) xs)
put-front xs [] h = refl
put-front [] (y ∷ ys) h = absurd (omega arith)
put-front (x ∷ xs) (y ∷ ys) h = rw (put-front xs ys (omega arith))

pub shift_out-append :
    (n : ℕ) (front tail : List ℕ)
    → length front ≡ n
    → n + length tail ≡ buflen2
    → shift_out n (front ++ tail) ≡ some (tail ++ replicate n 0)
unfolding shift_out
shift_out-append n front tail e full =
    let kept : slice (front ++ tail) n (buflen2 - n) ≡ some tail =
      ap (λ t. slice (front ++ t) n (buflen2 - n)) (sym (append-nil tail))
      ∙ slice-append front tail [] n (buflen2 - n) e (omega arith) in
    let moved : put (front ++ tail) 0 tail ≡ some (tail ++ drop (length tail) (front ++ tail)) =
      put-front (front ++ tail) tail (omega (arith, length-append front tail)) in
    let cleared : put (tail ++ (drop (length tail) (front ++ tail) ++ [])) (buflen2 - n)
          (replicate n 0)
        ≡ some (tail ++ (replicate n 0 ++ [])) =
      put-append tail (drop (length tail) (front ++ tail)) (replicate n 0) [] (buflen2 - n)
        (omega arith)
        (omega (
          arith,
          length-drop (length tail) (front ++ tail),
          length-append front tail,
          length-replicate {A = ℕ} n 0,
        )) in
    rw (kept, moved) (simp append-nil at cleared)

-- One packet is taken from the front, and what follows moves up.
get_firstpack-wire :
    {p : Packet} {body : List ℕ} (tail : List ℕ) (m : ℕ)
    → IsWire p body
    → p.pack_len + length tail ≡ buflen2
    → get_firstpack (record { bytes = wire p body ++ tail; buf_len = pos (p.pack_len + m) })
      ≡ some (received p, record { bytes = tail ++ replicate p.pack_len 0; buf_len = pos m })
unfolding get_firstpack get_firststream
get_firstpack-wire {p} {body} tail m w full =
    let long : ltb_ℤ (pos (p.pack_len + m)) (pos 16) ≡ false =
      ground (arith, header-le-pack_len w) in
    let left : pos (p.pack_len + m) -ℤ pos p.pack_len ≡ pos m = ground arith in
    rw
      (
        ntohs-wire tail w,
        long,
        slice-start (wire p body) tail p.pack_len (length-wire w),
        shift_out-append p.pack_len (wire p body) tail (length-wire w) full,
        binary2packet-wire (0 ∷ []) w,
      )
      (ap (λ n. some (received p, record { bytes = tail ++ replicate p.pack_len 0; buf_len = n }))
        left)

-- Packets with their payloads, their images one after another, and what is read of them.
abbrev pub images : List (Packet × List ℕ) → List ℕ
images [] = []
images ((p, body) ∷ fs) = wire p body ++ images fs

abbrev pub AllWire : List (Packet × List ℕ) → Type 0
AllWire [] = Unit {0}
AllWire ((p, body) ∷ fs) = IsWire p body × AllWire fs

abbrev pub all_received : List (Packet × List ℕ) → List Packet
all_received [] = []
all_received ((p, body) ∷ fs) = received p ∷ all_received fs

images-long : (fs : List (Packet × List ℕ)) → AllWire fs → 16 * length fs ≤ length (images fs)
images-long [] h = omega arith
images-long ((p, body) ∷ fs) (w, ws) = omega (
  arith,
  length-append (wire p body) (images fs),
  length-wire w,
  header-le-pack_len w,
  images-long fs ws,
)

pub drain-stop :
    (fuel : ℕ) (b : Buf) → ltb_ℤ b.buf_len (pos 16) ≡ true → drain (suc fuel) b ≡ drained [] b
unfolding drain
drain-stop fuel b short = rw (short, drain)

pub drain-next :
    (fuel : ℕ) (b : Buf) {p : Packet} {r : Buf}
    → ltb_ℤ b.buf_len (pos 16) ≡ false
    → get_firstpack b ≡ some (p, r)
    → drain (suc fuel) b ≡ hand_over p (drain fuel r)
unfolding drain
drain-next fuel b long e = rw (long, e, drain)

drain-images :
    (fuel : ℕ) (fs : List (Packet × List ℕ)) (tail : List ℕ) (m : ℕ)
    → AllWire fs
    → length fs < fuel
    → m < 16
    → length (images fs ++ tail) ≡ buflen2
    → drain fuel (record { bytes = images fs ++ tail; buf_len = pos (length (images fs) + m) })
      ≡ drained
          (all_received fs)
          (record { bytes = tail ++ replicate (length (images fs)) 0; buf_len = pos m })
unfolding hand_over
drain-images zero fs tail m ws enough few full = absurd (omega arith)
drain-images (suc fuel) [] tail m ws enough few full =
    let short : ltb_ℤ (pos (0 + m)) (pos 16) ≡ true = ground arith in
    drain-stop fuel (record { bytes = tail; buf_len = pos (0 + m) }) short
    ∙ rw (append-nil, add.zero)
drain-images (suc fuel) ((p, body) ∷ fs) tail m (w, ws) enough few full =
    let k : ℕ = length (images fs) in
    let size : length (wire p body ++ images fs) ≡ p.pack_len + k =
      omega (arith, length-append (wire p body) (images fs), length-wire w) in
    let long : ltb_ℤ (pos (p.pack_len + (k + m))) (pos 16) ≡ false =
      ground (arith, header-le-pack_len w) in
    let total : p.pack_len + k + m ≡ p.pack_len + (k + m) = omega arith in
    let joined : length (wire p body ++ (images fs ++ tail)) ≡ buflen2 =
      ap length (sym (append_assoc (wire p body) (images fs) tail)) ∙ full in
    let whole : p.pack_len + length (images fs ++ tail) ≡ buflen2 =
      omega (arith, length-append (wire p body) (images fs ++ tail), length-wire w) in
    let blank : List ℕ = replicate p.pack_len 0 in
    let rest : length (images fs ++ (tail ++ blank)) ≡ buflen2 = omega (
      arith,
      length-append (images fs) (tail ++ blank),
      length-append (images fs) tail,
      length-append tail blank,
      length-replicate {A = ℕ} p.pack_len 0,
    ) in
    rw (size, total, append_assoc (wire p body) (images fs) tail)
      (drain-next fuel _ long (get_firstpack-wire (images fs ++ tail) (k + m) w whole)
        ∙ rw (
          append_assoc (images fs) tail blank,
          drain-images fuel fs (tail ++ blank) m ws (omega arith) few rest,
          append_assoc tail blank (replicate k 0),
          ← replicate-add {A = ℕ} p.pack_len k 0,
        ))

receive-got :
    (bytes junk : List ℕ) (b : Buf)
    → length (bytes ++ junk) ≤ length b.bytes
    → b.buf_len ≡ pos 0
    → receive (got bytes junk) b
      ≡ some (record {
        bytes = bytes ++ (junk ++ drop (length (bytes ++ junk)) b.bytes);
        buf_len = pos (0 + length bytes);
      })
unfolding receive
receive-got bytes junk b fits empty =
    rw (empty, put-front b.bytes (bytes ++ junk) fits, append_assoc bytes junk, receive)

pub process_inbound_udp-drain :
    (recv : Recv) (b : Buf) {filled : Buf}
    → receive recv b ≡ some filled
    → process_inbound_udp recv b ≡ drain rounds filled
unfolding process_inbound_udp
process_inbound_udp-drain recv b e = rw (e, process_inbound_udp)

-- The buffer keeps its size.
pub process_inbound_udp-refill :
    (fs : List (Packet × List ℕ)) (junk : List ℕ) (b : Buf)
    → AllWire fs
    → length (images fs ++ junk) ≤ buflen2
    → length b.bytes ≡ buflen2
    → b.buf_len ≡ pos 0
    → (rest : List ℕ) × (length rest ≡ buflen2)
      × (process_inbound_udp (got (images fs) junk) b
          ≡ drained (all_received fs) (record { bytes = rest; buf_len = pos 0 }))
process_inbound_udp-refill fs junk b ws fits full empty =
    let behind : List ℕ = drop (length (images fs ++ junk)) b.bytes in
    let tail : List ℕ = junk ++ behind in
    let size : length (images fs ++ tail) ≡ buflen2 = omega (
      arith,
      length-append (images fs) tail,
      length-append (images fs) junk,
      length-append junk behind,
      length-drop (length (images fs ++ junk)) b.bytes,
    ) in
    let start : 0 + length (images fs) ≡ length (images fs) + 0 = omega arith in
    (
      tail ++ replicate (length (images fs)) 0,
      omega (
        arith,
        size,
        length-append (images fs) tail,
        length-append tail (replicate (length (images fs)) 0),
        length-replicate {A = ℕ} (length (images fs)) 0,
      ),
      process_inbound_udp-drain (got (images fs) junk) b
            (receive-got (images fs) junk b (omega arith) empty)
          ∙ rw start (
              drain-images rounds fs tail 0 ws
                (omega (arith, images-long fs ws, length-append (images fs) junk)) (omega arith)
                size),
    )

-- A datagram that holds whole packets, with the empty buffer that it is received into, is cut into
-- exactly these packets, in order, and leaves the buffer empty, whatever was written behind it.
pub process_inbound_udp-images :
    (fs : List (Packet × List ℕ)) (junk : List ℕ) (b : Buf)
    → AllWire fs
    → length (images fs ++ junk) ≤ buflen2
    → length b.bytes ≡ buflen2
    → b.buf_len ≡ pos 0
    → (rest : List ℕ) × (process_inbound_udp (got (images fs) junk) b
        ≡ drained (all_received fs) (record { bytes = rest; buf_len = pos 0 }))
process_inbound_udp-images fs junk b ws fits full empty =
    let (rest, size, e) = process_inbound_udp-refill fs junk b ws fits full empty in (rest, e)
