-- ===== src/Framing/Rounds.antt =====
-- How the loop of `process_inbound_udp` of peer.c ends.
use p2pdown_loader.Prelude.{
  ap, true, ℕ, zero, suc, ◌+◌, ◌≤◌, ◌<◌, ◌≡◌, refl, sym, ◌∙◌, List, [], ◌∷◌, ◌++◌, some, arith,
  length, length-append, slice, pos, pos_part, ltb_ℤ, ◌≤ℤ◌, ◌*◌, false, ◌-ℤ◌, ◌⊎◌, inl, inr,
  Bool-cases, Option-cases, ltb, ltb→lt, subst, take, drop, length-take, length-drop,
  take-append-drop, length-replicate, replicate, ◌-◌,
}
use p2pdown_loader.Packet.{Packet, ntohs, buflen2}
use p2pdown_loader.Framing.{
  Buf, Recv, shift_out, get_firststream, get_firstpack, unpack, Drained, drain, drained, rounds,
  process_inbound_udp, receive, hand_over,
}
use p2pdown_loader.Packet.Reading.{slice-within, ntohs-front, binary2packet-total}
use p2pdown_loader.Framing.Split.{
  shift_out-append, process_inbound_udp-drain, drain-stop, drain-next,
}
use p2pdown_loader.Framing.Faults.{
  get_firststream-inv, get_firstpack-none, get_firstpack-unpack, get_firstpack-short,
}

-- `unpack` leaves the buffer alone.
unpack-keeps :
    (stream : List ℕ) (b : Buf) {p : Packet} {r : Buf}
    → unpack (some stream, b) ≡ some (p, r)
    → b ≡ r
unfolding unpack
unpack-keeps stream b e = ground arith

-- Every round takes at least 15 bytes off the count.
get_firstpack-shrinks :
    (b : Buf) {p : Packet} {r : Buf}
    → ltb_ℤ b.buf_len (pos 16) ≡ false
    → get_firstpack b ≡ some (p, r)
    → pos_part r.buf_len + 15 ≤ pos_part b.buf_len
get_firstpack-shrinks b {p} {r} long e = elim (Bool-cases (ltb (ntohs b.bytes 6) 15)) [
  | inl bad ↦ absurd (cc (get_firstpack-short b long (ltb→lt _ _ bad)))
  | inr good ↦ elim (Option-cases (get_firststream b)) [
    | inl f ↦ absurd (cc (get_firstpack-none b f))
    | inr ((o, s), f) ↦
        let (copy, shape, read, left) = get_firststream-inv b long f in
        let out : unpack (some (copy ++ 0 ∷ []), s) ≡ some (p, r) =
          rw (← shape) (sym (get_firstpack-unpack b f) ∙ e) in
        let same : s ≡ r = unpack-keeps (copy ++ 0 ∷ []) s out in rw (← same, left) (ground arith)
  ]
]

-- The length field of the packet at the front is that of no packet that fits the buffer.
abbrev pub HasBadLen : Buf → Type 0
HasBadLen b = (pos 16 ≤ℤ b.buf_len) × ((ntohs b.bytes 6 < 16) ⊎ (buflen2 < ntohs b.bytes 6))

-- The buffers that the loop comes to.
pub data Comes : Buf → Buf → Type 0 where
  start : {b : Buf} → Comes b b
  next : {b : Buf} {p : Packet} {r s : Buf} → get_firstpack b ≡ some (p, r) → Comes r s → Comes b s

-- A run that ends with fewer than 16 bytes left, each packet having taken 15 bytes at least; or one
-- that comes to a bad length.
abbrev pub Ends : Buf → Drained → Type 0
Ends b d =
    ((ps : List Packet) × (rest : Buf) × (d ≡ drained ps rest)
      × (ltb_ℤ rest.buf_len (pos 16) ≡ true)
      × (length rest.bytes ≡ buflen2)
      × (15 * length ps + pos_part rest.buf_len ≤ pos_part b.buf_len))
    ⊎ ((bad : Buf) × Comes b bad × HasBadLen bad)

-- A length between those of a header and of the buffer is handled within bounds, and the buffer
-- keeps its size.
get_firstpack-good :
    (b : Buf)
    → length b.bytes ≡ buflen2
    → ltb_ℤ b.buf_len (pos 16) ≡ false
    → 16 ≤ ntohs b.bytes 6
    → ntohs b.bytes 6 ≤ buflen2
    → (p : Packet) × (r : Buf) × (get_firstpack b ≡ some (p, r)) × (length r.bytes ≡ buflen2)
unfolding get_firstpack get_firststream unpack
get_firstpack-good b full long above below =
    let n : ℕ = ntohs b.bytes 6 in
    let front : List ℕ = take n b.bytes in
    let tail : List ℕ = drop n b.bytes in
    let size : length front ≡ n = omega (arith, length-take n b.bytes) in
    let left : length tail ≡ buflen2 - n = omega (arith, length-drop n b.bytes) in
    let whole : front ++ tail ≡ b.bytes = take-append-drop n b.bytes in
    let copy : slice b.bytes 0 n ≡ some front = slice-within b.bytes 0 n (omega arith) in
    let shifted : shift_out n b.bytes ≡ some (tail ++ replicate n 0) =
      ap (shift_out n) (sym whole) ∙ shift_out-append n front tail size (omega arith) in
    let stream : List ℕ = front ++ 0 ∷ [] in
    let same : ntohs stream 6 ≡ n =
      ntohs-front front (0 ∷ []) 6 (omega (arith, size))
      ∙ sym (ntohs-front front tail 6 (omega (arith, size)))
      ∙ ap (λ s. ntohs s 6) whole in
    let (p, read) =
      binary2packet-total stream (omega (arith, same, size, length-append front (0 ∷ [])))
        (omega (arith, same)) in
    (
      p,
      record { bytes = tail ++ replicate n 0; buf_len = b.buf_len -ℤ pos n },
      rw (long, copy, shifted, read) refl,
      omega (arith, left, length-append tail (replicate n 0), length-replicate {A = ℕ} n 0),
    )

Ends-next :
    (fuel : ℕ) (b r : Buf) (p : Packet)
    → ltb_ℤ b.buf_len (pos 16) ≡ false
    → get_firstpack b ≡ some (p, r)
    → Ends r (drain fuel r)
    → Ends b (drain (suc fuel) b)
unfolding hand_over
Ends-next fuel b r p long e (inr (bad, c, h)) = inr (bad, Comes.next e c, h)
Ends-next fuel b r p long e (inl (ps, rest, run, short, size, few)) = inl (
  p ∷ ps,
  rest,
  drain-next fuel b long e ∙ ap (hand_over p) run,
  short,
  size,
  omega (arith, few, get_firstpack-shrinks b long e),
)

drain-Ends :
    (fuel : ℕ) (b : Buf)
    → length b.bytes ≡ buflen2
    → pos_part b.buf_len < 15 * fuel
    → Ends b (drain fuel b)
drain-Ends zero b full h = absurd (omega arith)
drain-Ends (suc fuel) b full h = elim (Bool-cases (ltb_ℤ b.buf_len (pos 16))) [
  | inl short ↦ inl ([], b, drain-stop fuel b short, short, full, omega arith)
  | inr long ↦ elim (Bool-cases (ltb (ntohs b.bytes 6) 16)) [
    | inl small ↦ inr (b, Comes.start, (ground arith, inl (ltb→lt _ _ small)))
    | inr above ↦ elim (Bool-cases (ltb buflen2 (ntohs b.bytes 6))) [
      | inl large ↦ inr (b, Comes.start, (ground arith, inr (ltb→lt _ _ large)))
      | inr below ↦
          let (p, r, e, size) =
            get_firstpack-good b full long (ground (arith, above)) (ground (arith, below)) in
          Ends-next fuel b r p long e
            (drain-Ends fuel r size (omega (arith, get_firstpack-shrinks b long e)))
    ]
  ]
]

-- With a buffer that does not count more bytes than its size, the loop of `process_inbound_udp`
-- does at most 100 rounds and leaves fewer than 16 bytes, unless it comes to a packet whose length
-- field is below 16 or above the size of the buffer; such a length is not checked, and the loop need
-- not end then.
pub process_inbound_udp-Ends :
    (recv : Recv) (b filled : Buf)
    → receive recv b ≡ some filled
    → length filled.bytes ≡ buflen2
    → pos_part filled.buf_len ≤ buflen2
    → Ends filled (process_inbound_udp recv b)
process_inbound_udp-Ends recv b filled e full fits =
    subst (Ends filled) (sym (process_inbound_udp-drain recv b e))
      (drain-Ends rounds filled full (omega arith))
