-- ===== src/Packet/Reading.antt =====
-- When `binary2packet` of packet.c stays within its stream.
use p2pdown_loader.Prelude.{
  ℕ, zero, suc, ◌+◌, ◌-◌, ◌*◌, ◌^◌, ◌≤◌, ◌<◌, ◌≡◌, refl, sym, ap, ap₂, ◌∙◌, List, [], ◌∷◌, ◌++◌,
  some, arith, length, get_or, take, drop, slice, slice-take, append-nil, take-append-drop,
  length-take, leb, ltb, ◌&&◌, Bool-cases, inl, inr,
}
use p2pdown_loader.Packet.{Packet, ntohs, read_header, read_rest, binary2packet}

pub slice-within :
    (xs : List ℕ) (off n : ℕ) → off + n ≤ length xs → slice xs off n ≡ some (take n (drop off xs))
slice-within xs off n h = ap (λ ys. slice ys off n) (sym (append-nil xs)) ∙ slice-take xs [] off n h

get_or-front : (xs ys : List ℕ) (i : ℕ) → i < length xs → get_or (xs ++ ys) i 0 ≡ get_or xs i 0
get_or-front [] ys i h = absurd (omega arith)
get_or-front (x ∷ xs) ys zero h = refl
get_or-front (x ∷ xs) ys (suc i) h = get_or-front xs ys i (omega arith)

-- A number in the first part of some bytes is that of the part.
pub ntohs-front : (xs ys : List ℕ) (i : ℕ) → i + 1 < length xs → ntohs (xs ++ ys) i ≡ ntohs xs i
ntohs-front xs ys i h =
    ap₂ (λ a b. a * 2 ^ 8 + b) (get_or-front xs ys i (omega arith)) (get_or-front xs ys (i + 1) h)

read_rest-total :
    (stream : List ℕ) (p : Packet)
    → length stream ≡ p.pack_len + 1
    → 16 ≤ p.pack_len
    → (q : Packet) × (read_rest stream p ≡ some q)
unfolding read_rest
read_rest-total stream p size long = elim (Bool-cases (leb p.packet_type 1)) [
  | inl tagged ↦
      let count = slice-within stream 16 1 (omega arith) in
      elim (Bool-cases (ltb p.packet_type 4 && ltb 20 p.pack_len)) [
        | inl more ↦
            let behind : 20 < p.pack_len = ground (arith, more) in
            let body = slice-within stream 20 (p.pack_len - 20) (omega arith) in
            rw (tagged, count, more, body) (_, refl)
        | inr bare ↦ rw (tagged, count, bare) (_, refl)
      ]
  | inr plain ↦ elim (Bool-cases (ltb p.packet_type 4 && ltb 16 p.pack_len)) [
    | inl more ↦
        let behind : 16 < p.pack_len = ground (arith, more) in
        let body = slice-within stream 16 (p.pack_len - 16) (omega arith) in
        rw (plain, more, body) (_, refl)
    | inr bare ↦ rw (plain, bare) (_, refl)
  ]
]

-- A stream of one byte more than its length field says, with room for a header, is read within
-- bounds.
pub binary2packet-total :
    (stream : List ℕ)
    → length stream ≡ ntohs stream 6 + 1
    → 16 ≤ ntohs stream 6
    → (p : Packet) × (binary2packet stream ≡ some p)
unfolding binary2packet read_header
binary2packet-total stream size long =
    let head : List ℕ = take 16 stream in
    let cut : slice stream 0 16 ≡ some head = slice-within stream 0 16 (omega arith) in
    let same : ntohs head 6 ≡ ntohs stream 6 =
      sym (ntohs-front head (drop 16 stream) 6 (omega (arith, length-take 16 stream)))
      ∙ ap (λ s. ntohs s 6) (take-append-drop 16 stream) in
    let (p, e) =
      read_rest-total stream (read_header head) (omega (arith, same)) (omega (arith, same)) in
    (p, rw (cut) e)
