-- ===== src/Transfer/Agreement.antt =====
-- What the window and the receiver of sock_io.c agree on while a chunk is transferred.
use p2pdown_loader.Prelude.{
  ℕ, zero, suc, ◌+◌, ◌-◌, ◌*◌, ◌≤◌, ◌<◌, ◌≡◌, refl, sym, subst, ap, ◌∙◌, ◌⊎◌, inl, inr, List, [],
  ◌∷◌, ◌++◌, arith, length, pos, append-nil,
}
use p2pdown_loader.Packet.{Packet, buflen2, form_ack_pack}
use p2pdown_loader.Packet.Forms.{IsDataPack, data_pack, data_pack-IsDataPack}
use p2pdown_loader.Packet.RoundTrip.{wire, received, IsWire}
use p2pdown_loader.Net.{Addr, Datagram}
use p2pdown_loader.Framing.{Buf, got, process_inbound_udp, drained}
use p2pdown_loader.Framing.Split.{process_inbound_udp-refill}
use p2pdown_loader.Window.{pload_len, sender_buf_size}
use p2pdown_loader.Window.Invariant.{IsValid, piece}
use p2pdown_loader.Window.Fill.{length-piece}
use p2pdown_loader.Window.Send.{packets_from}
use p2pdown_loader.Receiver.Invariant.{IsPart, Holds, acks_from}
use p2pdown_loader.Transfer.{Among, first, later, Link, Arrives}

-- A buffer that is ready for the next datagram.
pub record IsReady (b : Buf) : Type 0 where
  pub full : length b.bytes ≡ buflen2
  pub empty : b.buf_len ≡ pos 0

-- A datagram that carries a packet of the chunk, and one that confirms a packet before `npe`.
pub record IsPiece (chunk : List ℕ) (lpr : ℕ) (d : Datagram) : Type 0 where
  pub number : ℕ
  pub in_window : (0 < number) × (number < lpr)
  pub bytes_are : d.bytes ≡ wire (data_pack number (piece chunk number)) (piece chunk number)

pub record IsAnswer (npe : ℕ) (d : Datagram) : Type 0 where
  pub number : ℕ
  pub received_before : number < npe
  pub bytes_are : d.bytes ≡ wire (form_ack_pack number) []

-- What the two peers and the network agree on, with a window that was filled up to `lpr`.
pub record Agrees {F : Type 0} (chunk : List ℕ) (lpr : ℕ) (l : Link F) : Type 0 where
  pub valid : IsValid chunk l.window
  pub lpr_is : l.window.lpr ≡ lpr
  pub all_in : length chunk ≤ (lpr - 1) * pload_len
  pub none_empty : (lpr - 1) * pload_len < length chunk + pload_len
  pub holds : Holds chunk l.recver
  pub ack_ready : IsReady l.ack_buf
  pub data_ready : IsReady l.data_buf
  pub all_pieces : (d : Datagram) → Among d l.sent → IsPiece chunk lpr d
  pub all_answers : (d : Datagram) → Among d l.acks → IsAnswer l.recver.npe d
  pub confirmed : l.window.lpa < l.recver.npe

pub Among-append :
    {d : Datagram} (xs ys : List Datagram) → Among d (xs ++ ys) → Among d xs ⊎ Among d ys
Among-append [] ys a = inr a
Among-append (x ∷ xs) ys first = inl first
Among-append (x ∷ xs) ys (later a) = elim (Among-append xs ys a) [
  | inl b ↦ inl (later b)
  | inr b ↦ inr b
]

pub packets_from-IsPiece :
    (chunk : List ℕ) (lpr : ℕ) (to : Addr) (i n : ℕ)
    → 0 < i
    → i + n ≤ lpr
    → (d : Datagram) → Among d (packets_from chunk to i n)
    → IsPiece chunk lpr d
packets_from-IsPiece chunk lpr to i zero h k d a = elim a [ ]
packets_from-IsPiece chunk lpr to i (suc n) h k d first = record {
  number = i;
  in_window = omega arith;
  bytes_are = refl;
}
packets_from-IsPiece chunk lpr to i (suc n) h k d (later a) =
    packets_from-IsPiece chunk lpr to (i + 1) n (omega arith) (omega arith) d a

pub acks_from-IsAnswer :
    (npe : ℕ) (to : Addr) (i n : ℕ)
    → i + n ≤ npe
    → (d : Datagram) → Among d (acks_from to i n)
    → IsAnswer npe d
acks_from-IsAnswer npe to i zero k d a = elim a [ ]
acks_from-IsAnswer npe to i (suc n) k d first = record {
  number = i;
  received_before = omega arith;
  bytes_are = refl;
}
acks_from-IsAnswer npe to i (suc n) k d (later a) =
    acks_from-IsAnswer npe to (i + 1) n (omega arith) d a

-- A packet that the window has is a part of the chunk.
pub IsPart-below :
    (chunk : List ℕ) (lpr i : ℕ)
    → (lpr - 1) * pload_len < length chunk + pload_len
    → 0 < i
    → i < lpr
    → IsPart chunk i
IsPart-below chunk lpr i h above below = record { from_one = above; reached = omega arith }

pub piece-IsDataPack :
    (chunk : List ℕ) (i : ℕ)
    → IsPart chunk i
    → i < sender_buf_size
    → IsDataPack i (piece chunk i) (data_pack i (piece chunk i))
piece-IsDataPack chunk i part small =
    data_pack-IsDataPack i (piece chunk i) (omega (arith, length-piece chunk i, part.reached))
      (omega (arith, length-piece chunk i)) (omega arith)

-- A datagram of one packet arrives as that packet, and the buffer is ready again.
pub Arrives-packet :
    {d : Datagram} {b b' : Buf} {p : Packet} (q : Packet) (body : List ℕ)
    → IsWire q body
    → d.bytes ≡ wire q body
    → IsReady b
    → Arrives d b b' p
    → (p ≡ received q) × IsReady b'
Arrives-packet {d} {b} {b'} {p} q body w e r a =
    let image : d.bytes ≡ wire q body ++ [] = e ∙ sym (append-nil (wire q body)) in
    let (rest, size, run) =
      process_inbound_udp-refill ((q, body) ∷ []) a.junk b (w, tt)
        (subst (λ z. length (z ++ a.junk) ≤ buflen2) image a.fits) r.full r.empty in
    let same : drained (p ∷ []) b'
        ≡ drained (received q ∷ []) (record { bytes = rest; buf_len = pos 0 }) =
      sym a.runs ∙ ap (λ z. process_inbound_udp (got z a.junk) b) image ∙ run in
    let b_is : b' ≡ record { bytes = rest; buf_len = pos 0 } = cc in
    (cc, record { full = ap (λ z. length z.bytes) b_is ∙ size; empty = ap (λ z. z.buf_len) b_is })

-- Such a datagram can arrive at any time.
pub packet-Arrives :
    (d : Datagram) {b : Buf} (q : Packet) (body junk : List ℕ)
    → IsWire q body
    → d.bytes ≡ wire q body
    → IsReady b
    → length (d.bytes ++ junk) ≤ buflen2
    → (b' : Buf) × (process_inbound_udp (got d.bytes junk) b ≡ drained (received q ∷ []) b')
packet-Arrives d {b} q body junk w e r fits =
    let image : d.bytes ≡ wire q body ++ [] = e ∙ sym (append-nil (wire q body)) in
    let (rest, size, run) =
      process_inbound_udp-refill ((q, body) ∷ []) junk b (w, tt)
        (subst (λ z. length (z ++ junk) ≤ buflen2) image fits) r.full r.empty in
    (
      record { bytes = rest; buf_len = pos 0 },
      ap (λ z. process_inbound_udp (got z junk) b) image ∙ run,
    )
