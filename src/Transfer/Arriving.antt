-- ===== src/Transfer/Arriving.antt =====
-- What a datagram brings to either end of a transfer, and how the ACKs answer it.
use p2pdown_loader.Prelude.{
  ℕ, ◌-◌, ◌≤◌, ◌<◌, sym, subst, ap, ◌∙◌, inl, inr, List, [], arith, Bool-cases, ltb,
}
use p2pdown_loader.Packet.{Packet, form_ack_pack}
use p2pdown_loader.Packet.Forms.{IsDataPack, data_pack, form_ack_pack-IsWire}
use p2pdown_loader.Net.{Addr, Datagram}
use p2pdown_loader.Framing.{Buf}
use p2pdown_loader.Window.Invariant.{piece}
use p2pdown_loader.Receiver.{RecvState}
use p2pdown_loader.Receiver.Invariant.{IsPart}
use p2pdown_loader.Receiver.Answers.{Answered}
use p2pdown_loader.Transfer.{Among, Link, Arrives}
use p2pdown_loader.Transfer.Agreement.{
  IsReady, IsAnswer, Agrees, acks_from-IsAnswer, IsPart-below, piece-IsDataPack, Arrives-packet,
}

-- The ACKs of a packet, and how the next packet expected moves.
pub Answered-npe :
    {chunk : List ℕ} {to : Addr} {seq : ℕ} {r r' : RecvState} {out : List Datagram}
    → Answered chunk to seq r r' out
    → r.npe ≤ r'.npe
Answered-npe (Answered.ignored far e) = omega (arith, ap (λ x. x.npe) e)
Answered-npe (Answered.in_order n e f g) = omega arith
Answered-npe (Answered.early h e) = omega arith
Answered-npe (Answered.late h e) = omega arith

pub Answered-IsAnswer :
    {chunk : List ℕ} {to : Addr} {seq : ℕ} {r r' : RecvState} {out : List Datagram}
    → 0 < r.npe
    → Answered chunk to seq r r' out
    → (d : Datagram) → Among d out
    → IsAnswer r'.npe d
Answered-IsAnswer h (Answered.ignored far e) d m = elim m [ ]
Answered-IsAnswer {to} {seq} h (Answered.in_order n e f g) d m =
    acks_from-IsAnswer _ to seq n (omega arith) d m
Answered-IsAnswer {to} h (Answered.early k e) d m = acks_from-IsAnswer _ to _ 1 (omega arith) d m
Answered-IsAnswer {to} {seq} h (Answered.late k e) d m =
    acks_from-IsAnswer _ to seq 1 (omega arith) d m

module _ {F : Type 0} (chunk : List ℕ) (lpr : ℕ) where
  -- The receiver has no more packets than the window.
  pub npe-le-lpr : (l : Link F) → Agrees chunk lpr l → l.recver.npe ≤ lpr
  npe-le-lpr l a = elim (Bool-cases (ltb 1 l.recver.npe)) [
    | inr one ↦ ground (arith, a.lpr_is, a.valid.is_buf.some_ready)
    | inl more ↦
        let last : ℕ = l.recver.npe - 1 in
        let (p, e) =
          a.holds.so_far.before last (ground arith) (omega (arith, a.holds.so_far.in_range.0)) in
        elim (a.holds.so_far.holds_buf.slots last) [
          | inl gone ↦ absurd (ground (arith, sym gone ∙ e))
          | inr (q, f, part, d) ↦ omega (arith, part.reached, a.all_in)
        ]
  ]

  -- The packet that a data datagram brings.
  pub record IsData (l : Link F) (p : Packet) (b : Buf) : Type 0 where
    pub part : IsPart chunk p.seq_num
    pub data_pack_is : IsDataPack p.seq_num (piece chunk p.seq_num) p
    pub ready : IsReady b

  pub Arrives-IsData :
      (l : Link F) (d : Datagram) (p : Packet) (b : Buf)
      → Agrees chunk lpr l
      → Among d l.sent
      → Arrives d l.data_buf b p
      → IsData l p b
  Arrives-IsData l d p b a m v =
      let s = a.all_pieces d m in
      let (above, below) = s.in_window in
      let part = IsPart-below chunk lpr s.number a.none_empty above below in
      let made =
        piece-IsDataPack chunk s.number part (omega (arith, a.lpr_is, a.valid.is_buf.ready_fits)) in
      let (p_is, ready) =
        Arrives-packet (data_pack s.number (piece chunk s.number)) (piece chunk s.number)
          made.is_wire s.bytes_are a.data_ready v in
      record {
        part = subst (λ q. IsPart chunk q.seq_num) (sym p_is) part;
        data_pack_is = subst (λ q. IsDataPack q.seq_num (piece chunk q.seq_num) q) (sym p_is) made;
        ready = ready;
      }

  -- The packet that an ACK datagram brings.
  pub Arrives-ack :
      (l : Link F) (d : Datagram) (p : Packet) (b : Buf)
      → Agrees chunk lpr l
      → Among d l.acks
      → Arrives d l.ack_buf b p
      → (p.ack_num < l.recver.npe) × IsReady b
  unfolding form_ack_pack
  Arrives-ack l d p b a m v =
      let s = a.all_answers d m in
      let (p_is, ready) =
        Arrives-packet (form_ack_pack s.number) [] (form_ack_pack-IsWire s.number) s.bytes_are
          a.ack_ready v in
      (omega (arith, ap (λ q. q.ack_num) p_is, s.received_before, a.holds.so_far.in_range.1), ready)
