-- ===== src/Transfer/Liveness.antt =====
-- That a transfer of sock_io.c can go on: the oldest packet that is not ACKed can be confirmed.
use p2pdown_loader.Prelude.{
  ℕ, zero, suc, ◌+◌, ◌≤◌, ◌<◌, ◌≡◌, refl, sym, ap, ◌∙◌, inl, inr, List, [], ◌∷◌, ◌++◌, some, arith,
  length, Bool-cases, ltb, load, length-append,
}
use p2pdown_loader.Packet.{Packet, buflen2, form_ack_pack}
use p2pdown_loader.Packet.Forms.{data_pack, form_ack_pack-IsWire}
use p2pdown_loader.Packet.RoundTrip.{wire, received, length-wire}
use p2pdown_loader.Net.{Addr, Datagram}
use p2pdown_loader.Net.Sent.{data_datagram, ack_datagram}
use p2pdown_loader.Window.{FloatOps}
use p2pdown_loader.Window.Invariant.{piece}
use p2pdown_loader.Window.Fill.{length-piece}
use p2pdown_loader.Window.Ack.{upon_receive_ack-Moves}
use p2pdown_loader.Window.Timeout.{IsDue}
use p2pdown_loader.Window.Pace.{IsExact}
use p2pdown_loader.Window.Resend.{check_datapack_timeout-window_sender}
use p2pdown_loader.Receiver.{RecvState}
use p2pdown_loader.Receiver.Answers.{Answered, upon_receiving_datapack-After}
use p2pdown_loader.Transfer.{Among, first, later, Link, Arrives, Step, Reach}
use p2pdown_loader.Transfer.Agreement.{
  IsPiece, Agrees, IsPart-below, piece-IsDataPack, packet-Arrives,
}
use p2pdown_loader.Transfer.Progress.{arrived_piece}
use p2pdown_loader.Transfer.Arriving.{Arrives-IsData}
use p2pdown_loader.Transfer.Runs.{Step-Agrees}

-- The ACK of a packet that the receiver expects, or has, goes out.
Answered-confirms :
    {chunk : List ℕ} {to : Addr} {seq : ℕ} {r r' : RecvState} {out : List Datagram}
    → Answered chunk to seq r r' out
    → seq ≤ r.npe
    → seq ≤ 512
    → Among (ack_datagram to seq) out
Answered-confirms {r} (Answered.ignored far e) h k = elim (Bool-cases (ltb 512 (r.npe + 30))) [
  | inl top ↦ let far' = rw top at far in absurd (omega (arith, far'))
  | inr near ↦ let far' = rw near at far in absurd (omega (arith, far'))
]
Answered-confirms (Answered.in_order zero e f g) h k = absurd (omega arith)
Answered-confirms (Answered.in_order (suc n) e f g) h k = first
Answered-confirms (Answered.early m e) h k = absurd (omega arith)
Answered-confirms (Answered.late m e) h k = first

Among-right :
    {d : Datagram} (xs : List Datagram) {ys : List Datagram} → Among d ys → Among d (xs ++ ys)
Among-right [] m = m
Among-right (x ∷ xs) m = later (Among-right xs m)

module _ (fl : FloatOps) (sender : Addr) (chunk : List ℕ) (lpr : ℕ) where
  open fl use {Float}

  -- The ACK of the oldest packet that is not ACKed comes in.
  takes_oldest_ack :
      (l : Link Float)
      → Agrees chunk lpr l
      → Among (ack_datagram sender (l.window.lpa + 1)) l.acks
      → l.window.lpa + 1 < lpr
      → (l' : Link Float) × Step fl sender l l' × (l'.window.lpa ≡ l.window.lpa + 1)
  unfolding form_ack_pack
  takes_oldest_ack l a m below =
      let n : ℕ = l.window.lpa + 1 in
      let p : Packet = received (form_ack_pack n) in
      let number : p.ack_num ≡ n = omega (arith, a.lpr_is, a.valid.is_buf.ready_fits) in
      let fits : length (wire (form_ack_pack n) [] ++ []) ≤ buflen2 = omega (
        arith,
        length-append (wire (form_ack_pack n) []) [],
        length-wire (form_ack_pack-IsWire n),
      ) in
      let (b, v) =
        packet-Arrives (ack_datagram sender n) (form_ack_pack n) [] [] (form_ack_pack-IsWire n) refl
          a.ack_ready fits in
      let (w, f, moved) =
        upon_receive_ack-Moves fl chunk p l.window a.valid (omega (arith, number, a.lpr_is)) in
      (
        record l { ack_buf = b; window = w },
        Step.takes_ack (ack_datagram sender n) p b w m (record { junk = []; fits = fits; runs = v })
            f,
        omega (arith, moved.lpa_is, number),
      )

  -- While two peers agree, a packet that was sent can be confirmed, if it is the oldest that is not
  -- ACKed: there is a run, which takes the packet and then its ACK, after which `LPA` is its number.
  pub Agrees-confirms :
      (l : Link Float) (d : Datagram)
      → Agrees chunk lpr l
      → Among d l.sent
      → l.window.lpa + 1 < lpr
      → d.bytes
        ≡ wire
            (data_pack (l.window.lpa + 1) (piece chunk (l.window.lpa + 1)))
            (piece chunk (l.window.lpa + 1))
      → (l' : Link Float) × Reach fl sender l l' × (l'.window.lpa ≡ l.window.lpa + 1)
  Agrees-confirms l d a m below bytes_are =
      let n : ℕ = l.window.lpa + 1 in
      let s : IsPiece chunk lpr d = record {
        number = n;
        in_window = omega arith;
        bytes_are = bytes_are;
      } in
      let small : n ≤ 512 = omega (arith, a.lpr_is, a.valid.is_buf.ready_fits) in
      let made =
        piece-IsDataPack chunk n (IsPart-below chunk lpr n a.none_empty (omega arith) below)
          (omega arith) in
      let fits : length (d.bytes ++ []) ≤ buflen2 = omega (
        arith,
        length-append d.bytes [],
        ap length bytes_are,
        length-wire made.is_wire,
        length-piece chunk n,
      ) in
      let (b, v) = arrived_piece fl sender chunk lpr l d [] a s fits in
      let arrives : Arrives d l.data_buf b (received (data_pack n (piece chunk n))) = record {
        junk = [];
        fits = fits;
        runs = v;
      } in
      let i = Arrives-IsData chunk lpr l d (received (data_pack n (piece chunk n))) b a m arrives in
      let t =
        upon_receiving_datapack-After chunk sender (received (data_pack n (piece chunk n))) l.recver
          a.holds i.part i.data_pack_is in
      let taken : Step fl sender l
          (record l { data_buf = b; recver = t.result; acks = l.acks ++ t.out }) =
        Step.takes_data d (received (data_pack n (piece chunk n))) b t.result t.out m arrives
          t.runs in
      let answer =
        Among-right l.acks (Answered-confirms t.answered (omega (arith, a.confirmed)) small) in
      let (l', told, moved) =
        takes_oldest_ack (record l { data_buf = b; recver = t.result; acks = l.acks ++ t.out })
          (Step-Agrees fl sender chunk lpr taken a) answer below in
      (l', Reach.next (Reach.next Reach.here taken) told, moved)

  Reach-append :
      {l m n : Link Float} → Reach fl sender l m → Reach fl sender m n → Reach fl sender l n
  Reach-append r Reach.here = r
  Reach-append r (Reach.next s st) = Reach.next (Reach-append r s) st

  -- While two peers agree, and the oldest packet that is not ACKed is due, which the first packet of
  -- the chunk never is, the transfer can recover,
  -- even if everything that is under way is lost: there is a run, in which the clock is looked at,
  -- the packet is sent again, and it and its ACK arrive, after which `LPA` is its number.
  pub Agrees-recovers :
      (exact : IsExact fl) (now : ℕ) (l : Link Float) (p : Packet)
      → Agrees chunk lpr l
      → load l.window.sender_buf (l.window.lpa + 1) ≡ some p
      → IsDue fl chunk now l.window p
      → (l' : Link Float) × Reach fl sender l l' × (l'.window.lpa ≡ l.window.lpa + 1)
  Agrees-recovers exact now l p a at due =
      let n : ℕ = l.window.lpa + 1 in
      let d : Datagram = data_datagram l.window.dst n (piece chunk n) in
      let (w, u, e, f, kept) =
        check_datapack_timeout-window_sender fl exact chunk now (λ i. now + i) l.window p a.valid at
          due in
      let ticked : Step fl sender l (record l { window = w }) = Step.ticks now w 1 e in
      let sent : Step fl sender (record l { window = w })
          (record l { window = u; sent = l.sent ++ d ∷ [] }) =
        Step.sends (λ i. now + i) u (d ∷ []) 1 f in
      let b = Step-Agrees fl sender chunk lpr sent (Step-Agrees fl sender chunk lpr ticked a) in
      let next_is : n ≡ u.lpa + 1 = omega (arith, kept) in
      let (l', run, moved) =
        Agrees-confirms (record l { window = u; sent = l.sent ++ d ∷ [] }) d b
          (Among-right l.sent first)
          (omega (arith, kept, due.was_sent, a.valid.sent_ready, a.lpr_is))
          (ap (λ i. wire (data_pack i (piece chunk i)) (piece chunk i)) next_is) in
      (l', Reach-append (Reach.next (Reach.next Reach.here ticked) sent) run, moved ∙ sym next_is)
