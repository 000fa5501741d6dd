-- ===== src/Transfer/Progress.antt =====
-- What can happen in every state of a transfer: no handler of sock_io.c faults, and a packet that
-- was sent can be confirmed.
use p2pdown_loader.Prelude.{
  ℕ, ◌+◌, ◌≤◌, ◌<◌, ◌≡◌, ◌≢◌, sym, ◌∙◌, inl, inr, List, [], ◌∷◌, ◌++◌, none, some, arith, length,
}
use p2pdown_loader.Packet.{Packet, buflen2, form_ack_pack}
use p2pdown_loader.Packet.Forms.{data_pack, form_ack_pack-IsWire}
use p2pdown_loader.Packet.RoundTrip.{received}
use p2pdown_loader.Net.{Addr, Datagram}
use p2pdown_loader.Framing.{Buf, got, process_inbound_udp, drained}
use p2pdown_loader.Window.{
  FloatOps, Window, window_sender, check_datapack_timeout, upon_receive_ack,
}
use p2pdown_loader.Window.Invariant.{piece}
use p2pdown_loader.Window.Send.{window_sender-IsSent}
use p2pdown_loader.Window.Ack.{upon_receive_ack-Moves}
use p2pdown_loader.Window.Timeout.{check_datapack_timeout-Moves}
use p2pdown_loader.Receiver.{RecvState, upon_receiving_datapack}
use p2pdown_loader.Receiver.Answers.{upon_receiving_datapack-After}
use p2pdown_loader.Transfer.{Among, Link}
use p2pdown_loader.Transfer.Agreement.{
  IsPiece, IsAnswer, Agrees, IsPart-below, piece-IsDataPack, packet-Arrives,
}
use p2pdown_loader.Transfer.Arriving.{Arrives-IsData, Arrives-ack, npe-le-lpr}

module _ (fl : FloatOps) (sender : Addr) (chunk : List ℕ) (lpr : ℕ) where
  open fl use {Float}

  -- A datagram that was sent comes out of the buffer as one packet, and the handler takes it.
  pub record TakesData (l : Link Float) (d : Datagram) (junk : List ℕ) : Type 0 where
    pub pack : Packet
    pub left : Buf
    pub recver : RecvState
    pub out : List Datagram
    pub arrives : process_inbound_udp (got d.bytes junk) l.data_buf ≡ drained (pack ∷ []) left
    pub handled : upon_receiving_datapack pack l.recver sender ≡ some (recver, out)

  pub record TakesAck (l : Link Float) (d : Datagram) (junk : List ℕ) : Type 0 where
    pub pack : Packet
    pub left : Buf
    pub window : Window Float
    pub arrives : process_inbound_udp (got d.bytes junk) l.ack_buf ≡ drained (pack ∷ []) left
    pub handled : upon_receive_ack fl pack l.window ≡ some window

  -- The handlers of both peers, with all that may come in.
  pub record Serves (l : Link Float) : Type 0 where
    pub sends : (clock : ℕ → ℕ) → window_sender clock l.window ≢ none
    pub ticks : (now : ℕ) → l.window.lpa + 1 < lpr → check_datapack_timeout fl now l.window ≢ none
    pub data_packets :
        (d : Datagram) (junk : List ℕ)
        → Among d l.sent
        → length (d.bytes ++ junk) ≤ buflen2
        → TakesData l d junk
    pub ack_packets :
        (d : Datagram) (junk : List ℕ)
        → Among d l.acks
        → length (d.bytes ++ junk) ≤ buflen2
        → TakesAck l d junk

  -- The packet that is piece `s.number`, as it comes in.
  pub arrived_piece :
      (l : Link Float) (d : Datagram) (junk : List ℕ)
      → Agrees chunk lpr l
      → (s : IsPiece chunk lpr d) → length (d.bytes ++ junk) ≤ buflen2
      → (b : Buf) × (process_inbound_udp (got d.bytes junk) l.data_buf
          ≡ drained (received (data_pack s.number (piece chunk s.number)) ∷ []) b)
  arrived_piece l d junk a s fits =
      let (above, below) = s.in_window in
      let made =
        piece-IsDataPack chunk s.number (IsPart-below chunk lpr s.number a.none_empty above below)
          (omega (arith, a.lpr_is, a.valid.is_buf.ready_fits)) in
      packet-Arrives d (data_pack s.number (piece chunk s.number)) (piece chunk s.number) junk
        made.is_wire s.bytes_are a.data_ready fits

  arrived_answer :
      (l : Link Float) (d : Datagram) (junk : List ℕ)
      → Agrees chunk lpr l
      → (s : IsAnswer l.recver.npe d) → length (d.bytes ++ junk) ≤ buflen2
      → (b : Buf) × (process_inbound_udp (got d.bytes junk) l.ack_buf
          ≡ drained (received (form_ack_pack s.number) ∷ []) b)
  arrived_answer l d junk a s fits =
      packet-Arrives d (form_ack_pack s.number) [] junk (form_ack_pack-IsWire s.number) s.bytes_are
        a.ack_ready fits

  -- While two peers agree, no handler faults: the window can be sent from; its clock can be looked
  -- at, as long as a packet is not ACKed; and every data datagram and every ACK that was ever sent,
  -- with what may be written behind it, is cut out as one packet, on which the handler returns.
  pub Agrees-Serves : (l : Link Float) → Agrees chunk lpr l → Serves l
  Agrees-Serves l a = record {
    sends = λ clock e.
        let (u, f, _, _) = window_sender-IsSent chunk clock l.window a.valid in
        absurd (ground (arith, sym e ∙ f));
    ticks = λ now below e.
        let (p, at, d) =
          a.valid.is_buf.stored (l.window.lpa + 1) (omega arith) (omega (arith, a.lpr_is)) in
        elim (check_datapack_timeout-Moves fl chunk now l.window p a.valid at) [
          | inl (f, _) ↦ absurd (ground (arith, sym e ∙ f))
          | inr (u, f, _, _) ↦ absurd (ground (arith, sym e ∙ f))
        ];
    data_packets = λ d junk m fits.
        let (b, v) = arrived_piece l d junk a (a.all_pieces d m) fits in
        let i =
          Arrives-IsData chunk lpr l d _ b a m (record { junk = junk; fits = fits; runs = v }) in
        let t =
          upon_receiving_datapack-After chunk sender _ l.recver a.holds i.part i.data_pack_is in
        record {
          pack = _;
          left = b;
          recver = t.result;
          out = t.out;
          arrives = v;
          handled = t.runs;
        };
    ack_packets = λ d junk m fits.
        let (b, v) = arrived_answer l d junk a (a.all_answers d m) fits in
        let (told, _) =
          Arrives-ack chunk lpr l d _ b a m (record { junk = junk; fits = fits; runs = v }) in
        let (w, f, _) =
          upon_receive_ack-Moves fl chunk (received (form_ack_pack (a.all_answers d m).number))
            l.window a.valid (omega (arith, npe-le-lpr chunk lpr l a, a.lpr_is)) in
        record { pack = _; left = b; window = w; arrives = v; handled = f };
  }
