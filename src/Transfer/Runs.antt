-- ===== src/Transfer/Runs.antt =====
-- What a run of a transfer keeps: no handler of sock_io.c faults, and the sender takes a packet for
-- received only if the receiver has it.
use p2pdown_loader.Prelude.{
  ℕ, ◌+◌, ◌<◌, ◌≡◌, sym, subst, ap, ◌∙◌, inl, inr, List, ◌++◌, arith, some_inj, Bool-cases, ltb,
  ltb→lt,
}
use p2pdown_loader.Packet.{Packet}
use p2pdown_loader.Net.{Addr}
use p2pdown_loader.Framing.{Buf}
use p2pdown_loader.Window.{FloatOps, Window}
use p2pdown_loader.Window.Invariant.{IsValid}
use p2pdown_loader.Window.Send.{packets_from, IsSent, window_sender-IsSent}
use p2pdown_loader.Window.Ack.{upon_receive_ack-Moves}
use p2pdown_loader.Window.Timeout.{check_datapack_timeout-fault, check_datapack_timeout-Moves}
use p2pdown_loader.Receiver.Answers.{After, upon_receiving_datapack-After}
use p2pdown_loader.Transfer.{Link, Step}
use p2pdown_loader.Transfer.Agreement.{IsReady, Agrees, Among-append, packets_from-IsPiece}
use p2pdown_loader.Transfer.Arriving.{
  Answered-npe, Answered-IsAnswer, npe-le-lpr, Arrives-IsData, Arrives-ack,
}

module _ (fl : FloatOps) (sender : Addr) (chunk : List ℕ) (lpr : ℕ) where
  open fl use {Float}

  -- A window that moved on its own keeps the agreement.
  Agrees-window :
      (l : Link Float) (w : Window Float)
      → Agrees chunk lpr l
      → IsValid chunk w
      → w.lpr ≡ l.window.lpr
      → w.lpa < l.recver.npe
      → Agrees chunk lpr (record l { window = w })
  Agrees-window l w a v e h = record {
    valid = v;
    lpr_is = e ∙ a.lpr_is;
    all_in = a.all_in;
    none_empty = a.none_empty;
    holds = a.holds;
    ack_ready = a.ack_ready;
    data_ready = a.data_ready;
    all_pieces = a.all_pieces;
    all_answers = a.all_answers;
    confirmed = h;
  }

  Agrees-sends :
      (l : Link Float) (w : Window Float) (n : ℕ)
      → Agrees chunk lpr l
      → IsSent chunk n l.window w
      → l.window.lps + n < l.window.lpr
      → Agrees chunk lpr (record l {
        window = w;
        sent = l.sent ++ packets_from chunk l.window.dst (l.window.lps + 1) n;
      })
  Agrees-sends l w n a s room =
      let b =
        Agrees-window l w a s.valid (ap (λ u. u.lpr) s.same)
          (omega (arith, ap (λ u. u.lpa) s.same, a.confirmed)) in
      record {
        valid = b.valid;
        lpr_is = b.lpr_is;
        all_in = a.all_in;
        none_empty = a.none_empty;
        holds = a.holds;
        ack_ready = a.ack_ready;
        data_ready = a.data_ready;
        all_pieces = λ d m. elim (Among-append l.sent _ m) [
          | inl old ↦ a.all_pieces d old
          | inr new ↦
              packets_from-IsPiece chunk lpr l.window.dst (l.window.lps + 1) n (omega arith)
                (omega (arith, a.lpr_is)) d new
        ];
        all_answers = a.all_answers;
        confirmed = b.confirmed;
      }

  Agrees-takes_data :
      (l : Link Float) (p : Packet) (b : Buf)
      → Agrees chunk lpr l
      → IsReady b
      → (t : After chunk sender p l.recver)
      → Agrees chunk lpr (record l { data_buf = b; recver = t.result; acks = l.acks ++ t.out })
  Agrees-takes_data l p b a ready t =
      let up = Answered-npe t.answered in
      record {
        valid = a.valid;
        lpr_is = a.lpr_is;
        all_in = a.all_in;
        none_empty = a.none_empty;
        holds = t.holds;
        ack_ready = a.ack_ready;
        data_ready = ready;
        all_pieces = a.all_pieces;
        all_answers = λ d m. elim (Among-append l.acks t.out m) [
          | inl old ↦
              let k = a.all_answers d old in
              record {
                number = k.number;
                received_before = omega (arith, k.received_before);
                bytes_are = k.bytes_are;
              }
          | inr new ↦ Answered-IsAnswer (a.holds.so_far.in_range.0) t.answered d new
        ];
        confirmed = omega (arith, a.confirmed);
      }

  Agrees-takes_ack :
      (l : Link Float) (b : Buf) (w : Window Float)
      → Agrees chunk lpr (record l { window = w })
      → IsReady b
      → Agrees chunk lpr (record l { ack_buf = b; window = w })
  Agrees-takes_ack l b w a ready = record {
    valid = a.valid;
    lpr_is = a.lpr_is;
    all_in = a.all_in;
    none_empty = a.none_empty;
    holds = a.holds;
    ack_ready = ready;
    data_ready = a.data_ready;
    all_pieces = a.all_pieces;
    all_answers = a.all_answers;
    confirmed = a.confirmed;
  }

  pub Step-Agrees :
      {l l' : Link Float} → Step fl sender l l' → Agrees chunk lpr l → Agrees chunk lpr l'
  Step-Agrees {l} (Step.sends clock w out n e) a =
      let (u, f, s, _) = window_sender-IsSent chunk clock l.window a.valid in
      subst (λ t. Agrees chunk lpr (record l { window = t.0; sent = l.sent ++ t.1 }))
        (some_inj (sym f ∙ e)) (Agrees-sends l u _ a s (omega (arith, a.valid.sent_ready)))
  Step-Agrees {l} (Step.ticks now w k e) a =
      elim (Bool-cases (ltb (l.window.lpa + 1) l.window.lpr)) [
        | inr above ↦
            let fault = check_datapack_timeout-fault fl chunk now l.window a.valid (ground arith) in
            absurd (ground (arith, sym fault ∙ e))
        | inl below ↦
            let (p, at, d) =
              a.valid.is_buf.stored (l.window.lpa + 1) (omega arith) (ltb→lt _ _ below) in
            elim (check_datapack_timeout-Moves fl chunk now l.window p a.valid at) [
              | inl (f, _) ↦
                  subst (λ t. Agrees chunk lpr (record l { window = t.0 })) (some_inj (sym f ∙ e)) a
              | inr (u, f, _, m) ↦
                  subst (λ t. Agrees chunk lpr (record l { window = t.0 })) (some_inj (sym f ∙ e))
                    (Agrees-window l u a m.valid m.lpr_is (omega (arith, m.lpa_is, a.confirmed)))
            ]
      ]
  Step-Agrees {l} (Step.takes_data d p b r out m v e) a =
      let i = Arrives-IsData chunk lpr l d p b a m v in
      let t = upon_receiving_datapack-After chunk sender p l.recver a.holds i.part i.data_pack_is in
      subst (λ t. Agrees chunk lpr (record l { data_buf = b; recver = t.0; acks = l.acks ++ t.1 }))
        (some_inj (sym t.runs ∙ e)) (Agrees-takes_data l p b a i.ready t)
  Step-Agrees {l} (Step.takes_ack d p b w m v e) a =
      let (told, ready) = Arrives-ack chunk lpr l d p b a m v in
      let (u, f, moved) =
        upon_receive_ack-Moves fl chunk p l.window a.valid
          (omega (arith, npe-le-lpr chunk lpr l a, a.lpr_is)) in
      subst (λ u. Agrees chunk lpr (record l { ack_buf = b; window = u })) (some_inj (sym f ∙ e))
        (Agrees-takes_ack l b u
          (Agrees-window l u a moved.valid moved.lpr_is (omega (arith, moved.lpa_is, a.confirmed)))
          ready)
