-- ===== src/Transfer/Safety.antt =====
-- A transfer from its first packet on: what holds in every state of it, and at its end.
use p2pdown_loader.Prelude.{
  ℕ, ◌+◌, ◌-◌, ◌*◌, ◌≤◌, ◌<◌, ◌≡◌, refl, sym, subst, ap, ◌∙◌, List, [], ◌++◌, some, arith, length,
  length-replicate, pos, min, some_inj,
}
use p2pdown_loader.Packet.{buflen2}
use p2pdown_loader.Net.{Addr}
use p2pdown_loader.Framing.{empty_buf}
use p2pdown_loader.Window.{FloatOps, Window, pload_len, create_sw, p2p_sender}
use p2pdown_loader.Window.Invariant.{create_sw-IsValid}
use p2pdown_loader.Window.Fill.{IsFilled, p2p_sender-IsFilled}
use p2pdown_loader.Receiver.{create_recver, collect}
use p2pdown_loader.Receiver.Invariant.{create_recver-Holds}
use p2pdown_loader.Receiver.Reap.{collect-whole}
use p2pdown_loader.Transfer.{Link, fresh_link, Reach}
use p2pdown_loader.Transfer.Agreement.{IsReady, Agrees}
use p2pdown_loader.Transfer.Arriving.{npe-le-lpr}
use p2pdown_loader.Transfer.Runs.{Step-Agrees}

pub empty_buf-IsReady : IsReady empty_buf
empty_buf-IsReady = record { full = length-replicate {A = ℕ} buflen2 0; empty = refl }

module _ (fl : FloatOps) (sender : Addr) (chunk : List ℕ) where
  open fl use {Float}

  Reach-keeps :
      (lpr : ℕ) {l l' : Link Float}
      → Reach fl sender l l'
      → Agrees chunk lpr l
      → Agrees chunk lpr l'
  Reach-keeps lpr Reach.here a = a
  Reach-keeps lpr (Reach.next s st) a = Step-Agrees fl sender chunk lpr st (Reach-keeps lpr s a)

  fresh_link-Agrees :
      (hash : List ℕ) (w₀ w : Window Float)
      → IsFilled chunk w₀ w
      → w₀.lpa ≡ 0
      → length chunk ≤ 512 * pload_len
      → Agrees chunk w.lpr (fresh_link w (create_recver hash))
  unfolding create_recver
  fresh_link-Agrees hash w₀ w f start fits = record {
    valid = f.valid;
    lpr_is = refl;
    all_in = f.all_in;
    none_empty = f.none_empty;
    holds = create_recver-Holds chunk hash fits;
    ack_ready = empty_buf-IsReady;
    data_ready = empty_buf-IsReady;
    all_pieces = λ d m. elim m [ ];
    all_answers = λ d m. elim m [ ];
    confirmed = omega (arith, ap (λ u. u.lpa) f.same, start);
  }

  -- A chunk of 1 to 524288 bytes is put into a new window, and sent to a new receiver over a
  -- network that may lose, repeat and reorder datagrams. Whatever ACKs and data packets arrive, and
  -- whenever packets are sent and time out, the two peers agree: the window and the receiver hold
  -- packets of the chunk and nothing else; every data datagram that was ever sent is a packet of the
  -- chunk, and every ACK is of a number below the next packet that the receiver expects; and the
  -- sender takes a packet for received only if the receiver has it.
  pub Reach-Agrees :
      (spare hash : List ℕ) (dst : Addr) (flowid : ℕ) (w : Window Float) (l : Link Float)
      → 0 < length chunk
      → length chunk ≤ 512 * pload_len
      → p2p_sender (chunk ++ spare) (create_sw fl hash dst flowid) (length chunk)
        ≡ some (w, length chunk)
      → Reach fl sender (fresh_link w (create_recver hash)) l
      → Agrees chunk w.lpr l
  unfolding create_sw
  Reach-Agrees spare hash dst flowid w l some_data fits e run =
      let (u, f, filled) =
        p2p_sender-IsFilled chunk spare (create_sw fl hash dst flowid)
          (create_sw-IsValid fl chunk hash dst flowid) refl some_data fits in
      let u_is : u ≡ w = ap (λ t. t.0) (some_inj (sym f ∙ e)) in
      Reach-keeps w.lpr run (
        subst (λ v. Agrees chunk v.lpr (fresh_link v (create_recver hash))) u_is
          (fresh_link-Agrees hash (create_sw fl hash dst flowid) u filled refl fits))

  -- While two peers agree, and the last packet of the window is ACKed, the receiver has the whole
  -- chunk: its count is the length of the chunk, and the loop of `reap` puts exactly the chunk
  -- together.
  pub Agrees-collect :
      (lpr : ℕ) (l : Link Float)
      → Agrees chunk lpr l
      → l.window.lpa + 1 ≡ l.window.lpr
      → (l.recver.recv_bytesnum ≡ pos (length chunk))
        × (collect (l.recver.npe - 1) 1 l.recver.recv_buf [] ≡ some chunk)
  Agrees-collect lpr l a done =
      let all : length chunk ≤ (l.recver.npe - 1) * pload_len =
        omega (arith, npe-le-lpr chunk lpr l a, a.lpr_is, a.confirmed, a.all_in) in
      (
        a.holds.so_far.counted
            ∙ ap pos {x = min (length chunk) ((l.recver.npe - 1) * pload_len)} (omega arith),
        collect-whole chunk l.recver a.holds all,
      )
