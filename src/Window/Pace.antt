-- ===== src/Window/Pace.antt =====
-- The window of sock_io.c as a state machine, driven by the peer's loop, by ACKs and by the clock:
-- what it keeps, and how many packets it has under way.
use p2pdown_loader.Prelude.{
  ℕ, suc, ◌+◌, ◌-◌, ◌≤◌, ◌<◌, ◌^◌, ◌≡◌, refl, sym, ap, ◌∙◌, inl, inr, some_inj, ◌*◌, ◌++◌, List,
  some, arith, length, min, Bool-cases, ltb, pos, pos_part, sub_ℕ, ltb→lt, subst,
}
use p2pdown_loader.Packet.{Packet}
use p2pdown_loader.Net.{Addr, Datagram}
use p2pdown_loader.Window.{
  FloatOps, Window, create_sw, p2p_sender, window_sender, upon_receive_ack, check_datapack_timeout,
  pload_len,
}
use p2pdown_loader.Window.Invariant.{IsValid, create_sw-IsValid}
use p2pdown_loader.Window.Fill.{IsFilled, p2p_sender-IsFilled}
use p2pdown_loader.Window.Send.{IsSent, SentAll, window_sender-IsSent}
use p2pdown_loader.Window.Moves.{Moves, Recounts}
use p2pdown_loader.Window.Ack.{upon_receive_ack-Moves, upon_receive_ack-none_iff}
use p2pdown_loader.Window.Timeout.{check_datapack_timeout-fault, check_datapack_timeout-Moves}

-- What is used of `float`: below 2^24 an integer is converted and subtracted exactly, where the
-- result of the subtraction is not negative.
pub record IsExact (fl : FloatOps) : Type 0 where
  pub of_int_exact : (n : ℕ) → n < 2 ^ 24 → fl.to_int (fl.of_int (pos n)) ≡ pos n
  pub sub_exact :
      (x : fl.Float) (n : ℕ)
      → pos_part (fl.to_int x) < 2 ^ 24
      → n < 2 ^ 24
      → pos_part (fl.to_int (fl.sub x (fl.of_int (pos n)))) ≡ pos_part (fl.to_int x) - n

module _ (fl : FloatOps) (exact : IsExact fl) where
  open fl use {Float, to_int}

  -- The congestion window, as a number of packets.
  abbrev pub window_size : Window Float → ℕ
  window_size w = pos_part (to_int w.congwin_size)

  -- The count leaves room for what is under way, as long as the window size is an exact `float`.
  abbrev pub IsPaced : Window Float → Type 0
  IsPaced w = window_size w < 2 ^ 24 → pos_part w.count ≤ window_size w - (w.lps - w.lpa)

  Recounts-IsPaced :
      (chunk : List ℕ) (w w' : Window Float)
      → IsValid chunk w'
      → Recounts fl chunk w w'
      → IsPaced w
      → IsPaced w'
  Recounts-IsPaced chunk w w' v (inl e) paced = λ small.
      let under_way : sub_ℕ w'.lps w'.lpa ≡ pos (w'.lps - w'.lpa) = ground (arith, v.acked_sent) in
      let count_is = rw under_way at e in
      rw count_is (
        omega (
          arith,
          exact.sub_exact w'.congwin_size (w'.lps - w'.lpa) small
              (omega (arith, v.sent_ready, v.is_buf.ready_fits)),
        ))
  Recounts-IsPaced chunk w w' v (inr (c, s, a, l)) paced = rw (c, s, a, l) paced

  -- What the peer does with a window: its loop sends, an ACK comes in, and time passes.
  pub data Step : Window Float → Window Float → Type 0 where
    sends :
        (clock : ℕ → ℕ) (w w' : Window Float) (out : List Datagram) (n : ℕ)
        → window_sender clock w ≡ some (w', out, n)
        → Step w w'
    acks : (ack : Packet) (w w' : Window Float) → upon_receive_ack fl ack w ≡ some w' → Step w w'
    ticks :
        (now : ℕ) (w w' : Window Float) (timeouts : ℕ)
        → check_datapack_timeout fl now w ≡ some (w', timeouts)
        → Step w w'

  pub data Reach (w : Window Float) : Window Float → Type 0 where
    here : Reach w w
    next : {u v : Window Float} → Reach w u → Step u v → Reach w v

  -- What holds of every window in use.
  pub record IsRunning (chunk : List ℕ) (lpr : ℕ) (w : Window Float) : Type 0 where
    pub valid : IsValid chunk w
    pub paced : IsPaced w
    pub lpr_is : w.lpr ≡ lpr

  module _ (chunk : List ℕ) (lpr : ℕ) where
    IsSent-IsRunning :
        {n : ℕ} {w w' : Window Float}
        → IsRunning chunk lpr w
        → IsSent chunk n w w'
        → w'.count ≡ pos 0
        → IsRunning chunk lpr w'
    IsSent-IsRunning r s e = record {
      valid = s.valid;
      paced = λ _. rw e (omega arith);
      lpr_is = ap (λ u. u.lpr) s.same ∙ r.lpr_is;
    }

    Moves-IsRunning :
        {lpa lps : ℕ} {w w' : Window Float}
        → IsRunning chunk lpr w
        → Moves fl chunk w lpa lps w'
        → IsRunning chunk lpr w'
    Moves-IsRunning {w} {w'} r m = record {
      valid = m.valid;
      paced = Recounts-IsPaced chunk w w' m.valid m.recounts r.paced;
      lpr_is = m.lpr_is ∙ r.lpr_is;
    }

    Step-IsRunning :
        {w w' : Window Float} → Step w w' → IsRunning chunk lpr w → IsRunning chunk lpr w'
    Step-IsRunning (sends clock w w' out n e) r =
        let (u, f, s, c) = window_sender-IsSent chunk clock w r.valid in
        subst (IsRunning chunk lpr) (ap (λ t. t.0) (some_inj (sym f ∙ e))) (IsSent-IsRunning r s c)
    Step-IsRunning (acks ack w w' e) r = elim (Bool-cases (ltb ack.ack_num w.lpr)) [
      | inl below ↦
          let (u, f, m) = upon_receive_ack-Moves fl chunk ack w r.valid (ltb→lt _ _ below) in
          subst (IsRunning chunk lpr) (some_inj (sym f ∙ e)) (Moves-IsRunning r m)
      | inr above ↦
          let fault = (upon_receive_ack-none_iff fl chunk ack w r.valid).1 (ground arith) in cc
    ]
    Step-IsRunning (ticks now w w' k e) r = elim (Bool-cases (ltb (w.lpa + 1) w.lpr)) [
      | inl below ↦
          let (p, at, d) = r.valid.is_buf.stored (w.lpa + 1) (omega arith) (ltb→lt _ _ below) in
          elim (check_datapack_timeout-Moves fl chunk now w p r.valid at) [
            | inl (f, _) ↦ subst (IsRunning chunk lpr) (ap (λ t. t.0) (some_inj (sym f ∙ e))) r
            | inr (u, f, _, m) ↦
                subst (IsRunning chunk lpr) (ap (λ t. t.0) (some_inj (sym f ∙ e)))
                  (Moves-IsRunning r m)
          ]
      | inr above ↦
          let fault = check_datapack_timeout-fault fl chunk now w r.valid (ground arith) in cc
    ]

    -- Whatever ACKs arrive, and whenever the loop sends and looks at the clock, a window keeps its
    -- packets and the order of its marks, and its count stays within the congestion window.
    pub Reach-IsRunning :
        {w w' : Window Float} → Reach w w' → IsRunning chunk lpr w → IsRunning chunk lpr w'
    Reach-IsRunning here r = r
    Reach-IsRunning (next s st) r = Step-IsRunning st (Reach-IsRunning s r)

  -- A new window that has taken a chunk in runs.
  pub start-IsRunning :
      (chunk spare hash : List ℕ) (dst : Addr) (flowid : ℕ)
      → 0 < length chunk
      → length chunk ≤ 512 * pload_len
      → (w : Window Float) × (p2p_sender
            (chunk ++ spare)
            (create_sw fl hash dst flowid)
            (length chunk)
          ≡ some (w, length chunk))
        × IsRunning chunk w.lpr w
  unfolding create_sw
  start-IsRunning chunk spare hash dst flowid h fits =
      let fresh = create_sw-IsValid fl chunk hash dst flowid in
      started (p2p_sender-IsFilled chunk spare (create_sw fl hash dst flowid) fresh refl h fits)
    where
      started :
          (w : Window Float) × (p2p_sender
                (chunk ++ spare)
                (create_sw fl hash dst flowid)
                (length chunk)
              ≡ some (w, length chunk))
            × IsFilled chunk (create_sw fl hash dst flowid) w
          → (w : Window Float) × (p2p_sender
                (chunk ++ spare)
                (create_sw fl hash dst flowid)
                (length chunk)
              ≡ some (w, length chunk))
            × IsRunning chunk w.lpr w
      started (w, e, f) =
          let size : window_size w ≡ 1 =
            ap window_size f.same ∙ ap pos_part (exact.of_int_exact 1 (omega arith)) in
          let count : w.count ≡ pos 1 = ap (λ u. u.count) f.same in
          let none_sent : w.lps ≡ 0 = ap (λ u. u.lps) f.same in
          (
            w,
            e,
            record {
              valid = f.valid;
              paced = λ _. rw (count, size, none_sent) (omega arith);
              lpr_is = refl;
            },
          )

  -- Of a window in use, `window_sender` sends only what fits the congestion window: if it sends
  -- anything, no more packets are under way afterwards than the window size, cut to an integer.
  -- This is for sizes below 2^24, where a `float` holds every integer.
  pub window_sender-in_window :
      (chunk : List ℕ) (clock : ℕ → ℕ) (w₀ w w' : Window Float) (out : List Datagram) (n : ℕ)
      → IsRunning chunk w₀.lpr w₀
      → Reach w₀ w
      → window_size w < 2 ^ 24
      → window_sender clock w ≡ some (w', out, suc n)
      → w'.lps - w'.lpa ≤ window_size w'
  window_sender-in_window chunk clock w₀ w w' out n r s small e =
      let now = Reach-IsRunning chunk w₀.lpr s r in
      sent now (window_sender-IsSent chunk clock w now.valid)
    where
      sent :
          IsRunning chunk w₀.lpr w
          → SentAll chunk clock (min (pos_part w.count) (w.lpr - 1 - w.lps)) w
          → w'.lps - w'.lpa ≤ window_size w'
      sent now (u, f, t, c) =
          let same = some_inj (sym f ∙ e) in
          let more : min (pos_part w.count) (w.lpr - 1 - w.lps) ≡ suc n = ap (λ x. x.2) same in
          let u_is : u ≡ w' = ap (λ x. x.0) same in
          let lpa : u.lpa ≡ w.lpa = ap (λ x. x.lpa) t.same in
          let size : window_size u ≡ window_size w = ap window_size t.same in
          subst (λ x. x.lps - x.lpa ≤ window_size x) u_is
            (rw (lpa, size, t.moved) (omega (arith, now.paced small)))
