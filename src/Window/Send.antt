-- ===== src/Window/Send.antt =====
-- `window_sender` of sock_io.c: which packets go out.
use p2pdown_loader.Prelude.{
  ltb, Bool-cases, ℕ, zero, suc, ◌+◌, ◌-◌, ◌<◌, ◌≡◌, refl, ap, subst, ◌∙◌, ◌⊎◌, inl, inr, List, [],
  ◌∷◌, ◌++◌, some, arith, set, load, ◌==◌, true, false, ◌>>=◌, append_assoc, append-nil, ℤ, pos,
  negsuc, pos_part, min, ◌≢◌,
}
use p2pdown_loader.Packet.{Packet}
use p2pdown_loader.Packet.Forms.{IsDataPack, IsDataPack-marked}
use p2pdown_loader.Net.{Addr, Datagram}
use p2pdown_loader.Net.Sent.{data_datagram, send_pack-data}
use p2pdown_loader.Window.{Window, send_loop, window_sender, clear_count}
use p2pdown_loader.Window.Slots.{SlotSent, SlotSent-next}
use p2pdown_loader.Window.Invariant.{IsValid, piece, IsBuf-set, store-in_range}

zero-cases : (c : ℤ) → (c ≡ pos 0) ⊎ (c ≢ pos 0)
zero-cases (pos zero) = inl refl
zero-cases (pos (suc n)) = inr (λ e. cc)
zero-cases (negsuc n) = inr (λ e. cc)

-- The datagrams of `n` packets from number `i` on.
abbrev pub packets_from : List ℕ → Addr → ℕ → ℕ → List Datagram
packets_from chunk to i zero = []
packets_from chunk to i (suc n) =
    data_datagram to i (piece chunk i) ∷ packets_from chunk to (i + 1) n

-- What `n` packets sent from `w` on leave.
pub record IsSent {F : Type 0} (chunk : List ℕ) (n : ℕ) (w w' : Window F) : Type 0 where
  pub valid : IsValid chunk w'
  pub moved : w'.lps ≡ w.lps + n
  pub slots : (i : ℕ) → SlotSent w.lps n i (load w.sender_buf i) (load w'.sender_buf i)
  pub same : w' ≡ record w { lps = w'.lps; sender_buf = w'.sender_buf; count = w'.count }

module _ {F : Type 0} (chunk : List ℕ) (clock : ℕ → ℕ) where
  abbrev mark_sent : ℕ → Packet → Window F → Window F
  mark_sent i p w = record w {
    lps = w.lps + 1;
    sender_buf = set w.sender_buf (w.lps + 1) (some (record p { timestamp = clock i }));
  }

  mark_sent-IsValid :
      (i : ℕ) (p : Packet) (w : Window F)
      → IsValid chunk w
      → w.lps + 1 < w.lpr
      → IsDataPack (w.lps + 1) (piece chunk (w.lps + 1)) p
      → IsValid chunk (mark_sent i p w)
  mark_sent-IsValid i p w v room d = record {
    is_buf =
        IsBuf-set chunk w.lpr w.sender_buf (w.lps + 1) _ (omega arith) room
          (IsDataPack-marked (clock i) p.acked_num d) v.is_buf;
    acked_sent = omega (arith, v.acked_sent);
    sent_ready = room;
  }

  -- One round of the loop.
  send_loop-step :
      (left i : ℕ) (w : Window F) (out : List Datagram) (p : Packet)
      → IsValid chunk w
      → w.lps + 1 < w.lpr
      → load w.sender_buf (w.lps + 1) ≡ some p
      → IsDataPack (w.lps + 1) (piece chunk (w.lps + 1)) p
      → send_loop clock (suc left) i w out
        ≡ send_loop clock left
            (i + 1)
            (mark_sent i p w)
            (out ++ data_datagram w.dst (w.lps + 1) (piece chunk (w.lps + 1)) ∷ [])
  unfolding send_loop
  send_loop-step left i w out p v room e d =
      let more : (w.lps + 1 == w.lpr) ≡ false = ground arith in
      rw (
        more,
        send_loop,
        e,
        send_pack-data w.dst d,
        store-in_range w.sender_buf (w.lps + 1) (some (record p { timestamp = clock i }))
            (omega (arith, v.is_buf.buf_size, v.is_buf.ready_fits)),
      )

  send_loop-full :
      (left i : ℕ) (w : Window F) (out : List Datagram)
      → w.lps + 1 ≡ w.lpr
      → send_loop clock left i w out ≡ some (w, out, i)
  unfolding send_loop
  send_loop-full zero i w out e = refl
  send_loop-full (suc left) i w out e =
      let full : (w.lps + 1 == w.lpr) ≡ true = ground arith in rw (full, send_loop)

  IsSent-none : (w : Window F) → IsValid chunk w → IsSent chunk 0 w w
  IsSent-none w v = record {
    valid = v;
    moved = omega arith;
    slots = λ i. elim (Bool-cases (ltb w.lps i)) [
      | inl above ↦ SlotSent.kept (inr (ground arith)) refl
      | inr below ↦ SlotSent.kept (inl (ground arith)) refl
    ];
    same = refl;
  }

  -- What the loop does in `n` rounds.
  abbrev SentLoop : ℕ → ℕ → ℕ → Window F → List Datagram → Type 0
  SentLoop n left i w out =
      (w' : Window F) × (send_loop clock left i w out
        ≡ some (w', out ++ packets_from chunk w.dst (w.lps + 1) n, i + n))
      × IsSent chunk n w w'

  SentLoop-stop :
      (left i : ℕ) (w : Window F) (out : List Datagram)
      → IsValid chunk w
      → send_loop clock left i w out ≡ some (w, out, i)
      → SentLoop 0 left i w out
  SentLoop-stop left i w out v e =
      let none_more : i ≡ i + 0 = omega arith in
      (w, e ∙ rw (append-nil, ← none_more), IsSent-none w v)

  SentLoop-next :
      (n left i : ℕ) (w : Window F) (out : List Datagram) (p : Packet)
      → IsValid chunk w
      → w.lps + 1 < w.lpr
      → load w.sender_buf (w.lps + 1) ≡ some p
      → IsDataPack (w.lps + 1) (piece chunk (w.lps + 1)) p
      → SentLoop n left
          (i + 1)
          (mark_sent i p w)
          (out ++ data_datagram w.dst (w.lps + 1) (piece chunk (w.lps + 1)) ∷ [])
      → SentLoop (suc n) (suc left) i w out
  SentLoop-next n left i w out p v room at d (w', f, s) =
      let one_more : i + 1 + n ≡ i + suc n = omega arith in
      (
        w',
        send_loop-step left i w out p v room at d
            ∙ f
            ∙ rw (
              append_assoc out (data_datagram w.dst (w.lps + 1) (piece chunk (w.lps + 1)) ∷ []),
              one_more,
            ),
        record {
          valid = s.valid;
          moved = omega (arith, s.moved);
          slots = λ j.
              SlotSent-next w.lps n j (clock i) w.sender_buf p (load w'.sender_buf j)
                (omega (arith, v.is_buf.buf_size, v.is_buf.ready_fits)) at (s.slots j);
          same = s.same;
        },
      )

  send_loop-SentLoop :
      (left n i : ℕ) (w : Window F) (out : List Datagram)
      → IsValid chunk w
      → n ≡ min left (w.lpr - 1 - w.lps)
      → SentLoop n left i w out
  send_loop-SentLoop zero zero i w out v e = SentLoop-stop 0 i w out v (unfold send_loop in refl)
  send_loop-SentLoop (suc left) zero i w out v e =
      SentLoop-stop (suc left) i w out v
        (send_loop-full (suc left) i w out (omega (arith, v.sent_ready)))
  send_loop-SentLoop zero (suc n) i w out v e = absurd (omega arith)
  send_loop-SentLoop (suc left) (suc n) i w out v e =
      let (p, at, d) = v.is_buf.stored (w.lps + 1) (omega arith) (omega arith) in
      SentLoop-next n left i w out p v (omega arith) at d (
        send_loop-SentLoop left n (i + 1) (mark_sent i p w) _
          (mark_sent-IsValid i p w v (omega arith) d) (omega arith))

  IsSent-counted :
      {n : ℕ} {w w' : Window F}
      → IsSent chunk n w w'
      → IsSent chunk n w (record w' { count = pos 0 })
  IsSent-counted s = record {
    valid = record {
      is_buf = s.valid.is_buf;
      acked_sent = s.valid.acked_sent;
      sent_ready = s.valid.sent_ready;
    };
    moved = s.moved;
    slots = s.slots;
    same = ap {A = Window F} {B = Window F} (λ u. record u { count = pos 0 }) s.same;
  }

  window_sender-zero : (w : Window F) → w.count ≡ pos 0 → window_sender clock w ≡ some (w, [], 0)
  unfolding window_sender
  window_sender-zero w e = simp (e, window_sender)

  window_sender-loop :
      (w : Window F) {done : Window F × List Datagram × ℕ}
      → w.count ≢ pos 0
      → send_loop clock (pos_part w.count) 0 w [] ≡ some done
      → window_sender clock w ≡ some (clear_count done)
  unfolding window_sender
  window_sender-loop w {done} ne e = by_count w.count refl
    where
      by_count : (c : ℤ) → w.count ≡ c → window_sender clock w ≡ some (clear_count done)
      by_count (pos zero) f = absurd (ne f)
      by_count (pos (suc n)) f =
          let e' : send_loop clock (pos_part (pos (suc n))) 0 w [] ≡ some done =
            subst (λ c. send_loop clock (pos_part c) 0 w [] ≡ some done) f e in
          simp (window_sender, f) (ap (λ o. o >>= λ d. some (clear_count d)) e')
      by_count (negsuc n) f =
          let e' : send_loop clock (pos_part (negsuc n)) 0 w [] ≡ some done =
            subst (λ c. send_loop clock (pos_part c) 0 w [] ≡ some done) f e in
          simp (window_sender, f) (ap (λ o. o >>= λ d. some (clear_count d)) e')

  abbrev pub SentAll : ℕ → Window F → Type 0
  SentAll n w =
      (w' : Window F) × (window_sender clock w
        ≡ some (w', packets_from chunk w.dst (w.lps + 1) n, n))
      × IsSent chunk n w w'
      × (w'.count ≡ pos 0)

  SentAll-loop :
      (n : ℕ) (w : Window F) → w.count ≢ pos 0 → SentLoop n (pos_part w.count) 0 w [] → SentAll n w
  unfolding clear_count
  SentAll-loop n w ne (w', f, s) =
      let from_zero : 0 + n ≡ n = omega arith in
      (
        record w' { count = pos 0 },
        window_sender-loop w ne (rw from_zero at f),
        IsSent-counted s,
        refl,
      )

  pub window_sender-IsSent :
      (w : Window F) → IsValid chunk w → SentAll (min (pos_part w.count) (w.lpr - 1 - w.lps)) w
  window_sender-IsSent w v = elim (zero-cases w.count) [
    | inl e ↦
        let none_sent : 0 ≡ min (pos_part w.count) (w.lpr - 1 - w.lps) = rw e (omega arith) in
        rw (← none_sent) (w, window_sender-zero w e, IsSent-none w v, e)
    | inr ne ↦ SentAll-loop _ w ne (send_loop-SentLoop (pos_part w.count) _ 0 w [] v refl)
  ]
