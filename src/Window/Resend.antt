-- ===== src/Window/Resend.antt =====
-- After a timeout, the loop of sock_io.c sends the packet again that timed out.
use p2pdown_loader.Prelude.{
  ℕ, ◌+◌, ◌-◌, ◌≡◌, refl, sym, ap, ◌∙◌, List, [], ◌∷◌, some, arith, min, subst, some_inj, load, pos,
  pos_part, sub_ℕ, leb, ltb, ◌==◌, ◌||◌, true, false,
}
use p2pdown_loader.Packet.{Packet}
use p2pdown_loader.Net.Sent.{data_datagram}
use p2pdown_loader.Window.{
  FloatOps, Window, set_count, shrink, check_datapack_timeout, window_sender,
}
use p2pdown_loader.Window.Invariant.{IsValid, piece, store-in_range}
use p2pdown_loader.Window.Send.{window_sender-IsSent}
use p2pdown_loader.Window.Moves.{after_shrink, shrink-Moves}
use p2pdown_loader.Window.Timeout.{IsDue}
use p2pdown_loader.Window.Pace.{IsExact}

module _ (fl : FloatOps) (exact : IsExact fl) (chunk : List ℕ) where
  open fl use {Float, of_int}

  -- What a timeout leaves, for a window with the packet `q` at `LPA`.
  shrink-after :
      (w : Window Float) (q : Packet)
      → IsValid chunk w
      → load w.sender_buf w.lpa ≡ some q
      → shrink fl w ≡ some (after_shrink fl chunk q w)
  unfolding shrink
  shrink-after w q v at =
      rw
        (
          at,
          store-in_range w.sender_buf w.lpa (some (record q { acked_num = 1 }))
              (omega (arith, v.acked_sent, v.sent_ready, v.is_buf.ready_fits, v.is_buf.buf_size)),
        )
        refl

  -- Its count is that of one packet.
  after_shrink-count :
      (w : Window Float) (q : Packet) → pos_part (after_shrink fl chunk q w).count ≡ 1
  unfolding set_count
  after_shrink-count w q =
      let none_sent : sub_ℕ w.lpa w.lpa ≡ pos 0 = ground arith in
      let one : pos_part (fl.to_int (of_int (pos 1))) ≡ 1 =
        ap pos_part (exact.of_int_exact 1 (omega arith)) in
      rw none_sent
        (omega (arith, exact.sub_exact (of_int (pos 1)) 0 (omega (arith, one)) (omega arith), one))

  -- When the oldest packet that is not ACKed is due, `check_datapack_timeout` returns 1, and the next
  -- call of `window_sender` sends this packet again, and no other. `LPA` stays.
  pub check_datapack_timeout-window_sender :
      (now : ℕ) (clock : ℕ → ℕ) (w : Window Float) (p : Packet)
      → IsValid chunk w
      → load w.sender_buf (w.lpa + 1) ≡ some p
      → IsDue fl chunk now w p
      → (w' u : Window Float) × (check_datapack_timeout fl now w ≡ some (w', 1))
        × (window_sender clock w'
            ≡ some (u, data_datagram w.dst (w.lpa + 1) (piece chunk (w.lpa + 1)) ∷ [], 1))
        × (u.lpa ≡ w.lpa)
  unfolding check_datapack_timeout set_count
  check_datapack_timeout-window_sender now clock w p v at due =
      let (q, below, d) =
        v.is_buf.stored w.lpa due.not_first (omega (arith, v.acked_sent, v.sent_ready)) in
      let w' : Window Float = after_shrink fl chunk q w in
      let run : shrink fl w ≡ some w' = shrink-after w q v below in
      let sent : leb p.timestamp 0 ≡ false = ground (arith, due.stamped) in
      let busy : (ltb w.lps (w.lpa + 1) || w.lpa + 1 == 1) ≡ false =
        ground (arith, due.was_sent, due.not_first) in
      let late : ltb (p.timestamp + 2) now ≡ true = ground (arith, due.overdue) in
      let (w'', e, moved) = shrink-Moves fl chunk w v due.not_first in
      let valid : IsValid chunk w' = subst (IsValid chunk) (some_inj (sym e ∙ run)) moved.valid in
      let (u, f, s, _) = window_sender-IsSent chunk clock w' valid in
      let one : min (pos_part w'.count) (w'.lpr - 1 - w'.lps) ≡ 1 =
        omega (arith, after_shrink-count w q, due.was_sent, v.sent_ready) in
      (w', u, rw (at, sent, busy, late, run) refl, rw one at f, ap (λ x. x.lpa) s.same)
