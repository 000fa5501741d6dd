-- ===== src/Window/Timeout.antt =====
-- `check_datapack_timeout` of sock_io.c: when a packet is due, and what that does to the window.
use p2pdown_loader.Prelude.{
  ◌||◌, ℕ, ◌+◌, ◌≤◌, ◌<◌, ◌≡◌, ◌⊎◌, inl, inr, List, none, some, arith, load, Bool-cases, ltb, leb,
  ◌==◌, ltb→lt,
}
use p2pdown_loader.Packet.{Packet}
use p2pdown_loader.Window.{FloatOps, Window, check_datapack_timeout, timeout_sec}
use p2pdown_loader.Window.Invariant.{IsValid}
use p2pdown_loader.Window.Moves.{load-vacant, Moves, shrink-Moves}

module _ (fl : FloatOps) (chunk : List ℕ) where
  open fl use {Float}

  pub check_datapack_timeout-fault :
      (now : ℕ) (w : Window Float)
      → IsValid chunk w
      → w.lpr ≤ w.lpa + 1
      → check_datapack_timeout fl now w ≡ none
  unfolding check_datapack_timeout
  check_datapack_timeout-fault now w v h = rw (load-vacant fl chunk w (w.lpa + 1) v h)

  -- The oldest packet that is not ACKed, `p`, has waited too long: it was sent, more than two
  -- seconds ago, and it is not the first of the chunk.
  pub record IsDue (now : ℕ) (w : Window Float) (p : Packet) : Type 0 where
    pub stamped : 0 < p.timestamp
    pub was_sent : w.lpa < w.lps
    pub not_first : 0 < w.lpa
    pub overdue : p.timestamp + timeout_sec < now

  -- With a valid window that has a packet left to ACK, `check_datapack_timeout` returns: 0 and the
  -- window as it was, unless the oldest packet that is not ACKed is due; and then 1, with `LPS` back
  -- at `LPA`, so that all that was sent and not ACKed goes out again. The window stays valid.
  pub check_datapack_timeout-Moves :
      (now : ℕ) (w : Window Float) (p : Packet)
      → IsValid chunk w
      → load w.sender_buf (w.lpa + 1) ≡ some p
      → ((check_datapack_timeout fl now w ≡ some (w, 0)) × (¬ IsDue now w p))
        ⊎ ((w' : Window Float) × (check_datapack_timeout fl now w ≡ some (w', 1))
            × IsDue now w p
            × Moves fl chunk w w.lpa w.lpa w')
  unfolding check_datapack_timeout
  check_datapack_timeout-Moves now w p v at = elim (Bool-cases (leb p.timestamp 0)) [
    | inl unsent ↦ inl (rw (at, unsent), λ d. absurd (ground (arith, d.stamped)))
    | inr sent ↦ elim (Bool-cases (ltb w.lps (w.lpa + 1) || w.lpa + 1 == 1)) [
      | inl idle ↦ inl (rw (at, sent, idle), λ d. absurd (ground (arith, d.was_sent, d.not_first)))
      | inr busy ↦ elim (Bool-cases (ltb (p.timestamp + timeout_sec) now)) [
        | inr early ↦ inl (rw (at, sent, busy, early), λ d. absurd (ground (arith, d.overdue)))
        | inl late ↦
            let (w', e, m) = shrink-Moves fl chunk w v (ground arith) in
            inr (
              w',
              rw (at, sent, busy, late, e),
              record {
                stamped = ground arith;
                was_sent = ground arith;
                not_first = ground arith;
                overdue = ltb→lt _ _ late;
              },
              m,
            )
      ]
    ]
  ]
