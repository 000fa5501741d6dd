-- ===== src/Window/Moves.antt =====
-- What a step of the window of sock_io.c may do to its marks and its packets.
use p2pdown_loader.Prelude.{
  ℕ, ◌≤◌, ◌<◌, ◌≡◌, refl, ◌⊎◌, inl, inr, List, none, some, arith, length, set, load, Bool-cases,
  ltb, pos, sub_ℕ, if◌then◌else◌,
}
use p2pdown_loader.Packet.{Packet}
use p2pdown_loader.Packet.Forms.{IsDataPack-marked}
use p2pdown_loader.Window.{
  FloatOps, Window, set_count, shrink, half_window, ack_ahead, ack_new, ack_again,
}
use p2pdown_loader.Window.Invariant.{IsValid, IsBuf-set, store-in_range}

module _ (fl : FloatOps) (chunk : List ℕ) where
  open fl use {Float}

  -- A packet that cannot be found in the buffer is a fault.
  pub load-vacant :
      (w : Window Float) (i : ℕ) → IsValid chunk w → w.lpr ≤ i → load w.sender_buf i ≡ none
  load-vacant w i v h = v.is_buf.vacant i (inr h)

  abbrev pub after_shrink : Packet → Window Float → Window Float
  after_shrink p w = set_count fl (record w {
    ssthresh = half_window fl w.congwin_size;
    congwin_size = fl.of_int (pos 1);
    lps = w.lpa;
    sender_buf = set w.sender_buf w.lpa (some (record p { acked_num = 1 }));
  })

  -- How a step comes by its count: it takes it anew, or leaves it with all that it depends on.
  abbrev pub Recounts : Window Float → Window Float → Type 0
  Recounts w w' =
      (w'.count ≡ fl.to_int (fl.sub w'.congwin_size (fl.of_int (sub_ℕ w'.lps w'.lpa))))
      ⊎ ((w'.count ≡ w.count)
          × (w'.congwin_size ≡ w.congwin_size)
          × (w'.lpa ≡ w.lpa)
          × (w'.lps ≡ w.lps))

  -- What a step of the window may do: it stays valid and keeps its packets, and the marks become
  -- `lpa` and `lps`.
  pub record Moves (w : Window Float) (lpa lps : ℕ) (w' : Window Float) : Type 0 where
    pub valid : IsValid chunk w'
    pub lpa_is : w'.lpa ≡ lpa
    pub lps_is : w'.lps ≡ lps
    pub lpr_is : w'.lpr ≡ w.lpr
    pub recounts : Recounts w w'

  pub unmoved : (w : Window Float) → IsValid chunk w → Moves w w.lpa w.lps w
  unmoved w v = record {
    valid = v;
    lpa_is = refl;
    lps_is = refl;
    lpr_is = refl;
    recounts = inr (refl, refl, refl, refl);
  }

  -- The packet at `LPA`, once there is one, is in the buffer.
  pub shrink-Moves :
      (w : Window Float)
      → IsValid chunk w
      → 0 < w.lpa
      → (w' : Window Float) × (shrink fl w ≡ some w') × Moves w w.lpa w.lpa w'
  unfolding shrink set_count
  shrink-Moves w v some_acked =
      let (p, at, d) =
        v.is_buf.stored w.lpa some_acked (omega (arith, v.acked_sent, v.sent_ready)) in
      let inside : w.lpa < length w.sender_buf =
        omega (arith, v.acked_sent, v.sent_ready, v.is_buf.ready_fits, v.is_buf.buf_size) in
      (
        after_shrink p w,
        rw (at, store-in_range w.sender_buf w.lpa (some (record p { acked_num = 1 })) inside),
        record {
          valid = record {
            is_buf =
                IsBuf-set chunk w.lpr w.sender_buf w.lpa _ some_acked
                  (omega (arith, v.acked_sent, v.sent_ready)) (IsDataPack-marked p.timestamp 1 d)
                  v.is_buf;
            acked_sent = omega arith;
            sent_ready = omega (arith, v.acked_sent, v.sent_ready);
          };
          lpa_is = refl;
          lps_is = refl;
          lpr_is = refl;
          recounts = inl refl;
        },
      )

  pub set_count-Moves :
      {w u : Window Float} {lpa lps : ℕ} → Moves w lpa lps u → Moves w lpa lps (set_count fl u)
  unfolding set_count
  set_count-Moves m = record {
    valid = record {
      is_buf = m.valid.is_buf;
      acked_sent = m.valid.acked_sent;
      sent_ready = m.valid.sent_ready;
    };
    lpa_is = m.lpa_is;
    lps_is = m.lps_is;
    lpr_is = m.lpr_is;
    recounts = inl refl;
  }

  pub ack_ahead-Moves :
      (i : ℕ) (w : Window Float) → IsValid chunk w → i < w.lpr → Moves w i i (ack_ahead fl i w)
  unfolding ack_ahead set_count
  ack_ahead-Moves i w v h = record {
    valid = record { is_buf = v.is_buf; acked_sent = omega arith; sent_ready = h };
    lpa_is = refl;
    lps_is = refl;
    lpr_is = refl;
    recounts = inl refl;
  }

  pub ack_new-Moves :
      (i : ℕ) (w : Window Float) → IsValid chunk w → i ≤ w.lps → Moves w i w.lps (ack_new fl i w)
  unfolding ack_new set_count
  ack_new-Moves i w v h = record {
    valid = record { is_buf = v.is_buf; acked_sent = h; sent_ready = v.sent_ready };
    lpa_is = refl;
    lps_is = refl;
    lpr_is = refl;
    recounts = inl refl;
  }

  -- The number in `ACKed_num` decides whether the fourth ACK of one packet resends.
  pub ack_again-Moves :
      (acked : ℕ) (w : Window Float)
      → IsValid chunk w
      → 0 < w.lpa
      → (w' : Window Float) × (ack_again fl acked w ≡ some w')
        × Moves w w.lpa (if ltb 3 acked then w.lpa else w.lps) w'
  unfolding ack_again
  ack_again-Moves acked w v some_acked = elim (Bool-cases (ltb 3 acked)) [
    | inl often ↦
        let (w', e, m) = shrink-Moves w v some_acked in
        rw often (set_count fl w', rw e, set_count-Moves m)
    | inr rarely ↦ rw rarely (set_count fl w, refl, set_count-Moves (unmoved w v))
  ]
