-- ===== src/Window/Ack.antt =====
-- `upon_receive_ACK` of sock_io.c: when it faults, and what it does to the marks of a valid window.
use p2pdown_loader.Prelude.{
  ℕ, ◌+◌, ◌≤◌, ◌<◌, ◌≡◌, ◌↔◌, refl, ◌∙◌, inl, inr, List, Option, none, some, arith, max, set, load,
  Bool-cases, ltb, ◌==◌, true, false, if◌then◌else◌, ltb→lt, ◌&&◌,
}
use p2pdown_loader.Packet.{Packet}
use p2pdown_loader.Packet.Forms.{IsDataPack, IsDataPack-marked}
use p2pdown_loader.Window.{FloatOps, Window, ack_ahead, ack_new, ack_again, upon_receive_ack}
use p2pdown_loader.Window.Invariant.{IsValid, piece, IsBuf-set, store-in_range}
use p2pdown_loader.Window.Moves.{
  load-vacant, Moves, unmoved, ack_ahead-Moves, ack_new-Moves, ack_again-Moves,
}

abbrev pub acked_of : Option Packet → ℕ
acked_of none = 0
acked_of (some p) = p.acked_num

module _ (fl : FloatOps) (chunk : List ℕ) where
  open fl use {Float}

  upon_receive_ack-fault :
      (ack : Packet) (w : Window Float)
      → IsValid chunk w
      → w.lpr ≤ ack.ack_num
      → upon_receive_ack fl ack w ≡ none
  unfolding upon_receive_ack
  upon_receive_ack-fault ack w v h =
      let counted : ltb ack.ack_num 1 ≡ false = ground (arith, v.is_buf.some_ready) in
      rw (counted, load-vacant fl chunk w ack.ack_num v h)

  -- The window with the ACK of packet `i` counted.
  abbrev pub counted : ℕ → Packet → Window Float → Window Float
  counted i p w = record w {
    sender_buf = set w.sender_buf i (some (record p { acked_num = p.acked_num + 1 }));
  }

  counted-IsValid :
      (i : ℕ) (p : Packet) (w : Window Float)
      → IsValid chunk w
      → 0 < i
      → i < w.lpr
      → IsDataPack i (piece chunk i) p
      → IsValid chunk (counted i p w)
  counted-IsValid i p w v h k d = record {
    is_buf =
        IsBuf-set chunk w.lpr w.sender_buf i _ h k
          (IsDataPack-marked p.timestamp (p.acked_num + 1) d) v.is_buf;
    acked_sent = v.acked_sent;
    sent_ready = v.sent_ready;
  }

  abbrev branches : ℕ → ℕ → Window Float → Option (Window Float)
  branches i acked w =
      if ltb w.lps i
      then some (ack_ahead fl i w)
      else if ltb w.lpa i
      then some (ack_new fl i w)
      else if i == w.lpa
      then ack_again fl acked w
      else some w

  upon_receive_ack-branches :
      (ack : Packet) (w : Window Float) (p : Packet)
      → IsValid chunk w
      → 0 < ack.ack_num
      → ack.ack_num < w.lpr
      → load w.sender_buf ack.ack_num ≡ some p
      → upon_receive_ack fl ack w ≡ branches ack.ack_num (p.acked_num + 1) (counted ack.ack_num p w)
  unfolding upon_receive_ack
  upon_receive_ack-branches ack w p v h k at =
      let told : ltb ack.ack_num 1 ≡ false = ground arith in
      rw (
        told,
        at,
        store-in_range w.sender_buf ack.ack_num (some (record p { acked_num = p.acked_num + 1 }))
            (omega (arith, v.is_buf.buf_size, v.is_buf.ready_fits)),
      )

  -- How often packet `i` has been ACKed.
  abbrev pub times_acked : ℕ → Window Float → ℕ
  times_acked i w = acked_of (load w.sender_buf i)

  -- Where the marks stand after an ACK of packet `i`, which had been ACKed `n` times before.
  abbrev pub acked_lps : ℕ → ℕ → Window Float → ℕ
  acked_lps i n w =
      if ltb w.lps i
      then i
      else if ltb w.lpa i
      then w.lps
      else if i == w.lpa && ltb 3 (n + 1)
      then w.lpa
      else w.lps

  branches-Moves :
      (i n : ℕ) (w : Window Float)
      → IsValid chunk w
      → 0 < i
      → i < w.lpr
      → (w' : Window Float) × (branches i (n + 1) w ≡ some w')
        × Moves fl chunk w (max w.lpa i) (acked_lps i n w) w'
  branches-Moves i n w v h k = elim (Bool-cases (ltb w.lps i)) [
    | inl ahead ↦
        let far : max w.lpa i ≡ i = omega (arith, ltb→lt w.lps i ahead, v.acked_sent) in
        rw (ahead, far) (ack_ahead fl i w, refl, ack_ahead-Moves fl chunk i w v k)
    | inr inside ↦ elim (Bool-cases (ltb w.lpa i)) [
      | inl new ↦
          let up : max w.lpa i ≡ i = omega (arith, ltb→lt w.lpa i new) in
          rw (inside, new, up) (ack_new fl i w, refl, ack_new-Moves fl chunk i w v (ground arith))
      | inr old ↦
          let kept : max w.lpa i ≡ w.lpa = ground arith in
          elim (Bool-cases (i == w.lpa)) [
            | inl again ↦
                rw (inside, old, again, kept) (ack_again-Moves fl chunk (n + 1) w v (ground arith))
            | inr past ↦ rw (inside, old, past, kept) (w, refl, unmoved fl chunk w v)
          ]
    ]
  ]

  Moves-counted :
      (j : ℕ) (p : Packet) {a b : ℕ} {w w' : Window Float}
      → Moves fl chunk (counted j p w) a b w'
      → Moves fl chunk w a b w'
  Moves-counted j p m = record {
    valid = m.valid;
    lpa_is = m.lpa_is;
    lps_is = m.lps_is;
    lpr_is = m.lpr_is;
    recounts = m.recounts;
  }

  upon_receive_ack-zero :
      (ack : Packet) (w : Window Float)
      → ltb ack.ack_num 1 ≡ true
      → upon_receive_ack fl ack w ≡ some w
  unfolding upon_receive_ack
  upon_receive_ack-zero ack w e = rw e

  -- For a valid window, `upon_receive_ACK` returns on every packet number below `LPR`: number 0 is
  -- ignored, and otherwise `LPA` becomes the larger of itself and the number, so that an old ACK
  -- never moves it back; `LPS` becomes the number if that lies ahead of it, `LPA` if it is the
  -- fourth or a later ACK of packet `LPA`, and stays otherwise. The window stays valid and keeps `LPR`.
  -- So a number above `LPS` is taken, as readme.txt says, where a comment in sock_io.c has it ignored.
  pub upon_receive_ack-Moves :
      (ack : Packet) (w : Window Float)
      → IsValid chunk w
      → ack.ack_num < w.lpr
      → (w' : Window Float) × (upon_receive_ack fl ack w ≡ some w')
        × Moves fl chunk w
            (max w.lpa ack.ack_num)
            (if ltb ack.ack_num 1
              then w.lps
              else acked_lps ack.ack_num (times_acked ack.ack_num w) w)
            w'
  upon_receive_ack-Moves ack w v k = elim (Bool-cases (ltb ack.ack_num 1)) [
    | inl zeroth ↦
        let kept : max w.lpa ack.ack_num ≡ w.lpa = ground arith in
        rw (zeroth, kept) (w, upon_receive_ack-zero ack w zeroth, unmoved fl chunk w v)
    | inr told ↦
        let some_num : 0 < ack.ack_num = ground arith in
        let (p, at, d) = v.is_buf.stored ack.ack_num some_num k in
        let (w', e, m) =
          branches-Moves ack.ack_num p.acked_num (counted ack.ack_num p w)
            (counted-IsValid ack.ack_num p w v some_num k d) some_num k in
        rw (told, at)
          (w', upon_receive_ack-branches ack w p v some_num k at ∙ e, Moves-counted ack.ack_num p m)
  ]

  -- For a valid window, `upon_receive_ACK` reads through a null pointer or past its buffer exactly
  -- when the packet number is `LPR` or more: a number that the window never sent is not ignored.
  pub upon_receive_ack-none_iff :
      (ack : Packet) (w : Window Float)
      → IsValid chunk w
      → (upon_receive_ack fl ack w ≡ none) ↔ (w.lpr ≤ ack.ack_num)
  upon_receive_ack-none_iff ack w v = (out, upon_receive_ack-fault ack w v)
    where
      out : upon_receive_ack fl ack w ≡ none → w.lpr ≤ ack.ack_num
      out e = elim (Bool-cases (ltb ack.ack_num w.lpr)) [
        | inl below ↦ let (w', f, m) = upon_receive_ack-Moves ack w v (ltb→lt _ _ below) in cc
        | inr above ↦ ground arith
      ]
