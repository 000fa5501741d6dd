-- ===== src/Window.antt =====
-- The sending half of sock_io.c: the sliding window over the packets of one chunk.
-- Times are seconds, as `time` gives them; what is only logged or printed is left out.
pub mod Invariant
pub mod Fill
pub mod Slots
pub mod Send
pub mod Moves
pub mod Ack
pub mod Timeout
pub mod Pace
pub mod Resend
use p2pdown_loader.Prelude.{
  ℕ, zero, suc, ◌+◌, ◌-◌, ◌*◌, List, [], ◌∷◌, ◌++◌, Option, none, some, Bool, true, false, ◌||◌,
  ltb, leb, ◌==◌, if◌then◌else◌, ◌>>=◌, ◌>>◌, slice, load, store, replicate, length, ℤ, pos, negsuc,
  sub_ℕ, pos_part, ltb_ℤ,
}
use p2pdown_loader.Packet.{Packet, header_len, form_data_pack}
use p2pdown_loader.Net.{Addr, Datagram, send_pack}

abbrev pub sender_buf_size : ℕ
sender_buf_size = 514

abbrev pub max_packet_size : ℕ
max_packet_size = 1040

abbrev pub tcp_maxwin : ℤ
tcp_maxwin = pos 128

abbrev pub initial_congestion_threshold : ℤ
initial_congestion_threshold = pos 64

abbrev pub chunk_size : ℕ
chunk_size = 524288

abbrev pub timeout_sec : ℕ
timeout_sec = 2

-- The arithmetic of `float`, and its conversions from and to `int`.
pub record FloatOps : Type 1 where
  pub Float : Type 0
  pub of_int : ℤ → Float
  pub to_int : Float → ℤ
  pub add : Float → Float → Float
  pub sub : Float → Float → Float
  pub mul : Float → Float → Float
  pub div : Float → Float → Float
  pub gt : Float → Float → Bool

-- `Window`. `lpa`, `lps` and `lpr` are the last packet ACKed, the last sent, and the next to be
-- put into the buffer.
pub record Window (F : Type 0) : Type 0 where
  pub hash : List ℕ
  pub dst : Addr
  pub flowid : ℕ
  pub ssthresh : ℤ
  pub lpa : ℕ
  pub lps : ℕ
  pub lpr : ℕ
  pub count : ℤ
  pub congwin_size : F
  pub sender_buf : List (Option Packet)

-- How many bytes of data a packet holds.
abbrev pub pload_len : ℕ
pload_len = max_packet_size - header_len

-- The payload buffer of `p2p_sender`, cleared and then filled from the data.
pub pload : List ℕ → List ℕ
pload bytes = bytes ++ replicate (pload_len + 1 - length bytes) 0

module _ {F : Type 0} where
  -- One packet of `p2p_sender`: `n` bytes of the data from `countlen` on.
  pub add_packet : List ℕ → ℕ → ℕ → Window F → Option (Window F)
  add_packet chunk countlen n w = do
    bytes ← slice chunk countlen n
    pack ← form_data_pack (pload bytes) n w.lpr
    buf ← store w.sender_buf w.lpr (some pack)
    some (record w { sender_buf = buf; lpr = w.lpr + 1 })

  -- The last packet, after the loop.
  pub add_last : List ℕ → ℕ → ℕ → Window F → Option (Window F × ℕ)
  add_last chunk len countlen w =
      if w.lpr == sender_buf_size - 1
      then some (w, countlen)
      else do w' ← add_packet chunk countlen (len - countlen) w; some (w', len)

  -- The loop of `p2p_sender`. Every round takes 1024 bytes, so `len` rounds are enough.
  pub fill : ℕ → List ℕ → ℕ → ℕ → Window F → Option (Window F × ℕ)
  fill zero chunk len countlen w = none
  fill (suc fuel) chunk len countlen w = elim (ltb pload_len (len - countlen)) [
    | false ↦ add_last chunk len countlen w
    | true ↦ elim (w.lpr == sender_buf_size - 1) [
      | true ↦ some (w, countlen)
      | false ↦ add_packet chunk countlen pload_len w >>= fill fuel chunk len (countlen + pload_len)
    ]
  ]

  -- `p2p_sender`: the window with the data in packets, and how many bytes went in.
  pub p2p_sender : List ℕ → Window F → ℕ → Option (Window F × ℕ)
  p2p_sender chunk w len = fill (len + 1) chunk len 0 w

  -- The loop of `window_sender`, with the calls of `time` that it makes: `left` rounds are left and
  -- `i` are done.
  pub send_loop : (ℕ → ℕ) → ℕ → ℕ → Window F → List Datagram → Option (Window F × List Datagram × ℕ)
  send_loop clock zero i w out = some (w, out, i)
  send_loop clock (suc left) i w out = elim (w.lps + 1 == w.lpr) [
    | true ↦ some (w, out, i)
    | false ↦ do
      pack ← load w.sender_buf (w.lps + 1)
      sent ← send_pack pack w.dst
      buf ← store w.sender_buf (w.lps + 1) (some (record pack { timestamp = clock i }))
      send_loop clock left (i + 1) (record w { lps = w.lps + 1; sender_buf = buf })
          (out ++ sent ∷ [])
  ]

  pub clear_count : Window F × List Datagram × ℕ → Window F × List Datagram × ℕ
  clear_count (w, out, i) = (record w { count = pos 0 }, out, i)

  -- `window_sender`: the window, what is sent, and how many packets that are. A negative count
  -- sends nothing.
  pub window_sender : (ℕ → ℕ) → Window F → Option (Window F × List Datagram × ℕ)
  unfolding clear_count
  window_sender clock w = elim w.count [
    | pos zero ↦ some (w, [], 0)
    | _ ↦ do done ← send_loop clock (pos_part w.count) 0 w []; some (clear_count done)
  ]

module _ (fl : FloatOps) where
  open fl use {Float, of_int, to_int, add, sub, mul, div, gt}

  -- `create_SW`; `flowid` is what `get_id_bytime` returned.
  unfoldable pub create_sw : List ℕ → Addr → ℕ → Window Float
  create_sw hash dst flowid = record {
    hash = hash;
    dst = dst;
    flowid = flowid;
    ssthresh = initial_congestion_threshold;
    lpa = 0;
    lps = 0;
    lpr = 1;
    count = pos 1;
    congwin_size = of_int (pos 1);
    sender_buf = replicate sender_buf_size none;
  }

  -- `count = congwin_size - (LPS - LPA)`, in `float` and cut to an `int`.
  pub set_count : Window Float → Window Float
  set_count w = record w { count = to_int (sub w.congwin_size (of_int (sub_ℕ w.lps w.lpa))) }

  -- `tmp < 2 ? 2 : tmp` of half the window.
  pub half_window : Float → ℤ
  half_window size =
      let tmp = to_int (div size (of_int (pos 2))) in if ltb_ℤ tmp (pos 2) then pos 2 else tmp

  -- What a timeout and the fourth ACK of one packet both do: forget what was sent and not ACKed,
  -- and start again with a window of one packet.
  pub shrink : Window Float → Option (Window Float)
  shrink w = do
    pack ← load w.sender_buf w.lpa
    buf ← store w.sender_buf w.lpa (some (record pack { acked_num = 1 }))
    some (
        set_count (record w {
          ssthresh = half_window w.congwin_size;
          congwin_size = of_int (pos 1);
          lps = w.lpa;
          sender_buf = buf;
        }))

  -- `check_datapack_timeout` at the time `now`, with what it returns. The first packet of a window
  -- never times out.
  pub check_datapack_timeout : ℕ → Window Float → Option (Window Float × ℕ)
  check_datapack_timeout now w = do
    let index = w.lpa + 1
    pack ← load w.sender_buf index
    if leb pack.timestamp 0
        then some (w, 0)
        else if ltb w.lps index || index == 1
        then some (w, 0)
        else if ltb (pack.timestamp + timeout_sec) now
        then (do w' ← shrink w; some (w', 1))
        else some (w, 0)

  -- The window size after `newly` packets more are ACKed: it grows by their number up to the
  -- threshold, and by a share of it, up to a limit, beyond.
  pub grow : Float → ℤ → ℤ → Float
  grow size ssthresh newly =
      if gt size (of_int ssthresh)
      then (let size' = add size (mul (div (of_int (pos 1)) size) (of_int newly)) in
          if gt size' (of_int tcp_maxwin) then of_int tcp_maxwin else size')
      else add size (of_int newly)

  -- The branches of `upon_receive_ACK` for a packet that is in the buffer, `acked` times ACKed.
  pub ack_ahead : ℕ → Window Float → Window Float
  ack_ahead confirmno w = set_count (record w {
    lpa = confirmno;
    lps = confirmno;
    congwin_size = add w.congwin_size (of_int (pos 1));
  })

  pub ack_new : ℕ → Window Float → Window Float
  ack_new confirmno w = set_count (record w {
    lpa = confirmno;
    congwin_size = grow w.congwin_size w.ssthresh (sub_ℕ confirmno w.lpa);
  })

  pub ack_again : ℕ → Window Float → Option (Window Float)
  ack_again acked w =
      if ltb 3 acked then (do w' ← shrink w; some (set_count w')) else some (set_count w)

  -- `upon_receive_ACK`. It looks into the buffer before it compares the number with the window.
  pub upon_receive_ack : Packet → Window Float → Option (Window Float)
  upon_receive_ack ack w =
      let confirmno = ack.ack_num in
      if ltb confirmno 1 then some w else do
        pack ← load w.sender_buf confirmno
        let acked = pack.acked_num + 1
        buf ← store w.sender_buf confirmno (some (record pack { acked_num = acked }))
        let w' = record w { sender_buf = buf }
        if ltb w.lps confirmno
            then some (ack_ahead confirmno w')
            else if ltb w.lpa confirmno
            then some (ack_new confirmno w')
            else if confirmno == w.lpa
            then ack_again acked w'
            else some w'
