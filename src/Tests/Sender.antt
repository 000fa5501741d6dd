-- ===== src/Tests/Sender.antt =====
-- The window at work on a chunk of three bytes, with whole numbers for the type `float`.
use p2pdown_loader.Prelude.{
  ℕ, ◌+◌, ◌-◌, ◌*◌, ◌/◌, ◌≤◌, ◌≡◌, ◌↔◌, refl, subst, List, [], ◌∷◌, ◌++◌, some, none, arith, set,
  replicate, ◌⊎◌, ℤ, pos, negsuc, ◌+ℤ◌, ◌-ℤ◌, ltb_ℤ, pos_part,
}
use p2pdown_loader.Packet.{Packet, form_ack_pack}
use p2pdown_loader.Packet.Forms.{data_pack, IsDataPack, data_pack-IsDataPack}
use p2pdown_loader.Net.{Addr}
use p2pdown_loader.Peer.{MasterFile}
use p2pdown_loader.Window.{
  FloatOps, Window, create_sw, p2p_sender, upon_receive_ack, check_datapack_timeout,
  sender_buf_size,
}
use p2pdown_loader.Window.Invariant.{IsValid, IsBuf, IsBuf-next, create_sw-IsValid}
use p2pdown_loader.Window.Fill.{IsFilled, p2p_sender-IsFilled}
use p2pdown_loader.Window.Send.{packets_from, SentAll, window_sender-IsSent}
use p2pdown_loader.Window.Moves.{Moves}
use p2pdown_loader.Window.Ack.{upon_receive_ack-Moves, upon_receive_ack-none_iff}
use p2pdown_loader.Window.Timeout.{IsDue, check_datapack_timeout-Moves}
use p2pdown_loader.Window.Pace.{
  IsExact, window_size, IsRunning, Reach, Step, Reach-IsRunning, window_sender-in_window,
}

abbrev pub no_master : MasterFile
no_master = record { first_line = none; two_words = λ line. none; open_data = λ name. none }

abbrev pub whole : FloatOps
whole = record {
  Float = ℤ;
  of_int = λ x. x;
  to_int = λ x. x;
  add = λ x y. x +ℤ y;
  sub = λ x y. x -ℤ y;
  mul = λ x y. pos (pos_part x * pos_part y);
  div = λ x y. pos (pos_part x / pos_part y);
  gt = λ x y. ltb_ℤ y x;
}

sub_whole : (x : ℤ) (n : ℕ) → pos_part (x -ℤ pos n) ≡ pos_part x - n
sub_whole (pos m) n = ground arith
sub_whole (negsuc m) n = ground arith

pub whole-IsExact : IsExact whole
whole-IsExact = record { of_int_exact = λ n h. refl; sub_exact = λ x n h k. sub_whole x n }

abbrev pub chunk : List ℕ
chunk = 1 ∷ 2 ∷ 3 ∷ []

abbrev pub there : Addr
there = record { ip = 2130706433; port = 2222 }

abbrev clock : ℕ → ℕ
clock i = 1000 + i

abbrev new_window : Window ℤ
new_window = record {
  hash = [];
  dst = there;
  flowid = 7;
  ssthresh = pos 64;
  lpa = 0;
  lps = 0;
  lpr = 1;
  count = pos 1;
  congwin_size = pos 1;
  sender_buf = replicate sender_buf_size none;
}

create_sw-new_window : create_sw whole [] there 7 ≡ new_window
unfolding create_sw
create_sw-new_window = refl

new_window-IsValid : IsValid chunk new_window
new_window-IsValid =
    subst (IsValid chunk) create_sw-new_window (create_sw-IsValid whole chunk [] there 7)

p2p_sender-IsFilled_example :
    (w' : Window ℤ) × (p2p_sender (chunk ++ 0 ∷ []) new_window 3 ≡ some (w', 3))
    × IsFilled chunk new_window w'
p2p_sender-IsFilled_example =
    p2p_sender-IsFilled chunk (0 ∷ []) new_window new_window-IsValid refl (omega arith)
      (omega arith)

abbrev pack : Packet
pack = data_pack 1 chunk

-- The window with the packet of the chunk, and after it was sent.
abbrev ready : Window ℤ
ready = record new_window {
  sender_buf = set (replicate sender_buf_size none) 1 (some pack);
  lpr = 2;
}

abbrev pub sent : Window ℤ
sent = record ready { lps = 1; count = pos 0 }

pack-IsDataPack : IsDataPack 1 chunk pack
pack-IsDataPack = data_pack-IsDataPack 1 chunk (omega arith) (omega arith) (omega arith)

ready-IsBuf : IsBuf chunk 2 ready.sender_buf
ready-IsBuf =
    IsBuf-next chunk 1 (replicate sender_buf_size none) pack (omega arith) pack-IsDataPack
      new_window-IsValid.is_buf

ready-IsValid : IsValid chunk ready
ready-IsValid = record { is_buf = ready-IsBuf; acked_sent = omega arith; sent_ready = omega arith }

pub sent-IsValid : IsValid chunk sent
sent-IsValid = record { is_buf = ready-IsBuf; acked_sent = omega arith; sent_ready = omega arith }

upon_receive_ack-Moves_example :
    (w' : Window ℤ) × (upon_receive_ack whole (form_ack_pack 1) sent ≡ some w')
    × Moves whole chunk sent 1 1 w'
unfolding form_ack_pack
upon_receive_ack-Moves_example =
    upon_receive_ack-Moves whole chunk (form_ack_pack 1) sent sent-IsValid (omega arith)

upon_receive_ack-none_iff_example : (upon_receive_ack whole (form_ack_pack 5) sent ≡ none) ↔ (2 ≤ 5)
unfolding form_ack_pack
upon_receive_ack-none_iff_example =
    upon_receive_ack-none_iff whole chunk (form_ack_pack 5) sent sent-IsValid

check_datapack_timeout-Moves_example :
    ((check_datapack_timeout whole 9 sent ≡ some (sent, 0)) × (¬ IsDue whole chunk 9 sent pack))
    ⊎ ((w' : Window ℤ) × (check_datapack_timeout whole 9 sent ≡ some (w', 1))
        × IsDue whole chunk 9 sent pack
        × Moves whole chunk sent 0 0 w')
check_datapack_timeout-Moves_example =
    check_datapack_timeout-Moves whole chunk 9 sent pack sent-IsValid refl

ready-IsRunning : IsRunning whole whole-IsExact chunk 2 ready
ready-IsRunning = record { valid = ready-IsValid; paced = λ _. omega arith; lpr_is = refl }

sent_on : SentAll chunk clock 1 ready
sent_on = window_sender-IsSent chunk clock ready ready-IsValid

Reach-IsRunning_example : IsRunning whole whole-IsExact chunk 2 sent_on.0
Reach-IsRunning_example =
    Reach-IsRunning whole whole-IsExact chunk 2 {w = ready} {w' = sent_on.0}
      (Reach.next Reach.here
        (Step.sends clock ready sent_on.0 (packets_from chunk there 1 1) 1 sent_on.1))
      ready-IsRunning

window_sender-in_window_example :
    sent_on.0.lps - sent_on.0.lpa ≤ window_size whole whole-IsExact sent_on.0
window_sender-in_window_example =
    window_sender-in_window whole whole-IsExact chunk clock ready ready sent_on.0
      (packets_from chunk there 1 1) 0 ready-IsRunning Reach.here (omega arith) sent_on.1
