-- ===== src/Tests/Links.antt =====
-- A transfer at work: of three bytes from its start, and of 1025 bytes with the second packet due.
use p2pdown_loader.Prelude.{
  ℕ, ◌+◌, ◌-◌, ◌*◌, ◌≤◌, ◌<◌, ◌≡◌, refl, List, [], ◌∷◌, ◌++◌, Option, none, some, arith, length,
  length-replicate, replicate, set, ℤ, pos, load, get_or-set_self,
}
use p2pdown_loader.Packet.{Packet}
use p2pdown_loader.Packet.Forms.{IsDataPack, data_pack, data_pack-IsDataPack, IsDataPack-marked}
use p2pdown_loader.Net.{Addr, Datagram}
use p2pdown_loader.Net.Sent.{data_datagram}
use p2pdown_loader.Window.{
  Window, create_sw, p2p_sender, window_sender, check_datapack_timeout, sender_buf_size,
}
use p2pdown_loader.Window.Invariant.{IsValid, IsBuf-next, piece, create_sw-IsValid}
use p2pdown_loader.Window.Fill.{IsFilled, p2p_sender-IsFilled, length-piece}
use p2pdown_loader.Window.Send.{window_sender-IsSent}
use p2pdown_loader.Window.Timeout.{IsDue}
use p2pdown_loader.Window.Resend.{check_datapack_timeout-window_sender}
use p2pdown_loader.Receiver.{RecvState, create_recver, collect}
use p2pdown_loader.Receiver.Invariant.{create_recver-Holds}
use p2pdown_loader.Receiver.Answers.{Answered, After, upon_receiving_datapack-After}
use p2pdown_loader.Framing.{empty_buf}
use p2pdown_loader.Transfer.{Link, fresh_link, Step, Reach}
use p2pdown_loader.Transfer.Agreement.{Agrees}
use p2pdown_loader.Transfer.Safety.{empty_buf-IsReady, Reach-Agrees, Agrees-collect}
use p2pdown_loader.Transfer.Progress.{Serves, Agrees-Serves}
use p2pdown_loader.Transfer.Liveness.{Agrees-recovers}
use p2pdown_loader.Transfer.Promise.{Promised, Advances, Shows, Agrees-Shows, Step-Advances}
use p2pdown_loader.Tests.Sender.{sent, sent-IsValid, whole, whole-IsExact, chunk, there}

abbrev here : Addr
here = record { ip = 2130706433; port = 1111 }

abbrev clock : ℕ → ℕ
clock i = 1000 + i

-- The window is filled, and sends its packet.
filled :
    (w : Window ℤ) × (p2p_sender (chunk ++ 0 ∷ []) (create_sw whole [] there 7) 3 ≡ some (w, 3))
    × IsFilled chunk (create_sw whole [] there 7) w
unfolding create_sw
filled =
    p2p_sender-IsFilled chunk (0 ∷ []) (create_sw whole [] there 7)
      (create_sw-IsValid whole chunk [] there 7) refl (omega arith) (omega arith)

abbrev start : Link ℤ
start = fresh_link filled.0 (create_recver [])

one_sent : (l : Link ℤ) × Reach whole here start l
one_sent =
    let (w, e, _, _) = window_sender-IsSent chunk clock filled.0 filled.2.valid in
    (_, Reach.next Reach.here (Step.sends clock w _ _ e))

Reach-Agrees_example : Agrees chunk filled.0.lpr one_sent.0
Reach-Agrees_example =
    Reach-Agrees whole here chunk (0 ∷ []) [] there 7 filled.0 one_sent.0 (omega arith)
      (omega arith) filled.1 one_sent.1

Agrees-Serves_example : Serves whole here chunk filled.0.lpr one_sent.0
Agrees-Serves_example = Agrees-Serves whole here chunk filled.0.lpr one_sent.0 Reach-Agrees_example

start-Agrees : Agrees chunk filled.0.lpr start
start-Agrees =
    Reach-Agrees whole here chunk (0 ∷ []) [] there 7 filled.0 start (omega arith) (omega arith)
      filled.1 Reach.here

Step-Advances_example :
    (s : Promised) × Advances
      (filled.0.lpr - 1)
      (record { received = 0; confirmed = filled.0.lpa })
      s
    × Shows chunk s (record start { window = one_sent.0.window; sent = one_sent.0.sent })
unfolding one_sent create_recver
Step-Advances_example =
    Step-Advances whole here chunk filled.0.lpr
      {l' = record start { window = one_sent.0.window; sent = one_sent.0.sent }}
      (record { received = 0; confirmed = filled.0.lpa }) start-Agrees
      (Agrees-Shows whole here chunk filled.0.lpr start 0 start-Agrees refl)
      (Step.sends clock _ _ _ (window_sender-IsSent chunk clock filled.0 filled.2.valid).1)

-- The first packet makes a new receiver expect the second, or a later one.
Answered-first :
    {c : List ℕ} {r r' : RecvState} {out : List Datagram}
    → Answered c here 1 r r' out
    → r.npe ≡ 1
    → 1 < r'.npe
Answered-first (Answered.ignored far e) one = absurd (grind (arith, far, one))
Answered-first (Answered.in_order n e f g) one = omega arith
Answered-first (Answered.early h e) one = absurd (omega arith)
Answered-first (Answered.late h e) one = absurd (omega arith)

-- A receiver that has got the first packet of a chunk.
module _ (c : List ℕ) (some_data : 0 < length c) (fits : length c ≤ 512 * 1024) where
  abbrev first_pack : Packet
  first_pack = data_pack 1 (piece c 1)

  first_pack-IsDataPack : IsDataPack 1 (piece c 1) first_pack
  first_pack-IsDataPack =
      data_pack-IsDataPack 1 (piece c 1) (omega (arith, length-piece c 1))
        (omega (arith, length-piece c 1)) (omega arith)

  got_first : After c here first_pack (create_recver [])
  got_first =
      upon_receiving_datapack-After c here first_pack (create_recver [])
        (create_recver-Holds c [] fits) (record { from_one = omega arith; reached = omega arith })
        first_pack-IsDataPack

  got_first-npe : 1 < got_first.result.npe
  unfolding create_recver
  got_first-npe = Answered-first got_first.answered refl

-- The chunk of three bytes, received and ACKed.
abbrev done : Link ℤ
done = record {
  window = record sent { lpa = 1 };
  ack_buf = empty_buf;
  recver = (got_first chunk (omega arith) (omega arith)).result;
  data_buf = empty_buf;
  sent = [];
  acks = [];
}

done-Agrees : Agrees chunk 2 done
done-Agrees = record {
  valid = record {
    is_buf = sent-IsValid.is_buf;
    acked_sent = omega arith;
    sent_ready = omega arith;
  };
  lpr_is = refl;
  all_in = omega arith;
  none_empty = omega arith;
  holds = (got_first chunk (omega arith) (omega arith)).holds;
  ack_ready = empty_buf-IsReady;
  data_ready = empty_buf-IsReady;
  all_pieces = λ d m. elim m [ ];
  all_answers = λ d m. elim m [ ];
  confirmed = got_first-npe chunk (omega arith) (omega arith);
}

Agrees-collect_example :
    (done.recver.recv_bytesnum ≡ pos 3)
    × (collect (done.recver.npe - 1) 1 done.recver.recv_buf [] ≡ some chunk)
Agrees-collect_example = Agrees-collect whole here chunk 2 done done-Agrees refl

-- A chunk of two packets, the second of them sent at second 5 and not ACKed.
long : List ℕ
long = replicate 1025 0

length-long : length long ≡ 1025
unfolding long
length-long = length-replicate {A = ℕ} 1025 0

abbrev second_pack : Packet
second_pack = record (data_pack 2 (piece long 2)) { timestamp = 5 }

second_pack-IsDataPack : IsDataPack 2 (piece long 2) second_pack
second_pack-IsDataPack = IsDataPack-marked 5 0 (
    data_pack-IsDataPack 2 (piece long 2) (omega (arith, length-piece long 2, length-long))
      (omega (arith, length-piece long 2)) (omega arith))

long-some : 0 < length long
long-some = omega (arith, length-long)

long-fits : length long ≤ 512 * 1024
long-fits = omega (arith, length-long)

abbrev one_in : List (Option Packet)
one_in = set (replicate sender_buf_size none) 1 (some (first_pack long long-some long-fits))

abbrev due_window : Window ℤ
due_window = record sent { lpa = 1; lps = 2; lpr = 3; sender_buf = set one_in 2 (some second_pack) }

due_window-IsValid : IsValid long due_window
unfolding create_sw
due_window-IsValid = record {
  is_buf = IsBuf-next long 2 one_in second_pack (omega arith) second_pack-IsDataPack (
      IsBuf-next long 1 (replicate sender_buf_size none) (first_pack long long-some long-fits)
        (omega arith) (first_pack-IsDataPack long long-some long-fits)
        (create_sw-IsValid whole long [] there 7).is_buf);
  acked_sent = omega arith;
  sent_ready = omega arith;
}

second_at : load due_window.sender_buf 2 ≡ some second_pack
second_at = get_or-set_self one_in 2 (some second_pack) none (omega arith)

second-IsDue : IsDue whole long 8 due_window second_pack
second-IsDue = record {
  stamped = omega arith;
  was_sent = omega arith;
  not_first = omega arith;
  overdue = omega arith;
}

abbrev due : Link ℤ
due = record done { window = due_window; recver = (got_first long long-some long-fits).result }

due-Agrees : Agrees long 3 due
due-Agrees = record {
  valid = due_window-IsValid;
  lpr_is = refl;
  all_in = omega (arith, length-long);
  none_empty = omega (arith, length-long);
  holds = (got_first long long-some long-fits).holds;
  ack_ready = empty_buf-IsReady;
  data_ready = empty_buf-IsReady;
  all_pieces = λ d m. elim m [ ];
  all_answers = λ d m. elim m [ ];
  confirmed = got_first-npe long long-some long-fits;
}

Agrees-recovers_example : (l : Link ℤ) × Reach whole here due l × (l.window.lpa ≡ 2)
Agrees-recovers_example =
    Agrees-recovers whole here long 3 whole-IsExact 8 due second_pack due-Agrees second_at
      second-IsDue

check_datapack_timeout-window_sender_example :
    (w' u : Window ℤ) × (check_datapack_timeout whole 8 due_window ≡ some (w', 1))
    × (window_sender clock w' ≡ some (u, data_datagram there 2 (piece long 2) ∷ [], 1))
    × (u.lpa ≡ 1)
check_datapack_timeout-window_sender_example =
    check_datapack_timeout-window_sender whole whole-IsExact long 8 clock due_window second_pack
      due_window-IsValid second_at second-IsDue
