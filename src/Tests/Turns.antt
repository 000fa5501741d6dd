-- ===== src/Tests/Turns.antt =====
-- A peer starts, and its user types a GET command.
use p2pdown_loader.Prelude.{ℕ, ◌≡◌, refl, List, [], ◌∷◌, some, none, true, arith, ℤ, pos}
use p2pdown_loader.Packet.{serial_pack, header_bytes, read_payload}
use p2pdown_loader.Net.{BtPeer, send_to_all, broadcast}
use p2pdown_loader.Framing.{empty_buf}
use p2pdown_loader.InputBuffer.{UserIobuf, create_userbuf, handled, process_user_input}
use p2pdown_loader.InputBuffer.Lines.{IsText}
use p2pdown_loader.InputBuffer.Handing.{HandsOn}
use p2pdown_loader.InputBuffer.Reads.{create_userbuf-HoldsText, process_user_input-HandsOn}
use p2pdown_loader.Config.{BtConfig, bt_init, configured}
use p2pdown_loader.HashList.{find_node}
use p2pdown_loader.Discovery.{in_hand, whohas_loop, form_whohas, whohas_sender}
use p2pdown_loader.Discovery.Batches.{IsSized}
use p2pdown_loader.Discovery.Asking.{AsksFor}
use p2pdown_loader.Download.{timeout_loop, check_timeout, pick_loop, pick_tosend_get, get_sender}
use p2pdown_loader.Peer.{PeerMe}
use p2pdown_loader.Peer.Get.{
  parse_lines, parse_hasneed_list, no_download, handle_user_input, init_peerme,
}
use p2pdown_loader.Peer.Loop.{upload_loop, download_loop, request_turn, peer_turn}
use p2pdown_loader.Peer.Loop.AsksAgain.{hashes_of, request_turn-asks}
use p2pdown_loader.Peer.Main.{
  Running, continues, Event, handle_lines, inbound_packs, turned, or_faults, transfer_turn,
  handled_lines, input_turn, run_turn, started, peer_start,
}
use p2pdown_loader.Peer.Main.Keeping.{IsKept}
use p2pdown_loader.Peer.Main.Counting.{Reach, Reach-IsKept}
use p2pdown_loader.Tests.Sender.{no_master, whole}
use p2pdown_loader.Tests.Courses.{me, files, fresh, reset_runs}

abbrev other : BtPeer
other = record { id = 2; addr = record { ip = 3; port = 2003 } }

abbrev config : BtConfig
config = record bt_init { max_conn = pos 4; myport = 2000; identity = 1 }

abbrev peer : PeerMe ℤ
peer = record {
  haslist = [];
  mydownload = no_download (pos 4);
  myupload = record {
    concurr_upload_num = pos 0;
    max_upload_num = pos 4;
    uploading_list = [];
    uploaded_list = [];
  };
}

abbrev first : Running ℤ
first = record { recv_buf = empty_buf; userbuf = create_userbuf; me = peer }

peer_start_runs :
    peer_start files 1 0 true (λ name. some []) (configured config) ≡ continues first [] []
unfolding peer_start started init_peerme parse_hasneed_list parse_lines
peer_start_runs = refl

abbrev typed : List ℕ
typed = 71 ∷ 10 ∷ []

typed-IsText : IsText typed
typed-IsText = IsText.cons (λ e. cc) (IsText.cons (λ e. cc) IsText.nil)

typed-HandsOn : HandsOn typed (process_user_input typed create_userbuf)
typed-HandsOn =
    process_user_input-HandsOn [] typed create_userbuf create_userbuf-HoldsText typed-IsText
      (omega arith)

abbrev event : Event
event = record {
  inbound = none;
  systems = λ i. record {
    inet_ntoa = λ ip. [];
    malloc = λ k. k;
    now = 10;
    flowid = 1;
    master = no_master;
  };
  input = some typed;
  typing = record {
    scan_get = λ line. (2, 99 ∷ [], 111 ∷ []);
    open_lines = λ name. some ((52 ∷ []) ∷ []);
    files = files;
    myaddr = me;
    chunkid = 0;
    max_conn = pos 4;
  };
  turn = record {
    inet_ntoa = λ ip. [];
    now = 10;
    moments = λ i. record {
      clock = λ k. 10;
      tick = 10;
      sys = record {
        inet_ntoa = λ ip. [];
        malloc = λ k. k;
        now = 10;
        flowid = 1;
        master = no_master;
      };
    };
    data_now = λ i. 10;
    writes = [];
    peers = [];
    id = 1;
  };
}

-- The file of one chunk is needed.
abbrev second : UserIobuf → Running ℤ
second left = record {
  recv_buf = empty_buf;
  userbuf = left;
  me = record peer { mydownload = fresh };
}

typed_runs :
    (left : UserIobuf)
    → process_user_input typed create_userbuf ≡ handled ((71 ∷ []) ∷ []) left
    → run_turn whole (λ bytes. []) event first ≡ continues (second left) [] []
unfolding run_turn inbound_packs or_faults input_turn handled_lines handle_lines handle_user_input
    transfer_turn turned peer_turn request_turn check_timeout timeout_loop get_sender
    pick_tosend_get pick_loop whohas_sender form_whohas whohas_loop in_hand find_node broadcast
    send_to_all serial_pack header_bytes read_payload upload_loop download_loop
typed_runs left e = rw (e, reset_runs) refl

Reach-IsKept_example : IsKept 4 (second typed-HandsOn.left).me
Reach-IsKept_example =
    Reach-IsKept whole (λ bytes. []) 4 (second typed-HandsOn.left)
      (Reach.turn event first (second typed-HandsOn.left) [] []
        (Reach.start files 1 0 true (λ name. some []) config first refl peer_start_runs) refl
        (typed_runs typed-HandsOn.left typed-HandsOn.runs))

request_turn-asks_example :
    AsksFor
      (hashes_of fresh.needlist)
      (other ∷ [])
      1
      (λ sent. request_turn (λ ip. []) 20 (other ∷ []) 1 fresh ≡ some (fresh, sent))
request_turn-asks_example =
    request_turn-asks 4 0 fresh (λ ip. []) 20 (other ∷ []) 1 (refl, omega arith, refl, refl, refl)
      (omega arith) (omega arith) (IsSized.cons refl IsSized.nil) refl refl refl
