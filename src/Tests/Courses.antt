-- ===== src/Tests/Courses.antt =====
-- A file of one chunk: it is asked for, found, fetched and finished.
use p2pdown_loader.Prelude.{ℕ, ◌≡◌, refl, List, [], ◌∷◌, some, none, arith, replicate, ℤ, pos}
use p2pdown_loader.Net.{Addr}
use p2pdown_loader.Net.Sent.{send_pack-IsWire}
use p2pdown_loader.Receiver.{create_recver}
use p2pdown_loader.Chunk.{hex_digit, binary2hex, toupper, hex2binary_digit, bit_or, hex2binary}
use p2pdown_loader.HashList.{
  HashChunk, append_node, find_node, find_node_by_addr, heads, unlink, take_out, delete_node,
  delete_node_by_hash, move_node, create_node, length_of_list, clear_loop, clear_hashchunk_list,
}
use p2pdown_loader.Discovery.{DownloadConn}
use p2pdown_loader.Download.{
  update_node, send_request, pick_loop, pick_tosend_get, get_sender, init_download,
  finish_one_download, queue_request, fill_toget_list,
}
use p2pdown_loader.Download.Requests.{get_datagram, form_get-IsWire}
use p2pdown_loader.Download.Tally.{IsTallied}
use p2pdown_loader.Peer.Get.{
  Files, both, is_comment, hash_text, add_chunk, add_line, parse_lines, parse_hasneed_list,
  clear_lists, no_download, reset_mydownload,
}
use p2pdown_loader.Peer.Get.Steps.{Course, Course-IsTallied}

abbrev pub me : Addr
me = record { ip = 1; port = 2000 }

abbrev pub there : Addr
there = record { ip = 2; port = 3000 }

abbrev pub hash : List ℕ
hash = replicate 20 171

abbrev pub files : Files
files = record { scan = λ line. both 4 (binary2hex hash); malloc = λ i. i }

abbrev pub needed : HashChunk ℤ
needed = record {
  node_id = 0;
  from = me;
  hash = hash;
  chunkid = 4;
  timestamp = 0;
  cong_win = none;
  recver = none;
}

abbrev queued : HashChunk ℤ
queued = record needed { node_id = 7; from = there }

abbrev asked : HashChunk ℤ
asked = record queued { timestamp = 50 }

abbrev coming : HashChunk ℤ
coming = record queued { timestamp = 60; recver = some (create_recver hash) }

abbrev pub fresh : DownloadConn ℤ
fresh = record (no_download (pos 4)) { howmany_need = pos 1; needlist = needed ∷ [] }

abbrev found : DownloadConn ℤ
found = record fresh { howmany_found = pos 1; get_tosend_quene = queued ∷ [] }

abbrev requested : DownloadConn ℤ
requested = record fresh {
  concurr_download_num = pos 1;
  howmany_found = pos 1;
  get_sent_list = asked ∷ [];
}

abbrev started : DownloadConn ℤ
started = record fresh {
  concurr_download_num = pos 1;
  howmany_found = pos 1;
  downloading_list = coming ∷ [];
}

abbrev finished : DownloadConn ℤ
finished = record fresh { howmany_found = pos 1; needlist = [] }

pub reset_runs :
    reset_mydownload files me 0 (pos 4) (some ((52 ∷ []) ∷ [])) (no_download (pos 4)) ≡ some fresh
unfolding reset_mydownload clear_lists parse_hasneed_list parse_lines add_line add_chunk hash_text
    is_comment hex2binary hex2binary_digit bit_or toupper binary2hex hex_digit append_node
    create_node clear_hashchunk_list clear_loop length_of_list
reset_runs = refl

hears_runs : fill_toget_list (λ ip. []) (λ i. 7) there (some hash) 1 0 fresh ≡ some found
unfolding fill_toget_list queue_request find_node create_node append_node
hears_runs = refl

asks_runs : get_sender (λ ip. []) 50 found ≡ some (requested, get_datagram queued ∷ [])
unfolding get_sender pick_tosend_get pick_loop send_request find_node_by_addr move_node take_out
    heads unlink append_node update_node
asks_runs = rw (send_pack-IsWire there (form_get-IsWire queued refl)) refl

starts_runs : init_download 60 asked requested ≡ some started
unfolding init_download move_node take_out heads unlink append_node update_node
starts_runs = refl

finishes_runs : finish_one_download coming started ≡ some finished
unfolding finish_one_download delete_node_by_hash delete_node find_node take_out heads unlink
finishes_runs = refl

found_asked : find_node_by_addr (λ ip. []) requested.get_sent_list there ≡ some asked
unfolding find_node_by_addr
found_asked = refl

course : Course 4 1 finished
course =
    Course.finishes coming 0 started finished
      (Course.starts (λ ip. []) there asked 60 0 requested started
        (Course.asks (λ ip. []) 50 0 found requested (get_datagram queued ∷ [])
          (Course.hears (λ ip. []) (λ i. 7) there (some hash) 1 0 fresh found
            (Course.begins files me 0 (some ((52 ∷ []) ∷ [])) (no_download (pos 4)) fresh
              reset_runs)
            hears_runs)
          asks_runs)
        found_asked starts_runs)
      (omega arith) finishes_runs

Course-IsTallied_example : IsTallied 4 1 finished
Course-IsTallied_example = Course-IsTallied 4 1 finished course
