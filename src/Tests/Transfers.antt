-- ===== src/Tests/Transfers.antt =====
-- Uploads and downloads under way, and hashes in hexadecimal.
use p2pdown_loader.Prelude.{
  ℕ, ◌+◌, ◌≡◌, refl, List, [], ◌∷◌, ◌++◌, some, arith, length, length-replicate, replicate, ℤ, pos,
}
use p2pdown_loader.Packet.{form_ack_pack}
use p2pdown_loader.Packet.Forms.{data_pack-IsDataPack}
use p2pdown_loader.Net.{Datagram}
use p2pdown_loader.Window.{Window}
use p2pdown_loader.Window.Invariant.{IsValid}
use p2pdown_loader.Receiver.{RecvState, create_recver}
use p2pdown_loader.Receiver.Invariant.{Holds, create_recver-Holds}
use p2pdown_loader.Receiver.Answers.{Answered}
use p2pdown_loader.HashList.{HashChunk, find_node}
use p2pdown_loader.HashList.Lookup.{find_node_by_addr-head}
use p2pdown_loader.Discovery.{form_get}
use p2pdown_loader.Peer.{
  MasterFile, data_file_name, System, PeerMe, UploadConn, init_upload, dealwithincomepack,
}
use p2pdown_loader.Peer.Uploads.{Started, init_upload-Started}
use p2pdown_loader.Peer.Packets.{
  with_recver, with_window, dealwithincomepack-data, dealwithincomepack-ack,
}
use p2pdown_loader.Tests.Sender.{whole, chunk, there, sent, sent-IsValid}
use p2pdown_loader.Tests.Receiving.{pack, first-IsPart}

-- Many bytes of one value.
block : ℕ → ℕ → List ℕ
block n b = replicate n b

length-block : (n b : ℕ) → length (block n b) ≡ n
unfolding block
length-block n b = length-replicate {A = ℕ} n b

-- A file of two chunks and one byte, named in the first line of the master file.
abbrev two_chunks : MasterFile
two_chunks = record {
  first_line = some (some (70 ∷ 32 ∷ 97 ∷ []));
  two_words = λ line. some (70 ∷ [], 97 ∷ []);
  open_data = λ name. some (block 524288 1 ++ (block 524288 2 ++ (3 ∷ [])));
}

abbrev sys : System
sys = record {
  inet_ntoa = λ ip. ip ∷ [];
  malloc = λ i. 900 + i;
  now = 1000;
  flowid = 7;
  master = two_chunks;
}

abbrev node : HashChunk ℤ
node = record {
  node_id = 5;
  from = there;
  hash = replicate 20 9;
  chunkid = 1;
  timestamp = 0;
  cong_win = some sent;
  recver = some (create_recver []);
}

abbrev up : UploadConn ℤ
up = record {
  concurr_upload_num = pos 0;
  max_upload_num = pos 4;
  uploading_list = node ∷ [];
  uploaded_list = [];
}

init_upload-Started_example :
    (up' : UploadConn ℤ) × (init_upload whole sys (form_get node) there (node ∷ []) up ≡ some up')
    × Started whole sys (block 524288 2) there (replicate 20 9) up up'
unfolding find_node form_get data_file_name
init_upload-Started_example =
    init_upload-Started whole sys (form_get node) there (node ∷ []) up (replicate 20 9) (97 ∷ [])
      (block 524288 1) (block 524288 2) (3 ∷ []) node refl refl refl refl refl
      (length-block 524288 1) (omega arith) (length-block 524288 2)

abbrev me : PeerMe ℤ
me = record {
  haslist = [];
  mydownload = record {
    concurr_download_num = pos 1;
    max_download_num = pos 4;
    howmany_found = pos 1;
    howmany_need = pos 1;
    needlist = node ∷ [];
    get_tosend_quene = [];
    get_sent_list = [];
    downloading_list = node ∷ [];
  };
  myupload = up;
}

dealwithincomepack-data_example :
    (r' : RecvState) × (acks : List Datagram) × (dealwithincomepack whole sys pack there me
      ≡ some (with_recver whole sys node r' me, acks))
    × Holds chunk r'
    × Answered chunk there 1 (create_recver []) r' acks
dealwithincomepack-data_example =
    dealwithincomepack-data whole sys pack there me node (create_recver []) chunk
      (find_node_by_addr-head sys.inet_ntoa node []) refl
      (create_recver-Holds chunk [] (omega arith)) first-IsPart
      (data_pack-IsDataPack 1 chunk (omega arith) (omega arith) (omega arith))

dealwithincomepack-ack_example :
    (w' : Window ℤ) × (dealwithincomepack whole sys (form_ack_pack 1) there me
      ≡ some (with_window whole sys node w' me, []))
    × IsValid chunk w'
    × (w'.lpa ≡ 1)
unfolding form_ack_pack
dealwithincomepack-ack_example =
    dealwithincomepack-ack whole sys (form_ack_pack 1) there me node sent chunk refl
      (find_node_by_addr-head sys.inet_ntoa node []) refl sent-IsValid (omega arith)
