-- ===== src/Tests/Peers.antt =====
-- Lists of chunks, and the packets that ask for them.
use p2pdown_loader.Prelude.{
  ℕ, ◌+◌, ◌≡◌, refl, List, [], ◌∷◌, some, none, arith, length, replicate, ltb, if◌then◌else◌, pos,
}
use p2pdown_loader.Packet.RoundTrip.{wire}
use p2pdown_loader.Net.{Addr, Datagram, BtPeer}
use p2pdown_loader.HashList.{HashChunk, Nodes, delete_node_by_hash}
use p2pdown_loader.HashList.Moves.{IsIn, IsFresh, IsDistinct, Deleted, delete_node_by_hash-Deleted}
use p2pdown_loader.Discovery.{DownloadConn, ihav_sender, whohas_sender}
use p2pdown_loader.Discovery.Batches.{flat, IsHashes, wanted, IsSized}
use p2pdown_loader.Discovery.Asking.{AsksFor, whohas_pack, whohas_sender-IsBatches}
use p2pdown_loader.Discovery.Answering.{held, ihav_pack, ihav_sender-held}
use p2pdown_loader.Download.{pick_tosend_get}
use p2pdown_loader.Download.Requests.{Ready, Picked, pick_tosend_get-Picked}

abbrev hash_of : ℕ → List ℕ
hash_of b = replicate 20 b

abbrev node : ℕ → HashChunk ℕ
node i = record {
  node_id = i;
  from = record { ip = 2130706433; port = 2000 + i };
  hash = hash_of i;
  chunkid = i;
  timestamp = 0;
  cong_win = none;
  recver = none;
}

abbrev two_nodes : Nodes ℕ
two_nodes = node 1 ∷ node 2 ∷ []

second-IsIn : IsIn (node 2) two_nodes
second-IsIn = IsIn.there (λ e. absurd (omega arith)) IsIn.here

two_nodes-IsDistinct : IsDistinct two_nodes
two_nodes-IsDistinct =
    IsDistinct.cons (IsFresh.cons (λ e. absurd (omega arith)) IsFresh.nil)
      (IsDistinct.cons IsFresh.nil IsDistinct.nil)

delete_node_by_hash-Deleted_example :
    Deleted (hash_of 2) two_nodes (delete_node_by_hash two_nodes (hash_of 2))
delete_node_by_hash-Deleted_example =
    delete_node_by_hash-Deleted (hash_of 2) two_nodes two_nodes-IsDistinct

abbrev ntoa : ℕ → List ℕ
ntoa ip = ip ∷ []

abbrev elsewhere : Addr
elsewhere = record { ip = 16777343; port = 2002 }

abbrev conn : DownloadConn ℕ
conn = record {
  concurr_download_num = pos 0;
  max_download_num = pos 4;
  howmany_found = pos 0;
  howmany_need = pos 2;
  needlist = two_nodes;
  get_tosend_quene = two_nodes;
  get_sent_list = [];
  downloading_list = [];
}

abbrev idle : DownloadConn ℕ
idle = record conn { get_tosend_quene = [] }

two_nodes-IsSized : IsSized two_nodes
two_nodes-IsSized = IsSized.cons refl (IsSized.cons refl IsSized.nil)

abbrev peers : List BtPeer
peers = record { id = 1; addr = elsewhere } ∷ record { id = 2; addr = elsewhere } ∷ []

whohas_sender-IsBatches_example :
    AsksFor
      (wanted idle two_nodes)
      peers
      1
      (λ sent. whohas_sender 3 idle two_nodes peers 1 ≡ some sent)
whohas_sender-IsBatches_example =
    whohas_sender-IsBatches idle 3 two_nodes peers 1 two_nodes-IsSized (omega arith)

abbrev asked : List (List ℕ)
asked = hash_of 1 ∷ hash_of 9 ∷ []

asked-IsHashes : IsHashes asked
asked-IsHashes = IsHashes.cons refl (IsHashes.cons refl IsHashes.nil)

ihav_sender-held_example :
    ihav_sender (whohas_pack asked) two_nodes elsewhere
    ≡ some (
        if ltb 0 (length (held two_nodes asked))
        then record {
          to = elsewhere;
          bytes = wire (ihav_pack (held two_nodes asked)) (flat (held two_nodes asked));
        }
          ∷ []
        else [])
ihav_sender-held_example =
    ihav_sender-held two_nodes (whohas_pack asked) asked elsewhere asked-IsHashes (omega arith) refl
      refl

conn-Ready : Ready two_nodes two_nodes
conn-Ready = Ready.cons IsIn.here refl (Ready.cons second-IsIn refl Ready.nil)

pick_tosend_get-Picked_example :
    (x : DownloadConn ℕ × List Datagram) × Picked ntoa 1000 conn x
    × (pick_tosend_get ntoa 1000 4 conn ≡ some x)
pick_tosend_get-Picked_example = pick_tosend_get-Picked ntoa 1000 4 conn conn-Ready
