-- ===== src/Tests/Discoveries.antt =====
-- One peer asks for two chunks, of which the other has one.
use p2pdown_loader.Prelude.{
  ℕ, ◌+◌, ◌<◌, ◌≡◌, refl, List, [], ◌∷◌, some, replicate, length, arith, ℤ, pos,
}
use p2pdown_loader.Packet.RoundTrip.{wire}
use p2pdown_loader.HashList.{Nodes, find_node}
use p2pdown_loader.Discovery.Batches.{flat, IsHashes}
use p2pdown_loader.Discovery.Asking.{whohas_pack}
use p2pdown_loader.Discovery.Answering.{held, ihav_pack}
use p2pdown_loader.Download.Heard.{IsOther, IsDistinct, waiting, queued_for}
use p2pdown_loader.Peer.{System, PeerMe, dealwithincomepack}
use p2pdown_loader.Peer.Discovers.{dealwithincomepack-discovers}
use p2pdown_loader.Tests.Sender.{no_master, whole}
use p2pdown_loader.Tests.Courses.{me, there, hash, needed}

abbrev other : List ℕ
other = replicate 20 5

abbrev asked : List (List ℕ)
asked = hash ∷ other ∷ []

abbrev has : Nodes ℤ
has = needed ∷ []

abbrev asker : PeerMe ℤ
asker = record {
  haslist = [];
  mydownload = waiting 4 0 (record needed { hash = other } ∷ needed ∷ []) [];
  myupload = record {
    concurr_upload_num = pos 0;
    max_upload_num = pos 4;
    uploading_list = [];
    uploaded_list = [];
  };
}

abbrev answerer : PeerMe ℤ
answerer = record asker { haslist = has }

abbrev sys : System
sys = record {
  inet_ntoa = λ ip. [];
  malloc = λ k. 100 + k;
  now = 10;
  flowid = 1;
  master = no_master;
}

some_held : 0 < length (held has asked)
unfolding find_node
some_held = omega arith

dealwithincomepack-discovers_example :
    (dealwithincomepack whole sys (whohas_pack asked) me answerer
      ≡ some (
        answerer,
        record { to = me; bytes = wire (ihav_pack (held has asked)) (flat (held has asked)) } ∷ [],
      ))
    × (dealwithincomepack whole sys (ihav_pack (held has asked)) there asker
        ≡ some (
          record asker {
            mydownload =
                waiting 4 0 asker.mydownload.needlist
                  (queued_for sys.malloc there asker.mydownload.needlist (held has asked) 0 []);
          },
          [],
        ))
dealwithincomepack-discovers_example =
    dealwithincomepack-discovers whole sys sys me there asker answerer 4 0 asker.mydownload.needlist
      asked (IsHashes.cons refl (IsHashes.cons refl IsHashes.nil)) (omega arith)
      (IsDistinct.cons (IsOther.cons refl IsOther.nil) (IsDistinct.cons IsOther.nil IsDistinct.nil))
      some_held refl
