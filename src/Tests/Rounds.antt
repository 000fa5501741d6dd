-- ===== src/Tests/Rounds.antt =====
-- The loop of the peer at work on a chunk that has come in, and a file of one hash.
use p2pdown_loader.Prelude.{
  ℕ, zero, suc, ◌≡◌, refl, List, [], ◌∷◌, none, some, arith, replicate, pos, ℤ, ◌-ℤ◌,
}
use p2pdown_loader.Net.{Addr}
use p2pdown_loader.Receiver.{Write}
use p2pdown_loader.Receiver.Reap.{Fills, successes}
use p2pdown_loader.HashList.{HashChunk, Nodes}
use p2pdown_loader.HashList.Moves.{IsIn}
use p2pdown_loader.Discovery.{DownloadConn}
use p2pdown_loader.Chunk.{binary2hex}
use p2pdown_loader.Chunk.RoundTrip.{IsBytes}
use p2pdown_loader.Peer.Get.{both, Files, is_comment, reset_mydownload}
use p2pdown_loader.Peer.Get.Needs.{IsFile, entries, reset_mydownload-Needs}
use p2pdown_loader.Peer.Loop.{completed, download_turn}
use p2pdown_loader.Peer.Loop.Downloading.{download_turn-completes, download_turn-wrong_hash}
use p2pdown_loader.Tests.Reaping.{chunk, full, full-Holds}

abbrev there : Addr
there = record { ip = 2130706433; port = 2222 }

abbrev digest : List ℕ → List ℕ
digest bytes = 7 ∷ []

abbrev node : HashChunk ℤ
node = record {
  node_id = 5;
  from = there;
  hash = 7 ∷ [];
  chunkid = 3;
  timestamp = 0;
  cong_win = none;
  recver = some full;
}

abbrev down : DownloadConn ℤ
down = record {
  concurr_download_num = pos 1;
  max_download_num = pos 4;
  howmany_found = pos 1;
  howmany_need = pos 1;
  needlist = node ∷ [];
  get_tosend_quene = [];
  get_sent_list = [];
  downloading_list = node ∷ [];
}

download_turn-completes_example :
    (writes : List Write) × (download_turn digest (successes (300000 ∷ 300000 ∷ [])) 1 node down
      ≡ completed writes (record {
        concurr_download_num = pos 1 -ℤ pos 1;
        max_download_num = pos 0;
        howmany_found = pos 1;
        howmany_need = pos 1;
        needlist = [];
        get_tosend_quene = [];
        get_sent_list = [];
        downloading_list = [];
      }))
    × Fills chunk 1572864 0 writes
download_turn-completes_example =
    download_turn-completes digest chunk (300000 ∷ 300000 ∷ []) 1 node node down full refl
      full-Holds refl refl (omega arith) (omega arith) IsIn.here refl refl

-- A digest that is not the one of the chunk.
abbrev bad_digest : List ℕ → List ℕ
bad_digest bytes = 8 ∷ []

download_turn-wrong_hash_example :
    download_turn bad_digest [] 1 node down
    ≡ completed [] (record down {
      concurr_download_num = pos 0;
      max_download_num = pos 0;
      needlist = [];
      downloading_list = [];
    })
download_turn-wrong_hash_example =
    download_turn-wrong_hash bad_digest chunk [] 1 node node down full refl full-Holds refl refl
      IsIn.here refl refl

-- Two chunks are needed.
abbrev two : DownloadConn ℤ
two = record down { needlist = node ∷ node ∷ [] }

abbrev hash : List ℕ
hash = replicate 20 171

hash-IsBytes : (n : ℕ) → IsBytes (replicate n 171)
hash-IsBytes zero = IsBytes.nil
hash-IsBytes (suc n) = IsBytes.cons (omega arith) (hash-IsBytes n)

abbrev files : Files
files = record { scan = λ line. both 4 (binary2hex hash); malloc = λ i. i }

reset_mydownload-Needs_example :
    (need : Nodes ℤ) × (reset_mydownload files there 0
        (pos 4)
        (some ((35 ∷ []) ∷ (52 ∷ []) ∷ []))
        two
      ≡ some (record {
        concurr_download_num = pos 0;
        max_download_num = pos 4;
        howmany_found = pos 0;
        howmany_need = pos 1;
        needlist = need;
        get_tosend_quene = [];
        get_sent_list = [];
        downloading_list = [];
      }))
    × (entries need ≡ (4, hash) ∷ [])
unfolding is_comment
reset_mydownload-Needs_example =
    reset_mydownload-Needs files there 0 (pos 4) ((35 ∷ []) ∷ (52 ∷ []) ∷ []) ((4, hash) ∷ []) two
      (IsFile.comment (IsFile.entry {line = 52 ∷ []} refl refl refl (hash-IsBytes 20) IsFile.nil))
