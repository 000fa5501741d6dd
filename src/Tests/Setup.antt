-- ===== src/Tests/Setup.antt =====
-- A command line with the options `-c h -f m -i 1`, and a list of one peer.
use p2pdown_loader.Prelude.{ℕ, List, [], ◌∷◌, pos}
use p2pdown_loader.Net.{BtPeer}
use p2pdown_loader.Config.{BtConfig, bt_init, Opt, PeerLine, PeerVars}

abbrev opts : List Opt
opts = Opt.has_chunks (104 ∷ []) ∷ Opt.chunks (109 ∷ []) ∷ Opt.own_id (49 ∷ []) ∷ []

abbrev scan : List ℕ → PeerLine
scan line = PeerLine.whole (pos 1) (97 ∷ []) (pos 2222)

abbrev vars : PeerVars
vars = record { nodeid = pos 0; hostname = []; port = pos 0 }

abbrev peer : BtPeer
peer = record { id = 1; addr = record { ip = 2130706433; port = 2222 } }

abbrev config : BtConfig
config = record bt_init {
  has_chunk_file = 104 ∷ [];
  chunk_file = 109 ∷ [];
  identity = 1;
  myport = 2222;
  peers = peer ∷ [];
}
