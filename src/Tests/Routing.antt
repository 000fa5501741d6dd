-- ===== src/Tests/Routing.antt =====
-- The router's header at work: a message of three bytes from one peer to another.
use p2pdown_loader.Prelude.{ℕ, List, [], ◌∷◌, true}
use p2pdown_loader.Net.{Addr}
use p2pdown_loader.Spiffy.{Spiffy}

abbrev router : Addr
router = record { ip = 2130706433; port = 5000 }

abbrev one : Spiffy
one = record {
  enabled = true;
  node_id = 1;
  src = record { ip = 2130706433; port = 1111 };
  router = router;
}

abbrev two : Spiffy
two = record {
  enabled = true;
  node_id = 2;
  src = record { ip = 2130706433; port = 2222 };
  router = router;
}

abbrev msg : List ℕ
msg = 1 ∷ 2 ∷ 3 ∷ []
