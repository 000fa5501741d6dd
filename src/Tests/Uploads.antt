-- ===== src/Tests/Uploads.antt =====
-- The peer's loop over one upload, of three bytes.
use p2pdown_loader.Prelude.{◌+◌, refl, [], ◌∷◌, none, some, arith, replicate, pos, ℤ}
use p2pdown_loader.HashList.{HashChunk}
use p2pdown_loader.HashList.Moves.{IsFresh, IsDistinct}
use p2pdown_loader.Peer.{UploadConn}
use p2pdown_loader.Peer.Loop.{Moment}
use p2pdown_loader.Peer.Loop.Uploads.{IsLive, AllLive, Looped, upload_loop-Looped}
use p2pdown_loader.Tests.Sender.{no_master, whole, chunk, there, sent, sent-IsValid}

abbrev node : HashChunk ℤ
node = record {
  node_id = 5;
  from = there;
  hash = replicate 20 9;
  chunkid = 1;
  timestamp = 100;
  cong_win = some sent;
  recver = none;
}

abbrev up : UploadConn ℤ
up = record {
  concurr_upload_num = pos 1;
  max_upload_num = pos 4;
  uploading_list = node ∷ [];
  uploaded_list = [];
}

abbrev moment : Moment
moment = record {
  clock = λ i. 101 + i;
  tick = 101;
  sys = record { inet_ntoa = λ a. []; malloc = λ i. i; now = 102; flowid = 7; master = no_master };
}

node-IsLive : IsLive whole (λ i. moment) moment node
node-IsLive = record {
  chunk = chunk;
  window = sent;
  has_window = refl;
  valid = sent-IsValid;
  in_time = omega arith;
}

upload_loop-Looped_example : Looped whole (λ i. moment) 0 (node ∷ []) up
upload_loop-Looped_example =
    upload_loop-Looped whole (λ i. moment) up (AllLive.cons node-IsLive AllLive.nil)
      (IsDistinct.cons IsFresh.nil IsDistinct.nil) refl
