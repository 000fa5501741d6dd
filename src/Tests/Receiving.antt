-- ===== src/Tests/Receiving.antt =====
-- The receiver and a chunk of three bytes.
use p2pdown_loader.Prelude.{ℕ, List, [], ◌∷◌, arith}
use p2pdown_loader.Packet.{Packet}
use p2pdown_loader.Packet.Forms.{data_pack, data_pack-IsDataPack}
use p2pdown_loader.Net.{Addr}
use p2pdown_loader.Receiver.{create_recver}
use p2pdown_loader.Receiver.Invariant.{IsPart, create_recver-Holds}
use p2pdown_loader.Receiver.Answers.{After, upon_receiving_datapack-After}

abbrev chunk : List ℕ
chunk = 1 ∷ 2 ∷ 3 ∷ []

abbrev there : Addr
there = record { ip = 2130706433; port = 2222 }

abbrev pub pack : Packet
pack = data_pack 1 chunk

pub first-IsPart : IsPart chunk 1
first-IsPart = record { from_one = omega arith; reached = omega arith }

upon_receiving_datapack-After_example : After chunk there pack (create_recver [])
upon_receiving_datapack-After_example =
    upon_receiving_datapack-After chunk there pack (create_recver [])
      (create_recver-Holds chunk [] (omega arith)) first-IsPart
      (data_pack-IsDataPack 1 chunk (omega arith) (omega arith) (omega arith))
