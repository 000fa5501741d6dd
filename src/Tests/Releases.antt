-- ===== src/Tests/Releases.antt =====
-- A node that is deleted with a window of one packet and an empty receiver.
use p2pdown_loader.Prelude.{
  ◌≡◌, refl, subst, [], ◌∷◌, some, none, some_inj, replicate, length, set, ℤ, pos,
}
use p2pdown_loader.Packet.{Packet}
use p2pdown_loader.Packet.Forms.{data_pack}
use p2pdown_loader.Window.{Window, sender_buf_size}
use p2pdown_loader.Receiver.{RecvState}
use p2pdown_loader.HashList.{HashChunk}
use p2pdown_loader.Release.{
  payload_block, packet_block, window_block, recver_block, node_block, del_packet, free_node,
}
use p2pdown_loader.Release.Freed.{HasBuffers, free_node-blocks}

abbrev pack : Packet
pack = data_pack 1 (104 ∷ [])

abbrev window : Window ℤ
window = record {
  hash = replicate 20 9;
  dst = record { ip = 1; port = 2 };
  flowid = 1;
  ssthresh = pos 64;
  lpa = 0;
  lps = 1;
  lpr = 2;
  count = pos 1;
  congwin_size = pos 1;
  sender_buf = set (replicate sender_buf_size none) 1 (some pack);
}

abbrev recver : RecvState
recver = record {
  hash = replicate 20 9;
  recv_buf = replicate sender_buf_size none;
  npe = 1;
  recv_bytesnum = pos 0;
}

abbrev node : HashChunk ℤ
node = record {
  node_id = 1;
  from = record { ip = 1; port = 2 };
  hash = replicate 20 9;
  chunkid = 0;
  timestamp = 0;
  cong_win = some window;
  recver = some recver;
}

node-HasBuffers : HasBuffers node
node-HasBuffers = (
  (λ w e. subst (λ (x : Window ℤ). length x.sender_buf ≡ sender_buf_size) (some_inj e) refl),
  (λ r e. subst (λ (x : RecvState). length x.recv_buf ≡ sender_buf_size) (some_inj e) refl),
)

free_node-blocks_example :
    free_node node
    ≡ some (
        payload_block (104 ∷ [])
        ∷ packet_block pack
        ∷ window_block (record window { sender_buf = replicate sender_buf_size none })
        ∷ recver_block recver
        ∷ node_block node
        ∷ [])
unfolding del_packet
free_node-blocks_example = free_node-blocks node node-HasBuffers
