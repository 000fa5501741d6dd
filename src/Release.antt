-- ===== src/Release.antt =====
-- Freeing a node's window and receiver: `del_packet` of packet.c, `release_window` and `del_Recver` of
-- sock_io.c, and the part of `delete_node` of hashlist.c that calls them.
pub mod Freed
use p2pdown_loader.Prelude.{
  ℕ, zero, suc, ◌+◌, ◌<◌, ◌≡◌, refl, sym, ap, ◌∙◌, List, [], ◌∷◌, ◌++◌, Option, none, some, ◌>>=◌,
  length, load, store, replicate, append_assoc, length-append, ltb, lt→ltb, set, true, arith,
}
use p2pdown_loader.Packet.{Packet}
use p2pdown_loader.Window.{Window, sender_buf_size}
use p2pdown_loader.Receiver.{RecvState}
use p2pdown_loader.HashList.{HashChunk}

-- The blocks that are freed.
pub data Block (F : Type 0) : Type 0 where
  payload_block : List ℕ → Block F
  packet_block : Packet → Block F
  window_block : Window F → Block F
  recver_block : RecvState → Block F
  node_block : HashChunk F → Block F

module _ {F : Type 0} where
  unfoldable pub del_packet : Packet → List (Block F)
  del_packet p = elim p.payload [
    | none ↦ packet_block p ∷ []
    | some bytes ↦ payload_block bytes ∷ packet_block p ∷ []
  ]

  -- The loop over the slots, of which `left` are left from `i` on.
  pub release_loop : ℕ → ℕ → List (Option Packet) → Option (List (Option Packet) × List (Block F))
  unfolding del_packet
  release_loop zero i buf = some (buf, [])
  release_loop (suc left) i buf = elim (load buf i) [
    | none ↦ release_loop left (i + 1) buf
    | some pack ↦ do
      buf' ← store buf i none
      (buf'', freed) ← release_loop left (i + 1) buf'
      some (buf'', del_packet pack ++ freed)
  ]

  pub release_window : Window F → Option (List (Block F))
  unfolding release_loop
  release_window w = do
    (buf, freed) ← release_loop sender_buf_size 0 w.sender_buf
    some (freed ++ (window_block (record w { sender_buf = buf }) ∷ []))

  pub del_recver : RecvState → Option (List (Block F))
  unfolding release_loop
  del_recver r = do
    (buf, freed) ← release_loop sender_buf_size 0 r.recv_buf
    some (freed ++ (recver_block (record r { recv_buf = buf }) ∷ []))

  pub when_some : {A : Type 0} → Option A → (A → Option (List (Block F))) → Option (List (Block F))
  when_some none f = some []
  when_some (some a) f = f a

  -- What `delete_node` frees of the node that it has taken out.
  pub free_node : HashChunk F → Option (List (Block F))
  unfolding when_some release_window del_recver
  free_node node = do
    windows ← when_some node.cong_win release_window
    recvers ← when_some node.recver del_recver
    some (windows ++ (recvers ++ (node_block node ∷ [])))
