-- ===== src/Release/Freed.antt =====
-- What is freed with a node: every packet of its window and of its receiver, once.
use p2pdown_loader.Prelude.{
  ℕ, zero, suc, ◌+◌, ◌≡◌, refl, sym, ap, ◌∙◌, List, [], ◌∷◌, ◌++◌, Option, none, some, length, load,
  store, set, replicate, append_assoc, length-append, arith,
}
use p2pdown_loader.Packet.{Packet}
use p2pdown_loader.Window.{Window, sender_buf_size}
use p2pdown_loader.Window.Invariant.{store-in_range}
use p2pdown_loader.Receiver.{RecvState}
use p2pdown_loader.HashList.{HashChunk}
use p2pdown_loader.Release.{
  Block, payload_block, packet_block, window_block, recver_block, node_block, del_packet,
  release_loop, release_window, del_recver, when_some, free_node,
}

abbrev Slots : Type 0
Slots = List (Option Packet)

load-behind :
    (done : Slots) (slot : Option Packet) (rest : Slots) (i : ℕ)
    → length done ≡ i
    → load (done ++ (slot ∷ rest)) i ≡ slot
load-behind [] slot rest zero e = refl
load-behind [] slot rest (suc i) e = absurd (omega arith)
load-behind (x ∷ done) slot rest zero e = absurd (omega arith)
load-behind (x ∷ done) slot rest (suc i) e = load-behind done slot rest i (omega (arith, e))

set-behind :
    (done : Slots) (old slot : Option Packet) (rest : Slots) (i : ℕ)
    → length done ≡ i
    → set (done ++ (old ∷ rest)) i slot ≡ (done ++ (slot ∷ [])) ++ rest
set-behind [] old slot rest zero e = refl
set-behind [] old slot rest (suc i) e = absurd (omega arith)
set-behind (x ∷ done) old slot rest zero e = absurd (omega arith)
set-behind (x ∷ done) old slot rest (suc i) e =
    ap (λ l. x ∷ l) (set-behind done old slot rest i (omega (arith, e)))

store-behind :
    (done : Slots) (old slot : Option Packet) (rest : Slots) (i : ℕ)
    → length done ≡ i
    → store (done ++ (old ∷ rest)) i slot ≡ some ((done ++ (slot ∷ [])) ++ rest)
store-behind done old slot rest i e =
    store-in_range (done ++ (old ∷ rest)) i slot (omega (arith, e, length-append done (old ∷ rest)))
    ∙ ap some (set-behind done old slot rest i e)

module _ {F : Type 0} where
  -- The blocks of a packet: its payload, if it has one, and the struct.
  abbrev pub payload_blocks : Option (List ℕ) → List (Block F)
  payload_blocks none = []
  payload_blocks (some bytes) = payload_block bytes ∷ []

  abbrev pub packet_blocks : Packet → List (Block F)
  packet_blocks pack = payload_blocks pack.payload ++ (packet_block pack ∷ [])

  del_packet-blocks : (pack : Packet) → del_packet pack ≡ packet_blocks pack
  unfolding del_packet
  del_packet-blocks pack = at pack.payload
    where
      at :
          (o : Option (List ℕ))
          → (elim o [
            | none ↦ packet_block pack ∷ []
            | some bytes ↦ payload_block bytes ∷ packet_block pack ∷ []
          ])
            ≡ payload_blocks o ++ (packet_block pack ∷ [])
      at none = refl
      at (some bytes) = refl

  -- The blocks of the packets in a buffer, slot by slot.
  abbrev pub blocks_of : Slots → List (Block F)
  blocks_of [] = []
  blocks_of (none ∷ buf) = blocks_of buf
  blocks_of (some pack ∷ buf) = packet_blocks pack ++ blocks_of buf

  release_loop-blocks_of :
      (buf done : Slots) (i : ℕ)
      → length done ≡ i
      → release_loop {F = F} (length buf) i (done ++ buf)
        ≡ some (done ++ replicate (length buf) none, blocks_of buf)
  unfolding release_loop
  release_loop-blocks_of [] done i e = refl
  release_loop-blocks_of (none ∷ buf) done i e =
      let same : done ++ (none ∷ buf) ≡ (done ++ (none ∷ [])) ++ buf =
        sym (append_assoc done (none ∷ []) buf) in
      let later =
        release_loop-blocks_of buf (done ++ (none ∷ [])) (i + 1)
          (omega (arith, e, length-append done (none ∷ []))) in
      rw (load-behind done none buf i e, release_loop)
        (ap (release_loop (length buf) (i + 1)) same
          ∙ later
          ∙ ap (λ l. some (l, blocks_of buf))
              (append_assoc done (none ∷ []) (replicate (length buf) none)))
  release_loop-blocks_of (some pack ∷ buf) done i e =
      let later =
        release_loop-blocks_of buf (done ++ (none ∷ [])) (i + 1)
          (omega (arith, e, length-append done (none ∷ []))) in
      rw
        (
          load-behind done (some pack) buf i e,
          store-behind done (some pack) none buf i e,
          later,
          release_loop,
          del_packet-blocks pack,
        )
        (ap (λ l. some (l, packet_blocks pack ++ blocks_of buf))
          (append_assoc done (none ∷ []) (replicate (length buf) none)))

  all_slots :
      (buf : Slots)
      → length buf ≡ sender_buf_size
      → release_loop {F = F} sender_buf_size 0 buf
        ≡ some (replicate (length buf) none, blocks_of buf)
  all_slots buf e = ap (λ n. release_loop n 0 buf) (sym e) ∙ release_loop-blocks_of buf [] 0 refl

  -- The blocks of a window and of a receiver: their packets, and then the struct itself.
  abbrev pub window_blocks : Option (Window F) → List (Block F)
  window_blocks none = []
  window_blocks (some w) =
      blocks_of w.sender_buf
      ++ (window_block (record w { sender_buf = replicate (length w.sender_buf) none }) ∷ [])

  abbrev pub recver_blocks : Option RecvState → List (Block F)
  recver_blocks none = []
  recver_blocks (some r) =
      blocks_of r.recv_buf
      ++ (recver_block (record r { recv_buf = replicate (length r.recv_buf) none }) ∷ [])

  -- Buffers of the size that the loops go over.
  abbrev pub HasBuffers : HashChunk F → Type 0
  HasBuffers n =
      ((w : Window F) → n.cong_win ≡ some w → length w.sender_buf ≡ sender_buf_size)
      × ((r : RecvState) → n.recver ≡ some r → length r.recv_buf ≡ sender_buf_size)

  windows-freed :
      (o : Option (Window F))
      → ((w : Window F) → o ≡ some w → length w.sender_buf ≡ sender_buf_size)
      → when_some o release_window ≡ some (window_blocks o)
  unfolding when_some release_window
  windows-freed none h = refl
  windows-freed (some w) h = rw (all_slots w.sender_buf (h w refl)) refl

  recvers-freed :
      (o : Option RecvState)
      → ((r : RecvState) → o ≡ some r → length r.recv_buf ≡ sender_buf_size)
      → when_some o del_recver ≡ some (recver_blocks o)
  unfolding when_some del_recver
  recvers-freed none h = refl
  recvers-freed (some r) h = rw (all_slots r.recv_buf (h r refl)) refl

  -- With a node that is deleted go, once each and in this order: the packets of its window with
  -- their payloads, slot by slot, and the window; those of its receiver, and the receiver; and the
  -- node. Nothing else is freed, and nothing of it is left.
  pub free_node-blocks :
      (n : HashChunk F)
      → HasBuffers n
      → free_node n
        ≡ some (window_blocks n.cong_win ++ (recver_blocks n.recver ++ (node_block n ∷ [])))
  unfolding free_node
  free_node-blocks n h = rw (windows-freed n.cong_win h.0, recvers-freed n.recver h.1) refl
