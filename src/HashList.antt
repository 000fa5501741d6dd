-- ===== src/HashList.antt =====
-- hashlist.h and hashlist.c: the linked lists of chunks. A list is the sequence of its nodes, and a
-- pointer to a node is the node's `node_id`; `none` is a fault.
pub mod Moves
pub mod Lookup
pub mod Lengths
use p2pdown_loader.Prelude.{
  ℕ, suc, ◌+◌, List, [], ◌∷◌, Option, none, some, Bool, true, false, ◌==◌, ◌&&◌, if◌then◌else◌,
  ◌>>=◌, bytes_eq,
}
use p2pdown_loader.Net.{Addr}
use p2pdown_loader.Window.{Window}
use p2pdown_loader.Receiver.{RecvState}

abbrev pub hash_size : ℕ
hash_size = 20

-- `hash_chunk`, less the link to the next one; `hash` is its first `hash_size` bytes.
-- `chunkid` is an `int`, taken not to be negative.
pub record HashChunk (F : Type 0) : Type 0 where
  pub node_id : ℕ
  pub from : Addr
  pub hash : List ℕ
  pub chunkid : ℕ
  pub timestamp : ℕ
  pub cong_win : Option (Window F)
  pub recver : Option RecvState

abbrev pub Nodes : Type 0 → Type 0
Nodes F = List (HashChunk F)

module _ {F : Type 0} where
  unfoldable pub append_node : Nodes F → HashChunk F → Nodes F
  append_node list node = node ∷ list

  unfoldable pub find_node : Nodes F → List ℕ → Option (HashChunk F)
  find_node [] hash = none
  find_node (curr ∷ list) hash = if bytes_eq curr.hash hash then some curr else find_node list hash

  -- `inet_ntoa` gives the text of an address in one buffer that its next call writes over, so that
  -- both of the compared pointers are to the text that came last.
  unfoldable pub find_node_by_addr : (ℕ → List ℕ) → Nodes F → Addr → Option (HashChunk F)
  find_node_by_addr inet_ntoa [] addr = none
  find_node_by_addr inet_ntoa (curr ∷ list) addr =
      let shared = inet_ntoa addr.ip in
      if bytes_eq shared shared && (curr.from.port == addr.port)
      then some curr
      else find_node_by_addr inet_ntoa list addr

  -- Is the node that a list begins with the one that a pointer is to? Both may be null.
  unfoldable pub heads : Nodes F → Option ℕ → Bool
  heads [] none = true
  heads [] (some _) = false
  heads (_ ∷ _) none = false
  heads (n ∷ _) (some id) = n.node_id == id

  pub find_prev_node : Nodes F → Option ℕ → Option (HashChunk F)
  find_prev_node [] now = none
  find_prev_node (curr ∷ list) now = if heads list now then some curr else find_prev_node list now

  -- The list once the link to the node leads past it.
  unfoldable pub unlink : Nodes F → ℕ → Nodes F
  unlink [] id = []
  unlink (n ∷ list) id = if n.node_id == id then list else n ∷ unlink list id

  -- What `delete_node` and `move_node` share: a node that is not the first one is taken out by a
  -- write to the one before it, which must be there.
  unfoldable pub take_out : Nodes F → ℕ → Option (Nodes F)
  take_out list id =
      if heads list (some id)
      then some (unlink list id)
      else do prev ← find_prev_node list (some id); some (unlink list id)

  unfoldable pub delete_node : Nodes F → Option ℕ → Option (Nodes F)
  delete_node list none = some list
  delete_node [] (some id) = some []
  delete_node (n ∷ list) (some id) = take_out (n ∷ list) id

  -- `delete_node_by_hash`: the node that is looked for is not tested for null.
  unfoldable pub delete_node_by_hash : Nodes F → List ℕ → Option (Nodes F)
  delete_node_by_hash list hash = do curr ← find_node list hash; take_out list curr.node_id

  -- `move_node`: the list that the node goes to, and the one that it comes from.
  unfoldable pub move_node : Nodes F → Nodes F → Option (HashChunk F) → Option (Nodes F × Nodes F)
  move_node to from none = some (to, from)
  move_node to [] (some node) = some (to, [])
  move_node to (n ∷ from) (some node) = do
    left ← take_out (n ∷ from) node.node_id
    some (append_node to node, left)

  -- `create_node` at the address that `malloc` gave.
  unfoldable pub create_node : ℕ → Addr → List ℕ → ℕ → HashChunk F
  create_node id from hash chunk_id = record {
    node_id = id;
    from = from;
    hash = hash;
    chunkid = chunk_id;
    timestamp = 0;
    cong_win = none;
    recver = none;
  }

  unfoldable pub length_of_list : Nodes F → ℕ
  length_of_list [] = 0
  length_of_list (_ ∷ list) = suc (length_of_list list)

  -- The loop of `clear_hashchunk_list` over the nodes that are left.
  unfoldable pub clear_loop : Nodes F → Nodes F → ℕ → Option (Nodes F × ℕ)
  clear_loop [] list count = some (list, count)
  clear_loop (curr ∷ next) list count = do
    list' ← delete_node list (some curr.node_id)
    clear_loop next list' (count + 1)

  unfoldable pub clear_hashchunk_list : Nodes F → Option (Nodes F × ℕ)
  unfolding clear_loop
  clear_hashchunk_list list = do (_, count) ← clear_loop list list 0; some ([], count)
