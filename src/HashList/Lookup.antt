-- ===== src/HashList/Lookup.antt =====
-- Looking up the node of a peer in the lists of hashlist.c.
use p2pdown_loader.Prelude.{
  ℕ, ◌≡◌, ◌≢◌, refl, List, [], ◌∷◌, Option, none, some, ◌==◌, Bool-cases, inl, inr, ◌⊎◌, true,
  false, bytes_eq_refl,
}
use native.Mathlib.Decide.{ℕ_discrete}
use p2pdown_loader.Net.{Addr}
use p2pdown_loader.HashList.{HashChunk, Nodes, find_node_by_addr}
use p2pdown_loader.HashList.Moves.{==_self, ==_eq, ==_ne}

module _ {F : Type 0} where
  -- The first node with a port, or none if no node has it.
  pub data HasPort (port : ℕ) : Nodes F → Option (HashChunk F) → Type 0 where
    nil : HasPort port [] none
    here :
        {n : HashChunk F} {list : Nodes F} → n.from.port ≡ port → HasPort port (n ∷ list) (some n)
    there :
        {n : HashChunk F} {list : Nodes F} {o : Option (HashChunk F)}
        → n.from.port ≢ port
        → HasPort port list o
        → HasPort port (n ∷ list) o

  -- `find_node_by_addr` finds the first node with the port of the address, whatever `inet_ntoa`
  -- does: the IP addresses are not compared.
  pub find_node_by_addr-HasPort :
      (inet_ntoa : ℕ → List ℕ) (list : Nodes F) (addr : Addr)
      → HasPort addr.port list (find_node_by_addr inet_ntoa list addr)
  unfolding find_node_by_addr
  find_node_by_addr-HasPort inet_ntoa [] addr = nil
  find_node_by_addr-HasPort inet_ntoa (n ∷ list) addr =
      at (ℕ_discrete n.from.port addr.port) (find_node_by_addr-HasPort inet_ntoa list addr)
    where
      at :
          Dec (n.from.port ≡ addr.port)
          → HasPort addr.port list (find_node_by_addr inet_ntoa list addr)
          → HasPort addr.port (n ∷ list) (find_node_by_addr inet_ntoa (n ∷ list) addr)
      at (yes e) _ =
          rw (bytes_eq_refl (inet_ntoa addr.ip), ==_eq n.from.port addr.port e) (HasPort.here e)
      at (no ne) h =
          rw (bytes_eq_refl (inet_ntoa addr.ip), ==_ne n.from.port addr.port ne)
            (HasPort.there ne h)

  -- A node of a list is found by its own address, or one before it is.
  pub find_node_by_addr-head :
      (inet_ntoa : ℕ → List ℕ) (n : HashChunk F) (list : Nodes F)
      → find_node_by_addr inet_ntoa (n ∷ list) n.from ≡ some n
  unfolding find_node_by_addr
  find_node_by_addr-head inet_ntoa n list =
      rw (bytes_eq_refl (inet_ntoa n.from.ip), ==_self n.from.port) refl

  pub find_node_by_addr-tail :
      (inet_ntoa : ℕ → List ℕ) (n : HashChunk F) (list : Nodes F) (addr : Addr)
      → (find_node_by_addr inet_ntoa (n ∷ list) addr ≡ some n)
        ⊎ (find_node_by_addr inet_ntoa (n ∷ list) addr ≡ find_node_by_addr inet_ntoa list addr)
  unfolding find_node_by_addr
  find_node_by_addr-tail inet_ntoa n list addr = at (Bool-cases (n.from.port == addr.port))
    where
      at :
          ((n.from.port == addr.port) ≡ true) ⊎ ((n.from.port == addr.port) ≡ false)
          → (find_node_by_addr inet_ntoa (n ∷ list) addr ≡ some n)
            ⊎ (find_node_by_addr inet_ntoa (n ∷ list) addr ≡ find_node_by_addr inet_ntoa list addr)
      at (inl e) = inl (rw (bytes_eq_refl (inet_ntoa addr.ip), e) refl)
      at (inr e) = inr (rw (bytes_eq_refl (inet_ntoa addr.ip), e) refl)
