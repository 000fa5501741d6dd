-- ===== src/HashList/Lengths.antt =====
-- How many nodes the operations of hashlist.c leave, wherever they do not fail.
use p2pdown_loader.Prelude.{
  ℕ, suc, ◌<◌, ◌≡◌, refl, sym, ap, ◌∙◌, List, [], ◌∷◌, none, some, some_inj, Bool-cases,
  Option-cases, inl, inr, ◌⊎◌, length, true, false, ◌==◌, arith,
}
use p2pdown_loader.Net.{Addr}
use p2pdown_loader.HashList.{
  HashChunk, Nodes, append_node, find_node, find_node_by_addr, heads, find_prev_node, unlink,
  take_out, delete_node, delete_node_by_hash, move_node,
}

module _ {F : Type 0} where
  unlink-head :
      (id : ℕ) (list : Nodes F)
      → heads list (some id) ≡ true
      → suc (length (unlink list id)) ≡ length list
  unfolding heads unlink
  unlink-head id [] e = cc
  unlink-head id (x ∷ list) e = rw e refl

  -- A node is behind another one, if one is there before it.
  unlink-behind :
      (n : HashChunk F) (list : Nodes F) (id : ℕ) (p : HashChunk F)
      → find_prev_node (n ∷ list) (some id) ≡ some p
      → suc (length (unlink list id)) ≡ length list
  unfolding find_prev_node heads unlink
  unlink-behind n [] id p e = cc
  unlink-behind n (x ∷ list) id p e = elim (Bool-cases (x.node_id == id)) [
    | inl h ↦ rw h refl
    | inr h ↦ rw h (ap suc (unlink-behind x list id p (rw h at e)))
  ]

  unlink-prev :
      (list : Nodes F) (id : ℕ) (p : HashChunk F)
      → find_prev_node list (some id) ≡ some p
      → suc (length (unlink list id)) ≡ length list
  unfolding find_prev_node unlink
  unlink-prev [] id p e = cc
  unlink-prev (n ∷ list) id p e = elim (Bool-cases (n.node_id == id)) [
    | inl h ↦ rw h refl
    | inr h ↦ rw h (ap suc (unlink-behind n list id p e))
  ]

  -- A node that is taken out was there.
  pub take_out-length :
      (list left : Nodes F) (id : ℕ)
      → take_out list id ≡ some left
      → suc (length left) ≡ length list
  unfolding take_out
  take_out-length list left id e =
      at (Bool-cases (heads list (some id))) (Option-cases (find_prev_node list (some id)))
    where
      at :
          (heads list (some id) ≡ true) ⊎ (heads list (some id) ≡ false)
          → (find_prev_node list (some id) ≡ none)
            ⊎ ((p : HashChunk F) × (find_prev_node list (some id) ≡ some p))
          → suc (length left) ≡ length list
      at (inl h) _ = ap (λ l. suc (length l)) (sym (some_inj (rw h at e))) ∙ unlink-head id list h
      at (inr h) (inl p) = absurd (ground (arith, rw (h, p) at e))
      at (inr h) (inr (p, q)) =
          ap (λ l. suc (length l)) (sym (some_inj (rw (h, q) at e))) ∙ unlink-prev list id p q

  pub delete_node-length :
      (list left : Nodes F) (id : ℕ)
      → 0 < length list
      → delete_node list (some id) ≡ some left
      → suc (length left) ≡ length list
  unfolding delete_node
  delete_node-length [] left id h e = absurd (omega arith)
  delete_node-length (n ∷ list) left id h e = take_out-length (n ∷ list) left id e

  pub delete_node_by_hash-minus :
      (list left : Nodes F) (hash : List ℕ)
      → delete_node_by_hash list hash ≡ some left
      → suc (length left) ≡ length list
  unfolding delete_node_by_hash
  delete_node_by_hash-minus list left hash e = elim (Option-cases (find_node list hash)) [
    | inl h ↦ absurd (ground (arith, rw h at e))
    | inr (n, h) ↦ take_out-length list left n.node_id (rw h at e)
  ]

  -- A node that is moved was in the one list, and is in the other one then.
  pub move_node-length :
      (to from : Nodes F) (n : HashChunk F) (moved : Nodes F × Nodes F)
      → 0 < length from
      → move_node to from (some n) ≡ some moved
      → (length moved.0 ≡ suc (length to)) × (suc (length moved.1) ≡ length from)
  unfolding move_node append_node
  move_node-length to [] n moved h e = absurd (omega arith)
  move_node-length to (x ∷ from) n moved h e = elim (Option-cases (take_out (x ∷ from) n.node_id)) [
    | inl t ↦ absurd (ground (arith, rw t at e))
    | inr (left, t) ↦
        let same : (n ∷ to, left) ≡ moved = some_inj (rw t at e) in
        (
          ap (λ (m : Nodes F × Nodes F). length m.0) (sym same),
          ap (λ (m : Nodes F × Nodes F). suc (length m.1)) (sym same)
              ∙ take_out-length (x ∷ from) left n.node_id t,
        )
  ]

  -- A list in which a node is found has one.
  pub find_node_by_addr-length :
      (inet_ntoa : ℕ → List ℕ) (list : Nodes F) (addr : Addr) (n : HashChunk F)
      → find_node_by_addr inet_ntoa list addr ≡ some n
      → 0 < length list
  unfolding find_node_by_addr
  find_node_by_addr-length inet_ntoa [] addr n e = cc
  find_node_by_addr-length inet_ntoa (x ∷ list) addr n e = omega arith

  pub find_node_by_addr-nil :
      (inet_ntoa : ℕ → List ℕ) (addr : Addr) → find_node_by_addr {F = F} inet_ntoa [] addr ≡ none
  unfolding find_node_by_addr
  find_node_by_addr-nil inet_ntoa addr = refl

  pub find_node-length :
      (list : Nodes F) (hash : List ℕ) (n : HashChunk F)
      → find_node list hash ≡ some n
      → 0 < length list
  unfolding find_node
  find_node-length [] hash n e = cc
  find_node-length (x ∷ list) hash n e = omega arith
