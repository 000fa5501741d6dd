-- ===== src/HashList/Moves.antt =====
-- Looking up, moving and deleting nodes of the lists of hashlist.c.
use p2pdown_loader.Prelude.{
  ℕ, suc, length, ◌+◌, ◌≡◌, ◌≢◌, refl, ap, ◌∙◌, List, [], ◌∷◌, ◌++◌, Option, none, some, ◌==◌,
  bytes_eq, arith, Bool-cases, inl, inr, ◌⊎◌, true, false,
}
use mathlib.Core.List.{Perm, perm_middle}
use mathlib.Core.List.Perm
use p2pdown_loader.HashList.{
  HashChunk, Nodes, append_node, find_node, heads, find_prev_node, unlink, take_out, delete_node,
  delete_node_by_hash, move_node, length_of_list, clear_loop, clear_hashchunk_list,
}

pub ==_self : (a : ℕ) → (a == a) ≡ true
==_self a = ground arith

pub ==_eq : (a b : ℕ) → a ≡ b → (a == b) ≡ true
==_eq a b e = ground arith

pub ==_ne : (a b : ℕ) → a ≢ b → (a == b) ≡ false
==_ne a b ne = ground arith

module _ {F : Type 0} where
  -- `n` is the first node of the list with its identity.
  pub data IsIn (n : HashChunk F) : Nodes F → Type 0 where
    here : {list : Nodes F} → IsIn n (n ∷ list)
    there :
        {x : HashChunk F} {list : Nodes F} → x.node_id ≢ n.node_id → IsIn n list → IsIn n (x ∷ list)

  -- No node has the identity.
  pub data IsFresh (id : ℕ) : Nodes F → Type 0 where
    nil : IsFresh id []
    cons :
        {x : HashChunk F} {list : Nodes F}
        → id ≢ x.node_id
        → IsFresh id list
        → IsFresh id (x ∷ list)

  pub data IsDistinct : Nodes F → Type 0 where
    nil : IsDistinct []
    cons :
        {x : HashChunk F} {list : Nodes F}
        → IsFresh x.node_id list
        → IsDistinct list
        → IsDistinct (x ∷ list)

  -- No node has the hash.
  pub data IsLacking (hash : List ℕ) : Nodes F → Type 0 where
    nil : IsLacking hash []
    cons :
        {x : HashChunk F} {list : Nodes F}
        → bytes_eq x.hash hash ≡ false
        → IsLacking hash list
        → IsLacking hash (x ∷ list)

  pub IsFresh-IsIn :
      {id : ℕ} {n : HashChunk F} {list : Nodes F} → IsFresh id list → IsIn n list → id ≢ n.node_id
  IsFresh-IsIn nil i = elim i [ ]
  IsFresh-IsIn (IsFresh.cons ne _) here = ne
  IsFresh-IsIn (IsFresh.cons _ f) (there _ i) = IsFresh-IsIn f i

  -- A node that is not the first one has one before it.
  find_prev_node-IsIn :
      (n x : HashChunk F) (list : Nodes F)
      → IsIn n list
      → (p : HashChunk F) × (find_prev_node (x ∷ list) (some n.node_id) ≡ some p)
  unfolding find_prev_node heads
  find_prev_node-IsIn n x list here = (x, rw (==_self n.node_id) refl)
  find_prev_node-IsIn n x list (there {x = y} {list = rest} ne i) =
      let (p, e) = find_prev_node-IsIn n y rest i in (p, rw (==_ne y.node_id n.node_id ne) e)

  pub take_out-IsIn :
      (n : HashChunk F) (list : Nodes F)
      → IsIn n list
      → take_out list n.node_id ≡ some (unlink list n.node_id)
  unfolding take_out heads
  take_out-IsIn n list here = rw (==_self n.node_id) refl
  take_out-IsIn n list (there {x} {list = rest} ne i) =
      rw (==_ne x.node_id n.node_id ne, (find_prev_node-IsIn n x rest i).1) refl

  pub unlink-Perm :
      (n : HashChunk F) (list : Nodes F) → IsIn n list → Perm (n ∷ unlink list n.node_id) list
  unfolding unlink
  unlink-Perm n list (here {list = rest}) = rw (==_self n.node_id) (Perm.refl (n ∷ rest))
  unlink-Perm n list (there {x} {list = rest} ne i) =
      rw (==_ne x.node_id n.node_id ne)
        (Perm.trans (Perm.swap x n (unlink rest n.node_id)) (Perm.cons x (unlink-Perm n rest i)))

  -- One node is taken out, and the others stay.
  pub length-unlink :
      (n : HashChunk F) (list : Nodes F)
      → IsIn n list
      → suc (length (unlink list n.node_id)) ≡ length list
  unfolding unlink
  length-unlink n list here = rw (==_self n.node_id) refl
  length-unlink n list (there {x} {list = rest} ne i) =
      rw (==_ne x.node_id n.node_id ne) (ap suc (length-unlink n rest i))

  pub unlink-other :
      (n : HashChunk F) (id : ℕ) (list : Nodes F)
      → n.node_id ≢ id
      → IsIn n list
      → IsIn n (unlink list id)
  unfolding unlink
  unlink-other n id list other (here {list = rest}) = rw (==_ne n.node_id id other) here
  unlink-other n id list other (there {x} {list = rest} ne i) =
      elim (Bool-cases (x.node_id == id)) [
        | inl e ↦ rw e i
        | inr e ↦ rw e (there ne (unlink-other n id rest other i))
      ]

  -- Moving a node of one list to another one succeeds, puts it first, takes it out of the list that
  -- it was in, and neither loses nor doubles a node of the two lists.
  pub move_node-Perm :
      (to from : Nodes F) (n : HashChunk F)
      → IsIn n from
      → (move_node to from (some n) ≡ some (n ∷ to, unlink from n.node_id))
        × Perm ((n ∷ to) ++ unlink from n.node_id) (to ++ from)
  unfolding move_node append_node
  move_node-Perm to from n i = (runs from i, kept)
    where
      runs :
          (list : Nodes F)
          → IsIn n list
          → move_node to list (some n) ≡ some (n ∷ to, unlink list n.node_id)
      runs [] j = elim j [ ]
      runs (x ∷ list) j = rw (take_out-IsIn n (x ∷ list) j) refl

      kept : Perm ((n ∷ to) ++ unlink from n.node_id) (to ++ from)
      kept =
          Perm.trans (Perm.symm (perm_middle to (unlink from n.node_id)))
            (Perm.append_left to (unlink-Perm n from i))

  -- What `delete_node_by_hash` returns: the list without a node of the hash, or a fault for a hash
  -- that no node has.
  pub data Deleted (hash : List ℕ) (list : Nodes F) : Option (Nodes F) → Type 0 where
    deleted :
        (n : HashChunk F) (left : Nodes F)
        → bytes_eq n.hash hash ≡ true
        → Perm (n ∷ left) list
        → Deleted hash list (some left)
    crashed : IsLacking hash list → Deleted hash list none

  abbrev Found : List ℕ → Nodes F → HashChunk F → Type 0
  Found hash list n = (find_node list hash ≡ some n) × IsIn n list × (bytes_eq n.hash hash ≡ true)

  find_node-cases :
      (hash : List ℕ) (list : Nodes F)
      → IsDistinct list
      → ((find_node list hash ≡ none) × IsLacking hash list)
        ⊎ ((n : HashChunk F) × Found hash list n)
  unfolding find_node
  find_node-cases hash [] nil = inl (refl, nil)
  find_node-cases hash (x ∷ list) (IsDistinct.cons f d) =
      at (Bool-cases (bytes_eq x.hash hash)) (find_node-cases hash list d)
    where
      at :
          (bytes_eq x.hash hash ≡ true) ⊎ (bytes_eq x.hash hash ≡ false)
          → ((find_node list hash ≡ none) × IsLacking hash list)
            ⊎ ((n : HashChunk F) × Found hash list n)
          → ((find_node (x ∷ list) hash ≡ none) × IsLacking hash (x ∷ list))
            ⊎ ((n : HashChunk F) × Found hash (x ∷ list) n)
      at (inl e) _ = inr (x, (rw (e) refl, here, e))
      at (inr e) (inl (m, l)) = inl (rw (e) m, IsLacking.cons e l)
      at (inr e) (inr (n, (m, i, h))) = inr (n, (rw (e) m, there (IsFresh-IsIn f i) i, h))

  -- With distinct nodes, `delete_node_by_hash` takes out one node with the hash and keeps all the
  -- others; if no node has the hash, it reads through a null pointer.
  pub delete_node_by_hash-Deleted :
      (hash : List ℕ) (list : Nodes F)
      → IsDistinct list
      → Deleted hash list (delete_node_by_hash list hash)
  unfolding delete_node_by_hash
  delete_node_by_hash-Deleted hash list d = at (find_node-cases hash list d)
    where
      at :
          ((find_node list hash ≡ none) × IsLacking hash list)
            ⊎ ((n : HashChunk F) × Found hash list n)
          → Deleted hash list (delete_node_by_hash list hash)
      at (inl (m, l)) = rw (m) (crashed l)
      at (inr (n, (m, i, h))) =
          rw (m, take_out-IsIn n list i)
            (deleted n (unlink list n.node_id) h (unlink-Perm n list i))

  -- A node that is in a list is deleted from it.
  pub delete_node-IsIn :
      (n : HashChunk F) (list : Nodes F)
      → IsIn n list
      → delete_node list (some n.node_id) ≡ some (unlink list n.node_id)
  unfolding delete_node
  delete_node-IsIn n [] i = elim i [ ]
  delete_node-IsIn n (x ∷ list) i = take_out-IsIn n (x ∷ list) i

  -- A hash that the first node has is deleted with it.
  pub delete_node_by_hash-first :
      (n : HashChunk F) (list : Nodes F) (hash : List ℕ)
      → bytes_eq n.hash hash ≡ true
      → delete_node_by_hash (n ∷ list) hash ≡ some list
  unfolding delete_node_by_hash find_node take_out heads unlink
  delete_node_by_hash-first n list hash e = rw (e, ==_self n.node_id) refl

  -- `clear_hashchunk_list` never fails, leaves the empty list, and returns how many nodes there were.
  pub clear_hashchunk_list-length :
      (list : Nodes F) → clear_hashchunk_list list ≡ some ([], length_of_list list)
  unfolding clear_hashchunk_list clear_loop delete_node take_out heads unlink length_of_list
  clear_hashchunk_list-length list =
      rw (loop list 0) (ap (λ c. some ([], c)) {x = length_of_list list + 0} (omega arith))
    where
      loop : (l : Nodes F) (count : ℕ) → clear_loop l l count ≡ some ([], length_of_list l + count)
      loop [] count = ap (λ c. some ([], c)) {x = count} {y = 0 + count} (omega arith)
      loop (n ∷ l) count =
          rw (==_self n.node_id) (loop l (count + 1) ∙ ap (λ c. some ([], c)) (omega arith))
