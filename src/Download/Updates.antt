-- ===== src/Download/Updates.antt =====
-- A change to a node where a list has it, as peer.c makes through a pointer to the node, and the end
-- of a download.
use p2pdown_loader.Prelude.{
  ℕ, ◌≢◌, [], ◌∷◌, suc, length, Bool-cases, inl, inr, sym, ap, ◌≡◌, refl, ◌∙◌, some, pos, ◌-ℤ◌,
  ◌==◌, true, false, arith,
}
use p2pdown_loader.HashList.{HashChunk, Nodes, unlink, delete_node_by_hash}
use p2pdown_loader.HashList.Moves.{IsIn, here, there, delete_node-IsIn}
use p2pdown_loader.Download.{update_node, finish_one_download}
use p2pdown_loader.Discovery.{DownloadConn}

module _ {F : Type 0} where
  -- The node is there after the change, if that keeps its identity.
  pub update_node-IsIn :
      (f : HashChunk F → HashChunk F) (n : HashChunk F) (list : Nodes F)
      → ((x : HashChunk F) → (f x).node_id ≡ x.node_id)
      → IsIn n list
      → IsIn (f n) (update_node f n.node_id list)
  unfolding update_node
  update_node-IsIn f n list same (here {list = rest}) =
      let self : (n.node_id == n.node_id) ≡ true = ground arith in rw self here
  update_node-IsIn f n list same (there {x} {list = rest} ne i) =
      let other : (x.node_id == n.node_id) ≡ false = ground (arith, ne) in
      rw other (there (λ e. ne (e ∙ same n)) (update_node-IsIn f n rest same i))

  -- The other nodes stay, and so does their number.
  pub update_node-other :
      (f : HashChunk F → HashChunk F) (n : HashChunk F) (id : ℕ) (list : Nodes F)
      → ((x : HashChunk F) → (f x).node_id ≡ x.node_id)
      → n.node_id ≢ id
      → IsIn n list
      → IsIn n (update_node f id list)
  unfolding update_node
  update_node-other f n id list same other (here {list = rest}) =
      let not_it : (n.node_id == id) ≡ false = ground (arith, other) in rw not_it here
  update_node-other f n id list same other (there {x} {list = rest} ne i) =
      elim (Bool-cases (x.node_id == id)) [
        | inl e ↦ rw e (there (λ g. ne (sym (same x) ∙ g)) i)
        | inr e ↦ rw e (there ne (update_node-other f n id rest same other i))
      ]

  pub length-update_node :
      (f : HashChunk F → HashChunk F) (id : ℕ) (list : Nodes F)
      → length (update_node f id list) ≡ length list
  unfolding update_node
  length-update_node f id [] = refl
  length-update_node f id (x ∷ list) = elim (Bool-cases (x.node_id == id)) [
    | inl e ↦ rw e refl
    | inr e ↦ rw e (ap suc (length-update_node f id list))
  ]

  -- A download in the list whose hash is needed is finished.
  pub finish_one_download-runs :
      (curr : HashChunk F) (down : DownloadConn F) (need : Nodes F)
      → delete_node_by_hash down.needlist curr.hash ≡ some need
      → IsIn curr down.downloading_list
      → finish_one_download curr down
        ≡ some (record down {
          needlist = need;
          downloading_list = unlink down.downloading_list curr.node_id;
          concurr_download_num = down.concurr_download_num -ℤ pos 1;
        })
  unfolding finish_one_download
  finish_one_download-runs curr down need e i =
      rw (e, delete_node-IsIn curr down.downloading_list i) refl
