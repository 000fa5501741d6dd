-- ===== src/Download/Tally/Ending.antt =====
-- The counters of the downloads when a request becomes a download, and when a download ends (peer.c).
use p2pdown_loader.Prelude.{
  ℕ, suc, ◌+◌, ◌*◌, ◌<◌, ◌≡◌, subst, ap, ◌∙◌, none, some, some_inj, >>=-eq-some, if-eq-some, true,
  false, ltb, ◌==◌, Bool-cases, Option-cases, inl, inr, ◌⊎◌, length, pos, arith,
}
use p2pdown_loader.Window.{timeout_sec}
use p2pdown_loader.HashList.{HashChunk, Nodes, delete_node, delete_node_by_hash, move_node}
use p2pdown_loader.HashList.Lengths.{
  delete_node-length, delete_node_by_hash-minus, move_node-length,
}
use p2pdown_loader.Discovery.{DownloadConn}
use p2pdown_loader.Receiver.{create_recver}
use p2pdown_loader.Download.Updates.{length-update_node}
use p2pdown_loader.Download.{init_download, finish_one_download, check_recvdata_timeout}
use p2pdown_loader.Download.Tally.{IsTallied, less_one}

module _ {F : Type 0} where
  pub init_download-IsTallied :
      (m k now : ℕ) (conn : HashChunk F) (d d' : DownloadConn F)
      → 0 < length d.get_sent_list
      → init_download now conn d ≡ some d'
      → IsTallied m k d
      → IsTallied m k d'
  unfolding init_download
  init_download-IsTallied m k now conn d d' h e (c, b, x, f, n) =
      elim (Option-cases (move_node d.downloading_list d.get_sent_list (some conn))) [
        | inl g ↦ absurd (ground (arith, rw g at e))
        | inr ((coming, sent), g) ↦
            let (l1, l2) =
              move_node-length d.downloading_list d.get_sent_list conn (coming, sent) h g in
            let l3 =
              length-update_node
                (λ n. record n { timestamp = now; recver = some (create_recver n.hash) })
                conn.node_id coming in
            subst (IsTallied m k) (some_inj (rw g at e)) (
              c ∙ ap pos (omega (arith, l1, l2, l3)),
              omega (arith, l1, l2, l3, b),
              x,
              f ∙ ap pos (omega (arith, l1, l2, l3)),
              n,
            )
      ]

  pub finish_one_download-IsTallied :
      (m k : ℕ) (curr : HashChunk F) (d d' : DownloadConn F)
      → 0 < length d.downloading_list
      → finish_one_download curr d ≡ some d'
      → IsTallied m k d
      → IsTallied m (suc k) d'
  unfolding finish_one_download
  finish_one_download-IsTallied m k curr d d' h e (c, b, x, f, n) =
      at (Option-cases (delete_node_by_hash d.needlist curr.hash))
        (Option-cases (delete_node d.downloading_list (some curr.node_id)))
    where
      at :
          (delete_node_by_hash d.needlist curr.hash ≡ none)
            ⊎ ((need : Nodes F) × (delete_node_by_hash d.needlist curr.hash ≡ some need))
          → (delete_node d.downloading_list (some curr.node_id) ≡ none)
            ⊎ ((left : Nodes F) × (delete_node d.downloading_list (some curr.node_id) ≡ some left))
          → IsTallied m (suc k) d'
      at (inl g) _ = absurd (ground (arith, rw g at e))
      at (inr (need, g)) (inl l) = absurd (ground (arith, rw (g, l) at e))
      at (inr (need, g)) (inr (left, l)) =
          let l1 = delete_node_by_hash-minus d.needlist need curr.hash g in
          let l2 = delete_node-length d.downloading_list left curr.node_id h l in
          subst (IsTallied m (suc k)) (some_inj (rw (g, l) at e)) (
            less_one d.concurr_download_num _ (c ∙ ap pos (omega (arith, l2))),
            omega (arith, b, l2),
            x,
            f ∙ ap pos (omega (arith, l2)),
            n ∙ ap pos (omega (arith, l1)),
          )

  pub check_recvdata_timeout-IsTallied :
      (m k now : ℕ) (curr : HashChunk F) (d d' : DownloadConn F) (count : ℕ)
      → 0 < length d.downloading_list
      → check_recvdata_timeout now curr d ≡ some (d', count)
      → IsTallied m k d
      → IsTallied m k d'
  unfolding check_recvdata_timeout
  check_recvdata_timeout-IsTallied m k now curr d d' count h e (c, b, x, f, n) =
      at (Bool-cases (ltb (curr.timestamp + 5 * timeout_sec) now))
        (Option-cases (delete_node d.downloading_list (some curr.node_id)))
    where
      at :
          (ltb (curr.timestamp + 5 * timeout_sec) now ≡ true)
            ⊎ (ltb (curr.timestamp + 5 * timeout_sec) now ≡ false)
          → (delete_node d.downloading_list (some curr.node_id) ≡ none)
            ⊎ ((left : Nodes F) × (delete_node d.downloading_list (some curr.node_id) ≡ some left))
          → IsTallied m k d'
      at (inr l) _ =
          subst (λ (y : DownloadConn F × ℕ). IsTallied m k y.0) (some_inj (rw l at e))
            (c, b, x, f, n)
      at (inl l) (inl g) = absurd (ground (arith, rw (l, g) at e))
      at (inl l) (inr (left, g)) =
          let gone = delete_node-length d.downloading_list left curr.node_id h g in
          subst (λ (y : DownloadConn F × ℕ). IsTallied m k y.0) (some_inj (rw (l, g) at e))
            (
              less_one d.concurr_download_num _ (c ∙ ap pos (omega (arith, gone))),
              omega (arith, gone, b),
              x,
              less_one d.howmany_found _ (f ∙ ap pos (omega (arith, gone))),
              n,
            )

  -- A download that is not overdue stays, and nothing changes.
  pub check_recvdata_timeout-stays :
      (now : ℕ) (curr : HashChunk F) (d d' : DownloadConn F) (count : ℕ)
      → check_recvdata_timeout now curr d ≡ some (d', count)
      → (count == 0) ≡ true
      → d ≡ d'
  unfolding check_recvdata_timeout
  check_recvdata_timeout-stays now curr d d' count e none_gone =
      if-eq-some (d ≡ d') (ltb (curr.timestamp + 5 * timeout_sec) now) _ _
        (λ h.
          let (left, run, e1) =
            >>=-eq-some (delete_node d.downloading_list (some curr.node_id)) _ h in
          let one : 1 ≡ count = ap (λ (y : DownloadConn F × ℕ). y.1) (some_inj e1) in
          absurd (ground (arith, one, none_gone)))
        (λ h. ap (λ (y : DownloadConn F × ℕ). y.0) (some_inj h)) e
