-- ===== src/Download/Tally.antt =====
-- The counters of the downloads of peer.c against the lists that they are to count.
pub mod Ending
pub mod Sending
pub mod Filling
pub mod Idle
use p2pdown_loader.Prelude.{
  ℕ, zero, suc, ◌+◌, ◌-◌, ◌*◌, ◌≤◌, ◌<◌, ◌≡◌, refl, sym, subst, ap, ◌∙◌, List, [], ◌∷◌, ◌++◌,
  Option, none, some, some_inj, >>=-eq-some, if-eq-some, Bool, true, false, ltb, ◌==◌, ◌&&◌, not,
  Bool-cases, Option-cases, inl, inr, ◌⊎◌, length, ◌>>=◌, ℤ, pos, negsuc, ◌+ℤ◌, ◌-ℤ◌, ◌≤ℤ◌, arith,
  slice,
}
use p2pdown_loader.Net.{Addr}
use p2pdown_loader.Window.{timeout_sec}
use p2pdown_loader.HashList.{
  HashChunk, Nodes, heads, find_prev_node, unlink, take_out, delete_node, delete_node_by_hash,
  move_node, append_node, find_node, find_node_by_addr, create_node,
}
use p2pdown_loader.HashList.Lengths.{
  delete_node-length, delete_node_by_hash-minus, move_node-length, find_node_by_addr-length,
  find_node-length,
}
use p2pdown_loader.Discovery.{DownloadConn}
use p2pdown_loader.Receiver.{create_recver}
use p2pdown_loader.Download.Updates.{length-update_node}
use p2pdown_loader.Download.{
  update_node, drop_request, timeout_loop, check_timeout, init_download, finish_one_download,
  check_recvdata_timeout, queue_request, fill_toget_list,
}

pub plus_pos : (z : ℤ) (n a : ℕ) → z ≡ pos n → z +ℤ pos a ≡ pos (n + a)
plus_pos z n a e = ground (arith, e)

pub less_one : (z : ℤ) (n : ℕ) → z ≡ pos (suc n) → z -ℤ pos 1 ≡ pos n
less_one (pos x) n e = ground (arith, e)
less_one (negsuc x) n e = cc

module _ {F : Type 0} where
  -- The chunks that were asked for or are coming in, and those that were found.
  abbrev pub under_way : DownloadConn F → ℕ
  under_way d = length d.get_sent_list + length d.downloading_list

  abbrev pub in_lists : DownloadConn F → ℕ
  in_lists d = length d.get_tosend_quene + under_way d

  -- With room for `m` downloads, and `k` chunks finished: the downloads that are counted are the
  -- requests sent and the chunks that come in, and they are at most `m`; the chunks that were found
  -- are these, those in the queue and those finished; the chunks of the file are those still needed
  -- and those finished.
  abbrev pub IsTallied : ℕ → ℕ → DownloadConn F → Type 0
  IsTallied m k d =
      (d.concurr_download_num ≡ pos (under_way d))
      × (under_way d ≤ m)
      × (d.max_download_num ≡ pos m)
      × (d.howmany_found ≡ pos (k + in_lists d))
      × (d.howmany_need ≡ pos (k + length d.needlist))

  -- A request that was sent, and goes, is counted no more.
  pub IsTallied-drop :
      (m k : ℕ) (d : DownloadConn F) (left : Nodes F)
      → suc (length left) ≡ length d.get_sent_list
      → IsTallied m k d
      → IsTallied m k (record d {
        get_sent_list = left;
        concurr_download_num = d.concurr_download_num -ℤ pos 1;
        howmany_found = d.howmany_found -ℤ pos 1;
      })
  IsTallied-drop m k d left e (c, b, x, f, n) = (
    less_one d.concurr_download_num _ (c ∙ ap pos (omega (arith, e))),
    omega (arith, e, b),
    x,
    less_one d.howmany_found _ (f ∙ ap pos (omega (arith, e))),
    n,
  )

  abbrev Dropped : ℕ → ℕ → DownloadConn F → DownloadConn F × ℕ → Type 0
  Dropped m k d x = IsTallied m k x.0 × (length d.get_sent_list ≤ suc (length x.0.get_sent_list))

  drop_request-IsTallied :
      (m k now : ℕ) (curr : HashChunk F) (d d' : DownloadConn F) (count count' : ℕ)
      → 0 < length d.get_sent_list
      → drop_request now curr (d, count) ≡ some (d', count')
      → IsTallied m k d
      → IsTallied m k d' × (length d.get_sent_list ≤ suc (length d'.get_sent_list))
  unfolding drop_request
  drop_request-IsTallied m k now curr d d' count count' h e t =
      at (Bool-cases (ltb (curr.timestamp + 5 * timeout_sec) now))
        (Option-cases (delete_node d.get_sent_list (some curr.node_id)))
    where
      at :
          (ltb (curr.timestamp + 5 * timeout_sec) now ≡ true)
            ⊎ (ltb (curr.timestamp + 5 * timeout_sec) now ≡ false)
          → (delete_node d.get_sent_list (some curr.node_id) ≡ none)
            ⊎ ((left : Nodes F) × (delete_node d.get_sent_list (some curr.node_id) ≡ some left))
          → IsTallied m k d' × (length d.get_sent_list ≤ suc (length d'.get_sent_list))
      at (inr l) _ = subst (Dropped m k d) (some_inj (rw l at e)) (t, omega arith)
      at (inl l) (inl g) = absurd (ground (arith, rw (l, g) at e))
      at (inl l) (inr (left, g)) =
          let gone = delete_node-length d.get_sent_list left curr.node_id h g in
          subst (Dropped m k d) (some_inj (rw (l, g) at e))
            (IsTallied-drop m k d left gone t, omega (arith, gone))

  timeout_loop-IsTallied :
      (m k now : ℕ) (list : Nodes F) (d d' : DownloadConn F) (count count' : ℕ)
      → length list ≤ length d.get_sent_list
      → timeout_loop now list (d, count) ≡ some (d', count')
      → IsTallied m k d
      → IsTallied m k d'
  unfolding timeout_loop
  timeout_loop-IsTallied m k now [] d d' count count' h e t =
      subst (λ (x : DownloadConn F × ℕ). IsTallied m k x.0) (some_inj e) t
  timeout_loop-IsTallied m k now (curr ∷ list) d d' count count' h e t =
      elim (Option-cases (drop_request now curr (d, count))) [
        | inl g ↦ absurd (ground (arith, rw g at e))
        | inr ((d1, count1), g) ↦
            let (t1, l) =
              drop_request-IsTallied m k now curr d d1 count count1 (omega (arith, h)) g t in
            timeout_loop-IsTallied m k now list d1 d' count1 count' (omega (arith, h, l))
              (rw g at e) t1
      ]

  pub check_timeout-IsTallied :
      (m k now : ℕ) (d d' : DownloadConn F) (count : ℕ)
      → check_timeout now d ≡ some (d', count)
      → IsTallied m k d
      → IsTallied m k d'
  unfolding check_timeout
  check_timeout-IsTallied m k now d d' count e t =
      timeout_loop-IsTallied m k now d.get_sent_list d d' 0 count (omega arith) e t
