-- ===== src/Download/Tally/Filling.antt =====
-- The counters of the downloads when an IHAVE packet fills the queue (`fill_toget_list` of peer.c).
use p2pdown_loader.Prelude.{
  ℕ, zero, suc, ◌+◌, ◌*◌, ◌≡◌, refl, subst, ap, ◌∙◌, List, Option, none, some, some_inj, Bool, true,
  false, Option-cases, inl, inr, ◌⊎◌, slice, ◌>>=◌, pos, arith, if◌then◌else◌,
}
use p2pdown_loader.Net.{Addr}
use p2pdown_loader.HashList.{HashChunk, hash_size, append_node, create_node, delete_node, find_node}
use p2pdown_loader.HashList.Lengths.{delete_node-length, find_node-length}
use p2pdown_loader.Discovery.{DownloadConn}
use p2pdown_loader.Download.{queue_request, fill_toget_list}
use p2pdown_loader.Download.Tally.{IsTallied, plus_pos}

module _ {F : Type 0} (inet_ntoa : ℕ → List ℕ) (m k : ℕ) where
  queue_request-IsTallied :
      (id : ℕ) (from : Addr) (hash : List ℕ) (needed : HashChunk F) (d d' : DownloadConn F)
      → queue_request inet_ntoa id from hash needed d ≡ some d'
      → IsTallied m k d
      → IsTallied m k d'
  unfolding queue_request append_node
  queue_request-IsTallied id from hash needed d d' e (c, b, x, f, n) =
      at (Option-cases (find_node d.get_tosend_quene hash))
    where
      again :
          (stored : HashChunk F)
          → find_node d.get_tosend_quene hash ≡ some stored
          → (moves : Bool)
          → (if moves
              then (do
                tosend ← delete_node d.get_tosend_quene (some stored.node_id)
                some (record d {
                  get_tosend_quene = append_node tosend (create_node id from hash needed.chunkid);
                }))
              else some d)
            ≡ some d'
          → IsTallied m k d'
      again stored g false h = subst (IsTallied m k) (some_inj h) (c, b, x, f, n)
      again stored g true h =
          elim (Option-cases (delete_node d.get_tosend_quene (some stored.node_id))) [
            | inl l ↦ absurd (ground (arith, rw l at h))
            | inr (left, l) ↦
                let gone =
                  delete_node-length d.get_tosend_quene left stored.node_id
                    (find_node-length d.get_tosend_quene hash stored g) l in
                subst (IsTallied m k) (some_inj (rw l at h))
                  (c, b, x, f ∙ ap pos (omega (arith, gone)), n)
          ]

      at :
          (find_node d.get_tosend_quene hash ≡ none)
            ⊎ ((stored : HashChunk F) × (find_node d.get_tosend_quene hash ≡ some stored))
          → IsTallied m k d'
      at (inl g) =
          subst (IsTallied m k) (some_inj (rw (g, queue_request) at e))
            (c, b, x, plus_pos d.howmany_found _ 1 f ∙ ap pos (omega arith), n)
      at (inr (stored, g)) = again stored g _ (rw (g, queue_request) at e)

  pub fill_toget_list-IsTallied :
      (malloc : ℕ → ℕ) (from : Addr) (payload : Option (List ℕ)) (left count : ℕ)
      (d d' : DownloadConn F)
      → fill_toget_list inet_ntoa malloc from payload left count d ≡ some d'
      → IsTallied m k d
      → IsTallied m k d'
  unfolding fill_toget_list
  fill_toget_list-IsTallied malloc from payload zero count d d' e t =
      subst (IsTallied m k) (some_inj e) t
  fill_toget_list-IsTallied malloc from none (suc left) count d d' e t = cc
  fill_toget_list-IsTallied malloc from (some hashes) (suc left) count d d' e t =
      at (Option-cases (slice hashes (count * hash_size) hash_size))
        (λ d1. fill_toget_list-IsTallied malloc from (some hashes) left (count + 1) d1 d')
    where
      Later : Type 0
      Later =
          (d1 : DownloadConn F)
          → fill_toget_list inet_ntoa malloc from (some hashes) left (count + 1) d1 ≡ some d'
          → IsTallied m k d1
          → IsTallied m k d'

      next :
          (o : Option (DownloadConn F))
          → ((d1 : DownloadConn F) → o ≡ some d1 → IsTallied m k d1)
          → (do d1 ← o; fill_toget_list inet_ntoa malloc from (some hashes) left (count + 1) d1)
            ≡ some d'
          → Later
          → IsTallied m k d'
      next none h run ih = cc
      next (some d1) h run ih = ih d1 run (h d1 refl)

      queued :
          (hash : List ℕ) (needed : HashChunk F) (wanted : Bool) (d1 : DownloadConn F)
          → (if wanted then queue_request inet_ntoa (malloc count) from hash needed d else some d)
            ≡ some d1
          → IsTallied m k d1
      queued hash needed false d1 h = subst (IsTallied m k) (some_inj h) t
      queued hash needed true d1 h =
          queue_request-IsTallied (malloc count) from hash needed d d1 h t

      at :
          (slice hashes (count * hash_size) hash_size ≡ none)
            ⊎ ((hash : List ℕ) × (slice hashes (count * hash_size) hash_size ≡ some hash))
          → Later
          → IsTallied m k d'
      at (inl g) ih = absurd (ground (arith, rw (g, fill_toget_list) at e))
      at (inr (hash, g)) ih = elim (Option-cases (find_node d.needlist hash)) [
        | inl l ↦
            next (some d) (λ d1 h. subst (IsTallied m k) (some_inj h) t)
              (rw (g, l, fill_toget_list) at e) ih
        | inr (needed, l) ↦ next _ (queued hash needed _) (rw (g, l, fill_toget_list) at e) ih
      ]
