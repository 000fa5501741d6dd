-- ===== src/Download/Heard.antt =====
-- What `fill_toget_list` of peer.c queues when nothing is under way.
use p2pdown_loader.Prelude.{
  ℕ, suc, ◌+◌, ◌*◌, ◌≡◌, refl, sym, ap, ◌∙◌, List, [], ◌∷◌, ◌++◌, none, some, Option-cases, inl,
  inr, false, length, slice, bytes_eq, pos, ◌+ℤ◌, arith, length-append, append_assoc, slice-append,
}
use p2pdown_loader.Net.{Addr}
use p2pdown_loader.HashList.{HashChunk, Nodes, find_node, append_node, create_node}
use p2pdown_loader.Discovery.{DownloadConn}
use p2pdown_loader.Discovery.Batches.{flat, IsHashes}
use p2pdown_loader.Download.{queue_request, fill_toget_list}

-- A hash is none of those in a list, and no hash of a list comes twice.
pub data IsOther (hash : List ℕ) : List (List ℕ) → Type 0 where
  nil : IsOther hash []
  cons :
      {h : List ℕ} {hs : List (List ℕ)}
      → bytes_eq hash h ≡ false
      → IsOther hash hs
      → IsOther hash (h ∷ hs)

pub data IsDistinct : List (List ℕ) → Type 0 where
  nil : IsDistinct []
  cons : {h : List ℕ} {hs : List (List ℕ)} → IsOther h hs → IsDistinct hs → IsDistinct (h ∷ hs)

one_more : (k n : ℕ) → pos (k + n) +ℤ pos 1 ≡ pos (k + suc n)
one_more k n = ground arith

module _ {F : Type 0} where
  -- Downloads of which some are queued and none is under way, with `k` chunks finished.
  abbrev pub waiting : ℕ → ℕ → Nodes F → Nodes F → DownloadConn F
  waiting m k need queue = record {
    concurr_download_num = pos 0;
    max_download_num = pos m;
    howmany_found = pos (k + length queue);
    howmany_need = pos (k + length need);
    needlist = need;
    get_tosend_quene = queue;
    get_sent_list = [];
    downloading_list = [];
  }

  -- The queue once a peer was heard to have chunks of the hashes: a request to it for each chunk that
  -- is needed, in front of those that are there.
  pub queued_for : (ℕ → ℕ) → Addr → Nodes F → List (List ℕ) → ℕ → Nodes F → Nodes F
  queued_for malloc from need [] count queue = queue
  queued_for malloc from need (h ∷ hs) count queue = elim (find_node need h) [
    | none ↦ queued_for malloc from need hs (count + 1) queue
    | some n ↦
        queued_for malloc from need hs (count + 1)
          (create_node (malloc count) from h n.chunkid ∷ queue)
  ]

  -- None of the hashes is queued.
  pub data IsNew (queue : Nodes F) : List (List ℕ) → Type 0 where
    nil : IsNew queue []
    cons :
        {h : List ℕ} {hs : List (List ℕ)}
        → find_node queue h ≡ none
        → IsNew queue hs
        → IsNew queue (h ∷ hs)

  find_node-nil : (hash : List ℕ) → find_node {F = F} [] hash ≡ none
  unfolding find_node
  find_node-nil hash = refl

  IsNew-create_node :
      (id chunkid : ℕ) (from : Addr) (hash : List ℕ) (queue : Nodes F) (hs : List (List ℕ))
      → IsOther hash hs
      → IsNew queue hs
      → IsNew (create_node id from hash chunkid ∷ queue) hs
  unfolding find_node create_node
  IsNew-create_node id chunkid from hash queue [] o n = IsNew.nil
  IsNew-create_node id chunkid from hash queue (h ∷ hs) (IsOther.cons ne o) (IsNew.cons e n) =
      IsNew.cons (rw (ne) e) (IsNew-create_node id chunkid from hash queue hs o n)

  pub fill_toget_list-queued :
      (inet_ntoa : ℕ → List ℕ) (malloc : ℕ → ℕ) (from : Addr) (m k : ℕ) (need queue : Nodes F)
      (front : List ℕ) (hs : List (List ℕ)) (count : ℕ)
      → length front ≡ count * 20
      → IsHashes hs
      → IsDistinct hs
      → IsNew queue hs
      → fill_toget_list inet_ntoa malloc from
          (some (front ++ flat hs))
          (length hs)
          count
          (waiting m k need queue)
        ≡ some (waiting m k need (queued_for malloc from need hs count queue))
  unfolding fill_toget_list queue_request queued_for append_node
  fill_toget_list-queued inet_ntoa malloc from m k need queue front [] count l i d n = refl
  fill_toget_list-queued inet_ntoa malloc from m k need queue front (h ∷ hs) count l
        (IsHashes.cons e i) (IsDistinct.cons o d) (IsNew.cons new n) =
      let read : slice (front ++ (h ++ flat hs)) (count * 20) 20 ≡ some h =
        slice-append front h (flat hs) (count * 20) 20 l e in
      let long : length (front ++ h) ≡ (count + 1) * 20 =
        omega (arith, l, e, length-append front h) in
      let same : front ++ (h ++ flat hs) ≡ (front ++ h) ++ flat hs =
        sym (append_assoc front h (flat hs)) in
      let nothing = find_node-nil h in
      elim (Option-cases (find_node need h)) [
        | inl f ↦
            rw (read, f, fill_toget_list, queued_for)
              (ap
                  (λ p.
                    fill_toget_list inet_ntoa malloc from (some p) (length hs) (count + 1)
                      (waiting m k need queue))
                  same
                ∙ fill_toget_list-queued inet_ntoa malloc from m k need queue (front ++ h) hs
                    (count + 1) long i d n)
        | inr (needed, f) ↦
            let node : HashChunk F = create_node (malloc count) from h needed.chunkid in
            rw (read, f, nothing, new, fill_toget_list, queue_request, queued_for)
              (ap
                  (λ z.
                    fill_toget_list inet_ntoa malloc from (some (front ++ (h ++ flat hs)))
                      (length hs) (count + 1)
                      (record (waiting m k need (node ∷ queue)) { howmany_found = z }))
                  (one_more k (length queue))
                ∙ ap
                    (λ p.
                      fill_toget_list inet_ntoa malloc from (some p) (length hs) (count + 1)
                        (waiting m k need (node ∷ queue)))
                    same
                ∙ fill_toget_list-queued inet_ntoa malloc from m k need (node ∷ queue) (front ++ h)
                    hs (count + 1) long i d
                    (IsNew-create_node (malloc count) needed.chunkid from h queue hs o n))
      ]
