-- ===== src/Download/Requests.antt =====
-- Which GET requests `pick_tosend_GET` of peer.c sends.
use p2pdown_loader.Prelude.{
  ℕ, zero, suc, ◌+◌, ◌<◌, ◌≡◌, refl, ap, ◌∙◌, List, [], ◌∷◌, Option, none, some, true, false,
  length, arith, Bool-cases, inl, inr, ◌⊎◌,
}
use p2pdown_loader.Packet.RoundTrip.{IsWire, wire}
use p2pdown_loader.Net.{Addr, Datagram}
use p2pdown_loader.Net.Sent.{send_pack-IsWire}
use p2pdown_loader.HashList.{HashChunk, Nodes, find_node_by_addr, unlink}
use p2pdown_loader.HashList.Moves.{IsIn, move_node-Perm}
use p2pdown_loader.HashList.Lookup.{find_node_by_addr-head, find_node_by_addr-tail}
use p2pdown_loader.Discovery.{DownloadConn, form_get}
use p2pdown_loader.Discovery.Asking.{some-as_payload}
use p2pdown_loader.Download.{is_null, update_node, send_request, pick_loop, pick_tosend_get}

module _ {F : Type 0} where
  pub form_get-IsWire : (n : HashChunk F) → length n.hash ≡ 20 → IsWire (form_get n) n.hash
  unfolding form_get
  form_get-IsWire n e = record {
    magic_fits = omega arith;
    hd_fits = omega arith;
    len_fits = omega arith;
    seq_fits = omega arith;
    ack_fits = omega arith;
    payload_is = some-as_payload n.hash (omega (arith, e));
    len_is = omega (arith, e);
    typed = λ h. absurd (omega arith);
    untagged = λ h. refl;
  }

  -- The datagram of a GET request.
  abbrev pub get_datagram : HashChunk F → Datagram
  get_datagram n = record { to = n.from; bytes = wire (form_get n) n.hash }

  -- Every node of the first list is found in the second one by its address.
  pub data AllFound (inet_ntoa : ℕ → List ℕ) (sent : Nodes F) : Nodes F → Type 0 where
    nil : AllFound inet_ntoa sent []
    cons :
        {n : HashChunk F} {list : Nodes F}
        → is_null (find_node_by_addr inet_ntoa sent n.from) ≡ false
        → AllFound inet_ntoa sent list
        → AllFound inet_ntoa sent (n ∷ list)

  found-weaken :
      (inet_ntoa : ℕ → List ℕ) (n : HashChunk F) (sent : Nodes F) (addr : Addr)
      → is_null (find_node_by_addr inet_ntoa sent addr) ≡ false
      → is_null (find_node_by_addr inet_ntoa (n ∷ sent) addr) ≡ false
  found-weaken inet_ntoa n sent addr h = elim (find_node_by_addr-tail inet_ntoa n sent addr) [
    | inl e ↦ ap is_null e
    | inr e ↦ ap is_null e ∙ h
  ]

  AllFound-weaken :
      (inet_ntoa : ℕ → List ℕ) (n : HashChunk F) (sent list : Nodes F)
      → AllFound inet_ntoa sent list
      → AllFound inet_ntoa (n ∷ sent) list
  AllFound-weaken inet_ntoa n sent [] a = nil
  AllFound-weaken inet_ntoa n sent (x ∷ list) (AllFound.cons h a) =
      AllFound.cons (found-weaken inet_ntoa n sent x.from h)
        (AllFound-weaken inet_ntoa n sent list a)

  pub AllFound-self : (inet_ntoa : ℕ → List ℕ) (list : Nodes F) → AllFound inet_ntoa list list
  AllFound-self inet_ntoa [] = nil
  AllFound-self inet_ntoa (n ∷ list) =
      AllFound.cons (ap is_null (find_node_by_addr-head inet_ntoa n list))
        (AllFound-weaken inet_ntoa n list list (AllFound-self inet_ntoa list))

  -- Nothing is sent to peers that have a request already.
  pub pick_loop-AllFound :
      (inet_ntoa : ℕ → List ℕ) (now : ℕ) (sent downloads : Nodes F) (fuel : ℕ) (list : Nodes F)
      (left : ℕ) (down : DownloadConn F)
      → AllFound inet_ntoa sent list
      → length list < fuel
      → pick_loop inet_ntoa now sent downloads fuel list left down ≡ some (down, [])
  unfolding pick_loop
  pick_loop-AllFound inet_ntoa now sent downloads zero list left down a h = absurd (omega arith)
  pick_loop-AllFound inet_ntoa now sent downloads (suc fuel) [] left down a h = refl
  pick_loop-AllFound inet_ntoa now sent downloads (suc fuel) (n ∷ list) zero down a h = refl
  pick_loop-AllFound inet_ntoa now sent downloads (suc fuel) (n ∷ list) (suc left) down
        (AllFound.cons e a) h =
      rw (e, pick_loop)
        (pick_loop-AllFound inet_ntoa now sent downloads fuel list (suc left) down a (omega arith))

  -- Requests that can be sent.
  pub data Ready (queue : Nodes F) : Nodes F → Type 0 where
    nil : Ready queue []
    cons :
        {n : HashChunk F} {list : Nodes F}
        → IsIn n queue
        → length n.hash ≡ 20
        → Ready queue list
        → Ready queue (n ∷ list)

  -- What a call does: nothing, or it sends one request of the queue, to a peer that none of the
  -- requests sent and none of the downloads is with.
  pub data Picked (inet_ntoa : ℕ → List ℕ) (now : ℕ) (down : DownloadConn F)
      : DownloadConn F × List Datagram → Type 0 where
    nothing : Picked inet_ntoa now down (down, [])
    one :
        (n : HashChunk F)
        → IsIn n down.get_tosend_quene
        → find_node_by_addr inet_ntoa down.get_sent_list n.from ≡ none
        → find_node_by_addr inet_ntoa down.downloading_list n.from ≡ none
        → Picked inet_ntoa now down (
          record down {
            get_sent_list =
                update_node (λ m. record m { timestamp = now }) n.node_id (n ∷ down.get_sent_list);
            get_tosend_quene = unlink down.get_tosend_quene n.node_id;
          },
          get_datagram n ∷ [],
        )

  send_request-runs :
      (now : ℕ) (n : HashChunk F) (down : DownloadConn F)
      → IsIn n down.get_tosend_quene
      → length n.hash ≡ 20
      → send_request now n down
        ≡ some (
          get_datagram n,
          down.get_sent_list,
          record down {
            get_sent_list =
                update_node (λ m. record m { timestamp = now }) n.node_id (n ∷ down.get_sent_list);
            get_tosend_quene = unlink down.get_tosend_quene n.node_id;
          },
        )
  unfolding send_request
  send_request-runs now n down i e =
      rw
        (
          (move_node-Perm down.get_sent_list down.get_tosend_quene n i).0,
          send_pack-IsWire n.from (form_get-IsWire n e),
        )
        refl

  null-none : (o : Option (HashChunk F)) → is_null o ≡ true → o ≡ none
  null-none none e = refl
  null-none (some n) e = ground (arith, e)

  pick_loop-Picked :
      (inet_ntoa : ℕ → List ℕ) (now fuel : ℕ) (list : Nodes F) (left : ℕ) (down : DownloadConn F)
      → Ready down.get_tosend_quene list
      → length list + length down.get_sent_list < fuel
      → (x : DownloadConn F × List Datagram) × Picked inet_ntoa now down x
        × (pick_loop inet_ntoa now down.get_sent_list down.downloading_list fuel list left down
            ≡ some x)
  unfolding pick_loop
  pick_loop-Picked inet_ntoa now zero list left down r h = absurd (omega arith)
  pick_loop-Picked inet_ntoa now (suc fuel) [] left down r h = ((down, []), nothing, refl)
  pick_loop-Picked inet_ntoa now (suc fuel) (n ∷ list) zero down r h = ((down, []), nothing, refl)
  pick_loop-Picked inet_ntoa now (suc fuel) (n ∷ list) (suc left) down (Ready.cons i e r) h =
      at (Bool-cases (is_null (find_node_by_addr inet_ntoa down.get_sent_list n.from)))
        (Bool-cases (is_null (find_node_by_addr inet_ntoa down.downloading_list n.from)))
        (pick_loop-Picked inet_ntoa now fuel list (suc left) down r (omega arith))
    where
      at :
          (is_null (find_node_by_addr inet_ntoa down.get_sent_list n.from) ≡ true)
            ⊎ (is_null (find_node_by_addr inet_ntoa down.get_sent_list n.from) ≡ false)
          → (is_null (find_node_by_addr inet_ntoa down.downloading_list n.from) ≡ true)
            ⊎ (is_null (find_node_by_addr inet_ntoa down.downloading_list n.from) ≡ false)
          → (x : DownloadConn F × List Datagram) × Picked inet_ntoa now down x
            × (pick_loop inet_ntoa now down.get_sent_list down.downloading_list fuel list
                  (suc left)
                  down
                ≡ some x)
          → (x : DownloadConn F × List Datagram) × Picked inet_ntoa now down x
            × (pick_loop inet_ntoa now down.get_sent_list down.downloading_list
                  (suc fuel)
                  (n ∷ list)
                  (suc left)
                  down
                ≡ some x)
      at (inr s) _ (x, p, run) = (x, p, rw (s, pick_loop) run)
      at (inl s) (inr d) (x, p, run) = (x, p, rw (s, d, pick_loop) run)
      at (inl s) (inl d) _ = (
        (_, get_datagram n ∷ []),
        one n i (null-none _ s) (null-none _ d),
        rw
            (
              s,
              d,
              send_request-runs now n down i e,
              pick_loop-AllFound inet_ntoa now down.get_sent_list down.downloading_list fuel
                  down.get_sent_list left _ (AllFound-self inet_ntoa down.get_sent_list)
                  (omega arith),
              pick_loop,
            )
            refl,
      )

  -- `pick_tosend_GET` always returns, and sends one request at most however many may be picked:
  -- after the first one it goes on in the list of the requests sent.
  pub pick_tosend_get-Picked :
      (inet_ntoa : ℕ → List ℕ) (now maxpick_num : ℕ) (down : DownloadConn F)
      → Ready down.get_tosend_quene down.get_tosend_quene
      → (x : DownloadConn F × List Datagram) × Picked inet_ntoa now down x
        × (pick_tosend_get inet_ntoa now maxpick_num down ≡ some x)
  unfolding pick_tosend_get
  pick_tosend_get-Picked inet_ntoa now maxpick_num down r =
      pick_loop-Picked inet_ntoa now (length down.get_tosend_quene + length down.get_sent_list + 1)
        down.get_tosend_quene maxpick_num down r (omega arith)
