-- ===== src/Download/Tally/Sending.antt =====
-- The counters of the downloads when requests go out (`pick_tosend_GET` and `GET_sender` of peer.c).
use p2pdown_loader.Prelude.{
  ℕ, zero, suc, ◌+◌, ◌<◌, ◌≤◌, ◌≡◌, refl, subst, ap, ◌∙◌, List, [], ◌∷◌, none, some, some_inj, Bool,
  true, false, Bool-cases, Option-cases, inl, inr, ◌⊎◌, ◌&&◌, length, ℤ, pos, ◌+ℤ◌, ◌-ℤ◌, pos_part,
  arith,
}
use p2pdown_loader.Net.{Datagram, send_pack}
use p2pdown_loader.HashList.{HashChunk, Nodes, find_node_by_addr, move_node}
use p2pdown_loader.HashList.Lengths.{move_node-length}
use p2pdown_loader.Discovery.{DownloadConn, form_get}
use p2pdown_loader.Download.{is_null, send_request, pick_loop, pick_tosend_get, get_sender}
use p2pdown_loader.Download.Updates.{length-update_node}
use p2pdown_loader.Download.Requests.{AllFound-self, pick_loop-AllFound}
use p2pdown_loader.Download.Tally.{IsTallied, plus_pos}

room_lem : (a b : ℤ) (u m : ℕ) → a ≡ pos m → b ≡ pos u → u ≤ m → pos_part (a -ℤ b) + u ≡ m
room_lem a b u m e f h = ground (arith, e, f, h)

module _ {F : Type 0} where
  -- As many requests as datagrams went from the queue to the requests sent, and no more than `left`.
  abbrev Sent : DownloadConn F → ℕ → DownloadConn F × List Datagram → Type 0
  Sent d left (d', gets) =
      (length d'.get_sent_list ≡ length d.get_sent_list + length gets)
      × (length d'.get_tosend_quene + length gets ≡ length d.get_tosend_quene)
      × (length gets ≤ left)
      × (d'.downloading_list ≡ d.downloading_list)
      × (d'.needlist ≡ d.needlist)
      × (d'.concurr_download_num ≡ d.concurr_download_num)
      × (d'.max_download_num ≡ d.max_download_num)
      × (d'.howmany_found ≡ d.howmany_found)
      × (d'.howmany_need ≡ d.howmany_need)

  Sent-none : (d : DownloadConn F) (left : ℕ) → Sent d left (d, [])
  Sent-none d left = (omega arith, omega arith, omega arith, refl, refl, refl, refl, refl, refl)

  send_request-Sent :
      (now : ℕ) (curr : HashChunk F) (d : DownloadConn F) (y : Datagram × Nodes F × DownloadConn F)
      (left : ℕ)
      → 0 < length d.get_tosend_quene
      → send_request now curr d ≡ some y
      → (y.1 ≡ d.get_sent_list) × Sent d (suc left) (y.2, y.0 ∷ [])
  unfolding send_request
  send_request-Sent now curr d y left h e =
      at (Option-cases (move_node d.get_sent_list d.get_tosend_quene (some curr)))
        (Option-cases (send_pack (form_get curr) curr.from))
    where
      at :
          (move_node d.get_sent_list d.get_tosend_quene (some curr) ≡ none)
            ⊎ ((p : Nodes F × Nodes F) × (move_node d.get_sent_list d.get_tosend_quene (some curr)
                  ≡ some p))
          → (send_pack (form_get curr) curr.from ≡ none)
            ⊎ ((g : Datagram) × (send_pack (form_get curr) curr.from ≡ some g))
          → (y.1 ≡ d.get_sent_list) × Sent d (suc left) (y.2, y.0 ∷ [])
      at (inl g) _ = absurd (ground (arith, rw g at e))
      at (inr (p, g)) (inl s) = absurd (ground (arith, rw (g, s) at e))
      at (inr (p, g)) (inr (get, s)) =
          let (l1, l2) = move_node-length d.get_sent_list d.get_tosend_quene curr p h g in
          let l3 = length-update_node (λ n. record n { timestamp = now }) curr.node_id p.0 in
          subst
            (λ (z : Datagram × Nodes F × DownloadConn F).
              (z.1 ≡ d.get_sent_list) × Sent d (suc left) (z.2, z.0 ∷ []))
            (some_inj (rw (g, s) at e))
            (
              refl,
              (
                omega (arith, l1, l3),
                omega (arith, l2),
                omega arith,
                refl,
                refl,
                refl,
                refl,
                refl,
                refl,
              ),
            )

  pick_loop-Sent :
      (inet_ntoa : ℕ → List ℕ) (now fuel : ℕ) (list : Nodes F) (left : ℕ) (d : DownloadConn F)
      (x : DownloadConn F × List Datagram)
      → length list ≤ length d.get_tosend_quene
      → length list + length d.get_sent_list < fuel
      → pick_loop inet_ntoa now d.get_sent_list d.downloading_list fuel list left d ≡ some x
      → Sent d left x
  unfolding pick_loop
  pick_loop-Sent inet_ntoa now zero list left d x h f e = absurd (omega arith)
  pick_loop-Sent inet_ntoa now (suc fuel) [] left d x h f e =
      subst (Sent d left) (some_inj e) (Sent-none d left)
  pick_loop-Sent inet_ntoa now (suc fuel) (curr ∷ list) zero d x h f e =
      subst (Sent d 0) (some_inj e) (Sent-none d 0)
  pick_loop-Sent inet_ntoa now (suc fuel) (curr ∷ list) (suc left) d x h f e =
      at (Bool-cases _) (Option-cases (send_request now curr d)) (λ run.
        pick_loop-Sent inet_ntoa now fuel list (suc left) d x (omega (arith, h)) (omega (arith, f))
          run)
    where
      free : Bool
      free =
          is_null (find_node_by_addr inet_ntoa d.get_sent_list curr.from)
          && is_null (find_node_by_addr inet_ntoa d.downloading_list curr.from)

      at :
          (free ≡ true) ⊎ (free ≡ false)
          → (send_request now curr d ≡ none)
            ⊎ ((y : Datagram × Nodes F × DownloadConn F) × (send_request now curr d ≡ some y))
          → (pick_loop inet_ntoa now d.get_sent_list d.downloading_list fuel list (suc left) d
                ≡ some x
              → Sent d (suc left) x)
          → Sent d (suc left) x
      at (inr b) _ ih = ih (rw (b, pick_loop) at e)
      at (inl b) (inl s) ih = absurd (ground (arith, rw (b, s, pick_loop) at e))
      at (inl b) (inr (y, s)) ih =
          let (next, sent) = send_request-Sent now curr d y left (omega (arith, h)) s in
          let stops : pick_loop inet_ntoa now d.get_sent_list d.downloading_list fuel y.1 left y.2
              ≡ some (y.2, []) =
            ap (λ l. pick_loop inet_ntoa now d.get_sent_list d.downloading_list fuel l left y.2)
              next
            ∙ pick_loop-AllFound inet_ntoa now d.get_sent_list d.downloading_list fuel
                d.get_sent_list left y.2 (AllFound-self inet_ntoa d.get_sent_list)
                (omega (arith, f)) in
          subst (Sent d (suc left)) (some_inj (rw (b, s, stops, pick_loop) at e)) sent

  pick_tosend_get-Sent :
      (inet_ntoa : ℕ → List ℕ) (now left : ℕ) (d : DownloadConn F)
      (x : DownloadConn F × List Datagram)
      → pick_tosend_get inet_ntoa now left d ≡ some x
      → Sent d left x
  unfolding pick_tosend_get
  pick_tosend_get-Sent inet_ntoa now left d x e =
      pick_loop-Sent inet_ntoa now (length d.get_tosend_quene + length d.get_sent_list + 1)
        d.get_tosend_quene left d x (omega arith) (omega arith) e

  -- `GET_sender` counts the requests that it sends, and sends no more than there is room for.
  pub get_sender-IsTallied :
      (inet_ntoa : ℕ → List ℕ) (m k now : ℕ) (d d' : DownloadConn F) (gets : List Datagram)
      → get_sender inet_ntoa now d ≡ some (d', gets)
      → IsTallied m k d
      → IsTallied m k d'
  unfolding get_sender
  get_sender-IsTallied inet_ntoa m k now d d' gets e (c, b, x, f, n) =
      elim (Option-cases (pick_tosend_get inet_ntoa now room d)) [
        | inl g ↦ absurd (ground (arith, rw g at e))
        | inr ((d1, out), g) ↦
            let s = pick_tosend_get-Sent inet_ntoa now room d (d1, out) g in
            subst (λ (y : DownloadConn F × List Datagram). IsTallied m k y.0) (some_inj (rw g at e))
              (counted d1 out s)
      ]
    where
      room : ℕ
      room = pos_part (d.max_download_num -ℤ d.concurr_download_num)

      counted :
          (d1 : DownloadConn F) (out : List Datagram)
          → Sent d room (d1, out)
          → IsTallied m k
              (record d1 { concurr_download_num = d1.concurr_download_num +ℤ pos (length out) })
      counted d1 out (s1, s2, s3, s4, s5, s6, s7, s8, s9) = (
        plus_pos d1.concurr_download_num _ (length out) (s6 ∙ c)
            ∙ ap pos (omega (arith, s1, ap length s4)),
        omega (
          arith,
          s1,
          s3,
          ap length s4,
          room_lem d.max_download_num d.concurr_download_num _ m x c b,
        ),
        s7 ∙ x,
        s8 ∙ f ∙ ap pos (omega (arith, s1, s2, ap length s4)),
        s9 ∙ n ∙ ap pos (omega (arith, ap length s5)),
      )
