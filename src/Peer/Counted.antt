-- ===== src/Peer/Counted.antt =====
-- The counters of the downloads when a packet comes in (`dealwithincomepack` of peer.c).
use p2pdown_loader.Prelude.{
  ℕ, ◌≡◌, subst, ap, ◌∙◌, List, some, some_inj, >>=-eq-some, Option-cases, inl, inr, pos, arith,
}
use p2pdown_loader.Packet.{Packet}
use p2pdown_loader.Net.{Addr, Datagram}
use p2pdown_loader.Window.{FloatOps}
use p2pdown_loader.Receiver.{create_recver, upon_receiving_datapack}
use p2pdown_loader.HashList.{HashChunk, find_node_by_addr}
use p2pdown_loader.HashList.Lengths.{find_node_by_addr-length, find_node_by_addr-nil}
use p2pdown_loader.Discovery.{DownloadConn}
use p2pdown_loader.Download.{init_download}
use p2pdown_loader.Download.Updates.{length-update_node}
use p2pdown_loader.Download.Tally.{IsTallied}
use p2pdown_loader.Download.Tally.Ending.{init_download-IsTallied}
use p2pdown_loader.Download.Tally.Idle.{
  lists_empty, IsCounted, tallied, is_idle, fill_toget_list-IsCounted,
}
use p2pdown_loader.Peer.Cases.{
  Dealt, kept, heard, asked, received, confirmed, dealwithincomepack-Dealt,
}
use p2pdown_loader.Peer.{System, PeerMe, take_data, receive_data, dealwithincomepack}

module _ (fl : FloatOps) (sys : System) where
  open fl use {Float}

  take_data-IsTallied :
      (m k : ℕ) (pack : Packet) (from : Addr) (conn : HashChunk Float) (d : DownloadConn Float)
      (x : DownloadConn Float × List Datagram)
      → take_data fl sys pack from conn d ≡ some x
      → IsTallied m k d
      → IsTallied m k x.0
  unfolding take_data
  take_data-IsTallied m k pack from conn d x e (c, b, y, f, n) =
      let (r, has, e1) = >>=-eq-some conn.recver _ e in
      let ((r', acks), run, e2) = >>=-eq-some (upon_receiving_datapack pack r from) _ e1 in
      let same =
        length-update_node (λ n. record n { recver = some r'; timestamp = sys.now }) conn.node_id
          d.downloading_list in
      subst (λ (z : DownloadConn Float × List Datagram). IsTallied m k z.0) (some_inj e2)
        (
          c ∙ ap pos (omega (arith, same)),
          omega (arith, b, same),
          y,
          f ∙ ap pos (omega (arith, same)),
          n,
        )

  receive_data-IsCounted :
      (m : ℕ) (pack : Packet) (from : Addr) (d : DownloadConn Float)
      (x : DownloadConn Float × List Datagram)
      → receive_data fl sys pack from d ≡ some x
      → IsCounted m d
      → IsCounted m x.0
  unfolding receive_data
  receive_data-IsCounted m pack from d x e (is_idle (lists_empty c y f n)) =
      let nothing = find_node_by_addr-nil {F = Float} sys.inet_ntoa from in
      subst (λ (z : DownloadConn Float × List Datagram). IsCounted m z.0)
        (some_inj (rw (nothing, nothing, receive_data) at e)) (is_idle (lists_empty c y f n))
  receive_data-IsCounted m pack from d x e (tallied k t) =
      elim (Option-cases (find_node_by_addr sys.inet_ntoa d.downloading_list from)) [
        | inr (conn, g) ↦
            tallied k (take_data-IsTallied m k pack from conn d x (rw (g, receive_data) at e) t)
        | inl g ↦ elim (Option-cases (find_node_by_addr sys.inet_ntoa d.get_sent_list from)) [
          | inl h ↦
              subst (λ (z : DownloadConn Float × List Datagram). IsCounted m z.0)
                (some_inj (rw (g, h, receive_data) at e)) (tallied k t)
          | inr (conn, h) ↦
              let (d1, run, e1) =
                >>=-eq-some (init_download sys.now conn d) _ (rw (g, h, receive_data) at e) in
              let fresh : HashChunk Float = record conn {
                recver = some (create_recver conn.hash);
              } in
              tallied k (
                take_data-IsTallied m k pack from fresh d1 x e1 (
                  init_download-IsTallied m k sys.now conn d d1
                    (find_node_by_addr-length sys.inet_ntoa d.get_sent_list from conn h) run t))
        ]
      ]

  pub dealwithincomepack-IsCounted :
      (m : ℕ) (pack : Packet) (from : Addr) (me : PeerMe Float) (x : PeerMe Float × List Datagram)
      → dealwithincomepack fl sys pack from me ≡ some x
      → IsCounted m me.mydownload
      → IsCounted m x.0.mydownload
  dealwithincomepack-IsCounted m pack from me x e i =
      by_case (dealwithincomepack-Dealt fl sys pack from me x e)
    where
      by_case :
          {y : PeerMe Float × List Datagram}
          → Dealt fl sys pack from me y
          → IsCounted m y.0.mydownload
      by_case (kept out) = i
      by_case (heard down run) =
          fill_toget_list-IsCounted sys.inet_ntoa m sys.malloc from pack.payload pack.chunkhash_num
            0 me.mydownload down run i
      by_case (asked up run) = i
      by_case (received y run) = receive_data-IsCounted m pack from me.mydownload y run i
      by_case (confirmed up run) = i
