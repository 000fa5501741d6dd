-- ===== src/Peer/Cases.antt =====
-- The cases of `dealwithincomepack` of peer.c, for the invariants that every packet keeps.
use p2pdown_loader.Prelude.{◌≡◌, subst, List, [], some, some_inj, >>=-eq-some, if-eq-some, ◌==◌}
use p2pdown_loader.Packet.{Packet}
use p2pdown_loader.Net.{Addr, Datagram}
use p2pdown_loader.Window.{FloatOps}
use p2pdown_loader.Discovery.{DownloadConn, ihav_sender}
use p2pdown_loader.Download.{fill_toget_list}
use p2pdown_loader.Peer.{
  System, UploadConn, PeerMe, receive_get, receive_data, receive_ack, dealwithincomepack,
}

module _ (fl : FloatOps) (sys : System) (pack : Packet) (from : Addr) where
  open fl use {Float}

  -- What a packet that does not fault does to the peer: nothing, or what an IHAVE, a GET, a DATA or
  -- an ACK packet does.
  pub data Dealt (me : PeerMe Float) : PeerMe Float × List Datagram → Type 0 where
    kept : (out : List Datagram) → Dealt me (me, out)
    heard :
        (down : DownloadConn Float)
        → fill_toget_list sys.inet_ntoa sys.malloc from pack.payload pack.chunkhash_num 0
            me.mydownload
          ≡ some down
        → Dealt me (record me { mydownload = down }, [])
    asked :
        (up : UploadConn Float)
        → receive_get fl sys pack from me.haslist me.myupload ≡ some up
        → Dealt me (record me { myupload = up }, [])
    received :
        (y : DownloadConn Float × List Datagram)
        → receive_data fl sys pack from me.mydownload ≡ some y
        → Dealt me (record me { mydownload = y.0 }, y.1)
    confirmed :
        (up : UploadConn Float)
        → receive_ack fl sys pack from me.myupload ≡ some up
        → Dealt me (record me { myupload = up }, [])

  pub dealwithincomepack-Dealt :
      (me : PeerMe Float) (x : PeerMe Float × List Datagram)
      → dealwithincomepack fl sys pack from me ≡ some x
      → Dealt me x
  unfolding dealwithincomepack
  dealwithincomepack-Dealt me x e =
      if-eq-some (Dealt me x) (pack.packet_type == 0) _ _
        (λ h.
          let (sent, _, e1) = >>=-eq-some (ihav_sender pack me.haslist from) _ h in
          ended _ e1 (kept sent))
        (if-eq-some (Dealt me x) (pack.packet_type == 1) _ _
          (λ h. let (down, run, e1) = >>=-eq-some _ _ h in ended _ e1 (heard down run))
          (if-eq-some (Dealt me x) (pack.packet_type == 2) _ _
            (λ h.
              let (up, run, e1) =
                >>=-eq-some (receive_get fl sys pack from me.haslist me.myupload) _ h in
              ended _ e1 (asked up run))
            (if-eq-some (Dealt me x) (pack.packet_type == 3) _ _
              (λ h.
                let (y, run, e1) = >>=-eq-some (receive_data fl sys pack from me.mydownload) _ h in
                ended _ e1 (received y run))
              (if-eq-some (Dealt me x) (pack.packet_type == 4) _ _
                (λ h.
                  let (up, run, e1) = >>=-eq-some (receive_ack fl sys pack from me.myupload) _ h in
                  ended _ e1 (confirmed up run))
                (λ h. ended _ h (kept []))))))
        e
    where
      ended : (y : PeerMe Float × List Datagram) → some y ≡ some x → Dealt me y → Dealt me x
      ended y h d = subst (Dealt me) (some_inj h) d
