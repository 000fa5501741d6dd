-- ===== src/Peer/Packets.antt =====
-- What `dealwithincomepack` of peer.c does with packets of a transfer under way.
use p2pdown_loader.Prelude.{ℕ, ◌<◌, ◌≡◌, max, refl, List, [], some, arith, ◌==◌, true, false}
use p2pdown_loader.Packet.{Packet}
use p2pdown_loader.Packet.Forms.{IsDataPack}
use p2pdown_loader.Net.{Addr, Datagram}
use p2pdown_loader.Window.{FloatOps, Window, upon_receive_ack}
use p2pdown_loader.Window.Invariant.{IsValid, piece}
use p2pdown_loader.Window.Moves.{Moves}
use p2pdown_loader.Window.Ack.{upon_receive_ack-Moves}
use p2pdown_loader.Receiver.{RecvState, upon_receiving_datapack}
use p2pdown_loader.Receiver.Invariant.{Holds, IsPart}
use p2pdown_loader.Receiver.Answers.{Answered, upon_receiving_datapack-After}
use p2pdown_loader.HashList.{HashChunk, find_node_by_addr}
use p2pdown_loader.Download.{update_node}
use p2pdown_loader.Peer.{System, PeerMe, take_data, receive_data, receive_ack, dealwithincomepack}

module _ (fl : FloatOps) (sys : System) where
  open fl use {Float}

  -- The peer once the receiver of a download is `r`.
  abbrev pub with_recver : HashChunk Float → RecvState → PeerMe Float → PeerMe Float
  with_recver conn r me = record me {
    mydownload = record me.mydownload {
      downloading_list =
          update_node (λ n. record n { recver = some r; timestamp = sys.now }) conn.node_id
            me.mydownload.downloading_list;
    };
  }

  take_data-runs :
      (pack : Packet) (from : Addr) (me : PeerMe Float) (conn : HashChunk Float) (r r' : RecvState)
      (acks : List Datagram)
      → conn.recver ≡ some r
      → upon_receiving_datapack pack r from ≡ some (r', acks)
      → take_data fl sys pack from conn me.mydownload
        ≡ some ((with_recver conn r' me).mydownload, acks)
  unfolding take_data
  take_data-runs pack from me conn r r' acks has run = simp (has, run)

  receive_data-runs :
      (pack : Packet) (from : Addr) (me : PeerMe Float) (conn : HashChunk Float)
      → find_node_by_addr sys.inet_ntoa me.mydownload.downloading_list from ≡ some conn
      → receive_data fl sys pack from me.mydownload ≡ take_data fl sys pack from conn me.mydownload
  unfolding receive_data
  receive_data-runs pack from me conn found = rw (found, receive_data) refl

  -- A DATA packet of the chunk that comes from the peer of a download is handed to the receiver of
  -- that download: the call returns, sends what the receiver answers, changes no more than the
  -- download's node, and leaves the receiver's invariant true.
  pub dealwithincomepack-data :
      (pack : Packet) (from : Addr) (me : PeerMe Float) (conn : HashChunk Float) (r : RecvState)
      (chunk : List ℕ)
      → find_node_by_addr sys.inet_ntoa me.mydownload.downloading_list from ≡ some conn
      → conn.recver ≡ some r
      → Holds chunk r
      → IsPart chunk pack.seq_num
      → IsDataPack pack.seq_num (piece chunk pack.seq_num) pack
      → (r' : RecvState) × (acks : List Datagram) × (dealwithincomepack fl sys pack from me
          ≡ some (with_recver conn r' me, acks))
        × Holds chunk r'
        × Answered chunk from pack.seq_num r r' acks
  unfolding dealwithincomepack
  dealwithincomepack-data pack from me conn r chunk found has h part d =
      let a = upon_receiving_datapack-After chunk from pack r h part d in
      let not_whohas : (pack.packet_type == 0) ≡ false = ground (arith, d.is_data) in
      let not_ihav : (pack.packet_type == 1) ≡ false = ground (arith, d.is_data) in
      let not_get : (pack.packet_type == 2) ≡ false = ground (arith, d.is_data) in
      let is_data : (pack.packet_type == 3) ≡ true = ground (arith, d.is_data) in
      (
        a.result,
        a.out,
        rw
            (
              not_whohas,
              not_ihav,
              not_get,
              is_data,
              receive_data-runs pack from me conn found,
              take_data-runs pack from me conn r a.result a.out has a.runs,
            )
            refl,
        a.holds,
        a.answered,
      )

  -- The peer once the window of an upload is `w`.
  abbrev pub with_window : HashChunk Float → Window Float → PeerMe Float → PeerMe Float
  with_window conn w me = record me {
    myupload = record me.myupload {
      uploading_list =
          update_node (λ n. record n { cong_win = some w; timestamp = sys.now }) conn.node_id
            me.myupload.uploading_list;
    };
  }

  receive_ack-runs :
      (pack : Packet) (from : Addr) (me : PeerMe Float) (conn : HashChunk Float)
      (w w' : Window Float)
      → find_node_by_addr sys.inet_ntoa me.myupload.uploading_list from ≡ some conn
      → conn.cong_win ≡ some w
      → upon_receive_ack fl pack w ≡ some w'
      → receive_ack fl sys pack from me.myupload ≡ some (with_window conn w' me).myupload
  unfolding receive_ack
  receive_ack-runs pack from me conn w w' found has run = rw (found, receive_ack) (simp (has, run))

  -- An ACK that comes from the peer of an upload, for a packet below `LPR`, is handed to the window
  -- of that upload: the call returns, sends nothing, changes no more than the upload's node, keeps
  -- the window valid, and never moves its `LPA` back.
  pub dealwithincomepack-ack :
      (pack : Packet) (from : Addr) (me : PeerMe Float) (conn : HashChunk Float) (w : Window Float)
      (chunk : List ℕ)
      → pack.packet_type ≡ 4
      → find_node_by_addr sys.inet_ntoa me.myupload.uploading_list from ≡ some conn
      → conn.cong_win ≡ some w
      → IsValid chunk w
      → pack.ack_num < w.lpr
      → (w' : Window Float) × (dealwithincomepack fl sys pack from me
          ≡ some (with_window conn w' me, []))
        × IsValid chunk w'
        × (w'.lpa ≡ max w.lpa pack.ack_num)
  unfolding dealwithincomepack
  dealwithincomepack-ack pack from me conn w chunk e found has v below =
      moved (upon_receive_ack-Moves fl chunk pack w v below)
    where
      not_whohas : (pack.packet_type == 0) ≡ false
      not_whohas = ground (arith, e)

      not_ihav : (pack.packet_type == 1) ≡ false
      not_ihav = ground (arith, e)

      not_get : (pack.packet_type == 2) ≡ false
      not_get = ground (arith, e)

      not_data : (pack.packet_type == 3) ≡ false
      not_data = ground (arith, e)

      is_ack : (pack.packet_type == 4) ≡ true
      is_ack = ground (arith, e)

      moved :
          {lps : ℕ}
          → (w' : Window Float) × (upon_receive_ack fl pack w ≡ some w')
            × Moves fl chunk w (max w.lpa pack.ack_num) lps w'
          → (w' : Window Float) × (dealwithincomepack fl sys pack from me
              ≡ some (with_window conn w' me, []))
            × IsValid chunk w'
            × (w'.lpa ≡ max w.lpa pack.ack_num)
      moved (w', run, m) = (
        w',
        rw
            (
              not_whohas,
              not_ihav,
              not_get,
              not_data,
              is_ack,
              receive_ack-runs pack from me conn w w' found has run,
            )
            refl,
        m.valid,
        m.lpa_is,
      )
