-- ===== src/Peer/Loop.antt =====
-- The loop of `peer_run` (peer.c): what it does with the requests, the uploads and the downloads
-- between two packets. A read of a node that was freed is a fault; `none` is a fault.
pub mod Uploading
pub mod Uploads
pub mod Downloading
pub mod Counted
pub mod AsksAgain
pub mod Within
use p2pdown_loader.Prelude.{
  ℕ, zero, suc, ◌+◌, ◌-◌, List, [], ◌∷◌, ◌++◌, Option, none, some, Bool, true, false, ltb, ◌==◌,
  ◌&&◌, if◌then◌else◌, ◌>>=◌, length, ℤ, pos, negsuc, ◌-ℤ◌, ltb_ℤ,
}
use p2pdown_loader.Net.{Addr, Datagram, BtPeer}
use p2pdown_loader.Window.{FloatOps, Window, chunk_size, window_sender, check_datapack_timeout}
use p2pdown_loader.Receiver.{
  RecvState, Write, Written, Reaped, written, unfinished, bad_hash, short, reap,
}
use p2pdown_loader.HashList.{HashChunk, Nodes, move_node}
use p2pdown_loader.Discovery.{DownloadConn, whohas_sender}
use p2pdown_loader.Download.{
  update_node, check_timeout, get_sender, finish_one_download, check_recvdata_timeout,
}
use p2pdown_loader.Peer.{System, UploadConn, PeerMe, check_recvack_timeout}
use p2pdown_loader.Peer.Get.{complete_mydownload}

-- What the system gives in a round of the loop over the uploads: the calls of `time`.
pub record Moment : Type 0 where
  pub clock : ℕ → ℕ
  pub tick : ℕ
  pub sys : System

module _ (fl : FloatOps) where
  open fl use {Float}

  -- The call of `window_sender`, if there is a packet that was not sent.
  pub send_window : (ℕ → ℕ) → Window Float → Option (Window Float × List Datagram)
  send_window clock w =
      if ltb (w.lps + 1) w.lpr
      then (do (w', out, n) ← window_sender clock w; some (w', out))
      else some (w, [])

  -- A node's window, changed where the node is.
  pub set_window : HashChunk Float → Window Float → UploadConn Float → UploadConn Float
  set_window curr w up = record up {
    uploading_list =
        update_node (λ n. record n { cong_win = some w }) curr.node_id up.uploading_list;
  }

  -- An upload whose last packet was ACKed is done.
  pub finish_upload : HashChunk Float → UploadConn Float → Option (UploadConn Float)
  finish_upload curr up = do
    (uploaded, uploading) ← move_node up.uploaded_list up.uploading_list (some curr)
    some (record up {
      uploaded_list = uploaded;
      uploading_list = uploading;
      concurr_upload_num = up.concurr_upload_num -ℤ pos 1;
    })

  -- The loop reads the node after the second check for a timeout, so the node must be there.
  pub still_there : ℕ → UploadConn Float → Option (UploadConn Float)
  still_there aborted up = if aborted == 0 then some up else none

  -- The two checks for a timeout.
  pub check_upload :
      Moment → HashChunk Float → Window Float → UploadConn Float → Option (UploadConn Float)
  unfolding still_there
  check_upload m curr w up = do
    (w', timeouts) ← check_datapack_timeout fl m.tick w
    (up', aborted) ← check_recvack_timeout fl m.sys curr (set_window curr w' up)
    still_there aborted up'

  -- What follows the sending: is the upload done?
  pub after_send :
      Moment → HashChunk Float → Window Float → UploadConn Float → Option (UploadConn Float)
  unfolding finish_upload check_upload
  after_send m curr w up =
      if w.lpa + 1 == w.lpr
      then finish_upload (record curr { cong_win = some w }) up
      else check_upload m curr w up

  -- One round of the loop over the uploads, with the node's window.
  pub turn_from :
      Moment
      → HashChunk Float
      → UploadConn Float
      → Window Float
      → Option (UploadConn Float × List Datagram)
  unfolding send_window after_send
  turn_from m curr up w = do
    (w', out) ← send_window m.clock w
    up' ← after_send m curr w' (set_window curr w' up)
    some (up', out)

  pub upload_turn :
      Moment → HashChunk Float → UploadConn Float → Option (UploadConn Float × List Datagram)
  unfolding turn_from
  upload_turn m curr up = curr.cong_win >>= turn_from m curr up

  -- The loop over the nodes that are left, with the moments of its rounds.
  unfoldable pub upload_loop :
      (ℕ → Moment) → ℕ → Nodes Float → UploadConn Float → Option (UploadConn Float × List Datagram)
  unfolding upload_turn
  upload_loop moments i [] up = some (up, [])
  upload_loop moments i (curr ∷ list) up = do
    (up', out) ← upload_turn (moments i) curr up
    (up'', more) ← upload_loop moments (i + 1) list up'
    some (up'', out ++ more)

-- What the loop over the downloads does: it goes on, or the whole file is there and the loop ends;
-- or it still writes a chunk after the calls of `write` that were foreseen; or it faults.
pub data Turned (F : Type 0) : Type 0 where
  going : List Write → DownloadConn F → Turned F
  completed : List Write → DownloadConn F → Turned F
  waiting : Turned F
  fault : Turned F

abbrev pub is_zero : ℤ → Bool
is_zero (pos zero) = true
is_zero (pos (suc _)) = false
is_zero (negsuc _) = false

abbrev pub is_chunk : ℤ → Bool
is_chunk (pos n) = n == chunk_size
is_chunk (negsuc _) = false

module _ {F : Type 0} where
  pub or_fault : {A : Type 0} → Option A → (A → Turned F) → Turned F
  or_fault none f = Turned.fault
  or_fault (some a) f = f a

  -- Once a node was freed, with what is needed then: if that is nothing, the whole file is there and
  -- the loop ends; otherwise it reads the node.
  pub end_or_read : List Write → DownloadConn F → Nodes F → Turned F
  unfolding or_fault
  end_or_read ws down [] = or_fault (complete_mydownload down) (completed ws)
  end_or_read ws down (_ ∷ _) = Turned.fault

  -- After `reap`, whose result is not looked at.
  pub after_reap : List Write → HashChunk F → DownloadConn F → Turned F
  unfolding or_fault end_or_read
  after_reap ws curr down =
      or_fault (finish_one_download curr down) (λ d. end_or_read ws d d.needlist)

  -- The writes of a chunk, then the rest.
  pub reaped : Reaped → HashChunk F → DownloadConn F → Turned F
  unfolding after_reap
  reaped (written k ws) curr down = after_reap ws curr down
  reaped (unfinished ws) curr down = waiting
  reaped bad_hash curr down = after_reap [] curr down
  reaped short curr down = after_reap [] curr down
  reaped Reaped.fault curr down = Turned.fault

  -- The check for a timeout: after it, the loop reads the node, which must be there.
  pub check_download : ℕ → HashChunk F → DownloadConn F → Turned F
  check_download now curr down =
      or_fault (check_recvdata_timeout now curr down)
        (λ (d, timeouts). if timeouts == 0 then going [] d else Turned.fault)

  -- One round of the loop over the downloads, at the time `now`, with what `write` does.
  pub received_turn :
      (List ℕ → List ℕ) → List Written → ℕ → HashChunk F → DownloadConn F → RecvState → Turned F
  unfolding reaped check_download
  received_turn shahash ws now curr down r =
      if is_chunk r.recv_bytesnum
      then reaped (reap shahash ws r curr.chunkid) curr down
      else check_download now curr down

  pub download_turn : (List ℕ → List ℕ) → List Written → ℕ → HashChunk F → DownloadConn F → Turned F
  unfolding or_fault received_turn
  download_turn shahash ws now curr down =
      or_fault curr.recver (received_turn shahash ws now curr down)

  pub write_first : List Write → Turned F → Turned F
  write_first ws (going ms d) = going (ws ++ ms) d
  write_first ws (completed ms d) = completed (ws ++ ms) d
  write_first ws waiting = waiting
  write_first ws Turned.fault = Turned.fault

  unfoldable pub download_loop :
      (List ℕ → List ℕ) → List Written → (ℕ → ℕ) → ℕ → Nodes F → DownloadConn F → Turned F
  unfolding download_turn write_first
  download_loop shahash ws now i [] down = going [] down
  download_loop shahash ws now i (curr ∷ list) down =
      elim (download_turn shahash ws (now i) curr down) [
        | going ms d ↦ write_first ms (download_loop shahash ws now (i + 1) list d)
        | completed ms d ↦ completed ms d
        | waiting ↦ waiting
        | fault ↦ Turned.fault
      ]

  -- The requests of a round: those that were sent too long ago are dropped, those that may go out
  -- are sent, and if there is none, nothing is under way and chunks are missing, they are asked
  -- for again.
  unfoldable pub request_turn :
      (ℕ → List ℕ) → ℕ → List BtPeer → ℕ → DownloadConn F → Option (DownloadConn F × List Datagram)
  request_turn inet_ntoa now peers id down = do
    (down', dropped) ← check_timeout now down
    (down'', gets) ← get_sender inet_ntoa now down'
    if (length gets == 0)
          && (ltb_ℤ down''.howmany_found down''.howmany_need
              && (ltb_ℤ down''.concurr_download_num down''.max_download_num
                  && is_zero down''.concurr_download_num))
        then (do
          asked ← whohas_sender (length down''.needlist + 1) down'' down''.needlist peers id
          some (down'', gets ++ asked))
        else some (down'', gets)

-- What a turn of the main loop uses of the system.
pub record Turn : Type 0 where
  pub inet_ntoa : ℕ → List ℕ
  pub now : ℕ
  pub moments : ℕ → Moment
  pub data_now : ℕ → ℕ
  pub writes : List Written
  pub peers : List BtPeer
  pub id : ℕ

module _ (fl : FloatOps) (shahash : List ℕ → List ℕ) where
  open fl use {Float}

  -- What the main loop does after the packets and the input: the peer with its uploads and requests,
  -- what the loop over the downloads makes of those, and what is sent.
  unfoldable pub peer_turn :
      Turn → PeerMe Float → Option (PeerMe Float × Turned Float × List Datagram)
  unfolding request_turn upload_loop download_loop
  peer_turn t me = do
    (down, asked) ← request_turn t.inet_ntoa t.now t.peers t.id me.mydownload
    (up, out) ← upload_loop fl t.moments 0 me.myupload.uploading_list me.myupload
    some (
      record me { mydownload = down; myupload = up },
      download_loop shahash t.writes t.data_now 0 down.downloading_list down,
      asked ++ out,
    )
