-- ===== src/Peer.antt =====
-- The peer as a whole (peer.c): its uploads, and what it does with each packet that comes in.
-- `none` is a fault.
pub mod Uploads
pub mod Packets
pub mod Get
pub mod Loop
pub mod Main
pub mod Cases
pub mod Counted
pub mod Within
pub mod Discovers
use p2pdown_loader.Prelude.{
  ℕ, zero, suc, ◌+◌, ◌*◌, List, [], ◌∷◌, Option, none, some, Bool, true, false, ◌&&◌, not, ltb,
  ◌==◌, if◌then◌else◌, ◌>>=◌, slice, ℤ, pos, ◌+ℤ◌, ◌-ℤ◌, ltb_ℤ, bytes_eq, ◌^◌, ◌-◌, ◌++◌, ◌>>◌,
  guard, length, take, drop, replicate,
}
use p2pdown_loader.Packet.{Packet}
use p2pdown_loader.Net.{Addr, Datagram}
use p2pdown_loader.Window.{
  FloatOps, Window, chunk_size, timeout_sec, create_sw, p2p_sender, upon_receive_ack,
}
use p2pdown_loader.Receiver.{create_recver, upon_receiving_datapack}
use p2pdown_loader.HashList.{
  HashChunk, Nodes, hash_size, find_node, find_node_by_addr, create_node, append_node, delete_node,
}
use p2pdown_loader.Discovery.{DownloadConn, is_some, ihav_sender}
use p2pdown_loader.Download.{is_null, update_node, fill_toget_list, init_download}

-- `Upload_conn`.
pub record UploadConn (F : Type 0) : Type 0 where
  pub concurr_upload_num : ℤ
  pub max_upload_num : ℤ
  pub uploading_list : Nodes F
  pub uploaded_list : Nodes F

-- `peer_me`, less its own number and address, which nothing here reads.
pub record PeerMe (F : Type 0) : Type 0 where
  pub haslist : Nodes F
  pub mydownload : DownloadConn F
  pub myupload : UploadConn F

-- What `send_onechunk` asks of the system: the first line of the master file, as `fopen` and `fgets`
-- give it, each of which may fail; the two words that `sscanf` finds in it; and the bytes of the
-- data file, if `open` succeeds.
pub record MasterFile : Type 0 where
  pub first_line : Option (Option (List ℕ))
  pub two_words : List ℕ → Option (List ℕ × List ℕ)
  pub open_data : List ℕ → Option (List ℕ)

-- What the system gives while a packet is handled: the text of an address, the addresses of new
-- nodes, the time, the number of a new window, and the files that `send_onechunk` reads.
pub record System : Type 0 where
  pub inet_ntoa : ℕ → List ℕ
  pub malloc : ℕ → ℕ
  pub now : ℕ
  pub flowid : ℕ
  pub master : MasterFile

-- `BT_FILENAME_LEN`.
abbrev pub bt_filename_len : ℕ
bt_filename_len = 255

-- The start of `send_onechunk`: the name of the data file, the second word of the first line of the
-- master file. A file that is not there gives `fgets` a null pointer; without two words the name is
-- not set; and a word that does not fit its array runs past it.
unfoldable pub data_file_name : MasterFile → Option (List ℕ)
data_file_name master = do
  line ← master.first_line
  read ← line
  (c, name) ← master.two_words read
  guard (ltb (length c) 5)
  guard (ltb (length name) bt_filename_len)
  some name

-- `pread (datafile, data, CHUNK_SIZE, place)`: the array has one byte more than a chunk and was
-- cleared. It reads as many of these bytes as the file has.
pub pread : List ℕ → ℕ → List ℕ
pread file place =
    let got = take chunk_size (drop place file) in got ++ replicate (chunk_size + 1 - length got) 0

-- `send_onechunk`: nothing is put into the window if the data file cannot be opened. The place in the
-- file is an `int`, so its product must not overflow. The result only decides what is printed.
pub send_onechunk : {F : Type 0} → MasterFile → ℕ → Window F → Option (Window F)
unfolding data_file_name pread
send_onechunk master offset w = do
  name ← data_file_name master
  elim (master.open_data name) [
    | none ↦ some w
    | some file ↦ do
      guard (ltb (offset * chunk_size) (2 ^ 31))
      (w', ret) ← p2p_sender (pread file (offset * chunk_size)) w chunk_size
      some w'
  ]

module _ (fl : FloatOps) (sys : System) where
  open fl use {Float}

  -- `init_upload` once the chunk was looked up; `up` has counted the upload already.
  pub start_upload :
      List ℕ → Addr → Option (HashChunk Float) → UploadConn Float → Option (UploadConn Float)
  start_upload hash dst none up = some up
  start_upload hash dst (some uploading) up = do
    w ← send_onechunk sys.master uploading.chunkid (create_sw fl hash dst sys.flowid)
    let new = record (create_node (sys.malloc 0) dst hash uploading.chunkid) {
      timestamp = sys.now;
      cong_win = some w;
    }
    some (record up { uploading_list = append_node up.uploading_list new })

  -- `init_upload`: the count goes up before the chunk is looked up.
  pub init_upload : Packet → Addr → Nodes Float → UploadConn Float → Option (UploadConn Float)
  unfolding start_upload
  init_upload getpack dst haslist up = do
    payload ← getpack.payload
    hash ← slice payload 0 hash_size
    start_upload hash dst (find_node haslist hash)
        (record up { concurr_upload_num = up.concurr_upload_num +ℤ pos 1 })

  -- The case of a GET packet: there must be room for an upload, and none to this peer under way; an
  -- upload that was finished before must have been of another chunk.
  pub receive_get : Packet → Addr → Nodes Float → UploadConn Float → Option (UploadConn Float)
  unfolding init_upload
  receive_get pack from haslist up =
      if ltb_ℤ up.concurr_upload_num up.max_upload_num
        && is_null (find_node_by_addr sys.inet_ntoa up.uploading_list from)
      then elim (find_node_by_addr sys.inet_ntoa up.uploaded_list from) [
        | none ↦ init_upload pack from haslist up
        | some uploaded ↦ do
          payload ← pack.payload
          hash ← slice payload 0 hash_size
          if bytes_eq uploaded.hash hash then some up else init_upload pack from haslist up
      ]
      else some up

  -- A data packet for a download that is in the list of downloads.
  pub take_data :
      Packet
      → Addr
      → HashChunk Float
      → DownloadConn Float
      → Option (DownloadConn Float × List Datagram)
  take_data pack from conn down = do
    r ← conn.recver
    (r', acks) ← upon_receiving_datapack pack r from
    some (
      record down {
        downloading_list =
            update_node (λ n. record n { recver = some r'; timestamp = sys.now }) conn.node_id
              down.downloading_list;
      },
      acks,
    )

  -- The case of a DATA packet: the first one of a request makes it a download.
  pub receive_data :
      Packet → Addr → DownloadConn Float → Option (DownloadConn Float × List Datagram)
  unfolding take_data
  receive_data pack from down = elim (find_node_by_addr sys.inet_ntoa down.downloading_list from) [
    | some conn ↦ take_data pack from conn down
    | none ↦ elim (find_node_by_addr sys.inet_ntoa down.get_sent_list from) [
      | none ↦ some (down, [])
      | some conn ↦ do
        down' ← init_download sys.now conn down
        take_data pack from (record conn { recver = some (create_recver conn.hash) }) down'
    ]
  ]

  -- The case of an ACK packet.
  pub receive_ack : Packet → Addr → UploadConn Float → Option (UploadConn Float)
  receive_ack pack from up = elim (find_node_by_addr sys.inet_ntoa up.uploading_list from) [
    | none ↦ some up
    | some conn ↦ do
      w ← conn.cong_win
      w' ← upon_receive_ack fl pack w
      some (record up {
        uploading_list =
            update_node (λ n. record n { cong_win = some w'; timestamp = sys.now }) conn.node_id
              up.uploading_list;
      })
  ]

  -- `dealwithincomepack`: the peer, and what it sends.
  pub dealwithincomepack : Packet → Addr → PeerMe Float → Option (PeerMe Float × List Datagram)
  unfolding receive_get receive_data receive_ack
  dealwithincomepack pack from me =
      if pack.packet_type == 0
      then (do sent ← ihav_sender pack me.haslist from; some (me, sent))
      else if pack.packet_type == 1
      then (do
        down ←
            fill_toget_list sys.inet_ntoa sys.malloc from pack.payload pack.chunkhash_num 0
              me.mydownload
        some (record me { mydownload = down }, []))
      else if pack.packet_type == 2
      then (do
        up ← receive_get pack from me.haslist me.myupload
        some (record me { myupload = up }, []))
      else if pack.packet_type == 3
      then (do
        (down, acks) ← receive_data pack from me.mydownload
        some (record me { mydownload = down }, acks))
      else if pack.packet_type == 4
      then (do up ← receive_ack pack from me.myupload; some (record me { myupload = up }, []))
      else some (me, [])

  -- `abort_upload`.
  pub abort_upload : HashChunk Float → UploadConn Float → Option (UploadConn Float)
  abort_upload todel up = do
    list ← delete_node up.uploading_list (some todel.node_id)
    some (record up { uploading_list = list; concurr_upload_num = up.concurr_upload_num -ℤ pos 1 })

  -- `check_recvack_timeout`, with what it returns.
  pub check_recvack_timeout : HashChunk Float → UploadConn Float → Option (UploadConn Float × ℕ)
  unfolding abort_upload
  check_recvack_timeout curr up =
      if ltb (curr.timestamp + 8 * timeout_sec) sys.now
      then (do up' ← abort_upload curr up; some (up', 1))
      else some (up, 0)
