-- ===== src/Peer/Uploads.antt =====
-- When a peer starts an upload, and what it counts.
use p2pdown_loader.Prelude.{
  ℕ, ◌≡◌, refl, ap, sym, append-nil, ◌∙◌, List, [], ◌∷◌, ◌++◌, none, some, length, slice, ltb,
  lt→ltb, true, ◌^◌, ◌<◌, ◌*◌, ◌-◌, ◌+◌, drop-append, take-append, slice-start, arith, pos, ◌+ℤ◌,
}
use p2pdown_loader.Packet.{Packet}
use p2pdown_loader.Net.{Addr}
use p2pdown_loader.Window.{FloatOps, Window, create_sw, p2p_sender, chunk_size}
use p2pdown_loader.Window.Invariant.{create_sw-IsValid}
use p2pdown_loader.Window.Fill.{IsFilled, p2p_sender-IsFilled}
use p2pdown_loader.HashList.{HashChunk, Nodes, find_node, append_node, create_node}
use p2pdown_loader.Peer.{
  System, UploadConn, data_file_name, pread, send_onechunk, start_upload, init_upload,
}

module _ (fl : FloatOps) (sys : System) where
  open fl use {Float}

  -- What an answered GET leaves: the window of a new upload holds the whole chunk, in its packets.
  pub record Started (data_of : List ℕ) (dst : Addr) (hash : List ℕ) (up up' : UploadConn Float)
      : Type 0 where
    pub node : HashChunk Float
    pub window : Window Float
    pub has_window : node.cong_win ≡ some window
    pub node_hash : node.hash ≡ hash
    pub node_from : node.from ≡ dst
    pub filled : IsFilled data_of (create_sw fl hash dst sys.flowid) window
    pub started : up' ≡ record up {
      concurr_upload_num = up.concurr_upload_num +ℤ pos 1;
      uploading_list = node ∷ up.uploading_list;
    }

  -- `pread` from behind `before` reads the next chunk, and leaves one zero.
  pread-chunk :
      (before data_of after : List ℕ) (place : ℕ)
      → length before ≡ place
      → length data_of ≡ chunk_size
      → pread (before ++ (data_of ++ after)) place ≡ data_of ++ (0 ∷ [])
  unfolding pread
  pread-chunk before data_of after place at full =
      let spare : chunk_size + 1 - length data_of ≡ 1 = omega (arith, full) in
      rw
        (
          drop-append before (data_of ++ after) place at,
          take-append data_of after chunk_size full,
          spare,
        )
        refl

  -- What a run of `send_onechunk` for a new window leaves.
  abbrev SendsChunk : List ℕ → List ℕ → Addr → ℕ → Type 0
  SendsChunk data_of hash dst offset =
      (w : Window Float) × (send_onechunk sys.master offset (create_sw fl hash dst sys.flowid)
        ≡ some w)
      × IsFilled data_of (create_sw fl hash dst sys.flowid) w

  send_onechunk-IsFilled :
      (name before data_of after hash : List ℕ) (dst : Addr) (offset : ℕ)
      → data_file_name sys.master ≡ some name
      → sys.master.open_data name ≡ some (before ++ (data_of ++ after))
      → length before ≡ offset * chunk_size
      → offset * chunk_size < 2 ^ 31
      → length data_of ≡ chunk_size
      → SendsChunk data_of hash dst offset
  unfolding send_onechunk create_sw
  send_onechunk-IsFilled name before data_of after hash dst offset named opened at fits full =
      sent (
        p2p_sender-IsFilled data_of (0 ∷ []) (create_sw fl hash dst sys.flowid)
          (create_sw-IsValid fl data_of hash dst sys.flowid) refl (omega (arith, full))
          (omega (arith, full)))
    where
      sent :
          (w : Window Float) × (p2p_sender
                (data_of ++ (0 ∷ []))
                (create_sw fl hash dst sys.flowid)
                (length data_of)
              ≡ some (w, length data_of))
            × IsFilled data_of (create_sw fl hash dst sys.flowid) w
          → SendsChunk data_of hash dst offset
      sent (w, run, f) =
          let room : ltb (offset * chunk_size) (2 ^ 31) ≡ true = lt→ltb _ _ fits in
          (
            w,
            rw (named, opened)
                (rw (room, pread-chunk before data_of after (offset * chunk_size) at full)
                  (rw (rw full at run) refl)),
            f,
          )

  -- A GET packet with the hash of a chunk that is there starts an upload, if the data file can be
  -- opened, has the whole chunk behind as many chunks as its number says, and is not longer up to
  -- there than an `int` holds: the call returns, the count goes up, and the first node of the list has
  -- the hash, the address of the asking peer, and a window that holds in numbered packets the bytes of
  -- the file that stand there.
  pub init_upload-Started :
      (pack : Packet) (dst : Addr) (haslist : Nodes Float) (up : UploadConn Float)
      (hash name before data_of after : List ℕ) (held : HashChunk Float)
      → pack.payload ≡ some hash
      → length hash ≡ 20
      → find_node haslist hash ≡ some held
      → data_file_name sys.master ≡ some name
      → sys.master.open_data name ≡ some (before ++ (data_of ++ after))
      → length before ≡ held.chunkid * chunk_size
      → held.chunkid * chunk_size < 2 ^ 31
      → length data_of ≡ chunk_size
      → (up' : UploadConn Float) × (init_upload fl sys pack dst haslist up ≡ some up')
        × Started data_of dst hash up up'
  unfolding init_upload start_upload append_node create_node
  init_upload-Started pack dst haslist up hash name before data_of after held pay e found named
        opened at fits full =
      started (
        send_onechunk-IsFilled name before data_of after hash dst held.chunkid named opened at fits
          full)
    where
      whole : slice hash 0 20 ≡ some hash
      whole = ap (λ s. slice s 0 20) (sym (append-nil hash)) ∙ slice-start hash [] 20 e

      started :
          SendsChunk data_of hash dst held.chunkid
          → (up' : UploadConn Float) × (init_upload fl sys pack dst haslist up ≡ some up')
            × Started data_of dst hash up up'
      started (w, run, f) = (
        _,
        rw (pay, whole, found, run) refl,
        record {
          node = record (create_node (sys.malloc 0) dst hash held.chunkid) {
            timestamp = sys.now;
            cong_win = some w;
          };
          window = w;
          has_window = refl;
          node_hash = refl;
          node_from = refl;
          filled = f;
          started = refl;
        },
      )

  -- For a chunk that is not there, the count of uploads goes up all the same, and no upload starts.
  pub init_upload-unheld :
      (pack : Packet) (dst : Addr) (haslist : Nodes Float) (up : UploadConn Float) (hash : List ℕ)
      → pack.payload ≡ some hash
      → length hash ≡ 20
      → find_node haslist hash ≡ none
      → init_upload fl sys pack dst haslist up
        ≡ some (record up { concurr_upload_num = up.concurr_upload_num +ℤ pos 1 })
  unfolding init_upload start_upload
  init_upload-unheld pack dst haslist up hash pay e missing =
      rw (pay, ap (λ s. slice s 0 20) (sym (append-nil hash)) ∙ slice-start hash [] 20 e, missing)
        refl
