-- ===== src/Peer/Get.antt =====
-- A GET command of the user (peer.c), and the lists of hashes that the peer reads from its files
-- (hashlist.c). `none` is a fault, or the end of the program by `assert`.
pub mod Needs
pub mod Listing
pub mod Counted
pub mod Steps
use p2pdown_loader.Prelude.{
  ℕ, zero, suc, ◌+◌, ◌-◌, List, [], ◌∷◌, ◌++◌, Option, none, some, Bool, true, false, ltb, ◌==◌,
  ◌&&◌, if◌then◌else◌, ◌>>=◌, length, take, replicate, ℤ, pos,
}
use p2pdown_loader.Net.{Addr}
use p2pdown_loader.HashList.{Nodes, append_node, create_node, length_of_list, clear_hashchunk_list}
use p2pdown_loader.Chunk.{hex2binary}
use p2pdown_loader.Discovery.{DownloadConn}
use p2pdown_loader.Peer.{PeerMe, UploadConn}

-- What `sscanf` finds of a number and a word in a line: the end before the number, no number, a
-- number alone, or both.
pub data Scanned : Type 0 where
  ended : Scanned
  unmatched : Scanned
  number : ℕ → Scanned
  both : ℕ → List ℕ → Scanned

-- What the parsing of a file uses of the system: `sscanf`, and the addresses of new nodes.
pub record Files : Type 0 where
  pub scan : List ℕ → Scanned
  pub malloc : ℕ → ℕ

-- The buffer of 50 bytes for the word, which was cleared; a longer word runs past it.
unfoldable pub hash_text : List ℕ → Option (List ℕ)
hash_text word = if ltb (length word) 50 then some (take 40 (word ++ replicate 40 0)) else none

-- Is a line a comment?
unfoldable pub is_comment : List ℕ → Bool
is_comment [] = false
is_comment (c ∷ line) = c == 35

module _ {F : Type 0} where
  -- A line of `parse_hasneed_list` that is not a comment: the node for it. Without a number in the
  -- line, the chunk gets the number of the line before.
  unfoldable pub add_chunk : Files → Addr → ℕ → ℕ → List ℕ → Nodes F → Option (Nodes F)
  unfolding hash_text
  add_chunk files myaddr id chunkid word list = do
    hash ← hash_text word
    decoded_hash ← hex2binary hash
    some (append_node list (create_node (files.malloc id) myaddr decoded_hash chunkid))

  unfoldable pub add_line : Files → Addr → ℕ → ℕ → Scanned → Nodes F → Option (ℕ × Nodes F)
  unfolding add_chunk
  add_line files myaddr id chunkid unmatched list = none
  add_line files myaddr id chunkid ended list = do
    list' ← add_chunk files myaddr id chunkid [] list
    some (chunkid, list')
  add_line files myaddr id chunkid (number n) list = do
    list' ← add_chunk files myaddr id n [] list
    some (n, list')
  add_line files myaddr id chunkid (both n word) list = do
    list' ← add_chunk files myaddr id n word list
    some (n, list')

  -- The loop of `parse_hasneed_list` over the lines that `fgets` gives; `id` counts the nodes and
  -- `chunkid` is the number that was read last.
  unfoldable pub parse_lines : Files → Addr → ℕ → ℕ → List (List ℕ) → Nodes F → Option (Nodes F)
  unfolding add_line is_comment
  parse_lines files myaddr id chunkid [] list = some list
  parse_lines files myaddr id chunkid (line ∷ lines) list = elim (is_comment line) [
    | true ↦ parse_lines files myaddr id chunkid lines list
    | false ↦ do
      (chunkid', list') ← add_line files myaddr id chunkid (files.scan line) list
      parse_lines files myaddr (id + 1) chunkid' lines list'
  ]

  -- `parse_hasneed_list` of a file, if it can be opened; `chunkid` is what the variable holds first.
  unfoldable pub parse_hasneed_list :
      Files → Addr → ℕ → Option (List (List ℕ)) → Nodes F → Option (Nodes F)
  unfolding parse_lines
  parse_hasneed_list files myaddr chunkid none list = none
  parse_hasneed_list files myaddr chunkid (some lines) list =
      parse_lines files myaddr 0 chunkid lines list

  -- The lists of downloads, cleared.
  unfoldable pub clear_lists : DownloadConn F → Option (DownloadConn F)
  clear_lists down = do
    (need, n1) ← clear_hashchunk_list down.needlist
    (tosend, n2) ← clear_hashchunk_list down.get_tosend_quene
    (sent, n3) ← clear_hashchunk_list down.get_sent_list
    (downloads, n4) ← clear_hashchunk_list down.downloading_list
    some (record down {
      needlist = need;
      get_tosend_quene = tosend;
      get_sent_list = sent;
      downloading_list = downloads;
    })

  -- `reset_mydownload`, less the names of the files. `lines` are those of the file of chunks.
  unfoldable pub reset_mydownload :
      Files → Addr → ℕ → ℤ → Option (List (List ℕ)) → DownloadConn F → Option (DownloadConn F)
  unfolding clear_lists parse_hasneed_list
  reset_mydownload files myaddr chunkid max_conn lines down = do
    cleared ← clear_lists (record down {
      concurr_download_num = pos 0;
      max_download_num = max_conn;
      howmany_found = pos 0;
    })
    need ← parse_hasneed_list files myaddr chunkid lines cleared.needlist
    some (record cleared { needlist = need; howmany_need = pos (length_of_list need) })

  -- `handle_user_input`, with the number of items and the two names that `sscanf` finds in a line,
  -- and `process_get`, which does no more than `reset_mydownload`. `open` gives a file's lines.
  unfoldable pub handle_user_input :
      (List ℕ → ℕ × List ℕ × List ℕ)
      → (List ℕ → Option (List (List ℕ)))
      → Files
      → Addr
      → ℕ
      → ℤ
      → List ℕ
      → DownloadConn F
      → Option (DownloadConn F)
  unfolding reset_mydownload
  handle_user_input scan_get open_lines files myaddr chunkid max_conn line down =
      let (found, chunkf, outf) = scan_get line in
      if ltb 0 found && ltb 0 (length outf)
      then reset_mydownload files myaddr chunkid max_conn (open_lines chunkf) down
      else some down

  -- `complete_mydownload`, which keeps the list of what is needed.
  unfoldable pub complete_mydownload : DownloadConn F → Option (DownloadConn F)
  complete_mydownload down = do
    (tosend, n1) ← clear_hashchunk_list down.get_tosend_quene
    (sent, n2) ← clear_hashchunk_list down.get_sent_list
    (downloads, n3) ← clear_hashchunk_list down.downloading_list
    some (record down {
      max_download_num = pos 0;
      get_tosend_quene = tosend;
      get_sent_list = sent;
      downloading_list = downloads;
    })

  -- The lists of a peer that has just started, and `init_peerme`, less the peer's own number.
  abbrev pub no_download : ℤ → DownloadConn F
  no_download max_conn = record {
    concurr_download_num = pos 0;
    max_download_num = max_conn;
    howmany_found = pos 0;
    howmany_need = pos 0;
    needlist = [];
    get_tosend_quene = [];
    get_sent_list = [];
    downloading_list = [];
  }

  unfoldable pub init_peerme : Files → Addr → ℕ → ℤ → Option (List (List ℕ)) → Option (PeerMe F)
  unfolding parse_hasneed_list
  init_peerme files myaddr chunkid max_conn lines = do
    has ← parse_hasneed_list files myaddr chunkid lines []
    some (record {
      haslist = has;
      mydownload = no_download max_conn;
      myupload = record {
        concurr_upload_num = pos 0;
        max_upload_num = max_conn;
        uploading_list = [];
        uploaded_list = [];
      };
    })
