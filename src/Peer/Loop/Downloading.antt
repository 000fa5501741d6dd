-- ===== src/Peer/Loop/Downloading.antt =====
-- What the loop of `peer_run` does with a chunk that has come in, and with one that has not.
use p2pdown_loader.Prelude.{
  ℕ, ◌*◌, ◌<◌, ◌≤◌, ◌^◌, ◌≡◌, ◌≢◌, refl, ap, ◌∙◌, List, [], ◌∷◌, some, true, false, if◌then◌else◌,
  bytes_eq, pos, ◌-ℤ◌,
}
use p2pdown_loader.Window.{chunk_size}
use p2pdown_loader.Receiver.{RecvState, Write, Written, Reaped, written, bad_hash, short, reap}
use p2pdown_loader.Receiver.Invariant.{Holds}
use p2pdown_loader.Receiver.Reap.{Fills, successes, sum, reap-Fills, reap-bad_hash}
use p2pdown_loader.HashList.{HashChunk, Nodes, delete_node_by_hash}
use p2pdown_loader.HashList.Moves.{IsIn, delete_node_by_hash-first, clear_hashchunk_list-length}
use p2pdown_loader.Discovery.{DownloadConn}
use p2pdown_loader.Download.Updates.{finish_one_download-runs}
use p2pdown_loader.Download.{finish_one_download}
use p2pdown_loader.Peer.Get.{complete_mydownload}
use p2pdown_loader.Peer.Loop.{
  completed, fault, or_fault, is_chunk, received_turn, end_or_read, after_reap, reaped,
  check_download, download_turn,
}

-- The ways in which `reap` returns.
pub data Returns : Reaped → Type 0 where
  wrote_all : (k : ℕ) (ws : List Write) → Returns (written k ws)
  hash_failed : Returns bad_hash
  too_short : Returns short

module _ {F : Type 0} (shahash : List ℕ → List ℕ) where
  -- A node whose receiver has counted a chunk is reaped.
  download_turn-full :
      (ws : List Written) (now : ℕ) (curr : HashChunk F) (down : DownloadConn F) (r : RecvState)
      → curr.recver ≡ some r
      → r.recv_bytesnum ≡ pos chunk_size
      → download_turn shahash ws now curr down ≡ reaped (reap shahash ws r curr.chunkid) curr down
  unfolding download_turn received_turn or_fault
  download_turn-full ws now curr down r e full =
      ap (λ o. or_fault o (received_turn shahash ws now curr down)) e
      ∙ ap
          (λ n.
            if is_chunk n
            then reaped (reap shahash ws r curr.chunkid) curr down
            else check_download now curr down)
          full

  -- Nothing is needed any more.
  end_or_read-ends :
      (ws : List Write) (down : DownloadConn F)
      → end_or_read ws down []
        ≡ completed ws (record down {
          max_download_num = pos 0;
          get_tosend_quene = [];
          get_sent_list = [];
          downloading_list = [];
        })
  unfolding end_or_read or_fault complete_mydownload
  end_or_read-ends ws down =
      rw
        (
          clear_hashchunk_list-length down.get_tosend_quene,
          clear_hashchunk_list-length down.get_sent_list,
          clear_hashchunk_list-length down.downloading_list,
        )
        refl

  -- A chunk that was reaped is finished, whatever `reap` said.
  after_reap-finished :
      (ws : List Write) (curr : HashChunk F) (down finished : DownloadConn F)
      → finish_one_download curr down ≡ some finished
      → after_reap ws curr down ≡ end_or_read ws finished finished.needlist
  unfolding after_reap or_fault
  after_reap-finished ws curr down finished e =
      ap (λ o. or_fault o (λ d. end_or_read ws d d.needlist)) e

  -- When the last chunk that is needed has come in, with the right hash, the loop writes it at its
  -- place in the file without a gap, whatever the sizes of the successful writes; takes it off the
  -- list of what is needed; and ends the download: all lists are empty, and there is no room for
  -- another request until the next GET command.
  pub download_turn-completes :
      (chunk : List ℕ) (ns : List ℕ) (now : ℕ) (curr needed : HashChunk F) (down : DownloadConn F)
      (r : RecvState)
      → curr.recver ≡ some r
      → Holds chunk r
      → r.recv_bytesnum ≡ pos chunk_size
      → shahash chunk ≡ r.hash
      → curr.chunkid * chunk_size < 2 ^ 31
      → chunk_size ≤ sum ns
      → IsIn curr down.downloading_list
      → down.needlist ≡ needed ∷ []
      → bytes_eq needed.hash curr.hash ≡ true
      → (writes : List Write) × (download_turn shahash (successes ns) now curr down
          ≡ completed writes (record {
            concurr_download_num = down.concurr_download_num -ℤ pos 1;
            max_download_num = pos 0;
            howmany_found = down.howmany_found;
            howmany_need = down.howmany_need;
            needlist = [];
            get_tosend_quene = [];
            get_sent_list = [];
            downloading_list = [];
          }))
        × Fills chunk (curr.chunkid * chunk_size) 0 writes
  unfolding reaped
  download_turn-completes chunk ns now curr needed down r e h full same fits enough i last is_it =
      let (k, writes, run, f) =
        reap-Fills shahash chunk r curr.chunkid ns h full same fits enough in
      let none_left : delete_node_by_hash down.needlist curr.hash ≡ some [] =
        ap (λ l. delete_node_by_hash l curr.hash) last
        ∙ delete_node_by_hash-first needed [] curr.hash is_it in
      (
        writes,
        download_turn-full (successes ns) now curr down r e full
            ∙ ap (λ o. reaped o curr down) run
            ∙ after_reap-finished writes curr down _
                (finish_one_download-runs curr down [] none_left i)
            ∙ end_or_read-ends writes _,
        f,
      )

  -- When the last chunk that is needed has come in with a wrong hash, nothing is written, whatever
  -- `write` would do; but the loop takes it off the list of what is needed all the same, and ends the
  -- download as if the whole file were there.
  pub download_turn-wrong_hash :
      (chunk : List ℕ) (ws : List Written) (now : ℕ) (curr needed : HashChunk F)
      (down : DownloadConn F) (r : RecvState)
      → curr.recver ≡ some r
      → Holds chunk r
      → r.recv_bytesnum ≡ pos chunk_size
      → bytes_eq (shahash chunk) r.hash ≡ false
      → IsIn curr down.downloading_list
      → down.needlist ≡ needed ∷ []
      → bytes_eq needed.hash curr.hash ≡ true
      → download_turn shahash ws now curr down
        ≡ completed [] (record {
          concurr_download_num = down.concurr_download_num -ℤ pos 1;
          max_download_num = pos 0;
          howmany_found = down.howmany_found;
          howmany_need = down.howmany_need;
          needlist = [];
          get_tosend_quene = [];
          get_sent_list = [];
          downloading_list = [];
        })
  unfolding reaped
  download_turn-wrong_hash chunk ws now curr needed down r e h full other i last is_it =
      let none_left : delete_node_by_hash down.needlist curr.hash ≡ some [] =
        ap (λ l. delete_node_by_hash l curr.hash) last
        ∙ delete_node_by_hash-first needed [] curr.hash is_it in
      download_turn-full ws now curr down r e full
      ∙ ap (λ o. reaped o curr down) (reap-bad_hash shahash chunk r curr.chunkid ws h full other)
      ∙ after_reap-finished [] curr down _ (finish_one_download-runs curr down [] none_left i)
      ∙ end_or_read-ends [] _

  -- A chunk that has come in is taken off the list of what is needed, and its node freed, also if
  -- its hash is wrong; and if another chunk is still needed, the loop then reads the freed node.
  -- This is so for every way in which `reap` returns.
  pub download_turn-freed :
      (ws : List Written) (now : ℕ) (curr : HashChunk F) (down finished : DownloadConn F)
      (r : RecvState)
      → curr.recver ≡ some r
      → r.recv_bytesnum ≡ pos chunk_size
      → Returns (reap shahash ws r curr.chunkid)
      → finish_one_download curr down ≡ some finished
      → finished.needlist ≢ []
      → download_turn shahash ws now curr down ≡ fault
  unfolding reaped end_or_read
  download_turn-freed ws now curr down finished r e full returns fin more =
      download_turn-full ws now curr down r e full ∙ by_result returns
    where
      reads : (ms : List Write) (list : Nodes F) → list ≢ [] → end_or_read ms finished list ≡ fault
      reads ms [] ne = absurd (ne refl)
      reads ms (x ∷ list) ne = refl

      freed : (ms : List Write) → after_reap ms curr down ≡ fault
      freed ms = after_reap-finished ms curr down finished fin ∙ reads ms finished.needlist more

      by_result : {o : Reaped} → Returns o → reaped o curr down ≡ fault
      by_result (Returns.wrote_all k ms) = freed ms
      by_result Returns.hash_failed = freed []
      by_result Returns.too_short = freed []
