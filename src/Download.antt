-- ===== src/Download.antt =====
-- The downloads of peer.c: the chunks that were found go from the queue of GET requests to the list
-- of the requests sent, and from there to the list of the chunks that come in. `none` is a fault.
pub mod Requests
pub mod Updates
pub mod Tally
pub mod Heard
use p2pdown_loader.Prelude.{
  ℕ, zero, suc, ◌+◌, ◌-◌, ◌*◌, List, [], ◌∷◌, ◌++◌, Option, none, some, Bool, true, false, ◌&&◌,
  ◌||◌, not, ltb, ◌==◌, if◌then◌else◌, ◌>>=◌, ◌>>◌, length, slice, ℤ, pos, negsuc, ◌+ℤ◌, ◌-ℤ◌,
  pos_part,
}
use p2pdown_loader.Packet.{Packet}
use p2pdown_loader.Net.{Addr, Datagram, send_pack}
use p2pdown_loader.Window.{timeout_sec}
use p2pdown_loader.Receiver.{create_recver}
use p2pdown_loader.HashList.{
  HashChunk, Nodes, hash_size, find_node, find_node_by_addr, take_out, delete_node,
  delete_node_by_hash, move_node, append_node, create_node,
}
use p2pdown_loader.Discovery.{DownloadConn, is_some, form_get}

abbrev pub is_null {ℓ} : {A : Type ℓ} → Option A → Bool
is_null o = not (is_some o)

module _ {F : Type 0} where
  -- A change to the node with an identity, wherever the list has it.
  unfoldable pub update_node : (HashChunk F → HashChunk F) → ℕ → Nodes F → Nodes F
  update_node f id [] = []
  update_node f id (n ∷ list) = if n.node_id == id then f n ∷ list else n ∷ update_node f id list

  -- One request of the loop of `check_timeout`.
  pub drop_request : ℕ → HashChunk F → DownloadConn F × ℕ → Option (DownloadConn F × ℕ)
  drop_request now curr (down, count) =
      if ltb (curr.timestamp + 5 * timeout_sec) now
      then (do
        left ← delete_node down.get_sent_list (some curr.node_id)
        some (
          record down {
            get_sent_list = left;
            concurr_download_num = down.concurr_download_num -ℤ pos 1;
            howmany_found = down.howmany_found -ℤ pos 1;
          },
          count + 1,
        ))
      else some (down, count)

  unfoldable pub timeout_loop : ℕ → Nodes F → DownloadConn F × ℕ → Option (DownloadConn F × ℕ)
  timeout_loop now [] s = some s
  timeout_loop now (curr ∷ list) s = drop_request now curr s >>= timeout_loop now list

  -- `check_timeout` at the time `now`, of the list of the requests sent.
  unfoldable pub check_timeout : ℕ → DownloadConn F → Option (DownloadConn F × ℕ)
  unfolding timeout_loop drop_request
  check_timeout now down = timeout_loop now down.get_sent_list (down, 0)

  -- What a round of the loop of `pick_tosend_GET` does with a request that may go out now: the
  -- node moves, and its next one is from then on what was the first of the requests sent.
  unfoldable pub send_request :
      ℕ → HashChunk F → DownloadConn F → Option (Datagram × Nodes F × DownloadConn F)
  send_request now curr down = do
    (sent, tosend) ← move_node down.get_sent_list down.get_tosend_quene (some curr)
    get ← send_pack (form_get curr) curr.from
    some (
      get,
      down.get_sent_list,
      record down {
        get_sent_list = update_node (λ n. record n { timestamp = now }) curr.node_id sent;
        get_tosend_quene = tosend;
      },
    )

  -- The loop, on fuel: the nodes from `curr` on, and how many may still be picked. The lists in
  -- which peers are looked up are the ones from before the loop.
  unfoldable pub pick_loop :
      (ℕ → List ℕ)
      → ℕ
      → Nodes F
      → Nodes F
      → ℕ
      → Nodes F
      → ℕ
      → DownloadConn F
      → Option (DownloadConn F × List Datagram)
  unfolding send_request
  pick_loop inet_ntoa now sent downloads zero list left down = none
  pick_loop inet_ntoa now sent downloads (suc fuel) [] left down = some (down, [])
  pick_loop inet_ntoa now sent downloads (suc fuel) (curr ∷ list) zero down = some (down, [])
  pick_loop inet_ntoa now sent downloads (suc fuel) (curr ∷ list) (suc left) down =
      elim (is_null (find_node_by_addr inet_ntoa sent curr.from)
        && is_null (find_node_by_addr inet_ntoa downloads curr.from)) [
          | false ↦ pick_loop inet_ntoa now sent downloads fuel list (suc left) down
          | true ↦ do
            (get, next, down') ← send_request now curr down
            (down'', gets) ← pick_loop inet_ntoa now sent downloads fuel next left down'
            some (down'', get ∷ gets)
        ]

  -- `pick_tosend_GET`: the requests that it sends; their number is what it returns.
  unfoldable pub pick_tosend_get :
      (ℕ → List ℕ) → ℕ → ℕ → DownloadConn F → Option (DownloadConn F × List Datagram)
  unfolding pick_loop
  pick_tosend_get inet_ntoa now maxpick_num down =
      pick_loop inet_ntoa now down.get_sent_list down.downloading_list
        (length down.get_tosend_quene + length down.get_sent_list + 1) down.get_tosend_quene
        maxpick_num down

  -- `GET_sender`. No more is picked where the difference is negative.
  unfoldable pub get_sender :
      (ℕ → List ℕ) → ℕ → DownloadConn F → Option (DownloadConn F × List Datagram)
  get_sender inet_ntoa now down = do
    let max_send = pos_part (down.max_download_num -ℤ down.concurr_download_num)
    (down', gets) ← pick_tosend_get inet_ntoa now max_send down
    some (
      record down' { concurr_download_num = down'.concurr_download_num +ℤ pos (length gets) },
      gets,
    )

  -- `init_download` at the time `now`.
  unfoldable pub init_download : ℕ → HashChunk F → DownloadConn F → Option (DownloadConn F)
  init_download now conn down = do
    (downloads, sent) ← move_node down.downloading_list down.get_sent_list (some conn)
    some (record down {
      get_sent_list = sent;
      downloading_list =
          update_node (λ n. record n { timestamp = now; recver = some (create_recver n.hash) })
            conn.node_id downloads;
    })

  -- `finish_one_download`.
  unfoldable pub finish_one_download : HashChunk F → DownloadConn F → Option (DownloadConn F)
  finish_one_download todel down = do
    need ← delete_node_by_hash down.needlist todel.hash
    downloads ← delete_node down.downloading_list (some todel.node_id)
    some (record down {
      needlist = need;
      downloading_list = downloads;
      concurr_download_num = down.concurr_download_num -ℤ pos 1;
    })

  -- `check_recvdata_timeout` at the time `now`, with what it returns.
  pub check_recvdata_timeout : ℕ → HashChunk F → DownloadConn F → Option (DownloadConn F × ℕ)
  check_recvdata_timeout now curr down =
      if ltb (curr.timestamp + 5 * timeout_sec) now
      then (do
        downloads ← delete_node down.downloading_list (some curr.node_id)
        some (
          record down {
            downloading_list = downloads;
            howmany_found = down.howmany_found -ℤ pos 1;
            concurr_download_num = down.concurr_download_num -ℤ pos 1;
          },
          1,
        ))
      else some (down, 0)

  -- What `fill_toget_list` does with a hash that is needed, is neither asked for nor coming, and
  -- may be in the queue already. `id` is the address that `malloc` gives.
  unfoldable pub queue_request :
      (ℕ → List ℕ) → ℕ → Addr → List ℕ → HashChunk F → DownloadConn F → Option (DownloadConn F)
  queue_request inet_ntoa id from hash needed down =
      let node = create_node id from hash needed.chunkid in
      elim (find_node down.get_tosend_quene hash) [
        | none ↦ some (record down {
          get_tosend_quene = append_node down.get_tosend_quene node;
          howmany_found = down.howmany_found +ℤ pos 1;
        })
        | some stored ↦
            if not (from.port == stored.from.port)
              && (is_some (find_node_by_addr inet_ntoa down.downloading_list stored.from)
                  || is_some (find_node_by_addr inet_ntoa down.get_sent_list stored.from))
            then (do
              tosend ← delete_node down.get_tosend_quene (some stored.node_id)
              some (record down { get_tosend_quene = append_node tosend node }))
            else some down
      ]

  -- `fill_toget_list` over the payload of an IHAVE packet: `left` hashes are left from `count` on.
  unfoldable pub fill_toget_list :
      (ℕ → List ℕ)
      → (ℕ → ℕ)
      → Addr
      → Option (List ℕ)
      → ℕ
      → ℕ
      → DownloadConn F
      → Option (DownloadConn F)
  unfolding queue_request
  fill_toget_list inet_ntoa malloc from payload zero count down = some down
  fill_toget_list inet_ntoa malloc from payload (suc left) count down = do
    hashes ← payload
    hash ← slice hashes (count * hash_size) hash_size
    let wanted =
        is_null (find_node down.downloading_list hash)
        && is_null (find_node down.get_sent_list hash)
    down' ← elim (find_node down.needlist hash) [
      | none ↦ some down
      | some needed ↦
          if wanted then queue_request inet_ntoa (malloc count) from hash needed down else some down
    ]
    fill_toget_list inet_ntoa malloc from payload left (count + 1) down'
