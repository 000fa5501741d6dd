-- ===== src/Discovery.antt =====
-- How the peers find chunks: the packets of hashlist.c that ask for hashes and answer, and the
-- functions of peer.c that send them.
pub mod Batches
pub mod Asking
pub mod Answering
use p2pdown_loader.Prelude.{
  ℕ, zero, suc, ◌+◌, ◌-◌, ◌*◌, List, [], ◌∷◌, ◌++◌, Option, none, some, Bool, true, false, ◌||◌,
  ltb, leb, ◌==◌, if◌then◌else◌, ◌>>=◌, ◌>>◌, guard, slice, length, ℤ,
}
use p2pdown_loader.Packet.{Packet, zero_packet, max_hashnum_per_pack, header_len, u8, u16}
use p2pdown_loader.Net.{Addr, Datagram, BtPeer, send_pack, broadcast}
use p2pdown_loader.HashList.{HashChunk, Nodes, hash_size, find_node, create_node, append_node}

-- `Download_conn`, less the file and the tail of the queue, which nothing reads.
pub record DownloadConn (F : Type 0) : Type 0 where
  pub concurr_download_num : ℤ
  pub max_download_num : ℤ
  pub howmany_found : ℤ
  pub howmany_need : ℤ
  pub needlist : Nodes F
  pub get_tosend_quene : Nodes F
  pub get_sent_list : Nodes F
  pub downloading_list : Nodes F

abbrev pub is_some {ℓ} : {A : Type ℓ} → Option A → Bool
is_some none = false
is_some (some _) = true

module _ {F : Type 0} where
  -- Is a hash in one of the three lists of what is asked for or coming?
  unfoldable pub in_hand : DownloadConn F → List ℕ → Bool
  in_hand down hash =
      is_some (find_node down.get_tosend_quene hash)
      || is_some (find_node down.get_sent_list hash)
      || is_some (find_node down.downloading_list hash)

  -- The loop of `form_WhoHas`: how many hashes there are, the hashes, and where it stopped.
  unfoldable pub whohas_loop : DownloadConn F → Nodes F → ℕ → List ℕ → ℕ × List ℕ × Nodes F
  unfolding in_hand
  whohas_loop down [] count pload = (count, pload, [])
  whohas_loop down (curr ∷ list) count pload =
      let skip = in_hand down curr.hash in
      let rest =
        whohas_loop down list (if skip then count else count + 1)
          (if skip then pload else pload ++ curr.hash) in
      if ltb count max_hashnum_per_pack then rest else (count, pload, curr ∷ list)

  -- `form_WhoHas`, with the rest of the list.
  unfoldable pub form_whohas : DownloadConn F → Nodes F → Packet × Nodes F
  unfolding whohas_loop
  form_whohas down needlist =
      let (count, pload, curr) = whohas_loop down needlist 0 [] in
      (
        record zero_packet {
          packet_type = 0;
          hd_len = header_len;
          magic_num = 15441;
          version_num = 1;
          chunkhash_num = u8 count;
          pack_len = u16 (header_len + count * hash_size + 4);
          payload = some pload;
        },
        curr,
      )

  -- `WhoHas_sender`, on fuel: it goes on with the rest of the list until that is empty.
  unfoldable pub whohas_sender :
      ℕ → DownloadConn F → Nodes F → List BtPeer → ℕ → Option (List Datagram)
  whohas_sender zero down curr peers id = none
  whohas_sender (suc fuel) down [] peers id = some []
  whohas_sender (suc fuel) down (n ∷ list) peers id =
      let (pack, curr) = form_whohas down (n ∷ list) in
      let rest = whohas_sender fuel down curr peers id in
      if pack.chunkhash_num == 0
      then rest
      else do sent ← broadcast pack peers id; more ← rest; some (sent ++ more)

  -- The loop of `form_IHav` over the payload of a WHOHAS packet, `left` hashes from `count` on. The
  -- buffer for the answer has room for 50 hashes.
  pub ihav_loop : ℕ → ℕ → Option (List ℕ) → Nodes F → ℕ → List ℕ → Option (ℕ × List ℕ)
  ihav_loop zero count payload haslist len pload = some (len, pload)
  ihav_loop (suc left) count payload haslist len pload = do
    hashes ← payload
    find_hash ← slice hashes (count * hash_size) hash_size
    let found = is_some (find_node haslist find_hash)
    guard (if found then ltb len max_hashnum_per_pack else true)
    ihav_loop left (count + 1) payload haslist (if found then len + 1 else len)
        (if found then pload ++ find_hash else pload)

  pub form_ihav : Packet → Nodes F → Option Packet
  unfolding ihav_loop
  form_ihav whohas haslist = do
    (len, pload) ← ihav_loop whohas.chunkhash_num 0 whohas.payload haslist 0 []
    some (record zero_packet {
      packet_type = 1;
      hd_len = header_len;
      magic_num = 15441;
      version_num = 1;
      chunkhash_num = u8 len;
      pack_len = u16 (header_len + len * hash_size + 4);
      payload = some pload;
    })

  -- `IHav_sender`: nothing goes back if no chunk is there.
  pub ihav_sender : Packet → Nodes F → Addr → Option (List Datagram)
  unfolding form_ihav
  ihav_sender whohas haslist to = do
    ihav ← form_ihav whohas haslist
    if ltb 0 ihav.chunkhash_num then (do sent ← send_pack ihav to; some (sent ∷ [])) else some []

  unfoldable pub form_get : HashChunk F → Packet
  form_get hashtoget = record zero_packet {
    packet_type = 2;
    hd_len = header_len;
    magic_num = 15441;
    version_num = 1;
    seq_num = 1;
    pack_len = header_len + hash_size;
    payload = some hashtoget.hash;
  }
