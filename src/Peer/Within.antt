-- ===== src/Peer/Within.antt =====
-- How many uploads there may be (peer.c): the list of uploads against its count, over the packets.
use p2pdown_loader.Prelude.{
  ℕ, suc, ◌+◌, ◌≤◌, ◌<◌, ◌≡◌, subst, ap, List, Option, none, some, some_inj, >>=-eq-some,
  if-eq-some, true, false, Bool-cases, Option-cases, inl, inr, ◌⊎◌, ◌==◌, length, slice, bytes_eq,
  ltb, ℤ, pos, ◌+ℤ◌, ltb_ℤ, arith, ◌*◌,
}
use p2pdown_loader.Packet.{Packet}
use p2pdown_loader.Net.{Addr, Datagram}
use p2pdown_loader.Window.{FloatOps, create_sw, timeout_sec, upon_receive_ack}
use p2pdown_loader.HashList.{HashChunk, Nodes, hash_size, find_node, find_node_by_addr, append_node}
use p2pdown_loader.Download.{is_null}
use p2pdown_loader.Download.Updates.{length-update_node}
use p2pdown_loader.Peer.Cases.{
  Dealt, kept, heard, asked, received, confirmed, dealwithincomepack-Dealt,
}
use p2pdown_loader.Peer.{
  System, UploadConn, PeerMe, send_onechunk, start_upload, init_upload, receive_get, receive_ack,
  dealwithincomepack, abort_upload, check_recvack_timeout,
}

-- With room for `m` uploads, of which `n` are counted: each upload in the list is counted.
pub record IsWithin {F : Type 0} (m : ℕ) (up : UploadConn F) : Type 0 where
  pub counted : ℕ
  pub counted_is : up.concurr_upload_num ≡ pos counted
  pub listed : length up.uploading_list ≤ counted
  pub within : counted ≤ m
  pub max_is : up.max_upload_num ≡ pos m

room_for_one : (a b : ℤ) (n m : ℕ) → a ≡ pos n → b ≡ pos m → ltb_ℤ a b ≡ true → n < m
room_for_one a b n m e f h = ground (arith, e, f, h)

one_more : (a : ℤ) (n : ℕ) → a ≡ pos n → a +ℤ pos 1 ≡ pos (suc n)
one_more a n e = ground (arith, e)

module _ (fl : FloatOps) (sys : System) (m : ℕ) where
  open fl use {Float}

  start_upload-IsWithin :
      (hash : List ℕ) (dst : Addr) (found : Option (HashChunk Float)) (up up' : UploadConn Float)
      (n : ℕ)
      → start_upload fl sys hash dst found up ≡ some up'
      → up.concurr_upload_num ≡ pos (suc n)
      → length up.uploading_list ≤ n
      → suc n ≤ m
      → up.max_upload_num ≡ pos m
      → IsWithin m up'
  unfolding start_upload append_node
  start_upload-IsWithin hash dst none up up' n e c l w x = subst (IsWithin m) (some_inj e) (record {
    counted = suc n;
    counted_is = c;
    listed = omega (arith, l);
    within = w;
    max_is = x;
  })
  start_upload-IsWithin hash dst (some uploading) up up' n e c l w x =
      let (win, run, e1) =
        >>=-eq-some (send_onechunk sys.master uploading.chunkid (create_sw fl hash dst sys.flowid))
          _ e in
      subst (IsWithin m) (some_inj e1) (record {
        counted = suc n;
        counted_is = c;
        listed = omega (arith, l);
        within = w;
        max_is = x;
      })

  init_upload-IsWithin :
      (pack : Packet) (dst : Addr) (haslist : Nodes Float) (up up' : UploadConn Float)
      → init_upload fl sys pack dst haslist up ≡ some up'
      → ltb_ℤ up.concurr_upload_num up.max_upload_num ≡ true
      → IsWithin m up
      → IsWithin m up'
  unfolding init_upload
  init_upload-IsWithin pack dst haslist up up' e room i =
      let (payload, run1, e1) = >>=-eq-some pack.payload _ e in
      let (hash, run2, e2) = >>=-eq-some (slice payload 0 hash_size) _ e1 in
      start_upload-IsWithin hash dst (find_node haslist hash) _ up' i.counted e2
        (one_more up.concurr_upload_num i.counted i.counted_is) i.listed
        (room_for_one up.concurr_upload_num up.max_upload_num i.counted m i.counted_is i.max_is
          room)
        i.max_is

  receive_get-IsWithin :
      (pack : Packet) (from : Addr) (haslist : Nodes Float) (up up' : UploadConn Float)
      → receive_get fl sys pack from haslist up ≡ some up'
      → IsWithin m up
      → IsWithin m up'
  unfolding receive_get
  receive_get-IsWithin pack from haslist up up' e i =
      at (Bool-cases (ltb_ℤ up.concurr_upload_num up.max_upload_num))
        (Bool-cases (is_null (find_node_by_addr sys.inet_ntoa up.uploading_list from)))
        (Option-cases (find_node_by_addr sys.inet_ntoa up.uploaded_list from))
    where
      at :
          (ltb_ℤ up.concurr_upload_num up.max_upload_num ≡ true)
            ⊎ (ltb_ℤ up.concurr_upload_num up.max_upload_num ≡ false)
          → (is_null (find_node_by_addr sys.inet_ntoa up.uploading_list from) ≡ true)
            ⊎ (is_null (find_node_by_addr sys.inet_ntoa up.uploading_list from) ≡ false)
          → (find_node_by_addr sys.inet_ntoa up.uploaded_list from ≡ none)
            ⊎ ((n : HashChunk Float) × (find_node_by_addr sys.inet_ntoa up.uploaded_list from
                  ≡ some n))
          → IsWithin m up'
      at (inr r) _ _ = subst (IsWithin m) (some_inj (rw (r, receive_get) at e)) i
      at (inl r) (inr b) _ = subst (IsWithin m) (some_inj (rw (r, b, receive_get) at e)) i
      at (inl r) (inl b) (inl f) =
          init_upload-IsWithin pack from haslist up up' (rw (r, b, f, receive_get) at e) r i
      at (inl r) (inl b) (inr (n, f)) =
          let e0 = rw (r, b, f, receive_get) at e in
          let (payload, run1, e1) = >>=-eq-some pack.payload _ e0 in
          let (hash, run2, e2) = >>=-eq-some (slice payload 0 hash_size) _ e1 in
          if-eq-some (IsWithin m up') (bytes_eq n.hash hash) _ _
            (λ h. subst (IsWithin m) (some_inj h) i)
            (λ h. init_upload-IsWithin pack from haslist up up' h r i) e2

  receive_ack-IsWithin :
      (pack : Packet) (from : Addr) (up up' : UploadConn Float)
      → receive_ack fl sys pack from up ≡ some up'
      → IsWithin m up
      → IsWithin m up'
  unfolding receive_ack
  receive_ack-IsWithin pack from up up' e i =
      elim (Option-cases (find_node_by_addr sys.inet_ntoa up.uploading_list from)) [
        | inl f ↦ subst (IsWithin m) (some_inj (rw (f, receive_ack) at e)) i
        | inr (conn, f) ↦
            let e0 = rw (f, receive_ack) at e in
            let (w, run1, e1) = >>=-eq-some conn.cong_win _ e0 in
            let (w', run2, e2) = >>=-eq-some (upon_receive_ack fl pack w) _ e1 in
            let same =
              length-update_node (λ n. record n { cong_win = some w'; timestamp = sys.now })
                conn.node_id up.uploading_list in
            subst (IsWithin m) (some_inj e2) (record {
              counted = i.counted;
              counted_is = i.counted_is;
              listed = omega (arith, i.listed, same);
              within = i.within;
              max_is = i.max_is;
            })
      ]

  pub dealwithincomepack-IsWithin :
      (pack : Packet) (from : Addr) (me : PeerMe Float) (x : PeerMe Float × List Datagram)
      → dealwithincomepack fl sys pack from me ≡ some x
      → IsWithin m me.myupload
      → IsWithin m x.0.myupload
  dealwithincomepack-IsWithin pack from me x e i =
      by_case (dealwithincomepack-Dealt fl sys pack from me x e)
    where
      by_case :
          {y : PeerMe Float × List Datagram} → Dealt fl sys pack from me y → IsWithin m y.0.myupload
      by_case (kept out) = i
      by_case (heard down run) = i
      by_case (asked up run) = receive_get-IsWithin pack from me.haslist me.myupload up run i
      by_case (received y run) = i
      by_case (confirmed up run) = receive_ack-IsWithin pack from me.myupload up run i

  -- An upload that is not overdue stays, and nothing changes.
  pub check_recvack_timeout-stays :
      (curr : HashChunk Float) (up up' : UploadConn Float) (aborted : ℕ)
      → check_recvack_timeout fl sys curr up ≡ some (up', aborted)
      → (aborted == 0) ≡ true
      → up ≡ up'
  unfolding check_recvack_timeout
  check_recvack_timeout-stays curr up up' aborted e none_gone =
      if-eq-some (up ≡ up') (ltb (curr.timestamp + 8 * timeout_sec) sys.now) _ _
        (λ h.
          let (left, run, e1) = >>=-eq-some (abort_upload fl sys curr up) _ h in
          let one : 1 ≡ aborted = ap (λ (y : UploadConn Float × ℕ). y.1) (some_inj e1) in
          absurd (ground (arith, one, none_gone)))
        (λ h. ap (λ (y : UploadConn Float × ℕ). y.0) (some_inj h)) e
