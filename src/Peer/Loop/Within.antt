-- ===== src/Peer/Loop/Within.antt =====
-- How many uploads there may be, over the loop of `peer_run` over the uploads.
use p2pdown_loader.Prelude.{
  ℕ, suc, ◌+◌, ◌-◌, ◌≤◌, ◌<◌, ◌≡◌, refl, subst, ap, ◌∙◌, List, [], ◌∷◌, none, some, some_inj,
  >>=-eq-some, if-eq-some, Bool, true, false, ◌==◌, if◌then◌else◌, length, pos, arith,
}
use p2pdown_loader.Net.{Datagram}
use p2pdown_loader.Window.{FloatOps, Window, check_datapack_timeout}
use p2pdown_loader.HashList.{HashChunk, Nodes, move_node}
use p2pdown_loader.HashList.Lengths.{move_node-length}
use p2pdown_loader.Download.Updates.{length-update_node}
use p2pdown_loader.Download.Tally.{less_one}
use p2pdown_loader.Peer.{UploadConn, PeerMe, check_recvack_timeout}
use p2pdown_loader.Peer.Within.{IsWithin, check_recvack_timeout-stays}
use p2pdown_loader.Peer.Loop.{
  Moment, send_window, set_window, finish_upload, still_there, check_upload, after_send, turn_from,
  upload_turn, upload_loop, request_turn, peer_turn, Turn, Turned,
}

module _ (fl : FloatOps) (m : ℕ) where
  open fl use {Float}

  -- After a round: the bound holds, and at most one upload is gone from the list.
  record Round (up up' : UploadConn Float) : Type 0 where
    within : IsWithin m up'
    at_most_one : length up.uploading_list ≤ suc (length up'.uploading_list)

  length-set_window :
      (curr : HashChunk Float) (w : Window Float) (up : UploadConn Float)
      → length (set_window fl curr w up).uploading_list ≡ length up.uploading_list
  unfolding set_window
  length-set_window curr w up =
      length-update_node (λ n. record n { cong_win = some w }) curr.node_id up.uploading_list

  set_window-IsWithin :
      (curr : HashChunk Float) (w : Window Float) (up : UploadConn Float)
      → IsWithin m up
      → IsWithin m (set_window fl curr w up)
  unfolding set_window
  set_window-IsWithin curr w up i =
      let same =
        length-update_node (λ n. record n { cong_win = some w }) curr.node_id up.uploading_list in
      record {
        counted = i.counted;
        counted_is = i.counted_is;
        listed = omega (arith, i.listed, same);
        within = i.within;
        max_is = i.max_is;
      }

  finish_upload-Round :
      (curr : HashChunk Float) (up up' : UploadConn Float)
      → 0 < length up.uploading_list
      → finish_upload fl curr up ≡ some up'
      → IsWithin m up
      → Round up up'
  unfolding finish_upload
  finish_upload-Round curr up up' h e i =
      let ((uploaded, left), run, e1) =
        >>=-eq-some (move_node up.uploaded_list up.uploading_list (some curr)) _ e in
      let (l1, l2) =
        move_node-length up.uploaded_list up.uploading_list curr (uploaded, left) h run in
      subst (Round up) (some_inj e1) (record {
        within = record {
          counted = i.counted - 1;
          counted_is =
              less_one up.concurr_upload_num (i.counted - 1)
                (i.counted_is ∙ ap pos (omega (arith, h, i.listed)));
          listed = omega (arith, l2, i.listed);
          within = omega (arith, i.within);
          max_is = i.max_is;
        };
        at_most_one = omega (arith, l2);
      })

  check_upload-Round :
      (t : Moment) (curr : HashChunk Float) (w : Window Float) (up up' : UploadConn Float)
      → check_upload fl t curr w up ≡ some up'
      → IsWithin m up
      → Round up up'
  unfolding check_upload still_there
  check_upload-Round t curr w up up' e i =
      let ((w', timeouts), run1, e1) = >>=-eq-some (check_datapack_timeout fl t.tick w) _ e in
      let ((up1, aborted), run2, e2) =
        >>=-eq-some (check_recvack_timeout fl t.sys curr (set_window fl curr w' up)) _ e1 in
      stays w' up1 aborted run2 _ refl e2
    where
      stays :
          (w' : Window Float) (up1 : UploadConn Float) (aborted : ℕ)
          → check_recvack_timeout fl t.sys curr (set_window fl curr w' up) ≡ some (up1, aborted)
          → (b : Bool) → (aborted == 0) ≡ b
          → (if b then some up1 else none) ≡ some up'
          → Round up up'
      stays w' up1 aborted run false same h = cc
      stays w' up1 aborted run true same h =
          let unchanged =
            check_recvack_timeout-stays fl t.sys m curr (set_window fl curr w' up) up1 aborted run
              same in
          subst (Round up) (unchanged ∙ some_inj h) (record {
            within = set_window-IsWithin curr w' up i;
            at_most_one = omega (arith, length-set_window curr w' up);
          })

  turn_from-Round :
      (t : Moment) (curr : HashChunk Float) (up : UploadConn Float) (w : Window Float)
      (x : UploadConn Float × List Datagram)
      → 0 < length up.uploading_list
      → turn_from fl t curr up w ≡ some x
      → IsWithin m up
      → Round up x.0
  unfolding turn_from after_send
  turn_from-Round t curr up w x h e i =
      let ((w', out), run1, e1) = >>=-eq-some (send_window fl t.clock w) _ e in
      let (up1, run2, e2) = >>=-eq-some (after_send fl t curr w' (set_window fl curr w' up)) _ e1 in
      subst (λ (y : UploadConn Float × List Datagram). Round up y.0) (some_inj e2)
        (sent w' up1 run2)
    where
      sent :
          (w' : Window Float) (up1 : UploadConn Float)
          → after_send fl t curr w' (set_window fl curr w' up) ≡ some up1
          → Round up up1
      sent w' up1 run =
          let same = length-set_window curr w' up in
          let kept = set_window-IsWithin curr w' up i in
          let done =
            if-eq-some (Round (set_window fl curr w' up) up1) (w'.lpa + 1 == w'.lpr) _ _
              (λ g.
                finish_upload-Round (record curr { cong_win = some w' }) _ up1
                  (omega (arith, h, same)) g kept)
              (λ g. check_upload-Round t curr w' _ up1 g kept) run in
          record { within = done.within; at_most_one = omega (arith, done.at_most_one, same) }

  upload_turn-Round :
      (t : Moment) (curr : HashChunk Float) (up : UploadConn Float)
      (x : UploadConn Float × List Datagram)
      → 0 < length up.uploading_list
      → upload_turn fl t curr up ≡ some x
      → IsWithin m up
      → Round up x.0
  unfolding upload_turn
  upload_turn-Round t curr up x h e i =
      let (w, has, e1) = >>=-eq-some curr.cong_win _ e in turn_from-Round t curr up w x h e1 i

  pub upload_loop-IsWithin :
      (moments : ℕ → Moment) (k : ℕ) (list : Nodes Float) (up : UploadConn Float)
      (x : UploadConn Float × List Datagram)
      → length list ≤ length up.uploading_list
      → upload_loop fl moments k list up ≡ some x
      → IsWithin m up
      → IsWithin m x.0
  unfolding upload_loop
  upload_loop-IsWithin moments k [] up x h e i =
      subst (λ (y : UploadConn Float × List Datagram). IsWithin m y.0) (some_inj e) i
  upload_loop-IsWithin moments k (curr ∷ list) up x h e i =
      let ((up1, out), run1, e1) = >>=-eq-some (upload_turn fl (moments k) curr up) _ e in
      let ((up2, more), run2, e2) = >>=-eq-some (upload_loop fl moments (k + 1) list up1) _ e1 in
      let t = upload_turn-Round (moments k) curr up (up1, out) (omega (arith, h)) run1 i in
      subst (λ (y : UploadConn Float × List Datagram). IsWithin m y.0) (some_inj e2)
        (upload_loop-IsWithin moments (k + 1) list up1 (up2, more) (omega (arith, h, t.at_most_one))
          run2 t.within)

module _ (fl : FloatOps) (shahash : List ℕ → List ℕ) where
  open fl use {Float}

  -- A turn of the loop keeps the bound.
  pub peer_turn-IsWithin :
      (m : ℕ) (t : Turn) (me : PeerMe Float) (x : PeerMe Float × Turned Float × List Datagram)
      → peer_turn fl shahash t me ≡ some x
      → IsWithin m me.myupload
      → IsWithin m x.0.myupload
  unfolding peer_turn
  peer_turn-IsWithin m t me x e i =
      let ((d, asked), run1, e1) =
        >>=-eq-some (request_turn t.inet_ntoa t.now t.peers t.id me.mydownload) _ e in
      let ((up, out), run2, e2) =
        >>=-eq-some (upload_loop fl t.moments 0 me.myupload.uploading_list me.myupload) _ e1 in
      subst (λ (y : PeerMe Float × Turned Float × List Datagram). IsWithin m y.0.myupload)
        (some_inj e2)
        (upload_loop-IsWithin fl m t.moments 0 me.myupload.uploading_list me.myupload (up, out)
          (omega arith) run2 i)
