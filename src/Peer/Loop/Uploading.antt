-- ===== src/Peer/Loop/Uploading.antt =====
-- What the loop of `peer_run` does with the uploads.
use p2pdown_loader.Prelude.{
  ◌≢◌, length, ℕ, ◌+◌, ◌-◌, ◌*◌, ◌<◌, ◌≤◌, ◌≡◌, refl, ap, ◌∙◌, List, [], ◌∷◌, some, false, arith,
  ltb, ◌==◌, ◌>>=◌, pos, ◌-ℤ◌, Bool-cases, inl, inr, min, pos_part,
}
use p2pdown_loader.Net.{Datagram}
use p2pdown_loader.Window.{FloatOps, Window, timeout_sec, check_datapack_timeout}
use p2pdown_loader.Window.Invariant.{IsValid}
use p2pdown_loader.Window.Send.{packets_from, window_sender-IsSent}
use p2pdown_loader.Window.Timeout.{check_datapack_timeout-Moves}
use p2pdown_loader.HashList.{HashChunk, unlink}
use p2pdown_loader.HashList.Moves.{IsIn, length-unlink, unlink-other, move_node-Perm}
use p2pdown_loader.Download.Updates.{update_node-IsIn, update_node-other, length-update_node}
use p2pdown_loader.Peer.{UploadConn, check_recvack_timeout}
use p2pdown_loader.Peer.Loop.{
  Moment, send_window, set_window, finish_upload, check_upload, still_there, after_send, turn_from,
  upload_turn,
}

module _ (fl : FloatOps) (chunk : List ℕ) where
  open fl use {Float}

  -- What `send_window` leaves: a valid window with its last ACKed packet and its packets as before.
  record Kept (w w' : Window Float) : Type 0 where
    valid : IsValid chunk w'
    lpa_is : w'.lpa ≡ w.lpa
    lpr_is : w'.lpr ≡ w.lpr

  send_window-Kept :
      (clock : ℕ → ℕ) (w : Window Float)
      → IsValid chunk w
      → (w' : Window Float) × (out : List Datagram) × (send_window fl clock w ≡ some (w', out))
        × Kept w w'
  unfolding send_window
  send_window-Kept clock w v = elim (Bool-cases (ltb (w.lps + 1) w.lpr)) [
    | inr all ↦ (w, [], rw all refl, record { valid = v; lpa_is = refl; lpr_is = refl })
    | inl more ↦
        let (w', e, s, c) = window_sender-IsSent chunk clock w v in
        (
          w',
          packets_from chunk w.dst (w.lps + 1) (min (pos_part w.count) (w.lpr - 1 - w.lps)),
          rw (more, e) refl,
          record {
            valid = s.valid;
            lpa_is = ap (λ u. u.lpa) s.same;
            lpr_is = ap (λ u. u.lpr) s.same;
          },
        )
  ]

  -- The other uploads stay where they are, and none is lost.
  pub record Keeps (curr : HashChunk Float) (up up' : UploadConn Float) : Type 0 where
    pub others :
        (n : HashChunk Float)
        → n.node_id ≢ curr.node_id
        → IsIn n up.uploading_list
        → IsIn n up'.uploading_list
    pub none_lost :
        length up'.uploading_list + length up'.uploaded_list
        ≡ length up.uploading_list + length up.uploaded_list

  -- What a round of the loop makes of an upload: it is done, and among the uploads that were done;
  -- or it goes on, with a valid window that has the same packets ACKed. The others stay.
  pub data UploadTurned (curr : HashChunk Float) (w : Window Float) (up : UploadConn Float)
      : UploadConn Float → Type 0 where
    finished :
        {up' : UploadConn Float} (w' : Window Float)
        → w.lpa + 1 ≡ w.lpr
        → up'.uploaded_list ≡ record curr { cong_win = some w' } ∷ up.uploaded_list
        → up'.concurr_upload_num ≡ up.concurr_upload_num -ℤ pos 1
        → Keeps curr up up'
        → UploadTurned curr w up up'
    goes_on :
        {up' : UploadConn Float} (w' : Window Float)
        → w.lpa + 1 < w.lpr
        → IsValid chunk w'
        → w'.lpa ≡ w.lpa
        → IsIn (record curr { cong_win = some w' }) up'.uploading_list
        → up'.uploaded_list ≡ up.uploaded_list
        → up'.concurr_upload_num ≡ up.concurr_upload_num
        → Keeps curr up up'
        → UploadTurned curr w up up'

  set_window-IsIn :
      (curr : HashChunk Float) (w : Window Float) (up : UploadConn Float)
      → IsIn curr up.uploading_list
      → IsIn (record curr { cong_win = some w }) (set_window fl curr w up).uploading_list
  unfolding set_window
  set_window-IsIn curr w up i =
      update_node-IsIn (λ n. record n { cong_win = some w }) curr up.uploading_list (λ x. refl) i

  set_window-Keeps :
      (curr : HashChunk Float) (w : Window Float) (up : UploadConn Float)
      → Keeps curr up (set_window fl curr w up)
  unfolding set_window
  set_window-Keeps curr w up = record {
    others = λ n other i.
        update_node-other (λ n. record n { cong_win = some w }) n curr.node_id up.uploading_list
          (λ x. refl) other i;
    none_lost = omega (
      arith,
      length-update_node (λ n. record n { cong_win = some w }) curr.node_id up.uploading_list,
    );
  }

  Keeps-trans :
      {curr : HashChunk Float} {up up' up'' : UploadConn Float}
      → Keeps curr up up'
      → Keeps curr up' up''
      → Keeps curr up up''
  Keeps-trans a b = record {
    others = λ n other i. b.others n other (a.others n other i);
    none_lost = b.none_lost ∙ a.none_lost;
  }

  module _ (m : Moment) (curr : HashChunk Float) where
    finish_upload-Turned :
        (w w' : Window Float) (up : UploadConn Float)
        → Kept w w'
        → w.lpa + 1 ≡ w.lpr
        → IsIn curr up.uploading_list
        → (up' : UploadConn Float) × (finish_upload fl
              (record curr { cong_win = some w' })
              (set_window fl curr w' up)
            ≡ some up')
          × UploadTurned curr w up up'
    unfolding finish_upload set_window
    finish_upload-Turned w w' up k done i =
        let moved =
          move_node-Perm up.uploaded_list (set_window fl curr w' up).uploading_list
            (record curr { cong_win = some w' }) (set_window-IsIn curr w' up i) in
        let up' : UploadConn Float = record up {
          uploaded_list = record curr { cong_win = some w' } ∷ up.uploaded_list;
          uploading_list = unlink (set_window fl curr w' up).uploading_list curr.node_id;
          concurr_upload_num = up.concurr_upload_num -ℤ pos 1;
        } in
        let sent : UploadConn Float = set_window fl curr w' up in
        let there : IsIn (record curr { cong_win = some w' }) sent.uploading_list =
          set_window-IsIn curr w' up i in
        let out : Keeps curr sent up' = record {
          others = λ n other j. unlink-other n curr.node_id sent.uploading_list other j;
          none_lost =
              omega (
                arith,
                length-unlink (record curr { cong_win = some w' }) sent.uploading_list there,
              );
        } in
        (
          up',
          rw moved.0 refl,
          UploadTurned.finished {up' = up'} w' done refl refl
              (Keeps-trans (set_window-Keeps curr w' up) out),
        )

    -- The window after the check for a timeout of a packet.
    timeout-Kept :
        (w w' : Window Float)
        → Kept w w'
        → w.lpa + 1 < w.lpr
        → (w'' : Window Float) × (n : ℕ) × (check_datapack_timeout fl m.tick w' ≡ some (w'', n))
          × Kept w w''
    timeout-Kept w w' k more =
        let (p, at, d) =
          k.valid.is_buf.stored (w'.lpa + 1) (omega arith) (omega (arith, k.lpa_is, k.lpr_is)) in
        elim (check_datapack_timeout-Moves fl chunk m.tick w' p k.valid at) [
          | inl (e, _) ↦ (w', 0, e, k)
          | inr (w'', e, _, v) ↦ (
            w'',
            1,
            e,
            record { valid = v.valid; lpa_is = v.lpa_is ∙ k.lpa_is; lpr_is = v.lpr_is ∙ k.lpr_is },
          )
        ]

    check_upload-Turned :
        (w w' : Window Float) (up : UploadConn Float)
        → Kept w w'
        → w.lpa + 1 < w.lpr
        → IsIn curr up.uploading_list
        → m.sys.now ≤ curr.timestamp + 8 * timeout_sec
        → (up' : UploadConn Float) × (check_upload fl m curr w' (set_window fl curr w' up)
            ≡ some up')
          × UploadTurned curr w up up'
    unfolding check_upload still_there set_window check_recvack_timeout
    check_upload-Turned w w' up k more i early =
        let (w'', n, e, k') = timeout-Kept w w' k more in
        let in_time : ltb (curr.timestamp + 16) m.sys.now ≡ false = ground (arith, early) in
        let up' : UploadConn Float = set_window fl curr w'' (set_window fl curr w' up) in
        let there =
          set_window-IsIn (record curr { cong_win = some w' }) w'' (set_window fl curr w' up)
            (set_window-IsIn curr w' up i) in
        (
          up',
          rw (e, check_recvack_timeout, in_time) refl,
          UploadTurned.goes_on {up' = up'} w'' more k'.valid k'.lpa_is there refl refl (
              Keeps-trans (set_window-Keeps curr w' up)
                (set_window-Keeps curr w'' (set_window fl curr w' up))),
        )

    runs :
        (w w' : Window Float) (up : UploadConn Float) {up' : UploadConn Float} {out : List Datagram}
        → curr.cong_win ≡ some w
        → send_window fl m.clock w ≡ some (w', out)
        → after_send fl m curr w' (set_window fl curr w' up) ≡ some up'
        → upload_turn fl m curr up ≡ some (up', out)
    unfolding upload_turn turn_from
    runs w w' up has e f = ap (λ o. o >>= turn_from fl m curr up) has ∙ rw (e, f) refl

    -- A round of the loop of `peer_run` over the uploads, for an upload in the list that has a valid
    -- window and had an ACK in the last 16 seconds, returns. If its last packet is ACKed, the upload
    -- goes to those that are done, and the count goes down; otherwise it stays where it is, with a
    -- valid window that has the same packets ACKed.
    pub upload_turn-UploadTurned :
        (w : Window Float) (up : UploadConn Float)
        → curr.cong_win ≡ some w
        → IsValid chunk w
        → IsIn curr up.uploading_list
        → m.sys.now ≤ curr.timestamp + 8 * timeout_sec
        → (up' : UploadConn Float) × (out : List Datagram) × (upload_turn fl m curr up
            ≡ some (up', out))
          × UploadTurned curr w up up'
    unfolding upload_turn after_send
    upload_turn-UploadTurned w up has v i early =
        let (w', out, e, k) = send_window-Kept m.clock w v in
        elim (Bool-cases (w'.lpa + 1 == w'.lpr)) [
          | inl done ↦
              let (up', f, t) =
                finish_upload-Turned w w' up k (ground (arith, done, k.lpa_is, k.lpr_is)) i in
              (up', out, runs w w' up has e (rw done f), t)
          | inr more ↦
              let (up', f, t) =
                check_upload-Turned w w' up k
                  (ground (arith, more, k.lpa_is, k.lpr_is, v.acked_sent, v.sent_ready)) i early in
              (up', out, runs w w' up has e (rw more f), t)
        ]
