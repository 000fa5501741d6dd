-- ===== src/Peer/Loop/Uploads.antt =====
-- The loop of `peer_run` over all uploads.
use p2pdown_loader.Prelude.{
  ℕ, suc, ◌+◌, ◌*◌, ◌≤◌, ◌≡◌, refl, sym, ap, ◌∙◌, List, [], ◌∷◌, ◌++◌, some, arith, length, pos,
  ◌-ℤ◌,
}
use p2pdown_loader.Net.{Datagram}
use p2pdown_loader.Window.{FloatOps, Window, timeout_sec}
use p2pdown_loader.Window.Invariant.{IsValid}
use p2pdown_loader.HashList.{HashChunk, Nodes}
use p2pdown_loader.HashList.Moves.{IsIn, here, there, IsDistinct, IsFresh-IsIn}
use p2pdown_loader.Peer.{UploadConn}
use p2pdown_loader.Peer.Loop.{Moment, upload_loop}
use p2pdown_loader.Peer.Loop.Uploading.{Keeps, UploadTurned, upload_turn-UploadTurned}

module _ (fl : FloatOps) (moments : ℕ → Moment) where
  open fl use {Float}

  -- An upload with a valid window that had an ACK in the last 16 seconds.
  pub record IsLive (m : Moment) (n : HashChunk Float) : Type 0 where
    pub chunk : List ℕ
    pub window : Window Float
    pub has_window : n.cong_win ≡ some window
    pub valid : IsValid chunk window
    pub in_time : m.sys.now ≤ n.timestamp + 8 * timeout_sec

  -- The uploads of a list, each at the moment of its round.
  pub data AllLive : ℕ → Nodes Float → Type 0 where
    nil : {i : ℕ} → AllLive i []
    cons :
        {i : ℕ} {n : HashChunk Float} {list : Nodes Float}
        → IsLive (moments i) n
        → AllLive (i + 1) list
        → AllLive i (n ∷ list)

  -- The count of uploads is their number.
  abbrev pub IsCounted : UploadConn Float → Type 0
  IsCounted up = up.concurr_upload_num ≡ pos (length up.uploading_list)

  abbrev total : UploadConn Float → ℕ
  total up = length up.uploading_list + length up.uploaded_list

  UploadTurned-others :
      {chunk : List ℕ} {curr : HashChunk Float} {w : Window Float} {up up' : UploadConn Float}
      → UploadTurned fl chunk curr w up up'
      → Keeps fl chunk curr up up'
  UploadTurned-others (UploadTurned.finished w' e f g k) = k
  UploadTurned-others (UploadTurned.goes_on w' e v f i g h k) = k

  UploadTurned-IsCounted :
      {chunk : List ℕ} {curr : HashChunk Float} {w : Window Float} {up up' : UploadConn Float}
      → UploadTurned fl chunk curr w up up'
      → IsCounted up
      → IsCounted up'
  UploadTurned-IsCounted {up} {up'} (UploadTurned.finished w' e f g k) c =
      let one_less : length up.uploading_list ≡ suc (length up'.uploading_list) =
        omega (arith, k.none_lost, ap length f) in
      let down : pos (suc (length up'.uploading_list)) -ℤ pos 1 ≡ pos (length up'.uploading_list) =
        ground arith in
      g ∙ ap (λ n. n -ℤ pos 1) (c ∙ ap pos one_less) ∙ down
  UploadTurned-IsCounted {up} {up'} (UploadTurned.goes_on w' e v f i g h k) c =
      h ∙ c ∙ ap pos {y = length up'.uploading_list} (omega (arith, k.none_lost, ap length g))

  -- What the loop leaves.
  pub record Looped (i : ℕ) (list : Nodes Float) (up : UploadConn Float) : Type 0 where
    pub result : UploadConn Float
    pub out : List Datagram
    pub runs : upload_loop fl moments i list up ≡ some (result, out)
    pub is_counted : IsCounted result
    pub none_lost :
        length result.uploading_list + length result.uploaded_list
        ≡ length up.uploading_list + length up.uploaded_list

  upload_loop-from :
      (i : ℕ) (list : Nodes Float) (up : UploadConn Float)
      → AllLive i list
      → IsDistinct list
      → ((n : HashChunk Float) → IsIn n list → IsIn n up.uploading_list)
      → IsCounted up
      → Looped i list up
  unfolding upload_loop
  upload_loop-from i [] up nil d all c = record {
    result = up;
    out = [];
    runs = refl;
    is_counted = c;
    none_lost = refl;
  }
  upload_loop-from i (curr ∷ list) up (AllLive.cons l ls) (IsDistinct.cons f d) all c =
      let (up', out, run, t) =
        upload_turn-UploadTurned fl l.chunk (moments i) curr l.window up l.has_window l.valid
          (all curr here) l.in_time in
      let k = UploadTurned-others t in
      let rest =
        upload_loop-from (i + 1) list up' ls d
          (λ n j. let ne = IsFresh-IsIn f j in k.others n (λ e. ne (sym e)) (all n (there ne j)))
          (UploadTurned-IsCounted t c) in
      record {
        result = rest.result;
        out = out ++ rest.out;
        runs = rw (run, rest.runs) refl;
        is_counted = rest.is_counted;
        none_lost = rest.none_lost ∙ k.none_lost;
      }

  -- If every upload has a valid window and had an ACK in the last 16 seconds, the nodes are distinct
  -- and the count of uploads is their number, the loop of `peer_run` over the uploads returns; the
  -- lists of the uploads under way and of those done are together as long as before; and the count is
  -- again the number of uploads.
  pub upload_loop-Looped :
      (up : UploadConn Float)
      → AllLive 0 up.uploading_list
      → IsDistinct up.uploading_list
      → IsCounted up
      → Looped 0 up.uploading_list up
  upload_loop-Looped up l d c = upload_loop-from 0 up.uploading_list up l d (λ n i. i) c
