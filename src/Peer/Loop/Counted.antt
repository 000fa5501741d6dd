-- ===== src/Peer/Loop/Counted.antt =====
-- The counters of the downloads over a turn of the loop of `peer_run`.
use p2pdown_loader.Prelude.{
  ℕ, ◌+◌, ◌≡◌, refl, subst, List, [], ◌∷◌, ◌++◌, Option, none, some, some_inj, ◌>>=◌, >>=-eq-some,
  Bool, true, false, Bool-cases, inl, inr, ◌⊎◌, ◌==◌, if◌then◌else◌, ◌&&◌, length, ltb_ℤ,
}
use p2pdown_loader.Net.{Datagram, BtPeer}
use p2pdown_loader.Window.{FloatOps}
use p2pdown_loader.Receiver.{Write, Written, Reaped, written, unfinished, bad_hash, short, reap}
use p2pdown_loader.HashList.{HashChunk, Nodes}
use p2pdown_loader.Discovery.{DownloadConn, whohas_sender}
use p2pdown_loader.Download.{check_timeout, get_sender, finish_one_download, check_recvdata_timeout}
use p2pdown_loader.Download.Tally.Ending.{check_recvdata_timeout-stays}
use p2pdown_loader.Download.Tally.Idle.{
  IsCounted, is_idle, check_timeout-IsCounted, get_sender-IsCounted,
}
use p2pdown_loader.Peer.{PeerMe}
use p2pdown_loader.Peer.Get.{complete_mydownload}
use p2pdown_loader.Peer.Get.Counted.{complete_mydownload-IsIdle}
use p2pdown_loader.Peer.Loop.{
  Turned, going, completed, waiting, or_fault, end_or_read, after_reap, reaped, check_download,
  received_turn, download_turn, write_first, download_loop, request_turn, is_chunk, is_zero, Turn,
  upload_loop, peer_turn,
}

module _ {F : Type 0} (m : ℕ) where
  -- The counters are right in what the loop over the downloads leaves.
  abbrev pub Counts : Turned F → Type 0
  Counts (going ws d) = IsCounted m d
  Counts (completed ws d) = IsCounted m d
  Counts waiting = Unit {0}
  Counts Turned.fault = Unit {0}

  or_fault-Counts :
      {A : Type 0} (o : Option A) (f : A → Turned F)
      → ((a : A) → o ≡ some a → Counts (f a))
      → Counts (or_fault o f)
  unfolding or_fault
  or_fault-Counts none f h = tt
  or_fault-Counts (some a) f h = h a refl

  if-Counts : (b : Bool) (x y : Turned F) → Counts x → Counts y → Counts (if b then x else y)
  if-Counts true x y h g = h
  if-Counts false x y h g = g

  end_or_read-Counts :
      (ws : List Write) (d : DownloadConn F) (need : Nodes F)
      → d.needlist ≡ need
      → Counts (end_or_read ws d need)
  unfolding end_or_read
  end_or_read-Counts ws d [] e =
      or_fault-Counts (complete_mydownload d) (completed ws)
        (λ d' run. is_idle (complete_mydownload-IsIdle d d' e run))
  end_or_read-Counts ws d (n ∷ need) e = tt

  after_reap-Counts :
      (ws : List Write) (curr : HashChunk F) (d : DownloadConn F) → Counts (after_reap ws curr d)
  unfolding after_reap
  after_reap-Counts ws curr d =
      or_fault-Counts (finish_one_download curr d) _
        (λ d' run. end_or_read-Counts ws d' d'.needlist refl)

  reaped-Counts : (r : Reaped) (curr : HashChunk F) (d : DownloadConn F) → Counts (reaped r curr d)
  unfolding reaped
  reaped-Counts (written k ws) curr d = after_reap-Counts ws curr d
  reaped-Counts (unfinished ws) curr d = tt
  reaped-Counts bad_hash curr d = after_reap-Counts [] curr d
  reaped-Counts short curr d = after_reap-Counts [] curr d
  reaped-Counts Reaped.fault curr d = tt

  check_download-Counts :
      (now : ℕ) (curr : HashChunk F) (d : DownloadConn F)
      → IsCounted m d
      → Counts (check_download now curr d)
  unfolding check_download
  check_download-Counts now curr d i =
      or_fault-Counts (check_recvdata_timeout now curr d) _
        (λ (d', gone) run. at d' gone run (Bool-cases (gone == 0)))
    where
      at :
          (d' : DownloadConn F) (gone : ℕ)
          → check_recvdata_timeout now curr d ≡ some (d', gone)
          → ((gone == 0) ≡ true) ⊎ ((gone == 0) ≡ false)
          → Counts (if gone == 0 then going [] d' else Turned.fault)
      at d' gone run (inl b) =
          rw b (subst (IsCounted m) (check_recvdata_timeout-stays now curr d d' gone run b) i)
      at d' gone run (inr b) = rw b tt

  download_turn-Counts :
      (shahash : List ℕ → List ℕ) (ws : List Written) (now : ℕ) (curr : HashChunk F)
      (d : DownloadConn F)
      → IsCounted m d
      → Counts (download_turn shahash ws now curr d)
  unfolding download_turn received_turn
  download_turn-Counts shahash ws now curr d i = or_fault-Counts curr.recver _ (λ r has.
      if-Counts (is_chunk r.recv_bytesnum) _ _
        (reaped-Counts (reap shahash ws r curr.chunkid) curr d)
        (check_download-Counts now curr d i))

  write_first-Counts : (ws : List Write) (t : Turned F) → Counts t → Counts (write_first ws t)
  unfolding write_first
  write_first-Counts ws (going ms d) h = h
  write_first-Counts ws (completed ms d) h = h
  write_first-Counts ws waiting h = tt
  write_first-Counts ws Turned.fault h = tt

  download_loop-Counts :
      (shahash : List ℕ → List ℕ) (ws : List Written) (now : ℕ → ℕ) (i : ℕ) (list : Nodes F)
      (d : DownloadConn F)
      → IsCounted m d
      → Counts (download_loop shahash ws now i list d)
  unfolding download_loop
  download_loop-Counts shahash ws now i [] d c = c
  download_loop-Counts shahash ws now i (curr ∷ list) d c =
      at (download_turn shahash ws (now i) curr d)
        (download_turn-Counts shahash ws (now i) curr d c)
        (λ d'. download_loop-Counts shahash ws now (i + 1) list d')
    where
      at :
          (t : Turned F)
          → Counts t
          → ((d' : DownloadConn F)
              → IsCounted m d'
              → Counts (download_loop shahash ws now (i + 1) list d'))
          → Counts (elim t [
            | going ms d' ↦ write_first ms (download_loop shahash ws now (i + 1) list d')
            | completed ms d' ↦ completed ms d'
            | waiting ↦ waiting
            | Turned.fault ↦ Turned.fault
          ])
      at (going ms d') h ih = write_first-Counts ms _ (ih d' h)
      at (completed ms d') h ih = h
      at waiting h ih = tt
      at Turned.fault h ih = tt

  request_turn-IsCounted :
      (inet_ntoa : ℕ → List ℕ) (now : ℕ) (peers : List BtPeer) (id : ℕ) (d : DownloadConn F)
      (x : DownloadConn F × List Datagram)
      → request_turn inet_ntoa now peers id d ≡ some x
      → IsCounted m d
      → IsCounted m x.0
  unfolding request_turn
  request_turn-IsCounted inet_ntoa now peers id d x e c =
      let ((d1, gone), run1, e1) = >>=-eq-some (check_timeout now d) _ e in
      let ((d2, gets), run2, e2) = >>=-eq-some (get_sender inet_ntoa now d1) _ e1 in
      let c2 =
        get_sender-IsCounted inet_ntoa m now d1 d2 gets run2
          (check_timeout-IsCounted m now d d1 gone run1 c) in
      asking
        (length gets == 0
          && (ltb_ℤ d2.howmany_found d2.howmany_need
              && (ltb_ℤ d2.concurr_download_num d2.max_download_num
                  && is_zero d2.concurr_download_num)))
        d2 gets e2 c2
    where
      ended :
          (y : DownloadConn F × List Datagram) → some y ≡ some x → IsCounted m y.0 → IsCounted m x.0
      ended y h i = subst (λ (z : DownloadConn F × List Datagram). IsCounted m z.0) (some_inj h) i

      asking :
          (again : Bool) (d2 : DownloadConn F) (gets : List Datagram)
          → (if again
              then (do
                asked ← whohas_sender (length d2.needlist + 1) d2 d2.needlist peers id
                some (d2, gets ++ asked))
              else some (d2, gets))
            ≡ some x
          → IsCounted m d2
          → IsCounted m x.0
      asking false d2 gets h i = ended (d2, gets) h i
      asking true d2 gets h i =
          let (asked, run3, e3) =
            >>=-eq-some (whohas_sender (length d2.needlist + 1) d2 d2.needlist peers id) _ h in
          ended (d2, gets ++ asked) e3 i

module _ (fl : FloatOps) (shahash : List ℕ → List ℕ) where
  open fl use {Float}

  -- A turn of the loop leaves the counters right.
  pub peer_turn-Counts :
      (m : ℕ) (t : Turn) (me : PeerMe Float) (x : PeerMe Float × Turned Float × List Datagram)
      → peer_turn fl shahash t me ≡ some x
      → IsCounted m me.mydownload
      → Counts m x.1
  unfolding peer_turn
  peer_turn-Counts m t me x e c =
      let ((d, asked), run1, e1) =
        >>=-eq-some (request_turn t.inet_ntoa t.now t.peers t.id me.mydownload) _ e in
      let ((up, out), run2, e2) =
        >>=-eq-some (upload_loop fl t.moments 0 me.myupload.uploading_list me.myupload) _ e1 in
      subst (λ (y : PeerMe Float × Turned Float × List Datagram). Counts m y.1) (some_inj e2)
        (download_loop-Counts m shahash t.writes t.data_now 0 d.downloading_list d
          (request_turn-IsCounted m t.inet_ntoa t.now t.peers t.id me.mydownload (d, asked) run1 c))
