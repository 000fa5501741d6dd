-- ===== src/Peer/Get/Counted.antt =====
-- The counters of the downloads after a GET command of the user (peer.c).
use p2pdown_loader.Prelude.{
  ℕ, suc, ◌+◌, ◌≡◌, refl, sym, subst, ap, ◌∙◌, List, [], ◌∷◌, Option, some, some_inj, >>=-eq-some,
  if-eq-some, ltb, ◌&&◌, length, pos, arith,
}
use p2pdown_loader.Net.{Addr}
use p2pdown_loader.HashList.{Nodes, length_of_list}
use p2pdown_loader.HashList.Moves.{clear_hashchunk_list-length}
use p2pdown_loader.Discovery.{DownloadConn}
use p2pdown_loader.Download.Tally.{IsTallied}
use p2pdown_loader.Download.Tally.Idle.{idle, IsIdle, lists_empty, IsCounted, tallied}
use p2pdown_loader.Peer.{PeerMe}
use p2pdown_loader.Peer.Within.{IsWithin}
use p2pdown_loader.Peer.Get.{
  Files, parse_hasneed_list, clear_lists, reset_mydownload, handle_user_input, complete_mydownload,
  init_peerme,
}

module _ {F : Type 0} where
  length_of_list-length : (list : Nodes F) → length_of_list list ≡ length list
  unfolding length_of_list
  length_of_list-length [] = refl
  length_of_list-length (x ∷ list) = ap suc (length_of_list-length list)

  from_zero : (list : Nodes F) → length_of_list list ≡ 0 + length list
  from_zero list = length_of_list-length list ∙ omega arith

  -- The counters start at nothing, whatever was under way.
  pub reset_mydownload-IsTallied :
      (files : Files) (addr : Addr) (chunkid m : ℕ) (lines : Option (List (List ℕ)))
      (d d' : DownloadConn F)
      → reset_mydownload files addr chunkid (pos m) lines d ≡ some d'
      → IsTallied m 0 d'
  unfolding reset_mydownload clear_lists
  reset_mydownload-IsTallied files addr chunkid m lines d d' e =
      let e0 =
        rw
          (
            clear_hashchunk_list-length d.needlist,
            clear_hashchunk_list-length d.get_tosend_quene,
            clear_hashchunk_list-length d.get_sent_list,
            clear_hashchunk_list-length d.downloading_list,
          )
          at e in
      let (need, run, e1) = >>=-eq-some (parse_hasneed_list files addr chunkid lines []) _ e0 in
      subst (IsTallied m 0) (some_inj e1) (refl, omega arith, refl, refl, ap pos (from_zero need))

  pub handle_user_input-IsCounted :
      (scan_get : List ℕ → ℕ × List ℕ × List ℕ) (open_lines : List ℕ → Option (List (List ℕ)))
      (files : Files) (addr : Addr) (chunkid m : ℕ) (line : List ℕ) (d d' : DownloadConn F)
      → handle_user_input scan_get open_lines files addr chunkid (pos m) line d ≡ some d'
      → IsCounted m d
      → IsCounted m d'
  unfolding handle_user_input
  handle_user_input-IsCounted scan_get open_lines files addr chunkid m line d d' e i =
      let parts = scan_get line in
      if-eq-some (IsCounted m d') (ltb 0 parts.0 && ltb 0 (length parts.2)) _ _
        (λ h.
          tallied 0 (reset_mydownload-IsTallied files addr chunkid m (open_lines parts.1) d d' h))
        (λ h. subst (IsCounted m) (some_inj h) i) e

  -- Once the last chunk is there, nothing is under way.
  pub complete_mydownload-IsIdle :
      (d d' : DownloadConn F) → d.needlist ≡ [] → complete_mydownload d ≡ some d' → IsIdle d'
  unfolding complete_mydownload
  complete_mydownload-IsIdle d d' none_left e =
      let e0 =
        rw
          (
            clear_hashchunk_list-length d.get_tosend_quene,
            clear_hashchunk_list-length d.get_sent_list,
            clear_hashchunk_list-length d.downloading_list,
          )
          at e in
      subst IsIdle
        (ap
            (λ l. record (idle d.concurr_download_num (pos 0) d.howmany_found d.howmany_need) {
              needlist = l;
            })
            (sym none_left)
          ∙ some_inj e0)
        (lists_empty d.concurr_download_num (pos 0) d.howmany_found d.howmany_need)

  -- A peer starts with nothing under way and with room for `max_conn` uploads.
  pub init_peerme-starts :
      (files : Files) (addr : Addr) (chunkid m : ℕ) (lines : Option (List (List ℕ))) (me : PeerMe F)
      → init_peerme files addr chunkid (pos m) lines ≡ some me
      → IsIdle me.mydownload × IsWithin m me.myupload
  unfolding init_peerme
  init_peerme-starts files addr chunkid m lines me e =
      let (has, run, e1) = >>=-eq-some (parse_hasneed_list files addr chunkid lines []) _ e in
      subst (λ (p : PeerMe F). IsIdle p.mydownload × IsWithin m p.myupload) (some_inj e1)
        (
          lists_empty (pos 0) (pos m) (pos 0) (pos 0),
          record {
            counted = 0;
            counted_is = refl;
            listed = omega arith;
            within = omega arith;
            max_is = refl;
          },
        )
