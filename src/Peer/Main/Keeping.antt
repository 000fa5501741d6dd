-- ===== src/Peer/Main/Keeping.antt =====
-- What the program of peer.c keeps true of its counters, and the parts of a turn that keep it.
use p2pdown_loader.Prelude.{
  ℕ, ◌≡◌, refl, subst, List, [], ◌∷◌, Option, none, some, some_inj, >>=-eq-some, Bool, true, false,
  pos,
}
use p2pdown_loader.Net.{Datagram}
use p2pdown_loader.Discovery.{DownloadConn}
use p2pdown_loader.Download.Tally.Idle.{IsIdle, IsCounted, is_idle}
use p2pdown_loader.Peer.{PeerMe}
use p2pdown_loader.Peer.Within.{IsWithin}
use p2pdown_loader.Peer.Get.{handle_user_input}
use p2pdown_loader.Peer.Get.Counted.{handle_user_input-IsCounted}
use p2pdown_loader.Peer.Loop.{Turned, going, completed, waiting}
use p2pdown_loader.Peer.Loop.Counted.{Counts}
use p2pdown_loader.Peer.Main.{
  Running, Outcome, continues, stops, waits, faults, Typing, handle_lines, turned, or_faults,
  started,
}

-- The counters of a peer are right: those of the downloads, unless nothing is needed and nothing is
-- under way; and at most `m` uploads are counted, each one in the list among them.
pub record IsKept {F : Type 0} (m : ℕ) (me : PeerMe F) : Type 0 where
  pub downloads : IsCounted m me.mydownload
  pub uploads : IsWithin m me.myupload

module _ {F : Type 0} (m : ℕ) where
  -- The counters are right, if the program goes on.
  abbrev pub Goes : Outcome F → Type 0
  Goes (continues s out ws) = IsKept m s.me
  Goes stops = Unit {0}
  Goes waits = Unit {0}
  Goes faults = Unit {0}

  pub handle_lines-IsCounted :
      (t : Typing) (lines : List (List ℕ)) (d d' : DownloadConn F)
      → t.max_conn ≡ pos m
      → handle_lines t lines d ≡ some d'
      → IsCounted m d
      → IsCounted m d'
  unfolding handle_lines
  handle_lines-IsCounted t [] d d' mx e i = subst (IsCounted m) (some_inj e) i
  handle_lines-IsCounted t (line ∷ lines) d d' mx e i =
      let (d1, run, e1) =
        >>=-eq-some
          (handle_user_input t.scan_get t.open_lines t.files t.myaddr t.chunkid t.max_conn line d) _
          e in
      let run' =
        subst
          (λ c.
            handle_user_input t.scan_get t.open_lines t.files t.myaddr t.chunkid c line d ≡ some d1)
          mx run in
      handle_lines-IsCounted t lines d1 d' mx e1 (
        handle_user_input-IsCounted t.scan_get t.open_lines t.files t.myaddr t.chunkid m line d d1
          run' i)

  pub or_faults-Goes :
      {A : Type 0} (o : Option A) (f : A → Outcome F)
      → ((a : A) → o ≡ some a → Goes (f a))
      → Goes (or_faults o f)
  unfolding or_faults
  or_faults-Goes none f h = tt
  or_faults-Goes (some a) f h = h a refl

  pub turned-Goes :
      (s : Running F) (sent : List Datagram) (me : PeerMe F) (r : Turned F) (out : List Datagram)
      → Counts m r
      → IsWithin m me.myupload
      → Goes (turned s sent (me, r, out))
  unfolding turned
  turned-Goes s sent me (going ws d) out c u = record { downloads = c; uploads = u }
  turned-Goes s sent me (completed ws d) out c u = record { downloads = c; uploads = u }
  turned-Goes s sent me waiting out c u = tt
  turned-Goes s sent me Turned.fault out c u = tt

  pub started-Goes :
      (opened : Bool) (o : Option (PeerMe F))
      → ((me : PeerMe F) → o ≡ some me → IsIdle me.mydownload × IsWithin m me.myupload)
      → Goes (started opened o)
  unfolding started
  started-Goes opened none h = tt
  started-Goes false (some me) h = tt
  started-Goes true (some me) h = record {
    downloads = is_idle (h me refl).0;
    uploads = (h me refl).1;
  }
