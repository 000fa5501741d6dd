-- ===== src/Peer/Main/Counting.antt =====
-- The counters of downloads and uploads over any number of turns of the program of peer.c.
use p2pdown_loader.Prelude.{
  ℕ, ◌+◌, ◌≡◌, subst, List, [], ◌∷◌, Option, none, some, some_inj, >>=-eq-some, Bool, pos,
}
use p2pdown_loader.Packet.{Packet}
use p2pdown_loader.Net.{Addr, Datagram}
use p2pdown_loader.Window.{FloatOps}
use p2pdown_loader.Receiver.{Write}
use p2pdown_loader.Framing.{Drained, drained, running, Recv, process_inbound_udp}
use p2pdown_loader.InputBuffer.{Handled, handled, exited, process_user_input}
use p2pdown_loader.Config.{BtConfig, configured}
use p2pdown_loader.Peer.{System, PeerMe, dealwithincomepack}
use p2pdown_loader.Peer.Counted.{dealwithincomepack-IsCounted}
use p2pdown_loader.Peer.Within.{dealwithincomepack-IsWithin}
use p2pdown_loader.Peer.Get.{Files, init_peerme}
use p2pdown_loader.Peer.Get.Counted.{init_peerme-starts}
use p2pdown_loader.Peer.Loop.{Turn, peer_turn}
use p2pdown_loader.Peer.Loop.Counted.{peer_turn-Counts}
use p2pdown_loader.Peer.Loop.Within.{peer_turn-IsWithin}
use p2pdown_loader.Peer.Main.Keeping.{
  IsKept, Goes, handle_lines-IsCounted, or_faults-Goes, turned-Goes, started-Goes,
}
use p2pdown_loader.Peer.Main.{
  Running, continues, Event, handle_lines, handle_packs, drained_packs, inbound_packs,
  transfer_turn, handled_lines, input_turn, run_turn, peer_start,
}

module _ (fl : FloatOps) (shahash : List ℕ → List ℕ) (m : ℕ) where
  open fl use {Float}

  handle_packs-IsKept :
      (systems : ℕ → System) (from : Addr) (i : ℕ) (packs : List Packet) (me : PeerMe Float)
      (x : PeerMe Float × List Datagram)
      → handle_packs fl systems from i packs me ≡ some x
      → IsKept m me
      → IsKept m x.0
  unfolding handle_packs
  handle_packs-IsKept systems from i [] me x e c =
      subst (λ (y : PeerMe Float × List Datagram). IsKept m y.0) (some_inj e) c
  handle_packs-IsKept systems from i (p ∷ packs) me x e c =
      let ((me1, out), run1, e1) = >>=-eq-some (dealwithincomepack fl (systems i) p from me) _ e in
      let ((me2, more), run2, e2) =
        >>=-eq-some (handle_packs fl systems from (i + 1) packs me1) _ e1 in
      subst (λ (y : PeerMe Float × List Datagram). IsKept m y.0) (some_inj e2)
        (handle_packs-IsKept systems from (i + 1) packs me1 (me2, more) run2
          (record {
            downloads =
                dealwithincomepack-IsCounted fl (systems i) m p from me (me1, out) run1 c.downloads;
            uploads =
                dealwithincomepack-IsWithin fl (systems i) m p from me (me1, out) run1 c.uploads;
          }))

  drained_packs-IsKept :
      (systems : ℕ → System) (from : Addr) (r : Drained) (s : Running Float)
      (x : Running Float × List Datagram)
      → drained_packs fl systems from r s ≡ some x
      → IsKept m s.me
      → IsKept m x.0.me
  unfolding drained_packs
  drained_packs-IsKept systems from (drained packs b) s x e c =
      let ((me, out), run, e1) = >>=-eq-some (handle_packs fl systems from 0 packs s.me) _ e in
      subst (λ (y : Running Float × List Datagram). IsKept m y.0.me) (some_inj e1)
        (handle_packs-IsKept systems from 0 packs s.me (me, out) run c)
  drained_packs-IsKept systems from Drained.fault s x e c = cc
  drained_packs-IsKept systems from running s x e c = cc

  inbound_packs-IsKept :
      (systems : ℕ → System) (inbound : Option (Recv × Addr)) (s : Running Float)
      (x : Running Float × List Datagram)
      → inbound_packs fl systems inbound s ≡ some x
      → IsKept m s.me
      → IsKept m x.0.me
  unfolding inbound_packs
  inbound_packs-IsKept systems none s x e c =
      subst (λ (y : Running Float × List Datagram). IsKept m y.0.me) (some_inj e) c
  inbound_packs-IsKept systems (some (recv, from)) s x e c =
      drained_packs-IsKept systems from (process_inbound_udp recv s.recv_buf) s x e c

  transfer_turn-Goes :
      (t : Turn) (s : Running Float) (sent : List Datagram)
      → IsKept m s.me
      → Goes m (transfer_turn fl shahash t s sent)
  unfolding transfer_turn
  transfer_turn-Goes t s sent c =
      or_faults-Goes m (peer_turn fl shahash t s.me) _ (λ (me, r, out) run.
        turned-Goes m s sent me r out
          (peer_turn-Counts fl shahash m t s.me (me, r, out) run c.downloads)
          (peer_turn-IsWithin fl shahash m t s.me (me, r, out) run c.uploads))

  handled_lines-Goes :
      (e : Event) (s : Running Float) (sent : List Datagram) (r : Handled)
      → e.typing.max_conn ≡ pos m
      → IsKept m s.me
      → Goes m (handled_lines fl shahash e s sent r)
  unfolding handled_lines
  handled_lines-Goes e s sent (handled lines b) mx c =
      or_faults-Goes m (handle_lines e.typing lines s.me.mydownload) _ (λ d run.
        transfer_turn-Goes e.turn _ sent (record {
          downloads = handle_lines-IsCounted m e.typing lines s.me.mydownload d mx run c.downloads;
          uploads = c.uploads;
        }))
  handled_lines-Goes e s sent Handled.fault mx c = tt
  handled_lines-Goes e s sent Handled.running mx c = tt
  handled_lines-Goes e s sent exited mx c = tt

  input_turn-Goes :
      (e : Event) (input : Option (List ℕ)) (s : Running Float) (sent : List Datagram)
      → e.typing.max_conn ≡ pos m
      → IsKept m s.me
      → Goes m (input_turn fl shahash e input s sent)
  unfolding input_turn
  input_turn-Goes e none s sent mx c = transfer_turn-Goes e.turn s sent c
  input_turn-Goes e (some input) s sent mx c =
      handled_lines-Goes e s sent (process_user_input input s.userbuf) mx c

  run_turn-Goes :
      (e : Event) (s : Running Float)
      → e.typing.max_conn ≡ pos m
      → IsKept m s.me
      → Goes m (run_turn fl shahash e s)
  unfolding run_turn
  run_turn-Goes e s mx c =
      or_faults-Goes m (inbound_packs fl e.systems e.inbound s) _ (λ (s', sent) run.
        input_turn-Goes e e.input s' sent mx
          (inbound_packs-IsKept e.systems e.inbound s (s', sent) run c))

  -- The states that the program can be in before a turn, when it was started with `max_conn` = m.
  pub data Reach : Running Float → Type 0 where
    start :
        (files : Files) (loopback chunkid : ℕ) (opened : Bool)
        (open_lines : List ℕ → Option (List (List ℕ))) (config : BtConfig) (s : Running Float)
        → config.max_conn ≡ pos m
        → peer_start files loopback chunkid opened open_lines (configured config)
          ≡ continues s [] []
        → Reach s
    turn :
        (e : Event) (s s' : Running Float) (sent : List Datagram) (ws : List Write)
        → Reach s
        → e.typing.max_conn ≡ pos m
        → run_turn fl shahash e s ≡ continues s' sent ws
        → Reach s'

  start-Goes :
      (files : Files) (loopback chunkid : ℕ) (opened : Bool)
      (open_lines : List ℕ → Option (List (List ℕ))) (config : BtConfig)
      → config.max_conn ≡ pos m
      → Goes m (peer_start {F = Float} files loopback chunkid opened open_lines (configured config))
  unfolding peer_start
  start-Goes files loopback chunkid opened open_lines c mx = started-Goes m opened _ (λ me run.
      init_peerme-starts files (record { ip = loopback; port = c.myport }) chunkid m
        (open_lines c.has_chunk_file) me
        (subst
          (λ x.
            init_peerme files (record { ip = loopback; port = c.myport }) chunkid x
              (open_lines c.has_chunk_file)
            ≡ some me)
          mx run))

  -- Whatever packets, lines and times come, in every state that the program reaches: the requests
  -- and downloads under way are those that are counted, and at most `max_conn`, and the counts of
  -- chunks found and needed fit the lists, or nothing is needed and nothing under way; and the
  -- uploads in the list are among those counted, which are at most `max_conn`.
  pub Reach-IsKept : (s : Running Float) → Reach s → IsKept m s.me
  Reach-IsKept s (start files loopback chunkid opened open_lines config _ mx e) =
      subst (Goes m) e (start-Goes files loopback chunkid opened open_lines config mx)
  Reach-IsKept s (turn e s0 _ sent ws r mx run) =
      subst (Goes m) run (run_turn-Goes e s0 mx (Reach-IsKept s0 r))
