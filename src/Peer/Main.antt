-- ===== src/Peer/Main.antt =====
-- The program of peer.c: its start, and whole turns of the loop of `peer_run`, from the packets and
-- lines that came in to the transfers.
pub mod Keeping
pub mod Counting
use p2pdown_loader.Prelude.{
  ℕ, suc, ◌+◌, List, [], ◌∷◌, ◌++◌, Option, none, some, Bool, true, false, ◌>>=◌, ℤ,
}
use p2pdown_loader.Packet.{Packet}
use p2pdown_loader.Net.{Addr, Datagram}
use p2pdown_loader.Framing.{Buf, empty_buf, Recv, Drained, drained, running, process_inbound_udp}
use p2pdown_loader.Window.{FloatOps}
use p2pdown_loader.Receiver.{Write}
use p2pdown_loader.InputBuffer.{
  UserIobuf, create_userbuf, Handled, handled, exited, process_user_input,
}
use p2pdown_loader.Config.{BtConfig, Configured, configured, exits}
use p2pdown_loader.Discovery.{DownloadConn}
use p2pdown_loader.Peer.{System, PeerMe, dealwithincomepack}
use p2pdown_loader.Peer.Get.{Files, handle_user_input, init_peerme}
use p2pdown_loader.Peer.Loop.{Turn, Turned, going, completed, waiting, peer_turn}

-- The variables of `peer_run`, and the peer.
pub record Running (F : Type 0) : Type 0 where
  pub recv_buf : Buf
  pub userbuf : UserIobuf
  pub me : PeerMe F

-- What a turn comes to: the next one follows, with what was sent and written; or the program ends by
-- `exit`; or it still writes a chunk; or there is a fault or a failed `assert`.
pub data Outcome (F : Type 0) : Type 0 where
  continues : Running F → List Datagram → List Write → Outcome F
  stops : Outcome F
  waits : Outcome F
  faults : Outcome F

-- What `handle_user_input` uses of the system, with the configuration.
pub record Typing : Type 0 where
  pub scan_get : List ℕ → ℕ × List ℕ × List ℕ
  pub open_lines : List ℕ → Option (List (List ℕ))
  pub files : Files
  pub myaddr : Addr
  pub chunkid : ℕ
  pub max_conn : ℤ

-- What happens in a turn: the datagram that came in and where from, with what the system gives for
-- each of its packets; what can be read of the standard input; and the rest.
pub record Event : Type 0 where
  pub inbound : Option (Recv × Addr)
  pub systems : ℕ → System
  pub input : Option (List ℕ)
  pub typing : Typing
  pub turn : Turn

module _ {F : Type 0} where
  -- `handle_user_input` of the lines, in order.
  unfoldable pub handle_lines : Typing → List (List ℕ) → DownloadConn F → Option (DownloadConn F)
  handle_lines t [] down = some down
  handle_lines t (line ∷ lines) down = do
    down' ←
        handle_user_input t.scan_get t.open_lines t.files t.myaddr t.chunkid t.max_conn line down
    handle_lines t lines down'

  -- The peer once its downloads are `down`.
  abbrev pub with_downloads : DownloadConn F → PeerMe F → PeerMe F
  with_downloads down me = record me { mydownload = down }

  -- The transfers of the turn, and the loop over the downloads.
  unfoldable pub turned :
      Running F → List Datagram → PeerMe F × Turned F × List Datagram → Outcome F
  turned s sent (me, going ws down, out) =
      continues (record s { me = with_downloads down me }) (sent ++ out) ws
  turned s sent (me, completed ws down, out) =
      continues (record s { me = with_downloads down me }) (sent ++ out) ws
  turned s sent (me, waiting, out) = waits
  turned s sent (me, Turned.fault, out) = faults

  unfoldable pub or_faults : {A : Type 0} → Option A → (A → Outcome F) → Outcome F
  or_faults none f = faults
  or_faults (some a) f = f a

module _ (fl : FloatOps) where
  open fl use {Float}

  -- `dealwithincomepack` of the packets, in order.
  pub handle_packs :
      (ℕ → System) → Addr → ℕ → List Packet → PeerMe Float → Option (PeerMe Float × List Datagram)
  handle_packs systems from i [] me = some (me, [])
  handle_packs systems from i (pack ∷ packs) me = do
    (me', out) ← dealwithincomepack fl (systems i) pack from me
    (me'', more) ← handle_packs systems from (i + 1) packs me'
    some (me'', out ++ more)

  -- `process_inbound_udp`, with its calls of `dealwithincomepack`.
  pub drained_packs :
      (ℕ → System) → Addr → Drained → Running Float → Option (Running Float × List Datagram)
  unfolding handle_packs
  drained_packs systems from (drained packs b) s = do
    (me, out) ← handle_packs systems from 0 packs s.me
    some (record s { recv_buf = b; me = me }, out)
  drained_packs systems from Drained.fault s = none
  drained_packs systems from running s = none

  unfoldable pub inbound_packs :
      (ℕ → System) → Option (Recv × Addr) → Running Float → Option (Running Float × List Datagram)
  unfolding drained_packs
  inbound_packs systems none s = some (s, [])
  inbound_packs systems (some (recv, from)) s =
      drained_packs systems from (process_inbound_udp recv s.recv_buf) s

module _ (fl : FloatOps) (shahash : List ℕ → List ℕ) where
  open fl use {Float}

  -- What the loop does after the packets and the input.
  unfoldable pub transfer_turn : Turn → Running Float → List Datagram → Outcome Float
  unfolding turned or_faults
  transfer_turn t s sent = or_faults (peer_turn fl shahash t s.me) (turned s sent)

  -- `process_user_input`, with its calls of `handle_user_input`, and the rest of the turn.
  unfoldable pub handled_lines : Event → Running Float → List Datagram → Handled → Outcome Float
  unfolding or_faults handle_lines transfer_turn
  handled_lines e s sent (handled lines b) =
      or_faults (handle_lines e.typing lines s.me.mydownload) (λ down.
        transfer_turn e.turn (record s { userbuf = b; me = with_downloads down s.me }) sent)
  handled_lines e s sent Handled.fault = faults
  handled_lines e s sent Handled.running = faults
  handled_lines e s sent exited = stops

  unfoldable pub input_turn :
      Event → Option (List ℕ) → Running Float → List Datagram → Outcome Float
  unfolding handled_lines
  input_turn e none s sent = transfer_turn e.turn s sent
  input_turn e (some input) s sent = handled_lines e s sent (process_user_input input s.userbuf)

  -- A turn of the loop of `peer_run`.
  unfoldable pub run_turn : Event → Running Float → Outcome Float
  unfolding or_faults inbound_packs input_turn
  run_turn e s =
      or_faults (inbound_packs fl e.systems e.inbound s)
        (λ (s', sent). input_turn e e.input s' sent)

-- The part of `peer_run` before the loop, for a peer that was set up; `opened` says whether `socket`
-- and `bind` succeed.
unfoldable pub started : {F : Type 0} → Bool → Option (PeerMe F) → Outcome F
started opened none = faults
started false (some me) = stops
started true (some me) =
    continues (record { recv_buf = empty_buf; userbuf = create_userbuf; me = me }) [] []

-- `main` up to the loop, once the command line was parsed: `open_lines` gives the lines of the file
-- of chunks that the peer has, and `loopback` is the address 127.0.0.1.
unfoldable pub peer_start :
    {F : Type 0} → Files → ℕ → ℕ → Bool → (List ℕ → Option (List (List ℕ))) → Configured → Outcome F
unfolding started
peer_start files loopback chunkid opened open_lines Configured.fault = faults
peer_start files loopback chunkid opened open_lines exits = stops
peer_start files loopback chunkid opened open_lines (configured c) = started opened (
    init_peerme files (record { ip = loopback; port = c.myport }) chunkid c.max_conn
      (open_lines c.has_chunk_file))
