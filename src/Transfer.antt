-- ===== src/Transfer.antt =====
-- One transfer as a whole: the window of sock_io.c at the peer that has the chunk, the receiver of
-- sock_io.c at the peer that gets it, and the network between them, which may lose, repeat and
-- reorder datagrams. Each peer takes a datagram through `process_inbound_udp` of peer.c.
pub mod Agreement
pub mod Arriving
pub mod Runs
pub mod Safety
pub mod Progress
pub mod Liveness
pub mod Promise
use p2pdown_loader.Prelude.{ℕ, List, [], ◌∷◌, ◌++◌, ◌≤◌, ◌≡◌, some, length}
use p2pdown_loader.Packet.{Packet, buflen2}
use p2pdown_loader.Net.{Addr, Datagram}
use p2pdown_loader.Framing.{Buf, empty_buf, got, process_inbound_udp, drained}
use p2pdown_loader.Window.{
  FloatOps, Window, window_sender, check_datapack_timeout, upon_receive_ack,
}
use p2pdown_loader.Receiver.{RecvState, upon_receiving_datapack}

-- A datagram that was sent at some time. It may arrive now, whatever else arrived before.
pub data Among (d : Datagram) : List Datagram → Type 0 where
  first : {ds : List Datagram} → Among d (d ∷ ds)
  later : {e : Datagram} {ds : List Datagram} → Among d ds → Among d (e ∷ ds)

-- The window and the buffer of the peer that sends, the receiver and the buffer of the peer that
-- receives, and all the data datagrams and ACKs that they ever sent.
pub record Link (F : Type 0) : Type 0 where
  pub window : Window F
  pub ack_buf : Buf
  pub recver : RecvState
  pub data_buf : Buf
  pub sent : List Datagram
  pub acks : List Datagram

-- A datagram comes in through a peer's buffer, with what else the call writes behind it, and is
-- the packet `p`.
pub record Arrives (d : Datagram) (b b' : Buf) (p : Packet) : Type 0 where
  pub junk : List ℕ
  pub fits : length (d.bytes ++ junk) ≤ buflen2
  pub runs : process_inbound_udp (got d.bytes junk) b ≡ drained (p ∷ []) b'

-- The link before the first packet: the window as it was filled, and a new receiver.
abbrev pub fresh_link : {F : Type 0} → Window F → RecvState → Link F
fresh_link w r = record {
  window = w;
  ack_buf = empty_buf;
  recver = r;
  data_buf = empty_buf;
  sent = [];
  acks = [];
}

module _ (fl : FloatOps) (sender : Addr) where
  open fl use {Float}

  -- One call of a handler, with the state that it is called in. A datagram that no step takes is
  -- lost; one that is taken twice was repeated.
  pub data Step (l : Link Float) : Link Float → Type 0 where
    sends :
        (clock : ℕ → ℕ) (w : Window Float) (out : List Datagram) (n : ℕ)
        → window_sender clock l.window ≡ some (w, out, n)
        → Step l (record l { window = w; sent = l.sent ++ out })
    ticks :
        (now : ℕ) (w : Window Float) (timeouts : ℕ)
        → check_datapack_timeout fl now l.window ≡ some (w, timeouts)
        → Step l (record l { window = w })
    takes_data :
        (d : Datagram) (p : Packet) (b : Buf) (r : RecvState) (out : List Datagram)
        → Among d l.sent
        → Arrives d l.data_buf b p
        → upon_receiving_datapack p l.recver sender ≡ some (r, out)
        → Step l (record l { data_buf = b; recver = r; acks = l.acks ++ out })
    takes_ack :
        (d : Datagram) (p : Packet) (b : Buf) (w : Window Float)
        → Among d l.acks
        → Arrives d l.ack_buf b p
        → upon_receive_ack fl p l.window ≡ some w
        → Step l (record l { ack_buf = b; window = w })

  pub data Reach (l : Link Float) : Link Float → Type 0 where
    here : Reach l l
    next : {u v : Link Float} → Reach l u → Step u v → Reach l v
