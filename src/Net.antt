-- ===== src/Net.antt =====
-- Addresses, and the two functions of sock_io.c that put packets on the network. A call of
-- `spiffy_sendto` is the datagram that it is given; its result only decides what is printed.
pub mod Sent
use p2pdown_loader.Prelude.{ℕ, List, [], ◌∷◌, Option, some, ◌==◌, if◌then◌else◌, ◌>>=◌, slice}
use p2pdown_loader.Packet.{Packet, serial_pack}

-- `struct sockaddr_in`, its two fields as `ntohl` and `ntohs` give them.
pub record Addr : Type 0 where
  pub ip : ℕ
  pub port : ℕ

pub record Datagram : Type 0 where
  pub to : Addr
  pub bytes : List ℕ

-- `send_pack`: `Pack_len` bytes of the stream go out.
pub send_pack : Packet → Addr → Option Datagram
send_pack pack toaddr = do
  stream ← serial_pack pack
  sent ← slice stream 0 pack.pack_len
  some (record { to = toaddr; bytes = sent })

-- `bt_peer_t`, less the link to the next one.
pub record BtPeer : Type 0 where
  pub id : ℕ
  pub addr : Addr

-- The loop of `broadcast` over the peers.
unfoldable pub send_to_all : List ℕ → List BtPeer → ℕ → List Datagram
send_to_all sent [] myid = []
send_to_all sent (peer ∷ peers) myid =
    let rest = send_to_all sent peers myid in
    if peer.id == myid then rest else record { to = peer.addr; bytes = sent } ∷ rest

-- `broadcast`: the packet goes to every peer but this one.
unfoldable pub broadcast : Packet → List BtPeer → ℕ → Option (List Datagram)
unfolding send_to_all
broadcast pack peers myid = do
  stream ← serial_pack pack
  sent ← slice stream 0 pack.pack_len
  some (send_to_all sent peers myid)
