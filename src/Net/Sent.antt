-- ===== src/Net/Sent.antt =====
-- What `send_pack` of sock_io.c puts on the network.
use p2pdown_loader.Prelude.{
  ℕ, ◌≢◌, arith, Bool-cases, inl, inr, ◌==◌, ◌≡◌, refl, ◌∙◌, ap, List, [], ◌∷◌, some, slice-start,
}
use p2pdown_loader.Packet.{Packet, form_ack_pack}
use p2pdown_loader.Packet.RoundTrip.{IsWire, wire, serial_pack-IsWire, length-wire, wire-received}
use p2pdown_loader.Packet.Forms.{IsDataPack, data_pack, form_ack_pack-IsWire}
use p2pdown_loader.Net.{Addr, Datagram, send_pack, BtPeer, broadcast, send_to_all}

pub send_pack-IsWire :
    {p : Packet} {body : List ℕ} (to : Addr)
    → IsWire p body
    → send_pack p to ≡ some (record { to = to; bytes = wire p body })
unfolding send_pack
send_pack-IsWire {p} {body} to w =
    rw (serial_pack-IsWire w, slice-start (wire p body) (0 ∷ []) p.pack_len (length-wire w))

-- One datagram to each of the peers but number `id`, in order.
pub data IsSentTo (bytes : List ℕ) (id : ℕ) : List BtPeer → List Datagram → Type 0 where
  nil : IsSentTo bytes id [] []
  self :
      {peer : BtPeer} {peers : List BtPeer} {out : List Datagram}
      → peer.id ≡ id
      → IsSentTo bytes id peers out
      → IsSentTo bytes id (peer ∷ peers) out
  other :
      {peer : BtPeer} {peers : List BtPeer} {out : List Datagram}
      → peer.id ≢ id
      → IsSentTo bytes id peers out
      → IsSentTo bytes id (peer ∷ peers) (record { to = peer.addr; bytes = bytes } ∷ out)

send_to_all-IsSentTo :
    (bytes : List ℕ) (peers : List BtPeer) (id : ℕ)
    → IsSentTo bytes id peers (send_to_all bytes peers id)
unfolding send_to_all
send_to_all-IsSentTo bytes [] id = nil
send_to_all-IsSentTo bytes (peer ∷ peers) id = elim (Bool-cases (peer.id == id)) [
  | inl same ↦ rw (same) (self (ground arith) (send_to_all-IsSentTo bytes peers id))
  | inr not_same ↦ rw (not_same) (other (ground arith) (send_to_all-IsSentTo bytes peers id))
]

-- `broadcast` sends the packet to every peer but this one.
pub broadcast-IsWire :
    {p : Packet} {body : List ℕ} (peers : List BtPeer) (id : ℕ)
    → IsWire p body
    → (sent : List Datagram) × (broadcast p peers id ≡ some sent)
      × IsSentTo (wire p body) id peers sent
unfolding broadcast
broadcast-IsWire {p} {body} peers id w = (
  send_to_all (wire p body) peers id,
  rw (serial_pack-IsWire w, slice-start (wire p body) (0 ∷ []) p.pack_len (length-wire w)) refl,
  send_to_all-IsSentTo (wire p body) peers id,
)

-- The datagram of packet `i`, which carries `body`.
abbrev pub data_datagram : Addr → ℕ → List ℕ → Datagram
data_datagram to i body = record { to = to; bytes = wire (data_pack i body) body }

pub send_pack-data :
    {i : ℕ} {body : List ℕ} {p : Packet} (to : Addr)
    → IsDataPack i body p
    → send_pack p to ≡ some (data_datagram to i body)
send_pack-data {i} {body} {p} to d =
    send_pack-IsWire to d.is_wire
    ∙ ap (λ b. some (record { to = to; bytes = b }))
        (wire-received p body ∙ ap (λ q. wire q body) d.made)

abbrev pub ack_datagram : Addr → ℕ → Datagram
ack_datagram to i = record { to = to; bytes = wire (form_ack_pack i) [] }

pub send_pack-ack : (to : Addr) (i : ℕ) → send_pack (form_ack_pack i) to ≡ some (ack_datagram to i)
send_pack-ack to i = send_pack-IsWire to (form_ack_pack-IsWire i)
