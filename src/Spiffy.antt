-- ===== src/Spiffy.antt =====
-- spiffy.h and spiffy.c: datagrams by way of the router of a simulated network, which puts and reads
-- a header of its own in front of each.
pub mod Header
pub mod Cut
use p2pdown_loader.Prelude.{
  ℕ, zero, suc, ◌+◌, ◌-◌, ◌*◌, ◌%◌, ◌^◌, List, [], ◌∷◌, ◌++◌, Option, none, some, Bool, true, false,
  ltb, ◌==◌, if◌then◌else◌, ◌>>=◌, length, take, drop, slice, put, ℤ, pos, negsuc, ◌-ℤ◌, ltb_ℤ,
  sub_ℕ,
}
use p2pdown_loader.Packet.{htons, htonl, ntohs, ntohl, u16, u32}
use p2pdown_loader.Net.{Addr, Datagram}
use p2pdown_loader.Framing.{Recv, got, failed}

-- The globals: `giSpiffyEnabled`, `glNodeID`, `glSrcAddr` with `gsSrcPort`, and `gsSpiffyRouter`.
pub record Spiffy : Type 0 where
  pub enabled : Bool
  pub node_id : ℕ
  pub src : Addr
  pub router : Addr

-- `sizeof (spiffy_header)`: three numbers of four bytes and two of two, with no padding.
abbrev pub spiffy_header_len : ℕ
spiffy_header_len = 16

-- The struct `spiffy_header` in memory. Addresses and ports stand in it as they do in a `sockaddr`.
pub spiffy_header : Spiffy → Addr → List ℕ
spiffy_header st to =
    htonl st.node_id ++ (htonl st.src.ip ++ (htonl to.ip ++ (htons st.src.port ++ htons to.port)))

-- `spiffy_sendto` of the first `len` bytes of a message: the datagram that `sendto` is given, and
-- the result, of which the header is taken off. `sendto` is what the system returns for a datagram.
pub spiffy_sendto : (Datagram → ℤ) → Spiffy → List ℕ → ℕ → Addr → Option (Datagram × ℤ)
unfolding spiffy_header
spiffy_sendto sendto st msg len to = do
  bytes ← slice msg 0 len
  let routed : Datagram = record { to = st.router; bytes = spiffy_header st to ++ bytes }
  let plain : Datagram = record { to = to; bytes = bytes }
  let ret = sendto routed
  some (
      if st.enabled
      then (routed, if ltb_ℤ (pos 0) ret then ret -ℤ pos spiffy_header_len else ret)
      else (plain, sendto plain))

-- What a call of `recvfrom` finds: an error, or a datagram and where it is from.
pub data Incoming : Type 0 where
  nothing : Incoming
  came : Addr → List ℕ → Incoming

-- What `spiffy_recvfrom` returns, the bytes that it writes to the buffer, and the address, if it
-- writes one.
pub record Received : Type 0 where
  pub ret : ℤ
  pub written : List ℕ
  pub from : Option Addr

abbrev pub nothing_received : Received
nothing_received = record { ret = negsuc 0; written = []; from = none }

-- The case of a router: `newbuf` is the new block once the datagram is in it, `n` bytes long. The
-- buffer gets all `size` bytes behind the header.
pub strip_header : List ℕ → ℕ → ℕ → Option Received
strip_header newbuf n size = do
  written ← slice newbuf spiffy_header_len size
  some (record {
    ret = sub_ℕ n spiffy_header_len;
    written = written;
    from = some (record { ip = ntohl newbuf 4; port = ntohs newbuf 12 });
  })

-- `spiffy_recvfrom`. A datagram that is longer than asked for is cut. `block` is what `malloc` gave:
-- `size` bytes and room for a header.
pub spiffy_recvfrom : Spiffy → List ℕ → Incoming → ℕ → Option Received
unfolding strip_header
spiffy_recvfrom st block nothing size = some nothing_received
spiffy_recvfrom st block (came from bytes) size =
    if st.enabled
    then (do
      let taken = take (size + spiffy_header_len) bytes
      newbuf ← put block 0 taken
      if ltb 0 (length taken)
          then strip_header newbuf (length taken) size
          else some (record { ret = pos 0; written = []; from = none }))
    else some (record {
      ret = pos (length (take size bytes));
      written = take size bytes;
      from = some from;
    })

-- What `process_inbound_udp` makes of that.
abbrev pub as_recv : Received → Recv
as_recv r = elim r.ret [ pos n ↦ got (take n r.written) (drop n r.written) | negsuc k ↦ failed k ]

-- The characters before a colon and behind it.
pub split_colon : List ℕ → Option (List ℕ × List ℕ)
split_colon [] = none
split_colon (c ∷ text) =
    if c == 58 then some ([], text) else do (front, back) ← split_colon text; some (c ∷ front, back)

-- `spiffy_init`, with what it returns. `router` is the environment variable `SPIFFY_ROUTER`, if it is
-- set; `atoi` and `inet_aton` are the library's. The port is set before the address is looked at.
unfoldable pub spiffy_init :
    (List ℕ → ℕ) → (List ℕ → Option ℕ) → Option (List ℕ) → ℕ → Addr → Spiffy → Spiffy × ℤ
unfolding split_colon
spiffy_init atoi inet_aton none node_id addr st = (st, pos 1)
spiffy_init atoi inet_aton (some router) node_id addr st = elim (split_colon router) [
  | none ↦ (st, negsuc 0)
  | some (host, port) ↦
      let named = record st { router = record st.router { port = u16 (atoi port) } } in
      elim (inet_aton host) [
        | none ↦ (named, negsuc 0)
        | some ip ↦ (
          record named {
            enabled = true;
            node_id = node_id;
            src = addr;
            router = record named.router { ip = ip };
          },
          pos 0,
        )
      ]
]
