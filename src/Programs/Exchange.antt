-- ===== src/Programs/Exchange.antt =====
-- The magic number that client.c sends is the one that server.c prints.
use p2pdown_loader.Prelude.{
  ℕ, ◌<◌, ◌≡◌, sym, ap, ◌∙◌, List, ◌∷◌, ◌++◌, some, true, length, take, drop, put, replicate,
  length-append, length-replicate, length-take, ℤ, pos, negsuc, arith,
}
use p2pdown_loader.Packet.{ntohs}
use p2pdown_loader.Net.{Addr, Datagram}
use p2pdown_loader.Config.{low_bits}
use p2pdown_loader.Framing.Split.{put-front}
use p2pdown_loader.Spiffy.{Spiffy, spiffy_sendto, came}
use p2pdown_loader.Spiffy.Cut.{spiffy_recvfrom-cut}
use p2pdown_loader.Programs.{
  Host, init_spiffy, local_addr, buflen, packetlen, data_packet_len, client_packet, client_sends,
  client_run, client_bound, client_main, sent, server_turn,
}

low_bits_small : (z : ℤ) → low_bits z < 65536
unfolding low_bits
low_bits_small (pos n) = omega arith
low_bits_small (negsuc n) = omega arith

length-client_packet :
    (h : Host) (magic : List ℕ) → length h.unset ≡ 14 → length (client_packet h magic) ≡ 116
unfolding client_packet
length-client_packet h magic e =
    omega (arith, e, length-append h.unset (replicate buflen 0), length-replicate {A = ℕ} buflen 0)

magic_there :
    (h : Host) (magic rest : List ℕ)
    → ntohs (take buflen (client_packet h magic) ++ rest) 0 ≡ low_bits (h.atoi magic)
unfolding client_packet
magic_there h magic rest = omega (arith, low_bits_small (h.atoi magic))

-- A client that is given all its arguments, and whose `bind` succeeds, sends one datagram; when it
-- comes to a server, and both or neither go by way of a router, the server prints the low 16 bits of
-- the number that the client printed, although it cuts the packet to 100 bytes.
pub server_turn-client_main :
    (h : Host) (program id port to magic : List ℕ) (more : List (List ℕ)) (st : Spiffy)
    (block buf : List ℕ) (from : Addr)
    → h.bound ≡ true
    → length h.unset ≡ 14
    → length block ≡ 116
    → length buf ≡ packetlen
    → st.enabled ≡ (init_spiffy h id port).enabled
    → (d : Datagram) × (buf' : List ℕ) × (client_main h (program ∷ id ∷ port ∷ to ∷ magic ∷ more)
        ≡ sent d (h.atoi magic))
      × (server_turn st block (came from d.bytes) buf ≡ some (buf', low_bits (h.atoi magic)))
unfolding client_main client_bound client_run client_sends server_turn
server_turn-client_main h program id port to magic more st block buf from ok set room place same =
    let long : length (client_packet h magic) ≡ 116 = length-client_packet h magic set in
    let (d, result, r, sends, receives, written) =
      spiffy_recvfrom-cut h.sendto (init_spiffy h id port) st (client_packet h magic) block
        (local_addr h to) from buflen same (omega arith) (omega (arith, long)) room in
    let out : spiffy_sendto h.sendto (init_spiffy h id port) (client_packet h magic) data_packet_len
          (local_addr h to)
        ≡ some (d, result) =
      ap
        (λ n.
          spiffy_sendto h.sendto (init_spiffy h id port) (client_packet h magic) n
            (local_addr h to))
        (sym long)
      ∙ sends in
    let first = take buflen (client_packet h magic) in
    let filled : put buf 0 first ≡ some (first ++ drop (length first) buf) =
      put-front buf first (omega (arith, place, length-take buflen (client_packet h magic))) in
    (
      d,
      first ++ drop (length first) buf,
      ap (λ b. client_bound b h id port to (magic ∷ more)) ok
          ∙ ap (λ o. client_sends o (h.atoi magic)) out,
      rw (receives, written, filled)
          (ap (λ n. some (first ++ drop (length first) buf, n))
            (magic_there h magic (drop (length first) buf))),
    )
