-- ===== src/Tests/Wire.antt =====
-- Packets on the wire and in the receive buffer.
use p2pdown_loader.Prelude.{
  ℕ, ◌≡◌, refl, List, [], ◌∷◌, ◌++◌, some, arith, length, length-replicate, replicate, inl, ◌≤◌,
  pos, length-append,
}
use p2pdown_loader.Packet.{Packet, serial_pack, binary2packet, buflen2}
use p2pdown_loader.Packet.RoundTrip.{IsWire, wire, received, serial_pack-roundtrip, length-wire}
use p2pdown_loader.Packet.Forms.{data_pack, data_pack-IsDataPack}
use p2pdown_loader.Framing.{
  Buf, empty_buf, got, drained, fault, receive, drain, process_inbound_udp,
}
use p2pdown_loader.Framing.Split.{images, all_received, process_inbound_udp-images}
use p2pdown_loader.Framing.Faults.{drain-bad_len}
use p2pdown_loader.Framing.Rounds.{Ends, process_inbound_udp-Ends}

abbrev hello : List ℕ
hello = 104 ∷ 101 ∷ 108 ∷ 108 ∷ 111 ∷ []

abbrev hello_pack : Packet
hello_pack = data_pack 7 hello

hello_pack-IsWire : IsWire hello_pack hello
hello_pack-IsWire = (data_pack-IsDataPack 7 hello (omega arith) (omega arith) (omega arith)).is_wire

serial_pack-roundtrip_example :
    (stream : List ℕ) × (serial_pack hello_pack ≡ some stream)
    × (length stream ≡ 22)
    × (binary2packet stream ≡ some (received hello_pack))
serial_pack-roundtrip_example =
    serial_pack-roundtrip {p = hello_pack} {body = hello} hello_pack-IsWire

-- Two packets in one datagram.
abbrev next_pack : Packet
next_pack = data_pack 8 hello

next_pack-IsWire : IsWire next_pack hello
next_pack-IsWire = (data_pack-IsDataPack 8 hello (omega arith) (omega arith) (omega arith)).is_wire

abbrev two_packs : List (Packet × List ℕ)
two_packs = (hello_pack, hello) ∷ (next_pack, hello) ∷ []

two_packs-fit : length (images two_packs ++ 9 ∷ []) ≤ buflen2
two_packs-fit = omega (
  arith,
  length-append (images two_packs) (9 ∷ []),
  length-append (wire hello_pack hello) (images ((next_pack, hello) ∷ [])),
  length-append (wire next_pack hello) [],
  length-wire hello_pack-IsWire,
  length-wire next_pack-IsWire,
)

process_inbound_udp-images_example :
    (rest : List ℕ) × (process_inbound_udp (got (images two_packs) (9 ∷ [])) empty_buf
      ≡ drained (all_received two_packs) (record { bytes = rest; buf_len = pos 0 }))
process_inbound_udp-images_example =
    process_inbound_udp-images two_packs (9 ∷ []) empty_buf
      (hello_pack-IsWire, (next_pack-IsWire, tt)) two_packs-fit (length-replicate {A = ℕ} buflen2 0)
      refl

-- Sixteen bytes whose length field is 3.
abbrev short_bytes : List ℕ
short_bytes = 60 ∷ 81 ∷ 1 ∷ 3 ∷ 0 ∷ 16 ∷ 0 ∷ 3 ∷ replicate 1492 0

abbrev short_buf : Buf
short_buf = record { bytes = short_bytes; buf_len = pos 16 }

drain-bad_len_example : drain 101 short_buf ≡ fault
drain-bad_len_example =
    drain-bad_len 100 short_buf (omega (arith, length-replicate {A = ℕ} 1492 0)) (omega arith)
      (inl (omega arith))

process_inbound_udp-Ends_example :
    Ends
      (record { bytes = hello ++ replicate 1495 0; buf_len = pos 5 })
      (process_inbound_udp (got hello []) empty_buf)
unfolding receive
process_inbound_udp-Ends_example =
    process_inbound_udp-Ends (got hello []) empty_buf
      (record { bytes = hello ++ replicate 1495 0; buf_len = pos 5 }) refl
      (omega (arith, length-replicate {A = ℕ} 1495 0)) (omega arith)
