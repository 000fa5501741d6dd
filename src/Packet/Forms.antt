-- ===== src/Packet/Forms.antt =====
-- What `form_DATA_pack` and `form_ACK_pack` of packet.c make, and that it can be serialised.
use p2pdown_loader.Prelude.{
  ℕ, ◌+◌, ◌≤◌, ◌<◌, ◌^◌, ◌%◌, ◌≡◌, refl, List, [], ◌∷◌, ◌++◌, some, arith, length, slice-start,
}
use p2pdown_loader.Packet.{Packet, zero_packet, header_len, form_data_pack, form_ack_pack}
use p2pdown_loader.Packet.RoundTrip.{IsWire, as_payload, received}

abbrev pub data_pack : ℕ → List ℕ → Packet
data_pack seqno body = record zero_packet {
  packet_type = 3;
  hd_len = header_len;
  magic_num = 15441;
  version_num = 1;
  seq_num = seqno;
  pack_len = header_len + length body;
  payload = some body;
}

-- `p` is the packet number `seqno` of a chunk, with the bytes `body`, as it was made: only the
-- sender's bookkeeping may have changed.
pub record IsDataPack (seqno : ℕ) (body : List ℕ) (p : Packet) : Type 0 where
  pub is_wire : IsWire p body
  pub made : received p ≡ data_pack seqno body
  pub is_data : p.packet_type ≡ 3
  pub seq_is : p.seq_num ≡ seqno
  pub hd_is : p.hd_len ≡ 16
  pub payload_is : p.payload ≡ some body
  pub len_is : p.pack_len ≡ 16 + length body

pub form_data_pack-append :
    (body rest : List ℕ) (n seqno : ℕ)
    → length body ≡ n
    → n ≤ 1024
    → seqno < 2 ^ 32
    → form_data_pack (body ++ rest) n seqno ≡ some (data_pack seqno body)
unfolding form_data_pack
form_data_pack-append body rest n seqno e small fits =
    let long : (16 + n) % 65536 ≡ 16 + length body = omega arith in
    let word : seqno % 4294967296 ≡ seqno = omega arith in
    rw (slice-start body rest n e, long, word)

some-as_payload : (body : List ℕ) → 0 < length body → some body ≡ as_payload body
some-as_payload [] h = absurd (omega arith)
some-as_payload (b ∷ bs) h = refl

pub data_pack-IsDataPack :
    (seqno : ℕ) (body : List ℕ)
    → 0 < length body
    → length body ≤ 1024
    → seqno < 2 ^ 32
    → IsDataPack seqno body (data_pack seqno body)
data_pack-IsDataPack seqno body h small fits = record {
  is_wire = record {
    magic_fits = omega arith;
    hd_fits = omega arith;
    len_fits = omega arith;
    seq_fits = fits;
    ack_fits = omega arith;
    payload_is = some-as_payload body h;
    len_is = refl;
    typed = λ bad. absurd (omega arith);
    untagged = λ _. refl;
  };
  made = refl;
  is_data = refl;
  seq_is = refl;
  hd_is = refl;
  payload_is = refl;
  len_is = refl;
}

-- The bookkeeping of the sender makes no difference.
pub IsDataPack-marked :
    {seqno : ℕ} {body : List ℕ} {p : Packet} (t a : ℕ)
    → IsDataPack seqno body p
    → IsDataPack seqno body (record p { timestamp = t; acked_num = a })
IsDataPack-marked t a d = record {
  is_wire = record {
    magic_fits = d.is_wire.magic_fits;
    hd_fits = d.is_wire.hd_fits;
    len_fits = d.is_wire.len_fits;
    seq_fits = d.is_wire.seq_fits;
    ack_fits = d.is_wire.ack_fits;
    payload_is = d.is_wire.payload_is;
    len_is = d.is_wire.len_is;
    typed = d.is_wire.typed;
    untagged = d.is_wire.untagged;
  };
  made = d.made;
  is_data = d.is_data;
  seq_is = d.seq_is;
  hd_is = d.hd_is;
  payload_is = d.payload_is;
  len_is = d.len_is;
}

pub form_ack_pack-IsWire : (seqno : ℕ) → IsWire (form_ack_pack seqno) []
unfolding form_ack_pack
form_ack_pack-IsWire seqno = record {
  magic_fits = omega arith;
  hd_fits = omega arith;
  len_fits = omega arith;
  seq_fits = omega arith;
  ack_fits = omega arith;
  payload_is = refl;
  len_is = omega arith;
  typed = λ _. refl;
  untagged = λ _. refl;
}
