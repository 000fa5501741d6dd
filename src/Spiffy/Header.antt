-- ===== src/Spiffy/Header.antt =====
-- The header that `spiffy_sendto` of spiffy.c writes is the one that `spiffy_recvfrom` takes off.
use p2pdown_loader.Prelude.{
  ℕ, ◌+◌, ◌-◌, ◌^◌, ◌<◌, ◌≡◌, refl, sym, ap, ◌∙◌, List, [], ◌++◌, some, true, ltb, arith, length,
  take, drop, slice, put, pos, negsuc, sub_ℕ, length-append, take-length, slice-take, slice-append,
  append-nil, length-drop,
}
use p2pdown_loader.Packet.{ntohs, ntohl}
use p2pdown_loader.Net.{Addr}
use p2pdown_loader.Framing.{failed}
use p2pdown_loader.Framing.Split.{put-front}
use p2pdown_loader.Spiffy.{
  Spiffy, spiffy_header, came, Received, strip_header, spiffy_recvfrom, as_recv,
}

pub length-spiffy_header : (st : Spiffy) (to : Addr) → length (spiffy_header st to) ≡ 16
unfolding spiffy_header
length-spiffy_header st to = refl

-- An address whose fields fit.
pub record IsAddr (a : Addr) : Type 0 where
  pub ip_fits : a.ip < 2 ^ 32
  pub port_fits : a.port < 2 ^ 16

read_src :
    (st : Spiffy) (to : Addr) (rest : List ℕ)
    → IsAddr st.src
    → (ntohl (spiffy_header st to ++ rest) 4 ≡ st.src.ip)
      × (ntohs (spiffy_header st to ++ rest) 12 ≡ st.src.port)
unfolding spiffy_header
read_src st to rest a = (omega (arith, a.ip_fits), omega (arith, a.port_fits))

pub strip_header-header :
    (st : Spiffy) (to : Addr) (msg rest : List ℕ) (size : ℕ)
    → IsAddr st.src
    → length msg + length rest ≡ size
    → strip_header (spiffy_header st to ++ (msg ++ rest)) (16 + length msg) size
      ≡ some (record { ret = pos (length msg); written = msg ++ rest; from = some st.src })
unfolding strip_header
strip_header-header st to msg rest size a full =
    let (ip, port) = read_src st to (msg ++ rest) a in
    let body : slice (spiffy_header st to ++ (msg ++ rest)) 16 size ≡ some (msg ++ rest) =
      ap (λ t. slice (spiffy_header st to ++ t) 16 size) (sym (append-nil (msg ++ rest)))
      ∙ slice-append (spiffy_header st to) (msg ++ rest) [] 16 size (length-spiffy_header st to)
          (omega (arith, length-append msg rest)) in
    let left : sub_ℕ (16 + length msg) 16 ≡ pos (length msg) = ground arith in
    rw (body, left, ip, port) refl

-- A datagram that is shorter than the header, but not empty, makes the result of `spiffy_recvfrom`
-- negative: what is missing of the header is taken for an error.
pub spiffy_recvfrom-short :
    (st : Spiffy) (block bytes : List ℕ) (from : Addr) (size : ℕ)
    → st.enabled ≡ true
    → 0 < length bytes
    → length bytes < 16
    → length block ≡ size + 16
    → (r : Received) × (spiffy_recvfrom st block (came from bytes) size ≡ some r)
      × (as_recv r ≡ failed (15 - length bytes))
unfolding spiffy_recvfrom strip_header
spiffy_recvfrom-short st block bytes from size on some_there short full =
    let all : take (size + 16) bytes ≡ bytes = take-length bytes (size + 16) (omega arith) in
    let newbuf : List ℕ = bytes ++ drop (length bytes) block in
    let filled : put block 0 bytes ≡ some newbuf = put-front block bytes (omega arith) in
    let some_came : ltb 0 (length bytes) ≡ true = ground arith in
    let left : sub_ℕ (length bytes) 16 ≡ negsuc (15 - length bytes) = ground arith in
    let room : length newbuf ≡ 16 + size =
      omega (
        arith,
        length-append bytes (drop (length bytes) block),
        length-drop (length bytes) block,
      ) in
    let read : slice newbuf 16 size ≡ some (take size (drop 16 newbuf)) =
      ap (λ t. slice t 16 size) (sym (append-nil newbuf))
      ∙ slice-take newbuf [] 16 size (omega arith) in
    (
      record {
        ret = negsuc (15 - length bytes);
        written = take size (drop 16 newbuf);
        from = some (record { ip = ntohl newbuf 4; port = ntohs newbuf 12 });
      },
      rw (on, all, filled, some_came, read, left) refl,
      refl,
    )
