-- ===== src/Receiver.antt =====
-- The receiving half of sock_io.c: the buffer in which a chunk is put together, its ACKs, and the
-- check and the write of the finished chunk.
pub mod Invariant
pub mod Stored
pub mod Handling
pub mod Answers
pub mod Reap
use p2pdown_loader.Prelude.{
  ℕ, zero, suc, ◌+◌, ◌-◌, ◌*◌, ◌^◌, List, [], ◌∷◌, ◌++◌, Option, none, some, Bool, true, false,
  ◌||◌, ◌&&◌, ltb, leb, ◌==◌, if◌then◌else◌, ◌>>=◌, ◌>>◌, guard, slice, load, store, replicate,
  length, take, drop, min, ℤ, pos, negsuc, sub_ℕ, ◌+ℤ◌, pos_part, bytes_eq,
}
use p2pdown_loader.Packet.{Packet, form_ack_pack, read_payload}
use p2pdown_loader.Net.{Addr, Datagram, send_pack}
use p2pdown_loader.Window.{sender_buf_size, chunk_size}

-- `Recv_State`; `npe` is the next packet expected.
pub record RecvState : Type 0 where
  pub hash : List ℕ
  pub recv_buf : List (Option Packet)
  pub npe : ℕ
  pub recv_bytesnum : ℤ

unfoldable pub create_recver : List ℕ → RecvState
create_recver hash = record {
  hash = hash;
  recv_buf = replicate sender_buf_size none;
  npe = 1;
  recv_bytesnum = pos 0;
}

-- `Pack_len - Hd_len`, which a packet from the network may make negative.
abbrev pub data_len : Packet → ℤ
data_len p = sub_ℕ p.pack_len p.hd_len

-- The loop over the packets that are in order now: each is ACKed and its bytes are counted. `left`
-- slots are left from slot `i` on; the loop stops at the first empty one.
pub ack_loop : ℕ → ℕ → Addr → RecvState → List Datagram → Option (RecvState × List Datagram)
ack_loop zero i to r out = some (record r { npe = i }, out)
ack_loop (suc left) i to r out = elim (load r.recv_buf i) [
  | none ↦ some (record r { npe = i }, out)
  | some pack ↦ do
    sent ← send_pack (form_ack_pack i) to
    ack_loop left (i + 1) to (record r { recv_bytesnum = r.recv_bytesnum +ℤ data_len pack })
        (out ++ sent ∷ [])
]

-- One ACK.
pub ack_one : ℕ → Addr → RecvState → Option (RecvState × List Datagram)
ack_one i to r = do sent ← send_pack (form_ack_pack i) to; some (r, sent ∷ [])

-- How far ahead of the next packet expected a packet may be.
abbrev pub max_seq : RecvState → ℕ
max_seq r = if ltb 512 (r.npe + 30) then 512 else r.npe + 30

-- `upon_receiving_datapack`: the packet goes into its slot, over one that came before, and the last
-- slot is cleared. A sequence number of 2^31 or more is a negative `int32_t`.
pub upon_receiving_datapack : Packet → RecvState → Addr → Option (RecvState × List Datagram)
unfolding ack_loop ack_one
upon_receiving_datapack pack r to =
    let seq = pack.seq_num in
    if leb (2 ^ 31) seq || ltb seq 1 || ltb (max_seq r) seq then some (r, []) else do
      stored ← store r.recv_buf seq (some pack)
      cleared ← store stored (sender_buf_size - 1) none
      let r' = record r { recv_buf = cleared }
      if seq == r.npe
          then ack_loop (sender_buf_size - 1 - seq) seq to r' []
          else if ltb r.npe seq
          then (if ltb 0 r.npe then ack_one (r.npe - 1) to r' else some (r', []))
          else ack_one seq to r'

-- The first loop of `reap`: slot by slot, `left` slots from slot `i` on, into a buffer of one byte
-- more than a chunk. `out` is what it holds.
pub collect : ℕ → ℕ → List (Option Packet) → List ℕ → Option (List ℕ)
collect zero i buf out = some out
collect (suc left) i buf out = do
  pack ← load buf i
  let n = pack.pack_len - pack.hd_len
  guard (leb pack.hd_len pack.pack_len)
  bytes ← read_payload pack.payload n
  guard (leb (length out + n) (chunk_size + 1))
  collect left (i + 1) buf (out ++ bytes)

-- `check_onechunk_hash`, with the digest of sha.c as `shahash`.
pub check_onechunk_hash : (List ℕ → List ℕ) → List ℕ → List ℕ → Bool
check_onechunk_hash shahash bytes pattern = bytes_eq (shahash bytes) pattern

-- What a call of `write` did: so many bytes, at most as many as it was given; or -1.
pub data Written : Type 0 where
  wrote : ℕ → Written
  error : Written

-- A write of bytes at a place of the output file.
pub record Write : Type 0 where
  pub at : ℕ
  pub bytes : List ℕ

-- How the loop of `reap` that writes the chunk goes on: it ends with what `written` was last, or it
-- goes on after all the calls that were foreseen, or it reads before its buffer.
pub data Saved : Type 0 where
  saved : ℕ → List Write → Saved
  waiting : List Write → Saved
  fault : Saved

-- `ret` bytes are written. The result of `write` goes into an unsigned variable, so that -1 passes
-- for a number of bytes and takes one from `ret`.
pub write_loop : List Written → ℕ → List ℕ → ℕ → List Write → Saved
write_loop [] start chunk ret out = waiting out
write_loop (error ∷ ws) start chunk zero out = elim ws [ [] ↦ waiting out | _ ↦ fault ]
write_loop (error ∷ ws) start chunk (suc ret) out = write_loop ws start chunk ret out
write_loop (wrote n ∷ ws) start chunk ret out =
    let k = min n (length chunk - ret) in
    let out' = out ++ record { at = start + ret; bytes = take k (drop ret chunk) } ∷ [] in
    let rest = write_loop ws start chunk (ret + k) out' in
    if ret + k == length chunk then saved k out' else rest

-- What `reap` returns, and what it wrote.
pub data Reaped : Type 0 where
  written : ℕ → List Write → Reaped
  unfinished : List Write → Reaped
  bad_hash : Reaped
  short : Reaped
  fault : Reaped

pub from_saved : Saved → Reaped
from_saved (saved k ws) = written k ws
from_saved (waiting ws) = unfinished ws
from_saved fault = Reaped.fault

-- `reap`: the chunk is put together, and written at its place if it has its full length and its
-- hash. The place is an `int`, so its product must not overflow.
pub reap : (List ℕ → List ℕ) → List Written → RecvState → ℕ → Reaped
unfolding collect check_onechunk_hash write_loop from_saved
reap shahash ws r offset = elim (collect (r.npe - 1) 1 r.recv_buf []) [
  | none ↦ Reaped.fault
  | some bytes ↦
      if length bytes == chunk_size
      then (if check_onechunk_hash shahash bytes r.hash
          then (if ltb (offset * chunk_size) (2 ^ 31)
              then from_saved (write_loop ws (offset * chunk_size) bytes 0 [])
              else Reaped.fault)
          else bad_hash)
      else short
]
