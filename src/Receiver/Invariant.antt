-- ===== src/Receiver/Invariant.antt =====
-- What the receiver of sock_io.c keeps true while the packets of one chunk come in, in any order
-- and any number of times.
use p2pdown_loader.Prelude.{
  ℕ, zero, suc, ◌+◌, ◌-◌, ◌*◌, ◌≤◌, ◌<◌, ◌≡◌, refl, sym, ap, ◌∙◌, ◌⊎◌, inl, inr, List, [], ◌∷◌,
  ◌++◌, Option, none, some, arith, length, min, set, load, length-set, get_or-set_self,
  get_or-set_ne, get_or-replicate, append-nil, append_assoc, length-replicate, pos, ◌+ℤ◌,
}
use native.Mathlib.Decide.{ℕ_discrete}
use p2pdown_loader.Packet.{Packet}
use p2pdown_loader.Packet.Forms.{IsDataPack}
use p2pdown_loader.Net.{Addr, Datagram}
use p2pdown_loader.Net.Sent.{ack_datagram, send_pack-ack}
use p2pdown_loader.Window.{pload_len, sender_buf_size}
use p2pdown_loader.Window.Invariant.{piece}
use p2pdown_loader.Window.Fill.{length-piece}
use p2pdown_loader.Receiver.{RecvState, data_len, ack_loop, create_recver}

-- Packets are counted from 1, and packet `i` of a chunk is there if the chunk reaches to it.
pub record IsPart (chunk : List ℕ) (i : ℕ) : Type 0 where
  pub from_one : 0 < i
  pub reached : (i - 1) * pload_len < length chunk

-- A slot is empty or holds its packet of the chunk.
abbrev pub SlotHolds : List ℕ → ℕ → Option Packet → Type 0
SlotHolds chunk i o =
    (o ≡ none) ⊎ ((p : Packet) × (o ≡ some p) × IsPart chunk i × IsDataPack i (piece chunk i) p)

pub record HoldsBuf (chunk : List ℕ) (buf : List (Option Packet)) : Type 0 where
  pub buf_size : length buf ≡ sender_buf_size
  pub chunk_fits : length chunk ≤ 512 * pload_len
  pub slots : (i : ℕ) → SlotHolds chunk i (load buf i)

-- How many bytes of the chunk the packets before `i` carry.
abbrev pub bytes_before : List ℕ → ℕ → ℕ
bytes_before chunk i = min (length chunk) ((i - 1) * pload_len)

-- All packets before `i` are there and counted.
pub record IsCounted (chunk : List ℕ) (i : ℕ) (r : RecvState) : Type 0 where
  pub holds_buf : HoldsBuf chunk r.recv_buf
  pub in_range : (0 < i) × (i < sender_buf_size)
  pub before : (j : ℕ) → 0 < j → j < i → (p : Packet) × (load r.recv_buf j ≡ some p)
  pub counted : r.recv_bytesnum ≡ pos (bytes_before chunk i)

-- `NPE` is the first packet that is missing.
pub record Holds (chunk : List ℕ) (r : RecvState) : Type 0 where
  pub so_far : IsCounted chunk r.npe r
  pub missing : load r.recv_buf r.npe ≡ none

-- A new receiver holds nothing.
pub create_recver-Holds :
    (chunk hash : List ℕ) → length chunk ≤ 512 * pload_len → Holds chunk (create_recver hash)
unfolding create_recver
create_recver-Holds chunk hash fits = record {
  so_far = record {
    holds_buf = record {
      buf_size = length-replicate {A = Option Packet} sender_buf_size none;
      chunk_fits = fits;
      slots = λ i. inl (get_or-replicate sender_buf_size i none);
    };
    in_range = omega arith;
    before = λ j h k. absurd (omega arith);
    counted = ap pos (omega arith);
  };
  missing = get_or-replicate sender_buf_size 1 none;
}

-- A slot may be set to its packet, or emptied.
pub HoldsBuf-set :
    (chunk : List ℕ) (buf : List (Option Packet)) (i : ℕ) (o : Option Packet)
    → i < sender_buf_size
    → SlotHolds chunk i o
    → HoldsBuf chunk buf
    → HoldsBuf chunk (set buf i o)
HoldsBuf-set chunk buf i o inside s b = record {
  buf_size = length-set buf i o ∙ b.buf_size;
  chunk_fits = b.chunk_fits;
  slots = λ j. slot_at j (ℕ_discrete j i);
}
  where
    slot_at : (j : ℕ) → Dec (j ≡ i) → SlotHolds chunk j (load (set buf i o) j)
    slot_at j (no ne) = rw (get_or-set_ne buf i j o none (λ e. ne (sym e))) (b.slots j)
    slot_at j (yes e) = rw e (rw (get_or-set_self buf i o none (omega (arith, b.buf_size))) s)

data_len-data :
    {i : ℕ} {body : List ℕ} {p : Packet} → IsDataPack i body p → data_len p ≡ pos (length body)
data_len-data d = ground (arith, d.len_is, d.hd_is)

add_pos : (a b : ℕ) → pos a +ℤ pos b ≡ pos (a + b)
add_pos a b = ground arith

bytes_before-suc :
    (chunk : List ℕ) (i : ℕ)
    → 0 < i
    → bytes_before chunk i + length (piece chunk i) ≡ bytes_before chunk (i + 1)
bytes_before-suc chunk i h = omega (arith, length-piece chunk i)

-- The ACKs of `n` packets from number `i` on.
abbrev pub acks_from : Addr → ℕ → ℕ → List Datagram
acks_from to i zero = []
acks_from to i (suc n) = ack_datagram to i ∷ acks_from to (i + 1) n

-- What the loop that ACKs does from slot `i` on.
pub record Acked (chunk : List ℕ) (to : Addr) (left i : ℕ) (r : RecvState) (out : List Datagram)
    : Type 0 where
  pub result : RecvState
  pub steps : ℕ
  pub runs : ack_loop left i to r out ≡ some (result, out ++ acks_from to i steps)
  pub holds : Holds chunk result
  pub npe_is : result.npe ≡ i + steps
  pub buf_is : result.recv_buf ≡ r.recv_buf
  pub hash_is : result.hash ≡ r.hash

module _ (chunk : List ℕ) (to : Addr) where
  -- The loop stops at the first empty slot.
  Acked-stop :
      (left i : ℕ) (r : RecvState) (out : List Datagram)
      → IsCounted chunk i r
      → load r.recv_buf i ≡ none
      → ack_loop left i to r out ≡ some (record r { npe = i }, out)
      → Acked chunk to left i r out
  Acked-stop left i r out c e run = record {
    result = record r { npe = i };
    steps = 0;
    runs = rw (append-nil) run;
    holds = record {
      so_far = record {
        holds_buf = c.holds_buf;
        in_range = c.in_range;
        before = c.before;
        counted = c.counted;
      };
      missing = e;
    };
    npe_is = omega arith;
    buf_is = refl;
    hash_is = refl;
  }

  abbrev counted_in : Packet → RecvState → RecvState
  counted_in p r = record r { recv_bytesnum = r.recv_bytesnum +ℤ data_len p }

  ack_loop-step :
      (left i : ℕ) (r : RecvState) (out : List Datagram) (p : Packet)
      → load r.recv_buf i ≡ some p
      → ack_loop (suc left) i to r out
        ≡ ack_loop left (i + 1) to (counted_in p r) (out ++ ack_datagram to i ∷ [])
  unfolding ack_loop
  ack_loop-step left i r out p e = rw (e, ack_loop, send_pack-ack to i)

  IsCounted-next :
      (i : ℕ) (r : RecvState) (p : Packet)
      → IsCounted chunk i r
      → i + 1 < sender_buf_size
      → load r.recv_buf i ≡ some p
      → IsDataPack i (piece chunk i) p
      → IsCounted chunk (i + 1) (counted_in p r)
  IsCounted-next i r p c room e d = record {
    holds_buf = c.holds_buf;
    in_range = omega arith;
    before = λ j h k. before_at j h k (ℕ_discrete j i);
    counted =
        rw (c.counted, data_len-data d)
          (add_pos (bytes_before chunk i) (length (piece chunk i))
            ∙ ap pos (bytes_before-suc chunk i c.in_range.0));
  }
    where
      before_at :
          (j : ℕ) → 0 < j → j < i + 1 → Dec (j ≡ i) → (q : Packet) × (load r.recv_buf j ≡ some q)
      before_at j h k (yes f) = (p, rw f e)
      before_at j h k (no ne) = c.before j h (omega arith)

  Acked-step :
      (left i : ℕ) (r : RecvState) (out : List Datagram) (p : Packet)
      → load r.recv_buf i ≡ some p
      → Acked chunk to left (i + 1) (counted_in p r) (out ++ ack_datagram to i ∷ [])
      → Acked chunk to (suc left) i r out
  Acked-step left i r out p e a = record {
    result = a.result;
    steps = suc a.steps;
    runs = ack_loop-step left i r out p e ∙ a.runs ∙ rw (append_assoc out (ack_datagram to i ∷ []));
    holds = a.holds;
    npe_is = omega (arith, a.npe_is);
    buf_is = a.buf_is;
    hash_is = a.hash_is;
  }

  -- With all packets before `i` counted, the loop counts on to the first that is missing.
  pub ack_loop-Acked :
      (left i : ℕ) (r : RecvState) (out : List Datagram)
      → IsCounted chunk i r
      → i + left ≡ sender_buf_size - 1
      → Acked chunk to left i r out
  unfolding ack_loop
  ack_loop-Acked zero i r out c e = Acked-stop zero i r out c (at_end (c.holds_buf.slots i)) refl
    where
      at_end : SlotHolds chunk i (load r.recv_buf i) → load r.recv_buf i ≡ none
      at_end (inl f) = f
      at_end (inr (_, _, part, _)) =
          absurd (omega (arith, part.from_one, part.reached, c.holds_buf.chunk_fits))
  ack_loop-Acked (suc left) i r out c e = next (c.holds_buf.slots i) (λ p f d.
      ack_loop-Acked left (i + 1) (counted_in p r) (out ++ ack_datagram to i ∷ [])
        (IsCounted-next i r p c (omega arith) f d) (omega arith))
    where
      next :
          SlotHolds chunk i (load r.recv_buf i)
          → ((p : Packet)
              → load r.recv_buf i ≡ some p
              → IsDataPack i (piece chunk i) p
              → Acked chunk to left (i + 1) (counted_in p r) (out ++ ack_datagram to i ∷ []))
          → Acked chunk to (suc left) i r out
      next (inl f) go = Acked-stop (suc left) i r out c f (rw (f, ack_loop) refl)
      next (inr (p, f, _, d)) go = Acked-step left i r out p f (go p f d)
