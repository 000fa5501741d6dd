-- ===== src/Receiver/Answers.antt =====
-- What a data packet of the chunk does to the receiver of sock_io.c, and which ACKs it sends.
use p2pdown_loader.Prelude.{
  ℕ, zero, suc, ◌+◌, ◌-◌, ◌≤◌, ◌<◌, ◌≡◌, ◌≢◌, refl, sym, ap, ◌∙◌, ◌⊎◌, subst, ltb→lt, inl, inr,
  List, [], ◌∷◌, none, some, arith, length, load, Bool-cases, ltb, true, false,
}
use p2pdown_loader.Packet.{Packet}
use p2pdown_loader.Packet.Forms.{IsDataPack}
use p2pdown_loader.Net.{Addr, Datagram}
use p2pdown_loader.Net.Sent.{ack_datagram}
use p2pdown_loader.Window.{sender_buf_size}
use p2pdown_loader.Window.Invariant.{piece}
use p2pdown_loader.Receiver.{RecvState, max_seq, upon_receiving_datapack}
use p2pdown_loader.Receiver.Invariant.{IsPart, IsCounted, Holds, acks_from, Acked, ack_loop-Acked}
use p2pdown_loader.Receiver.Stored.{
  stored_in, stored_in_self, stored_in_ne, stored_in_missing, stored_in_stores,
}
use native.Mathlib.Decide.{ℕ_discrete}
use p2pdown_loader.Receiver.Handling.{
  stored, IsCounted-stored, Holds-stored, runs-ignored, runs-late, runs-early, runs-in_order,
}

-- The ACKs that answer packet `seq`: none for one that is too far ahead; one for each packet that
-- is in order now; the last ACK again for one that came too early; its own for one that came before.
pub data Answered (chunk : List ℕ) (to : Addr) (seq : ℕ) (r r' : RecvState)
    : List Datagram → Type 0 where
  ignored : max_seq r < seq → r' ≡ r → Answered chunk to seq r r' []
  in_order :
      (n : ℕ)
      → seq ≡ r.npe
      → r'.npe ≡ r.npe + n
      → 0 < n
      → Answered chunk to seq r r' (acks_from to seq n)
  early :
      r.npe < seq → r'.npe ≡ r.npe → Answered chunk to seq r r' (ack_datagram to (r.npe - 1) ∷ [])
  late : seq < r.npe → r'.npe ≡ r.npe → Answered chunk to seq r r' (ack_datagram to seq ∷ [])

none_not_some : {p : Packet} → ¬ (none ≡ some p)
none_not_some e = ground (arith, e)

-- What a run of the handler leaves.
pub record After (chunk : List ℕ) (to : Addr) (p : Packet) (r : RecvState) : Type 0 where
  pub result : RecvState
  pub out : List Datagram
  pub runs : upon_receiving_datapack p r to ≡ some (result, out)
  pub holds : Holds chunk result
  pub answered : Answered chunk to p.seq_num r result out
  pub hash_is : result.hash ≡ r.hash
  -- The packet is in its slot unless it is too far ahead, and all other slots are as they were.
  pub stores : p.seq_num ≤ max_seq r → load result.recv_buf p.seq_num ≡ some p
  pub keeps : (i : ℕ) → i ≢ p.seq_num → load result.recv_buf i ≡ load r.recv_buf i

module _ (chunk : List ℕ) (to : Addr) (p : Packet) (r : RecvState) where
  After-ignored : Holds chunk r → max_seq r < p.seq_num → After chunk to p r
  After-ignored h far = record {
    result = r;
    out = [];
    runs = runs-ignored to p r (ground arith);
    holds = h;
    answered = ignored far refl;
    hash_is = refl;
    stores = λ near. absurd (omega arith);
    keeps = λ i ne. refl;
  }

  abbrev InReach : Type 0
  InReach =
      Holds chunk r
      × (0 < p.seq_num)
      × (p.seq_num ≤ max_seq r)
      × (p.seq_num ≤ 512)
      × IsPart chunk p.seq_num
      × IsDataPack p.seq_num (piece chunk p.seq_num) p

  -- Storing the packet leaves all other slots; the last one, which is cleared, was empty.
  stored-keeps :
      Holds chunk r
      → p.seq_num ≤ 512
      → (i : ℕ) → i ≢ p.seq_num
      → load (stored_in r p.seq_num p) i ≡ load r.recv_buf i
  stored-keeps h small i ne = at (ℕ_discrete i 513)
    where
      last_empty : load r.recv_buf 513 ≡ none
      last_empty = elim (h.so_far.holds_buf.slots 513) [
        | inl e ↦ e
        | inr (q, e, part, d) ↦ absurd (omega (arith, part.reached, h.so_far.holds_buf.chunk_fits))
      ]

      at : Dec (i ≡ 513) → load (stored_in r p.seq_num p) i ≡ load r.recv_buf i
      at (yes e) = rw (e) (
          stored_in_missing r p.seq_num 513 p (omega arith) h.so_far.holds_buf.buf_size last_empty
          ∙ sym last_empty)
      at (no last) = stored_in_ne r p.seq_num i p ne last

  After-late : InReach → p.seq_num < r.npe → After chunk to p r
  After-late (h, pos, near, small, part, d) below = record {
    result = stored p r;
    out = ack_datagram to p.seq_num ∷ [];
    runs =
        runs-late to p r (ground arith)
          (stored_in_stores r p.seq_num p h.so_far.holds_buf.buf_size (omega arith)) (ground arith)
          (ground arith);
    holds = Holds-stored chunk p r h small (omega arith) part d;
    answered = late below refl;
    hash_is = refl;
    stores = λ _. stored_in_self r p.seq_num p h.so_far.holds_buf.buf_size (omega arith);
    keeps = stored-keeps h small;
  }

  After-early : InReach → r.npe < p.seq_num → After chunk to p r
  After-early (h, pos, near, small, part, d) above = record {
    result = stored p r;
    out = ack_datagram to (r.npe - 1) ∷ [];
    runs =
        runs-early to p r (ground arith)
          (stored_in_stores r p.seq_num p h.so_far.holds_buf.buf_size (omega arith)) (ground arith)
          (ground arith) (ground (arith, h.so_far.in_range.0));
    holds = Holds-stored chunk p r h small (omega arith) part d;
    answered = early above refl;
    hash_is = refl;
    stores = λ _. stored_in_self r p.seq_num p h.so_far.holds_buf.buf_size (omega arith);
    keeps = stored-keeps h small;
  }

  -- The packet that is stored is in order, so it is counted.
  steps-positive :
      {left : ℕ} (a : Acked chunk to left p.seq_num (stored p r) [])
      → p.seq_num ≤ 512
      → length r.recv_buf ≡ sender_buf_size
      → 0 < a.steps
  steps-positive a small size = at a.steps a.npe_is
    where
      at : (n : ℕ) → a.result.npe ≡ p.seq_num + n → 0 < n
      at (suc n) e = omega arith
      at zero e = absurd (
          none_not_some (
            sym a.holds.missing
            ∙ ap (load a.result.recv_buf) {y = p.seq_num} (omega arith)
            ∙ ap (λ b. load b p.seq_num) a.buf_is
            ∙ stored_in_self r p.seq_num p size (omega arith)))

  After-in_order : InReach → p.seq_num ≡ r.npe → After chunk to p r
  After-in_order (h, pos, near, small, part, d) e =
      let a =
        ack_loop-Acked chunk to (sender_buf_size - 1 - p.seq_num) p.seq_num (stored p r) []
          (subst (λ i. IsCounted chunk i (stored p r)) (sym e)
            (IsCounted-stored chunk p r h small part d))
          (omega arith) in
      record {
        result = a.result;
        out = acks_from to p.seq_num a.steps;
        runs =
            runs-in_order to p r (a.result, acks_from to p.seq_num a.steps) (ground arith)
              (stored_in_stores r p.seq_num p h.so_far.holds_buf.buf_size (omega arith))
              (ground arith) a.runs;
        holds = a.holds;
        answered =
            in_order a.steps e (omega (arith, a.npe_is))
              (steps-positive a small h.so_far.holds_buf.buf_size);
        hash_is = a.hash_is;
        stores = λ _.
            ap (λ b. load b p.seq_num) a.buf_is
            ∙ stored_in_self r p.seq_num p h.so_far.holds_buf.buf_size (omega arith);
        keeps = λ i ne. ap (λ b. load b i) a.buf_is ∙ stored-keeps h small i ne;
      }

  -- With any packet of the chunk, in order, early, late or too far ahead, the handler returns. If the
  -- packet is too far ahead, nothing changes; otherwise it is in its slot, and every other slot is as
  -- it was. The next packet expected is then the first one that is missing, the count of bytes is
  -- that of the packets before that, and the ACKs sent are those of `Answered`: for an early packet
  -- the last ACK again, which is ACK 0 if the first packet is missing.
  pub upon_receiving_datapack-After :
      Holds chunk r
      → IsPart chunk p.seq_num
      → IsDataPack p.seq_num (piece chunk p.seq_num) p
      → After chunk to p r
  upon_receiving_datapack-After h part d = by_reach (Bool-cases (ltb (max_seq r) p.seq_num))
    where
      fits : p.seq_num ≤ 512
      fits = omega (arith, part.from_one, part.reached, h.so_far.holds_buf.chunk_fits)

      by_reach :
          (ltb (max_seq r) p.seq_num ≡ true) ⊎ (ltb (max_seq r) p.seq_num ≡ false)
          → After chunk to p r
      by_reach (inl far) = After-ignored h (ltb→lt (max_seq r) p.seq_num far)
      by_reach (inr near) =
          by_order reach (Bool-cases (ltb r.npe p.seq_num)) (Bool-cases (ltb p.seq_num r.npe))
        where
          reach : InReach
          reach = (h, part.from_one, ground arith, fits, part, d)

          by_order :
              InReach
              → (ltb r.npe p.seq_num ≡ true) ⊎ (ltb r.npe p.seq_num ≡ false)
              → (ltb p.seq_num r.npe ≡ true) ⊎ (ltb p.seq_num r.npe ≡ false)
              → After chunk to p r
          by_order at (inl above) _ = After-early at (ltb→lt r.npe p.seq_num above)
          by_order at (inr _) (inl below) = After-late at (ltb→lt p.seq_num r.npe below)
          by_order at (inr a) (inr b) = After-in_order at (ground arith)
