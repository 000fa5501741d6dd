-- ===== src/Window/Invariant.antt =====
-- What the sliding window of sock_io.c keeps true: its buffer holds the packets of one chunk in the
-- slots below `LPR`, and nothing else, and the three marks are in order.
use p2pdown_loader.Prelude.{
  ℕ, ◌+◌, ◌-◌, ◌*◌, ◌≤◌, ◌<◌, ◌≡◌, sym, ◌∙◌, ◌⊎◌, List, Option, none, some, arith, length, take,
  drop, set, load, store, length-set, get_or-set_self, get_or-set_ne, get_or-replicate, lt→ltb,
  length-replicate,
}
use native.Mathlib.Decide.{ℕ_discrete}
use p2pdown_loader.Packet.{Packet}
use p2pdown_loader.Packet.Forms.{IsDataPack}
use p2pdown_loader.Net.{Addr}
use p2pdown_loader.Window.{Window, FloatOps, pload_len, sender_buf_size, create_sw}

-- The bytes of a chunk that packet `i` carries; packets are counted from 1.
abbrev pub piece : List ℕ → ℕ → List ℕ
piece chunk i = take pload_len (drop ((i - 1) * pload_len) chunk)

pub record IsBuf (chunk : List ℕ) (lpr : ℕ) (buf : List (Option Packet)) : Type 0 where
  pub buf_size : length buf ≡ sender_buf_size
  pub some_ready : 0 < lpr
  pub ready_fits : lpr < sender_buf_size
  pub stored :
      (i : ℕ)
      → 0 < i
      → i < lpr
      → (p : Packet) × (load buf i ≡ some p) × IsDataPack i (piece chunk i) p
  pub vacant : (i : ℕ) → (i ≡ 0) ⊎ (lpr ≤ i) → load buf i ≡ none

pub record IsValid {F : Type 0} (chunk : List ℕ) (w : Window F) : Type 0 where
  pub is_buf : IsBuf chunk w.lpr w.sender_buf
  pub acked_sent : w.lpa ≤ w.lps
  pub sent_ready : w.lps < w.lpr

pub store-in_range {ℓ} :
    {A : Type ℓ} (xs : List A) (i : ℕ) (v : A) → i < length xs → store xs i v ≡ some (set xs i v)
store-in_range xs i v h = rw (lt→ltb i (length xs) h)

-- A packet may be replaced by one that carries the same.
pub IsBuf-set :
    (chunk : List ℕ) (lpr : ℕ) (buf : List (Option Packet)) (i : ℕ) (p : Packet)
    → 0 < i
    → i < lpr
    → IsDataPack i (piece chunk i) p
    → IsBuf chunk lpr buf
    → IsBuf chunk lpr (set buf i (some p))
IsBuf-set chunk lpr buf i p pos below d b = record {
  buf_size = length-set buf i (some p) ∙ b.buf_size;
  some_ready = b.some_ready;
  ready_fits = b.ready_fits;
  stored = λ j h k. stored_at j h k (ℕ_discrete j i);
  vacant = λ j h. get_or-set_ne buf i j (some p) none (omega arith) ∙ b.vacant j h;
}
  where
    stored_at :
        (j : ℕ)
        → 0 < j
        → j < lpr
        → Dec (j ≡ i)
        → (q : Packet) × (load (set buf i (some p)) j ≡ some q) × IsDataPack j (piece chunk j) q
    stored_at j h k (yes e) = (
      p,
      rw e (get_or-set_self buf i (some p) none (omega (arith, b.buf_size, b.ready_fits))),
      rw e d,
    )
    stored_at j h k (no ne) =
        let (q, e, c) = b.stored j h k in
        (q, get_or-set_ne buf i j (some p) none (λ e'. ne (sym e')) ∙ e, c)

-- The next packet goes into slot `LPR`.
pub IsBuf-next :
    (chunk : List ℕ) (lpr : ℕ) (buf : List (Option Packet)) (p : Packet)
    → lpr + 1 < sender_buf_size
    → IsDataPack lpr (piece chunk lpr) p
    → IsBuf chunk lpr buf
    → IsBuf chunk (lpr + 1) (set buf lpr (some p))
IsBuf-next chunk lpr buf p fits d b = record {
  buf_size = length-set buf lpr (some p) ∙ b.buf_size;
  some_ready = omega arith;
  ready_fits = fits;
  stored = λ j h k. stored_at j h k (ℕ_discrete j lpr);
  vacant = λ j h.
      get_or-set_ne buf lpr j (some p) none (omega (arith, b.some_ready))
      ∙ b.vacant j (omega arith);
}
  where
    stored_at :
        (j : ℕ)
        → 0 < j
        → j < lpr + 1
        → Dec (j ≡ lpr)
        → (q : Packet) × (load (set buf lpr (some p)) j ≡ some q) × IsDataPack j (piece chunk j) q
    stored_at j h k (yes e) =
        (p, rw e (get_or-set_self buf lpr (some p) none (omega (arith, b.buf_size))), rw e d)
    stored_at j h k (no ne) =
        let (q, e, c) = b.stored j h (omega arith) in
        (q, get_or-set_ne buf lpr j (some p) none (λ e'. ne (sym e')) ∙ e, c)

-- A new window holds nothing.
pub create_sw-IsValid :
    (fl : FloatOps) (chunk hash : List ℕ) (dst : Addr) (flowid : ℕ)
    → IsValid chunk (create_sw fl hash dst flowid)
unfolding create_sw
create_sw-IsValid fl chunk hash dst flowid = record {
  is_buf = record {
    buf_size = length-replicate {A = Option Packet} sender_buf_size none;
    some_ready = omega arith;
    ready_fits = omega arith;
    stored = λ i h k. absurd (omega arith);
    vacant = λ i h. get_or-replicate sender_buf_size i none;
  };
  acked_sent = omega arith;
  sent_ready = omega arith;
}
