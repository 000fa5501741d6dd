-- ===== src/Receiver/Handling.antt =====
-- What storing a data packet leaves of the receiver of sock_io.c, and the four ways in which the
-- handler runs.
use p2pdown_loader.Prelude.{
  ℕ, ◌-◌, ◌^◌, ◌≤◌, ◌<◌, ◌≡◌, ◌≢◌, refl, sym, ◌∙◌, List, [], ◌∷◌, Option, none, some, arith, Bool,
  set, load, store, ltb, leb, ◌==◌, true, false, ◌||◌,
}
use native.Mathlib.Decide.{ℕ_discrete}
use p2pdown_loader.Packet.{Packet}
use p2pdown_loader.Packet.Forms.{IsDataPack}
use p2pdown_loader.Net.{Addr, Datagram}
use p2pdown_loader.Net.Sent.{ack_datagram, send_pack-ack}
use p2pdown_loader.Window.{sender_buf_size}
use p2pdown_loader.Window.Invariant.{piece}
use p2pdown_loader.Receiver.{RecvState, ack_loop, ack_one, max_seq, upon_receiving_datapack}
use p2pdown_loader.Receiver.Invariant.{IsPart, IsCounted, Holds}
use p2pdown_loader.Receiver.Stored.{
  stored_in-HoldsBuf, stored_in_self, stored_in_ne, stored_in_missing, stored_in,
}

module _ (p : Packet) (r : RecvState) where
  abbrev pub stored : RecvState
  stored = record r { recv_buf = stored_in r p.seq_num p }

  abbrev pub skipped : Bool
  skipped = leb (2 ^ 31) p.seq_num || ltb p.seq_num 1 || ltb (max_seq r) p.seq_num

  abbrev pub Stores : List (Option Packet) → Type 0
  Stores buf =
      (store r.recv_buf p.seq_num (some p) ≡ some (set r.recv_buf p.seq_num (some p)))
      × (store (set r.recv_buf p.seq_num (some p)) (sender_buf_size - 1) none ≡ some buf)

module _ (chunk : List ℕ) (p : Packet) (r : RecvState) where
  pub IsCounted-stored :
      Holds chunk r
      → p.seq_num ≤ 512
      → IsPart chunk p.seq_num
      → IsDataPack p.seq_num (piece chunk p.seq_num) p
      → IsCounted chunk r.npe (stored p r)
  IsCounted-stored h small part d = record {
    holds_buf = stored_in-HoldsBuf chunk p.seq_num p r h.so_far.holds_buf (omega arith) part d;
    in_range = h.so_far.in_range;
    before = λ j pos below. before_at j pos below (ℕ_discrete j p.seq_num);
    counted = h.so_far.counted;
  }
    where
      before_at :
          (j : ℕ)
          → 0 < j
          → j < r.npe
          → Dec (j ≡ p.seq_num)
          → (q : Packet) × (load (stored_in r p.seq_num p) j ≡ some q)
      before_at j pos below (yes e) =
          (p, rw e (stored_in_self r p.seq_num p h.so_far.holds_buf.buf_size (omega arith)))
      before_at j pos below (no ne) =
          let (q, e) = h.so_far.before j pos below in
          (q, stored_in_ne r p.seq_num j p ne (omega (arith, h.so_far.in_range.1)) ∙ e)

  pub Holds-stored :
      Holds chunk r
      → p.seq_num ≤ 512
      → p.seq_num ≢ r.npe
      → IsPart chunk p.seq_num
      → IsDataPack p.seq_num (piece chunk p.seq_num) p
      → Holds chunk (stored p r)
  Holds-stored h small ne part d = record {
    so_far = IsCounted-stored h small part d;
    missing =
        stored_in_missing r p.seq_num r.npe p (λ e. ne (sym e)) h.so_far.holds_buf.buf_size
          h.missing;
  }

module _ (to : Addr) (p : Packet) (r : RecvState) where
  -- The handler runs and gives this.
  abbrev pub RunsTo : RecvState × List Datagram → Type 0
  RunsTo x = upon_receiving_datapack p r to ≡ some x

  pub runs-ignored : skipped p r ≡ true → RunsTo (r, [])
  unfolding upon_receiving_datapack
  runs-ignored e = rw (e) refl

  pub runs-late :
      skipped p r ≡ false
      → Stores p r (stored_in r p.seq_num p)
      → (p.seq_num == r.npe) ≡ false
      → ltb r.npe p.seq_num ≡ false
      → RunsTo (stored p r, ack_datagram to p.seq_num ∷ [])
  unfolding upon_receiving_datapack ack_one
  runs-late e (s, s') ne le = rw (e, s, s', ne, le, send_pack-ack to p.seq_num) refl

  pub runs-early :
      skipped p r ≡ false
      → Stores p r (stored_in r p.seq_num p)
      → (p.seq_num == r.npe) ≡ false
      → ltb r.npe p.seq_num ≡ true
      → ltb 0 r.npe ≡ true
      → RunsTo (stored p r, ack_datagram to (r.npe - 1) ∷ [])
  unfolding upon_receiving_datapack ack_one
  runs-early e (s, s') ne lt pos = rw (e, s, s', ne, lt, pos, send_pack-ack to (r.npe - 1)) refl

  pub runs-in_order :
      (x : RecvState × List Datagram)
      → skipped p r ≡ false
      → Stores p r (stored_in r p.seq_num p)
      → (p.seq_num == r.npe) ≡ true
      → ack_loop (sender_buf_size - 1 - p.seq_num) p.seq_num to (stored p r) [] ≡ some x
      → RunsTo x
  unfolding upon_receiving_datapack
  runs-in_order x e (s, s') eq run = rw (e, s, s', eq) run
