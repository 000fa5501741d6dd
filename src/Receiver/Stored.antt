-- ===== src/Receiver/Stored.antt =====
-- The receive buffer of sock_io.c once a packet of the chunk is stored.
use p2pdown_loader.Prelude.{
  ℕ, ◌-◌, ◌<◌, ◌≡◌, ◌≢◌, refl, sym, ◌∙◌, inl, inr, List, Option, none, some, arith, length, set,
  load, store, length-set, get_or-set_self, get_or-set_ne,
}
use native.Mathlib.Decide.{ℕ_discrete}
use p2pdown_loader.Packet.{Packet}
use p2pdown_loader.Packet.Forms.{IsDataPack}
use p2pdown_loader.Window.{sender_buf_size}
use p2pdown_loader.Window.Invariant.{piece, store-in_range}
use p2pdown_loader.Receiver.{RecvState}
use p2pdown_loader.Receiver.Invariant.{IsPart, HoldsBuf, HoldsBuf-set}

-- The buffer once the packet is stored and the last slot cleared.
abbrev pub stored_in : RecvState → ℕ → Packet → List (Option Packet)
stored_in r seq p = set (set r.recv_buf seq (some p)) (sender_buf_size - 1) none

pub stored_in-HoldsBuf :
    (chunk : List ℕ) (seq : ℕ) (p : Packet) (r : RecvState)
    → HoldsBuf chunk r.recv_buf
    → seq < sender_buf_size
    → IsPart chunk seq
    → IsDataPack seq (piece chunk seq) p
    → HoldsBuf chunk (stored_in r seq p)
stored_in-HoldsBuf chunk seq p r b inside part d =
    HoldsBuf-set chunk (set r.recv_buf seq (some p)) 513 none (omega arith) (inl refl)
      (HoldsBuf-set chunk r.recv_buf seq (some p) inside (inr (p, refl, part, d)) b)

pub stored_in_self :
    (r : RecvState) (seq : ℕ) (p : Packet)
    → length r.recv_buf ≡ sender_buf_size
    → seq < 513
    → load (stored_in r seq p) seq ≡ some p
stored_in_self r seq p size h =
    get_or-set_ne (set r.recv_buf seq (some p)) 513 seq none none (omega arith)
    ∙ get_or-set_self r.recv_buf seq (some p) none (omega (arith, size))

pub stored_in_ne :
    (r : RecvState) (seq i : ℕ) (p : Packet)
    → i ≢ seq
    → i ≢ 513
    → load (stored_in r seq p) i ≡ load r.recv_buf i
stored_in_ne r seq i p ne last =
    get_or-set_ne (set r.recv_buf seq (some p)) 513 i none none (λ e. last (sym e))
    ∙ get_or-set_ne r.recv_buf seq i (some p) none (λ e. ne (sym e))

pub stored_in_stores :
    (r : RecvState) (seq : ℕ) (p : Packet)
    → length r.recv_buf ≡ sender_buf_size
    → seq < 513
    → (store r.recv_buf seq (some p) ≡ some (set r.recv_buf seq (some p)))
      × (store (set r.recv_buf seq (some p)) (sender_buf_size - 1) none ≡ some (stored_in r seq p))
stored_in_stores r seq p size h = (
  store-in_range r.recv_buf seq (some p) (omega (arith, size)),
  store-in_range (set r.recv_buf seq (some p)) (sender_buf_size - 1) none
      (omega (arith, size, length-set r.recv_buf seq (some p))),
)

pub stored_in_missing :
    (r : RecvState) (seq i : ℕ) (p : Packet)
    → i ≢ seq
    → length r.recv_buf ≡ sender_buf_size
    → load r.recv_buf i ≡ none
    → load (stored_in r seq p) i ≡ none
stored_in_missing r seq i p ne size e = at (ℕ_discrete i 513)
  where
    at : Dec (i ≡ 513) → load (stored_in r seq p) i ≡ none
    at (yes f) = rw f (
        get_or-set_self (set r.recv_buf seq (some p)) 513 none none
          (omega (arith, size, length-set r.recv_buf seq (some p))))
    at (no last) = stored_in_ne r seq i p ne last ∙ e
