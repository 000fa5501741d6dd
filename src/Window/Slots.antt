-- ===== src/Window/Slots.antt =====
-- What sending packets leaves of the slots of a window (sock_io.c).
use native.Mathlib.Decide.{ℕ_discrete}
use p2pdown_loader.Prelude.{
  ℕ, suc, ◌+◌, ◌≤◌, ◌<◌, ◌≡◌, ◌≢◌, sym, ap, ◌∙◌, ◌⊎◌, inl, inr, List, Option, none, some, arith,
  length, set, load, get_or-set_ne, get_or-set_self,
}
use p2pdown_loader.Packet.{Packet}

-- A slot once the `n` packets after `lps` are sent: theirs have a new time, all others are the same.
pub data SlotSent (lps n i : ℕ) (o o' : Option Packet) : Type 0 where
  kept : (i ≤ lps) ⊎ (lps + n < i) → o' ≡ o → SlotSent lps n i o o'
  stamped :
      (p : Packet) (t : ℕ)
      → lps < i
      → i ≤ lps + n
      → o ≡ some p
      → o' ≡ some (record p { timestamp = t })
      → SlotSent lps n i o o'

-- The slot behind `lps` with its packet, at a new time.
abbrev stamp : List (Option Packet) → ℕ → Packet → ℕ → List (Option Packet)
stamp buf lps p t = set buf (lps + 1) (some (record p { timestamp = t }))

-- The slots of one packet sent, and of `n` more behind it.
pub SlotSent-next :
    (lps n j t : ℕ) (buf : List (Option Packet)) (p : Packet) (o : Option Packet)
    → lps + 1 < length buf
    → load buf (lps + 1) ≡ some p
    → SlotSent (lps + 1) n j (load (stamp buf lps p t) j) o
    → SlotSent lps (suc n) j (load buf j) o
SlotSent-next lps n j t buf p o inside at s = by_place (ℕ_discrete j (lps + 1)) s
  where
    marked : Packet
    marked = record p { timestamp = t }

    other : j ≢ lps + 1 → load (stamp buf lps p t) j ≡ load buf j
    other ne = get_or-set_ne buf (lps + 1) j (some marked) none (λ e. ne (sym e))

    own : load (stamp buf lps p t) (lps + 1) ≡ some marked
    own = get_or-set_self buf (lps + 1) (some marked) none inside

    by_place :
        Dec (j ≡ lps + 1)
        → SlotSent (lps + 1) n j (load (stamp buf lps p t) j) o
        → SlotSent lps (suc n) j (load buf j) o
    by_place (yes here) (SlotSent.kept out e) =
        SlotSent.stamped p t (omega arith) (omega arith) (ap (load buf) here ∙ at)
          (e ∙ ap (load (stamp buf lps p t)) here ∙ own)
    by_place (yes here) (SlotSent.stamped q t above below e f) = absurd (omega arith)
    by_place (no ne) (SlotSent.kept (inl before) e) =
        SlotSent.kept (inl (omega (arith, ne))) (e ∙ other ne)
    by_place (no ne) (SlotSent.kept (inr behind) e) =
        SlotSent.kept (inr (omega arith)) (e ∙ other ne)
    by_place (no ne) (SlotSent.stamped q t above below e f) =
        SlotSent.stamped q t (omega arith) (omega arith) (sym (other ne) ∙ e) f
