-- ===== src/Tests/Reaping.antt =====
-- A receiver that has a whole chunk, and the writes of the chunk into the file.
use p2pdown_loader.Prelude.{
  ℕ, zero, suc, ◌+◌, ◌≤◌, ◌<◌, ◌≡◌, refl, ap, ◌∙◌, ◌⊎◌, inl, inr, List, [], ◌∷◌, Option, none, some,
  arith, length, load, replicate, length-replicate, pos,
}
use p2pdown_loader.Packet.{Packet}
use p2pdown_loader.Packet.Forms.{data_pack, data_pack-IsDataPack}
use p2pdown_loader.Window.Invariant.{piece}
use p2pdown_loader.Window.Fill.{length-piece}
use p2pdown_loader.Receiver.{RecvState, Write, reap, written}
use p2pdown_loader.Receiver.Invariant.{SlotHolds, Holds}
use p2pdown_loader.Receiver.Reap.{Fills, successes, reap-Fills}

pub zeros : ℕ → List ℕ
zeros n = replicate n 0

length-zeros : (n : ℕ) → length (zeros n) ≡ n
unfolding zeros
length-zeros n = length-replicate {A = ℕ} n 0

-- The packets of a chunk from number `i` on, and an empty slot.
pub packs : List ℕ → ℕ → ℕ → List (Option Packet)
packs chunk zero i = none ∷ []
packs chunk (suc n) i = some (data_pack i (piece chunk i)) ∷ packs chunk n (i + 1)

length-packs : (chunk : List ℕ) (n i : ℕ) → length (packs chunk n i) ≡ n + 1
unfolding packs
length-packs chunk zero i = omega arith
length-packs chunk (suc n) i = omega (arith, length-packs chunk n (i + 1))

load-packs :
    (chunk : List ℕ) (n i j : ℕ)
    → ((load (packs chunk n i) j ≡ none) × (n ≤ j))
      ⊎ ((load (packs chunk n i) j ≡ some (data_pack (i + j) (piece chunk (i + j)))) × (j < n))
unfolding packs
load-packs chunk zero i zero = inl (refl, omega arith)
load-packs chunk zero i (suc j) = inl (refl, omega arith)
load-packs chunk (suc n) i zero =
    inr
      (ap (λ k. some (data_pack k (piece chunk k))) {x = i} {y = i + 0} (omega arith), omega arith)
load-packs chunk (suc n) i (suc j) = elim (load-packs chunk n (i + 1) j) [
  | inl (e, h) ↦ inl (e, omega arith)
  | inr (e, h) ↦ inr (
    e ∙ ap (λ k. some (data_pack k (piece chunk k))) {x = i + 1 + j} {y = i + suc j} (omega arith),
    omega arith,
  )
]

abbrev pub chunk : List ℕ
chunk = zeros 524288

abbrev pub full : RecvState
full = record {
  hash = 7 ∷ [];
  recv_buf = none ∷ packs chunk 512 1;
  npe = 513;
  recv_bytesnum = pos 524288;
}

full-SlotHolds : (i : ℕ) → SlotHolds chunk i (load (none ∷ packs chunk 512 1) i)
full-SlotHolds zero = inl refl
full-SlotHolds (suc j) = elim (load-packs chunk 512 1 j) [
  | inl (e, h) ↦ inl e
  | inr (e, h) ↦ inr (
    data_pack (suc j) (piece chunk (suc j)),
    e ∙ ap (λ k. some (data_pack k (piece chunk k))) {x = 1 + j} {y = suc j} (omega arith),
    record { from_one = omega arith; reached = omega (arith, length-zeros 524288) },
    data_pack-IsDataPack (suc j) (piece chunk (suc j))
        (omega (arith, length-piece chunk (suc j), length-zeros 524288))
        (omega (arith, length-piece chunk (suc j))) (omega arith),
  )
]

before_full :
    (j : ℕ) → 0 < j → j < 513 → (p : Packet) × (load (none ∷ packs chunk 512 1) j ≡ some p)
before_full zero h k = absurd (omega arith)
before_full (suc j) h k = elim (load-packs chunk 512 1 j) [
  | inl (e, far) ↦ absurd (omega arith)
  | inr (e, near) ↦ (_, e)
]

missing_full : load (none ∷ packs chunk 512 1) 513 ≡ none
missing_full = elim (load-packs chunk 512 1 512) [
  | inl (e, far) ↦ e
  | inr (e, near) ↦ absurd (omega arith)
]

pub full-Holds : Holds chunk full
full-Holds = record {
  so_far = record {
    holds_buf = record {
      buf_size = omega (arith, length-packs chunk 512 1);
      chunk_fits = omega (arith, length-zeros 524288);
      slots = full-SlotHolds;
    };
    in_range = (omega arith, omega arith);
    before = before_full;
    counted = ap pos (omega (arith, length-zeros 524288));
  };
  missing = missing_full;
}

-- Two writes, the second of more bytes than are left.
reap-Fills_example :
    (k : ℕ) × (ws : List Write) × (reap (λ bytes. 7 ∷ []) (successes (300000 ∷ 300000 ∷ [])) full 3
      ≡ written k ws)
    × Fills chunk 1572864 0 ws
reap-Fills_example =
    reap-Fills (λ bytes. 7 ∷ []) chunk full 3 (300000 ∷ 300000 ∷ []) full-Holds refl refl
      (omega arith) (omega arith)
