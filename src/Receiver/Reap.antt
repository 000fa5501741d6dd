-- ===== src/Receiver/Reap.antt =====
-- `reap` of sock_io.c: what a receiver that has all of its chunk writes into the file.
use p2pdown_loader.Prelude.{
  ℕ, zero, suc, ◌+◌, ◌-◌, ◌*◌, ◌^◌, ◌≤◌, ◌<◌, ◌≡◌, refl, sym, subst, ap, ◌∙◌, ◌⊎◌, inl, inr, List,
  [], ◌∷◌, ◌++◌, none, some, true, false, arith, length, min, take, drop, load, ltb, leb, ◌==◌,
  slice, slice-start, append-nil, append_assoc, length-take, take-add, take-length, pos, bytes_eq,
  bytes_eq_refl, pos_part, Bool-cases,
}
use p2pdown_loader.Packet.{Packet, read_payload}
use p2pdown_loader.Packet.Forms.{IsDataPack}
use p2pdown_loader.Window.{pload_len, chunk_size}
use p2pdown_loader.Window.Invariant.{piece}
use p2pdown_loader.Window.Fill.{length-piece}
use p2pdown_loader.Receiver.{
  RecvState, collect, check_onechunk_hash, Written, wrote, Write, write_loop, saved, from_saved,
  written, bad_hash, reap,
}
use p2pdown_loader.Receiver.Invariant.{SlotHolds, IsCounted, Holds}

none_not_some : {p : Packet} → ¬ (none ≡ some p)
none_not_some e = ground (arith, e)

module _ (chunk : List ℕ) (r : RecvState) where
  -- A packet before the next one expected is there.
  slot_before :
      IsCounted chunk r.npe r
      → (i : ℕ) → 0 < i
      → i < r.npe
      → (p : Packet) × (load r.recv_buf i ≡ some p) × IsDataPack i (piece chunk i) p
  slot_before c i h k = at (c.holds_buf.slots i) (c.before i h k)
    where
      at :
          SlotHolds chunk i (load r.recv_buf i)
          → (p : Packet) × (load r.recv_buf i ≡ some p)
          → (p : Packet) × (load r.recv_buf i ≡ some p) × IsDataPack i (piece chunk i) p
      at (inl e) (p, f) = absurd (none_not_some (sym e ∙ f))
      at (inr (p, e, _, d)) _ = (p, e, d)

  collect-step :
      (left i : ℕ) (p : Packet) (body out : List ℕ)
      → load r.recv_buf i ≡ some p
      → IsDataPack i body p
      → length out + length body ≤ chunk_size
      → collect (suc left) i r.recv_buf out ≡ collect left (i + 1) r.recv_buf (out ++ body)
  unfolding collect read_payload
  collect-step left i p body out e d fits =
      let long : leb p.hd_len p.pack_len ≡ true = ground (arith, d.hd_is, d.len_is) in
      let n : p.pack_len - p.hd_len ≡ length body = omega (arith, d.hd_is, d.len_is) in
      let room : leb (length out + length body) 524289 ≡ true = ground (arith, fits) in
      let all : slice body 0 (length body) ≡ some body =
        ap (λ s. slice s 0 (length body)) (sym (append-nil body))
        ∙ slice-start body [] (length body) refl in
      let read : read_payload p.payload (length body) ≡ some body =
        ap (λ o. read_payload o (length body)) d.payload_is ∙ all in
      rw (e, collect) (rw (long, n, read, room) refl)

  -- The packets from `i` on are put behind the bytes of those before.
  collect-take :
      IsCounted chunk r.npe r
      → (left i : ℕ) → 0 < i
      → i + left ≡ r.npe
      → collect left i r.recv_buf (take ((i - 1) * pload_len) chunk)
        ≡ some (take ((r.npe - 1) * pload_len) chunk)
  unfolding collect
  collect-take c zero i h e =
      ap (λ n. some (take ((n - 1) * pload_len) chunk)) {x = i} (omega arith)
  collect-take c (suc left) i h e =
      let (p, f, d) = slot_before c i h (omega arith) in
      let joined : take ((i - 1) * pload_len) chunk ++ piece chunk i
          ≡ take ((i + 1 - 1) * pload_len) chunk =
        sym (take-add ((i - 1) * pload_len) pload_len chunk)
        ∙ ap (λ n. take n chunk) {x = (i - 1) * 1024 + 1024} {y = (i + 1 - 1) * 1024}
            (omega arith) in
      collect-step left i p (piece chunk i) (take ((i - 1) * pload_len) chunk) f d (
        omega (
          arith,
          length-take ((i - 1) * pload_len) chunk,
          length-piece chunk i,
          c.holds_buf.chunk_fits,
        ))
      ∙ ap (λ b. collect left (i + 1) r.recv_buf b) joined
      ∙ collect-take c left (i + 1) (omega arith) (omega arith)

  -- What a receiver puts together is the beginning of the chunk, up to the first packet missing.
  pub collect-prefix :
      Holds chunk r
      → collect (r.npe - 1) 1 r.recv_buf [] ≡ some (take ((r.npe - 1) * pload_len) chunk)
  collect-prefix h =
      collect-take h.so_far (r.npe - 1) 1 (omega arith) (omega (arith, h.so_far.in_range.0))

  pub collect-whole :
      Holds chunk r
      → length chunk ≤ (r.npe - 1) * pload_len
      → collect (r.npe - 1) 1 r.recv_buf [] ≡ some chunk
  collect-whole h all = collect-prefix h ∙ ap some (take-length chunk ((r.npe - 1) * pload_len) all)

  -- A receiver that has counted a whole chunk puts that chunk together.
  collect-all :
      Holds chunk r
      → r.recv_bytesnum ≡ pos chunk_size
      → (collect (r.npe - 1) 1 r.recv_buf [] ≡ some chunk) × (length chunk ≡ chunk_size)
  collect-all h full =
      let counted : pos chunk_size ≡ pos (min (length chunk) ((r.npe - 1) * 1024)) =
        sym full ∙ h.so_far.counted in
      let whole : min (length chunk) ((r.npe - 1) * 1024) ≡ 524288 = ap pos_part (sym counted) in
      (
        collect-whole h (omega (arith, whole, h.so_far.holds_buf.chunk_fits)),
        omega (arith, whole, h.so_far.holds_buf.chunk_fits),
      )

-- The writes put the chunk at a place of the file, from byte `ret` of the chunk on, without a gap.
pub data Fills (chunk : List ℕ) (start : ℕ) : ℕ → List Write → Type 0 where
  done : {ret : ℕ} → ret ≡ length chunk → Fills chunk start ret []
  more :
      {ret : ℕ} {ws : List Write} (k : ℕ)
      → ret + k ≤ length chunk
      → Fills chunk start (ret + k) ws
      → Fills chunk start ret (record { at = start + ret; bytes = take k (drop ret chunk) } ∷ ws)

-- Calls of `write` that succeed, with the numbers of bytes that they would take.
abbrev pub successes : List ℕ → List Written
successes [] = []
successes (n ∷ ns) = wrote n ∷ successes ns

abbrev pub sum : List ℕ → ℕ
sum [] = 0
sum (n ∷ ns) = n + sum ns

write_loop-Fills :
    (chunk : List ℕ) (start : ℕ) (ns : List ℕ) (ret : ℕ) (out : List Write)
    → ret < length chunk
    → length chunk ≤ ret + sum ns
    → (k : ℕ) × (ws : List Write) × (write_loop (successes ns) start chunk ret out
        ≡ saved k (out ++ ws))
      × Fills chunk start ret ws
unfolding write_loop
write_loop-Fills chunk start [] ret out h enough = absurd (omega arith)
write_loop-Fills chunk start (n ∷ ns) ret out h enough =
    by_end (Bool-cases (ret + k == length chunk))
      (λ below. write_loop-Fills chunk start ns (ret + k) (out ++ w ∷ []) below (omega arith))
  where
    k : ℕ
    k = min n (length chunk - ret)

    w : Write
    w = record { at = start + ret; bytes = take k (drop ret chunk) }

    by_end :
        ((ret + k == length chunk) ≡ true) ⊎ ((ret + k == length chunk) ≡ false)
        → (ret + k < length chunk
            → (j : ℕ) × (ws : List Write) × (write_loop
                  (successes ns)
                  start
                  chunk
                  (ret + k)
                  (out ++ w ∷ [])
                ≡ saved j ((out ++ w ∷ []) ++ ws))
              × Fills chunk start (ret + k) ws)
        → (j : ℕ) × (ws : List Write) × (write_loop (successes (n ∷ ns)) start chunk ret out
            ≡ saved j (out ++ ws))
          × Fills chunk start ret ws
    by_end (inl e) _ =
        (k, w ∷ [], rw (e) refl, Fills.more k (omega arith) (Fills.done (ground (arith, e))))
    by_end (inr e) go = further (go (ground (arith, e)))
      where
        further :
            (j : ℕ) × (ws : List Write) × (write_loop
                  (successes ns)
                  start
                  chunk
                  (ret + k)
                  (out ++ w ∷ [])
                ≡ saved j ((out ++ w ∷ []) ++ ws))
              × Fills chunk start (ret + k) ws
            → (j : ℕ) × (ws : List Write) × (write_loop (successes (n ∷ ns)) start chunk ret out
                ≡ saved j (out ++ ws))
              × Fills chunk start ret ws
        further (j, ws, run, f) = (
          j,
          w ∷ ws,
          rw (e) (run ∙ ap (saved j) (append_assoc out (w ∷ []) ws)),
          Fills.more k (omega arith) f,
        )

module _ (shahash : List ℕ → List ℕ) (chunk : List ℕ) (r : RecvState) (offset : ℕ) where
  -- When the receiver has counted a whole chunk, the digest of the chunk is the receiver's hash, the
  -- place in the file fits an `int`, and the calls of `write` succeed and take enough bytes in all,
  -- `reap` puts the chunk at its place in the file, without a gap, whatever the sizes of the writes.
  pub reap-Fills :
      (ns : List ℕ)
      → Holds chunk r
      → r.recv_bytesnum ≡ pos chunk_size
      → shahash chunk ≡ r.hash
      → offset * chunk_size < 2 ^ 31
      → chunk_size ≤ sum ns
      → (k : ℕ) × (ws : List Write) × (reap shahash (successes ns) r offset ≡ written k ws)
        × Fills chunk (offset * chunk_size) 0 ws
  unfolding reap check_onechunk_hash from_saved
  reap-Fills ns h full same fits enough = at (collect-all chunk r h full)
    where
      finish :
          (collect (r.npe - 1) 1 r.recv_buf [] ≡ some chunk)
          → (length chunk == chunk_size) ≡ true
          → (k : ℕ) × (ws : List Write) × (write_loop
                (successes ns)
                (offset * chunk_size)
                chunk
                0
                []
              ≡ saved k ([] ++ ws))
            × Fills chunk (offset * chunk_size) 0 ws
          → (k : ℕ) × (ws : List Write) × (reap shahash (successes ns) r offset ≡ written k ws)
            × Fills chunk (offset * chunk_size) 0 ws
      finish all long (k, ws, run, f) =
          let hashed : bytes_eq (shahash chunk) r.hash ≡ true =
            subst (λ d. bytes_eq (shahash chunk) d ≡ true) same (bytes_eq_refl (shahash chunk)) in
          let room : ltb (offset * 524288) 2147483648 ≡ true = ground (arith, fits) in
          (k, ws, rw (all, reap) (rw (long, hashed, room, run) refl), f)

      at :
          (collect (r.npe - 1) 1 r.recv_buf [] ≡ some chunk) × (length chunk ≡ chunk_size)
          → (k : ℕ) × (ws : List Write) × (reap shahash (successes ns) r offset ≡ written k ws)
            × Fills chunk (offset * chunk_size) 0 ws
      at (all, long) = finish all (ground (arith, long)) (
          write_loop-Fills chunk (offset * chunk_size) ns 0 [] (omega (arith, long))
            (omega (arith, long, enough)))

  -- When the receiver has counted a whole chunk whose digest is not the receiver's hash, `reap`
  -- says so and writes nothing.
  pub reap-bad_hash :
      (ws : List Written)
      → Holds chunk r
      → r.recv_bytesnum ≡ pos chunk_size
      → bytes_eq (shahash chunk) r.hash ≡ false
      → reap shahash ws r offset ≡ bad_hash
  unfolding reap check_onechunk_hash
  reap-bad_hash ws h full other =
      let (all, size) = collect-all chunk r h full in
      let long : (length chunk == chunk_size) ≡ true = ground (arith, size) in
      rw (all, reap) (rw (long, other) refl)
