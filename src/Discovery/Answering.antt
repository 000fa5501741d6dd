-- ===== src/Discovery/Answering.antt =====
-- What `form_IHav` and `IHav_sender` answer.
use p2pdown_loader.Prelude.{
  ℕ, zero, suc, ◌+◌, ◌*◌, ◌%◌, ◌≤◌, ◌<◌, ◌≡◌, Option-cases, slice-short, refl, ap, ap₂, sym, ◌∙◌,
  List, [], ◌∷◌, ◌++◌, Option, none, some, Bool, true, false, ltb, ltb→lt, if◌then◌else◌, ◌>>=◌,
  ◌>>◌, guard, length, arith, Bool-cases, inl, inr, ◌⊎◌, length-append, append-nil, append_assoc,
  slice, slice-append,
}
use p2pdown_loader.Packet.{Packet, zero_packet}
use p2pdown_loader.Packet.RoundTrip.{IsWire, wire}
use p2pdown_loader.Net.{Addr, send_pack}
use p2pdown_loader.Net.Sent.{send_pack-IsWire}
use p2pdown_loader.HashList.{Nodes, find_node}
use p2pdown_loader.Discovery.{is_some, ihav_loop, form_ihav, ihav_sender}
use p2pdown_loader.Discovery.Batches.{flat, IsHashes, length-flat}
use p2pdown_loader.Discovery.Asking.{some-as_payload}

-- The IHAVE packet with the hashes.
abbrev pub ihav_pack : List (List ℕ) → Packet
ihav_pack hs = record zero_packet {
  packet_type = 1;
  hd_len = 16;
  magic_num = 15441;
  version_num = 1;
  chunkhash_num = length hs;
  pack_len = 20 + length hs * 20;
  payload = some (flat hs);
}

pub ihav_pack-IsWire :
    (hs : List (List ℕ))
    → IsHashes hs
    → 0 < length hs
    → length hs ≤ 50
    → IsWire (ihav_pack hs) (flat hs)
ihav_pack-IsWire hs i some_there few = record {
  magic_fits = omega arith;
  hd_fits = omega arith;
  len_fits = omega arith;
  seq_fits = omega arith;
  ack_fits = omega arith;
  payload_is = some-as_payload (flat hs) (omega (arith, length-flat i));
  len_is = omega (arith, length-flat i);
  typed = λ h. absurd (omega arith);
  untagged = λ h. absurd (omega arith);
}

guard_none : (b : Bool) → ◌≡◌ {A = Option (ℕ × List ℕ)} (guard b >> none) none
guard_none true = refl
guard_none false = refl

module _ {F : Type 0} (haslist : Nodes F) where
  -- The hashes of those that are asked for whose chunks are there.
  abbrev pub held : List (List ℕ) → List (List ℕ)
  held [] = []
  held (h ∷ hs) = if is_some (find_node haslist h) then h ∷ held hs else held hs

  pub held-IsHashes : {hs : List (List ℕ)} → IsHashes hs → IsHashes (held hs)
  held-IsHashes IsHashes.nil = IsHashes.nil
  held-IsHashes (IsHashes.cons {h} {hs} e i) =
      at (held-IsHashes i) (Bool-cases (is_some (find_node haslist h)))
    where
      at :
          IsHashes (held hs)
          → (is_some (find_node haslist h) ≡ true) ⊎ (is_some (find_node haslist h) ≡ false)
          → IsHashes (held (h ∷ hs))
      at k (inl found) = rw (found) (IsHashes.cons e k)
      at k (inr missing) = rw (missing) k

  pub length-held : (hs : List (List ℕ)) → length (held hs) ≤ length hs
  length-held [] = omega arith
  length-held (h ∷ hs) = ground (arith, length-held hs)

  ihav_loop-held :
      (done : List ℕ) (hs : List (List ℕ)) (count len : ℕ) (pload : List ℕ)
      → IsHashes hs
      → length done ≡ count * 20
      → len + length hs ≤ 50
      → ihav_loop (length hs) count (some (done ++ flat hs)) haslist len pload
        ≡ some (len + length (held hs), pload ++ flat (held hs))
  unfolding ihav_loop
  ihav_loop-held done [] count len pload IsHashes.nil at few =
      ap₂ (λ n b. some (n, b)) {x = len} {y = len + 0} (omega arith) (sym (append-nil pload))
  ihav_loop-held done (h ∷ hs) count len pload (IsHashes.cons e i) at few =
      rw (slice-append done h (flat hs) (count * 20) 20 at e) (
        by_found (Bool-cases (is_some (find_node haslist h))) (λ n q few'.
          ap (λ b. ihav_loop (length hs) (count + 1) (some b) haslist n q)
            (sym (append_assoc done h (flat hs)))
          ∙ ihav_loop-held (done ++ h) hs (count + 1) n q i (omega (arith, length-append done h))
              few'))
    where
      by_found :
          (is_some (find_node haslist h) ≡ true) ⊎ (is_some (find_node haslist h) ≡ false)
          → ((n : ℕ) (q : List ℕ)
              → n + length hs ≤ 50
              → ihav_loop (length hs) (count + 1) (some (done ++ (h ++ flat hs))) haslist n q
                ≡ some (n + length (held hs), q ++ flat (held hs)))
          → (guard (if is_some (find_node haslist h) then ltb len 50 else true)
              >> ihav_loop
                  (length hs)
                  (count + 1)
                  (some (done ++ (h ++ flat hs)))
                  haslist
                  (if is_some (find_node haslist h) then len + 1 else len)
                  (if is_some (find_node haslist h) then pload ++ h else pload))
            ≡ some (len + length (held (h ∷ hs)), pload ++ flat (held (h ∷ hs)))
      by_found (inr missing) go = rw (missing) (go len pload (omega arith))
      by_found (inl found) go =
          let room : ltb len 50 ≡ true = ground arith in
          rw (found, room, go (len + 1) (pload ++ h) (omega arith))
            (ap₂ (λ n b. some (n, b)) {x = len + 1 + length (held hs)}
              {y = len + suc (length (held hs))} (omega arith)
              (append_assoc pload h (flat (held hs))))

  -- More hashes than the payload holds are read past its end.
  ihav_loop-faults :
      (left count : ℕ) (body : List ℕ) (len : ℕ) (pload : List ℕ)
      → length body < (count + left) * 20
      → count * 20 ≤ length body
      → ihav_loop left count (some body) haslist len pload ≡ none
  unfolding ihav_loop
  ihav_loop-faults zero count body len pload short inside = absurd (omega arith)
  ihav_loop-faults (suc left) count body len pload short inside =
      by_slice (Option-cases (slice body (count * 20) 20))
        (Bool-cases (ltb (length body) (count * 20 + 20)))
        (λ n q in_reach. ihav_loop-faults left (count + 1) body n q (omega arith) in_reach)
    where
      by_slice :
          (slice body (count * 20) 20 ≡ none)
            ⊎ ((h : List ℕ) × (slice body (count * 20) 20 ≡ some h))
          → (ltb (length body) (count * 20 + 20) ≡ true)
            ⊎ (ltb (length body) (count * 20 + 20) ≡ false)
          → ((n : ℕ) (q : List ℕ)
              → (count + 1) * 20 ≤ length body
              → ihav_loop left (count + 1) (some body) haslist n q ≡ none)
          → (do
            find_hash ← slice body (count * 20) 20
            let found = is_some (find_node haslist find_hash)
            guard (if found then ltb len 50 else true)
            ihav_loop left
                (count + 1)
                (some body)
                haslist
                (if found then len + 1 else len)
                (if found then pload ++ find_hash else pload))
            ≡ none
      by_slice (inl e) _ _ = rw (e) refl
      by_slice (inr (h, e)) (inl out) _ =
          rw (slice-short body (count * 20) 20 (ltb→lt (length body) (count * 20 + 20) out)) refl
      by_slice (inr (h, e)) (inr inner) go = rw (e) (
          rw
            (go (if is_some (find_node haslist h) then len + 1 else len)
              (if is_some (find_node haslist h) then pload ++ h else pload) (ground arith))
            (guard_none (if is_some (find_node haslist h) then ltb len 50 else true)))

  -- A WHOHAS packet with at most 50 hashes is answered with those that are there, in its order.
  pub form_ihav-held :
      (whohas : Packet) (hs : List (List ℕ))
      → IsHashes hs
      → length hs ≤ 50
      → whohas.chunkhash_num ≡ length hs
      → whohas.payload ≡ some (flat hs)
      → form_ihav whohas haslist ≡ some (ihav_pack (held hs))
  unfolding form_ihav
  form_ihav-held whohas hs i few e pay =
      let long : (16 + (0 + length (held hs)) * 20 + 4) % 65536 ≡ 20 + length (held hs) * 20 =
        omega (arith, length-held hs) in
      let small : (0 + length (held hs)) % 256 ≡ length (held hs) = omega (arith, length-held hs) in
      rw (e, pay, ihav_loop-held [] hs 0 0 [] i (omega arith) (omega arith), long, small) refl

  -- A WHOHAS packet that carries as many hashes of twenty bytes as it counts, at most 50, is
  -- answered by one packet with those of the hashes whose chunks are there, in the same order, and
  -- by nothing if none is there; the call never fails.
  pub ihav_sender-held :
      (whohas : Packet) (hs : List (List ℕ)) (to : Addr)
      → IsHashes hs
      → length hs ≤ 50
      → whohas.chunkhash_num ≡ length hs
      → whohas.payload ≡ some (flat hs)
      → ihav_sender whohas haslist to
        ≡ some (
            if ltb 0 (length (held hs))
            then record { to = to; bytes = wire (ihav_pack (held hs)) (flat (held hs)) } ∷ []
            else [])
  unfolding ihav_sender
  ihav_sender-held whohas hs to i few e pay =
      rw (form_ihav-held whohas hs i few e pay) (at (held hs) (held-IsHashes i) (length-held hs))
    where
      at :
          (known : List (List ℕ))
          → IsHashes known
          → length known ≤ length hs
          → (if ltb 0 (length known)
              then (do sent ← send_pack (ihav_pack known) to; some (sent ∷ []))
              else some [])
            ≡ some (
                if ltb 0 (length known)
                then record { to = to; bytes = wire (ihav_pack known) (flat known) } ∷ []
                else [])
      at [] k fits = ground arith
      at (h ∷ known) k fits =
          rw
            (send_pack-IsWire to
              (ihav_pack-IsWire (h ∷ known) k (omega arith) (omega (arith, fits))))
            (ground arith)

  -- `form_IHav` reads past the payload of a packet that counts more hashes than it carries.
  pub form_ihav-faults :
      (whohas : Packet) (body : List ℕ)
      → whohas.payload ≡ some body
      → length body < whohas.chunkhash_num * 20
      → form_ihav whohas haslist ≡ none
  unfolding form_ihav
  form_ihav-faults whohas body pay short =
      simp (pay, ihav_loop-faults whohas.chunkhash_num 0 body 0 [] (omega arith) (omega arith))
