-- ===== src/Discovery/Asking.antt =====
-- What `form_WhoHas` and `WhoHas_sender` ask for.
use p2pdown_loader.Prelude.{
  ℕ, zero, suc, ◌+◌, ◌*◌, ◌%◌, ◌≤◌, ◌<◌, ◌≡◌, refl, List, [], ◌∷◌, ◌++◌, some, ◌==◌, if◌then◌else◌,
  ◌>>=◌, length, arith,
}
use p2pdown_loader.Packet.{Packet, zero_packet}
use p2pdown_loader.Packet.RoundTrip.{IsWire, wire, as_payload}
use p2pdown_loader.Net.Sent.{IsSentTo, broadcast-IsWire}
use p2pdown_loader.Net.{Datagram, BtPeer, broadcast}
use p2pdown_loader.HashList.{HashChunk, Nodes}
use p2pdown_loader.Discovery.{DownloadConn, whohas_loop, form_whohas, whohas_sender}
use p2pdown_loader.Discovery.Batches.{
  flat, IsHashes, length-flat, IsSized, wanted, Batch, whohas_loop-Batch,
}

-- The WHOHAS packet that asks for the hashes.
abbrev pub whohas_pack : List (List ℕ) → Packet
whohas_pack hs = record zero_packet {
  hd_len = 16;
  magic_num = 15441;
  version_num = 1;
  chunkhash_num = length hs;
  pack_len = 20 + length hs * 20;
  payload = some (flat hs);
}

pub some-as_payload : (body : List ℕ) → 0 < length body → some body ≡ as_payload body
some-as_payload [] h = absurd (omega arith)
some-as_payload (b ∷ bs) h = refl

pub whohas_pack-IsWire :
    (hs : List (List ℕ))
    → IsHashes hs
    → 0 < length hs
    → length hs ≤ 50
    → IsWire (whohas_pack hs) (flat hs)
whohas_pack-IsWire hs i some_there few = record {
  magic_fits = omega arith;
  hd_fits = omega arith;
  len_fits = omega arith;
  seq_fits = omega arith;
  ack_fits = omega arith;
  payload_is = some-as_payload (flat hs) (omega (arith, length-flat i));
  len_is = omega (arith, length-flat i);
  typed = λ h. absurd (omega arith);
  untagged = λ h. absurd (omega arith);
}

-- Batches of at least one and at most 50 hashes, one after the other.
pub data IsBatches : List (List ℕ) → List (List (List ℕ)) → Type 0 where
  nil : IsBatches [] []
  cons :
      {hs all : List (List ℕ)} {bs : List (List (List ℕ))}
      → 0 < length hs
      → length hs ≤ 50
      → IsHashes hs
      → IsBatches all bs
      → IsBatches (hs ++ all) (hs ∷ bs)

-- For each batch in turn, its WHOHAS packet to each of the peers but number `id`.
pub data IsSentFor (peers : List BtPeer) (id : ℕ)
    : List (List (List ℕ)) → List Datagram → Type 0 where
  nil : IsSentFor peers id [] []
  cons :
      {hs : List (List ℕ)} {bs : List (List (List ℕ))} {now later : List Datagram}
      → IsSentTo (wire (whohas_pack hs) (flat hs)) id peers now
      → IsSentFor peers id bs later
      → IsSentFor peers id (hs ∷ bs) (now ++ later)

-- A run that asks all peers but number `id` for the hashes, in batches.
abbrev pub AsksFor : List (List ℕ) → List BtPeer → ℕ → (List Datagram → Type 0) → Type 0
AsksFor all peers id Runs =
    (bs : List (List (List ℕ))) × (sent : List Datagram) × IsBatches all bs
    × IsSentFor peers id bs sent
    × Runs sent

module _ {F : Type 0} (down : DownloadConn F) where
  form_whohas-Batch :
      (list : Nodes F) (b : Batch down list 0 [] (whohas_loop down list 0 []))
      → form_whohas down list ≡ (whohas_pack b.hashes, b.rest)
  unfolding form_whohas
  form_whohas-Batch list b =
      let long : (16 + (0 + length b.hashes) * 20 + 4) % 65536 ≡ 20 + length b.hashes * 20 =
        omega (arith, b.fits) in
      let few : (0 + length b.hashes) % 256 ≡ length b.hashes = omega (arith, b.fits) in
      rw (b.out_is, long, few) refl

  whohas_sender-step :
      (fuel : ℕ) (n : HashChunk F) (list : Nodes F) (peers : List BtPeer) (id : ℕ)
      → (b : Batch down (n ∷ list) 0 [] (whohas_loop down (n ∷ list) 0 []))
      → (bs : List (List (List ℕ))) (later : List Datagram) → IsBatches (wanted down b.rest) bs
      → IsSentFor peers id bs later
      → whohas_sender fuel down b.rest peers id ≡ some later
      → AsksFor
          (wanted down (n ∷ list))
          peers
          id
          (λ sent. whohas_sender (suc fuel) down (n ∷ list) peers id ≡ some sent)
  unfolding whohas_sender
  whohas_sender-step fuel n list peers id b bs later are go run =
      rw (form_whohas-Batch (n ∷ list) b) (rw (b.all_there) (at b.hashes b.are_hashes b.fits))
    where
      at :
          (hs : List (List ℕ))
          → IsHashes hs
          → 0 + length hs ≤ 50
          → AsksFor (hs ++ wanted down b.rest) peers id (λ all.
            (if length hs == 0 then whohas_sender fuel down b.rest peers id else (do
              sent ← broadcast (whohas_pack hs) peers id
              more ← whohas_sender fuel down b.rest peers id
              some (sent ++ more)))
            ≡ some all)
      at [] i small = (bs, later, are, go, run)
      at (h ∷ hs) i small =
          let (now, out, to_all) =
            broadcast-IsWire peers id
              (whohas_pack-IsWire (h ∷ hs) i (omega arith) (omega (arith, small))) in
          (
            (h ∷ hs) ∷ bs,
            now ++ later,
            IsBatches.cons {hs = h ∷ hs} (omega arith) (omega (arith, small)) i are,
            IsSentFor.cons {hs = h ∷ hs} to_all go,
            rw (out, run) (ground arith),
          )

  -- For nodes with hashes of twenty bytes, and fuel for more rounds than the list has nodes,
  -- `WhoHas_sender` returns. It sends packets of 1 to 50 hashes each, every one to each peer but the
  -- peer itself, and their hashes one after the other are those of the list that are neither queued,
  -- asked for nor coming, in order.
  pub whohas_sender-IsBatches :
      (fuel : ℕ) (list : Nodes F) (peers : List BtPeer) (id : ℕ)
      → IsSized list
      → length list < fuel
      → AsksFor
          (wanted down list)
          peers
          id
          (λ sent. whohas_sender fuel down list peers id ≡ some sent)
  unfolding whohas_sender
  whohas_sender-IsBatches zero list peers id s enough = absurd (omega arith)
  whohas_sender-IsBatches (suc fuel) [] peers id s enough =
      ([], [], IsBatches.nil, IsSentFor.nil, refl)
  whohas_sender-IsBatches (suc fuel) (n ∷ list) peers id s enough =
      let b = whohas_loop-Batch down (n ∷ list) 0 [] s (omega arith) in
      let (bs, later, are, go, run) =
        whohas_sender-IsBatches fuel b.rest peers id b.rest_sized
          (omega (arith, b.goes_on (omega arith) (omega arith))) in
      whohas_sender-step fuel n list peers id b bs later are go run
