-- ===== src/Discovery/Batches.antt =====
-- The hashes that `form_WhoHas` puts into one packet.
use p2pdown_loader.Prelude.{
  Option, none, some, ◌||◌, ℕ, suc, ◌+◌, ◌*◌, ◌≤◌, ◌<◌, ◌≡◌, refl, ap, ap₂, sym, ◌∙◌, List, [], ◌∷◌,
  ◌++◌, true, false, ltb, ltb→lt, length, arith, Bool-cases, inl, inr, ◌⊎◌, length-append,
  append-nil, append_assoc,
}
use p2pdown_loader.HashList.{HashChunk, Nodes, find_node}
use p2pdown_loader.Discovery.{is_some, DownloadConn, in_hand, whohas_loop}

abbrev pub flat : List (List ℕ) → List ℕ
flat [] = []
flat (h ∷ hs) = h ++ flat hs

-- Hashes of twenty bytes.
pub data IsHashes : List (List ℕ) → Type 0 where
  nil : IsHashes []
  cons : {h : List ℕ} {hs : List (List ℕ)} → length h ≡ 20 → IsHashes hs → IsHashes (h ∷ hs)

pub length-flat : {hs : List (List ℕ)} → IsHashes hs → length (flat hs) ≡ length hs * 20
length-flat nil = refl
length-flat (IsHashes.cons {h} {hs} e i) = omega (arith, length-append h (flat hs), length-flat i)

-- Nodes whose hashes have twenty bytes.
pub data IsSized {F : Type 0} : Nodes F → Type 0 where
  nil : IsSized []
  cons : {n : HashChunk F} {list : Nodes F} → length n.hash ≡ 20 → IsSized list → IsSized (n ∷ list)

-- A hash in front of others, unless one of three lookups has found it.
abbrev pub unless_found :
    {F : Type 0}
    → (queued sent coming : Option (HashChunk F)) → List ℕ
    → List (List ℕ)
    → List (List ℕ)
unless_found none none none h hs = h ∷ hs
unless_found none none (some _) h hs = hs
unless_found none (some _) coming h hs = hs
unless_found (some _) sent coming h hs = hs

found-true :
    {F : Type 0} (a b c : Option (HashChunk F)) (h : List ℕ) (hs : List (List ℕ))
    → (is_some a || is_some b || is_some c) ≡ true
    → unless_found a b c h hs ≡ hs
found-true none none none h hs e = absurd (ground (arith, e))
found-true none none (some _) h hs e = refl
found-true none (some _) c h hs e = refl
found-true (some _) b c h hs e = refl

found-false :
    {F : Type 0} (a b c : Option (HashChunk F)) (h : List ℕ) (hs : List (List ℕ))
    → (is_some a || is_some b || is_some c) ≡ false
    → unless_found a b c h hs ≡ h ∷ hs
found-false none none none h hs e = refl
found-false none none (some _) h hs e = absurd (ground (arith, e))
found-false none (some _) c h hs e = absurd (ground (arith, e))
found-false (some _) b c h hs e = absurd (ground (arith, e))

module _ {F : Type 0} (down : DownloadConn F) where
  -- The hashes of a list that are neither queued, nor asked for, nor coming in, in order.
  abbrev pub wanted : Nodes F → List (List ℕ)
  wanted [] = []
  wanted (n ∷ list) =
      unless_found (find_node down.get_tosend_quene n.hash) (find_node down.get_sent_list n.hash)
        (find_node down.downloading_list n.hash) n.hash (wanted list)

  wanted-known :
      (n : HashChunk F) (list : Nodes F)
      → in_hand down n.hash ≡ true
      → wanted (n ∷ list) ≡ wanted list
  unfolding in_hand
  wanted-known n list e =
      found-true (find_node down.get_tosend_quene n.hash) (find_node down.get_sent_list n.hash)
        (find_node down.downloading_list n.hash) n.hash (wanted list) e

  wanted-new :
      (n : HashChunk F) (list : Nodes F)
      → in_hand down n.hash ≡ false
      → wanted (n ∷ list) ≡ n.hash ∷ wanted list
  unfolding in_hand
  wanted-new n list e =
      found-false (find_node down.get_tosend_quene n.hash) (find_node down.get_sent_list n.hash)
        (find_node down.downloading_list n.hash) n.hash (wanted list) e

  -- What the loop of `form_WhoHas` leaves, with `count` hashes before it.
  pub record Batch (list : Nodes F) (count : ℕ) (pload : List ℕ) (out : ℕ × List ℕ × Nodes F)
      : Type 0 where
    pub hashes : List (List ℕ)
    pub are_hashes : IsHashes hashes
    pub rest : Nodes F
    pub rest_sized : IsSized rest
    pub out_is : out ≡ (count + length hashes, pload ++ flat hashes, rest)
    pub all_there : wanted list ≡ hashes ++ wanted rest
    pub fits : count + length hashes ≤ 50
    pub shorter : length rest ≤ length list
    pub goes_on : (0 < length list) → count < 50 → length rest < length list

  Batch-stop :
      (list : Nodes F) (count : ℕ) (pload : List ℕ)
      → IsSized list
      → count ≤ 50
      → (count < 50 → list ≡ [])
      → Batch list count pload (count, pload, list)
  Batch-stop list count pload s small stop = record {
    hashes = [];
    are_hashes = IsHashes.nil;
    rest = list;
    rest_sized = s;
    out_is =
        ap₂ (λ c b. (c, b, list)) {x = count} {y = count + 0} (omega arith)
          (sym (append-nil pload));
    all_there = refl;
    fits = omega arith;
    shorter = omega arith;
    goes_on = λ h k. absurd (omega (arith, ap length (stop k)));
  }

  pub whohas_loop-Batch :
      (list : Nodes F) (count : ℕ) (pload : List ℕ)
      → IsSized list
      → count ≤ 50
      → Batch list count pload (whohas_loop down list count pload)
  unfolding whohas_loop
  whohas_loop-Batch [] count pload s small = Batch-stop [] count pload s small (λ _. refl)
  whohas_loop-Batch (n ∷ list) count pload (IsSized.cons e s) small =
      at (Bool-cases (ltb count 50)) (Bool-cases (in_hand down n.hash))
        (λ h. whohas_loop-Batch list count pload s small)
        (λ h. whohas_loop-Batch list (count + 1) (pload ++ n.hash) s (omega arith))
    where
      at :
          (ltb count 50 ≡ true) ⊎ (ltb count 50 ≡ false)
          → (in_hand down n.hash ≡ true) ⊎ (in_hand down n.hash ≡ false)
          → (count < 50 → Batch list count pload (whohas_loop down list count pload))
          → (count < 50
              → Batch list
                  (count + 1)
                  (pload ++ n.hash)
                  (whohas_loop down list (count + 1) (pload ++ n.hash)))
          → Batch (n ∷ list) count pload (whohas_loop down (n ∷ list) count pload)
      at (inr full) _ _ _ =
          rw (full) (
            Batch-stop (n ∷ list) count pload (IsSized.cons e s) small (λ k. absurd (ground arith)))
      at (inl room) (inl known) skip _ =
          let b = skip (ltb→lt count 50 room) in
          record {
            hashes = b.hashes;
            are_hashes = b.are_hashes;
            rest = b.rest;
            rest_sized = b.rest_sized;
            out_is = rw (room, known) b.out_is;
            all_there = wanted-known n list known ∙ b.all_there;
            fits = b.fits;
            shorter = omega (arith, b.shorter);
            goes_on = λ _ _. omega (arith, b.shorter);
          }
      at (inl room) (inr new) _ ask =
          let b = ask (ltb→lt count 50 room) in
          record {
            hashes = n.hash ∷ b.hashes;
            are_hashes = IsHashes.cons e b.are_hashes;
            rest = b.rest;
            rest_sized = b.rest_sized;
            out_is =
                rw (room, new)
                  (b.out_is
                    ∙ ap₂ (λ c p. (c, p, b.rest)) {x = count + 1 + length b.hashes}
                        {y = count + suc (length b.hashes)} (omega arith)
                        (append_assoc pload n.hash (flat b.hashes)));
            all_there = wanted-new n list new ∙ ap (λ t. n.hash ∷ t) b.all_there;
            fits = omega (arith, b.fits);
            shorter = omega (arith, b.shorter);
            goes_on = λ _ _. omega (arith, b.shorter);
          }
