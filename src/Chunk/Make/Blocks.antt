-- ===== src/Chunk/Make/Blocks.antt =====
-- The hashes that `make_chunks` of chunk.c stores: one for each block of a file, and no more than
-- `get_numchunks` of make_chunks.c makes room for.
use p2pdown_loader.Prelude.{
  ℕ, zero, suc, ◌+◌, ◌-◌, ◌*◌, ◌/◌, ◌^◌, ◌<◌, ◌≤◌, ◌≡◌, refl, subst, ap, ap₂, ◌∙◌, List, [], ◌∷◌,
  ◌++◌, some, true, false, ltb, lt→ltb, length, take, drop, set, store, length-append, length-take,
  length-drop, take-append-drop, append_assoc, pos, arith,
}
use p2pdown_loader.Chunk.Make.{
  FileOps, bt_chunk_size, make_loop, make_chunks, ceil_chunks, get_numchunks,
}

-- The number of blocks of so many bytes.
abbrev pub count : ℕ → ℕ
count size = (size + (bt_chunk_size - 1)) / bt_chunk_size

-- The first `n` blocks.
pub blocks : ℕ → List ℕ → List (List ℕ)
blocks zero bytes = []
blocks (suc n) bytes = take bt_chunk_size bytes ∷ blocks n (drop bt_chunk_size bytes)

unfoldable pub map_digest : (List ℕ → List ℕ) → List (List ℕ) → List (List ℕ)
map_digest shahash [] = []
map_digest shahash (b ∷ bs) = shahash b ∷ map_digest shahash bs

pub concat : List (List ℕ) → List ℕ
concat [] = []
concat (b ∷ bs) = b ++ concat bs

get_numchunks-count : (size n : ℕ) → get_numchunks (some size) ≡ some (pos n) → count size ≡ n
unfolding get_numchunks ceil_chunks
get_numchunks-count size n e = ground arith

-- The number of chunks fits an `int`.
pub get_numchunks-fits : (size n : ℕ) → get_numchunks (some size) ≡ some (pos n) → n < 2 ^ 31
unfolding get_numchunks ceil_chunks
get_numchunks-fits size n e = ground arith

set-next :
    (done rest : List (List ℕ)) (i : ℕ) (old h : List ℕ)
    → length done ≡ i
    → set (done ++ (old ∷ rest)) i h ≡ (done ++ (h ∷ [])) ++ rest
set-next [] rest zero old h e = refl
set-next [] rest (suc i) old h e = absurd (omega arith)
set-next (x ∷ done) rest zero old h e = absurd (omega arith)
set-next (x ∷ done) rest (suc i) old h e =
    ap (λ l. x ∷ l) (set-next done rest i old h (omega (arith, e)))

-- The hash of a block goes behind the hashes that are there.
store-next :
    (done rest : List (List ℕ)) (i : ℕ) (old h : List ℕ)
    → length done ≡ i
    → store (done ++ (old ∷ rest)) i h ≡ some ((done ++ (h ∷ [])) ++ rest)
store-next done rest i old h e =
    let inside : ltb i (length (done ++ (old ∷ rest))) ≡ true =
      lt→ltb _ _ (omega (arith, e, length-append done (old ∷ rest))) in
    rw (inside) (ap some (set-next done rest i old h e))

pub concat-blocks :
    (n : ℕ) (bytes : List ℕ) → length bytes ≤ n * bt_chunk_size → concat (blocks n bytes) ≡ bytes
unfolding concat blocks
concat-blocks zero [] h = refl
concat-blocks zero (b ∷ bytes) h = absurd (omega arith)
concat-blocks (suc n) bytes h =
    let rest =
      concat-blocks n (drop bt_chunk_size bytes)
        (rw (length-drop bt_chunk_size bytes) (omega arith)) in
    rw (rest) (take-append-drop bt_chunk_size bytes)

pub length-blocks : (n : ℕ) (bytes : List ℕ) → length (blocks n bytes) ≡ n
unfolding blocks
length-blocks zero bytes = refl
length-blocks (suc n) bytes = ap suc (length-blocks n (drop bt_chunk_size bytes))

pub length-map_digest :
    (shahash : List ℕ → List ℕ) (bs : List (List ℕ)) → length (map_digest shahash bs) ≡ length bs
unfolding map_digest
length-map_digest shahash [] = refl
length-map_digest shahash (b ∷ bs) = ap suc (length-map_digest shahash bs)

-- Blocks of so many bytes altogether: each has 512 KB, but the last, which is not empty.
pub data IsCut : ℕ → List (List ℕ) → Type 0 where
  nil : {size : ℕ} → size ≡ 0 → IsCut size []
  last :
      {size : ℕ} {b : List ℕ}
      → length b ≡ size
      → 0 < size
      → size ≤ bt_chunk_size
      → IsCut size (b ∷ [])
  full :
      {size : ℕ} {b : List ℕ} {bs : List (List ℕ)}
      → length b ≡ bt_chunk_size
      → bt_chunk_size < size
      → IsCut (size - bt_chunk_size) bs
      → IsCut size (b ∷ bs)

blocks-IsCut :
    (n : ℕ) (bytes : List ℕ) → count (length bytes) ≡ n → IsCut (length bytes) (blocks n bytes)
unfolding blocks
blocks-IsCut zero bytes c = IsCut.nil (omega (arith, c))
blocks-IsCut (suc zero) bytes c =
    IsCut.last (rw (length-take bt_chunk_size bytes) (omega (arith, c))) (omega (arith, c))
      (omega (arith, c))
blocks-IsCut (suc (suc n)) bytes c =
    let left : length (drop bt_chunk_size bytes) ≡ length bytes - bt_chunk_size =
      length-drop bt_chunk_size bytes in
    IsCut.full (rw (length-take bt_chunk_size bytes) (omega (arith, c))) (omega (arith, c)) (
      subst (λ k. IsCut k (blocks (suc n) (drop bt_chunk_size bytes))) left
        (blocks-IsCut (suc n) (drop bt_chunk_size bytes) (rw (left) (omega (arith, c)))))

module _ (fs : FileOps) (shahash : List ℕ → List ℕ) where
  open fs use {File, fread, remaining, fread-got, fread-left}

  make_loop-blocks :
      (n fuel : ℕ) (fp : File) (done rest : List (List ℕ)) (i : ℕ)
      → count (length (remaining fp)) ≡ n
      → length done ≡ i
      → length rest ≡ n
      → n < fuel
      → make_loop fs shahash fuel fp (done ++ rest) i
        ≡ some (done ++ map_digest shahash (blocks n (remaining fp)), i + n)
  unfolding make_loop blocks map_digest
  make_loop-blocks n zero fp done rest i c d r f = absurd (omega arith)
  make_loop-blocks zero (suc fuel) fp done (x ∷ rest) i c d r f = absurd (omega arith)
  make_loop-blocks zero (suc fuel) fp done [] i c d r f =
      let ended : ltb 0 (length (fread bt_chunk_size fp).0) ≡ false =
        rw (fread-got bt_chunk_size fp, length-take bt_chunk_size (remaining fp))
          (ground (arith, c)) in
      rw (ended, make_loop) (ap (λ k. some (done ++ [], k)) {x = i} {y = i + 0} (omega arith))
  make_loop-blocks (suc n) (suc fuel) fp done [] i c d r f = absurd (omega arith)
  make_loop-blocks (suc n) (suc fuel) fp done (old ∷ rest) i c d r f =
      let more : ltb 0 (length (fread bt_chunk_size fp).0) ≡ true =
        rw (fread-got bt_chunk_size fp, length-take bt_chunk_size (remaining fp))
          (ground (arith, c)) in
      let h = shahash (take bt_chunk_size (remaining fp)) in
      let later : make_loop fs shahash fuel (fread bt_chunk_size fp).1 ((done ++ (h ∷ [])) ++ rest)
            (i + 1)
          ≡ some (
            (done ++ (h ∷ []))
                ++ map_digest shahash (blocks n (remaining (fread bt_chunk_size fp).1)),
            i + 1 + n,
          ) =
        make_loop-blocks n fuel (fread bt_chunk_size fp).1 (done ++ (h ∷ [])) rest (i + 1)
          (rw (fread-left bt_chunk_size fp, length-drop bt_chunk_size (remaining fp))
            (omega (arith, c)))
          (omega (arith, d, length-append done (h ∷ []))) (omega (arith, r)) (omega arith) in
      rw
        (
          more,
          fread-got bt_chunk_size fp,
          store-next done rest i old h d,
          later,
          fread-left bt_chunk_size fp,
          make_loop,
        )
        (ap₂ (λ l k. some (l, k))
          (append_assoc done (h ∷ [])
            (map_digest shahash (blocks n (drop bt_chunk_size (remaining fp)))))
          (omega arith))

  -- An array of as many hashes as `get_numchunks` says, of the same file, is filled to its end by
  -- `make_chunks`, which stores nothing past it: the hashes are those of the blocks of the file, the
  -- blocks joined together are the file, and each has 512 KB but the last, which is not empty.
  pub make_chunks-blocks :
      (fp : File) (n fuel : ℕ) (array : List (List ℕ))
      → get_numchunks (some (length (remaining fp))) ≡ some (pos n)
      → length array ≡ n
      → n < fuel
      → (make_chunks fs shahash fuel fp array
          ≡ some (map_digest shahash (blocks n (remaining fp)), n))
        × (concat (blocks n (remaining fp)) ≡ remaining fp)
        × IsCut (length (remaining fp)) (blocks n (remaining fp))
  unfolding make_chunks
  make_chunks-blocks fp n fuel array e l f =
      let c = get_numchunks-count (length (remaining fp)) n e in
      (
        make_loop-blocks n fuel fp [] array 0 c refl l f
            ∙ ap (λ k. some (map_digest shahash (blocks n (remaining fp)), k)) {x = 0 + n} {y = n}
                (omega arith),
        concat-blocks n (remaining fp) (omega (arith, c)),
        blocks-IsCut n (remaining fp) c,
      )
