-- ===== src/Chunk/Make/Listed.antt =====
-- What `make_chunks` prints is what `parse_hasneed_list` of hashlist.c reads.
use p2pdown_loader.Prelude.{
  ℕ, zero, suc, ◌+◌, ◌/◌, ◌%◌, ◌^◌, ◌<◌, ◌≡◌, refl, sym, ap, ◌∙◌, List, [], ◌∷◌, ◌++◌, Option, some,
  Bool-cases, inl, inr, false, ltb, length, get_elem?, replicate, length-replicate, append_assoc,
  length-append, pos, arith,
}
use p2pdown_loader.Chunk.{binary2hex}
use p2pdown_loader.Chunk.RoundTrip.{IsBytes}
use p2pdown_loader.Chunk.Make.{
  FileOps, decimal_digits, decimal, chunk_line, print_chunks, list_chunks, check_file, or_made,
  get_numchunks, main, prints,
}
use p2pdown_loader.Chunk.Make.Blocks.{
  blocks, map_digest, length-blocks, length-map_digest, make_chunks-blocks,
}
use p2pdown_loader.Peer.Get.{Scanned, both, is_comment}

-- A digest has the 20 bytes of SHA-1.
abbrev pub IsDigest : List ℕ → Type 0
IsDigest h = (length h ≡ 20) × IsBytes h

-- What `sscanf(line, "%d %s")` does with the lines that `printf("%d %s\n")` writes, whose number
-- is an `int`.
abbrev pub IsScan : (List ℕ → Scanned) → Type 0
IsScan scan =
    (i : ℕ) (hash : List ℕ)
    → i < 2 ^ 31
    → IsDigest hash
    → scan (chunk_line i (binary2hex hash)) ≡ both i (binary2hex hash)

decimal_digits-head :
    (fuel n : ℕ) (rest : List ℕ) → n < fuel → is_comment (decimal_digits fuel n ++ rest) ≡ false
unfolding decimal_digits is_comment
decimal_digits-head zero n rest h = absurd (omega arith)
decimal_digits-head (suc fuel) n rest h = elim (Bool-cases (ltb n 10)) [
  | inl e ↦ rw (e) (ground (arith, e))
  | inr e ↦
      let more : decimal_digits fuel (n / 10) ++ ((48 + n % 10) ∷ []) ++ rest
          ≡ decimal_digits fuel (n / 10) ++ (((48 + n % 10) ∷ []) ++ rest) =
        append_assoc (decimal_digits fuel (n / 10)) ((48 + n % 10) ∷ []) rest in
      rw (e, more) (decimal_digits-head fuel (n / 10) ((48 + n % 10) ∷ rest) (ground (arith, e)))
]

pub chunk_line-no_comment : (i : ℕ) (ascii : List ℕ) → is_comment (chunk_line i ascii) ≡ false
unfolding chunk_line decimal
chunk_line-no_comment i ascii =
    decimal_digits-head (i + 1) i (32 ∷ (ascii ++ (10 ∷ []))) (omega arith)

-- The lines for hashes, from number `i` on.
unfoldable pub lines_of : ℕ → List (List ℕ) → List (List ℕ)
lines_of i [] = []
lines_of i (h ∷ hs) = chunk_line i (binary2hex h) ∷ lines_of (i + 1) hs

get_elem-behind :
    (done : List (List ℕ)) (h : List ℕ) (hs : List (List ℕ)) (i : ℕ)
    → length done ≡ i
    → get_elem? (done ++ (h ∷ hs)) i ≡ some h
get_elem-behind [] h hs zero e = refl
get_elem-behind [] h hs (suc i) e = absurd (omega arith)
get_elem-behind (x ∷ done) h hs zero e = absurd (omega arith)
get_elem-behind (x ∷ done) h hs (suc i) e = get_elem-behind done h hs i (omega (arith, e))

print_chunks-lines_of :
    (done hs : List (List ℕ)) (i : ℕ)
    → length done ≡ i
    → print_chunks (done ++ hs) i (length hs) ≡ some (lines_of i hs)
unfolding print_chunks lines_of
print_chunks-lines_of done [] i e = refl
print_chunks-lines_of done (h ∷ hs) i e =
    let later : print_chunks (done ++ (h ∷ hs)) (i + 1) (length hs) ≡ some (lines_of (i + 1) hs) =
      ap (λ l. print_chunks l (i + 1) (length hs)) (sym (append_assoc done (h ∷ []) hs))
      ∙ print_chunks-lines_of (done ++ (h ∷ [])) hs (i + 1)
          (omega (arith, e, length-append done (h ∷ []))) in
    rw (get_elem-behind done h hs i e, later) refl

module _ (fs : FileOps) (shahash : List ℕ → List ℕ) where
  open fs use {File, remaining}

  -- The program, of a file that can be opened and whose size `stat` gives, prints the line of each
  -- block's hash, numbered from 0.
  pub main-prints :
      (fuel n : ℕ) (unset program name : List ℕ) (more : List (List ℕ)) (fp : File)
      (fopen : List ℕ → Option File) (stat : List ℕ → Option ℕ)
      → fopen name ≡ some fp
      → stat name ≡ some (length (remaining fp))
      → get_numchunks (some (length (remaining fp))) ≡ some (pos n)
      → n < fuel
      → main fs shahash fuel unset fopen stat (program ∷ name ∷ more)
        ≡ prints (lines_of 0 (map_digest shahash (blocks n (remaining fp))))
  unfolding main check_file list_chunks or_made
  main-prints fuel n unset program name more fp fopen stat opened sized e f =
      let hashes = map_digest shahash (blocks n (remaining fp)) in
      let long : length hashes ≡ n =
        length-map_digest shahash (blocks n (remaining fp)) ∙ length-blocks n (remaining fp) in
      let printed : print_chunks hashes 0 n ≡ some (lines_of 0 hashes) =
        ap (print_chunks hashes 0) (sym long) ∙ print_chunks-lines_of [] hashes 0 refl in
      rw
        (
          opened,
          sized,
          e,
          (make_chunks-blocks fs shahash fp n fuel (replicate n unset) e (length-replicate n unset)
              f).0,
          printed,
        )
        refl
