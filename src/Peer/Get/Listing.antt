-- ===== src/Peer/Get/Listing.antt =====
-- What the program of make_chunks.c prints is what `parse_hasneed_list` of hashlist.c reads.
use p2pdown_loader.Prelude.{
  ℕ, ◌+◌, ◌^◌, ◌≤◌, ◌<◌, ◌≡◌, refl, ◌∙◌, List, [], ◌∷◌, Option, some, true, ltb, lt→ltb, length,
  replicate, take-append, length-replicate, pos, arith,
}
use p2pdown_loader.Net.{Addr}
use p2pdown_loader.Chunk.{binary2hex}
use p2pdown_loader.Chunk.RoundTrip.{hex2binary-binary2hex, length-binary2hex}
use p2pdown_loader.Chunk.Make.{FileOps, get_numchunks, main, prints}
use p2pdown_loader.Chunk.Make.Blocks.{
  blocks, get_numchunks-fits, map_digest, concat, IsCut, length-blocks, make_chunks-blocks,
}
use p2pdown_loader.Chunk.Make.Listed.{
  lines_of, chunk_line-no_comment, main-prints, IsDigest, IsScan,
}
use p2pdown_loader.HashList.{Nodes, append_node, create_node}
use p2pdown_loader.Peer.Get.{
  Files, both, hash_text, add_chunk, add_line, parse_lines, parse_hasneed_list,
}

module _ {F : Type 0} where
  -- The nodes for hashes, from number `i` on, in front of those that are there.
  pub nodes_of : Files → Addr → ℕ → List (List ℕ) → Nodes F → Nodes F
  nodes_of files addr i [] list = list
  nodes_of files addr i (h ∷ hs) list =
      nodes_of files addr (i + 1) hs (create_node (files.malloc i) addr h i ∷ list)

  add_line-both :
      (files : Files) (addr : Addr) (id before n : ℕ) (h : List ℕ) (list : Nodes F)
      → IsDigest h
      → add_line files addr id before (both n (binary2hex h)) list
        ≡ some (n, create_node (files.malloc id) addr h n ∷ list)
  unfolding add_line add_chunk hash_text append_node
  add_line-both files addr id before n h list (l, b) =
      let long : length (binary2hex h) ≡ 40 = length-binary2hex h ∙ omega (arith, l) in
      let fits : ltb (length (binary2hex h)) 50 ≡ true = lt→ltb _ _ (omega (arith, long)) in
      rw (fits, take-append (binary2hex h) (replicate 40 0) 40 long, hex2binary-binary2hex h b) refl

  parse_lines-lines_of :
      (files : Files) (addr : Addr) (shahash : List ℕ → List ℕ) (bs : List (List ℕ)) (i before : ℕ)
      (list : Nodes F)
      → i + length bs ≤ 2 ^ 31
      → IsScan files.scan
      → ((bytes : List ℕ) → IsDigest (shahash bytes))
      → parse_lines files addr i before (lines_of i (map_digest shahash bs)) list
        ≡ some (nodes_of files addr i (map_digest shahash bs) list)
  unfolding parse_lines lines_of map_digest nodes_of
  parse_lines-lines_of files addr shahash [] i before list small scans digests = refl
  parse_lines-lines_of files addr shahash (b ∷ bs) i before list small scans digests =
      rw
        (
          chunk_line-no_comment i (binary2hex (shahash b)),
          scans i (shahash b) (omega arith) (digests b),
          add_line-both files addr i before i (shahash b) list (digests b),
          parse_lines,
        )
        (parse_lines-lines_of files addr shahash bs (i + 1) i
          (create_node (files.malloc i) addr (shahash b) i ∷ list) (omega arith) scans digests)

  -- A file that can be opened and whose size `stat` gives is listed by the program of
  -- make_chunks.c: it ends with the lines printed, and `parse_hasneed_list` reads those lines as a
  -- node for each block of the file, with the block's digest and its number from 0 on, the first
  -- block's node last. `sscanf` is taken to read back such a line if its number fits an `int`.
  pub parse_hasneed_list-main :
      (fs : FileOps) (shahash : List ℕ → List ℕ) (files : Files) (addr : Addr) (fuel n before : ℕ)
      (unset program name : List ℕ) (more : List (List ℕ)) (fp : fs.File)
      (fopen : List ℕ → Option fs.File) (stat : List ℕ → Option ℕ) (list : Nodes F)
      → fopen name ≡ some fp
      → stat name ≡ some (length (fs.remaining fp))
      → get_numchunks (some (length (fs.remaining fp))) ≡ some (pos n)
      → n < fuel
      → IsScan files.scan
      → ((bytes : List ℕ) → IsDigest (shahash bytes))
      → (lines : List (List ℕ)) × (main fs shahash fuel unset fopen stat (program ∷ name ∷ more)
          ≡ prints lines)
        × (parse_hasneed_list files addr before (some lines) list
            ≡ some (nodes_of files addr 0 (map_digest shahash (blocks n (fs.remaining fp))) list))
        × (length (blocks n (fs.remaining fp)) ≡ n)
        × (concat (blocks n (fs.remaining fp)) ≡ fs.remaining fp)
        × IsCut (length (fs.remaining fp)) (blocks n (fs.remaining fp))
  unfolding parse_hasneed_list
  parse_hasneed_list-main fs shahash files addr fuel n before unset program name more fp fopen stat
        list opened sized e f scans digests =
      let cut =
        make_chunks-blocks fs shahash fp n fuel (replicate n unset) e (length-replicate n unset)
          f in
      (
        lines_of 0 (map_digest shahash (blocks n (fs.remaining fp))),
        main-prints fs shahash fuel n unset program name more fp fopen stat opened sized e f,
        parse_lines-lines_of files addr shahash (blocks n (fs.remaining fp)) 0 before list
            (omega (
              arith,
              length-blocks n (fs.remaining fp),
              get_numchunks-fits (length (fs.remaining fp)) n e,
            ))
            scans digests,
        length-blocks n (fs.remaining fp),
        cut.1,
        cut.2,
      )
