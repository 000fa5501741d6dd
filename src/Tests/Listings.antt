-- ===== src/Tests/Listings.antt =====
-- A file of six bytes is listed by `make_chunks`, and the list is read.
use p2pdown_loader.Prelude.{
  ℕ, zero, suc, ◌+◌, ◌-◌, ◌*◌, ◌/◌, ◌%◌, ◌<◌, ◌≡◌, refl, ap, List, [], ◌∷◌, ◌++◌, some, false, ltb,
  if◌then◌else◌, Bool-cases, inl, inr, length, take, drop, replicate, append_assoc, pos, arith,
}
use p2pdown_loader.Net.{Addr}
use p2pdown_loader.Chunk.{hex_digit, binary2hex}
use p2pdown_loader.Chunk.RoundTrip.{IsBytes}
use p2pdown_loader.Chunk.Make.{
  FileOps, decimal_digits, decimal, chunk_line, ceil_chunks, get_numchunks, main, prints,
}
use p2pdown_loader.Chunk.Make.Blocks.{blocks, map_digest, concat, IsCut}
use p2pdown_loader.Chunk.Make.Listed.{IsDigest, IsScan}
use p2pdown_loader.HashList.{Nodes}
use p2pdown_loader.Peer.Get.{Files, Scanned, both, parse_hasneed_list}
use p2pdown_loader.Peer.Get.Listing.{nodes_of, parse_hasneed_list-main}

-- A file is the bytes that are left of it.
abbrev bytes_file : FileOps
bytes_file = record {
  File = List ℕ;
  fread = λ n fp. (take n fp, drop n fp);
  remaining = λ fp. fp;
  fread-got = λ n fp. refl;
  fread-left = λ n fp. refl;
}

-- `sscanf` of a number and a word.
read_number : ℕ → List ℕ → ℕ × List ℕ
read_number n [] = (n, [])
read_number n (c ∷ text) =
    let more = read_number (n * 10 + (c - 48)) text in if ltb c 48 then (n, text) else more

read_word : List ℕ → List ℕ
read_word [] = []
read_word (c ∷ text) = if ltb c 33 then [] else c ∷ read_word text

scan_line : List ℕ → Scanned
scan_line text = let (n, rest) = read_number 0 text in both n (read_word rest)

read_number-decimal :
    (fuel n : ℕ) (rest : List ℕ)
    → n < fuel
    → read_number 0 (decimal_digits fuel n ++ rest) ≡ read_number n rest
unfolding decimal_digits read_number
read_number-decimal zero n rest h = absurd (omega arith)
read_number-decimal (suc fuel) n rest h = elim (Bool-cases (ltb n 10)) [
  | inl e ↦
      let digit : ltb (48 + n) 48 ≡ false = ground arith in
      rw (e, digit) (ap (λ k. read_number k rest) {y = n} (omega arith))
  | inr e ↦
      let digit : ltb (48 + n % 10) 48 ≡ false = ground arith in
      rw
        (
          e,
          append_assoc (decimal_digits fuel (n / 10)) ((48 + n % 10) ∷ []) rest,
          read_number-decimal fuel (n / 10) ((48 + n % 10) ∷ rest) (ground (arith, e)),
          digit,
        )
        (ap (λ k. read_number k rest) {y = n} (omega arith))
]

hex_digit-printed : (n : ℕ) → ltb (hex_digit n) 33 ≡ false
unfolding hex_digit
hex_digit-printed n = ground arith

read_word-binary2hex : (h : List ℕ) → read_word (binary2hex h ++ (10 ∷ [])) ≡ binary2hex h
unfolding read_word binary2hex
read_word-binary2hex [] = refl
read_word-binary2hex (b ∷ h) =
    rw (hex_digit-printed (b / 16), hex_digit-printed (b % 16), read_word-binary2hex h) refl

scan_line-IsScan : IsScan scan_line
unfolding scan_line chunk_line decimal read_number
scan_line-IsScan i hash small d =
    rw
      (
        read_number-decimal (i + 1) i (32 ∷ (binary2hex hash ++ (10 ∷ []))) (omega arith),
        read_number,
      )
      (ap (both i) (read_word-binary2hex hash))

-- A digest of twenty bytes.
digest : List ℕ → List ℕ
digest bytes = (length bytes % 256) ∷ replicate 19 7

replicate-IsBytes : (n : ℕ) → IsBytes (replicate n 7)
replicate-IsBytes zero = IsBytes.nil
replicate-IsBytes (suc n) = IsBytes.cons (omega arith) (replicate-IsBytes n)

digest-IsDigest : (bytes : List ℕ) → IsDigest (digest bytes)
unfolding digest
digest-IsDigest bytes = (refl, IsBytes.cons (omega arith) (replicate-IsBytes 19))

abbrev here : Addr
here = record { ip = 2130706433; port = 2222 }

abbrev files : Files
files = record { scan = scan_line; malloc = λ n. n + 1000 }

abbrev bytes : List ℕ
bytes = 1 ∷ 2 ∷ 3 ∷ 4 ∷ 5 ∷ 6 ∷ []

one_chunk : get_numchunks (some 6) ≡ some (pos 1)
unfolding get_numchunks ceil_chunks
one_chunk = refl

-- A file of two chunks and a byte.
three_chunks : get_numchunks (some 1048577) ≡ some (pos 3)
unfolding get_numchunks ceil_chunks
three_chunks = refl

chunk_line_12 : chunk_line 12 (97 ∷ []) ≡ 49 ∷ 50 ∷ 32 ∷ 97 ∷ 10 ∷ []
unfolding chunk_line decimal decimal_digits
chunk_line_12 = refl

abbrev listed : Nodes ℕ
listed = nodes_of files here 0 (map_digest digest (blocks 1 bytes)) []

parse_hasneed_list-main_example :
    (lines : List (List ℕ)) × (main bytes_file digest 2 []
        (λ name. some bytes)
        (λ name. some 6)
        ((109 ∷ []) ∷ (102 ∷ []) ∷ [])
      ≡ prints lines)
    × (parse_hasneed_list files here 0 (some lines) [] ≡ some listed)
    × (length (blocks 1 bytes) ≡ 1)
    × (concat (blocks 1 bytes) ≡ bytes)
    × IsCut 6 (blocks 1 bytes)
parse_hasneed_list-main_example =
    parse_hasneed_list-main bytes_file digest files here 2 1 0 [] (109 ∷ []) (102 ∷ []) [] bytes
      (λ name. some bytes) (λ name. some 6) [] refl refl one_chunk (omega arith) scan_line-IsScan
      digest-IsDigest
