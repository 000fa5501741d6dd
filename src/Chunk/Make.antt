-- ===== src/Chunk/Make.antt =====
-- `make_chunks` of chunk.c, and the program of make_chunks.c, which prints the list of the chunks of
-- a file. A file is read through `fread`; the digest of sha.c is `shahash`.
pub mod Blocks
pub mod Listed
use p2pdown_loader.Prelude.{
  ℕ, zero, suc, ◌+◌, ◌-◌, ◌*◌, ◌/◌, ◌%◌, ◌^◌, ◌≡◌, List, [], ◌∷◌, ◌++◌, Option, none, some, Bool,
  true, false, ltb, if◌then◌else◌, ◌>>=◌, length, take, drop, get_elem?, replicate, store, ℤ, pos,
  negsuc,
}
use p2pdown_loader.Chunk.{binary2hex}

abbrev pub bt_chunk_size : ℕ
bt_chunk_size = 512 * 1024

-- A `FILE` that is read: `fread` of single bytes, which gives what it has read. `remaining` is what
-- is there still; a short count comes at the end of the file alone.
pub record FileOps : Type 1 where
  pub File : Type 0
  pub fread : ℕ → File → List ℕ × File
  pub remaining : File → List ℕ
  pub fread-got : (n : ℕ) (fp : File) → (fread n fp).0 ≡ take n (remaining fp)
  pub fread-left : (n : ℕ) (fp : File) → remaining (fread n fp).1 ≡ drop n (remaining fp)

module _ (fs : FileOps) (shahash : List ℕ → List ℕ) where
  open fs use {File, fread}

  -- The loop of `make_chunks`, on fuel: `numchunks` hashes were stored. A hash is stored where the
  -- array has room; a store past its end is a fault.
  pub make_loop : ℕ → File → List (List ℕ) → ℕ → Option (List (List ℕ) × ℕ)
  make_loop zero fp chunk_hashes numchunks = none
  make_loop (suc fuel) fp chunk_hashes numchunks =
      let (buffer, fp') = fread bt_chunk_size fp in
      elim (ltb 0 (length buffer)) [
        | false ↦ some (chunk_hashes, numchunks)
        | true ↦ do
          chunk_hashes' ← store chunk_hashes numchunks (shahash buffer)
          make_loop fuel fp' chunk_hashes' (numchunks + 1)
      ]

  -- `make_chunks`, with the array and what it returns.
  pub make_chunks : ℕ → File → List (List ℕ) → Option (List (List ℕ) × ℕ)
  unfolding make_loop
  make_chunks fuel fp chunk_hashes = make_loop fuel fp chunk_hashes 0

abbrev pub int_max : ℕ
int_max = 2 ^ 31 - 1

-- `ceil(length / BT_CHUNK_SIZE)` in `double`, which is exact for a length that this is used for, put
-- into an `int`: a number that does not fit is a fault.
unfoldable pub ceil_chunks : ℕ → Option ℤ
ceil_chunks size =
    let n = (size + (bt_chunk_size - 1)) / bt_chunk_size in
    if ltb int_max n then none else some (pos n)

-- `get_numchunks` of the size that `stat` gives, if the file is there.
unfoldable pub get_numchunks : Option ℕ → Option ℤ
unfolding ceil_chunks
get_numchunks none = some (negsuc 0)
get_numchunks (some st_size) = ceil_chunks st_size

-- `%d` of a number that is not negative; `fuel` bounds the digits, of which there are at most as
-- many as the number plus one.
unfoldable pub decimal_digits : ℕ → ℕ → List ℕ
decimal_digits zero n = []
decimal_digits (suc fuel) n =
    let more = decimal_digits fuel (n / 10) in
    if ltb n 10 then (48 + n) ∷ [] else more ++ ((48 + n % 10) ∷ [])

unfoldable pub decimal : ℕ → List ℕ
unfolding decimal_digits
decimal n = decimal_digits (n + 1) n

-- The text of `"%d %s\n"`.
unfoldable pub chunk_line : ℕ → List ℕ → List ℕ
unfolding decimal
chunk_line i ascii = decimal i ++ (32 ∷ (ascii ++ (10 ∷ [])))

-- The loop that prints: `left` hashes from `i` on.
pub print_chunks : List (List ℕ) → ℕ → ℕ → Option (List (List ℕ))
unfolding chunk_line
print_chunks hashes i zero = some []
print_chunks hashes i (suc left) = do
  hash ← get_elem? hashes i
  lines ← print_chunks hashes (i + 1) left
  some (chunk_line i (binary2hex hash) ∷ lines)

-- How the program ends: with a message and `exit(-1)`, with the lines that it printed, or in a
-- fault.
pub data Made : Type 0 where
  exits : Made
  prints : List (List ℕ) → Made
  fault : Made

pub or_made : Option (List (List ℕ)) → Made
or_made none = Made.fault
or_made (some lines) = prints lines

module _ (fs : FileOps) (shahash : List ℕ → List ℕ) where
  open fs use {File}

  -- What follows the checks, with what `malloc` leaves in the elements of the array.
  pub list_chunks : ℕ → List ℕ → File → ℕ → Option (List (List ℕ))
  unfolding make_chunks print_chunks
  list_chunks fuel unset fp numchunks = do
    (hashes, chunks) ← make_chunks fs shahash fuel fp (replicate numchunks unset)
    print_chunks hashes 0 chunks

  -- The checks: a file that cannot be read, or whose size is not known, ends the program.
  pub check_file : ℕ → List ℕ → Option File → Option ℤ → Made
  unfolding or_made list_chunks
  check_file fuel unset fp none = Made.fault
  check_file fuel unset fp (some (negsuc _)) = exits
  check_file fuel unset none (some (pos numchunks)) = exits
  check_file fuel unset (some fp) (some (pos numchunks)) =
      or_made (list_chunks fuel unset fp numchunks)

  -- `main` of make_chunks.c; `fopen` and `stat` are the system's.
  pub main : ℕ → List ℕ → (List ℕ → Option File) → (List ℕ → Option ℕ) → List (List ℕ) → Made
  unfolding check_file get_numchunks
  main fuel unset fopen stat [] = exits
  main fuel unset fopen stat (_ ∷ []) = exits
  main fuel unset fopen stat (_ ∷ input_file ∷ _) =
      check_file fuel unset (fopen input_file) (get_numchunks (stat input_file))
