-- ===== src/Chunk.antt =====
-- chunk.c: the hexadecimal form in which hashes stand in the files of chunks.
pub mod RoundTrip
pub mod Make
use p2pdown_loader.Prelude.{
  ℕ, zero, suc, ◌+◌, ◌-◌, ◌*◌, ◌/◌, ◌%◌, max, List, [], ◌∷◌, Option, none, some, ltb, leb, ◌&&◌,
  if◌then◌else◌, ◌>>=◌,
}

-- The digits of `%x`.
unfoldable pub hex_digit : ℕ → ℕ
hex_digit n = if ltb n 10 then 48 + n else 87 + n

-- `binary2hex`: two digits for each byte, less the zero at the end.
unfoldable pub binary2hex : List ℕ → List ℕ
unfolding hex_digit
binary2hex [] = []
binary2hex (b ∷ buf) = hex_digit (b / 16) ∷ hex_digit (b % 16) ∷ binary2hex buf

-- `toupper` in the C locale.
unfoldable pub toupper : ℕ → ℕ
toupper c = if leb 97 c && leb c 122 then c - 32 else c

-- `_hex2binary` of an ASCII character: the result is a byte, so that the difference wraps around.
unfoldable pub hex2binary_digit : ℕ → ℕ
unfolding toupper
hex2binary_digit hex =
    let c = toupper hex in if leb c 57 then (c + 256 - 48) % 256 else (c + 256 - 55) % 256

-- The low `w` bits of `a | b`.
unfoldable pub bit_or : ℕ → ℕ → ℕ → ℕ
bit_or zero a b = 0
bit_or (suc w) a b = max (a % 2) (b % 2) + 2 * bit_or w (a / 2) (b / 2)

-- `hex2binary` of all the characters it is given: the last one of an odd number makes it read one
-- more, which is a fault.
unfoldable pub hex2binary : List ℕ → Option (List ℕ)
unfolding hex2binary_digit bit_or
hex2binary [] = some []
hex2binary (_ ∷ []) = none
hex2binary (high ∷ low ∷ hex) = do
  rest ← hex2binary hex
  some (bit_or 8 (hex2binary_digit high * 16) (hex2binary_digit low) ∷ rest)
