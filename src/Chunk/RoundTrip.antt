-- ===== src/Chunk/RoundTrip.antt =====
-- `hex2binary` reads what `binary2hex` of chunk.c writes.
use p2pdown_loader.Prelude.{
  length, ℕ, suc, ◌+◌, ◌*◌, ◌/◌, ◌%◌, ◌<◌, ◌≡◌, refl, ap, max, List, [], ◌∷◌, some, arith,
}
use p2pdown_loader.Chunk.{hex_digit, binary2hex, toupper, hex2binary_digit, bit_or, hex2binary}

pub data IsBytes : List ℕ → Type 0 where
  nil : IsBytes []
  cons : {b : ℕ} {bs : List ℕ} → b < 256 → IsBytes bs → IsBytes (b ∷ bs)

hex2binary_digit-hex_digit : (n : ℕ) → n < 16 → hex2binary_digit (hex_digit n) ≡ n
unfolding hex2binary_digit hex_digit toupper
hex2binary_digit-hex_digit n h = ground arith

bit_or-even : (w a b : ℕ) → bit_or (suc w) (2 * a) b ≡ b % 2 + 2 * bit_or w a (b / 2)
unfolding bit_or
bit_or-even w a b =
    let bit : max (2 * a % 2) (b % 2) ≡ b % 2 = omega arith in
    let half : 2 * a / 2 ≡ a = omega arith in rw (bit, half) refl

-- A number of four bits.
bit_or-nibble : (a : ℕ) → a < 16 → bit_or 4 a 0 ≡ a
unfolding bit_or
bit_or-nibble a h = omega arith

bit_or-digits : (a b : ℕ) → a < 16 → b < 16 → bit_or 8 (a * 16) b ≡ a * 16 + b
bit_or-digits a b h k =
    let doubled : a * 16 ≡ 2 * (2 * (2 * (2 * a))) = omega arith in
    let done : b / 2 / 2 / 2 / 2 ≡ 0 = omega arith in
    rw
      (
        doubled,
        bit_or-even 7 (2 * (2 * (2 * a))) b,
        bit_or-even 6 (2 * (2 * a)) (b / 2),
        bit_or-even 5 (2 * a) (b / 2 / 2),
        bit_or-even 4 a (b / 2 / 2 / 2),
        done,
        bit_or-nibble a h,
      )
      (omega arith)

-- What `_hex2binary` and `hex2binary` read is what `binary2hex` was given.
pub hex2binary-binary2hex :
    (bytes : List ℕ) → IsBytes bytes → hex2binary (binary2hex bytes) ≡ some bytes
unfolding hex2binary binary2hex
hex2binary-binary2hex [] i = refl
hex2binary-binary2hex (b ∷ bytes) (IsBytes.cons h i) =
    rw
      (
        hex2binary-binary2hex bytes i,
        hex2binary_digit-hex_digit (b / 16) (omega arith),
        hex2binary_digit-hex_digit (b % 16) (omega arith),
        bit_or-digits (b / 16) (b % 16) (omega arith) (omega arith),
      )
      (ap (λ x. some (x ∷ bytes)) {x = b / 16 * 16 + b % 16} {y = b} (omega arith))

pub length-binary2hex : (bytes : List ℕ) → length (binary2hex bytes) ≡ length bytes * 2
unfolding binary2hex
length-binary2hex [] = refl
length-binary2hex (b ∷ bytes) = omega (arith, length-binary2hex bytes)
