-- ===== src/Prelude/Memory.antt =====
-- Blocks of memory as lists: reads and writes that fault, with `none`, outside the block.
use Prim.Native.Nat.{ℕ, zero, suc, ◌+◌, ◌≤◌, ◌<◌}
use mathlib.Core.Path.{◌≡◌, refl, ap, ◌∙◌}
use mathlib.Core.Bool.{Bool, true, false}
use mathlib.Core.List.{List, [], ◌∷◌, ◌++◌}
use mathlib.Core.Option
use mathlib.Core.Option.{Option, none, some}
use native.Mathlib.Omega.{arith}
use mathlib.Core.Logic.{inl, inr}
use p2pdown_loader.Prelude.Lists.{length, replicate, get_or, set, take, drop}
use p2pdown_loader.Prelude.Tests.{Option-cases, ltb, if◌then◌else◌}

infixl 5 ◌>>=◌ ◌>>◌
abbrev pub ◌>>=◌ {ℓ κ} : {A : Type ℓ} {B : Type κ} → Option A → (A → Option B) → Option B
none >>= f = none
some a >>= f = f a

abbrev pub ◌>>◌ {ℓ} : {B : Type ℓ} → Option (Unit {0}) → Option B → Option B
m >> k = m >>= λ _. k

-- `none` is a fault: a read or write out of bounds, or through a null pointer.
abbrev pub guard : Bool → Option (Unit {0})
guard true = some tt
guard false = none

-- What a chain of calls that gave a result went through.
pub >>=-eq-some {ℓ κ} :
    {A : Type ℓ} {B : Type κ} (m : Option A) (f : A → Option B) {b : B}
    → (m >>= f) ≡ some b
    → (a : A) × (m ≡ some a) × (f a ≡ some b)
>>=-eq-some none f h = cc
>>=-eq-some (some a) f h = (a, refl, h)

-- A test whose two branches both give what is wanted.
pub if-eq-some {ℓ κ} :
    {A : Type ℓ} (P : Type κ) (t : Bool) (x y : Option A) {a : A}
    → (x ≡ some a → P)
    → (y ≡ some a → P)
    → (if t then x else y) ≡ some a
    → P
if-eq-some P true x y f g h = f h
if-eq-some P false x y f g h = g h

pub some_inj {ℓ} : {A : Type ℓ} {a b : A} → some a ≡ some b → a ≡ b
some_inj e = cc

module _ {ℓ} {A : Type ℓ} where
  -- the `n` elements from `off` on
  abbrev pub slice : List A → ℕ → ℕ → Option (List A)
  slice xs zero zero = some []
  slice [] zero (suc n) = none
  slice (x ∷ xs) zero (suc n) = Option.map (λ r. x ∷ r) (slice xs zero n)
  slice [] (suc i) n = none
  slice (x ∷ xs) (suc i) n = slice xs i n

  -- `memcpy(xs + off, ys, length ys)`
  abbrev pub put : List A → ℕ → List A → Option (List A)
  put xs zero [] = some xs
  put [] zero (y ∷ ys) = none
  put (x ∷ xs) zero (y ∷ ys) = Option.map (λ r. y ∷ r) (put xs zero ys)
  put [] (suc i) ys = none
  put (x ∷ xs) (suc i) ys = Option.map (λ r. x ∷ r) (put xs i ys)

  -- What a pointer in an array of pointers points to: a null pointer and an index outside fault.
  abbrev pub load : List (Option A) → ℕ → Option A
  load xs i = get_or xs i none

  -- A write to an element of an array.
  abbrev pub store : List A → ℕ → A → Option (List A)
  store xs i v = if ltb i (length xs) then some (set xs i v) else none

module _ {ℓ} {A : Type ℓ} where
  pub slice-start : (ys zs : List A) (n : ℕ) → length ys ≡ n → slice (ys ++ zs) 0 n ≡ some ys
  slice-start [] zs zero e = refl
  slice-start [] zs (suc n) e = absurd (omega arith)
  slice-start (y ∷ ys) zs zero e = absurd (omega arith)
  slice-start (y ∷ ys) zs (suc n) e =
      ap (Option.map (λ r. y ∷ r)) (slice-start ys zs n (omega arith))

  pub slice-append :
      (xs ys zs : List A) (off n : ℕ)
      → length xs ≡ off
      → length ys ≡ n
      → slice (xs ++ (ys ++ zs)) off n ≡ some ys
  slice-append [] ys zs zero n e h = slice-start ys zs n h
  slice-append [] ys zs (suc off) n e h = absurd (omega arith)
  slice-append (x ∷ xs) ys zs zero n e h = absurd (omega arith)
  slice-append (x ∷ xs) ys zs (suc off) n e h = slice-append xs ys zs off n (omega arith) h

  pub put-start :
      (old ys zs : List A) → length old ≡ length ys → put (old ++ zs) 0 ys ≡ some (ys ++ zs)
  put-start [] [] zs e = refl
  put-start [] (y ∷ ys) zs e = absurd (omega arith)
  put-start (x ∷ old) [] zs e = absurd (omega arith)
  put-start (x ∷ old) (y ∷ ys) zs e =
      ap (Option.map (λ r. y ∷ r)) (put-start old ys zs (omega arith))

  pub put-append :
      (xs old ys zs : List A) (off : ℕ)
      → length xs ≡ off
      → length old ≡ length ys
      → put (xs ++ (old ++ zs)) off ys ≡ some (xs ++ (ys ++ zs))
  put-append [] old ys zs zero e h = put-start old ys zs h
  put-append [] old ys zs (suc off) e h = absurd (omega arith)
  put-append (x ∷ xs) old ys zs zero e h = absurd (omega arith)
  put-append (x ∷ xs) old ys zs (suc off) e h =
      ap (Option.map (λ r. x ∷ r)) (put-append xs old ys zs off (omega arith) h)

  pub replicate-add : (m n : ℕ) (a : A) → replicate (m + n) a ≡ replicate m a ++ replicate n a
  replicate-add zero n a = ap (λ k. replicate k a) (omega arith)
  replicate-add (suc m) n a =
      ap (λ k. replicate k a) {y = suc (m + n)} (omega arith)
      ∙ ap (λ r. a ∷ r) (replicate-add m n a)

  pub slice-short : (xs : List A) (off n : ℕ) → length xs < off + n → slice xs off n ≡ none
  slice-short [] zero zero h = absurd (omega arith)
  slice-short [] zero (suc n) h = refl
  slice-short [] (suc off) n h = refl
  slice-short (x ∷ xs) zero zero h = absurd (omega arith)
  slice-short (x ∷ xs) zero (suc n) h = rw (slice-short xs zero n (omega arith))
  slice-short (x ∷ xs) (suc off) n h = slice-short xs off n (omega arith)

  pub length-slice : (xs : List A) (n : ℕ) {ys : List A} → slice xs 0 n ≡ some ys → length ys ≡ n
  length-slice xs zero e = ground arith
  length-slice [] (suc n) e = cc
  length-slice (x ∷ xs) (suc n) e = elim (Option-cases (slice xs 0 n)) [
    | inl f ↦ ground arith
    | inr (zs, f) ↦ ground (arith, length-slice xs n f)
  ]

  -- A read inside the first part of a block sees that part alone.
  pub slice-take :
      (xs rest : List A) (off n : ℕ)
      → off + n ≤ length xs
      → slice (xs ++ rest) off n ≡ some (take n (drop off xs))
  slice-take xs rest zero zero h = refl
  slice-take [] rest zero (suc n) h = absurd (omega arith)
  slice-take (x ∷ xs) rest zero (suc n) h =
      ap (Option.map (λ r. x ∷ r)) (slice-take xs rest zero n (omega arith))
  slice-take [] rest (suc off) n h = absurd (omega arith)
  slice-take (x ∷ xs) rest (suc off) n h = slice-take xs rest off n (omega arith)
