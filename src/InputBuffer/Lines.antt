-- ===== src/InputBuffer/Lines.antt =====
-- The lines of a text, and where input_buffer.c finds the end of the first one.
use p2pdown_loader.Prelude.{
  ℕ, ◌-◌, ◌≡◌, ◌≢◌, refl, subst, ◌⊎◌, inl, inr, List, [], ◌∷◌, ◌++◌, true, false, ◌==◌, arith,
  if◌then◌else◌, length, replicate, Bool-cases,
}
use p2pdown_loader.InputBuffer.{UserIobuf, at, absent, after, find_newline}

-- Bytes of a text: none is zero.
pub data IsText : List ℕ → Type 0 where
  nil : IsText []
  cons : {c : ℕ} {cs : List ℕ} → c ≢ 0 → IsText cs → IsText (c ∷ cs)

-- Bytes of one line: none is zero or a newline.
pub data IsLine : List ℕ → Type 0 where
  nil : IsLine []
  cons : {c : ℕ} {cs : List ℕ} → c ≢ 0 → c ≢ 10 → IsLine cs → IsLine (c ∷ cs)

-- The reference: the lines of a text that are complete, and what follows the last newline.
abbrev pub cons_front : ℕ → List (List ℕ) × List ℕ → List (List ℕ) × List ℕ
cons_front c ([], rest) = ([], c ∷ rest)
cons_front c (l ∷ ls, rest) = ((c ∷ l) ∷ ls, rest)

abbrev pub lines_of : List ℕ → List (List ℕ) × List ℕ
lines_of [] = ([], [])
lines_of (c ∷ cs) =
    if c == 10 then ([] ∷ (lines_of cs).0, (lines_of cs).1) else cons_front c (lines_of cs)

-- A buffer that holds a text and is clear behind it.
pub record HoldsText (text : List ℕ) (b : UserIobuf) : Type 0 where
  pub is_text : IsText text
  pub buf_is : b.buf ≡ text ++ replicate (8192 - length text) 0
  pub cur_is : b.cur ≡ length text

-- A text is one unfinished line, or begins with a whole one.
pub data Begins : List ℕ → Type 0 where
  unfinished : {l : List ℕ} → IsLine l → Begins l
  whole : {l text : List ℕ} → IsLine l → IsText text → Begins (l ++ 10 ∷ text)

pub IsText-Begins : {text : List ℕ} → IsText text → Begins text
IsText-Begins IsText.nil = unfinished IsLine.nil
IsText-Begins (IsText.cons {c} {cs} nz t) = by_newline (Bool-cases (c == 10)) (IsText-Begins t)
  where
    longer : c ≢ 10 → {t : List ℕ} → Begins t → Begins (c ∷ t)
    longer nl (unfinished l) = unfinished (IsLine.cons nz nl l)
    longer nl (whole l t) = whole (IsLine.cons nz nl l) t

    by_newline : ((c == 10) ≡ true) ⊎ ((c == 10) ≡ false) → Begins cs → Begins (c ∷ cs)
    by_newline (inl e) _ =
        let nl : 10 ≡ c = ground (arith, e) in subst (λ x. Begins (x ∷ cs)) nl (whole IsLine.nil t)
    by_newline (inr e) b = longer (λ f. absurd (ground (arith, e, f))) b

pub lines_of-line : {l : List ℕ} → IsLine l → lines_of l ≡ ([], l)
lines_of-line IsLine.nil = refl
lines_of-line (IsLine.cons {c} {cs} nz nl l) =
    let other : (c == 10) ≡ false = ground arith in rw (other, lines_of-line l) refl

pub lines_of-whole :
    {l : List ℕ} (text : List ℕ)
    → IsLine l
    → lines_of (l ++ 10 ∷ text) ≡ (l ∷ (lines_of text).0, (lines_of text).1)
lines_of-whole text IsLine.nil = refl
lines_of-whole text (IsLine.cons {c} {cs} nz nl l) =
    let other : (c == 10) ≡ false = ground arith in rw (other, lines_of-whole text l) refl

pub find_newline-line :
    {l : List ℕ} (rest : List ℕ) → IsLine l → find_newline (l ++ 0 ∷ rest) ≡ absent
unfolding find_newline after
find_newline-line rest IsLine.nil = refl
find_newline-line rest (IsLine.cons {c} {cs} nz nl l) =
    let other : (c == 10) ≡ false = ground arith in
    let more : (c == 0) ≡ false = ground arith in rw (other, more, find_newline-line rest l) refl

pub find_newline-whole :
    {l : List ℕ} (rest : List ℕ) → IsLine l → find_newline (l ++ 10 ∷ rest) ≡ at (length l)
unfolding find_newline after
find_newline-whole rest IsLine.nil = refl
find_newline-whole rest (IsLine.cons {c} {cs} nz nl l) =
    let other : (c == 10) ≡ false = ground arith in
    let more : (c == 0) ≡ false = ground arith in rw (other, more, find_newline-whole rest l) refl
