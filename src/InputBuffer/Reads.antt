-- ===== src/InputBuffer/Reads.antt =====
-- How `process_user_input` of input_buffer.c takes what is typed, in one read or in several.
use p2pdown_loader.Prelude.{
  ℕ, suc, ◌+◌, ◌-◌, ◌≤◌, ◌≡◌, refl, sym, subst, ap, ap₂, ◌∙◌, ◌⊎◌, inl, inr, List, [], ◌∷◌, ◌++◌,
  some, true, false, leb, ◌==◌, arith, length, take, put, length-append, length-replicate,
  append_assoc, take-length, put-append, Bool-cases,
}
use p2pdown_loader.InputBuffer.{
  userbuf_size, UserIobuf, create_userbuf, handled, process_user_input, add_line, add_lines,
  then_read,
}
use p2pdown_loader.InputBuffer.Lines.{IsText, cons_front, lines_of, HoldsText}
use p2pdown_loader.InputBuffer.Handing.{HandsOn, zeros, zeros-add, line_loop-HandsOn}

-- A new buffer holds no text.
pub create_userbuf-HoldsText : HoldsText [] create_userbuf
create_userbuf-HoldsText = record { is_text = IsText.nil; buf_is = refl; cur_is = refl }

IsText-append : {xs ys : List ℕ} → IsText xs → IsText ys → IsText (xs ++ ys)
IsText-append IsText.nil t = t
IsText-append (IsText.cons nz s) t = IsText.cons nz (IsText-append s t)

-- The buffer holds the text that is not a whole line yet. If what is read then makes no more than
-- 4096 bytes of text with it, and no byte is zero, `process_user_input` returns: it hands on the
-- whole lines of both, in order, and the buffer holds what follows the last of them.
pub process_user_input-HandsOn :
    (text input : List ℕ) (b : UserIobuf)
    → HoldsText text b
    → IsText input
    → length text + length input ≤ 4096
    → HandsOn (text ++ input) (process_user_input input b)
unfolding process_user_input
process_user_input-HandsOn text input b h t small =
    let room : leb 8190 b.cur ≡ false = ground (arith, h.cur_is) in
    let all : take (userbuf_size - b.cur) input ≡ input =
      take-length input (userbuf_size - b.cur) (omega (arith, h.cur_is)) in
    let total : length (text ++ input) ≡ length text + length input = length-append text input in
    let block : b.buf ≡ text ++ (zeros (length input) ++ zeros (8192 - length (text ++ input))) =
      h.buf_is
      ∙ ap (λ z. text ++ z)
          (sym (
            zeros-add (length input) (8192 - length (text ++ input)) (8192 - length text)
              (omega arith))) in
    let filled : put b.buf b.cur input
        ≡ some ((text ++ input) ++ zeros (8192 - length (text ++ input))) =
      ap (λ z. put z b.cur input) block
      ∙ put-append text (zeros (length input)) input (zeros (8192 - length (text ++ input))) b.cur
          (sym h.cur_is) (length-replicate {A = ℕ} (length input) 0)
      ∙ ap some (sym (append_assoc text input (zeros (8192 - length (text ++ input))))) in
    let ready : HoldsText (text ++ input) (record {
      buf = (text ++ input) ++ zeros (8192 - length (text ++ input));
      cur = b.cur + length (take (userbuf_size - b.cur) input);
    }) =
      record {
        is_text = IsText-append h.is_text t;
        buf_is = refl;
        cur_is = omega (arith, h.cur_is, ap length all);
      } in
    rw (room, all, filled)
      (line_loop-HandsOn (userbuf_size + 1) (text ++ input) _ ready (omega arith) (omega arith))

cons_front-append :
    (c : ℕ) (ys : List ℕ)
    → (c == 10) ≡ false
    → (p : List (List ℕ) × List ℕ)
    → cons_front c (p.0 ++ (lines_of (p.1 ++ ys)).0, (lines_of (p.1 ++ ys)).1) ≡ (
      (cons_front c p).0 ++ (lines_of ((cons_front c p).1 ++ ys)).0,
      (lines_of ((cons_front c p).1 ++ ys)).1,
    )
cons_front-append c ys e ([], rest) = rw e refl
cons_front-append c ys e (l ∷ ls, rest) = refl

-- The lines of two texts: those of the first, and those of the second behind the rest of the first.
pub lines_of-append :
    (xs ys : List ℕ)
    → lines_of (xs ++ ys) ≡ (
      (lines_of xs).0 ++ (lines_of ((lines_of xs).1 ++ ys)).0,
      (lines_of ((lines_of xs).1 ++ ys)).1,
    )
lines_of-append [] ys = refl
lines_of-append (c ∷ xs) ys = by_newline (Bool-cases (c == 10)) (lines_of-append xs ys)
  where
    Goal : ℕ → List ℕ → Type 0
    Goal d zs = lines_of (d ∷ (zs ++ ys)) ≡ (
      (lines_of (d ∷ zs)).0 ++ (lines_of ((lines_of (d ∷ zs)).1 ++ ys)).0,
      (lines_of ((lines_of (d ∷ zs)).1 ++ ys)).1,
    )

    by_newline :
        ((c == 10) ≡ true) ⊎ ((c == 10) ≡ false)
        → lines_of (xs ++ ys) ≡ (
          (lines_of xs).0 ++ (lines_of ((lines_of xs).1 ++ ys)).0,
          (lines_of ((lines_of xs).1 ++ ys)).1,
        )
        → Goal c xs
    by_newline (inl e) ih = rw (e, ih) refl
    by_newline (inr e) ih = rw (e, ih) (cons_front-append c ys e (lines_of xs))

lines_of-rest_short : (xs : List ℕ) → length (lines_of xs).1 ≤ length xs
lines_of-rest_short [] = omega arith
lines_of-rest_short (c ∷ xs) = by_newline (Bool-cases (c == 10)) (lines_of-rest_short xs)
  where
    front :
        (p : List (List ℕ) × List ℕ)
        → length p.1 ≤ length xs
        → length (cons_front c p).1 ≤ suc (length xs)
    front ([], rest) short = omega arith
    front (l ∷ ls, rest) short = omega arith

    by_newline :
        ((c == 10) ≡ true) ⊎ ((c == 10) ≡ false)
        → length (lines_of xs).1 ≤ length xs
        → length (lines_of (c ∷ xs)).1 ≤ suc (length xs)
    by_newline (inl e) ih = rw e (omega (arith, ih))
    by_newline (inr e) ih = rw e (front (lines_of xs) ih)

HoldsText-unique :
    {text : List ℕ} {b b' : UserIobuf} → HoldsText text b → HoldsText text b' → b ≡ b'
HoldsText-unique h k =
    ap₂ (λ x y. record { buf = x; cur = y }) (h.buf_is ∙ sym k.buf_is) (h.cur_is ∙ sym k.cur_is)

add_lines-handled :
    (ls ms : List (List ℕ)) (b : UserIobuf) → add_lines ls (handled ms b) ≡ handled (ls ++ ms) b
unfolding add_lines add_line
add_lines-handled [] ms b = refl
add_lines-handled (l ∷ ls) ms b = rw (add_lines-handled ls ms b) refl

-- The buffer holds a text. If two reads bring at most 4096 bytes of text with it, and no byte is
-- zero, then the two calls of `process_user_input` hand on the same lines, and leave the same
-- buffer, as one call that reads the bytes of both.
pub process_user_input-then_read :
    (text first second : List ℕ) (b : UserIobuf)
    → HoldsText text b
    → IsText first
    → IsText second
    → length text + length first + length second ≤ 4096
    → then_read second (process_user_input first b) ≡ process_user_input (first ++ second) b
unfolding then_read
process_user_input-then_read text first second b h f s small =
    let one : HandsOn (text ++ first) (process_user_input first b) =
      process_user_input-HandsOn text first b h f (omega arith) in
    let rest : List ℕ = (lines_of (text ++ first)).1 in
    let two : HandsOn (rest ++ second) (process_user_input second one.left) =
      process_user_input-HandsOn rest second one.left one.holds s
        (omega (arith, lines_of-rest_short (text ++ first), length-append text first)) in
    let both : HandsOn (text ++ (first ++ second)) (process_user_input (first ++ second) b) =
      process_user_input-HandsOn text (first ++ second) b h (IsText-append f s)
        (omega (arith, length-append first second)) in
    let cut : lines_of (text ++ (first ++ second)) ≡ (
      (lines_of (text ++ first)).0 ++ (lines_of (rest ++ second)).0,
      (lines_of (rest ++ second)).1,
    ) =
      ap lines_of (sym (append_assoc text first second)) ∙ lines_of-append (text ++ first) second in
    let same : two.left ≡ both.left =
      HoldsText-unique two.holds
        (subst (λ z. HoldsText z both.left) (ap (λ p. p.1) cut) both.holds) in
    ap (then_read second) one.runs
    ∙ ap (add_lines (lines_of (text ++ first)).0) two.runs
    ∙ add_lines-handled (lines_of (text ++ first)).0 (lines_of (rest ++ second)).0 two.left
    ∙ ap₂ handled (sym (ap (λ p. p.0) cut)) same
    ∙ sym both.runs
