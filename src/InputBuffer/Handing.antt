-- ===== src/InputBuffer/Handing.antt =====
-- The loop of `process_user_input` of input_buffer.c hands on the lines of what is in its buffer.
use p2pdown_loader.Prelude.{
  ℕ, zero, suc, ◌+◌, ◌-◌, ◌%◌, ◌^◌, ◌≤◌, ◌<◌, ◌≡◌, refl, sym, ap, ◌∙◌, List, [], ◌∷◌, ◌++◌, some,
  arith, length, take, drop, slice, put, replicate, length-append, length-replicate, replicate-add,
  append-nil, append_assoc, take-append, drop-append, slice-append,
}
use p2pdown_loader.Framing.Split.{put-front}
use p2pdown_loader.InputBuffer.{
  UserIobuf, at, absent, find_newline, Handled, handled, add_line, shift_line, line_loop,
}
use p2pdown_loader.InputBuffer.Lines.{
  IsText, IsLine, lines_of, HoldsText, Begins, unfinished, whole, IsText-Begins, lines_of-line,
  lines_of-whole, find_newline-line, find_newline-whole,
}

abbrev pub zeros : ℕ → List ℕ
zeros n = replicate n 0

pub zeros-add : (m n k : ℕ) → m + n ≡ k → zeros m ++ zeros n ≡ zeros k
zeros-add m n k e = sym (replicate-add {A = ℕ} m n 0) ∙ ap zeros e

-- A buffer that holds a line and a text behind it.
module _ (l text : List ℕ) (b : UserIobuf) (h : HoldsText (l ++ 10 ∷ text) b)
    (small : length (l ++ 10 ∷ text) ≤ 4096) where
  abbrev size : ℕ
  size = length (l ++ 10 ∷ text)

  abbrev behind : List ℕ
  behind = text ++ zeros (8192 - size)

  long : size ≡ length l + 1 + length text
  long = omega (arith, length-append l (10 ∷ text))

  length-behind : length behind ≡ 8191 - length l
  length-behind = omega (
    arith,
    long,
    length-append text (zeros (8192 - size)),
    length-replicate {A = ℕ} (8192 - size) 0,
  )

  -- What is read from behind the newline on.
  shift_line-rest : slice b.buf (length l + 1) (8191 - length l) ≡ some behind
  shift_line-rest =
      let block : b.buf ≡ (l ++ 10 ∷ []) ++ (behind ++ []) =
        h.buf_is
        ∙ append_assoc l (10 ∷ text) (zeros (8192 - size))
        ∙ sym (append_assoc l (10 ∷ []) behind)
        ∙ ap (λ z. (l ++ 10 ∷ []) ++ z) (sym (append-nil behind)) in
      ap (λ z. slice z (length l + 1) (8191 - length l)) block
      ∙ slice-append (l ++ 10 ∷ []) behind [] (length l + 1) (8191 - length l)
          (omega (arith, length-append l (10 ∷ []))) length-behind

  -- The bytes that the shift does not write over are zeros.
  shift_line-kept : drop (length behind) b.buf ≡ zeros (length l + 1)
  shift_line-kept =
      let split : b.buf
          ≡ ((l ++ 10 ∷ text) ++ zeros (8191 - length l - size)) ++ zeros (length l + 1) =
        h.buf_is
        ∙ ap (λ z. (l ++ 10 ∷ text) ++ z)
            (sym (
              zeros-add (8191 - length l - size) (length l + 1) (8192 - size)
                (omega (arith, long))))
        ∙ sym (
            append_assoc (l ++ 10 ∷ text) (zeros (8191 - length l - size))
              (zeros (length l + 1))) in
      ap (drop (length behind)) split
      ∙ drop-append ((l ++ 10 ∷ text) ++ zeros (8191 - length l - size)) (zeros (length l + 1))
          (length behind)
          (omega (
            arith,
            long,
            length-behind,
            length-append (l ++ 10 ∷ text) (zeros (8191 - length l - size)),
            length-replicate {A = ℕ} (8191 - length l - size) 0,
          ))

  -- The block after the shift.
  shift_line-moved : put b.buf 0 behind ≡ some (text ++ zeros (8192 - length text))
  shift_line-moved =
      let total : length b.buf ≡ 8192 =
        ap length h.buf_is
        ∙ omega (
          arith,
          length-append (l ++ 10 ∷ text) (zeros (8192 - size)),
          length-replicate {A = ℕ} (8192 - size) 0,
        ) in
      put-front b.buf behind (omega (arith, total, length-behind))
      ∙ ap (λ z. some (behind ++ z)) shift_line-kept
      ∙ ap some (
          append_assoc text (zeros (8192 - size)) (zeros (length l + 1))
          ∙ ap (λ z. text ++ z)
              (zeros-add (8192 - size) (length l + 1) (8192 - length text) (omega (arith, long))))

  -- The line is shifted out, and what was behind it stands at the front, with zeros behind it.
  shift_line-whole :
      IsText text → (b' : UserIobuf) × (shift_line (length l) b ≡ some b') × HoldsText text b'
  unfolding shift_line
  shift_line-whole t = (
    record {
      buf = text ++ zeros (8192 - length text);
      cur = (b.cur + 2 ^ 32 - (length l + 1)) % 2 ^ 32;
    },
    rw (shift_line-rest, shift_line-moved) refl,
    record { is_text = t; buf_is = refl; cur_is = omega (arith, h.cur_is, long) },
  )

-- What a call leaves: the lines of the text were handed on, and the rest of it is in the buffer.
pub record HandsOn (text : List ℕ) (result : Handled) : Type 0 where
  pub left : UserIobuf
  pub runs : result ≡ handled (lines_of text).0 left
  pub holds : HoldsText (lines_of text).1 left

zeros-suc :
    (text : List ℕ)
    → length text ≤ 4096
    → zeros (8192 - length text) ≡ 0 ∷ zeros (8191 - length text)
zeros-suc text small =
    ap zeros {x = 8192 - length text} {y = suc (8191 - length text)} (omega arith)

line_loop-line :
    (fuel : ℕ) (l : List ℕ) (b : UserIobuf)
    → IsLine l
    → HoldsText l b
    → length l ≤ 4096
    → HandsOn l (line_loop (suc fuel) b)
unfolding line_loop
line_loop-line fuel l b i h small =
    let none_there : find_newline b.buf ≡ absent =
      ap find_newline (h.buf_is ∙ ap (λ z. l ++ z) (zeros-suc l small))
      ∙ find_newline-line (zeros (8191 - length l)) i in
    record {
      left = b;
      runs = rw (none_there, line_loop) (rw (lines_of-line i) refl);
      holds = rw (lines_of-line i) h;
    }

line_loop-whole :
    (fuel : ℕ) (l text : List ℕ) (b : UserIobuf)
    → IsLine l
    → IsText text
    → HoldsText (l ++ 10 ∷ text) b
    → length (l ++ 10 ∷ text) ≤ 4096
    → ((b' : UserIobuf) → HoldsText text b' → HandsOn text (line_loop fuel b'))
    → HandsOn (l ++ 10 ∷ text) (line_loop (suc fuel) b)
unfolding line_loop add_line
line_loop-whole fuel l text b i t h small go = on (shift_line-whole l text b h small t)
  where
    found : find_newline b.buf ≡ at (length l)
    found =
        ap find_newline
          (h.buf_is ∙ append_assoc l (10 ∷ text) (zeros (8192 - length (l ++ 10 ∷ text))))
        ∙ find_newline-whole (text ++ zeros (8192 - length (l ++ 10 ∷ text))) i

    line : take (length l) b.buf ≡ l
    line =
        ap (take (length l))
          (h.buf_is ∙ append_assoc l (10 ∷ text) (zeros (8192 - length (l ++ 10 ∷ text))))
        ∙ take-append l (10 ∷ (text ++ zeros (8192 - length (l ++ 10 ∷ text)))) (length l) refl

    on :
        (b' : UserIobuf) × (shift_line (length l) b ≡ some b') × HoldsText text b'
        → HandsOn (l ++ 10 ∷ text) (line_loop (suc fuel) b)
    on (b', shifted, held) =
        let r = go b' held in
        record {
          left = r.left;
          runs =
              rw (found, line_loop)
                (rw (shifted, line_loop) (rw (line, r.runs, lines_of-whole text i) refl));
          holds = rw (lines_of-whole text i) r.holds;
        }

pub line_loop-HandsOn :
    (fuel : ℕ) (text : List ℕ) (b : UserIobuf)
    → HoldsText text b
    → length text ≤ 4096
    → length text < fuel
    → HandsOn text (line_loop fuel b)
line_loop-HandsOn zero text b h small enough = absurd (omega arith)
line_loop-HandsOn (suc fuel) text b h small enough =
    by_begins (IsText-Begins h.is_text) h small enough (line_loop-HandsOn fuel)
  where
    by_begins :
        {t : List ℕ}
        → Begins t
        → HoldsText t b
        → length t ≤ 4096
        → length t < suc fuel
        → ((u : List ℕ) (b' : UserIobuf)
            → HoldsText u b'
            → length u ≤ 4096
            → length u < fuel
            → HandsOn u (line_loop fuel b'))
        → HandsOn t (line_loop (suc fuel) b)
    by_begins (unfinished {l} i) k few _ go = line_loop-line fuel l b i k few
    by_begins (whole {l} {text = u} i t) k few room go =
        line_loop-whole fuel l u b i t k few (λ b' held.
          go u b' held (omega (arith, length-append l (10 ∷ u)))
            (omega (arith, length-append l (10 ∷ u))))
