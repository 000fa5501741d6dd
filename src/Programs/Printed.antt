-- ===== src/Programs/Printed.antt =====
-- What test_input_buffer.c prints of its input.
use p2pdown_loader.Prelude.{
  ℕ, ◌+◌, ◌≤◌, ◌≡◌, refl, sym, ap, ◌∙◌, List, [], ◌∷◌, ◌++◌, some, length, length-append, arith,
  append-nil, append_assoc,
}
use p2pdown_loader.InputBuffer.{UserIobuf, create_userbuf, handled, process_user_input}
use p2pdown_loader.InputBuffer.Lines.{HoldsText, IsText, lines_of}
use p2pdown_loader.InputBuffer.Handing.{HandsOn}
use p2pdown_loader.InputBuffer.Reads.{
  create_userbuf-HoldsText, process_user_input-HandsOn, lines_of-append,
}
use p2pdown_loader.Programs.{print_lines}

-- The whole input.
abbrev pub joined : List (List ℕ) → List ℕ
joined [] = []
joined (input ∷ inputs) = input ++ joined inputs

-- Reads of text, each of which has 4096 bytes at most together with the unfinished line before it.
pub data Fits : List ℕ → List (List ℕ) → Type 0 where
  nil : {text : List ℕ} → Fits text []
  cons :
      {text input : List ℕ} {inputs : List (List ℕ)}
      → IsText input
      → length text + length input ≤ 4096
      → Fits (lines_of (text ++ input)).1 inputs
      → Fits text (input ∷ inputs)

empty_of_length : (ls : List (List ℕ)) → length ls ≡ 0 → ls ≡ []
empty_of_length [] e = refl
empty_of_length (l ∷ ls) e = absurd (omega arith)

-- What is left behind the last newline has no line.
lines_of-rest : (text : List ℕ) → (lines_of (lines_of text).1).0 ≡ []
lines_of-rest text =
    let rest = (lines_of text).1 in
    let both : (lines_of text).0 ≡ (lines_of text).0 ++ (lines_of rest).0 =
      ap (λ t. (lines_of t).0) (sym (append-nil text))
      ∙ ap (λ p. p.0) (lines_of-append text [])
      ∙ ap (λ t. (lines_of text).0 ++ (lines_of t).0) (append-nil rest) in
    empty_of_length (lines_of rest).0
      (omega (arith, ap length both, length-append (lines_of text).0 (lines_of rest).0))

print_lines-from :
    (inputs ls : List (List ℕ)) (text : List ℕ) (b : UserIobuf)
    → HoldsText text b
    → (lines_of text).0 ≡ []
    → Fits text inputs
    → print_lines inputs (handled ls b) ≡ some (ls ++ (lines_of (text ++ joined inputs)).0)
unfolding print_lines
print_lines-from [] ls text b h unfinished f =
    ap some (sym (append-nil ls))
    ∙ ap (λ l. some (ls ++ l)) (sym unfinished)
    ∙ ap (λ t. some (ls ++ (lines_of t).0)) (sym (append-nil text))
print_lines-from (input ∷ inputs) ls text b h unfinished (Fits.cons t small f) =
    let one : HandsOn (text ++ input) (process_user_input input b) =
      process_user_input-HandsOn text input b h t small in
    let rest = (lines_of (text ++ input)).1 in
    let later =
      print_lines-from inputs (lines_of (text ++ input)).0 rest one.left one.holds
        (lines_of-rest (text ++ input)) f in
    let cut : (lines_of (text ++ input)).0 ++ (lines_of (rest ++ joined inputs)).0
        ≡ (lines_of (text ++ (input ++ joined inputs))).0 =
      sym (ap (λ p. p.0) (lines_of-append (text ++ input) (joined inputs)))
      ∙ ap (λ t. (lines_of t).0) (append_assoc text input (joined inputs)) in
    rw (one.runs, later) (ap (λ l. some (ls ++ l)) cut)

-- If no byte of the input is zero, and each read, with the unfinished line before it, has at most 4096
-- bytes, half of what the block holds: the program does not fault or end, and prints the lines of the
-- whole input, in order, each one once, however the input is cut into such reads.
pub print_lines-lines_of :
    (inputs : List (List ℕ))
    → Fits [] inputs
    → print_lines inputs (handled [] create_userbuf) ≡ some (lines_of (joined inputs)).0
print_lines-lines_of inputs f =
    print_lines-from inputs [] [] create_userbuf create_userbuf-HoldsText refl f
