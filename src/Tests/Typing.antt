-- ===== src/Tests/Typing.antt =====
-- Standard input at work: "GET" and a newline, in one read and in two.
use p2pdown_loader.Prelude.{ℕ, ◌≡◌, List, [], ◌∷◌, ◌++◌, arith}
use p2pdown_loader.InputBuffer.{create_userbuf, process_user_input, then_read}
use p2pdown_loader.InputBuffer.Lines.{IsText}
use p2pdown_loader.InputBuffer.Reads.{create_userbuf-HoldsText, process_user_input-then_read}

abbrev begun : List ℕ
begun = 71 ∷ 69 ∷ []

abbrev ended : List ℕ
ended = 84 ∷ 10 ∷ 88 ∷ []

begun-IsText : IsText begun
begun-IsText = IsText.cons (λ e. cc) (IsText.cons (λ e. cc) IsText.nil)

ended-IsText : IsText ended
ended-IsText = IsText.cons (λ e. cc) (IsText.cons (λ e. cc) (IsText.cons (λ e. cc) IsText.nil))

process_user_input-then_read_example :
    then_read ended (process_user_input begun create_userbuf)
    ≡ process_user_input (begun ++ ended) create_userbuf
process_user_input-then_read_example =
    process_user_input-then_read [] begun ended create_userbuf create_userbuf-HoldsText begun-IsText
      ended-IsText (omega arith)
