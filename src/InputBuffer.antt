-- ===== src/InputBuffer.antt =====
-- input_buffer.h and input_buffer.c: standard input, cut into lines.
pub mod Lines
pub mod Handing
pub mod Reads
use p2pdown_loader.Prelude.{
  ℕ, zero, suc, ◌+◌, ◌-◌, ◌%◌, ◌^◌, List, [], ◌∷◌, ◌++◌, Option, none, some, Bool, true, false, leb,
  ◌==◌, if◌then◌else◌, ◌>>=◌, length, take, slice, put, replicate,
}

abbrev pub userbuf_size : ℕ
userbuf_size = 8191

-- `user_iobuf`: the block, and how much of it is in use.
pub record UserIobuf : Type 0 where
  pub buf : List ℕ
  pub cur : ℕ

-- `create_userbuf`.
abbrev pub create_userbuf : UserIobuf
create_userbuf = record { buf = replicate (userbuf_size + 1) 0; cur = 0 }

-- What `strchr` for a newline finds: its place, or nothing before the end of the text; or a block
-- with no end of text, past which it runs.
pub data Found : Type 0 where
  at : ℕ → Found
  absent : Found
  no_end : Found

pub after : Found → Found
after (at i) = at (suc i)
after absent = absent
after no_end = no_end

pub find_newline : List ℕ → Found
unfolding after
find_newline [] = no_end
find_newline (c ∷ text) =
    if c == 10 then at 0 else if c == 0 then absent else after (find_newline text)

-- The lines that went to `handle_line`, with the buffer that is left; or a fault; or no end within
-- the rounds allowed; or the end of the program, as the buffer is full.
pub data Handled : Type 0 where
  handled : List (List ℕ) → UserIobuf → Handled
  fault : Handled
  running : Handled
  exited : Handled

pub add_line : List ℕ → Handled → Handled
add_line l (handled ls b) = handled (l ∷ ls) b
add_line l fault = fault
add_line l running = running
add_line l exited = exited

-- The shift of what follows the newline at `i` to the front. The bytes that it does not write over
-- stay, and the count is unsigned.
pub shift_line : ℕ → UserIobuf → Option UserIobuf
shift_line i b = do
  rest ← slice b.buf (i + 1) (userbuf_size - i)
  moved ← put b.buf 0 rest
  some (record { buf = moved; cur = (b.cur + 2 ^ 32 - (i + 1)) % 2 ^ 32 })

-- The loop of `process_user_input`. Every round takes a newline out of the block.
pub line_loop : ℕ → UserIobuf → Handled
unfolding find_newline shift_line add_line
line_loop zero b = running
line_loop (suc fuel) b = elim (find_newline b.buf) [
  | no_end ↦ fault
  | absent ↦ handled [] b
  | at i ↦ elim (shift_line i b) [
    | none ↦ fault
    | some b' ↦ add_line (take i b.buf) (line_loop fuel b')
  ]
]

-- `process_user_input`, given what can be read: an error or the end of the input is no byte at all.
pub process_user_input : List ℕ → UserIobuf → Handled
unfolding line_loop
process_user_input input b =
    if leb (userbuf_size - 1) b.cur
    then exited
    else elim (put b.buf b.cur (take (userbuf_size - b.cur) input)) [
      | none ↦ fault
      | some filled ↦
          line_loop (userbuf_size + 1)
            (record { buf = filled; cur = b.cur + length (take (userbuf_size - b.cur) input) })
    ]

-- Lines that were handed on before those of a later call.
pub add_lines : List (List ℕ) → Handled → Handled
add_lines [] r = r
add_lines (l ∷ ls) r = add_line l (add_lines ls r)

-- The next call of `process_user_input`, which the main loop makes when there is more to read.
pub then_read : List ℕ → Handled → Handled
unfolding process_user_input add_lines
then_read input (handled ls b) = add_lines ls (process_user_input input b)
then_read input fault = fault
then_read input running = running
then_read input exited = exited
