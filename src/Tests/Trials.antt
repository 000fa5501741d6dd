-- ===== src/Tests/Trials.antt =====
-- The programs for trying the parts out: a packet with the number 7, and two lines in three reads.
use p2pdown_loader.Prelude.{ℕ, ◌≡◌, refl, List, [], ◌∷◌, some, none, true, arith, replicate, pos}
use p2pdown_loader.Net.{Addr, Datagram}
use p2pdown_loader.Config.{low_bits}
use p2pdown_loader.Spiffy.{came, spiffy_init}
use p2pdown_loader.InputBuffer.{create_userbuf, handled}
use p2pdown_loader.InputBuffer.Lines.{IsText}
use p2pdown_loader.Programs.{
  Host, no_spiffy, init_spiffy, client_main, sent, server_turn, print_lines,
}
use p2pdown_loader.Programs.Exchange.{server_turn-client_main}
use p2pdown_loader.Programs.Printed.{Fits, print_lines-lines_of}

abbrev host : Host
host = record {
  atoi = λ text. pos 7;
  inet_aton = λ text. none;
  spiffy_router = none;
  loopback = 2130706433;
  bound = true;
  sendto = λ d. pos 116;
  unset = replicate 14 9;
}

abbrev from : Addr
from = record { ip = 2130706433; port = 7 }

not_routed : no_spiffy.enabled ≡ (init_spiffy host (49 ∷ []) (50 ∷ [])).enabled
unfolding init_spiffy spiffy_init
not_routed = refl

server_turn-client_main_example :
    (d : Datagram) × (buf : List ℕ) × (client_main host
        ((99 ∷ []) ∷ (49 ∷ []) ∷ (50 ∷ []) ∷ (51 ∷ []) ∷ (55 ∷ []) ∷ [])
      ≡ sent d (pos 7))
    × (server_turn no_spiffy (replicate 116 0) (came from d.bytes) (replicate 1500 0)
        ≡ some (buf, 7))
unfolding low_bits
server_turn-client_main_example =
    server_turn-client_main host (99 ∷ []) (49 ∷ []) (50 ∷ []) (51 ∷ []) (55 ∷ []) [] no_spiffy
      (replicate 116 0) (replicate 1500 0) from refl refl refl refl not_routed

abbrev reads : List (List ℕ)
reads = (71 ∷ []) ∷ (69 ∷ 10 ∷ 72 ∷ []) ∷ (10 ∷ []) ∷ []

reads-Fits : Fits [] reads
reads-Fits = Fits.cons (IsText.cons (λ e. cc) IsText.nil) (omega arith) (
    Fits.cons (IsText.cons (λ e. cc) (IsText.cons (λ e. cc) (IsText.cons (λ e. cc) IsText.nil)))
      (omega arith) (Fits.cons (IsText.cons (λ e. cc) IsText.nil) (omega arith) Fits.nil))

print_lines-lines_of_example :
    print_lines reads (handled [] create_userbuf) ≡ some ((71 ∷ 69 ∷ []) ∷ (72 ∷ []) ∷ [])
print_lines-lines_of_example = print_lines-lines_of reads reads-Fits
