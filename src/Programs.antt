-- ===== src/Programs.antt =====
-- The programs with which the parts are tried out: client.c sends a packet by way of spiffy.c, and
-- server.c prints the magic number of each that comes in; test_input_buffer.c prints the lines of the
-- standard input.
pub mod Exchange
pub mod Printed
use p2pdown_loader.Prelude.{
  ℕ, zero, suc, ◌-◌, ◌%◌, ◌^◌, List, [], ◌∷◌, ◌++◌, Option, none, some, Bool, true, false, ◌>>=◌,
  put, replicate, ℤ, pos, negsuc,
}
use p2pdown_loader.Packet.{htons, ntohs}
use p2pdown_loader.Net.{Addr, Datagram}
use p2pdown_loader.Config.{low_bits}
use p2pdown_loader.Spiffy.{Spiffy, spiffy_init, spiffy_sendto, Incoming, Received, spiffy_recvfrom}
use p2pdown_loader.InputBuffer.{
  UserIobuf, Handled, handled, exited, process_user_input, create_userbuf,
}

-- `BUFLEN` and `PACKETLEN` of both programs; the packet has a header of 16 bytes.
abbrev pub buflen : ℕ
buflen = 100

abbrev pub packetlen : ℕ
packetlen = 1500

abbrev pub data_packet_len : ℕ
data_packet_len = 116

-- What a program uses of the system: `atoi`, `inet_aton`, the variable `SPIFFY_ROUTER`, the address
-- 127.0.0.1, whether `bind` succeeds, what `sendto` returns, and what stands in the 14 bytes of the
-- packet's header that are not set.
pub record Host : Type 0 where
  pub atoi : List ℕ → ℤ
  pub inet_aton : List ℕ → Option ℕ
  pub spiffy_router : Option (List ℕ)
  pub loopback : ℕ
  pub bound : Bool
  pub sendto : Datagram → ℤ
  pub unset : List ℕ

-- The globals of spiffy.c at the start of a program.
abbrev pub no_spiffy : Spiffy
no_spiffy = record {
  enabled = false;
  node_id = 0;
  src = record { ip = 0; port = 0 };
  router = record { ip = 0; port = 0 };
}

abbrev pub local_addr : Host → List ℕ → Addr
local_addr h port = record { ip = h.loopback; port = low_bits (h.atoi port) }

-- A number in the 32 bits of an `int`.
pub int_bits : ℤ → ℕ
int_bits (pos n) = n % 2 ^ 32
int_bits (negsuc n) = 2 ^ 32 - 1 - n % 2 ^ 32

-- The call of `spiffy_init` of a program with a number and a port.
unfoldable pub init_spiffy : Host → List ℕ → List ℕ → Spiffy
unfolding int_bits
init_spiffy h id port =
    (spiffy_init (λ text. low_bits (h.atoi text)) h.inet_aton h.spiffy_router (int_bits (h.atoi id))
      (local_addr h port) no_spiffy).0

-- The struct `data_packet_t` that the client sends.
pub client_packet : Host → List ℕ → List ℕ
client_packet h magic = htons (low_bits (h.atoi magic)) ++ (h.unset ++ replicate buflen 0)

-- How the client ends: with the text of its usage; by a failed `assert`; in a fault; or with a
-- datagram sent and a number printed.
pub data ClientEnd : Type 0 where
  usage : ClientEnd
  aborted : ClientEnd
  fault : ClientEnd
  sent : Datagram → ℤ → ClientEnd

pub client_sends : Option (Datagram × ℤ) → ℤ → ClientEnd
client_sends none printed = ClientEnd.fault
client_sends (some (d, result)) printed = sent d printed

-- What the client does after `bind`. Its last argument is used without a test, and is a null pointer
-- if it is not given.
pub client_run : Host → List ℕ → List ℕ → List ℕ → List (List ℕ) → ClientEnd
unfolding client_sends client_packet init_spiffy
client_run h id port to [] = ClientEnd.fault
client_run h id port to (magic ∷ more) =
    client_sends
      (spiffy_sendto h.sendto (init_spiffy h id port) (client_packet h magic) data_packet_len
        (local_addr h to))
      (h.atoi magic)

pub client_bound : Bool → Host → List ℕ → List ℕ → List ℕ → List (List ℕ) → ClientEnd
unfolding client_run
client_bound false h id port to more = aborted
client_bound true h id port to more = client_run h id port to more

-- `main` of client.c.
pub client_main : Host → List (List ℕ) → ClientEnd
unfolding client_bound
client_main h [] = usage
client_main h (_ ∷ []) = usage
client_main h (_ ∷ _ ∷ []) = usage
client_main h (_ ∷ _ ∷ _ ∷ []) = usage
client_main h (_ ∷ id ∷ port ∷ to ∷ more) = client_bound h.bound h id port to more

-- A round of the loop of server.c, with the new block of `spiffy_recvfrom`: the buffer, and the
-- number that is printed. The result of the call is not looked at.
pub server_turn : Spiffy → List ℕ → Incoming → List ℕ → Option (List ℕ × ℕ)
server_turn st block incoming buf = do
  r ← spiffy_recvfrom st block incoming buflen
  buf' ← put buf 0 r.written
  some (buf', ntohs buf' 0)

-- `main` of server.c up to its loop, if it is given a number and a port.
pub server_start : Host → List (List ℕ) → Option Spiffy
unfolding init_spiffy
server_start h [] = none
server_start h (_ ∷ []) = none
server_start h (_ ∷ _ ∷ []) = none
server_start h (_ ∷ id ∷ port ∷ more) = some (init_spiffy h id port)

-- The lines that test_input_buffer.c prints for so many reads; `none` is a fault, and an end by
-- `exit` ends the list.
pub print_lines : List (List ℕ) → Handled → Option (List (List ℕ))
print_lines [] (handled lines b) = some lines
print_lines [] Handled.fault = none
print_lines [] Handled.running = none
print_lines [] exited = some []
print_lines (input ∷ inputs) (handled lines b) = do
  more ← print_lines inputs (process_user_input input b)
  some (lines ++ more)
print_lines (input ∷ inputs) Handled.fault = none
print_lines (input ∷ inputs) Handled.running = none
print_lines (input ∷ inputs) exited = some []
