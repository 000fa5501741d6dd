-- ===== src/Config.antt =====
-- The configuration of a peer: the command line and the list of peers, as bt_parse.c reads them, and
-- the test of the argument of `-d` in debug.c. Texts are lists of character codes, less the zero at
-- the end.
pub mod Parsed
use p2pdown_loader.Prelude.{
  ℕ, zero, suc, ◌+◌, ◌-◌, ◌%◌, ◌^◌, List, [], ◌∷◌, ◌++◌, Option, none, some, Bool, true, false,
  ◌||◌, ltb, ◌==◌, if◌then◌else◌, length, bytes_eq, ℤ, pos, negsuc,
}
use p2pdown_loader.Packet.{u16}
use p2pdown_loader.Net.{Addr, BtPeer}
use p2pdown_loader.Peer.Get.{is_comment}

abbrev pub bt_filename_len : ℕ
bt_filename_len = 255

-- `bt_config_t`, less the arguments. `identity` is the 16 bits of a `short`, as are the numbers of
-- the peers.
pub record BtConfig : Type 0 where
  pub chunk_file : List ℕ
  pub has_chunk_file : List ℕ
  pub output_file : List ℕ
  pub peer_list_file : List ℕ
  pub max_conn : ℤ
  pub identity : ℕ
  pub myport : ℕ
  pub peers : List BtPeer

-- `bt_init`, with "output.dat" and "nodes.map".
abbrev pub bt_init : BtConfig
bt_init = record {
  chunk_file = [];
  has_chunk_file = [];
  output_file = 111 ∷ 117 ∷ 116 ∷ 112 ∷ 117 ∷ 116 ∷ 46 ∷ 100 ∷ 97 ∷ 116 ∷ [];
  peer_list_file = 110 ∷ 111 ∷ 100 ∷ 101 ∷ 115 ∷ 46 ∷ 109 ∷ 97 ∷ 112 ∷ [];
  max_conn = pos 0;
  identity = 0;
  myport = 0;
  peers = [];
}

-- `bt_peer_info`: the first peer with a number.
unfoldable pub bt_peer_info : List BtPeer → ℕ → Option BtPeer
bt_peer_info [] peer_id = none
bt_peer_info (p ∷ peers) peer_id = if p.id == peer_id then some p else bt_peer_info peers peer_id

-- An `int` put into 16 bits.
unfoldable pub low_bits : ℤ → ℕ
low_bits (pos n) = n % 2 ^ 16
low_bits (negsuc n) = 2 ^ 16 - 1 - n % 2 ^ 16

-- Does `set_debug` take its argument? `?` and `list` only print what there is.
pub set_debug : List ℕ → Bool
set_debug [] = false
set_debug (c ∷ arg) =
    if c == 63 || bytes_eq (c ∷ arg) (108 ∷ 105 ∷ 115 ∷ 116 ∷ []) then false else true

-- What `getopt` finds: an option with its argument, or one that is unknown.
pub data Opt : Type 0 where
  help : Opt
  debug_level : List ℕ → Opt
  peer_list : List ℕ → Opt
  has_chunks : List ℕ → Opt
  chunks : List ℕ → Opt
  max_connections : List ℕ → Opt
  own_id : List ℕ → Opt
  unknown : Opt

-- How the parsing ends: with a configuration, with the end of the program by `exit` or `assert`, or
-- with a fault.
pub data Configured : Type 0 where
  configured : BtConfig → Configured
  exits : Configured
  fault : Configured

-- `strcpy` into one of the names, which have room for 254 characters.
unfoldable pub copy_name : List ℕ → (List ℕ → BtConfig) → Configured
copy_name arg put = if ltb (length arg) bt_filename_len then configured (put arg) else fault

unfoldable pub and_then : Configured → (BtConfig → Configured) → Configured
and_then (configured c) f = f c
and_then exits f = exits
and_then fault f = fault

module _ (atoi : List ℕ → ℤ) where
  unfoldable pub read_option : Opt → BtConfig → Configured
  unfolding set_debug copy_name low_bits
  read_option help c = exits
  read_option (debug_level arg) c = if set_debug arg then configured c else exits
  read_option (peer_list arg) c = copy_name arg (λ a. record c { peer_list_file = a })
  read_option (has_chunks arg) c = copy_name arg (λ a. record c { has_chunk_file = a })
  read_option (chunks arg) c = copy_name arg (λ a. record c { chunk_file = a })
  read_option (max_connections arg) c = configured (record c { max_conn = atoi arg })
  read_option (own_id arg) c = configured (record c { identity = low_bits (atoi arg) })
  read_option unknown c = exits

  -- The loop of `bt_parse_command_line`.
  unfoldable pub read_options : List Opt → BtConfig → Configured
  unfolding read_option and_then
  read_options [] c = configured c
  read_options (o ∷ opts) c = and_then (read_option o c) (read_options opts)

-- What `sscanf` finds of a number, a word and a number in a line of the list of peers.
pub data PeerLine : Type 0 where
  ended : PeerLine
  unmatched : PeerLine
  id_alone : ℤ → PeerLine
  id_host : ℤ → List ℕ → PeerLine
  whole : ℤ → List ℕ → ℤ → PeerLine

-- The variables of the loop, which keep what a line does not give.
pub record PeerVars : Type 0 where
  pub nodeid : ℤ
  pub hostname : List ℕ
  pub port : ℤ

unfoldable pub assign : PeerLine → PeerVars → Option PeerVars
assign ended v = some v
assign unmatched v = none
assign (id_alone n) v = some (record v { nodeid = n })
assign (id_host n h) v = some (record v { nodeid = n; hostname = h })
assign (whole n h p) v = some (record { nodeid = n; hostname = h; port = p })

module _ (scan : List ℕ → PeerLine) (gethostbyname : List ℕ → Option ℕ) where
  -- A node for a line, in front of those before.
  unfoldable pub add_peer : PeerVars → List BtPeer → Option (List BtPeer)
  unfolding low_bits
  add_peer v peers = elim (gethostbyname v.hostname) [
    | none ↦ none
    | some ip ↦ some (
        record { id = low_bits v.nodeid; addr = record { ip = ip; port = low_bits v.port } }
        ∷ peers)
  ]

  -- The loop of `bt_parse_peer_list` over the lines that `fgets` gives; `none` is a failed `assert`.
  unfoldable pub parse_peers : List (List ℕ) → PeerVars → List BtPeer → Option (List BtPeer)
  unfolding assign add_peer
  parse_peers [] v peers = some peers
  parse_peers (line ∷ lines) v peers = elim (is_comment line) [
    | true ↦ parse_peers lines v peers
    | false ↦ elim (assign (scan line) v) [
      | none ↦ none
      | some v' ↦ elim (add_peer v' peers) [
        | none ↦ none
        | some peers' ↦ parse_peers lines v' peers'
      ]
    ]
  ]

  -- `bt_parse_peer_list`. `open_lines` gives the lines of a file, if it can be opened, and `v` is what
  -- the variables hold before they are set.
  unfoldable pub bt_parse_peer_list :
      (List ℕ → Option (List (List ℕ))) → PeerVars → BtConfig → Configured
  unfolding parse_peers
  bt_parse_peer_list open_lines v c = elim (open_lines c.peer_list_file) [
    | none ↦ exits
    | some lines ↦ elim (parse_peers lines v c.peers) [
      | none ↦ exits
      | some peers ↦ configured (record c { peers = peers })
    ]
  ]

-- The port of the peer that the configuration is for, and the two files without which it is none.
unfoldable pub set_port : BtConfig → Option BtPeer → Configured
set_port c none = exits
set_port c (some p) =
    if (length c.chunk_file == 0) || (length c.has_chunk_file == 0)
    then exits
    else configured (record c { myport = p.addr.port })

-- What `bt_parse_command_line` does once the list of peers is there.
unfoldable pub check_config : BtConfig → Configured
unfolding set_port bt_peer_info
check_config c = if c.identity == 0 then exits else set_port c (bt_peer_info c.peers c.identity)

-- `bt_parse_command_line` of the options that `getopt` finds.
unfoldable pub bt_parse_command_line :
    (List ℕ → ℤ)
    → (List ℕ → PeerLine)
    → (List ℕ → Option ℕ)
    → (List ℕ → Option (List (List ℕ)))
    → PeerVars
    → List Opt
    → BtConfig
    → Configured
unfolding and_then read_options bt_parse_peer_list check_config
bt_parse_command_line atoi scan gethostbyname open_lines v opts c =
    and_then (read_options atoi opts c)
      (λ c'. and_then (bt_parse_peer_list scan gethostbyname open_lines v c') check_config)
