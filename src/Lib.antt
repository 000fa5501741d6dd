-- ===== src/Lib.antt =====
-- A model of the peer-to-peer file downloader: chunks of 512 KB of a file are found by their hashes
-- and fetched from other peers over UDP, by a sliding window with ACKs and congestion control.
--
-- The parts, and how they interact. A peer that wants chunks broadcasts their hashes in WHOHAS
-- packets; peers that have some of them answer by IHAVE packets; the peer then queues a GET request
-- for each and sends it; the other peer puts the chunk into a window of numbered DATA packets and
-- sends them as ACKs come in; the receiver puts the chunk together, checks its hash and writes it.
-- * Packet (packet.h, packet.c): `Packet` is the struct `packet`; `serial_pack` and `binary2packet`
--   are the functions of these names, `form_data_pack` and `form_ack_pack` are `form_DATA_pack` and
--   `form_ACK_pack`.
-- * Framing (packet.c, peer.c): `Buf` is the struct `buf`; `get_firststream`, `get_firstpack` and
--   `process_inbound_udp`, whose call of `dealwithincomepack` is the list of packets handed over.
-- * Net (sock_io.c, bt_parse.h): `send_pack` and `broadcast`; a datagram is its address and bytes.
-- * Window (sock_io.h, sock_io.c): `Window`, `create_sw`, `p2p_sender`, `window_sender`,
--   `check_datapack_timeout` and `upon_receive_ack`.
-- * Receiver (sock_io.h, sock_io.c): `RecvState`, `create_recver`, `upon_receiving_datapack`, `reap`
--   and `check_onechunk_hash`.
-- * Release (packet.c, sock_io.c, hashlist.c): `del_packet`, `release_window`, `del_recver` for
--   `del_Recver`, and `free_node`, which is what `delete_node` frees with a node.
-- * HashList (hashlist.h, hashlist.c): the linked lists of chunks. A list is the sequence of its
--   nodes, and a pointer to a node is the node's identity.
-- * Discovery (hashlist.c, peer.c): `form_whohas`, `form_ihav`, `form_get`, `whohas_sender` and
--   `ihav_sender`, over the lists of `DownloadConn`.
-- * Download (peer.c): `check_timeout`, `get_sender`, `pick_tosend_get`, `fill_toget_list`,
--   `init_download`, `finish_one_download` and `check_recvdata_timeout`.
-- * Peer (peer.c, sock_io.c): `dealwithincomepack`, by the cases `ihav_sender`, `fill_toget_list`,
--   `receive_get`, `receive_data` and `receive_ack`; `init_upload`, `send_onechunk`, `abort_upload`
--   and `check_recvack_timeout`.
-- * Peer/Get (peer.c, hashlist.c): `handle_user_input`, `reset_mydownload`, `complete_mydownload`,
--   `init_peerme` and `parse_hasneed_list`.
-- * Peer/Main (peer.c): `peer_start` is `main` and `peer_run` up to its loop, once the command line
--   was parsed, and `run_turn` is a whole turn of the loop: `inbound_packs` is `process_inbound_udp`
--   with its calls of `dealwithincomepack`, `input_turn` is `process_user_input` with its calls of
--   `handle_user_input`, and `transfer_turn` is the rest. The downloads of a file are counted in
--   Download/Tally, and those of a whole run in Peer/Main/Counting.
-- * Peer/Loop (peer.c): a turn of the loop of `peer_run`: `request_turn` is what it does with the
--   requests, `upload_loop` and `download_loop` are its loops over the two lists of transfers.
-- * Transfer (sock_io.c, peer.c): a `Window` and a `RecvState` of two peers, with their receive
--   buffers, joined by a network. A step is one call of `window_sender`, `check_datapack_timeout`,
--   `upon_receiving_datapack` or `upon_receive_ack`; any datagram that was ever sent may arrive.
-- * Chunk (chunk.h, chunk.c, make_chunks.c): `binary2hex` and `hex2binary`; in Chunk/Make the function
--   `make_chunks`, and `get_numchunks` and `main` of the program that lists the chunks of a file. The
--   list is read back in Peer/Get/Listing.
-- * InputBuffer (input_buffer.h, input_buffer.c): `create_userbuf` and `process_user_input`, whose
--   calls of `handle_line` are the list of lines handed on.
-- * Spiffy (spiffy.h, spiffy.c): `spiffy_sendto`, `spiffy_recvfrom` and `spiffy_init`.
-- * Config (bt_parse.h, bt_parse.c, debug.c): `bt_init`, `bt_parse_command_line`, with the options
--   that `getopt` finds, `bt_parse_peer_list`, `bt_peer_info` and `set_debug`.
-- * Programs (client.c, server.c, test_input_buffer.c): `client_main`, `server_turn` and
--   `print_lines`, the programs with which spiffy.c and input_buffer.c are tried out.
-- * Prelude has the shared helpers, and Tests the theorems at concrete values.
--
-- Conventions. Memory is a list of bytes or of slots; a read or write out of bounds or through a
-- null pointer is `none` (or `fault`), which C leaves undefined. Numbers are natural numbers; the
-- unsigned fields wrap around as in the source, and a signed field is an integer where it may
-- become negative. Results of the system (the time, the bytes received, what `write` returned) are
-- arguments. `malloc` is taken to succeed.
--
-- Fuel. `drain` has 101 rounds: every round takes at least 15 of at most 1500 bytes. `fill` has one
-- round more than the chunk has bytes, and every round takes 1024. `pick_loop` has one round more
-- than the two lists that it may walk have nodes; `whohas_sender` needs one more than its list has.
-- `line_loop` has one round for every byte of the block, and every round takes a newline out of it.
--
-- `make_loop` has one round more than the file has chunks, and `decimal_digits` one more than the
-- number.
--
-- Not modelled. The arithmetic of `float` is a parameter (`FloatOps`), and where it matters it is
-- assumed to be exact on integers below 2^24. The digest of sha.c, `inet_ntoa`, `sscanf`, `atoi`,
-- `gethostbyname`, and what files and standard input hold are parameters too; `pread` reads the whole
-- range that the file has. Left out are
-- the sockets and `select`, whose results are part of the events, and all
-- printing and logging but that of the programs above, as they only move bytes between the system
-- and these parts.
pub mod Prelude
pub mod Packet
pub mod Framing
pub mod Net
pub mod Window
pub mod Receiver
pub mod Release
pub mod HashList
pub mod Discovery
pub mod Download
pub mod Chunk
pub mod Peer
pub mod Programs
pub mod Spiffy
pub mod Config
pub mod InputBuffer
pub mod Transfer
pub mod Tests
