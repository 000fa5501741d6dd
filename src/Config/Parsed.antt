-- ===== src/Config/Parsed.antt =====
-- What a configuration that bt_parse.c accepts is good for.
use p2pdown_loader.Prelude.{◌<◌, ◌≡◌, ◌≢◌, some, length}
use p2pdown_loader.Net.{BtPeer}
use p2pdown_loader.Config.{
  BtConfig, bt_peer_info, Configured, configured, exits, fault, bt_filename_len,
}

-- What holds of a configuration, if there is one.
abbrev Holding : (BtConfig → Type 0) → Configured → Type 0
Holding P (configured c) = P c
Holding P exits = Unit {0}
Holding P fault = Unit {0}

-- The names have room for the zero at their ends.
abbrev pub IsFitting : BtConfig → Type 0
IsFitting c =
    (length c.chunk_file < bt_filename_len)
    × (length c.has_chunk_file < bt_filename_len)
    × (length c.output_file < bt_filename_len)
    × (length c.peer_list_file < bt_filename_len)

-- What a peer needs to run.
pub record IsReady (c : BtConfig) : Type 0 where
  pub fitting : IsFitting c
  pub has_identity : c.identity ≢ 0
  pub self : BtPeer
  pub self_is : bt_peer_info c.peers c.identity ≡ some self
  pub port_is : c.myport ≡ self.addr.port
  pub chunks_named : 0 < length c.chunk_file
  pub has_named : 0 < length c.has_chunk_file
