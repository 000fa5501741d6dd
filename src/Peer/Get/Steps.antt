-- ===== src/Peer/Get/Steps.antt =====
-- The course of a file's downloads (peer.c), from the GET command on: every operation that changes
-- the counters or the lists that they count.
use p2pdown_loader.Prelude.{ℕ, zero, suc, ◌<◌, ◌≡◌, List, Option, some, length, pos}
use p2pdown_loader.Net.{Addr, Datagram}
use p2pdown_loader.HashList.{HashChunk, find_node_by_addr}
use p2pdown_loader.HashList.Lengths.{find_node_by_addr-length}
use p2pdown_loader.Discovery.{DownloadConn}
use p2pdown_loader.Download.{
  check_timeout, get_sender, init_download, finish_one_download, check_recvdata_timeout,
  fill_toget_list,
}
use p2pdown_loader.Download.Tally.{IsTallied, check_timeout-IsTallied}
use p2pdown_loader.Download.Tally.Ending.{
  init_download-IsTallied, finish_one_download-IsTallied, check_recvdata_timeout-IsTallied,
}
use p2pdown_loader.Download.Tally.Sending.{get_sender-IsTallied}
use p2pdown_loader.Download.Tally.Filling.{fill_toget_list-IsTallied}
use p2pdown_loader.Peer.Get.{Files, reset_mydownload}
use p2pdown_loader.Peer.Get.Counted.{reset_mydownload-IsTallied}

-- The downloads after a GET command and any number of operations, of which `k` finished a chunk. A
-- request becomes a download if it was found; a download ends only if there is one.
pub data Course {F : Type 0} (m : ℕ) : ℕ → DownloadConn F → Type 0 where
  begins :
      (files : Files) (addr : Addr) (chunkid : ℕ) (lines : Option (List (List ℕ)))
      (d d' : DownloadConn F)
      → reset_mydownload files addr chunkid (pos m) lines d ≡ some d'
      → Course m zero d'
  drops :
      (now count k : ℕ) (d d' : DownloadConn F)
      → Course m k d
      → check_timeout now d ≡ some (d', count)
      → Course m k d'
  asks :
      (inet_ntoa : ℕ → List ℕ) (now k : ℕ) (d d' : DownloadConn F) (gets : List Datagram)
      → Course m k d
      → get_sender inet_ntoa now d ≡ some (d', gets)
      → Course m k d'
  hears :
      (inet_ntoa : ℕ → List ℕ) (malloc : ℕ → ℕ) (from : Addr) (payload : Option (List ℕ))
      (hashes k : ℕ) (d d' : DownloadConn F)
      → Course m k d
      → fill_toget_list inet_ntoa malloc from payload hashes 0 d ≡ some d'
      → Course m k d'
  starts :
      (inet_ntoa : ℕ → List ℕ) (from : Addr) (conn : HashChunk F) (now k : ℕ)
      (d d' : DownloadConn F)
      → Course m k d
      → find_node_by_addr inet_ntoa d.get_sent_list from ≡ some conn
      → init_download now conn d ≡ some d'
      → Course m k d'
  finishes :
      (curr : HashChunk F) (k : ℕ) (d d' : DownloadConn F)
      → Course m k d
      → 0 < length d.downloading_list
      → finish_one_download curr d ≡ some d'
      → Course m (suc k) d'
  gives_up :
      (curr : HashChunk F) (now count k : ℕ) (d d' : DownloadConn F)
      → Course m k d
      → 0 < length d.downloading_list
      → check_recvdata_timeout now curr d ≡ some (d', count)
      → Course m k d'

-- From a GET command on, whatever operations follow, with `k` chunks finished: the downloads that
-- are counted are the requests sent and the chunks that come in, at most `max_conn`; the chunks that
-- count as found are those in the three lists and those finished; and the chunks of the file are
-- those still needed and those finished.
pub Course-IsTallied : {F : Type 0} (m k : ℕ) (d : DownloadConn F) → Course m k d → IsTallied m k d
Course-IsTallied m _ _ (begins files addr chunkid lines d d' e) =
    reset_mydownload-IsTallied files addr chunkid m lines d d' e
Course-IsTallied m _ _ (drops now count k d d' c e) =
    check_timeout-IsTallied m k now d d' count e (Course-IsTallied m k d c)
Course-IsTallied m _ _ (asks inet_ntoa now k d d' gets c e) =
    get_sender-IsTallied inet_ntoa m k now d d' gets e (Course-IsTallied m k d c)
Course-IsTallied m _ _ (hears inet_ntoa malloc from payload hashes k d d' c e) =
    fill_toget_list-IsTallied inet_ntoa m k malloc from payload hashes 0 d d' e
      (Course-IsTallied m k d c)
Course-IsTallied m _ _ (starts inet_ntoa from conn now k d d' c found e) =
    init_download-IsTallied m k now conn d d'
      (find_node_by_addr-length inet_ntoa d.get_sent_list from conn found) e
      (Course-IsTallied m k d c)
Course-IsTallied m _ _ (finishes curr k d d' c some_left e) =
    finish_one_download-IsTallied m k curr d d' some_left e (Course-IsTallied m k d c)
Course-IsTallied m _ _ (gives_up curr now count k d d' c some_left e) =
    check_recvdata_timeout-IsTallied m k now curr d d' count some_left e (Course-IsTallied m k d c)
