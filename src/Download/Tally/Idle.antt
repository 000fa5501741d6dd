-- ===== src/Download/Tally/Idle.antt =====
-- Downloads of peer.c with empty lists, as they are before a GET command and after the last chunk.
use p2pdown_loader.Prelude.{
  ℕ, zero, suc, ◌+◌, ◌*◌, ◌≡◌, subst, List, [], Option, none, some, some_inj, Option-cases, inl,
  inr, slice, ℤ, pos, ◌+ℤ◌, arith,
}
use p2pdown_loader.Net.{Addr, Datagram}
use p2pdown_loader.HashList.{hash_size, find_node}
use p2pdown_loader.Discovery.{DownloadConn}
use p2pdown_loader.Download.{
  timeout_loop, check_timeout, pick_loop, pick_tosend_get, get_sender, fill_toget_list,
}
use p2pdown_loader.Download.Tally.{IsTallied, check_timeout-IsTallied}
use p2pdown_loader.Download.Tally.Sending.{get_sender-IsTallied}
use p2pdown_loader.Download.Tally.Filling.{fill_toget_list-IsTallied}

module _ {F : Type 0} where
  abbrev pub idle : ℤ → ℤ → ℤ → ℤ → DownloadConn F
  idle c x f n = record {
    concurr_download_num = c;
    max_download_num = x;
    howmany_found = f;
    howmany_need = n;
    needlist = [];
    get_tosend_quene = [];
    get_sent_list = [];
    downloading_list = [];
  }

  -- Nothing is needed, and nothing is under way.
  pub data IsIdle : DownloadConn F → Type 0 where
    lists_empty : (c x f n : ℤ) → IsIdle (idle c x f n)

  check_timeout-IsIdle :
      (now : ℕ) (d d' : DownloadConn F) (count : ℕ)
      → check_timeout now d ≡ some (d', count)
      → IsIdle d
      → IsIdle d'
  unfolding check_timeout timeout_loop
  check_timeout-IsIdle now d d' count e (lists_empty c x f n) =
      subst (λ (y : DownloadConn F × ℕ). IsIdle y.0) (some_inj e) (lists_empty c x f n)

  get_sender-IsIdle :
      (inet_ntoa : ℕ → List ℕ) (now : ℕ) (d d' : DownloadConn F) (gets : List Datagram)
      → get_sender inet_ntoa now d ≡ some (d', gets)
      → IsIdle d
      → IsIdle d'
  unfolding get_sender pick_tosend_get pick_loop
  get_sender-IsIdle inet_ntoa now d d' gets e (lists_empty c x f n) =
      subst (λ (y : DownloadConn F × List Datagram). IsIdle y.0) (some_inj e)
        (lists_empty (c +ℤ pos 0) x f n)

  fill_toget_list-IsIdle :
      (inet_ntoa : ℕ → List ℕ) (malloc : ℕ → ℕ) (from : Addr) (payload : Option (List ℕ))
      (left count : ℕ) (d d' : DownloadConn F)
      → fill_toget_list inet_ntoa malloc from payload left count d ≡ some d'
      → IsIdle d
      → IsIdle d'
  unfolding fill_toget_list find_node
  fill_toget_list-IsIdle inet_ntoa malloc from payload zero count d d' e i =
      subst IsIdle (some_inj e) i
  fill_toget_list-IsIdle inet_ntoa malloc from none (suc left) count d d' e i = cc
  fill_toget_list-IsIdle inet_ntoa malloc from (some hashes) (suc left) count d d' e
        (lists_empty c x f n) =
      elim (Option-cases (slice hashes (count * hash_size) hash_size)) [
        | inl g ↦ absurd (ground (arith, rw (g, fill_toget_list) at e))
        | inr (hash, g) ↦
            fill_toget_list-IsIdle inet_ntoa malloc from (some hashes) left (count + 1)
              (idle c x f n) d' (rw (g, fill_toget_list) at e) (lists_empty c x f n)
      ]

-- The counters are right, or nothing is needed and nothing under way.
pub data IsCounted {F : Type 0} (m : ℕ) (d : DownloadConn F) : Type 0 where
  tallied : (k : ℕ) → IsTallied m k d → IsCounted m d
  is_idle : IsIdle d → IsCounted m d

module _ {F : Type 0} where
  pub get_sender-IsCounted :
      (inet_ntoa : ℕ → List ℕ) (m now : ℕ) (d d' : DownloadConn F) (gets : List Datagram)
      → get_sender inet_ntoa now d ≡ some (d', gets)
      → IsCounted m d
      → IsCounted m d'
  get_sender-IsCounted inet_ntoa m now d d' gets e (tallied k t) =
      tallied k (get_sender-IsTallied inet_ntoa m k now d d' gets e t)
  get_sender-IsCounted inet_ntoa m now d d' gets e (is_idle i) =
      is_idle (get_sender-IsIdle inet_ntoa now d d' gets e i)

  pub check_timeout-IsCounted :
      (m now : ℕ) (d d' : DownloadConn F) (count : ℕ)
      → check_timeout now d ≡ some (d', count)
      → IsCounted m d
      → IsCounted m d'
  check_timeout-IsCounted m now d d' count e (tallied k t) =
      tallied k (check_timeout-IsTallied m k now d d' count e t)
  check_timeout-IsCounted m now d d' count e (is_idle i) =
      is_idle (check_timeout-IsIdle now d d' count e i)

  pub fill_toget_list-IsCounted :
      (inet_ntoa : ℕ → List ℕ) (m : ℕ) (malloc : ℕ → ℕ) (from : Addr) (payload : Option (List ℕ))
      (left count : ℕ) (d d' : DownloadConn F)
      → fill_toget_list inet_ntoa malloc from payload left count d ≡ some d'
      → IsCounted m d
      → IsCounted m d'
  fill_toget_list-IsCounted inet_ntoa m malloc from payload left count d d' e (tallied k t) =
      tallied k (fill_toget_list-IsTallied inet_ntoa m k malloc from payload left count d d' e t)
  fill_toget_list-IsCounted inet_ntoa m malloc from payload left count d d' e (is_idle i) =
      is_idle (fill_toget_list-IsIdle inet_ntoa malloc from payload left count d d' e i)
