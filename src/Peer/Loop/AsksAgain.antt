-- ===== src/Peer/Loop/AsksAgain.antt =====
-- When the loop of `peer_run` asks for chunks again.
use p2pdown_loader.Prelude.{
  ℕ, ◌+◌, ◌<◌, ◌≡◌, refl, sym, subst, ap, ◌∙◌, List, [], ◌∷◌, some, true, lt→ltb, length, pos,
  ltb_ℤ, arith,
}
use p2pdown_loader.Net.{BtPeer}
use p2pdown_loader.HashList.{Nodes, find_node}
use p2pdown_loader.Discovery.{DownloadConn, in_hand}
use p2pdown_loader.Discovery.Batches.{IsSized, wanted}
use p2pdown_loader.Discovery.Asking.{AsksFor, IsBatches, whohas_sender-IsBatches}
use p2pdown_loader.Download.{check_timeout, timeout_loop, get_sender, pick_tosend_get, pick_loop}
use p2pdown_loader.Download.Tally.{IsTallied}
use p2pdown_loader.Peer.Loop.{request_turn}

abbrev pub hashes_of : {F : Type 0} → Nodes F → List (List ℕ)
hashes_of [] = []
hashes_of (n ∷ list) = n.hash ∷ hashes_of list

module _ {F : Type 0} where
  -- Downloads of which none is under way, with `k` chunks finished.
  abbrev needy : ℕ → ℕ → Nodes F → DownloadConn F
  needy m k need = record {
    concurr_download_num = pos 0;
    max_download_num = pos m;
    howmany_found = pos k;
    howmany_need = pos (k + length need);
    needlist = need;
    get_tosend_quene = [];
    get_sent_list = [];
    downloading_list = [];
  }

  wanted-all : (m k : ℕ) (need list : Nodes F) → wanted (needy m k need) list ≡ hashes_of list
  unfolding in_hand find_node
  wanted-all m k need [] = refl
  wanted-all m k need (n ∷ list) = ap (λ hs. n.hash ∷ hs) (wanted-all m k need list)

  abbrev Asks : ℕ → List BtPeer → (ℕ → List ℕ) → ℕ → Nodes F → DownloadConn F → Type 0
  Asks now peers inet_ntoa id need d =
      AsksFor (hashes_of need) peers id
        (λ sent. request_turn inet_ntoa now peers id d ≡ some (d, sent))

  needy-Asks :
      (m k : ℕ) (need : Nodes F) (inet_ntoa : ℕ → List ℕ) (now : ℕ) (peers : List BtPeer) (id : ℕ)
      → 0 < m
      → 0 < length need
      → IsSized need
      → Asks now peers inet_ntoa id need (needy m k need)
  unfolding request_turn check_timeout timeout_loop get_sender pick_tosend_get pick_loop
  needy-Asks m k need inet_ntoa now peers id room some_left s =
      let (bs, sent, are, go, run) =
        whohas_sender-IsBatches (needy m k need) (length need + 1) need peers id s (omega arith) in
      let missing : ltb_ℤ (pos k) (pos (k + length need)) ≡ true = lt→ltb _ _ (omega arith) in
      let free : ltb_ℤ (pos 0) (pos m) ≡ true = lt→ltb _ _ (omega arith) in
      (
        bs,
        sent,
        subst (λ hs. IsBatches hs bs) (wanted-all m k need need) are,
        go,
        rw (missing, free, run, request_turn) refl,
      )

  -- With room for a download, when a chunk is still needed but nothing is queued, asked for or
  -- coming in, and the counters are right: a turn of the loop sends every other peer, in packets of up to 50 hashes, the
  -- hashes of all chunks that are needed, and leaves the lists and counters as they are, so that the next turn asks again.
  pub request_turn-asks :
      (m k : ℕ) (d : DownloadConn F) (inet_ntoa : ℕ → List ℕ) (now : ℕ) (peers : List BtPeer)
      (id : ℕ)
      → IsTallied m k d
      → 0 < m
      → 0 < length d.needlist
      → IsSized d.needlist
      → d.get_tosend_quene ≡ []
      → d.get_sent_list ≡ []
      → d.downloading_list ≡ []
      → AsksFor
          (hashes_of d.needlist)
          peers
          id
          (λ sent. request_turn inet_ntoa now peers id d ≡ some (d, sent))
  request_turn-asks m k d inet_ntoa now peers id (c, b, x, f, n) room some_left s q1 q2 q3 =
      subst (Asks now peers inet_ntoa id d.needlist) (sym same)
        (needy-Asks m k d.needlist inet_ntoa now peers id room some_left s)
    where
      none_counted : d.concurr_download_num ≡ pos 0
      none_counted = c ∙ ap pos (omega (arith, ap length q2, ap length q3))

      found_is : d.howmany_found ≡ pos k
      found_is = f ∙ ap pos (omega (arith, ap length q1, ap length q2, ap length q3))

      same : d ≡ needy m k d.needlist
      same = λ i. record {
        concurr_download_num = none_counted i;
        max_download_num = x i;
        howmany_found = found_is i;
        howmany_need = n i;
        needlist = d.needlist;
        get_tosend_quene = q1 i;
        get_sent_list = q2 i;
        downloading_list = q3 i;
      }
