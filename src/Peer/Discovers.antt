-- ===== src/Peer/Discovers.antt =====
-- Discovery between two peers (peer.c): a WHOHAS packet, the IHAVE packet that answers it, and the
-- requests that come of that.
use p2pdown_loader.Prelude.{
  ℕ, ◌<◌, ◌≤◌, ◌≡◌, refl, ap, ◌∙◌, List, [], ◌∷◌, some, true, Bool-cases, inl, inr, ltb, lt→ltb,
  length,
}
use p2pdown_loader.Packet.RoundTrip.{wire}
use p2pdown_loader.Net.{Addr}
use p2pdown_loader.Window.{FloatOps}
use p2pdown_loader.HashList.{Nodes, find_node}
use p2pdown_loader.Discovery.{is_some}
use p2pdown_loader.Discovery.Batches.{flat, IsHashes}
use p2pdown_loader.Discovery.Asking.{whohas_pack}
use p2pdown_loader.Discovery.Answering.{held, held-IsHashes, ihav_pack, ihav_sender-held}
use p2pdown_loader.Download.{fill_toget_list}
use p2pdown_loader.Download.Heard.{
  IsOther, IsDistinct, IsNew, waiting, queued_for, fill_toget_list-queued,
}
use p2pdown_loader.Peer.{System, PeerMe, dealwithincomepack}

module _ {F : Type 0} (haslist : Nodes F) where
  held-IsOther :
      (hash : List ℕ) (hs : List (List ℕ)) → IsOther hash hs → IsOther hash (held haslist hs)
  held-IsOther hash [] o = IsOther.nil
  held-IsOther hash (h ∷ hs) (IsOther.cons ne o) =
      elim (Bool-cases (is_some (find_node haslist h))) [
        | inl f ↦ rw f (IsOther.cons ne (held-IsOther hash hs o))
        | inr f ↦ rw f (held-IsOther hash hs o)
      ]

  held-IsDistinct : (hs : List (List ℕ)) → IsDistinct hs → IsDistinct (held haslist hs)
  held-IsDistinct [] d = IsDistinct.nil
  held-IsDistinct (h ∷ hs) (IsDistinct.cons o d) =
      elim (Bool-cases (is_some (find_node haslist h))) [
        | inl f ↦ rw f (IsDistinct.cons (held-IsOther h hs o) (held-IsDistinct hs d))
        | inr f ↦ rw f (held-IsDistinct hs d)
      ]

IsNew-empty : {F : Type 0} (hs : List (List ℕ)) → IsNew {F = F} [] hs
unfolding find_node
IsNew-empty [] = IsNew.nil
IsNew-empty (h ∷ hs) = IsNew.cons refl (IsNew-empty hs)

module _ (fl : FloatOps) where
  open fl use {Float}

  -- A peer with nothing under way sends a WHOHAS packet with up to 50 distinct hashes to a peer that
  -- has the chunks of some of them. The other peer answers with one IHAVE packet of those hashes, and
  -- changes nothing; and when the first peer gets that packet, it queues one request to the other
  -- peer for each of them that it needs, counts them as found, and changes nothing else.
  pub dealwithincomepack-discovers :
      (sys_a sys_b : System) (addr_a addr_b : Addr) (a b : PeerMe Float) (m k : ℕ)
      (need : Nodes Float) (hs : List (List ℕ))
      → IsHashes hs
      → length hs ≤ 50
      → IsDistinct hs
      → 0 < length (held b.haslist hs)
      → a.mydownload ≡ waiting m k need []
      → (dealwithincomepack fl sys_b (whohas_pack hs) addr_a b
          ≡ some (
            b,
            record {
              to = addr_a;
              bytes = wire (ihav_pack (held b.haslist hs)) (flat (held b.haslist hs));
            }
                ∷ [],
          ))
        × (dealwithincomepack fl sys_a (ihav_pack (held b.haslist hs)) addr_b a
            ≡ some (
              record a {
                mydownload =
                    waiting m k need (queued_for sys_a.malloc addr_b need (held b.haslist hs) 0 []);
              },
              [],
            ))
  unfolding dealwithincomepack
  dealwithincomepack-discovers sys_a sys_b addr_a addr_b a b m k need hs i few d some_there idle =
      let known : List (List ℕ) = held b.haslist hs in
      let there : ltb 0 (length known) ≡ true = lt→ltb _ _ some_there in
      let heard : fill_toget_list sys_a.inet_ntoa sys_a.malloc addr_b (some (flat known))
            (length known) 0 a.mydownload
          ≡ some (waiting m k need (queued_for sys_a.malloc addr_b need known 0 [])) =
        ap
          (fill_toget_list sys_a.inet_ntoa sys_a.malloc addr_b (some (flat known)) (length known) 0)
          idle
        ∙ fill_toget_list-queued sys_a.inet_ntoa sys_a.malloc addr_b m k need [] [] known 0 refl
            (held-IsHashes b.haslist i) (held-IsDistinct b.haslist hs d) (IsNew-empty known) in
      (
        rw (ihav_sender-held b.haslist (whohas_pack hs) hs addr_a i few refl refl, there) refl,
        rw (heard) refl,
      )
