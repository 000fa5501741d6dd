-- ===== src/Transfer/Promise.antt =====
-- What a transfer promises, without packets, marks and buffers: the receiver's part of the chunk
-- grows from its beginning, and the sender's confirmed part follows it.
use p2pdown_loader.Prelude.{
  ℕ, ◌+◌, ◌-◌, ◌*◌, ◌≤◌, ◌≡◌, refl, sym, subst, ap, ◌∙◌, ◌⊎◌, inl, inr, List, [], some, arith, take,
  some_inj, Bool-cases, ltb, ltb→lt,
}
use p2pdown_loader.Net.{Addr}
use p2pdown_loader.Window.{FloatOps, pload_len}
use p2pdown_loader.Window.Send.{window_sender-IsSent}
use p2pdown_loader.Window.Ack.{upon_receive_ack-Moves}
use p2pdown_loader.Window.Timeout.{check_datapack_timeout-fault, check_datapack_timeout-Moves}
use p2pdown_loader.Receiver.{collect}
use p2pdown_loader.Receiver.Reap.{collect-prefix}
use p2pdown_loader.Receiver.Answers.{upon_receiving_datapack-After}
use p2pdown_loader.Transfer.{Link, Step}
use p2pdown_loader.Transfer.Agreement.{Agrees}
use p2pdown_loader.Transfer.Arriving.{npe-le-lpr, Arrives-ack, Arrives-IsData, Answered-npe}
use p2pdown_loader.Transfer.Runs.{Step-Agrees}

-- How many packets of the chunk have been received, and how many of them are known to be.
pub record Promised : Type 0 where
  pub received : ℕ
  pub confirmed : ℕ

-- What may happen, for a chunk of `total` packets.
pub data Advances (total : ℕ) (s : Promised) : Promised → Type 0 where
  rests : Advances total s s
  receives :
      (m : ℕ)
      → s.received ≤ m
      → m ≤ total
      → Advances total s (record { received = m; confirmed = s.confirmed })
  confirms :
      (m : ℕ)
      → s.confirmed ≤ m
      → m ≤ s.received
      → Advances total s (record { received = s.received; confirmed = m })

-- What a link shows of it: the receiver can put together as much of the chunk as it has received.
pub record Shows {F : Type 0} (chunk : List ℕ) (s : Promised) (l : Link F) : Type 0 where
  pub received_is : l.recver.npe ≡ s.received + 1
  pub confirmed_is : l.window.lpa ≡ s.confirmed
  pub content_is :
      collect (l.recver.npe - 1) 1 l.recver.recv_buf [] ≡ some (take (s.received * pload_len) chunk)

module _ (fl : FloatOps) (sender : Addr) (chunk : List ℕ) (lpr : ℕ) where
  open fl use {Float}

  -- A link in agreement shows its own marks.
  pub Agrees-Shows :
      (l : Link Float) (m : ℕ)
      → Agrees chunk lpr l
      → l.recver.npe ≡ m + 1
      → Shows chunk (record { received = m; confirmed = l.window.lpa }) l
  Agrees-Shows l m a e = record {
    received_is = e;
    confirmed_is = refl;
    content_is =
        collect-prefix chunk l.recver a.holds
        ∙ ap (λ n. some (take (n * pload_len) chunk)) {x = l.recver.npe - 1} {y = m} (omega arith);
  }

  -- How a step moves the marks.
  abbrev Follows : Link Float → Link Float → Type 0
  Follows l l' =
      ((l'.recver.npe ≡ l.recver.npe) × (l'.window.lpa ≡ l.window.lpa))
      ⊎ (((l.recver.npe ≤ l'.recver.npe) × (l'.window.lpa ≡ l.window.lpa))
          ⊎ ((l'.recver.npe ≡ l.recver.npe) × (l.window.lpa ≤ l'.window.lpa)))

  Step-Follows : {l l' : Link Float} → Agrees chunk lpr l → Step fl sender l l' → Follows l l'
  Step-Follows {l} a (Step.sends clock w out n e) =
      let (u, f, s, _) = window_sender-IsSent chunk clock l.window a.valid in
      inl (refl, ap (λ t. t.0.lpa) (some_inj (sym e ∙ f)) ∙ ap (λ x. x.lpa) s.same)
  Step-Follows {l} a (Step.ticks now w k e) =
      elim (Bool-cases (ltb (l.window.lpa + 1) l.window.lpr)) [
        | inr above ↦
            let fault = check_datapack_timeout-fault fl chunk now l.window a.valid (ground arith) in
            absurd (ground (arith, sym fault ∙ e))
        | inl below ↦
            let (p, at, d) =
              a.valid.is_buf.stored (l.window.lpa + 1) (omega arith) (ltb→lt _ _ below) in
            elim (check_datapack_timeout-Moves fl chunk now l.window p a.valid at) [
              | inl (f, _) ↦ inl (refl, ap (λ t. t.0.lpa) (some_inj (sym e ∙ f)))
              | inr (u, f, _, m) ↦ inl (refl, ap (λ t. t.0.lpa) (some_inj (sym e ∙ f)) ∙ m.lpa_is)
            ]
      ]
  Step-Follows {l} a (Step.takes_data d p b r out m v e) =
      let i = Arrives-IsData chunk lpr l d p b a m v in
      let t = upon_receiving_datapack-After chunk sender p l.recver a.holds i.part i.data_pack_is in
      let same = ap (λ t. t.0.npe) (some_inj (sym t.runs ∙ e)) in
      inr (inl (omega (arith, same, Answered-npe t.answered), refl))
  Step-Follows {l} a (Step.takes_ack d p b w m v e) =
      let (told, ready) = Arrives-ack chunk lpr l d p b a m v in
      let (u, f, moved) =
        upon_receive_ack-Moves fl chunk p l.window a.valid
          (omega (arith, npe-le-lpr chunk lpr l a, a.lpr_is)) in
      inr (inr (refl, omega (arith, ap (λ x. x.lpa) (some_inj (sym f ∙ e)), moved.lpa_is)))

  -- While two peers agree, and show a progress, every step of the transfer does what the promise
  -- allows, and shows the progress that comes of it: it changes nothing that can be seen; or the
  -- receiver has more of the chunk from its beginning, never more than there is; or the sender knows
  -- of more packets that are received, never of one that is not.
  pub Step-Advances :
      {l l' : Link Float} (s : Promised)
      → Agrees chunk lpr l
      → Shows chunk s l
      → Step fl sender l l'
      → (s' : Promised) × Advances (lpr - 1) s s' × Shows chunk s' l'
  Step-Advances {l} {l'} s a shown st =
      let b = Step-Agrees fl sender chunk lpr st a in
      let m : ℕ = l'.recver.npe - 1 in
      let counted : l'.recver.npe ≡ m + 1 = omega (arith, b.holds.so_far.in_range.0) in
      elim (Step-Follows a st) [
        | inl (r, c) ↦ (
          s,
          Advances.rests,
          subst (λ k. Shows chunk (record { received = s.received; confirmed = k }) l')
              (c ∙ shown.confirmed_is) (Agrees-Shows l' s.received b (r ∙ shown.received_is)),
        )
        | inr (inl (r, c)) ↦ (
          record { received = m; confirmed = s.confirmed },
          Advances.receives m (omega (arith, shown.received_is))
              (omega (arith, npe-le-lpr chunk lpr l' b)),
          subst (λ k. Shows chunk (record { received = m; confirmed = k }) l')
              (c ∙ shown.confirmed_is) (Agrees-Shows l' m b counted),
        )
        | inr (inr (r, c)) ↦ (
          record { received = s.received; confirmed = l'.window.lpa },
          Advances.confirms l'.window.lpa (omega (arith, shown.confirmed_is))
              (omega (arith, shown.received_is, b.confirmed)),
          Agrees-Shows l' s.received b (r ∙ shown.received_is),
        )
      ]
