-- ===== src/Spiffy/Cut.antt =====
-- A message of spiffy.c that is longer than the buffer of its receiver.
use p2pdown_loader.Prelude.{
  ℕ, zero, suc, ◌+◌, ◌≤◌, ◌<◌, ◌≡◌, refl, sym, ap, ◌∙◌, List, [], ◌∷◌, ◌++◌, some, true, ltb, arith,
  Bool-cases, inl, inr, if◌then◌else◌, length, take, drop, slice, put, ℤ, pos, ◌-ℤ◌, ltb_ℤ, sub_ℕ,
  length-append, length-take, slice-start, slice-append, append-nil, length-drop,
}
use p2pdown_loader.Packet.{ntohs, ntohl}
use p2pdown_loader.Net.{Addr, Datagram}
use p2pdown_loader.Framing.Split.{put-front}
use p2pdown_loader.Spiffy.{
  Spiffy, spiffy_header, spiffy_sendto, came, Received, strip_header, spiffy_recvfrom,
}
use p2pdown_loader.Spiffy.Header.{length-spiffy_header}

take-over : (xs ys : List ℕ) (m n : ℕ) → length xs ≡ m → take (n + m) (xs ++ ys) ≡ xs ++ take n ys
take-over [] ys zero n e = ap (λ k. take k ys) (omega arith)
take-over [] ys (suc m) n e = absurd (omega arith)
take-over (x ∷ xs) ys zero n e = absurd (omega arith)
take-over (x ∷ xs) ys (suc m) n e =
    ap (λ k. take k (x ∷ (xs ++ ys))) {y = suc (n + m)} (omega arith)
    ∙ ap (λ l. x ∷ l) (take-over xs ys m n (omega (arith, e)))

put-whole : (xs ys : List ℕ) → length ys ≡ length xs → put xs 0 ys ≡ some ys
put-whole xs ys e =
    put-front xs ys (omega (arith, e))
    ∙ ap (λ l. some (ys ++ l))
        (nothing_left (drop (length ys) xs) (omega (arith, e, length-drop (length ys) xs)))
    ∙ ap some (append-nil ys)
  where
    nothing_left : (zs : List ℕ) → length zs ≡ 0 → zs ≡ []
    nothing_left [] h = refl
    nothing_left (z ∷ zs) h = absurd (omega arith)

strip_header-body :
    (header body : List ℕ) (n size : ℕ)
    → length header ≡ 16
    → length body ≡ size
    → (r : Received) × (strip_header (header ++ body) n size ≡ some r) × (r.written ≡ body)
unfolding strip_header
strip_header-body header body n size h e =
    let behind : slice (header ++ body) 16 size ≡ some body =
      ap (λ t. slice (header ++ t) 16 size) (sym (append-nil body))
      ∙ slice-append header body [] 16 size h e in
    (
      record {
        ret = sub_ℕ n 16;
        written = body;
        from = some (record { ip = ntohl (header ++ body) 4; port = ntohs (header ++ body) 12 });
      },
      rw (behind) refl,
      refl,
    )

-- Of a message of `size` bytes or more, the receiver's buffer of `size` bytes gets the first `size`,
-- whether both of the two go by way of a router or neither does.
pub spiffy_recvfrom-cut :
    (sendto : Datagram → ℤ) (sender receiver : Spiffy) (msg block : List ℕ) (to from : Addr)
    (size : ℕ)
    → receiver.enabled ≡ sender.enabled
    → 0 < size
    → size ≤ length msg
    → length block ≡ size + 16
    → (sent : Datagram) × (result : ℤ) × (r : Received) × (spiffy_sendto sendto sender msg
          (length msg)
          to
        ≡ some (sent, result))
      × (spiffy_recvfrom receiver block (came from sent.bytes) size ≡ some r)
      × (r.written ≡ take size msg)
unfolding spiffy_sendto spiffy_recvfrom
spiffy_recvfrom-cut sendto sender receiver msg block to from size same room long full =
    let whole : slice msg 0 (length msg) ≡ some msg =
      ap (λ t. slice t 0 (length msg)) (sym (append-nil msg))
      ∙ slice-start msg [] (length msg) refl in
    let header : List ℕ = spiffy_header sender to in
    let cut_length : length (header ++ take size msg) ≡ size + 16 = omega (
      arith,
      length-append header (take size msg),
      length-take size msg,
      length-spiffy_header sender to,
    ) in
    let taken : take (size + 16) (header ++ msg) ≡ header ++ take size msg =
      take-over header msg 16 size (length-spiffy_header sender to) in
    let filled : put block 0 (header ++ take size msg) ≡ some (header ++ take size msg) =
      put-whole block (header ++ take size msg) (omega (arith, cut_length, full)) in
    let some_came : ltb 0 (length (header ++ take size msg)) ≡ true = ground (arith, cut_length) in
    let (r, run, is) =
      strip_header-body header (take size msg) (length (header ++ take size msg)) size
        (length-spiffy_header sender to) (omega (arith, length-take size msg)) in
    let sent : Datagram = record { to = sender.router; bytes = header ++ msg } in
    elim (Bool-cases sender.enabled) [
      | inl on ↦ (
        sent,
        if ltb_ℤ (pos 0) (sendto sent) then sendto sent -ℤ pos 16 else sendto sent,
        r,
        rw (whole, on) refl,
        rw (same ∙ on, taken, filled, some_came) run,
        is,
      )
      | inr off ↦ (
        record { to = to; bytes = msg },
        sendto (record { to = to; bytes = msg }),
        record { ret = pos (length (take size msg)); written = take size msg; from = some from },
        rw (whole, off) refl,
        rw (same ∙ off) refl,
        refl,
      )
    ]
