-- ===== src/Window/Fill.antt =====
-- `p2p_sender` of sock_io.c cuts a chunk into packets.
use p2pdown_loader.Prelude.{
  ℕ, zero, suc, ◌+◌, ◌-◌, ◌*◌, ◌≤◌, ◌<◌, ◌≡◌, refl, sym, ap, ◌∙◌, inl, inr, List, ◌++◌, some, arith,
  length, take, drop, set, slice-take, length-take, length-drop, take-length, ltb, Bool-cases, ◌==◌,
  false, ltb→lt, min, ◌≢◌,
}
use p2pdown_loader.Packet.Forms.{data_pack, form_data_pack-append, data_pack-IsDataPack}
use p2pdown_loader.Window.{
  Window, pload_len, pload, sender_buf_size, add_packet, add_last, fill, p2p_sender,
}
use p2pdown_loader.Window.Invariant.{IsValid, piece, IsBuf-next, store-in_range}

-- The window has got the rest of the chunk: as many packets as it takes, and no other change.
pub record IsFilled {F : Type 0} (chunk : List ℕ) (w w' : Window F) : Type 0 where
  pub valid : IsValid chunk w'
  pub all_in : length chunk ≤ (w'.lpr - 1) * pload_len
  pub none_empty : (w'.lpr - 1) * pload_len < length chunk + pload_len
  pub same : w' ≡ record w { sender_buf = w'.sender_buf; lpr = w'.lpr }

pub length-piece :
    (chunk : List ℕ) (i : ℕ)
    → length (piece chunk i) ≡ min pload_len (length chunk - (i - 1) * pload_len)
length-piece chunk i = omega (
  arith,
  length-take pload_len (drop ((i - 1) * pload_len) chunk),
  length-drop ((i - 1) * pload_len) chunk,
)

-- Reading as many bytes as there are, up to 1024, is reading the piece.
piece-take :
    (chunk : List ℕ) (i n : ℕ)
    → n ≡ min pload_len (length chunk - (i - 1) * pload_len)
    → take n (drop ((i - 1) * pload_len) chunk) ≡ piece chunk i
piece-take chunk i n e = elim (Bool-cases (n == pload_len)) [
  | inl full ↦ ap (λ k. take k (drop ((i - 1) * pload_len) chunk)) {y = pload_len} (ground arith)
  | inr part ↦
      let size = length-drop ((i - 1) * pload_len) chunk in
      let ne : n ≢ pload_len = ground arith in
      take-length (drop ((i - 1) * pload_len) chunk) n (omega arith)
      ∙ sym (take-length (drop ((i - 1) * pload_len) chunk) pload_len (omega arith))
]

module _ {F : Type 0} (chunk spare : List ℕ) where
  abbrev after_add : Window F → Window F
  after_add w = record w {
    sender_buf = set w.sender_buf w.lpr (some (data_pack w.lpr (piece chunk w.lpr)));
    lpr = w.lpr + 1;
  }

  add_packet-next :
      (w : Window F) (countlen n : ℕ)
      → IsValid chunk w
      → w.lpr + 1 < sender_buf_size
      → countlen ≡ (w.lpr - 1) * pload_len
      → n ≡ min pload_len (length chunk - countlen)
      → 0 < n
      → add_packet (chunk ++ spare) countlen n w ≡ some (after_add w)
  unfolding add_packet pload
  add_packet-next w countlen n v room at e more =
      let same : take n (drop countlen chunk) ≡ piece chunk w.lpr =
        rw at (piece-take chunk w.lpr n (omega arith)) in
      rw (
        slice-take chunk spare countlen n (omega arith),
        same,
        form_data_pack-append (piece chunk w.lpr) _ n w.lpr
            (omega (arith, length-piece chunk w.lpr)) (omega arith) (omega arith),
        store-in_range w.sender_buf w.lpr (some (data_pack w.lpr (piece chunk w.lpr)))
            (omega (arith, v.is_buf.buf_size)),
      )

  after_add-IsValid :
      (w : Window F)
      → IsValid chunk w
      → w.lpr + 1 < sender_buf_size
      → (w.lpr - 1) * pload_len < length chunk
      → IsValid chunk (after_add w)
  after_add-IsValid w v room more =
      let size = length-piece chunk w.lpr in
      record {
        is_buf =
            IsBuf-next chunk w.lpr w.sender_buf _ room
              (data_pack-IsDataPack w.lpr (piece chunk w.lpr) (omega arith) (omega arith)
                (omega arith))
              v.is_buf;
        acked_sent = v.acked_sent;
        sent_ready = omega (arith, v.sent_ready);
      }

  add_last-IsFilled :
      (w : Window F) (countlen : ℕ)
      → IsValid chunk w
      → countlen ≡ (w.lpr - 1) * pload_len
      → countlen < length chunk
      → length chunk ≤ countlen + pload_len
      → w.lpr + 1 < sender_buf_size
      → (w' : Window F) × (add_last (chunk ++ spare) (length chunk) countlen w
          ≡ some (w', length chunk))
        × IsFilled chunk w w'
  unfolding add_last
  add_last-IsFilled w countlen v at more last room =
      let not_full : (w.lpr == sender_buf_size - 1) ≡ false = ground arith in
      (
        after_add w,
        rw (
          not_full,
          add_packet-next w countlen (length chunk - countlen) v room at (omega arith)
              (omega arith),
        ),
        record {
          valid = after_add-IsValid w v room (omega arith);
          all_in = omega (arith, v.is_buf.some_ready);
          none_empty = omega (arith, v.is_buf.some_ready);
          same = refl;
        },
      )

  fill-IsFilled :
      (fuel : ℕ) (w : Window F) (countlen : ℕ)
      → IsValid chunk w
      → countlen ≡ (w.lpr - 1) * pload_len
      → countlen < length chunk
      → length chunk ≤ 512 * pload_len
      → length chunk < fuel + countlen
      → (w' : Window F) × (fill fuel (chunk ++ spare) (length chunk) countlen w
          ≡ some (w', length chunk))
        × IsFilled chunk w w'
  unfolding fill
  fill-IsFilled zero w countlen v at more fits enough = absurd (omega arith)
  fill-IsFilled (suc fuel) w countlen v at more fits enough =
      let room : w.lpr + 1 < sender_buf_size = omega arith in
      elim (Bool-cases (ltb pload_len (length chunk - countlen))) [
        | inl loop ↦
            let not_full : (w.lpr == sender_buf_size - 1) ≡ false = ground arith in
            let big : pload_len < length chunk - countlen = ltb→lt _ _ loop in
            let (w', e, f) =
              fill-IsFilled fuel (after_add w) (countlen + pload_len)
                (after_add-IsValid w v room (omega arith)) (omega (arith, v.is_buf.some_ready))
                (omega arith) fits (omega arith) in
            (
              w',
              rw
                  (
                    loop,
                    fill,
                    not_full,
                    add_packet-next w countlen pload_len v room at (omega arith) (omega arith),
                  )
                  e,
              record {
                valid = f.valid;
                all_in = f.all_in;
                none_empty = f.none_empty;
                same = f.same;
              },
            )
        | inr done ↦
            let (w', e, f) = add_last-IsFilled w countlen v at more (ground arith) room in
            (w', rw (done, fill) e, f)
      ]

  -- A whole chunk, of at most 512 packets, goes into an empty window: `p2p_sender` does not fault
  -- and reports the whole length; slot `i` then holds the packet with number `i` and the bytes of
  -- the chunk from `1024 * (i - 1)` on, for as many slots as the chunk needs; and no more of the
  -- window changes than its buffer and `LPR`.
  pub p2p_sender-IsFilled :
      (w : Window F)
      → IsValid chunk w
      → w.lpr ≡ 1
      → 0 < length chunk
      → length chunk ≤ 512 * pload_len
      → (w' : Window F) × (p2p_sender (chunk ++ spare) w (length chunk) ≡ some (w', length chunk))
        × IsFilled chunk w w'
  unfolding p2p_sender
  p2p_sender-IsFilled w v fresh some_data fits =
      fill-IsFilled (length chunk + 1) w 0 v (omega arith) some_data fits (omega arith)
