-- ===== src/Stream/Deliver.antt =====
-- What do_net_recv_stream delivers: the bytes of the sender's stream, in order and without a gap.
use mathlib.Core.Path.{subst}
use risc_v_qemu_kernel.Prelude.{
  ℕ, zero, suc, ◌+◌, ◌-◌, ◌%◌, ◌≤◌, ◌<◌, ◌≡◌, refl, ◌∙◌, ap, sym, Bool, true, false, some, List, [],
  ◌∷◌, ◌&&◌, leb, ltb, ◌==◌, if◌then◌else◌, arith, Bool-cases, Option-cases, lt→ltb, inl, inr,
}
use risc_v_qemu_kernel.Stream.{
  Stream, Recv, Poll, quiet, arrived, u32, entry_in, get_reorder_entry, insert_reorder_packet,
  add_entry, take_entry, take_packet, handle_packet, ask_again, keep_header, send_control_packet,
  recv_loop, poll_once, do_net_recv_stream, is_data, packet_seq, packet_len, packet_data, copy_len,
  shrink_entry, advance, rtp_ack,
}
use risc_v_qemu_kernel.Stream.Order.{insert_cases}

-- `len` bytes of the stream from `seq` on.
abbrev pub Holds : (stream : ℕ → ℕ) (seq len : ℕ) → (ℕ → ℕ) → Type 0
Holds stream seq len payload = (i : ℕ) → i < len → payload i ≡ stream (seq + i)

-- Every entry holds the bytes of the stream at its number.
abbrev pub EntriesHold : (ℕ → ℕ) → Stream → Type 0
EntriesHold stream s =
    (n : ℕ)
    → Holds stream (s.reorder_entries n).seq (s.reorder_entries n).len (s.reorder_entries n).payload

-- Every packet of data does.
abbrev pub PollsHold : (ℕ → ℕ) → List Poll → Type 0
PollsHold stream [] = Unit {0}
PollsHold stream (quiet ∷ rest) = PollsHold stream rest
PollsHold stream (arrived length raw ∷ rest) =
    (is_data length raw ≡ true → Holds stream (packet_seq raw) (packet_len raw) (packet_data raw))
    × PollsHold stream rest

-- The first `received` bytes of the buffer are those of the stream from `start` on, and the next
-- number is that of the byte behind them; while there is room in the buffer, the entries are right.
pub record Delivered (stream : ℕ → ℕ) (start wanted : ℕ) (s : Stream) (r : Recv) : Type 0 where
  pub within : r.received ≤ wanted
  pub next : s.next_expect_seq ≡ start + r.received
  pub bytes : (j : ℕ) → j < r.received → r.buffer j ≡ stream (start + j)
  pub entries : r.received < wanted → EntriesHold stream s

entry_in-seq :
    (ns : List ℕ) (seq i : ℕ) (s : Stream)
    → entry_in ns seq s ≡ some i
    → (s.reorder_entries i).seq ≡ seq
unfolding entry_in
entry_in-seq [] seq i s e = absurd (cc)
entry_in-seq (n ∷ ns) seq i s e = ground (arith, entry_in-seq ns seq i s)

module _ (stream : ℕ → ℕ) (start wanted : ℕ) (fits : start + wanted < u32) where
  -- Bytes of the stream are taken where they are expected.
  receive-bytes :
      (seq len n : ℕ) (payload : ℕ → ℕ) (s : Stream) (r : Recv)
      → Delivered stream start wanted s r
      → seq ≡ s.next_expect_seq
      → Holds stream seq len payload
      → n ≤ len
      → (j : ℕ) → j < r.received + n
      → (if leb r.received j && ltb j (r.received + n)
          then payload (j - r.received)
          else r.buffer j)
        ≡ stream (start + j)
  receive-bytes seq len n payload s r v at h le j lt =
      elim (Bool-cases (leb r.received j && ltb j (r.received + n))) [
        | inl inside ↦
            let lo : r.received ≤ j = ground arith in
            rw inside (h (j - r.received) (omega arith) ∙ ap stream (omega (arith, at, v.next)))
        | inr outside ↦ rw outside (v.bytes j (ground arith))
      ]

  -- An entry is taken whole, or the buffer is full then.
  shrunk :
      (i : ℕ) (t : Stream) (r : Recv)
      → EntriesHold stream t
      → let n = copy_len (t.reorder_entries i).len wanted r in
        r.received + n < wanted → EntriesHold stream (shrink_entry i n t)
  shrunk i t r h room m =
      let n = copy_len (t.reorder_entries i).len wanted r in
      let whole : ltb n (t.reorder_entries i).len ≡ false = ground arith in
      rw whole (elim (Bool-cases (m == i)) [
        | inl taken ↦ rw taken (λ j lt. absurd (omega arith))
        | inr other ↦ rw other (h m)
      ])

  take_entry-Delivered :
      (i now : ℕ) (s : Stream) (r : Recv)
      → Delivered stream start wanted s r
      → r.received < wanted
      → get_reorder_entry s.next_expect_seq s ≡ some i
      → let (t, q) = take_entry i wanted now s r in Delivered stream start wanted t q
  unfolding take_entry send_control_packet get_reorder_entry
  take_entry-Delivered i now s r v more e =
      let n = copy_len (s.reorder_entries i).len wanted r in
      record {
        within = ground (arith, v.within);
        next = ground (arith, v.next);
        bytes =
            receive-bytes (s.reorder_entries i).seq (s.reorder_entries i).len n
              (s.reorder_entries i).payload s r v
              (entry_in-seq s.reorder_queue s.next_expect_seq i s e) (v.entries more i)
              (ground arith);
        entries = λ room.
            shrunk i
              (advance n (
                send_control_packet rtp_ack ((s.next_expect_seq + (s.reorder_entries i).len) % u32)
                  s))
              r (v.entries more) room;
      }

  insert-entries :
      (seq len : ℕ) (payload : ℕ → ℕ) (s : Stream)
      → EntriesHold stream s
      → Holds stream seq len payload
      → EntriesHold stream (insert_reorder_packet seq len payload s)
        × ((insert_reorder_packet seq len payload s).next_expect_seq ≡ s.next_expect_seq)
  unfolding add_entry
  insert-entries seq len payload s h honest = elim (insert_cases seq len payload s) [
    | inl dropped ↦ rw dropped (h, refl)
    | inr (slot, free, added) ↦ rw added (
      λ m. elim (Bool-cases (m == slot)) [
        | inl here ↦ rw here (λ j lt. rw (lt→ltb j len lt) (honest j lt))
        | inr other ↦ rw other (h m)
      ],
      refl,
    )
  ]

  take_packet-Delivered :
      (len : ℕ) (payload : ℕ → ℕ) (s : Stream) (r : Recv)
      → Delivered stream start wanted s r
      → r.received < wanted
      → Holds stream s.next_expect_seq len payload
      → let (t, q) = take_packet len wanted payload s r in Delivered stream start wanted t q
  unfolding take_packet send_control_packet
  take_packet-Delivered len payload s r v more honest =
      let n = copy_len len wanted r in
      let moved = advance n (send_control_packet rtp_ack ((s.next_expect_seq + len) % u32) s) in
      let bytes = receive-bytes s.next_expect_seq len n payload s r v refl honest (ground arith) in
      let inserted =
        insert-entries ((s.next_expect_seq + n) % u32) (len - n) (λ i. payload (n + i)) moved
          (v.entries more)
          (λ i lt. honest (n + i) (omega arith) ∙ ap stream (ground (arith, v.next))) in
      elim (Bool-cases (ltb n len)) [
        | inr whole ↦
            rw (whole, take_packet)
              (record {
                within = ground (arith, v.within);
                next = ground (arith, v.next);
                bytes = bytes;
                entries = λ room. v.entries more;
              })
        | inl part ↦
            rw (part, take_packet)
              (record {
                within = ground (arith, v.within);
                next = inserted.1 ∙ ground (arith, v.next);
                bytes = bytes;
                entries = λ room. absurd (ground arith);
              })
      ]

  -- A change that touches neither the number that is expected nor the entries.
  unrelated :
      (s t : Stream) (r q : Recv)
      → Delivered stream start wanted s r
      → t.next_expect_seq ≡ s.next_expect_seq
      → (r.received < wanted → EntriesHold stream t)
      → q.received ≡ r.received
      → q.buffer ≡ r.buffer
      → Delivered stream start wanted t q
  unrelated s t r q v same hold count bytes = record {
    within = omega (arith, v.within);
    next = omega (arith, v.next);
    bytes = λ j lt. ap (λ b. b j) bytes ∙ v.bytes j (omega arith);
    entries = λ room. hold (omega arith);
  }

  handle_packet-Delivered :
      (seq len now : ℕ) (payload : ℕ → ℕ) (s : Stream) (r : Recv)
      → Delivered stream start wanted s r
      → r.received < wanted
      → Holds stream seq len payload
      → let (t, q) = handle_packet seq len wanted now payload s r in
        Delivered stream start wanted t q
  unfolding handle_packet send_control_packet
  handle_packet-Delivered seq len now payload s r v more honest =
      elim (Bool-cases (seq == s.next_expect_seq)) [
        | inl expected ↦
            let at : seq ≡ s.next_expect_seq = ground arith in
            rw (expected, handle_packet)
              (take_packet-Delivered len payload s r v more
                (λ i lt. honest i lt ∙ ap (λ p. stream (p + i)) at))
        | inr elsewhere ↦ elim (Bool-cases (ltb s.next_expect_seq seq)) [
          | inl ahead ↦
              let inserted = insert-entries seq len payload s (v.entries more) honest in
              rw (elsewhere, ahead, handle_packet)
                (unrelated s _ r _ v inserted.1 (λ room. inserted.0) refl refl)
          | inr old ↦
              rw (elsewhere, old, handle_packet)
                (unrelated s _ r _ v refl (λ room. v.entries more) refl refl)
        ]
      ]

  keep_header-Delivered :
      (raw : ℕ → ℕ) (s : Stream) (r : Recv)
      → Delivered stream start wanted s r
      → Delivered stream start wanted (keep_header raw s) r
  unfolding keep_header
  keep_header-Delivered raw s r v =
      let same : (keep_header raw s).reorder_entries ≡ s.reorder_entries = ground arith in
      unrelated s (keep_header raw s) r r v (ground arith)
        (λ room.
          subst (λ e. (n : ℕ) → Holds stream (e n).seq (e n).len (e n).payload) (sym same)
            (v.entries room))
        refl refl

  ask_again-Delivered :
      (now : ℕ) (s : Stream) (r : Recv)
      → Delivered stream start wanted s r
      → let (t, q) = ask_again now s r in Delivered stream start wanted t q
  unfolding ask_again send_control_packet
  ask_again-Delivered now s r v = elim (Bool-cases (ltb 100000 (now - r.last_rsd_time))) [
    | inl late ↦ rw (late, ask_again) (unrelated s _ r _ v refl v.entries refl refl)
    | inr early ↦ rw (early, ask_again) v
  ]

  poll_once-Delivered :
      (now : ℕ) (go : List Poll → Stream → Recv → Bool × Stream × Recv) (polls : List Poll)
      (s : Stream) (r : Recv)
      → ((rest : List Poll) (t : Stream) (q : Recv)
          → PollsHold stream rest
          → Delivered stream start wanted t q
          → Delivered stream start wanted (go rest t q).1 (go rest t q).2)
      → PollsHold stream polls
      → Delivered stream start wanted s r
      → r.received < wanted
      → let (ended, t, q) = poll_once now wanted go polls s r in Delivered stream start wanted t q
  unfolding poll_once
  poll_once-Delivered now go [] s r keep honest v room = v
  poll_once-Delivered now go (quiet ∷ rest) s r keep honest v room =
      elim (Bool-cases (ltb 3000000 (now - r.last_progress_time))) [
        | inl late ↦ rw (late, poll_once) v
        | inr early ↦ rw (early, poll_once) (keep rest _ _ honest (ask_again-Delivered now s r v))
      ]
  poll_once-Delivered now go (arrived length raw ∷ rest) s r keep honest v room =
      elim (Bool-cases (is_data length raw)) [
        | inr other ↦ rw (other, poll_once) (keep rest s r honest.1 v)
        | inl payload ↦
            rw (payload, poll_once)
              (keep rest _ _ honest.1 (
                handle_packet-Delivered (packet_seq raw) (packet_len raw) now (packet_data raw)
                  (keep_header raw s) r (keep_header-Delivered raw s r v) room (honest.0 payload)))
      ]

  recv_loop-Delivered :
      (clock : ℕ → ℕ) (fuel : ℕ) (polls : List Poll) (s : Stream) (r : Recv)
      → PollsHold stream polls
      → Delivered stream start wanted s r
      → let (ended, t, q) = recv_loop clock fuel wanted polls s r in
        Delivered stream start wanted t q
  unfolding recv_loop
  recv_loop-Delivered clock zero polls s r honest v = v
  recv_loop-Delivered clock (suc fuel) polls s r honest v =
      elim (Bool-cases (leb wanted r.received)) [
        | inl full ↦ rw (full, recv_loop) v
        | inr more ↦
            let room : r.received < wanted = ground arith in
            elim (Option-cases (get_reorder_entry s.next_expect_seq s)) [
              | inr (i, there) ↦
                  rw (more, there, recv_loop)
                    (recv_loop-Delivered clock fuel polls (take_entry i wanted (clock fuel) s r).0
                      (take_entry i wanted (clock fuel) s r).1 honest
                      (take_entry-Delivered i (clock fuel) s r v room there))
              | inl absent ↦
                  rw (more, absent, recv_loop)
                    (poll_once-Delivered (clock fuel) (recv_loop clock fuel wanted) polls s r
                      (λ rest t q. recv_loop-Delivered clock fuel rest t q) honest v room)
            ]
      ]

-- Whatever arrives, and however the call ends: if every packet of data, and every entry that was
-- kept before, holds the bytes of the sender's stream at its sequence number, and the numbers that
-- are wanted do not wrap, then what has been received is no more than what is wanted, it is the
-- stream from the number on that was expected at the start, without a gap, and the number that is
-- expected next is that of the byte behind it.
pub do_net_recv_stream-Delivered :
    (stream : ℕ → ℕ) (clock : ℕ → ℕ) (fuel now wanted : ℕ) (buffer : ℕ → ℕ) (polls : List Poll)
    (s : Stream)
    → s.next_expect_seq + wanted < u32
    → PollsHold stream polls
    → EntriesHold stream s
    → let (ended, t, r) = do_net_recv_stream clock fuel now wanted buffer polls s in
      (r.received ≤ wanted)
      × (t.next_expect_seq ≡ s.next_expect_seq + r.received)
      × ((j : ℕ) → j < r.received → r.buffer j ≡ stream (s.next_expect_seq + j))
unfolding do_net_recv_stream
do_net_recv_stream-Delivered stream clock fuel now wanted buffer polls s fits honest entries =
    let v =
      recv_loop-Delivered stream s.next_expect_seq wanted fits clock fuel polls s
        (record { buffer = buffer; received = 0; last_rsd_time = 0; last_progress_time = now })
        honest
        (record {
          within = omega arith;
          next = omega arith;
          bytes = λ j lt. absurd (omega arith);
          entries = λ room. entries;
        }) in
    (v.within, v.next, v.bytes)
