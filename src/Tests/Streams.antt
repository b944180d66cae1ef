-- ===== src/Tests/Streams.antt =====
-- The stream with one packet that waits for its turn and one that arrives: the bytes of the sender
-- are their own numbers.
use risc_v_qemu_kernel.Prelude.{
  ℕ, ◌+◌, ◌<◌, ◌≤◌, ◌≡◌, false, ◌==◌, if◌then◌else◌, arith, List, [], ◌∷◌,
}
use risc_v_qemu_kernel.Stream.{Stream, Poll, quiet, arrived, ntohl, ntohs, do_net_recv_stream}
use risc_v_qemu_kernel.Stream.Deliver.{EntriesHold, do_net_recv_stream-Delivered}

abbrev pub waiting : Stream
waiting = record {
  next_expect_seq = 10;
  reorder_entries = λ i.
      if i == 3
      then record { seq = 12; len = 4; payload = λ j. 12 + j }
      else record { seq = 0; len = 0; payload = λ j. 0 };
  reorder_queue = 3 ∷ [];
  last_valid_header = λ i. 0;
  has_valid_header = false;
  sent = [];
}

-- A packet with the number 10 and two bytes.
abbrev packet : ℕ → ℕ
packet i =
    if i == 54
    then 69
    else if i == 55
    then 1
    else if i == 57
    then 2
    else if i == 61
    then 10
    else if i == 62
    then 10
    else if i == 63
    then 11
    else 0

abbrev polls : List Poll
polls = quiet ∷ arrived 64 packet ∷ quiet ∷ []

do_net_recv_stream-Delivered_example :
    let (ended, t, r) = do_net_recv_stream (λ i. 100) 10 0 5 (λ i. 0) polls waiting in
    (r.received ≤ 5)
    × (t.next_expect_seq ≡ 10 + r.received)
    × ((j : ℕ) → j < r.received → r.buffer j ≡ 10 + j)
do_net_recv_stream-Delivered_example =
    do_net_recv_stream-Delivered (λ n. n) (λ i. 100) 10 0 5 (λ i. 0) polls waiting (omega arith)
      (λ d. unfold ntohl ntohs in λ i lt. ground arith, tt) entries
  where
    entries : EntriesHold (λ n. n) waiting
    entries n i lt = ground arith
