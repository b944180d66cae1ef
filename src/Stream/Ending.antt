-- ===== src/Stream/Ending.antt =====
-- The loop of do_net_recv_stream ends, or waits for a packet.
use risc_v_qemu_kernel.Prelude.{
  ℕ, ◌+◌, ◌*◌, ◌<◌, ◌≡◌, Bool, true, none, List, length, leb, if◌then◌else◌, ◌⊎◌,
}
use risc_v_qemu_kernel.Stream.{Stream, Recv, Poll, get_reorder_entry}

-- The rounds that the loop needs at most before it ends or waits.
abbrev pub rounds : (wanted : ℕ) → List Poll → Stream → Recv → ℕ
rounds wanted polls s r =
    if leb wanted r.received then 0 else 2 * length polls + length s.reorder_queue + 1

-- The call has ended, or it still waits for a packet that is not in the queue.
abbrev pub Answered : (wanted : ℕ) → Bool × Stream × Recv → Type 0
Answered wanted (ended, t, q) =
    (ended ≡ true) ⊎ ((q.received < wanted) × (get_reorder_entry t.next_expect_seq t ≡ none))
