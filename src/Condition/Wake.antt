-- ===== src/Condition/Wake.antt =====
-- `do_condition_signal` and `do_condition_broadcast` of kernel/locking/condition.c.
use risc_v_qemu_kernel.Prelude.{
  ℕ, ◌<◌, ◌≡◌, refl, ◌∙◌, List, [], ◌∷◌, ◌++◌, true, has, arith, without-absent,
}
use risc_v_qemu_kernel.Prelude.Int.{pos}
use risc_v_qemu_kernel.Kernel.{
  Kernel, unlocked, locked, ready, done, condition_num, condition_queue, ready_queue,
  at_index-inside,
}
use risc_v_qemu_kernel.Block.{do_unblock}
use risc_v_qemu_kernel.Block.Invariant.{WellQueued, status-wakeup}
use risc_v_qemu_kernel.Block.Wakeup.{ready-wakeup, emptied-wakeup}
use risc_v_qemu_kernel.Spin.{guarded-free}
use risc_v_qemu_kernel.Condition.{
  do_condition_signal, do_condition_broadcast, broadcast_at, broadcast_section, set_guard,
}

-- What a signal on the queue `q`, with the processes `waiting`, does to the processes.
abbrev pub Signalled : (k m : Kernel) → ℕ → List ℕ → Type 0
Signalled k m q [] = (m.queue ≡ k.queue) × (m.pcb ≡ k.pcb)
Signalled k m q (n ∷ ns) =
    (m.queue q ≡ ns)
    × (m.queue ready_queue ≡ k.queue ready_queue ++ n ∷ [])
    × ((m.pcb n).status ≡ ready)

-- At a condition whose spin lock is free, with well formed queues, a signal wakes the process that has
-- waited longest, and no other; with nobody waiting it changes nothing, and is not remembered.
pub signal_lem :
    (i : ℕ) (k : Kernel) (waiting : List ℕ)
    → i < condition_num
    → WellQueued k
    → (k.conditions i).guard ≡ unlocked
    → k.queue (condition_queue i) ≡ waiting
    → let (c, m) = do_condition_signal (pos i) k in
      (c ≡ done) × (m.conditions i ≡ k.conditions i) × Signalled k m (condition_queue i) waiting
unfolding do_condition_signal do_unblock
signal_lem i k [] h w g e = ground arith
signal_lem i k (n ∷ ns) h w g e = ground (
  arith,
  without-absent n ns,
  without-absent n (k.queue ready_queue),
  w.one n ready_queue (condition_queue i),
  w.unique (condition_queue i),
)

-- At a condition whose spin lock is free, with well formed queues, a broadcast wakes all processes
-- that wait, in their order, and leaves nobody waiting.
pub broadcast_lem :
    (i : ℕ) (k : Kernel)
    → i < condition_num
    → WellQueued k
    → (k.conditions i).guard ≡ unlocked
    → let (c, m) = do_condition_broadcast (pos i) k in
      (c ≡ done)
      × (m.queue (condition_queue i) ≡ [])
      × (m.queue ready_queue ≡ k.queue ready_queue ++ k.queue (condition_queue i))
      × ((n : ℕ) → has n (k.queue (condition_queue i)) ≡ true → (m.pcb n).status ≡ ready)
unfolding do_condition_broadcast broadcast_at
broadcast_lem i k h w g =
    rw
      (
        at_index-inside i condition_num broadcast_at k h,
        guarded-free (k.conditions i).guard (set_guard i) (broadcast_section i) k g,
      )
      (unfold broadcast_section in
        (
          refl,
          emptied-wakeup (set_guard i locked k) (condition_queue i) w (ground arith),
          ready-wakeup (set_guard i locked k) (condition_queue i) w (ground arith),
          λ n e. status-wakeup (set_guard i locked k) (condition_queue i) n ∙ rw e,
        ))
