-- ===== src/Barrier/Wait.antt =====
-- `do_barrier_wait` of kernel/locking/barrier.c, on every branch.
use risc_v_qemu_kernel.Prelude.{
  ℕ, ◌+◌, ◌≤◌, ◌<◌, ◌≡◌, ◌∙◌, refl, ap, le→leb, false, true, [], ◌∷◌, ◌++◌, Bool-cases, inl, inr,
  leb, has, arith,
}
use risc_v_qemu_kernel.Prelude.Int.{ℤ, pos}
use risc_v_qemu_kernel.Kernel.{
  Kernel, unlocked, locked, blocked, running, ready, reschedules, done, barrier_num, barrier_queue,
  ready_queue, at_index-keeps, at_index-inside,
}
use risc_v_qemu_kernel.Block.{do_block, wakeup, wakeup_objects}
use risc_v_qemu_kernel.Block.Invariant.{
  WellQueued, do_block-WellQueued, wakeup-WellQueued, status-wakeup,
}
use risc_v_qemu_kernel.Block.Wakeup.{ready-wakeup, emptied-wakeup}
use risc_v_qemu_kernel.Spin.{guarded-keeps, guarded-free}
use risc_v_qemu_kernel.Barrier.{
  do_barrier_wait, wait_at, wait_section, set_guard, set_arrived, unlock_guard,
}

-- A process that arrives before the round is complete is counted and blocked behind those that
-- wait, and gives up the processor.
pub wait_early :
    (i : ℕ) (k : Kernel)
    → i < barrier_num
    → (k.barriers i).guard ≡ unlocked
    → (k.barriers i).arrived + 1 < (k.barriers i).goal
    → (k.pcb k.current).killed ≡ false
    → let (c, m) = do_barrier_wait (pos i) k in
      (c ≡ reschedules)
      × (m.barriers i ≡ record (k.barriers i) { arrived = (k.barriers i).arrived + 1 })
      × (m.queue (barrier_queue i) ≡ k.queue (barrier_queue i) ++ k.current ∷ [])
      × ((m.pcb k.current).status ≡ blocked)
unfolding do_barrier_wait do_block
wait_early i k h g a l = ground arith

-- The state in which `wakeup` is called.
abbrev reset : ℕ → Kernel → Kernel
reset i k = set_arrived i 0 (set_guard i locked k)

last_section :
    (i : ℕ) (k : Kernel)
    → (k.barriers i).goal ≤ (k.barriers i).arrived + 1
    → wait_section i k ≡ (done, unlock_guard i (wakeup (barrier_queue i) (set_arrived i 0 k)))
unfolding wait_section
last_section i k a = rw (le→leb _ _ a)

wait_last_state :
    (i : ℕ) (k : Kernel)
    → i < barrier_num
    → (k.barriers i).guard ≡ unlocked
    → (k.barriers i).goal ≤ (k.barriers i).arrived + 1
    → do_barrier_wait (pos i) k ≡ (done, unlock_guard i (wakeup (barrier_queue i) (reset i k)))
unfolding do_barrier_wait wait_at
wait_last_state i k h g a =
    at_index-inside i barrier_num wait_at k h
    ∙ (guarded-free (k.barriers i).guard (set_guard i) (wait_section i) k g
        ∙ last_section i (set_guard i locked k) (unfold set_guard in ground arith))

-- The process that completes the round goes on; the count is zero again, nobody waits at the barrier,
-- and those that waited stand in the ready queue in the order of their arrival, ready.
pub wait_last :
    (i : ℕ) (k : Kernel)
    → i < barrier_num
    → WellQueued k
    → (k.barriers i).guard ≡ unlocked
    → (k.barriers i).goal ≤ (k.barriers i).arrived + 1
    → let (c, m) = do_barrier_wait (pos i) k in
      (c ≡ done)
      × (m.barriers i ≡ record (k.barriers i) { arrived = 0 })
      × (m.queue (barrier_queue i) ≡ [])
      × (m.queue ready_queue ≡ k.queue ready_queue ++ k.queue (barrier_queue i))
      × ((n : ℕ) → has n (k.queue (barrier_queue i)) ≡ true → (m.pcb n).status ≡ ready)
unfolding unlock_guard set_arrived
wait_last i k h w g a = rw (wait_last_state i k h g a) (
  refl,
  ground (arith, ap (λ f. f i) (wakeup_objects (barrier_queue i) (reset i k)).0),
  emptied-wakeup (reset i k) (barrier_queue i) w (ground arith),
  ready-wakeup (reset i k) (barrier_queue i) w (ground arith),
  λ n e. status-wakeup (reset i k) (barrier_queue i) n ∙ rw e,
)

wait_section-WellQueued :
    (i : ℕ) (k : Kernel)
    → WellQueued k
    → (k.pcb k.current).status ≡ running
    → k.current < 64
    → WellQueued (wait_section i k).1
unfolding wait_section
wait_section-WellQueued i k w r small =
    elim (Bool-cases (leb (k.barriers i).goal ((k.barriers i).arrived + 1))) [
      | inl complete ↦ rw complete (wakeup-WellQueued (set_arrived i 0 k) (barrier_queue i) w)
      | inr early ↦ rw early (
          do_block-WellQueued (set_arrived i ((k.barriers i).arrived + 1) k) k.current
            (barrier_queue i) w r small (ground arith))
    ]

-- `do_barrier_wait` by a running process keeps the queues well formed.
pub do_barrier_wait-WellQueued :
    (idx : ℤ) (k : Kernel)
    → WellQueued k
    → (k.pcb k.current).status ≡ running
    → k.current < 64
    → WellQueued (do_barrier_wait idx k).1
unfolding do_barrier_wait wait_at
do_barrier_wait-WellQueued idx k w r small =
    at_index-keeps WellQueued idx barrier_num wait_at k w (λ i h.
      guarded-keeps WellQueued (k.barriers i).guard (set_guard i) (wait_section i) k w
        (wait_section-WellQueued i (set_guard i locked k) w r small))
