-- ===== src/Mutex/Invariant.antt =====
-- The operations of kernel/locking/lock.c keep the queues well formed.
use risc_v_qemu_kernel.Prelude.{
  ℕ, ◌<◌, ◌≡◌, refl, List, [], ◌∷◌, arith, Bool-cases, inl, inr, ◌==◌, update,
}
use risc_v_qemu_kernel.Prelude.Int.{ℤ}
use risc_v_qemu_kernel.Kernel.{
  Kernel, locked, running, lock_num, mutex_queue, dequeue, dequeue-nil, dequeue-cons,
  at_index-keeps,
}
use risc_v_qemu_kernel.Spin.{is_locked, guarded-keeps}
use risc_v_qemu_kernel.Block.Invariant.{
  WellQueued, do_block-WellQueued, do_unblock-WellQueued, shrink-WellQueued,
}
use risc_v_qemu_kernel.Mutex.{
  do_mutex_lock_acquire, do_mutex_lock_release, acquire_at, acquire_section, release_at,
  release_section, pass_on, set_guard,
}

acquire_section-WellQueued :
    (i : ℕ) (k : Kernel)
    → WellQueued k
    → (k.pcb k.current).status ≡ running
    → k.current < 64
    → WellQueued (acquire_section i k).1
unfolding acquire_section
acquire_section-WellQueued i k w r small = elim (Bool-cases (is_locked (k.mlocks i).status)) [
  | inl held ↦ rw held (do_block-WellQueued k k.current (mutex_queue i) w r small (ground arith))
  | inr free ↦ rw free w
]

-- `do_mutex_lock_acquire` by a running process keeps the queues well formed.
pub do_mutex_lock_acquire-WellQueued :
    (idx : ℤ) (k : Kernel)
    → WellQueued k
    → (k.pcb k.current).status ≡ running
    → k.current < 64
    → WellQueued (do_mutex_lock_acquire idx k).1
unfolding do_mutex_lock_acquire acquire_at
do_mutex_lock_acquire-WellQueued idx k w r small =
    at_index-keeps WellQueued idx lock_num acquire_at k w (λ i h.
      guarded-keeps WellQueued (k.mlocks i).guard (set_guard i) (acquire_section i) k w
        (acquire_section-WellQueued i (set_guard i locked k) w r small))

-- Handing a lock over takes the first waiter off the queue and makes it ready.
pass_on-WellQueued :
    (i : ℕ) (k : Kernel) (waiting : List ℕ)
    → k.queue (mutex_queue i) ≡ waiting
    → WellQueued k
    → WellQueued (pass_on i (dequeue (mutex_queue i) k) k)
unfolding pass_on
pass_on-WellQueued i k [] e w = rw (dequeue-nil (mutex_queue i) k e) w
pass_on-WellQueued i k (n ∷ ns) e w = rw (dequeue-cons (mutex_queue i) k n ns e) (
    do_unblock-WellQueued (record k { queue = update k.queue (mutex_queue i) ns }) n
      (shrink-WellQueued k (mutex_queue i) ns (λ m h. rw e (ground arith))
        (ground (arith, w.unique (mutex_queue i))) w)
      (w.nodes (mutex_queue i) n (rw e (ground arith))))

release_section-WellQueued :
    (i : ℕ) (k : Kernel) → WellQueued k → WellQueued (release_section i k).1
unfolding release_section
release_section-WellQueued i k w = elim (Bool-cases ((k.pcb k.current).pid == (k.mlocks i).pid)) [
  | inl own ↦ rw own (pass_on-WellQueued i k (k.queue (mutex_queue i)) refl w)
  | inr other ↦ rw other w
]

-- `do_mutex_lock_release` keeps the queues well formed, whoever calls it.
pub do_mutex_lock_release-WellQueued :
    (idx : ℤ) (k : Kernel) → WellQueued k → WellQueued (do_mutex_lock_release idx k).1
unfolding do_mutex_lock_release release_at
do_mutex_lock_release-WellQueued idx k w =
    at_index-keeps WellQueued idx lock_num release_at k w (λ i h.
      guarded-keeps WellQueued (k.mlocks i).guard (set_guard i) (release_section i) k w
        (release_section-WellQueued i (set_guard i locked k) w))
