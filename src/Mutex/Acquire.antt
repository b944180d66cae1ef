-- ===== src/Mutex/Acquire.antt =====
-- `do_mutex_lock_acquire` of kernel/locking/lock.c, on every branch.
use risc_v_qemu_kernel.Prelude.{ℕ, ◌<◌, ◌≤◌, ◌≡◌, refl, false, ◌∷◌, [], ◌++◌, arith}
use risc_v_qemu_kernel.Prelude.Int.{pos, negsuc}
use risc_v_qemu_kernel.Kernel.{
  Kernel, unlocked, locked, blocked, reschedules, spins, done, lock_num, mutex_queue,
}
use risc_v_qemu_kernel.Block.{do_block}
use risc_v_qemu_kernel.Mutex.{do_mutex_lock_acquire}

-- A free lock: the caller becomes its owner and goes on; the spin lock is released, and no queue and
-- no process changes.
pub acquire_free :
    (i : ℕ) (k : Kernel)
    → i < lock_num
    → (k.mlocks i).guard ≡ unlocked
    → (k.mlocks i).status ≡ unlocked
    → let (c, m) = do_mutex_lock_acquire (pos i) k in
      (c ≡ done)
      × ((m.mlocks i).status ≡ locked)
      × ((m.mlocks i).pid ≡ (k.pcb k.current).pid)
      × ((m.mlocks i).guard ≡ unlocked)
      × (m.queue ≡ k.queue)
      × (m.pcb ≡ k.pcb)
unfolding do_mutex_lock_acquire
acquire_free i k h g s = ground arith

-- A lock that is held: the caller is blocked at the end of the lock's queue and gives up the
-- processor; the owner stays, and the spin lock is released.
pub acquire_held :
    (i : ℕ) (k : Kernel)
    → i < lock_num
    → (k.mlocks i).guard ≡ unlocked
    → (k.mlocks i).status ≡ locked
    → (k.pcb k.current).killed ≡ false
    → let (c, m) = do_mutex_lock_acquire (pos i) k in
      (c ≡ reschedules)
      × (m.queue (mutex_queue i) ≡ k.queue (mutex_queue i) ++ k.current ∷ [])
      × ((m.pcb k.current).status ≡ blocked)
      × (m.mlocks i ≡ k.mlocks i)
unfolding do_mutex_lock_acquire do_block
acquire_held i k h g s a = ground arith

-- An index outside the table is refused, and a held spin lock makes the caller wait: both leave
-- everything as it was.
pub acquire_idle :
    (k : Kernel)
    → ((n : ℕ) → do_mutex_lock_acquire (negsuc n) k ≡ (done, k))
      × ((i : ℕ) → lock_num ≤ i → do_mutex_lock_acquire (pos i) k ≡ (done, k))
      × ((i : ℕ)
          → i < lock_num
          → (k.mlocks i).guard ≡ locked
          → do_mutex_lock_acquire (pos i) k ≡ (spins, k))
unfolding do_mutex_lock_acquire
acquire_idle k = (λ n. refl, λ i h. ground arith, λ i h g. ground arith)
