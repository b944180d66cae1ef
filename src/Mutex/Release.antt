-- ===== src/Mutex/Release.antt =====
-- `do_mutex_lock_release` of kernel/locking/lock.c: the lock goes from process to process in the
-- order in which they came.
use risc_v_qemu_kernel.Prelude.{ℕ, ◌<◌, ◌≡◌, false, List, [], ◌∷◌, ◌≢◌, arith, without-absent, has}
use risc_v_qemu_kernel.Prelude.Int.{pos}
use risc_v_qemu_kernel.Kernel.{
  Kernel, run, unlocked, locked, ready, spins, done, lock_num, unused, mutex_queue,
}
use risc_v_qemu_kernel.Block.{do_unblock}
use risc_v_qemu_kernel.Mutex.{do_mutex_lock_acquire, do_mutex_lock_release}

-- The owner releases a lock that processes wait for: the first of them owns it now and is ready, the
-- others wait on, and the lock never was free.
pub release_hands_over :
    (i n : ℕ) (ns : List ℕ) (k : Kernel)
    → i < lock_num
    → (k.mlocks i).guard ≡ unlocked
    → (k.mlocks i).status ≡ locked
    → (k.pcb k.current).pid ≡ (k.mlocks i).pid
    → k.queue (mutex_queue i) ≡ n ∷ ns
    → has n ns ≡ false
    → let (c, m) = do_mutex_lock_release (pos i) k in
      (c ≡ done)
      × ((m.mlocks i).status ≡ locked)
      × ((m.mlocks i).pid ≡ (k.pcb n).pid)
      × ((m.mlocks i).guard ≡ unlocked)
      × (m.queue (mutex_queue i) ≡ ns)
      × ((m.pcb n).status ≡ ready)
unfolding do_mutex_lock_release do_unblock
release_hands_over i n ns k h g s o q out = ground (arith, without-absent n ns)

-- The owner releases a lock that nobody waits for: the lock is free and its entry unused.
pub release_frees :
    (i : ℕ) (k : Kernel)
    → i < lock_num
    → (k.mlocks i).guard ≡ unlocked
    → (k.pcb k.current).pid ≡ (k.mlocks i).pid
    → k.queue (mutex_queue i) ≡ []
    → let (c, m) = do_mutex_lock_release (pos i) k in
      (c ≡ done)
      × (m.mlocks i ≡ record { guard = unlocked; status = unlocked; key = unused; pid = 0 })
      × (m.queue ≡ k.queue)
      × (m.pcb ≡ k.pcb)
unfolding do_mutex_lock_release
release_frees i k h g o q = ground arith

-- A process that does not own the lock leaves its spin lock held: whoever calls an operation of the
-- lock afterwards, also the owner, waits for the spin lock for ever, whatever happens elsewhere.
pub release_by_other_blocks_lock :
    (i : ℕ) (k later : Kernel)
    → i < lock_num
    → (k.mlocks i).guard ≡ unlocked
    → (k.pcb k.current).pid ≢ (k.mlocks i).pid
    → later.mlocks i ≡ (do_mutex_lock_release (pos i) k).1.mlocks i
    → (do_mutex_lock_acquire (pos i) later ≡ (spins, later))
      × (do_mutex_lock_release (pos i) later ≡ (spins, later))
unfolding do_mutex_lock_release do_mutex_lock_acquire
release_by_other_blocks_lock i k later h g o e = ground arith

-- The processes of a list take the processor in turn, and each releases the lock.
unfoldable pub release_in_turn : ℕ → List ℕ → Kernel → Kernel
release_in_turn i [] k = k
release_in_turn i (n ∷ ns) k = release_in_turn i ns (do_mutex_lock_release (pos i) (run n k)).1
