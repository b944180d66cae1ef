-- ===== src/Mutex.antt =====
-- The mutex locks of kernel/locking/lock.c.
pub mod Init
pub mod Acquire
pub mod Release
pub mod Invariant
use risc_v_qemu_kernel.Prelude.{ℕ, zero, suc, ◌+◌, Option, none, some, ◌==◌, if◌then◌else◌}
use risc_v_qemu_kernel.Prelude.Int.{ℤ, pos, negsuc}
use risc_v_qemu_kernel.Kernel.{
  Kernel, LockStatus, unlocked, locked, Control, reschedules, exits, done, lock_num, unused,
  mutex_queue, dequeue, init_queue, set_mlock, at_index,
}
use risc_v_qemu_kernel.Block.{do_block, do_unblock}
use risc_v_qemu_kernel.Slots.{Slot, existing, fresh, full, slot_for}
use risc_v_qemu_kernel.Spin.{is_locked, spin_lock_init, spin_lock_release, guarded}

-- The loop body of `init_locks`, for the lock `i`.
pub init_lock : ℕ → Kernel → Kernel
unfolding init_queue spin_lock_init
init_lock i k =
    set_mlock i
      (record {
        guard = spin_lock_init (k.mlocks i).guard;
        status = unlocked;
        key = unused;
        pid = 0;
      })
      (init_queue (mutex_queue i) k)

-- `for (i = 0; i < n; i++)` over the locks.
init_from : (n i : ℕ) → Kernel → Kernel
unfolding init_lock
init_from zero i k = k
init_from (suc n) i k = init_from n (i + 1) (init_lock i k)

pub init_locks : Kernel → Kernel
unfolding init_from
init_locks k = init_from lock_num 0 k

set_key : ℕ → ℤ → Kernel → Kernel
set_key i key k = set_mlock i (record (k.mlocks i) { key = key }) k

take_slot : ℤ → Slot → Kernel → ℤ × Kernel
unfolding set_key
take_slot key (existing i) k = (pos i, k)
take_slot key (fresh i) k = (pos i, set_key i key k)
take_slot key full k = (negsuc 0, k)

-- The lock that has the key, or else a fresh one, or -1.
unfoldable pub do_mutex_lock_init : ℤ → Kernel → ℤ × Kernel
unfolding take_slot
do_mutex_lock_init (negsuc n) k = (negsuc 0, k)
do_mutex_lock_init (pos n) k =
    take_slot (pos n) (slot_for lock_num (λ i. (k.mlocks i).key) (pos n)) k

set_guard : ℕ → LockStatus → Kernel → Kernel
set_guard i s k = set_mlock i (record (k.mlocks i) { guard = s }) k

unlock_guard : ℕ → Kernel → Kernel
unfolding set_guard spin_lock_release
unlock_guard i k = set_guard i (spin_lock_release (k.mlocks i).guard) k

-- The critical section of `do_mutex_lock_acquire`, behind its spin lock.
acquire_section : ℕ → Kernel → Control × Kernel
unfolding unlock_guard
acquire_section i k =
    if is_locked (k.mlocks i).status
    then (reschedules, unlock_guard i (do_block k.current (mutex_queue i) k))
    else (
      done,
      unlock_guard i
          (set_mlock i (record (k.mlocks i) { status = locked; pid = (k.pcb k.current).pid }) k),
    )

pub acquire_at : ℕ → Kernel → Control × Kernel
unfolding guarded acquire_section set_guard
acquire_at i k = guarded (k.mlocks i).guard (set_guard i) (acquire_section i) k

unfoldable pub do_mutex_lock_acquire : ℤ → Kernel → Control × Kernel
unfolding at_index acquire_at
do_mutex_lock_acquire idx k = at_index idx lock_num acquire_at k

-- What is left of `do_mutex_lock_acquire` when a process that was blocked runs again.
unfoldable pub resume_acquire : Kernel → Control
resume_acquire k = if (k.pcb k.current).killed then exits else done

-- The lock goes to the first process that waits for it, and stays LOCKED.
hand_over : (i next : ℕ) → Kernel → Kernel
hand_over i next k =
    let woken = do_unblock next k in
    set_mlock i (record (woken.mlocks i) { pid = (woken.pcb next).pid }) woken

-- Nobody waits: the lock is free, and its slot too.
free_lock_slot : ℕ → Kernel → Kernel
free_lock_slot i k =
    set_mlock i (record (k.mlocks i) { status = unlocked; pid = 0; key = unused }) k

-- The two cases of the queue: `dequeue` gives NULL exactly when it is empty.
pass_on : ℕ → Option ℕ × Kernel → Kernel → Kernel
unfolding hand_over free_lock_slot
pass_on i (none, rest) k = free_lock_slot i k
pass_on i (some next, rest) k = hand_over i next rest

-- The critical section of `do_mutex_lock_release`. A caller that is not the owner returns at once,
-- without releasing the spin lock.
release_section : ℕ → Kernel → Control × Kernel
unfolding dequeue pass_on unlock_guard
release_section i k =
    if (k.pcb k.current).pid == (k.mlocks i).pid
    then (done, unlock_guard i (pass_on i (dequeue (mutex_queue i) k) k))
    else (done, k)

pub release_at : ℕ → Kernel → Control × Kernel
unfolding guarded release_section set_guard
release_at i k = guarded (k.mlocks i).guard (set_guard i) (release_section i) k

unfoldable pub do_mutex_lock_release : ℤ → Kernel → Control × Kernel
unfolding at_index release_at
do_mutex_lock_release idx k = at_index idx lock_num release_at k
