-- ===== src/Condition.antt =====
-- The condition variables of kernel/locking/condition.c.
pub mod Wait
pub mod Wake
use risc_v_qemu_kernel.Prelude.{ℕ, zero, suc, ◌+◌, Option, none, some, if◌then◌else◌}
use risc_v_qemu_kernel.Prelude.Int.{ℤ, pos, negsuc}
use risc_v_qemu_kernel.Kernel.{
  Kernel, LockStatus, Control, returns, reschedules, exits, spins, done, condition_num, lock_num,
  unused, condition_queue, init_queue, is_empty_queue, dequeue, set_condition, at_index,
}
use risc_v_qemu_kernel.Block.{do_block, do_unblock, wakeup}
use risc_v_qemu_kernel.Slots.{Slot, existing, fresh, full, slot_for}
use risc_v_qemu_kernel.Spin.{spin_lock_init, spin_lock_release, guarded}
use risc_v_qemu_kernel.Mutex.{do_mutex_lock_acquire, do_mutex_lock_release}

-- The loop body of `init_conditions`, for the condition `i`.
pub init_condition : ℕ → Kernel → Kernel
unfolding init_queue spin_lock_init
init_condition i k =
    set_condition i (record { guard = spin_lock_init (k.conditions i).guard; key = unused })
      (init_queue (condition_queue i) k)

init_from : (n i : ℕ) → Kernel → Kernel
unfolding init_condition
init_from zero i k = k
init_from (suc n) i k = init_from n (i + 1) (init_condition i k)

pub init_conditions : Kernel → Kernel
unfolding init_from
init_conditions k = init_from condition_num 0 k

take_slot : ℤ → Slot → Kernel → ℤ × Kernel
take_slot key (existing i) k = (pos i, k)
take_slot key (fresh i) k = (pos i, set_condition i (record (k.conditions i) { key = key }) k)
take_slot key full k = (negsuc 0, k)

pub do_condition_init : ℤ → Kernel → ℤ × Kernel
unfolding take_slot
do_condition_init (negsuc n) k = (negsuc 0, k)
do_condition_init (pos n) k =
    take_slot (pos n) (slot_for condition_num (λ i. (k.conditions i).key) (pos n)) k

set_guard : ℕ → LockStatus → Kernel → Kernel
set_guard i s k = set_condition i (record (k.conditions i) { guard = s }) k

unlock_guard : ℕ → Kernel → Kernel
unfolding set_guard spin_lock_release
unlock_guard i k = set_guard i (spin_lock_release (k.conditions i).guard) k

-- The end of the critical section of `do_condition_wait`, after the call of `do_mutex_lock_release`:
-- where that call waits for the spin lock of the mutex, the section waits too.
after_release : ℕ → Control × Kernel → Control × Kernel
unfolding unlock_guard
after_release i (returns r, k) = (reschedules, unlock_guard i k)
after_release i (reschedules, k) = (reschedules, k)
after_release i (exits, k) = (exits, k)
after_release i (spins, k) = (spins, k)

wait_section : ℤ → ℕ → Kernel → Control × Kernel
unfolding after_release
wait_section mutex_idx i k =
    after_release i (do_mutex_lock_release mutex_idx (do_block k.current (condition_queue i) k))

wait_at : ℤ → ℕ → Kernel → Control × Kernel
unfolding set_guard guarded wait_section
wait_at mutex_idx i k = guarded (k.conditions i).guard (set_guard i) (wait_section mutex_idx i) k

-- Both indices are checked before anything is done.
pub do_condition_wait : (cond_idx mutex_idx : ℤ) → Kernel → Control × Kernel
unfolding at_index wait_at
do_condition_wait cond_idx mutex_idx k =
    at_index cond_idx condition_num (λ i. at_index mutex_idx lock_num (λ m. wait_at mutex_idx i)) k

-- What is left of `do_condition_wait` when the process runs again.
pub resume_wait : ℤ → Kernel → Control × Kernel
resume_wait mutex_idx k =
    if (k.pcb k.current).killed then (exits, k) else do_mutex_lock_acquire mutex_idx k

unblock_front : Option ℕ × Kernel → Kernel
unblock_front (none, k) = k
unblock_front (some n, k) = do_unblock n k

signal_section : ℕ → Kernel → Control × Kernel
unfolding unblock_front unlock_guard dequeue
signal_section i k = (done, unlock_guard i (unblock_front (dequeue (condition_queue i) k)))

signal_at : ℕ → Kernel → Control × Kernel
unfolding set_guard guarded signal_section
signal_at i k = guarded (k.conditions i).guard (set_guard i) (signal_section i) k

pub do_condition_signal : ℤ → Kernel → Control × Kernel
unfolding at_index signal_at
do_condition_signal idx k = at_index idx condition_num signal_at k

broadcast_section : ℕ → Kernel → Control × Kernel
unfolding unlock_guard
broadcast_section i k = (done, unlock_guard i (wakeup (condition_queue i) k))

broadcast_at : ℕ → Kernel → Control × Kernel
unfolding set_guard guarded broadcast_section
broadcast_at i k = guarded (k.conditions i).guard (set_guard i) (broadcast_section i) k

pub do_condition_broadcast : ℤ → Kernel → Control × Kernel
unfolding at_index broadcast_at
do_condition_broadcast idx k = at_index idx condition_num broadcast_at k

drop_key : ℕ → Kernel → Kernel
drop_key i k = set_condition i (record (k.conditions i) { key = unused }) k

destroy_at : ℕ → Kernel → Control × Kernel
unfolding drop_key is_empty_queue
destroy_at i k = (
  done,
  drop_key i (if is_empty_queue (condition_queue i) k then k else wakeup (condition_queue i) k),
)

pub do_condition_destroy : ℤ → Kernel → Control × Kernel
unfolding at_index destroy_at
do_condition_destroy idx k = at_index idx condition_num destroy_at k
