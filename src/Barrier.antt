-- ===== src/Barrier.antt =====
-- The barriers of kernel/locking/barrier.c.
pub mod Wait
pub mod Rounds
use risc_v_qemu_kernel.Prelude.{ℕ, zero, suc, ◌+◌, none, some, leb, if◌then◌else◌}
use risc_v_qemu_kernel.Prelude.Int.{ℤ, pos, negsuc}
use risc_v_qemu_kernel.Kernel.{
  Kernel, LockStatus, Control, reschedules, done, barrier_num, unused, barrier_queue, init_queue,
  is_empty_queue, set_barrier, at_index,
}
use risc_v_qemu_kernel.Block.{do_block, wakeup}
use risc_v_qemu_kernel.Slots.{Slot, existing, fresh, full, slot_for}
use risc_v_qemu_kernel.Spin.{spin_lock_init, spin_lock_release, guarded}

-- The loop body of `init_barriers`, for the barrier `i`.
pub init_barrier : ℕ → Kernel → Kernel
unfolding init_queue spin_lock_init
init_barrier i k =
    set_barrier i
      (record { guard = spin_lock_init (k.barriers i).guard; key = unused; goal = 0; arrived = 0 })
      (init_queue (barrier_queue i) k)

init_from : (n i : ℕ) → Kernel → Kernel
unfolding init_barrier
init_from zero i k = k
init_from (suc n) i k = init_from n (i + 1) (init_barrier i k)

pub init_barriers : Kernel → Kernel
unfolding init_from
init_barriers k = init_from barrier_num 0 k

-- A barrier that has the key may be given another goal.
take_slot : (key goal : ℕ) → Slot → Kernel → ℤ × Kernel
take_slot key goal (existing i) k = (pos i, set_barrier i (record (k.barriers i) { goal = goal }) k)
take_slot key goal (fresh i) k =
    (pos i, set_barrier i (record (k.barriers i) { goal = goal; key = pos key }) k)
take_slot key goal full k = (negsuc 0, k)

-- Negative keys are refused, and goals that are not positive.
pub do_barrier_init : (key goal : ℤ) → Kernel → ℤ × Kernel
unfolding take_slot
do_barrier_init (negsuc n) goal k = (negsuc 0, k)
do_barrier_init (pos key) (negsuc n) k = (negsuc 0, k)
do_barrier_init (pos key) (pos zero) k = (negsuc 0, k)
do_barrier_init (pos key) (pos (suc g)) k =
    take_slot key (suc g) (slot_for barrier_num (λ i. (k.barriers i).key) (pos key)) k

set_guard : ℕ → LockStatus → Kernel → Kernel
set_guard i s k = set_barrier i (record (k.barriers i) { guard = s }) k

unlock_guard : ℕ → Kernel → Kernel
unfolding set_guard spin_lock_release
unlock_guard i k = set_guard i (spin_lock_release (k.barriers i).guard) k

set_arrived : (i n : ℕ) → Kernel → Kernel
set_arrived i n k = set_barrier i (record (k.barriers i) { arrived = n }) k

-- The critical section of `do_barrier_wait`: the process that completes the round resets the count
-- and wakes the others, any other process is blocked.
wait_section : ℕ → Kernel → Control × Kernel
unfolding set_arrived unlock_guard
wait_section i k =
    let b = k.barriers i in
    if leb b.goal (b.arrived + 1)
    then (done, unlock_guard i (wakeup (barrier_queue i) (set_arrived i 0 k)))
    else (
      reschedules,
      unlock_guard i (do_block k.current (barrier_queue i) (set_arrived i (b.arrived + 1) k)),
    )

wait_at : ℕ → Kernel → Control × Kernel
unfolding set_guard wait_section guarded
wait_at i k = guarded (k.barriers i).guard (set_guard i) (wait_section i) k

pub do_barrier_wait : ℤ → Kernel → Control × Kernel
unfolding at_index wait_at
do_barrier_wait idx k = at_index idx barrier_num wait_at k

clear : ℕ → Kernel → Kernel
unfolding init_queue
clear i k =
    init_queue (barrier_queue i)
      (set_barrier i (record (k.barriers i) { key = unused; goal = 0; arrived = 0 }) k)

destroy_at : ℕ → Kernel → Control × Kernel
unfolding clear is_empty_queue
destroy_at i k =
    (done, clear i (if is_empty_queue (barrier_queue i) k then k else wakeup (barrier_queue i) k))

pub do_barrier_destroy : ℤ → Kernel → Control × Kernel
unfolding at_index destroy_at
do_barrier_destroy idx k = at_index idx barrier_num destroy_at k
