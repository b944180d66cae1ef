-- ===== src/Process.antt =====
-- Process control: kernel/sched/proc.c.
pub mod Lookup
pub mod Wait
pub mod Leave
use risc_v_qemu_kernel.Prelude.{
  ℕ, zero, suc, ◌+◌, ◌-◌, ◌/◌, Bool, true, false, not, ◌&&◌, ◌||◌, Option, none, some, leb, ltb,
  ◌==◌, if◌then◌else◌, find, has,
}
use risc_v_qemu_kernel.Prelude.Int.{ℤ, pos, negsuc, ltb_ℤ, ◌-ℤ◌}
use risc_v_qemu_kernel.Kernel.{
  Kernel, Pcb, TaskStatus, exited, running, LockStatus, Control, returns, reschedules, done,
  and_then, for_each, task_maxnum, lock_num, barrier_num, mbox_num, wait_list, barrier_queue,
  send_queue, recv_queue, set_pcb, set_barrier, set_mailbox,
}
use risc_v_qemu_kernel.Block.{do_block, do_unblock, wakeup}
use risc_v_qemu_kernel.Spin.{guarded, spin_lock_release}
use risc_v_qemu_kernel.Mutex.{do_mutex_lock_release}
use risc_v_qemu_kernel.Sched.{mask_all}

abbrev pub is_exited : TaskStatus → Bool
is_exited exited = true
is_exited s = false

-- The test in the loop of `get_pcb`.
abbrev pub is_alive : (pid : ℕ) → Pcb → Bool
is_alive pid p = (p.pid == pid) && not (is_exited p.status) && not p.killed

unfoldable pub get_pcb : (pid : ℕ) → Kernel → Option ℕ
get_pcb pid k = find task_maxnum (λ i. is_alive pid (k.pcb i))

-- `free_lock`: releases the locks that the process owns.
free_lock_step : (pid i : ℕ) → Kernel → Control × Kernel
free_lock_step pid i k =
    if (k.mlocks i).pid == pid then do_mutex_lock_release (pos i) k else (done, k)

unfoldable pub free_lock : (pid : ℕ) → Kernel → Control × Kernel
unfolding for_each free_lock_step
free_lock pid k = for_each lock_num 0 (free_lock_step pid) k

set_barrier_guard : ℕ → LockStatus → Kernel → Kernel
set_barrier_guard i s k = set_barrier i (record (k.barriers i) { guard = s }) k

-- The process leaves the barrier that it waits at, and is not counted there any more.
leave_barrier : ℕ → Kernel → Kernel
leave_barrier i k =
    let woken = do_unblock k.current k in
    let left =
      set_barrier i (record (woken.barriers i) { arrived = (woken.barriers i).arrived - 1 })
        woken in
    if ltb 0 (k.barriers i).arrived && has k.current (k.queue (barrier_queue i)) then left else k

free_barrier_section : ℕ → Kernel → Control × Kernel
unfolding leave_barrier set_barrier_guard
free_barrier_section i k =
    let left = leave_barrier i k in
    (done, set_barrier_guard i (spin_lock_release (left.barriers i).guard) left)

free_barrier_step : ℕ → Kernel → Control × Kernel
unfolding guarded set_barrier_guard free_barrier_section
free_barrier_step i k =
    guarded (k.barriers i).guard (set_barrier_guard i) (free_barrier_section i) k

unfoldable pub free_barrier : Kernel → Control × Kernel
unfolding for_each free_barrier_step
free_barrier k = for_each barrier_num 0 free_barrier_step k

set_mailbox_guard : ℕ → LockStatus → Kernel → Kernel
set_mailbox_guard i s k = set_mailbox i (record (k.mailboxes i) { guard = s }) k

leave_mailbox : ℕ → Kernel → Kernel
leave_mailbox i k =
    let woken = do_unblock k.current k in
    let left =
      set_mailbox i
        (record (woken.mailboxes i) { user_count = (woken.mailboxes i).user_count -ℤ pos 1 })
        woken in
    if ltb_ℤ (pos 0) (k.mailboxes i).user_count
      && (has k.current (k.queue (send_queue i)) || has k.current (k.queue (recv_queue i)))
    then left
    else k

free_mbox_section : ℕ → Kernel → Control × Kernel
unfolding leave_mailbox set_mailbox_guard
free_mbox_section i k =
    let left = leave_mailbox i k in
    (done, set_mailbox_guard i (spin_lock_release (left.mailboxes i).guard) left)

free_mbox_step : ℕ → Kernel → Control × Kernel
unfolding guarded set_mailbox_guard free_mbox_section
free_mbox_step i k = guarded (k.mailboxes i).guard (set_mailbox_guard i) (free_mbox_section i) k

unfoldable pub free_mbox : Kernel → Control × Kernel
unfolding for_each free_mbox_step
free_mbox k = for_each mbox_num 0 free_mbox_step k

-- The first three calls of `do_exit` and of `force_exit`.
unfoldable pub free_resources : Kernel → Control × Kernel
unfolding and_then free_lock free_barrier free_mbox
free_resources k =
    and_then (free_lock (k.pcb k.current).pid k) (λ m. and_then (free_barrier m) free_mbox)

-- The last steps of `do_exit` before it gives up the processor, and of `force_exit`.
unfoldable pub end_process : Kernel → Kernel
end_process k = wakeup (wait_list k.current) (
    set_pcb k.current
      (record (k.pcb k.current) {
        status = exited;
        killed = true;
        thread_group_id = 0;
        mask = mask_all;
      })
      k)

mark_killed : Option ℕ → Kernel → ℕ × Kernel
mark_killed none k = (0, k)
mark_killed (some i) k = (1, set_pcb i (record (k.pcb i) { killed = true }) k)

-- `pid > process_id` is tested after the search.
unfoldable pub do_kill : (pid : ℕ) → Kernel → ℕ × Kernel
unfolding mark_killed get_pcb
do_kill pid k =
    if pid == 0
    then (0, k)
    else if pid == (k.pcb k.current).pid
    then (0, k)
    else if ltb k.process_id pid
    then (0, k)
    else mark_killed (get_pcb pid k) k

wait_for : Option ℕ → Kernel → Control × Kernel
wait_for none k = (returns (pos 0), k)
wait_for (some i) k = (reschedules, do_block k.current (wait_list i) k)

-- `do_waitpid` up to its call of `do_scheduler`; it returns the pid when the process runs again.
unfoldable pub do_waitpid : (pid : ℕ) → Kernel → Control × Kernel
unfolding wait_for get_pcb
do_waitpid pid k = wait_for (get_pcb pid k) k

join_found : Option ℕ → Kernel → Control × Kernel
join_found none k = (returns (pos 0), k)
join_found (some i) k =
    if (k.pcb i).thread_group_id == (k.pcb k.current).pid
    then (reschedules, do_block k.current (wait_list i) k)
    else (returns (pos 0), k)

-- `do_thread_join`, likewise.
unfoldable pub do_thread_join : (pid : ℕ) → Kernel → Control × Kernel
unfolding join_found get_pcb
do_thread_join pid k = join_found (get_pcb pid k) k

-- The decimal digits of a number; the fuel bounds their count.
unfoldable pub i_len_loop : (fuel num len : ℕ) → ℕ
i_len_loop zero num len = len
i_len_loop (suc fuel) num len =
    let rest = i_len_loop fuel (num / 10) (len + 1) in if num == 0 then len else rest

unfoldable pub i_len : (fuel num : ℕ) → ℕ
unfolding i_len_loop
i_len fuel num = if num == 0 then 1 else i_len_loop fuel num 0
