-- ===== src/Sched.antt =====
-- The scheduler: kernel/sched/sched.c and check_sleeping of kernel/sched/time.c.
pub mod Sleep
pub mod Switch
use risc_v_qemu_kernel.Prelude.{
  ℕ, zero, suc, ◌+◌, ◌*◌, ◌/◌, ◌%◌, ◌^◌, Bool, true, false, not, ◌&&◌, Option, none, some, List, [],
  ◌∷◌, leb, ◌==◌, if◌then◌else◌, without,
}
use risc_v_qemu_kernel.Prelude.Int.{ℤ}
use risc_v_qemu_kernel.Kernel.{
  Kernel, Pcb, TaskStatus, running, ready, exited, Control, reschedules, exits, done, task_maxnum,
  ready_queue, sleep_queue, wait_list, enqueue, del_node, init_queue, set_pcb, set_status, run,
}
use risc_v_qemu_kernel.Block.{do_block, do_unblock}

-- `MASK_ALL`
abbrev pub mask_all : ℕ
mask_all = 3

-- The index of `kpcb[cpuid]`.
abbrev pub idle : ℕ → ℕ
idle cpuid = 32 + cpuid

-- The loop body of `init_pcb`, for the entry `i`: without the allocation of its kernel stack.
pub init_entry : ℕ → Kernel → Kernel
unfolding init_queue
init_entry i k = init_queue (wait_list i) (
    set_pcb i
      (record (k.pcb i) {
        status = exited;
        killed = true;
        thread_group_id = 0;
        mask = mask_all;
        dir_inode = 0;
      })
      k)

-- `pcb->mask & (1 << cpuid)`
abbrev pub if_mask_match : (cpuid node : ℕ) → Kernel → Bool
if_mask_match cpuid node k = (k.pcb node).mask / 2 ^ cpuid % 2 == 1

-- The loop of `check_sleeping`: it reads the successor of a node before it moves the node.
unfoldable pub wake_due : (now : ℕ) → List ℕ → Kernel → Kernel
wake_due now [] k = k
wake_due now (n ∷ ns) k =
    let woken = wake_due now ns (do_unblock n k) in
    let left = wake_due now ns k in if leb (k.pcb n).wakeup_time now then woken else left

-- `now` is what `get_timer` returns.
unfoldable pub check_sleeping : ℕ → Kernel → Kernel
unfolding wake_due
check_sleeping now k = wake_due now (k.queue sleep_queue) k

-- `visit(&ready_queue, if_mask_match)`: the first node that may run on the core, taken out.
unfoldable pub first_allowed : (cpuid : ℕ) → List ℕ → Kernel → Option ℕ
first_allowed cpuid [] k = none
first_allowed cpuid (n ∷ ns) k =
    let rest = first_allowed cpuid ns k in if if_mask_match cpuid n k then some n else rest

unfoldable pub visit_ready : (cpuid : ℕ) → Kernel → Option ℕ
unfolding first_allowed
visit_ready cpuid k = first_allowed cpuid (k.queue ready_queue) k

-- `prev->status == TASK_RUNNING && prev->pid != 0`
abbrev pub set_ready : Kernel → Bool
set_ready k = elim (k.pcb k.current).status [
  | running ↦ not ((k.pcb k.current).pid == 0)
  | _ ↦ false
]

unfoldable pub requeue : Kernel → Kernel
unfolding enqueue
requeue k = if set_ready k then enqueue k.current ready_queue k else k

-- The next process: the one that was found, or the idle process of the core.
unfoldable pub next_of : (cpuid : ℕ) → Option ℕ → ℕ
next_of cpuid none = idle cpuid
next_of cpuid (some n) = n

unfoldable pub taken : (cpuid : ℕ) → Option ℕ → Kernel → Kernel
unfolding del_node
taken cpuid none k = k
taken cpuid (some n) k =
    let rest = del_node n k in set_pcb n (record (rest.pcb n) { cpuid = cpuid }) rest

mark_ready : Bool → ℕ → Kernel → Kernel
mark_ready true prev k = set_status prev ready k
mark_ready false prev k = k

-- `do_scheduler` from `prev = current_running` to the switch of contexts: the next process is current.
unfoldable pub switch : (cpuid : ℕ) → Kernel → Kernel
unfolding requeue visit_ready next_of taken mark_ready
switch cpuid k =
    let queued = requeue k in
    let found = visit_ready cpuid queued in
    let next = next_of cpuid found in
    set_status next running
      (run next (mark_ready (set_ready k) k.current (taken cpuid found queued)))

-- What is left of `do_scheduler` when the process runs again.
unfoldable pub after_switch : Kernel → Control
after_switch k = if (k.pcb k.current).killed then exits else done

-- `do_sleep` up to its call of `do_scheduler`; uint64_t wraps around.
unfoldable pub do_sleep : (now sleep_time : ℕ) → Kernel → Control × Kernel
do_sleep now sleep_time k =
    let p = k.pcb k.current in
    (
      reschedules,
      do_block k.current sleep_queue
          (set_pcb k.current (record p { wakeup_time = (now + sleep_time) % 2 ^ 64 }) k),
    )
