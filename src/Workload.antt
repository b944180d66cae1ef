-- ===== src/Workload.antt =====
-- The workload scheduler of kernel/sched/workload.c, which runs the process that is least advanced.
--
-- The interval of the timer is left out, and the switch of preemption; progress is a natural number.
use risc_v_qemu_kernel.Prelude.{
  ℕ, zero, suc, ◌+◌, ◌-◌, ◌*◌, ◌≤◌, ◌≡◌, ap, List, [], ◌∷◌, leb, arith, if◌then◌else◌,
}
use risc_v_qemu_kernel.Kernel.{Kernel, running, ready_queue, set_pcb, set_status, del_node, run}
use risc_v_qemu_kernel.Block.{do_unblock}
use risc_v_qemu_kernel.Sched.{requeue}

-- `__INT32_MAX__`
abbrev pub int32_max : ℕ
int32_max = 2147483647

-- `FLY_NUM`
abbrev pub fly_num : ℕ
fly_num = 5

-- `check_point`, for the index of the entry in `pcb`
abbrev pub check_point : ℕ → ℕ
check_point i = 10 * i

-- The loop body of `init_fly`, for `pcb[i]`.
unfoldable pub aim : ℕ → ℕ → Kernel → Kernel
aim target i k = set_pcb i (record (k.pcb i) { next_target = target; progress = 0 }) k

-- `init_fly`, for `n` entries from `i` on.
unfoldable pub init_fly_from : (n i : ℕ) → Kernel → Kernel
unfolding aim
init_fly_from zero i k = k
init_fly_from (suc n) i k = init_fly_from n (i + 1) (aim (check_point i) i k)

pub init_fly : Kernel → Kernel
unfolding init_fly_from
init_fly k = init_fly_from fly_num 1 k

-- The loop of `reset_target_wakeup`, on the table of targets `points`.
unfoldable pub reset_from : (n i : ℕ) → (ℕ → ℕ) → Kernel → Kernel
unfolding aim
reset_from zero i points k = k
reset_from (suc n) i points k =
    reset_from n (i + 1) points (do_unblock i (aim (points (i - 1)) i k))

pub reset_target_wakeup : (ℕ → ℕ) → Kernel → Kernel
unfolding reset_from
reset_target_wakeup points k = reset_from fly_num 1 points k

-- The loop that looks for the least progress.
unfoldable pub min_from : List ℕ → (min_node min_progress : ℕ) → Kernel → ℕ
min_from [] min_node min_progress k = min_node
min_from (n ∷ ns) min_node min_progress k =
    let here = min_from ns n (k.pcb n).progress k in
    let rest = min_from ns min_node min_progress k in
    if leb (k.pcb n).progress min_progress then here else rest

-- Nothing happens if no process is ready.
unfoldable pub choose_least : List ℕ → Kernel → Kernel
unfolding min_from del_node
choose_least [] k = k
choose_least (n ∷ ns) k =
    let least = min_from (n ∷ ns) n int32_max k in
    set_status least running (run least (del_node least k))

unfoldable pub do_workload_scheduler : Kernel → Kernel
unfolding choose_least requeue
do_workload_scheduler k = let queued = requeue k in choose_least (queued.queue ready_queue) queued

-- None of the processes has made less progress than `p`.
abbrev pub NoneBehind : (p : ℕ) → List ℕ → Kernel → Type 0
NoneBehind p [] k = Unit {0}
NoneBehind p (n ∷ ns) k = (p ≤ (k.pcb n).progress) × NoneBehind p ns k

min_from-least :
    (ns : List ℕ) (node p : ℕ) (k : Kernel)
    → (k.pcb node).progress ≤ p
    → let least = min_from ns node p k in
      ((k.pcb least).progress ≤ p) × NoneBehind (k.pcb least).progress ns k
unfolding min_from
min_from-least [] node p k h = (h, tt)
min_from-least (n ∷ ns) node p k h =
    ground
      (arith, min_from-least ns n (k.pcb n).progress k (omega arith), min_from-least ns node p k h)

do_workload_scheduler-current :
    (k : Kernel) (n : ℕ) (ns : List ℕ)
    → (requeue k).queue ready_queue ≡ n ∷ ns
    → (do_workload_scheduler k).current ≡ min_from (n ∷ ns) n int32_max (requeue k)
unfolding do_workload_scheduler choose_least
do_workload_scheduler-current k n ns e = ap (λ q. (choose_least q (requeue k)).current) e

along : (P : ℕ → Type 0) {a b : ℕ} → a ≡ b → P b → P a
along P e h = rw e h

-- The process that the workload scheduler runs is one that no ready process is behind, where progress
-- is an int.
pub do_workload_scheduler_lem :
    (k : Kernel) (n : ℕ) (ns : List ℕ)
    → (requeue k).queue ready_queue ≡ n ∷ ns
    → ((requeue k).pcb n).progress ≤ int32_max
    → NoneBehind ((requeue k).pcb (do_workload_scheduler k).current).progress (n ∷ ns) (requeue k)
do_workload_scheduler_lem k n ns e h =
    along (λ next. NoneBehind ((requeue k).pcb next).progress (n ∷ ns) (requeue k))
      (do_workload_scheduler-current k n ns e) (min_from-least (n ∷ ns) n int32_max (requeue k) h).1
