-- ===== src/Process/Lookup.antt =====
-- `get_pcb` and `do_kill` of kernel/sched/proc.c.
use risc_v_qemu_kernel.Prelude.{
  ℕ, ◌≤◌, ◌<◌, ◌≡◌, ◌≢◌, ◌⊎◌, refl, true, false, none, some, ◌==◌, find-some, find-none, find-hit,
  arith, inl, inr, Option-cases,
}
use risc_v_qemu_kernel.Kernel.{Kernel, task_maxnum, set_pcb}
use risc_v_qemu_kernel.Process.{get_pcb, is_alive, do_kill}

-- What `get_pcb` finds is alive and has the pid; if it finds nothing, no entry is alive with the pid.
pub get_pcb_lem :
    (pid : ℕ) (k : Kernel)
    → ((i : ℕ) → get_pcb pid k ≡ some i → (is_alive pid (k.pcb i) ≡ true) × (i < task_maxnum))
      × (get_pcb pid k ≡ none → (i : ℕ) → i < task_maxnum → is_alive pid (k.pcb i) ≡ false)
unfolding get_pcb
get_pcb_lem pid k = (
  λ i e. find-some (λ j. is_alive pid (k.pcb j)) task_maxnum i e,
  λ e i h. find-none (λ j. is_alive pid (k.pcb j)) task_maxnum e i h,
)

-- No two processes that are alive have one pid.
abbrev pub PidsUnique : Kernel → Type 0
PidsUnique k =
    (i j pid : ℕ)
    → i < task_maxnum
    → j < task_maxnum
    → is_alive pid (k.pcb i) ≡ true
    → is_alive pid (k.pcb j) ≡ true
    → i ≡ j

get_pcb-hit :
    (pid i : ℕ) (k : Kernel)
    → PidsUnique k
    → i < task_maxnum
    → is_alive pid (k.pcb i) ≡ true
    → get_pcb pid k ≡ some i
unfolding get_pcb
get_pcb-hit pid i k u h a =
    find-hit (λ j. is_alive pid (k.pcb j)) task_maxnum i a
      (λ j lt. ground (arith, u i j pid h (omega arith) a)) h

killed_state : ℕ → Kernel → Kernel
killed_state i k = set_pcb i (record (k.pcb i) { killed = true }) k

do_kill-hit :
    (pid i : ℕ) (k : Kernel)
    → get_pcb pid k ≡ some i
    → pid ≢ 0
    → pid ≢ (k.pcb k.current).pid
    → pid ≤ k.process_id
    → do_kill pid k ≡ (1, killed_state i k)
unfolding do_kill killed_state
do_kill-hit pid i k e nz other given = ground arith

get_pcb-killed_state :
    (pid i : ℕ) (k : Kernel)
    → PidsUnique k
    → i < task_maxnum
    → is_alive pid (k.pcb i) ≡ true
    → get_pcb pid (killed_state i k) ≡ none
get_pcb-killed_state pid i k u h a = elim (Option-cases (get_pcb pid (killed_state i k))) [
  | inl e ↦ e
  | inr found ↦
      let (j, e) = found in
      let alive = (get_pcb_lem pid (killed_state i k)).0 j e in
      absurd (unfold killed_state in ground (arith, alive.0, u i j pid h alive.1 a))
]

do_kill-miss : (pid : ℕ) (k : Kernel) → get_pcb pid k ≡ none → do_kill pid k ≡ (0, k)
unfolding do_kill
do_kill-miss pid k e = ground arith

-- `do_kill` of a process that is alive, with a pid that was given out and is not that of the caller:
-- it succeeds and marks this process; nothing else changes, so that the process goes on until it next
-- returns from a switch; and a second call does not find the process any more, and fails.
pub do_kill_lem :
    (pid i : ℕ) (k : Kernel)
    → PidsUnique k
    → i < task_maxnum
    → is_alive pid (k.pcb i) ≡ true
    → pid ≢ 0
    → pid ≢ (k.pcb k.current).pid
    → pid ≤ k.process_id
    → let (r, m) = do_kill pid k in
      (r ≡ 1)
      × ((m.pcb i).killed ≡ true)
      × ((m.pcb i).status ≡ (k.pcb i).status)
      × ((j : ℕ) → (j == i) ≡ false → m.pcb j ≡ k.pcb j)
      × (m.queue ≡ k.queue)
      × (do_kill pid m ≡ (0, m))
do_kill_lem pid i k u h a nz other given =
    rw (do_kill-hit pid i k (get_pcb-hit pid i k u h a) nz other given) (
      refl,
      unfold killed_state in ground arith,
      unfold killed_state in ground arith,
      λ j ne. unfold killed_state in ground arith,
      unfold killed_state in refl,
      do_kill-miss pid (killed_state i k) (get_pcb-killed_state pid i k u h a),
    )

-- `do_kill` refuses the kernel's own pid, the caller, and a pid that was not given out, and changes
-- nothing.
pub do_kill_refuses :
    (pid : ℕ) (k : Kernel)
    → (pid ≡ 0) ⊎ ((pid ≡ (k.pcb k.current).pid) ⊎ (k.process_id < pid))
    → do_kill pid k ≡ (0, k)
unfolding do_kill
do_kill_refuses pid k h = ground (arith, h)
