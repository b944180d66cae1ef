-- ===== src/Tests/Processes.antt =====
-- The scheduler and process control in the kernel of `Tests.Locks`.
use risc_v_qemu_kernel.Prelude.{
  ℕ, ◌≡◌, ◌≢◌, ◌≤◌, ◌<◌, ◌+◌, refl, true, false, [], ◌∷◌, ◌==◌, some, find, has, if◌then◌else◌,
  arith,
}
use risc_v_qemu_kernel.Prelude.Int.{pos}
use risc_v_qemu_kernel.Kernel.{
  Kernel, running, ready, blocked, exited, returns, reschedules, wait_list,
}
use risc_v_qemu_kernel.Block.Invariant.{WellQueued}
use risc_v_qemu_kernel.Sched.{switch, check_sleeping, do_sleep}
use risc_v_qemu_kernel.Sched.Sleep.{due, check_sleeping_lem, do_sleep_lem}
use risc_v_qemu_kernel.Sched.Switch.{switch_runs, switch_idles}
use risc_v_qemu_kernel.Process.{get_pcb, do_kill, do_waitpid, do_thread_join, end_process}
use risc_v_qemu_kernel.Process.Lookup.{PidsUnique, do_kill_lem}
use risc_v_qemu_kernel.Process.Wait.{do_waitpid_blocks, do_thread_join_lem, end_process_lem}
use risc_v_qemu_kernel.Tests.Locks.{process, held}

-- The idle process of core 1 has pid 0; process 2 sleeps until 5, process 3 until 9.
abbrev scene : Kernel
scene = record held {
  pcb = λ n.
      record (process n (
        if n == 4
        then ready
        else if n == 2
        then blocked
        else if n == 3
        then blocked
        else running)) {
          pid = if n == 33 then 0 else n + 1;
          wakeup_time = if n == 2 then 5 else 9;
        };
  process_id = 40;
  queue = λ q. if q == 64 then 4 ∷ [] else if q == 65 then 2 ∷ 3 ∷ [] else [];
}

scene-WellQueued : WellQueued scene
scene-WellQueued = record {
  nodes = λ q n h. ground arith;
  unique = λ q. ground arith;
  one = λ n q r hq hr. ground arith;
  is_ready = λ n h. ground arith;
  is_blocked = λ n q o h. ground arith;
}

check_sleeping_lem_example :
    let m = check_sleeping 6 scene in (m.queue 64 ≡ 4 ∷ 2 ∷ []) × (m.queue 65 ≡ 3 ∷ [])
check_sleeping_lem_example = check_sleeping_lem 6 scene scene-WellQueued

do_sleep_lem_holds :
    let (c, m) = do_sleep 10 5 scene in
    (c ≡ reschedules)
    × (m.queue 65 ≡ 2 ∷ 3 ∷ 1 ∷ [])
    × ((m.pcb 1).status ≡ blocked)
    × (12 < 15 → due 12 m.pcb (1 ∷ []) ≡ [])
    × (15 ≤ 12 → due 12 m.pcb (1 ∷ []) ≡ 1 ∷ [])
do_sleep_lem_holds = do_sleep_lem 10 5 12 scene refl (omega arith)

switch_runs_example :
    let m = switch 1 scene in
    (m.current ≡ 4) × (m.queue 64 ≡ 1 ∷ []) × ((m.pcb 4).status ≡ running) × ((m.pcb 4).cpuid ≡ 1)
switch_runs_example = switch_runs 1 [] 4 (1 ∷ []) scene scene-WellQueued refl tt refl

-- No process may run on core 2, which is not in the mask.
switch_idles_holds :
    let m = switch 2 scene in
    (m.current ≡ 34) × (m.queue 64 ≡ 4 ∷ 1 ∷ []) × ((m.pcb 34).status ≡ running)
switch_idles_holds = switch_idles 2 scene (refl, (refl, tt))

scene-PidsUnique : PidsUnique scene
scene-PidsUnique i j pid hi hj a b = ground arith

do_kill_lem_holds :
    let (r, m) = do_kill 6 scene in
    (r ≡ 1)
    × ((m.pcb 5).killed ≡ true)
    × ((m.pcb 5).status ≡ running)
    × ((j : ℕ) → (j == 5) ≡ false → m.pcb j ≡ scene.pcb j)
    × (m.queue ≡ scene.queue)
    × (do_kill 6 m ≡ (0, m))
do_kill_lem_holds =
    do_kill_lem 6 5 scene scene-PidsUnique (omega arith) refl (omega arith) (omega arith)
      (omega arith)

found : get_pcb 6 scene ≡ some 5
unfolding get_pcb find
found = refl

do_waitpid_blocks_holds :
    let (c, m) = do_waitpid 6 scene in
    (c ≡ reschedules)
    × (m.queue (wait_list 5) ≡ 1 ∷ [])
    × ((m.pcb 1).status ≡ blocked)
    × WellQueued m
do_waitpid_blocks_holds = do_waitpid_blocks 6 5 scene scene-WellQueued (omega arith) refl refl found

do_thread_join_lem_holds :
    ((scene.pcb 5).thread_group_id ≡ 2 → do_thread_join 6 scene ≡ do_waitpid 6 scene)
    × ((scene.pcb 5).thread_group_id ≢ 2 → do_thread_join 6 scene ≡ (returns (pos 0), scene))
do_thread_join_lem_holds = do_thread_join_lem 6 5 scene found

end_process_lem_example :
    let m = end_process scene in
    WellQueued m
    × ((m.pcb 1).status ≡ exited)
    × ((q : ℕ) → has 1 (m.queue q) ≡ false)
    × (m.queue (wait_list 1) ≡ [])
    × (m.queue 64 ≡ 4 ∷ [])
    × ((n : ℕ) → has n [] ≡ true → (m.pcb n).status ≡ ready)
end_process_lem_example = end_process_lem scene scene-WellQueued refl
