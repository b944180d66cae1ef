-- ===== src/Process/Wait.antt =====
-- Waiting for a process to end: `do_waitpid` and `do_thread_join`, and the end of `do_exit`.
use risc_v_qemu_kernel.Prelude.{
  ℕ, ◌<◌, ◌≡◌, ◌≢◌, refl, ◌∙◌, true, false, some, [], ◌∷◌, ◌++◌, has, arith,
}
use risc_v_qemu_kernel.Prelude.Int.{pos}
use risc_v_qemu_kernel.Kernel.{
  Kernel, blocked, running, ready, exited, returns, reschedules, wait_list, ready_queue, set_pcb,
}
use risc_v_qemu_kernel.Block.{do_block, wakeup}
use risc_v_qemu_kernel.Block.Invariant.{
  WellQueued, do_block-WellQueued, running-absent, wakeup-WellQueued, status-wakeup, has-wakeup,
}
use risc_v_qemu_kernel.Block.Wakeup.{ready-wakeup, emptied-wakeup}
use risc_v_qemu_kernel.Process.{get_pcb, do_waitpid, do_thread_join, end_process}

-- A running process waits for one that is alive: it is blocked on the other's list, behind those that
-- wait already, and the queues stay well formed.
pub do_waitpid_blocks :
    (pid i : ℕ) (k : Kernel)
    → WellQueued k
    → k.current < 64
    → (k.pcb k.current).status ≡ running
    → (k.pcb k.current).killed ≡ false
    → get_pcb pid k ≡ some i
    → let (c, m) = do_waitpid pid k in
      (c ≡ reschedules)
      × (m.queue (wait_list i) ≡ k.queue (wait_list i) ++ k.current ∷ [])
      × ((m.pcb k.current).status ≡ blocked)
      × WellQueued m
unfolding do_waitpid
do_waitpid_blocks pid i k w small r a e = rw e (
  refl,
  unfold do_block in ground arith,
  unfold do_block in ground arith,
  do_block-WellQueued k k.current (wait_list i) w r small (ground arith),
)

-- A thread is waited for only by the process that made it: `do_thread_join` by that process does what
-- `do_waitpid` does, and by any other returns 0 and changes nothing.
pub do_thread_join_lem :
    (pid i : ℕ) (k : Kernel)
    → get_pcb pid k ≡ some i
    → ((k.pcb i).thread_group_id ≡ (k.pcb k.current).pid → do_thread_join pid k ≡ do_waitpid pid k)
      × ((k.pcb i).thread_group_id ≢ (k.pcb k.current).pid
          → do_thread_join pid k ≡ (returns (pos 0), k))
unfolding do_thread_join do_waitpid
do_thread_join_lem pid i k e = (λ h. ground arith, λ h. ground arith)

-- The state in which `wakeup` is called.
closed : Kernel → Kernel
closed k =
    set_pcb k.current
      (record (k.pcb k.current) { status = exited; killed = true; thread_group_id = 0; mask = 3 }) k

closed-WellQueued :
    (k : Kernel) → WellQueued k → (k.pcb k.current).status ≡ running → WellQueued (closed k)
unfolding closed
closed-WellQueued k w r = record {
  nodes = w.nodes;
  unique = w.unique;
  one = w.one;
  is_ready = λ n h. ground (arith, w.is_ready n, running-absent k k.current ready_queue w r);
  is_blocked = λ n q o h. ground (arith, w.is_blocked n q, running-absent k k.current q w r);
}

end_process-closed : (k : Kernel) → end_process k ≡ wakeup (wait_list k.current) (closed k)
unfolding end_process closed
end_process-closed k = refl

-- A running process ends, with well formed queues: it is exited and in no queue, all that waited for
-- it are ready, in the order in which they came, nobody waits for it any more, and the queues stay
-- well formed.
pub end_process_lem :
    (k : Kernel)
    → WellQueued k
    → (k.pcb k.current).status ≡ running
    → let m = end_process k in
      WellQueued m
      × ((m.pcb k.current).status ≡ exited)
      × ((q : ℕ) → has k.current (m.queue q) ≡ false)
      × (m.queue (wait_list k.current) ≡ [])
      × (m.queue ready_queue ≡ k.queue ready_queue ++ k.queue (wait_list k.current))
      × ((n : ℕ) → has n (k.queue (wait_list k.current)) ≡ true → (m.pcb n).status ≡ ready)
end_process_lem k w r = rw (end_process-closed k) (
  wakeup-WellQueued (closed k) (wait_list k.current) v,
  status-wakeup (closed k) (wait_list k.current) k.current
      ∙ unfold closed in ground (arith, running-absent k k.current (wait_list k.current) w r),
  λ q.
      has-wakeup (closed k) (wait_list k.current) k.current q
      ∙ unfold closed in
        ground (
          arith,
          running-absent k k.current (wait_list k.current) w r,
          running-absent k k.current q w r,
        ),
  emptied-wakeup (closed k) (wait_list k.current) v (ground arith),
  ready-wakeup (closed k) (wait_list k.current) v (ground arith) ∙ unfold closed in refl,
  λ n e. status-wakeup (closed k) (wait_list k.current) n ∙ unfold closed in rw e,
)
  where
    v : WellQueued (closed k)
    v = closed-WellQueued k w r
