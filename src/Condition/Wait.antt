-- ===== src/Condition/Wait.antt =====
-- `do_condition_wait` of kernel/locking/condition.c: blocking and giving the mutex up are one step.
use risc_v_qemu_kernel.Prelude.{
  ℕ, ◌<◌, ◌≡◌, ◌≢◌, false, List, [], ◌∷◌, ◌++◌, ◌==◌, has, arith, without-absent, has-append,
}
use risc_v_qemu_kernel.Prelude.Int.{pos}
use risc_v_qemu_kernel.Kernel.{
  Kernel, unlocked, locked, blocked, ready, reschedules, spins, unused, lock_num, condition_num,
  condition_queue, mutex_queue,
}
use risc_v_qemu_kernel.Block.{do_block, do_unblock}
use risc_v_qemu_kernel.Mutex.{do_mutex_lock_release, do_mutex_lock_acquire}
use risc_v_qemu_kernel.Condition.{do_condition_wait, resume_wait}

-- A process that owns the mutex, for which nobody waits, waits on a condition: in one step, under the
-- spin lock of the condition, it is blocked behind the others and the mutex is free.
pub wait_frees_mutex :
    (i m : ℕ) (k : Kernel)
    → i < condition_num
    → m < lock_num
    → (k.conditions i).guard ≡ unlocked
    → (k.mlocks m).guard ≡ unlocked
    → (k.pcb k.current).pid ≡ (k.mlocks m).pid
    → (k.pcb k.current).killed ≡ false
    → k.queue (mutex_queue m) ≡ []
    → let (c, after) = do_condition_wait (pos i) (pos m) k in
      (c ≡ reschedules)
      × (after.queue (condition_queue i) ≡ k.queue (condition_queue i) ++ k.current ∷ [])
      × ((after.pcb k.current).status ≡ blocked)
      × (after.mlocks m ≡ record { guard = unlocked; status = unlocked; key = unused; pid = 0 })
      × (after.conditions i ≡ k.conditions i)
unfolding do_condition_wait do_mutex_lock_release do_block
wait_frees_mutex i m k hi hm gc gm o a e = ground arith

-- The owner of a mutex, which is not killed, waits on a condition with both spin locks free and other
-- processes waiting for the mutex: it is blocked, as the last of the queue of the condition, and the
-- mutex goes to the first of those that wait for it, who is ready, and stays locked.
pub wait_hands_mutex_over :
    (i m n : ℕ) (ns : List ℕ) (k : Kernel)
    → i < condition_num
    → m < lock_num
    → (k.conditions i).guard ≡ unlocked
    → (k.mlocks m).guard ≡ unlocked
    → (k.mlocks m).status ≡ locked
    → (k.pcb k.current).pid ≡ (k.mlocks m).pid
    → (k.pcb k.current).killed ≡ false
    → k.queue (mutex_queue m) ≡ n ∷ ns
    → has n ns ≡ false
    → has n (k.queue (condition_queue i)) ≡ false
    → (n == k.current) ≡ false
    → let (c, after) = do_condition_wait (pos i) (pos m) k in
      (c ≡ reschedules)
      × (after.queue (condition_queue i) ≡ k.queue (condition_queue i) ++ k.current ∷ [])
      × ((after.pcb k.current).status ≡ blocked)
      × ((after.mlocks m).status ≡ locked)
      × ((after.mlocks m).pid ≡ (k.pcb n).pid)
      × (after.queue (mutex_queue m) ≡ ns)
      × ((after.pcb n).status ≡ ready)
unfolding do_condition_wait do_mutex_lock_release do_block do_unblock
wait_hands_mutex_over i m n ns k hi hm gc gm s o a e out1 out2 out3 = ground (
  arith,
  without-absent n ns,
  without-absent n (k.queue (condition_queue i) ++ k.current ∷ []),
  has-append n (k.queue (condition_queue i)) (k.current ∷ []),
)

-- A process that does not own the mutex waits on a condition: when it runs again, it waits for ever
-- for the spin lock of the mutex, which its own call has left held.
pub wait_without_mutex :
    (i m : ℕ) (k later : Kernel)
    → i < condition_num
    → m < lock_num
    → (k.conditions i).guard ≡ unlocked
    → (k.mlocks m).guard ≡ unlocked
    → (k.pcb k.current).pid ≢ (k.mlocks m).pid
    → later.mlocks m ≡ (do_condition_wait (pos i) (pos m) k).1.mlocks m
    → (later.pcb later.current).killed ≡ false
    → resume_wait (pos m) later ≡ (spins, later)
unfolding do_condition_wait do_mutex_lock_release do_mutex_lock_acquire do_block resume_wait
wait_without_mutex i m k later hi hm gc gm o e l = ground arith
