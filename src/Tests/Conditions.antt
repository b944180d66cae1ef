-- ===== src/Tests/Conditions.antt =====
-- The kernel of `Tests.Locks` with two processes waiting on the condition 0.
use risc_v_qemu_kernel.Prelude.{ℕ, ◌≡◌, refl, true, [], ◌∷◌, ◌==◌, if◌then◌else◌, arith, has}
use risc_v_qemu_kernel.Prelude.Int.{pos}
use risc_v_qemu_kernel.Kernel.{Kernel, running, ready, blocked, locked, spins, done, reschedules}
use risc_v_qemu_kernel.Block.Invariant.{WellQueued}
use risc_v_qemu_kernel.Condition.{
  do_condition_wait, resume_wait, do_condition_signal, do_condition_broadcast,
}
use risc_v_qemu_kernel.Condition.Wait.{wait_hands_mutex_over, wait_without_mutex}
use risc_v_qemu_kernel.Condition.Wake.{Signalled, signal_lem, broadcast_lem}
use risc_v_qemu_kernel.Tests.Locks.{process, held}

abbrev waited_on : Kernel
waited_on = record held {
  pcb = λ n.
      process n
        (if n == 4 then ready else if n == 2 then blocked else if n == 3 then blocked else running);
  queue = λ q. if q == 64 then 4 ∷ [] else if q == 69 then 2 ∷ 3 ∷ [] else [];
}

waited_on-WellQueued : WellQueued waited_on
waited_on-WellQueued = record {
  nodes = λ q n h. ground arith;
  unique = λ q. ground arith;
  one = λ n q r hq hr. ground arith;
  is_ready = λ n h. ground arith;
  is_blocked = λ n q o h. ground arith;
}

signal_lem_holds :
    let (c, m) = do_condition_signal (pos 0) waited_on in
    (c ≡ done) × (m.conditions 0 ≡ waited_on.conditions 0) × Signalled waited_on m 69 (2 ∷ 3 ∷ [])
signal_lem_holds = signal_lem 0 waited_on (2 ∷ 3 ∷ []) (omega arith) waited_on-WellQueued refl refl

broadcast_lem_holds :
    let (c, m) = do_condition_broadcast (pos 0) waited_on in
    (c ≡ done)
    × (m.queue 69 ≡ [])
    × (m.queue 64 ≡ 4 ∷ 2 ∷ 3 ∷ [])
    × ((n : ℕ) → has n (2 ∷ 3 ∷ []) ≡ true → (m.pcb n).status ≡ ready)
broadcast_lem_holds = broadcast_lem 0 waited_on (omega arith) waited_on-WellQueued refl

wait_hands_mutex_over_example :
    let (c, after) = do_condition_wait (pos 0) (pos 0) held in
    (c ≡ reschedules)
    × (after.queue 69 ≡ 1 ∷ [])
    × ((after.pcb 1).status ≡ blocked)
    × ((after.mlocks 0).status ≡ locked)
    × ((after.mlocks 0).pid ≡ 1002)
    × (after.queue 67 ≡ 3 ∷ [])
    × ((after.pcb 2).status ≡ ready)
wait_hands_mutex_over_example =
    wait_hands_mutex_over 0 0 2 (3 ∷ []) held (omega arith) (omega arith) refl refl refl refl refl
      refl refl refl refl

-- Process 1 does not own the lock 1.
abbrev later : Kernel
later = (do_condition_wait (pos 0) (pos 1) held).1

abbrev woken : Kernel
woken = record held { mlocks = later.mlocks }

wait_without_mutex_example : resume_wait (pos 1) woken ≡ (spins, woken)
wait_without_mutex_example =
    wait_without_mutex 0 1 held woken (omega arith) (omega arith) refl refl (omega arith) refl refl
