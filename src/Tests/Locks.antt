-- ===== src/Tests/Locks.antt =====
-- A kernel with five processes: 1 owns the lock 0, for which 2 and 3 wait, 4 is ready, and 5 and 6 run;
-- the barrier 0 is for three processes.
use risc_v_qemu_kernel.Prelude.{ℕ, ◌≡◌, refl, [], ◌∷◌, ◌==◌, if◌then◌else◌, arith, ◌<◌, ◌+◌, find}
use risc_v_qemu_kernel.Prelude.Int.{pos}
use risc_v_qemu_kernel.Kernel.{
  Kernel, Pcb, TaskStatus, running, ready, blocked, unlocked, locked, unused, run, done, spins,
  reschedules, lock_num,
}
use risc_v_qemu_kernel.Block.{wakeup}
use risc_v_qemu_kernel.Block.Invariant.{WellQueued, wakeup-WellQueued}
use risc_v_qemu_kernel.Mutex.{do_mutex_lock_acquire, do_mutex_lock_release, do_mutex_lock_init}
use risc_v_qemu_kernel.Mutex.Release.{release_hands_over, release_by_other_blocks_lock}
use risc_v_qemu_kernel.Mutex.Acquire.{acquire_held}
use risc_v_qemu_kernel.Mutex.Init.{keys, do_mutex_lock_init_again, do_mutex_lock_init-KeysUnique}
use risc_v_qemu_kernel.Slots.{KeysUnique, slot_for}
use risc_v_qemu_kernel.Mutex.Invariant.{
  do_mutex_lock_acquire-WellQueued, do_mutex_lock_release-WellQueued,
}
use risc_v_qemu_kernel.Barrier.{do_barrier_wait}
use risc_v_qemu_kernel.Barrier.Rounds.{arrive_all, barrier_round}

abbrev pub process : ℕ → TaskStatus → Pcb
process n s = record {
  pid = n + 1000;
  name = [];
  status = s;
  wakeup_time = 0;
  next_target = 0;
  progress = 0;
  killed = n == 7;
  cpuid = 0;
  mask = 3;
  thread_group_id = 0;
  kernel_stack_base = 0;
  pgdir_kva = 0;
  dir_inode = 0;
}

abbrev pub held : Kernel
held = record {
  pcb = λ n.
      process n
        (if n == 4 then ready else if n == 2 then blocked else if n == 3 then blocked else running);
  current = 1;
  process_id = 7;
  queue = λ q. if q == 64 then 4 ∷ [] else if q == 67 then 2 ∷ 3 ∷ [] else [];
  mlocks = λ i.
      if i == 0
      then record { guard = unlocked; status = locked; key = pos 42; pid = 1001 }
      else record { guard = unlocked; status = unlocked; key = unused; pid = 0 };
  barriers = λ i. record { guard = unlocked; key = pos 5; goal = 3; arrived = 0 };
  conditions = λ i. record { guard = unlocked; key = unused };
  mailboxes = λ i. record {
    guard = unlocked;
    buf = λ j. 0;
    name = [];
    user_count = pos 0;
    nread = 0;
    nwrite = 0;
  };
}

pub held-WellQueued : WellQueued held
held-WellQueued = record {
  nodes = λ q n h. ground arith;
  unique = λ q. ground arith;
  one = λ n q r hq hr. ground arith;
  is_ready = λ n h. ground arith;
  is_blocked = λ n q o h. ground arith;
}

wakeup-WellQueued_holds : WellQueued (wakeup 67 held)
wakeup-WellQueued_holds = wakeup-WellQueued held 67 held-WellQueued

release_hands_over_holds :
    let (c, m) = do_mutex_lock_release (pos 0) held in
    (c ≡ done)
    × ((m.mlocks 0).status ≡ locked)
    × ((m.mlocks 0).pid ≡ 1002)
    × ((m.mlocks 0).guard ≡ unlocked)
    × (m.queue 67 ≡ 3 ∷ [])
    × ((m.pcb 2).status ≡ ready)
release_hands_over_holds =
    release_hands_over 0 2 (3 ∷ []) held (omega arith) refl refl refl refl refl

acquire_held_holds :
    let (c, m) = do_mutex_lock_acquire (pos 0) (run 5 held) in
    (c ≡ reschedules)
    × (m.queue 67 ≡ 2 ∷ 3 ∷ 5 ∷ [])
    × ((m.pcb 5).status ≡ blocked)
    × (m.mlocks 0 ≡ held.mlocks 0)
acquire_held_holds = acquire_held 0 (run 5 held) (omega arith) refl refl refl

-- Process 5 is not the owner.
abbrev stuck : Kernel
stuck = (do_mutex_lock_release (pos 0) (run 5 held)).1

release_by_other_blocks_lock_example :
    (do_mutex_lock_acquire (pos 0) stuck ≡ (spins, stuck))
    × (do_mutex_lock_release (pos 0) stuck ≡ (spins, stuck))
release_by_other_blocks_lock_example =
    release_by_other_blocks_lock 0 (run 5 held) stuck (omega arith) refl (omega arith) refl

do_mutex_lock_acquire-WellQueued_holds : WellQueued (do_mutex_lock_acquire (pos 0) (run 5 held)).1
do_mutex_lock_acquire-WellQueued_holds =
    do_mutex_lock_acquire-WellQueued (pos 0) (run 5 held) held-WellQueued refl (omega arith)

do_mutex_lock_release-WellQueued_holds : WellQueued (do_mutex_lock_release (pos 0) held).1
do_mutex_lock_release-WellQueued_holds =
    do_mutex_lock_release-WellQueued (pos 0) held held-WellQueued

fresh_key : (do_mutex_lock_init (pos 8) held).0 ≡ pos 1
unfolding do_mutex_lock_init slot_for find
fresh_key = refl

do_mutex_lock_init_again_holds :
    let m = (do_mutex_lock_init (pos 8) held).1 in
    (1 < lock_num) × (keys m 1 ≡ pos 8) × (do_mutex_lock_init (pos 8) m ≡ (pos 1, m))
do_mutex_lock_init_again_holds = do_mutex_lock_init_again 8 1 held fresh_key

held-KeysUnique : KeysUnique lock_num (keys held)
held-KeysUnique i j hi hj same used = ground arith

do_mutex_lock_init-KeysUnique_holds : KeysUnique lock_num (keys (do_mutex_lock_init (pos 8) held).1)
do_mutex_lock_init-KeysUnique_holds = do_mutex_lock_init-KeysUnique (pos 8) held held-KeysUnique

barrier_round_example :
    let before = arrive_all 0 (5 ∷ 6 ∷ []) held in
    let (c, after) = do_barrier_wait (pos 0) (run 1 before) in
    (before.queue 68 ≡ 5 ∷ 6 ∷ [])
    × (before.queue 64 ≡ 4 ∷ [])
    × (c ≡ done)
    × (after.queue 68 ≡ [])
    × (after.queue 64 ≡ 4 ∷ 5 ∷ 6 ∷ [])
    × ((after.barriers 0).arrived ≡ 0)
    × ((after.barriers 0).goal ≡ 3)
barrier_round_example =
    barrier_round 0 1 (5 ∷ 6 ∷ []) held (omega arith) held-WellQueued refl refl refl refl
      ((omega arith, refl, refl), ((omega arith, refl, refl), tt)) refl
