-- ===== src/Sched/Sleep.antt =====
-- `do_sleep` and `check_sleeping`: who is woken.
use mathlib.Core.List.{append_assoc, append-nil}
use risc_v_qemu_kernel.Prelude.{
  ℕ, ◌+◌, ◌^◌, ◌≤◌, ◌<◌, ◌≡◌, refl, true, false, List, [], ◌∷◌, ◌++◌, leb, if◌then◌else◌, has,
  distinct, without, arith, Bool-cases, inl, inr, sym, ◌∙◌, absent-drop, has-append, distinct-drop,
  without-middle,
}
use risc_v_qemu_kernel.Kernel.{Kernel, Pcb, blocked, reschedules, ready_queue, sleep_queue}
use risc_v_qemu_kernel.Block.{do_block, do_unblock}
use risc_v_qemu_kernel.Block.Invariant.{WellQueued, do_unblock-WellQueued}
use risc_v_qemu_kernel.Block.Wakeup.{ready-do_unblock, distinct_join}
use risc_v_qemu_kernel.Sched.{wake_due, check_sleeping, do_sleep}

wake_due-WellQueued :
    (now : ℕ) (ns : List ℕ) (k : Kernel)
    → ((n : ℕ) → has n ns ≡ true → n < 64)
    → WellQueued k
    → WellQueued (wake_due now ns k)
unfolding wake_due
wake_due-WellQueued now [] k small w = w
wake_due-WellQueued now (n ∷ ns) k small w = elim (Bool-cases (leb (k.pcb n).wakeup_time now)) [
  | inl due ↦ rw due (
      wake_due-WellQueued now ns (do_unblock n k) (λ m h. small m (ground (arith, h)))
        (do_unblock-WellQueued k n w (small n (ground arith))))
  | inr early ↦ rw early (wake_due-WellQueued now ns k (λ m h. small m (ground (arith, h))) w)
]

-- `check_sleeping` keeps the queues well formed.
pub check_sleeping-WellQueued :
    (now : ℕ) (k : Kernel) → WellQueued k → WellQueued (check_sleeping now k)
unfolding check_sleeping
check_sleeping-WellQueued now k w =
    wake_due-WellQueued now (k.queue sleep_queue) k (w.nodes sleep_queue) w

-- The sleepers of a list whose time has come, and the others.
abbrev pub due : ℕ → (ℕ → Pcb) → List ℕ → List ℕ
due now pcb [] = []
due now pcb (n ∷ ns) = if leb (pcb n).wakeup_time now then n ∷ due now pcb ns else due now pcb ns

abbrev pub asleep : ℕ → (ℕ → Pcb) → List ℕ → List ℕ
asleep now pcb [] = []
asleep now pcb (n ∷ ns) =
    if leb (pcb n).wakeup_time now then asleep now pcb ns else n ∷ asleep now pcb ns

due-ext :
    (now : ℕ) (pcb pcb' : ℕ → Pcb) (ns : List ℕ)
    → ((m : ℕ) → (pcb' m).wakeup_time ≡ (pcb m).wakeup_time)
    → (due now pcb' ns ≡ due now pcb ns) × (asleep now pcb' ns ≡ asleep now pcb ns)
due-ext now pcb pcb' [] same = (refl, refl)
due-ext now pcb pcb' (n ∷ ns) same =
    let rest = due-ext now pcb pcb' ns same in rw (same n, rest.0, rest.1) (refl, refl)

wakeup_time-do_unblock :
    (k : Kernel) (n m : ℕ) → ((do_unblock n k).pcb m).wakeup_time ≡ (k.pcb m).wakeup_time
unfolding do_unblock
wakeup_time-do_unblock k n m = ground arith

ready-wake_due :
    (now : ℕ) (ns : List ℕ) (k : Kernel)
    → distinct (k.queue ready_queue ++ ns) ≡ true
    → (wake_due now ns k).queue ready_queue ≡ k.queue ready_queue ++ due now k.pcb ns
unfolding wake_due
ready-wake_due now [] k d = sym (append-nil _)
ready-wake_due now (n ∷ ns) k d = elim (Bool-cases (leb (k.pcb n).wakeup_time now)) [
  | inl late ↦
      let moved = ready-do_unblock k n (
        ground (
          arith,
          absent-drop (k.queue ready_queue) n ns d,
          has-append n (k.queue ready_queue) ns,
        )) in
      rw late (
        ready-wake_due now ns (do_unblock n k)
          (rw (moved, append_assoc (k.queue ready_queue) (n ∷ []) ns) d)
        ∙ rw (moved, (due-ext now k.pcb (do_unblock n k).pcb ns (wakeup_time-do_unblock k n)).0)
            (append_assoc (k.queue ready_queue) (n ∷ []) (due now k.pcb ns)))
  | inr early ↦ rw early (ready-wake_due now ns k (distinct-drop (k.queue ready_queue) n ns d))
]

sleep-do_unblock :
    (k : Kernel) (n : ℕ) → (do_unblock n k).queue sleep_queue ≡ without n (k.queue sleep_queue)
unfolding do_unblock
sleep-do_unblock k n = ground arith

sleep-wake_due :
    (now : ℕ) (pre ns : List ℕ) (k : Kernel)
    → k.queue sleep_queue ≡ pre ++ ns
    → distinct (pre ++ ns) ≡ true
    → (wake_due now ns k).queue sleep_queue ≡ pre ++ asleep now k.pcb ns
unfolding wake_due
sleep-wake_due now pre [] k e d = e
sleep-wake_due now pre (n ∷ ns) k e d = elim (Bool-cases (leb (k.pcb n).wakeup_time now)) [
  | inl late ↦ rw late (
      sleep-wake_due now pre ns (do_unblock n k)
        (sleep-do_unblock k n ∙ rw e (without-middle n pre ns d)) (distinct-drop pre n ns d)
      ∙ rw ((due-ext now k.pcb (do_unblock n k).pcb ns (wakeup_time-do_unblock k n)).1))
  | inr early ↦ rw early (
      sleep-wake_due now (pre ++ n ∷ []) ns k (e ∙ sym (append_assoc pre (n ∷ []) ns))
        (rw (append_assoc pre (n ∷ []) ns) d)
      ∙ append_assoc pre (n ∷ []) (asleep now k.pcb ns))
]

-- On well formed queues `check_sleeping` makes exactly the sleepers ready whose wake-up time has come,
-- in the order in which they went to sleep, behind those that are ready; the other sleepers stay, in
-- their order.
pub check_sleeping_lem :
    (now : ℕ) (k : Kernel)
    → WellQueued k
    → let m = check_sleeping now k in
      (m.queue ready_queue ≡ k.queue ready_queue ++ due now k.pcb (k.queue sleep_queue))
      × (m.queue sleep_queue ≡ asleep now k.pcb (k.queue sleep_queue))
unfolding check_sleeping
check_sleeping_lem now k w = (
  ready-wake_due now (k.queue sleep_queue) k (
      distinct_join (k.queue ready_queue) (k.queue sleep_queue) (w.unique ready_queue)
        (w.unique sleep_queue) (λ n h. ground (arith, w.one n ready_queue sleep_queue))),
  sleep-wake_due now [] (k.queue sleep_queue) k refl (w.unique sleep_queue),
)

-- `do_sleep` by a process that runs: it is the last of the sleepers, and `check_sleeping` leaves it
-- there before the time given, and wakes it from then on, if the sum does not wrap around.
pub do_sleep_lem :
    (now sleep_time later : ℕ) (k : Kernel)
    → (k.pcb k.current).killed ≡ false
    → now + sleep_time < 2 ^ 64
    → let (c, m) = do_sleep now sleep_time k in
      (c ≡ reschedules)
      × (m.queue sleep_queue ≡ k.queue sleep_queue ++ k.current ∷ [])
      × ((m.pcb k.current).status ≡ blocked)
      × (later < now + sleep_time → due later m.pcb (k.current ∷ []) ≡ [])
      × (now + sleep_time ≤ later → due later m.pcb (k.current ∷ []) ≡ k.current ∷ [])
unfolding do_sleep do_block
do_sleep_lem now sleep_time later k a r = ground arith
