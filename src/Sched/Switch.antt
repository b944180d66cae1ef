-- ===== src/Sched/Switch.antt =====
-- The choice of the next process by `do_scheduler`.
use risc_v_qemu_kernel.Prelude.{
  ℕ, ◌≡◌, refl, Bool, true, false, ◌&&◌, ◌||◌, Option, none, some, List, [], ◌∷◌, ◌++◌, ◌==◌,
  if◌then◌else◌, has, distinct, without, without-middle, has-append, distinct-snoc, arith,
  Bool-cases, inl, inr, ap, ◌∙◌,
}
use risc_v_qemu_kernel.Kernel.{Kernel, blocked, ready, running, exited, ready_queue, TaskStatus}
use risc_v_qemu_kernel.Block.Invariant.{WellQueued, running-absent}
use risc_v_qemu_kernel.Sched.{
  switch, idle, set_ready, visit_ready, requeue, first_allowed, if_mask_match, next_of,
}

-- The processes that `do_scheduler` chooses from: the ready ones, and the one that ran, if it still can.
abbrev pub candidates : Kernel → List ℕ
candidates k = if set_ready k then k.queue ready_queue ++ k.current ∷ [] else k.queue ready_queue

-- None of the processes may run on the core.
abbrev pub NoneAllowed : (cpuid : ℕ) → List ℕ → Kernel → Type 0
NoneAllowed cpuid [] k = Unit {0}
NoneAllowed cpuid (n ∷ ns) k = (if_mask_match cpuid n k ≡ false) × NoneAllowed cpuid ns k

first_allowed-none :
    (cpuid : ℕ) (ns : List ℕ) (k : Kernel)
    → NoneAllowed cpuid ns k
    → first_allowed cpuid ns k ≡ none
unfolding first_allowed
first_allowed-none cpuid [] k h = refl
first_allowed-none cpuid (n ∷ ns) k h = rw (h.0) (first_allowed-none cpuid ns k h.1)

first_allowed-some :
    (cpuid : ℕ) (pre : List ℕ) (n : ℕ) (post : List ℕ) (k : Kernel)
    → NoneAllowed cpuid pre k
    → if_mask_match cpuid n k ≡ true
    → first_allowed cpuid (pre ++ n ∷ post) k ≡ some n
unfolding first_allowed
first_allowed-some cpuid [] n post k h e = rw e refl
first_allowed-some cpuid (p ∷ pre) n post k h e =
    rw (h.0) (first_allowed-some cpuid pre n post k h.1 e)

set_ready-running : (k : Kernel) → set_ready k ≡ true → (k.pcb k.current).status ≡ running
set_ready-running k e = go (k.pcb k.current).status refl
  where
    go : (s : TaskStatus) → (k.pcb k.current).status ≡ s → (k.pcb k.current).status ≡ running
    go running at = at
    go blocked at = absurd (ground arith)
    go ready at = absurd (ground arith)
    go exited at = absurd (ground arith)

first_allowed-ext :
    (cpuid : ℕ) (ns : List ℕ) (k m : Kernel)
    → m.pcb ≡ k.pcb
    → first_allowed cpuid ns m ≡ first_allowed cpuid ns k
unfolding first_allowed
first_allowed-ext cpuid [] k m e = refl
first_allowed-ext cpuid (n ∷ ns) k m e =
    ground (arith, ap (λ f. (f n).mask) e, first_allowed-ext cpuid ns k m e)

visit_ready-requeue :
    (cpuid : ℕ) (k : Kernel) → visit_ready cpuid (requeue k) ≡ first_allowed cpuid (candidates k) k
unfolding visit_ready requeue
visit_ready-requeue cpuid k = elim (Bool-cases (set_ready k)) [
  | inl stays ↦ rw stays (first_allowed-ext cpuid (k.queue ready_queue ++ k.current ∷ []) k _ refl)
  | inr leaves ↦ rw leaves refl
]

-- Whom `switch` takes out of the ready queue.
abbrev gone : Option ℕ → ℕ → Bool
gone none m = false
gone (some n) m = m == n

has-candidates :
    (k : Kernel) (m : ℕ)
    → has m (candidates k) ≡ (has m (k.queue ready_queue) || (set_ready k && (m == k.current)))
has-candidates k m = ground (arith, has-append m (k.queue ready_queue) (k.current ∷ []))

ready-switch :
    (cpuid : ℕ) (k : Kernel) (o : Option ℕ)
    → visit_ready cpuid (requeue k) ≡ o
    → ((switch cpuid k).queue ready_queue
        ≡ elim o [ none ↦ candidates k | some n ↦ without n (candidates k) ])
      × ((switch cpuid k).current ≡ next_of cpuid o)
      × (((switch cpuid k).pcb (next_of cpuid o)).status ≡ running)
unfolding switch
ready-switch cpuid k none e = ground arith
ready-switch cpuid k (some n) e = ground arith

distinct-candidates : (k : Kernel) → WellQueued k → distinct (candidates k) ≡ true
distinct-candidates k w = ground (
  arith,
  w.unique ready_queue,
  distinct-snoc k.current (k.queue ready_queue),
  running-absent k k.current ready_queue w,
  set_ready-running k,
)

-- The first candidate that may run on the core runs: the others stay ready, in their order, and the
-- process that was running is the last of them.
pub switch_runs :
    (cpuid : ℕ) (pre : List ℕ) (n : ℕ) (post : List ℕ) (k : Kernel)
    → WellQueued k
    → candidates k ≡ pre ++ n ∷ post
    → NoneAllowed cpuid pre k
    → if_mask_match cpuid n k ≡ true
    → let m = switch cpuid k in
      (m.current ≡ n)
      × (m.queue ready_queue ≡ pre ++ post)
      × ((m.pcb n).status ≡ running)
      × ((m.pcb n).cpuid ≡ cpuid)
switch_runs cpuid pre n post k w c none_before allowed =
    let e : visit_ready cpuid (requeue k) ≡ some n =
      visit_ready-requeue cpuid k
      ∙ rw c (first_allowed-some cpuid pre n post k none_before allowed) in
    let r = ready-switch cpuid k (some n) e in
    (
      unfold next_of in r.1,
      r.0 ∙ rw c (without-middle n pre post (rw (← c) (distinct-candidates k w))),
      unfold next_of in r.2,
      unfold switch in ground arith,
    )

-- If no candidate may run on the core, its idle process runs, and all candidates stay in the ready
-- queue.
pub switch_idles :
    (cpuid : ℕ) (k : Kernel)
    → NoneAllowed cpuid (candidates k) k
    → let m = switch cpuid k in
      (m.current ≡ idle cpuid)
      × (m.queue ready_queue ≡ candidates k)
      × ((m.pcb (idle cpuid)).status ≡ running)
switch_idles cpuid k h =
    let r =
      ready-switch cpuid k none
        (visit_ready-requeue cpuid k ∙ first_allowed-none cpuid (candidates k) k h) in
    (unfold next_of in r.1, r.0, unfold next_of in r.2)
