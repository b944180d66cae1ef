-- ===== src/Barrier/Rounds.antt =====
-- A whole round of a barrier of kernel/locking/barrier.c: it opens at the last of `goal` arrivals, and
-- is ready for the next round.
use mathlib.Core.List.{append_assoc, append-nil}
use mathlib.Core.Path.{ap₂}
use risc_v_qemu_kernel.Prelude.{
  ℕ, ◌+◌, ◌<◌, ◌≡◌, refl, ap, ◌∙◌, false, true, List, [], ◌∷◌, ◌++◌, ◌==◌, has, distinct, length,
  length-append, arith,
}
use risc_v_qemu_kernel.Prelude.Int.{pos}
use risc_v_qemu_kernel.Kernel.{
  Kernel, run, unlocked, running, done, barrier_num, barrier_queue, ready_queue,
}
use risc_v_qemu_kernel.Block.{do_block}
use risc_v_qemu_kernel.Block.Invariant.{WellQueued}
use risc_v_qemu_kernel.Barrier.{do_barrier_wait}
use risc_v_qemu_kernel.Barrier.Wait.{wait_early, wait_last, do_barrier_wait-WellQueued}

-- The process `n` takes the processor and waits at the barrier `i`.
unfoldable pub arrive : (i n : ℕ) → Kernel → Kernel
arrive i n k = (do_barrier_wait (pos i) (run n k)).1

unfoldable pub arrive_all : ℕ → List ℕ → Kernel → Kernel
arrive_all i [] k = k
arrive_all i (n ∷ ns) k = arrive_all i ns (arrive i n k)

-- A process that can arrive.
abbrev pub CanArrive : Kernel → ℕ → Type 0
CanArrive k n = (n < 64) × ((k.pcb n).status ≡ running) × ((k.pcb n).killed ≡ false)

abbrev pub AllCanArrive : Kernel → List ℕ → Type 0
AllCanArrive k [] = Unit {0}
AllCanArrive k (n ∷ ns) = CanArrive k n × AllCanArrive k ns

-- The barrier `i` in the middle of a round, with the processes `xs` waiting.
pub record Waiting (i goal : ℕ) (xs rs : List ℕ) (k : Kernel) : Type 0 where
  pub queued : WellQueued k
  pub free : (k.barriers i).guard ≡ unlocked
  pub goal_is : (k.barriers i).goal ≡ goal
  pub arrived : (k.barriers i).arrived ≡ length xs
  pub waiting : k.queue (barrier_queue i) ≡ xs
  pub runnable : k.queue ready_queue ≡ rs

module _ (i goal : ℕ) (inside : i < barrier_num) where
  others-arrive :
      (k : Kernel) (n : ℕ) (xs rs : List ℕ)
      → Waiting i goal xs rs k
      → CanArrive k n
      → length xs + 1 < goal
      → ((m : ℕ) → (m == n) ≡ false → (arrive i n k).pcb m ≡ k.pcb m)
        × ((arrive i n k).queue ready_queue ≡ rs)
  unfolding arrive do_barrier_wait do_block
  others-arrive k n xs rs w c h = (
    λ m ne. ground (arith, w.free, w.goal_is, w.arrived),
    ground (arith, w.free, w.goal_is, w.arrived, w.runnable),
  )

  -- One more arrival that does not complete the round.
  arrive-Waiting :
      (k : Kernel) (n : ℕ) (xs rs : List ℕ)
      → Waiting i goal xs rs k
      → CanArrive k n
      → length xs + 1 < goal
      → Waiting i goal (xs ++ n ∷ []) rs (arrive i n k)
  unfolding arrive
  arrive-Waiting k n xs rs w c h =
      let early = wait_early i (run n k) inside w.free (omega (arith, w.arrived, w.goal_is)) c.2 in
      record {
        queued = do_barrier_wait-WellQueued (pos i) (run n k) w.queued c.1 c.0;
        free = ground (arith, early.1, w.free);
        goal_is = ground (arith, early.1, w.goal_is);
        arrived = ground (arith, early.1, w.arrived, length-append xs (n ∷ []));
        waiting = ground (arith, early.2, w.waiting);
        runnable = (others-arrive k n xs rs w c h).1;
      }

  still_can :
      (k m : Kernel) (n : ℕ) (ns : List ℕ)
      → ((p : ℕ) → (p == n) ≡ false → m.pcb p ≡ k.pcb p)
      → has n ns ≡ false
      → AllCanArrive k ns
      → AllCanArrive m ns
  still_can k m n [] same out all = tt
  still_can k m n (p ∷ ns) same out all =
      (ground (arith, same p), still_can k m n ns same (ground arith) all.1)

  arrive_all-Waiting :
      (k : Kernel) (ns xs rs : List ℕ)
      → Waiting i goal xs rs k
      → AllCanArrive k ns
      → distinct ns ≡ true
      → length xs + length ns < goal
      → Waiting i goal (xs ++ ns) rs (arrive_all i ns k)
  unfolding arrive_all
  arrive_all-Waiting k [] xs rs w all d h = rw append-nil w
  arrive_all-Waiting k (n ∷ ns) xs rs w all d h =
      let soon : length xs + 1 < goal = omega arith in
      let others = others-arrive k n xs rs w all.0 soon in
      rw (← append_assoc xs (n ∷ []) ns) (
        arrive_all-Waiting (arrive i n k) ns (xs ++ n ∷ []) rs
          (arrive-Waiting k n xs rs w all.0 soon)
          (still_can k (arrive i n k) n ns others.0 (ground arith) all.1) (ground arith)
          (omega (arith, length-append xs (n ∷ []))))

-- A round: `goal - 1` processes that can run arrive one after the other; all of them wait, in their
-- order, and nobody is made ready. When one more arrives, it goes on, all others become ready in their
-- order, and the barrier is as empty as before the round.
pub barrier_round :
    (i n : ℕ) (ns : List ℕ) (k : Kernel)
    → i < barrier_num
    → WellQueued k
    → (k.barriers i).guard ≡ unlocked
    → (k.barriers i).goal ≡ length ns + 1
    → (k.barriers i).arrived ≡ 0
    → k.queue (barrier_queue i) ≡ []
    → AllCanArrive k ns
    → distinct ns ≡ true
    → let before = arrive_all i ns k in
      let (c, after) = do_barrier_wait (pos i) (run n before) in
      (before.queue (barrier_queue i) ≡ ns)
      × (before.queue ready_queue ≡ k.queue ready_queue)
      × (c ≡ done)
      × (after.queue (barrier_queue i) ≡ [])
      × (after.queue ready_queue ≡ k.queue ready_queue ++ ns)
      × ((after.barriers i).arrived ≡ 0)
      × ((after.barriers i).goal ≡ length ns + 1)
barrier_round i n ns k inside w g goal none empty all d =
    let last =
      wait_last i (run n (arrive_all i ns k)) inside b.queued b.free
        (omega (arith, b.goal_is, b.arrived)) in
    (
      b.waiting,
      b.runnable,
      last.0,
      last.2,
      last.3 ∙ ap₂ ◌++◌ b.runnable b.waiting,
      ap (λ x. x.arrived) last.1,
      ap (λ x. x.goal) last.1 ∙ b.goal_is,
    )
  where
    start : Waiting i (length ns + 1) [] (k.queue ready_queue) k
    start = record {
      queued = w;
      free = g;
      goal_is = goal;
      arrived = none;
      waiting = empty;
      runnable = refl;
    }

    b : Waiting i (length ns + 1) ns (k.queue ready_queue) (arrive_all i ns k)
    b =
        arrive_all-Waiting i (length ns + 1) inside k ns [] (k.queue ready_queue) start all d
          (omega arith)
