-- ===== src/Block/Wakeup.antt =====
-- The order in which `wakeup` of kernel/sched/proc.c makes processes ready.
use mathlib.Core.List.{append_assoc, append-nil}
use risc_v_qemu_kernel.Prelude.{
  ℕ, ◌≡◌, refl, sym, ◌∙◌, true, false, List, [], ◌∷◌, ◌++◌, ◌==◌, arith, has, has-append, distinct,
  without, without-absent, absent-drop,
}
use risc_v_qemu_kernel.Kernel.{Kernel, ready_queue}
use risc_v_qemu_kernel.Block.{do_unblock, unblock_each, wakeup}
use risc_v_qemu_kernel.Block.Invariant.{WellQueued, has-wakeup}

-- A list with no member is empty.
pub nil_of_absent : (xs : List ℕ) → ((m : ℕ) → has m xs ≡ false) → xs ≡ []
nil_of_absent [] h = refl
nil_of_absent (x ∷ xs) h = absurd (ground (arith, h x))

pub ready-do_unblock :
    (k : Kernel) (n : ℕ)
    → has n (k.queue ready_queue) ≡ false
    → (do_unblock n k).queue ready_queue ≡ k.queue ready_queue ++ n ∷ []
unfolding do_unblock
ready-do_unblock k n h = rw (without-absent n (k.queue ready_queue) h)

ready-unblock_each :
    (k : Kernel) (ns : List ℕ)
    → distinct (k.queue ready_queue ++ ns) ≡ true
    → (unblock_each ns k).queue ready_queue ≡ k.queue ready_queue ++ ns
unfolding unblock_each
ready-unblock_each k [] d = sym (append-nil _)
ready-unblock_each k (n ∷ ns) d =
    ready-unblock_each (do_unblock n k) ns
      (rw (ready-do_unblock k n out, append_assoc (k.queue ready_queue) (n ∷ []) ns) d)
    ∙ rw (ready-do_unblock k n out) (append_assoc (k.queue ready_queue) (n ∷ []) ns)
  where
    out : has n (k.queue ready_queue) ≡ false
    out =
        ground
          (arith, absent-drop (k.queue ready_queue) n ns d, has-append n (k.queue ready_queue) ns)

pub distinct_join :
    (xs ys : List ℕ)
    → distinct xs ≡ true
    → distinct ys ≡ true
    → ((n : ℕ) → has n xs ≡ true → has n ys ≡ false)
    → distinct (xs ++ ys) ≡ true
distinct_join [] ys d e apart = e
distinct_join (x ∷ xs) ys d e apart = ground (
  arith,
  has-append x xs ys,
  apart x,
  distinct_join xs ys (ground arith) e (λ n h. apart n (ground arith)),
)

module _ (k : Kernel) (q : ℕ) (w : WellQueued k) (other : (q == ready_queue) ≡ false) where
  -- `wakeup` puts the members of a queue behind those of the ready queue, in their order.
  pub ready-wakeup : (wakeup q k).queue ready_queue ≡ k.queue ready_queue ++ k.queue q
  unfolding wakeup
  ready-wakeup = ready-unblock_each k (k.queue q) (
      distinct_join (k.queue ready_queue) (k.queue q) (w.unique ready_queue) (w.unique q)
        (λ n h. ground (arith, w.one n ready_queue q)))

  -- The queue that `wakeup` is called on is empty afterwards.
  pub emptied-wakeup : (wakeup q k).queue q ≡ []
  emptied-wakeup = nil_of_absent _ (λ m. ground (arith, has-wakeup k q m q))

-- Queues other than these two keep their members.
without_each : List ℕ → List ℕ → List ℕ
without_each [] xs = xs
without_each (n ∷ ns) xs = without_each ns (without n xs)

without_each-absent :
    (ns xs : List ℕ) → ((m : ℕ) → has m ns ≡ true → has m xs ≡ false) → without_each ns xs ≡ xs
unfolding without_each
without_each-absent [] xs h = refl
without_each-absent (n ∷ ns) xs h =
    rw (without-absent n xs (h n (ground arith)))
      (without_each-absent ns xs (λ m e. h m (ground arith)))

queue-unblock_each :
    (k : Kernel) (ns : List ℕ) (p : ℕ)
    → (p == ready_queue) ≡ false
    → (unblock_each ns k).queue p ≡ without_each ns (k.queue p)
unfolding unblock_each without_each
queue-unblock_each k [] p o = refl
queue-unblock_each k (n ∷ ns) p o =
    queue-unblock_each (do_unblock n k) ns p o ∙ unfold do_unblock in ground arith

pub untouched-wakeup :
    (k : Kernel) (q p : ℕ)
    → WellQueued k
    → (p == ready_queue) ≡ false
    → (p == q) ≡ false
    → (wakeup q k).queue p ≡ k.queue p
unfolding wakeup
untouched-wakeup k q p w o ne =
    queue-unblock_each k (k.queue q) p o
    ∙ without_each-absent (k.queue q) (k.queue p) (λ m h. ground (arith, w.one m q p))
