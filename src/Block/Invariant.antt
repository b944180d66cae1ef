-- ===== src/Block/Invariant.antt =====
-- Every control block is linked into at most one queue, and its status says which kind.
use risc_v_qemu_kernel.Prelude.{
  ℕ, refl, if◌then◌else◌, ◌<◌, ◌≡◌, true, false, List, [], ◌∷◌, ◌==◌, arith, has, has-append,
  has-without, distinct, distinct-snoc, distinct-without, without, update,
}
use risc_v_qemu_kernel.Kernel.{Kernel, Pcb, blocked, running, ready, ready_queue}
use risc_v_qemu_kernel.Block.{do_block, do_unblock, unblock_each, wakeup}

pub record Queued (queue : ℕ → List ℕ) (pcb : ℕ → Pcb) : Type 0 where
  pub nodes : (q n : ℕ) → has n (queue q) ≡ true → n < 64
  pub unique : (q : ℕ) → distinct (queue q) ≡ true
  pub one : (n q r : ℕ) → has n (queue q) ≡ true → has n (queue r) ≡ true → q ≡ r
  pub is_ready : (n : ℕ) → has n (queue ready_queue) ≡ true → (pcb n).status ≡ ready
  pub is_blocked :
      (n q : ℕ) → (q == ready_queue) ≡ false → has n (queue q) ≡ true → (pcb n).status ≡ blocked

abbrev pub WellQueued : Kernel → Type 0
WellQueued k = Queued k.queue k.pcb

-- A running process is in no queue.
pub running-absent :
    (k : Kernel) (n q : ℕ) → WellQueued k → (k.pcb n).status ≡ running → has n (k.queue q) ≡ false
running-absent k n q w r = ground (arith, w.is_ready n, w.is_blocked n q)

-- `do_block` of a running process keeps the queues well formed.
pub do_block-WellQueued :
    (k : Kernel) (n q : ℕ)
    → WellQueued k
    → (k.pcb n).status ≡ running
    → n < 64
    → (q == ready_queue) ≡ false
    → WellQueued (do_block n q k)
unfolding do_block
do_block-WellQueued k n q w r small other = record {
  nodes = λ p m h. ground (arith, w.nodes p m, has-append m (k.queue q) (n ∷ []));
  unique = λ p. ground (arith, w.unique p, distinct-snoc n (k.queue q), absent q);
  one = λ m p s hp hs.
      ground (arith, w.one m p s, absent p, absent s, has-append m (k.queue q) (n ∷ []));
  is_ready = λ m h. ground (arith, w.is_ready m, absent ready_queue);
  is_blocked = λ m p o h. ground (arith, w.is_blocked m p, has-append m (k.queue q) (n ∷ []));
}
  where
    absent : (p : ℕ) → has n (k.queue p) ≡ false
    absent p = running-absent k n p w r

-- Who is where after `do_unblock`.
pub has-do_unblock :
    (k : Kernel) (n m p : ℕ)
    → has m ((do_unblock n k).queue p) ≡ (if m == n then p == ready_queue else has m (k.queue p))
unfolding do_unblock
has-do_unblock k n m p = ground (
  arith,
  has-append m (without n (k.queue ready_queue)) (n ∷ []),
  has-without m n (k.queue p),
  has-without m n (k.queue ready_queue),
)

pub status-do_unblock :
    (k : Kernel) (n m : ℕ)
    → ((do_unblock n k).pcb m).status ≡ (if m == n then ready else (k.pcb m).status)
unfolding do_unblock
status-do_unblock k n m = ground arith

-- `do_unblock` keeps the queues well formed, whatever queue the process is in.
pub do_unblock-WellQueued :
    (k : Kernel) (n : ℕ) → WellQueued k → n < 64 → WellQueued (do_unblock n k)
do_unblock-WellQueued k n w small = record {
  nodes = λ p m h. ground (arith, w.nodes p m, has-do_unblock k n m p);
  unique = λ p.
      unfold do_unblock in
      ground (
        arith,
        w.unique p,
        distinct-without n (k.queue p),
        has-without n n (k.queue p),
        distinct-snoc n (without n (k.queue p)),
      );
  one = λ m p s hp hs. ground (arith, w.one m p s, has-do_unblock k n m p, has-do_unblock k n m s);
  is_ready = λ m h.
      ground (arith, w.is_ready m, status-do_unblock k n m, has-do_unblock k n m ready_queue);
  is_blocked =
      λ m p o h. ground (arith, w.is_blocked m p, status-do_unblock k n m, has-do_unblock k n m p);
}

-- The queues after `wakeup`: its own is empty, and its members stand in the ready queue.
has-unblock_each :
    (k : Kernel) (ns : List ℕ) (m p : ℕ)
    → has m ((unblock_each ns k).queue p)
      ≡ (if has m ns then p == ready_queue else has m (k.queue p))
unfolding unblock_each
has-unblock_each k [] m p = refl
has-unblock_each k (n ∷ ns) m p =
    ground (arith, has-unblock_each (do_unblock n k) ns m p, has-do_unblock k n m p)

status-unblock_each :
    (k : Kernel) (ns : List ℕ) (m : ℕ)
    → ((unblock_each ns k).pcb m).status ≡ (if has m ns then ready else (k.pcb m).status)
unfolding unblock_each
status-unblock_each k [] m = refl
status-unblock_each k (n ∷ ns) m =
    ground (arith, status-unblock_each (do_unblock n k) ns m, status-do_unblock k n m)

pub has-wakeup :
    (k : Kernel) (q m p : ℕ)
    → has m ((wakeup q k).queue p)
      ≡ (if has m (k.queue q) then p == ready_queue else has m (k.queue p))
unfolding wakeup
has-wakeup k q m p = has-unblock_each k (k.queue q) m p

pub status-wakeup :
    (k : Kernel) (q m : ℕ)
    → ((wakeup q k).pcb m).status ≡ (if has m (k.queue q) then ready else (k.pcb m).status)
unfolding wakeup
status-wakeup k q m = status-unblock_each k (k.queue q) m

abbrev Small : List ℕ → Type 0
Small [] = Unit {0}
Small (n ∷ ns) = (n < 64) × Small ns

unblock_each-WellQueued :
    (k : Kernel) (ns : List ℕ) → WellQueued k → Small ns → WellQueued (unblock_each ns k)
unfolding unblock_each
unblock_each-WellQueued k [] w s = w
unblock_each-WellQueued k (n ∷ ns) w s =
    unblock_each-WellQueued (do_unblock n k) ns (do_unblock-WellQueued k n w s.0) s.1

members-Small : (ns : List ℕ) → ((n : ℕ) → has n ns ≡ true → n < 64) → Small ns
members-Small [] h = tt
members-Small (n ∷ ns) h = (h n (ground arith), members-Small ns (λ m e. h m (ground (arith, e))))

-- `wakeup` keeps the queues well formed.
pub wakeup-WellQueued : (k : Kernel) (q : ℕ) → WellQueued k → WellQueued (wakeup q k)
unfolding wakeup
wakeup-WellQueued k q w =
    unblock_each-WellQueued k (k.queue q) w (members-Small (k.queue q) (w.nodes q))

-- A queue may lose nodes.
pub shrink-WellQueued :
    (k : Kernel) (q : ℕ) (xs : List ℕ)
    → ((n : ℕ) → has n xs ≡ true → has n (k.queue q) ≡ true)
    → distinct xs ≡ true
    → WellQueued k
    → WellQueued (record k { queue = update k.queue q xs })
shrink-WellQueued k q xs sub d w = record {
  nodes = λ p n h. ground (arith, w.nodes p n, w.nodes q n, sub n);
  unique = λ p. ground (arith, w.unique p);
  one = λ n p r hp hr. ground (arith, w.one n p r, sub n);
  is_ready = λ n h. ground (arith, w.is_ready n, sub n);
  is_blocked = λ n p o h. ground (arith, w.is_blocked n p, sub n);
}
