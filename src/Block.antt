-- ===== src/Block.antt =====
-- `do_block` and `do_unblock` of kernel/sched/sched.c, and `wakeup` of kernel/sched/proc.c.
use risc_v_qemu_kernel.Prelude.{ℕ, ◌≡◌, refl, List, [], ◌∷◌, if◌then◌else◌}
use risc_v_qemu_kernel.Kernel.{Kernel, blocked, ready, ready_queue, enqueue, del_node, set_status}
pub mod Invariant
pub mod Wakeup

-- A killed process is not blocked.
unfoldable pub do_block : (node q : ℕ) → Kernel → Kernel
unfolding enqueue
do_block node q k = if (k.pcb node).killed then k else set_status node blocked (enqueue node q k)

unfoldable pub do_unblock : ℕ → Kernel → Kernel
unfolding del_node enqueue
do_unblock node k = enqueue node ready_queue (set_status node ready (del_node node k))

-- The loop of `wakeup`. It reads the successor of a node before it moves the node, so it goes
-- through the nodes that the queue held at the start.
unfoldable pub unblock_each : List ℕ → Kernel → Kernel
unfolding do_unblock
unblock_each [] k = k
unblock_each (node ∷ nodes) k = unblock_each nodes (do_unblock node k)

unfoldable pub wakeup : ℕ → Kernel → Kernel
unfolding unblock_each
wakeup q k = unblock_each (k.queue q) k

-- Waking processes does not touch the objects that they wait for.
unblock_each_objects :
    (nodes : List ℕ) (k : Kernel)
    → ((unblock_each nodes k).barriers ≡ k.barriers)
      × ((unblock_each nodes k).conditions ≡ k.conditions)
      × ((unblock_each nodes k).mlocks ≡ k.mlocks)
      × ((unblock_each nodes k).current ≡ k.current)
unfolding unblock_each
unblock_each_objects [] k = (refl, refl, refl, refl)
unblock_each_objects (n ∷ ns) k = unblock_each_objects ns (do_unblock n k)

pub wakeup_objects :
    (q : ℕ) (k : Kernel)
    → ((wakeup q k).barriers ≡ k.barriers)
      × ((wakeup q k).conditions ≡ k.conditions)
      × ((wakeup q k).mlocks ≡ k.mlocks)
      × ((wakeup q k).current ≡ k.current)
unfolding wakeup
wakeup_objects q k = unblock_each_objects (k.queue q) k

unblock_each_mailboxes :
    (nodes : List ℕ) (k : Kernel) → (unblock_each nodes k).mailboxes ≡ k.mailboxes
unfolding unblock_each
unblock_each_mailboxes [] k = refl
unblock_each_mailboxes (n ∷ ns) k = unblock_each_mailboxes ns (do_unblock n k)

pub wakeup_mailboxes : (q : ℕ) (k : Kernel) → (wakeup q k).mailboxes ≡ k.mailboxes
unfolding wakeup
wakeup_mailboxes q k = unblock_each_mailboxes (k.queue q) k
