-- ===== src/Kernel.antt =====
-- The state that the scheduler and the synchronisation objects share: the process control blocks
-- of include/os/sched.h, the objects of include/os/lock.h, and the queues that link them.
--
-- `pcb i` is `pcb[i]` for i < 32, and `kpcb[i - 32]` above. The link node of a control block is named
-- by its index and a queue by a number from 64 on, the address of its head: what kernel/list/list.c
-- does to the links, and that it does to the lists of nodes what the queues here do, is in `Links`.
use risc_v_qemu_kernel.Prelude.{
  ℕ, zero, suc, ◌+◌, ◌*◌, Bool, true, false, Option, none, some, List, [], ◌∷◌, ◌++◌, ◌≡◌, arith,
  ◌<◌, ltb, ltb→lt, Bool-cases, inl, inr, if◌then◌else◌, update, without,
}
use risc_v_qemu_kernel.Prelude.Int.{ℤ, pos, negsuc}

pub data TaskStatus : Type 0 where
  blocked running ready exited : TaskStatus

pub record Pcb : Type 0 where
  pub pid : ℕ
  pub name : List ℕ
  pub status : TaskStatus
  pub wakeup_time : ℕ
  pub next_target : ℕ
  pub progress : ℕ
  pub killed : Bool
  pub cpuid : ℕ
  pub mask : ℕ
  pub thread_group_id : ℕ
  pub kernel_stack_base : ℕ
  pub pgdir_kva : ℕ
  pub dir_inode : ℕ

pub data LockStatus : Type 0 where
  unlocked locked : LockStatus

-- `mutex_lock_t`; its spin lock is `guard` and its `block_queue` is `mutex_queue` of its index.
pub record Mutex : Type 0 where
  pub guard : LockStatus
  pub status : LockStatus
  pub key : ℤ
  pub pid : ℕ

-- `barrier_t`
pub record Barrier : Type 0 where
  pub guard : LockStatus
  pub key : ℤ
  pub goal : ℕ
  pub arrived : ℕ

-- `condition_t`
pub record Condition : Type 0 where
  pub guard : LockStatus
  pub key : ℤ

-- `mailbox_t`; `name` is the string up to its end.
pub record Mailbox : Type 0 where
  pub guard : LockStatus
  pub buf : ℕ → ℕ
  pub name : List ℕ
  pub user_count : ℤ
  pub nread : ℕ
  pub nwrite : ℕ

pub record Kernel : Type 0 where
  pub pcb : ℕ → Pcb
  pub current : ℕ
  pub process_id : ℕ
  pub queue : ℕ → List ℕ
  pub mlocks : ℕ → Mutex
  pub barriers : ℕ → Barrier
  pub conditions : ℕ → Condition
  pub mailboxes : ℕ → Mailbox

abbrev pub task_maxnum : ℕ
task_maxnum = 32

-- `LOCK_NUM`, `BARRIER_NUM` and `CONDITION_NUM`
abbrev pub lock_num : ℕ
lock_num = 16

abbrev pub barrier_num : ℕ
barrier_num = 16

abbrev pub condition_num : ℕ
condition_num = 16

abbrev pub mbox_num : ℕ
mbox_num = 16

-- `UNUSED`, -1
abbrev pub unused : ℤ
unused = negsuc 0

-- The heads of the queues: all different, and no link node.
abbrev pub ready_queue : ℕ
ready_queue = 64

abbrev pub sleep_queue : ℕ
sleep_queue = 65

abbrev pub wait_list : ℕ → ℕ
wait_list i = 8 * i + 66

abbrev pub mutex_queue : ℕ → ℕ
mutex_queue i = 8 * i + 67

abbrev pub barrier_queue : ℕ → ℕ
barrier_queue i = 8 * i + 68

abbrev pub condition_queue : ℕ → ℕ
condition_queue i = 8 * i + 69

abbrev pub send_queue : ℕ → ℕ
send_queue i = 8 * i + 70

abbrev pub recv_queue : ℕ → ℕ
recv_queue i = 8 * i + 71

-- How an operation leaves the processor, in the state beside it: it returns, with its result; it calls
-- `do_scheduler`, and goes on when its process runs again; it calls `do_exit`; or it waits there for
-- a spin lock that is held.
pub data Control : Type 0 where
  returns : ℤ → Control
  reschedules exits spins : Control

-- The result of a function that returns nothing.
abbrev pub done : Control
done = returns (pos 0)

-- `enqueue`, `del_node` and `init_queue` on the queues of the kernel.
unfoldable pub enqueue : (node q : ℕ) → Kernel → Kernel
enqueue node q k = record k { queue = update k.queue q (k.queue q ++ node ∷ []) }

unfoldable pub del_node : ℕ → Kernel → Kernel
del_node node k = record k { queue = λ q. without node (k.queue q) }

unfoldable pub init_queue : ℕ → Kernel → Kernel
init_queue q k = record k { queue = update k.queue q [] }

-- `dequeue`: the first node, or NULL.
unfoldable pub dequeue : ℕ → Kernel → Option ℕ × Kernel
dequeue q k = elim (k.queue q) [
  | [] ↦ (none, k)
  | n ∷ ns ↦ (some n, record k { queue = update k.queue q ns })
]

pub dequeue-nil : (q : ℕ) (k : Kernel) → k.queue q ≡ [] → dequeue q k ≡ (none, k)
unfolding dequeue
dequeue-nil q k e = ground arith

pub dequeue-cons :
    (q : ℕ) (k : Kernel) (n : ℕ) (ns : List ℕ)
    → k.queue q ≡ n ∷ ns
    → dequeue q k ≡ (some n, record k { queue = update k.queue q ns })
unfolding dequeue
dequeue-cons q k n ns e = ground arith

abbrev pub is_empty : List ℕ → Bool
is_empty [] = true
is_empty (x ∷ xs) = false

unfoldable pub is_empty_queue : ℕ → Kernel → Bool
is_empty_queue q k = is_empty (k.queue q)

-- Writes of one field of a control block.
abbrev pub set_pcb : ℕ → Pcb → Kernel → Kernel
set_pcb i p k = record k { pcb = update k.pcb i p }

abbrev pub set_status : ℕ → TaskStatus → Kernel → Kernel
set_status i s k = set_pcb i (record (k.pcb i) { status = s }) k

-- The processor runs another process.
abbrev pub run : ℕ → Kernel → Kernel
run n k = record k { current = n }

abbrev pub set_mlock : ℕ → Mutex → Kernel → Kernel
set_mlock i m k = record k { mlocks = update k.mlocks i m }

abbrev pub set_barrier : ℕ → Barrier → Kernel → Kernel
set_barrier i b k = record k { barriers = update k.barriers i b }

abbrev pub set_condition : ℕ → Condition → Kernel → Kernel
set_condition i c k = record k { conditions = update k.conditions i c }

abbrev pub set_mailbox : ℕ → Mailbox → Kernel → Kernel
set_mailbox i m k = record k { mailboxes = update k.mailboxes i m }

-- A call, and what comes after it: only a call that returns is followed by anything.
unfoldable pub and_then : Control × Kernel → (Kernel → Control × Kernel) → Control × Kernel
and_then (returns r, k) next = next k
and_then (reschedules, k) next = (reschedules, k)
and_then (exits, k) next = (exits, k)
and_then (spins, k) next = (spins, k)

-- `for (i = start; i < start + n; i++) body(i);`
unfoldable pub for_each : (n i : ℕ) → (ℕ → Kernel → Control × Kernel) → Kernel → Control × Kernel
unfolding and_then
for_each zero i body k = (done, k)
for_each (suc n) i body k = and_then (body i k) (for_each n (i + 1) body)

-- What every call keeps, the loop keeps, also where it stops early.
pub and_then-keeps :
    (P : Kernel → Type 0) (c : Control) (k : Kernel) (next : Kernel → Control × Kernel)
    → P k
    → ((m : Kernel) → P m → P (next m).1)
    → P (and_then (c, k) next).1
unfolding and_then
and_then-keeps P (returns r) k next h step = step k h
and_then-keeps P reschedules k next h step = h
and_then-keeps P exits k next h step = h
and_then-keeps P spins k next h step = h

pub for_each-keeps :
    (P : Kernel → Type 0) (n i : ℕ) (body : ℕ → Kernel → Control × Kernel) (k : Kernel)
    → P k
    → ((j : ℕ) (m : Kernel) → P m → P (body j m).1)
    → P (for_each n i body k).1
unfolding for_each
for_each-keeps P zero i body k h step = h
for_each-keeps P (suc n) i body k h step =
    and_then-keeps P (body i k).0 (body i k).1 (for_each n (i + 1) body) (step i k h)
      (λ m p. for_each-keeps P n (i + 1) body m p step)

-- An operation on the entry `idx` of a table of `n`: `idx < 0 || idx >= n` is refused.
unfoldable pub at_index : ℤ → ℕ → (ℕ → Kernel → Control × Kernel) → Kernel → Control × Kernel
at_index (pos i) n f k = if ltb i n then f i k else (done, k)
at_index (negsuc i) n f k = (done, k)

-- What every entry's operation keeps, the whole operation keeps.
pub at_index-keeps :
    (P : Kernel → Type 0) (idx : ℤ) (n : ℕ) (f : ℕ → Kernel → Control × Kernel) (k : Kernel)
    → P k
    → ((i : ℕ) → i < n → P (f i k).1)
    → P (at_index idx n f k).1
unfolding at_index
at_index-keeps P (pos i) n f k h each = elim (Bool-cases (ltb i n)) [
  | inl inside ↦ rw inside (each i (ltb→lt i n inside))
  | inr outside ↦ rw outside h
]
at_index-keeps P (negsuc i) n f k h each = h

pub at_index-inside :
    (i n : ℕ) (f : ℕ → Kernel → Control × Kernel) (k : Kernel)
    → i < n
    → at_index (pos i) n f k ≡ f i k
unfolding at_index
at_index-inside i n f k h = ground arith
