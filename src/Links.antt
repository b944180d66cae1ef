-- ===== src/Links.antt =====
-- kernel/list/list.c: circular doubly linked lists, on an explicit store of links.
-- A node is an address; `next` and `prev` hold the two pointers of the node at each address.
pub mod Ring
pub mod Queue
pub mod Walk
pub mod Insert
use risc_v_qemu_kernel.Prelude.{
  ℕ, zero, suc, Bool, true, false, ◌||◌, Option, none, some, ◌==◌, if◌then◌else◌, update,
}

pub record Links : Type 0 where
  pub next : ℕ → ℕ
  pub prev : ℕ → ℕ

-- `p->next = v` and `p->prev = v`
abbrev pub set_next : ℕ → ℕ → Links → Links
set_next p v l = record l { next = update l.next p v }

abbrev pub set_prev : ℕ → ℕ → Links → Links
set_prev p v l = record l { prev = update l.prev p v }

pub init_queue : ℕ → Links → Links
init_queue head l = set_next head head (set_prev head head l)

pub is_empty_queue : ℕ → Links → Bool
is_empty_queue head l = (l.next head == head) || (l.prev head == head)

pub enqueue : (node head : ℕ) → Links → Links
enqueue node head l =
    let rear = l.prev head in
    set_prev head node (set_next rear node (set_prev node rear (set_next node head l)))

-- The writes of `dequeue` on a list that is not empty.
pub unlink_front : (front head : ℕ) → Links → Links
unlink_front front head l =
    let shorter = set_next head (l.next front) l in
    let closed = set_prev (shorter.next front) head shorter in
    set_next front front (set_prev front front closed)

-- The node is `none` where the C code returns NULL.
pub dequeue : ℕ → Links → Option ℕ × Links
unfolding is_empty_queue unlink_front
dequeue head l =
    let front = l.next head in
    if is_empty_queue head l then (none, l) else (some front, unlink_front front head l)

pub del_node : ℕ → Links → Links
del_node node l =
    let before = l.prev node in
    let after = l.next node in
    set_prev node node (set_next node node (set_prev after before (set_next before after l)))

-- One round of the scan loops. The fuel bounds the number of nodes looked at; the second part is
-- false if it ran out.
pub scan : (fuel next head : ℕ) → (ℕ → Bool) → Links → Option ℕ × Bool
scan zero next head judge l = (none, false)
scan (suc fuel) next head judge l =
    let rest = scan fuel (l.next next) head judge l in
    if next == head then (none, true) else if judge next then (some next, true) else rest

pub visit_without_delete : (fuel head : ℕ) → (ℕ → Bool) → Links → Option ℕ × Bool
unfolding scan
visit_without_delete fuel head judge l = scan fuel (l.next head) head judge l

-- The deletion that `visit` makes before it returns a node.
pub take_out : Option ℕ → Links → Links
unfolding del_node
take_out none l = l
take_out (some node) l = del_node node l

unfoldable pub visit : (fuel head : ℕ) → (ℕ → Bool) → Links → Option ℕ × Bool × Links
unfolding scan take_out
visit fuel head judge l =
    let (found, ended) = scan fuel (l.next head) head judge l in (found, ended, take_out found l)

pub is_in_queue : (fuel node head : ℕ) → Links → Bool × Bool
unfolding scan
is_in_queue fuel node head l =
    let (found, ended) = scan fuel (l.next head) head (λ n. node == n) l in
    elim found [ none ↦ (false, ended) | some n ↦ (true, ended) ]

-- `list_insert`: the walk to the first node that `node` is not to stand behind; `comp` is the test
-- `comp(n1, n2) <= 0`.
pub insert_pos : (fuel pos node head : ℕ) → (ℕ → ℕ → Bool) → Links → ℕ × Bool
insert_pos zero pos node head comp l = (pos, false)
insert_pos (suc fuel) pos node head comp l =
    let rest = insert_pos fuel (l.next pos) node head comp l in
    if pos == head then (pos, true) else if comp node pos then (pos, true) else rest

pub list_insert : (fuel node head : ℕ) → (ℕ → ℕ → Bool) → Links → Links × Bool
unfolding insert_pos
list_insert fuel node head comp l =
    let (pos, ended) = insert_pos fuel (l.next head) node head comp l in
    let before = l.prev pos in
    (set_next node pos (set_prev node before (set_next before node (set_prev pos node l))), ended)
