-- ===== src/Mailboxes.antt =====
-- The mailboxes of kernel/locking/mbox.c: opening, closing, and the ring buffer behind send and receive.
--
-- The calls that pin the pages of the message belong to swapping and are left out here. `nread`
-- and `nwrite` are natural numbers, without the overflow of int after 2^31 bytes.
pub mod Ring
pub mod Open
pub mod Send
use risc_v_qemu_kernel.Prelude.{
  ℕ, zero, suc, ◌+◌, ◌-◌, ◌*◌, ◌/◌, ◌%◌, Bool, true, false, not, ◌&&◌, Option, none, some, List, [],
  ◌∷◌, leb, ltb, ◌==◌, if◌then◌else◌, find, update,
}
use risc_v_qemu_kernel.Prelude.Int.{ℤ, pos, negsuc, ◌+ℤ◌, ◌-ℤ◌, ltb_ℤ, eq_ℤ}
use risc_v_qemu_kernel.Kernel.{
  Kernel, Mailbox, Control, returns, reschedules, done, mbox_num, send_queue, recv_queue,
  init_queue, set_mailbox, at_index,
}
use risc_v_qemu_kernel.Block.{do_block, wakeup}
use risc_v_qemu_kernel.Spin.{spin_lock_init, spin_lock_release}

-- `MAX_MBOX_LENGTH`
abbrev pub max_mbox_length : ℕ
max_mbox_length = 64

-- The loop body of `init_mbox`, for the mailbox `i`.
pub init_mailbox : ℕ → Kernel → Kernel
unfolding init_queue spin_lock_init
init_mailbox i k = init_queue (send_queue i) (
    init_queue (recv_queue i) (
      set_mailbox i
        (record (k.mailboxes i) {
          guard = spin_lock_init (k.mailboxes i).guard;
          name = [];
          user_count = pos 0;
          nread = 0;
          nwrite = 0;
        })
        k))

abbrev pub same_text : List ℕ → List ℕ → Bool
same_text [] [] = true
same_text [] (y ∷ ys) = false
same_text (x ∷ xs) [] = false
same_text (x ∷ xs) (y ∷ ys) = (x == y) && same_text xs ys

-- The tests of the two loops of `do_mbox_open`.
abbrev pub is_open : List ℕ → Mailbox → Bool
is_open name m = ltb_ℤ (pos 0) m.user_count && same_text m.name name

abbrev pub is_unused : Mailbox → Bool
is_unused m = eq_ℤ m.user_count (pos 0)

unfoldable pub open_found : List ℕ → Option ℕ → Option ℕ → Kernel → ℤ × Kernel
open_found name (some i) free k = (
  pos i,
  set_mailbox i (record (k.mailboxes i) { user_count = (k.mailboxes i).user_count +ℤ pos 1 }) k,
)
open_found name none (some i) k =
    (pos i, set_mailbox i (record (k.mailboxes i) { name = name; user_count = pos 1 }) k)
open_found name none none k = (negsuc 0, k)

unfoldable pub do_mbox_open : List ℕ → Kernel → ℤ × Kernel
unfolding open_found
do_mbox_open name k =
    open_found name (find mbox_num (λ i. is_open name (k.mailboxes i)))
      (find mbox_num (λ i. is_unused (k.mailboxes i))) k

-- Without users the mailbox is emptied, and all that wait at it are woken.
close_at : ℕ → Kernel → Control × Kernel
close_at i k =
    let m = k.mailboxes i in
    let left = m.user_count -ℤ pos 1 in
    let emptied = set_mailbox i (record m { user_count = left; nread = 0; nwrite = 0 }) k in
    let counted = set_mailbox i (record m { user_count = left }) k in
    (
      done,
      if eq_ℤ left (pos 0) then wakeup (send_queue i) (wakeup (recv_queue i) emptied) else counted,
    )

unfoldable pub do_mbox_close : ℤ → Kernel → Control × Kernel
unfolding at_index close_at
do_mbox_close idx k = at_index idx mbox_num close_at k

-- The loop that writes the bytes of one chunk.
unfoldable pub put_bytes : List ℕ → Mailbox → Mailbox
put_bytes [] m = m
put_bytes (b ∷ bs) m =
    put_bytes bs
      (record m { buf = update m.buf (m.nwrite % max_mbox_length) b; nwrite = m.nwrite + 1 })

-- The loop that reads the bytes of one chunk.
unfoldable pub take_bytes : ℕ → Mailbox → List ℕ × Mailbox
take_bytes zero m = ([], m)
take_bytes (suc n) m =
    let (bs, after) = take_bytes n (record m { nread = m.nread + 1 }) in
    (m.buf (m.nread % max_mbox_length) ∷ bs, after)

-- The bytes that are left on the page of the message.
abbrev pub max_allow : ℕ → ℕ
max_allow bytes = (bytes + 4096) / 4096 * 4096 - bytes

-- `chunk_size`: what there is room (or data) for, what is left of the message, and of its page.
abbrev pub chunk_size : (available msg_length bytes : ℕ) → ℕ
chunk_size available msg_length bytes =
    let left = msg_length - bytes in
    let chunk = if ltb available left then available else left in
    if leb (max_allow bytes) chunk then max_allow bytes else chunk

-- `n` bytes of the message from `start` on.
abbrev pub slice : (n start : ℕ) → (ℕ → ℕ) → List ℕ
slice zero start msg = []
slice (suc n) start msg = msg start ∷ slice n (start + 1) msg

abbrev pub room : Mailbox → ℕ
room m = max_mbox_length - (m.nwrite - m.nread)

set_mailbox_of : ℕ → (Mailbox → Mailbox) → Kernel → Kernel
set_mailbox_of i f k = set_mailbox i (f (k.mailboxes i)) k

unlock : ℕ → Kernel → Kernel
unfolding spin_lock_release set_mailbox_of
unlock i k = set_mailbox_of i (λ m. record m { guard = spin_lock_release m.guard }) k

-- The outer loop of `do_mbox_send`, behind the spin lock, from the state with `bytes` sent: it ends with
-- the spin lock released, after the last byte or where the caller has to wait for room.
unfoldable pub send_loop : (fuel i msg_length bytes : ℕ) → (ℕ → ℕ) → Kernel → Control × ℕ × Kernel
unfolding set_mailbox_of unlock
send_loop zero i msg_length bytes msg k = (done, bytes, k)
send_loop (suc fuel) i msg_length bytes msg k =
    let m = k.mailboxes i in
    let chunk = chunk_size (room m) msg_length bytes in
    let rest =
      send_loop fuel i msg_length (bytes + chunk) msg
        (wakeup (recv_queue i) (set_mailbox_of i (put_bytes (slice chunk bytes msg)) k)) in
    if leb msg_length bytes
    then (returns (pos bytes), bytes, unlock i k)
    else if room m == 0
    then (reschedules, bytes, unlock i (do_block k.current (send_queue i) k))
    else rest

-- One pass of the outer loop of `do_mbox_recv`: the bytes that it reads, or none where the caller waits.
unfoldable pub recv_round : (i msg_length bytes : ℕ) → Kernel → Control × List ℕ × Kernel
unfolding set_mailbox_of unlock take_bytes
recv_round i msg_length bytes k =
    let m = k.mailboxes i in
    let (bs, after) = take_bytes (chunk_size (m.nwrite - m.nread) msg_length bytes) m in
    if m.nwrite - m.nread == 0
    then (reschedules, [], unlock i (do_block k.current (recv_queue i) k))
    else (done, bs, wakeup (send_queue i) (set_mailbox i after k))
