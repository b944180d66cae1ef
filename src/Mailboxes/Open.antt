-- ===== src/Mailboxes/Open.antt =====
-- `do_mbox_open` and `do_mbox_close` of kernel/locking/mbox.c: a mailbox lives while it has users.
use mathlib.Core.Path.{ap₂}
use risc_v_qemu_kernel.Prelude.{
  ℕ, ◌<◌, ◌≡◌, refl, ◌∙◌, true, false, Option, none, some, List, [], ◌∷◌, ◌++◌, find, find-some,
  arith, Bool-cases, inl, inr,
}
use risc_v_qemu_kernel.Prelude.Int.{pos, negsuc, ◌+ℤ◌, ◌-ℤ◌, eq_ℤ, eq_ℤ→eq}
use risc_v_qemu_kernel.Kernel.{
  Kernel, mbox_num, send_queue, recv_queue, ready_queue, set_mailbox, at_index-inside,
}
use risc_v_qemu_kernel.Block.{wakeup, wakeup_mailboxes}
use risc_v_qemu_kernel.Block.Invariant.{WellQueued, wakeup-WellQueued}
use risc_v_qemu_kernel.Block.Wakeup.{ready-wakeup, emptied-wakeup, untouched-wakeup}
use risc_v_qemu_kernel.Mailboxes.{
  do_mbox_open, do_mbox_close, close_at, is_open, is_unused, open_found, same_text,
}

same_text_refl : (xs : List ℕ) → same_text xs xs ≡ true
same_text_refl [] = refl
same_text_refl (x ∷ xs) = ground (arith, same_text_refl xs)

closed_empty : ℕ → Kernel → Kernel
closed_empty i k =
    set_mailbox i
      (record (k.mailboxes i) {
        user_count = (k.mailboxes i).user_count -ℤ pos 1;
        nread = 0;
        nwrite = 0;
      })
      k

close_at-last :
    (i : ℕ) (k : Kernel)
    → eq_ℤ ((k.mailboxes i).user_count -ℤ pos 1) (pos 0) ≡ true
    → (close_at i k).1 ≡ wakeup (send_queue i) (wakeup (recv_queue i) (closed_empty i k))
unfolding close_at closed_empty
close_at-last i k e = rw e refl

close_at-count :
    (i : ℕ) (k : Kernel)
    → ((close_at i k).1.mailboxes i).user_count ≡ (k.mailboxes i).user_count -ℤ pos 1
close_at-count i k = elim (Bool-cases (eq_ℤ ((k.mailboxes i).user_count -ℤ pos 1) (pos 0))) [
  | inl last ↦
      rw
        (
          close_at-last i k last,
          wakeup_mailboxes (send_queue i) (wakeup (recv_queue i) (closed_empty i k)),
          wakeup_mailboxes (recv_queue i) (closed_empty i k),
        )
        (unfold closed_empty in ground arith)
  | inr others ↦ unfold close_at in rw others (ground arith)
]

opened :
    (name : List ℕ) (i : ℕ) (k : Kernel) (o p : Option ℕ)
    → find mbox_num (λ j. is_open name (k.mailboxes j)) ≡ o
    → find mbox_num (λ j. is_unused (k.mailboxes j)) ≡ p
    → (open_found name o p k).0 ≡ pos i
    → let m = (open_found name o p k).1 in
      (i < mbox_num)
      × (is_open name (m.mailboxes i) ≡ true)
      × ((m.mailboxes i).user_count -ℤ pos 1 ≡ (k.mailboxes i).user_count)
unfolding open_found ◌+ℤ◌ ◌-ℤ◌
opened name i k (some j) p e f r =
    ground (arith, find-some (λ j. is_open name (k.mailboxes j)) mbox_num j e, r)
opened name i k none (some j) e f r = ground (
  arith,
  find-some (λ j. is_unused (k.mailboxes j)) mbox_num j f,
  r,
  same_text_refl name,
  eq_ℤ→eq (k.mailboxes j).user_count (pos 0),
)
opened name i k none none e f r = absurd (cc)

-- A mailbox that `do_mbox_open` returns is open under the name; opening it and closing it again leaves
-- the number of its users as it was.
pub open_then_close :
    (name : List ℕ) (i : ℕ) (k : Kernel)
    → (do_mbox_open name k).0 ≡ pos i
    → let m = (do_mbox_open name k).1 in
      (i < mbox_num)
      × (is_open name (m.mailboxes i) ≡ true)
      × (((do_mbox_close (pos i) m).1.mailboxes i).user_count ≡ (k.mailboxes i).user_count)
unfolding do_mbox_open do_mbox_close
open_then_close name i k e =
    let h =
      opened name i k (find mbox_num (λ j. is_open name (k.mailboxes j)))
        (find mbox_num (λ j. is_unused (k.mailboxes j))) refl refl e in
    (
      h.0,
      h.1,
      rw (at_index-inside i mbox_num close_at (do_mbox_open name k).1 h.0)
          (close_at-count i (do_mbox_open name k).1 ∙ h.2),
    )

-- The last user closes a mailbox, with well formed queues: it is empty, nobody waits at it, and those
-- that waited are ready, first the receivers and then the senders, in the order in which they came.
pub close_last :
    (i : ℕ) (k : Kernel)
    → i < mbox_num
    → WellQueued k
    → (k.mailboxes i).user_count ≡ pos 1
    → let m = (do_mbox_close (pos i) k).1 in
      (is_unused (m.mailboxes i) ≡ true)
      × ((m.mailboxes i).nread ≡ (m.mailboxes i).nwrite)
      × (m.queue (recv_queue i) ≡ [])
      × (m.queue (send_queue i) ≡ [])
      × (m.queue ready_queue
          ≡ (k.queue ready_queue ++ k.queue (recv_queue i)) ++ k.queue (send_queue i))
unfolding do_mbox_close closed_empty
close_last i k h w one =
    rw (at_index-inside i mbox_num close_at k h, close_at-last i k (rw one (unfold ◌-ℤ◌ in refl)))
      (
        rw (mailboxes_after) (unfold ◌-ℤ◌ in ground arith),
        rw (mailboxes_after) (ground arith),
        untouched-wakeup first (send_queue i) (recv_queue i) v (ground arith) (ground arith)
            ∙ emptied-wakeup (closed_empty i k) (recv_queue i) w (ground arith),
        emptied-wakeup first (send_queue i) v (ground arith),
        ready-wakeup first (send_queue i) v (ground arith)
            ∙ ap₂ ◌++◌ (ready-wakeup (closed_empty i k) (recv_queue i) w (ground arith)) (
                untouched-wakeup (closed_empty i k) (recv_queue i) (send_queue i) w (ground arith)
                  (ground arith)),
      )
  where
    first : Kernel
    first = wakeup (recv_queue i) (closed_empty i k)

    v : WellQueued first
    v = wakeup-WellQueued (closed_empty i k) (recv_queue i) w

    mailboxes_after : (wakeup (send_queue i) first).mailboxes ≡ (closed_empty i k).mailboxes
    mailboxes_after =
        wakeup_mailboxes (send_queue i) first ∙ wakeup_mailboxes (recv_queue i) (closed_empty i k)

-- Closing a mailbox that has no users leaves an entry that is neither open nor unused, under any
-- name: it can not be opened any more.
pub close_unused :
    (name : List ℕ) (i : ℕ) (k : Kernel)
    → i < mbox_num
    → (k.mailboxes i).user_count ≡ pos 0
    → let m = (do_mbox_close (pos i) k).1 in
      (is_open name (m.mailboxes i) ≡ false) × (is_unused (m.mailboxes i) ≡ false)
unfolding do_mbox_close
close_unused name i k h idle_entry =
    let after : ((close_at i k).1.mailboxes i).user_count ≡ negsuc 0 =
      close_at-count i k ∙ rw idle_entry (unfold ◌-ℤ◌ in refl) in
    rw (at_index-inside i mbox_num close_at k h, after) (refl, refl)
