-- ===== src/Mailboxes/Send.antt =====
-- `do_mbox_send` of kernel/locking/mbox.c: what the receiver will read is what was sent.
use risc_v_qemu_kernel.Prelude.{ℕ, ◌-◌, ◌≤◌, ◌≡◌, ◌⊎◌, ◌++◌}
use risc_v_qemu_kernel.Prelude.Int.{pos}
use risc_v_qemu_kernel.Kernel.{Kernel, Control, returns, reschedules, recv_queue}
use risc_v_qemu_kernel.Block.{wakeup}
use risc_v_qemu_kernel.Mailboxes.{chunk_size, room, slice, put_bytes, set_mailbox_of}
use risc_v_qemu_kernel.Mailboxes.Ring.{contents, IsRing}

-- The mailbox after one pass.
abbrev pass : (i len bytes : ℕ) → (ℕ → ℕ) → Kernel → Kernel
pass i len bytes msg k =
    wakeup (recv_queue i) (
      set_mailbox_of i (put_bytes (slice (chunk_size (room (k.mailboxes i)) len bytes) bytes msg))
        k)

-- How a call of the loop ends: all bytes sent, or waiting with a full mailbox; either way the bytes sent
-- by it stand behind those that were in the mailbox.
pub record Sent (i len bytes : ℕ) (msg : ℕ → ℕ) (k : Kernel) (c : Control) (sent : ℕ)
    (after : Kernel) : Type 0 where
  pub ends :
      ((c ≡ returns (pos len)) × (sent ≡ len))
      ⊎ ((c ≡ reschedules) × (room (after.mailboxes i) ≡ 0))
  pub more : bytes ≤ sent
  pub ring : IsRing (after.mailboxes i)
  pub stored :
      contents (after.mailboxes i) ≡ contents (k.mailboxes i) ++ slice (sent - bytes) bytes msg
