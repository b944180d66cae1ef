-- ===== src/Tests/Letters.antt =====
-- Mailboxes: one that holds the bytes 5 and 6 round the end of its buffer.
use risc_v_qemu_kernel.Prelude.{
  ◌≡◌, ◌<◌, refl, true, false, [], ◌∷◌, ◌==◌, if◌then◌else◌, find, arith, ℕ,
}
use risc_v_qemu_kernel.Prelude.Int.{pos}
use risc_v_qemu_kernel.Kernel.{Kernel, Mailbox, unlocked, mbox_num}
use risc_v_qemu_kernel.Mailboxes.{
  put_bytes, do_mbox_open, do_mbox_close, open_found, is_open, is_unused,
}
use risc_v_qemu_kernel.Mailboxes.Ring.{contents, IsRing, put_bytes_lem}
use risc_v_qemu_kernel.Mailboxes.Open.{open_then_close, close_last, close_unused}
use risc_v_qemu_kernel.Pipes.{Pipe, sys_pipe_open, sys_pipe_open_again, pipe_found}
use risc_v_qemu_kernel.Tests.Locks.{held, held-WellQueued}

abbrev wrapped : Mailbox
wrapped = record {
  guard = unlocked;
  buf = λ j. if j == 63 then 5 else if j == 0 then 6 else 0;
  name = 109 ∷ [];
  user_count = pos 1;
  nread = 63;
  nwrite = 65;
}

wrapped-contents : contents wrapped ≡ 5 ∷ 6 ∷ []
wrapped-contents = refl

put_bytes_lem_holds :
    let after = put_bytes (7 ∷ 8 ∷ []) wrapped in
    IsRing after × (contents after ≡ 5 ∷ 6 ∷ 7 ∷ 8 ∷ [])
put_bytes_lem_holds = put_bytes_lem (7 ∷ 8 ∷ []) wrapped (omega arith, omega arith) (omega arith)

abbrev posted : Kernel
posted = record held { mailboxes = λ i. wrapped }

first_open : (do_mbox_open (109 ∷ []) posted).0 ≡ pos 0
unfolding do_mbox_open open_found find
first_open = refl

open_then_close_holds :
    let m = (do_mbox_open (109 ∷ []) posted).1 in
    (0 < mbox_num)
    × (is_open (109 ∷ []) (m.mailboxes 0) ≡ true)
    × (((do_mbox_close (pos 0) m).1.mailboxes 0).user_count ≡ pos 1)
open_then_close_holds = open_then_close (109 ∷ []) 0 posted first_open

close_last_holds :
    let m = (do_mbox_close (pos 0) posted).1 in
    (is_unused (m.mailboxes 0) ≡ true)
    × ((m.mailboxes 0).nread ≡ (m.mailboxes 0).nwrite)
    × (m.queue 71 ≡ [])
    × (m.queue 70 ≡ [])
    × (m.queue 64 ≡ 4 ∷ [])
close_last_holds = close_last 0 posted (omega arith) held-WellQueued refl

close_unused_example :
    let m = (do_mbox_close (pos 0) held).1 in
    (is_open [] (m.mailboxes 0) ≡ false) × (is_unused (m.mailboxes 0) ≡ false)
close_unused_example = close_unused [] 0 held (omega arith) refl

abbrev no_pipes : ℕ → Pipe
no_pipes i = record {
  name = [];
  valid = false;
  page_buffer = λ j. 0;
  head = 0;
  tail = 0;
  data_count = 0;
}

first_pipe : (sys_pipe_open (109 ∷ []) no_pipes posted).0 ≡ pos 0
unfolding sys_pipe_open pipe_found find
first_pipe = refl

sys_pipe_open_again_holds :
    let after = sys_pipe_open (109 ∷ []) no_pipes posted in
    (sys_pipe_open (109 ∷ []) after.1 after.2).0 ≡ pos 0
sys_pipe_open_again_holds = sys_pipe_open_again (109 ∷ []) 0 no_pipes posted first_pipe
