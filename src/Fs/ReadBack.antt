-- ===== src/Fs/ReadBack.antt =====
-- What do_write puts into a file, do_read finds after do_lseek back to its start.
use risc_v_qemu_kernel.Prelude.{ℕ, ◌+◌, ◌<◌, ◌≡◌, ◌≢◌}
use risc_v_qemu_kernel.Prelude.Int.{ℤ, pos}
use risc_v_qemu_kernel.Fs.{Fs, Fdesc, u32}
use risc_v_qemu_kernel.Fs.Card.{Card, get_inode}
use risc_v_qemu_kernel.Fs.Files.{do_read, o_wronly, readable}
use risc_v_qemu_kernel.Fs.Reading.{Filled, Mapped}

module _ (card : Card) where
  open card use {D}

  -- The statement of `do_read_lem`, for a descriptor `d`.
  abbrev Reads : (fd : ℤ) (length : ℕ) → (ℕ → ℕ) → Fs D → Fdesc → Type 0
  Reads fd length buff fs d =
      let inode = get_inode card d.inode_num fs in
      let n = readable card length inode d in
      d.mode ≢ o_wronly
      → d.pos < inode.size
      → d.pos + n < u32
      → Mapped card d.pos (d.pos + n) inode fs.disk
      → let ((r, out), after) = do_read card fd buff length fs in
        (r ≡ pos n) × Filled card 0 n d.pos inode fs.disk buff out
