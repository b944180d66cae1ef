-- ===== src/Fs/Files.antt =====
-- Open files: alloc_fd of kernel/fs/fs_tools.c, and do_read, do_write, do_close and do_lseek of
-- kernel/fs/fs.c. Lengths are not negative, and sizes and positions are below 2^31.
use risc_v_qemu_kernel.Prelude.{
  ℕ, zero, suc, ◌+◌, ◌-◌, ◌/◌, ◌%◌, true, false, Option, none, some, leb, ltb, ◌==◌, if◌then◌else◌,
  find, update,
}
use risc_v_qemu_kernel.Prelude.Int.{ℤ, pos, negsuc}
use risc_v_qemu_kernel.Fs.{Fs, Fdesc, Inode, M, u32, minus_one, block_size, num_fdescs, copy_into}
use risc_v_qemu_kernel.Fs.Card.{Card, read_block, write_block, get_inode, write_inode}
use risc_v_qemu_kernel.Fs.Blocks.{get_physical_block_id}

-- `O_RDONLY`, `O_WRONLY` and `O_RDWR`
abbrev pub o_rdonly : ℕ
o_rdonly = 1

abbrev pub o_wronly : ℕ
o_wronly = 2

abbrev pub o_rdwr : ℕ
o_rdwr = 3

-- The int of a bit pattern, and the pattern of an int.
abbrev pub int_of : ℕ → ℤ
int_of w = if ltb w 2147483648 then pos w else negsuc (u32 - w - 1)

abbrev pub to_u32 : ℤ → ℕ
to_u32 (pos n) = n % u32
to_u32 (negsuc n) = u32 - 1 - n % u32

abbrev pub fail : ℤ
fail = negsuc 0

module _ {D : Type 0} where
  -- It looks at the table of its own file.
  unfoldable pub alloc_fd : Fs D → Option ℕ
  alloc_fd fs = find num_fdescs (λ fd. (fs.tools_fdesc_array fd).used == 0)

  -- `!(fd < 0 || fd >= NUM_FDESCS || fdesc_array[fd].used == 0)`
  abbrev pub open_file : ℤ → Fs D → Option ℕ
  open_file (pos fd) fs =
      if ltb fd num_fdescs then (if (fs.fdesc_array fd).used == 0 then none else some fd) else none
  open_file (negsuc n) fs = none

  abbrev pub set_fdesc : ℕ → Fdesc → Fs D → Fs D
  set_fdesc fd d fs = record fs { fdesc_array = update fs.fdesc_array fd d }

  abbrev pub set_pos : ℕ → ℕ → Fs D → Fs D
  set_pos fd p fs = set_fdesc fd (record (fs.fdesc_array fd) { pos = p }) fs

  unfoldable pub do_close : ℤ → M (Fs D) ℤ
  do_close fd fs = elim (open_file fd fs) [
    | none ↦ (fail, fs)
    | some i ↦ (pos 0, set_fdesc i (record (fs.fdesc_array i) { used = 0; pos = 0 }) fs)
  ]

-- `bytes_to_copy`: what is left to transfer, and what is left of the block.
abbrev pub bytes_to_copy : (left pos : ℕ) → ℕ
bytes_to_copy left p =
    if ltb left (block_size - p % block_size) then left else block_size - p % block_size

module _ (card : Card) where
  open card use {D}

  -- The loop of `do_read`, with `done` bytes in the buffer of the caller. It returns how many there
  -- are in the end.
  unfoldable pub read_loop :
      (fuel fd length done : ℕ) → Inode → (buff : ℕ → ℕ) → M (Fs D) (ℕ × (ℕ → ℕ))
  read_loop zero fd length done inode buff fs = ((done, buff), fs)
  read_loop (suc fuel) fd length done inode buff fs =
      let d = fs.fdesc_array fd in
      let n = bytes_to_copy (length - done) d.pos in
      let ((b, same), after) =
        get_physical_block_id card inode d.inode_num (d.pos / block_size) false fs in
      let loaded = read_block card b 0 after in
      let rest =
        read_loop fuel fd length (done + n) inode
          (copy_into done n (λ i. loaded.temp (d.pos % block_size + i)) buff)
          (set_pos fd ((d.pos + n) % u32) loaded) in
      if leb length done
      then ((done, buff), fs)
      else if b == minus_one
      then ((done, buff), after)
      else rest

  -- `real_read_len`
  abbrev pub readable : (length : ℕ) → Inode → Fdesc → ℕ
  readable length inode d = if ltb length (inode.size - d.pos) then length else inode.size - d.pos

  unfoldable pub do_read : ℤ → (buff : ℕ → ℕ) → (length : ℕ) → M (Fs D) (ℤ × (ℕ → ℕ))
  do_read fd buff length fs = elim (open_file fd fs) [
    | none ↦ ((fail, buff), fs)
    | some i ↦
        let d = fs.fdesc_array i in
        let inode = get_inode card d.inode_num fs in
        let n = readable length inode d in
        let ((done, filled), after) = read_loop (suc n) i n 0 inode buff fs in
        if d.mode == o_wronly
        then ((fail, buff), fs)
        else if leb inode.size d.pos
        then ((pos 0, buff), fs)
        else ((pos done, filled), after)
  ]

  -- The loop of `do_write`. The inode changes: its blocks, and its size where the file grows.
  unfoldable pub write_loop :
      (fuel fd length done : ℕ) → Inode → (buff : ℕ → ℕ) → M (Fs D) (ℕ × Inode)
  write_loop zero fd length done inode buff fs = ((done, inode), fs)
  write_loop (suc fuel) fd length done inode buff fs =
      let d = fs.fdesc_array fd in
      let n = bytes_to_copy (length - done) d.pos in
      let ((b, given), after) =
        get_physical_block_id card inode d.inode_num (d.pos / block_size) true fs in
      let loaded = read_block card b 0 after in
      let filled = record loaded {
        temp = copy_into (d.pos % block_size) n (λ i. buff (done + i)) loaded.temp;
      } in
      let p = (d.pos + n) % u32 in
      let rest =
        write_loop fuel fd length (done + n)
          (record given { size = if ltb given.size p then p else given.size }) buff
          (set_pos fd p (write_block card b 0 filled)) in
      if leb length done
      then ((done, inode), fs)
      else if b == minus_one
      then ((done, given), after)
      else rest

  unfoldable pub do_write : ℤ → (buff : ℕ → ℕ) → (length : ℕ) → M (Fs D) ℤ
  do_write fd buff length fs = elim (open_file fd fs) [
    | none ↦ (fail, fs)
    | some i ↦
        let d = fs.fdesc_array i in
        let ((done, inode), after) =
          write_loop (suc length) i length 0 (get_inode card d.inode_num fs) buff fs in
        if d.mode == o_rdonly
        then (fail, fs)
        else (pos done, write_inode card d.inode_num inode after)
  ]

  -- `SEEK_SET`, `SEEK_CUR` and `SEEK_END` are 0, 1 and 2.
  abbrev pub seek_from : (whence : ℕ) → Inode → Fdesc → Option ℕ
  seek_from whence inode d =
      if whence == 0
      then some 0
      else if whence == 1
      then some d.pos
      else if whence == 2
      then some inode.size
      else none

  unfoldable pub do_lseek : ℤ → (offset : ℤ) → (whence : ℕ) → M (Fs D) ℤ
  do_lseek fd offset whence fs = elim (open_file fd fs) [
    | none ↦ (fail, fs)
    | some i ↦
        elim (seek_from whence (get_inode card (fs.fdesc_array i).inode_num fs)
          (fs.fdesc_array i)) [
            | none ↦ (fail, fs)
            | some start ↦ let p = (start + to_u32 offset) % u32 in (int_of p, set_pos i p fs)
          ]
  ]
