-- ===== src/Fs/Names.antt =====
-- Directories: append_dentry, remove_dentry and find_inode_by_name of kernel/fs/fs_tools.c.
--
-- A block of a directory holds 204 entries of 20 bytes; an entry whose name is empty is free. The
-- blocks are read into TEMP_BUF, one after the other.
use risc_v_qemu_kernel.Prelude.{
  ℕ, zero, suc, ◌+◌, ◌*◌, ◌/◌, ◌%◌, Bool, true, false, not, ◌&&◌, ◌||◌, Option, none, some, List,
  ◌==◌, if◌then◌else◌, find, update,
}
use risc_v_qemu_kernel.Fs.{
  Fs, Inode, Dentry, M, u32, minus_one, block_size, fd_dir, word_at, put_dentry, same_at,
}
use risc_v_qemu_kernel.Fs.Card.{Card, read_block, write_block, get_inode}
use risc_v_qemu_kernel.Fs.Blocks.{get_physical_block_id, clear_temp}

-- `BLOCK_SIZE / sizeof(dentry_t)`
abbrev pub dentries_per_block : ℕ
dentries_per_block = 204

-- `num_blocks`, in 32 bits.
abbrev pub num_blocks : Inode → ℕ
num_blocks node = (node.size + 4095) % u32 / block_size

-- The entry `j` of the block in TEMP_BUF is free, or has the name.
abbrev pub is_free : {D : Type 0} → Fs D → ℕ → Bool
is_free fs j = fs.temp (20 * j) == 0

abbrev pub is_entry : {D : Type 0} → List ℕ → Fs D → ℕ → Bool
is_entry name fs j = not (fs.temp (20 * j) == 0) && same_at (20 * j) name fs.temp

abbrev pub edit_temp : {D : Type 0} → ((ℕ → ℕ) → ℕ → ℕ) → Fs D → Fs D
edit_temp f fs = record fs { temp = f fs.temp }

-- `p_block == -1 || p_block == 0`
abbrev pub no_block : ℕ → Bool
no_block b = (b == minus_one) || (b == 0)

module _ (card : Card) where
  open card use {D}

  -- The search of the loops below: the first entry that passes the test, with its block, in the
  -- blocks of the directory from `i` on, of which `n` are left. It ends with the block in TEMP_BUF.
  unfoldable pub search_blocks :
      (test : Fs D → ℕ → Bool) → Inode → (inode_num n i : ℕ) → M (Fs D) (Option (ℕ × ℕ))
  search_blocks test node inode_num zero i fs = (none, fs)
  search_blocks test node inode_num (suc n) i fs =
      let ((p_block, same), after) = get_physical_block_id card node inode_num i false fs in
      let loaded = read_block card p_block 0 after in
      let skipped = search_blocks test node inode_num n (i + 1) after in
      let rest = search_blocks test node inode_num n (i + 1) loaded in
      if no_block p_block then skipped else elim (find dentries_per_block (test loaded)) [
        | none ↦ rest
        | some j ↦ (some (p_block, j), loaded)
      ]

  -- A new block for the directory, with the entry in front.
  unfoldable pub append_block : Inode → (inode_num : ℕ) → Dentry → M (Fs D) Inode
  append_block node inode_num dentry fs =
      let ((b, given), after) =
        get_physical_block_id card node inode_num (num_blocks node) true fs in
      if no_block b then (given, after) else (
        record given { size = (given.size + block_size) % u32 },
        write_block card b 0 (edit_temp (put_dentry 0 dentry) (clear_temp 0 after)),
      )

  unfoldable pub append_dentry : Inode → (inode_num : ℕ) → Dentry → M (Fs D) Inode
  append_dentry node inode_num dentry fs =
      let (found, after) = search_blocks is_free node inode_num (num_blocks node) 0 fs in
      elim found [
        | none ↦ append_block node inode_num dentry after
        | some (p_block, j) ↦
            (node, write_block card p_block 0 (edit_temp (put_dentry (20 * j) dentry) after))
      ]

  unfoldable pub remove_dentry : Inode → (inode_num : ℕ) → List ℕ → Fs D → Fs D
  remove_dentry node inode_num name fs =
      let (found, after) = search_blocks (is_entry name) node inode_num (num_blocks node) 0 fs in
      elim found [
        | none ↦ after
        | some (p_block, j) ↦
            write_block card p_block 0 (edit_temp (λ b. update b (20 * j) 0) after)
      ]

  unfoldable pub find_inode_by_name : (dir_inode_num : ℕ) → List ℕ → M (Fs D) ℕ
  find_inode_by_name dir name fs =
      let node = get_inode card dir fs in
      let (found, after) = search_blocks (is_entry name) node dir (num_blocks node) 0 fs in
      if node.file_type == fd_dir
      then elim found [
        | none ↦ (minus_one, after)
        | some (p_block, j) ↦ (word_at (20 * j + 16) after.temp, after)
      ]
      else (minus_one, fs)
