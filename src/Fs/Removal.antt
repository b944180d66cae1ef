-- ===== src/Fs/Removal.antt =====
-- do_rm and do_rmdir of kernel/fs/fs.c.
pub mod Clobber
use risc_v_qemu_kernel.Prelude.{
  ℕ, zero, suc, ◌+◌, ◌-◌, ◌*◌, ◌/◌, ◌%◌, Bool, true, false, not, ◌&&◌, ◌||◌, Option, none, some,
  List, [], ◌∷◌, leb, ltb, ◌==◌, if◌then◌else◌, update,
}
use risc_v_qemu_kernel.Prelude.Int.{ℤ, pos, negsuc}
use risc_v_qemu_kernel.Fs.{
  Fs, Inode, Dentry, M, u32, minus_one, sector_size, block_size, fd_file, fd_dir, root_inode_num,
  root_dir_block, direct_block_num, indirect_block_num, superblock_magic, fs_start_sector,
  superblock_sectors, inode_map_sectors, block_map_sectors, inode_table_sectors, fs_size, word_at,
  put_text, put_word, put_dentry, inode_of,
}
use risc_v_qemu_kernel.Fs.Card.{
  Card, read_sb, write_sb, read_block, write_block, get_inode, write_inode, write_sectors,
}
use risc_v_qemu_kernel.Fs.Maps.{alloc_inode, alloc_block, free_inode, free_block}
use risc_v_qemu_kernel.Fs.Blocks.{clear_temp}
use risc_v_qemu_kernel.Fs.Names.{
  append_dentry, remove_dentry, find_inode_by_name, dentries_per_block, edit_temp, is_free,
}
use risc_v_qemu_kernel.Fs.Paths.{find_inode_by_path, parent_of, split_last}
use risc_v_qemu_kernel.Fs.Files.{fail, alloc_fd, o_wronly, o_rdwr, set_fdesc}

module _ (card : Card) where
  open card use {D}

  -- The loop over the entries of a block of indices at TEMP_BUF + at, of which `n` are left from
  -- `i` on. Each entry is read when its turn comes.
  unfoldable pub free_entries : (n i at : ℕ) → Fs D → Fs D
  free_entries zero i at fs = fs
  free_entries (suc n) i at fs =
      let w = word_at (at + 4 * i) fs.temp in
      free_entries n (i + 1) at (if w == 0 then fs else free_block card w fs)

  unfoldable pub free_tables : (n i : ℕ) → Fs D → Fs D
  free_tables zero i fs = fs
  free_tables (suc n) i fs =
      let w = word_at (4 * i) fs.temp in
      let emptied = free_entries indirect_block_num 0 4096 (read_block card w 4096 fs) in
      free_tables n (i + 1)
        (if w == 0 then fs else free_block card (word_at (4 * i) emptied.temp) emptied)

  unfoldable pub free_direct : (n i : ℕ) → Inode → Fs D → Fs D
  free_direct zero i node fs = fs
  free_direct (suc n) i node fs =
      free_direct n (i + 1) node
        (if node.direct_ptr i == 0 then fs else free_block card (node.direct_ptr i) fs)

  -- All blocks of a file, through its two blocks of indices.
  unfoldable pub free_blocks : Inode → Fs D → Fs D
  free_blocks node fs =
      let s₁ = free_direct direct_block_num 0 node fs in
      let s₂ =
        if node.indirect_ptr == 0
        then s₁
        else free_block card node.indirect_ptr
            (free_entries indirect_block_num 0 0 (read_block card node.indirect_ptr 0 s₁)) in
      if node.double_indirect_ptr == 0
      then s₂
      else free_block card node.double_indirect_ptr
          (free_tables indirect_block_num 0 (read_block card node.double_indirect_ptr 0 s₂))

  -- The end of `do_rm`, behind the removal of the entry.
  unfoldable pub unlink : (inode_num : ℕ) → Inode → Fs D → Fs D
  unlink inode_num node fs =
      let nlinks = (node.nlinks + u32 - 1) % u32 in
      if nlinks == 0
      then free_inode card inode_num (free_blocks node fs)
      else write_inode card inode_num (record node { nlinks = nlinks }) fs

  unfoldable pub do_rm : Option (List ℕ) → M (Fs D) ℤ
  do_rm none fs = (fail, fs)
  do_rm (some path) fs =
      let ((parent, name), s₁) = parent_of card path fs in
      let (target, s₂) = find_inode_by_name card parent name s₁ in
      let node = get_inode card target s₂ in
      let s₃ = remove_dentry card (get_inode card parent s₂) parent name s₂ in
      if parent == minus_one
      then (fail, s₁)
      else if target == minus_one
      then (fail, s₂)
      else if node.file_type == fd_dir
      then (fail, s₂)
      else (pos 0, unlink target node s₃)

  -- The entries in use of the block in TEMP_BUF, of which `n` are left from `j` on.
  unfoldable pub used_entries : (n j : ℕ) → Fs D → ℕ
  used_entries zero j fs = 0
  used_entries (suc n) j fs = (if is_free fs j then 0 else 1) + used_entries n (j + 1) fs

  -- `dentry_count`, over the direct blocks up to the first that is missing.
  unfoldable pub count_dentries : (n i : ℕ) → Inode → M (Fs D) ℕ
  count_dentries zero i node fs = (0, fs)
  count_dentries (suc n) i node fs =
      let loaded = read_block card (node.direct_ptr i) 0 fs in
      let (rest, after) = count_dentries n (i + 1) node loaded in
      let counted : ℕ × Fs D = (used_entries dentries_per_block 0 loaded + rest, after) in
      if (node.direct_ptr i == 0) && not (i == 0) then (0, fs) else counted

  -- The loop that frees the blocks of a directory: the first in any case.
  unfoldable pub free_dir_blocks : (n i : ℕ) → Inode → Fs D → Fs D
  free_dir_blocks zero i node fs = fs
  free_dir_blocks (suc n) i node fs = free_dir_blocks n (i + 1) node (
      if not (node.direct_ptr i == 0) || (i == 0)
      then free_block card (node.direct_ptr i) fs
      else fs)

  unfoldable pub do_rmdir : List ℕ → M (Fs D) ℤ
  do_rmdir path fs =
      let ((parent, name), s₁) = parent_of card path fs in
      let (target, s₂) = find_inode_by_name card parent name s₁ in
      let node = get_inode card target s₂ in
      let (dentry_count, s₃) = count_dentries direct_block_num 0 node s₂ in
      let parent_node = get_inode card parent s₃ in
      let s₄ = remove_dentry card parent_node parent name s₃ in
      let s₅ = free_inode card target (free_dir_blocks direct_block_num 0 node s₄) in
      if target == minus_one
      then (fail, s₂)
      else if target == root_inode_num
      then (fail, s₂)
      else if not (node.file_type == fd_dir)
      then (fail, s₂)
      else if ltb 2 dentry_count
      then (fail, s₃)
      else (
        pos 0,
        write_inode card parent
            (record parent_node { nlinks = (parent_node.nlinks + u32 - 1) % u32 }) s₅,
      )
