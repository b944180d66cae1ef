-- ===== src/Fs/Make.antt =====
-- do_mkfs, init_fs and do_statfs of kernel/fs/fs.c.
use risc_v_qemu_kernel.Prelude.{ℕ, zero, suc, ◌+◌, true, ◌==◌, if◌then◌else◌, update}
use risc_v_qemu_kernel.Prelude.Int.{ℤ, pos}
use risc_v_qemu_kernel.Fs.{
  Fs, Superblock, Inode, M, sector_size, block_size, fd_dir, root_inode_num, root_dir_block,
  superblock_magic, fs_start_sector, superblock_sectors, inode_map_sectors, block_map_sectors,
  inode_table_sectors, copy_into, zeros,
}
use risc_v_qemu_kernel.Fs.Card.{
  Card, read_sb, ensure_sb, write_sb, write_block, write_inode, read_sectors, write_sectors,
}
use risc_v_qemu_kernel.Fs.Maps.{bit_of, inode_map, block_map}
use risc_v_qemu_kernel.Fs.Blocks.{clear_temp}
use risc_v_qemu_kernel.Fs.Names.{edit_temp}
use risc_v_qemu_kernel.Fs.Files.{fail}
use risc_v_qemu_kernel.Fs.Dirs.{blank_inode, put_dots}

-- The superblock of a new file system.
abbrev pub new_superblock : Superblock
new_superblock = record {
  magic = superblock_magic;
  fs_size = 1048576;
  start_sector = fs_start_sector;
  block_size = block_size;
  inode_map_offset = superblock_sectors;
  block_map_offset = superblock_sectors + inode_map_sectors;
  inode_offset = superblock_sectors + inode_map_sectors + block_map_sectors;
  data_offset = superblock_sectors + inode_map_sectors + block_map_sectors + inode_table_sectors;
  inode_entry_size = 64;
  dentry_size = 20;
}

abbrev pub root_inode : Inode
root_inode = record blank_inode {
  file_type = fd_dir;
  size = block_size;
  nlinks = 2;
  direct_ptr = update (λ i. 0) 0 root_dir_block;
}

module _ (card : Card) where
  open card use {D}

  -- Writing TEMP_BUF to `n` sectors from `sector` on, one by one.
  unfoldable pub write_each : (n sector : ℕ) → Fs D → Fs D
  write_each zero sector fs = fs
  write_each (suc n) sector fs = write_each n (sector + 1) (write_sectors card 1 sector fs.temp fs)

  -- The first byte of TEMP_BUF, and then the sector.
  abbrev pub write_map : (sector byte : ℕ) → Fs D → Fs D
  write_map sector byte fs =
      let edited = edit_temp (λ b. update b 0 byte) fs in
      write_sectors card 1 sector edited.temp edited

  -- `memset(TEMP_BUF, 0, SECTOR_SIZE)`
  abbrev pub clear_sector : Fs D → Fs D
  clear_sector fs = edit_temp (copy_into 0 sector_size zeros) fs

  -- Behind the test: superblock, empty maps, the root with its inode and block, and the bits of these.
  -- The inode of the root is built in TEMP_BUF too.
  unfoldable pub make_fs : Fs D → Fs D
  make_fs fs =
      let s₁ = record (write_sb card (record fs { sb = new_superblock })) { sb_valid = true } in
      let s₂ =
        write_each (inode_map_sectors + block_map_sectors) (inode_map card s₁) (clear_sector s₁) in
      let s₃ = write_inode card root_inode_num root_inode (clear_sector s₂) in
      let s₄ = write_block card 0 0 (clear_temp 0 s₃) in
      let s₅ = write_block card root_dir_block 0 (edit_temp (put_dots 0 0) s₄) in
      write_map (block_map card s₁) 3 (write_map (inode_map card s₁) 1 (clear_sector s₅))

  unfoldable pub do_mkfs : M (Fs D) ℤ
  do_mkfs fs =
      let known = read_sb card fs in
      if known.sb.magic == superblock_magic
      then (fail, record known { sb_valid = true })
      else (pos 0, make_fs known)

  -- All descriptors are closed.
  abbrev pub close_all : Fs D → Fs D
  close_all fs = record fs { fdesc_array = λ i. record (fs.fdesc_array i) { pos = 0; used = 0 } }

  unfoldable pub init_fs : Fs D → Fs D
  init_fs fs =
      let known = read_sb card fs in
      let made = (do_mkfs known).1 in
      close_all
        (if known.sb.magic == superblock_magic then record known { sb_valid = true } else made)

  -- The loops of `do_statfs`: the bits that are set, of a byte, of a sector and of a map.
  unfoldable pub used_bits : (n bit byte : ℕ) → ℕ
  used_bits zero bit byte = 0
  used_bits (suc n) bit byte = (if bit_of bit byte then 1 else 0) + used_bits n (bit + 1) byte

  unfoldable pub used_in_sector : (n i : ℕ) → (ℕ → ℕ) → ℕ
  used_in_sector zero i map_buf = 0
  used_in_sector (suc n) i map_buf = used_bits 8 0 (map_buf i) + used_in_sector n (i + 1) map_buf

  unfoldable pub used_in_map : (n s start : ℕ) → Fs D → ℕ
  used_in_map zero s start fs = 0
  used_in_map (suc n) s start fs =
      used_in_sector sector_size 0 (read_sectors card 1 (start + s) fs)
      + used_in_map n (s + 1) start fs

  -- The result with the numbers of used inodes and blocks, which it prints.
  unfoldable pub do_statfs : M (Fs D) (ℤ × ℕ × ℕ)
  do_statfs fs =
      let known = ensure_sb card fs in
      if known.sb.magic == superblock_magic
      then (
        (
          pos 0,
          used_in_map inode_map_sectors 0 (inode_map card known) known,
          used_in_map block_map_sectors 0 (block_map card known) known,
        ),
        known,
      )
      else ((fail, 0, 0), known)
