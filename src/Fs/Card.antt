-- ===== src/Fs/Card.antt =====
-- The SD card, and the functions of kernel/fs/fs_tools.c that read and write it.
--
-- bios_sd_read and bios_sd_write belong to the firmware: they are a parameter, with the law that a card
-- keeps what is written. An address of memory is the buffer that stands there.
use risc_v_qemu_kernel.Prelude.{
  ℕ, ◌+◌, ◌-◌, ◌*◌, ◌/◌, ◌%◌, ◌<◌, ◌≡◌, true, ◌&&◌, leb, ltb, if◌then◌else◌,
}
use risc_v_qemu_kernel.Fs.{
  Fs, Inode, u32, sector_size, sectors_per_block, fs_start_sector, superblock_sectors,
  inode_map_sectors, block_map_sectors, block_base, copy_into, superblock_at, superblock_byte,
  inode_at, inode_byte,
}

-- Reading and writing `num` sectors from `first` on.
pub record Card : Type 1 where
  pub D : Type 0
  pub sd_read : (num first : ℕ) → D → ℕ → ℕ
  pub sd_write : (num first : ℕ) → (ℕ → ℕ) → D → D
  pub read-write :
      (n f : ℕ) (b : ℕ → ℕ) (d : D) (m g i : ℕ)
      → i < 512 * m
      → sd_read m g (sd_write n f b d) i ≡ (
          if leb (512 * f) (512 * g + i) && ltb (512 * g + i) (512 * (f + n))
          then b (512 * g + i - 512 * f)
          else sd_read m g d i)

module _ (card : Card) where
  open card use {D, sd_read, sd_write}

  -- The addresses of the transfers are unsigned ints.
  abbrev pub read_sectors : (num first : ℕ) → Fs D → ℕ → ℕ
  read_sectors num first fs = sd_read num (first % u32) fs.disk

  abbrev pub write_sectors : (num first : ℕ) → (ℕ → ℕ) → Fs D → Fs D
  write_sectors num first b fs = record fs { disk = sd_write num (first % u32) b fs.disk }

  unfoldable pub read_sb : Fs D → Fs D
  read_sb fs =
      let temp =
        copy_into 0 (superblock_sectors * sector_size)
          (read_sectors superblock_sectors fs_start_sector fs) fs.temp in
      record fs { temp = temp; sb = superblock_at temp }

  -- The functions that read the superblock where it is not yet known.
  unfoldable pub ensure_sb : Fs D → Fs D
  unfolding read_sb
  ensure_sb fs = if fs.sb_valid then fs else record (read_sb fs) { sb_valid = true }

  unfoldable pub write_sb : Fs D → Fs D
  write_sb fs =
      let temp = copy_into 0 80 (superblock_byte fs.sb) fs.temp in
      write_sectors superblock_sectors fs_start_sector temp (record fs { temp = temp })

  -- The product is a uint32_t.
  abbrev pub block_sector : ℕ → ℕ
  block_sector block_id = block_base + block_id * sectors_per_block % u32

  -- `read_block(block_id, TEMP_BUF + at)`
  unfoldable pub read_block : (block_id at : ℕ) → Fs D → Fs D
  read_block block_id at fs = record fs {
    temp = copy_into at 4096 (read_sectors sectors_per_block (block_sector block_id) fs) fs.temp;
  }

  unfoldable pub write_block : (block_id at : ℕ) → Fs D → Fs D
  write_block block_id at fs =
      write_sectors sectors_per_block (block_sector block_id) (λ i. fs.temp (at + i)) fs

  abbrev pub inode_sector : ℕ → ℕ
  inode_sector inode_num =
      fs_start_sector
      + superblock_sectors
      + inode_map_sectors
      + block_map_sectors
      + inode_num * 64 / sector_size

  unfoldable pub get_inode : ℕ → Fs D → Inode
  get_inode inode_num fs =
      inode_at (inode_num * 64 % sector_size) (read_sectors 1 (inode_sector inode_num) fs)

  unfoldable pub write_inode : ℕ → Inode → Fs D → Fs D
  write_inode inode_num node fs =
      let buffer = read_sectors 1 (inode_sector inode_num) fs in
      write_sectors 1 (inode_sector inode_num)
        (copy_into (inode_num * 64 % sector_size) 64 (inode_byte node) buffer) fs
