-- ===== src/Fs/Maps.antt =====
-- The bitmaps of inodes and blocks: alloc_inode, alloc_block, free_inode and free_block of
-- kernel/fs/fs_tools.c.
--
-- Bit `i` of a byte is written by recursion: the lowest bit is the parity, the others are those of
-- the half.
pub mod Bits
pub mod Alloc
pub mod Free
use risc_v_qemu_kernel.Prelude.{
  ℕ, zero, suc, ◌+◌, ◌-◌, ◌*◌, ◌/◌, ◌%◌, Bool, true, false, not, Option, none, some, ◌==◌,
  if◌then◌else◌, update, find,
}
use risc_v_qemu_kernel.Fs.{
  Fs, Superblock, M, u32, minus_one, sector_size, inode_map_sectors, block_map_sectors,
}
use risc_v_qemu_kernel.Fs.Card.{Card, ensure_sb, read_sb, read_sectors, write_sectors}

unfoldable pub bit_of : (bit b : ℕ) → Bool
bit_of zero b = b % 2 == 1
bit_of (suc bit) b = bit_of bit (b / 2)

-- `b | (1 << bit)` and `b & ~(1 << bit)`
unfoldable pub set_bit : (bit b : ℕ) → ℕ
set_bit zero b = b / 2 * 2 + 1
set_bit (suc bit) b = set_bit bit (b / 2) * 2 + b % 2

unfoldable pub clear_bit : (bit b : ℕ) → ℕ
clear_bit zero b = b / 2 * 2
clear_bit (suc bit) b = clear_bit bit (b / 2) * 2 + b % 2

-- The loop over the bits of a byte, behind the test that it has a free one.
unfoldable pub free_bit : ℕ → Option ℕ
unfolding bit_of
free_bit b = if b == 255 then none else find 8 (λ bit. not (bit_of bit b))

-- The loop over the bytes of a sector, of which `n` are left from `j` on.
unfoldable pub free_in_sector : (n j : ℕ) → (ℕ → ℕ) → Option (ℕ × ℕ)
unfolding free_bit
free_in_sector zero j map_buf = none
free_in_sector (suc n) j map_buf = elim (free_bit (map_buf j)) [
  | none ↦ free_in_sector n (j + 1) map_buf
  | some bit ↦ some (j, bit)
]

module _ (card : Card) where
  open card use {D}

  -- The loop over the sectors of a map, of which `n` are left from `i` on; the map starts at `start`.
  unfoldable pub alloc_bit : (n i start : ℕ) → M (Fs D) ℕ
  unfolding set_bit
  alloc_bit zero i start fs = (minus_one, fs)
  alloc_bit (suc n) i start fs =
      let map_buf = read_sectors card 1 (start + i) fs in
      elim (free_in_sector sector_size 0 map_buf) [
        | none ↦ alloc_bit n (i + 1) start fs
        | some (j, bit) ↦ (
          i * sector_size * 8 + j * 8 + bit,
          write_sectors card 1 (start + i) (update map_buf j (set_bit bit (map_buf j))) fs,
        )
      ]

  abbrev pub inode_map : Fs D → ℕ
  inode_map fs = fs.sb.start_sector + fs.sb.inode_map_offset

  abbrev pub block_map : Fs D → ℕ
  block_map fs = fs.sb.start_sector + fs.sb.block_map_offset

  unfoldable pub alloc_inode : M (Fs D) ℕ
  alloc_inode fs =
      let known = ensure_sb card fs in alloc_bit inode_map_sectors 0 (inode_map known) known

  unfoldable pub alloc_block : M (Fs D) ℕ
  alloc_block fs =
      let known = ensure_sb card fs in alloc_bit block_map_sectors 0 (block_map known) known

  -- The bit `num` of the map at `start` is cleared.
  unfoldable pub free_at : (start num : ℕ) → Fs D → Fs D
  unfolding clear_bit
  free_at start num fs =
      let sector = start + num / (sector_size * 8) in
      let byte_idx = num % (sector_size * 8) / 8 in
      let map_buf = read_sectors card 1 sector fs in
      write_sectors card 1 sector (update map_buf byte_idx (clear_bit (num % 8) (map_buf byte_idx)))
        fs

  -- Both read the superblock each time, into TEMP_BUF.
  unfoldable pub free_inode : ℕ → Fs D → Fs D
  free_inode inode_num fs = let known = read_sb card fs in free_at (inode_map known) inode_num known

  unfoldable pub free_block : ℕ → Fs D → Fs D
  free_block block_num fs = let known = read_sb card fs in free_at (block_map known) block_num known
