-- ===== src/Fs.antt =====
-- The data of the file system: include/os/fs.h, and the transfers of kernel/fs/fs_tools.c between the SD
-- card and memory.
--
-- Buffers are functions from offsets to bytes, numbers below 256. The functions that use a local buffer
-- bind it; TEMP_BUF, which many functions share, is the field `temp`. A uint32_t is a number below 2^32.
-- The messages of printk are left out.
pub mod Card
pub mod Words
pub mod Transfers
pub mod Inodes
pub mod Maps
pub mod Blocks
pub mod Names
pub mod Paths
pub mod Files
pub mod Dirs
pub mod Removal
pub mod Make
pub mod Tables
pub mod Opening
pub mod Lookup
pub mod Reading
pub mod Layout
pub mod WriteLoop
pub mod Writing
pub mod ReadBack
use risc_v_qemu_kernel.Prelude.{
  ℕ, zero, suc, ◌+◌, ◌-◌, ◌*◌, ◌/◌, ◌%◌, Bool, true, false, ◌&&◌, List, [], ◌∷◌, length, leb, ltb,
  ◌==◌, if◌then◌else◌, get_or,
}

-- `SECTOR_SIZE`, `BLOCK_SIZE` and `SECTORS_PER_BLOCK`
abbrev pub sector_size : ℕ
sector_size = 512

abbrev pub block_size : ℕ
block_size = 4096

abbrev pub sectors_per_block : ℕ
sectors_per_block = 8

-- 2^32, and the uint32_t -1.
abbrev pub u32 : ℕ
u32 = 4294967296

abbrev pub minus_one : ℕ
minus_one = 4294967295

-- `FS_START_SECTOR`, `FS_SIZE` and the numbers of sectors of the areas
abbrev pub fs_start_sector : ℕ
fs_start_sector = 1048576

abbrev pub fs_size : ℕ
fs_size = 536870912

abbrev pub superblock_sectors : ℕ
superblock_sectors = 1

abbrev pub inode_map_sectors : ℕ
inode_map_sectors = 1

abbrev pub block_map_sectors : ℕ
block_map_sectors = 32

abbrev pub inode_table_sectors : ℕ
inode_table_sectors = 512

abbrev pub block_base : ℕ
block_base =
    fs_start_sector + superblock_sectors + inode_map_sectors + block_map_sectors
    + inode_table_sectors

abbrev pub superblock_magic : ℕ
superblock_magic = 3746317401

abbrev pub num_fdescs : ℕ
num_fdescs = 16

abbrev pub root_dir_block : ℕ
root_dir_block = 1

abbrev pub root_inode_num : ℕ
root_inode_num = 0

-- `DIRECT_BLOCK_NUM`, `INDIRECT_BLOCK_NUM` and `DOUBLE_INDIRECT_BLOCK_NUM`
abbrev pub direct_block_num : ℕ
direct_block_num = 10

abbrev pub indirect_block_num : ℕ
indirect_block_num = 1024

abbrev pub double_indirect_block_num : ℕ
double_indirect_block_num = 1048576

-- `FD_FILE` and `FD_DIR`
abbrev pub fd_file : ℕ
fd_file = 0

abbrev pub fd_dir : ℕ
fd_dir = 1

-- `superblock_t`
pub record Superblock : Type 0 where
  pub magic : ℕ
  pub fs_size : ℕ
  pub start_sector : ℕ
  pub block_size : ℕ
  pub inode_map_offset : ℕ
  pub block_map_offset : ℕ
  pub inode_offset : ℕ
  pub data_offset : ℕ
  pub inode_entry_size : ℕ
  pub dentry_size : ℕ

-- `inode_t`, 64 bytes
pub record Inode : Type 0 where
  pub mode : ℕ
  pub file_type : ℕ
  pub size : ℕ
  pub nlinks : ℕ
  pub direct_ptr : ℕ → ℕ
  pub indirect_ptr : ℕ
  pub double_indirect_ptr : ℕ

-- `dentry_t`, 20 bytes; `name` is the string up to its end.
pub record Dentry : Type 0 where
  pub name : List ℕ
  pub inode_num : ℕ

-- `fdesc_t`
pub record Fdesc : Type 0 where
  pub inode_num : ℕ
  pub mode : ℕ
  pub pos : ℕ
  pub used : ℕ

-- What the file system keeps. fs.h declares `static fdesc_t fdesc_array[NUM_FDESCS]`, so that each
-- file that includes it has a table of its own: `fdesc_array` is that of fs.c, `tools_fdesc_array`
-- that of fs_tools.c. `dir_inode` is the field of the current process.
pub record Fs (D : Type 0) : Type 0 where
  pub disk : D
  pub temp : ℕ → ℕ
  pub sb : Superblock
  pub sb_valid : Bool
  pub fdesc_array : ℕ → Fdesc
  pub tools_fdesc_array : ℕ → Fdesc
  pub dir_inode : ℕ

-- Functions that change the file system.
abbrev pub M : Type 0 → Type 0 → Type 0
M S A = S → A × S

-- `memcpy(dest, src, len)` into a buffer, and `memset`.
abbrev pub copy_into : (dest len : ℕ) → (src buf : ℕ → ℕ) → ℕ → ℕ
copy_into dest len src buf i = if leb dest i && ltb i (dest + len) then src (i - dest) else buf i

abbrev pub zeros : ℕ → ℕ
zeros i = 0

-- The bytes of a uint32_t, and the uint32_t at an offset: little endian.
abbrev pub byte_of : (w i : ℕ) → ℕ
byte_of w i =
    if i == 0
    then w % 256
    else if i == 1
    then w / 256 % 256
    else if i == 2
    then w / 65536 % 256
    else w / 16777216 % 256

abbrev pub word_at : (at : ℕ) → (ℕ → ℕ) → ℕ
word_at at b = b at + 256 * b (at + 1) + 65536 * b (at + 2) + 16777216 * b (at + 3)

abbrev pub dword_at : (at : ℕ) → (ℕ → ℕ) → ℕ
dword_at at b = word_at at b + u32 * word_at (at + 4) b

abbrev pub put_word : (at w : ℕ) → (ℕ → ℕ) → ℕ → ℕ
put_word at w b = copy_into at 4 (byte_of w) b

-- The sixteen words of an inode.
abbrev pub inode_word : Inode → ℕ → ℕ
inode_word n k =
    if k == 0
    then n.mode
    else if k == 1
    then n.file_type
    else if k == 2
    then n.size
    else if k == 3
    then n.nlinks
    else if ltb k 14
    then n.direct_ptr (k - 4)
    else if k == 14
    then n.indirect_ptr
    else n.double_indirect_ptr

abbrev pub inode_byte : Inode → ℕ → ℕ
inode_byte n i = byte_of (inode_word n (i / 4)) (i % 4)

abbrev pub inode_of : (ℕ → ℕ) → Inode
inode_of w = record {
  mode = w 0;
  file_type = w 1;
  size = w 2;
  nlinks = w 3;
  direct_ptr = λ i. w (i + 4);
  indirect_ptr = w 14;
  double_indirect_ptr = w 15;
}

abbrev pub inode_at : (at : ℕ) → (ℕ → ℕ) → Inode
inode_at at b = inode_of (λ k. word_at (at + 4 * k) b)

-- The ten uint64_t of a superblock.
abbrev pub superblock_at : (ℕ → ℕ) → Superblock
superblock_at b = record {
  magic = dword_at 0 b;
  fs_size = dword_at 8 b;
  start_sector = dword_at 16 b;
  block_size = dword_at 24 b;
  inode_map_offset = dword_at 32 b;
  block_map_offset = dword_at 40 b;
  inode_offset = dword_at 48 b;
  data_offset = dword_at 56 b;
  inode_entry_size = dword_at 64 b;
  dentry_size = dword_at 72 b;
}

abbrev pub superblock_word : Superblock → ℕ → ℕ
superblock_word s k =
    if k == 0
    then s.magic
    else if k == 1
    then s.fs_size
    else if k == 2
    then s.start_sector
    else if k == 3
    then s.block_size
    else if k == 4
    then s.inode_map_offset
    else if k == 5
    then s.block_map_offset
    else if k == 6
    then s.inode_offset
    else if k == 7
    then s.data_offset
    else if k == 8
    then s.inode_entry_size
    else s.dentry_size

abbrev pub superblock_byte : Superblock → ℕ → ℕ
superblock_byte s i =
    byte_of (superblock_word s (i / 8) / (if ltb (i % 8) 4 then 1 else u32)) (i % 4)

-- A string of at most 15 characters in a buffer, with its end.
abbrev pub put_text : (at : ℕ) → List ℕ → (ℕ → ℕ) → ℕ → ℕ
put_text at name b = copy_into at (length name + 1) (λ i. get_or name i 0) b

-- `dentries[j] = dentry`: the bytes behind the end of the name, which nothing reads, are left as
-- they were.
abbrev pub put_dentry : (at : ℕ) → Dentry → (ℕ → ℕ) → ℕ → ℕ
put_dentry at d b = put_word (at + 16) d.inode_num (put_text at d.name b)

-- `strcmp(buffer + at, name) == 0`, for a name without zeros.
abbrev pub same_at : (at : ℕ) → List ℕ → (ℕ → ℕ) → Bool
same_at at [] b = b at == 0
same_at at (c ∷ cs) b = (b at == c) && same_at (at + 1) cs b
