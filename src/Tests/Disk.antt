-- ===== src/Tests/Disk.antt =====
-- The file system on a card of bytes with one file of five bytes, open for reading and writing.
use risc_v_qemu_kernel.Prelude.{
  ℕ, ◌+◌, ◌-◌, ◌*◌, ◌<◌, ◌≡◌, ◌≢◌, refl, true, false, ◌&&◌, ◌||◌, leb, ltb, ◌==◌, if◌then◌else◌,
  arith, [], ◌∷◌,
}
use risc_v_qemu_kernel.Prelude.Int.{pos}
use risc_v_qemu_kernel.Fs.{Fs, Inode, block_map_sectors, inode_of}
use risc_v_qemu_kernel.Fs.Card.{Card, get_inode, write_inode, read_sb}
use risc_v_qemu_kernel.Fs.Inodes.{IsInode, SameInode, get_inode-write_inode, num_inodes}
use risc_v_qemu_kernel.Fs.Maps.{alloc_block, free_block}
use risc_v_qemu_kernel.Fs.Maps.Alloc.{Allocated, map_bit, alloc_block_lem}
use risc_v_qemu_kernel.Fs.Maps.Free.{free_block_lem}
use risc_v_qemu_kernel.Fs.Blocks.{get_physical_block_id}
use risc_v_qemu_kernel.Fs.Lookup.{lookup, Found, get_physical_block_id-lookup}
use risc_v_qemu_kernel.Fs.Dirs.{do_open}
use risc_v_qemu_kernel.Fs.Opening.{Opened, do_open-Opened}
use risc_v_qemu_kernel.Fs.Removal.{free_entries}
use risc_v_qemu_kernel.Fs.Removal.Clobber.{free_entries-superblock}

-- A card of bytes.
abbrev pub bytes : Card
bytes = record {
  D = ℕ → ℕ;
  sd_read = λ n f d i. d (512 * f + i);
  sd_write = λ n f b d a. if leb (512 * f) a && ltb a (512 * (f + n)) then b (a - 512 * f) else d a;
  read-write = λ n f b d m g i lt. refl;
}

-- The superblock of do_mkfs, as far as it is used; inode 0 has the size 5 and the block 1, which is
-- full of 97.
abbrev pub raw : ℕ → ℕ
raw a =
    if (a == 536870922) || (a == 536870930)
    then 16
    else if a == 536870952
    then 2
    else if a == 536888328
    then 5
    else if a == 536888336
    then 1
    else if leb 537154560 a
    then 97
    else 0

abbrev pub one_file : Fs (ℕ → ℕ)
one_file = record {
  disk = raw;
  temp = λ i. if i == 0 then 7 else 0;
  sb = record {
    magic = 0;
    fs_size = 0;
    start_sector = 1048576;
    block_size = 4096;
    inode_map_offset = 1;
    block_map_offset = 2;
    inode_offset = 34;
    data_offset = 546;
    inode_entry_size = 64;
    dentry_size = 20;
  };
  sb_valid = true;
  fdesc_array = λ i. record { inode_num = 0; mode = 3; pos = 2; used = 1 };
  tools_fdesc_array = λ i. record { inode_num = 0; mode = 0; pos = 0; used = 0 };
  dir_inode = 0;
}

abbrev file_inode : Inode
file_inode = inode_of (λ k. k)

get_inode-write_inode_example :
    let after = write_inode bytes 9 file_inode one_file in
    SameInode (get_inode bytes 9 after) file_inode
    × ((m : ℕ)
        → m < num_inodes
        → m ≢ 9
        → SameInode (get_inode bytes m after) (get_inode bytes m one_file))
get_inode-write_inode_example =
    get_inode-write_inode bytes 9 file_inode one_file small (omega arith)
  where
    small : IsInode file_inode
    small k lt = ground arith

alloc_block_lem_example :
    let (r, after) = alloc_block bytes one_file in
    Allocated bytes block_map_sectors 0 1048578 one_file r after
alloc_block_lem_example = alloc_block_lem bytes one_file refl (omega arith)

free_block_lem_holds : map_bit bytes 1048578 5 (free_block bytes 5 one_file) ≡ false
free_block_lem_holds =
    unfold read_sb in free_block_lem bytes 5 5 one_file (omega arith) (omega arith)

get_physical_block_id-lookup_example :
    Found bytes
      (lookup bytes file_inode 3 raw)
      file_inode
      one_file
      (get_physical_block_id bytes file_inode 9 3 false one_file)
get_physical_block_id-lookup_example = get_physical_block_id-lookup bytes file_inode 9 3 one_file

do_open-Opened_example :
    let (fd, after) = do_open bytes (47 ∷ 97 ∷ []) 3 one_file in Opened bytes 3 one_file fd after
do_open-Opened_example = do_open-Opened bytes (47 ∷ 97 ∷ []) 3 one_file refl

free_entries-superblock_example :
    free_entries bytes 1024 0 0 one_file
    ≡ free_entries bytes 1021 3 0 (free_block bytes 1048576 (free_block bytes 7 one_file))
free_entries-superblock_example =
    free_entries-superblock bytes 1021 one_file (omega arith) refl refl
