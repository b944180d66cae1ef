-- ===== src/Fs/Blocks.antt =====
-- The blocks of a file: get_physical_block_id of kernel/fs/fs_tools.c. The inode that it may change is
-- returned beside its result.
use risc_v_qemu_kernel.Prelude.{ℕ, ◌-◌, ◌*◌, ◌/◌, ◌%◌, Bool, ◌&&◌, ltb, ◌==◌, if◌then◌else◌, update}
use risc_v_qemu_kernel.Fs.{
  Fs, Inode, M, minus_one, direct_block_num, indirect_block_num, double_indirect_block_num, word_at,
  put_word, copy_into, zeros,
}
use risc_v_qemu_kernel.Fs.Card.{Card, read_block, write_block, write_inode}
use risc_v_qemu_kernel.Fs.Maps.{alloc_block}

-- `memset(TEMP_BUF + at, 0, BLOCK_SIZE)`, and the word `i` of TEMP_BUF.
abbrev pub clear_temp : {D : Type 0} → ℕ → Fs D → Fs D
clear_temp at fs = record fs { temp = copy_into at 4096 zeros fs.temp }

abbrev pub temp_word : {D : Type 0} → ℕ → Fs D → ℕ
temp_word i fs = word_at (4 * i) fs.temp

abbrev pub set_temp_word : {D : Type 0} → (i w : ℕ) → Fs D → Fs D
set_temp_word i w fs = record fs { temp = put_word (4 * i) w fs.temp }

module _ (card : Card) where
  open card use {D}

  unfoldable pub direct_block : Inode → (inode_num logical_id : ℕ) → Bool → M (Fs D) (ℕ × Inode)
  direct_block node inode_num l alloc fs =
      if (node.direct_ptr l == 0) && alloc
      then (let (b, after) = alloc_block card fs in
          let given = record node { direct_ptr = update node.direct_ptr l b } in
          if b == minus_one
          then ((minus_one, given), after)
          else ((b, given), write_inode card inode_num given after))
      else ((node.direct_ptr l, node), fs)

  -- A new block of zeros, through TEMP_BUF + at; none if the disk is full.
  unfoldable pub new_block : (at : ℕ) → M (Fs D) ℕ
  new_block at fs =
      let (b, after) = alloc_block card fs in
      if b == minus_one then (b, after) else (b, write_block card b at (clear_temp at after))

  -- The entry `i` of the block of indices `block`, which is filled if it is empty: what is returned
  -- is the word of TEMP_BUF.
  unfoldable pub index_entry : (block i : ℕ) → Bool → M (Fs D) ℕ
  index_entry block i alloc fs =
      let loaded = read_block card block 0 fs in
      if (temp_word i loaded == 0) && alloc
      then (let (b, after) = alloc_block card loaded in
          let stored = set_temp_word i b after in
          if b == minus_one then (minus_one, stored) else (b, write_block card block 0 stored))
      else (temp_word i loaded, loaded)

  unfoldable pub indirect_block : Inode → (inode_num l : ℕ) → Bool → M (Fs D) (ℕ × Inode)
  indirect_block node inode_num l alloc fs =
      if node.indirect_ptr == 0
      then (if alloc
          then (let (b, after) = new_block 0 fs in
              let given = record node { indirect_ptr = b } in
              let (e, done) = index_entry b l alloc (write_inode card inode_num given after) in
              if b == minus_one then ((minus_one, given), after) else ((e, given), done))
          else ((0, node), fs))
      else (let (e, after) = index_entry node.indirect_ptr l alloc fs in ((e, node), after))

  -- The entry `first` of the first level, which gets a block of its own, through TEMP_BUF +
  -- BLOCK_SIZE; then the entry `second` of that block.
  unfoldable pub two_levels : (block first second : ℕ) → Bool → M (Fs D) ℕ
  two_levels block first second alloc fs =
      let loaded = read_block card block 0 fs in
      if temp_word first loaded == 0
      then (if alloc
          then (let (b, after) = new_block 4096 loaded in
              let linked = write_block card block 0 (set_temp_word first b after) in
              if b == minus_one
              then (minus_one, after)
              else index_entry (temp_word first linked) second alloc linked)
          else (0, loaded))
      else index_entry (temp_word first loaded) second alloc loaded

  unfoldable pub double_indirect_block : Inode → (inode_num l : ℕ) → Bool → M (Fs D) (ℕ × Inode)
  double_indirect_block node inode_num l alloc fs =
      let first = l / indirect_block_num in
      let second = l % indirect_block_num in
      if node.double_indirect_ptr == 0
      then (if alloc
          then (let (b, after) = new_block 0 fs in
              let given = record node { double_indirect_ptr = b } in
              let (e, done) =
                two_levels b first second alloc (write_inode card inode_num given after) in
              if b == minus_one then ((minus_one, given), after) else ((e, given), done))
          else ((0, node), fs))
      else (let (e, after) = two_levels node.double_indirect_ptr first second alloc fs in
          ((e, node), after))

  unfoldable pub get_physical_block_id :
      Inode → (inode_num logical_id : ℕ) → Bool → M (Fs D) (ℕ × Inode)
  get_physical_block_id node inode_num logical_id alloc fs =
      let behind = logical_id - direct_block_num in
      let farther = behind - indirect_block_num in
      if ltb logical_id direct_block_num
      then direct_block node inode_num logical_id alloc fs
      else if ltb behind indirect_block_num
      then indirect_block node inode_num behind alloc fs
      else if ltb farther double_indirect_block_num
      then double_indirect_block node inode_num farther alloc fs
      else ((minus_one, node), fs)
