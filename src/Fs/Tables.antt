-- ===== src/Fs/Tables.antt =====
-- What works on the card keeps the tables of open files and the current directory.
use risc_v_qemu_kernel.Prelude.{ℕ, zero, suc, ◌+◌, ◌-◌, ◌/◌, ◌%◌, ◌≡◌, refl, ◌∙◌, Bool, arith}
use risc_v_qemu_kernel.Fs.{Fs, Fdesc, Inode, direct_block_num, indirect_block_num}
use risc_v_qemu_kernel.Fs.Card.{Card, read_sb, ensure_sb, read_block, write_block, write_inode}
use risc_v_qemu_kernel.Fs.Maps.{alloc_bit, alloc_block, alloc_inode}
use risc_v_qemu_kernel.Fs.Blocks.{
  direct_block, new_block, index_entry, indirect_block, two_levels, double_indirect_block,
  get_physical_block_id, set_temp_word, temp_word,
}

-- The two tables and the directory.
abbrev pub tables : {D : Type 0} → Fs D → (ℕ → Fdesc) × (ℕ → Fdesc) × ℕ
tables fs = (fs.fdesc_array, fs.tools_fdesc_array, fs.dir_inode)

module _ (card : Card) where
  open card use {D}

  ensure_sb-tables : (fs : Fs D) → tables (ensure_sb card fs) ≡ tables fs
  unfolding ensure_sb read_sb
  ensure_sb-tables fs = ground arith

  alloc_bit-tables :
      (n i start : ℕ) (fs : Fs D) → tables (alloc_bit card n i start fs).1 ≡ tables fs
  unfolding alloc_bit
  alloc_bit-tables zero i start fs = refl
  alloc_bit-tables (suc n) i start fs = ground (arith, alloc_bit-tables n (i + 1) start fs)

  alloc_block-tables : (fs : Fs D) → tables (alloc_block card fs).1 ≡ tables fs
  unfolding alloc_block
  alloc_block-tables fs = alloc_bit-tables 32 0 _ (ensure_sb card fs) ∙ ensure_sb-tables fs

  pub alloc_inode-tables : (fs : Fs D) → tables (alloc_inode card fs).1 ≡ tables fs
  unfolding alloc_inode
  alloc_inode-tables fs = alloc_bit-tables 1 0 _ (ensure_sb card fs) ∙ ensure_sb-tables fs

  direct_block-tables :
      (node : Inode) (n l : ℕ) (alloc : Bool) (fs : Fs D)
      → tables (direct_block card node n l alloc fs).1 ≡ tables fs
  unfolding direct_block write_inode
  direct_block-tables node n l alloc fs = ground (arith, alloc_block-tables fs)

  new_block-tables : (at : ℕ) (fs : Fs D) → tables (new_block card at fs).1 ≡ tables fs
  unfolding new_block write_block
  new_block-tables at fs = ground (arith, alloc_block-tables fs)

  index_entry-tables :
      (block i : ℕ) (alloc : Bool) (fs : Fs D)
      → tables (index_entry card block i alloc fs).1 ≡ tables fs
  unfolding index_entry write_block read_block
  index_entry-tables block i alloc fs =
      ground (arith, alloc_block-tables (read_block card block 0 fs))

  indirect_block-tables :
      (node : Inode) (n l : ℕ) (alloc : Bool) (fs : Fs D)
      → tables (indirect_block card node n l alloc fs).1 ≡ tables fs
  unfolding indirect_block write_inode
  indirect_block-tables node n l alloc fs =
      let (b, after) = new_block card 0 fs in
      ground (
        arith,
        new_block-tables 0 fs,
        index_entry-tables b l alloc (write_inode card n (record node { indirect_ptr = b }) after),
        index_entry-tables node.indirect_ptr l alloc fs,
      )

  two_levels-tables :
      (block first second : ℕ) (alloc : Bool) (fs : Fs D)
      → tables (two_levels card block first second alloc fs).1 ≡ tables fs
  unfolding two_levels read_block write_block
  two_levels-tables block first second alloc fs =
      let loaded = read_block card block 0 fs in
      let (b, after) = new_block card 4096 loaded in
      let linked = write_block card block 0 (set_temp_word first b after) in
      ground (
        arith,
        new_block-tables 4096 loaded,
        index_entry-tables (temp_word first linked) second alloc linked,
        index_entry-tables (temp_word first loaded) second alloc loaded,
      )

  double_indirect_block-tables :
      (node : Inode) (n l : ℕ) (alloc : Bool) (fs : Fs D)
      → tables (double_indirect_block card node n l alloc fs).1 ≡ tables fs
  unfolding double_indirect_block write_inode
  double_indirect_block-tables node n l alloc fs =
      let (b, after) = new_block card 0 fs in
      let made = write_inode card n (record node { double_indirect_ptr = b }) after in
      ground (
        arith,
        new_block-tables 0 fs,
        two_levels-tables b (l / indirect_block_num) (l % indirect_block_num) alloc made,
        two_levels-tables node.double_indirect_ptr (l / indirect_block_num) (l % indirect_block_num)
            alloc fs,
      )

  pub get_physical_block_id-tables :
      (node : Inode) (n l : ℕ) (alloc : Bool) (fs : Fs D)
      → tables (get_physical_block_id card node n l alloc fs).1 ≡ tables fs
  unfolding get_physical_block_id
  get_physical_block_id-tables node n l alloc fs =
      let behind = l - direct_block_num in
      ground (
        arith,
        direct_block-tables node n l alloc fs,
        indirect_block-tables node n behind alloc fs,
        double_indirect_block-tables node n (behind - indirect_block_num) alloc fs,
      )
