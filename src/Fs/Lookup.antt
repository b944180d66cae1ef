-- ===== src/Fs/Lookup.antt =====
-- Which block of the card holds a block of a file: get_physical_block_id without allocation, against a
-- description that only reads the card.
use risc_v_qemu_kernel.Prelude.{
  ℕ, ◌+◌, ◌-◌, ◌*◌, ◌/◌, ◌%◌, ◌<◌, ◌≡◌, refl, ap, false, ltb, ◌==◌, if◌then◌else◌, arith,
}
use risc_v_qemu_kernel.Fs.{
  Fs, Inode, u32, minus_one, direct_block_num, indirect_block_num, double_indirect_block_num,
  word_at,
}
use risc_v_qemu_kernel.Fs.Words.{word_at-ext, copy_into-inside}
use risc_v_qemu_kernel.Fs.Card.{Card, block_sector, read_block}
use risc_v_qemu_kernel.Fs.Blocks.{
  direct_block, index_entry, indirect_block, two_levels, double_indirect_block,
  get_physical_block_id,
}

module _ (card : Card) where
  open card use {D, sd_read}

  -- The bytes of a block, and entry `i` of a block of indices.
  abbrev pub block_bytes : (block : ℕ) → D → ℕ → ℕ
  block_bytes block d = sd_read 8 (block_sector card block % u32) d

  abbrev pub index_word : (block i : ℕ) → D → ℕ
  index_word block i d = word_at (4 * i) (block_bytes block d)

  -- A missing block of indices has no entries.
  abbrev pub entry_of : (block i : ℕ) → D → ℕ
  entry_of block i d = if block == 0 then 0 else index_word block i d

  -- The block on the card for block `l` of the file; 0 if there is none.
  unfoldable pub lookup : Inode → (l : ℕ) → D → ℕ
  lookup node l d =
      let behind = l - direct_block_num in
      let farther = behind - indirect_block_num in
      if ltb l direct_block_num
      then node.direct_ptr l
      else if ltb behind indirect_block_num
      then entry_of node.indirect_ptr behind d
      else if ltb farther double_indirect_block_num
      then entry_of (entry_of node.double_indirect_ptr (farther / indirect_block_num) d)
          (farther % indirect_block_num) d
      else minus_one

  pub temp-read_block :
      (block i : ℕ) (fs : Fs D)
      → i < 4096
      → (read_block card block 0 fs).temp i ≡ block_bytes block fs.disk i
  unfolding read_block
  temp-read_block block i fs h =
      copy_into-inside 0 4096 i i (block_bytes block fs.disk) fs.temp (omega arith) h

  word-read_block :
      (block i : ℕ) (fs : Fs D)
      → i < 1024
      → word_at (4 * i) (read_block card block 0 fs).temp ≡ index_word block i fs.disk
  word-read_block block i fs h =
      word_at-ext (4 * i) (4 * i) (read_block card block 0 fs).temp (block_bytes block fs.disk)
        (λ j lt. temp-read_block block (4 * i + j) fs (omega arith))

  -- What a search gives: a block, the inode as it was, and the card as it was.
  abbrev pub Found : ℕ → Inode → Fs D → (ℕ × Inode) × Fs D → Type 0
  Found b node fs r = (r.0.0 ≡ b) × (r.0.1 ≡ node) × (r.1.disk ≡ fs.disk)

  index_entry-read :
      (block i : ℕ) (fs : Fs D)
      → i < 1024
      → let (e, after) = index_entry card block i false fs in
        (e ≡ index_word block i fs.disk) × (after.disk ≡ fs.disk)
  unfolding index_entry
  index_entry-read block i fs h =
      ground (arith, word-read_block block i fs h, disk-read_block block fs)
    where
      disk-read_block : (block : ℕ) (fs : Fs D) → (read_block card block 0 fs).disk ≡ fs.disk
      disk-read_block block fs = unfold read_block in refl

  two_levels-read :
      (block first second : ℕ) (fs : Fs D)
      → first < 1024
      → second < 1024
      → let (e, after) = two_levels card block first second false fs in
        (e ≡ entry_of (index_word block first fs.disk) second fs.disk) × (after.disk ≡ fs.disk)
  unfolding two_levels
  two_levels-read block first second fs h k =
      let loaded = read_block card block 0 fs in
      let same : loaded.disk ≡ fs.disk = unfold read_block in refl in
      let w = index_word block first fs.disk in
      let inner = index_entry-read (word_at (4 * first) loaded.temp) second loaded k in
      ground (
        arith,
        word-read_block block first fs h,
        same,
        inner,
        ap (λ d. index_word w second d) same,
        ap (λ v. index_word v second loaded.disk) (word-read_block block first fs h),
      )

  -- Without allocation `get_physical_block_id` returns the block that the card names, and changes
  -- neither the inode nor the card.
  pub get_physical_block_id-lookup :
      (node : Inode) (n l : ℕ) (fs : Fs D)
      → Found (lookup node l fs.disk) node fs (get_physical_block_id card node n l false fs)
  unfolding get_physical_block_id lookup direct_block indirect_block double_indirect_block
  get_physical_block_id-lookup node n l fs =
      let behind = l - direct_block_num in
      let farther = behind - indirect_block_num in
      ground (
        arith,
        index_entry-read node.indirect_ptr behind fs,
        two_levels-read node.double_indirect_ptr (farther / indirect_block_num)
            (farther % indirect_block_num) fs,
      )
