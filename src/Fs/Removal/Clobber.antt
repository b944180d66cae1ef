-- ===== src/Fs/Removal/Clobber.antt =====
-- What the removal of a file does to its block of indices, which stands in TEMP_BUF while
-- free_block reads the superblock there.
use risc_v_qemu_kernel.Prelude.{ℕ, suc, ◌+◌, ◌<◌, ◌≡◌, ◌≢◌, arith}
use risc_v_qemu_kernel.Fs.{Fs, fs_start_sector, word_at}
use risc_v_qemu_kernel.Fs.Words.{word_at-ext, copy_into-inside}
use risc_v_qemu_kernel.Fs.Card.{Card, read_sectors, read_sb}
use risc_v_qemu_kernel.Fs.Maps.{free_block, free_at}
use risc_v_qemu_kernel.Fs.Removal.{free_entries}

module _ (card : Card) where
  open card use {D}

  abbrev pub superblock_sector : Fs D → ℕ → ℕ
  superblock_sector fs = read_sectors card 1 fs_start_sector fs

  -- `free_block` leaves the sector of the superblock in TEMP_BUF.
  free_block-temp :
      (b i : ℕ) (fs : Fs D) → i < 512 → (free_block card b fs).temp i ≡ superblock_sector fs i
  unfolding free_block free_at read_sb
  free_block-temp b i fs h =
      copy_into-inside 0 512 i i (superblock_sector fs) fs.temp (omega arith) h

  free_block-word :
      (b k : ℕ) (fs : Fs D)
      → k < 508
      → word_at k (free_block card b fs).temp ≡ word_at k (superblock_sector fs)
  free_block-word b k fs h =
      word_at-ext k k (free_block card b fs).temp (superblock_sector fs)
        (λ j lt. free_block-temp b (k + j) fs (omega arith))

  -- A file whose block of indices has a first entry is removed on a card with the superblock of
  -- `do_mkfs`, whose second word is 0 and whose third is the number of sectors, 1048576: behind the
  -- first block of the file it is block 1048576 that is freed, whatever the second and the third
  -- entry are.
  pub free_entries-superblock :
      (n : ℕ) (fs : Fs D)
      → word_at 0 fs.temp ≢ 0
      → word_at 4 (superblock_sector fs) ≡ 0
      → word_at 8 (superblock_sector fs) ≡ 1048576
      → free_entries card (suc (suc (suc n))) 0 0 fs
        ≡ free_entries card n 3 0 (free_block card 1048576 (free_block card (word_at 0 fs.temp) fs))
  unfolding free_entries
  free_entries-superblock n fs first second third = ground (
    arith,
    first,
    free_block-word (word_at 0 fs.temp) 4 fs (omega arith),
    free_block-word (word_at 0 fs.temp) 8 fs (omega arith),
  )
