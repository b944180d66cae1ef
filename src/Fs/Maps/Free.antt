-- ===== src/Fs/Maps/Free.antt =====
-- free_inode and free_block: one bit of a map is cleared.
use risc_v_qemu_kernel.Prelude.{
  ℕ, ◌+◌, ◌*◌, ◌/◌, ◌%◌, ◌<◌, ◌≡◌, ◌∙◌, refl, false, ◌==◌, if◌then◌else◌, arith, Bool-cases, inl,
  inr, update,
}
use risc_v_qemu_kernel.Fs.{Fs, u32}
use risc_v_qemu_kernel.Fs.Card.{Card, read_sb, read_sectors}
use risc_v_qemu_kernel.Fs.Maps.{clear_bit, free_at, free_block, block_map}
use risc_v_qemu_kernel.Fs.Maps.Bits.{sector_bit-clear_bit}
use risc_v_qemu_kernel.Fs.Maps.Alloc.{map_bit, map_bit-write}

sector_index : (num : ℕ) → num / (512 * 8) ≡ num / 4096
sector_index num = omega arith

bit_index : (num : ℕ) → num % 8 ≡ num % 4096 % 8
bit_index num = omega arith

whole :
    (x num : ℕ) → x / 4096 ≡ num / 4096 → (x % 4096 == num % 4096 / 8 * 8 + num % 8) ≡ (x == num)
whole x num e = ground arith

other_sector : (x num : ℕ) → (x / 4096 == num / 4096) ≡ false → (x == num) ≡ false
other_sector x num e = ground arith

module _ (card : Card) where
  open card use {D}

  pub free_at_lem :
      (start num x : ℕ) (fs : Fs D)
      → start + num / 4096 < u32
      → start + x / 4096 < u32
      → map_bit card start x (free_at card start num fs)
        ≡ (if x == num then false else map_bit card start x fs)
  unfolding free_at
  free_at_lem start num x fs hn hx =
      map_bit-write card start (num / 4096) x
        (update (read_sectors card 1 (start + num / 4096) fs) (num % 4096 / 8)
          (clear_bit (num % 8) (read_sectors card 1 (start + num / 4096) fs (num % 4096 / 8))))
        fs hn hx
      ∙ elim (Bool-cases (x / 4096 == num / 4096)) [
        | inl same ↦
            let at : x / 4096 ≡ num / 4096 = ground arith in
            rw (same, ← whole x num at, at)
              (sector_bit-clear_bit (x % 4096) (num % 4096 / 8) (num % 8)
                (read_sectors card 1 (start + num / 4096) fs) (omega arith))
        | inr other ↦ rw (other, other_sector x num other) refl
      ]

  -- `free_block` clears the bit of the block, in the map that the superblock on the card names, and
  -- no other.
  pub free_block_lem :
      (num x : ℕ) (fs : Fs D)
      → let start = block_map card (read_sb card fs) in
        start + num / 4096 < u32
        → start + x / 4096 < u32
        → map_bit card start x (free_block card num fs)
          ≡ (if x == num then false else map_bit card start x fs)
  unfolding free_block
  free_block_lem num x fs hn hx =
      free_at_lem (block_map card (read_sb card fs)) num x (read_sb card fs) hn hx
      ∙ unfold read_sb in refl
