-- ===== src/Fs/Reading.antt =====
-- do_read of kernel/fs/fs.c: the bytes that it returns are those of the file.
use risc_v_qemu_kernel.Prelude.{
  ℕ, ◌+◌, ◌-◌, ◌/◌, ◌%◌, ◌≤◌, ◌<◌, ◌≡◌, ◌≢◌, refl, ◌&&◌, leb, ltb, if◌then◌else◌, arith,
}
use risc_v_qemu_kernel.Prelude.Int.{pos}
use risc_v_qemu_kernel.Fs.{Fs, Inode, minus_one, block_size}
use risc_v_qemu_kernel.Fs.Card.{Card, read_block}
use risc_v_qemu_kernel.Fs.Files.{bytes_to_copy}
use risc_v_qemu_kernel.Fs.Lookup.{lookup, block_bytes}

pub bytes_to_copy_bounds :
    (left p : ℕ)
    → 0 < left
    → (0 < bytes_to_copy left p)
      × (bytes_to_copy left p ≤ left)
      × (p % 4096 + bytes_to_copy left p ≤ 4096)
bytes_to_copy_bounds left p h = ground arith

module _ (card : Card) where
  open card use {D}

  -- The byte `p` of a file.
  abbrev pub file_byte : Inode → (p : ℕ) → D → ℕ
  file_byte inode p d = block_bytes card (lookup card inode (p / block_size) d) d (p % block_size)

  -- The bytes from `lo` to `hi` of a buffer are those of the file from `p` on, and the others are
  -- as before.
  abbrev pub Filled : (lo hi p : ℕ) → Inode → D → (buff buff' : ℕ → ℕ) → Type 0
  Filled lo hi p inode d buff buff' =
      (j : ℕ)
      → buff' j ≡ (if leb lo j && ltb j hi then file_byte inode (p + (j - lo)) d else buff j)

  -- Every block of the range has a place on the card, or is a hole.
  abbrev pub Mapped : (lo hi : ℕ) → Inode → D → Type 0
  Mapped lo hi inode d =
      (p : ℕ) → lo ≤ p → p < hi → lookup card inode (p / block_size) d ≢ minus_one

  abbrev pub Read : (fd length done p : ℕ) → Inode → (ℕ → ℕ) → Fs D → (ℕ × (ℕ → ℕ)) × Fs D → Type 0
  Read fd length done p inode buff fs r =
      (r.0.0 ≡ length)
      × Filled done length p inode fs.disk buff r.0.1
      × ((r.1.fdesc_array fd).pos ≡ p + (length - done))
      × (r.1.disk ≡ fs.disk)

  fdescs-read_block : (b : ℕ) (fs : Fs D) → (read_block card b 0 fs).fdesc_array ≡ fs.fdesc_array
  fdescs-read_block b fs = unfold read_block in refl
