-- ===== src/Tests/Files.antt =====
-- Three bytes are written into the file of `Tests.Disk` behind its second byte, and read back.
use risc_v_qemu_kernel.Prelude.{ℕ, ◌+◌, ◌*◌, ◌<◌, ◌≡◌, ◌≢◌, refl, arith}
use risc_v_qemu_kernel.Prelude.Int.{pos}
use risc_v_qemu_kernel.Fs.{word_at, u32}
use risc_v_qemu_kernel.Fs.Card.{get_inode}
use risc_v_qemu_kernel.Fs.Inodes.{IsInode, inode_word-inode_of}
use risc_v_qemu_kernel.Fs.Files.{do_write}
use risc_v_qemu_kernel.Fs.Layout.{IsLaidOut}
use risc_v_qemu_kernel.Fs.Writing.{Saved, do_write_lem}
use risc_v_qemu_kernel.Tests.Disk.{bytes, raw, one_file}

raw_small : (a : ℕ) → raw a < 256
raw_small a = ground arith

word_small : (b : ℕ → ℕ) (at : ℕ) → ((i : ℕ) → b i < 256) → word_at at b < u32
word_small b at h = omega (arith, h at, h (at + 1), h (at + 2), h (at + 3))

words : IsInode (get_inode bytes 0 one_file)
unfolding get_inode
words k lt =
    let table = λ (i : ℕ). raw (536888320 + i) in
    let small = word_small table (0 + 4 * k) (λ i. raw_small (536888320 + i)) in
    omega (arith, inode_word-inode_of (λ m. word_at (0 + 4 * m) table) k lt, small)

layout : IsLaidOut 1 (get_inode bytes 0 one_file).direct_ptr
unfolding get_inode
layout = record {
  within = omega arith;
  present = λ l lt. only l lt (λ m. (get_inode bytes 0 one_file).direct_ptr m ≢ 0) (omega arith);
  small = λ l lt. only l lt (λ m. (get_inode bytes 0 one_file).direct_ptr m < 131072) (omega arith);
  apart = λ l m lt lt' ne. absurd (omega arith);
}
  where
    only : (l : ℕ) → l < 1 → (P : ℕ → Type 0) → P 0 → P l
    only l lt P h = let first : l ≡ 0 = omega arith in rw first h

do_write_lem_example :
    let (r, after) = do_write bytes (pos 4) (λ i. 65 + i) 3 one_file in
    (r ≡ pos 3)
    × (after.fdesc_array 4 ≡ record { inode_num = 0; mode = 3; pos = 5; used = 1 })
    × Saved bytes 1 0 3 2 (get_inode bytes 0 one_file) (λ i. 65 + i) one_file after
do_write_lem_example =
    do_write_lem bytes (pos 4) 4 1 3 (λ i. 65 + i) one_file refl (omega arith) (omega arith) words
      layout (omega arith)
