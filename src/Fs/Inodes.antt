-- ===== src/Fs/Inodes.antt =====
-- The table of inodes: get_inode and write_inode of kernel/fs/fs_tools.c.
use risc_v_qemu_kernel.Prelude.{
  ℕ, ◌+◌, ◌*◌, ◌/◌, ◌%◌, ◌≤◌, ◌<◌, ◌≡◌, ◌≢◌, ◌∙◌, ◌⊎◌, inl, inr, arith, ap, sym, ◌==◌, Bool-cases,
  ==_iff,
}
use risc_v_qemu_kernel.Fs.{Fs, Inode, u32, word_at, copy_into, inode_of, inode_word, inode_byte}
use risc_v_qemu_kernel.Fs.Words.{word_at-ext, word-copy, copy_into-outside}
use risc_v_qemu_kernel.Fs.Card.{Card, get_inode, write_inode, read_sectors, inode_sector}
use risc_v_qemu_kernel.Fs.Transfers.{read-write_same, read-write_apart}

-- `NUM_INODES`
abbrev pub num_inodes : ℕ
num_inodes = 4096

-- The words of an inode are uint32_t.
abbrev pub IsInode : Inode → Type 0
IsInode n = (k : ℕ) → k < 16 → inode_word n k < u32

abbrev pub SameInode : Inode → Inode → Type 0
SameInode m n = (k : ℕ) → k < 16 → inode_word m k ≡ inode_word n k

pub inode_word-inode_of : (w : ℕ → ℕ) (k : ℕ) → k < 16 → inode_word (inode_of w) k ≡ w k
inode_word-inode_of w k h = ground arith

+_assoc : (a b c : ℕ) → a + b + c ≡ a + (b + c)
+_assoc a b c = omega arith

-- The sectors of two inodes are the same, or not.
sectors :
    (n m : ℕ)
    → m ≢ n
    → (((1048610 + m * 64 / 512) % u32 ≡ (1048610 + n * 64 / 512) % u32) × (m % 8 ≢ n % 8))
      ⊎ (m / 8 ≢ n / 8)
sectors n m ne = elim (Bool-cases (m / 8 == n / 8)) [
  | inl e ↦ let q : m / 8 ≡ n / 8 = ground arith in inl (omega arith, λ r. ne (omega arith))
  | inr e ↦ inr (λ q. cc (e, (==_iff (m / 8) (n / 8)).1 q))
]

slots :
    (n m o : ℕ)
    → m % 8 ≢ n % 8
    → o < 64
    → (m * 64 % 512 + o < n * 64 % 512) ⊎ (n * 64 % 512 + 64 ≤ m * 64 % 512 + o)
slots n m o ne h = omega arith

apart :
    (n m : ℕ)
    → n < num_inodes
    → m < num_inodes
    → m / 8 ≢ n / 8
    → ((1048610 + n * 64 / 512) % u32 + 1 ≤ (1048610 + m * 64 / 512) % u32)
      ⊎ ((1048610 + m * 64 / 512) % u32 + 1 ≤ (1048610 + n * 64 / 512) % u32)
apart n m hn hm ne = omega arith

module _ (card : Card) where
  open card use {D}

  inode_word-get_inode :
      (n k : ℕ) (fs : Fs D)
      → k < 16
      → inode_word (get_inode card n fs) k
        ≡ word_at (n * 64 % 512 + 4 * k) (read_sectors card 1 (inode_sector card n) fs)
  unfolding get_inode
  inode_word-get_inode n k fs h =
      inode_word-inode_of
        (λ j. word_at (n * 64 % 512 + 4 * j) (read_sectors card 1 (inode_sector card n) fs)) k h

  table_sector : ℕ → Fs D → ℕ → ℕ
  table_sector n fs = read_sectors card 1 (inode_sector card n) fs

  -- The bytes of another inode are as before, in the same sector or in another.
  table_sector-write_inode :
      (n m o : ℕ) (node : Inode) (fs : Fs D)
      → n < num_inodes
      → m < num_inodes
      → m ≢ n
      → o < 64
      → table_sector m (write_inode card n node fs) (m * 64 % 512 + o)
        ≡ table_sector m fs (m * 64 % 512 + o)
  unfolding table_sector write_inode
  table_sector-write_inode n m o node fs hn hm ne lt = elim (sectors n m ne) [
    | inl e ↦
        ap (λ s. card.sd_read 1 s (write_inode card n node fs).disk (m * 64 % 512 + o)) (e.0)
        ∙ read-write_same card 1 (inode_sector card n % u32) (m * 64 % 512 + o) _ fs.disk
            (omega arith)
        ∙ copy_into-outside (n * 64 % 512) 64 (m * 64 % 512 + o) (inode_byte node)
            (table_sector n fs) (slots n m o e.1 lt)
        ∙ ap (λ s. card.sd_read 1 s fs.disk (m * 64 % 512 + o)) (sym e.0)
    | inr e ↦
        read-write_apart card 1 (inode_sector card n % u32) 1 (inode_sector card m % u32)
          (m * 64 % 512 + o) _ fs.disk (apart n m hn hm e) (omega arith)
  ]

  -- An inode with a number below 4096 and words of 32 bits that is written is read back, word for
  -- word; and no other inode changes.
  pub get_inode-write_inode :
      (n : ℕ) (node : Inode) (fs : Fs D)
      → IsInode node
      → n < num_inodes
      → let after = write_inode card n node fs in
        SameInode (get_inode card n after) node
        × ((m : ℕ)
            → m < num_inodes
            → m ≢ n
            → SameInode (get_inode card m after) (get_inode card m fs))
  unfolding table_sector write_inode
  get_inode-write_inode n node fs v hn = (
    λ k lt.
        inode_word-get_inode n k (write_inode card n node fs) lt
        ∙ word_at-ext (n * 64 % 512 + 4 * k) (n * 64 % 512 + 4 * k)
            (table_sector n (write_inode card n node fs))
            (copy_into (n * 64 % 512) 64 (inode_byte node) (table_sector n fs))
            (λ j lt4.
              read-write_same card 1 (inode_sector card n % u32) (n * 64 % 512 + 4 * k + j)
                (copy_into (n * 64 % 512) 64 (inode_byte node) (table_sector n fs)) fs.disk
                (omega arith))
        ∙ word-copy (n * 64 % 512) 64 k (inode_word node) (table_sector n fs) (v k lt)
            (omega arith),
    λ m hm ne k lt.
        inode_word-get_inode m k (write_inode card n node fs) lt
        ∙ word_at-ext (m * 64 % 512 + 4 * k) (m * 64 % 512 + 4 * k)
            (table_sector m (write_inode card n node fs)) (table_sector m fs)
            (λ j lt4.
              rw (+_assoc (m * 64 % 512) (4 * k) j)
                (table_sector-write_inode n m (4 * k + j) node fs hn hm ne (omega arith)))
        ∙ sym (inode_word-get_inode m k fs lt),
  )
