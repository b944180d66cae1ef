-- ===== src/Fs/Writing.antt =====
-- do_write of kernel/fs/fs.c, on the blocks that an inode names itself: what it leaves on the card.
use mathlib.Core.Path.{subst}
use risc_v_qemu_kernel.Prelude.{
  ℕ, suc, ◌+◌, ◌-◌, ◌*◌, ◌/◌, ◌%◌, ◌≤◌, ◌<◌, ◌≡◌, ◌≢◌, refl, ◌∙◌, ap, sym, false, some, ◌&&◌, leb,
  ltb, ◌==◌, if◌then◌else◌, arith, Bool-cases, inl, inr,
}
use risc_v_qemu_kernel.Prelude.Int.{ℤ, pos}
use risc_v_qemu_kernel.Fs.{Fs, Inode, u32}
use risc_v_qemu_kernel.Fs.Card.{Card, block_sector, get_inode, write_inode, inode_sector}
use risc_v_qemu_kernel.Fs.Transfers.{read-write_apart}
use risc_v_qemu_kernel.Fs.Inodes.{IsInode, SameInode, get_inode-write_inode, num_inodes}
use risc_v_qemu_kernel.Fs.Files.{write_loop, do_write, open_file, o_rdonly}
use risc_v_qemu_kernel.Fs.Lookup.{block_bytes}
use risc_v_qemu_kernel.Fs.Reading.{file_byte}
use risc_v_qemu_kernel.Fs.Layout.{IsLaidOut, data_byte, file_byte-data_byte}
use risc_v_qemu_kernel.Fs.WriteLoop.{grown, Wrote, write_loop_lem}

from_start :
    (length p q : ℕ) (buff : ℕ → ℕ) (old old' : ℕ)
    → old ≡ old'
    → (if leb p q && ltb q (p + (length - 0)) then buff (0 + (q - p)) else old)
      ≡ (if leb p q && ltb q (p + length) then buff (q - p) else old')
from_start length p q buff old old' e = ground (arith, e, ap buff (same (q - p)))
  where
    same : (x : ℕ) → 0 + x ≡ x
    same x = omega arith

grown-IsInode :
    (inode : Inode) (size : ℕ) → size < u32 → IsInode inode → IsInode (record inode { size = size })
grown-IsInode inode size h v k lt = elim (Bool-cases (k == 2)) [
  | inl at ↦ ground arith
  | inr other ↦ ground (arith, v k lt)
]

direct_word : (m n : Inode) → SameInode m n → (l : ℕ) → l < 10 → m.direct_ptr l ≡ n.direct_ptr l
direct_word m n same l h =
    ap m.direct_ptr (back l)
    ∙ ground (arith, same (l + 4) (omega arith))
    ∙ ap n.direct_ptr (sym (back l))
  where
    back : (l : ℕ) → l ≡ l + 4 - 4
    back l = omega arith

module _ (card : Card) where
  open card use {D}

  block_bytes-write_inode :
      (b n i : ℕ) (node : Inode) (fs : Fs D)
      → b < 131072
      → n < num_inodes
      → i < 4096
      → block_bytes card b (write_inode card n node fs).disk i ≡ block_bytes card b fs.disk i
  unfolding write_inode
  block_bytes-write_inode b n i node fs hb hn h =
      read-write_apart card 1 (inode_sector card n % u32) 8 (block_sector card b % u32) i _ fs.disk
        (omega arith) (omega arith)

  -- The file as the card has it after `length` bytes were written at `p`.
  abbrev pub Saved : (k n length p : ℕ) → Inode → (ℕ → ℕ) → (fs after : Fs D) → Type 0
  Saved k n length p inode buff fs after =
      let written = get_inode card n after in
      (written.size ≡ grown length p inode.size)
      × ((l : ℕ) → l < k → written.direct_ptr l ≡ inode.direct_ptr l)
      × ((q : ℕ)
          → q < 4096 * k
          → file_byte card written q after.disk ≡ (
              if leb p q && ltb q (p + length)
              then buff (q - p)
              else file_byte card inode q fs.disk))

  Wrote-Saved :
      (k fd n length p : ℕ) (inode : Inode) (buff : ℕ → ℕ) (fs : Fs D) (r : (ℕ × Inode) × Fs D)
      → n < num_inodes
      → IsInode inode
      → IsLaidOut k inode.direct_ptr
      → p + length ≤ 4096 * k
      → Wrote card k fd length 0 p inode buff fs r
      → Saved k n length p inode buff fs (write_inode card n r.0.1 r.1)
  Wrote-Saved k fd n length p inode buff fs r hn v laid room w =
      let after = write_inode card n r.0.1 r.1 in
      let written = get_inode card n after in
      let size = grown (length - 0) p inode.size in
      let words : IsInode r.0.1 =
        subst IsInode (sym w.1)
          (grown-IsInode inode size (ground (arith, room, laid.within, v 2 (omega arith))) v) in
      let same = (get_inode-write_inode card n r.0.1 r.1 words hn).0 in
      let ptr : (l : ℕ) → l < k → written.direct_ptr l ≡ inode.direct_ptr l = λ l lt.
        direct_word written r.0.1 same l (omega (arith, laid.within))
        ∙ ap (λ m. m.direct_ptr l) w.1 in
      (
        same 2 (omega arith) ∙ ap (λ m. m.size) w.1 ∙ ap (λ z. grown z p inode.size) (omega arith),
        ptr,
        λ q lt.
            let l : q / 4096 < k = omega arith in
            file_byte-data_byte card written q after.disk (omega (arith, laid.within))
            ∙ ap (λ b. block_bytes card b after.disk (q % 4096)) (ptr (q / 4096) l)
            ∙ block_bytes-write_inode (inode.direct_ptr (q / 4096)) n (q % 4096) r.0.1 r.1
                (laid.small (q / 4096) l) hn (omega arith)
            ∙ w.3 q lt
            ∙ from_start length p q buff (data_byte card inode.direct_ptr q fs.disk)
                (file_byte card inode q fs.disk)
                (sym (file_byte-data_byte card inode q fs.disk (omega (arith, laid.within)))),
      )

  write_inode-fdesc :
      (i n : ℕ) (node : Inode) (fs : Fs D)
      → (write_inode card n node fs).fdesc_array i ≡ fs.fdesc_array i
  unfolding write_inode
  write_inode-fdesc i n node fs = refl

  -- `do_write` of an open file that may be written, which has its first `k` direct blocks, all
  -- different and in the data area, and of bytes that end in them: it returns the length, the
  -- position is behind the bytes, and the file, as the card has it then, has the same blocks, holds
  -- the bytes of the buffer from the position on, all other bytes of the `k` blocks as before, and
  -- a size that has grown where the end is behind it.
  pub do_write_lem :
      (fd : ℤ) (i k length : ℕ) (buff : ℕ → ℕ) (fs : Fs D)
      → open_file fd fs ≡ some i
      → let d = fs.fdesc_array i in
        let inode = get_inode card d.inode_num fs in
        d.mode ≢ o_rdonly
        → d.inode_num < num_inodes
        → IsInode inode
        → IsLaidOut k inode.direct_ptr
        → d.pos + length ≤ 4096 * k
        → let (r, after) = do_write card fd buff length fs in
          (r ≡ pos length)
          × (after.fdesc_array i ≡ record d { pos = d.pos + length })
          × Saved k d.inode_num length d.pos inode buff fs after
  unfolding do_write
  do_write_lem fd i k length buff fs opened writable small v laid room =
      let d = fs.fdesc_array i in
      let inode = get_inode card d.inode_num fs in
      let r = write_loop card (suc length) i length 0 inode buff fs in
      let w =
        write_loop_lem card (suc length) k i length 0 inode buff fs (omega arith) (omega arith)
          (omega arith) laid in
      let mode_test : (d.mode == o_rdonly) ≡ false = ground (arith, writable) in
      rw (opened, mode_test, do_write)
        (
          ap pos w.0,
          write_inode-fdesc i d.inode_num r.0.1 r.1
              ∙ w.2
              ∙ ap (λ z. record d { pos = z }) (omega arith),
          Wrote-Saved k i d.inode_num length d.pos inode buff fs r small v laid room w,
        )
