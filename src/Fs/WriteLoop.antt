-- ===== src/Fs/WriteLoop.antt =====
-- The loop of do_write of kernel/fs/fs.c, on blocks that are there.
use mathlib.Core.Path.{subst}
use risc_v_qemu_kernel.Prelude.{
  ℕ, zero, suc, ◌+◌, ◌-◌, ◌*◌, ◌/◌, ◌%◌, ◌≤◌, ◌<◌, ◌≡◌, ◌≢◌, refl, ◌∙◌, ap, Bool, true, false, ◌&&◌,
  leb, ltb, ◌==◌, if◌then◌else◌, arith, Bool-cases, inl, inr,
}
use risc_v_qemu_kernel.Fs.{Fs, Inode, Fdesc, u32, minus_one, copy_into}
use risc_v_qemu_kernel.Fs.Card.{Card, read_block, write_block}
use risc_v_qemu_kernel.Fs.Blocks.{get_physical_block_id}
use risc_v_qemu_kernel.Fs.Files.{write_loop, bytes_to_copy, set_pos}
use risc_v_qemu_kernel.Fs.Reading.{bytes_to_copy_bounds}
use risc_v_qemu_kernel.Fs.Layout.{IsLaidOut, data_byte, block_written, direct-lookup}

-- The size of a file after `n` bytes were written at `p`.
abbrev pub grown : (n p size : ℕ) → ℕ
grown n p size = if ltb 0 n && ltb size (p + n) then p + n else size

grown-step :
    (length done n p size : ℕ)
    → 0 < n
    → done + n ≤ length
    → grown (length - (done + n)) (p + n) (if ltb size (p + n) then p + n else size)
      ≡ grown (length - done) p size
grown-step length done n p size h k = ground arith

-- Two ranges that follow each other.
join_ranges :
    (length done n p q : ℕ) (buff : ℕ → ℕ) (old : ℕ)
    → done + n ≤ length
    → (if leb (p + n) q && ltb q (p + n + (length - (done + n)))
        then buff (done + n + (q - (p + n)))
        else if leb p q && ltb q (p + n)
        then buff (done + (q - p))
        else old)
      ≡ (if leb p q && ltb q (p + (length - done)) then buff (done + (q - p)) else old)
join_ranges length done n p q buff old h = elim (Bool-cases (leb (p + n) q)) [
  | inl behind ↦
      let at : done + n + (q - (p + n)) ≡ done + (q - p) = place done n p q (ground arith) in
      ground (arith, ap buff at)
  | inr before ↦ ground arith
]
  where
    place : (done n p q : ℕ) → p + n ≤ q → done + n + (q - (p + n)) ≡ done + (q - p)
    place done n p q h = omega arith

if_false : {A : Type 0} (b : Bool) (x y : A) → b ≡ false → (if b then x else y) ≡ y
if_false b x y e = rw e refl

module _ (card : Card) where
  open card use {D}

  -- What the loop of `do_write` comes to, with `done` bytes written and `p` the position.
  abbrev pub Wrote : (k fd length done p : ℕ) → Inode → (ℕ → ℕ) → Fs D → (ℕ × Inode) × Fs D → Type 0
  Wrote k fd length done p inode buff fs r =
      (r.0.0 ≡ length)
      × (r.0.1 ≡ record inode { size = grown (length - done) p inode.size })
      × (r.1.fdesc_array fd ≡ record (fs.fdesc_array fd) { pos = p + (length - done) })
      × ((q : ℕ)
          → q < 4096 * k
          → data_byte card inode.direct_ptr q r.1.disk ≡ (
              if leb p q && ltb q (p + (length - done))
              then buff (done + (q - p))
              else data_byte card inode.direct_ptr q fs.disk))

  -- One round, in front of a loop that writes the rest.
  Wrote-step :
      (k fd length done n p : ℕ) (inode : Inode) (buff : ℕ → ℕ) (fs s : Fs D)
      (r : (ℕ × Inode) × Fs D)
      → 0 < n
      → done + n ≤ length
      → s.fdesc_array fd ≡ record (fs.fdesc_array fd) { pos = p + n }
      → ((q : ℕ)
          → q < 4096 * k
          → data_byte card inode.direct_ptr q s.disk ≡ (
              if leb p q && ltb q (p + n)
              then buff (done + (q - p))
              else data_byte card inode.direct_ptr q fs.disk))
      → Wrote k fd length
          (done + n)
          (p + n)
          (record inode { size = if ltb inode.size (p + n) then p + n else inode.size })
          buff
          s
          r
      → Wrote k fd length done p inode buff fs r
  Wrote-step k fd length done n p inode buff fs s r some_bytes fits same block h = (
    h.0,
    h.1
        ∙ ap (λ z. record inode { size = z })
            (grown-step length done n p inode.size some_bytes fits),
    h.2
        ∙ ap (λ (d : Fdesc). record d { pos = p + n + (length - (done + n)) }) same
        ∙ ap (λ z. record (fs.fdesc_array fd) { pos = z }) (omega (arith, fits)),
    λ q lt.
        h.3 q lt
        ∙ ap
            (λ old.
              if leb (p + n) q && ltb q (p + n + (length - (done + n)))
              then buff (done + n + (q - (p + n)))
              else old)
            (block q lt)
        ∙ join_ranges length done n p q buff (data_byte card inode.direct_ptr q fs.disk) fits,
  )

  -- The block `b` with `n` bytes written from `p` on, and the position behind them.
  abbrev pub put_bytes : (fd n p b : ℕ) → (src : ℕ → ℕ) → Fs D → Fs D
  put_bytes fd n p b src fs =
      let loaded = read_block card b 0 fs in
      set_pos fd (p + n)
        (write_block card b 0 (record loaded { temp = copy_into (p % 4096) n src loaded.temp }))

  abbrev pub grow : (end : ℕ) → Inode → Inode
  grow end inode = record inode { size = if ltb inode.size end then end else inode.size }

  -- A round of the loop at a block that is there.
  write_loop-round :
      (fuel fd length done : ℕ) (inode : Inode) (buff : ℕ → ℕ) (fs : Fs D)
      → let p = (fs.fdesc_array fd).pos in
        let n = bytes_to_copy (length - done) p in
        let b = inode.direct_ptr (p / 4096) in
        leb length done ≡ false
        → p / 4096 < 10
        → b ≢ 0
        → b < 131072
        → p + n < u32
        → write_loop card (suc fuel) fd length done inode buff fs
          ≡ write_loop card fuel fd length
              (done + n)
              (grow (p + n) inode)
              buff
              (put_bytes fd n p b (λ i. buff (done + i)) fs)
  unfolding write_loop
  write_loop-round fuel fd length done inode buff fs more direct present small fits =
      let p = (fs.fdesc_array fd).pos in
      let n = bytes_to_copy (length - done) p in
      let b = inode.direct_ptr (p / 4096) in
      let rest = λ (given : Inode) (end : ℕ) (s : Fs D).
        write_loop card fuel fd length (done + n) (grow end given) buff (set_pos fd end s) in
      let put = λ (c : ℕ) (s : Fs D).
        let loaded = read_block card c 0 s in
        write_block card c 0
          (record loaded { temp = copy_into (p % 4096) n (λ i. buff (done + i)) loaded.temp }) in
      let round = λ (g : (ℕ × Inode) × Fs D).
        if g.0.0 == minus_one
        then ((done, g.0.1), g.1)
        else rest g.0.1 ((p + n) % u32) (put g.0.0 g.1) in
      if_false (leb length done) ((done, inode), fs)
        (round (get_physical_block_id card inode (fs.fdesc_array fd).inode_num (p / 4096) true fs))
        more
      ∙ ap round
          (direct-lookup card inode (fs.fdesc_array fd).inode_num (p / 4096) fs direct present)
      ∙ if_false (b == minus_one) ((done, inode), fs) (rest inode ((p + n) % u32) (put b fs))
          (ground arith)
      ∙ ap (λ end. rest inode end (put b fs)) (omega arith)

  put_bytes-fdesc :
      (fd n p b : ℕ) (src : ℕ → ℕ) (fs : Fs D)
      → (put_bytes fd n p b src fs).fdesc_array fd ≡ record (fs.fdesc_array fd) { pos = p + n }
  unfolding read_block write_block
  put_bytes-fdesc fd n p b src fs = ground arith

  write_loop-end :
      (fuel fd length done : ℕ) (inode : Inode) (buff : ℕ → ℕ) (fs : Fs D)
      → leb length done ≡ true
      → write_loop card (suc fuel) fd length done inode buff fs ≡ ((done, inode), fs)
  unfolding write_loop
  write_loop-end fuel fd length done inode buff fs e = rw e refl

  Wrote-nothing :
      (k fd length done p : ℕ) (inode : Inode) (buff : ℕ → ℕ) (fs : Fs D)
      → done ≡ length
      → (fs.fdesc_array fd).pos ≡ p
      → Wrote k fd length done p inode buff fs ((done, inode), fs)
  Wrote-nothing k fd length done p inode buff fs e at = (
    e,
    ap (λ z. record inode { size = z }) (ground (arith, e)),
    ap (λ z. record (fs.fdesc_array fd) { pos = z }) (omega (arith, e, at)),
    λ q lt. ground (arith, e),
  )

  -- The loop writes everything, where all its blocks are there.
  pub write_loop_lem :
      (fuel k fd length done : ℕ) (inode : Inode) (buff : ℕ → ℕ) (fs : Fs D)
      → length - done < fuel
      → done ≤ length
      → (fs.fdesc_array fd).pos + (length - done) ≤ 4096 * k
      → IsLaidOut k inode.direct_ptr
      → Wrote k fd length done
          (fs.fdesc_array fd).pos
          inode
          buff
          fs
          (write_loop card fuel fd length done inode buff fs)
  write_loop_lem zero k fd length done inode buff fs f le room v = absurd (omega arith)
  write_loop_lem (suc fuel) k fd length done inode buff fs f le room v =
      let p = (fs.fdesc_array fd).pos in
      elim (Bool-cases (leb length done)) [
        | inl over ↦
            rw (write_loop-end fuel fd length done inode buff fs over)
              (Wrote-nothing k fd length done p inode buff fs (ground arith) refl)
        | inr more ↦
            let n = bytes_to_copy (length - done) p in
            let b = inode.direct_ptr (p / 4096) in
            let fine = bytes_to_copy_bounds (length - done) p (ground arith) in
            let inside : p / 4096 < k = omega (arith, fine, room) in
            let here = v.small (p / 4096) inside in
            let src = λ (i : ℕ). buff (done + i) in
            let next = put_bytes fd n p b src fs in
            let moved = put_bytes-fdesc fd n p b src fs in
            let at : (next.fdesc_array fd).pos ≡ p + n = ap (λ d. d.pos) moved in
            let rest = write_loop card fuel fd length (done + n) (grow (p + n) inode) buff next in
            rw
              (write_loop-round fuel fd length done inode buff fs more
                (omega (arith, inside, v.within)) (v.present (p / 4096) inside) here
                (omega (arith, fine, room, v.within)))
              (Wrote-step k fd length done n p inode buff fs next rest fine.0 (omega (arith, fine))
                moved (block_written card k n p inode.direct_ptr src fs v inside fine.2)
                (subst (λ z. Wrote k fd length (done + n) z (grow (p + n) inode) buff next rest) at
                  (write_loop_lem fuel k fd length (done + n) (grow (p + n) inode) buff next
                    (omega (arith, fine)) (omega (arith, fine)) (omega (arith, at, fine, room)) v)))
      ]
