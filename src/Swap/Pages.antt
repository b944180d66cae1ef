-- ===== src/Swap/Pages.antt =====
-- A page that was swapped out comes back as it was.
use risc_v_qemu_kernel.Prelude.{ℕ, ◌+◌, ◌-◌, ◌<◌, ◌≡◌, refl, true, false, ◌&&◌, leb, ltb, arith}
use risc_v_qemu_kernel.Mm.{page_size}
use risc_v_qemu_kernel.Swap.{Swap, swap_write, swap_in, swap_read}

in_page :
    (kva o : ℕ) → o < page_size → (leb kva (kva + o) && ltb (kva + o) (kva + page_size)) ≡ true
in_page kva o h = ground arith

offset : (kva o : ℕ) → kva + o - kva ≡ o
offset kva o = omega arith

-- If reading the sectors that were just written gives what was written, a page that is written to a
-- slot and read from it into another place has the same words there; memory outside that place is as
-- it was, and the slot is free.
pub swap_in-swap_write :
    {D : Type 0} (sd_read : D → ℕ → ℕ → ℕ) (sd_write : D → ℕ → (ℕ → ℕ) → D)
    (read_back : (d : D) (sector o : ℕ) (page : ℕ → ℕ)
      → o < page_size
      → sd_read (sd_write d sector page) sector o ≡ page o)
    (kva kva' swap_id : ℕ) (s : Swap D)
    → let m = swap_in sd_read sd_write kva' swap_id (swap_write sd_read sd_write kva swap_id s) in
      ((o : ℕ) → o < page_size → m.mm.mem (kva' + o) ≡ s.mm.mem (kva + o))
      × ((a : ℕ) → (leb kva' a && ltb a (kva' + page_size)) ≡ false → m.mm.mem a ≡ s.mm.mem a)
      × (m.occupied swap_id ≡ false)
unfolding swap_in swap_write swap_read
swap_in-swap_write sd_read sd_write read_back kva kva' swap_id s = (
  λ o h. rw (in_page kva' o h, offset kva' o) (read_back s.card _ o (λ p. s.mm.mem (kva + p)) h),
  λ a out. rw out refl,
  ground arith,
)
