-- ===== src/Tests/Swapping.antt =====
-- Swap space on a card that is a table of pages, and numbers as text.
use risc_v_qemu_kernel.Prelude.{
  ℕ, ◌+◌, ◌<◌, ◌≡◌, refl, false, [], ◌∷◌, ◌*◌, ◌==◌, ◌&&◌, leb, ltb, some, none, update, arith,
}
use risc_v_qemu_kernel.Prelude.Int.{pos}
use risc_v_qemu_kernel.Mm.{page_size}
use risc_v_qemu_kernel.Swap.{Swap, swap_in, swap_write}
use risc_v_qemu_kernel.Swap.Pages.{swap_in-swap_write}
use risc_v_qemu_kernel.Numbers.{atol, itoa, itoa_loop}
use risc_v_qemu_kernel.Numbers.Decimal.{atol-itoa}
use risc_v_qemu_kernel.Tests.Memory.{listed}

abbrev Card : Type 0
Card = ℕ → ℕ → ℕ

abbrev read : Card → ℕ → ℕ → ℕ
read d sector o = d sector o

abbrev write : Card → ℕ → (ℕ → ℕ) → Card
write d sector page = update d sector page

abbrev scene : Swap Card
scene = record {
  active_pages = λ i. record { kva = 4096 * i; pte = 64; vaddr = 0; pid = 3; valid = false };
  occupied = λ i. i == 5;
  clock_head = 0;
  active_page_count = pos 0;
  swap_start_sec = 100;
  card = λ sector o. 0;
  mm = listed;
}

write-read :
    (d : Card) (sector o : ℕ) (page : ℕ → ℕ)
    → o < page_size
    → read (write d sector page) sector o ≡ page o
write-read d sector o page h = ground arith

swap_in-swap_write_example :
    let m = swap_in read write 8192 5 (swap_write read write 4096 5 scene) in
    ((o : ℕ) → o < page_size → m.mm.mem (8192 + o) ≡ scene.mm.mem (4096 + o))
    × ((a : ℕ) → (leb 8192 a && ltb a (8192 + page_size)) ≡ false → m.mm.mem a ≡ scene.mm.mem a)
    × (m.occupied 5 ≡ false)
swap_in-swap_write_example = swap_in-swap_write read write write-read 4096 8192 5 scene

written_407 : itoa 407 8 10 ≡ some (52 ∷ 48 ∷ 55 ∷ [])
unfolding itoa itoa_loop
written_407 = refl

atol-itoa_example : atol (52 ∷ 48 ∷ 55 ∷ []) ≡ some (pos 407)
atol-itoa_example = atol-itoa 407 8 (52 ∷ 48 ∷ 55 ∷ []) (omega arith) written_407

-- With a buffer of one byte only the last digit is left, and the call does not fail.
one_byte : itoa 407 1 10 ≡ some (55 ∷ [])
unfolding itoa itoa_loop
one_byte = refl

blank_first : atol (32 ∷ 49 ∷ []) ≡ none
unfolding atol
blank_first = refl
