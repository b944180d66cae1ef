-- ===== src/PageTable/Entry.antt =====
-- Page table entries of arch/riscv/include/pgtable.h: what is put into an entry is what is read from it.
use risc_v_qemu_kernel.Prelude.{ℕ, ◌/◌, ◌%◌, ◌^◌, ◌<◌, ◌≡◌, ◌∙◌, arith}
use risc_v_qemu_kernel.Mm.{u64}
use risc_v_qemu_kernel.PageTable.{
  kva2pa, pa2kva, get_pa, get_pfn, set_pfn, set_attribute, mapped_flags, with_bit, get_vpn0,
  get_vpn1, get_vpn2,
}

-- Kernel and physical addresses correspond one to one.
pub kva2pa-pa2kva : (a : ℕ) → a < u64 → (kva2pa (pa2kva a) ≡ a) × (pa2kva (kva2pa a) ≡ a)
kva2pa-pa2kva a h = (omega arith, omega arith)

bit1 : (f : ℕ) → f < 1024 → (with_bit 1 f < 1024) × (with_bit 1 f % 2 ≡ 1)
bit1 f h = (ground arith, ground arith)

bit64 : (f : ℕ) → f < 1024 → (with_bit 64 f < 1024) × (with_bit 64 f % 2 ≡ f % 2)
bit64 f h = (ground arith, ground arith)

bit128 : (f : ℕ) → f < 1024 → (with_bit 128 f < 1024) × (with_bit 128 f % 2 ≡ f % 2)
bit128 f h = (ground arith, ground arith)

-- The flags of a mapping stay below 2^10, and say that the entry is present.
pub mapped_flags-bounds :
    (flags : ℕ) → flags < 1024 → (mapped_flags flags < 1024) × (mapped_flags flags % 2 ≡ 1)
mapped_flags-bounds flags h =
    let a = bit1 flags h in
    let b = bit64 (with_bit 1 flags) a.0 in
    let c = bit128 (with_bit 64 (with_bit 1 flags)) b.0 in (c.0, c.1 ∙ (b.1 ∙ a.1))

-- An entry that is given the frame of an aligned physical address below 2^56 and flags leads to that
-- address, whatever it held before, and is present if the flags say so.
pub set_pfn-get_pa :
    (entry pa bits : ℕ)
    → pa % 4096 ≡ 0
    → pa < 2 ^ 56
    → bits < 1024
    → let after = set_attribute (set_pfn entry (pa / 4096)) bits in
      (get_pa after ≡ pa) × (get_pfn after ≡ pa / 4096) × (after % 1024 ≡ bits)
set_pfn-get_pa entry pa bits a b c = (omega arith, omega arith, omega arith)

-- Two virtual addresses below 2^39 that lead to the same three indices are on the same page.
pub same_indices :
    (va vb : ℕ)
    → va < 2 ^ 39
    → vb < 2 ^ 39
    → get_vpn2 va ≡ get_vpn2 vb
    → get_vpn1 va ≡ get_vpn1 vb
    → get_vpn0 va ≡ get_vpn0 vb
    → va / 4096 ≡ vb / 4096
same_indices va vb a b e2 e1 e0 = omega arith
