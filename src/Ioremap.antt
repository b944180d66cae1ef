-- ===== src/Ioremap.antt =====
-- kernel/mm/ioremap.c: device memory gets virtual addresses of its own, one region behind the other, in pages
-- of 2 MB. The flush of the TLB is left out.
use risc_v_qemu_kernel.Prelude.{ℕ, zero, suc, ◌+◌, ◌-◌, ◌*◌, ◌/◌, ◌%◌, ◌≤◌, ◌<◌, ◌≡◌, arith}
use risc_v_qemu_kernel.Mm.{Mm, u64}
use risc_v_qemu_kernel.PageTable.{pa2kva, map_page_kernel}

abbrev pub large_page_size : ℕ
large_page_size = 2097152

-- `IO_ADDR_START` and `PGDIR_PA`
abbrev pub io_addr_start : ℕ
io_addr_start = 0xffff_ffe0_0000_0000

abbrev pub pgdir_pa : ℕ
pgdir_pa = 0x5100_0000

-- `_PAGE_READ | _PAGE_WRITE`
abbrev pub io_flags : ℕ
io_flags = 2 + 4

-- `io_base`, and the memory with the page tables.
pub record Io : Type 0 where
  pub io_base : ℕ
  pub mm : Mm

-- The loop, with `n` pages to go.
unfoldable pub map_pages : (n offset vaddr_start pa_aligned : ℕ) → Mm → Mm
map_pages zero offset vaddr_start pa_aligned m = m
map_pages (suc n) offset vaddr_start pa_aligned m =
    map_pages n (offset + large_page_size) vaddr_start pa_aligned (
      map_page_kernel ((vaddr_start + offset) % u64) ((pa_aligned + offset) % u64) (pa2kva pgdir_pa)
        io_flags m)

abbrev pub map_size : (size offset_in_page : ℕ) → ℕ
map_size size offset_in_page =
    (size + offset_in_page + large_page_size - 1) % u64 / large_page_size * large_page_size

unfoldable pub ioremap : (phys_addr size : ℕ) → Io → ℕ × Io
ioremap phys_addr size s =
    let offset_in_page = phys_addr % large_page_size in
    let mapped = map_size size offset_in_page in
    (
      (s.io_base + offset_in_page) % u64,
      record s {
        io_base = (s.io_base + mapped) % u64;
        mm =
            map_pages (mapped / large_page_size) 0 s.io_base
              (phys_addr / large_page_size * large_page_size) s.mm;
      },
    )

-- With io_base at the beginning of a large page, and while addresses are left, `ioremap` gives a
-- region that begins at the old io_base or behind it and ends before the new one, so that no two
-- regions meet; its place in a large page is that of the physical address; the new io_base is at
-- the beginning of a large page, less than one of them behind the region.
pub ioremap_lem :
    (phys_addr size : ℕ) (s : Io)
    → s.io_base % large_page_size ≡ 0
    → s.io_base + size + 2 * large_page_size < u64
    → let (va, after) = ioremap phys_addr size s in
      (s.io_base ≤ va)
      × (va + size ≤ after.io_base)
      × (va % large_page_size ≡ phys_addr % large_page_size)
      × (after.io_base % large_page_size ≡ 0)
      × (after.io_base < va + size + large_page_size)
unfolding ioremap
ioremap_lem phys_addr size s aligned left =
    (omega arith, omega arith, omega arith, omega arith, omega arith)
