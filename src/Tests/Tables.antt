-- ===== src/Tests/Tables.antt =====
-- A page table at the physical page 1 with tables for the address 0 at the physical pages 2 and 3.
use risc_v_qemu_kernel.Prelude.{
  ℕ, ◌+◌, ◌/◌, ◌%◌, ◌≡◌, ◌≤◌, ◌<◌, ◌≢◌, refl, true, ◌==◌, some, if◌then◌else◌, arith,
}
use risc_v_qemu_kernel.Mm.{Mm}
use risc_v_qemu_kernel.PageTable.{
  kva_pa_offset, get_pa, get_pfn, get_pte, map_page, present, set_pfn, set_attribute,
}
use risc_v_qemu_kernel.PageTable.Entry.{set_pfn-get_pa, same_indices}
use risc_v_qemu_kernel.Ioremap.{ioremap, ioremap_lem, io_addr_start}
use risc_v_qemu_kernel.PageTable.Map.{HasTables, map_page_lem}

abbrev pub tables : Mm
tables = record {
  mem = λ a.
      if a == kva_pa_offset + 4096 then 2049 else if a == kva_pa_offset + 8192 then 3073 else 0;
  kern_mem_curr = kva_pa_offset + 16384;
  free_page_list = 0;
  free_page_list_count = 0;
}

tables-HasTables : HasTables 0 (kva_pa_offset + 4096) tables
tables-HasTables = record {
  first = refl;
  second = refl;
  apart2 = omega arith;
  apart1 = omega arith;
}

map_page_lem_example :
    let after = map_page 0 20480 (kva_pa_offset + 4096) 30 tables in
    let at = kva_pa_offset + 12288 in
    (get_pte 0 (kva_pa_offset + 4096) tables ≡ some at)
    × (get_pte 0 (kva_pa_offset + 4096) after ≡ some at)
    × (get_pa (after.mem at) ≡ 20480)
    × (present (after.mem at) ≡ true)
    × ((a : ℕ) → a ≢ at → after.mem a ≡ tables.mem a)
    × (after.free_page_list ≡ 0)
    × (after.kern_mem_curr ≡ kva_pa_offset + 16384)
map_page_lem_example =
    map_page_lem 0 20480 (kva_pa_offset + 4096) 30 tables tables-HasTables (omega arith)
      (omega arith) (omega arith)

set_pfn-get_pa_holds :
    let after = set_attribute (set_pfn 999 (20480 / 4096)) 7 in
    (get_pa after ≡ 20480) × (get_pfn after ≡ 20480 / 4096) × (after % 1024 ≡ 7)
set_pfn-get_pa_holds = set_pfn-get_pa 999 20480 7 (omega arith) (omega arith) (omega arith)

same_indices_holds : 4100 / 4096 ≡ 8191 / 4096
same_indices_holds = same_indices 4100 8191 (omega arith) (omega arith) refl refl refl

ioremap_lem_example :
    let (va, after) = ioremap 0x1000_1000 4096 (record { io_base = io_addr_start; mm = tables }) in
    (io_addr_start ≤ va)
    × (va + 4096 ≤ after.io_base)
    × (va % 2097152 ≡ 4096)
    × (after.io_base % 2097152 ≡ 0)
    × (after.io_base < va + 4096 + 2097152)
ioremap_lem_example =
    ioremap_lem 0x1000_1000 4096 (record { io_base = io_addr_start; mm = tables }) refl
      (omega arith)
