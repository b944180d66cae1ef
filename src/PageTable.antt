-- ===== src/PageTable.antt =====
-- The Sv39 page tables: arch/riscv/include/pgtable.h, and map_page, map_page_kernel, alloc_page_helper
-- and share_pgtable of kernel/mm/mm.c.
--
-- Shifts and masks are written as quotients and remainders. An entry is named by its address. The
-- flushes of the TLB are left out.
pub mod Entry
pub mod Map
use risc_v_qemu_kernel.Prelude.{
  ℕ, ◌+◌, ◌-◌, ◌*◌, ◌/◌, ◌%◌, ◌^◌, Bool, Option, none, some, leb, ltb, ◌&&◌, ◌==◌, if◌then◌else◌,
  update,
}
use risc_v_qemu_kernel.Mm.{Mm, u64, page_size, store, clear_page, alloc_page}

-- `KVA_PA_OFFSET`
abbrev pub kva_pa_offset : ℕ
kva_pa_offset = 0xffff_ffc0_0000_0000

abbrev pub kva2pa : ℕ → ℕ
kva2pa kva = (kva + (u64 - kva_pa_offset)) % u64

abbrev pub pa2kva : ℕ → ℕ
pa2kva pa = (pa + kva_pa_offset) % u64

abbrev pub get_pfn : ℕ → ℕ
get_pfn entry = entry / 1024

abbrev pub get_pa : ℕ → ℕ
get_pa entry = entry / 1024 * 4096 % u64

abbrev pub set_pfn : (entry pfn : ℕ) → ℕ
set_pfn entry pfn = pfn * 1024 % u64 + entry % 1024

-- For `bits` below 2^10.
abbrev pub set_attribute : (entry bits : ℕ) → ℕ
set_attribute entry bits = entry / 1024 * 1024 + bits

-- `get_attribute(entry, _PAGE_PRESENT)`
abbrev pub present : ℕ → Bool
present entry = entry % 2 == 1

abbrev pub get_vpn0 : ℕ → ℕ
get_vpn0 va = va / 4096 % 512

abbrev pub get_vpn1 : ℕ → ℕ
get_vpn1 va = va / 2097152 % 512

abbrev pub get_vpn2 : ℕ → ℕ
get_vpn2 va = va / 1073741824 % 512

-- `&table[i]`, and the table that an entry leads to.
abbrev pub entry_at : (table i : ℕ) → ℕ
entry_at table i = (table + 8 * i) % u64

abbrev pub next_table : ℕ → ℕ
next_table entry = pa2kva (get_pa entry)

unfoldable pub get_pte : (va pgdir : ℕ) → Mm → Option ℕ
get_pte va pgdir m =
    let e2 = m.mem (entry_at pgdir (get_vpn2 va)) in
    let e1 = m.mem (entry_at (next_table e2) (get_vpn1 va)) in
    if present e2
    then if present e1 then some (entry_at (next_table e1) (get_vpn0 va)) else none
    else none

-- `flags | bit`, for a single bit.
abbrev pub with_bit : (bit flags : ℕ) → ℕ
with_bit bit flags = if flags / bit % 2 == 1 then flags else flags + bit

-- `flags | _PAGE_PRESENT | _PAGE_ACCESSED | _PAGE_DIRTY`
abbrev pub mapped_flags : ℕ → ℕ
mapped_flags flags = with_bit 128 (with_bit 64 (with_bit 1 flags))

-- A step of the walk in `map_page`: a table that the entry at `at` does not lead to yet is allocated,
-- linked and cleared.
unfoldable pub ensure_table : (at : ℕ) → Mm → Mm
unfolding alloc_page clear_page
ensure_table at m =
    let (new_page, after) = alloc_page 1 m in
    let linked = store at (set_pfn (after.mem at) (kva2pa new_page / 4096)) after in
    let marked = store at (set_attribute (linked.mem at) 1) linked in
    if present (m.mem at) then m else clear_page new_page marked

-- The entry is given the page and the flags.
unfoldable pub fill_entry : (at pa flags : ℕ) → Mm → Mm
fill_entry at pa flags m =
    let linked = store at (set_pfn (m.mem at) (pa / 4096)) m in
    store at (set_attribute (linked.mem at) (mapped_flags flags)) linked

unfoldable pub map_page : (va pa pgdir flags : ℕ) → Mm → Mm
unfolding ensure_table fill_entry
map_page va pa pgdir flags m =
    let at2 = entry_at pgdir (get_vpn2 va) in
    let m1 = ensure_table at2 m in
    let at1 = entry_at (next_table (m1.mem at2)) (get_vpn1 va) in
    let m2 = ensure_table at1 m1 in
    fill_entry (entry_at (next_table (m2.mem at1)) (get_vpn0 va)) pa flags m2

-- Kernel mappings end at the second level: pages of 2 MB.
unfoldable pub map_page_kernel : (va pa pgdir flags : ℕ) → Mm → Mm
unfolding ensure_table fill_entry
map_page_kernel va pa pgdir flags m =
    let at2 = entry_at pgdir (get_vpn2 va) in
    let m1 = ensure_table at2 m in
    fill_entry (entry_at (next_table (m1.mem at2)) (get_vpn1 va)) pa flags m1

-- The page, by its kernel address. The flags are present, readable, writable, executable and user.
unfoldable pub alloc_page_helper : (va pgdir : ℕ) → Mm → ℕ × Mm
unfolding alloc_page clear_page map_page
alloc_page_helper va pgdir m =
    let (page, after) = alloc_page 1 m in
    (page, map_page va (kva2pa page) pgdir 31 (clear_page page after))

-- `memcpy(dest, src, PAGE_SIZE)`, for pages that do not overlap.
unfoldable pub share_pgtable : (dest src : ℕ) → Mm → Mm
share_pgtable dest src m = record m {
  mem = λ a. if leb dest a && ltb a (dest + page_size) then m.mem (src + (a - dest)) else m.mem a;
}
