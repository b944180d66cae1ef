-- ===== src/Mm.antt =====
-- The page allocator of kernel/mm/mm.c, over a memory of 64-bit words.
--
-- A word is found at the (kernel virtual, byte) address of its first byte; addresses wrap at 2^64.
pub mod Allocator
pub mod Alloc
pub mod Free
use risc_v_qemu_kernel.Prelude.{
  ℕ, ◌+◌, ◌-◌, ◌*◌, ◌/◌, ◌%◌, ◌^◌, Bool, ◌&&◌, not, ◌==◌, leb, ltb, if◌then◌else◌, update,
}

-- The statics `kernMemCurr`, `freePageList` and `free_page_list_count`.
pub record Mm : Type 0 where
  pub mem : ℕ → ℕ
  pub kern_mem_curr : ℕ
  pub free_page_list : ℕ
  pub free_page_list_count : ℕ

abbrev pub page_size : ℕ
page_size = 4096

abbrev pub u64 : ℕ
u64 = 2 ^ 64

-- `FREEMEM_KERNEL` and `MEMORY_SIZE_END`
abbrev pub freemem_kernel : ℕ
freemem_kernel = 0xffff_ffc0_5200_1000

abbrev pub memory_size_end : ℕ
memory_size_end = 0xffff_ffc0_6000_0000

-- `ROUND(a, PAGE_SIZE)` and `ROUNDDOWN(a, PAGE_SIZE)`
abbrev pub round_page : ℕ → ℕ
round_page a = (a + 4095) % u64 / 4096 * 4096

abbrev pub round_down_page : ℕ → ℕ
round_down_page a = a / 4096 * 4096

-- `*(ptr_t *)a = v`
abbrev pub store : ℕ → ℕ → Mm → Mm
store a v m = record m { mem = update m.mem a v }

-- `memset(page, 0, PAGE_SIZE)`, and `clear_pgdir(page)`, which writes the same 512 words.
unfoldable pub clear_page : ℕ → Mm → Mm
clear_page page m = record m { mem = λ a. if leb page a && ltb a (page + 4096) then 0 else m.mem a }

-- `allocPage`: the lowest address of the pages.
unfoldable pub alloc_page : ℕ → Mm → ℕ × Mm
unfolding clear_page
alloc_page num_page m =
    let ret = m.free_page_list in
    let fresh = round_page m.kern_mem_curr in
    if (num_page == 1) && not (ret == 0)
    then (
      ret,
      clear_page ret (record m {
        free_page_list = m.mem ret;
        free_page_list_count = m.free_page_list_count - 1;
      }),
    )
    else (fresh, record m { kern_mem_curr = (fresh + num_page * page_size) % u64 })

unfoldable pub free_page : ℕ → Mm → Mm
free_page base m = if base == 0 then m else record m {
  mem = update m.mem base m.free_page_list;
  free_page_list = base;
  free_page_list_count = m.free_page_list_count + 1;
}

pub get_free_memory : Mm → ℕ
get_free_memory m =
    (if ltb m.kern_mem_curr memory_size_end then memory_size_end - m.kern_mem_curr else 0)
    + m.free_page_list_count * page_size
