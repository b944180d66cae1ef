-- ===== src/Tests/Memory.antt =====
-- Page allocators with the page 8192 in use.
use risc_v_qemu_kernel.Prelude.{
  ℕ, ◌≡◌, refl, false, [], ◌∷◌, ◌+◌, ◌≤◌, ◌<◌, ◌%◌, has, arith, leb, ltb, ◌&&◌, if◌then◌else◌,
}
use risc_v_qemu_kernel.Mm.{Mm, alloc_page, free_page, page_size}
use risc_v_qemu_kernel.Mm.Allocator.{IsAllocator}
use risc_v_qemu_kernel.Mm.Alloc.{alloc_page-reuse, alloc_page-fresh}
use risc_v_qemu_kernel.Mm.Free.{free_page-IsAllocator, alloc_page-free_page}

-- Nothing free.
abbrev pub bare : Mm
bare = record { mem = λ a. 7; kern_mem_curr = 12288; free_page_list = 0; free_page_list_count = 0 }

bare-IsAllocator : IsAllocator (8192 ∷ []) [] bare
bare-IsAllocator = record {
  chain = refl;
  count = refl;
  apart = refl;
  used_pages = (refl, omega arith, tt);
  free_pages = tt;
  in_range = omega arith;
}

-- The page 4096 free.
abbrev pub listed : Mm
listed = record {
  mem = λ a. 0;
  kern_mem_curr = 12288;
  free_page_list = 4096;
  free_page_list_count = 1;
}

pub listed-IsAllocator : IsAllocator (8192 ∷ []) (4096 ∷ []) listed
listed-IsAllocator = record {
  chain = (refl, omega arith, refl);
  count = refl;
  apart = refl;
  used_pages = (refl, omega arith, tt);
  free_pages = (refl, omega arith, tt);
  in_range = omega arith;
}

alloc_page-reuse_example :
    let (page, after) = alloc_page 1 listed in
    (page ≡ 4096)
    × (has 4096 (8192 ∷ []) ≡ false)
    × ((a : ℕ) → 4096 ≤ a → a < 4096 + page_size → after.mem a ≡ 0)
    × IsAllocator (4096 ∷ 8192 ∷ []) [] after
alloc_page-reuse_example = alloc_page-reuse (8192 ∷ []) 4096 [] listed listed-IsAllocator

alloc_page-fresh_example :
    let (page, after) = alloc_page 2 bare in
    (page % page_size ≡ 0)
    × (12288 ≤ page)
    × (after.mem ≡ bare.mem)
    × IsAllocator (page ∷ (page + page_size) ∷ 8192 ∷ []) [] after
alloc_page-fresh_example =
    alloc_page-fresh 2 (8192 ∷ []) [] bare bare-IsAllocator (λ e. absurd (omega arith))
      (omega arith)

free_page-IsAllocator_example : IsAllocator [] (8192 ∷ 4096 ∷ []) (free_page 8192 listed)
free_page-IsAllocator_example =
    free_page-IsAllocator (8192 ∷ []) 8192 (4096 ∷ []) listed listed-IsAllocator refl (omega arith)

alloc_page-free_page_holds :
    let (page, after) = alloc_page 1 (free_page 8192 listed) in
    (page ≡ 8192)
    × (after.free_page_list ≡ 4096)
    × (after.free_page_list_count ≡ 1)
    × (after.kern_mem_curr ≡ 12288)
    × ((a : ℕ) → after.mem a ≡ (if leb 8192 a && ltb a 12288 then 0 else 0))
alloc_page-free_page_holds = alloc_page-free_page 8192 listed (omega arith)
