-- ===== src/Mm/Alloc.antt =====
-- `allocPage` of kernel/mm/mm.c never hands out a page that is in use.
use mathlib.Core.List.{append_assoc}
use risc_v_qemu_kernel.Prelude.{
  ℕ, zero, suc, ◌+◌, ◌-◌, ◌*◌, ◌≤◌, ◌<◌, ◌%◌, ◌≡◌, ◌≢◌, refl, true, false, List, [], ◌∷◌, ◌++◌,
  ◌==◌, has, distinct, arith, has-append, absent-drop, distinct-drop,
}
use risc_v_qemu_kernel.Mm.{Mm, alloc_page, clear_page, page_size, u64, round_page}
use risc_v_qemu_kernel.Mm.Allocator.{
  Pages, IsAllocator, Pages-mono, Pages-aligned, Chain-frame, beyond-Pages,
}

-- The state after the first page of the free list has been taken.
taken : ℕ → Mm → Mm
unfolding clear_page
taken p m =
    clear_page p
      (record m { free_page_list = m.mem p; free_page_list_count = m.free_page_list_count - 1 })

alloc_page-taken : (p : ℕ) (m : Mm) → m.free_page_list ≡ p → p ≢ 0 → alloc_page 1 m ≡ (p, taken p m)
unfolding alloc_page taken
alloc_page-taken p m e ne = ground arith

-- Clearing a page leaves the start of another page alone.
mem-taken :
    (p q : ℕ) (m : Mm)
    → p % page_size ≡ 0
    → q % page_size ≡ 0
    → (q == p) ≡ false
    → (taken p m).mem q ≡ m.mem q
unfolding taken
mem-taken p q m hp hq ne = ground arith

-- One page, with pages on the free list: the first of them, all zero. It was not in use and is now.
pub alloc_page-reuse :
    (used : List ℕ) (p : ℕ) (free : List ℕ) (m : Mm)
    → IsAllocator used (p ∷ free) m
    → let (page, after) = alloc_page 1 m in
      (page ≡ p)
      × (has p used ≡ false)
      × ((a : ℕ) → p ≤ a → a < p + page_size → after.mem a ≡ 0)
      × IsAllocator (p ∷ used) free after
alloc_page-reuse used p free m v = rw (alloc_page-taken p m v.chain.0 v.chain.1) (
  refl,
  out,
  λ a lo hi. unfold taken in ground arith,
  unfold taken in
      record {
        chain =
            Chain-frame m.mem (taken p m).mem (m.mem p) free
              (λ q h.
                mem-taken p q m v.free_pages.0
                  (Pages-aligned m.kern_mem_curr q free h v.free_pages.2).0
                  (ground (arith, h, new)))
              v.chain.2;
        count = omega (arith, v.count);
        apart = ground (arith, out, new, has-append p used free, fewer);
        used_pages = (v.free_pages.0, v.free_pages.1, v.used_pages);
        free_pages = v.free_pages.2;
        in_range = v.in_range;
      },
)
  where
    fewer : distinct (used ++ free) ≡ true
    fewer = distinct-drop used p free v.apart

    gone : has p (used ++ free) ≡ false
    gone = absent-drop used p free v.apart

    out : has p used ≡ false
    out = ground (arith, has-append p used free, gone)

    new : has p free ≡ false
    new = ground (arith, has-append p used free, gone)

-- The state after `num_page` pages have been cut off the memory that was never used.
cut_off : ℕ → Mm → Mm
cut_off n m = record m { kern_mem_curr = round_page m.kern_mem_curr + n * page_size }

alloc_page-cut :
    (n : ℕ) (m : Mm)
    → (n ≡ 1 → m.free_page_list ≡ 0)
    → m.kern_mem_curr + n * page_size + page_size < u64
    → alloc_page n m ≡ (round_page m.kern_mem_curr, cut_off n m)
unfolding alloc_page cut_off
alloc_page-cut n m e room = ground arith

-- The pages `base`, `base + PAGE_SIZE`, …
abbrev pub run_of_pages : ℕ → ℕ → List ℕ
run_of_pages base zero = []
run_of_pages base (suc n) = base ∷ run_of_pages (base + page_size) n

absent-run_of_pages : (q base n : ℕ) → q < base → has q (run_of_pages base n) ≡ false
absent-run_of_pages q base zero h = refl
absent-run_of_pages q base (suc n) h =
    ground (arith, absent-run_of_pages q (base + page_size) n (omega arith))

Pages-run_of_pages :
    (limit base n : ℕ) (ps : List ℕ)
    → base % page_size ≡ 0
    → base + n * page_size ≤ limit
    → Pages limit ps
    → Pages limit (run_of_pages base n ++ ps)
Pages-run_of_pages limit base zero ps a h all = all
Pages-run_of_pages limit base (suc n) ps a h all = (
  a,
  omega arith,
  Pages-run_of_pages limit (base + page_size) n ps (omega arith) (omega arith) all,
)

distinct-run_of_pages :
    (limit base n : ℕ) (ps : List ℕ)
    → limit ≤ base
    → Pages limit ps
    → distinct ps ≡ true
    → distinct (run_of_pages base n ++ ps) ≡ true
distinct-run_of_pages limit base zero ps h all d = d
distinct-run_of_pages limit base (suc n) ps h all d = ground (
  arith,
  has-append base (run_of_pages (base + page_size) n) ps,
  absent-run_of_pages base (base + page_size) n (omega arith),
  beyond-Pages limit base ps h all,
  distinct-run_of_pages limit (base + page_size) n ps (omega arith) all d,
)

Pages-append :
    (limit : ℕ) (ps qs : List ℕ) → Pages limit ps → Pages limit qs → Pages limit (ps ++ qs)
Pages-append limit [] qs a b = b
Pages-append limit (p ∷ ps) qs a b = (a.0, a.1, Pages-append limit ps qs a.2 b)

-- `n` pages at once, or one while the free list is empty: they lie one after the other behind all memory
-- handed out so far, so none of them was in use, and all are now.
pub alloc_page-fresh :
    (n : ℕ) (used free : List ℕ) (m : Mm)
    → IsAllocator used free m
    → (n ≡ 1 → m.free_page_list ≡ 0)
    → m.kern_mem_curr + n * page_size + page_size < u64
    → let (page, after) = alloc_page n m in
      (page % page_size ≡ 0)
      × (m.kern_mem_curr ≤ page)
      × (after.mem ≡ m.mem)
      × IsAllocator (run_of_pages page n ++ used) free after
alloc_page-fresh n used free m v e room = rw (alloc_page-cut n m e room) (
  omega arith,
  above,
  unfold cut_off in refl,
  unfold cut_off in
      record {
        chain = v.chain;
        count = v.count;
        apart = rw (append_assoc (run_of_pages base n) used free) (
            distinct-run_of_pages m.kern_mem_curr base n (used ++ free) above
              (Pages-append m.kern_mem_curr used free v.used_pages v.free_pages) v.apart);
        used_pages =
            Pages-run_of_pages (base + n * page_size) base n used (omega arith) (omega arith)
              (Pages-mono m.kern_mem_curr (base + n * page_size) used (omega arith) v.used_pages);
        free_pages =
            Pages-mono m.kern_mem_curr (base + n * page_size) free (omega arith) v.free_pages;
        in_range = omega arith;
      },
)
  where
    base : ℕ
    base = round_page m.kern_mem_curr

    above : m.kern_mem_curr ≤ base
    above = omega arith
