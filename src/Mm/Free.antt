-- ===== src/Mm/Free.antt =====
-- `freePage` of kernel/mm/mm.c puts a page back; a page that is freed and allocated again is the same.
use risc_v_qemu_kernel.Prelude.{
  ℕ, ◌+◌, ◌≡◌, ◌≢◌, refl, true, false, List, [], ◌∷◌, ◌++◌, ◌==◌, has, without, distinct, arith,
  has-append, has-without, without-absent, without-append, distinct-without, distinct-insert,
  distinct-apart, Bool-cases, leb, ltb, ◌&&◌, if◌then◌else◌, inl, inr, update,
}
use risc_v_qemu_kernel.Mm.{Mm, alloc_page, free_page, page_size}
use risc_v_qemu_kernel.Mm.Allocator.{Pages, IsAllocator, Pages-aligned, Chain-frame}

Pages-without : (limit p : ℕ) (ps : List ℕ) → Pages limit ps → Pages limit (without p ps)
Pages-without limit p [] all = tt
Pages-without limit p (q ∷ qs) all = elim (Bool-cases (p == q)) [
  | inl same ↦ rw same (Pages-without limit p qs all.2)
  | inr other ↦ rw other (all.0, all.1, Pages-without limit p qs all.2)
]

-- Moving a number from the first part of a list to the front of the second.
distinct-move :
    (p : ℕ) (xs ys : List ℕ)
    → distinct (xs ++ ys) ≡ true
    → has p ys ≡ false
    → distinct (without p xs ++ p ∷ ys) ≡ true
distinct-move p xs ys d out =
    distinct-insert p (without p xs) ys
      (rw (← without-absent p ys out, ← without-append p xs ys) (distinct-without p (xs ++ ys) d))
      (ground (arith, has-append p (without p xs) ys, has-without p p xs))

linked : ℕ → Mm → Mm
linked p m = record m {
  mem = update m.mem p m.free_page_list;
  free_page_list = p;
  free_page_list_count = m.free_page_list_count + 1;
}

freed : (p : ℕ) (m : Mm) → p ≢ 0 → free_page p m ≡ linked p m
unfolding free_page linked
freed p m ne = ground arith

-- `freePage` of a page in use: it is the first page of the free list, and not in use any more.
pub free_page-IsAllocator :
    (used : List ℕ) (p : ℕ) (free : List ℕ) (m : Mm)
    → IsAllocator used free m
    → has p used ≡ true
    → p ≢ 0
    → IsAllocator (without p used) (p ∷ free) (free_page p m)
free_page-IsAllocator used p free m v h ne = rw (freed p m ne) (
    unfold linked in
    record {
      chain = (
        refl,
        ne,
        rw (at_page) (
            Chain-frame m.mem (update m.mem p m.free_page_list) m.free_page_list free
              (λ q k. ground (arith, distinct-apart q used free, out, k)) v.chain),
      );
      count = omega (arith, v.count);
      apart = distinct-move p used free v.apart out;
      used_pages = Pages-without m.kern_mem_curr p used v.used_pages;
      free_pages =
          let a = Pages-aligned m.kern_mem_curr p used h v.used_pages in (a.0, a.1, v.free_pages);
      in_range = v.in_range;
    })
  where
    at_page : update m.mem p m.free_page_list p ≡ m.free_page_list
    at_page = ground arith

    out : has p free ≡ false
    out = distinct-apart p used free v.apart h

-- A page that was just freed is the next that is allocated: the free list and all memory outside
-- the page are as before, and the page is zero.
pub alloc_page-free_page :
    (p : ℕ) (m : Mm)
    → p ≢ 0
    → let (page, after) = alloc_page 1 (free_page p m) in
      (page ≡ p)
      × (after.free_page_list ≡ m.free_page_list)
      × (after.free_page_list_count ≡ m.free_page_list_count)
      × (after.kern_mem_curr ≡ m.kern_mem_curr)
      × ((a : ℕ) → after.mem a ≡ (if leb p a && ltb a (p + page_size) then 0 else m.mem a))
unfolding alloc_page
alloc_page-free_page p m ne =
    rw (freed p m ne)
      (unfold linked in (ground arith, ground arith, ground arith, ground arith, λ a. ground arith))
