-- ===== src/Mm/Allocator.antt =====
-- What the page allocator of kernel/mm/mm.c keeps: the free list is a chain of pages that nobody uses.
use risc_v_qemu_kernel.Prelude.{
  ℕ, ◌+◌, ◌%◌, ◌≤◌, ◌<◌, ◌≡◌, ◌≢◌, refl, true, false, List, [], ◌∷◌, ◌++◌, has, distinct, length,
  arith,
}
use risc_v_qemu_kernel.Mm.{Mm, u64, page_size}

-- The words from `head` on lead through the pages of the list to 0.
abbrev pub Chain : (ℕ → ℕ) → ℕ → List ℕ → Type 0
Chain mem head [] = head ≡ 0
Chain mem head (p ∷ ps) = (head ≡ p) × (p ≢ 0) × Chain mem (mem p) ps

-- Each page is aligned and ends below `limit`.
abbrev pub Pages : ℕ → List ℕ → Type 0
Pages limit [] = Unit {0}
Pages limit (p ∷ ps) = (p % page_size ≡ 0) × (p + page_size ≤ limit) × Pages limit ps

-- `used` are the pages that callers hold, `free` those of the free list.
pub record IsAllocator (used free : List ℕ) (m : Mm) : Type 0 where
  pub chain : Chain m.mem m.free_page_list free
  pub count : m.free_page_list_count ≡ length free
  pub apart : distinct (used ++ free) ≡ true
  pub used_pages : Pages m.kern_mem_curr used
  pub free_pages : Pages m.kern_mem_curr free
  pub in_range : m.kern_mem_curr < u64

pub Pages-mono : (limit more : ℕ) (ps : List ℕ) → limit ≤ more → Pages limit ps → Pages more ps
Pages-mono limit more [] h all = tt
Pages-mono limit more (p ∷ ps) h all = (all.0, omega arith, Pages-mono limit more ps h all.2)

-- A page that ends above the limit is in no list of pages below it.
pub beyond-Pages : (limit p : ℕ) (ps : List ℕ) → limit ≤ p → Pages limit ps → has p ps ≡ false
beyond-Pages limit p [] h all = refl
beyond-Pages limit p (q ∷ qs) h all = ground (arith, beyond-Pages limit p qs)

-- Changing memory outside the pages of a chain keeps the chain.
pub Chain-frame :
    (mem mem' : ℕ → ℕ) (head : ℕ) (ps : List ℕ)
    → ((p : ℕ) → has p ps ≡ true → mem' p ≡ mem p)
    → Chain mem head ps
    → Chain mem' head ps
Chain-frame mem mem' head [] same c = c
Chain-frame mem mem' head (p ∷ ps) same c = (
  c.0,
  c.1,
  rw (same p (ground arith))
      (Chain-frame mem mem' (mem p) ps (λ q h. same q (ground (arith, h))) c.2),
)

pub Pages-aligned :
    (limit p : ℕ) (ps : List ℕ)
    → has p ps ≡ true
    → Pages limit ps
    → (p % page_size ≡ 0) × (p + page_size ≤ limit)
Pages-aligned limit p [] h all = absurd (cc)
Pages-aligned limit p (q ∷ qs) h all = ground (arith, Pages-aligned limit p qs)
