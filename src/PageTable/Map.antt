-- ===== src/PageTable/Map.antt =====
-- `map_page` of kernel/mm/mm.c, and the walk of `get_pte`.
use risc_v_qemu_kernel.Prelude.{
  ℕ, ◌/◌, ◌%◌, ◌^◌, ◌<◌, ◌≡◌, ◌≢◌, ◌∙◌, ap, sym, refl, true, some, update, arith,
}
use risc_v_qemu_kernel.Mm.{Mm}
use risc_v_qemu_kernel.PageTable.{
  get_pte, map_page, ensure_table, fill_entry, entry_at, next_table, present, get_pa, get_pfn,
  get_vpn0, get_vpn1, get_vpn2, mapped_flags, set_pfn, set_attribute,
}
use risc_v_qemu_kernel.PageTable.Entry.{set_pfn-get_pa, mapped_flags-bounds}

-- The entries on the way of a virtual address.
abbrev pub at2 : (va pgdir : ℕ) → ℕ
at2 va pgdir = entry_at pgdir (get_vpn2 va)

abbrev pub at1 : (va pgdir : ℕ) → Mm → ℕ
at1 va pgdir m = entry_at (next_table (m.mem (at2 va pgdir))) (get_vpn1 va)

abbrev pub at0 : (va pgdir : ℕ) → Mm → ℕ
at0 va pgdir m = entry_at (next_table (m.mem (at1 va pgdir m))) (get_vpn0 va)

-- Both tables on the way are there, and the last entry is neither of the two that lead to it.
pub record HasTables (va pgdir : ℕ) (m : Mm) : Type 0 where
  pub first : present (m.mem (at2 va pgdir)) ≡ true
  pub second : present (m.mem (at1 va pgdir m)) ≡ true
  pub apart2 : at0 va pgdir m ≢ at2 va pgdir
  pub apart1 : at0 va pgdir m ≢ at1 va pgdir m

ensure_table-present : (at : ℕ) (m : Mm) → present (m.mem at) ≡ true → ensure_table at m ≡ m
unfolding ensure_table
ensure_table-present at m h = rw h refl

map_page-fills :
    (va pa pgdir flags : ℕ) (m : Mm)
    → HasTables va pgdir m
    → map_page va pa pgdir flags m ≡ fill_entry (at0 va pgdir m) pa flags m
unfolding map_page
map_page-fills va pa pgdir flags m t =
    rw
      (
        ensure_table-present (at2 va pgdir) m t.first,
        ensure_table-present (at1 va pgdir m) m t.second,
      )
      refl

-- What the entry holds then.
abbrev pub entry_for : (old pa flags : ℕ) → ℕ
entry_for old pa flags = set_attribute (set_pfn old (pa / 4096)) (mapped_flags flags)

-- A word that is written twice, and the others.
mem-twice :
    (f : ℕ → ℕ) (at v w a : ℕ)
    → (update (update f at v) at w at ≡ w)
      × (update f at v at ≡ v)
      × (a ≢ at → update (update f at v) at w a ≡ f a)
mem-twice f at v w a = (ground arith, ground arith, λ ne. ground arith)

filled_at :
    (at pa flags : ℕ) (m : Mm) → (fill_entry at pa flags m).mem at ≡ entry_for (m.mem at) pa flags
unfolding fill_entry
filled_at at pa flags m =
    (mem-twice m.mem at (set_pfn (m.mem at) (pa / 4096)) _ at).0
    ∙ ap (λ x. set_attribute x (mapped_flags flags))
        (mem-twice m.mem at (set_pfn (m.mem at) (pa / 4096)) 0 at).1

filled_elsewhere :
    (at pa flags a : ℕ) (m : Mm) → a ≢ at → (fill_entry at pa flags m).mem a ≡ m.mem a
unfolding fill_entry
filled_elsewhere at pa flags a m ne = (mem-twice m.mem at (set_pfn (m.mem at) (pa / 4096)) _ a).2 ne

get_pte-same :
    (va pgdir : ℕ) (m n : Mm)
    → n.mem (at2 va pgdir) ≡ m.mem (at2 va pgdir)
    → n.mem (at1 va pgdir m) ≡ m.mem (at1 va pgdir m)
    → get_pte va pgdir n ≡ get_pte va pgdir m
unfolding get_pte
get_pte-same va pgdir m n e2 e1 = rw (e2, e1) refl

get_pte-found :
    (va pgdir : ℕ) (m : Mm) → HasTables va pgdir m → get_pte va pgdir m ≡ some (at0 va pgdir m)
unfolding get_pte
get_pte-found va pgdir m t = rw (t.first, t.second) refl

odd-present : (e b : ℕ) → e % 1024 ≡ b → b % 2 ≡ 1 → present e ≡ true
odd-present e b h o = ground (arith, parity e)
  where
    parity : (x : ℕ) → x % 2 ≡ x % 1024 % 2
    parity x = omega arith

-- With both tables there, `map_page` allocates nothing and changes one word of memory: the entry that
-- `get_pte` finds for the address before and after it. It leads to the physical page, and is present.
pub map_page_lem :
    (va pa pgdir flags : ℕ) (m : Mm)
    → HasTables va pgdir m
    → pa % 4096 ≡ 0
    → pa < 2 ^ 56
    → flags < 1024
    → let after = map_page va pa pgdir flags m in
      let at = at0 va pgdir m in
      (get_pte va pgdir m ≡ some at)
      × (get_pte va pgdir after ≡ some at)
      × (get_pa (after.mem at) ≡ pa)
      × (present (after.mem at) ≡ true)
      × ((a : ℕ) → a ≢ at → after.mem a ≡ m.mem a)
      × (after.free_page_list ≡ m.free_page_list)
      × (after.kern_mem_curr ≡ m.kern_mem_curr)
map_page_lem va pa pgdir flags m t aligned small f = rw (map_page-fills va pa pgdir flags m t) (
  get_pte-found va pgdir m t,
  get_pte-same va pgdir m (fill_entry (at0 va pgdir m) pa flags m)
        (filled_elsewhere (at0 va pgdir m) pa flags (at2 va pgdir) m (λ e. t.apart2 (sym e)))
        (filled_elsewhere (at0 va pgdir m) pa flags (at1 va pgdir m) m (λ e. t.apart1 (sym e)))
      ∙ get_pte-found va pgdir m t,
  ap get_pa (filled_at (at0 va pgdir m) pa flags m) ∙ entry.0,
  ap present (filled_at (at0 va pgdir m) pa flags m)
      ∙ odd-present (entry_for (m.mem (at0 va pgdir m)) pa flags) (mapped_flags flags) entry.2
          bits.1,
  λ a ne. filled_elsewhere (at0 va pgdir m) pa flags a m ne,
  unfold fill_entry in refl,
  unfold fill_entry in refl,
)
  where
    bits : (mapped_flags flags < 1024) × (mapped_flags flags % 2 ≡ 1)
    bits = mapped_flags-bounds flags f

    entry :
        (get_pa (entry_for (m.mem (at0 va pgdir m)) pa flags) ≡ pa)
        × (get_pfn (entry_for (m.mem (at0 va pgdir m)) pa flags) ≡ pa / 4096)
        × (entry_for (m.mem (at0 va pgdir m)) pa flags % 1024 ≡ mapped_flags flags)
    entry = set_pfn-get_pa (m.mem (at0 va pgdir m)) pa (mapped_flags flags) aligned small bits.0
