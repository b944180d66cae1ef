-- ===== src/SharedPages.antt =====
-- The shared pages of kernel/mm/shm.c.
pub mod Key
use risc_v_qemu_kernel.Prelude.{
  ℕ, ◌+◌, ◌*◌, Bool, true, false, not, ◌&&◌, Option, none, some, ◌==◌, if◌then◌else◌, find, update,
}
use risc_v_qemu_kernel.Prelude.Int.{ℤ, pos, ◌+ℤ◌, ◌-ℤ◌, eq_ℤ}
use risc_v_qemu_kernel.Mm.{Mm, page_size, store, alloc_page, free_page}
use risc_v_qemu_kernel.PageTable.{kva2pa, pa2kva, present, get_pte, map_page}

-- `shm_t`
pub record Shm : Type 0 where
  pub key : ℤ
  pub va : ℕ
  pub pa : ℕ
  pub ref_count : ℤ
  pub valid : Bool

-- `shm_table`, and the memory that it is about.
pub record Shared : Type 0 where
  pub shm_table : ℕ → Shm
  pub mm : Mm

abbrev pub shm_max_num : ℕ
shm_max_num = 16

abbrev pub shm_va_base : ℕ
shm_va_base = 0x9000_0000

-- The loop body of `init_shm`, for the entry `i`.
pub init_shm_entry : ℕ → Shared → Shared
init_shm_entry i s = record s {
  shm_table = update s.shm_table i (record (s.shm_table i) {
    va = shm_va_base + i * page_size;
    ref_count = pos 0;
    valid = false;
  });
}

-- Readable, writable, executable, user and shared.
pub shm_map_page : (va pa pgdir : ℕ) → Mm → Mm
unfolding map_page
shm_map_page va pa pgdir m = map_page va pa pgdir 542 m

abbrev pub has_key : ℤ → Shm → Bool
has_key key e = e.valid && eq_ℤ e.key key

abbrev pub set_entry : ℕ → Shm → Shared → Shared
set_entry i e s = record s { shm_table = update s.shm_table i e }

unfoldable pub get_found : (key : ℤ) (pgdir : ℕ) → Option ℕ → Option ℕ → Shared → ℕ × Shared
unfolding shm_map_page alloc_page
get_found key pgdir (some i) free s =
    let e = s.shm_table i in
    (
      e.va,
      set_entry i (record e { ref_count = e.ref_count +ℤ pos 1 })
          (record s { mm = shm_map_page e.va e.pa pgdir s.mm }),
    )
get_found key pgdir none (some i) s =
    let e = s.shm_table i in
    let (kva, after) = alloc_page 1 s.mm in
    (
      e.va,
      set_entry i (record e { key = key; pa = kva2pa kva; ref_count = pos 1; valid = true })
          (record s { mm = shm_map_page e.va (kva2pa kva) pgdir after }),
    )
get_found key pgdir none none s = (0, s)

-- The scan looks for the key, and for the first entry that is not valid.
unfoldable pub shm_page_get : (key : ℤ) (pgdir : ℕ) → Shared → ℕ × Shared
unfolding get_found
shm_page_get key pgdir s =
    get_found key pgdir (find shm_max_num (λ i. has_key key (s.shm_table i)))
      (find shm_max_num (λ i. not (s.shm_table i).valid)) s

-- One user less; the last one gives the page back.
unfoldable pub drop_user : Option ℕ → Shared → Shared
unfolding free_page
drop_user none s = s
drop_user (some i) s =
    let e = s.shm_table i in
    let left = e.ref_count -ℤ pos 1 in
    if eq_ℤ left (pos 0)
    then set_entry i (record e { ref_count = left; valid = false })
        (record s { mm = free_page (pa2kva e.pa) s.mm })
    else set_entry i (record e { ref_count = left }) s

unfoldable pub detach_at : (addr : ℕ) → Option ℕ → Shared → Shared
unfolding drop_user
detach_at addr none s = s
detach_at addr (some at) s =
    let dropped =
      drop_user (find shm_max_num (λ i. (s.shm_table i).valid && ((s.shm_table i).va == addr))) s in
    if present (s.mm.mem at) then record dropped { mm = store at 0 dropped.mm } else s

unfoldable pub shm_page_dt : (addr pgdir : ℕ) → Shared → Shared
unfolding detach_at get_pte
shm_page_dt addr pgdir s = detach_at addr (get_pte addr pgdir s.mm) s
