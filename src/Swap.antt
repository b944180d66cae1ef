-- ===== src/Swap.antt =====
-- Swapping pages out and in: kernel/mm/swap.c.
--
-- The SD card is a state of any type with two operations of the firmware, bios_sd_read and
-- bios_sd_write, for the eight sectors of a page: both are parameters. The assertion at the start of
-- `swap_out` is left out.
pub mod Slots
pub mod Pages
use risc_v_qemu_kernel.Prelude.{
  ℕ, zero, suc, ◌+◌, ◌-◌, ◌*◌, ◌/◌, ◌%◌, Bool, true, false, not, ◌&&◌, Option, none, some, leb, ltb,
  ◌==◌, if◌then◌else◌, find, update,
}
use risc_v_qemu_kernel.Prelude.Int.{ℤ, pos, ◌+ℤ◌, ◌-ℤ◌, ltb_ℤ}
use risc_v_qemu_kernel.Mm.{Mm, u64, page_size, store, free_page}
use risc_v_qemu_kernel.PageTable.{pa2kva, get_pte}

-- `active_page_t`; `pte` is the address of the entry.
pub record ActivePage : Type 0 where
  pub kva : ℕ
  pub pte : ℕ
  pub vaddr : ℕ
  pub pid : ℕ
  pub valid : Bool

-- `MAX_ALLOWABLE_PAGES` and `SWAP_MAX_PAGES`
abbrev pub max_allowable_pages : ℕ
max_allowable_pages = 4

abbrev pub swap_max_pages : ℕ
swap_max_pages = 65536

pub record Swap (D : Type 0) : Type 0 where
  pub active_pages : ℕ → ActivePage
  pub occupied : ℕ → Bool
  pub clock_head : ℕ
  pub active_page_count : ℤ
  pub swap_start_sec : ℕ
  pub card : D
  pub mm : Mm

abbrev pub next_index : ℕ → ℕ
next_index i = (i + 1) % max_allowable_pages

-- `_PAGE_ACCESSED`, and the entry without it.
abbrev pub accessed : ℕ → Bool
accessed entry = entry / 64 % 2 == 1

abbrev pub clear_accessed : ℕ → ℕ
clear_accessed entry = entry / 128 * 128 + entry % 64

module _ {D : Type 0} where
  abbrev pub sector_of : ℕ → Swap D → ℕ
  sector_of swap_index s = s.swap_start_sec + swap_index * 8

  abbrev pub set_page : ℕ → ActivePage → Swap D → Swap D
  set_page i p s = record s { active_pages = update s.active_pages i p }

  -- The two loops of `init_swap`, for the entry `i` of either table.
  pub init_page : ℕ → Swap D → Swap D
  init_page i s = set_page i (record (s.active_pages i) { valid = false }) s

  pub init_slot : ℕ → Swap D → Swap D
  init_slot i s = record s { occupied = update s.occupied i false }

  unfoldable pub get_free_active_page_slot : Swap D → Option ℕ
  get_free_active_page_slot s = find max_allowable_pages (λ i. not (s.active_pages i).valid)

  unfoldable pub claim : Option ℕ → Swap D → Option ℕ × Swap D
  claim none s = (none, s)
  claim (some i) s = (some i, record s { occupied = update s.occupied i true })

  -- `none` where the C code returns -1.
  unfoldable pub get_free_swap_id : Swap D → Option ℕ × Swap D
  unfolding claim
  get_free_swap_id s = claim (find swap_max_pages (λ i. not (s.occupied i))) s

  -- `while (!active_pages[clock_head].valid) …`: false if the fuel ran out.
  unfoldable pub skip_invalid : (fuel head : ℕ) → Swap D → ℕ × Bool
  skip_invalid zero head s = (head, false)
  skip_invalid (suc fuel) head s =
      let rest = skip_invalid fuel (next_index head) s in
      if (s.active_pages head).valid then (head, true) else rest

  -- The clock keeps off a page that was removed.
  unfoldable pub advance : ℕ → Swap D → Swap D
  unfolding skip_invalid
  advance idx s =
      let (head, ended) = skip_invalid max_allowable_pages s.clock_head s in
      if ltb_ℤ (pos 0) s.active_page_count && (s.clock_head == idx)
      then record s { clock_head = head }
      else s

  unfoldable pub remove_found : Option ℕ → Swap D → Swap D
  unfolding advance
  remove_found none s = s
  remove_found (some idx) s =
      advance idx (record (set_page idx (record (s.active_pages idx) { valid = false }) s) {
        active_page_count = s.active_page_count -ℤ pos 1;
      })

  unfoldable pub remove_from_active_list : ℕ → Swap D → Swap D
  unfolding remove_found
  remove_from_active_list page_kva s =
      remove_found (find max_allowable_pages (λ i. (s.active_pages i).kva == page_kva)) s

  -- The loop that looks for the page to replace: a page that was accessed gets a second chance.
  unfoldable pub clock : (fuel : ℕ) → Swap D → Option ℕ × Swap D
  unfolding skip_invalid
  clock zero s = (none, s)
  clock (suc fuel) s =
      let (head, ended) = skip_invalid max_allowable_pages s.clock_head s in
      let entry = s.mm.mem (s.active_pages head).pte in
      let rest = clock fuel (record s {
        clock_head = next_index head;
        mm = store (s.active_pages head).pte (clear_accessed entry) s.mm;
      }) in
      if accessed entry then rest else (some head, record s { clock_head = head })

  module _ (sd_read : D → ℕ → ℕ → ℕ) (sd_write : D → ℕ → (ℕ → ℕ) → D) where
    unfoldable pub swap_write : (kva swap_index : ℕ) → Swap D → Swap D
    swap_write kva swap_index s = record s {
      card = sd_write s.card (sector_of swap_index s) (λ o. s.mm.mem (kva + o));
    }

    unfoldable pub swap_read : (kva swap_index : ℕ) → Swap D → Swap D
    swap_read kva swap_index s = record s {
      mm = record s.mm {
        mem = λ a.
            if leb kva a && ltb a (kva + page_size)
            then sd_read s.card (sector_of swap_index s) (a - kva)
            else s.mm.mem a;
      };
    }

    unfoldable pub swap_in : (kva swap_id : ℕ) → Swap D → Swap D
    unfolding swap_read
    swap_in kva swap_id s =
        let loaded = swap_read kva swap_id s in
        record loaded { occupied = update loaded.occupied swap_id false }

    -- The page `victim` is written to the slot, its entry says where it is, and its frame is free.
    unfoldable pub evict : (victim swap_id : ℕ) → Swap D → Swap D
    unfolding swap_write free_page
    evict victim swap_id s =
        let page = s.active_pages victim in
        let written = swap_write page.kva swap_id s in
        let marked = store page.pte (swap_id * 1024 + 256) written.mm in
        record written { mm = free_page page.kva marked; clock_head = next_index s.clock_head }

    evict_to : ℕ → Option ℕ × Swap D → Option ℕ × Swap D
    unfolding evict
    evict_to victim (none, s) = (none, s)
    evict_to victim (some swap_id, s) = (some victim, evict victim swap_id s)

    choose : Option ℕ × Swap D → Option ℕ × Swap D
    unfolding evict_to get_free_swap_id
    choose (none, s) = (none, s)
    choose (some victim, s) = evict_to victim (get_free_swap_id s)

    -- The index of the page that made room.
    unfoldable pub swap_out : (fuel : ℕ) → Swap D → Option ℕ × Swap D
    unfolding clock choose
    swap_out fuel s = choose (clock fuel s)
