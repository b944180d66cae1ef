-- ===== src/Tests/Shared.antt =====
-- The kernel lock, and shared pages on the page table of `Tests.Tables`.
use risc_v_qemu_kernel.Prelude.{◌≡◌, false, arith}
use risc_v_qemu_kernel.Prelude.Int.{pos}
use risc_v_qemu_kernel.KernelLock.{
  lock_kernel, unlock_kernel, lock_times, unlock_times, free_bkl, held_bkl, nested_lock,
}
use risc_v_qemu_kernel.SharedPages.{Shared}
use risc_v_qemu_kernel.Tests.Tables.{tables}

nested_lock_example :
    (lock_times 3 0 free_bkl ≡ held_bkl 0 3)
    × (lock_kernel 1 (held_bkl 0 5) ≡ (false, held_bkl 0 5))
    × (unlock_kernel 1 (held_bkl 0 5) ≡ held_bkl 0 5)
    × (unlock_kernel 0 (held_bkl 0 4) ≡ held_bkl 0 3)
    × (unlock_times 3 0 (lock_times 3 0 free_bkl) ≡ free_bkl)
nested_lock_example = nested_lock 2 0 1 5 (omega arith)

abbrev nothing_shared : Shared
nothing_shared = record {
  shm_table =
      λ i. record { key = pos 0; va = 0x9000_0000; pa = 0; ref_count = pos 0; valid = false };
  mm = tables;
}
