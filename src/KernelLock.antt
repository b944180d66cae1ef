-- ===== src/KernelLock.antt =====
-- The recursive lock of the kernel: lock_kernel and unlock_kernel of kernel/smp/smp.c.
use risc_v_qemu_kernel.Prelude.{
  ℕ, zero, suc, ◌+◌, ◌-◌, ◌≡◌, ◌≢◌, refl, ◌∙◌, Bool, true, false, ◌==◌, if◌then◌else◌, arith,
}
use risc_v_qemu_kernel.Prelude.Int.{ℤ, pos, negsuc, eq_ℤ}
use risc_v_qemu_kernel.Kernel.{LockStatus, unlocked, locked}
use risc_v_qemu_kernel.Spin.{spin_lock_try_acquire, spin_lock_release}

-- `kernel_lock`, `bkl_owner` and `bkl_depth`; the depth of an owner is positive.
pub record Bkl : Type 0 where
  pub kernel_lock : LockStatus
  pub bkl_owner : ℤ
  pub bkl_depth : ℕ

-- False where the core waits for the lock, in the state as it was.
unfoldable pub lock_kernel : (cpuid : ℕ) → Bkl → Bool × Bkl
unfolding spin_lock_try_acquire
lock_kernel cpuid b =
    let (won, after) = spin_lock_try_acquire b.kernel_lock in
    if eq_ℤ b.bkl_owner (pos cpuid)
    then (true, record b { bkl_depth = b.bkl_depth + 1 })
    else if won
    then (true, record { kernel_lock = after; bkl_owner = pos cpuid; bkl_depth = 1 })
    else (false, b)

unfoldable pub unlock_kernel : (cpuid : ℕ) → Bkl → Bkl
unfolding spin_lock_release
unlock_kernel cpuid b =
    if eq_ℤ b.bkl_owner (pos cpuid)
    then if b.bkl_depth == 1
      then record {
        kernel_lock = spin_lock_release b.kernel_lock;
        bkl_owner = negsuc 0;
        bkl_depth = 0;
      }
      else record b { bkl_depth = b.bkl_depth - 1 }
    else b

abbrev pub free_bkl : Bkl
free_bkl = record { kernel_lock = unlocked; bkl_owner = negsuc 0; bkl_depth = 0 }

abbrev pub held_bkl : (cpuid depth : ℕ) → Bkl
held_bkl cpuid depth = record { kernel_lock = locked; bkl_owner = pos cpuid; bkl_depth = depth }

-- `n` calls in a row.
unfoldable pub lock_times : (n cpuid : ℕ) → Bkl → Bkl
lock_times zero cpuid b = b
lock_times (suc n) cpuid b = lock_times n cpuid (lock_kernel cpuid b).1

unfoldable pub unlock_times : (n cpuid : ℕ) → Bkl → Bkl
unlock_times zero cpuid b = b
unlock_times (suc n) cpuid b = unlock_times n cpuid (unlock_kernel cpuid b)

lock_again : (cpuid d : ℕ) → lock_kernel cpuid (held_bkl cpuid d) ≡ (true, held_bkl cpuid (d + 1))
unfolding lock_kernel
lock_again cpuid d = ground arith

unlock_one :
    (cpuid d : ℕ) → unlock_kernel cpuid (held_bkl cpuid (suc (suc d))) ≡ held_bkl cpuid (suc d)
unfolding unlock_kernel
unlock_one cpuid d = ground arith

unlock_last : (cpuid : ℕ) → unlock_kernel cpuid (held_bkl cpuid 1) ≡ free_bkl
unfolding unlock_kernel
unlock_last cpuid = ground arith

+_suc : (d n : ℕ) → d + 1 + n ≡ d + suc n
+_suc d n = omega arith

lock_times-held : (n cpuid d : ℕ) → lock_times n cpuid (held_bkl cpuid d) ≡ held_bkl cpuid (d + n)
unfolding lock_times
lock_times-held zero cpuid d = ground arith
lock_times-held (suc n) cpuid d =
    rw (lock_again cpuid d, lock_times-held n cpuid (d + 1), +_suc d n) refl

unlock_times-held : (n cpuid : ℕ) → unlock_times (suc n) cpuid (held_bkl cpuid (suc n)) ≡ free_bkl
unfolding unlock_times
unlock_times-held zero cpuid = unlock_last cpuid
unlock_times-held (suc n) cpuid = rw (unlock_one cpuid n) (unlock_times-held n cpuid)

one_+ : (n : ℕ) → 1 + n ≡ suc n
one_+ n = omega arith

-- A core may take the free lock any number of times in a row: it owns it then to that depth, every other
-- core waits, and after as many releases, and not before the last of them, the lock is free again.
pub nested_lock :
    (n cpuid other d : ℕ)
    → other ≢ cpuid
    → (lock_times (suc n) cpuid free_bkl ≡ held_bkl cpuid (suc n))
      × (lock_kernel other (held_bkl cpuid d) ≡ (false, held_bkl cpuid d))
      × (unlock_kernel other (held_bkl cpuid d) ≡ held_bkl cpuid d)
      × (unlock_kernel cpuid (held_bkl cpuid (suc (suc n))) ≡ held_bkl cpuid (suc n))
      × (unlock_times (suc n) cpuid (lock_times (suc n) cpuid free_bkl) ≡ free_bkl)
nested_lock n cpuid other d ne = (
  all_taken,
  unfold lock_kernel in ground arith,
  unfold unlock_kernel in ground arith,
  unlock_one cpuid n,
  rw all_taken (unlock_times-held n cpuid),
)
  where
    all_taken : lock_times (suc n) cpuid free_bkl ≡ held_bkl cpuid (suc n)
    all_taken = unfold lock_times lock_kernel in (lock_times-held n cpuid 1 ∙ rw (one_+ n) refl)
