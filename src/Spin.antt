-- ===== src/Spin.antt =====
-- The spin locks of kernel/locking/lock.c. The loop of `spin_lock_acquire` repeats the try while it
-- fails; an operation that has to spin is `Control.spins`, with the state as it was.
use risc_v_qemu_kernel.Prelude.{◌≡◌, Bool, true, false, if◌then◌else◌}
use risc_v_qemu_kernel.Kernel.{Kernel, Control, spins, LockStatus, unlocked, locked}

abbrev pub is_locked : LockStatus → Bool
is_locked unlocked = false
is_locked locked = true

unfoldable pub spin_lock_init : LockStatus → LockStatus
spin_lock_init s = unlocked

-- The atomic swap writes LOCKED and returns what was there: success is to have found UNLOCKED.
unfoldable pub spin_lock_try_acquire : LockStatus → Bool × LockStatus
spin_lock_try_acquire unlocked = (true, locked)
spin_lock_try_acquire locked = (false, locked)

unfoldable pub spin_lock_release : LockStatus → LockStatus
spin_lock_release s = unlocked

-- A critical section behind a spin lock with status `s`, which `set` writes: if the try fails, the
-- caller waits in the state that it found.
unfoldable pub guarded :
    LockStatus
    → (LockStatus → Kernel → Kernel)
    → (Kernel → Control × Kernel)
    → Kernel
    → Control × Kernel
unfolding spin_lock_try_acquire
guarded s set section k =
    let (won, after) = spin_lock_try_acquire s in if won then section (set after k) else (spins, k)

-- What the section keeps, the guarded section keeps.
pub guarded-keeps :
    (P : Kernel → Type 0) (s : LockStatus) (set : LockStatus → Kernel → Kernel)
    (section : Kernel → Control × Kernel) (k : Kernel)
    → P k
    → P (section (set locked k)).1
    → P (guarded s set section k).1
unfolding guarded
guarded-keeps P unlocked set section k h inside = inside
guarded-keeps P locked set section k h inside = h

pub guarded-free :
    (s : LockStatus) (set : LockStatus → Kernel → Kernel) (section : Kernel → Control × Kernel)
    (k : Kernel)
    → s ≡ unlocked
    → guarded s set section k ≡ section (set locked k)
unfolding guarded
guarded-free s set section k e = rw e
