-- ===== src/Mutex/Init.antt =====
-- `do_mutex_lock_init` of kernel/locking/lock.c: a key names one lock.
use mathlib.Core.Path.{fun_ext}
use risc_v_qemu_kernel.Prelude.{ℕ, ◌<◌, ◌≡◌, refl, false, update, arith}
use risc_v_qemu_kernel.Prelude.Int.{ℤ, pos, negsuc, eq_ℤ}
use risc_v_qemu_kernel.Kernel.{Kernel, lock_num, unused}
use risc_v_qemu_kernel.Slots.{
  Slot, existing, fresh, full, slot_for, KeysUnique, slot_for-existing, slot_for-fresh,
  slot_for-again, slot_for-full, slot_for-KeysUnique,
}
use risc_v_qemu_kernel.Mutex.{do_mutex_lock_init, take_slot, set_key}

abbrev pub keys : Kernel → ℕ → ℤ
keys k i = (k.mlocks i).key

took :
    (key : ℕ) (i : ℕ) (k : Kernel) (s : Slot)
    → slot_for lock_num (keys k) (pos key) ≡ s
    → (take_slot (pos key) s k).0 ≡ pos i
    → let m = (take_slot (pos key) s k).1 in
      (i < lock_num) × (keys m i ≡ pos key) × (slot_for lock_num (keys m) (pos key) ≡ existing i)
unfolding take_slot
took key i k (existing j) e r = ground (arith, slot_for-existing lock_num (keys k) (pos key) j e)
took key i k (fresh j) e r = ground (
  arith,
  slot_for-fresh lock_num (keys k) (pos key) j e,
  slot_for-again lock_num (keys k) (pos key) j e,
)
took key i k full e r = absurd (cc)

-- If `do_mutex_lock_init` returns a lock for a key, the lock has that key, and a second call with
-- the key returns the same lock and changes nothing.
pub do_mutex_lock_init_again :
    (key i : ℕ) (k : Kernel)
    → (do_mutex_lock_init (pos key) k).0 ≡ pos i
    → let m = (do_mutex_lock_init (pos key) k).1 in
      (i < lock_num) × (keys m i ≡ pos key) × (do_mutex_lock_init (pos key) m ≡ (pos i, m))
unfolding do_mutex_lock_init
do_mutex_lock_init_again key i k r =
    let h = took key i k (slot_for lock_num (keys k) (pos key)) refl r in
    (h.0, h.1, unfold take_slot in rw (h.2))

keys-set_key : (i : ℕ) (key : ℤ) (k : Kernel) → keys (set_key i key k) ≡ update (keys k) i key
unfolding set_key
keys-set_key i key k = fun_ext λ j. ground arith

took-KeysUnique :
    (key : ℕ) (k : Kernel) (s : Slot)
    → slot_for lock_num (keys k) (pos key) ≡ s
    → KeysUnique lock_num (keys k)
    → KeysUnique lock_num (keys (take_slot (pos key) s k).1)
unfolding take_slot
took-KeysUnique key k (existing j) e u = u
took-KeysUnique key k (fresh j) e u =
    rw (keys-set_key j (pos key) k) (slot_for-KeysUnique lock_num (keys k) (pos key) j e u)
took-KeysUnique key k full e u = u

-- `do_mutex_lock_init` never gives one key to two locks.
pub do_mutex_lock_init-KeysUnique :
    (key : ℤ) (k : Kernel)
    → KeysUnique lock_num (keys k)
    → KeysUnique lock_num (keys (do_mutex_lock_init key k).1)
unfolding do_mutex_lock_init
do_mutex_lock_init-KeysUnique (negsuc n) k u = u
do_mutex_lock_init-KeysUnique (pos n) k u =
    took-KeysUnique n k (slot_for lock_num (keys k) (pos n)) refl u

missed :
    (key : ℕ) (n : ℕ) (k : Kernel) (s : Slot)
    → slot_for lock_num (keys k) (pos key) ≡ s
    → (take_slot (pos key) s k).0 ≡ negsuc n
    → ((take_slot (pos key) s k).1 ≡ k)
      × ((j : ℕ)
          → j < lock_num
          → (eq_ℤ (pos key) (keys k j) ≡ false) × (eq_ℤ (keys k j) unused ≡ false))
unfolding take_slot
missed key n k (existing j) e r = absurd (cc)
missed key n k (fresh j) e r = absurd (cc)
missed key n k full e r = (refl, λ j h. slot_for-full lock_num (keys k) (pos key) j e h)

-- If `do_mutex_lock_init` fails for a key that is not negative, it has changed nothing, no lock has
-- the key and no lock is unused.
pub do_mutex_lock_init_fails :
    (key n : ℕ) (k : Kernel)
    → (do_mutex_lock_init (pos key) k).0 ≡ negsuc n
    → ((do_mutex_lock_init (pos key) k).1 ≡ k)
      × ((j : ℕ)
          → j < lock_num
          → (eq_ℤ (pos key) (keys k j) ≡ false) × (eq_ℤ (keys k j) unused ≡ false))
unfolding do_mutex_lock_init
do_mutex_lock_init_fails key n k r = missed key n k (slot_for lock_num (keys k) (pos key)) refl r
