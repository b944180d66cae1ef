-- ===== src/Slots.antt =====
-- The two scans by which `do_mutex_lock_init`, `do_barrier_init` and `do_condition_init` of
-- kernel/locking choose an entry of their table: the one that has the key, or else an unused one.
use risc_v_qemu_kernel.Prelude.{
  ℕ, ◌<◌, ◌≡◌, false, Option, none, some, update, arith, find, find-some, find-none, find-hit,
}
use risc_v_qemu_kernel.Prelude.Int.{ℤ, eq_ℤ, eq_ℤ→eq, eq_ℤ_refl}
use risc_v_qemu_kernel.Kernel.{unused}

pub data Slot : Type 0 where
  existing fresh : ℕ → Slot
  full : Slot

or_fresh : Option ℕ → Option ℕ → Slot
or_fresh (some i) free = existing i
or_fresh none (some i) = fresh i
or_fresh none none = full

unfoldable pub slot_for : ℕ → (ℕ → ℤ) → ℤ → Slot
unfolding or_fresh
slot_for n keys key =
    or_fresh (find n (λ i. eq_ℤ key (keys i))) (find n (λ i. eq_ℤ (keys i) unused))

-- No two entries of a table of `n` have the same key, but for unused ones.
abbrev pub KeysUnique : ℕ → (ℕ → ℤ) → Type 0
KeysUnique n keys =
    (i j : ℕ) → i < n → j < n → keys i ≡ keys j → eq_ℤ (keys i) unused ≡ false → i ≡ j

module _ (n : ℕ) (keys : ℕ → ℤ) (key : ℤ) where
  -- What the two scans find.
  pub slot_for-existing : (i : ℕ) → slot_for n keys key ≡ existing i → (keys i ≡ key) × (i < n)
  unfolding slot_for
  slot_for-existing i e =
      ground (arith, find-some (λ i. eq_ℤ key (keys i)) n i, eq_ℤ→eq key (keys i))

  pub slot_for-fresh : (i : ℕ) → slot_for n keys key ≡ fresh i → (keys i ≡ unused) × (i < n)
  unfolding slot_for
  slot_for-fresh i e =
      ground (arith, find-some (λ i. eq_ℤ (keys i) unused) n i, eq_ℤ→eq (keys i) unused)

  -- An unused entry is taken only if no entry has the key.
  pub slot_for-absent :
      (i j : ℕ) → slot_for n keys key ≡ fresh i → j < n → eq_ℤ key (keys j) ≡ false
  unfolding slot_for
  slot_for-absent i j e h = find-none (λ i. eq_ℤ key (keys i)) n missed j h
    where
      missed : find n (λ i. eq_ℤ key (keys i)) ≡ none
      missed = ground arith

  -- A table is full only if no entry has the key and none is unused.
  pub slot_for-full :
      (j : ℕ)
      → slot_for n keys key ≡ full
      → j < n
      → (eq_ℤ key (keys j) ≡ false) × (eq_ℤ (keys j) unused ≡ false)
  unfolding slot_for
  slot_for-full j e h = (
    find-none (λ i. eq_ℤ key (keys i)) n (ground arith) j h,
    find-none (λ i. eq_ℤ (keys i) unused) n (ground arith) j h,
  )

  earlier :
      (i j : ℕ) → slot_for n keys key ≡ fresh i → j < i → eq_ℤ key (update keys i key j) ≡ false
  earlier i j e h =
      let inside : j < n = omega (arith, (slot_for-fresh i e).1) in
      ground (arith, slot_for-absent i j e inside)

  -- Once the entry has been given the key, the next search finds that entry.
  pub slot_for-again :
      (i : ℕ) → slot_for n keys key ≡ fresh i → slot_for n (update keys i key) key ≡ existing i
  unfolding slot_for
  slot_for-again i e = rw (
      find-hit (λ j. eq_ℤ key (update keys i key j)) n i (ground (arith, eq_ℤ_refl key))
        (λ j h. earlier i j e h) (slot_for-fresh i e).1)

  -- Taking an unused entry keeps the keys apart.
  pub slot_for-KeysUnique :
      (i : ℕ) → slot_for n keys key ≡ fresh i → KeysUnique n keys → KeysUnique n (update keys i key)
  slot_for-KeysUnique i e u a b ha hb same used =
      ground (arith, u a b, slot_for-absent i a e ha, slot_for-absent i b e hb, eq_ℤ_refl key)
