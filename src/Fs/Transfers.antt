-- ===== src/Fs/Transfers.antt =====
-- Reading sectors and blocks after writing others or the same.
use risc_v_qemu_kernel.Prelude.{ℕ, ◌+◌, ◌-◌, ◌*◌, ◌≤◌, ◌<◌, ◌≡◌, ap, inl, inr, arith, ◌⊎◌}
use risc_v_qemu_kernel.Fs.Card.{Card}

same_place : (g i : ℕ) → 512 * g + i - 512 * g ≡ i
same_place g i = omega arith

module _ (card : Card) where
  open card use {D, sd_read, sd_write, read-write}

  pub read-write_same :
      (n f i : ℕ) (b : ℕ → ℕ) (d : D) → i < 512 * n → sd_read n f (sd_write n f b d) i ≡ b i
  read-write_same n f i b d h = ground (arith, read-write n f b d n f i h, ap b (same_place f i))

  -- Sectors that do not meet.
  pub read-write_apart :
      (n f m g i : ℕ) (b : ℕ → ℕ) (d : D)
      → (f + n ≤ g) ⊎ (g + m ≤ f)
      → i < 512 * m
      → sd_read m g (sd_write n f b d) i ≡ sd_read m g d i
  read-write_apart n f m g i b d (inl h) lt = ground (arith, read-write n f b d m g i lt)
  read-write_apart n f m g i b d (inr h) lt = ground (arith, read-write n f b d m g i lt)
