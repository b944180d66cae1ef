-- ===== src/Fs/Maps/Alloc.antt =====
-- Allocation in a bitmap on the card: alloc_inode and alloc_block.
use mathlib.Core.Path.{ap₂}
use risc_v_qemu_kernel.Prelude.{
  ℕ, zero, suc, ◌+◌, ◌*◌, ◌/◌, ◌%◌, ◌≤◌, ◌<◌, ◌≡◌, ◌≢◌, refl, ◌∙◌, ap, Bool, true, false, none,
  some, ◌==◌, if◌then◌else◌, arith, Bool-cases, Option-cases, inl, inr, ◌⊎◌, update, ==_iff,
}
use risc_v_qemu_kernel.Fs.{Fs, u32, minus_one, block_map_sectors, inode_map_sectors}
use risc_v_qemu_kernel.Fs.Card.{Card, read_sectors, write_sectors, ensure_sb}
use risc_v_qemu_kernel.Fs.Transfers.{read-write_same, read-write_apart}
use risc_v_qemu_kernel.Fs.Maps.{
  bit_of, set_bit, free_in_sector, alloc_bit, alloc_block, alloc_inode, block_map, inode_map,
}
use risc_v_qemu_kernel.Fs.Maps.Bits.{sector_bit-set_bit, sector_bit, Scanned, free_in_sector_lem}

here_or_later : (i j : ℕ) → i ≤ j → (j ≡ i) ⊎ (i + 1 ≤ j)
here_or_later i j h = omega arith

sector_of : (i a bit : ℕ) → a < 512 → bit < 8 → (i * 512 * 8 + a * 8 + bit) / 4096 ≡ i
sector_of i a bit h k = omega arith

place_of : (i a bit : ℕ) → a < 512 → bit < 8 → (i * 512 * 8 + a * 8 + bit) % 4096 ≡ a * 8 + bit
place_of i a bit h k = omega arith

byte_place : (a bit : ℕ) → bit < 8 → (a * 8 + bit) / 8 ≡ a
byte_place a bit h = omega arith

bit_place : (a bit : ℕ) → bit < 8 → (a * 8 + bit) % 8 ≡ bit
bit_place a bit h = omega arith

in_sector : (x i o : ℕ) → x / 4096 ≡ i → o < 4096 → (x == i * 512 * 8 + o) ≡ ((x % 4096) == o)
in_sector x i o e h = ground arith

not_in_sector : (x i o : ℕ) → (x / 4096 == i) ≡ false → o < 4096 → (x == i * 512 * 8 + o) ≡ false
not_in_sector x i o e h = ground arith

+_assoc : (a b c : ℕ) → a + b + c ≡ a + (b + c)
+_assoc a b c = omega arith

if_true : {A : Type 0} (b : Bool) (x y : A) → b ≡ true → (if b then x else y) ≡ x
if_true b x y e = rw e refl

module _ (card : Card) where
  open card use {D}

  -- Bit `x` of the map that starts at sector `start`.
  abbrev pub map_bit : (start x : ℕ) → Fs D → Bool
  map_bit start x fs = sector_bit (x % 4096) (read_sectors card 1 (start + x / 4096) fs)

  -- A write of the sector `i` of a map, seen through the bits.
  pub map_bit-write :
      (start i x : ℕ) (buf : ℕ → ℕ) (fs : Fs D)
      → start + i < u32
      → start + x / 4096 < u32
      → map_bit start x (write_sectors card 1 (start + i) buf fs)
        ≡ (if x / 4096 == i then sector_bit (x % 4096) buf else map_bit start x fs)
  map_bit-write start i x buf fs hi hx = elim (Bool-cases (x / 4096 == i)) [
    | inl same ↦
        let at : x / 4096 ≡ i = ground arith in
        rw (same, at)
          (ap (bit_of (x % 4096 % 8))
            (read-write_same card 1 ((start + i) % u32) (x % 4096 / 8) buf fs.disk (omega arith)))
    | inr other ↦
        let apart : x / 4096 ≢ i = λ e. cc (other, (==_iff (x / 4096) i).1 e) in
        rw other (
          ap (bit_of (x % 4096 % 8)) (
            read-write_apart card 1 ((start + i) % u32) 1 ((start + x / 4096) % u32) (x % 4096 / 8)
              buf fs.disk (omega arith) (omega arith)))
  ]

  -- What allocation gives: the first bit that is clear, and this bit is set; or nothing, if all are set.
  abbrev pub Allocated : (n i start : ℕ) → Fs D → ℕ → Fs D → Type 0
  Allocated n i start fs r after =
      ((r ≡ minus_one)
        × (after ≡ fs)
        × ((x : ℕ) → i ≤ x / 4096 → x / 4096 < i + n → map_bit start x fs ≡ true))
      ⊎ ((i ≤ r / 4096)
          × (r / 4096 < i + n)
          × (map_bit start r fs ≡ false)
          × ((x : ℕ) → i ≤ x / 4096 → x < r → map_bit start x fs ≡ true)
          × ((x : ℕ)
              → start + x / 4096 < u32
              → map_bit start x after ≡ (if x == r then true else map_bit start x fs)))

  -- The bit of the sector, as a bit of the map.
  merge :
      (start i x a bit : ℕ) (fs : Fs D)
      → a < 512
      → bit < 8
      → let buf = read_sectors card 1 (start + i) fs in
        (if x / 4096 == i
          then sector_bit (x % 4096) (update buf a (set_bit bit (buf a)))
          else map_bit start x fs)
        ≡ (if x == i * 512 * 8 + a * 8 + bit then true else map_bit start x fs)
  merge start i x a bit fs ha hb = elim (Bool-cases (x / 4096 == i)) [
    | inl same ↦
        let at : x / 4096 ≡ i = ground arith in
        rw
          (
            same,
            +_assoc (i * 512 * 8) (a * 8) bit,
            in_sector x i (a * 8 + bit) at (omega arith),
            at,
          )
          (sector_bit-set_bit (x % 4096) a bit (read_sectors card 1 (start + i) fs) hb)
    | inr other ↦
        rw
          (
            other,
            +_assoc (i * 512 * 8) (a * 8) bit,
            not_in_sector x i (a * 8 + bit) other (omega arith),
          )
          refl
  ]

  found :
      (n i start a bit : ℕ) (fs : Fs D)
      → start + (i + suc n) < u32
      → let buf = read_sectors card 1 (start + i) fs in
        Scanned 512 0 buf (some (a, bit))
        → Allocated
            (suc n)
            i
            start
            fs
            (i * 512 * 8 + a * 8 + bit)
            (write_sectors card 1 (start + i) (update buf a (set_bit bit (buf a))) fs)
  found n i start a bit fs h s = inr (
    omega (arith, s.1, s.2),
    omega (arith, s.1, s.2),
    ap₂ (λ p q. map_at p q) (sector_of i a bit s.1 s.2) (place_of i a bit s.1 s.2)
        ∙ rw (byte_place a bit s.2, bit_place a bit s.2) (s.3),
    λ x lo lt. elim (Bool-cases (x / 4096 == i)) [
      | inl same ↦
          let at : x / 4096 ≡ i = ground arith in rw at (s.4 (x % 4096) (omega arith) (omega arith))
      | inr other ↦ absurd (cc (other, (==_iff (x / 4096) i).1 (omega (arith, s.1, s.2))))
    ],
    λ x hx.
        map_bit-write start i x (update buf a (set_bit bit (buf a))) fs (omega arith) hx
        ∙ merge start i x a bit fs s.1 s.2,
  )
    where
      buf : ℕ → ℕ
      buf = read_sectors card 1 (start + i) fs

      map_at : (p q : ℕ) → Bool
      map_at p q = sector_bit q (read_sectors card 1 (start + p) fs)

  later :
      (n i start r : ℕ) (fs after : Fs D)
      → Scanned 512 0 (read_sectors card 1 (start + i) fs) none
      → Allocated n (i + 1) start fs r after
      → Allocated (suc n) i start fs r after
  later n i start r fs after full (inl a) = inl (
    a.0,
    a.1,
    λ x lo hi. elim (here_or_later i (x / 4096) lo) [
      | inl at ↦ rw at (full (x % 4096) (omega arith) (omega arith))
      | inr next ↦ a.2 x next (omega arith)
    ],
  )
  later n i start r fs after full (inr a) = inr (
    omega (arith, a.0),
    omega (arith, a.1),
    a.2,
    λ x lo lt. elim (here_or_later i (x / 4096) lo) [
      | inl at ↦ rw at (full (x % 4096) (omega arith) (omega arith))
      | inr next ↦ a.3 x next lt
    ],
    a.4,
  )

  alloc_bit_lem :
      (n i start : ℕ) (fs : Fs D)
      → start + (i + n) < u32
      → let (r, after) = alloc_bit card n i start fs in Allocated n i start fs r after
  unfolding alloc_bit
  alloc_bit_lem zero i start fs h = inl (refl, refl, λ x lo hi. absurd (omega arith))
  alloc_bit_lem (suc n) i start fs h =
      let s = free_in_sector_lem 512 0 (read_sectors card 1 (start + i) fs) in
      elim (Option-cases (free_in_sector 512 0 (read_sectors card 1 (start + i) fs))) [
        | inl none_free ↦
            rw (none_free, alloc_bit)
              (later n i start (alloc_bit card n (i + 1) start fs).0 fs
                (alloc_bit card n (i + 1) start fs).1 (rw none_free at s)
                (alloc_bit_lem n (i + 1) start fs (omega arith)))
        | inr (slot, free) ↦
            rw (free, alloc_bit) (found n i start slot.0 slot.1 fs h (rw free at s))
      ]

  pub ensure_sb-known : (fs : Fs D) → fs.sb_valid ≡ true → ensure_sb card fs ≡ fs
  unfolding ensure_sb
  ensure_sb-known fs e = if_true fs.sb_valid fs _ e

  -- With the superblock known, and its map below sector 2^32, `alloc_block` returns the first block
  -- that is free and marks it, and no other; it returns -1, and changes nothing, only if all 131072
  -- blocks are taken.
  pub alloc_block_lem :
      (fs : Fs D)
      → fs.sb_valid ≡ true
      → block_map card fs + block_map_sectors < u32
      → let (r, after) = alloc_block card fs in
        Allocated block_map_sectors 0 (block_map card fs) fs r after
  unfolding alloc_block
  alloc_block_lem fs e h =
      rw (ensure_sb-known fs e)
        (alloc_bit_lem block_map_sectors 0 (block_map card fs) fs (omega arith))

  -- The same for `alloc_inode` and its 4096 inodes.
  pub alloc_inode_lem :
      (fs : Fs D)
      → fs.sb_valid ≡ true
      → inode_map card fs + inode_map_sectors < u32
      → let (r, after) = alloc_inode card fs in
        Allocated inode_map_sectors 0 (inode_map card fs) fs r after
  unfolding alloc_inode
  alloc_inode_lem fs e h =
      rw (ensure_sb-known fs e)
        (alloc_bit_lem inode_map_sectors 0 (inode_map card fs) fs (omega arith))
