-- ===== src/Fs/Maps/Bits.antt =====
-- Setting, clearing and finding the bits of a byte and of a sector.
use risc_v_qemu_kernel.Prelude.{
  ℕ, zero, suc, ◌+◌, ◌*◌, ◌/◌, ◌%◌, ◌≤◌, ◌<◌, ◌≡◌, refl, ◌∙◌, ap, Bool, true, false, not, Option,
  none, some, ◌==◌, if◌then◌else◌, find, find-some, find-first, find-none, arith, Bool-cases,
  ==_iff, update, Option-cases, inl, inr, ◌⊎◌,
}
use risc_v_qemu_kernel.Fs.Maps.{bit_of, set_bit, clear_bit, free_bit, free_in_sector}

pub bit_of-set_bit : (i j b : ℕ) → bit_of j (set_bit i b) ≡ (if j == i then true else bit_of j b)
unfolding bit_of set_bit
bit_of-set_bit zero zero b = ground arith
bit_of-set_bit zero (suc j) b = ap (bit_of j) (half b) ∙ ground arith
  where
    half : (b : ℕ) → (b / 2 * 2 + 1) / 2 ≡ b / 2
    half b = omega arith
bit_of-set_bit (suc i) zero b = ground arith
bit_of-set_bit (suc i) (suc j) b =
    ap (bit_of j) (half (set_bit i (b / 2)) b) ∙ (bit_of-set_bit i j (b / 2) ∙ ground arith)
  where
    half : (x b : ℕ) → (x * 2 + b % 2) / 2 ≡ x
    half x b = omega arith

pub bit_of-clear_bit :
    (i j b : ℕ) → bit_of j (clear_bit i b) ≡ (if j == i then false else bit_of j b)
unfolding bit_of clear_bit
bit_of-clear_bit zero zero b = ground arith
bit_of-clear_bit zero (suc j) b = ap (bit_of j) (half b) ∙ ground arith
  where
    half : (b : ℕ) → b / 2 * 2 / 2 ≡ b / 2
    half b = omega arith
bit_of-clear_bit (suc i) zero b = ground arith
bit_of-clear_bit (suc i) (suc j) b =
    ap (bit_of j) (half (clear_bit i (b / 2)) b) ∙ (bit_of-clear_bit i j (b / 2) ∙ ground arith)
  where
    half : (x b : ℕ) → (x * 2 + b % 2) / 2 ≡ x
    half x b = omega arith

full_byte : find 8 (λ k. not (bit_of k 255)) ≡ none
unfolding find bit_of
full_byte = refl

pub free_bit-none : (b j : ℕ) → free_bit b ≡ none → j < 8 → bit_of j b ≡ true
unfolding free_bit
free_bit-none b j e h = elim (Bool-cases (b == 255)) [
  | inl full ↦
      ap (bit_of j) ((==_iff b 255).0 full)
      ∙ not_false (bit_of j 255) (find-none (λ k. not (bit_of k 255)) 8 full_byte j h)
  | inr other ↦ not_false (bit_of j b) (find-none (λ k. not (bit_of k b)) 8 (rw other at e) j h)
]
  where
    not_false : (c : Bool) → not c ≡ false → c ≡ true
    not_false c q = ground arith

pub free_bit-some :
    (b r : ℕ)
    → free_bit b ≡ some r
    → (bit_of r b ≡ false) × (r < 8) × ((j : ℕ) → j < r → bit_of j b ≡ true)
unfolding free_bit
free_bit-some b r e = elim (Bool-cases (b == 255)) [
  | inl full ↦ absurd (none-some (rw full at e))
  | inr other ↦
      let found : find 8 (λ k. not (bit_of k b)) ≡ some r = rw other at e in
      let h = find-some (λ k. not (bit_of k b)) 8 r found in
      (
        clear (bit_of r b) h.0,
        h.1,
        λ j lt. taken (bit_of j b) (find-first (λ k. not (bit_of k b)) 8 r found j lt),
      )
]
  where
    none-some : {r : ℕ} → none ≡ some r → ⊥
    none-some q = cc

    clear : (c : Bool) → not c ≡ true → c ≡ false
    clear c q = ground arith

    taken : (c : Bool) → not c ≡ false → c ≡ true
    taken c q = ground arith

-- Bit `x` of a sector.
abbrev pub sector_bit : (x : ℕ) → (ℕ → ℕ) → Bool
sector_bit x buf = bit_of (x % 8) (buf (x / 8))

-- What the search of a sector finds: its first free bit, or that there is none.
abbrev pub Scanned : (n j : ℕ) (buf : ℕ → ℕ) → Option (ℕ × ℕ) → Type 0
Scanned n j buf none = (x : ℕ) → j ≤ x / 8 → x / 8 < j + n → sector_bit x buf ≡ true
Scanned n j buf (some (a, bit)) =
    (j ≤ a)
    × (a < j + n)
    × (bit < 8)
    × (bit_of bit (buf a) ≡ false)
    × ((x : ℕ) → j ≤ x / 8 → x < a * 8 + bit → sector_bit x buf ≡ true)

here_or_later : (i j : ℕ) → i ≤ j → (j ≡ i) ⊎ (i + 1 ≤ j)
here_or_later i j h = omega arith

Scanned-later :
    (n j : ℕ) (buf : ℕ → ℕ) (o : Option (ℕ × ℕ))
    → free_bit (buf j) ≡ none
    → Scanned n (j + 1) buf o
    → Scanned (suc n) j buf o
Scanned-later n j buf none full h = λ x lo hi. elim (here_or_later j (x / 8) lo) [
  | inl at ↦ rw at (free_bit-none (buf j) (x % 8) full (omega arith))
  | inr later ↦ h x later (omega arith)
]
Scanned-later n j buf (some (a, bit)) full h = (
  omega (arith, h.0),
  omega (arith, h.1),
  h.2,
  h.3,
  λ x from to. elim (here_or_later j (x / 8) from) [
    | inl at ↦ rw at (free_bit-none (buf j) (x % 8) full (omega arith))
    | inr later ↦ h.4 x later to
  ],
)

pub free_in_sector_lem : (n j : ℕ) (buf : ℕ → ℕ) → Scanned n j buf (free_in_sector n j buf)
unfolding free_in_sector
free_in_sector_lem zero j buf = λ x lo hi. absurd (omega arith)
free_in_sector_lem (suc n) j buf = elim (Option-cases (free_bit (buf j))) [
  | inl full ↦
      rw (full, free_in_sector)
        (Scanned-later n j buf (free_in_sector n (j + 1) buf) full
          (free_in_sector_lem n (j + 1) buf))
  | inr (bit, free) ↦
      let h = free_bit-some (buf j) bit free in
      rw (free, free_in_sector)
        (
          omega arith,
          omega arith,
          h.1,
          h.0,
          λ x from to.
              let at : x / 8 ≡ j = omega (arith, h.1) in rw at (h.2 (x % 8) (omega (arith, h.1))),
        )
]

split_at : (x a bit : ℕ) → x / 8 ≡ a → bit < 8 → ((x % 8) == bit) ≡ (x == a * 8 + bit)
split_at x a bit e h = ground arith

elsewhere : (x a bit : ℕ) → (x / 8 == a) ≡ false → bit < 8 → (x == a * 8 + bit) ≡ false
elsewhere x a bit e h = ground arith

-- A bit of a sector is changed, and no other.
pub sector_bit-set_bit :
    (x a bit : ℕ) (buf : ℕ → ℕ)
    → bit < 8
    → sector_bit x (update buf a (set_bit bit (buf a)))
      ≡ (if x == a * 8 + bit then true else sector_bit x buf)
sector_bit-set_bit x a bit buf h = elim (Bool-cases (x / 8 == a)) [
  | inl same ↦
      let at : x / 8 ≡ a = ground arith in
      rw (same, at, ← split_at x a bit at h) (bit_of-set_bit bit (x % 8) (buf a))
  | inr other ↦ rw (other, elsewhere x a bit other h) refl
]

pub sector_bit-clear_bit :
    (x a bit : ℕ) (buf : ℕ → ℕ)
    → bit < 8
    → sector_bit x (update buf a (clear_bit bit (buf a)))
      ≡ (if x == a * 8 + bit then false else sector_bit x buf)
sector_bit-clear_bit x a bit buf h = elim (Bool-cases (x / 8 == a)) [
  | inl same ↦
      let at : x / 8 ≡ a = ground arith in
      rw (same, at, ← split_at x a bit at h) (bit_of-clear_bit bit (x % 8) (buf a))
  | inr other ↦ rw (other, elsewhere x a bit other h) refl
]
