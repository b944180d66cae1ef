-- ===== src/Fs/Layout.antt =====
-- The direct blocks of a file, and a block that is changed among them.
use risc_v_qemu_kernel.Prelude.{
  ℕ, ◌+◌, ◌-◌, ◌*◌, ◌/◌, ◌%◌, ◌≤◌, ◌<◌, ◌≡◌, ◌≢◌, refl, ◌∙◌, ap, sym, true, false, ◌&&◌, leb, ltb,
  ◌==◌, if◌then◌else◌, arith, Bool-cases, inl, inr, ◌⊎◌,
}
use risc_v_qemu_kernel.Fs.{Fs, Inode, u32, copy_into}
use risc_v_qemu_kernel.Fs.Words.{copy_into-inside, copy_into-outside}
use risc_v_qemu_kernel.Fs.Card.{Card, read_block, write_block, block_sector}
use risc_v_qemu_kernel.Fs.Transfers.{read-write_same, read-write_apart}
use risc_v_qemu_kernel.Fs.Blocks.{get_physical_block_id, direct_block}
use risc_v_qemu_kernel.Fs.Lookup.{lookup, block_bytes, temp-read_block}
use risc_v_qemu_kernel.Fs.Reading.{file_byte}

-- The first `k` blocks of a file: they are there, in the data area, and no block is used twice.
pub record IsLaidOut (k : ℕ) (ptr : ℕ → ℕ) : Type 0 where
  pub within : k ≤ 10
  pub present : (l : ℕ) → l < k → ptr l ≢ 0
  pub small : (l : ℕ) → l < k → ptr l < 131072
  pub apart : (l m : ℕ) → l < k → m < k → l ≢ m → ptr l ≢ ptr m

out_of_range : (lo hi q : ℕ) → (leb lo q && ltb q hi) ≡ false → (q < lo) ⊎ (hi ≤ q)
out_of_range lo hi q e = elim (Bool-cases (ltb q lo)) [
  | inl below ↦ inl (ground arith)
  | inr above ↦ inr (ground arith)
]

sectors_apart :
    (b c : ℕ)
    → b < 131072
    → c < 131072
    → b ≢ c
    → let f = (1049122 + b * 8 % u32) % u32 in
      let g = (1049122 + c * 8 % u32) % u32 in (f + 8 ≤ g) ⊎ (g + 8 ≤ f)
sectors_apart b c hb hc ne = omega (arith, ne)

module _ (card : Card) where
  open card use {D}

  -- The byte `q` of a file, by the direct blocks.
  abbrev pub data_byte : (ptr : ℕ → ℕ) (q : ℕ) → D → ℕ
  data_byte ptr q d = block_bytes card (ptr (q / 4096)) d (q % 4096)

  pub lookup-direct :
      (inode : Inode) (l : ℕ) (d : D) → l < 10 → lookup card inode l d ≡ inode.direct_ptr l
  unfolding lookup
  lookup-direct inode l d h = let direct : ltb l 10 ≡ true = ground arith in rw direct refl

  pub file_byte-data_byte :
      (inode : Inode) (q : ℕ) (d : D)
      → q < 40960
      → file_byte card inode q d ≡ data_byte inode.direct_ptr q d
  file_byte-data_byte inode q d h =
      ap (λ b. block_bytes card b d (q % 4096)) (lookup-direct inode (q / 4096) d (omega arith))

  block_bytes-same :
      (b i : ℕ) (fs : Fs D)
      → i < 4096
      → block_bytes card b (write_block card b 0 fs).disk i ≡ fs.temp i
  unfolding write_block
  block_bytes-same b i fs h =
      read-write_same card 8 (block_sector card b % u32) i (λ j. fs.temp (0 + j)) fs.disk
        (omega arith)
      ∙ ap fs.temp (omega arith)

  block_bytes-other :
      (b c i : ℕ) (fs : Fs D)
      → b < 131072
      → c < 131072
      → b ≢ c
      → i < 4096
      → block_bytes card c (write_block card b 0 fs).disk i ≡ block_bytes card c fs.disk i
  unfolding write_block
  block_bytes-other b c i fs hb hc ne h =
      read-write_apart card 8 (block_sector card b % u32) 8 (block_sector card c % u32) i
        (λ j. fs.temp (0 + j)) fs.disk (sectors_apart b c hb hc ne) (omega arith)

  -- One block is read, changed from `p` on, and written back.
  pub block_written :
      (k n p : ℕ) (ptr src : ℕ → ℕ) (fs : Fs D)
      → IsLaidOut k ptr
      → p / 4096 < k
      → p % 4096 + n ≤ 4096
      → let b = ptr (p / 4096) in
        let loaded = read_block card b 0 fs in
        let filled = record loaded { temp = copy_into (p % 4096) n src loaded.temp } in
        (q : ℕ)
        → q < 4096 * k
        → data_byte ptr q (write_block card b 0 filled).disk
          ≡ (if leb p q && ltb q (p + n) then src (q - p) else data_byte ptr q fs.disk)
  block_written k n p ptr src fs v inside block q lt =
      let b = ptr (p / 4096) in
      let loaded = read_block card b 0 fs in
      let filled = record loaded { temp = copy_into (p % 4096) n src loaded.temp } in
      elim (Bool-cases (q / 4096 == p / 4096)) [
        | inl same ↦
            let at : q / 4096 ≡ p / 4096 = ground arith in
            let changed =
              ap (λ l. block_bytes card (ptr l) (write_block card b 0 filled).disk (q % 4096)) at
              ∙ block_bytes-same b (q % 4096) filled (omega arith) in
            elim (Bool-cases (leb p q && ltb q (p + n))) [
              | inl range ↦
                  let lo : p ≤ q = ground arith in
                  let hi : q < p + n = ground arith in
                  rw range (
                    changed
                    ∙ copy_into-inside (p % 4096) n (q % 4096) (q - p) src loaded.temp
                        (omega (arith, at)) (omega arith))
              | inr outside ↦
                  let apart : (q < p) ⊎ (p + n ≤ q) = out_of_range p (p + n) q outside in
                  rw outside (
                    changed
                    ∙ copy_into-outside (p % 4096) n (q % 4096) src loaded.temp
                        (omega (arith, at, apart))
                    ∙ temp-read_block card b (q % 4096) fs (omega arith)
                    ∙ ap (λ l. block_bytes card (ptr l) fs.disk (q % 4096)) (sym at))
            ]
        | inr other ↦
            let ne : p / 4096 ≢ q / 4096 = ground arith in
            let outside : (leb p q && ltb q (p + n)) ≡ false = ground (arith, ne) in
            rw outside (
              block_bytes-other b (ptr (q / 4096)) (q % 4096) filled (v.small (p / 4096) inside)
                (v.small (q / 4096) (omega arith))
                (v.apart (p / 4096) (q / 4096) inside (omega arith) ne) (omega arith)
              ∙ unfold read_block in refl)
      ]

  -- A block that is there is found without a change.
  pub direct-lookup :
      (inode : Inode) (n l : ℕ) (fs : Fs D)
      → l < 10
      → inode.direct_ptr l ≢ 0
      → get_physical_block_id card inode n l true fs ≡ ((inode.direct_ptr l, inode), fs)
  unfolding get_physical_block_id direct_block
  direct-lookup inode n l fs h there =
      let direct : ltb l 10 ≡ true = ground arith in
      let present : (inode.direct_ptr l == 0) ≡ false = ground (arith, there) in
      rw (direct, present) refl
