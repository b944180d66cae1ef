-- ===== src/Fs/Words.antt =====
-- Words in buffers: what is written is read back.
use mathlib.Core.Path.{ap₂}
use risc_v_qemu_kernel.Prelude.{
  ℕ, ◌+◌, ◌-◌, ◌*◌, ◌/◌, ◌%◌, ◌≤◌, ◌<◌, ◌≡◌, ◌∙◌, ◌⊎◌, inl, inr, ap, arith,
}
use risc_v_qemu_kernel.Fs.{u32, byte_of, word_at, put_word, copy_into}

-- The bytes of a sequence of words.
abbrev pub bytes_of : (ℕ → ℕ) → ℕ → ℕ
bytes_of w i = byte_of (w (i / 4)) (i % 4)

word_of_bytes :
    (w : ℕ)
    → w < u32
    → byte_of w 0 + 256 * byte_of w 1 + 65536 * byte_of w 2 + 16777216 * byte_of w 3 ≡ w
word_of_bytes w h = omega arith

pub word-put_word : (at w : ℕ) (b : ℕ → ℕ) → w < u32 → word_at at (put_word at w b) ≡ w
word-put_word at w b h = ground (arith, word_of_bytes w h)

pub copy_into-inside :
    (at len i o : ℕ) (src b : ℕ → ℕ) → i ≡ at + o → o < len → copy_into at len src b i ≡ src o
copy_into-inside at len i o src b e h = ground (arith, ap src (back at i o e))
  where
    back : (at i o : ℕ) → i ≡ at + o → i - at ≡ o
    back at i o e = omega arith

pub copy_into-outside :
    (at len i : ℕ) (src b : ℕ → ℕ) → (i < at) ⊎ (at + len ≤ i) → copy_into at len src b i ≡ b i
copy_into-outside at len i src b (inl h) = ground arith
copy_into-outside at len i src b (inr h) = ground arith

-- Buffers that agree on four bytes agree on the word.
pub word_at-ext :
    (at p : ℕ) (b c : ℕ → ℕ)
    → ((j : ℕ) → j < 4 → b (at + j) ≡ c (p + j))
    → word_at at b ≡ word_at p c
word_at-ext at p b c h = omega (
  arith,
  ap b (first at),
  ap c (first p),
  h 0 (omega arith),
  h 1 (omega arith),
  h 2 (omega arith),
  h 3 (omega arith),
)
  where
    first : (a : ℕ) → a + 0 ≡ a
    first a = omega arith

quarter : (k j : ℕ) → j < 4 → (4 * k + j) / 4 ≡ k
quarter k j h = omega arith

quarter_rest : (k j : ℕ) → j < 4 → (4 * k + j) % 4 ≡ j
quarter_rest k j h = omega arith

word-bytes_of : (w : ℕ → ℕ) (k : ℕ) → w k < u32 → word_at (4 * k) (bytes_of w) ≡ w k
word-bytes_of w k h = omega (
  arith,
  word_of_bytes (w k) h,
  part 0 (omega arith),
  part 1 (omega arith),
  part 2 (omega arith),
  part 3 (omega arith),
  ap (bytes_of w) zero_first,
)
  where
    part : (j : ℕ) → j < 4 → bytes_of w (4 * k + j) ≡ byte_of (w k) j
    part j lt = ap₂ (λ q r. byte_of (w q) r) (quarter k j lt) (quarter_rest k j lt)

    zero_first : 4 * k + 0 ≡ 4 * k
    zero_first = omega arith

-- A word of a sequence that was copied into a buffer.
pub word-copy :
    (at len k : ℕ) (w : ℕ → ℕ) (b : ℕ → ℕ)
    → w k < u32
    → 4 * k + 4 ≤ len
    → word_at (at + 4 * k) (copy_into at len (bytes_of w) b) ≡ w k
word-copy at len k w b h inside =
    word_at-ext (at + 4 * k) (4 * k) (copy_into at len (bytes_of w) b) (bytes_of w) (λ j lt.
      copy_into-inside at len (at + 4 * k + j) (4 * k + j) (bytes_of w) b (omega arith)
        (omega arith))
    ∙ word-bytes_of w k h
