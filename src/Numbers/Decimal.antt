-- ===== src/Numbers/Decimal.antt =====
-- `atol` of tiny_libc/atoi.c reads back what `itoa` of tiny_libc/itoa.c writes.
use risc_v_qemu_kernel.Prelude.{
  ℕ, zero, suc, ◌+◌, ◌-◌, ◌*◌, ◌/◌, ◌%◌, ◌≤◌, ◌<◌, ◌≡◌, refl, sym, ◌∙◌, ap, true, false, some, List,
  [], ◌∷◌, ◌==◌, length, arith, Bool-cases, inl, inr,
}
use risc_v_qemu_kernel.Prelude.Int.{pos}
use risc_v_qemu_kernel.Numbers.{
  is_digit, digit_value, convert, after_sign, atol, digit_char, itoa_loop, itoa,
}

-- All characters are decimal digits.
abbrev Digits : List ℕ → Type 0
Digits [] = Unit {0}
Digits (c ∷ cs) = (is_digit c ≡ true) × Digits cs

char_of :
    (d : ℕ) → d < 10 → (digit_char d ≡ 48 + d) × (is_digit (48 + d) ≡ true) × (48 + d - 48 ≡ d)
char_of d h = (ground arith, ground arith, omega arith)

digit_value-char : (d : ℕ) → d < 10 → digit_value 10 (digit_char d) ≡ some d
digit_value-char d h = let c = char_of d h in rw (c.0, c.2) (ground (arith, c.1))

convert-step :
    (ret c d : ℕ) (cs : List ℕ)
    → digit_value 10 c ≡ some d
    → convert 10 ret (c ∷ cs) ≡ convert 10 (ret * 10 + d) cs
unfolding convert
convert-step ret c d cs e = rw (e, convert) refl

convert-digit :
    (ret d : ℕ) (cs : List ℕ)
    → d < 10
    → convert 10 ret (digit_char d ∷ cs) ≡ convert 10 (ret * 10 + d) cs
convert-digit ret d cs h = convert-step ret (digit_char d) d cs (digit_value-char d h)

last_digit : (n : ℕ) → n / 10 * 10 + n % 10 ≡ n
last_digit n = omega arith

small_digit : (n : ℕ) → n % 10 < 10
small_digit n = omega arith

-- The character of the last digit, in front of the others.
convert-last :
    (sum : ℕ) (acc : List ℕ)
    → convert 10 (sum / 10) (digit_char (sum % 10) ∷ acc) ≡ convert 10 sum acc
convert-last sum acc =
    convert-digit (sum / 10) (sum % 10) acc (small_digit sum)
    ∙ ap (λ n. convert 10 n acc) (last_digit sum)

convert-first :
    (sum : ℕ) (acc : List ℕ)
    → sum / 10 ≡ 0
    → convert 10 0 (digit_char (sum % 10) ∷ acc) ≡ convert 10 sum acc
convert-first sum acc e =
    ap (λ n. convert 10 n (digit_char (sum % 10) ∷ acc)) (sym e) ∙ convert-last sum acc

-- What the loop has written stands for the number, if nothing of it is left.
itoa_loop-convert :
    (room sum : ℕ) (acc : List ℕ)
    → (itoa_loop room 10 sum acc).1 ≡ 0
    → convert 10 0 (itoa_loop room 10 sum acc).0 ≡ convert 10 sum acc
unfolding itoa_loop
itoa_loop-convert zero sum acc e = convert-first sum acc e
itoa_loop-convert (suc room) sum acc e = elim (Bool-cases (sum / 10 == 0)) [
  | inl over ↦ rw over (convert-first sum acc (ground arith))
  | inr more ↦ rw more (
      itoa_loop-convert room (sum / 10) (digit_char (sum % 10) ∷ acc) (rw more at e)
      ∙ convert-last sum acc)
]

digit-Digits : (n : ℕ) (acc : List ℕ) → Digits acc → Digits (digit_char (n % 10) ∷ acc)
digit-Digits n acc d = let c = char_of (n % 10) (small_digit n) in (rw (c.0) (c.1), d)

itoa_loop-Digits : (room sum : ℕ) (acc : List ℕ) → Digits acc → Digits (itoa_loop room 10 sum acc).0
unfolding itoa_loop
itoa_loop-Digits zero sum acc d = digit-Digits sum acc d
itoa_loop-Digits (suc room) sum acc d = elim (Bool-cases (sum / 10 == 0)) [
  | inl over ↦ rw over (digit-Digits sum acc d)
  | inr more ↦
      rw more
        (itoa_loop-Digits room (sum / 10) (digit_char (sum % 10) ∷ acc) (digit-Digits sum acc d))
]

-- The C code reads decimal digits with no sign as they stand.
atol-Digits : (s : List ℕ) (n : ℕ) → Digits s → convert 10 0 s ≡ some n → atol s ≡ some (pos n)
unfolding atol after_sign convert
atol-Digits [] n d e = ground (arith, e)
atol-Digits (a ∷ []) n d e = ground (arith, e, d)
atol-Digits (a ∷ b ∷ cs) n d e = ground (arith, e, d)

-- If something of the number is left, all rounds have been used.
length-itoa_loop :
    (room sum : ℕ) (acc : List ℕ)
    → ((itoa_loop room 10 sum acc).1 == 0) ≡ false
    → length (itoa_loop room 10 sum acc).0 ≡ room + 1 + length acc
unfolding itoa_loop
length-itoa_loop zero sum acc e = omega arith
length-itoa_loop (suc room) sum acc e = elim (Bool-cases (sum / 10 == 0)) [
  | inl over ↦ absurd (ground (arith, e))
  | inr more ↦ rw more (
      length-itoa_loop room (sum / 10) (digit_char (sum % 10) ∷ acc) (rw more at e)
      ∙ one_more room (length acc))
]
  where
    one_more : (a b : ℕ) → a + 1 + suc b ≡ suc a + 1 + b
    one_more a b = omega arith

written :
    (num len : ℕ) (s : List ℕ)
    → 2 ≤ len
    → itoa num len 10 ≡ some s
    → (s ≡ (itoa_loop (len - 2) 10 num []).0) × ((itoa_loop (len - 2) 10 num []).1 ≡ 0)
unfolding itoa
written num len s two e = (ground (arith, e), ground (arith, e, length-itoa_loop (len - 2) num []))

-- If `itoa` writes a number in decimal into a buffer of two bytes or more, without -1, `atol` reads
-- the same number back.
pub atol-itoa :
    (num len : ℕ) (s : List ℕ) → 2 ≤ len → itoa num len 10 ≡ some s → atol s ≡ some (pos num)
atol-itoa num len s two e =
    let w = written num len s two e in
    rw (w.0) (
      atol-Digits (itoa_loop (len - 2) 10 num []).0 num (itoa_loop-Digits (len - 2) num [] tt)
        (itoa_loop-convert (len - 2) num [] w.1 ∙ unfold convert in refl))
