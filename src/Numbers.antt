-- ===== src/Numbers.antt =====
-- Numbers as text, and the pseudo-random numbers, of the user library: tiny_libc/atoi.c,
-- tiny_libc/itoa.c and tiny_libc/rand.c. Strings are lists of characters, without their end.
pub mod Decimal
use risc_v_qemu_kernel.Prelude.{
  ℕ, zero, suc, ◌+◌, ◌-◌, ◌*◌, ◌/◌, ◌%◌, ◌^◌, Bool, true, false, not, ◌&&◌, ◌||◌, Option, none,
  some, List, [], ◌∷◌, length, leb, ltb, ◌==◌, if◌then◌else◌,
}
use risc_v_qemu_kernel.Prelude.Int.{ℤ, pos, ◌-ℤ◌}

abbrev pub is_digit : ℕ → Bool
is_digit c = leb 48 c && leb c 57

-- Space, and the control characters from tab to carriage return.
abbrev pub is_space : ℕ → Bool
is_space c = (c == 32) || (leb 9 c && leb c 13)

-- The value of a character in the base, where it has one.
abbrev pub digit_value : (base c : ℕ) → Option ℕ
digit_value base c =
    if is_digit c
    then some (c - 48)
    else if base == 16
    then if leb 97 c && leb c 102
      then some (c - 87)
      else if leb 65 c && leb c 70
      then some (c - 55)
      else none
    else none

-- The conversion loop; `none` where the C code returns 0 at a character that is no digit. `ret` is
-- without the overflow of long.
unfoldable pub convert : (base ret : ℕ) → List ℕ → Option ℕ
convert base ret [] = some ret
convert base ret (c ∷ cs) = elim (digit_value base c) [
  | none ↦ none
  | some d ↦ convert base (ret * base + d) cs
]

or_zero : Bool → Option ℕ → ℤ
or_zero negative none = pos 0
or_zero true (some n) = pos 0 -ℤ pos n
or_zero false (some n) = pos n

-- `0x` and `0X`
abbrev pub is_x : ℕ → Bool
is_x c = (c == 120) || (c == 88)

unfoldable pub after_sign : Bool → List ℕ → ℤ
unfolding convert or_zero
after_sign negative [] = or_zero negative (convert 10 0 [])
after_sign negative (a ∷ []) = or_zero negative (convert 10 0 (a ∷ []))
after_sign negative (a ∷ b ∷ cs) =
    if (a == 48) && is_x b
    then or_zero negative (convert 16 0 cs)
    else or_zero negative (convert 10 0 (a ∷ b ∷ cs))

-- `none` where the call never ends: the loop that is meant to skip blanks does not move on.
unfoldable pub atol : List ℕ → Option ℤ
unfolding after_sign
atol [] = some (pos 0)
atol (c ∷ cs) =
    if is_space c
    then none
    else if c == 43
    then some (after_sign false cs)
    else if c == 45
    then some (after_sign true cs)
    else if is_digit c
    then some (after_sign false (c ∷ cs))
    else some (pos 0)

abbrev pub digit_char : ℕ → ℕ
digit_char d = if ltb d 10 then 48 + d else 65 + d - 10

-- The loop of `itoa` for a number that is not negative; `room` bounds the rounds after the first. Each
-- character goes in front of those before it, which is where `strrev` puts it. The second part is `sum`.
unfoldable pub itoa_loop : (room base sum : ℕ) → List ℕ → List ℕ × ℕ
itoa_loop zero base sum acc = (digit_char (sum % base) ∷ acc, sum / base)
itoa_loop (suc room) base sum acc =
    let rest = itoa_loop room base (sum / base) (digit_char (sum % base) ∷ acc) in
    if sum / base == 0 then (digit_char (sum % base) ∷ acc, 0) else rest

-- `none` where the C code returns -1.
unfoldable pub itoa : (num len base : ℕ) → Option (List ℕ)
unfolding itoa_loop
itoa num len base =
    let (chars, sum) = itoa_loop (len - 2) base num [] in
    if len == 0
    then none
    else if (length chars == len - 1) && not (sum == 0)
    then none
    else some chars

-- The state `x` after a call of `rand`, which returns it.
pub rand : ℕ → ℕ
rand x = (25214903917 * x + 11) % 2 ^ 64 % 2 ^ 31
