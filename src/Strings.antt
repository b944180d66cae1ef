-- ===== src/Strings.antt =====
-- libs/string.c, on a memory of bytes. Pointers are addresses, without wrap-around.
--
-- The loops that look for the end of a string run on fuel; the second part of their result is false
-- if it ran out.
pub mod Memory
pub mod Text
use risc_v_qemu_kernel.Prelude.{
  ℕ, zero, suc, ◌+◌, Bool, true, false, ◌||◌, Option, none, some, ◌==◌, if◌then◌else◌, update,
}
use risc_v_qemu_kernel.Prelude.Int.{ℤ, pos, sub_ℕ}

-- The loop counts `len` down.
unfoldable pub memcpy : (len dest src : ℕ) → (ℕ → ℕ) → ℕ → ℕ
memcpy zero dest src m = m
memcpy (suc len) dest src m = memcpy len (dest + 1) (src + 1) (update m dest (m src))

unfoldable pub memset : (len dest val : ℕ) → (ℕ → ℕ) → ℕ → ℕ
memset zero dest val m = m
memset (suc len) dest val m = memset len (dest + 1) val (update m dest val)

pub bzero : (len dest : ℕ) → (ℕ → ℕ) → ℕ → ℕ
unfolding memset
bzero len dest m = memset len dest 0 m

-- The length from `i` on.
unfoldable pub strlen_loop : (fuel i src : ℕ) → (ℕ → ℕ) → ℕ × Bool
strlen_loop zero i src m = (i, false)
strlen_loop (suc fuel) i src m =
    let rest = strlen_loop fuel (i + 1) src m in if m (src + i) == 0 then (i, true) else rest

unfoldable pub strlen : (fuel src : ℕ) → (ℕ → ℕ) → ℕ × Bool
unfolding strlen_loop
strlen fuel src m = strlen_loop fuel 0 src m

-- char is unsigned on this machine.
unfoldable pub strcmp : (fuel str1 str2 : ℕ) → (ℕ → ℕ) → ℤ × Bool
strcmp zero str1 str2 m = (pos 0, false)
strcmp (suc fuel) str1 str2 m =
    let rest = strcmp fuel (str1 + 1) (str2 + 1) m in
    let difference = sub_ℕ (m str1) (m str2) in
    if (m str1 == 0) || (m str2 == 0)
    then (difference, true)
    else if m str1 == m str2
    then rest
    else (difference, true)

unfoldable pub strncmp : (n str1 str2 : ℕ) → (ℕ → ℕ) → ℤ
strncmp zero str1 str2 m = pos 0
strncmp (suc n) str1 str2 m =
    let rest = strncmp n (str1 + 1) (str2 + 1) m in
    if m str1 == 0
    then sub_ℕ (m str1) (m str2)
    else if m str1 == m str2
    then rest
    else sub_ℕ (m str1) (m str2)

unfoldable pub strcpy : (fuel dest src : ℕ) → (ℕ → ℕ) → (ℕ → ℕ) × Bool
strcpy zero dest src m = (m, false)
strcpy (suc fuel) dest src m =
    let rest = strcpy fuel (dest + 1) (src + 1) (update m dest (m src)) in
    if m src == 0 then (update m dest 0, true) else rest

-- The walk to the end of `dest`, then the loop of `strcpy`.
unfoldable pub strcat : (fuel dest src : ℕ) → (ℕ → ℕ) → (ℕ → ℕ) × Bool
unfolding strlen strcpy
strcat fuel dest src m =
    let (n, ended) = strlen fuel dest m in
    let copied = strcpy fuel (dest + n) src m in if ended then copied else (m, false)

-- The first loop copies, up to the end of the string; the second fills what is left of `n` with zeros.
unfoldable pub strncpy : (n dest src : ℕ) → (ℕ → ℕ) → ℕ → ℕ
unfolding memset
strncpy zero dest src m = m
strncpy (suc n) dest src m =
    let rest = strncpy n (dest + 1) (src + 1) (update m dest (m src)) in
    let filled = memset (suc n) dest 0 m in if m src == 0 then filled else rest

-- NULL is `none`.
unfoldable pub strchr : (fuel str c : ℕ) → (ℕ → ℕ) → Option ℕ × Bool
strchr zero str c m = (none, false)
strchr (suc fuel) str c m =
    let rest = strchr fuel (str + 1) c m in
    if m str == c then (some str, true) else if m str == 0 then (none, true) else rest

-- The loop of `strrchr`, with `last` so far.
unfoldable pub strrchr_loop : (fuel str c : ℕ) → Option ℕ → (ℕ → ℕ) → Option ℕ × Bool
strrchr_loop zero str c last m = (last, false)
strrchr_loop (suc fuel) str c last m =
    let found = if m str == c then some str else last in
    let rest = strrchr_loop fuel (str + 1) c found m in if m str == 0 then (found, true) else rest

pub strrchr : (fuel str c : ℕ) → (ℕ → ℕ) → Option ℕ × Bool
unfolding strrchr_loop
strrchr fuel str c m = strrchr_loop fuel str c none m
