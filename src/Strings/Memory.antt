-- ===== src/Strings/Memory.antt =====
-- What `memcpy` and `memset` of libs/string.c write, byte by byte.
use risc_v_qemu_kernel.Prelude.{
  ℕ, zero, suc, ◌+◌, ◌-◌, ◌≤◌, ◌≡◌, ◌⊎◌, ◌&&◌, leb, ltb, if◌then◌else◌, update, arith,
}
use risc_v_qemu_kernel.Strings.{memcpy, memset}

-- `memcpy` copies the bytes that the source held before the call, and writes nothing else, if the
-- destination does not start inside the source.
pub memcpy_lem :
    (len dest src : ℕ) (m : ℕ → ℕ) (p : ℕ)
    → (dest ≤ src) ⊎ (src + len ≤ dest)
    → memcpy len dest src m p
      ≡ (if leb dest p && ltb p (dest + len) then m (src + (p - dest)) else m p)
unfolding memcpy
memcpy_lem zero dest src m p h = ground arith
memcpy_lem (suc len) dest src m p h =
    ground
      (arith, h, memcpy_lem len (dest + 1) (src + 1) (update m dest (m src)) p (omega (arith, h)))

-- `memset` writes the value to its bytes, and nothing else.
pub memset_lem :
    (len dest val : ℕ) (m : ℕ → ℕ) (p : ℕ)
    → memset len dest val m p ≡ (if leb dest p && ltb p (dest + len) then val else m p)
unfolding memset
memset_lem zero dest val m p = ground arith
memset_lem (suc len) dest val m p =
    ground (arith, memset_lem len (dest + 1) val (update m dest val) p)
