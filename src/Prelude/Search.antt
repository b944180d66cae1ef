-- ===== src/Prelude/Search.antt =====
-- The loop `for (i = 0; i < n; i++) if (p(i)) return i;` over a table.
use Prim.Native.Nat.{ℕ, zero, suc, ◌+◌, ◌≤◌, ◌<◌}
use mathlib.Core.Path.{◌≡◌, ap}
use mathlib.Core.Logic.{◌⊎◌, inl, inr}
use mathlib.Core.Bool.{Bool, true, false}
use mathlib.Core.Option.{Option, none, some}
use native.Mathlib.Omega.{arith}
use risc_v_qemu_kernel.Prelude.Tests.{if◌then◌else◌}

-- The first index of `i`, `i + 1`, … (`n` of them) that passes the test.
pub find_from : (n i : ℕ) → (ℕ → Bool) → Option ℕ
find_from zero i p = none
find_from (suc n) i p = let rest = find_from n (i + 1) p in if p i then some i else rest

unfoldable pub find : ℕ → (ℕ → Bool) → Option ℕ
unfolding find_from
find n p = find_from n 0 p

here_or_later : (i j : ℕ) → i ≤ j → (j ≡ i) ⊎ (i + 1 ≤ j)
here_or_later i j h = omega arith

module _ (p : ℕ → Bool) where
  from-some : (n i r : ℕ) → find_from n i p ≡ some r → (p r ≡ true) × (i ≤ r) × (r < i + n)
  unfolding find_from
  from-some zero i r e = absurd (cc)
  from-some (suc n) i r e = ground (arith, from-some n (i + 1) r)

  from-first : (n i r j : ℕ) → find_from n i p ≡ some r → i ≤ j → j < r → p j ≡ false
  unfolding find_from
  from-first zero i r j e lo hi = absurd (cc)
  from-first (suc n) i r j e lo hi = elim (here_or_later i j lo) [
    | inl at ↦ ground (arith, ap p at)
    | inr later ↦ ground (arith, from-first n (i + 1) r j)
  ]

  from-none : (n i j : ℕ) → find_from n i p ≡ none → i ≤ j → j < i + n → p j ≡ false
  unfolding find_from
  from-none zero i j e lo hi = absurd (omega arith)
  from-none (suc n) i j e lo hi = elim (here_or_later i j lo) [
    | inl at ↦ ground (arith, ap p at)
    | inr later ↦ ground (arith, from-none n (i + 1) j)
  ]

  from-hit :
      (n i r : ℕ)
      → p r ≡ true
      → ((j : ℕ) → i ≤ j → j < r → p j ≡ false)
      → i ≤ r
      → r < i + n
      → find_from n i p ≡ some r
  unfolding find_from
  from-hit zero i r e before lo hi = absurd (omega arith)
  from-hit (suc n) i r e before lo hi = elim (here_or_later i r lo) [
    | inl at ↦ ground (arith, ap p at)
    | inr later ↦ ground (
      arith,
      before i,
      from-hit n (i + 1) r e (λ j a b. before j (omega arith) b) later (omega arith),
    )
  ]

  -- What a search returns passes the test and lies in the table.
  pub find-some : (n r : ℕ) → find n p ≡ some r → (p r ≡ true) × (r < n)
  unfolding find
  find-some n r e = let h = from-some n 0 r e in (h.0, omega arith)

  -- Nothing before it passes.
  pub find-first : (n r : ℕ) → find n p ≡ some r → (j : ℕ) → j < r → p j ≡ false
  unfolding find
  find-first n r e j h = from-first n 0 r j e (omega arith) h

  -- A search that fails has seen every entry.
  pub find-none : (n : ℕ) → find n p ≡ none → (j : ℕ) → j < n → p j ≡ false
  unfolding find
  find-none n e j h = from-none n 0 j e (omega arith) (omega arith)

  -- The first entry that passes is found.
  pub find-hit :
      (n r : ℕ) → p r ≡ true → ((j : ℕ) → j < r → p j ≡ false) → r < n → find n p ≡ some r
  unfolding find
  find-hit n r e before h = from-hit n 0 r e (λ j a b. before j b) (omega arith) (omega arith)
