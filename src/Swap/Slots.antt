-- ===== src/Swap/Slots.antt =====
-- The slots of the swap space, and the list of pages that may be swapped.
use risc_v_qemu_kernel.Prelude.{
  ℕ, ◌<◌, ◌≡◌, refl, true, false, not, Option, none, some, ◌==◌, find, find-some, arith,
}
use risc_v_qemu_kernel.Swap.{Swap, swap_max_pages, claim, get_free_swap_id}

module _ {D : Type 0} where
  claimed :
      (s : Swap D) (o : Option ℕ) (i : ℕ)
      → find swap_max_pages (λ j. not (s.occupied j)) ≡ o
      → (claim o s).0 ≡ some i
      → (i < swap_max_pages)
        × (s.occupied i ≡ false)
        × ((claim o s).1.occupied i ≡ true)
        × ((j : ℕ) → (j == i) ≡ false → (claim o s).1.occupied j ≡ s.occupied j)
  unfolding claim
  claimed s none i e r = absurd (cc)
  claimed s (some k) i e r =
      let h = find-some (λ j. not (s.occupied j)) swap_max_pages k e in
      (ground (arith, h.1, r), ground (arith, h.0, r), ground (arith, r), λ j ne. ground (arith, r))

  -- A slot that `get_free_swap_id` returns was free and is occupied now; all others are as before.
  pub get_free_swap_id_lem :
      (s : Swap D) (i : ℕ)
      → (get_free_swap_id s).0 ≡ some i
      → let m = (get_free_swap_id s).1 in
        (i < swap_max_pages)
        × (s.occupied i ≡ false)
        × (m.occupied i ≡ true)
        × ((j : ℕ) → (j == i) ≡ false → m.occupied j ≡ s.occupied j)
  unfolding get_free_swap_id
  get_free_swap_id_lem s i r = claimed s (find swap_max_pages (λ j. not (s.occupied j))) i refl r
