-- ===== src/Links/Walk.antt =====
-- The loops of kernel/list/list.c over a well-formed list: each ends, and finds what a search of
-- the plain list finds.
use risc_v_qemu_kernel.Prelude.{
  ℕ, zero, suc, ◌<◌, ◌≡◌, refl, Bool, true, false, Option, none, some, List, [], ◌∷◌, ◌==◌,
  if◌then◌else◌, arith, has, without, length,
}
use risc_v_qemu_kernel.Links.Queue.{del_node-without}
use risc_v_qemu_kernel.Links.{Links, take_out, scan, visit_without_delete, visit, is_in_queue}
use risc_v_qemu_kernel.Links.Ring.{Seg, IsQueue, first, next-start}

-- The first member that passes the test.
unfoldable pub first_match : (ℕ → Bool) → List ℕ → Option ℕ
first_match judge [] = none
first_match judge (x ∷ xs) = if judge x then some x else first_match judge xs

-- With more fuel than nodes the walk ends, at the first node that passes.
scan_lem :
    (fuel : ℕ) (l : Links) (a : ℕ) (xs : List ℕ) (head : ℕ) (judge : ℕ → Bool)
    → Seg l a xs head
    → has head xs ≡ false
    → length xs < fuel
    → scan fuel (first xs head) head judge l ≡ (first_match judge xs, true)
unfolding scan first_match
scan_lem zero l a xs head judge s out f = absurd (omega arith)
scan_lem (suc fuel) l a [] head judge s out f = ground arith
scan_lem (suc fuel) l a (x ∷ xs) head judge s out f = ground (
  arith,
  next-start l x xs head s.2,
  scan_lem fuel l x xs head judge s.2 (ground arith) (omega arith),
)

-- `visit_without_delete` ends, with the first node of the list that passes the test, or NULL.
pub visit_without_delete_lem :
    (fuel : ℕ) (l : Links) (head : ℕ) (xs : List ℕ) (judge : ℕ → Bool)
    → IsQueue l head xs
    → length xs < fuel
    → visit_without_delete fuel head judge l ≡ (first_match judge xs, true)
unfolding visit_without_delete
visit_without_delete_lem fuel l head xs judge v f =
    rw (next-start l head xs head v.ring)
      (scan_lem fuel l head xs head judge v.ring (ground (arith, v.nodes)) f)

first_match-has :
    (n : ℕ) (xs : List ℕ) → first_match (λ m. n == m) xs ≡ (if has n xs then some n else none)
unfolding first_match
first_match-has n [] = refl
first_match-has n (x ∷ xs) = ground (arith, first_match-has n xs)

-- `is_in_queue` ends, and says whether the node is in the list.
pub is_in_queue_lem :
    (fuel : ℕ) (l : Links) (node head : ℕ) (xs : List ℕ)
    → IsQueue l head xs
    → length xs < fuel
    → is_in_queue fuel node head l ≡ (has node xs, true)
unfolding is_in_queue
is_in_queue_lem fuel l node head xs v f = ground (
  arith,
  next-start l head xs head v.ring,
  scan_lem fuel l head xs head (λ m. node == m) v.ring (ground (arith, v.nodes)) f,
  first_match-has node xs,
)

first_match-member :
    (judge : ℕ → Bool) (xs : List ℕ) (n : ℕ) → first_match judge xs ≡ some n → has n xs ≡ true
unfolding first_match
first_match-member judge [] n e = absurd (cc)
first_match-member judge (x ∷ xs) n e = ground (arith, first_match-member judge xs n)

abbrev pub remaining : Option ℕ → List ℕ → List ℕ
remaining none xs = xs
remaining (some n) xs = without n xs

take_out-IsQueue :
    (l : Links) (head : ℕ) (xs : List ℕ) (judge : ℕ → Bool) (found : Option ℕ)
    → IsQueue l head xs
    → first_match judge xs ≡ found
    → IsQueue (take_out found l) head (remaining found xs)
take_out-IsQueue l head xs judge none v e = unfold take_out in v
take_out-IsQueue l head xs judge (some n) v e =
    unfold take_out in del_node-without l n head xs v (first_match-member judge xs n e)

-- `visit` ends; it returns NULL and changes nothing if no node passes the test, and otherwise
-- returns the first that does and takes it out of the list.
pub visit_lem :
    (fuel : ℕ) (l : Links) (head : ℕ) (xs : List ℕ) (judge : ℕ → Bool)
    → IsQueue l head xs
    → length xs < fuel
    → let (found, ended, m) = visit fuel head judge l in
      (found ≡ first_match judge xs) × (ended ≡ true) × IsQueue m head (remaining found xs)
unfolding visit
visit_lem fuel l head xs judge v f =
    rw (next-start l head xs head v.ring, walk)
      (refl, refl, take_out-IsQueue l head xs judge (first_match judge xs) v refl)
  where
    walk : scan fuel (first xs head) head judge l ≡ (first_match judge xs, true)
    walk = scan_lem fuel l head xs head judge v.ring (ground (arith, v.nodes)) f
