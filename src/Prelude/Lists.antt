-- ===== src/Prelude/Lists.antt =====
-- Lists measured by native numbers, and membership as a Boolean test.
use Prim.Native.Nat.{ℕ, zero, suc, ◌+◌}
use mathlib.Core.Path.{◌≡◌, refl, ap}
use mathlib.Core.Bool.{Bool, true, false, not, ◌&&◌, ◌||◌}
use mathlib.Core.List.{List, [], ◌∷◌, ◌++◌}
use mathlib.Core.Option.{Option, none, some}
use native.Mathlib.Omega.{arith}
use risc_v_qemu_kernel.Prelude.Tests.{◌==◌, if◌then◌else◌}

module _ {ℓ} {A : Type ℓ} where
  abbrev pub length : List A → ℕ
  length [] = 0
  length (_ ∷ xs) = suc (length xs)

  abbrev pub get_elem? : List A → ℕ → Option A
  get_elem? [] i = none
  get_elem? (x ∷ xs) zero = some x
  get_elem? (x ∷ xs) (suc i) = get_elem? xs i

  abbrev pub get_or : List A → ℕ → A → A
  get_or [] i d = d
  get_or (x ∷ xs) zero d = x
  get_or (x ∷ xs) (suc i) d = get_or xs i d

  abbrev pub set : List A → ℕ → A → List A
  set [] i v = []
  set (x ∷ xs) zero v = v ∷ xs
  set (x ∷ xs) (suc i) v = x ∷ set xs i v

  pub length-append : (xs ys : List A) → length (xs ++ ys) ≡ length xs + length ys
  length-append [] ys = omega arith
  length-append (x ∷ xs) ys = omega (arith, length-append xs ys)

  pub length-set : (xs : List A) (i : ℕ) (v : A) → length (set xs i v) ≡ length xs
  length-set [] i v = refl
  length-set (x ∷ xs) zero v = refl
  length-set (x ∷ xs) (suc i) v = ap suc (length-set xs i v)

  -- A table as a function from indices: the write of one entry.
  abbrev pub update : (ℕ → A) → ℕ → A → ℕ → A
  update f i v j = if j == i then v else f j

-- Is the number in the list?
abbrev pub has : ℕ → List ℕ → Bool
has a [] = false
has a (x ∷ xs) = (a == x) || has a xs

-- The list without the number.
abbrev pub without : ℕ → List ℕ → List ℕ
without a [] = []
without a (x ∷ xs) = if a == x then without a xs else x ∷ without a xs

-- No number occurs twice.
abbrev pub distinct : List ℕ → Bool
distinct [] = true
distinct (x ∷ xs) = not (has x xs) && distinct xs

pub has-append : (a : ℕ) (xs ys : List ℕ) → has a (xs ++ ys) ≡ (has a xs || has a ys)
has-append a [] ys = refl
has-append a (x ∷ xs) ys = ground (arith, has-append a xs ys)

pub has-without : (a b : ℕ) (xs : List ℕ) → has a (without b xs) ≡ (not (a == b) && has a xs)
has-without a b [] = ground arith
has-without a b (x ∷ xs) = ground (arith, has-without a b xs)

pub without-absent : (a : ℕ) (xs : List ℕ) → has a xs ≡ false → without a xs ≡ xs
without-absent a [] h = refl
without-absent a (x ∷ xs) h = ground (arith, without-absent a xs)

pub without-append : (a : ℕ) (xs ys : List ℕ) → without a (xs ++ ys) ≡ without a xs ++ without a ys
without-append a [] ys = refl
without-append a (x ∷ xs) ys = ground (arith, without-append a xs ys)

pub distinct-without : (a : ℕ) (xs : List ℕ) → distinct xs ≡ true → distinct (without a xs) ≡ true
distinct-without a [] h = refl
distinct-without a (x ∷ xs) h = ground (arith, distinct-without a xs, has-without x a xs)

pub distinct-snoc :
    (a : ℕ) (xs : List ℕ) → distinct xs ≡ true → has a xs ≡ false → distinct (xs ++ a ∷ []) ≡ true
distinct-snoc a [] h n = refl
distinct-snoc a (x ∷ xs) h n = ground (arith, distinct-snoc a xs, has-append x xs (a ∷ []))

pub distinct-left : (xs ys : List ℕ) → distinct (xs ++ ys) ≡ true → distinct xs ≡ true
distinct-left [] ys h = refl
distinct-left (x ∷ xs) ys h = ground (arith, distinct-left xs ys, has-append x xs ys)

pub distinct-right : (xs ys : List ℕ) → distinct (xs ++ ys) ≡ true → distinct ys ≡ true
distinct-right [] ys h = h
distinct-right (x ∷ xs) ys h = ground (arith, distinct-right xs ys)

-- A member of the first part is not in the second.
pub distinct-apart :
    (a : ℕ) (xs ys : List ℕ) → distinct (xs ++ ys) ≡ true → has a xs ≡ true → has a ys ≡ false
distinct-apart a [] ys h m = absurd (cc)
distinct-apart a (x ∷ xs) ys h m = ground (arith, distinct-apart a xs ys, has-append x xs ys)

pub distinct-insert :
    (a : ℕ) (xs ys : List ℕ)
    → distinct (xs ++ ys) ≡ true
    → has a (xs ++ ys) ≡ false
    → distinct (xs ++ a ∷ ys) ≡ true
distinct-insert a [] ys h n = ground arith
distinct-insert a (x ∷ xs) ys h n =
    ground (arith, distinct-insert a xs ys, has-append x xs ys, has-append x xs (a ∷ ys))

pub distinct-drop :
    (xs : List ℕ) (n : ℕ) (ys : List ℕ)
    → distinct (xs ++ n ∷ ys) ≡ true
    → distinct (xs ++ ys) ≡ true
distinct-drop [] n ys h = ground arith
distinct-drop (x ∷ xs) n ys h =
    ground (arith, distinct-drop xs n ys, has-append x xs ys, has-append x xs (n ∷ ys))

pub absent-drop :
    (xs : List ℕ) (n : ℕ) (ys : List ℕ) → distinct (xs ++ n ∷ ys) ≡ true → has n (xs ++ ys) ≡ false
absent-drop [] n ys h = ground arith
absent-drop (x ∷ xs) n ys h = ground (arith, absent-drop xs n ys, has-append x xs (n ∷ ys))

-- Taking out the number in the middle of a list in which none occurs twice.
pub without-middle :
    (n : ℕ) (xs ys : List ℕ) → distinct (xs ++ n ∷ ys) ≡ true → without n (xs ++ n ∷ ys) ≡ xs ++ ys
without-middle n [] ys d = ground (arith, without-absent n ys)
without-middle n (x ∷ xs) ys d = ground (arith, without-middle n xs ys, has-append x xs (n ∷ ys))
