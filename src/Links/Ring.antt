-- ===== src/Links/Ring.antt =====
-- The shape of a well-formed list of kernel/list/list.c, and how single writes change it.
use risc_v_qemu_kernel.Prelude.{
  ℕ, ◌≡◌, sym, ◌∙◌, true, false, List, [], ◌∷◌, ◌++◌, ◌==◌, arith, has, distinct, has-append,
}
use risc_v_qemu_kernel.Links.{Links, set_next, set_prev}

-- From `a` the pointers lead through `xs` to `b`, and back.
abbrev pub Seg : Links → ℕ → List ℕ → ℕ → Type 0
Seg l a [] b = (l.next a ≡ b) × (l.prev b ≡ a)
Seg l a (x ∷ xs) b = (l.next a ≡ x) × (l.prev x ≡ a) × Seg l x xs b

-- The list with head `head` holds the nodes `xs`, in order.
pub record IsQueue (l : Links) (head : ℕ) (xs : List ℕ) : Type 0 where
  pub nodes : distinct (head ∷ xs) ≡ true
  pub ring : Seg l head xs head

-- The node before the end of a segment, and the node after its start.
abbrev pub last : ℕ → List ℕ → ℕ
last a [] = a
last a (x ∷ xs) = last x xs

abbrev pub first : List ℕ → ℕ → ℕ
first [] b = b
first (x ∷ xs) b = x

pub has-last : (a : ℕ) (xs : List ℕ) → has (last a xs) (a ∷ xs) ≡ true
has-last a [] = ground arith
has-last a (x ∷ xs) = ground (arith, has-last x xs)

pub has-other : (p a : ℕ) (xs : List ℕ) → has p xs ≡ true → has a xs ≡ false → (a == p) ≡ false
has-other p a [] h n = absurd (cc)
has-other p a (x ∷ xs) h n = ground (arith, has-other p a xs)

first-other :
    (x : ℕ) (ys : List ℕ) (b : ℕ) → has x ys ≡ false → (x == b) ≡ false → (x == first ys b) ≡ false
first-other x [] b h e = e
first-other x (y ∷ ys) b h e = ground arith

module _ (l : Links) where
  pub prev-end : (a : ℕ) (xs : List ℕ) (b : ℕ) → Seg l a xs b → l.prev b ≡ last a xs
  prev-end a [] b s = s.1
  prev-end a (x ∷ xs) b s = prev-end x xs b s.2

  pub next-start : (a : ℕ) (xs : List ℕ) (b : ℕ) → Seg l a xs b → l.next a ≡ first xs b
  next-start a [] b s = s.0
  next-start a (x ∷ xs) b s = s.0

  pub join :
      (a : ℕ) (xs : List ℕ) (y : ℕ) (ys : List ℕ) (b : ℕ)
      → Seg l a xs y
      → Seg l y ys b
      → Seg l a (xs ++ y ∷ ys) b
  join a [] y ys b s t = (s.0, s.1, t)
  join a (x ∷ xs) y ys b s t = (s.0, s.1, join x xs y ys b s.2 t)

  pub split :
      (a : ℕ) (xs : List ℕ) (y : ℕ) (ys : List ℕ) (b : ℕ)
      → Seg l a (xs ++ y ∷ ys) b
      → Seg l a xs y × Seg l y ys b
  split a [] y ys b s = ((s.0, s.1), s.2)
  split a (x ∷ xs) y ys b s = let rest = split x xs y ys b s.2 in ((s.0, s.1, rest.0), rest.1)

  -- A write elsewhere keeps a segment.
  pub frame-next :
      (p v a : ℕ) (xs : List ℕ) (b : ℕ)
      → has p (a ∷ xs) ≡ false
      → Seg l a xs b
      → Seg (set_next p v l) a xs b
  frame-next p v a [] b out s = ground arith
  frame-next p v a (x ∷ xs) b out s = (ground arith, s.1, frame-next p v x xs b (ground arith) s.2)

  pub frame-prev :
      (p v a : ℕ) (xs : List ℕ) (b : ℕ)
      → has p (b ∷ xs) ≡ false
      → Seg l a xs b
      → Seg (set_prev p v l) a xs b
  frame-prev p v a [] b out s = ground arith
  frame-prev p v a (x ∷ xs) b out s = (s.0, ground arith, frame-prev p v x xs b (ground arith) s.2)

-- The four writes that put `n` between the node before `b` and `b`.
abbrev pub link_before : (n before b : ℕ) → Links → Links
link_before n before b l = set_next n b (set_prev n before (set_next before n (set_prev b n l)))

-- They extend a segment that ends at `b` by `n`.
pub link_before-Seg :
    (l : Links) (n a : ℕ) (xs : List ℕ) (b : ℕ)
    → has n (a ∷ xs) ≡ false
    → (n == b) ≡ false
    → has b xs ≡ false
    → distinct (a ∷ xs) ≡ true
    → Seg l a xs b
    → Seg (link_before n (last a xs) b l) a (xs ++ n ∷ []) b
link_before-Seg l n a [] b new off end d s = ground arith
link_before-Seg l n a (x ∷ xs) b new off end d s = (
  ground (arith, has-other (last x xs) a (x ∷ xs), has-last x xs),
  ground arith,
  link_before-Seg l n x xs b (ground arith) off (ground arith) (ground arith) s.2,
)

-- The four writes that take `n` out between two nodes.
abbrev pub unlink : (n before after : ℕ) → Links → Links
unlink n before after l =
    set_prev n n (set_next n n (set_prev after before (set_next before after l)))

-- They remove `n` from a segment.
pub unlink-Seg :
    (l : Links) (n a : ℕ) (xs ys : List ℕ) (b : ℕ)
    → has n (a ∷ xs ++ ys) ≡ false
    → (n == b) ≡ false
    → has b (xs ++ ys) ≡ false
    → distinct (a ∷ xs ++ ys) ≡ true
    → Seg l a (xs ++ n ∷ ys) b
    → Seg (unlink n (last a xs) (first ys b) l) a (xs ++ ys) b
unlink-Seg l n a [] [] b new off end d s = ground arith
unlink-Seg l n a [] (y ∷ ys) b new off end d s = (
  ground arith,
  ground arith,
  frame-prev _ n n y ys b (ground arith) (
      frame-next _ n n y ys b (ground arith)
        (frame-prev _ y a y ys b (ground arith) (frame-next l a y y ys b (ground arith) s.2.2))),
)
unlink-Seg l n a (x ∷ xs) ys b new off end d s = (
  ground (arith, has-last x xs, has-other (last x xs) a (x ∷ xs), has-append a xs ys),
  ground (arith, first-other x ys b, has-append x xs ys),
  unlink-Seg l n x xs ys b (ground arith) off (ground arith) (ground arith) s.2,
)

-- Only the pointers at each address count, not the order of the writes.
pub Seg-ext :
    (l m : Links) (a : ℕ) (xs : List ℕ) (b : ℕ)
    → ((p : ℕ) → l.next p ≡ m.next p)
    → ((p : ℕ) → l.prev p ≡ m.prev p)
    → Seg l a xs b
    → Seg m a xs b
Seg-ext l m a [] b en ep s = (sym (en a) ∙ s.0, sym (ep b) ∙ s.1)
Seg-ext l m a (x ∷ xs) b en ep s =
    (sym (en a) ∙ s.0, sym (ep x) ∙ s.1, Seg-ext l m x xs b en ep s.2)
