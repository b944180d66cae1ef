-- ===== src/Links/Queue.antt =====
-- `init_queue`, `is_empty_queue`, `enqueue`, `dequeue` and `del_node` of kernel/list/list.c act on
-- a well-formed list as a first-in first-out queue does.
use risc_v_qemu_kernel.Prelude.{
  ℕ, ◌≡◌, refl, true, false, none, some, List, [], ◌∷◌, ◌++◌, ◌==◌, Bool-cases, inl, inr, arith,
  has, without, without-absent, distinct, has-append, distinct-snoc, distinct-drop, absent-drop,
}
use risc_v_qemu_kernel.Links.{
  Links, unlink_front, init_queue, is_empty_queue, enqueue, dequeue, del_node,
}
use risc_v_qemu_kernel.Links.Ring.{
  Seg, IsQueue, last, first, prev-end, next-start, split, has-last, has-other, link_before-Seg,
  unlink-Seg, Seg-ext,
}

-- `init_queue` makes an empty list.
pub init_queue-IsQueue : (head : ℕ) (l : Links) → IsQueue (init_queue head l) head []
unfolding init_queue
init_queue-IsQueue head l = record { nodes = refl; ring = ground arith }

-- `enqueue` puts a node that is not in the list behind the last member, and keeps the list well formed.
pub enqueue-IsQueue :
    (l : Links) (node head : ℕ) (xs : List ℕ)
    → IsQueue l head xs
    → has node (head ∷ xs) ≡ false
    → IsQueue (enqueue node head l) head (xs ++ node ∷ [])
unfolding enqueue
enqueue-IsQueue l node head xs v new = record {
  nodes = ground (arith, v.nodes, distinct-snoc node xs, has-append head xs (node ∷ []));
  ring =
      Seg-ext _ _ head (xs ++ node ∷ []) head (λ p. ground (arith, rear, apart))
        (λ p. ground (arith, rear, apart))
        (link_before-Seg l node head xs head new (ground arith) (ground (arith, v.nodes)) v.nodes
          v.ring);
}
  where
    rear : l.prev head ≡ last head xs
    rear = prev-end l head xs head v.ring

    apart : (node == last head xs) ≡ false
    apart = has-other (last head xs) node (head ∷ xs) (has-last head xs) new

-- `dequeue` returns NULL on an empty list, and changes nothing.
pub dequeue-empty : (l : Links) (head : ℕ) → IsQueue l head [] → dequeue head l ≡ (none, l)
unfolding dequeue is_empty_queue
dequeue-empty l head v = ground (arith, v.ring)

-- `del_node` takes a node out of the list that it stands in, wherever in it.
pub del_node-IsQueue :
    (l : Links) (node head : ℕ) (xs ys : List ℕ)
    → IsQueue l head (xs ++ node ∷ ys)
    → IsQueue (del_node node l) head (xs ++ ys)
unfolding del_node
del_node-IsQueue l node head xs ys v = record {
  nodes = fewer;
  ring =
      rw (prev-end l head xs node parts.0, next-start l node ys head parts.1)
        (unlink-Seg l node head xs ys head out (ground (arith, out)) (ground (arith, fewer)) fewer
          v.ring);
}
  where
    parts : Seg l head xs node × Seg l node ys head
    parts = split l head xs node ys head v.ring

    fewer : distinct (head ∷ xs ++ ys) ≡ true
    fewer = distinct-drop (head ∷ xs) node ys v.nodes

    out : has node (head ∷ xs ++ ys) ≡ false
    out = absent-drop (head ∷ xs) node ys v.nodes

unlink_front-IsQueue :
    (l : Links) (head x : ℕ) (xs : List ℕ)
    → IsQueue l head (x ∷ xs)
    → IsQueue (unlink_front x head l) head xs
unfolding unlink_front
unlink_front-IsQueue l head x xs v = record {
  nodes = ground (arith, v.nodes);
  ring =
      Seg-ext _ _ head xs head (λ p. ground (arith, after, v.nodes))
        (λ p. ground (arith, after, v.nodes))
        (unlink-Seg l x head [] xs head (ground (arith, v.nodes)) (ground (arith, v.nodes))
          (ground (arith, v.nodes)) (ground (arith, v.nodes)) v.ring);
}
  where
    after : l.next x ≡ first xs head
    after = next-start l x xs head v.ring.2

-- `dequeue` takes the first node off, and leaves it linked to itself.
pub dequeue-front :
    (l : Links) (head x : ℕ) (xs : List ℕ)
    → IsQueue l head (x ∷ xs)
    → let (front, m) = dequeue head l in
      (front ≡ some x) × IsQueue m head xs × (m.next x ≡ x) × (m.prev x ≡ x)
unfolding dequeue
dequeue-front l head x xs v =
    rw (filled, v.ring.0)
      (
        refl,
        unlink_front-IsQueue l head x xs v,
        unfold unlink_front in ground arith,
        unfold unlink_front in ground arith,
      )
  where
    apart : (head == last x xs) ≡ false
    apart = has-other (last x xs) head (x ∷ xs) (has-last x xs) (ground (arith, v.nodes))

    filled : is_empty_queue head l ≡ false
    filled =
        unfold is_empty_queue in
        ground (arith, apart, v.nodes, v.ring.0, prev-end l x xs head v.ring.2)

-- A member splits the list at its place.
cut :
    (n : ℕ) (xs : List ℕ)
    → has n xs ≡ true
    → distinct xs ≡ true
    → (pre : List ℕ) × (post : List ℕ) × (xs ≡ pre ++ n ∷ post) × (without n xs ≡ pre ++ post)
cut n [] h d = absurd (cc)
cut n (x ∷ xs) h d = elim (Bool-cases (n == x)) [
  | inl here ↦ ([], xs, ground arith, ground (arith, without-absent n xs))
  | inr there ↦
      let (pre, post, e, f) = cut n xs (ground arith) (ground arith) in
      (x ∷ pre, post, ground arith, ground arith)
]

-- `del_node` takes a member out of its list, wherever it stands.
pub del_node-without :
    (l : Links) (node head : ℕ) (xs : List ℕ)
    → IsQueue l head xs
    → has node xs ≡ true
    → IsQueue (del_node node l) head (without node xs)
del_node-without l node head xs v h =
    let (pre, post, e, f) = cut node xs h (ground (arith, v.nodes)) in
    rw f (del_node-IsQueue l node head pre post (rw e at v))
