-- ===== src/Links/Insert.antt =====
-- `list_insert` of kernel/list/list.c puts a node at its place in an ordered list.
use mathlib.Core.List.{append-nil}
use risc_v_qemu_kernel.Prelude.{
  ℕ, zero, suc, ◌<◌, ◌≡◌, refl, Bool, true, false, List, [], ◌∷◌, ◌++◌, if◌then◌else◌, arith, has,
  distinct, length, has-append, distinct-left, distinct-right, distinct-apart, distinct-insert,
  absent-drop,
}
use risc_v_qemu_kernel.Links.{Links, insert_pos, list_insert}
use risc_v_qemu_kernel.Links.Ring.{
  Seg, IsQueue, last, first, prev-end, next-start, split, join, frame-next, frame-prev, has-last,
  link_before, link_before-Seg,
}

module _ (comp : ℕ → ℕ → Bool) (node : ℕ) where
  -- The members that the node is put behind, and the rest.
  abbrev pub behind : List ℕ → List ℕ
  behind [] = []
  behind (x ∷ xs) = if comp node x then [] else x ∷ behind xs

  abbrev pub ahead : List ℕ → List ℕ
  ahead [] = []
  ahead (x ∷ xs) = if comp node x then x ∷ xs else ahead xs

  behind-append-ahead : (xs : List ℕ) → behind xs ++ ahead xs ≡ xs
  behind-append-ahead [] = refl
  behind-append-ahead (x ∷ xs) = ground (arith, behind-append-ahead xs)

  insert_pos_lem :
      (fuel : ℕ) (l : Links) (a : ℕ) (xs : List ℕ) (head : ℕ)
      → Seg l a xs head
      → has head xs ≡ false
      → length xs < fuel
      → insert_pos fuel (first xs head) node head comp l ≡ (first (ahead xs) head, true)
  unfolding insert_pos
  insert_pos_lem zero l a xs head s out f = absurd (omega arith)
  insert_pos_lem (suc fuel) l a [] head s out f = ground arith
  insert_pos_lem (suc fuel) l a (x ∷ xs) head s out f = ground (
    arith,
    next-start l x xs head s.2,
    insert_pos_lem fuel l x xs head s.2 (ground arith) (omega arith),
  )

-- The four writes before any place of a list put the node there.
link_at-Seg :
    (l : Links) (node head : ℕ) (pre post : List ℕ)
    → IsQueue l head (pre ++ post)
    → has node (head ∷ pre ++ post) ≡ false
    → Seg
        (link_before node (l.prev (first post head)) (first post head) l)
        head
        (pre ++ node ∷ post)
        head
link_at-Seg l node head pre [] v new =
    let v' : IsQueue l head pre = rw append-nil at v in
    rw (prev-end l head pre head v'.ring) (
      link_before-Seg l node head pre head (ground (arith, new, has-append node pre []))
        (ground (arith, new)) (ground (arith, v'.nodes)) v'.nodes v'.ring)
link_at-Seg l node head pre (y ∷ ys) v new =
    rw (prev-end l head pre y parts.0)
      (join _ head pre node (y ∷ ys) head ends.0 (ends.1.0, ends.1.1, rest))
  where
    parts : Seg l head pre y × Seg l y ys head
    parts = split l head pre y ys head v.ring

    m : Links
    m = link_before node (last head pre) y l

    ends : Seg m head pre node × Seg m node [] y
    ends = split m head pre node [] y (
        link_before-Seg l node head pre y (ground (arith, new, has-append node pre (y ∷ ys)))
          (ground (arith, new, has-append node pre (y ∷ ys)))
          (ground (arith, absent-drop pre y ys (ground (arith, v.nodes)), has-append y pre ys))
          (distinct-left (head ∷ pre) (y ∷ ys) v.nodes) parts.0)

    apart : has (last head pre) (y ∷ ys) ≡ false
    apart = distinct-apart (last head pre) (head ∷ pre) (y ∷ ys) v.nodes (has-last head pre)

    tail_nodes : distinct (y ∷ ys) ≡ true
    tail_nodes = distinct-right (head ∷ pre) (y ∷ ys) v.nodes

    rest : Seg m y ys head
    rest = frame-next _ node y y ys head (ground (arith, new, has-append node pre (y ∷ ys))) (
        frame-prev _ node (last head pre) y ys head
          (ground (arith, new, has-append node pre (y ∷ ys)))
          (frame-next _ (last head pre) node y ys head apart (
            frame-prev l y node y ys head
              (ground (arith, tail_nodes, v.nodes, has-append head pre (y ∷ ys))) parts.1)))

-- Ordered insertion into a plain list.
unfoldable pub insert_ordered : (ℕ → ℕ → Bool) → ℕ → List ℕ → List ℕ
insert_ordered comp node [] = node ∷ []
insert_ordered comp node (x ∷ xs) =
    if comp node x then node ∷ x ∷ xs else x ∷ insert_ordered comp node xs

insert_ordered-parts :
    (comp : ℕ → ℕ → Bool) (node : ℕ) (xs : List ℕ)
    → insert_ordered comp node xs ≡ behind comp node xs ++ node ∷ ahead comp node xs
unfolding insert_ordered
insert_ordered-parts comp node [] = refl
insert_ordered-parts comp node (x ∷ xs) = ground (arith, insert_ordered-parts comp node xs)

-- `list_insert` ends, and puts a node that is not in the list before the first member `p` with
-- `comp(node, p) <= 0`, or at the end.
pub list_insert_lem :
    (fuel : ℕ) (l : Links) (node head : ℕ) (xs : List ℕ) (comp : ℕ → ℕ → Bool)
    → IsQueue l head xs
    → has node (head ∷ xs) ≡ false
    → length xs < fuel
    → let (m, ended) = list_insert fuel node head comp l in
      IsQueue m head (insert_ordered comp node xs) × (ended ≡ true)
unfolding list_insert
list_insert_lem fuel l node head xs comp v new f =
    rw (next-start l head xs head v.ring, walk, insert_ordered-parts comp node xs)
      (
        record {
          nodes =
              distinct-insert node (head ∷ behind comp node xs) (ahead comp node xs) same.nodes
                new';
          ring = link_at-Seg l node head (behind comp node xs) (ahead comp node xs) same new';
        },
        refl,
      )
  where
    walk :
        insert_pos fuel (first xs head) node head comp l ≡ (first (ahead comp node xs) head, true)
    walk = insert_pos_lem comp node fuel l head xs head v.ring (ground (arith, v.nodes)) f

    parts : behind comp node xs ++ ahead comp node xs ≡ xs
    parts = behind-append-ahead comp node xs

    same : IsQueue l head (behind comp node xs ++ ahead comp node xs)
    same = rw parts v

    new' : has node (head ∷ behind comp node xs ++ ahead comp node xs) ≡ false
    new' = rw parts new
