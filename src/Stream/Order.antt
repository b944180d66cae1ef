-- ===== src/Stream/Order.antt =====
-- The queue of packets that arrived too early: insert_reorder_packet of kernel/net/stream.c.
use risc_v_qemu_kernel.Prelude.{
  ℕ, ◌+◌, ◌%◌, ◌<◌, ◌≤◌, ◌≡◌, refl, true, some, List, [], ◌∷◌, ltb, arith, Bool-cases, Option-cases,
  inl, inr, ◌⊎◌, has,
}
use risc_v_qemu_kernel.Stream.{
  Stream, u32, ntohl, get_reorder_entry, get_reorder_slot, add_entry, insert_reorder_packet,
}

-- Turning the bytes of a number round twice gives the number.
pub ntohl-ntohl : (v : ℕ) → v < u32 → ntohl (ntohl v) ≡ v
unfolding ntohl
ntohl-ntohl v h = omega arith

-- A packet is dropped, or gets an entry.
pub insert_cases :
    (seq len : ℕ) (payload : ℕ → ℕ) (s : Stream)
    → (insert_reorder_packet seq len payload s ≡ s)
      ⊎ ((slot : ℕ) × (get_reorder_slot s ≡ some slot)
          × (insert_reorder_packet seq len payload s ≡ add_entry slot seq len payload s))
unfolding insert_reorder_packet
insert_cases seq len payload s = elim (Bool-cases (ltb seq s.next_expect_seq)) [
  | inl old ↦ inl (rw (old, insert_reorder_packet) refl)
  | inr newer ↦ elim (Bool-cases (ltb ((s.next_expect_seq + 4096) % u32) seq)) [
    | inl far ↦ inl (rw (newer, far, insert_reorder_packet) refl)
    | inr near ↦ elim (Option-cases (get_reorder_entry seq s)) [
      | inr (n, there) ↦ inl (rw (newer, near, there, insert_reorder_packet) refl)
      | inl absent ↦ elim (Option-cases (get_reorder_slot s)) [
        | inl full ↦ inl (rw (newer, near, absent, full, insert_reorder_packet) refl)
        | inr (slot, free) ↦
            inr (slot, free, rw (newer, near, absent, free, insert_reorder_packet) refl)
      ]
    ]
  ]
]

-- The numbers of the entries do not fall along the queue.
abbrev pub IsAscending : List ℕ → Stream → Type 0
IsAscending [] s = Unit {0}
IsAscending (n ∷ []) s = Unit {0}
IsAscending (n ∷ m ∷ ns) s =
    ((s.reorder_entries n).seq ≤ (s.reorder_entries m).seq) × IsAscending (m ∷ ns) s

-- The queue is in the order of the numbers, and each of its entries holds data.
pub record IsReorder (s : Stream) : Type 0 where
  pub ascending : IsAscending s.reorder_queue s
  pub filled : (n : ℕ) → has n s.reorder_queue ≡ true → 0 < (s.reorder_entries n).len
