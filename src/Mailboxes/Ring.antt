-- ===== src/Mailboxes/Ring.antt =====
-- The ring buffer of a mailbox is a queue of at most 64 bytes: bytes come out in the order in which they
-- went in.
use mathlib.Core.List.{append_assoc, append-nil}
use mathlib.Core.Path.{ap₂}
use risc_v_qemu_kernel.Prelude.{
  ◌≢◌, ℕ, zero, suc, ◌+◌, ◌-◌, ◌≤◌, ◌<◌, ◌%◌, ◌≡◌, refl, ap, sym, ◌∙◌, List, [], ◌∷◌, ◌++◌, length,
  update, arith, ◌==◌, false,
}
use risc_v_qemu_kernel.Kernel.{Mailbox}
use risc_v_qemu_kernel.Mailboxes.{put_bytes, max_mbox_length}

pub +_zero : (a : ℕ) → a + 0 ≡ a
+_zero a = omega arith

pub zero_+ : (b : ℕ) → 0 + b ≡ b
zero_+ b = omega arith

pub suc_+ : (a b : ℕ) → suc a + b ≡ suc (a + b)
suc_+ a b = omega arith

pub +_shift : (a b : ℕ) → a + 1 + b ≡ a + suc b
+_shift a b = omega arith

-- The bytes between two positions of the buffer.
abbrev pub read_from : (n pos : ℕ) → (ℕ → ℕ) → List ℕ
read_from zero pos buf = []
read_from (suc n) pos buf = buf (pos % 64) ∷ read_from n (pos + 1) buf

-- The bytes that are in the mailbox, in order.
abbrev pub contents : Mailbox → List ℕ
contents m = read_from (m.nwrite - m.nread) m.nread m.buf

abbrev pub IsRing : Mailbox → Type 0
IsRing m = (m.nread ≤ m.nwrite) × (m.nwrite ≤ m.nread + max_mbox_length)

-- A write outside the range does not matter.
read_from-frame :
    (n pos at : ℕ) (buf : ℕ → ℕ) (b : ℕ)
    → ((i : ℕ) → i < n → ((pos + i) % 64 == at) ≡ false)
    → read_from n pos (update buf at b) ≡ read_from n pos buf
read_from-frame zero pos at buf b out = refl
read_from-frame (suc n) pos at buf b out = ground (
  arith,
  out 0 (omega arith),
  ap (λ p. p % 64 == at) (+_zero pos),
  read_from-frame n (pos + 1) at buf b
      (λ i h. ap (λ p. p % 64 == at) (+_shift pos i) ∙ out (suc i) (omega arith)),
)

-- Writing a byte behind the last.
read_from-snoc :
    (n pos : ℕ) (buf : ℕ → ℕ) (b : ℕ)
    → read_from (suc n) pos buf ≡ read_from n pos buf ++ buf ((pos + n) % 64) ∷ []
read_from-snoc zero pos buf b = rw (+_zero pos) refl
read_from-snoc (suc n) pos buf b =
    ap (λ xs. buf (pos % 64) ∷ xs) (read_from-snoc n (pos + 1) buf b)
    ∙ ap (λ p. buf (pos % 64) ∷ (read_from n (pos + 1) buf ++ buf (p % 64) ∷ [])) (+_shift pos n)

contents-put :
    (m : Mailbox) (b : ℕ)
    → IsRing m
    → m.nwrite < m.nread + max_mbox_length
    → contents
        (record m { buf = update m.buf (m.nwrite % max_mbox_length) b; nwrite = m.nwrite + 1 })
      ≡ contents m ++ b ∷ []
contents-put m b r h =
    ap (λ n. read_from n m.nread after) grows
    ∙ (read_from-snoc used m.nread after b
        ∙ ap₂ (λ xs x. xs ++ x ∷ [])
            (read_from-frame used m.nread (m.nwrite % 64) m.buf b
              (λ i lt. ground (arith, r, slots i lt)))
            (ground (arith, behind)))
  where
    used : ℕ
    used = m.nwrite - m.nread

    after : ℕ → ℕ
    after = update m.buf (m.nwrite % 64) b

    slots : (i : ℕ) → i < m.nwrite - m.nread → (m.nread + i) % 64 ≢ m.nwrite % 64
    slots i lt e = absurd (omega (arith, r))

    grows : m.nwrite + 1 - m.nread ≡ suc used
    grows = omega (arith, r)

    behind : m.nread + (m.nwrite - m.nread) ≡ m.nwrite
    behind = omega (arith, r)

put_bytes-contents :
    (bs : List ℕ) (m : Mailbox)
    → IsRing m
    → m.nwrite + length bs ≤ m.nread + max_mbox_length
    → IsRing (put_bytes bs m)
      × ((put_bytes bs m).nwrite ≡ m.nwrite + length bs)
      × ((put_bytes bs m).nread ≡ m.nread)
      × (contents (put_bytes bs m) ≡ contents m ++ bs)
unfolding put_bytes
put_bytes-contents [] m r h = (r, omega arith, refl, sym (append-nil (contents m)))
put_bytes-contents (b ∷ bs) m r h =
    let rest =
      put_bytes-contents bs
        (record m { buf = update m.buf (m.nwrite % max_mbox_length) b; nwrite = m.nwrite + 1 })
        (omega (arith, r), omega arith) (omega arith) in
    (
      rest.0,
      omega (arith, rest.1),
      rest.2,
      rest.3
          ∙ (ap (λ xs. xs ++ bs) (contents-put m b r (omega arith))
              ∙ append_assoc (contents m) (b ∷ []) bs),
    )

-- Writing bytes that there is room for puts them behind those that the mailbox holds.
pub put_bytes_lem :
    (bs : List ℕ) (m : Mailbox)
    → IsRing m
    → m.nwrite + length bs ≤ m.nread + max_mbox_length
    → let after = put_bytes bs m in IsRing after × (contents after ≡ contents m ++ bs)
put_bytes_lem bs m r h = let p = put_bytes-contents bs m r h in (p.0, p.3)
