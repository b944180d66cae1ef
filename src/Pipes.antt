-- ===== src/Pipes.antt =====
-- The pipes of kernel/pipe/pipe.c: the table of pipes, and the ring of pages that each holds.
--
-- The system calls that unmap a page and map it elsewhere are not modelled, only the moves of the ring
-- that they make. The name is the string up to its end, without the bound of the array.
use risc_v_qemu_kernel.Prelude.{
  ℕ, ◌+◌, ◌-◌, ◌*◌, ◌%◌, ◌≡◌, refl, Bool, true, not, ◌&&◌, Option, none, some, List, [], ◌∷◌, ◌<◌,
  update, find, find-some, find-none, find-hit, arith,
}
use risc_v_qemu_kernel.Prelude.Int.{ℤ, pos, negsuc}
use risc_v_qemu_kernel.Kernel.{Kernel, init_queue}
use risc_v_qemu_kernel.Mailboxes.{same_text}

-- `pipe_t`; its queue is `pipe_queue` of its index.
pub record Pipe : Type 0 where
  pub name : List ℕ
  pub valid : Bool
  pub page_buffer : ℕ → ℕ
  pub head : ℕ
  pub tail : ℕ
  pub data_count : ℕ

abbrev pub pipe_max_num : ℕ
pipe_max_num = 16

abbrev pub pipe_buffer_size : ℕ
pipe_buffer_size = 32

abbrev pub pipe_queue : ℕ → ℕ
pipe_queue i = 8 * i + 72

-- The tests of the loop of `sys_pipe_open`.
abbrev pub is_named : List ℕ → Pipe → Bool
is_named name p = p.valid && same_text p.name name

-- The new pipe at `i`.
abbrev pub create : List ℕ → ℕ → (ℕ → Pipe) → (ℕ → Pipe)
create name i pipes =
    update pipes i
      (record (pipes i) { name = name; valid = true; head = 0; tail = 0; data_count = 0 })

unfoldable pub pipe_found :
    List ℕ → Option ℕ → Option ℕ → (ℕ → Pipe) → Kernel → ℤ × (ℕ → Pipe) × Kernel
unfolding init_queue
pipe_found name (some i) free pipes k = (pos i, pipes, k)
pipe_found name none (some i) pipes k = (pos i, create name i pipes, init_queue (pipe_queue i) k)
pipe_found name none none pipes k = (negsuc 0, pipes, k)

-- The loop finds the pipe of the name, or the first free one.
unfoldable pub sys_pipe_open : List ℕ → (ℕ → Pipe) → Kernel → ℤ × (ℕ → Pipe) × Kernel
unfolding pipe_found
sys_pipe_open name pipes k =
    pipe_found name (find pipe_max_num (λ i. is_named name (pipes i)))
      (find pipe_max_num (λ i. not (pipes i).valid)) pipes k

-- The page goes into the ring.
unfoldable pub put_page : ℕ → Pipe → Pipe
put_page pa p = record p {
  page_buffer = update p.page_buffer p.head pa;
  head = (p.head + 1) % pipe_buffer_size;
  data_count = p.data_count + 1;
}

-- The oldest page comes out of it.
unfoldable pub take_page : Pipe → ℕ × Pipe
take_page p = (
  p.page_buffer p.tail,
  record p { tail = (p.tail + 1) % pipe_buffer_size; data_count = p.data_count - 1 },
)

same_text_refl : (xs : List ℕ) → same_text xs xs ≡ true
same_text_refl [] = refl
same_text_refl (x ∷ xs) = ground (arith, same_text_refl xs)

-- The new pipe is the only one of its name.
find-create :
    (name : List ℕ) (i : ℕ) (pipes : ℕ → Pipe)
    → find pipe_max_num (λ j. is_named name (pipes j)) ≡ none
    → i < pipe_max_num
    → find pipe_max_num (λ j. is_named name (create name i pipes j)) ≡ some i
find-create name i pipes absent inside =
    find-hit (λ j. is_named name (create name i pipes j)) pipe_max_num i
      (ground (arith, same_text_refl name))
      (λ j before.
        ground
          (arith, find-none (λ l. is_named name (pipes l)) pipe_max_num absent j (omega arith)))
      inside

module _ (name : List ℕ) (i : ℕ) (pipes : ℕ → Pipe) (k : Kernel) where
  opened_again :
      (o p : Option ℕ)
      → find pipe_max_num (λ j. is_named name (pipes j)) ≡ o
      → find pipe_max_num (λ j. not (pipes j).valid) ≡ p
      → (pipe_found name o p pipes k).0 ≡ pos i
      → let after = pipe_found name o p pipes k in (sys_pipe_open name after.1 after.2).0 ≡ pos i
  unfolding pipe_found sys_pipe_open
  opened_again (some j) p found free e = rw found e
  opened_again none (some j) absent free e =
      rw
        (find-create name j pipes absent
          (find-some (λ l. not (pipes l).valid) pipe_max_num j free).1)
        e
  opened_again none none absent free e = absurd (cc)

  -- A pipe that `sys_pipe_open` returns is the one that it returns again for the name.
  pub sys_pipe_open_again :
      (sys_pipe_open name pipes k).0 ≡ pos i
      → let after = sys_pipe_open name pipes k in (sys_pipe_open name after.1 after.2).0 ≡ pos i
  unfolding sys_pipe_open
  sys_pipe_open_again e =
      opened_again (find pipe_max_num (λ j. is_named name (pipes j)))
        (find pipe_max_num (λ j. not (pipes j).valid)) refl refl e
