-- ===== src/Process/Leave.antt =====
-- What a process gives back when it ends: `free_lock`, `free_barrier` and `free_mbox`.
use risc_v_qemu_kernel.Prelude.{ℕ, ◌<◌, ◌≡◌}
use risc_v_qemu_kernel.Kernel.{Kernel}
use risc_v_qemu_kernel.Block.Invariant.{WellQueued}

-- The queues are well formed, and the process `c` has the processor.
abbrev Steady : ℕ → Kernel → Type 0
Steady c k = WellQueued k × (k.current ≡ c) × (c < 64)
