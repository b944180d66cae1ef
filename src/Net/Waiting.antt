-- ===== src/Net/Waiting.antt =====
-- A sender that finds the ring full, and the interrupt that wakes it.
use mathlib.Core.Path.{ap₂}
use risc_v_qemu_kernel.Prelude.{
  ℕ, ◌<◌, ◌≡◌, refl, ◌∙◌, false, true, List, [], ◌∷◌, ◌++◌, length, arith, inl, inr,
}
use risc_v_qemu_kernel.Kernel.{Kernel, enqueue, running, ready_queue, reschedules}
use risc_v_qemu_kernel.Block.{do_block, wakeup}
use risc_v_qemu_kernel.Block.Invariant.{WellQueued, do_block-WellQueued}
use risc_v_qemu_kernel.Block.Wakeup.{ready-wakeup}
use risc_v_qemu_kernel.Nic.{e1000_transmit}
use risc_v_qemu_kernel.Nic.Rings.{Packet, IsSending, e1000_transmit_lem}
use risc_v_qemu_kernel.Net.{Net, send_block_queue, do_net_send, e1000_handle_txqe}

wakeup-do_block :
    (k : Kernel)
    → WellQueued k
    → (k.pcb k.current).status ≡ running
    → (k.pcb k.current).killed ≡ false
    → k.current < 64
    → (wakeup 72 (do_block k.current 72 k)).queue ready_queue
      ≡ k.queue ready_queue ++ (k.queue 72 ++ k.current ∷ [])
wakeup-do_block k w run alive small =
    ready-wakeup (do_block k.current 72 k) 72 (do_block-WellQueued k k.current 72 w run small refl)
      refl
    ∙ unfold do_block enqueue in rw alive refl

full_ring :
    (ps : List Packet) (packet : ℕ → ℕ) (size : ℕ) (s : Net)
    → IsSending ps s.nic
    → length ps ≡ 63
    → e1000_transmit packet size s.nic ≡ (0, s.nic)
full_ring ps packet size s v full = elim (e1000_transmit_lem ps packet size s.nic v) [
  | inl still ↦ ap₂ (λ r n. (r, n)) still.1 still.2
  | inr free ↦ absurd (omega (arith, free.0, full))
]

-- With 63 packets in the ring and well formed queues, `do_net_send` of the running process, which
-- is not killed, does not touch the card but for the interrupt that it enables, and its process
-- gives up the processor; the interrupt makes all senders that wait ready, this process as the
-- last, behind the processes that are, in the order in which they came, and is disabled.
pub do_net_send-wait :
    (ps : List Packet) (packet : ℕ → ℕ) (size : ℕ) (s : Net)
    → IsSending ps s.nic
    → length ps ≡ 63
    → WellQueued s.kernel
    → (s.kernel.pcb s.kernel.current).status ≡ running
    → (s.kernel.pcb s.kernel.current).killed ≡ false
    → s.kernel.current < 64
    → let (ended, t) = do_net_send packet size s in
      let woken = e1000_handle_txqe t in
      (ended ≡ reschedules)
      × (t.nic ≡ record s.nic { txqe_enabled = true })
      × (woken.nic ≡ record s.nic { txqe_enabled = false })
      × (woken.kernel.queue ready_queue
          ≡ s.kernel.queue ready_queue
            ++ (s.kernel.queue send_block_queue ++ s.kernel.current ∷ []))
unfolding do_net_send e1000_handle_txqe
do_net_send-wait ps packet size s v full w run alive small =
    rw (full_ring ps packet size s v full, do_net_send)
      (refl, refl, refl, wakeup-do_block s.kernel w run alive small)
