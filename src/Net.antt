-- ===== src/Net.antt =====
-- kernel/net/net.c: sending and receiving packets, with the processes that wait for the network card.
--
-- A call that finds no room or no packet puts its process into a queue of the kernel and gives up
-- the processor; when the process runs again, it goes on with another pass. The two queues have
-- numbers of their own among those of `Kernel`.
pub mod Receive
pub mod Waiting
use risc_v_qemu_kernel.Prelude.{
  ℕ, zero, suc, ◌+◌, ◌-◌, ◌*◌, ◌/◌, ◌%◌, Bool, true, false, Option, none, some, leb, ltb, ◌==◌,
  if◌then◌else◌, update,
}
use risc_v_qemu_kernel.Prelude.Int.{pos}
use risc_v_qemu_kernel.Kernel.{Kernel, Control, returns, reschedules, init_queue}
use risc_v_qemu_kernel.Block.{do_block, wakeup}
use risc_v_qemu_kernel.Nic.{Nic, e1000_transmit, e1000_poll}
use risc_v_qemu_kernel.Stream.{Stream, init_stream}

pub record Net : Type 0 where
  pub kernel : Kernel
  pub nic : Nic
  pub stream : Stream

abbrev pub send_block_queue : ℕ
send_block_queue = 72

abbrev pub recv_block_queue : ℕ
recv_block_queue = 73

unfoldable pub init_net : Net → Net
init_net s = record s {
  kernel = init_queue recv_block_queue (init_queue send_block_queue s.kernel);
  stream = init_stream s.stream;
}

-- `do_net_send`: one pass of its loop.
unfoldable pub do_net_send : (packet : ℕ → ℕ) → (length : ℕ) → Net → Control × Net
do_net_send packet length s =
    let (bytes_sent, nic) = e1000_transmit packet length s.nic in
    if ltb 0 bytes_sent then (returns (pos bytes_sent), record s { nic = nic }) else (
      reschedules,
      record s {
        nic = record nic { txqe_enabled = true };
        kernel = do_block s.kernel.current send_block_queue s.kernel;
      },
    )

-- The variables of `do_net_recv`.
pub record RecvCall : Type 0 where
  pub rxbuffer : ℕ → ℕ
  pub pkt_lens : ℕ → ℕ
  pub i : ℕ
  pub total_len : ℕ

-- `curr_buf`, and the buffer with other bytes from there on.
abbrev pub curr_buf : RecvCall → ℕ → ℕ
curr_buf c j = c.rxbuffer (c.total_len + j)

abbrev pub fill_from : (at : ℕ) → Option (ℕ → ℕ) → (ℕ → ℕ) → ℕ → ℕ
fill_from at none buffer j = buffer j
fill_from at (some bytes) buffer j = if leb at j then bytes (j - at) else buffer j

abbrev pub count_packet : (current_len : ℕ) → Option (ℕ → ℕ) → RecvCall → RecvCall
count_packet current_len out c = record {
  rxbuffer = fill_from c.total_len out c.rxbuffer;
  pkt_lens = update c.pkt_lens c.i current_len;
  i = c.i + 1;
  total_len = c.total_len + current_len;
}

-- `do_net_recv` with `n` packets to go: it returns, or waits in the middle.
unfoldable pub recv_packets : (n : ℕ) → RecvCall → Net → Control × RecvCall × Net
recv_packets zero c s = (returns (pos c.total_len), c, s)
recv_packets (suc n) c s =
    let ((current_len, out), nic) = e1000_poll (some (curr_buf c)) s.nic in
    let rest = recv_packets n (count_packet current_len out c) (record s { nic = nic }) in
    if current_len == 0
    then (
      reschedules,
      c,
      record s {
        nic = record nic { rxdmt0_enabled = true };
        kernel = do_block s.kernel.current recv_block_queue s.kernel;
      },
    )
    else rest

unfoldable pub do_net_recv :
    (rxbuffer pkt_lens : ℕ → ℕ) → (pkt_num : ℕ) → Net → Control × RecvCall × Net
do_net_recv rxbuffer pkt_lens pkt_num s =
    recv_packets pkt_num (record { rxbuffer = rxbuffer; pkt_lens = pkt_lens; i = 0; total_len = 0 })
      s

unfoldable pub e1000_handle_txqe : Net → Net
e1000_handle_txqe s = record s {
  kernel = wakeup send_block_queue s.kernel;
  nic = record s.nic { txqe_enabled = false };
}

unfoldable pub e1000_handle_rxdmt0 : Net → Net
e1000_handle_rxdmt0 s = record s {
  kernel = wakeup recv_block_queue s.kernel;
  nic = record s.nic { rxdmt0_enabled = false };
}

-- Reading ICR clears it; its bits 1 and 4 are TXQE and RXDMT0.
unfoldable pub net_handle_irq : Net → Net
net_handle_irq s =
    let icr = s.nic.icr in
    let seen = record s { nic = record s.nic { icr = 0 } } in
    let sent = if icr / 2 % 2 == 1 then e1000_handle_txqe seen else seen in
    if icr / 16 % 2 == 1 then e1000_handle_rxdmt0 sent else sent
