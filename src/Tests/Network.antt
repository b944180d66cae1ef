-- ===== src/Tests/Network.antt =====
-- A network card with two packets that have arrived and a full ring of packets to be sent.
use risc_v_qemu_kernel.Prelude.{
  ℕ, zero, suc, ◌+◌, ◌<◌, ◌≡◌, refl, false, true, List, [], ◌∷◌, ◌++◌, length, some, ltb,
  if◌then◌else◌, arith, ◌⊎◌,
}
use risc_v_qemu_kernel.Prelude.Int.{pos}
use risc_v_qemu_kernel.Kernel.{returns, reschedules, ready_queue}
use risc_v_qemu_kernel.Nic.{Nic, cmd_eop_rs, e1000_transmit, e1000_poll}
use risc_v_qemu_kernel.Nic.Rings.{
  Packet, Pending, IsSending, IsReceiving, Polled, e1000_transmit_lem, e1000_poll_lem,
}
use risc_v_qemu_kernel.Net.{Net, do_net_send, do_net_recv, e1000_handle_txqe}
use risc_v_qemu_kernel.Net.Receive.{LaidOut, do_net_recv_lem}
use risc_v_qemu_kernel.Net.Waiting.{do_net_send-wait}
use risc_v_qemu_kernel.Tests.Locks.{held, held-WellQueued}
use risc_v_qemu_kernel.Tests.Streams.{waiting}

abbrev busy : Nic
busy = record {
  tx_desc_array = λ i. record {
    addr = i;
    length = 1;
    cso = 0;
    cmd = cmd_eop_rs;
    status = 0;
    css = 0;
    special = 0;
  };
  rx_desc_array =
      λ i. record { addr = i; length = 3; csum = 0; status = if ltb i 2 then 1 else 0; errors = 0 };
  tx_pkt_buffer = λ i j. 5;
  rx_pkt_buffer = λ i j. i + j;
  tdh = 2;
  tdt = 1;
  tdlen = 1024;
  tctl = 0;
  rdh = 2;
  rdt = 63;
  rdlen = 1024;
  rctl = 0;
  ral = 0;
  rah = 0;
  icr = 0;
  txqe_enabled = false;
  rxdmt0_enabled = false;
}

abbrev short : Packet
short = record { len = 1; data_of = λ j. 5 }

copies : ℕ → List Packet
copies zero = []
copies (suc n) = short ∷ copies n

copies-Pending : (at n : ℕ) → Pending at (copies n) busy
unfolding copies
copies-Pending at zero = tt
copies-Pending at (suc n) = (refl, refl, refl, refl, λ j lt. refl, copies-Pending (at + 1) n)

busy-IsSending : IsSending (copies 63) busy
unfolding copies
busy-IsSending = record {
  head = omega arith;
  tail = refl;
  room = omega arith;
  pending = copies-Pending 2 63;
}

abbrev first : Packet
first = record { len = 3; data_of = λ j. 0 + j }

abbrev second : Packet
second = record { len = 3; data_of = λ j. 1 + j }

busy-IsReceiving : IsReceiving (first ∷ second ∷ []) busy
busy-IsReceiving = record {
  read = omega arith;
  fits = omega arith;
  here = (refl, refl, λ j lt. refl, (refl, refl, λ j lt. refl, refl));
}

e1000_transmit_lem_example :
    let (r, after) = e1000_transmit (λ j. 7) 100 busy in
    ((length (copies 63) ≡ 63) × (r ≡ 0) × (after ≡ busy))
    ⊎ ((length (copies 63) < 63)
        × (r ≡ 100)
        × IsSending (copies 63 ++ record { len = 100; data_of = λ j. 7 } ∷ []) after)
e1000_transmit_lem_example = e1000_transmit_lem (copies 63) (λ j. 7) 100 busy busy-IsSending

e1000_poll_lem_holds : Polled (first ∷ second ∷ []) (λ j. 9) busy (e1000_poll (some (λ j. 9)) busy)
e1000_poll_lem_holds = e1000_poll_lem (first ∷ second ∷ []) (λ j. 9) busy busy-IsReceiving

abbrev net : Net
net = record { kernel = held; nic = busy; stream = waiting }

do_net_recv_lem_example :
    let (ended, c, t) = do_net_recv (λ j. 9) (λ j. 0) 1 net in
    (ended ≡ returns (pos 3))
    × LaidOut 0 0 (first ∷ []) c.rxbuffer c.pkt_lens
    × (t.kernel ≡ held)
    × IsReceiving (second ∷ []) t.nic
do_net_recv_lem_example =
    do_net_recv_lem (first ∷ []) (second ∷ []) (λ j. 9) (λ j. 0) net (omega arith, tt)
      busy-IsReceiving

do_net_send-wait_example :
    let (ended, t) = do_net_send (λ j. 7) 100 net in
    let woken = e1000_handle_txqe t in
    (ended ≡ reschedules)
    × (t.nic ≡ record busy { txqe_enabled = true })
    × (woken.nic ≡ record busy { txqe_enabled = false })
    × (woken.kernel.queue ready_queue ≡ 4 ∷ 1 ∷ [])
do_net_send-wait_example =
    do_net_send-wait (copies 63) (λ j. 7) 100 net busy-IsSending (unfold copies in refl)
      held-WellQueued refl refl (omega arith)
