-- ===== src/Nic.antt =====
-- The driver of the network card, drivers/e1000.c: the rings of descriptors that it shares with the
-- card.
--
-- The registers that the driver uses are fields; what the card does to them and to the descriptors
-- between two calls is not a part of the driver. The address of a buffer is its index in
-- tx_pkt_buffer or rx_pkt_buffer. Flushes of the cache, the delay, and the base addresses of the
-- rings are left out. After a read of ICR, which clears it, no event is pending, so that the loop
-- of the reset ends.
pub mod Rings
use risc_v_qemu_kernel.Prelude.{
  ℕ, ◌+◌, ◌-◌, ◌*◌, ◌%◌, Option, none, some, Bool, false, ltb, ◌==◌, if◌then◌else◌, update,
}

-- `TXDESCS` and `RXDESCS`, and `TX_PKT_SIZE`
abbrev pub descs : ℕ
descs = 64

abbrev pub pkt_size : ℕ
pkt_size = 2048

-- `E1000_TXD_CMD_EOP | E1000_TXD_CMD_RS`
abbrev pub cmd_eop_rs : ℕ
cmd_eop_rs = 1 + 8

-- `e1000_tx_desc`
pub record TxDesc : Type 0 where
  pub addr : ℕ
  pub length : ℕ
  pub cso : ℕ
  pub cmd : ℕ
  pub status : ℕ
  pub css : ℕ
  pub special : ℕ

-- `e1000_rx_desc`, without `special`, which nothing uses
pub record RxDesc : Type 0 where
  pub addr : ℕ
  pub length : ℕ
  pub csum : ℕ
  pub status : ℕ
  pub errors : ℕ

pub record Nic : Type 0 where
  pub tx_desc_array : ℕ → TxDesc
  pub rx_desc_array : ℕ → RxDesc
  pub tx_pkt_buffer : ℕ → ℕ → ℕ
  pub rx_pkt_buffer : ℕ → ℕ → ℕ
  pub tdh : ℕ
  pub tdt : ℕ
  pub tdlen : ℕ
  pub tctl : ℕ
  pub rdh : ℕ
  pub rdt : ℕ
  pub rdlen : ℕ
  pub rctl : ℕ
  pub ral : ℕ
  pub rah : ℕ
  pub icr : ℕ
  pub txqe_enabled : Bool
  pub rxdmt0_enabled : Bool

-- All causes of interrupts are masked, and those that are pending are read.
unfoldable pub e1000_reset : Nic → Nic
e1000_reset n = record n {
  rctl = 0;
  tctl = 0;
  tdh = 0;
  tdt = 0;
  rdh = 0;
  rdt = 0;
  txqe_enabled = false;
  rxdmt0_enabled = false;
  icr = 0;
}

abbrev pub zero_tx_desc : TxDesc
zero_tx_desc = record { addr = 0; length = 0; cso = 0; cmd = 0; status = 0; css = 0; special = 0 }

-- TCTL: enable, pad short packets, CT 0x10 and COLD 0x40.
unfoldable pub e1000_configure_tx : Nic → Nic
e1000_configure_tx n = record n {
  tx_desc_array = λ i. zero_tx_desc;
  tdlen = descs * 16;
  tdh = 0;
  tdt = 0;
  tctl = 2 + 8 + 16 * 16 + 64 * 4096;
}

-- The MAC address 00:0a:35:00:1e:53, the ring, and RCTL: enable, accept broadcasts, buffers of 2048
-- bytes.
unfoldable pub e1000_configure_rx : Nic → Nic
e1000_configure_rx n = record n {
  ral = 0 + 10 * 256 + 53 * 65536 + 0 * 16777216;
  rah = 30 + 83 * 256 + 2147483648;
  rx_desc_array = λ i. record { addr = i; length = 0; csum = 0; status = 0; errors = 0 };
  rdlen = descs * 16;
  rdh = 0;
  rdt = descs - 1;
  rctl = 2 + 32768;
}

unfoldable pub e1000_init : Nic → Nic
unfolding e1000_reset e1000_configure_tx e1000_configure_rx
e1000_init n = e1000_configure_rx (e1000_configure_tx (e1000_reset n))

-- `memcpy` of `len` bytes to the start of a buffer.
abbrev pub copy_bytes : (len : ℕ) → (src dest : ℕ → ℕ) → ℕ → ℕ
copy_bytes len src dest j = if ltb j len then src j else dest j

abbrev pub next_desc : ℕ → ℕ
next_desc i = (i + 1) % descs

-- The packet in the descriptor at the tail, cut to the size of a buffer.
abbrev pub put_packet : (packet : ℕ → ℕ) → (len : ℕ) → Nic → Nic
put_packet packet len n = record n {
  tx_pkt_buffer = update n.tx_pkt_buffer n.tdt (copy_bytes len packet (n.tx_pkt_buffer n.tdt));
  tx_desc_array = update n.tx_desc_array n.tdt (record {
    addr = n.tdt;
    length = len;
    cso = 0;
    cmd = cmd_eop_rs;
    status = 0;
    css = 0;
    special = 0;
  });
  tdt = next_desc n.tdt;
}

unfoldable pub e1000_transmit : (packet : ℕ → ℕ) → (length : ℕ) → Nic → ℕ × Nic
e1000_transmit packet length n =
    let len = if ltb pkt_size length then pkt_size else length in
    if n.tdh == next_desc n.tdt then (0, n) else (len, put_packet packet len n)

-- The descriptor behind the tail is given back to the card.
abbrev pub release_desc : ℕ → Nic → Nic
release_desc next n = record n {
  rx_desc_array =
      update n.rx_desc_array next
        (record (n.rx_desc_array next) { status = 0; length = 0; csum = 0; errors = 0 });
  rdt = next;
}

abbrev pub copy_to : Option (ℕ → ℕ) → (len : ℕ) → (ℕ → ℕ) → Option (ℕ → ℕ)
copy_to none len src = none
copy_to (some buffer) len src = some (copy_bytes len src buffer)

-- The packet is copied to the buffer of the caller, if there is one.
unfoldable pub e1000_poll : Option (ℕ → ℕ) → Nic → (ℕ × Option (ℕ → ℕ)) × Nic
e1000_poll buffer n =
    let next = next_desc n.rdt in
    let d = n.rx_desc_array next in
    if d.status % 2 == 0
    then ((0, buffer), n)
    else ((d.length, copy_to buffer d.length (n.rx_pkt_buffer next)), release_desc next n)
