-- ===== src/Nic/Rings.antt =====
-- The rings of drivers/e1000.c as queues of packets.
use risc_v_qemu_kernel.Prelude.{
  ℕ, ◌+◌, ◌%◌, ◌≤◌, ◌<◌, ◌≡◌, ◌≢◌, lt→ltb, refl, List, [], ◌∷◌, ◌++◌, length, Option, some, ltb,
  ◌==◌, if◌then◌else◌, arith, true, false, Bool-cases, inl, inr, ◌⊎◌,
}
use risc_v_qemu_kernel.Nic.{
  Nic, pkt_size, cmd_eop_rs, copy_bytes, next_desc, put_packet, e1000_transmit, e1000_poll,
  release_desc,
}

pub record Packet : Type 0 where
  pub len : ℕ
  pub data_of : ℕ → ℕ

-- The descriptors from `at` on hold the packets, for the card to send.
abbrev pub Pending : (at : ℕ) → List Packet → Nic → Type 0
Pending at [] n = Unit {0}
Pending at (p ∷ ps) n =
    let d = n.tx_desc_array (at % 64) in
    (d.length ≡ p.len)
    × (d.cmd ≡ cmd_eop_rs)
    × (d.status ≡ 0)
    × (d.addr ≡ at % 64)
    × ((j : ℕ) → j < p.len → n.tx_pkt_buffer (at % 64) j ≡ p.data_of j)
    × Pending (at + 1) ps n

-- The packets between the head and the tail.
pub record IsSending (ps : List Packet) (n : Nic) : Type 0 where
  pub head : n.tdh < 64
  pub tail : n.tdt ≡ (n.tdh + length ps) % 64
  pub room : length ps ≤ 63
  pub pending : Pending n.tdh ps n

length-join : (ps : List Packet) (p : Packet) → length (ps ++ p ∷ []) ≡ length ps + 1
length-join [] p = omega arith
length-join (q ∷ ps) p = omega (arith, length-join ps p)

Pending-put_packet :
    (at : ℕ) (ps : List Packet) (packet : ℕ → ℕ) (len : ℕ) (n : Nic)
    → n.tdt ≡ (at + length ps) % 64
    → length ps ≤ 63
    → Pending at ps n
    → Pending at (ps ++ record { len = len; data_of = packet } ∷ []) (put_packet packet len n)
Pending-put_packet at [] packet len n e room h =
    let here : (at % 64 == n.tdt) ≡ true = ground (arith, e) in
    rw here (refl, refl, refl, omega (arith, e), λ j lt. rw (lt→ltb j len lt) refl, tt)
Pending-put_packet at (p ∷ ps) packet len n e room h =
    let apart : at % 64 ≢ n.tdt = omega (arith, e) in
    let other : (at % 64 == n.tdt) ≡ false = ground (arith, apart) in
    rw other (
      h.0,
      h.1,
      h.2,
      h.3,
      h.4,
      Pending-put_packet (at + 1) ps packet len n (omega (arith, e)) (omega arith) h.5,
    )

-- `e1000_transmit` puts a packet behind those that the card has not sent yet, cut to the size of a
-- buffer, and returns its length; with 63 packets in the ring it returns 0 and changes nothing.
pub e1000_transmit_lem :
    (ps : List Packet) (packet : ℕ → ℕ) (size : ℕ) (n : Nic)
    → IsSending ps n
    → let (r, after) = e1000_transmit packet size n in
      let len = if ltb pkt_size size then pkt_size else size in
      ((length ps ≡ 63) × (r ≡ 0) × (after ≡ n))
      ⊎ ((length ps < 63)
          × (r ≡ len)
          × IsSending (ps ++ record { len = len; data_of = packet } ∷ []) after)
unfolding e1000_transmit
e1000_transmit_lem ps packet size n v =
    let len = if ltb pkt_size size then pkt_size else size in
    elim (Bool-cases (n.tdh == next_desc n.tdt)) [
      | inl full ↦
          let same : n.tdh ≡ (n.tdt + 1) % 64 = ground arith in
          rw (full, e1000_transmit) (inl (omega (arith, same, v.head, v.tail, v.room), refl, refl))
      | inr free ↦
          let other : n.tdh ≢ (n.tdt + 1) % 64 = ground arith in
          let more : length ps < 63 = omega (arith, other, v.head, v.tail, v.room) in
          rw (free, e1000_transmit)
            (inr (
              more,
              refl,
              record {
                head = v.head;
                tail =
                    omega (arith, v.tail, length-join ps (record { len = len; data_of = packet }));
                room = omega (arith, more, length-join ps (record { len = len; data_of = packet }));
                pending = Pending-put_packet n.tdh ps packet len n v.tail v.room v.pending;
              },
            ))
    ]

-- The descriptors from `at` on have been filled by the card, and no other.
abbrev pub Arrived : (at : ℕ) → List Packet → Nic → Type 0
Arrived at [] n = (n.rx_desc_array (at % 64)).status % 2 ≡ 0
Arrived at (p ∷ ps) n =
    let d = n.rx_desc_array (at % 64) in
    (d.status % 2 ≡ 1)
    × (d.length ≡ p.len)
    × ((j : ℕ) → j < p.len → n.rx_pkt_buffer (at % 64) j ≡ p.data_of j)
    × Arrived (at + 1) ps n

-- The packets behind the descriptor that was read last.
pub record IsReceiving (ps : List Packet) (n : Nic) : Type 0 where
  pub read : n.rdt < 64
  pub fits : length ps ≤ 63
  pub here : Arrived (n.rdt + 1) ps n

Arrived-wrap :
    (at at' : ℕ) (ps : List Packet) (n : Nic)
    → at % 64 ≡ at' % 64
    → Arrived at ps n
    → Arrived at' ps n
Arrived-wrap at at' [] n e h = rw (← e) h
Arrived-wrap at at' (p ∷ ps) n e h =
    rw (← e) (h.0, h.1, h.2, Arrived-wrap (at + 1) (at' + 1) ps n (omega (arith, e)) h.3)

-- A descriptor that is given back is none of those that are still to be read.
Arrived-release_desc :
    (at i : ℕ) (ps : List Packet) (n : Nic)
    → i < at
    → at + length ps < i + 64
    → Arrived at ps n
    → Arrived at ps (release_desc (i % 64) n)
Arrived-release_desc at i [] n lo hi h =
    let other : (at % 64 == i % 64) ≡ false = ground (arith, apart at i lo (omega arith)) in
    rw other h
  where
    apart : (at i : ℕ) → i < at → at < i + 64 → at % 64 ≢ i % 64
    apart at i lo hi = omega arith
Arrived-release_desc at i (p ∷ ps) n lo hi h =
    let other : (at % 64 == i % 64) ≡ false = ground (arith, apart at i lo (omega arith)) in
    rw other (h.0, h.1, h.2, Arrived-release_desc (at + 1) i ps n (omega arith) (omega arith) h.3)
  where
    apart : (at i : ℕ) → i < at → at < i + 64 → at % 64 ≢ i % 64
    apart at i lo hi = omega arith

-- What a call finds: nothing; or the first packet, in the buffer, and the others are left.
abbrev pub Polled : List Packet → (ℕ → ℕ) → Nic → (ℕ × Option (ℕ → ℕ)) × Nic → Type 0
Polled [] b n r = r ≡ ((0, some b), n)
Polled (p ∷ ps) b n r =
    (r.0.0 ≡ p.len)
    × ((c : ℕ → ℕ) × (r.0.1 ≡ some c)
        × ((j : ℕ) → j < p.len → c j ≡ p.data_of j)
        × ((j : ℕ) → p.len ≤ j → c j ≡ b j))
    × IsReceiving ps r.1

-- `e1000_poll` takes the packets in the order in which the card put them into the ring: it returns
-- the length of the first, which it copies to the buffer, and the others stay; without a packet it
-- returns 0 and changes nothing.
pub e1000_poll_lem :
    (ps : List Packet) (b : ℕ → ℕ) (n : Nic)
    → IsReceiving ps n
    → Polled ps b n (e1000_poll (some b) n)
unfolding e1000_poll
e1000_poll_lem [] b n v =
    let empty : ((n.rx_desc_array ((n.rdt + 1) % 64)).status % 2 == 0) ≡ true =
      ground (arith, v.here) in
    rw empty refl
e1000_poll_lem (p ∷ ps) b n v =
    let d = n.rx_desc_array ((n.rdt + 1) % 64) in
    let filled : (d.status % 2 == 0) ≡ false = ground (arith, v.here.0) in
    rw filled (
      v.here.1,
      (
        copy_bytes d.length (n.rx_pkt_buffer ((n.rdt + 1) % 64)) b,
        refl,
        λ j lt. rw (v.here.1, lt→ltb j p.len lt) (v.here.2 j lt),
        λ j le. ground (arith, v.here.1),
      ),
      record {
        read = omega arith;
        fits = omega (arith, v.fits);
        here =
            Arrived-wrap (n.rdt + 1 + 1) ((n.rdt + 1) % 64 + 1) ps
              (release_desc ((n.rdt + 1) % 64) n) (omega arith)
              (Arrived-release_desc (n.rdt + 1 + 1) (n.rdt + 1) ps n (omega arith)
                (omega (arith, v.fits)) v.here.3);
      },
    )
