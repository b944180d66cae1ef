-- ===== src/Net/Receive.antt =====
-- What do_net_recv of kernel/net/net.c gives to its caller.
use mathlib.Core.Path.{ap₂}
use risc_v_qemu_kernel.Prelude.{
  ℕ, suc, ◌+◌, ◌-◌, ◌<◌, ◌≡◌, refl, ap, ◌∙◌, List, [], ◌∷◌, length, some, update, false, ◌++◌, ◌==◌,
  arith,
}
use risc_v_qemu_kernel.Prelude.Int.{pos}
use risc_v_qemu_kernel.Kernel.{Control, returns}
use risc_v_qemu_kernel.Nic.{Nic, e1000_poll}
use risc_v_qemu_kernel.Nic.Rings.{Packet, IsReceiving, e1000_poll_lem}
use risc_v_qemu_kernel.Net.{
  Net, RecvCall, recv_packets, do_net_recv, count_packet, curr_buf, fill_from,
}

-- The packets one behind the other in a buffer from `at` on, none of them empty, and their lengths
-- from `i` on.
abbrev pub LaidOut : (at i : ℕ) → List Packet → (buffer lens : ℕ → ℕ) → Type 0
LaidOut at i [] buffer lens = Unit {0}
LaidOut at i (p ∷ ps) buffer lens =
    ((j : ℕ) → j < p.len → buffer (at + j) ≡ p.data_of j)
    × (lens i ≡ p.len)
    × LaidOut (at + p.len) (i + 1) ps buffer lens

abbrev pub NoneEmpty : List Packet → Type 0
NoneEmpty [] = Unit {0}
NoneEmpty (p ∷ ps) = (0 < p.len) × NoneEmpty ps

abbrev pub total : List Packet → ℕ
total [] = 0
total (p ∷ ps) = p.len + total ps

-- A call that returns with the packets in its buffer, and what was there before.
abbrev pub Received : List Packet → RecvCall → Net → Control × RecvCall × Net → Type 0
Received ps c s (ended, d, t) =
    (ended ≡ returns (pos (c.total_len + total ps)))
    × LaidOut c.total_len c.i ps d.rxbuffer d.pkt_lens
    × ((j : ℕ) → j < c.total_len → d.rxbuffer j ≡ c.rxbuffer j)
    × ((j : ℕ) → j < c.i → d.pkt_lens j ≡ c.pkt_lens j)
    × (t.kernel ≡ s.kernel)

placed : (at j : ℕ) (bytes buffer : ℕ → ℕ) → fill_from at (some bytes) buffer (at + j) ≡ bytes j
placed at j bytes buffer = ground (arith, ap bytes (back at j))
  where
    back : (at j : ℕ) → at + j - at ≡ j
    back at j = omega arith

same_index : (i len : ℕ) (lens : ℕ → ℕ) → update lens i len i ≡ len
same_index i len lens = ground arith

Received-step :
    (p : Packet) (ps : List Packet) (c : RecvCall) (bytes : ℕ → ℕ) (s s' : Net)
    (r : Control × RecvCall × Net)
    → ((j : ℕ) → j < p.len → bytes j ≡ p.data_of j)
    → s'.kernel ≡ s.kernel
    → Received ps (count_packet p.len (some bytes) c) s' r
    → Received (p ∷ ps) c s r
Received-step p ps c bytes s s' r h same w = (
  w.0 ∙ ap (λ x. returns (pos x)) (omega arith),
  (
    λ j lt. w.2 (c.total_len + j) (omega arith) ∙ placed c.total_len j bytes c.rxbuffer ∙ h j lt,
    w.3 c.i (omega arith) ∙ same_index c.i p.len c.pkt_lens,
    w.1,
  ),
  λ j lt. w.2 j (omega arith) ∙ ground arith,
  λ j lt. w.3 j (omega arith) ∙ ground arith,
  w.4 ∙ same,
)

recv_packets-some :
    (n len : ℕ) (bytes : ℕ → ℕ) (c : RecvCall) (s : Net) (nic : Nic)
    → e1000_poll (some (curr_buf c)) s.nic ≡ ((len, some bytes), nic)
    → 0 < len
    → recv_packets (suc n) c s
      ≡ recv_packets n (count_packet len (some bytes) c) (record s { nic = nic })
unfolding recv_packets
recv_packets-some n len bytes c s nic e h =
    let some_bytes : (len == 0) ≡ false = ground arith in rw (e, some_bytes, recv_packets) refl

recv_packets_lem :
    (ps more : List Packet) (c : RecvCall) (s : Net)
    → NoneEmpty ps
    → IsReceiving (ps ++ more) s.nic
    → Received ps c s (recv_packets (length ps) c s)
      × IsReceiving more (recv_packets (length ps) c s).2.nic
unfolding recv_packets
recv_packets_lem [] more c s full v =
    ((ap (λ x. returns (pos x)) (omega arith), tt, λ j lt. refl, λ j lt. refl, refl), v)
recv_packets_lem (p ∷ ps) more c s full v =
    let r = e1000_poll (some (curr_buf c)) s.nic in
    let polled = e1000_poll_lem (p ∷ (ps ++ more)) (curr_buf c) s.nic v in
    let (bytes, out, hold, rest) = polled.1 in
    let e : r ≡ ((p.len, some bytes), r.1) = ap₂ (λ a b. ((a, b), r.1)) polled.0 out in
    let after =
      recv_packets_lem ps more (count_packet p.len (some bytes) c) (record s { nic = r.1 }) full.1
        polled.2 in
    rw (recv_packets-some (length ps) p.len bytes c s r.1 e full.0) (
      Received-step p ps c bytes s (record s { nic = r.1 })
          (recv_packets (length ps) (count_packet p.len (some bytes) c) (record s { nic = r.1 }))
          hold refl after.0,
      after.1,
    )

-- `do_net_recv` of as many packets as have arrived, or fewer, none of them empty, does not wait: it
-- returns the sum of their lengths; the buffer holds them in the order in which the card put them
-- into the ring, one behind the other, and pkt_lens their lengths; no process is moved; and the
-- packets behind them are left for the next call.
pub do_net_recv_lem :
    (ps more : List Packet) (rxbuffer pkt_lens : ℕ → ℕ) (s : Net)
    → NoneEmpty ps
    → IsReceiving (ps ++ more) s.nic
    → let (ended, c, t) = do_net_recv rxbuffer pkt_lens (length ps) s in
      (ended ≡ returns (pos (total ps)))
      × LaidOut 0 0 ps c.rxbuffer c.pkt_lens
      × (t.kernel ≡ s.kernel)
      × IsReceiving more t.nic
unfolding do_net_recv
do_net_recv_lem ps more rxbuffer pkt_lens s full v =
    let call : RecvCall = record {
      rxbuffer = rxbuffer;
      pkt_lens = pkt_lens;
      i = 0;
      total_len = 0;
    } in
    let (w, left) = recv_packets_lem ps more call s full v in
    (w.0 ∙ ap (λ x. returns (pos x)) (omega arith), w.1, w.4, left)
