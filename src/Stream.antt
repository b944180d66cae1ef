-- ===== src/Stream.antt =====
-- The stream of kernel/net/stream.c, with the constants of include/os/net.h: packets that arrive in
-- any order are put in order, and gaps and arrivals are reported to the sender.
--
-- What e1000_poll returns is a list of polls, one for each call; `clock` gives the ticks, which do
-- not decrease, by the round of the loop. What do_net_send sends is kept in `sent`. do_sleep is
-- left out. The loop runs on fuel, and `clock fuel` are the ticks of the round that starts with
-- this fuel. reorder_queue is a list of indices of reorder_entries, as list_insert of
-- kernel/list/list.c leaves it.
pub mod Order
pub mod Deliver
pub mod Ending
use risc_v_qemu_kernel.Prelude.{
  ℕ, zero, suc, ◌+◌, ◌-◌, ◌*◌, ◌/◌, ◌%◌, Bool, true, false, not, ◌&&◌, ◌||◌, Option, none, some,
  List, [], ◌∷◌, ◌++◌, leb, ltb, ◌==◌, if◌then◌else◌, find, update, without,
}

abbrev pub u32 : ℕ
u32 = 4294967296

-- `MAX_REORDER_NUM`, `RTP_WINDOW_SIZE`, `RSD_TIMEOUT_TICKS` and `RECV_TIMEOUT_TICKS`
abbrev pub max_reorder_num : ℕ
max_reorder_num = 32

abbrev pub rtp_window_size : ℕ
rtp_window_size = 4096

abbrev pub rsd_timeout_ticks : ℕ
rsd_timeout_ticks = 100000

abbrev pub recv_timeout_ticks : ℕ
recv_timeout_ticks = 3000000

-- `E1000_RTP_OFFSET`, and where the data of a packet starts.
abbrev pub e1000_rtp_offset : ℕ
e1000_rtp_offset = 54

abbrev pub data_offset : ℕ
data_offset = 62

abbrev pub rtp_magic : ℕ
rtp_magic = 69

abbrev pub rtp_dat : ℕ
rtp_dat = 1

abbrev pub rtp_rsd : ℕ
rtp_rsd = 2

abbrev pub rtp_ack : ℕ
rtp_ack = 4

-- `stream_buffer_entry`
pub record Entry : Type 0 where
  pub seq : ℕ
  pub len : ℕ
  pub payload : ℕ → ℕ

pub record Stream : Type 0 where
  pub next_expect_seq : ℕ
  pub reorder_entries : ℕ → Entry
  pub reorder_queue : List ℕ
  pub last_valid_header : ℕ → ℕ
  pub has_valid_header : Bool
  pub sent : List (ℕ → ℕ)

-- The bytes of a number in the order of the network, turned into that of the machine, and back.
unfoldable pub ntohs : ℕ → ℕ
ntohs v = v * 256 % 65536 + v / 256

unfoldable pub ntohl : ℕ → ℕ
ntohl v = v * 16777216 % u32 + v / 256 % 256 * 65536 + v / 65536 % 256 * 256 + v / 16777216

abbrev pub clear_entry : Entry → Entry
clear_entry e = record e { seq = 0; len = 0 }

pub init_stream : Stream → Stream
init_stream s = record s {
  reorder_queue = [];
  reorder_entries = λ i. clear_entry (s.reorder_entries i);
}

pub do_reset_stream : Stream → Stream
do_reset_stream s = record s { next_expect_seq = 0 }

-- The 64 bytes of a control packet: the header that was kept, with the two MAC addresses exchanged, or a
-- broadcast; and the RTP header.
unfoldable pub control_packet : (flags seq : ℕ) → Stream → ℕ → ℕ
unfolding ntohl
control_packet flags seq s i =
    if i == 54
    then rtp_magic
    else if i == 55
    then flags
    else if i == 58
    then ntohl seq % 256
    else if i == 59
    then ntohl seq / 256 % 256
    else if i == 60
    then ntohl seq / 65536 % 256
    else if i == 61
    then ntohl seq / 16777216 % 256
    else if leb 54 i
    then 0
    else if s.has_valid_header
    then (if ltb i 6
        then s.last_valid_header (i + 6)
        else if ltb i 12
        then s.last_valid_header (i - 6)
        else s.last_valid_header i)
    else if ltb i 6
    then 255
    else 0

unfoldable pub send_control_packet : (flags seq : ℕ) → Stream → Stream
send_control_packet flags seq s = record s {
  sent = s.sent ++ control_packet flags seq s ∷ [];
  has_valid_header = false;
}

-- The first entry of the queue with the sequence number.
unfoldable pub entry_in : List ℕ → (seq : ℕ) → Stream → Option ℕ
entry_in [] seq s = none
entry_in (n ∷ ns) seq s =
    let rest = entry_in ns seq s in if (s.reorder_entries n).seq == seq then some n else rest

unfoldable pub get_reorder_entry : (seq : ℕ) → Stream → Option ℕ
unfolding entry_in
get_reorder_entry seq s = entry_in s.reorder_queue seq s

unfoldable pub get_reorder_slot : Stream → Option ℕ
get_reorder_slot s = find max_reorder_num (λ i. (s.reorder_entries i).len == 0)

abbrev pub set_entry : ℕ → Entry → Stream → Stream
set_entry i e s = record s { reorder_entries = update s.reorder_entries i e }

-- `list_insert` with `compare_seq`: before the first entry whose number is not smaller.
unfoldable pub insert_by_seq : (node : ℕ) → List ℕ → Stream → List ℕ
insert_by_seq node [] s = node ∷ []
insert_by_seq node (p ∷ ps) s =
    if ltb (s.reorder_entries p).seq (s.reorder_entries node).seq
    then p ∷ insert_by_seq node ps s
    else node ∷ p ∷ ps

-- The new entry in its slot and in the queue.
unfoldable pub add_entry : (slot seq len : ℕ) → (payload : ℕ → ℕ) → Stream → Stream
unfolding insert_by_seq
add_entry slot seq len payload s =
    let filled =
      set_entry slot
        (record {
          seq = seq;
          len = len;
          payload = λ i. if ltb i len then payload i else (s.reorder_entries slot).payload i;
        })
        s in
    record filled { reorder_queue = insert_by_seq slot filled.reorder_queue filled }

unfoldable pub insert_reorder_packet : (seq len : ℕ) → (payload : ℕ → ℕ) → Stream → Stream
insert_reorder_packet seq len payload s =
    if ltb seq s.next_expect_seq
    then s
    else if ltb ((s.next_expect_seq + rtp_window_size) % u32) seq
    then s
    else elim (get_reorder_entry seq s) [
      | some n ↦ s
      | none ↦ elim (get_reorder_slot s) [ none ↦ s | some slot ↦ add_entry slot seq len payload s ]
    ]

-- What a call of e1000_poll finds: nothing, or a packet of `length` bytes, which is more than 0.
pub data Poll : Type 0 where
  quiet : Poll
  arrived : (length : ℕ) (raw : ℕ → ℕ) → Poll

-- The variables of `do_net_recv_stream`.
pub record Recv : Type 0 where
  pub buffer : ℕ → ℕ
  pub received : ℕ
  pub last_rsd_time : ℕ
  pub last_progress_time : ℕ

-- The number of bytes that the caller takes of `len`, and their copy behind those received.
abbrev pub copy_len : (len wanted : ℕ) → Recv → ℕ
copy_len len wanted r = if ltb (wanted - r.received) len then wanted - r.received else len

abbrev pub receive : (n : ℕ) → (payload : ℕ → ℕ) → Recv → Recv
receive n payload r = record r {
  buffer = λ i.
      if leb r.received i && ltb i (r.received + n) then payload (i - r.received) else r.buffer i;
  received = r.received + n;
}

abbrev pub advance : ℕ → Stream → Stream
advance n s = record s { next_expect_seq = (s.next_expect_seq + n) % u32 }

-- An entry that was taken is removed, or keeps what is left of it. The data of the entry do not move.
abbrev pub shrink_entry : (i n : ℕ) → Stream → Stream
shrink_entry i n s =
    let e = s.reorder_entries i in
    if ltb n e.len
    then set_entry i (record e { len = e.len - n; seq = (e.seq + n) % u32 }) s
    else set_entry i (clear_entry e) (record s { reorder_queue = without i s.reorder_queue })

-- The branch for an entry that is expected; `now` is the time of the progress.
unfoldable pub take_entry : (i wanted now : ℕ) → Stream → Recv → Stream × Recv
unfolding send_control_packet
take_entry i wanted now s r =
    let e = s.reorder_entries i in
    let n = copy_len e.len wanted r in
    (
      shrink_entry i n
          (advance n (send_control_packet rtp_ack ((s.next_expect_seq + e.len) % u32) s)),
      record (receive n e.payload r) { last_progress_time = now },
    )

-- `len < E1000_RTP_OFFSET + sizeof(rtphdr)`, and the tests of the header.
abbrev pub is_data : (length : ℕ) → (ℕ → ℕ) → Bool
is_data length raw = not (ltb length data_offset) && (raw 54 == rtp_magic) && (raw 55 == rtp_dat)

abbrev pub packet_seq : (ℕ → ℕ) → ℕ
packet_seq raw = ntohl (raw 58 + 256 * raw 59 + 65536 * raw 60 + 16777216 * raw 61)

abbrev pub packet_len : (ℕ → ℕ) → ℕ
packet_len raw = ntohs (raw 56 + 256 * raw 57)

abbrev pub packet_data : (ℕ → ℕ) → ℕ → ℕ
packet_data raw i = raw (data_offset + i)

unfoldable pub keep_header : (ℕ → ℕ) → Stream → Stream
keep_header raw s = if s.has_valid_header then s else record s {
  last_valid_header = λ i. if ltb i e1000_rtp_offset then raw i else s.last_valid_header i;
  has_valid_header = true;
}

-- A packet in order: what the caller does not take goes to the queue.
unfoldable pub take_packet : (len wanted : ℕ) → (payload : ℕ → ℕ) → Stream → Recv → Stream × Recv
unfolding send_control_packet
take_packet len wanted payload s r =
    let n = copy_len len wanted r in
    let moved = advance n (send_control_packet rtp_ack ((s.next_expect_seq + len) % u32) s) in
    (
      if ltb n len
          then insert_reorder_packet moved.next_expect_seq (len - n) (λ i. payload (n + i)) moved
          else moved,
      receive n payload r,
    )

-- A packet of data, by its place in the stream: expected, ahead, or old.
unfoldable pub handle_packet : (seq len wanted now : ℕ) → (ℕ → ℕ) → Stream → Recv → Stream × Recv
unfolding send_control_packet
handle_packet seq len wanted now payload s r =
    if seq == s.next_expect_seq
    then take_packet len wanted payload s r
    else if ltb s.next_expect_seq seq
    then (
      send_control_packet rtp_rsd s.next_expect_seq (insert_reorder_packet seq len payload s),
      record r { last_rsd_time = now },
    )
    else (send_control_packet rtp_ack s.next_expect_seq s, r)

-- Without a packet: the call for the missing one, if the last is long ago.
unfoldable pub ask_again : (now : ℕ) → Stream → Recv → Stream × Recv
unfolding send_control_packet
ask_again now s r =
    if ltb rsd_timeout_ticks (now - r.last_rsd_time)
    then (send_control_packet rtp_rsd s.next_expect_seq s, record r { last_rsd_time = now })
    else (s, r)

-- A round in which nothing is there that is expected: one call of e1000_poll. `go` is the loop that
-- goes on; the result is false if there is no poll left.
unfoldable pub poll_once :
    (now wanted : ℕ)
    → (List Poll → Stream → Recv → Bool × Stream × Recv)
    → List Poll
    → Stream
    → Recv
    → Bool × Stream × Recv
poll_once now wanted go [] s r = (false, s, r)
poll_once now wanted go (quiet ∷ rest) s r =
    let (t, q) = ask_again now s r in
    if ltb recv_timeout_ticks (now - r.last_progress_time) then (true, s, r) else go rest t q
poll_once now wanted go (arrived length raw ∷ rest) s r =
    let (t, q) =
      handle_packet (packet_seq raw) (packet_len raw) wanted now (packet_data raw)
        (keep_header raw s) r in
    if is_data length raw then go rest t q else go rest s r

-- The loop of `do_net_recv_stream`. It returns false if it had to go on with no poll or no fuel left.
unfoldable pub recv_loop :
    (clock : ℕ → ℕ) (fuel wanted : ℕ) → List Poll → Stream → Recv → Bool × Stream × Recv
recv_loop clock zero wanted polls s r = (false, s, r)
recv_loop clock (suc fuel) wanted polls s r = elim (leb wanted r.received) [
  | true ↦ (true, s, r)
  | false ↦ elim (get_reorder_entry s.next_expect_seq s) [
    | some i ↦
        let (t, q) = take_entry i wanted (clock fuel) s r in recv_loop clock fuel wanted polls t q
    | none ↦ poll_once (clock fuel) wanted (recv_loop clock fuel wanted) polls s r
  ]
]

-- A call with an empty buffer: it starts at the ticks `now`.
unfoldable pub do_net_recv_stream :
    (clock : ℕ → ℕ) (fuel now wanted : ℕ)
    → (buffer : ℕ → ℕ) → List Poll
    → Stream
    → Bool × Stream × Recv
do_net_recv_stream clock fuel now wanted buffer polls s =
    recv_loop clock fuel wanted polls s
      (record { buffer = buffer; received = 0; last_rsd_time = 0; last_progress_time = now })
