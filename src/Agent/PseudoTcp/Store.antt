-- ===== src/Agent/PseudoTcp/Store.antt =====
-- agent/pseudotcp.c: the part of `process` that keeps the data of a segment, and the part of
-- `pseudo_tcp_socket_recv` that hands it out.
pub mod Stream
pub mod Deliver
use libxice.Base.{ℕ, ◌+◌, ◌-◌, ◌%◌, ◌^◌, Bool, true, false, not, ◌&&◌, ◌||◌, List, [], ◌∷◌}
use libxice.Base.{ltb, leb, ◌==◌, if◌then◌else◌, bit_and}
use libxice.Base.Memory.{Memory, load_bytes}
use libxice.Agent.PseudoTcp.{PseudoTcpSocket, SendFlags, sf_delayed_ack, sf_immediate_ack, Segment}
use libxice.Agent.PseudoTcp.{RSegment, Shutdown, sd_none, flag_ctl, rcv_buf_size}
use libxice.Agent.PseudoTcp.{sf_none}
use libxice.Agent.PseudoTcp.U32.{add32, sub32, sub64}

-- Which acknowledgment a segment asks for.
abbrev pub ack_flags : PseudoTcpSocket → Segment → SendFlags
ack_flags s seg =
    if not (seg.seq == s.rcv_nxt)
    then sf_immediate_ack
    else if seg.len == 0
    then sf_none
    else sf_delayed_ack

-- What was received before is cut off at the front.
unfoldable pub cut_front : PseudoTcpSocket → Segment → Segment
cut_front s seg =
    if ltb seg.seq s.rcv_nxt
    then (let n = s.rcv_nxt - seg.seq in
        if ltb n seg.len
        then record seg {
          seq = add32 seg.seq n;
          payload = λ i. seg.payload (i + n);
          len = seg.len - n;
        }
        else record seg { len = 0 })
    else seg

-- What the buffer has no room for is cut off at the end.
abbrev pub kept_length : ℕ → ℕ → ℕ → ℕ → ℕ
kept_length seq len rlen rcv_nxt =
    let past = sub32 (add32 seq len) rcv_nxt in
    let space = sub64 rcv_buf_size rlen in
    let n = sub32 past (space % 2 ^ 32) in
    if ltb space past then (if ltb n len then len - n else 0) else len

unfoldable pub cut_back : PseudoTcpSocket → Segment → Segment
cut_back s seg = record seg { len = kept_length seg.seq seg.len s.rlen s.rcv_nxt }

-- `memcpy (p, data, n)`
abbrev pub copy : Memory → ℕ → Memory → ℕ → Memory
copy m p from n i = if leb p i && ltb i (p + n) then from (i - p) else m i

abbrev pub advance : PseudoTcpSocket → ℕ → PseudoTcpSocket
advance s n = record s {
  rlen = add32 s.rlen n;
  rcv_nxt = add32 s.rcv_nxt n;
  rcv_wnd = sub32 s.rcv_wnd n;
}

abbrev pub reaches : PseudoTcpSocket → RSegment → Bool
reaches s x = ltb s.rcv_nxt (add32 x.seq x.len)

-- The segments that came too early and follow now.
unfoldable pub recover_early :
    List RSegment → PseudoTcpSocket → SendFlags → PseudoTcpSocket × SendFlags
recover_early [] s sflags = (record s { rlist = [] }, sflags)
recover_early (x ∷ xs) s sflags =
    if leb x.seq s.rcv_nxt
    then recover_early xs
        (if reaches s x then advance s (sub32 (add32 x.seq x.len) s.rcv_nxt) else s)
        (if reaches s x then sf_immediate_ack else sflags)
    else (record s { rlist = x ∷ xs }, sflags)

unfoldable pub insert_early : RSegment → List RSegment → List RSegment
insert_early r [] = r ∷ []
insert_early r (x ∷ xs) = if ltb x.seq r.seq then x ∷ insert_early r xs else r ∷ x ∷ xs

abbrev pub stored : PseudoTcpSocket → Segment → PseudoTcpSocket
stored s seg = record s {
  rbuf = copy s.rbuf (s.rlen + sub32 seg.seq s.rcv_nxt) seg.payload seg.len;
}

abbrev pub is_open : Shutdown → Bool
is_open sd_none = true
is_open _ = false

-- `bIgnoreData`
abbrev pub is_ignored : PseudoTcpSocket → Segment → Bool
is_ignored s seg = not (bit_and seg.flags flag_ctl == 0) || not (is_open s.shutdown)

abbrev pub with_new : PseudoTcpSocket × SendFlags → PseudoTcpSocket × SendFlags × Bool
with_new (s, sflags) = (s, sflags, true)

-- The data of a segment that was cut; the result says whether there is new data.
unfoldable pub store_data :
    PseudoTcpSocket → Segment → SendFlags → PseudoTcpSocket × SendFlags × Bool
store_data s seg sflags =
    if seg.len == 0
    then (s, sflags, false)
    else if is_ignored s seg
    then (
      record s { rcv_nxt = if seg.seq == s.rcv_nxt then add32 s.rcv_nxt seg.len else s.rcv_nxt },
      sflags,
      false,
    )
    else if seg.seq == s.rcv_nxt
    then with_new (recover_early s.rlist (advance (stored s seg) seg.len) sflags)
    else (
      record (stored s seg) {
        rlist = insert_early (record { seq = seg.seq; len = seg.len }) s.rlist;
      },
      sflags,
      false,
    )

unfoldable pub receive_data : PseudoTcpSocket → Segment → PseudoTcpSocket × SendFlags × Bool
receive_data s seg = store_data s (cut_back s (cut_front s seg)) (ack_flags s seg)

-- The first `n` bytes are handed out, and the others move up.
unfoldable pub read_bytes : PseudoTcpSocket → ℕ → List ℕ × PseudoTcpSocket
read_bytes s n = (
  load_bytes s.rbuf 0 n,
  record s {
    rlen = sub32 s.rlen n;
    rbuf = λ i. if ltb i (rcv_buf_size - n) then s.rbuf (i + n) else s.rbuf i;
  },
)
