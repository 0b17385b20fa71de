-- ===== src/Agent/PseudoTcp/Receive.antt =====
-- agent/pseudotcp.c: a packet comes in, `parse` and `process`.
pub mod Frame
pub mod InOrder
pub mod Moves
pub mod Wire
pub mod Partial
pub mod Short
use libxice.Base.{ℕ, zero, suc, ◌+◌, ◌-◌, ◌*◌, ◌/◌, ◌%◌, ◌^◌, Bool, true, false, not, ◌&&◌, ◌||◌}
use libxice.Base.{Option, none, some, List, [], ◌∷◌, ◌++◌, ltb, leb, ◌==◌, if◌then◌else◌, bit_and}
use libxice.Base.Memory.{Memory, byte}
use libxice.Agent.PseudoTcp.{PseudoTcpSocket, PseudoTcpState, listen, syn_sent, syn_received}
use libxice.Agent.PseudoTcp.{established, closed, SendFlags, sf_none, sf_delayed_ack, Shutdown}
use libxice.Agent.PseudoTcp.{sd_none, sf_immediate_ack, econnaborted, econnreset, Segment, SSegment}
use libxice.Agent.PseudoTcp.{
  RSegment, opened, readable, writable, Run, done, aborted, ◌>>=◌, g_assert,
}
use libxice.Agent.PseudoTcp.{call, header_size, flag_ctl, flag_rst, ctl_connect, min_rto, max_rto}
use libxice.Agent.PseudoTcp.{rcv_buf_size, snd_buf_size}
use libxice.Agent.PseudoTcp.U32.{ℤ, pos, negsuc, add32, sub32, mul32, sub64, min, max}
use libxice.Agent.PseudoTcp.Clock.{get_current_time, time_diff, bound}
use libxice.Agent.PseudoTcp.Store.{receive_data}
use libxice.Agent.PseudoTcp.Send.{queue, transmit_first, attempt_send, closedown, adjust_mtu}

-- `ntohl (*(guint32 *) (buffer + p))`, `ntohs`
abbrev pub ntohl : Memory → ℕ → ℕ
ntohl m p = byte m p * 2 ^ 24 + byte m (p + 1) * 2 ^ 16 + byte m (p + 2) * 2 ^ 8 + byte m (p + 3)

abbrev pub ntohs : Memory → ℕ → ℕ
ntohs m p = byte m p * 2 ^ 8 + byte m (p + 1)

-- The fields of the segment in a packet of `size` bytes.
abbrev pub segment_of : Memory → ℕ → Segment
segment_of buffer size = record {
  conv = ntohl buffer 0;
  seq = ntohl buffer 4;
  ack = ntohl buffer 8;
  flags = byte buffer 13;
  wnd = ntohs buffer 14;
  payload = λ i. buffer (header_size + i);
  len = sub32 size header_size;
  tsval = ntohl buffer 16;
  tsecr = ntohl buffer 20;
}

-- The socket after the control part of `process`: `none` is `return FALSE`, otherwise `bConnect`.
abbrev pub Controlled : Type 0
Controlled = Run (PseudoTcpSocket × Option Bool)

-- A CTL_CONNECT.
abbrev pub connected : PseudoTcpState → PseudoTcpSocket → Controlled
connected listen s =
    queue (record s { state = syn_received }) (ctl_connect ∷ []) true >>= λ (s', n).
    done (s', some true)
connected syn_sent s = done (call opened (adjust_mtu (record s { state = established })), some true)
connected _ s = done (s, some true)

unfoldable pub control : PseudoTcpSocket → Segment → Controlled
control s seg =
    if bit_and seg.flags flag_ctl == 0
    then done (s, some false)
    else if seg.len == 0
    then done (s, none)
    else if byte seg.payload 0 == ctl_connect
    then connected s.state s
    else done (s, none)

unfoldable pub update_timestamp : PseudoTcpSocket → Segment → PseudoTcpSocket
update_timestamp s seg =
    if leb seg.seq s.ts_lastack && ltb s.ts_lastack (add32 seg.seq seg.len)
    then record s { ts_recent = seg.tsval }
    else s

-- `abs (rtt - rx_srtt)` on 32 bits.
abbrev pub abs32 : ℕ → ℕ
abs32 n = if ltb n (2 ^ 31) then n else 2 ^ 32 - n

abbrev pub smoothed : PseudoTcpSocket → ℕ → PseudoTcpSocket
smoothed s rtt =
    if s.rx_srtt == 0 then record s { rx_srtt = rtt; rx_rttvar = rtt / 2 } else record s {
      rx_rttvar = add32 (mul32 3 s.rx_rttvar) (abs32 (sub32 rtt s.rx_srtt)) / 4;
      rx_srtt = (mul32 7 s.rx_srtt + rtt) / 8;
    }

abbrev pub with_rto : PseudoTcpSocket → PseudoTcpSocket
with_rto s = record s {
  rx_rto = bound min_rto (add32 s.rx_srtt (max 1 (mul32 4 s.rx_rttvar))) max_rto;
}

-- A negative time is a failed assertion.
abbrev pub measured : PseudoTcpSocket → ℤ → Run PseudoTcpSocket
measured s (pos rtt) = done (with_rto (smoothed s rtt))
measured s (negsuc n) = aborted

unfoldable pub measure_rtt : PseudoTcpSocket → ℕ → ℕ → Run PseudoTcpSocket
measure_rtt s now tsecr = if tsecr == 0 then done s else measured s (time_diff now tsecr)

-- The loop that takes `n` acknowledged bytes off the send list, with the size of the largest segment.
unfoldable pub free_acked : List SSegment → ℕ → ℕ → Run (List SSegment × ℕ)
free_acked [] zero largest = done ([], largest)
free_acked [] (suc n) largest = aborted
free_acked (x ∷ xs) n largest =
    let rest = free_acked xs (n - x.len) (if ltb largest x.len then x.len else largest) in
    if n == 0
    then done (x ∷ xs, largest)
    else if ltb n x.len
    then done (record x { len = sub32 x.len n } ∷ xs, largest)
    else rest

-- The window, and the buffer without the acknowledged bytes.
abbrev pub acked : PseudoTcpSocket → Segment → ℕ → PseudoTcpSocket
acked s seg now =
    let n = sub32 seg.ack s.snd_una in
    record s {
      snd_wnd = seg.wnd;
      snd_una = seg.ack;
      rto_base = if seg.ack == s.snd_nxt then 0 else now;
      slen = sub32 s.slen n;
      sbuf = λ i. if ltb i (sub32 s.slen n) then s.sbuf (i + n) else s.sbuf i;
    }

-- `none` is `return FALSE` after a failed retransmission.
abbrev pub or_closed :
    PseudoTcpSocket × Bool
    → (PseudoTcpSocket → PseudoTcpSocket)
    → Run (PseudoTcpSocket × Option (Unit {0}))
or_closed (s, true) f = done (f s, some tt)
or_closed (s, false) f = done (closedown s econnaborted, none)

-- The congestion window after an acknowledgment of `n` bytes.
unfoldable pub grow_window : PseudoTcpSocket → ℕ → ℕ → Run (PseudoTcpSocket × Option (Unit {0}))
grow_window s n now =
    if leb 3 s.dup_acks
    then (if leb s.recover s.snd_una
        then done (
          record s {
            cwnd = min s.ssthresh (add32 (sub32 s.snd_nxt s.snd_una) s.mss);
            dup_acks = 0;
          },
          some tt,
        )
        else (transmit_first s s.slist now >>= λ r.
            or_closed r (λ s'. record s' { cwnd = add32 s'.cwnd (sub32 s'.mss (min n s'.cwnd)) })))
    else if ltb s.cwnd s.ssthresh
    then done (record s { dup_acks = 0; cwnd = add32 s.cwnd s.mss }, some tt)
    else g_assert (not (s.cwnd == 0)) (
        done (
          record s { dup_acks = 0; cwnd = add32 s.cwnd (max 1 (mul32 s.mss s.mss / s.cwnd)) },
          some tt,
        ))

abbrev pub is_syn_received : PseudoTcpState → Bool
is_syn_received syn_received = true
is_syn_received _ = false

unfoldable pub establish : PseudoTcpSocket → Bool → PseudoTcpSocket
establish s connect =
    if is_syn_received s.state && not connect
    then call opened (adjust_mtu (record s { state = established }))
    else s

unfoldable pub notify_writable : PseudoTcpSocket → PseudoTcpSocket
notify_writable s =
    if s.write_enable && ltb s.slen ((snd_buf_size + rcv_buf_size) / 2)
    then call writable (record s { write_enable = false })
    else s

abbrev pub continued :
    Bool → PseudoTcpSocket × Option (Unit {0}) → Run (PseudoTcpSocket × Option (Unit {0}))
continued connect (s, none) = done (s, none)
continued connect (s, some u) = done (notify_writable (establish s connect), some u)

-- A valuable acknowledgment.
unfoldable pub new_ack :
    PseudoTcpSocket → Segment → Bool → ℕ → Run (PseudoTcpSocket × Option (Unit {0}))
new_ack s seg connect now =
    let n = sub32 seg.ack s.snd_una in
    measure_rtt s now seg.tsecr >>= λ s'. free_acked s'.slist n s'.largest >>= λ (slist', largest').
    grow_window (record (acked s' seg now) { slist = slist'; largest = largest' }) n now
    >>= continued connect

-- An acknowledgment of what is acknowledged already.
unfoldable pub same_ack : PseudoTcpSocket → Segment → ℕ → Run (PseudoTcpSocket × Option (Unit {0}))
same_ack s seg now =
    let s' = record s { snd_wnd = seg.wnd } in
    let dups = (s.dup_acks + 1) % 2 ^ 8 in
    if ltb 0 seg.len
    then done (s', some tt)
    else if s.snd_una == s.snd_nxt
    then done (record s' { dup_acks = 0 }, some tt)
    else if dups == 3
    then (transmit_first (record s' { dup_acks = dups }) s'.slist now >>= λ r. or_closed r (λ s''.
        let thresh = max (sub32 s''.snd_nxt s''.snd_una / 2) (mul32 2 s''.mss) in
        record s'' {
          recover = s''.snd_nxt;
          ssthresh = thresh;
          cwnd = add32 thresh (mul32 3 s''.mss);
        }))
    else done (
      record s' { dup_acks = dups; cwnd = if ltb 3 dups then add32 s.cwnd s.mss else s.cwnd },
      some tt,
    )

unfoldable pub handle_ack :
    PseudoTcpSocket → Segment → Bool → ℕ → Run (PseudoTcpSocket × Option (Unit {0}))
handle_ack s seg connect now =
    if ltb s.snd_una seg.ack && leb seg.ack s.snd_nxt
    then new_ack s seg connect now
    else if seg.ack == s.snd_una
    then same_ack s seg now
    else done (s, some tt)

-- The end of `process`.
abbrev pub notify_readable : PseudoTcpSocket → Bool → PseudoTcpSocket
notify_readable s new =
    if new && s.read_enable then call readable (record s { read_enable = false }) else s

-- `process` after the acknowledgment.
abbrev pub take_data : Segment → PseudoTcpSocket × Option (Unit {0}) → Run (PseudoTcpSocket × Bool)
take_data seg (s, none) = done (s, false)
take_data seg (s, some u) =
    let (s', sflags, new) = receive_data s seg in
    attempt_send s' sflags >>= λ s''. done (notify_readable s'' new, true)

abbrev pub take_ack : Segment → ℕ → PseudoTcpSocket × Option Bool → Run (PseudoTcpSocket × Bool)
take_ack seg now (s, none) = done (s, false)
take_ack seg now (s, some connect) =
    handle_ack (update_timestamp s seg) seg connect now >>= take_data seg

abbrev pub is_closed : PseudoTcpState → Bool
is_closed closed = true
is_closed _ = false

unfoldable pub process : PseudoTcpSocket → Segment → Run (PseudoTcpSocket × Bool)
process s seg =
    let (now, s') = get_current_time s in
    let heard = record s' { last_traffic = now; lastrecv = now; outgoing = false } in
    if not (seg.conv == s.conv)
    then done (s, false)
    else if is_closed s.state
    then done (heard, false)
    else if not (bit_and seg.flags flag_rst == 0)
    then done (closedown heard econnreset, false)
    else (control heard seg >>= take_ack seg now)

unfoldable pub parse : PseudoTcpSocket → Memory → ℕ → Run (PseudoTcpSocket × Bool)
parse s buffer size = if ltb size 12 then done (s, false) else process s (segment_of buffer size)
