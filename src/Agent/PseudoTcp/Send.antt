-- ===== src/Agent/PseudoTcp/Send.antt =====
-- agent/pseudotcp.c: the send queue, and what goes out of it.
pub mod Keeps
pub mod Ends
use libxice.Base.{ℕ, zero, suc, ◌+◌, ◌-◌, ◌*◌, ◌/◌, ◌%◌, ◌^◌, Bool, true, false, not, ◌&&◌, ◌||◌}
use libxice.Base.{Option, none, some, List, [], ◌∷◌, ◌++◌, get_or, length, ltb, leb, ◌==◌}
use libxice.Base.{if◌then◌else◌}
use libxice.Base.Memory.{Memory, load_bytes, store_bytes}
use libxice.Agent.PseudoTcp
use libxice.Agent.PseudoTcp.{PseudoTcpSocket, PseudoTcpState, listen, syn_sent, syn_received}
use libxice.Agent.PseudoTcp.{established, closed, PseudoTcpWriteResult, wr_success, wr_too_large}
use libxice.Agent.PseudoTcp.{wr_fail, SendFlags, sf_none, sf_delayed_ack, sf_immediate_ack, Errno}
use libxice.Agent.PseudoTcp.{SSegment, Event, gone, write_packet, Run, done, aborted, starved}
use libxice.Agent.PseudoTcp.{◌>>=◌, g_assert, call, packet_maximums, header_size, packet_overhead}
use libxice.Agent.PseudoTcp.{max_packet, flag_ctl, snd_buf_size}
use libxice.Agent.PseudoTcp.U32.{ℤ, pos, negsuc, leb_ℤ, add32, sub32, mul32, sub64, min, max}
use libxice.Agent.PseudoTcp.Clock.{get_current_time, time_diff}

abbrev pub is_established : PseudoTcpState → Bool
is_established established = true
is_established _ = false

abbrev pub same_type : Bool → Bool → Bool
same_type true b = b
same_type false b = not b

-- The new bytes join the last segment if that is of the same type and was not sent yet.
abbrev pub enqueue : List SSegment → ℕ → ℕ → Bool → List SSegment
enqueue [] seq n ctrl = record { seq = seq; len = n; xmit = 0; ctrl = ctrl } ∷ []
enqueue (x ∷ []) seq n ctrl =
    if same_type x.ctrl ctrl && (x.xmit == 0)
    then record x { len = add32 x.len n } ∷ []
    else x ∷ record { seq = seq; len = n; xmit = 0; ctrl = ctrl } ∷ []
enqueue (x ∷ y ∷ xs) seq n ctrl = x ∷ enqueue (y ∷ xs) seq n ctrl

-- `memcpy (sbuf + slen, data, n)`, and the number of the bytes that were taken.
abbrev pub queue_bytes : PseudoTcpSocket → List ℕ → Bool → PseudoTcpSocket × ℕ
queue_bytes s bytes ctrl = (
  record s {
    slist = enqueue s.slist (add32 s.snd_una s.slen) (length bytes) ctrl;
    sbuf = store_bytes s.sbuf s.slen bytes;
    slen = add32 s.slen (length bytes);
  },
  length bytes,
)

abbrev pub take : ℕ → List ℕ → List ℕ
take n [] = []
take n (x ∷ xs) = if n == 0 then [] else x ∷ take (n - 1) xs

unfoldable pub queue : PseudoTcpSocket → List ℕ → Bool → Run (PseudoTcpSocket × ℕ)
queue s bytes ctrl =
    let space = sub64 snd_buf_size s.slen in
    if ltb space (length bytes)
    then g_assert (not ctrl) (done (queue_bytes s (take (space % 2 ^ 32) bytes) ctrl))
    else done (queue_bytes s bytes ctrl)

-- `htonl`, `htons`
abbrev pub htonl : ℕ → List ℕ
htonl v = (v / 2 ^ 24 % 2 ^ 8) ∷ (v / 2 ^ 16 % 2 ^ 8) ∷ (v / 2 ^ 8 % 2 ^ 8) ∷ (v % 2 ^ 8) ∷ []

abbrev pub htons : ℕ → List ℕ
htons v = (v / 2 ^ 8 % 2 ^ 8) ∷ (v % 2 ^ 8) ∷ []

abbrev pub packet_bytes : PseudoTcpSocket → ℕ → ℕ → List ℕ → ℕ → List ℕ
packet_bytes s seq flags body now =
    htonl s.conv
    ++ (htonl seq
        ++ (htonl s.rcv_nxt
            ++ (0 ∷ flags ∷ (htons s.rcv_wnd ++ (htonl now ++ (htonl s.ts_recent ++ body))))))

-- An acknowledgment has no data (NULL).
abbrev pub body_of : Option (List ℕ) → List ℕ
body_of none = []
body_of (some bytes) = bytes

abbrev pub is_null : Option (List ℕ) → Bool
is_null none = true
is_null (some bytes) = false

abbrev pub sent_packet : PseudoTcpSocket → ℕ → ℕ → PseudoTcpSocket
sent_packet s n now = record s {
  t_ack = 0;
  lastsend = if ltb 0 n then now else s.lastsend;
  last_traffic = now;
  outgoing = true;
}

-- The result of a packet without data is not looked at.
abbrev pub after_write :
    PseudoTcpSocket → Bool → ℕ → ℕ → PseudoTcpWriteResult → PseudoTcpSocket × PseudoTcpWriteResult
after_write s ack n now wr_success = (sent_packet s n now, wr_success)
after_write s ack n now wres = if ack then (sent_packet s n now, wr_success) else (s, wres)

-- `callbacks.WritePacket`
abbrev pub written : PseudoTcpSocket → List ℕ → PseudoTcpSocket
written s bytes = call (write_packet bytes) (record s { writes = s.writes + 1 })

abbrev pub with_packet : PseudoTcpSocket → ℕ → ℕ → List ℕ → PseudoTcpSocket
with_packet s seq flags body =
    let (now, s') = get_current_time s in
    written (record s' { ts_lastack = s'.rcv_nxt }) (packet_bytes s' seq flags body now)

unfoldable pub packet :
    PseudoTcpSocket → ℕ → ℕ → Option (List ℕ) → Run (PseudoTcpSocket × PseudoTcpWriteResult)
packet s seq flags body = g_assert (leb (header_size + length (body_of body)) max_packet) (
    done (
      after_write (with_packet s seq flags (body_of body)) (is_null body) (length (body_of body))
        (get_current_time s).0 (s.replies s.writes)))

-- `sbuf + (seq - snd_una)` with `n` bytes: there is no check that they lie in the buffer.
abbrev pub queued : PseudoTcpSocket → ℕ → ℕ → List ℕ
queued s seq n = load_bytes s.sbuf (sub32 seq s.snd_una) n

abbrev pub ctl_of : Bool → ℕ
ctl_of ctrl = if ctrl then flag_ctl else 0

-- The next lower level of the segment size.
abbrev pub lowered : PseudoTcpSocket → ℕ → PseudoTcpSocket
lowered s m = record s {
  mss = sub32 m packet_overhead;
  msslevel = s.msslevel + 1;
  cwnd = mul32 2 (sub32 m packet_overhead);
}

-- What `transmit` does on the result of a packet of `n` bytes: the number of the bytes that went out,
-- `none` for a failure, or the packet again in a smaller size.
abbrev pub on_result :
    (PseudoTcpSocket → Run (PseudoTcpSocket × Option ℕ))
    → ℕ
    → PseudoTcpSocket × PseudoTcpWriteResult
    → Run (PseudoTcpSocket × Option ℕ)
on_result again n (s, wr_success) = done (s, some n)
on_result again n (s, wr_fail) = done (s, none)
on_result again n (s, wr_too_large) = again s

abbrev pub send_piece :
    PseudoTcpSocket → SSegment → ℕ → Run (PseudoTcpSocket × PseudoTcpWriteResult)
send_piece s segment n = packet s segment.seq (ctl_of segment.ctrl) (some (queued s segment.seq n))

-- A packet that was too large is sent with the next lower segment size that makes it smaller. The list
-- has the levels below the present one.
unfoldable pub shrink : List ℕ → PseudoTcpSocket → SSegment → ℕ → Run (PseudoTcpSocket × Option ℕ)
shrink [] s segment n = done (s, none)
shrink (m ∷ ms) s segment n =
    let s' = lowered s m in
    let resend =
      send_piece s' segment s'.mss >>= on_result (λ s''. shrink ms s'' segment s'.mss) s'.mss in
    let lower = shrink ms s' segment n in
    if m == 0 then done (s, none) else if ltb s'.mss n then resend else lower

abbrev pub drop : ℕ → List ℕ → List ℕ
drop n [] = []
drop n (x ∷ xs) = if n == 0 then x ∷ xs else drop (n - 1) xs

-- The loop of `transmit`.
unfoldable pub send_segment : PseudoTcpSocket → SSegment → ℕ → Run (PseudoTcpSocket × Option ℕ)
send_segment s segment n =
    send_piece s segment n
    >>= on_result (λ s'. shrink (drop (s'.msslevel + 1) packet_maximums) s' segment n) n

-- The rest of a segment of which `n` bytes were sent.
abbrev pub rest_of : SSegment → ℕ → List SSegment → List SSegment
rest_of x n after =
    if ltb n x.len then record x { seq = add32 x.seq n; len = sub32 x.len n } ∷ after else after

abbrev pub sent_part : SSegment → ℕ → SSegment
sent_part x n = if ltb n x.len then record x { len = n } else x

abbrev pub mark_sent :
    PseudoTcpSocket → List SSegment → SSegment → List SSegment → ℕ → ℕ → PseudoTcpSocket
mark_sent s before x after n now = record s {
  slist = before ++ (record (sent_part x n) { xmit = (x.xmit + 1) % 2 ^ 8 } ∷ rest_of x n after);
  snd_nxt = if x.xmit == 0 then add32 s.snd_nxt (sent_part x n).len else s.snd_nxt;
  rto_base = if s.rto_base == 0 then now else s.rto_base;
}

abbrev pub transmitted :
    List SSegment
    → SSegment
    → List SSegment
    → ℕ
    → PseudoTcpSocket × Option ℕ
    → Run (PseudoTcpSocket × Bool)
transmitted before x after now (s, none) = done (s, false)
transmitted before x after now (s, some n) = done (mark_sent s before x after n now, true)

-- `transmit (self, seg, now)` where the send list is `before`, the segment, and `after`.
unfoldable pub transmit :
    PseudoTcpSocket → List SSegment → SSegment → List SSegment → ℕ → Run (PseudoTcpSocket × Bool)
transmit s before x after now =
    if leb (if is_established s.state then 15 else 30) x.xmit
    then done (s, false)
    else send_segment s x (min x.len s.mss) >>= transmitted before x after now

-- `transmit (self, priv->slist, now)`: an empty list is a read through NULL.
abbrev pub transmit_first : PseudoTcpSocket → List SSegment → ℕ → Run (PseudoTcpSocket × Bool)
transmit_first s [] now = aborted
transmit_first s (x ∷ xs) now = transmit s [] x xs now

unfoldable pub closedown : PseudoTcpSocket → Errno → PseudoTcpSocket
closedown s err = call (gone err) (record s { slen = 0; state = closed })

-- The loop of `adjustMTU`, from the level `level` on.
abbrev pub mss_level : List ℕ → ℕ → ℕ → ℕ
mss_level [] level mtu = level
mss_level (m ∷ []) level mtu = level
mss_level (m ∷ m' ∷ ms) level mtu =
    if m' == 0 then level else if leb m mtu then level else mss_level (m' ∷ ms) (level + 1) mtu

unfoldable pub adjust_mtu : PseudoTcpSocket → PseudoTcpSocket
adjust_mtu s =
    let mss' = sub32 s.mtu_advise packet_overhead in
    record s {
      msslevel = mss_level packet_maximums 0 s.mtu_advise;
      mss = mss';
      ssthresh = max s.ssthresh (mul32 2 mss');
      cwnd = max s.cwnd mss';
    }

abbrev pub behind :
    SSegment
    → Option (List SSegment × SSegment × List SSegment)
    → Option (List SSegment × SSegment × List SSegment)
behind x none = none
behind x (some (before, y, after)) = some (x ∷ before, y, after)

-- The segments before the first that was not sent yet, that one, and the others.
abbrev pub first_unsent : List SSegment → Option (List SSegment × SSegment × List SSegment)
first_unsent [] = none
first_unsent (x ∷ xs) = if ltb 0 x.xmit then behind x (first_unsent xs) else some ([], x, xs)

-- What may be sent now: the window, and the bytes of it that are there.
abbrev pub window_of : PseudoTcpSocket → ℕ
window_of s = min s.snd_wnd (
    if (s.dup_acks == 1) || (s.dup_acks == 2)
    then add32 s.cwnd (mul32 s.dup_acks s.mss)
    else s.cwnd)

abbrev pub in_flight : PseudoTcpSocket → ℕ
in_flight s = sub32 s.snd_nxt s.snd_una

abbrev pub useable : PseudoTcpSocket → ℕ
useable s = if ltb (in_flight s) (window_of s) then window_of s - in_flight s else 0

unfoldable pub available : PseudoTcpSocket → ℕ
available s =
    let n = min (sub32 s.slen (in_flight s)) s.mss in
    if ltb (useable s) n
    then (if ltb (mul32 (useable s) 4) (window_of s) then 0 else useable s)
    else n

abbrev pub ack_only : PseudoTcpSocket → Run PseudoTcpSocket
ack_only s = packet s s.snd_nxt 0 none >>= λ (s', wres). done s'

-- Nothing is to be sent: an acknowledgment, or the start of its delay.
abbrev pub acknowledge : PseudoTcpSocket → SendFlags → Run PseudoTcpSocket
acknowledge s sf_none = done s
acknowledge s sf_immediate_ack = ack_only s
acknowledge s sf_delayed_ack =
    if s.t_ack == 0
    then (let (now, s') = get_current_time s in done (record s' { t_ack = now }))
    else ack_only s

-- A segment that is too large is broken into two first.
abbrev pub transmit_split :
    PseudoTcpSocket
    → ℕ
    → ℕ
    → Option (List SSegment × SSegment × List SSegment)
    → Run (PseudoTcpSocket × Bool)
transmit_split s n now none = aborted
transmit_split s n now (some (before, x, after)) =
    transmit
      (record s { slist = before ++ (sent_part x n ∷ rest_of (record x { xmit = 0 }) n after) })
      before (sent_part x n) (rest_of (record x { xmit = 0 }) n after) now

abbrev pub while_sent :
    (PseudoTcpSocket → Run PseudoTcpSocket) → PseudoTcpSocket × Bool → Run PseudoTcpSocket
while_sent again (s, true) = again s
while_sent again (s, false) = done s

-- A round of the loop of `attempt_send`; `again` is the rest of the loop.
unfoldable pub send_round :
    PseudoTcpSocket → SendFlags → ℕ → (PseudoTcpSocket → Run PseudoTcpSocket) → Run PseudoTcpSocket
send_round s sflags now again =
    if available s == 0
    then acknowledge s sflags
    else if ltb s.snd_una s.snd_nxt && ltb (available s) s.mss
    then done s
    else (transmit_split s (available s) now (first_unsent s.slist) >>= while_sent again)

unfoldable pub send_loop : ℕ → PseudoTcpSocket → SendFlags → ℕ → Run PseudoTcpSocket
send_loop zero s sflags now = send_round s sflags now (λ s'. starved)
send_loop (suc fuel) s sflags now = send_round s sflags now (λ s'. send_loop fuel s' sf_none now)

-- The bytes that were not sent yet, and one for each of their segments: the fuel of the loop.
abbrev pub unsent : List SSegment → ℕ
unsent [] = 0
unsent (x ∷ xs) = (if x.xmit == 0 then x.len + 1 else 0) + unsent xs

unfoldable pub attempt_send : PseudoTcpSocket → SendFlags → Run PseudoTcpSocket
attempt_send s sflags =
    let (now, s') = get_current_time s in
    let idle = not (leb_ℤ (time_diff now s'.lastsend) (pos s'.rx_rto)) in
    send_loop (unsent s.slist) (record s' { cwnd = if idle then s'.mss else s'.cwnd }) sflags now
