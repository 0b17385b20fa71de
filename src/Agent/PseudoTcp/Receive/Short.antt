-- ===== src/Agent/PseudoTcp/Receive/Short.antt =====
-- agent/pseudotcp.c: a packet that is shorter than its header.
use libxice.Base.{lt→ltb, le→ltb, ◌&&◌}
use libxice.Base.{Bool-cases, inl, inr}
use libxice.Agent.PseudoTcp.{Run, done, ◌>>=◌, SendFlags}
use libxice.Agent.PseudoTcp.U32.{add32}
use libxice.Agent.PseudoTcp.Receive.{notify_readable, same_ack}
use libxice.Base.{ℕ, ◌+◌, ◌-◌, ◌%◌, ◌^◌, ◌≤◌, ◌<◌, ◌≡◌, refl, ap, sym, ◌∙◌, Bool, true, false}
use libxice.Base.{arith, Option, some, [], ltb, leb, ◌==◌, bit_and}
use mathlib.Core.Path.{subst}
use libxice.Base.Memory.{Memory}
use libxice.Agent.PseudoTcp.{PseudoTcpSocket, Segment, sd_none, header_size}
use libxice.Agent.PseudoTcp.{rcv_buf_size, flag_ctl, flag_rst}
use libxice.Agent.PseudoTcp.Outcome.{Ensures, >>=-Ensures}
use libxice.Agent.PseudoTcp.U32.{sub32}
use libxice.Agent.PseudoTcp.Clock.{get_current_time}
use libxice.Agent.PseudoTcp.Send.{attempt_send}
use libxice.Agent.PseudoTcp.Send.Keeps.{Keeps}
use libxice.Agent.PseudoTcp.Send.Ends.{attempt_send-Keeps}
use libxice.Agent.PseudoTcp.Store.{receive_data, store_data, cut_front, cut_back}
use libxice.Agent.PseudoTcp.Store.{kept_length, recover_early, copy}
use libxice.Agent.PseudoTcp.Receive.{process, parse, segment_of, ntohl, handle_ack, take_data}
use libxice.Agent.PseudoTcp.Receive.{update_timestamp, control, is_closed}
use libxice.Agent.PseudoTcp.Receive.Frame.{Received, received, Keeps-Frame}
use libxice.Agent.PseudoTcp.Receive.InOrder.{notify_readable-received, update_timestamp-received}

kept_length-wrapped :
    (seq size rlen : ℕ)
    → seq < 2 ^ 32
    → 12 ≤ size
    → size < header_size
    → rlen ≤ rcv_buf_size
    → kept_length seq (sub32 size header_size) rlen seq ≡ rcv_buf_size - rlen
kept_length-wrapped seq size rlen width enough short fits = ground arith

ntohl-lt : (m : Memory) (p : ℕ) → ntohl m p < 2 ^ 32
ntohl-lt m p = omega arith

copied :
    (m from : Memory) (rlen seq i : ℕ)
    → seq < 2 ^ 32
    → rlen + i < rcv_buf_size
    → copy m (rlen + sub32 seq seq) (λ j. from (header_size + j)) (rcv_buf_size - rlen) (rlen + i)
      ≡ from (header_size + i)
copied m from rlen seq i small inside =
    let at : rlen + sub32 seq seq ≡ rlen = omega arith in
    let low : leb rlen (rlen + i) ≡ true = ground arith in
    let high : ltb (rlen + i) (rlen + (rcv_buf_size - rlen)) ≡ true = ground (arith, inside) in
    rw (at, low, high) (ap (λ (j : ℕ). from (header_size + j)) (omega arith))

-- The whole receive buffer has data, and what was free of it, from `rlen` on, has what stands from offset
-- 24 on.
abbrev pub IsFull : Memory → ℕ → PseudoTcpSocket → Type 0
IsFull buffer rlen t =
    (t.rlen ≡ rcv_buf_size)
    × ((i : ℕ) → rlen + i < rcv_buf_size → t.rbuf (rlen + i) ≡ buffer (header_size + i))

-- The packet is taken over into a full receive buffer, and then what is waiting is sent.
abbrev pub Overfills : Memory → ℕ → Run (PseudoTcpSocket × Bool) → Type 0
Overfills buffer rlen m =
    (t : PseudoTcpSocket) × (f : SendFlags) × (new : Bool) × IsFull buffer rlen t
    × (m ≡ (attempt_send t f >>= λ t'. done (notify_readable t' new, true)))

abbrev pub TakenFull : Memory → ℕ → PseudoTcpSocket × Bool → Type 0
TakenFull buffer rlen (s, taken) = (taken ≡ true) × IsFull buffer rlen s

-- The sending leaves the receive buffer.
Overfills-TakenFull :
    (buffer : Memory) (rlen : ℕ) (m : Run (PseudoTcpSocket × Bool))
    → Overfills buffer rlen m
    → Ensures (TakenFull buffer rlen) m
Overfills-TakenFull buffer rlen m (t, f, new, full, e) =
    let end =
      >>=-Ensures (Keeps t) (TakenFull buffer rlen) (attempt_send t f) _ (attempt_send-Keeps t f)
        (λ t' k.
          let same = notify_readable-received t' new ∙ (Keeps-Frame t t' k).0 in
          let buf = ap (λ (r : Received). r.1) same in
          (
            refl,
            (
              ap (λ (r : Received). r.4) same ∙ full.0,
              λ i inside. ap (λ (m : Memory). m (rlen + i)) buf ∙ full.1 i inside,
            ),
          )) in
    subst (Ensures (TakenFull buffer rlen)) (sym e) end

-- Data with an acknowledgment of what is acknowledged already.
handle_ack-same :
    (t : PseudoTcpSocket) (seg : Segment) (now : ℕ)
    → seg.ack ≡ t.snd_una
    → 0 < seg.len
    → handle_ack t seg false now ≡ done (record t { snd_wnd = seg.wnd }, some tt)
unfolding handle_ack same_ack
handle_ack-same t seg now same some_data =
    let old : ltb t.snd_una seg.ack ≡ false = le→ltb t.snd_una seg.ack (omega (arith, same)) in
    let again : (seg.ack == t.snd_una) ≡ true = ground (arith, same) in
    rw (old, again, lt→ltb 0 seg.len some_data) refl

update_timestamp-snd_una :
    (t : PseudoTcpSocket) (seg : Segment) → (update_timestamp t seg).snd_una ≡ t.snd_una
unfolding update_timestamp
update_timestamp-snd_una t seg =
    elim (Bool-cases (leb seg.seq t.ts_lastack && ltb t.ts_lastack (add32 seg.seq seg.len))) [
      | inl recent ↦ rw recent refl
      | inr other ↦ rw other refl
    ]

module _ (buffer : Memory) (size : ℕ) (enough : 12 ≤ size) (short : size < header_size) where
  abbrev seg : Segment
  seg = segment_of buffer size

  receive_data-IsFull :
      (t : PseudoTcpSocket)
      → t.rlen < rcv_buf_size
      → t.rlist ≡ []
      → t.shutdown ≡ sd_none
      → (bit_and seg.flags flag_ctl == 0) ≡ true
      → seg.seq ≡ t.rcv_nxt
      → IsFull buffer t.rlen (receive_data t seg).0
  unfolding receive_data store_data cut_front cut_back recover_early
  receive_data-IsFull t room no_early open_yet no_ctl next =
      let behind : ltb (ntohl buffer 4) t.rcv_nxt ≡ false = ground arith in
      let many =
        kept_length-wrapped (ntohl buffer 4) size t.rlen (ntohl-lt buffer 4) enough short
          (omega (arith, room)) in
      let some_data : (rcv_buf_size - t.rlen == 0) ≡ false = ground (arith, room) in
      let same : (ntohl buffer 4 == ntohl buffer 4) ≡ true = ground arith in
      rw (behind, ← next, many, some_data, no_ctl, open_yet, same, no_early)
        (
          omega arith,
          λ i inside. copied t.rbuf buffer t.rlen (ntohl buffer 4) i (ntohl-lt buffer 4) inside,
        )

  take_data-Overfills :
      (s t : PseudoTcpSocket)
      → s.rlen < rcv_buf_size
      → s.rlist ≡ []
      → s.shutdown ≡ sd_none
      → (bit_and seg.flags flag_ctl == 0) ≡ true
      → seg.seq ≡ s.rcv_nxt
      → received t ≡ received s
      → Overfills buffer s.rlen (take_data seg (t, some tt))
  take_data-Overfills s t room no_early open_yet no_ctl next e =
      let len : t.rlen ≡ s.rlen = ap (λ (r : Received). r.4) e in
      let t' = (receive_data t seg).0 in
      let full =
        receive_data-IsFull t (rw len room) (ap (λ (r : Received). r.0) e ∙ no_early)
          (ap (λ (r : Received). r.5) e ∙ open_yet) no_ctl
          (next ∙ sym (ap (λ (r : Received). r.2) e)) in
      (
        t',
        (receive_data t seg).1,
        (receive_data t seg).2,
        subst (λ n. IsFull buffer n t') len full,
        refl,
      )

  process-Overfills :
      (s : PseudoTcpSocket)
      → seg.conv ≡ s.conv
      → is_closed s.state ≡ false
      → (bit_and seg.flags flag_rst == 0) ≡ true
      → (bit_and seg.flags flag_ctl == 0) ≡ true
      → seg.ack ≡ s.snd_una
      → seg.seq ≡ s.rcv_nxt
      → s.rlen < rcv_buf_size
      → s.rlist ≡ []
      → s.shutdown ≡ sd_none
      → Overfills buffer s.rlen (process s seg)
  unfolding process get_current_time control
  process-Overfills s conv alive no_rst no_ctl ack next room no_early open_yet =
      let now = s.clock s.ticks % 2 ^ 32 in
      let heard = record s {
        ticks = s.ticks + 1;
        last_traffic = now;
        lastrecv = now;
        outgoing = false;
      } in
      let t = update_timestamp heard seg in
      let ours : (seg.conv == s.conv) ≡ true = ground (arith, conv) in
      let until_ack : process s seg ≡ (handle_ack t seg false now >>= take_data seg) =
        rw (ours, alive, no_rst, no_ctl) refl in
      let acked =
        handle_ack-same t seg now (ack ∙ sym (update_timestamp-snd_una heard seg))
          (omega (arith, enough, short)) in
      let all : process s seg ≡ take_data seg (record t { snd_wnd = seg.wnd }, some tt) =
        until_ack
        ∙ ap (λ (m : Run (PseudoTcpSocket × Option (Unit {0}))). m >>= take_data seg) acked in
      subst (Overfills buffer s.rlen) (sym all) (
        take_data-Overfills s (record t { snd_wnd = seg.wnd }) room no_early open_yet no_ctl next
          (update_timestamp-received heard seg))

-- A packet of 12 to 23 bytes, which is shorter than the header, is parsed with 2 ^ 32 - 24 bytes of data more
-- than it has bytes. It belongs to the conversation, has neither the flag RST nor CTL, acknowledges what is
-- acknowledged already and has the next sequence number, and it comes to a socket that is not closed or
-- shut down, has room and no early segments. Then the receive buffer gets full, and all of it that was
-- free has what stands in memory from offset 24 of the packet on, behind its end; `parse` goes on with
-- `attempt_send`, and if no assertion fails there, it gives TRUE and the buffer is as it was filled.
pub short_packet :
    (buffer : Memory) (size : ℕ) (s : PseudoTcpSocket)
    → 12 ≤ size
    → size < header_size
    → (segment_of buffer size).conv ≡ s.conv
    → is_closed s.state ≡ false
    → (bit_and (segment_of buffer size).flags flag_rst == 0) ≡ true
    → (bit_and (segment_of buffer size).flags flag_ctl == 0) ≡ true
    → (segment_of buffer size).ack ≡ s.snd_una
    → (segment_of buffer size).seq ≡ s.rcv_nxt
    → s.rlen < rcv_buf_size
    → s.rlist ≡ []
    → s.shutdown ≡ sd_none
    → ((segment_of buffer size).len ≡ 2 ^ 32 - header_size + size)
      × Overfills buffer s.rlen (parse s buffer size)
      × Ensures (TakenFull buffer s.rlen) (parse s buffer size)
unfolding parse
short_packet buffer size s enough short conv alive no_rst no_ctl ack next room no_early open_yet =
    let long : ltb size 12 ≡ false = ground arith in
    let over =
      process-Overfills buffer size enough short s conv alive no_rst no_ctl ack next room no_early
        open_yet in
    let parsed : parse s buffer size ≡ process s (segment_of buffer size) = rw long refl in
    let parse_over = subst (Overfills buffer s.rlen) (sym parsed) over in
    (omega arith, parse_over, Overfills-TakenFull buffer s.rlen (parse s buffer size) parse_over)
