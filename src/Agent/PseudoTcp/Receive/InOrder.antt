-- ===== src/Agent/PseudoTcp/Receive/InOrder.antt =====
-- agent/pseudotcp.c: `process` and `pseudo_tcp_socket_recv` hand on the stream of the peer in order.
use libxice.Base.{ℕ, ◌+◌, ◌%◌, ◌^◌, ◌≤◌, ◌<◌, ◌≡◌, refl, ap, ◌∙◌, Bool, true, false, Bool-cases}
use libxice.Base.{inl, inr, arith, Option, none, some, ltb, leb, ◌==◌, not, ◌⊎◌, ◌&&◌}
use libxice.Base.{bit_and}
use libxice.Agent.PseudoTcp.{PseudoTcpSocket, sd_none, Segment}
use libxice.Agent.PseudoTcp.{rcv_buf_size, flag_ctl, flag_rst, econnreset}
use libxice.Agent.PseudoTcp.Outcome.{Ensures, >>=-Ensures, if-Ensures}
use libxice.Agent.PseudoTcp.U32.{add32}
use libxice.Agent.PseudoTcp.Clock.{get_current_time}
use libxice.Agent.PseudoTcp.Send.{attempt_send, closedown}
use libxice.Agent.PseudoTcp.Send.Keeps.{Keeps}
use libxice.Agent.PseudoTcp.Send.Ends.{attempt_send-Keeps}
use libxice.Agent.PseudoTcp.Store.{receive_data, is_ignored}
use libxice.Agent.PseudoTcp.Store.Stream.{Holds, Carries}
use libxice.Agent.PseudoTcp.Store.Deliver.{receive_data-Holds}
use libxice.Agent.PseudoTcp.Receive.{
  process, handle_ack, update_timestamp, take_data, take_ack, control,
}
use libxice.Agent.PseudoTcp.Receive.{notify_readable, is_closed}
use libxice.Agent.PseudoTcp.Receive.Frame.{Received, received, Framed, Keeps-Frame}
use libxice.Agent.PseudoTcp.Receive.Frame.{closedown-Frame, handle_ack-Frame}

pub notify_readable-received :
    (s : PseudoTcpSocket) (new : Bool) → received (notify_readable s new) ≡ received s
notify_readable-received s new = elim (Bool-cases (new && s.read_enable)) [
  | inl told ↦ rw told refl
  | inr quiet ↦ rw quiet refl
]

pub update_timestamp-received :
    (s : PseudoTcpSocket) (seg : Segment) → received (update_timestamp s seg) ≡ received s
unfolding update_timestamp
update_timestamp-received s seg =
    elim (Bool-cases (leb seg.seq s.ts_lastack && ltb s.ts_lastack (add32 seg.seq seg.len))) [
      | inl recent ↦ rw recent refl
      | inr other ↦ rw other refl
    ]

module _ (stream : ℕ → ℕ) (base : ℕ) where
  pub Holds-received :
      (s s' : PseudoTcpSocket)
      → received s' ≡ received s
      → Holds stream base s
      → Holds stream base s'
  Holds-received s s' e h =
      let list : s'.rlist ≡ s.rlist = ap (λ (r : Received). r.0) e in
      let buf : s'.rbuf ≡ s.rbuf = ap (λ (r : Received). r.1) e in
      let nxt : s'.rcv_nxt ≡ s.rcv_nxt = ap (λ (r : Received). r.2) e in
      let len : s'.rlen ≡ s.rlen = ap (λ (r : Received). r.4) e in
      record {
        at = rw (len, nxt) h.at;
        fits = rw len h.fits;
        small = rw nxt h.small;
        read = rw (buf, nxt) h.read;
        early = rw (buf, list) h.early;
      }

  -- What is known after a segment: `true` says that it was taken.
  abbrev pub Delivered : PseudoTcpSocket → Segment → PseudoTcpSocket × Bool → Type 0
  Delivered s seg (s', taken) =
      Holds stream base s'
      × (s.rcv_nxt ≤ s'.rcv_nxt)
      × ((taken ≡ false)
          ⊎ (s.rcv_nxt < seg.seq)
          ⊎ (seg.seq + seg.len ≤ s'.rcv_nxt)
          ⊎ (base + rcv_buf_size ≤ s'.rcv_nxt))

  refused :
      (s s' : PseudoTcpSocket) (seg : Segment)
      → received s' ≡ received s
      → Holds stream base s
      → Delivered s seg (s', false)
  refused s s' seg e h = (
    Holds-received s s' e h,
    let nxt = ap (λ (r : Received). r.2) e in omega (arith, nxt),
    inl refl,
  )

  is_ignored-false :
      (s : PseudoTcpSocket) (seg : Segment)
      → (bit_and seg.flags flag_ctl == 0) ≡ true
      → s.shutdown ≡ sd_none
      → is_ignored s seg ≡ false
  is_ignored-false s seg no_ctl open_yet = rw (no_ctl, open_yet) refl

  module _ (s : PseudoTcpSocket) (seg : Segment) (h : Holds stream base s) (c : Carries stream seg)
      (no_ctl : (bit_and seg.flags flag_ctl == 0) ≡ true) (open_yet : s.shutdown ≡ sd_none) where
    take_data-Delivered :
        (r : PseudoTcpSocket × Option (Unit {0}))
        → received r.0 ≡ received s
        → Ensures (Delivered s seg) (take_data seg r)
    take_data-Delivered (t, none) e = refused s t seg e h
    take_data-Delivered (t, some u) e =
        let shut : t.shutdown ≡ sd_none = ap (λ (r : Received). r.5) e ∙ open_yet in
        let nxt : t.rcv_nxt ≡ s.rcv_nxt = ap (λ (r : Received). r.2) e in
        let t' = (receive_data t seg).0 in
        let (held, more, all) =
          receive_data-Holds stream base t seg (Holds-received s t e h) c
            (is_ignored-false t seg no_ctl shut) in
        >>=-Ensures (Keeps t') (Delivered s seg) (attempt_send t' (receive_data t seg).1) _
          (attempt_send-Keeps t' (receive_data t seg).1)
          (λ t'' k.
            let same =
              notify_readable-received t'' (receive_data t seg).2 ∙ (Keeps-Frame t' t'' k).0 in
            let nxt' = ap (λ (r : Received). r.2) same in
            (
              Holds-received t' (notify_readable t'' (receive_data t seg).2) same held,
              omega (arith, nxt'),
              elim (Bool-cases (leb seg.seq s.rcv_nxt)) [
                | inr gap ↦ inr (inl (ground (arith, gap)))
                | inl first ↦ elim (all (ground (arith, first, nxt))) [
                  | inl whole ↦ inr (inr (inl (omega (arith, nxt'))))
                  | inr full ↦ inr (inr (inr (omega (arith, nxt'))))
                ]
              ],
            ))

    take_ack-Delivered :
        (t : PseudoTcpSocket) (now : ℕ) (r : PseudoTcpSocket × Option Bool)
        → received t ≡ received s
        → r ≡ (t, some false)
        → Ensures (Delivered s seg) (take_ack seg now r)
    take_ack-Delivered t now (t', none) e same =
        absurd (let o = ap (λ (r : PseudoTcpSocket × Option Bool). r.1) same in cc)
    take_ack-Delivered t now (t', some connect) e same =
        let there = ap (λ (r : PseudoTcpSocket × Option Bool). received r.0) same in
        let t'' = update_timestamp t' seg in
        >>=-Ensures (Framed t'') (Delivered s seg) (handle_ack t'' seg connect now) (take_data seg)
          (handle_ack-Frame t'' seg connect now)
          (λ r f. take_data-Delivered r (f.0 ∙ update_timestamp-received t' seg ∙ there ∙ e))

    -- The buffer holds the stream, and a segment with data of it (no control segment) comes in, of which the numbers do not
    -- wrap, while the socket is not shut down. If `process` returns, the buffer holds the stream still
    -- and what was received is kept; if it takes the segment, and that begins at or before the next
    -- number, all of it is received that there is room for.
    pub process-Delivered : Ensures (Delivered s seg) (process s seg)
    unfolding process get_current_time control
    process-Delivered =
        let now = s.clock s.ticks % 2 ^ 32 in
        let heard = record s {
          ticks = s.ticks + 1;
          last_traffic = now;
          lastrecv = now;
          outgoing = false;
        } in
        if-Ensures (Delivered s seg) (not (seg.conv == s.conv)) _ _
          (λ other. refused s s seg refl h)
          (λ ours.
            if-Ensures (Delivered s seg) (is_closed s.state) _ _
              (λ closed_yet. refused s heard seg refl h)
              (λ alive.
                if-Ensures (Delivered s seg) (not (bit_and seg.flags flag_rst == 0)) _ _
                  (λ reset.
                    refused s (closedown heard econnreset) seg (closedown-Frame heard econnreset).0
                      h)
                  (λ fine. rw no_ctl (take_ack-Delivered heard now (heard, some false) refl refl))))
