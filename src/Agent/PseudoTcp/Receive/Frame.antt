-- ===== src/Agent/PseudoTcp/Receive/Frame.antt =====
-- agent/pseudotcp.c: what `process` does to the received data and to the state before it comes to
-- the data of a segment.
use libxice.Base.{ℕ, zero, suc, ◌+◌, ◌-◌, ◌/◌, ◌%◌, ◌^◌, ◌≡◌, refl, ap, ◌∙◌, Bool, true, false}
use libxice.Base.{
  Bool-cases, inl, inr, arith, Option, none, some, List, [], ◌∷◌, ltb, leb, ◌==◌, not,
}
use libxice.Base.{◌&&◌}
use libxice.Base.Memory.{Memory}
use libxice.Agent.PseudoTcp.{PseudoTcpSocket, PseudoTcpState, listen, syn_sent, syn_received}
use libxice.Agent.PseudoTcp.{established, closed, Shutdown, RSegment, SSegment, Segment, done}
use libxice.Agent.PseudoTcp.{◌>>=◌, econnaborted, Errno, snd_buf_size, rcv_buf_size}
use libxice.Agent.PseudoTcp.Outcome.{
  Ensures, Ensures-weaken, >>=-Ensures, if-Ensures, g_assert-Ensures,
}
use libxice.Agent.PseudoTcp.U32.{ℤ, pos, negsuc, sub32}
use libxice.Agent.PseudoTcp.States.{Reach, here, next, confirmed, close}
use libxice.Agent.PseudoTcp.States.{Reach-trans}
use libxice.Agent.PseudoTcp.Clock.{time_diff}
use libxice.Agent.PseudoTcp.Send.{transmit, transmit_first, closedown, adjust_mtu}
use libxice.Agent.PseudoTcp.Send.Keeps.{Keeps, Kept}
use libxice.Agent.PseudoTcp.Send.Ends.{transmit-Keeps}
use libxice.Agent.PseudoTcp.Receive.{
  measure_rtt, measured, smoothed, free_acked, grow_window, or_closed,
}
use libxice.Agent.PseudoTcp.Receive.{establish, notify_writable, new_ack, same_ack, handle_ack}
use libxice.Agent.PseudoTcp.Receive.{continued, acked, is_syn_received}

-- The received data.
abbrev pub Received : Type 0
Received = List RSegment × Memory × ℕ × ℕ × ℕ × Shutdown

abbrev pub received : PseudoTcpSocket → Received
received s = (s.rlist, s.rbuf, s.rcv_nxt, s.rcv_wnd, s.rlen, s.shutdown)

-- The received data stay, and the state goes along the edges.
abbrev pub Frame : PseudoTcpSocket → PseudoTcpSocket → Type 0
Frame s s' = (received s' ≡ received s) × Reach s.state s'.state

pub Frame-refl : (s : PseudoTcpSocket) → Frame s s
Frame-refl s = (refl, here)

pub Frame-trans : (a b c : PseudoTcpSocket) → Frame a b → Frame b c → Frame a c
Frame-trans a b c (h, r) (k, q) = (k ∙ h, Reach-trans r q)

Reach-eq : (a b : PseudoTcpState) → b ≡ a → Reach a b
Reach-eq a b e = rw e here

pub Keeps-Frame : (s s' : PseudoTcpSocket) → Keeps s s' → Frame s s'
Keeps-Frame s s' h = (
  ap (λ (k : Kept). (k.rlist, k.rbuf, k.rcv_nxt, k.rcv_wnd, k.rlen, k.shutdown)) h,
  Reach-eq s.state s'.state (ap (λ (k : Kept). k.state) h),
)

pub closedown-Frame : (s : PseudoTcpSocket) (err : Errno) → Frame s (closedown s err)
unfolding closedown
closedown-Frame s err = (refl, next here (close s.state))

pub transmit_first-Frame :
    (s : PseudoTcpSocket) (xs : List SSegment) (now : ℕ)
    → Ensures (λ (r : PseudoTcpSocket × Bool). Frame s r.0) (transmit_first s xs now)
transmit_first-Frame s [] now = tt
transmit_first-Frame s (x ∷ xs) now =
    Ensures-weaken (λ (r : PseudoTcpSocket × Bool). Keeps s r.0)
      (λ (r : PseudoTcpSocket × Bool). Frame s r.0) (transmit s [] x xs now)
      (λ r h. Keeps-Frame s r.0 h) (transmit-Keeps s [] x xs now)

-- The same of a part of `process` that may have returned.
abbrev pub Framed : PseudoTcpSocket → PseudoTcpSocket × Option (Unit {0}) → Type 0
Framed s r = Frame s r.0

or_closed-Frame :
    (s : PseudoTcpSocket) (f : PseudoTcpSocket → PseudoTcpSocket)
    → ((t : PseudoTcpSocket) → Frame t (f t))
    → (r : PseudoTcpSocket × Bool) → Frame s r.0
    → Ensures (Framed s) (or_closed r f)
or_closed-Frame s f keeps (t, true) h = Frame-trans s t (f t) h (keeps t)
or_closed-Frame s f keeps (t, false) h =
    Frame-trans s t (closedown t econnaborted) h (closedown-Frame t econnaborted)

retransmit-Frame :
    (s : PseudoTcpSocket) (now : ℕ) (f : PseudoTcpSocket → PseudoTcpSocket)
    → ((t : PseudoTcpSocket) → Frame t (f t))
    → Ensures (Framed s) (transmit_first s s.slist now >>= λ r. or_closed r f)
retransmit-Frame s now f keeps =
    >>=-Ensures (λ (r : PseudoTcpSocket × Bool). Frame s r.0) (Framed s)
      (transmit_first s s.slist now) (λ r. or_closed r f) (transmit_first-Frame s s.slist now)
      (or_closed-Frame s f keeps)

smoothed-Frame : (s : PseudoTcpSocket) (rtt : ℕ) → Frame s (smoothed s rtt)
smoothed-Frame s rtt = elim (Bool-cases (s.rx_srtt == 0)) [
  | inl first ↦ rw first (refl, here)
  | inr other ↦ rw other (refl, here)
]

measured-Frame : (s : PseudoTcpSocket) (d : ℤ) → Ensures (Frame s) (measured s d)
measured-Frame s (pos rtt) = smoothed-Frame s rtt
measured-Frame s (negsuc n) = tt

measure_rtt-Frame :
    (s : PseudoTcpSocket) (now tsecr : ℕ) → Ensures (Frame s) (measure_rtt s now tsecr)
unfolding measure_rtt
measure_rtt-Frame s now tsecr =
    if-Ensures (Frame s) (tsecr == 0) (done s) (measured s (time_diff now tsecr))
      (λ none_sent. (refl, here)) (λ sent. measured-Frame s (time_diff now tsecr))

grow_window-Frame : (s : PseudoTcpSocket) (n now : ℕ) → Ensures (Framed s) (grow_window s n now)
unfolding grow_window
grow_window-Frame s n now =
    let P = Framed s in
    if-Ensures P (leb 3 s.dup_acks) _ _
      (λ recovering.
        if-Ensures P (leb s.recover s.snd_una) _ _ (λ over. (refl, here))
          (λ partial. retransmit-Frame s now _ (λ t. (refl, here))))
      (λ steady.
        if-Ensures P (ltb s.cwnd s.ssthresh) _ _ (λ slow. (refl, here))
          (λ fast. g_assert-Ensures P (not (s.cwnd == 0)) _ (refl, here)))

is_syn_received_lem : (a : PseudoTcpState) → is_syn_received a ≡ true → a ≡ syn_received
is_syn_received_lem listen e = absurd (cc)
is_syn_received_lem syn_sent e = absurd (cc)
is_syn_received_lem syn_received e = refl
is_syn_received_lem established e = absurd (cc)
is_syn_received_lem closed e = absurd (cc)

to_established : (a : PseudoTcpState) → a ≡ syn_received → Reach a established
to_established a e = rw e (next here confirmed)

establish-Frame : (s : PseudoTcpSocket) (connect : Bool) → Frame s (establish s connect)
unfolding establish adjust_mtu
establish-Frame s connect = elim (Bool-cases (is_syn_received s.state && not connect)) [
  | inl first ↦
      rw first (refl, to_established s.state (is_syn_received_lem s.state (ground (arith, first))))
  | inr other ↦ rw other (refl, here)
]

notify_writable-Frame : (s : PseudoTcpSocket) → Frame s (notify_writable s)
unfolding notify_writable
notify_writable-Frame s =
    elim (Bool-cases (s.write_enable && ltb s.slen ((snd_buf_size + rcv_buf_size) / 2))) [
      | inl room ↦ rw room (refl, here)
      | inr full ↦ rw full (refl, here)
    ]

continued-Frame :
    (s : PseudoTcpSocket) (connect : Bool) (r : PseudoTcpSocket × Option (Unit {0}))
    → Frame s r.0
    → Ensures (Framed s) (continued connect r)
continued-Frame s connect (t, none) h = h
continued-Frame s connect (t, some u) h =
    Frame-trans s t (notify_writable (establish t connect)) h (
      Frame-trans t (establish t connect) (notify_writable (establish t connect))
        (establish-Frame t connect) (notify_writable-Frame (establish t connect)))

abbrev Any : List SSegment × ℕ → Type 0
Any r = Unit

free_acked-returns : (xs : List SSegment) (n largest : ℕ) → Ensures Any (free_acked xs n largest)
unfolding free_acked
free_acked-returns [] zero largest = tt
free_acked-returns [] (suc n) largest = tt
free_acked-returns (x ∷ xs) n largest =
    if-Ensures Any (n == 0) _ _ (λ all. tt)
      (λ more.
        if-Ensures Any (ltb n x.len) _ _ (λ part. tt)
          (λ whole. free_acked-returns xs (n - x.len) _))

new_ack-Frame :
    (s : PseudoTcpSocket) (seg : Segment) (connect : Bool) (now : ℕ)
    → Ensures (Framed s) (new_ack s seg connect now)
unfolding new_ack
new_ack-Frame s seg connect now =
    let n = sub32 seg.ack s.snd_una in
    >>=-Ensures (Frame s) (Framed s) (measure_rtt s now seg.tsecr) _
      (measure_rtt-Frame s now seg.tsecr)
      (λ s' h.
        >>=-Ensures Any (Framed s) (free_acked s'.slist n s'.largest) _
          (free_acked-returns s'.slist n s'.largest)
          (λ (slist', largest') any.
            let t = record (acked s' seg now) { slist = slist'; largest = largest' } in
            >>=-Ensures (Framed s) (Framed s) (grow_window t n now) (continued connect)
              (Ensures-weaken (Framed t) (Framed s) (grow_window t n now)
                (λ r k. Frame-trans s s' r.0 h (Frame-trans s' t r.0 (refl, here) k))
                (grow_window-Frame t n now))
              (continued-Frame s connect)))

same_ack-Frame :
    (s : PseudoTcpSocket) (seg : Segment) (now : ℕ) → Ensures (Framed s) (same_ack s seg now)
unfolding same_ack
same_ack-Frame s seg now =
    if-Ensures (Framed s) (ltb 0 seg.len) _ _ (λ bytes. (refl, here))
      (λ empty.
        if-Ensures (Framed s) (s.snd_una == s.snd_nxt) _ _ (λ idle. (refl, here))
          (λ waiting.
            if-Ensures (Framed s) ((s.dup_acks + 1) % 2 ^ 8 == 3) _ _
              (λ third.
                retransmit-Frame
                  (record s { snd_wnd = seg.wnd; dup_acks = (s.dup_acks + 1) % 2 ^ 8 }) now _
                  (λ t. (refl, here)))
              (λ other. (refl, here))))

pub handle_ack-Frame :
    (s : PseudoTcpSocket) (seg : Segment) (connect : Bool) (now : ℕ)
    → Ensures (Framed s) (handle_ack s seg connect now)
unfolding handle_ack
handle_ack-Frame s seg connect now =
    if-Ensures (Framed s) (ltb s.snd_una seg.ack && leb seg.ack s.snd_nxt) _ _
      (λ new. new_ack-Frame s seg connect now)
      (λ old.
        if-Ensures (Framed s) (seg.ack == s.snd_una) _ _ (λ same. same_ack-Frame s seg now)
          (λ other. (refl, here)))
