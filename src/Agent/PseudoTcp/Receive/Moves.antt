-- ===== src/Agent/PseudoTcp/Receive/Moves.antt =====
-- agent/pseudotcp.c: `process` moves a socket along the edges of the state machine.
use libxice.Base.{ℕ, ◌+◌, ◌%◌, ◌^◌, ◌≡◌, refl, Bool, true, false, Bool-cases, inl, inr}
use libxice.Base.{Option, none, some, List, [], ◌∷◌, ltb, leb, ◌==◌, not, ◌&&◌, bit_and}
use libxice.Base.Memory.{byte}
use libxice.Agent.PseudoTcp.{PseudoTcpSocket, PseudoTcpState, listen, syn_sent, syn_received}
use libxice.Agent.PseudoTcp.{established, closed, Segment, RSegment, SendFlags}
use libxice.Agent.PseudoTcp.{flag_ctl, flag_rst, ctl_connect}
use libxice.Agent.PseudoTcp.{sf_immediate_ack}
use libxice.Agent.PseudoTcp.Outcome.{Ensures, >>=-Ensures, if-Ensures}
use libxice.Agent.PseudoTcp.U32.{add32, sub32}
use libxice.Agent.PseudoTcp.States.{Reach, here, next, accept, answered, close, Reach-trans}
use libxice.Agent.PseudoTcp.Clock.{get_current_time}
use libxice.Agent.PseudoTcp.Send.{queue, attempt_send, closedown, adjust_mtu}
use libxice.Agent.PseudoTcp.Store.{receive_data, store_data, recover_early, advance, reaches}
use libxice.Agent.PseudoTcp.Store.{stored, is_ignored, cut_back, cut_front, ack_flags}
use libxice.Agent.PseudoTcp.Receive.{process, control, connected, take_ack, take_data, handle_ack}
use libxice.Agent.PseudoTcp.Receive.{update_timestamp, notify_readable, is_closed}
use libxice.Agent.PseudoTcp.Receive.Frame.{Frame, Framed, handle_ack-Frame}
use libxice.Agent.PseudoTcp.Socket.Frame.{queue-Frame, attempt_send-Frame}

-- The state is one that the state of `s` leads to.
abbrev pub Moves : PseudoTcpSocket → PseudoTcpSocket → Type 0
Moves s s' = Reach s.state s'.state

pub Moves-eq : (a b : PseudoTcpState) → b ≡ a → Reach a b
Moves-eq a b e = rw e here

recover_early-state :
    (xs : List RSegment) (s : PseudoTcpSocket) (sflags : SendFlags)
    → (recover_early xs s sflags).0.state ≡ s.state
unfolding recover_early
recover_early-state [] s sflags = refl
recover_early-state (x ∷ xs) s sflags = elim (Bool-cases (leb x.seq s.rcv_nxt)) [
  | inr later ↦ rw later refl
  | inl now ↦ elim (Bool-cases (reaches s x)) [
    | inr old ↦ rw (now, old) (recover_early-state xs s sflags)
    | inl new ↦
        rw (now, new)
          (recover_early-state xs (advance s (sub32 (add32 x.seq x.len) s.rcv_nxt))
            sf_immediate_ack)
  ]
]

store_data-state :
    (s : PseudoTcpSocket) (seg : Segment) (sflags : SendFlags)
    → (store_data s seg sflags).0.state ≡ s.state
unfolding store_data
store_data-state s seg sflags = elim (Bool-cases (seg.len == 0)) [
  | inl empty ↦ rw empty refl
  | inr bytes ↦ elim (Bool-cases (is_ignored s seg)) [
    | inl ignored ↦ rw (bytes, ignored) refl
    | inr taken ↦ elim (Bool-cases (seg.seq == s.rcv_nxt)) [
      | inl now ↦
          rw (bytes, taken, now)
            (recover_early-state s.rlist (advance (stored s seg) seg.len) sflags)
      | inr later ↦ rw (bytes, taken, later) refl
    ]
  ]
]

receive_data-state : (s : PseudoTcpSocket) (seg : Segment) → (receive_data s seg).0.state ≡ s.state
unfolding receive_data
receive_data-state s seg = store_data-state s (cut_back s (cut_front s seg)) (ack_flags s seg)

abbrev Moved : PseudoTcpSocket → PseudoTcpSocket × Option Bool → Type 0
Moved s r = Moves s r.0

connected-Moves :
    (a : PseudoTcpState) (s : PseudoTcpSocket) → s.state ≡ a → Ensures (Moved s) (connected a s)
unfolding adjust_mtu
connected-Moves listen s e =
    let t = record s { state = syn_received } in
    >>=-Ensures (λ (r : PseudoTcpSocket × ℕ). Frame t r.0) (Moved s)
      (queue t (ctl_connect ∷ []) true) _ (queue-Frame t (ctl_connect ∷ []) true)
      (λ r k. Reach-trans (rw e (next here accept)) k.1)
connected-Moves syn_sent s e = rw e (next here answered)
connected-Moves syn_received s e = here
connected-Moves established s e = here
connected-Moves closed s e = here

control-Moves : (s : PseudoTcpSocket) (seg : Segment) → Ensures (Moved s) (control s seg)
unfolding control
control-Moves s seg =
    if-Ensures (Moved s) (bit_and seg.flags flag_ctl == 0) _ _ (λ plain. here)
      (λ ctl.
        if-Ensures (Moved s) (seg.len == 0) _ _ (λ empty. here)
          (λ code.
            if-Ensures (Moved s) (byte seg.payload 0 == ctl_connect) _ _
              (λ connect. connected-Moves s.state s refl) (λ other. here)))

notify_readable-state : (s : PseudoTcpSocket) (new : Bool) → (notify_readable s new).state ≡ s.state
notify_readable-state s new = elim (Bool-cases (new && s.read_enable)) [
  | inl told ↦ rw told refl
  | inr quiet ↦ rw quiet refl
]

update_timestamp-state :
    (s : PseudoTcpSocket) (seg : Segment) → (update_timestamp s seg).state ≡ s.state
unfolding update_timestamp
update_timestamp-state s seg =
    elim (Bool-cases (leb seg.seq s.ts_lastack && ltb s.ts_lastack (add32 seg.seq seg.len))) [
      | inl recent ↦ rw recent refl
      | inr other ↦ rw other refl
    ]

-- With the flag that `process` returns.
abbrev pub MovedTo : PseudoTcpSocket → PseudoTcpSocket × Bool → Type 0
MovedTo s r = Moves s r.0

take_data-Moves :
    (s : PseudoTcpSocket) (seg : Segment) (r : PseudoTcpSocket × Option (Unit {0}))
    → Moves s r.0
    → Ensures (MovedTo s) (take_data seg r)
take_data-Moves s seg (t, none) m = m
take_data-Moves s seg (t, some u) m =
    let (t', sflags, new) = receive_data t seg in
    >>=-Ensures (Frame t') (MovedTo s) (attempt_send t' sflags) _
      (attempt_send-Frame t' t' sflags (refl, here))
      (λ t'' k.
        Reach-trans
          (Reach-trans m (Reach-trans (Moves-eq t.state t'.state (receive_data-state t seg)) k.1))
          (Moves-eq t''.state (notify_readable t'' new).state (notify_readable-state t'' new)))

take_ack-Moves :
    (s : PseudoTcpSocket) (seg : Segment) (now : ℕ) (r : PseudoTcpSocket × Option Bool)
    → Moves s r.0
    → Ensures (MovedTo s) (take_ack seg now r)
take_ack-Moves s seg now (t, none) m = m
take_ack-Moves s seg now (t, some connect) m =
    let t' = update_timestamp t seg in
    >>=-Ensures (Framed t') (MovedTo s) (handle_ack t' seg connect now) (take_data seg)
      (handle_ack-Frame t' seg connect now)
      (λ r k. take_data-Moves s seg r (
        Reach-trans (Reach-trans m (Moves-eq t.state t'.state (update_timestamp-state t seg))) k.1))

pub process-Moves : (s : PseudoTcpSocket) (seg : Segment) → Ensures (MovedTo s) (process s seg)
unfolding process get_current_time closedown
process-Moves s seg =
    let now = s.clock s.ticks % 2 ^ 32 in
    let heard = record s {
      ticks = s.ticks + 1;
      last_traffic = now;
      lastrecv = now;
      outgoing = false;
    } in
    if-Ensures (MovedTo s) (not (seg.conv == s.conv)) _ _ (λ other. here)
      (λ ours.
        if-Ensures (MovedTo s) (is_closed s.state) _ _ (λ over. here)
          (λ alive.
            if-Ensures (MovedTo s) (not (bit_and seg.flags flag_rst == 0)) _ _
              (λ reset. next here (close s.state))
              (λ fine.
                >>=-Ensures (Moved heard) (MovedTo s) (control heard seg) (take_ack seg now)
                  (control-Moves heard seg) (λ r m. take_ack-Moves s seg now r m))))
