-- ===== src/Agent/PseudoTcp/Socket/Frame.antt =====
-- agent/pseudotcp.c: what the functions that send leave as it is, and where the state goes.
use libxice.Base.{ℕ, ◌+◌, ◌%◌, ◌^◌, ◌≡◌, refl, Bool, true, false, Bool-cases}
use libxice.Base.{inl, inr, Option, none, List, [], ◌∷◌, ltb, ◌==◌, not, ◌&&◌, length}
use libxice.Agent.PseudoTcp.{PseudoTcpSocket, PseudoTcpState, listen, syn_sent, syn_received}
use libxice.Agent.PseudoTcp.{established, closed, Run, econnaborted}
use libxice.Agent.PseudoTcp.{
  SendFlags, snd_buf_size, ctl_connect, sf_none, ack_delay, PseudoTcpWriteResult,
}
use libxice.Agent.PseudoTcp.Outcome.{Ensures, >>=-Ensures, if-Ensures, g_assert-Ensures}
use libxice.Agent.PseudoTcp.Outcome.{Ensures-weaken}
use libxice.Agent.PseudoTcp.U32.{pos, leb_ℤ, sub32, sub64}
use libxice.Agent.PseudoTcp.States.{Reach, here, next, connect}
use libxice.Agent.PseudoTcp.Clock.{get_current_time, time_diff}
use libxice.Agent.PseudoTcp.Send.{queue, packet, transmit_first, attempt_send, closedown}
use libxice.Agent.PseudoTcp.Send.{is_established}
use libxice.Agent.PseudoTcp.Send.Keeps.{Keeps, Same, packet-Same}
use libxice.Agent.PseudoTcp.Send.Ends.{attempt_send-Keeps}
use libxice.Agent.PseudoTcp.Receive.Frame.{Frame, Frame-trans, Keeps-Frame, closedown-Frame}
use libxice.Agent.PseudoTcp.Receive.Frame.{transmit_first-Frame}
use libxice.Agent.PseudoTcp.Socket.{pseudo_tcp_socket_connect, pseudo_tcp_socket_send, is_listening}
use libxice.Agent.PseudoTcp.Socket.{pseudo_tcp_socket_notify_clock}
use libxice.Agent.PseudoTcp.Socket.{
  retransmit_due, probe_due, ack_due, backed_off, is_due, slowed, probed,
}
use libxice.Agent.PseudoTcp.Receive.{is_closed}

pub queue-Frame :
    (s : PseudoTcpSocket) (bytes : List ℕ) (ctrl : Bool)
    → Ensures (λ (r : PseudoTcpSocket × ℕ). Frame s r.0) (queue s bytes ctrl)
unfolding queue
queue-Frame s bytes ctrl =
    let P = λ (r : PseudoTcpSocket × ℕ). Frame s r.0 in
    if-Ensures P (ltb (sub64 snd_buf_size s.slen) (length bytes)) _ _
      (λ full. g_assert-Ensures P (not ctrl) _ (refl, here)) (λ room. (refl, here))

packet-Frame :
    (s : PseudoTcpSocket) (seq flags : ℕ) (body : Option (List ℕ))
    → Ensures
        (λ (r : PseudoTcpSocket × PseudoTcpWriteResult). Frame s r.0)
        (packet s seq flags body)
packet-Frame s seq flags body =
    Ensures-weaken (λ (r : PseudoTcpSocket × PseudoTcpWriteResult). Same s r.0)
      (λ (r : PseudoTcpSocket × PseudoTcpWriteResult). Frame s r.0) (packet s seq flags body)
      (λ r h. Keeps-Frame s r.0 h.0) (packet-Same s seq flags body)

pub attempt_send-Frame :
    (s t : PseudoTcpSocket) (sflags : SendFlags)
    → Frame s t
    → Ensures (Frame s) (attempt_send t sflags)
attempt_send-Frame s t sflags h =
    Ensures-weaken (Keeps t) (Frame s) (attempt_send t sflags)
      (λ r k. Frame-trans s t r h (Keeps-Frame t r k)) (attempt_send-Keeps t sflags)

-- Each goes on from a state that `s` may be in.
ack_due-Frame : (s t : PseudoTcpSocket) (now : ℕ) → Frame s t → Ensures (Frame s) (ack_due t now)
unfolding ack_due
ack_due-Frame s t now h =
    if-Ensures (Frame s) (not (t.t_ack == 0) && is_due t.t_ack ack_delay now) _ _
      (λ due.
        >>=-Ensures (λ (r : PseudoTcpSocket × PseudoTcpWriteResult). Frame t r.0) (Frame s)
          (packet t t.snd_nxt 0 none) _ (packet-Frame t t.snd_nxt 0 none)
          (λ r k. Frame-trans s t r.0 h k))
      (λ later. h)

abbrev GoesOn : PseudoTcpSocket → (PseudoTcpSocket → Run PseudoTcpSocket) → Type 0
GoesOn s go_on = (t : PseudoTcpSocket) → Frame s t → Ensures (Frame s) (go_on t)

probe_due-Frame :
    (s t : PseudoTcpSocket) (now : ℕ) (go_on : PseudoTcpSocket → Run PseudoTcpSocket)
    → Frame s t
    → GoesOn s go_on
    → Ensures (Frame s) (probe_due t now go_on)
unfolding probe_due
probe_due-Frame s t now go_on h more =
    if-Ensures (Frame s) ((t.snd_wnd == 0) && is_due t.lastsend t.rx_rto now) _ (go_on t)
      (λ due.
        if-Ensures (Frame s) (leb_ℤ (pos 15000) (time_diff now t.lastrecv)) _ _
          (λ silent. Frame-trans s t (closedown t econnaborted) h (closedown-Frame t econnaborted))
          (λ alive.
            >>=-Ensures (λ (r : PseudoTcpSocket × PseudoTcpWriteResult). Frame t r.0) (Frame s)
              (packet t (sub32 t.snd_nxt 1) 0 none) _ (packet-Frame t (sub32 t.snd_nxt 1) 0 none)
              (λ r k. more (probed r.0 now) (
                Frame-trans s t (probed r.0 now) h
                  (Frame-trans t r.0 (probed r.0 now) k (refl, here))))))
      (λ later. more t h)

backed_off-Frame :
    (s t : PseudoTcpSocket) (now : ℕ) (go_on : PseudoTcpSocket → Run PseudoTcpSocket)
    (r : PseudoTcpSocket × Bool)
    → Frame s t
    → GoesOn s go_on
    → Frame t r.0
    → Ensures (Frame s) (backed_off now go_on r)
backed_off-Frame s t now go_on (r, false) h more k =
    Frame-trans s t (closedown r econnaborted) h
      (Frame-trans t r (closedown r econnaborted) k (closedown-Frame r econnaborted))
backed_off-Frame s t now go_on (r, true) h more k =
    more (slowed r now)
      (Frame-trans s t (slowed r now) h (Frame-trans t r (slowed r now) k (refl, here)))

retransmit_due-Frame :
    (s t : PseudoTcpSocket) (now : ℕ) (go_on : PseudoTcpSocket → Run PseudoTcpSocket)
    → Frame s t
    → GoesOn s go_on
    → Ensures (Frame s) (retransmit_due t now go_on)
unfolding retransmit_due
retransmit_due-Frame s t now go_on h more =
    if-Ensures (Frame s) (not (t.rto_base == 0) && is_due t.rto_base t.rx_rto now) _ (go_on t)
      (λ due.
        >>=-Ensures (λ (r : PseudoTcpSocket × Bool). Frame t r.0) (Frame s)
          (transmit_first t t.slist now) (backed_off now go_on) (transmit_first-Frame t t.slist now)
          (λ r k. backed_off-Frame s t now go_on r h more k))
      (λ later. more t h)

pub pseudo_tcp_socket_notify_clock-Frame :
    (s : PseudoTcpSocket) → Ensures (Frame s) (pseudo_tcp_socket_notify_clock s)
unfolding pseudo_tcp_socket_notify_clock get_current_time
pseudo_tcp_socket_notify_clock-Frame s =
    let now = s.clock s.ticks % 2 ^ 32 in
    if-Ensures (Frame s) (is_closed s.state) _ _ (λ over. (refl, here))
      (λ alive.
        retransmit_due-Frame s (record s { ticks = s.ticks + 1 }) now _ (refl, here)
          (λ t h. probe_due-Frame s t now _ h (λ u k. ack_due-Frame s u now k)))

is_listening_lem : (a : PseudoTcpState) → is_listening a ≡ true → a ≡ listen
is_listening_lem listen e = refl
is_listening_lem syn_sent e = absurd (cc)
is_listening_lem syn_received e = absurd (cc)
is_listening_lem established e = absurd (cc)
is_listening_lem closed e = absurd (cc)

to_syn_sent : (a : PseudoTcpState) → a ≡ listen → Reach a syn_sent
to_syn_sent a e = rw e (next here connect)

pub pseudo_tcp_socket_connect-Frame :
    (s : PseudoTcpSocket)
    → Ensures (λ (r : PseudoTcpSocket × Bool). Frame s r.0) (pseudo_tcp_socket_connect s)
unfolding pseudo_tcp_socket_connect
pseudo_tcp_socket_connect-Frame s =
    let P = λ (r : PseudoTcpSocket × Bool). Frame s r.0 in
    let t = record s { state = syn_sent } in
    if-Ensures P (is_listening s.state) _ _
      (λ first.
        let start : Frame s t = (refl, to_syn_sent s.state (is_listening_lem s.state first)) in
        >>=-Ensures (λ (r : PseudoTcpSocket × ℕ). Frame t r.0) P (queue t (ctl_connect ∷ []) true) _
          (queue-Frame t (ctl_connect ∷ []) true)
          (λ r k.
            >>=-Ensures (Frame s) P (attempt_send r.0 sf_none) _
              (attempt_send-Frame s r.0 sf_none (Frame-trans s t r.0 start k)) (λ u l. l)))
      (λ other. (refl, here))

pub pseudo_tcp_socket_send-Frame :
    (s : PseudoTcpSocket) (bytes : List ℕ)
    → Ensures (λ (r : PseudoTcpSocket × Option ℕ). Frame s r.0) (pseudo_tcp_socket_send s bytes)
unfolding pseudo_tcp_socket_send
pseudo_tcp_socket_send-Frame s bytes =
    let P = λ (r : PseudoTcpSocket × Option ℕ). Frame s r.0 in
    if-Ensures P (not (is_established s.state)) _ _ (λ other. (refl, here))
      (λ open_yet.
        if-Ensures P (s.slen == snd_buf_size) _ _ (λ full. (refl, here))
          (λ room.
            >>=-Ensures (λ (r : PseudoTcpSocket × ℕ). Frame s r.0) P (queue s bytes false) _
              (queue-Frame s bytes false)
              (λ (t, n) k.
                >>=-Ensures (Frame s) P (attempt_send t sf_none) _
                  (attempt_send-Frame s t sf_none k)
                  (λ u l. elim (Bool-cases (ltb 0 n && ltb n (length bytes))) [
                    | inl part ↦ rw part (l.0, l.1)
                    | inr whole ↦ rw whole (l.0, l.1)
                  ]))))
